-- ===== src/Command.antt =====
-- CommonSource/FileOperation/command.c: the hex commands of the scripts, kept in a loop queue of
-- buffers. A string is the list of its characters; behind it a read gives the end, 0.

mod Tests
pub mod Hex
use eclipse_code.Prelude.{
  ℕ, zero, suc, ◌+◌, ◌-◌, ◌*◌, ◌/◌, ◌%◌, Bool, true, false, ◌&&◌, ◌||◌, not, Option, some, none,
  List, [], ◌∷◌, ◌==◌, ltb, leb, if◌then◌else◌, get_or, set, u8_mod, u16_mod,
}
use eclipse_code.LoopQueue.{ListManager, first_in, first_out, realse_buf, initialize}

-- `MaxCommandBufNumber`, `MaxCommandLength`, `CommandStartAddr`, `CommandLengthAddr`
abbrev max_command_buf_number : ℕ
max_command_buf_number = 10

abbrev max_command_length : ℕ
max_command_length = 20

abbrev command_start_addr : ℕ
command_start_addr = 9

abbrev command_length_addr : ℕ
command_length_addr = 0

-- the variables of the file
pub record Commands : Type 0 where
  pub command_queue_manager : ListManager
  pub command_buf : List (List ℕ)

-- `ScriptCommandType`
pub data ScriptCommandType : Type 0 where
  unknow_command : ScriptCommandType
  know_command : ScriptCommandType
  wait : ScriptCommandType
  no_command_any_more : ScriptCommandType

-- `ScriptCommandParam`
pub record ScriptCommandParam : Type 0 where
  pub command : ScriptCommandType
  pub wait_time : ℕ

-- `CharToHexTable`
abbrev pub char_to_hex_table : List ℕ
char_to_hex_table =
    0 ∷ 1 ∷ 2 ∷ 3 ∷ 4 ∷ 5 ∷ 6 ∷ 7 ∷ 8 ∷ 9 ∷ 255 ∷ 255 ∷ 255 ∷ 255 ∷ 255 ∷ 255 ∷ 255 ∷ 10 ∷ 11 ∷ 12
    ∷ 13 ∷ 14 ∷ 15 ∷ 255 ∷ 255 ∷ 255 ∷ 255 ∷ 255 ∷ 255 ∷ 255 ∷ 255 ∷ 255 ∷ 255 ∷ 255 ∷ 255 ∷ 255
    ∷ 255 ∷ 255 ∷ 255 ∷ 255 ∷ 255 ∷ 255 ∷ 255 ∷ 255 ∷ 255 ∷ 255 ∷ 255 ∷ 255 ∷ 255 ∷ 10 ∷ 11 ∷ 12
    ∷ 13 ∷ 14 ∷ 15 ∷ []

-- the loop of `GetStringLength` with `n` rounds left
abbrev length_loop : ℕ → ℕ → List ℕ → ℕ
length_loop zero i s = i
length_loop (suc n) i s =
    let rest = length_loop n (i + 1) s in if get_or s i 0 == 0 then i else rest

unfoldable pub get_string_length : List ℕ → ℕ
get_string_length s = let i = length_loop 255 0 s in let j = if ltb i 1 then 1 else i in j - 1

abbrev pub hex_of : ℕ → ℕ
hex_of c = get_or char_to_hex_table (c - 48) 255

-- `CharToHex`; the second part is `isOK`
unfoldable pub char_to_hex : ℕ → ℕ → ℕ × Bool
char_to_hex high low =
    if (ltb high 48 || ltb 102 high) || (ltb low 48 || ltb 102 low)
    then (0, false)
    else if (hex_of high == 255) || (hex_of low == 255)
    then (0, false)
    else ((hex_of low + hex_of high * 16) % u8_mod, true)

-- the number of bytes, for a string that is long enough
abbrev command_size : ℕ → ℕ
command_size length =
    let n = length - command_start_addr in
    let even = if not (n % 2 == 0) then n + 1 else n in
    if ltb max_command_length (even / 2) then max_command_length else even / 2

-- the loop over the pairs of characters, with `n` rounds left
abbrev hex_loop : ℕ → ℕ → List ℕ → List ℕ → List ℕ
hex_loop zero i s buf = buf
hex_loop (suc n) i s buf = hex_loop n (i + 1) s (
    set buf i
      (char_to_hex (get_or s (command_start_addr + i * 2) 0)
        (get_or s (command_start_addr + i * 2 + 1) 0)).0)

-- the copy into the buffer `n`
unfoldable pub copy_into : ℕ → List ℕ → Commands → Bool × Commands
copy_into n s c =
    let length = get_string_length s in
    if ltb length command_start_addr then (false, c) else (
      true,
      record c {
        command_buf =
            set c.command_buf n (hex_loop (command_size length) 0 s (get_or c.command_buf n []));
      },
    )

abbrev copy_by : (Bool × ℕ) × ListManager → List ℕ → Commands → Bool × Commands
copy_by ((is_ok, n), q) s c =
    let d = record c { command_queue_manager = q } in
    if is_ok && ltb n max_command_buf_number then copy_into n s d else (false, d)

-- `CopyHexModeCommandByCharType`
unfoldable pub copy_hex_mode_command_by_char_type : List ℕ → Commands → Bool × Commands
copy_hex_mode_command_by_char_type s c = copy_by (first_in false c.command_queue_manager) s c

-- `CopyHexModeCommandByCharTypeImmediately`
abbrev copy_hex_mode_command_by_char_type_immediately : List ℕ → Commands → Bool × Commands
copy_hex_mode_command_by_char_type_immediately s c = copy_into 0 s c

-- `strncmp` with the first characters, none of which is the end
abbrev starts_with : List ℕ → List ℕ → Bool
starts_with [] s = true
starts_with (x ∷ xs) [] = false
starts_with (x ∷ xs) (y ∷ ys) = let rest = starts_with xs ys in if x == y then rest else false

-- the characters of `:wait:` and of `:command:`
abbrev str_1 : List ℕ
str_1 = 58 ∷ 119 ∷ 97 ∷ 105 ∷ 116 ∷ 58 ∷ []

abbrev str_2 : List ℕ
str_2 = 58 ∷ 99 ∷ 111 ∷ 109 ∷ 109 ∷ 97 ∷ 110 ∷ 100 ∷ 58 ∷ []

-- the time of a wait: two pairs of characters, or one, or none
abbrev wait_of : ℕ × Bool → ℕ × Bool → ℕ
wait_of (first, false) second = 100
wait_of (first, true) (result, true) = result + (first * 256) % u16_mod
wait_of (first, true) (result, false) = first

-- `CommandAnalysis`
unfoldable pub command_analysis :
    List ℕ → ScriptCommandParam → Bool → Commands → Bool × ScriptCommandParam × Commands
command_analysis s p is_immediately c =
    if starts_with str_1 s
    then (
      true,
      record {
        command = wait;
        wait_time =
            wait_of (char_to_hex (get_or s 6 0) (get_or s 7 0))
              (char_to_hex (get_or s 8 0) (get_or s 9 0));
      },
      c,
    )
    else if starts_with str_2 s
    then (let copied =
          if not is_immediately
          then copy_hex_mode_command_by_char_type s c
          else copy_hex_mode_command_by_char_type_immediately s c in
        (copied.0, record p { command = know_command }, copied.1))
    else (false, record p { command = unknow_command }, c)

-- `CommandReceivedInit`
abbrev command_received_init : Commands → Commands
command_received_init c = record c { command_queue_manager = initialize c.command_queue_manager }

-- the length that a buffer begins with, cut to the greatest
abbrev loaded_length : Commands → ℕ → ℕ
loaded_length c n =
    let first = get_or (get_or c.command_buf n []) command_length_addr 0 in
    if ltb max_command_length first then max_command_length else first

-- the buffer, its length, `isOK`
abbrev Loaded : Type 0
Loaded = (ℕ × ℕ × Bool) × Commands

abbrev load_by : (Bool × ℕ) × ListManager → Commands → Loaded
load_by ((true, n), q) c =
    ((n, loaded_length c n, true), record c { command_queue_manager = realse_buf n q })
load_by ((false, n), q) c = ((0, loaded_length c 0, false), record c { command_queue_manager = q })

-- `LoadCommand`
unfoldable pub load_command : Bool → Commands → Loaded
load_command true c = ((0, loaded_length c 0, true), c)
load_command false c = load_by (first_out c.command_queue_manager) c
