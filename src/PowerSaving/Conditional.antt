-- ===== src/PowerSaving/Conditional.antt =====
-- [T]LogicLab/ScriptsCommandModule/HexCommand.c: a command of a script calls a function, and goes on
-- with a line that depends on the function's answer. `SFP` is the parameter of the scene.
use eclipse_code.Prelude.{
  ℕ, ◌-◌, Bool, false, ◌&&◌, ◌||◌, not, Option, some, none, List, ◌==◌, ltb, if◌then◌else◌, get_or,
}
use eclipse_code.PowerSaving.Scene.{Scene, ScriptAction}

-- `ConditionalCommandLength`
abbrev conditional_command_length : ℕ
conditional_command_length = 7

-- `p_command[i]`
abbrev byte_at : List ℕ → ℕ → ℕ
byte_at p_command i = get_or p_command i 0

abbrev pub called : Option (ℕ → ScriptAction) → ℕ → ScriptAction
called none func_num s = (false, s)
called (some call_function) func_num s = call_function func_num s

-- the line behind the call
abbrev next_line : List ℕ → ℕ → Bool × Scene → ℕ × Scene
next_line p_command current_command_line (is_ok, s) =
    if not (byte_at p_command 3 == 0)
    then if is_ok then (byte_at p_command 4 - 1, s) else (byte_at p_command 5 - 1, s)
    else (current_command_line, s)

-- `ConditionalDoAsCommand`
unfoldable pub conditional_do_as_command :
    Option (ℕ → ScriptAction) → List ℕ → ℕ → ℕ → Scene → ℕ × Scene
conditional_do_as_command call_function p_command length current_command_line s =
    if (byte_at p_command 1 == 85) && (length == conditional_command_length)
    then if ltb (byte_at p_command 4) 1 || ltb (byte_at p_command 5) 1
      then (current_command_line, s)
      else next_line p_command current_command_line (
          called call_function (byte_at p_command 2)
            (record s { param = record (s.param) { param_from_script = byte_at p_command 6 } }))
    else (current_command_line, s)
