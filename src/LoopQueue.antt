-- ===== src/LoopQueue.antt =====
-- CommonSource/MulLoopQueue/loop_queues.c and .h: a ring of node numbers with one busy flag for
-- each node. `static` helpers come first, then the functions of the header. A function of the
-- header takes a pointer: `on_pointer` is its test against `X_Null`.
pub mod Inv
pub mod Spec
pub mod Refine
pub mod Release
pub mod Reply
mod Tests
use Spec.{Op, put, get, give_back, clear, used_number, ask_empty}
use eclipse_code.Prelude.{
  ℕ, zero, suc, ◌+◌, ◌-◌, ◌%◌, Bool, true, false, Option, List, [], ◌∷◌, ltb, leb, ◌==◌,
  if◌then◌else◌, get_or, set, u8_mod, u16_mod, on_pointer,
}

-- `BUF_FREE` and `BUF_USED`
abbrev pub buf_free : ℕ
buf_free = 0

abbrev pub buf_used : ℕ
buf_used = 1

pub data QueueState : Type 0 where
  queue_empty queue_normal queue_full queue_state_error : QueueState

-- `sListManagerParam`
pub record ListManagerParam : Type 0 where
  pub state : QueueState
  pub first_in_node_num : ℕ
  pub first_out_node_num : ℕ
  pub used_node_num : ℕ

-- `sListManager`. `p_buf` is the array that the definition macros allocate.
pub record ListManager : Type 0 where
  pub p_buf : List ℕ
  pub valid_node_number : ℕ
  pub lmp : ListManagerParam

-- `UpdataListState`
unfoldable pub updata_list_state : ListManager → ListManager
updata_list_state m =
    if lmp.used_node_num == 0
    then record m { lmp = record lmp { state = queue_empty } }
    else if leb m.valid_node_number lmp.used_node_num
    then record m { lmp = record lmp { state = queue_full } }
    else record m { lmp = record lmp { state = queue_normal } }
  where
    open m use {lmp}

-- `NodeMoveForward`. The sum is made in `int`, and stored in a `uint16_t`.
unfoldable pub node_move_forward : ℕ → ℕ → ℕ
node_move_forward max_node current_node =
    if leb max_node (current_node + 1) then 0 else (current_node + 1) % u16_mod

-- `NodeNumberInMoveForward`; its result is not used.
unfoldable pub node_number_in_move_forward : ListManager → ListManager
node_number_in_move_forward m = record m {
  lmp = record lmp {
    first_in_node_num = node_move_forward m.valid_node_number lmp.first_in_node_num;
  };
}
  where
    open m use {lmp}

-- `NodeNumberOutMoveForward`; its result is not used.
unfoldable pub node_number_out_move_forward : ListManager → ListManager
node_number_out_move_forward m = record m {
  lmp = record lmp {
    first_out_node_num = node_move_forward m.valid_node_number lmp.first_out_node_num;
  };
}
  where
    open m use {lmp}

-- the loop of `SimpleQueueInitialize` with `n` rounds left, at `i`
unfoldable pub buf_init_loop : ℕ → ℕ → List ℕ → List ℕ
buf_init_loop zero i buf = buf
buf_init_loop (suc n) i buf = buf_init_loop n (i + 1) (set buf i buf_free)

unfoldable pub initialize : ListManager → ListManager
initialize m =
    let start : ListManagerParam = record {
      state = queue_empty;
      first_in_node_num = 0;
      first_out_node_num = 0;
      used_node_num = 0;
    } in
    if leb 65535 m.valid_node_number
    then record m { lmp = start }
    else record m { p_buf = buf_init_loop m.valid_node_number 0 m.p_buf; lmp = start }

-- `p_buf[node] = is_OccupyPermit == X_False ? BUF_USED : BUF_FREE`
unfoldable pub occupy : Bool → ℕ → ListManager → ListManager
occupy permit node m = record m { p_buf = set m.p_buf node (if permit then buf_free else buf_used) }

-- `used_node_num ++` on a `uint16_t`
unfoldable pub count_in : ListManager → ListManager
count_in m = record m { lmp = record lmp { used_node_num = (lmp.used_node_num + 1) % u16_mod } }
  where
    open m use {lmp}

-- `if(used_node_num > 0) {used_node_num --;}`
unfoldable pub count_out : ListManager → ListManager
count_out m =
    if ltb 0 lmp.used_node_num
    then record m { lmp = record lmp { used_node_num = lmp.used_node_num - 1 } }
    else m
  where
    open m use {lmp}

-- What `SimpleQueueFirstIn` and `SimpleQueueFirstOut` hand back: `*isOK` and the node number.
abbrev pub Reply : Type 0
Reply = Bool × ℕ

-- The `switch` of `SimpleQueueFirstIn` on the state. A read of `p_buf` out of range is a busy node
-- here; the invariant of `Inv` rules it out.
unfoldable pub first_in_by : QueueState → Bool → ListManager → Reply × ListManager
first_in_by queue_full permit m =
    if get_or m.p_buf m.lmp.first_in_node_num buf_used == buf_free
    then (
      (true, m.lmp.first_in_node_num),
      occupy permit m.lmp.first_in_node_num
          (node_number_out_move_forward (node_number_in_move_forward m)),
    )
    else ((false, 0), m)
first_in_by queue_state_error permit m = ((false, 0), m)
first_in_by _ permit m =
    if get_or m.p_buf m.lmp.first_in_node_num buf_used == buf_free
    then (
      (true, m.lmp.first_in_node_num),
      updata_list_state
          (count_in (occupy permit m.lmp.first_in_node_num (node_number_in_move_forward m))),
    )
    else ((false, 0), m)

unfoldable pub first_in : Bool → ListManager → Reply × ListManager
first_in permit m = first_in_by m.lmp.state permit m

-- The `switch` of `SimpleQueueFirstOut` on the state.
unfoldable pub first_out_by : QueueState → ListManager → Reply × ListManager
first_out_by queue_empty m = ((false, 0), m)
first_out_by queue_state_error m = ((false, 0), m)
first_out_by _ m = (
  (true, m.lmp.first_out_node_num),
  updata_list_state (count_out (node_number_out_move_forward m)),
)

unfoldable pub first_out : ListManager → Reply × ListManager
first_out m = first_out_by m.lmp.state m

-- The argument is a `uint8_t`: a caller's node number is cut to eight bits by the call.
unfoldable pub realse_buf : ℕ → ListManager → ListManager
realse_buf buf_num m =
    if leb m.valid_node_number (buf_num % u8_mod)
    then m
    else record m { p_buf = set m.p_buf (buf_num % u8_mod) buf_free }

unfoldable pub is_queue_empty : QueueState → Bool
is_queue_empty queue_empty = true
is_queue_empty _ = false

pub simple_queue_initialize : Option ListManager → Unit {0} × Option ListManager
simple_queue_initialize = on_pointer tt (λ m. (tt, initialize m))

pub simple_queue_first_in : Bool → Option ListManager → Reply × Option ListManager
simple_queue_first_in permit = on_pointer (false, 0) (first_in permit)

pub simple_queue_first_out : Option ListManager → Reply × Option ListManager
simple_queue_first_out = on_pointer (false, 0) first_out

pub clear_simple_queue : Option ListManager → Unit {0} × Option ListManager
clear_simple_queue p = simple_queue_initialize p

pub realse_simple_queue_buf : ℕ → Option ListManager → Unit {0} × Option ListManager
realse_simple_queue_buf buf_num = on_pointer tt (λ m. (tt, realse_buf buf_num m))

pub get_simple_queue_used_node_number : Option ListManager → ℕ × Option ListManager
get_simple_queue_used_node_number = on_pointer 0 (λ m. (m.lmp.used_node_num, m))

pub does_simple_queue_empty : Option ListManager → Bool × Option ListManager
unfolding is_queue_empty
does_simple_queue_empty = on_pointer true (λ m. (is_queue_empty m.lmp.state, m))

-- A client's calls through a valid pointer, in order, with what each hands back. `ClearSimpleQueue`
-- is `SimpleQueueInitialize`.
pub step : Op → ListManager → Reply × ListManager
step (put permit) m = first_in permit m
step get m = first_out m
step (give_back n) m = ((true, n), realse_buf n m)
step clear m = ((true, 0), initialize m)
step used_number m = ((true, m.lmp.used_node_num), m)
step ask_empty m = ((is_queue_empty m.lmp.state, 0), m)

pub run : List Op → ListManager → List Reply
run [] m = []
run (op ∷ ops) m = let (r, m') = step op m in r ∷ run ops m'
