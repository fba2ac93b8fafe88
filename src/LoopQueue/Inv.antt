-- ===== src/LoopQueue/Inv.antt =====
-- The invariant of the ring of loop_queues.c: the counters stay in range, the state agrees with
-- the count, and every operation keeps it.
use eclipse_code.Prelude.{
  ℕ, zero, suc, ◌+◌, ◌-◌, ◌%◌, ◌≤◌, ◌<◌, ◌≡◌, refl, Bool, List, leb, ◌==◌, if◌then◌else◌, length,
  length-set, set, arith, u8_mod,
}
use eclipse_code.LoopQueue.Spec.{Op, put, get, give_back, clear, used_number, ask_empty}
use eclipse_code.LoopQueue.{
  QueueState, queue_empty, queue_normal, queue_full, queue_state_error, ListManager, buf_free,
  buf_used, updata_list_state, node_move_forward, node_number_in_move_forward,
  node_number_out_move_forward, buf_init_loop, initialize, occupy, count_in, count_out, first_in_by,
  first_in, first_out_by, first_out, realse_buf, step,
}

-- the state that belongs to `used` nodes out of `max`
abbrev pub state_of : ℕ → ℕ → QueueState
state_of used max =
    if used == 0 then queue_empty else if leb max used then queue_full else queue_normal

-- `(first_out + used) mod max`, written without a division by a variable
abbrev pub wrap : ℕ → ℕ → ℕ
wrap max n = if leb max n then n - max else n

pub wrap_lt : (max n : ℕ) → n < max + max → wrap max n < max
wrap_lt max n h = ground arith

pub wrap-wrap :
    (max out n : ℕ)
    → out < max
    → n < max
    → wrap max (wrap max (out + 1) + n) ≡ wrap max (out + suc n)
wrap-wrap max out n h k = ground arith

pub record IsValid (m : ListManager) : Type 0 where
  pub some_node : 0 < m.valid_node_number
  pub small : m.valid_node_number < 65535
  pub room : length m.p_buf ≡ m.valid_node_number
  pub in_range : m.lmp.first_in_node_num < m.valid_node_number
  pub out_range : m.lmp.first_out_node_num < m.valid_node_number
  pub used_range : m.lmp.used_node_num ≤ m.valid_node_number
  pub closed :
      m.lmp.first_in_node_num
      ≡ wrap m.valid_node_number (m.lmp.first_out_node_num + m.lmp.used_node_num)
  pub agrees : m.lmp.state ≡ state_of m.lmp.used_node_num m.valid_node_number

pub node_move_forward_lem :
    (max node : ℕ) → node < max → max < 65535 → node_move_forward max node ≡ wrap max (node + 1)
unfolding node_move_forward
node_move_forward_lem max node h k = ground arith

pub length-buf_init_loop : (n i : ℕ) (buf : List ℕ) → length (buf_init_loop n i buf) ≡ length buf
unfolding buf_init_loop
length-buf_init_loop zero i buf = refl
length-buf_init_loop (suc n) i buf =
    omega (arith, length-buf_init_loop n (i + 1) (set buf i buf_free), length-set buf i buf_free)

pub initialize-IsValid :
    (m : ListManager)
    → 0 < m.valid_node_number
    → m.valid_node_number < 65535
    → length m.p_buf ≡ m.valid_node_number
    → IsValid (initialize m)
unfolding initialize
initialize-IsValid m h k e = ground (arith, length-buf_init_loop m.valid_node_number 0 m.p_buf)

module _ {m : ListManager} (v : IsValid m) where
  room_set : (x : ℕ) → length (set m.p_buf m.lmp.first_in_node_num x) ≡ m.valid_node_number
  room_set x = omega (arith, length-set m.p_buf m.lmp.first_in_node_num x, v.room)

  pub in_forward :
      node_move_forward m.valid_node_number m.lmp.first_in_node_num
      ≡ wrap m.valid_node_number (m.lmp.first_in_node_num + 1)
  in_forward = node_move_forward_lem _ _ v.in_range v.small

  pub out_forward :
      node_move_forward m.valid_node_number m.lmp.first_out_node_num
      ≡ wrap m.valid_node_number (m.lmp.first_out_node_num + 1)
  out_forward = node_move_forward_lem _ _ v.out_range v.small

  first_in_by-IsValid :
      (s : QueueState) (permit : Bool) → m.lmp.state ≡ s → IsValid (first_in_by s permit m).1
  unfolding first_in_by updata_list_state count_in occupy node_number_in_move_forward
      node_number_out_move_forward
  first_in_by-IsValid queue_full permit e =
      ground (arith, in_forward, out_forward, room_set (if permit then buf_free else buf_used))
  first_in_by-IsValid queue_state_error permit e = v
  first_in_by-IsValid queue_empty permit e =
      ground (arith, in_forward, room_set (if permit then buf_free else buf_used))
  first_in_by-IsValid queue_normal permit e =
      ground (arith, in_forward, room_set (if permit then buf_free else buf_used))

pub first_in-IsValid : (permit : Bool) {m : ListManager} → IsValid m → IsValid (first_in permit m).1
unfolding first_in
first_in-IsValid permit {m} v = first_in_by-IsValid v m.lmp.state permit refl

pub first_out-IsValid : {m : ListManager} → IsValid m → IsValid (first_out m).1
unfolding first_out first_out_by updata_list_state count_out node_number_out_move_forward
first_out-IsValid {m} v =
    ground (arith, node_move_forward_lem m.valid_node_number m.lmp.first_out_node_num)

pub realse_buf-IsValid : (n : ℕ) {m : ListManager} → IsValid m → IsValid (realse_buf n m)
unfolding realse_buf
realse_buf-IsValid n {m} v = ground (arith, length-set m.p_buf (n % u8_mod) buf_free)

-- Every call of the header keeps the invariant.
pub step-IsValid : (op : Op) {m : ListManager} → IsValid m → IsValid (step op m).1
unfolding step
step-IsValid (put permit) v = first_in-IsValid permit v
step-IsValid get v = first_out-IsValid v
step-IsValid (give_back n) v = realse_buf-IsValid n v
step-IsValid clear {m} v = initialize-IsValid m v.some_node v.small v.room
step-IsValid used_number v = v
step-IsValid ask_empty v = v
