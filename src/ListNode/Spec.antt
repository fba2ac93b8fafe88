-- ===== src/ListNode/Spec.antt =====
-- What the list of m_list_node.c promises: a sequence of at most `size` numbers, edited at its ends
-- and at places, with the result code of each call. A search for a value answers whether it stands in
-- the sequence: the place in the array that the code hands back with it is not part of a sequence.
use eclipse_code.Prelude.{
  ℕ, Bool, true, false, Option, some, List, [], ◌∷◌, ◌++◌, ltb, leb, ◌==◌, if◌then◌else◌, length,
  get_elem?, set, AppResult, app_successed, app_beyond_scope, app_already_done_before,
  app_param_error,
}
use eclipse_code.ListNode.Cells.{insert_at, remove_at}

pub data Op : Type 0 where
  add_head : ℕ → Op
  add_tail : ℕ → Op
  remove_head : Op
  remove_tail : Op
  insert_in : ℕ → ℕ → Op
  pull_out : ℕ → Op
  clear : Op
  read_at : ℕ → Op
  updata_at : ℕ → ℕ → Op
  size_of : Op
  ask_empty : Op
  find_value : ℕ → Op

pub data Reply : Type 0 where
  code : AppResult → Reply
  flag : Bool → Reply
  number : Option ℕ → Reply

unfoldable pub holds_value : ℕ → List ℕ → Bool
holds_value v [] = false
holds_value v (x ∷ vs) = if x == v then true else holds_value v vs

unfoldable pub last_place : List ℕ → ℕ
last_place [] = 0
last_place (x ∷ vs) = length vs

unfoldable pub removed_from : ℕ → List ℕ → Reply × List ℕ
removed_from k [] = (code app_already_done_before, [])
removed_from k (x ∷ vs) = (code app_successed, remove_at k (x ∷ vs))

module _ (size : ℕ) where
  unfoldable pub step : Op → List ℕ → Reply × List ℕ
  unfolding last_place removed_from
  step (add_head v) vs =
      if leb size (length vs) then (code app_beyond_scope, vs) else (code app_successed, v ∷ vs)
  step (add_tail v) vs =
      if leb size (length vs)
      then (code app_beyond_scope, vs)
      else (code app_successed, vs ++ (v ∷ []))
  step remove_head vs = removed_from 0 vs
  step remove_tail vs = removed_from (last_place vs) vs
  step (insert_in k v) vs =
      if leb size (length vs)
      then (code app_beyond_scope, vs)
      else if ltb (length vs) k
      then (code app_param_error, vs)
      else (code app_successed, insert_at k v vs)
  step (pull_out k) vs =
      if leb (length vs) k then (code app_param_error, vs) else (code app_successed, remove_at k vs)
  step clear vs = (code app_successed, [])
  step (read_at k) vs = (number (get_elem? vs k), vs)
  step (updata_at k v) vs = if ltb k (length vs) then (flag true, set vs k v) else (flag false, vs)
  step size_of vs = (number (some (length vs)), vs)
  step ask_empty vs = (flag (length vs == 0), vs)
  step (find_value v) vs = (flag (holds_value v vs), vs)

  unfoldable pub run : List Op → List ℕ → List Reply
  run [] vs = []
  run (op ∷ ops) vs = let (r, vs') = step op vs in r ∷ run ops vs'
