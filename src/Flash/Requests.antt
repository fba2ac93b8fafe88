-- ===== src/Flash/Requests.antt =====
-- What the three requests by address of FlashEventHandle.c accept, and where their parameters go.
use eclipse_code.Prelude.{
  ℕ, ◌+◌, ◌%◌, ◌^◌, ◌≤◌, ◌<◌, ◌≡◌, ◌≢◌, refl, sym, ap, ◌∙◌, subst, true, false, some, length,
  get_elem?, get_elem?-set, arith, AppResult, app_successed,
}
use eclipse_code.LoopQueue.{ListManager, Reply, first_in}
use eclipse_code.LoopQueue.Inv
use eclipse_code.LoopQueue.Reply.{Replied, first_in-Replied}
use eclipse_code.Flash.{
  OperationParam, mfo_read, mfo_write, mfo_erase, BasicParam, Handler, does_addr_is_page_aligned,
}
use eclipse_code.Flash.Operations.{put_by, put_request, read_request, write_request, erase_request}
use eclipse_code.Flash.Checks.{aligned32_iff, page_aligned_iff, within_bounds_iff}

-- a request by address of one of the three kinds, and its call
abbrev pub request : OperationParam → Handler → AppResult × Handler
request (mfo_read r) = read_request r
request (mfo_write w) = write_request w
request (mfo_erase e) = erase_request e

abbrev start_of : OperationParam → ℕ
start_of (mfo_read r) = r.read_start_addr
start_of (mfo_write w) = w.write_start_addr
start_of (mfo_erase e) = e.erase_start_addr

abbrev length_of : OperationParam → ℕ
length_of (mfo_read r) = r.read_length
length_of (mfo_write w) = w.write_length
length_of (mfo_erase e) = e.erase_length

-- the alignment that an operation needs of its address
abbrev Aligned : ℕ → OperationParam → Type 0
Aligned erase_unit (mfo_erase e) = e.erase_start_addr % erase_unit ≡ 0
Aligned erase_unit op = start_of op % 4 ≡ 0

-- The range is not empty, aligned, and in the chip.
pub record InChip (b : BasicParam) (op : OperationParam) : Type 0 where
  pub some_byte : 0 < length_of op
  pub low : b.base_addr ≤ start_of op
  pub high : start_of op + length_of op ≤ b.base_addr + b.total_size_in_bytes
  pub aligned : Aligned b.erase_uint op

put_by-refused :
    (r : Reply × ListManager) (op : OperationParam) (h : Handler)
    → Replied h.p_loop_queue r
    → (put_by r op h).0 ≢ app_successed
    → (put_by r op h).1 ≡ h
unfolding put_by
put_by-refused ((true, n), q) op h rep fail = absurd (fail refl)
put_by-refused ((false, n), q) op h rep fail = rw rep refl

put_request-refused :
    (op : OperationParam) (h : Handler)
    → (put_request op h).0 ≢ app_successed
    → (put_request op h).1 ≡ h
unfolding put_request
put_request-refused op h fail =
    put_by-refused (first_in false h.p_loop_queue) op h (first_in-Replied false h.p_loop_queue) fail

-- A request by address (mFlashReadRequest, mFlashWriteRequest, mFlashEraseRequest) that does not
-- succeed leaves the handler as it was, whatever it fails for.
pub request-refused :
    (op : OperationParam) (h : Handler) → (request op h).0 ≢ app_successed → (request op h).1 ≡ h
unfolding read_request write_request erase_request
request-refused (mfo_read r) h fail = ground (arith, put_request-refused (mfo_read r) h)
request-refused (mfo_write w) h fail = ground (arith, put_request-refused (mfo_write w) h)
request-refused (mfo_erase e) h fail = ground (arith, put_request-refused (mfo_erase e) h)

-- With a success the request came to the loop queue.
request_passed :
    (op : OperationParam) (h : Handler)
    → (request op h).0 ≡ app_successed
    → request op h ≡ put_request op h
unfolding read_request write_request erase_request
request_passed (mfo_read r) h won = ground arith
request_passed (mfo_write w) h won = ground arith
request_passed (mfo_erase e) h won = ground arith

request-InChip :
    (k : ℕ) (op : OperationParam) (h : Handler)
    → k < 32
    → h.p_basic_param.erase_uint ≡ 2 ^ k
    → h.p_basic_param.base_addr + h.p_basic_param.total_size_in_bytes < 4294967296
    → start_of op + length_of op < 4294967296
    → (request op h).0 ≡ app_successed
    → InChip h.p_basic_param op
unfolding read_request write_request erase_request
request-InChip k (mfo_read r) h lt unit fits ends won =
    let range =
      within_bounds_iff h.p_basic_param.base_addr h.p_basic_param.total_size_in_bytes
        r.read_start_addr r.read_length fits ends in
    record {
      some_byte = ground arith;
      low = ground (arith, range);
      high = ground (arith, range);
      aligned = ground (arith, aligned32_iff r.read_start_addr);
    }
request-InChip k (mfo_write w) h lt unit fits ends won =
    let range =
      within_bounds_iff h.p_basic_param.base_addr h.p_basic_param.total_size_in_bytes
        w.write_start_addr w.write_length fits ends in
    record {
      some_byte = ground arith;
      low = ground (arith, range);
      high = ground (arith, range);
      aligned = ground (arith, aligned32_iff w.write_start_addr);
    }
request-InChip k (mfo_erase e) h lt unit fits ends won =
    let range =
      within_bounds_iff h.p_basic_param.base_addr h.p_basic_param.total_size_in_bytes
        e.erase_start_addr e.erase_length fits ends in
    let paged : does_addr_is_page_aligned h.p_basic_param.erase_uint e.erase_start_addr ≡ true =
      ground arith in
    record {
      some_byte = ground arith;
      low = ground (arith, range);
      high = ground (arith, range);
      aligned =
          ap (λ (u : ℕ). e.erase_start_addr % u) unit
          ∙ (page_aligned_iff k e.erase_start_addr lt).0
              (ap (λ (u : ℕ). does_addr_is_page_aligned u e.erase_start_addr) (sym unit) ∙ paged);
    }

-- The request stands at the node that the loop queue has lent, and no other place changed.
pub record Stored (op : OperationParam) (h h' : Handler) : Type 0 where
  pub node : ℕ
  pub lent : first_in false h.p_loop_queue ≡ ((true, node), h'.p_loop_queue)
  pub here : get_elem? h'.p_manager.fop node ≡ some op
  pub elsewhere : (j : ℕ) → j ≢ node → get_elem? h'.p_manager.fop j ≡ get_elem? h.p_manager.fop j

put_by-Stored :
    (r : Reply × ListManager) (op : OperationParam) (h : Handler)
    → first_in false h.p_loop_queue ≡ r
    → Replied h.p_loop_queue r
    → h.p_loop_queue.lmp.first_in_node_num < length h.p_manager.fop
    → (put_by r op h).0 ≡ app_successed
    → Stored op h (put_by r op h).1
unfolding put_by
put_by-Stored ((true, n), q) op h e rep room won = record {
  node = n;
  lent = e;
  here = ground (arith, get_elem?-set h.p_manager.fop n n op);
  elsewhere = λ j ne. ground (arith, get_elem?-set h.p_manager.fop n j op);
}
put_by-Stored ((false, n), q) op h e rep room won = absurd (cc)

-- A request by address (mFlashReadRequest, mFlashWriteRequest, mFlashEraseRequest) that succeeds is for
-- a range in the chip, not empty and aligned as its kind needs it, and stands at the node that the loop
-- queue has lent for it; the other requests stay. The erase unit is a power of two below two to the
-- power 32, the queue is in order with a place for each node, and the ends of the chip and of the range
-- stay below two to the power 32.
pub request-Stored :
    (k : ℕ) (op : OperationParam) (h : Handler)
    → k < 32
    → h.p_basic_param.erase_uint ≡ 2 ^ k
    → h.p_basic_param.base_addr + h.p_basic_param.total_size_in_bytes < 4294967296
    → start_of op + length_of op < 4294967296
    → Inv.IsValid h.p_loop_queue
    → length h.p_manager.fop ≡ h.p_loop_queue.valid_node_number
    → (request op h).0 ≡ app_successed
    → InChip h.p_basic_param op × Stored op h (request op h).1
request-Stored k op h lt unit fits ends v room won =
    let e = request_passed op h won in
    (
      request-InChip k op h lt unit fits ends won,
      subst (λ (u : AppResult × Handler). Stored op h u.1) (sym e)
          (unfold put_request in
            put_by-Stored (first_in false h.p_loop_queue) op h refl
              (first_in-Replied false h.p_loop_queue) (omega (arith, v.in_range))
              (subst (λ (u : AppResult × Handler). u.0 ≡ app_successed) e won)),
    )
