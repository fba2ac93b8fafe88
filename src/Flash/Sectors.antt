-- ===== src/Flash/Sectors.antt =====
-- The sector requests of FlashEventHandle.c: addresses, priorities, and the queue that is too large.
use Prim.Native.Nat.{◌∣◌}
use native.Mathlib.Nat
use native.Mathlib.Decide.{dec_lt}
use eclipse_code.Prelude.{
  ℕ, ◌+◌, ◌-◌, ◌*◌, ◌/◌, ◌%◌, ◌≤◌, ◌<◌, ◌≡◌, ◌≢◌, refl, sym, ap, ◌∙◌, subst, false, Option, none,
  arith, AppResult, app_successed,
}
use eclipse_code.PriorityQueue.{PriorityListManager}
use eclipse_code.PriorityQueue.Queue.{queue_initialize, queue_push}
use eclipse_code.Flash.{
  Handler, ReadParam, does_addr_is_within_bounds, does_user_define_sector_is_page_aligned,
}
use eclipse_code.Flash.Operations.{read_request, started, event_init}
use eclipse_code.Flash.SectorOperations.{
  sector_addr, bad_sector, sector_write_request, sector_read_request, sector_priority,
}

-- What mFlashEventInit has checked and set, for a module below two to the power 32 bytes: sectors
-- divide the erase unit, and the chip is a whole number of sectors.
record Ready (h : Handler) : Type 0 where
  some_sector : 0 < h.p_user_param.sector_size
  unit : h.p_user_param.sector_size ∣ h.p_basic_param.erase_uint
  chip :
      h.p_basic_param.total_size_in_bytes
      ≡ h.p_user_param.sector_size * h.p_user_param.total_sector_count
  count :
      h.p_manager.sector_count_in_erase_unit
      ≡ h.p_basic_param.erase_uint / h.p_user_param.sector_size

module _ (h : Handler) (won : (event_init h).0 ≡ app_successed) where
  init_started : event_init h ≡ (app_successed, started h)
  unfolding event_init
  init_started = ground arith

  init_unit : h.p_basic_param.erase_uint % h.p_user_param.sector_size ≡ 0
  unfolding event_init does_user_define_sector_is_page_aligned
  init_unit = ground arith

  init_chip :
      h.p_basic_param.total_size_in_bytes
      ≡ h.p_user_param.sector_size * h.p_user_param.total_sector_count % 4294967296
  unfolding event_init
  init_chip = ground arith

-- mFlashEventInit with a sector size other than 0, of a chip below two to the power 32 bytes with at
-- most 65535 sectors in an erase unit, succeeds only with sectors that divide the erase unit and make
-- up the chip, and counts the sectors of an erase unit.
event_init-Ready :
    (h : Handler)
    → 0 < h.p_user_param.sector_size
    → h.p_user_param.sector_size * h.p_user_param.total_sector_count < 4294967296
    → h.p_basic_param.erase_uint / h.p_user_param.sector_size < 65536
    → (event_init h).0 ≡ app_successed
    → Ready (event_init h).1
event_init-Ready h pos fits few won =
    subst (λ (u : AppResult × Handler). Ready u.1) (sym (init_started h won))
      (unfold started in
        record {
          some_sector = pos;
          unit = Nat.dvd_of_mod-eq-zero h.p_user_param.sector_size (init_unit h won);
          chip = init_chip h won ∙ Nat.mod-eq_of_lt fits;
          count = Nat.mod-eq_of_lt few;
        })

-- a multiple of `d` below another one ends before it
multiple_room : (d a b : ℕ) → 0 < d → d ∣ a → d ∣ b → a < b → a + d ≤ b
multiple_room d a b pos da db lt =
    let gap : d ∣ b - a = Nat.dvd-sub d db da in
    let le : d ≤ b - a = Nat.le_of_dvd (omega arith) gap in omega arith

-- A sector that passes the tests starts at a sector, and its range ends within the size of the chip,
-- counted from address 0, where the address is not cut to 32 bits.
bad_sector_bounds :
    (h : Handler) (page sector len : ℕ)
    → Ready h
    → h.p_user_param.sector_size * sector + h.p_basic_param.erase_uint * page < 4294967296
    → bad_sector h page sector len ≡ false
    → (0 < len)
      × (sector_addr h page sector + len ≤ h.p_basic_param.total_size_in_bytes)
      × (h.p_user_param.sector_size ∣ sector_addr h page sector)
unfolding bad_sector
bad_sector_bounds h page sector len r fits good =
    let size = h.p_user_param.sector_size in
    let addr = size * sector + h.p_basic_param.erase_uint * page in
    let whole : sector_addr h page sector ≡ addr = Nat.mod-eq_of_lt fits in
    let dv : size ∣ addr =
      Nat.dvd-add size (Nat.dvd-mul_right size sector)
        (Nat.dvd-mul_right_of_dvd size r.unit page) in
    let total : size ∣ h.p_basic_param.total_size_in_bytes =
      subst (λ (x : ℕ). size ∣ x) (sym r.chip)
        (Nat.dvd-mul_right size h.p_user_param.total_sector_count) in
    let below : addr < h.p_basic_param.total_size_in_bytes = ground (arith, whole) in
    let room =
      multiple_room size addr h.p_basic_param.total_size_in_bytes r.some_sector dv total below in
    (ground arith, ground (arith, whole, room), subst (λ (x : ℕ). size ∣ x) (sym whole) dv)

started_bounds :
    (h : Handler) (page sector len : ℕ)
    → h.p_user_param.sector_size * sector + h.p_basic_param.erase_uint * page < 4294967296
    → Ready (started h)
    → bad_sector (started h) page sector len ≡ false
    → (0 < len)
      × (sector_addr h page sector + len ≤ h.p_basic_param.total_size_in_bytes)
      × (h.p_user_param.sector_size ∣ sector_addr h page sector)
unfolding started
started_bounds h page sector len fits r good =
    bad_sector_bounds (started h) page sector len r fits good

read_passed :
    (page sector len p_dest : ℕ) (cb : Option ℕ) (h : Handler)
    → (sector_read_request page sector len p_dest cb h).0 ≡ app_successed
    → bad_sector h page sector len ≡ false
unfolding sector_read_request
read_passed page sector len p_dest cb h won = ground arith

-- The range of a sector read request counts from address 0, and not from `base_addr`.
sector_read_bounds :
    (h : Handler) (page sector len p_dest : ℕ) (cb : Option ℕ)
    → 0 < h.p_user_param.sector_size
    → h.p_user_param.sector_size * h.p_user_param.total_sector_count < 4294967296
    → h.p_basic_param.erase_uint / h.p_user_param.sector_size < 65536
    → h.p_user_param.sector_size * sector + h.p_basic_param.erase_uint * page < 4294967296
    → (event_init h).0 ≡ app_successed
    → (sector_read_request page sector len p_dest cb (event_init h).1).0 ≡ app_successed
    → (0 < len)
      × (sector_addr h page sector + len ≤ h.p_basic_param.total_size_in_bytes)
      × (h.p_user_param.sector_size ∣ sector_addr h page sector)
sector_read_bounds h page sector len p_dest cb pos small few fits won taken =
    let e : (event_init h).1 ≡ started h =
      ap (λ (u : AppResult × Handler). u.1) (init_started h won) in
    let good = read_passed page sector len p_dest cb (event_init h).1 taken in
    started_bounds h page sector len fits (subst Ready e (event_init-Ready h pos small few won))
      (subst (λ (u : Handler). bad_sector u page sector len ≡ false) e good)

-- mFlashReadRequest refuses a range that starts in front of the chip.
read_request-refused :
    (r : ReadParam) (h : Handler)
    → r.read_start_addr < h.p_basic_param.base_addr
    → (read_request r h).0 ≢ app_successed
unfolding read_request does_addr_is_within_bounds
read_request-refused r h before = λ won. ground arith

started-base : (h : Handler) → (started h).p_basic_param.base_addr ≡ h.p_basic_param.base_addr
unfolding started
started-base h = refl

-- After mFlashEventInit with a sector size other than 0, of a chip below two to the power 32 bytes with
-- at most 65535 sectors in an erase unit, that begins at or behind its own size, a sector read request
-- that succeeds is for a range that is not empty, starts at a multiple of the sector size and ends
-- within the size of the chip counted from address 0, where the address is not cut to 32 bits. So it
-- lies whole below the chip, and mFlashReadRequest refuses the same range.
pub sector_read_outside :
    (h : Handler) (page sector len p_dest : ℕ) (cb : Option ℕ)
    → 0 < h.p_user_param.sector_size
    → h.p_user_param.sector_size * h.p_user_param.total_sector_count < 4294967296
    → h.p_basic_param.erase_uint / h.p_user_param.sector_size < 65536
    → h.p_user_param.sector_size * sector + h.p_basic_param.erase_uint * page < 4294967296
    → h.p_basic_param.total_size_in_bytes ≤ h.p_basic_param.base_addr
    → (event_init h).0 ≡ app_successed
    → (sector_read_request page sector len p_dest cb (event_init h).1).0 ≡ app_successed
    → (0 < len)
      × (h.p_user_param.sector_size ∣ sector_addr h page sector)
      × (sector_addr h page sector + len ≤ h.p_basic_param.total_size_in_bytes)
      × (sector_addr h page sector + len ≤ h.p_basic_param.base_addr)
      × ((read_request
            (record {
              read_start_addr = sector_addr h page sector;
              read_length = len;
              p_dest = p_dest;
              read_cb = cb;
            })
            (event_init h).1).0
          ≢ app_successed)
sector_read_outside h page sector len p_dest cb pos small few fits behind won taken =
    let range = sector_read_bounds h page sector len p_dest cb pos small few fits won taken in
    let base : (event_init h).1.p_basic_param.base_addr ≡ h.p_basic_param.base_addr =
      ap (λ (u : AppResult × Handler). u.1.p_basic_param.base_addr) (init_started h won)
      ∙ started-base h in
    (
      range.0,
      range.2,
      range.1,
      omega (arith, range.1, behind),
      read_request-refused _ (event_init h).1 (omega (arith, range.0, range.1, behind, base)),
    )

row_before : (c a b x y : ℕ) → x < c → a < b → a * c + x < b * c + y
row_before c a b x y lt h = grind arith

-- Different sectors of one chip have different priorities, where no priority is cut to 16 bits.
pub sector_priority_injective :
    (h : Handler) (page page' sector sector' : ℕ)
    → sector < h.p_manager.sector_count_in_erase_unit
    → sector' < h.p_manager.sector_count_in_erase_unit
    → page * h.p_manager.sector_count_in_erase_unit + sector < 65536
    → page' * h.p_manager.sector_count_in_erase_unit + sector' < 65536
    → sector_priority h page sector ≡ sector_priority h page' sector'
    → (page ≡ page') × (sector ≡ sector')
sector_priority_injective h page page' sector sector' lt lt' small small' e =
    let c = h.p_manager.sector_count_in_erase_unit in
    let same : page * c + sector ≡ page' * c + sector' = omega (arith, e) in
    let page_same : page ≡ page' = elim (dec_lt page page') [
      | yes a ↦ absurd (omega (arith, row_before c page page' sector sector' lt a))
      | no b ↦ elim (dec_lt page' page) [
        | yes a ↦ absurd (omega (arith, row_before c page' page sector' sector lt' a))
        | no d ↦ omega arith
      ]
    ] in
    (page_same, omega (arith, ap (λ (x : ℕ). x * c) page_same))

not_init_push :
    (priority : ℕ) (q : PriorityListManager)
    → q.is_init ≡ false
    → queue_push priority q ≡ ((false, none), q)
unfolding queue_push
not_init_push priority q e = rw e refl

refused_write :
    (page sector len p_src : ℕ) (cb : Option ℕ) (h : Handler)
    → h.p_priority_queue.is_init ≡ false
    → (sector_write_request page sector len p_src cb h).0 ≢ app_successed
unfolding sector_write_request
refused_write page sector len p_src cb h e =
    λ won. ground (arith, not_init_push (sector_priority h page sector) h.p_priority_queue e)

event_init-queue :
    (h : Handler)
    → 20 ≤ h.p_priority_queue.max_node_count
    → (event_init h).1.p_priority_queue ≡ h.p_priority_queue
unfolding event_init started queue_initialize
event_init-queue h large = ground arith

-- With a priority queue of 20 nodes or more, as the default configuration defines it with 30, no sector
-- write request behind mFlashEventInit succeeds, whatever its parameters.
pub sector_write_fails :
    (h : Handler) (page sector len p_src : ℕ) (cb : Option ℕ)
    → 20 ≤ h.p_priority_queue.max_node_count
    → h.p_priority_queue.is_init ≡ false
    → (sector_write_request page sector len p_src cb (event_init h).1).0 ≢ app_successed
sector_write_fails h page sector len p_src cb large e =
    refused_write page sector len p_src cb (event_init h).1
      (ap (λ (q : PriorityListManager). q.is_init) (event_init-queue h large) ∙ e)
