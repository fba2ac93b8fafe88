-- ===== src/BitOperation/Number.antt =====
-- `GetBinaryBitNumber` of CommonSource/Math/bit_operation.c: how many binary digits a word has.
use eclipse_code.Prelude.{
  ℕ, zero, suc, ◌+◌, ◌^◌, ◌≤◌, ◌<◌, ◌≡◌, refl, sym, true, false, List, [], ◌∷◌, ◌++◌, ◌*◌, subst,
  power_suc, ltb, ◌==◌, if◌then◌else◌, Bool-cases, inl, inr, arith,
}

-- the `result` fields of `power_table_for_number2`, as the source spells them
abbrev pub power_table_for_number2 : List ℕ
power_table_for_number2 =
    1 ∷ 2 ∷ 4 ∷ 8 ∷ 16 ∷ 32 ∷ 64 ∷ 128 ∷ 256 ∷ 512 ∷ 1024 ∷ 2048 ∷ 4096 ∷ 8192 ∷ 16384 ∷ 327168
    ∷ 65536 ∷ 131072 ∷ 262144 ∷ 524288 ∷ 1048576 ∷ 2097152 ∷ 4194304 ∷ 8388608 ∷ 16777216 ∷ 33554432
    ∷ 67108864 ∷ 134217728 ∷ 268435456 ∷ 536870912 ∷ 1073741824 ∷ 2147483648 ∷ []

-- the loop of `GetBinaryBitNumber` over the rest of the table, from entry `i` on
unfoldable pub bit_number_loop : List ℕ → ℕ → ℕ → ℕ
bit_number_loop [] i value = i + 1
bit_number_loop (power ∷ powers) i value =
    let rest = bit_number_loop powers (i + 1) value in if ltb value power then i else rest

unfoldable pub get_binary_bit_number : ℕ → ℕ
get_binary_bit_number value =
    if value == 0 then 1 else bit_number_loop power_table_for_number2 0 value

powers_from : ℕ → ℕ → List ℕ
powers_from zero i = []
powers_from (suc n) i = 2 ^ i ∷ powers_from n (i + 1)

double_power : (i : ℕ) → 2 ^ (i + 1) ≡ 2 * 2 ^ i
double_power i = let next : i + 1 ≡ suc i = omega arith in rw next (power_suc i)

at_most : (value power : ℕ) → value < power → ltb value power ≡ true
at_most value power h = ground arith

at_most_less : (value power : ℕ) → ltb value power ≡ true → value < power
at_most_less value power e = ground arith

-- Among the powers of two from `i` on, the loop stops at the first that is greater than the value.
first_power :
    (n i value : ℕ) (rest : List ℕ)
    → 2 ^ i ≤ 2 * value
    → value < 2 ^ (i + n)
    → (value < 2 ^ bit_number_loop (powers_from (suc n) i ++ rest) i value)
      × (2 ^ bit_number_loop (powers_from (suc n) i ++ rest) i value ≤ 2 * value)
unfolding bit_number_loop powers_from
first_power zero i value rest low high =
    let here : ltb value (2 ^ i) ≡ true =
      let same : i + 0 ≡ i = omega arith in
      at_most value (2 ^ i) (subst (λ k. value < 2 ^ k) same high) in
    rw here (at_most_less value (2 ^ i) here, low)
first_power (suc n) i value rest low high = elim (Bool-cases (ltb value (2 ^ i))) [
  | inl e ↦ rw e (at_most_less value (2 ^ i) e, low)
  | inr e ↦
      let above : 2 ^ i ≤ value = ground arith in
      let double : 2 ^ (i + 1) ≤ 2 * value = omega (arith, above, double_power i) in
      let shifted : i + suc n ≡ i + 1 + n = omega arith in
      rw e (first_power n (i + 1) value rest double (subst (λ k. value < 2 ^ k) shifted high))
]

at_least : (value power : ℕ) → power ≤ value → ltb value power ≡ false
at_least value power h = ground arith

-- From 16384 on and before 327168 the count is 15.
get_binary_bit_number-fifteen :
    (value : ℕ) → 16384 ≤ value → value < 327168 → get_binary_bit_number value ≡ 15
unfolding get_binary_bit_number bit_number_loop
get_binary_bit_number-fifteen value h l =
    let some_bit : (value == 0) ≡ false = ground arith in
    let last : ltb value 327168 ≡ true = ground arith in
    rw
      (
        some_bit,
        at_least value 1 (omega (arith, h)),
        at_least value 2 (omega (arith, h)),
        at_least value 4 (omega (arith, h)),
        at_least value 8 (omega (arith, h)),
        at_least value 16 (omega (arith, h)),
        at_least value 32 (omega (arith, h)),
        at_least value 64 (omega (arith, h)),
        at_least value 128 (omega (arith, h)),
        at_least value 256 (omega (arith, h)),
        at_least value 512 (omega (arith, h)),
        at_least value 1024 (omega (arith, h)),
        at_least value 2048 (omega (arith, h)),
        at_least value 4096 (omega (arith, h)),
        at_least value 8192 (omega (arith, h)),
        at_least value 16384 (omega (arith, h)),
        last,
      )
      refl

others : List ℕ
others =
    327168 ∷ 65536 ∷ 131072 ∷ 262144 ∷ 524288 ∷ 1048576 ∷ 2097152 ∷ 4194304 ∷ 8388608 ∷ 16777216
    ∷ 33554432 ∷ 67108864 ∷ 134217728 ∷ 268435456 ∷ 536870912 ∷ 1073741824 ∷ 2147483648 ∷ []

table_split : power_table_for_number2 ≡ powers_from 15 0 ++ others
unfolding powers_from others
table_split = refl

-- the value has this many binary digits
pub HasDigits : ℕ → ℕ → Type 0
HasDigits value n = (value < 2 ^ n) × (2 ^ n ≤ 2 * value)

-- A value from 1 to 32767 is given the number of its binary digits.
pub get_binary_bit_number-HasDigits :
    (value : ℕ) → 0 < value → value < 32768 → HasDigits value (get_binary_bit_number value)
unfolding get_binary_bit_number HasDigits
get_binary_bit_number-HasDigits value p l =
    let some_bit : (value == 0) ≡ false = ground arith in
    elim (Bool-cases (ltb value 16384)) [
      | inl e ↦
          let small : value < 2 ^ (0 + 14) = ground arith in
          let found = first_power 14 0 value others (omega arith) small in
          rw (some_bit, table_split) found
      | inr e ↦
          let big : 16384 ≤ value = ground arith in
          let fifteen : get_binary_bit_number value ≡ 15 =
            get_binary_bit_number-fifteen value big (omega arith) in
          subst (HasDigits value) (sym fifteen) (omega arith, omega arith)
    ]

-- A value from 32768 on and before 327168 has 16 digits or more, and is given 15: entry 15 of the table
-- is 327168 where the power is 32768.
pub get_binary_bit_number_short :
    (value : ℕ)
    → 32768 ≤ value
    → value < 327168
    → (get_binary_bit_number value ≡ 15) × (2 ^ get_binary_bit_number value ≤ value)
get_binary_bit_number_short value h l =
    let fifteen : get_binary_bit_number value ≡ 15 =
      get_binary_bit_number-fifteen value (omega arith) l in
    (fifteen, rw fifteen (omega arith))
