-- ===== src/Prelude/Words.antt =====
-- Machine widths: the moduli of the unsigned types that the code computes with.
use Prim.Native.Nat.{ℕ}

abbrev pub u8_mod : ℕ
u8_mod = 256

abbrev pub u16_mod : ℕ
u16_mod = 65536

abbrev pub u32_mod : ℕ
u32_mod = 4294967296
