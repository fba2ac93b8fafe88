-- ===== src/ButtonModule/Counters.antt =====
-- `TimeManager` of ButtonModule.c keeps the two counters apart and within 16 bits.
use eclipse_code.Prelude.{◌≤◌, ◌≡◌, ◌⊎◌, Bool, true, false, List, [], ◌∷◌, arith}
use eclipse_code.ButtonModule.{ParamSingleButton, time_manager}

-- the counters fit 16 bits, and one of them is 0
unfoldable pub IsCounting : ParamSingleButton → Type 0
IsCounting b =
    (b.push_time_counter ≤ 65535)
    × (b.release_time_counter ≤ 65535)
    × ((b.push_time_counter ≡ 0) ⊎ (b.release_time_counter ≡ 0))

unfoldable pub time_run : List Bool → ParamSingleButton → ParamSingleButton
time_run [] b = b
time_run (pushed ∷ rest) b = time_run rest (time_manager pushed b)

time_manager-IsCounting :
    (pushed : Bool) (b : ParamSingleButton) → IsCounting b → IsCounting (time_manager pushed b)
unfolding time_manager IsCounting
time_manager-IsCounting true b (p, r, z) = ground arith
time_manager-IsCounting false b (p, r, z) = ground arith

-- Over any sequence of samples the counters of a button stay within 16 bits, and one of them is 0.
pub time_run-IsCounting :
    (samples : List Bool) (b : ParamSingleButton) → IsCounting b → IsCounting (time_run samples b)
unfolding time_run
time_run-IsCounting [] b h = h
time_run-IsCounting (pushed ∷ rest) b h =
    time_run-IsCounting rest (time_manager pushed b) (time_manager-IsCounting pushed b h)
