-- ===== src/Prelude/Codes.antt =====
-- The result codes of CommonSource/AppError.h, and calls through a pointer that may be null.
use mathlib.Core.Option.{Option, none, some}

-- `m_app_result`: the codes 0 to 7 in the order of the header.
pub data AppResult : Type 0 where
  app_successed : AppResult
  app_error : AppResult
  app_beyond_scope : AppResult
  app_pointer_null : AppResult
  app_already_done_before : AppResult
  app_param_error : AppResult
  app_no_enough_space : AppResult
  app_unexpect_state : AppResult

-- The test of a pointer argument against `X_Null`: `none` is the null pointer, and the function
-- returns its code for that; `some s` is the object, and the call returns the object as it leaves
-- it beside its result.
abbrev pub on_pointer {ℓ κ} : {R : Type ℓ} {S : Type κ} → R → (S → R × S) → Option S → R × Option S
on_pointer null_result f none = (null_result, none)
on_pointer null_result f (some s) = let (r, s') = f s in (r, some s')
