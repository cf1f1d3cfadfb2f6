-- ===== src/Common/Errors.antt =====
-- Go's `error` values and (value, error) results. A nil error is `none`. What
-- k8s.io/apimachinery's `errors.IsNotFound` and `IsAlreadyExists` read is the field `reason`.
use Prim.Native.String.{String}
use mathlib.Core.Bool.{Bool, true, false}
use mathlib.Core.List.{List, [], ◌∷◌}
use mathlib.Core.Option.{Option, none, some}

pub data Reason : Type 0 where
  not_found already_exists other : Reason

pub record Error : Type 0 where
  pub reason : Reason
  pub message : String

pub data Result {ℓ} (A : Type ℓ) : Type ℓ where
  ok : A → Result A
  err : Error → Result A

-- errors.New and fmt.Errorf
unfoldable pub new_error : String → Error
new_error message = record { reason = Reason.other; message = message }

abbrev pub is_not_found_reason : Reason → Bool
is_not_found_reason Reason.not_found = true
is_not_found_reason _ = false

abbrev pub is_already_exists_reason : Reason → Bool
is_already_exists_reason Reason.already_exists = true
is_already_exists_reason _ = false

abbrev pub is_not_found : Error → Bool
is_not_found e = is_not_found_reason e.reason

abbrev pub is_already_exists : Error → Bool
is_already_exists e = is_already_exists_reason e.reason

-- utilerrors.NewAggregate: nil for no errors, and else one error that holds them all.
abbrev pub new_aggregate : (List Error → String) → List Error → Option Error
new_aggregate show [] = none
new_aggregate show (e ∷ es) = some (record { reason = Reason.other; message = show (e ∷ es) })
