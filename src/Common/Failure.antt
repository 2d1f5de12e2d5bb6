-- ===== src/Common/Failure.antt =====
-- Go's `error` values, as far as the driver looks into them: their text, the gRPC status code, and
-- the classes that `os.IsNotExist`, `os.IsPermission` and mount-utils' `IsCorruptedMnt` test.
use Prim.Native.String.{String}
use mathlib.Core.Bool.{Bool, true, false}

pub data Code : Type 0 where
  invalid_argument internal unavailable permission_denied not_found canceled : Code
  deadline_exceeded : Code

pub data Kind : Type 0 where
  plain not_exist permission corrupted invalid : Kind
  status : Code → Kind

pub record Failure : Type 0 where
  pub kind : Kind
  pub text : String

-- `errors.New(text)`, `fmt.Errorf(…)`: the classes of a wrapped error are not those that the
-- `os` predicates see.
abbrev pub failure : String → Failure
failure text = record { kind = plain; text = text }

-- `status.Error(code, text)`, `status.Errorf`
abbrev pub status_error : Code → String → Failure
status_error code text = record { kind = status code; text = text }

abbrev pub is_not_exist : Failure → Bool
is_not_exist e = elim e.kind [ not_exist ↦ true | _ ↦ false ]

abbrev pub is_permission : Failure → Bool
is_permission e = elim e.kind [ permission ↦ true | _ ↦ false ]

abbrev pub is_corrupted : Failure → Bool
is_corrupted e = elim e.kind [ corrupted ↦ true | _ ↦ false ]

-- EINVAL or ENOENT
abbrev pub is_not_mounted : Failure → Bool
is_not_mounted e = elim e.kind [ invalid ↦ true | not_exist ↦ true | _ ↦ false ]

pub data Result {ℓ} (A : Type ℓ) : Type ℓ where
  ok : A → Result A
  err : Failure → Result A
