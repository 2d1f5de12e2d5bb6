-- ===== src/Driver/Host/Monad.antt =====
-- Code that changes a state and may return an error early. What was done before the error stays
-- done.
use forks_seaweedfs_csi_driv.Common.{Option, none, some}
use forks_seaweedfs_csi_driv.Common.Failure.{Failure, Result, ok, err}

abbrev pub Exec {ℓ} : Type ℓ → Type ℓ → Type ℓ
Exec St X = St → Result X × St

abbrev pub changed {ℓ} : {X : Type ℓ} → (Failure → Failure) → Result X → Result X
changed f (ok a) = ok a
changed f (err e) = err (f e)

abbrev pub after_error {ℓ} : {St X : Type ℓ} → Result X → (St → St) → St → St
after_error (ok a) cleanup state = state
after_error (err e) cleanup state = cleanup state

module _ {ℓ} {St X : Type ℓ} where
  unfoldable pub pure : X → Exec St X
  pure a state = (ok a, state)

  unfoldable pub raise : Failure → Exec St X
  raise e state = (err e, state)

  -- `if err != nil { return err }`
  unfoldable pub or_raise : Option Failure → Exec St X → Exec St X
  or_raise none m state = m state
  or_raise (some e) m state = (err e, state)

  -- The error of the action, if there is one, as a value.
  unfoldable pub catch : Exec St X → Exec St (Result X)
  catch m state = let (got, after) = m state in (ok got, after)

  -- The error of the action, changed.
  unfoldable pub map_error : (Failure → Failure) → Exec St X → Exec St X
  map_error f m state = let (got, after) = m state in (changed f got, after)

  -- A cleanup that is made only if the action raises; the error stays.
  unfoldable pub on_error : Exec St X → (St → St) → Exec St X
  on_error m cleanup state = let (got, after) = m state in (got, after_error got cleanup after)

  -- `defer`: the cleanup is made whether the action returns or raises.
  unfoldable pub finally : Exec St X → (St → St) → Exec St X
  finally m cleanup state = let (got, after) = m state in (got, cleanup after)

module _ {ℓ} {St X Y : Type ℓ} where
  abbrev pub continue : Result X → (X → Exec St Y) → Exec St Y
  continue (ok a) f state = f a state
  continue (err e) f state = (err e, state)

  infixl 10 ◌>>=◌ ◌>>◌
  unfoldable pub ◌>>=◌ : Exec St X → (X → Exec St Y) → Exec St Y
  unfolding pure raise or_raise catch map_error on_error finally
  ◌>>=◌ m f state = let (got, after) = m state in continue got f after

  abbrev pub ◌>>◌ : Exec St X → Exec St Y → Exec St Y
  m >> n = m >>= λ _. n
