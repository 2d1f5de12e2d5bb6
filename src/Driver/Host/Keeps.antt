-- ===== src/Driver/Host/Keeps.antt =====
-- Assertions about actions: what holds of the state before gives what holds of the result and of the
-- state after, with an error or without.
use forks_seaweedfs_csi_driv.Common.{Bool, true, false, Option, none, some, if◌then◌else◌}
use forks_seaweedfs_csi_driv.Common.Failure.{Failure, Result, ok, err}
use forks_seaweedfs_csi_driv.Driver.Host.Monad.{
  Exec, pure, raise, or_raise, catch, map_error, on_error, after_error, finally, continue, ◌>>=◌,
}

-- `m` keeps `P`, whether it returns or raises.
pub record Keeps {ℓ} {St X : Type ℓ} (P : St → Type ℓ) (m : Exec St X) : Type ℓ where
  pub at : (before : St) → P before → P (m before).1

module _ {ℓ} {St X : Type ℓ} {P : St → Type ℓ} where
  pub Keeps-pure : (a : X) → Keeps P (pure a)
  unfolding pure
  Keeps-pure a = record { at = λ before held. held }

  pub Keeps-raise : (e : Failure) → Keeps P (raise {X = X} e)
  unfolding raise
  Keeps-raise e = record { at = λ before held. held }

  pub Keeps-or_raise : (r : Option Failure) (m : Exec St X) → Keeps P m → Keeps P (or_raise r m)
  unfolding or_raise
  Keeps-or_raise none m k = record { at = k.at }
  Keeps-or_raise (some e) m k = record { at = λ before held. held }

  pub Keeps-catch : (m : Exec St X) → Keeps P m → Keeps P (catch m)
  unfolding catch
  Keeps-catch m k = record { at = k.at }

  pub Keeps-map_error :
      (f : Failure → Failure) (m : Exec St X) → Keeps P m → Keeps P (map_error f m)
  unfolding map_error
  Keeps-map_error f m k = record { at = k.at }

  pub Keeps-on_error :
      (m : Exec St X) (cleanup : St → St)
      → Keeps P m
      → ((before : St) → P before → P (cleanup before))
      → Keeps P (on_error m cleanup)
  unfolding on_error
  Keeps-on_error m cleanup k kc = record {
    at = λ before held. behind (m before).0 (m before).1 (k.at before held);
  }
    where
      behind : (r : Result X) (before : St) → P before → P (after_error r cleanup before)
      behind (ok a) before held = held
      behind (err e) before held = kc before held

  pub Keeps-finally :
      (m : Exec St X) (cleanup : St → St)
      → Keeps P m
      → ((before : St) → P before → P (cleanup before))
      → Keeps P (finally m cleanup)
  unfolding finally
  Keeps-finally m cleanup k kc = record { at = λ before held. kc (m before).1 (k.at before held) }

  pub Keeps-if : (b : Bool) (m n : Exec St X) → Keeps P m → Keeps P n → Keeps P (if b then m else n)
  Keeps-if true m n km kn = km
  Keeps-if false m n km kn = kn

module _ {ℓ} {St X Y : Type ℓ} {P : St → Type ℓ} where
  continue-keeps :
      (r : Result X) (f : X → Exec St Y) (before : St)
      → ((a : X) → Keeps P (f a))
      → P before
      → P (continue r f before).1
  continue-keeps (ok a) f before kf held = (kf a).at before held
  continue-keeps (err e) f before kf held = held

  -- The rest keeps `P` from where the first action has left the state.
  pub bind_at :
      (m : Exec St X) (f : X → Exec St Y) (before : St)
      → P (m before).1
      → ((a : X) → Keeps P (f a))
      → P ((m >>= f) before).1
  unfolding ◌>>=◌
  bind_at m f before held kf = continue-keeps (m before).0 f (m before).1 kf held

  pub Keeps-bind :
      (m : Exec St X) (f : X → Exec St Y)
      → Keeps P m
      → ((a : X) → Keeps P (f a))
      → Keeps P (m >>= f)
  Keeps-bind m f km kf = record { at = λ before held. bind_at m f before (km.at before held) kf }

pub ruleset keeps_rules = (
  Keeps-pure, Keeps-raise, Keeps-or_raise, Keeps-catch, Keeps-map_error, Keeps-on_error, Keeps-if,
  Keeps-bind,
)
