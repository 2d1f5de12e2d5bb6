-- ===== src/Driver/Host/Yields.antt =====
-- Triples with a result: what holds before gives one assertion where the action returns, and another
-- where it raises.
use forks_seaweedfs_csi_driv.Common.{◌≡◌, refl, String}
use forks_seaweedfs_csi_driv.Common.Dict.{lookup}
use forks_seaweedfs_csi_driv.Common.Failure.{Failure, Result, ok, err}
use forks_seaweedfs_csi_driv.Driver.Host.{Node, Volume, M, load, store, delete}
use forks_seaweedfs_csi_driv.Common.Dict.{insert, erase}
use forks_seaweedfs_csi_driv.Driver.Host.Monad.{
  pure, raise, catch, map_error, on_error, after_error, changed, continue, ◌>>=◌,
}
use forks_seaweedfs_csi_driv.Driver.Host.Keeps.{Keeps}

-- `Q` of the value and the state, or `E` of the error and the state.
abbrev pub Outcome :
    {A : Type 0} (Q : A → Node → Type 0) (E : Failure → Node → Type 0) → Result A → Node → Type 0
Outcome Q E (ok a) s = Q a s
Outcome Q E (err e) s = E e s

pub record Yields {A : Type 0} (P : Node → Type 0) (m : M A) (Q : A → Node → Type 0)
    (E : Failure → Node → Type 0) : Type 0 where
  pub holds : (s : Node) → P s → Outcome Q E (m s).0 (m s).1

abbrev pub Always : (Node → Type 0) → Failure → Node → Type 0
Always P e = P

keeps_outcome :
    {A : Type 0} (P : Node → Type 0) (r : Result A) (s : Node)
    → P s
    → Outcome (λ a. P) (Always P) r s
keeps_outcome P (ok a) s p = p
keeps_outcome P (err e) s p = p

module _ {P : Node → Type 0} where
  pub Yields-Keeps : {A : Type 0} {m : M A} → Keeps P m → Yields P m (λ a. P) (Always P)
  Yields-Keeps {m = m} k = record { holds = λ s p. keeps_outcome P (m s).0 (m s).1 (k.at s p) }

  pub Yields-pure :
      {A : Type 0} {Q : A → Node → Type 0} {E : Failure → Node → Type 0} (a : A)
      → ((s : Node) → P s → Q a s)
      → Yields P (pure a) Q E
  unfolding pure
  Yields-pure a f = record { holds = f }

  pub Yields-raise :
      {A : Type 0} {Q : A → Node → Type 0} {E : Failure → Node → Type 0} (e : Failure)
      → ((s : Node) → P s → E e s)
      → Yields P (raise e) Q E
  unfolding raise
  Yields-raise e f = record { holds = f }

  pub Yields-load :
      {E : Failure → Node → Type 0} (id : String)
      → Yields P (load id) (λ v s. P s × (v ≡ lookup id s.volumes)) E
  unfolding load
  Yields-load id = record { holds = λ s p. (p, refl) }

  pub Yields-store :
      {Q : (Unit {0}) → Node → Type 0} {E : Failure → Node → Type 0} (id : String) (v : Volume)
      → ((s : Node) → P s → Q tt (record s { volumes = insert id v s.volumes }))
      → Yields P (store id v) Q E
  unfolding store
  Yields-store id v f = record { holds = f }

  pub Yields-delete :
      {Q : (Unit {0}) → Node → Type 0} {E : Failure → Node → Type 0} (id : String)
      → ((s : Node) → P s → Q tt (record s { volumes = erase id s.volumes }))
      → Yields P (delete id) Q E
  unfolding delete
  Yields-delete id f = record { holds = f }

changed_outcome :
    {A : Type 0} (Q : A → Node → Type 0) (E : Failure → Node → Type 0) (f : Failure → Failure)
    (r : Result A) (s : Node)
    → ((e : Failure) (s : Node) → E e s → E (f e) s)
    → Outcome Q E r s
    → Outcome Q E (changed f r) s
changed_outcome Q E f (ok a) s k q = q
changed_outcome Q E f (err e) s k q = k e s q

cleaned_outcome :
    {A : Type 0} (Q : A → Node → Type 0) (E : Failure → Node → Type 0) (f : Node → Node)
    (r : Result A) (s : Node)
    → ((e : Failure) (s : Node) → E e s → E e (f s))
    → Outcome Q E r s
    → Outcome Q E r (after_error r f s)
cleaned_outcome Q E f (ok a) s k q = q
cleaned_outcome Q E f (err e) s k q = k e s q

module _ {A : Type 0} {Q : A → Node → Type 0} {E : Failure → Node → Type 0} where
  pub Yields-map_error :
      {P : Node → Type 0} (f : Failure → Failure) (m : M A)
      → ((e : Failure) (s : Node) → E e s → E (f e) s)
      → Yields P m Q E
      → Yields P (map_error f m) Q E
  unfolding map_error
  Yields-map_error f m k y = record {
    holds = λ s p. changed_outcome Q E f (m s).0 (m s).1 k (y.holds s p);
  }

  pub Yields-on_error :
      {P : Node → Type 0} (m : M A) (f : Node → Node)
      → ((e : Failure) (s : Node) → E e s → E e (f s))
      → Yields P m Q E
      → Yields P (on_error m f) Q E
  unfolding on_error
  Yields-on_error m f k y = record {
    holds = λ s p. cleaned_outcome Q E f (m s).0 (m s).1 k (y.holds s p);
  }

  next :
      {B : Type 0} {R : B → Node → Type 0} (r : Result A) (f : A → M B) (s : Node)
      → ((a : A) → Yields (Q a) (f a) R E)
      → Outcome Q E r s
      → Outcome R E (continue r f s).0 (continue r f s).1
  next (ok a) f s k q = (k a).holds s q
  next (err e) f s k q = q

  pub Yields-bind :
      {P : Node → Type 0} {B : Type 0} {R : B → Node → Type 0} (m : M A) (f : A → M B)
      → Yields P m Q E
      → ((a : A) → Yields (Q a) (f a) R E)
      → Yields P (m >>= f) R E
  unfolding ◌>>=◌
  Yields-bind m f y k = record { holds = λ s p. next (m s).0 f (m s).1 k (y.holds s p) }

  pub Yields-catch :
      {P : Node → Type 0} (m : M A) → Yields P m Q E → Yields P (catch m) (Outcome Q E) E
  unfolding catch
  Yields-catch m y = record { holds = λ s p. y.holds s p }

-- A weaker assertion of the result, under a stronger one before.
weaker :
    {A : Type 0} {Q R : A → Node → Type 0} {E F : Failure → Node → Type 0} (r : Result A) (s : Node)
    → ((a : A) (s : Node) → Q a s → R a s)
    → ((e : Failure) (s : Node) → E e s → F e s)
    → Outcome Q E r s
    → Outcome R F r s
weaker (ok a) s f g q = f a s q
weaker (err e) s f g q = g e s q

pub Yields-weaker :
    {A : Type 0} {P : Node → Type 0} {Q R : A → Node → Type 0} {E F : Failure → Node → Type 0}
    {m : M A}
    → ((a : A) (s : Node) → Q a s → R a s)
    → ((e : Failure) (s : Node) → E e s → F e s)
    → Yields P m Q E
    → Yields P m R F
Yields-weaker {m = m} f g y = record { holds = λ s p. weaker (m s).0 (m s).1 f g (y.holds s p) }

-- A first action that only keeps the assertion.
pub Yields-after :
    {A B : Type 0} {P : Node → Type 0} {R : B → Node → Type 0} (m : M A) (f : A → M B)
    → Keeps P m
    → ((a : A) → Yields P (f a) R (Always P))
    → Yields P (m >>= f) R (Always P)
Yields-after m f k y = Yields-bind m f (Yields-Keeps k) y
