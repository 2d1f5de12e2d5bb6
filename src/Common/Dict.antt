-- ===== src/Common/Dict.antt =====
-- Go's `map[string]V` and `sync.Map`: an association list. A range over it visits the entries in
-- the order of the list; Go leaves that order open.
use Prim.Native.String.{String}
use mathlib.Core.Path.{◌≡◌, refl}
use mathlib.Core.Bool.{Bool, true, false}
use mathlib.Core.Option.{Option, none, some}
use mathlib.Core.List.{List, [], ◌∷◌}
use native.Mathlib.Omega.{arith}
use text.Mathlib.Text.{◌==◌}
use text.Mathlib.TextEquality.{eq_iff}
use forks_seaweedfs_csi_driv.Common.Tests.{if◌then◌else◌}

abbrev pub Dict {ℓ} : Type ℓ → Type ℓ
Dict V = List (String × V)

module _ {ℓ} {V : Type ℓ} where
  -- `m[k]`, `m.Load(k)`
  unfoldable pub lookup : String → Dict V → Option V
  lookup key [] = none
  lookup key ((entry, value) ∷ rest) = if entry == key then some value else lookup key rest

  -- `m[k] = v`, `m.Store(k, v)`
  unfoldable pub insert : String → V → Dict V → Dict V
  insert key value [] = (key, value) ∷ []
  insert key value ((entry, old) ∷ rest) =
      if entry == key then (key, value) ∷ rest else (entry, old) ∷ insert key value rest

  -- `delete(m, k)`, `m.Delete(k)`
  unfoldable pub erase : String → Dict V → Dict V
  erase key [] = []
  erase key ((entry, value) ∷ rest) =
      let others = erase key rest in if entry == key then others else (entry, value) ∷ others

  pub lookup-insert :
      (key other : String) (value : V) (m : Dict V)
      → lookup other (insert key value m) ≡ (if key == other then some value else lookup other m)
  unfolding lookup insert
  lookup-insert key other value ((first, old) ∷ rest) = ground (
    lookup-insert key other value rest,
    eq_iff first other,
    eq_iff first key,
    eq_iff key other,
    arith,
  )
  lookup-insert key other value [] = refl

  pub lookup-erase :
      (key other : String) (m : Dict V)
      → lookup other (erase key m) ≡ (if key == other then none else lookup other m)
  unfolding lookup erase
  lookup-erase key other ((first, old) ∷ rest) =
      ground
        (lookup-erase key other rest, eq_iff first other, eq_iff first key, eq_iff key other, arith)
  lookup-erase key other [] = ground arith

pub lookup-nil {ℓ} : {V : Type ℓ} (k : String) → lookup {V = V} k [] ≡ none
unfolding lookup
lookup-nil k = refl

-- `m[k]` of a `map[string]string`: the empty text where the key is missing.
unfoldable pub get_or_empty : String → Dict String → String
get_or_empty k m = elim (lookup k m) [ none ↦ "" | some v ↦ v ]

unfoldable pub has_key {ℓ} : {V : Type ℓ} → String → Dict V → Bool
has_key k m = elim (lookup k m) [ none ↦ false | some v ↦ true ]

pub ruleset dict_laws = (lookup-nil, lookup-insert, lookup-erase)

-- A Go map has each key once.
abbrev pub NodupKeys {ℓ} : {V : Type ℓ} → Dict V → Type ℓ
NodupKeys [] = Unit
NodupKeys ((k, v) ∷ m) = (lookup k m ≡ none) × NodupKeys m

pub insert-NodupKeys {ℓ} :
    {V : Type ℓ} (k : String) (v : V) (m : Dict V) → NodupKeys m → NodupKeys (insert k v m)
unfolding insert
insert-NodupKeys k v [] u = (lookup-nil k, tt)
insert-NodupKeys k v ((j, w) ∷ m) (fresh, u) =
    ground (arith, eq_iff j k, eq_iff k j, lookup-insert k j v m, insert-NodupKeys k v m u)

abbrev pub or_else {ℓ} : {A : Type ℓ} → Option A → Option A → Option A
or_else none b = b
or_else (some a) b = some a

-- `for key, value := range other { m[key] = value }`
unfoldable pub insert_all {ℓ} : {V : Type ℓ} → Dict V → Dict V → Dict V
insert_all m [] = m
insert_all m ((k, v) ∷ other) = insert_all (insert k v m) other

pub lookup-insert_all {ℓ} :
    {V : Type ℓ} (j : String) (m other : Dict V)
    → NodupKeys other
    → lookup j (insert_all m other) ≡ or_else (lookup j other) (lookup j m)
unfolding insert_all lookup
lookup-insert_all j m [] u = refl
lookup-insert_all j m ((k, v) ∷ other) (fresh, u) =
    rw (lookup-insert_all j (insert k v m) other u, lookup-insert)
      (ground (arith, eq_iff k j, fresh))

pub insert_all-NodupKeys {ℓ} :
    {V : Type ℓ} (m other : Dict V) → NodupKeys m → NodupKeys (insert_all m other)
unfolding insert_all
insert_all-NodupKeys m [] u = u
insert_all-NodupKeys m ((k, v) ∷ other) u =
    insert_all-NodupKeys (insert k v m) other (insert-NodupKeys k v m u)

pub get_by_lookup :
    (k : String) (a b : Dict String) → lookup k a ≡ lookup k b → get_or_empty k a ≡ get_or_empty k b
unfolding get_or_empty
get_by_lookup k a b h = rw (h, get_or_empty)
