-- ===== src/Driver/Params/Accepted.antt =====
-- The validation of parameters, entry by entry, and the merge of persisted parameters.
use forks_seaweedfs_csi_driv.Common.{
  ◌≡◌, refl, ◌∙◌, sym, ap, ◌↔◌, String, Bool, true, false, none, some, [], ◌∷◌, ◌==◌, eq_iff,
  eq_refl, arith, if◌then◌else◌,
}
use forks_seaweedfs_csi_driv.Common.Dict.{
  Dict, lookup, insert, NodupKeys, or_else, lookup-insert, lookup-nil, insert_all,
  lookup-insert_all, insert-NodupKeys, insert_all-NodupKeys, get_by_lookup,
}
use forks_seaweedfs_csi_driv.Driver.Params.{
  is_mutable, validate_value, validate_constrained_values, validate_writeback_dlm_combo,
  merge_persisted, keep_mutable,
}

-- A persisted parameter takes the place of the context's value if its key is mutable; every other key
-- keeps its value.
pub lookup-merge_persisted :
    (j : String) (context persisted : Dict String)
    → NodupKeys persisted
    → lookup j (merge_persisted context persisted)
      ≡ (if is_mutable j then or_else (lookup j persisted) (lookup j context) else lookup j context)
unfolding merge_persisted lookup
lookup-merge_persisted j context [] u = ground arith
lookup-merge_persisted j context ((k, v) ∷ persisted) (fresh, u) =
    rw (lookup-merge_persisted j (if is_mutable k then insert k v context else context) persisted u)
      (merge_step (is_mutable k) refl)
  where
    merge_step :
        (b : Bool)
        → is_mutable k ≡ b
        → (if is_mutable j
            then or_else (lookup j persisted) (lookup j (if b then insert k v context else context))
            else lookup j (if b then insert k v context else context))
          ≡ (if is_mutable j
              then or_else (if k == j then some v else lookup j persisted) (lookup j context)
              else lookup j context)
    merge_step true e = rw lookup-insert (ground (arith, eq_iff k j, fresh, ap is_mutable))
    merge_step false e = ground (arith, eq_iff k j)

pub lookup-keep_mutable :
    (j : String) (effective attrs : Dict String)
    → NodupKeys attrs
    → lookup j (keep_mutable effective attrs) ≡ lookup j (merge_persisted effective attrs)
unfolding keep_mutable merge_persisted
lookup-keep_mutable j effective [] u = refl
lookup-keep_mutable j effective ((k, v) ∷ attrs) (fresh, u) =
    lookup-keep_mutable j (if is_mutable k then insert k v effective else effective) attrs u

-- The validation passes exactly when the value of every mutable key is valid.
pub validate_constrained_values_iff :
    (params : Dict String)
    → NodupKeys params
    → (validate_constrained_values params ≡ none) ↔ (
        (k v : String) → lookup k params ≡ some v → is_mutable k ≡ true → validate_value k v ≡ none)
unfolding validate_constrained_values lookup
validate_constrained_values_iff [] u = (λ e k v h. cc, λ h. refl)
validate_constrained_values_iff ((j, w) ∷ params) (fresh, u) = (
  λ e k v h m. ground (
    arith,
    eq_iff j k,
    (validate_constrained_values_iff params u).0 (ground (arith, eq_iff j k)) k v,
  ),
  λ all.
      let rest : validate_constrained_values params ≡ none =
        (validate_constrained_values_iff params u).1
          (λ k v h m. all k v (ground (arith, eq_iff j k, fresh)) m) in
      let first : is_mutable j ≡ true → validate_value j w ≡ none = all j w (rw eq_refl refl) in
      ground (arith, rest, first),
)

merge_persisted-NodupKeys :
    (context persisted : Dict String)
    → NodupKeys context
    → NodupKeys (merge_persisted context persisted)
unfolding merge_persisted
merge_persisted-NodupKeys context [] u = u
merge_persisted-NodupKeys context ((k, v) ∷ persisted) u =
    merge_persisted-NodupKeys (if is_mutable k then insert k v context else context) persisted
      (ground (arith, insert-NodupKeys k v context u))

keep_mutable-NodupKeys :
    (effective attrs : Dict String) → NodupKeys effective → NodupKeys (keep_mutable effective attrs)
unfolding keep_mutable
keep_mutable-NodupKeys effective [] u = u
keep_mutable-NodupKeys effective ((k, v) ∷ attrs) u =
    keep_mutable-NodupKeys (if is_mutable k then insert k v effective else effective) attrs
      (ground (arith, insert-NodupKeys k v effective u))

-- The combination of writebackCache and dlm is judged by the values of these two keys alone.
combo_by_lookup :
    (a b : Dict String)
    → lookup "writebackCache" a ≡ lookup "writebackCache" b
    → lookup "dlm" a ≡ lookup "dlm" b
    → validate_writeback_dlm_combo a ≡ validate_writeback_dlm_combo b
unfolding validate_writeback_dlm_combo
combo_by_lookup a b h k = rw (get_by_lookup "writebackCache" a b h, get_by_lookup "dlm" a b k)

-- What was accepted for the static mutable attributes overlaid with the modified parameters is
-- accepted for the whole context overlaid with the same parameters when they were persisted.
pub accepted_stays_accepted :
    (attrs params : Dict String)
    → NodupKeys attrs
    → NodupKeys params
    → validate_constrained_values (insert_all (keep_mutable [] attrs) params) ≡ none
    → validate_writeback_dlm_combo (insert_all (keep_mutable [] attrs) params) ≡ none
    → (validate_constrained_values (merge_persisted attrs params) ≡ none)
      × (validate_writeback_dlm_combo (merge_persisted attrs params) ≡ none)
accepted_stays_accepted attrs params ua up valid combo = (
  (validate_constrained_values_iff (merge_persisted attrs params)
        (merge_persisted-NodupKeys attrs params ua)).1
      λ k v found m.
        (validate_constrained_values_iff (insert_all (keep_mutable [] attrs) params)
            (insert_all-NodupKeys _ params (keep_mutable-NodupKeys [] attrs tt))).0
          valid k v (sym (same k m) ∙ found) m,
  combo_by_lookup (merge_persisted attrs params) (insert_all (keep_mutable [] attrs) params)
        (same "writebackCache" (unfold is_mutable in refl)) (same "dlm" (unfold is_mutable in refl))
      ∙ combo,
)
  where
    same :
        (k : String)
        → is_mutable k ≡ true
        → lookup k (merge_persisted attrs params)
          ≡ lookup k (insert_all (keep_mutable [] attrs) params)
    same k m =
        rw
          (
            lookup-merge_persisted k attrs params up,
            lookup-insert_all k (keep_mutable [] attrs) params up,
            lookup-keep_mutable k [] attrs ua,
            lookup-merge_persisted k [] attrs ua,
            m,
            lookup-nil,
          )
          (ground arith)
