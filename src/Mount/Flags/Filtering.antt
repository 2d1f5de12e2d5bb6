-- ===== src/Mount/Flags/Filtering.antt =====
-- What the filtering of mount arguments keeps, drops and refuses.
use forks_seaweedfs_csi_driv.Common.{
  String, ◌≡◌, refl, inl, inr, ◌↔◌, ◌≢◌, true, false, some, List, [], ◌∷◌, ◌++◌, eq_iff, arith,
  member, All, Bool-cases,
}
use forks_seaweedfs_csi_driv.Common.Failure.{Failure, ok, err, failure}
use forks_seaweedfs_csi_driv.Mount.Flags.{
  WeedMountFlags, split_at_mount, is_accepted, is_required, sift, conclude, missing_error,
  filter_mount_args,
}

module _ (flags : WeedMountFlags) (required : List String) where
  -- With no flag missing, the sifted arguments are accepted, and hold every required one.
  sift-accepted :
      (args : List String)
      → All (λ a. is_accepted flags a ≡ true) (sift flags required args).filtered
  unfolding sift
  sift-accepted [] = tt
  sift-accepted (a ∷ args) = elim (Bool-cases (is_accepted flags a)) [
    | inl yes_ ↦ rw yes_ (yes_, sift-accepted args)
    | inr no_ ↦ rw no_ (elim (Bool-cases (is_required required a)) [
      | inl r ↦ rw r (sift-accepted args)
      | inr r ↦ rw r (sift-accepted args)
    ])
  ]

  sift-keeps_required :
      (args : List String) (a : String)
      → (sift flags required args).missing ≡ []
      → member a args ≡ true
      → is_required required a ≡ true
      → member a (sift flags required args).filtered ≡ true
  unfolding sift
  sift-keeps_required [] a h m r = m
  sift-keeps_required (b ∷ args) a h m r = ground (arith, eq_iff b a, sift-keeps_required args a)

  missing-eq-nil :
      (args : List String)
      → ((a : String)
          → member a args ≡ true
          → is_accepted flags a ≡ false
          → is_required required a ≡ false)
      → (sift flags required args).missing ≡ []
  unfolding sift
  missing-eq-nil [] h = refl
  missing-eq-nil (b ∷ args) h =
      ground (arith, h b, eq_iff b b, missing-eq-nil args (λ a m. h a (ground arith)))

  -- A missing flag has an argument that calls for it.
  missing-witness :
      (args : List String)
      → (sift flags required args).missing ≢ []
      → (a : String) × (member a args ≡ true)
        × (is_accepted flags a ≡ false)
        × (is_required required a ≡ true)
  unfolding sift
  missing-witness [] h = absurd (h refl)
  missing-witness (b ∷ args) h = elim (Bool-cases (is_accepted flags b)) [
    | inl fine ↦ let (a, m, x, r) = missing-witness args (rw fine at h) in (a, ground arith, x, r)
    | inr unknown ↦ elim (Bool-cases (is_required required b)) [
      | inl needed ↦ (b, ground (arith, eq_iff b b), unknown, needed)
      | inr optional ↦
          let (a, m, x, r) = missing-witness args (rw optional at (rw unknown at h)) in
          (a, ground arith, x, r)
    ]
  ]

  required-missing :
      (args : List String) (a : String)
      → member a args ≡ true
      → is_accepted flags a ≡ false
      → is_required required a ≡ true
      → (sift flags required args).missing ≢ []
  unfolding sift
  required-missing [] a m x r h = cc
  required-missing (b ∷ args) a m x r h = ground (arith, eq_iff b a, required-missing args a)

conclude-error :
    (flags : WeedMountFlags) (global filtered missing dropped : List String)
    → missing ≢ []
    → (e : Failure) × (conclude flags global
          (record { filtered = filtered; missing = missing; dropped = dropped })
        ≡ err e)
unfolding conclude
conclude-error flags global filtered [] dropped h = absurd (h refl)
conclude-error flags global filtered (m ∷ ms) dropped h =
    (failure (missing_error flags (m ∷ ms)), refl)

module _ (args : List String) (flags : WeedMountFlags) (required : List String)
    {global rest : List String} (found : split_at_mount args ≡ some (global, rest)) where
  -- If the filtering succeeds, the arguments up to `mount` are kept as they are, every kept argument
  -- behind it is accepted by weed, and every required argument behind it is kept.
  pub filter_mount_args_ok :
      {out : List String}
      → filter_mount_args args flags required ≡ ok out
      → (kept : List String) × (out ≡ global ++ kept)
        × All (λ a. is_accepted flags a ≡ true) kept
        × ((a : String)
            → member a rest ≡ true
            → is_required required a ≡ true
            → member a kept ≡ true)
  unfolding filter_mount_args
  filter_mount_args_ok h =
      let s = sift flags required rest in
      let none_missing : s.missing ≡ [] = ground (arith, found) in
      (
        s.filtered,
        ground (arith, found),
        sift-accepted flags required rest,
        λ a m r. sift-keeps_required flags required rest a none_missing m r,
      )

  -- The filtering fails exactly when some argument behind `mount` has a required flag that weed
  -- does not define.
  pub filter_mount_args_error :
      ((e : Failure) × (filter_mount_args args flags required ≡ err e)) ↔ (
        (a : String) × (member a rest ≡ true)
        × (is_accepted flags a ≡ false)
        × (is_required required a ≡ true))
  unfolding filter_mount_args
  filter_mount_args_error = (
    λ (e, h). missing-witness flags required rest (λ n. ground (arith, found)),
    λ (a, m, x, r).
        let s = sift flags required rest in
        let (e, h) =
          conclude-error flags global s.filtered s.missing s.dropped
            (required-missing flags required rest a m x r) in
        (e, ground (arith, found, h)),
  )
