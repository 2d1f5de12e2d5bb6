-- ===== src/Driver/Arguments/Kept.antt =====
-- What the volume context can make of the flags: the loops of buildMountArgs in
-- pkg/driver/mounter.go.
use mathlib.Core.Path.{subst}
use forks_seaweedfs_csi_driv.Common.{
  String, ◌≡◌, ◌≢◌, ◌⊎◌, refl, sym, ap, ◌∙◌, Bool, true, false, ◌&&◌, not, inl, inr, List, [], ◌∷◌,
  ◌==◌, eq_iff, if◌then◌else◌, Bool-cases, All, All-weaken, member, arith,
}
use forks_seaweedfs_csi_driv.Common.Text.{any_char}
use forks_seaweedfs_csi_driv.Common.Words.{Lacks}
use forks_seaweedfs_csi_driv.Common.Dict.{Dict, lookup, insert, has_key}
use forks_seaweedfs_csi_driv.Driver.Arguments.{
  flag, mapped, is_ignored, set_known, set_parameter, overlay, print_args,
}
use forks_seaweedfs_csi_driv.Driver.Arguments.Flags.{Sets, is_equals, flag-Sets}

-- The entries of a map whose names can be printed as flags, and are none of those in a list.
abbrev pub IsPlain : List String → String → Type 0
IsPlain names name = Lacks is_equals name × (member name names ≡ false)

abbrev pub hard : List String
hard = "dir" ∷ "dirAutoCreate" ∷ "localSocket" ∷ "cacheDir" ∷ "readOnly" ∷ []

abbrev AllPlain : Dict String → Type 0
AllPlain args = All (λ entry. IsPlain hard entry.0) args

pub insert-All :
    (P : String × String → Type 0) (key value : String) (m : Dict String)
    → P (key, value)
    → All P m
    → All P (insert key value m)
unfolding insert
insert-All P key value [] p h = (p, tt)
insert-All P key value ((j, w) ∷ m) p (h, hs) = elim (Bool-cases (j == key)) [
  | inl same ↦ rw same (p, hs)
  | inr other ↦ rw other (h, insert-All P key value m p hs)
]

has_key-cons :
    (key j w : String) (m : Dict String)
    → has_key key ((j, w) ∷ m) ≡ (if j == key then true else has_key key m)
unfolding has_key lookup
has_key-cons key j w m = elim (Bool-cases (j == key)) [
  | inl same ↦ rw (same, has_key)
  | inr other ↦ rw (other, has_key)
]

known-All :
    (P : String → Type 0) (key : String) (m : Dict String)
    → All (λ entry. P entry.0) m
    → has_key key m ≡ true
    → P key
known-All P key [] h k = unfold has_key lookup in cc
known-All P key ((j, w) ∷ m) (h, hs) k = elim (Bool-cases (j == key)) [
  | inl same ↦ subst P ((eq_iff j key).0 same) h
  | inr other ↦ known-All P key m hs (rw other at (sym (has_key-cons key j w m) ∙ k))
]

abbrev pub quota_name : String
quota_name = "collectionQuotaMB"

-- No name in the list, and the quota's value.
abbrev pub IsKept : String → String × String → Type 0
IsKept initial_quota entry = IsPlain hard entry.0 × (entry.0 ≡ quota_name → entry.1 ≡ initial_quota)

mapped-cases :
    (key : String)
    → (mapped key ≡ "map.uid")
      ⊎ (mapped key ≡ "map.gid")
      ⊎ (mapped key ≡ "disk")
      ⊎ (mapped key ≡ key)
unfolding mapped
mapped-cases key = elim (Bool-cases (key == "uidMap")) [
  | inl a ↦ inl (rw a)
  | inr a ↦ inr (elim (Bool-cases (key == "gidMap")) [
    | inl b ↦ inl (rw (a, b))
    | inr b ↦ inr (elim (Bool-cases (key == "diskType")) [
      | inl c ↦ inl (rw (a, b, c))
      | inr c ↦ inr (rw (a, b, c))
    ])
  ])
]

pub mapped-ne-quota : (key : String) → is_ignored key ≡ false → mapped key ≢ quota_name
mapped-ne-quota key h e = wrong (mapped-cases key)
  where
    wrong :
        (mapped key ≡ "map.uid")
          ⊎ (mapped key ≡ "map.gid")
          ⊎ (mapped key ≡ "disk")
          ⊎ (mapped key ≡ key)
        → ⊥
    wrong (inl a) = cc
    wrong (inr (inl a)) = cc
    wrong (inr (inr (inl a))) = cc
    wrong (inr (inr (inr a))) =
        let same : is_ignored key ≡ true = ap is_ignored (sym a ∙ e) ∙ unfold is_ignored in refl in
        cc

set_known-IsKept :
    (initial_quota name value : String) (args : Dict String)
    → name ≢ quota_name
    → All (IsKept initial_quota) args
    → (b : Bool) → has_key name args ≡ b
    → All (IsKept initial_quota) (if b && not (value == "") then insert name value args else args)
set_known-IsKept initial_quota name value args ne h false k = h
set_known-IsKept initial_quota name value args ne h true k = elim (Bool-cases (value == "")) [
  | inl empty ↦ rw empty h
  | inr given ↦ rw given (
      insert-All (IsKept initial_quota) name value args
        (
          known-All (IsPlain hard) name args
              (All-weaken (IsKept initial_quota) _ args (λ entry kept. kept.0) h) k,
          λ e. absurd (ne e),
        )
        h)
]

set_parameter-IsKept :
    (initial_quota key value : String) (args : Dict String)
    → All (IsKept initial_quota) args
    → All (IsKept initial_quota) (set_parameter key value args)
unfolding set_parameter set_known
set_parameter-IsKept initial_quota key value args h = elim (Bool-cases (is_ignored key)) [
  | inl ignored ↦ rw ignored h
  | inr used ↦
      rw used
        (set_known-IsKept initial_quota (mapped key) value args (mapped-ne-quota key used) h _ refl)
]

pub overlay-IsKept :
    (initial_quota : String) (context args : Dict String)
    → All (IsKept initial_quota) args
    → All (IsKept initial_quota) (overlay args context)
unfolding overlay
overlay-IsKept initial_quota [] args h = h
overlay-IsKept initial_quota ((key, value) ∷ context) args h =
    overlay-IsKept initial_quota context (set_parameter key value args)
      (set_parameter-IsKept initial_quota key value args h)

pub print_args-Sets :
    (P : String → Type 0) (initial_quota name : String) (args : Dict String)
    → ((entry : String × String)
        → IsKept initial_quota entry
        → entry.0 ≡ name
        → P (flag entry.0 entry.1))
    → All (IsKept initial_quota) args
    → Sets name P (print_args args)
unfolding print_args
print_args-Sets P initial_quota name [] f h = tt
print_args-Sets P initial_quota name ((key, value) ∷ args) f (h, hs) =
    elim (Bool-cases (value == "")) [
      | inl empty ↦ rw empty (print_args-Sets P initial_quota name args f hs)
      | inr given ↦ rw given (
        flag-Sets P key value name h.0.0 (f (key, value) h),
        print_args-Sets P initial_quota name args f hs,
      )
    ]

unfoldable pub all_plain : Dict String → Bool
all_plain [] = true
all_plain ((key, value) ∷ args) =
    not (any_char is_equals key)
    && (not (member key hard) && (not (key == quota_name) && all_plain args))

all_plain-inv :
    (a b c d : Bool)
    → not a && (not b && (not c && d)) ≡ true
    → (not a ≡ true) × (b ≡ false) × (c ≡ false) × (d ≡ true)
all_plain-inv a b c d h = (ground arith, ground arith, ground arith, ground arith)

pub all_plain-IsKept :
    (initial_quota : String) (args : Dict String)
    → all_plain args ≡ true
    → All (IsKept initial_quota) args
unfolding all_plain
all_plain-IsKept initial_quota [] h = tt
all_plain-IsKept initial_quota ((key, value) ∷ args) h =
    let (a, b, c, d) =
      all_plain-inv (any_char is_equals key) (member key hard) (key == quota_name) (all_plain args)
        h in
    (((a, b), λ e. cc ((eq_iff key quota_name).1 e)), all_plain-IsKept initial_quota args d)
