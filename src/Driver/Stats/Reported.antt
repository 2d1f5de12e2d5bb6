-- ===== src/Driver/Stats/Reported.antt =====
-- Which paths validateVolumeStatsPath of pkg/driver/volume_stats.go accepts.
use forks_seaweedfs_csi_driv.Common.{
  String, ◌≡◌, ◌≢◌, ◌⊎◌, inl, inr, refl, sym, ap, ◌∙◌, Bool, true, false, Option, none, some, List,
  [], ◌∷◌, ◌++◌, ◌==◌, eq_iff, All, Among, Bool-cases, arith,
}
use forks_seaweedfs_csi_driv.Common.Text.{has_prefix, split}
use forks_seaweedfs_csi_driv.Common.Paths.{clean}
use forks_seaweedfs_csi_driv.Common.Dict.{Dict, lookup}
use forks_seaweedfs_csi_driv.Driver.Host.{Volume}
use forks_seaweedfs_csi_driv.Driver.Stats.{
  tracks, volume_stats_path_owner, behind_layout, ends_there, has_layout,
  is_kubelet_csi_publish_path, is_tracked, validate_volume_stats_path,
}

-- Parts that end in pods/<uid>/volumes/kubernetes.io~csi/<pv>/mount.
pub record IsPublishPath (parts : List String) : Type 0 where
  pub before : List String
  pub uid : String
  pub pv : String
  pub layout :
      parts ≡ before ++ ("pods" ∷ uid ∷ "volumes" ∷ "kubernetes.io~csi" ∷ pv ∷ "mount" ∷ [])
  pub uid_given : uid ≢ ""
  pub pv_given : pv ≢ ""

abbrev Layout : List String → List String → Type 0
Layout parts rest =
    (uid : String) × (pv : String) × (parts
      ≡ "pods" ∷ uid ∷ "volumes" ∷ "kubernetes.io~csi" ∷ pv ∷ "mount" ∷ rest)
    × (uid ≢ "")
    × (pv ≢ "")

behind_layout-inv : (parts rest : List String) → behind_layout parts ≡ some rest → Layout parts rest
unfolding behind_layout
behind_layout-inv (a ∷ b ∷ c ∷ d ∷ e ∷ f ∷ more) rest h = ground (
  arith,
  eq_iff a "pods",
  eq_iff b "",
  eq_iff c "volumes",
  eq_iff d "kubernetes.io~csi",
  eq_iff e "",
  eq_iff f "mount",
)
behind_layout-inv [] rest h = cc
behind_layout-inv (a ∷ []) rest h = cc
behind_layout-inv (a ∷ b ∷ []) rest h = cc
behind_layout-inv (a ∷ b ∷ c ∷ []) rest h = cc
behind_layout-inv (a ∷ b ∷ c ∷ d ∷ []) rest h = cc
behind_layout-inv (a ∷ b ∷ c ∷ d ∷ e ∷ []) rest h = cc

deeper : (part : String) (parts : List String) → IsPublishPath parts → IsPublishPath (part ∷ parts)
deeper part parts l = record {
  before = part ∷ l.before;
  uid = l.uid;
  pv = l.pv;
  layout = ap (λ ps. part ∷ ps) l.layout;
  uid_given = l.uid_given;
  pv_given = l.pv_given;
}

ends_there-IsPublishPath :
    (part : String) (parts : List String) (o : Option (List String)) (later : Bool)
    → behind_layout (part ∷ parts) ≡ o
    → (later ≡ true → IsPublishPath parts)
    → ends_there o later ≡ true
    → IsPublishPath (part ∷ parts)
unfolding ends_there
ends_there-IsPublishPath part parts none later e k h = deeper part parts (k h)
ends_there-IsPublishPath part parts (some (x ∷ xs)) later e k h = cc
ends_there-IsPublishPath part parts (some []) later e k h =
    let (uid, pv, whole, u, v) = behind_layout-inv (part ∷ parts) [] e in
    record { before = []; uid = uid; pv = pv; layout = whole; uid_given = u; pv_given = v }

has_layout-IsPublishPath : (parts : List String) → has_layout parts ≡ true → IsPublishPath parts
unfolding has_layout
has_layout-IsPublishPath [] h = cc
has_layout-IsPublishPath (part ∷ parts) h =
    ends_there-IsPublishPath part parts _ _ refl (has_layout-IsPublishPath parts) h

-- The volume is in the map, staged or published at the path.
abbrev pub Tracks : Dict Volume → String → String → Type 0
Tracks volumes id path = (v : Volume) × Among (id, v) volumes × (tracks path v ≡ true)

lookup-Among :
    (id : String) (volumes : Dict Volume) (v : Volume)
    → lookup id volumes ≡ some v
    → Among (id, v) volumes
unfolding lookup
lookup-Among id [] v h = cc
lookup-Among id ((key, w) ∷ volumes) v h = elim (Bool-cases (key == id)) [
  | inl same ↦ inl (ground (arith, eq_iff key id))
  | inr other ↦ inr (lookup-Among id volumes v (ground arith))
]

is_tracked-Tracks :
    (volumes : Dict Volume) (id path : String)
    → is_tracked path (lookup id volumes) ≡ true
    → Tracks volumes id path
unfolding is_tracked
is_tracked-Tracks volumes id path h = found (lookup id volumes) refl h
  where
    found :
        (o : Option Volume)
        → lookup id volumes ≡ o
        → is_tracked path o ≡ true
        → Tracks volumes id path
    found none e k = cc
    found (some v) e k = (v, lookup-Among id volumes v e, k)

owner-Tracks :
    (volumes : Dict Volume) (path owner : String)
    → volume_stats_path_owner path volumes ≡ owner
    → owner ≢ ""
    → Tracks volumes owner path
unfolding volume_stats_path_owner
owner-Tracks [] path owner e ne = absurd (ne (sym e))
owner-Tracks ((id, v) ∷ volumes) path owner e ne = elim (Bool-cases (tracks path v)) [
  | inl own ↦ (v, inl (ground arith), own)
  | inr other ↦ let (w, m, t) = owner-Tracks volumes path owner (ground arith) ne in (w, inr m, t)
]

no_owner :
    (volumes : Dict Volume) (path : String)
    → All (λ e. e.0 ≢ "") volumes
    → volume_stats_path_owner path volumes ≡ ""
    → (id : String) (v : Volume) → Among (id, v) volumes
    → tracks path v ≡ false
unfolding volume_stats_path_owner
no_owner [] path full h id v m = absurd m
no_owner ((key, w) ∷ volumes) path (given, full) h id v m = elim (Bool-cases (tracks path w)) [
  | inl own ↦ absurd (given (ground arith))
  | inr other ↦ elim m [
    | inl e ↦ ap (λ p. tracks path p.1) (sym e) ∙ other
    | inr rest ↦ no_owner volumes path full (ground arith) id v rest
  ]
]

-- When no volume has an empty ID and validateVolumeStatsPath accepts a path for a volume, the path is
-- absolute. Then the volume is in the map, staged or published there; or the path ends, when it is
-- clean, in pods/<uid>/volumes/kubernetes.io~csi/<pv>/mount, and no volume is staged or published there.
pub validate_volume_stats_path-Tracks :
    (volumes : Dict Volume) (id path : String)
    → All (λ e. e.0 ≢ "") volumes
    → validate_volume_stats_path volumes id path ≡ none
    → (has_prefix path "/" ≡ true)
      × (Tracks volumes id path
          ⊎ (IsPublishPath (split b'/' (clean path))
              × ((other : String) (v : Volume) → Among (other, v) volumes → tracks path v ≡ false)))
unfolding validate_volume_stats_path is_kubelet_csi_publish_path
validate_volume_stats_path-Tracks volumes id path full h = elim (Bool-cases (has_prefix path "/")) [
  | inr relative ↦ absurd (ground arith)
  | inl absolute ↦ (
    absolute,
    elim (Bool-cases (is_tracked path (lookup id volumes))) [
      | inl own ↦ inl (is_tracked-Tracks volumes id path own)
      | inr untracked ↦ elim (Bool-cases (volume_stats_path_owner path volumes == "")) [
        | inl nobody ↦ inr (
          has_layout-IsPublishPath (split b'/' (clean path)) (ground arith),
          no_owner volumes path full ((eq_iff (volume_stats_path_owner path volumes) "").0 nobody),
        )
        | inr owned ↦ inl (
            owner-Tracks volumes path id (owner_is_id owned)
              (λ e. not_empty owned (owner_is_id owned ∙ e)))
      ]
    ],
  )
]
  where
    owner : String
    owner = volume_stats_path_owner path volumes

    not_empty : (owner == "") ≡ false → owner ≢ ""
    not_empty owned = ground (arith, eq_iff owner "")

    owner_is_id : (owner == "") ≡ false → owner ≡ id
    owner_is_id owned = ground (arith, eq_iff owner id)
