-- ===== src/Driver/Caches/InUse.antt =====
-- Which cache directories the sweep of pkg/driver/utils.go leaves alone.
use text.Mathlib.TextLemmas.{cons-append}
use forks_seaweedfs_csi_driv.Common.{
  String, ◌<>◌, ◌≡◌, ◌≢◌, ◌⊎◌, inl, inr, refl, sym, ap, ◌∙◌, Bool, true, false, Option, none, some,
  List, [], ◌∷◌, ◌==◌, if◌then◌else◌, eq_iff, eq_refl, All, Among, Bool-cases, arith,
}
use forks_seaweedfs_csi_driv.Common.Text.{has_prefix}
use forks_seaweedfs_csi_driv.Common.Paths.{clean, join_clean, base}
use forks_seaweedfs_csi_driv.Common.Decimal.{pos, format_int}
use forks_seaweedfs_csi_driv.Common.Failure.{Failure, Result, ok, err}
use forks_seaweedfs_csi_driv.Driver.Controller.Provision.Names.{
  IsName, IsDirectory, join_clean-name, base-below,
}
use forks_seaweedfs_csi_driv.Driver.Caches.{
  CacheHolder, Swept, nothing, cache_dir_under, is_known, kubelet_has_staged,
  is_cache_of_served_mount, is_in_use, aside_name, moved_aside, detach_one, detach_entries,
  from_dir, detach_orphan_cache_dirs, remove_orphan_cache_dirs,
}

has_prefix-append : (p s : String) → has_prefix (p <> s) p ≡ true
has_prefix-append String.[] s = refl
has_prefix-append (String.◌∷◌ c p) s = rw (cons-append, has_prefix-append p s) (ground arith)

filled : (p rest : String) → p ≡ String.◌∷◌ "/" rest → (p == "") ≡ false
filled p rest e = elim (Bool-cases (p == "")) [
  | inl empty ↦ cc (sym e ∙ (eq_iff p "").0 empty)
  | inr full ↦ full
]

base_of_entry : (p x : String) → IsDirectory p → IsName x → base (join_clean p x) ≡ x
base_of_entry p x dir h = ap base (join_clean-name p dir x h) ∙ base-below p dir x h

module _ (n : CacheHolder) (id : String) (named : IsName (n.sha256_hex id)) where
  -- The volume is in the map, kubelet has it staged, or a mount serves it.
  abbrev pub InUse : Type 0
  InUse =
      Among id n.volumes
      ⊎ (kubelet_has_staged n (n.sha256_hex id) ≡ true)
      ⊎ (is_cache_of_served_mount n (n.sha256_hex id) ≡ true)

  -- Nothing that was moved is the volume's cache, and what is to be deleted was moved aside.
  abbrev pub Spares : String → Swept → Type 0
  Spares p s =
      All (λ m. m.0 ≢ cache_dir_under n p id) s.moved
      × All (λ d. (x : String) × (d ≡ join_clean p x) × (has_prefix x ".removing-" ≡ true))
          s.detached

  unless-Spares :
      (p : String) (b : Bool) (s : Swept) → Spares p s → Spares p (if b then nothing else s)
  unless-Spares p true s h = (tt, tt)
  unless-Spares p false s h = h

  module _ (p : String) (dir : IsDirectory p) (used : InUse) where
    cache_dir_lem : cache_dir_under n p id ≡ join_clean p (n.sha256_hex id)
    unfolding cache_dir_under
    cache_dir_lem = rw (filled p dir.rest dir.rooted) refl

    known_lem : (ids : List String) → Among id ids → is_known n p ids (n.sha256_hex id) ≡ true
    unfolding is_known
    known_lem [] m = absurd m
    known_lem (other ∷ ids) (inl e) =
        rw (e, cache_dir_lem, base_of_entry p _ dir named, eq_refl (n.sha256_hex id)) refl
    known_lem (other ∷ ids) (inr m) = rw (known_lem ids m) (ground arith)

    hash_in_use : InUse → is_in_use n p (n.sha256_hex id) ≡ true
    unfolding is_in_use
    hash_in_use (inl m) = rw (known_lem n.volumes m) refl
    hash_in_use (inr h) = ground (arith, h)

    entry_in_use :
        (name : String)
        → IsName name
        → join_clean p name ≡ cache_dir_under n p id
        → is_in_use n p name ≡ true
    entry_in_use name h e =
        let same : name ≡ n.sha256_hex id =
          sym (base_of_entry p name dir h)
          ∙ ap base (e ∙ cache_dir_lem)
          ∙ base_of_entry p _ dir named in
        rw same (hash_in_use used)

    aside_name-prefix : (name : String) → has_prefix (aside_name n name) ".removing-" ≡ true
    unfolding aside_name
    aside_name-prefix name =
        has_prefix-append ".removing-" (name <> ("-" <> format_int (pos (n.now name))))

    moved_aside-Spares :
        (from name : String) (o : Option Failure) (rest : Swept)
        → from ≢ cache_dir_under n p id
        → Spares p rest
        → Spares p (moved_aside n from (join_clean p (aside_name n name)) o rest)
    unfolding moved_aside
    moved_aside-Spares from name (some e) rest ne h = h
    moved_aside-Spares from name none rest ne h =
        ((ne, h.0), ((aside_name n name, refl, aside_name-prefix name), h.1))

    detach_one-Spares :
        (name : String) (rest : Swept)
        → IsName name
        → Spares p rest
        → Spares p (detach_one n p name rest)
    unfolding detach_one
    detach_one-Spares name rest k h = elim (Bool-cases (name == "chunks")) [
      | inl shared ↦ rw shared h
      | inr other ↦ elim (Bool-cases (has_prefix name ".removing-")) [
        | inl old ↦ rw (other, old) (h.0, ((name, refl, old), h.1))
        | inr new ↦ elim (Bool-cases (is_in_use n p name)) [
          | inl busy ↦ rw (other, new, busy) h
          | inr idle ↦
              rw (other, new, idle)
                (moved_aside-Spares _ name _ rest (λ e. cc (sym (entry_in_use name k e) ∙ idle)) h)
        ]
      ]
    ]

    detach_entries-Spares :
        (names : List String) → All IsName names → Spares p (detach_entries n p names)
    unfolding detach_entries
    detach_entries-Spares [] k = (tt, tt)
    detach_entries-Spares (name ∷ names) (k, ks) =
        detach_one-Spares name _ k (detach_entries-Spares names ks)

    from_dir-Spares :
        (r : Result (List String))
        → ((names : List String) → r ≡ ok names → All IsName names)
        → Spares p (from_dir n p r)
    unfolding from_dir
    from_dir-Spares (err e) k = (tt, tt)
    from_dir-Spares (ok names) k = detach_entries-Spares names (k names refl)

  -- Take a volume that is in the map, that kubelet has staged, or that a weed mount serves on its
  -- socket. When the cache base is a directory below the root, and its entries and the volume's hash
  -- are plain names, removeOrphanCacheDirs does not move the volume's cache directory; and whatever it
  -- deletes is an entry of the cache base whose name begins with ".removing-".
  pub remove_orphan_cache_dirs-Spares :
      IsDirectory (clean n.cache_dir)
      → ((names : List String) → n.read_dir (clean n.cache_dir) ≡ ok names → All IsName names)
      → InUse
      → Spares (clean n.cache_dir) (remove_orphan_cache_dirs n)
  unfolding remove_orphan_cache_dirs detach_orphan_cache_dirs
  remove_orphan_cache_dirs-Spares dir names used =
      let swept = from_dir-Spares (clean n.cache_dir) dir used _ names in
      unless-Spares _ (n.cache_dir == "") _ (
        unless-Spares _ (clean n.cache_dir == clean n.temp_dir) _
          (unless-Spares _ n.is_staging _ swept))
