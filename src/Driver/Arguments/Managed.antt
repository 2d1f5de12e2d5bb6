-- ===== src/Driver/Arguments/Managed.antt =====
-- Which flags of a weed mount nothing but the driver sets: buildMountArgs of pkg/driver/mounter.go.
use mathlib.Core.Path.{subst}
use forks_seaweedfs_csi_driv.Common.{
  String, ◌≡◌, ◌≢◌, refl, ap, Bool, true, false, Option, none, some, List, [], ◌∷◌, ◌==◌, eq_iff,
  All, All-append, member,
}
use forks_seaweedfs_csi_driv.Common.Dict.{Dict, get_or_empty}
use forks_seaweedfs_csi_driv.Common.Failure.{Failure, ok}
use forks_seaweedfs_csi_driv.Driver.Params.{DataLocality, none_, write_prefer_local_dc}
use forks_seaweedfs_csi_driv.Driver.Quota.{initial_collection_quota_mb}
use forks_seaweedfs_csi_driv.Driver.Arguments.{
  Settings, flag_of, managed_flags, validate_mount_args, flag, other_defaults, default_args,
  with_locality, overlay, print_args, fixed_args, read_only_arg, all_args, unless_locality,
  for_locality, unless_invalid, build_mount_args, locality_of,
}
use forks_seaweedfs_csi_driv.Driver.Arguments.Flags.{Sets, flag-Sets, validate_mount_args-Sets}
use forks_seaweedfs_csi_driv.Driver.Arguments.Printed.{assigned, IsPrinted, all_args-IsPrinted}
use forks_seaweedfs_csi_driv.Driver.Arguments.Kept.{
  IsKept, hard, insert-All, overlay-IsKept, print_args-Sets, all_plain, all_plain-IsKept,
}

abbrev loose : List String
loose = "logtostderr" ∷ "mount" ∷ "umask" ∷ "sharedChunkCacheDir" ∷ []

not_loose :
    (name other : String) → member name loose ≡ true → member other loose ≡ false → name ≢ other
not_loose name other h k e = cc (ap (λ n. member n loose) e)

module _ (s : Settings) (id : String) (context : Dict String) where
  abbrev initial_quota : String
  initial_quota = initial_collection_quota_mb (get_or_empty "volumeCapacity" context)

  defaults-IsKept : All (IsKept initial_quota) (default_args s id context)
  unfolding default_args all_plain
  defaults-IsKept = (
    ((refl, refl), λ e. cc),
    (((refl, refl), λ e. refl), all_plain-IsKept initial_quota (other_defaults s id context) refl),
  )

  located-IsKept :
      (locality : DataLocality) (data_center : String)
      → All (IsKept initial_quota) (with_locality locality data_center (default_args s id context))
  unfolding with_locality
  located-IsKept none_ data_center = defaults-IsKept
  located-IsKept write_prefer_local_dc data_center =
      insert-All (IsKept initial_quota) "dataCenter" data_center (default_args s id context)
        ((refl, refl), λ e. cc) defaults-IsKept

  module _ (read_only : Bool) (target cache_dir local_socket : String) where
    abbrev fixed : List String
    fixed = fixed_args s id read_only context target cache_dir local_socket

    -- One flag of the driver's own, and what it is set to.
    read_only-Sets :
        (P : String → Type 0) (name : String) (r : Bool)
        → ("readOnly" ≡ name → r ≡ true → P "-readOnly")
        → Sets name P (read_only_arg r)
    unfolding read_only_arg flag_of
    read_only-Sets P name true f = ((λ e. f e refl), tt)
    read_only-Sets P name false f = tt

    fixed-Sets :
        (P : String → Type 0) (name : String)
        → member name loose ≡ false
        → ("dirAutoCreate" ≡ name → P "-dirAutoCreate=true")
        → ("dir" ≡ name → P (flag "dir" target))
        → ("localSocket" ≡ name → P (flag "localSocket" local_socket))
        → ("cacheDir" ≡ name → P (flag "cacheDir" cache_dir))
        → ("readOnly" ≡ name → read_only ≡ true → P "-readOnly")
        → Sets name P fixed
    unfolding fixed_args flag_of
    fixed-Sets P name free auto dir socket cache ro =
        let chunks =
          flag-Sets P "sharedChunkCacheDir" _ name refl
            (λ e. absurd (not_loose "sharedChunkCacheDir" name refl free e)) in
        let dir_arg = flag-Sets P "dir" target name refl dir in
        let socket_arg = flag-Sets P "localSocket" local_socket name refl socket in
        let cache_arg = flag-Sets P "cacheDir" cache_dir name refl cache in
        let ro_arg = read_only-Sets P name read_only ro in
        (
          λ e. absurd (not_loose "logtostderr" name refl free e),
          (
            λ e. absurd (not_loose "mount" name refl free e),
            (
              auto,
              (
                λ e. absurd (not_loose "umask" name refl free e),
                (dir_arg, (socket_arg, (cache_arg, (chunks, ro_arg)))),
              ),
            ),
          ),
        )

    all_args-Sets :
        (P : String → Type 0) (name : String) (locality : DataLocality) (data_center : String)
        → member name managed_flags ≡ true
        → validate_mount_args s.mount_extra_args ≡ none
        → Sets name P fixed
        → ((entry : String × String)
            → IsKept initial_quota entry
            → entry.0 ≡ name
            → P (flag entry.0 entry.1))
        → Sets name P
            (all_args s id read_only context target cache_dir local_socket locality data_center)
    unfolding all_args
    all_args-Sets P name locality data_center m valid own entries = All-append _ fixed _ own (
        All-append _
          (print_args
            (overlay (with_locality locality data_center (default_args s id context)) context))
          s.mount_extra_args
          (print_args-Sets P initial_quota name _ entries
            (overlay-IsKept initial_quota context _ (located-IsKept locality data_center)))
          (validate_mount_args-Sets P name s.mount_extra_args m valid))

    -- What the arguments say about the flags that are the driver's own: they are there, and every
    -- argument that sets one of them sets it so.
    pub record IsManaged (args : List String) : Type 0 where
      pub printed : IsPrinted read_only target cache_dir local_socket initial_quota args
      pub dir_set : Sets "dir" (λ arg. arg ≡ assigned "dir" target) args
      pub local_socket_set :
          Sets "localSocket" (λ arg. arg ≡ assigned "localSocket" local_socket) args
      pub cache_dir_set : Sets "cacheDir" (λ arg. arg ≡ assigned "cacheDir" cache_dir) args
      pub dir_auto_create_set : Sets "dirAutoCreate" (λ arg. arg ≡ "-dirAutoCreate=true") args
      pub read_only_set : Sets "readOnly" (λ arg. (arg ≡ "-readOnly") × (read_only ≡ true)) args
      pub quota_set :
          Sets "collectionQuotaMB" (λ arg. arg ≡ assigned "collectionQuotaMB" initial_quota) args

    differ : (P : Type 0) (a b : String) → (a == b) ≡ false → a ≡ b → P
    differ P a b h e = cc ((eq_iff a b).1 e)

    unkept :
        {P : Type 0} (key name : String)
        → member name hard ≡ true
        → member key hard ≡ false
        → key ≡ name
        → P
    unkept key name m n e = cc (ap (λ k. member k hard) e)

    all_args-IsManaged :
        (locality : DataLocality) (data_center : String)
        → validate_mount_args s.mount_extra_args ≡ none
        → IsManaged
            (all_args s id read_only context target cache_dir local_socket locality data_center)
    unfolding flag
    all_args-IsManaged l d valid = record {
      printed = all_args-IsPrinted s id read_only context target cache_dir local_socket l d;
      dir_set =
          all_args-Sets _ "dir" l d refl valid
            (fixed-Sets _ "dir" refl (differ _ "dirAutoCreate" "dir" refl) (λ e. refl)
              (differ _ "localSocket" "dir" refl) (differ _ "cacheDir" "dir" refl)
              (differ _ "readOnly" "dir" refl))
            (λ entry k e. unkept entry.0 "dir" refl k.0.1 e);
      local_socket_set =
          all_args-Sets _ "localSocket" l d refl valid
            (fixed-Sets _ "localSocket" refl (differ _ "dirAutoCreate" "localSocket" refl)
              (differ _ "dir" "localSocket" refl) (λ e. refl)
              (differ _ "cacheDir" "localSocket" refl) (differ _ "readOnly" "localSocket" refl))
            (λ entry k e. unkept entry.0 "localSocket" refl k.0.1 e);
      cache_dir_set =
          all_args-Sets _ "cacheDir" l d refl valid
            (fixed-Sets _ "cacheDir" refl (differ _ "dirAutoCreate" "cacheDir" refl)
              (differ _ "dir" "cacheDir" refl) (differ _ "localSocket" "cacheDir" refl) (λ e. refl)
              (differ _ "readOnly" "cacheDir" refl))
            (λ entry k e. unkept entry.0 "cacheDir" refl k.0.1 e);
      dir_auto_create_set =
          all_args-Sets _ "dirAutoCreate" l d refl valid
            (fixed-Sets _ "dirAutoCreate" refl (λ e. refl) (differ _ "dir" "dirAutoCreate" refl)
              (differ _ "localSocket" "dirAutoCreate" refl)
              (differ _ "cacheDir" "dirAutoCreate" refl) (differ _ "readOnly" "dirAutoCreate" refl))
            (λ entry k e. unkept entry.0 "dirAutoCreate" refl k.0.1 e);
      read_only_set =
          all_args-Sets _ "readOnly" l d refl valid
            (fixed-Sets _ "readOnly" refl (differ _ "dirAutoCreate" "readOnly" refl)
              (differ _ "dir" "readOnly" refl) (differ _ "localSocket" "readOnly" refl)
              (differ _ "cacheDir" "readOnly" refl) (λ e r. (refl, r)))
            (λ entry k e. unkept entry.0 "readOnly" refl k.0.1 e);
      quota_set =
          all_args-Sets _ "collectionQuotaMB" l d refl valid
            (fixed-Sets _ "collectionQuotaMB" refl
              (differ _ "dirAutoCreate" "collectionQuotaMB" refl)
              (differ _ "dir" "collectionQuotaMB" refl)
              (differ _ "localSocket" "collectionQuotaMB" refl)
              (differ _ "cacheDir" "collectionQuotaMB" refl)
              (differ _ "readOnly" "collectionQuotaMB" refl))
            (λ entry k e. rw (e, k.1 e));
    }

    checked :
        (o : Option Failure) (locality : DataLocality) (data_center : String) (args : List String)
        → validate_mount_args s.mount_extra_args ≡ none
        → unless_locality s id read_only context target cache_dir local_socket o locality
            data_center
          ≡ ok args
        → IsManaged args
    unfolding unless_locality
    checked none locality data_center args valid e =
        subst IsManaged (cc) (all_args-IsManaged locality data_center valid)
    checked (some f) locality data_center args valid e = cc

    located :
        (o : Option DataLocality) (args : List String)
        → validate_mount_args s.mount_extra_args ≡ none
        → for_locality s id read_only context target cache_dir local_socket o ≡ ok args
        → IsManaged args
    unfolding for_locality
    located none args valid e = cc
    located (some locality) args valid e = checked _ locality _ args valid e

    validated :
        (o : Option Failure) (args : List String)
        → validate_mount_args s.mount_extra_args ≡ o
        → unless_invalid s id read_only context target cache_dir local_socket o ≡ ok args
        → IsManaged args
    unfolding unless_invalid
    validated none args valid e = located (locality_of s context) args valid e
    validated (some f) args valid e = cc

    -- Whatever the volume context and the configured extra arguments are, the arguments that
    -- buildMountArgs returns hold -dir with the target, -localSocket with the socket, -cacheDir with the
    -- cache directory and -dirAutoCreate=true; -readOnly exactly for a read-only request; and
    -- -collectionQuotaMB with the initial quota, if there is one. No argument sets one of these flags
    -- otherwise.
    pub build_mount_args-IsManaged :
        (args : List String)
        → build_mount_args s id read_only context target cache_dir local_socket ≡ ok args
        → IsManaged args
    unfolding build_mount_args
    build_mount_args-IsManaged args e = validated _ args refl e
