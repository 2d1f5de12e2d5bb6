-- ===== src/Driver/Arguments/Printed.antt =====
-- Which flags of a weed mount the driver prints, whatever the volume context: buildMountArgs of
-- pkg/driver/mounter.go.
use forks_seaweedfs_csi_driv.Common.{
  String, ◌<>◌, ◌≡◌, ◌≢◌, refl, ◌∙◌, Bool, true, false, ◌&&◌, not, some, inl, inr, List, [], ◌∷◌,
  ◌++◌, ◌==◌, eq_iff, Among, Bool-cases, arith,
}
use forks_seaweedfs_csi_driv.Common.Dict.{Dict, lookup, lookup-insert, has_key, get_or_empty}
use forks_seaweedfs_csi_driv.Driver.Params.{DataLocality, none_, write_prefer_local_dc}
use forks_seaweedfs_csi_driv.Driver.Quota.{initial_collection_quota_mb}
use forks_seaweedfs_csi_driv.Driver.Arguments.{
  Settings, flag, is_ignored, mapped, set_known, set_parameter, overlay, default_args,
  with_locality, print_args, read_only_arg, fixed_args, all_args,
}
use forks_seaweedfs_csi_driv.Driver.Arguments.Kept.{quota_name, mapped-ne-quota}

-- The argument that sets a flag.
abbrev pub assigned : String → String → String
assigned name value = "-" <> (name <> ("=" <> value))

Among-left : (a : String) (xs ys : List String) → Among a xs → Among a (xs ++ ys)
Among-left a [] ys m = absurd m
Among-left a (x ∷ xs) ys (inl e) = inl e
Among-left a (x ∷ xs) ys (inr m) = inr (Among-left a xs ys m)

Among-right : (a : String) (xs ys : List String) → Among a ys → Among a (xs ++ ys)
Among-right a [] ys m = m
Among-right a (x ∷ xs) ys m = inr (Among-right a xs ys m)

-- The quota in the map of arguments: no parameter of the context can reach it.
lookup-set_known :
    (name value : String) (args : Dict String)
    → name ≢ quota_name
    → lookup quota_name (set_known name value args) ≡ lookup quota_name args
unfolding set_known
lookup-set_known name value args ne = elim (Bool-cases (has_key name args && not (value == ""))) [
  | inl known ↦
      rw known
        (lookup-insert name quota_name value args ∙ ground (arith, eq_iff name quota_name, ne))
  | inr unknown ↦ rw unknown refl
]

lookup-set_parameter :
    (key value : String) (args : Dict String)
    → lookup quota_name (set_parameter key value args) ≡ lookup quota_name args
unfolding set_parameter
lookup-set_parameter key value args = elim (Bool-cases (is_ignored key)) [
  | inl ignored ↦ rw ignored refl
  | inr used ↦ rw used (lookup-set_known (mapped key) value args (mapped-ne-quota key used))
]

lookup-overlay :
    (context args : Dict String) → lookup quota_name (overlay args context) ≡ lookup quota_name args
unfolding overlay
lookup-overlay [] args = refl
lookup-overlay ((key, value) ∷ context) args =
    lookup-overlay context (set_parameter key value args) ∙ lookup-set_parameter key value args

print_args-lookup :
    (name value : String) (args : Dict String)
    → lookup name args ≡ some value
    → value ≢ ""
    → Among (assigned name value) (print_args args)
unfolding print_args lookup flag
print_args-lookup name value [] e ne = cc
print_args-lookup name value ((key, w) ∷ args) e ne = elim (Bool-cases (key == name)) [
  | inl same ↦
      let here : w ≡ value = ground (arith, same) in
      let filled : (w == "") ≡ false = ground (arith, eq_iff w "", here, ne) in
      rw filled (inl (rw ((eq_iff key name).0 same, here) refl))
  | inr other ↦
      let later = print_args-lookup name value args (ground (arith, other)) ne in
      elim (Bool-cases (w == "")) [ inl empty ↦ rw empty later | inr full ↦ rw full (inr later) ]
]

-- The driver's own flags are among the arguments: -readOnly for a volume that is read-only, and the
-- quota if there is one.
pub record IsPrinted (read_only : Bool) (target cache_dir local_socket first_quota : String)
    (args : List String) : Type 0 where
  pub dir_given : Among (assigned "dir" target) args
  pub local_socket_given : Among (assigned "localSocket" local_socket) args
  pub cache_dir_given : Among (assigned "cacheDir" cache_dir) args
  pub dir_auto_create_given : Among "-dirAutoCreate=true" args
  pub read_only_given : read_only ≡ true → Among "-readOnly" args
  pub quota_given : first_quota ≢ "" → Among (assigned "collectionQuotaMB" first_quota) args

module _ (s : Settings) (id : String) (read_only : Bool) (context : Dict String)
    (target cache_dir local_socket : String) (locality : DataLocality) (data_center : String) where
  abbrev first_quota : String
  first_quota = initial_collection_quota_mb (get_or_empty "volumeCapacity" context)

  abbrev fixed : List String
  fixed = fixed_args s id read_only context target cache_dir local_socket

  lookup-defaults :
      (l : DataLocality)
      → lookup quota_name (with_locality l data_center (default_args s id context))
        ≡ some first_quota
  unfolding with_locality default_args lookup
  lookup-defaults none_ = refl
  lookup-defaults write_prefer_local_dc =
      lookup-insert "dataCenter" quota_name data_center (default_args s id context) ∙ refl

  read_only_last : (r : Bool) → r ≡ true → Among "-readOnly" (read_only_arg r)
  unfolding read_only_arg
  read_only_last true e = inl refl
  read_only_last false e = cc

  pub all_args-IsPrinted :
      IsPrinted read_only target cache_dir local_socket first_quota
        (all_args s id read_only context target cache_dir local_socket locality data_center)
  unfolding all_args fixed_args flag
  all_args-IsPrinted =
      let printed =
        print_args
          (overlay (with_locality locality data_center (default_args s id context)) context) in
      record {
        dir_given = inr (inr (inr (inr (inl refl))));
        local_socket_given = inr (inr (inr (inr (inr (inl refl)))));
        cache_dir_given = inr (inr (inr (inr (inr (inr (inl refl))))));
        dir_auto_create_given = inr (inr (inl refl));
        read_only_given = λ e.
            Among-left "-readOnly" fixed (printed ++ s.mount_extra_args)
              (inr (inr (inr (inr (inr (inr (inr (inr (read_only_last read_only e)))))))));
        quota_given = λ ne. Among-right _ fixed (printed ++ s.mount_extra_args) (
            Among-left _ printed s.mount_extra_args (
              print_args-lookup quota_name first_quota _
                (lookup-overlay context
                    (with_locality locality data_center (default_args s id context))
                  ∙ lookup-defaults locality)
                ne));
      }
