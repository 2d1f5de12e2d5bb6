-- ===== src/Driver/Controller/Modified.antt =====
-- ControllerModifyVolume of pkg/driver/controllerserver.go and a later stage of the volume.
use forks_seaweedfs_csi_driv.Common.{◌≡◌, refl, String, Option, none, some, [], ◌∷◌, arith}
use forks_seaweedfs_csi_driv.Common.Dict.{Dict, NodupKeys, insert_all}
use forks_seaweedfs_csi_driv.Common.Failure.{Failure, Result, ok}
use forks_seaweedfs_csi_driv.Driver.Host.{Node}
use forks_seaweedfs_csi_driv.Driver.Host.Monad.{pure, ◌>>=◌}
use forks_seaweedfs_csi_driv.Driver.Params.{
  validate_mutable_parameters, validate_constrained_values, validate_writeback_dlm_combo,
  keep_mutable, merge_persisted,
}
use forks_seaweedfs_csi_driv.Driver.Params.Accepted.{accepted_stays_accepted}
use forks_seaweedfs_csi_driv.Driver.Controller.{
  invalid, effective_parameters, check_effective, modify_with, controller_modify_volume,
}
use forks_seaweedfs_csi_driv.Driver.Node.Staging.{
  lift, or_invalid_argument, effective_context, checked_context,
}

invalid_passed :
    (r : Option String) (rest : Result (Unit {0}))
    → invalid r rest ≡ ok tt
    → (r ≡ none) × (rest ≡ ok tt)
unfolding invalid
invalid_passed none rest e = (refl, e)
invalid_passed (some m) rest e = cc

modify_passed :
    (id : String) (params attrs : Dict String) (written : Option Failure)
    → controller_modify_volume id params (ok attrs) written ≡ ok tt
    → check_effective id (effective_parameters attrs params) written ≡ ok tt
unfolding controller_modify_volume modify_with
modify_passed id [] attrs written e = ground arith
modify_passed id (p ∷ ps) attrs written e =
    (invalid_passed (validate_mutable_parameters (p ∷ ps)) _ (ground (arith, e))).1

-- If ControllerModifyVolume accepts new parameters for a volume whose PV has the attributes `attrs`,
-- then a stage of the volume with this context, which finds the parameters persisted, passes both
-- validations: no accepted class makes a later mount fail there.
pub modified_volume_stages :
    (id : String) (params attrs : Dict String) (written : Option Failure) (n : Node)
    → NodupKeys attrs
    → NodupKeys params
    → controller_modify_volume id params (ok attrs) written ≡ ok tt
    → checked_context id attrs (ok params) n ≡ (ok (merge_persisted attrs params), n)
unfolding checked_context effective_context lift or_invalid_argument ◌>>=◌ pure check_effective
    effective_parameters
modified_volume_stages id params attrs written n ua up e =
    let (valid, rest) =
      invalid_passed (validate_constrained_values (insert_all (keep_mutable [] attrs) params)) _
        (modify_passed id params attrs written e) in
    let (combo, done) =
      invalid_passed (validate_writeback_dlm_combo (insert_all (keep_mutable [] attrs) params)) _
        rest in
    let passed = accepted_stays_accepted attrs params ua up valid combo in
    rw (passed.0, passed.1) refl
