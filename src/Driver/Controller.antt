-- ===== src/Driver/Controller.antt =====
-- ControllerModifyVolume of pkg/driver/controllerserver.go. What the Kubernetes API and the store of
-- persisted parameters answer are arguments.
pub mod Modified
pub mod Deletion
pub mod Pages
pub mod Emptied
pub mod Provision
mod Tests
use forks_seaweedfs_csi_driv.Common.{
  String, ◌<>◌, Option, none, some, List, [], ◌∷◌, ◌==◌, if◌then◌else◌,
}
use forks_seaweedfs_csi_driv.Common.Dict.{Dict, insert_all}
use forks_seaweedfs_csi_driv.Common.Failure.{
  Failure, Result, ok, err, status_error, invalid_argument, internal,
}
use forks_seaweedfs_csi_driv.Driver.Params.{
  validate_mutable_parameters, validate_constrained_values, validate_writeback_dlm_combo,
  keep_mutable,
}

invalid : Option String → Result (Unit {0}) → Result (Unit {0})
invalid none rest = rest
invalid (some message) rest = err (status_error invalid_argument message)

-- The parameters that a stage will meet: the static ones that may change, and the new ones.
unfoldable pub effective_parameters : Dict String → Dict String → Dict String
effective_parameters attrs params = insert_all (keep_mutable [] attrs) params

-- The end of ControllerModifyVolume, with the answer of the store's Write.
persist : String → Option Failure → Result (Unit {0})
persist id none = ok tt
persist id (some e) =
    err (status_error internal ("persisting modified parameters for " <> (id <> (": " <> e.text))))

check_effective : String → Dict String → Option Failure → Result (Unit {0})
unfolding invalid persist
check_effective id effective written =
    invalid (validate_constrained_values effective)
      (invalid (validate_writeback_dlm_combo effective) (persist id written))

modify_with : String → Dict String → Result (Dict String) → Option Failure → Result (Unit {0})
unfolding check_effective effective_parameters
modify_with id params (err e) written =
    err (status_error internal ("reading PV attributes for " <> (id <> (": " <> e.text))))
modify_with id params (ok attrs) written =
    check_effective id (effective_parameters attrs params) written

-- ControllerModifyVolume
unfoldable pub controller_modify_volume :
    String → Dict String → Result (Dict String) → Option Failure → Result (Unit {0})
unfolding modify_with invalid
controller_modify_volume id params attrs written =
    if id == ""
    then err (status_error invalid_argument "volume id missing in request")
    else elim params [
      | [] ↦ err (status_error invalid_argument "mutable parameters missing in request")
      | p ∷ ps ↦
          invalid (validate_mutable_parameters (p ∷ ps)) (modify_with id (p ∷ ps) attrs written)
    ]
