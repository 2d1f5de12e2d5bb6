-- ===== src/Driver/Store/Spec.antt =====
-- The map that the store of pkg/driver/vacstore.go stands for.
use forks_seaweedfs_csi_driv.Common.{String, Option, none, some, [], ◌∷◌, ◌==◌, if◌then◌else◌}
use forks_seaweedfs_csi_driv.Common.Dict.{Dict}
use forks_seaweedfs_csi_driv.Common.Failure.{Result, ok, err}

-- A map of volume IDs to parameters: what the store stands for.
abbrev pub Abstract : Type 0
Abstract = String → Option (Dict String)

abbrev pub put_at : String → Option (Dict String) → Abstract → Abstract
put_at id value m other = if id == other then value else m other

pub data Op : Type 0 where
  read_op : String → Op
  write_op : String → Dict String → Op
  delete_op : String → Op

abbrev pub id_of : Op → String
id_of (read_op id) = id
id_of (write_op id params) = id
id_of (delete_op id) = id

-- What an operation answers, and what it makes of the map. No parameters are not written.
unfoldable pub specified : Op → Abstract → Option (Dict String) × Abstract
specified (read_op id) m = (m id, m)
specified (write_op id []) m = (none, m)
specified (write_op id (p ∷ params)) m = (none, put_at id (some (p ∷ params)) m)
specified (delete_op id) m = (none, put_at id none m)

abbrev pub answer_none : Result (Unit {0}) → Result (Option (Dict String))
answer_none (ok u) = ok none
answer_none (err e) = err e
