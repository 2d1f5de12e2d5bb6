-- ===== src/Driver/Wellformed.antt =====
-- The form of the volume map of pkg/driver/nodeserver.go.
pub mod Sweeps
pub mod Requests
use forks_seaweedfs_csi_driv.Common.{
  ◌≡◌, refl, ◌∙◌, sym, ap, ℕ, ◌+◌, ◌<◌, ◌≤◌, String, Bool, true, false, Option, none, some, List,
  [], ◌==◌, arith, eq_iff, ◌⊎◌, inl, inr, Bool-cases, Option-cases, if◌then◌else◌,
}
use forks_seaweedfs_csi_driv.Common.Dict.{
  Dict, lookup, insert, erase, lookup-insert, lookup-erase, lookup-nil,
}
use forks_seaweedfs_csi_driv.Common.Failure.{Failure, Result, ok, err}
use forks_seaweedfs_csi_driv.Driver.Host.{Host, Driver, Volume, Node, M, load, store}
use forks_seaweedfs_csi_driv.Driver.Host.Monad.{pure, catch, ◌>>=◌}
use forks_seaweedfs_csi_driv.Driver.Host.Keeps.{Keeps, keeps_rules, Keeps-pure}
use forks_seaweedfs_csi_driv.Driver.Host.Yields.{Outcome}

abbrev pub IsCounted : String → Volume → Type 0
IsCounted id v = (v.volume_id ≡ id) × (v.health_fail_count < 3)

-- Every volume stands under its own ID, and has failed fewer than three checks in a row since it was
-- last recovered.
abbrev pub IsWellformed : Dict Volume → Type 0
IsWellformed vs = (id : String) (v : Volume) → lookup id vs ≡ some v → IsCounted id v

-- The same of all volumes but one.
abbrev pub OthersWellformed : String → Dict Volume → Type 0
OthersWellformed one vs =
    (id : String) (v : Volume) → (one == id) ≡ false → lookup id vs ≡ some v → IsCounted id v

pub others : (one : String) (vs : Dict Volume) → IsWellformed vs → OthersWellformed one vs
others one vs wf id v differs found = wf id v found

pub others-insert :
    (one : String) (w : Volume) (vs : Dict Volume)
    → OthersWellformed one vs
    → OthersWellformed one (insert one w vs)
others-insert one w vs o id v differs found =
    o id v differs (ground (arith, differs, found, lookup-insert one id w vs))

pub insert-IsWellformed :
    (one : String) (w : Volume) (vs : Dict Volume)
    → OthersWellformed one vs
    → IsCounted one w
    → IsWellformed (insert one w vs)
insert-IsWellformed one w vs o c id v found = elim (Bool-cases (one == id)) [
  | inl same ↦
      let v_is_w : w ≡ v = ground (arith, same, found, lookup-insert one id w vs) in
      rw (sym v_is_w, sym ((eq_iff one id).0 same)) c
  | inr differs ↦ o id v differs (ground (arith, differs, found, lookup-insert one id w vs))
]

pub erase-IsWellformed :
    (one : String) (vs : Dict Volume) → IsWellformed vs → IsWellformed (erase one vs)
erase-IsWellformed one vs wf id v found = wf id v (ground (arith, found, lookup-erase one id vs))
