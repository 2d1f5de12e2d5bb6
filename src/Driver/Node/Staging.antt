-- ===== src/Driver/Node/Staging.antt =====
-- stageNewVolume of pkg/driver/nodeserver.go, used by NodeStageVolume, NodePublishVolume and the
-- health monitor.
use forks_seaweedfs_csi_driv.Common.{String, ◌<>◌, Bool, Option, none, some}
use forks_seaweedfs_csi_driv.Common.Dict.{Dict, insert}
use forks_seaweedfs_csi_driv.Common.Decimal.{ℤ, format_int}
use forks_seaweedfs_csi_driv.Common.Failure.{Failure, Result, ok, err, failure}
use forks_seaweedfs_csi_driv.Driver.Host.{
  Host, Driver, Volume, M, new_client, looked_up, note, consult, attempt,
}
use forks_seaweedfs_csi_driv.Driver.Host.Monad.{pure, raise, or_raise, catch, ◌>>=◌, ◌>>◌}
use forks_seaweedfs_csi_driv.Driver.Params.{
  merge_persisted, validate_constrained_values, validate_writeback_dlm_combo,
}
use forks_seaweedfs_csi_driv.Driver.Volume.{new_volume, stage, quota, unstage}
use forks_seaweedfs_csi_driv.Driver.Node.{resolve_volume_capacity, volume_capacity_key}

-- `fmt.Errorf("invalid argument: %w", err)`
unfoldable pub or_invalid_argument : Option String → M (Unit {0})
or_invalid_argument none = pure tt
or_invalid_argument (some text) = raise (failure ("invalid argument: " <> text))

unfoldable pub lift : {A : Type 0} → Result A → M A
lift (ok a) = pure a
lift (err e) = raise e

unfoldable pub with_capacity : Option ℤ → Dict String → Dict String
with_capacity none context = context
with_capacity (some c) context = insert volume_capacity_key (format_int c) context

-- The persisted parameters over the volume context; `nil` and an empty map add nothing.
unfoldable pub effective_context :
    String → Dict String → Result (Dict String) → Result (Dict String)
effective_context id context (ok persisted) = ok (merge_persisted context persisted)
effective_context id context (err e) =
    err (failure ("reading persisted volume attributes for " <> (id <> (": " <> e.text))))

-- The context that the mount is built from, checked as a whole.
unfoldable pub checked_context : String → Dict String → Result (Dict String) → M (Dict String)
unfolding effective_context lift or_invalid_argument
checked_context id context persisted = do
  effective ← lift (effective_context id context persisted)
  or_invalid_argument (validate_constrained_values effective)
  or_invalid_argument (validate_writeback_dlm_combo effective)
  pure effective

module _ (h : Host) (d : Driver) where
  -- The clean-up after a quota that could not be set; its own failure is only logged.
  unfoldable pub quota_failed : String → Volume → Option Failure → M Volume
  quota_failed path v none = pure v
  quota_failed path v (some e) = do r ← catch (unstage h d path v); raise e

  unfoldable pub error_of : {A : Type 0} → Result A → Option Failure
  error_of (ok a) = none
  error_of (err e) = some e

  unfoldable pub apply_quota : String → Option ℤ → Volume → M Volume
  unfolding quota_failed error_of
  apply_quota path none v = pure v
  apply_quota path (some c) v = do
    r ← catch (quota h d v.volume_id c)
    quota_failed path v (error_of r)

  -- stageNewVolume
  unfoldable pub stage_new_volume : String → String → Dict String → Bool → M Volume
  unfolding checked_context apply_quota with_capacity lift
  stage_new_volume id path vol_context ro = do
    persisted ← consult (λ past. h.persisted past id)
    note (looked_up id)
    effective ← checked_context id vol_context persisted
    found ← consult (λ past. h.capacity past id)
    capacity ← lift (resolve_volume_capacity found effective)
    let context = with_capacity capacity effective
    client ← attempt h (new_client id)
    or_raise client (pure tt)
    let v = record (new_volume id) { vol_context = some context; read_only = ro }
    staged ← stage h d path context ro v
    apply_quota path capacity staged
