-- ===== src/Driver/Health/Sweep.antt =====
-- performVolumeHealthCheck of pkg/driver/health_monitor.go.
use forks_seaweedfs_csi_driv.Common.{
  ℕ, String, ◌<>◌, Bool, true, false, ◌||◌, Option, none, some, ◌==◌, leb, if◌then◌else◌,
}
use forks_seaweedfs_csi_driv.Common.Decimal.{format_nat}
use forks_seaweedfs_csi_driv.Driver.Host.{Host, Driver, Volume, M, load, store}
use forks_seaweedfs_csi_driv.Driver.Host.Monad.{pure, catch, ◌>>=◌, ◌>>◌}
use forks_seaweedfs_csi_driv.Driver.MountUtil.{Health, healthy, dead, slow}
use forks_seaweedfs_csi_driv.Driver.Volume.{
  int32_next, int32_below, note_unhealthy, note_healthy, set_abnormal,
}
use forks_seaweedfs_csi_driv.Driver.Node.{check_health_unanswered}
use forks_seaweedfs_csi_driv.Driver.Health.{unhealthy_threshold, hung_after, format_seconds}
use forks_seaweedfs_csi_driv.Driver.Health.Binds.{
  has_unhealthy_publish_path, retry_publish_paths, repair_container_mounts,
}
use forks_seaweedfs_csi_driv.Driver.Health.Recovery.{recover_volume_as}

hung_message : Volume → ℕ → String
hung_message v unanswered =
    "staging mount "
    <> (v.staged_path
        <> (" has left a health probe unanswered for "
            <> (format_seconds unanswered
                <> (" across "
                    <> (format_nat v.unhealthy_streak
                        <> (" consecutive health checks, longer than weed mount takes to answer any request; "
                            <> "treating it as dead"))))))

dead_message : Volume → String
dead_message v =
    "staging mount "
    <> (v.staged_path
        <> (" failed "
            <> (format_nat unhealthy_threshold
                <> " consecutive health checks: the FUSE mount is dead")))

-- The counters after a check that found the mount slow, dead or alive.
unfoldable pub counted : Health → Volume → Volume
counted slow v = note_unhealthy (record v { health_fail_count = 0 })
counted dead v = note_unhealthy (record v { health_fail_count = int32_next v.health_fail_count })
counted healthy v = note_healthy (record v { health_fail_count = 0 })

-- The mount is left alone for now: too few checks have failed, or a slow one may yet answer.
unfoldable pub is_tolerated : Health → ℕ → Volume → Bool
is_tolerated healthy unanswered w = false
is_tolerated slow unanswered w =
    int32_below w.unhealthy_streak unhealthy_threshold || leb unanswered hung_after
is_tolerated dead unanswered w = int32_below w.health_fail_count unhealthy_threshold

-- The volume as a recovery finds it.
unfoldable pub condemned : Health → ℕ → Volume → Volume
unfolding hung_message dead_message
condemned healthy unanswered w = w
condemned slow unanswered w = set_abnormal (hung_message w unanswered) w
condemned dead unanswered w = set_abnormal (dead_message w) (record w { health_fail_count = 0 })

module _ (h : Host) (d : Driver) where
  unfoldable pub retry_if : Bool → String → M (Unit {0})
  retry_if true id = retry_publish_paths h d id
  retry_if false id = pure tt

  unfoldable pub mend_binds : String → Volume → M (Unit {0})
  unfolding retry_if
  mend_binds id w = do
    broken ← has_unhealthy_publish_path h d w.publish_paths
    retry_if broken id
    repair_container_mounts h d id

  unfoldable pub recover : String → Health → ℕ → Volume → M (Unit {0})
  recover id r unanswered w = do
    store id (condemned r unanswered w)
    done ← catch (recover_volume_as h d id (elim r [ slow ↦ true | _ ↦ false ]))
    pure tt

  -- What is done about a mount that has failed a check.
  unfoldable pub respond : String → Health → ℕ → Volume → M (Unit {0})
  unfolding mend_binds recover
  respond id healthy unanswered w = mend_binds id w
  respond id r unanswered w =
      if is_tolerated r unanswered w then pure tt else recover id r unanswered w

  unfoldable pub check_staged : String → Volume → M (Unit {0})
  unfolding respond
  check_staged id v = do
    r ← check_health_unanswered h v.staged_path
    let w = counted r.0 v
    store id w
    respond id r.0 r.1 w

  unfoldable pub check_known : String → Option Volume → M (Unit {0})
  unfolding check_staged
  check_known id none = pure tt
  check_known id (some v) = if v.staged_path == "" then pure tt else check_staged id v

  -- performVolumeHealthCheck
  unfoldable pub perform_volume_health_check : String → M (Unit {0})
  unfolding check_known
  perform_volume_health_check id = do known ← load id; check_known id known
