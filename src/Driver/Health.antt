-- ===== src/Driver/Health.antt =====
-- The health monitor of the node plugin: pkg/driver/health_monitor.go. A check of one volume and the
-- recovery that it starts are one step; the loads of the map in between are made where the code
-- makes them.
pub mod Binds
pub mod Recovery
pub mod Sweep
pub mod Steady
pub mod Spared
pub mod Recovered
pub mod Guarded
use forks_seaweedfs_csi_driv.Common.{
  ℕ, ◌+◌, ◌*◌, ◌/◌, ◌%◌, ◌^◌, String, ◌<>◌, Bool, true, false, ltb, eqb, if◌then◌else◌,
}
use forks_seaweedfs_csi_driv.Common.Decimal.{format_nat}
use forks_seaweedfs_csi_driv.Common.Failure.{Failure, failure}
use forks_seaweedfs_csi_driv.Driver.Host.{
  Host, M, answered, timed_out, Probe, probe_statfs, consult,
}
use forks_seaweedfs_csi_driv.Driver.Host.Monad.{pure, raise, ◌>>=◌}
use forks_seaweedfs_csi_driv.Driver.MountUtil.{Health, healthy, dead, slow}
use forks_seaweedfs_csi_driv.Common.{Option, none, some}
use forks_seaweedfs_csi_driv.Common.Failure.{is_corrupted}

abbrev pub unhealthy_threshold : ℕ
unhealthy_threshold = 3

abbrev pub second : ℕ
second = 10 ^ 9

-- hungAfter, at its default of 60 seconds
abbrev pub hung_after : ℕ
hung_after = 60 * second

-- The condition of `recheck`: a dead mount is confirmed, and a hung one while its probe has no answer.
unfoldable pub is_confirmed : Bool → Health → ℕ → Bool
is_confirmed hung dead unanswered = true
is_confirmed hung healthy unanswered = false
is_confirmed true slow unanswered = ltb hung_after unanswered
is_confirmed false slow unanswered = false

-- A duration rounded to seconds, as Go prints it.
unfoldable pub format_seconds : ℕ → String
format_seconds unanswered =
    let s = (unanswered + second / 2) / second in
    let seconds = format_nat (s % 60) <> "s" in
    let minutes = format_nat ((s / 60) % 60) <> ("m" <> seconds) in
    if ltb s 60
    then seconds
    else if ltb s 3600
    then minutes
    else format_nat (s / 3600) <> ("h" <> minutes)

-- A recovery that is given up, with the reason that the code logs.
unfoldable pub require_or_abort : Bool → String → M (Unit {0})
require_or_abort true reason = pure tt
require_or_abort false reason = raise (failure reason)

module _ (h : Host) where
  dead_of : Bool → ℕ → Probe → Bool
  dead_of hung unanswered timed_out = if hung then ltb hung_after unanswered else false
  dead_of hung unanswered (answered none) = false
  dead_of hung unanswered (answered (some e)) = is_corrupted e

  -- isDeadMount
  unfoldable pub is_dead_mount : String → Bool → M Bool
  unfolding dead_of
  is_dead_mount path hung = do
    r ← probe_statfs h path
    unanswered ← consult (λ past. h.unanswered past path)
    pure (dead_of hung unanswered r)
