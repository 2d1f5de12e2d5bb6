-- ===== src/Driver/Wellformed/Sweeps.antt =====
-- Health checks (pkg/driver/health_monitor.go) and the form of the volume map.
use forks_seaweedfs_csi_driv.Common.{
  ◌≡◌, refl, sym, ℕ, String, Bool, true, false, Option, none, some, ◌==◌, arith, inl, inr,
  Bool-cases,
}
use forks_seaweedfs_csi_driv.Common.Dict.{Dict, lookup, insert}
use forks_seaweedfs_csi_driv.Common.Failure.{Result, ok, err}
use forks_seaweedfs_csi_driv.Driver.Host.{Host, Driver, Volume, Node, load, store}
use forks_seaweedfs_csi_driv.Driver.Host.Monad.{pure, ◌>>=◌}
use forks_seaweedfs_csi_driv.Driver.Host.Keeps.{
  Keeps, keeps_rules, Keeps-pure, Keeps-bind, Keeps-catch, bind_at,
}
use forks_seaweedfs_csi_driv.Driver.Host.Yields.{Outcome}
use forks_seaweedfs_csi_driv.Driver.MountUtil.{Health, healthy, dead, slow}
use forks_seaweedfs_csi_driv.Driver.Volume.{note_unhealthy, note_healthy, set_abnormal}
use forks_seaweedfs_csi_driv.Driver.Node.Probes.{check_health_unanswered-Keeps}
use forks_seaweedfs_csi_driv.Driver.Node.Steady.{Steady}
use forks_seaweedfs_csi_driv.Driver.Node.Logged.{steady_by_log}
use forks_seaweedfs_csi_driv.Driver.Health.Steady.{
  has_unhealthy-Keeps, retry_publish_paths-Keeps, repair_container_mounts-Keeps,
}
use forks_seaweedfs_csi_driv.Driver.Health.Recovery.{recover_volume_as}
use forks_seaweedfs_csi_driv.Driver.Health.Recovered.{Recovered, recover_volume_as_effect}
use forks_seaweedfs_csi_driv.Driver.Health.Sweep.{
  counted, is_tolerated, condemned, retry_if, mend_binds, recover, respond, check_staged,
  check_known, perform_volume_health_check,
}
use forks_seaweedfs_csi_driv.Driver.Wellformed.{
  IsCounted, IsWellformed, others, others-insert, insert-IsWellformed,
}

abbrev pub Well : Node → Type 0
Well s = IsWellformed s.volumes

-- The volume has just been stored into a well-formed map.
abbrev Stored : String → Volume → Node → Type 0
Stored id w s = (vs : Dict Volume) × IsWellformed vs × (s.volumes ≡ insert id w vs)

Stored-Well : (id : String) (w : Volume) (s : Node) → IsCounted id w → Stored id w s → Well s
Stored-Well id w s c (vs, wf, e) = rw e (insert-IsWellformed id w vs (others id vs wf) c)

Stored-insert :
    (id : String) (w c : Volume) (s : Node)
    → IsCounted id c
    → Stored id w s
    → IsWellformed (insert id c s.volumes)
Stored-insert id w c s ic (vs, wf, e) =
    rw e (insert-IsWellformed id c (insert id w vs) (others-insert id w vs (others id vs wf)) ic)

condemned-IsCounted :
    (id : String) (r : Health) (u : ℕ) (v : Volume)
    → IsCounted id v
    → IsCounted id (condemned r u (counted r v))
unfolding condemned counted note_unhealthy note_healthy set_abnormal
condemned-IsCounted id healthy u v c = (c.0, omega arith)
condemned-IsCounted id slow u v c = (c.0, omega arith)
condemned-IsCounted id dead u v c = (c.0, omega arith)

tolerated-IsCounted :
    (id : String) (r : Health) (u : ℕ) (v : Volume)
    → IsCounted id v
    → is_tolerated r u (counted r v) ≡ true
    → IsCounted id (counted r v)
unfolding is_tolerated counted note_unhealthy note_healthy
tolerated-IsCounted id healthy u v c t = (c.0, omega arith)
tolerated-IsCounted id slow u v c t = (c.0, omega arith)
tolerated-IsCounted id dead u v c t = (c.0, ground (arith, c.1, t))

module _ (h : Host) (d : Driver) where
  pub steady : Steady h d Well
  steady = steady_by_log h d (λ e s p. p)

  Recovered-Well :
      (id : String) (n s : Node) (known : Option Volume) (r : Result (Unit {0}))
      → known ≡ lookup id n.volumes
      → Well n
      → Outcome (λ _ s. Recovered id n.volumes known s.volumes) (λ _ s. s.volumes ≡ n.volumes) r s
      → Well s
  Recovered-Well id n s known (err e) k wf q = rw q wf
  Recovered-Well id n s none (ok u) k wf q = elim q [ ]
  Recovered-Well id n s (some v) (ok u) k wf (w, (e, q)) =
      rw e (insert-IsWellformed id w n.volumes (others id n.volumes wf) (q.0, omega (arith, q.5)))

  recover_volume_as-Well : (id : String) (hung : Bool) → Keeps Well (recover_volume_as h d id hung)
  recover_volume_as-Well id hung = record {
    at = λ n wf.
        Recovered-Well id n (recover_volume_as h d id hung n).1 (lookup id n.volumes)
          (recover_volume_as h d id hung n).0 refl wf (recover_volume_as_effect h d id hung n);
  }

  retry_if-Well : (b : Bool) (id : String) → Keeps Well (retry_if h d b id)
  unfolding retry_if
  retry_if-Well true id = retry_publish_paths-Keeps steady id
  retry_if-Well false id = Keeps-pure tt

  mend_binds-Well : (id : String) (w : Volume) → Keeps Well (mend_binds h d id w)
  unfolding mend_binds
  mend_binds-Well id w =
      search (
        keeps_rules,
        has_unhealthy-Keeps steady,
        retry_if-Well,
        repair_container_mounts-Keeps steady,
      )

  recover-Well :
      (id : String) (r : Health) (u : ℕ) (v : Volume) (s : Node)
      → IsCounted id v
      → Stored id (counted r v) s
      → Well (recover h d id r u (counted r v) s).1
  unfolding recover store
  recover-Well id r u v s c st =
      bind_at {P = Well} (store id (condemned r u (counted r v))) _ s
        (Stored-insert id (counted r v) _ s (condemned-IsCounted id r u v c) st)
        (λ _. Keeps-bind _ _ (Keeps-catch _ (recover_volume_as-Well id _)) (λ _. Keeps-pure tt))

  respond-Well :
      (id : String) (r : Health) (u : ℕ) (v : Volume) (s : Node)
      → IsCounted id v
      → Stored id (counted r v) s
      → Well (respond h d id r u (counted r v) s).1
  unfolding respond pure
  respond-Well id healthy u v s c st =
      (mend_binds-Well id (counted healthy v)).at s (
        Stored-Well id (counted healthy v) s (unfold counted note_healthy in (c.0, omega arith)) st)
  respond-Well id slow u v s c st = elim (Bool-cases (is_tolerated slow u (counted slow v))) [
    | inl t ↦ rw t (Stored-Well id (counted slow v) s (tolerated-IsCounted id slow u v c t) st)
    | inr t ↦ rw t (recover-Well id slow u v s c st)
  ]
  respond-Well id dead u v s c st = elim (Bool-cases (is_tolerated dead u (counted dead v))) [
    | inl t ↦ rw t (Stored-Well id (counted dead v) s (tolerated-IsCounted id dead u v c t) st)
    | inr t ↦ rw t (recover-Well id dead u v s c st)
  ]

  store_and_respond-Well :
      (id : String) (v : Volume) (r : Health × ℕ)
      → IsCounted id v
      → Keeps Well
          (store id (counted (r.0) v) >>= λ _. respond h d id (r.0) (r.1) (counted (r.0) v))
  unfolding store ◌>>=◌
  store_and_respond-Well id v r c = record {
    at = λ s wf. respond-Well id (r.0) (r.1) v _ c (s.volumes, wf, refl);
  }

  check_staged-Well :
      (id : String) (v : Volume) → IsCounted id v → Keeps Well (check_staged h d id v)
  unfolding check_staged
  check_staged-Well id v c =
      Keeps-bind _ _ (check_health_unanswered-Keeps steady.observes _)
        (λ r. store_and_respond-Well id v r c)

  pub perform-Well : (id : String) → Keeps Well (perform_volume_health_check h d id)
  unfolding perform_volume_health_check load ◌>>=◌
  perform-Well id = record { at = λ s wf. by_known (lookup id s.volumes) s refl wf }
    where
      by_known :
          (known : Option Volume) (s : Node)
          → known ≡ lookup id s.volumes
          → Well s
          → Well (check_known h d id known s).1
      by_known none s e wf = unfold check_known in (Keeps-pure {P = Well} tt).at s wf
      by_known (some v) s e wf =
          unfold check_known in
          elim (Bool-cases (v.staged_path == "")) [
            | inl empty ↦ rw empty ((Keeps-pure {P = Well} tt).at s wf)
            | inr set ↦ rw set ((check_staged-Well id v (wf id v (sym e))).at s wf)
          ]
