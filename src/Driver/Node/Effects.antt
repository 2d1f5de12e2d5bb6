-- ===== src/Driver/Node/Effects.antt =====
-- What stageNewVolume returns, and the volume map meanwhile.
use forks_seaweedfs_csi_driv.Common.{◌≡◌, refl, ap, String, Bool, true, Option, none, some, []}
use forks_seaweedfs_csi_driv.Common.Dict.{Dict, lookup}
use forks_seaweedfs_csi_driv.Common.Decimal.{ℤ}
use forks_seaweedfs_csi_driv.Common.Failure.{Failure}
use forks_seaweedfs_csi_driv.Driver.Host.{Host, Driver, Volume, Node, M, load}
use forks_seaweedfs_csi_driv.Driver.Host.Monad.{pure, or_raise, ◌>>=◌}
use forks_seaweedfs_csi_driv.Driver.Host.Keeps.{keeps_rules, Keeps-pure, Keeps-or_raise}
use forks_seaweedfs_csi_driv.Driver.Host.Yields.{
  Yields, Always, Yields-pure, Yields-raise, Yields-bind, Yields-after,
}
use forks_seaweedfs_csi_driv.Driver.Volume.{new_volume, stage}
use forks_seaweedfs_csi_driv.Driver.Node.Probes.{consult-Keeps}
use forks_seaweedfs_csi_driv.Driver.Node.Steady.{
  Steady, check_mount-Keeps, unmount_before-Keeps, quota-Keeps, unstage-Keeps,
  checked_context-Keeps, lift-Keeps,
}
use forks_seaweedfs_csi_driv.Driver.Node.Logged.{steady_by_log}
use forks_seaweedfs_csi_driv.Driver.Node.Staging.{quota_failed, apply_quota, stage_new_volume}

-- The volume map is `vs`.
abbrev pub Has : Dict Volume → Node → Type 0
Has vs s = s.volumes ≡ vs

-- A volume just staged: its path and access, an unmounter, and no publish path.
abbrev pub IsStagedAt : String → String → Bool → Volume → Type 0
IsStagedAt id path ro v =
    (v.volume_id ≡ id)
    × (v.staged_path ≡ path)
    × (v.unmounter ≡ true)
    × (v.read_only ≡ ro)
    × (v.publish_paths ≡ [])
    × (v.health_fail_count ≡ 0)
    × (v.unhealthy_streak ≡ 0)
    × (v.abnormal ≡ none)

-- What is known of the volume at the start of a request.
pub Yields-known :
    {A : Type 0} {R : A → Node → Type 0} {E : Failure → Node → Type 0} (vs : Dict Volume)
    (id : String) (f : Option Volume → M A)
    → ((known : Option Volume) → known ≡ lookup id vs → Yields (Has vs) (f known) R E)
    → Yields (Has vs) (load id >>= f) R E
unfolding load ◌>>=◌
Yields-known vs id f y = record {
  holds = λ s k. (y (lookup id s.volumes) (ap (lookup id) k)).holds s k;
}

module _ (h : Host) (d : Driver) (vs : Dict Volume) where
  pub steady_map : Steady h d (Has vs)
  steady_map = steady_by_log h d (λ e s p. p)

  or_raise-Yields :
      {Q : Volume → Node → Type 0} (r : Option Failure) (v : Volume)
      → ((s : Node) → Has vs s → Q v s)
      → Yields (Has vs) (or_raise r (pure v)) Q (Always (Has vs))
  unfolding or_raise pure
  or_raise-Yields none v f = record { holds = f }
  or_raise-Yields (some e) v f = record { holds = λ s p. p }

  quota_failed-Yields :
      (Q : Volume → Type 0) (p : String) (v : Volume) (r : Option Failure)
      → Q v
      → Yields (Has vs) (quota_failed h d p v r) (λ w s. Has vs s × Q w) (Always (Has vs))
  unfolding quota_failed
  quota_failed-Yields Q p v none q = Yields-pure v (λ s k. (k, q))
  quota_failed-Yields Q p v (some e) q =
      Yields-after _ _ (search (keeps_rules, unstage-Keeps steady_map))
        (λ _. Yields-raise e (λ s k. k))

  apply_quota-Yields :
      (Q : Volume → Type 0) (p : String) (c : Option ℤ) (v : Volume)
      → Q v
      → Yields (Has vs) (apply_quota h d p c v) (λ w s. Has vs s × Q w) (Always (Has vs))
  unfolding apply_quota
  apply_quota-Yields Q p none v q = Yields-pure v (λ s k. (k, q))
  apply_quota-Yields Q p (some c) v q =
      Yields-after _ _ (search (keeps_rules, quota-Keeps steady_map))
        (λ r. quota_failed-Yields Q p v _ q)

  stage-Yields :
      (Q : Volume → Type 0) (p : String) (c : Dict String) (ro : Bool) (v : Volume)
      → Q (record v { staged_path = p; unmounter = true })
      → Yields (Has vs) (stage h d p c ro v) (λ w s. Has vs s × Q w) (Always (Has vs))
  unfolding stage
  stage-Yields Q p c ro v q = Yields-after _ _ (check_mount-Keeps steady_map p) (λ mounted.
      Yields-after _ _ (unmount_before-Keeps steady_map p mounted) (λ _.
        Yields-after _ _ (steady_map.attempts _ refl) (λ r. or_raise-Yields r _ (λ s k. (k, q)))))

  pub stage_new_volume-Yields :
      (id p : String) (c : Dict String) (ro : Bool)
      → Yields
          (Has vs)
          (stage_new_volume h d id p c ro)
          (λ v s. Has vs s × IsStagedAt id p ro v)
          (Always (Has vs))
  unfolding stage_new_volume new_volume
  stage_new_volume-Yields id p c ro = Yields-after _ _ (consult-Keeps _) (λ persisted.
      Yields-after _ _ (steady_map.looks id) (λ _.
        Yields-after _ _ (checked_context-Keeps steady_map id c persisted) (λ context.
          Yields-after _ _ (consult-Keeps _) (λ found. Yields-after _ _ (lift-Keeps _) (λ capacity.
            Yields-after _ _ (steady_map.attempts _ refl) (λ client.
              Yields-after _ _ (Keeps-or_raise client _ (Keeps-pure tt)) (λ _.
                Yields-bind _ _
                  (stage-Yields (IsStagedAt id p ro) p _ ro _
                    (refl, refl, refl, refl, refl, refl, refl, refl))
                  (λ v. record {
                    holds = λ s q.
                        (apply_quota-Yields (IsStagedAt id p ro) p capacity v q.1).holds s q.0;
                  }))))))))
