-- ===== src/Driver/Container/Guarded.antt =====
-- In which mount namespace remountViaSetns of pkg/driver/container_remount_linux.go makes its calls.
use forks_seaweedfs_csi_driv.Common.{
  String, ◌≡◌, refl, ◌∙◌, Bool, true, Option, none, some, inl, inr, [], ◌∷◌, Option-cases,
}
use forks_seaweedfs_csi_driv.Common.Decimal.{ℤ}
use forks_seaweedfs_csi_driv.Common.Failure.{Failure}
use forks_seaweedfs_csi_driv.Driver.Host.Monad.{finally, ◌>>=◌}
use forks_seaweedfs_csi_driv.Driver.Host.Keeps.{Keeps}
use forks_seaweedfs_csi_driv.Driver.Container.Machine.{
  Call, enter, restore, detach, move, set_read_only, Event, did, History, Kernel, M, attempt,
}
use forks_seaweedfs_csi_driv.Driver.Container.Remount.{
  call_or_raise, call_after, replace_stale, within_namespace, remount_via_setns,
}
use forks_seaweedfs_csi_driv.Driver.Container.Frames.{
  is_outside, Spares, Grows, replace_stale-Keeps, remount_via_setns-Keeps,
}

abbrev by_call : Call → Option ℤ → Option ℤ
by_call (enter pid) here = some pid
by_call restore here = none
by_call _ here = here

abbrev by_event : Event → Option ℤ → Option ℤ
by_event (did c none) here = by_call c here
by_event _ here = here

-- The process in whose mount namespace the thread is, or none in the driver's own.
abbrev pub current : History → Option ℤ
current [] = none
current (e ∷ past) = by_event e (current past)

-- What permits a mount of a process to be changed.
abbrev pub Rule : Type 1
Rule = ℤ → String → History → Type 0

abbrev pub Permitted : Rule → String → History → Type 0
Permitted R path past = (pid : ℤ) × (current past ≡ some pid) × R pid path past

-- A call that changes a mount is made in a process's namespace, and permitted there.
abbrev pub Allowed : Rule → Event → History → Type 0
Allowed R (did (detach path) r) past = Permitted R path past
Allowed R (did (move path) r) past = Permitted R path past
Allowed R (did (set_read_only path) r) past = Permitted R path past
Allowed R _ past = Unit

abbrev pub AllAllowed : Rule → History → Type 0
AllAllowed R [] = Unit
AllAllowed R (e ∷ past) = Allowed R e past × AllAllowed R past

-- The thread is in the driver's own namespace, and every change of a mount so far was permitted.
abbrev pub IsHome : Rule → History → Type 0
IsHome R past = AllAllowed R past × (current past ≡ none)

outside_stays :
    (c : Call) (r : Option Failure) (here : Option ℤ)
    → is_outside c ≡ true
    → by_event (did c r) here ≡ here
outside_stays c (some e) here h = refl
outside_stays (enter pid) none here h = cc
outside_stays restore none here h = cc
outside_stays _ none here h = refl

outside-Allowed :
    (R : Rule) (c : Call) (r : Option Failure) (past : History)
    → is_outside c ≡ true
    → Allowed R (did c r) past
outside-Allowed R (detach path) r past h = cc
outside-Allowed R (move path) r past h = cc
outside-Allowed R (set_read_only path) r past h = cc
outside-Allowed R _ r past h = tt

module _ (k : Kernel) (R : Rule) (pid : ℤ) (path staging sub : String) (ro : Bool)
    (grows : Grows (R pid path)) (restores : (past : History) → k.act past restore ≡ none) where
  abbrev Inside : History → Type 0
  Inside past = AllAllowed R past × (current past ≡ some pid) × R pid path past

  abbrev Outside : History → Type 0
  Outside past = AllAllowed R past × (current past ≡ none) × R pid path past

  is_outside-Spares : (c : Call) → is_outside c ≡ true → Spares Outside c
  is_outside-Spares c h r past (a, home, w) =
      ((outside-Allowed R c r past h, a), outside_stays c r _ h ∙ home, grows (did c r) past w)

  detach_spared : Spares Inside (detach path)
  detach_spared none past (a, c, w) = (((pid, c, w), a), c, grows _ past w)
  detach_spared (some e) past (a, c, w) = (((pid, c, w), a), c, grows _ past w)

  move_spared : Spares Inside (move path)
  move_spared none past (a, c, w) = (((pid, c, w), a), c, grows _ past w)
  move_spared (some e) past (a, c, w) = (((pid, c, w), a), c, grows _ past w)

  set_read_only_spared : Spares Inside (set_read_only path)
  set_read_only_spared none past (a, c, w) = (((pid, c, w), a), c, grows _ past w)
  set_read_only_spared (some e) past (a, c, w) = (((pid, c, w), a), c, grows _ past w)

  -- Into the namespace of the process, and back.
  entered :
      (text : String) (m : M (Unit {0}))
      → Keeps Inside m
      → Keeps Outside (call_or_raise k (enter pid) text >>= λ u. finally m (call_after k restore))
  unfolding call_or_raise call_after ◌>>=◌ attempt
  entered text m inside = record {
    at = λ past p. elim (Option-cases (k.act past (enter pid))) [
      | inl done ↦
          let went : History = did (enter pid) none ∷ past in
          let there = inside.at went ((tt, p.0), refl, grows _ past p.2) in
          rw done (rw (restores (m went).1) ((tt, there.0), refl, grows _ (m went).1 there.2))
      | inr (e, refused) ↦ rw refused ((tt, p.0), p.1, grows _ past p.2)
    ];
  }

  within-Outside : Keeps Outside (within_namespace k pid path staging sub ro)
  unfolding within_namespace
  within-Outside =
      entered _ (replace_stale k pid path staging sub ro) (
        replace_stale-Keeps k pid path staging sub ro detach_spared move_spared
          set_read_only_spared)

  -- A remount that is permitted changes mounts only in the namespace of the process, and comes back.
  pub remount-IsHome :
      (past : History)
      → R pid path past
      → IsHome R past
      → IsHome R (remount_via_setns k pid path staging sub ro past).1
  remount-IsHome past w (a, home) =
      let r =
        (remount_via_setns-Keeps k pid path staging sub ro is_outside-Spares within-Outside).at past
          (a, home, w) in
      (r.0, r.1)
