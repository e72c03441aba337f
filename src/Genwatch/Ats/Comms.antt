-- ===== src/Genwatch/Ats/Comms.antt =====
-- The changes of the link that are reported (`_update` of
-- GenWatch-main/backend/genwatch/services/ats.py), when one poller calls `on_poll`.
use complete_gen_project.Base.{
  ℕ, ◌≡◌, ◌∙◌, refl, ap, Bool, true, false, Option, none, some, List, [], ◌∷◌, ◌++◌, All,
  if◌then◌else◌, keep, keep-append, arith,
}
use mathlib.Core.List.{append-nil}
use complete_gen_project.Genwatch.Tokens.{CommsState, healthy, degraded, lost}
use complete_gen_project.Genwatch.Ats.Model.{AtsEvent, comms_changed, AtsService, AtsSnapshot}
use complete_gen_project.Genwatch.Ats.Update.{
  AtsPoll, Emitted, decode_snapshot, comms_events, is_same_object, assign_comms, poll_events,
  update, run_updates,
}
use complete_gen_project.Genwatch.Ats.Quiet.{
  Ignores, Quiet, Quiet-append, Quiet-sources, Quiet-edges, Quiet-reboot, Quiet-icd, seen-Quiet,
  no_events,
}

abbrev pub is_comms_change : AtsEvent → Bool
is_comms_change (comms_changed old new) = true
is_comms_change _ = false

abbrev pub comms_changes : List AtsEvent → List AtsEvent
comms_changes es = keep is_comms_change es

is_comms_change-Ignores : Ignores is_comms_change
is_comms_change-Ignores = record {
  position = λ old new. refl;
  normal = λ b. refl;
  emergency = λ b. refl;
  mode = λ old new. refl;
  raised = λ c. refl;
  cleared = λ c. refl;
  reboot = λ prev uptime. refl;
  icd = λ v. refl;
}

-- A state against itself is no change.
same_lem : (c : CommsState) → Quiet is_comms_change (comms_events c c)
unfolding comms_events
same_lem healthy = no_events is_comms_change
same_lem degraded = no_events is_comms_change
same_lem lost = no_events is_comms_change

same_object_lem :
    (held : Option ℕ) (object : ℕ) (state other : CommsState)
    → held ≡ some object
    → (if is_same_object held object then state else other) ≡ state
same_object_lem none object state other e = ground arith
same_object_lem (some n) object state other e = ground arith

held_lem :
    (p : AtsPoll) (s : AtsService)
    → s.snap.comms_object ≡ some p.comms_object
    → (assign_comms p.comms_object p.comms s.snap).comms ≡ p.comms
unfolding assign_comms
held_lem p s e = same_object_lem s.snap.comms_object p.comms_object p.comms s.snap.comms e

Quiet-poll :
    (p : AtsPoll) (next : AtsSnapshot) (s : AtsService)
    → next.comms ≡ p.comms
    → s.snap.comms_object ≡ some p.comms_object
    → Quiet is_comms_change (poll_events p next s)
unfolding poll_events
Quiet-poll p next s c e =
    append _ _
      (append _ _
        (append _ _
          (append _ _ (Quiet-sources is_comms_change is_comms_change-Ignores p next s)
            (Quiet-edges is_comms_change (λ k b. refl) s p.mono next))
          (Quiet-reboot is_comms_change is_comms_change-Ignores s.prev_uptime_s
            next.ats_pi_uptime_s))
        link)
      (Quiet-icd is_comms_change is_comms_change-Ignores s next)
  where
    append :
        (xs ys : Emitted)
        → Quiet is_comms_change xs
        → Quiet is_comms_change ys
        → Quiet is_comms_change (xs ++ ys)
    append = Quiet-append is_comms_change

    link :
        Quiet is_comms_change
          (comms_events (assign_comms p.comms_object p.comms s.snap).comms next.comms)
    link = rw (held_lem p s e, c) (same_lem p.comms)

abbrev pub AllFrom : ℕ → List AtsPoll → Type 0
AllFrom object ps = All (λ (p : AtsPoll). p.comms_object ≡ object) ps

-- A poller passes the same health object with every poll and writes it in place, so that the snapshot
-- of the service holds that object from the first poll on. Then no poll after the first, whatever the
-- states of the link, publishes a change of the link.
pub run_updates-comms_changes :
    (ps : List AtsPoll) (s : AtsService) (object : ℕ)
    → s.snap.comms_object ≡ some object
    → AllFrom object ps
    → comms_changes (run_updates ps s).published ≡ comms_changes s.published
unfolding run_updates update decode_snapshot
run_updates-comms_changes [] s object e h = refl
run_updates-comms_changes (p ∷ ps) s object e h =
    run_updates-comms_changes ps (update p s) object (ap some h.0) h.1
    ∙ keep-append is_comms_change s.published _
    ∙ ap (λ es. comms_changes s.published ++ es)
        (seen-Quiet is_comms_change _ (Quiet-poll p _ s refl (rw h.0 e)))
    ∙ append-nil (comms_changes s.published)
