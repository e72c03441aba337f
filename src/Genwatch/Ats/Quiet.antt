-- ===== src/Genwatch/Ats/Quiet.antt =====
-- Events that a test does not hit (the helpers that emit events in
-- GenWatch-main/backend/genwatch/services/ats.py).
use complete_gen_project.Base.{
  ℕ, ◌≡◌, ◌∙◌, refl, ap, Bool, true, false, not, Option, none, some, List, [], ◌∷◌, ◌++◌, ◌==◌, All,
  All-append, if◌then◌else◌, keep, keep-append, map, ltb, arith,
}
use mathlib.Core.List.{append-nil, map-append}
use complete_gen_project.Companion.IoDriver.{
  Position, utility, generator, transferring, unknown, AtsMode,
}
use complete_gen_project.Genwatch.Tokens.{CommsState, healthy, degraded, lost}
use complete_gen_project.Genwatch.Ats.Model.{
  Severity, AtsEvent, position_changed, normal_changed, emergency_changed, mode_changed,
  fault_raised, fault_cleared, command_external, rebooted, comms_changed, icd_checked,
  MaintainedCommand, inhibit_command, force_command, Compatibility, AtsService, AtsSnapshot,
  bool_or_none, normal_available_reg, emergency_available_reg, expected_icd_major,
  expected_icd_minor,
}
use complete_gen_project.Genwatch.Ats.Update.{
  AtsPoll, Emitted, when, event_of, emit_position, position_eq, position_events, source_events,
  mode_events, raise_all, clear_all, fault_events, reboot_events, comms_events,
  validate_icd_version, validates, icd_events, command_edge, check_maintained_cmd_edges,
}

-- The test hits neither an event of the sources, the mode, the faults or the versions, nor a reboot.
pub record Ignores (hits : AtsEvent → Bool) : Type 0 where
  pub position : (old new : Position) → hits (position_changed old new) ≡ false
  pub normal : (b : Bool) → hits (normal_changed b) ≡ false
  pub emergency : (b : Bool) → hits (emergency_changed b) ≡ false
  pub mode : (old new : AtsMode) → hits (mode_changed old new) ≡ false
  pub raised : (c : ℕ) → hits (fault_raised c) ≡ false
  pub cleared : (c : ℕ) → hits (fault_cleared c) ≡ false
  pub reboot : (prev uptime : ℕ) → hits (rebooted prev uptime) ≡ false
  pub icd : (v : Compatibility) → hits (icd_checked v) ≡ false

pub record Quiet (hits : AtsEvent → Bool) (out : Emitted) : Type 0 where
  pub silent : All (λ (row : Severity × AtsEvent). hits row.1 ≡ false) out

module _ (hits : AtsEvent → Bool) where
  -- The events of a poll that the test hits.
  abbrev pub seen : Emitted → List AtsEvent
  seen out = keep hits (map event_of out)

  pub no_events : Quiet hits []
  no_events = record { silent = tt }

  one : (sev : Severity) (e : AtsEvent) → hits e ≡ false → Quiet hits ((sev, e) ∷ [])
  one sev e h = record { silent = (h, tt) }

  pub Quiet-append : (xs ys : Emitted) → Quiet hits xs → Quiet hits ys → Quiet hits (xs ++ ys)
  Quiet-append xs ys hx hy = record {
    silent =
        All-append (λ (row : Severity × AtsEvent). hits row.1 ≡ false) xs ys hx.silent hy.silent;
  }

  pub Quiet-when :
      (b : Bool) (sev : Severity) (e : AtsEvent) → hits e ≡ false → Quiet hits (when b sev e)
  Quiet-when true sev e h = one sev e h
  Quiet-when false sev e h = no_events

  pub Quiet-if :
      (b : Bool) (xs ys : Emitted)
      → Quiet hits xs
      → Quiet hits ys
      → Quiet hits (if b then xs else ys)
  Quiet-if true xs ys hx hy = hx
  Quiet-if false xs ys hx hy = hy

  pub seen-Quiet : (xs : Emitted) → Quiet hits xs → seen xs ≡ []
  seen-Quiet [] h = refl
  seen-Quiet (x ∷ xs) h = ground (arith, h.silent.0, seen-Quiet xs (record { silent = h.silent.1 }))

  pub seen-append : (xs ys : Emitted) → seen (xs ++ ys) ≡ seen xs ++ seen ys
  seen-append xs ys =
      ap (λ es. keep hits es) (map-append event_of xs ys)
      ∙ keep-append hits (map event_of xs) (map event_of ys)

  -- Quiet lists before and after one that may not be.
  pub seen-Quiet_left : (xs ys : Emitted) → Quiet hits xs → seen (xs ++ ys) ≡ seen ys
  seen-Quiet_left xs ys h = seen-append xs ys ∙ ap (λ es. es ++ seen ys) (seen-Quiet xs h)

  pub seen-Quiet_right : (xs ys : Emitted) → Quiet hits ys → seen (xs ++ ys) ≡ seen xs
  seen-Quiet_right xs ys h =
      seen-append xs ys ∙ ap (λ es. seen xs ++ es) (seen-Quiet ys h) ∙ append-nil (seen xs)

  pub seen-middle :
      (xs ys rs bs cs : Emitted)
      → Quiet hits xs
      → Quiet hits rs
      → Quiet hits bs
      → Quiet hits cs
      → seen (xs ++ ys ++ rs ++ bs ++ cs) ≡ seen ys
  seen-middle xs ys rs bs cs hx ha hb hc =
      seen-Quiet_right (xs ++ ys ++ rs ++ bs) cs hc
      ∙ seen-Quiet_right (xs ++ ys ++ rs) bs hb
      ∙ seen-Quiet_right (xs ++ ys) rs ha
      ∙ seen-Quiet_left xs ys hx

  module _ (i : Ignores hits) where
    Quiet-emit : (old new : Position) → Quiet hits (emit_position old new)
    unfolding emit_position
    Quiet-emit unknown utility = no_events
    Quiet-emit unknown generator = one _ _ (i.position _ _)
    Quiet-emit unknown transferring = one _ _ (i.position _ _)
    Quiet-emit unknown unknown = one _ _ (i.position _ _)
    Quiet-emit utility new = one _ _ (i.position _ _)
    Quiet-emit generator new = one _ _ (i.position _ _)
    Quiet-emit transferring new = one _ _ (i.position _ _)

    Quiet-position : (old new : Position) → Quiet hits (position_events old new)
    unfolding position_events
    Quiet-position old new = Quiet-if (position_eq old new) [] _ no_events (Quiet-emit old new)

    Quiet-source :
        (e : Bool → AtsEvent)
        → ((b : Bool) → hits (e b) ≡ false)
        → (new old : Option Bool) → Quiet hits (source_events e new old)
    unfolding source_events
    Quiet-source e h (some new) (some old) = Quiet-when _ _ (e new) (h new)
    Quiet-source e h (some new) none = no_events
    Quiet-source e h none old = no_events

    Quiet-mode : (old new : AtsMode) → Quiet hits (mode_events old new)
    unfolding mode_events
    Quiet-mode old new = Quiet-when _ _ (mode_changed old new) (i.mode old new)

    Quiet-raise : (cs : List ℕ) → Quiet hits (raise_all cs)
    Quiet-raise [] = no_events
    Quiet-raise (c ∷ cs) = record { silent = (i.raised c, (Quiet-raise cs).silent) }

    Quiet-clear : (cs : List ℕ) → Quiet hits (clear_all cs)
    Quiet-clear [] = no_events
    Quiet-clear (c ∷ cs) = record { silent = (i.cleared c, (Quiet-clear cs).silent) }

    Quiet-fault : (old new : List ℕ) → Quiet hits (fault_events old new)
    unfolding fault_events
    Quiet-fault old new = Quiet-append (raise_all _) (clear_all _) (Quiet-raise _) (Quiet-clear _)

    pub Quiet-reboot : (prev uptime : ℕ) → Quiet hits (reboot_events prev uptime)
    unfolding reboot_events
    Quiet-reboot prev uptime = Quiet-when _ _ (rebooted prev uptime) (i.reboot prev uptime)

    Quiet-validate_icd_version : (major minor : ℕ) → Quiet hits (validate_icd_version major minor)
    unfolding validate_icd_version
    Quiet-validate_icd_version major minor =
        Quiet-if (not (major == expected_icd_major)) _ _ (one _ _ (i.icd _)) (
          Quiet-if (ltb expected_icd_minor minor) _ _ (one _ _ (i.icd _))
            (Quiet-if (ltb minor expected_icd_minor) _ [] (one _ _ (i.icd _)) no_events))

    pub Quiet-icd : (s : AtsService) (next : AtsSnapshot) → Quiet hits (icd_events s next)
    unfolding icd_events
    Quiet-icd s next =
        Quiet-if (validates s next) _ [] (Quiet-validate_icd_version next.icd_major next.icd_minor)
          no_events

    -- What `poll_events` emits before the read-back of the commands.
    pub Quiet-sources :
        (p : AtsPoll) (next : AtsSnapshot) (s : AtsService)
        → Quiet hits (
            position_events s.snap.position next.position
            ++ source_events normal_changed
                (bool_or_none (p.values normal_available_reg))
                s.snap.normal_available
            ++ source_events emergency_changed
                (bool_or_none (p.values emergency_available_reg))
                s.snap.emergency_available
            ++ mode_events s.snap.ats_mode next.ats_mode
            ++ fault_events s.snap.fault_codes next.fault_codes)
    Quiet-sources p next s =
        Quiet-append _ _
          (Quiet-append _ _
            (Quiet-append _ _
              (Quiet-append _ _ (Quiet-position s.snap.position next.position) (
                Quiet-source normal_changed i.normal (bool_or_none (p.values normal_available_reg))
                  s.snap.normal_available))
              (Quiet-source emergency_changed i.emergency
                (bool_or_none (p.values emergency_available_reg)) s.snap.emergency_available))
            (Quiet-mode s.snap.ats_mode next.ats_mode))
          (Quiet-fault s.snap.fault_codes next.fault_codes)

  pub Quiet-comms :
      ((old new : CommsState) → hits (comms_changed old new) ≡ false)
      → (old new : CommsState) → Quiet hits (comms_events old new)
  unfolding comms_events
  Quiet-comms h healthy healthy = no_events
  Quiet-comms h degraded degraded = no_events
  Quiet-comms h lost lost = no_events
  Quiet-comms h degraded healthy = one _ _ (h _ _)
  Quiet-comms h lost healthy = one _ _ (h _ _)
  Quiet-comms h healthy degraded = one _ _ (h _ _)
  Quiet-comms h healthy lost = one _ _ (h _ _)
  Quiet-comms h degraded lost = one _ _ (h _ _)
  Quiet-comms h lost degraded = one _ _ (h _ _)

  pub Quiet-command_edge :
      (s : AtsService) (mono : ℕ) (command : MaintainedCommand) (was is_now : Bool)
      → hits (command_external command is_now) ≡ false
      → Quiet hits (command_edge s mono command was is_now)
  unfolding command_edge
  Quiet-command_edge s mono command was is_now h = Quiet-when _ _ _ h

  pub Quiet-edges :
      ((command : MaintainedCommand) (b : Bool) → hits (command_external command b) ≡ false)
      → (s : AtsService) (mono : ℕ) (next : AtsSnapshot)
      → Quiet hits (check_maintained_cmd_edges s mono next)
  unfolding check_maintained_cmd_edges
  Quiet-edges h s mono next = Quiet-if (s.snap.last_reading_ts == 0) [] _ no_events (
      Quiet-append _ _
        (Quiet-command_edge s mono inhibit_command s.snap.cmd_inhibit_active next.cmd_inhibit_active
          (h _ _))
        (Quiet-command_edge s mono force_command s.snap.cmd_force_transfer_active
          next.cmd_force_transfer_active (h _ _)))
