-- ===== src/Genwatch/AtsControl/Echo.antt =====
-- The read-back of GenWatch's own commands (`note_command_write`, `_check_maintained_cmd_edges` and
-- `_update` of GenWatch-main/backend/genwatch/services/ats.py, after `execute` of
-- services/ats_control.py).
use complete_gen_project.Base.{
  ℕ, ◌-◌, ◌≡◌, ◌∙◌, refl, ap, Bool, true, false, not, ◌&&◌, some, List, [], ◌∷◌, ◌++◌, ◌==◌, arith,
  bool_eq, leb, keep, keep-append, map, if◌then◌else◌,
}
use complete_gen_project.Genwatch.Validation.{ControlDef}
use complete_gen_project.Genwatch.Tokens.{Control, done}
use complete_gen_project.Genwatch.Control.{ControlMap, Instants, Request}
use complete_gen_project.Genwatch.Ats.Model.{
  AtsRegister, cmd_inhibit_reg, cmd_force_reg, AtsService, AtsSnapshot, MaintainedCommand,
  inhibit_command, force_command, AtsEvent, command_external, is_same_command, note_command_write,
  bool_or,
}
use complete_gen_project.Genwatch.Ats.Update.{
  AtsPoll, event_of, decode_snapshot, check_maintained_cmd_edges, command_edge, assign_comms,
  poll_events, update, run_updates,
}
use complete_gen_project.Genwatch.Ats.Quiet.{
  Ignores, seen, seen-middle, seen-Quiet_left, seen-Quiet_right, Quiet-sources, Quiet-command_edge,
  Quiet-reboot, Quiet-comms, Quiet-icd,
}
use complete_gen_project.Genwatch.AtsControl.{Command, noted_command, note_result, execute}

-- The events of an outside change of one output.
abbrev pub is_outside : MaintainedCommand → AtsEvent → Bool
is_outside command (command_external k v) = is_same_command k command
is_outside command _ = false

abbrev pub outside_changes : MaintainedCommand → List AtsEvent → List AtsEvent
outside_changes command es = keep (is_outside command) es

-- The register of an output, and the value that a snapshot shows.
abbrev pub command_reg : MaintainedCommand → AtsRegister
command_reg inhibit_command = cmd_inhibit_reg
command_reg force_command = cmd_force_reg

abbrev pub shown : MaintainedCommand → AtsSnapshot → Bool
shown inhibit_command v = v.cmd_inhibit_active
shown force_command v = v.cmd_force_transfer_active

is_outside-Ignores : (command : MaintainedCommand) → Ignores (is_outside command)
is_outside-Ignores command = record {
  position = λ old new. refl;
  normal = λ b. refl;
  emergency = λ b. refl;
  mode = λ old new. refl;
  raised = λ c. refl;
  cleared = λ c. refl;
  reboot = λ prev uptime. refl;
  icd = λ v. refl;
}

run_updates-cmd_write_monotonic :
    (ps : List AtsPoll) (s : AtsService)
    → (run_updates ps s).cmd_write_monotonic ≡ s.cmd_write_monotonic
unfolding run_updates update
run_updates-cmd_write_monotonic [] s = refl
run_updates-cmd_write_monotonic (p ∷ ps) s = run_updates-cmd_write_monotonic ps (update p s)

noted_lem :
    (command : MaintainedCommand) (asserted : Bool) (mono : ℕ) (s : AtsService)
    → (note_command_write command asserted mono s).cmd_write_monotonic command asserted ≡ some mono
unfolding note_command_write
noted_lem inhibit_command true mono s = refl
noted_lem inhibit_command false mono s = refl
noted_lem force_command true mono s = refl
noted_lem force_command false mono s = refl

-- What is reported where the output is read as commanded.
abbrev pub reported_outside : Bool → MaintainedCommand → Bool → List AtsEvent
reported_outside true command asserted = command_external command asserted ∷ []
reported_outside false command asserted = []

edge_lem :
    (s : AtsService) (command : MaintainedCommand) (was asserted : Bool) (mono later : ℕ)
    → s.cmd_write_monotonic command asserted ≡ some mono
    → seen (is_outside command) (command_edge s later command was asserted)
      ≡ reported_outside
          (not (bool_eq was asserted) && not (leb (later - mono) 10000))
          command
          asserted
unfolding command_edge
edge_lem s inhibit_command was asserted mono later e = rw e (ground arith)
edge_lem s force_command was asserted mono later e = rw e (ground arith)

-- The read-back reports of an output what its own edge reports, from the second poll on.
edges_lem :
    (s : AtsService) (mono : ℕ) (next : AtsSnapshot) (command : MaintainedCommand)
    → seen (is_outside command) (check_maintained_cmd_edges s mono next) ≡ (
        if s.snap.last_reading_ts == 0
        then []
        else seen
            (is_outside command)
            (command_edge s mono command (shown command s.snap) (shown command next)))
unfolding check_maintained_cmd_edges
edges_lem s mono next inhibit_command = ground (
  arith,
  seen-Quiet_right (is_outside inhibit_command)
      (command_edge s mono inhibit_command s.snap.cmd_inhibit_active next.cmd_inhibit_active) _
      (Quiet-command_edge (is_outside inhibit_command) s mono force_command
        s.snap.cmd_force_transfer_active next.cmd_force_transfer_active refl),
)
edges_lem s mono next force_command = ground (
  arith,
  seen-Quiet_left (is_outside force_command) _
      (command_edge s mono force_command s.snap.cmd_force_transfer_active
        next.cmd_force_transfer_active)
      (Quiet-command_edge (is_outside force_command) s mono inhibit_command
        s.snap.cmd_inhibit_active next.cmd_inhibit_active refl),
)

poll_lem :
    (p : AtsPoll) (next : AtsSnapshot) (s : AtsService) (command : MaintainedCommand)
    → seen (is_outside command) (poll_events p next s)
      ≡ seen (is_outside command) (check_maintained_cmd_edges s p.mono next)
unfolding poll_events
poll_lem p next s command =
    seen-middle hits _ (check_maintained_cmd_edges s p.mono next) _ _ _
      (Quiet-sources hits ignores p next s)
      (Quiet-reboot hits ignores s.prev_uptime_s next.ats_pi_uptime_s)
      (Quiet-comms hits (λ old new. refl) (assign_comms p.comms_object p.comms s.snap).comms
        next.comms)
      (Quiet-icd hits ignores s next)
  where
    hits : AtsEvent → Bool
    hits = is_outside command

    ignores : Ignores hits
    ignores = is_outside-Ignores command

decode_lem :
    (p : AtsPoll) (s : AtsService) (command : MaintainedCommand)
    → shown command (decode_snapshot s.fault_rules p s.snap)
      ≡ bool_or (p.values (command_reg command)) (shown command s.snap)
unfolding decode_snapshot
decode_lem p s inhibit_command = refl
decode_lem p s force_command = refl

-- A poll that reads an output as it was commanded at `mono`.
update_lem :
    (p : AtsPoll) (s : AtsService) (command : MaintainedCommand) (asserted : Bool) (mono : ℕ)
    → s.cmd_write_monotonic command asserted ≡ some mono
    → bool_or (p.values (command_reg command)) (shown command s.snap) ≡ asserted
    → outside_changes command (update p s).published
      ≡ outside_changes command s.published
        ++ (if s.snap.last_reading_ts == 0
            then []
            else reported_outside
                (not (bool_eq (shown command s.snap) asserted) && not (leb (p.mono - mono) 10000))
                command
                asserted)
unfolding update
update_lem p s command asserted mono noted read =
    keep-append (is_outside command) s.published
      (map event_of (poll_events p (decode_snapshot s.fault_rules p s.snap) s))
    ∙ ap (λ es. outside_changes command s.published ++ es)
        (poll_lem p (decode_snapshot s.fault_rules p s.snap) s command
          ∙ edges_lem s p.mono (decode_snapshot s.fault_rules p s.snap) command
          ∙ ap (λ es. if s.snap.last_reading_ts == 0 then [] else es)
              (ap
                  (λ v.
                    seen (is_outside command)
                      (command_edge s p.mono command (shown command s.snap) v))
                  (decode_lem p s command ∙ read)
                ∙ edge_lem s command (shown command s.snap) asserted mono p.mono noted))

module _ (m : ControlMap) (k : Command) (q : Request) (at : Instants) (answer : Bool) (mono : ℕ)
    (s : AtsService) (c : Control) (ps : List AtsPoll) where
  -- The link after the command, and some polls.
  abbrev pub polled : AtsService
  polled = run_updates ps (execute m k q at answer mono s c).2

  -- After a command on a maintained output whose write was confirmed, and any number of polls since with
  -- no further command, a poll that leaves the output shown as it was commanded publishes an outside
  -- change of that output exactly if the other value was shown before it, more than 10 s have passed
  -- since the write was noted, and there is an earlier reading (its time is not 0); then it is one event,
  -- with the commanded value.
  pub execute-update :
      (command : MaintainedCommand) (ctl : ControlDef) (p : AtsPoll)
      → noted_command k.verb ≡ some command
      → (execute m k q at answer mono s c).0 ≡ done ctl
      → bool_or (p.values (command_reg command)) (shown command polled.snap) ≡ k.asserts
      → outside_changes command (update p polled).published
        ≡ outside_changes command polled.published
          ++ (if polled.snap.last_reading_ts == 0
              then []
              else reported_outside
                  (not (bool_eq (shown command polled.snap) k.asserts)
                    && not (leb (p.mono - mono) 10000))
                  command
                  k.asserts)
  unfolding execute note_result
  execute-update command ctl p noted ok read =
      update_lem p polled command k.asserts mono
        (ap (λ f. f command k.asserts)
            (run_updates-cmd_write_monotonic ps (execute m k q at answer mono s c).2)
          ∙ written)
        read
    where
      written :
          (execute m k q at answer mono s c).2.cmd_write_monotonic command k.asserts ≡ some mono
      written = rw (ok, noted) (noted_lem command k.asserts mono s)
