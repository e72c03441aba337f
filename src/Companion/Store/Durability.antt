-- ===== src/Companion/Store/Durability.antt =====
-- What a restart reads back after a transfer (`_persist_sync`, `_persist_async_safe` and `__init__` of
-- ats-pi-companion-main/src/atspi/state.py).
use complete_gen_project.Base.{
  ℕ, ◌+◌, ◌-◌, ◌≡◌, ◌∙◌, refl, true, Option, none, some, List, [], leb, keep, ap,
}
use complete_gen_project.Companion.IoDriver.{Position, utility, generator, auto, InputSnapshot}
use complete_gen_project.Companion.Persistence.{PersistedState, Contents, no_file, save, load}
use complete_gen_project.Companion.Persistence.Recovery.{load-save}
use complete_gen_project.Companion.Store.Model.{
  StateFile, RegisterStore, Disk, init, init_with, persisted_of, rolling_window_s,
}
use complete_gen_project.Companion.Store.Persist.{
  finish_queued, persisted_fields, persist_sync, persist_async_safe, save_blocking,
}
use complete_gen_project.Companion.Store.Writers.{
  transferred_to_gen, apply_input_snapshot, publish_inputs, persist_after,
}
use complete_gen_project.Companion.Store.Activities.{
  Activity, perform_all, AllWriteless, perform_all-Holds,
}

-- A store that starts from a document that a save has written starts from what was saved.
init-saved :
    (unit_id boot now : ℕ) (p : PersistedState) (old : Contents) (f : StateFile)
    → f.contents ≡ save true p old
    → init unit_id boot now (some f) ≡ some (init_with unit_id boot now (some f) p)
unfolding init
init-saved unit_id boot now p old f saved =
    ap
      (λ l. elim (persisted_of l) [
        | none ↦ none
        | some q ↦ some (init_with unit_id boot now (some f) q)
      ])
      (ap load saved ∙ load-save p old)

module _ (d : Disk) (t : ℕ) (i : InputSnapshot) (s : RegisterStore) (f : StateFile)
    (file : s.state_file ≡ some f) (moved : transferred_to_gen s.snap.position i.position ≡ true)
    (durable : d.takes_write ≡ true) where
  abbrev after : RegisterStore
  after = apply_input_snapshot d t i s

  file_after_transfer :
      after.state_file ≡ some (save_blocking true (persisted_fields (publish_inputs t i s)) f)
  unfolding apply_input_snapshot persist_after persist_sync
  file_after_transfer = rw (file, moved, durable)

  -- After a transfer, on a store with a state file whose save the disk takes, whatever is then sampled on
  -- the event loop, shown, set, released, checked or written, a restart at any time publishes the lifetime
  -- count and the transfer time that the transfer published, and the part of its 24-hour window that is
  -- not out of date; provided that until then no sample is another transfer to the generator, and no
  -- save that was queued on the executor, before the transfer or after it, finishes.
  pub restart_after_transfer :
      (xs : List Activity) (unit_id boot now : ℕ)
      → AllWriteless xs after
      → (s' : RegisterStore) × (init unit_id boot now (perform_all xs after).state_file ≡ some s')
        × (s'.snap.transfer_count_lifetime ≡ s.snap.transfer_count_lifetime + 1)
        × (s'.snap.last_transfer_to_gen_ts ≡ t)
        × (s'.transfer_timestamps
            ≡ keep (λ ts. leb (now - rolling_window_s) ts) after.transfer_timestamps)
  unfolding init_with persisted_fields apply_input_snapshot save_blocking
  restart_after_transfer xs unit_id boot now quiet =
      let p = persisted_fields (publish_inputs t i s) in
      let kept =
        perform_all-Holds (save true p f.contents) xs after quiet
          (record { file = save_blocking true p f; known = file_after_transfer; holds = refl }) in
      (
        init_with unit_id boot now (some kept.file) p,
        rw (kept.known) (init-saved unit_id boot now p f.contents kept.file kept.holds),
        rw moved,
        rw moved,
        refl,
      )

abbrev at_position : Position → InputSnapshot
at_position p = record {
  position = p;
  normal_available = true;
  emergency_available = true;
  engine_start_calling = true;
  ats_mode = auto;
  fault_bits = 0;
}

abbrev map_file : (StateFile → StateFile) → Option StateFile → Option StateFile
map_file g none = none
map_file g (some f) = some (g f)

-- The service runs on its event loop and the disk takes writes.
abbrev running : Disk
running = record { loop_running = true; takes_write = true }

-- The load goes back to the utility and again to the generator, then the queued save finishes.
abbrev pub late_save : ℕ → ℕ → RegisterStore → RegisterStore
late_save t u s =
    let s1 = apply_input_snapshot running t (at_position utility) s in
    let s2 = apply_input_snapshot running u (at_position generator) s1 in
    record s2 { state_file = map_file (finish_queued 0 true) s2.state_file }

module _ (t u : ℕ) (s : RegisterStore) (f : StateFile) (file : s.state_file ≡ some f)
    (none_queued : f.queued ≡ []) (on_generator : s.snap.position ≡ generator) where
  abbrev older : PersistedState
  older = persisted_fields (publish_inputs t (at_position utility) s)

  abbrev blank : StateFile
  blank = record { contents = no_file; queued = [] }

  late_file : (late_save t u s).state_file ≡ some (save_blocking true older blank)
  unfolding apply_input_snapshot persist_after persist_sync persist_async_safe finish_queued
  late_file = rw (file, on_generator, none_queued)

  -- With nothing queued and the load on the generator, a save queued for the retransfer that
  -- finishes after the save of the next transfer puts the older document back, whatever the times:
  -- after a restart the lifetime count is one below what was published.
  pub late_save_loses_transfer :
      (unit_id boot now : ℕ)
      → (r : RegisterStore) × (init unit_id boot now (late_save t u s).state_file ≡ some r)
        × ((late_save t u s).snap.transfer_count_lifetime ≡ r.snap.transfer_count_lifetime + 1)
  unfolding init_with persisted_fields apply_input_snapshot save_blocking
  late_save_loses_transfer unit_id boot now = (
    init_with unit_id boot now (late_save t u s).state_file older,
    rw late_file (init-saved unit_id boot now older no_file (save_blocking true older blank) refl),
    refl,
  )
