-- ===== src/Companion/Store/Activities.antt =====
-- What keeps the document on disk as it is (the writers and the Modbus side of `RegisterStore` in
-- ats-pi-companion-main/src/atspi/state.py).
use complete_gen_project.Base.{
  ℕ, ◌≡◌, ◌∙◌, refl, Bool, true, false, Bool-cases, inl, inr, some, List, [], ◌∷◌, ◌++◌, arith,
}
use complete_gen_project.Companion.IoDriver.{InputSnapshot, OutputState}
use complete_gen_project.Companion.Persistence.{Contents}
use complete_gen_project.Companion.Store.Model.{StateFile, RegisterStore, Disk}
use complete_gen_project.Companion.Store.Persist.{persisted_fields, persist_async_safe}
use complete_gen_project.Companion.Store.Writers.{
  transferred_to_gen, retransferred_to_util, apply_output_state, set_input_fault, set_output_fault,
  release_maintained_commands, apply_input_snapshot, publish_inputs, persist_after,
}
use complete_gen_project.Companion.Store.Modbus.{can_write, write_register}

-- What else changes the store while the service runs; saves that finish on the executor stand apart.
pub data Activity : Type 0 where
  sampled : Disk → ℕ → InputSnapshot → Activity
  outputs_shown : OutputState → Activity
  input_fault_set output_fault_set : Bool → Activity
  commands_released : Activity
  write_checked : ℕ → Activity
  register_written : ℕ → ℕ → Activity

abbrev pub perform : Activity → RegisterStore → RegisterStore
perform (sampled d now i) s = apply_input_snapshot d now i s
perform (outputs_shown o) s = apply_output_state o s
perform (input_fault_set on) s = set_input_fault on s
perform (output_fault_set on) s = set_output_fault on s
perform commands_released s = release_maintained_commands s
perform (write_checked addr) s = (can_write addr s).1
perform (register_written addr value) s = (write_register addr value s).1

abbrev pub perform_all : List Activity → RegisterStore → RegisterStore
perform_all [] s = s
perform_all (x ∷ xs) s = perform_all xs (perform x s)

-- A sample on the event loop that is no transfer to the generator, or no sample.
abbrev pub Writeless : Activity → RegisterStore → Type 0
Writeless (sampled d now i) s =
    (d.loop_running ≡ true) × (transferred_to_gen s.snap.position i.position ≡ false)
Writeless _ s = Unit

abbrev pub AllWriteless : List Activity → RegisterStore → Type 0
AllWriteless [] s = Unit
AllWriteless (x ∷ xs) s = Writeless x s × AllWriteless xs (perform x s)

-- The document on disk.
pub record Holds (doc : Contents) (s : RegisterStore) : Type 0 where
  pub file : StateFile
  pub known : s.state_file ≡ some file
  pub holds : file.contents ≡ doc

Holds-same :
    (doc : Contents) (s s' : RegisterStore)
    → s'.state_file ≡ s.state_file
    → Holds doc s
    → Holds doc s'
Holds-same doc s s' same h = record { file = h.file; known = same ∙ h.known; holds = h.holds }

sampled-Holds :
    (doc : Contents) (d : Disk) (now : ℕ) (i : InputSnapshot) (s : RegisterStore)
    → Writeless (sampled d now i) s
    → Holds doc s
    → Holds doc (apply_input_snapshot d now i s)
unfolding apply_input_snapshot persist_after persist_async_safe
sampled-Holds doc d now i s w h =
    elim (Bool-cases (retransferred_to_util s.snap.position i.position)) [
      | inl back ↦ record {
        file = record (h.file) {
          queued = h.file.queued ++ persisted_fields (publish_inputs now i s) ∷ [];
        };
        known = rw (h.known, w.1, back, w.0);
        holds = h.holds;
      }
      | inr still ↦ record { file = h.file; known = rw (h.known, w.1, still); holds = h.holds }
    ]

can_write-file : (addr : ℕ) (s : RegisterStore) → (can_write addr s).1.state_file ≡ s.state_file
unfolding can_write
can_write-file addr s = ground arith

write_register-file :
    (addr value : ℕ) (s : RegisterStore) → (write_register addr value s).1.state_file ≡ s.state_file
unfolding write_register
write_register-file addr value s = ground arith

perform-Holds :
    (doc : Contents) (x : Activity) (s : RegisterStore)
    → Writeless x s
    → Holds doc s
    → Holds doc (perform x s)
unfolding apply_output_state set_input_fault set_output_fault release_maintained_commands
perform-Holds doc (sampled d now i) s w h = sampled-Holds doc d now i s w h
perform-Holds doc (outputs_shown o) s w h = Holds-same doc s _ refl h
perform-Holds doc (input_fault_set on) s w h = Holds-same doc s _ refl h
perform-Holds doc (output_fault_set on) s w h = Holds-same doc s _ refl h
perform-Holds doc commands_released s w h = Holds-same doc s _ refl h
perform-Holds doc (write_checked addr) s w h = Holds-same doc s _ (can_write-file addr s) h
perform-Holds doc (register_written addr value) s w h =
    Holds-same doc s _ (write_register-file addr value s) h

pub perform_all-Holds :
    (doc : Contents) (xs : List Activity) (s : RegisterStore)
    → AllWriteless xs s
    → Holds doc s
    → Holds doc (perform_all xs s)
perform_all-Holds doc [] s w h = h
perform_all-Holds doc (x ∷ xs) s w h =
    perform_all-Holds doc xs (perform x s) w.1 (perform-Holds doc x s w.0 h)
