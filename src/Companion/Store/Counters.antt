-- ===== src/Companion/Store/Counters.antt =====
-- The lifetime count of transfers (`apply_input_snapshot` of ats-pi-companion-main/src/atspi/state.py)
-- over runs of samples.
pub mod Window
use complete_gen_project.Base.{ℕ, ◌+◌, ◌≡◌, refl, ap, Option, List, [], ◌∷◌, arith, All}
use complete_gen_project.Companion.IoDriver.{
  Position, utility, generator, transferring, unknown, InputSnapshot,
}
use complete_gen_project.Companion.Persistence.{PersistedState}
use complete_gen_project.Companion.Store.Model.{StateFile, RegisterStore, Disk, init_with}
use complete_gen_project.Companion.Store.Writers.{apply_input_snapshot}

-- One cycle of the sampling loop: the disk, the wall clock and what the driver read.
pub record Sample : Type 0 where
  pub disk : Disk
  pub now_wall : ℕ
  pub inputs : InputSnapshot

unfoldable pub run_samples : RegisterStore → List Sample → RegisterStore
run_samples s [] = s
run_samples s (x ∷ xs) = run_samples (apply_input_snapshot x.disk x.now_wall x.inputs s) xs

-- The transfers to the generator in a sequence of positions: entries to `generator` from the utility
-- or from the stroke of the switch.
abbrev pub entry : Position → Position → ℕ
entry utility generator = 1
entry transferring generator = 1
entry _ _ = 0

abbrev pub entries : Position → List Sample → ℕ
entries p [] = 0
entries p (x ∷ xs) = entry p x.inputs.position + entries x.inputs.position xs

pub position-apply :
    (d : Disk) (t : ℕ) (i : InputSnapshot) (s : RegisterStore)
    → (apply_input_snapshot d t i s).snap.position ≡ i.position
unfolding apply_input_snapshot
position-apply d t i s = refl

lifetime-apply :
    (d : Disk) (t : ℕ) (i : InputSnapshot) (s : RegisterStore)
    → (apply_input_snapshot d t i s).snap.transfer_count_lifetime
      ≡ s.snap.transfer_count_lifetime + entry s.snap.position i.position
unfolding apply_input_snapshot
lifetime-apply d t i s = ground arith

-- Over any run of samples the lifetime count grows by the number of entries to the generator from
-- the utility or from the stroke, and by nothing else.
pub lifetime-run_samples :
    (s : RegisterStore) (xs : List Sample)
    → (run_samples s xs).snap.transfer_count_lifetime
      ≡ s.snap.transfer_count_lifetime + entries s.snap.position xs
unfolding run_samples
lifetime-run_samples s [] = omega arith
lifetime-run_samples s (x ∷ xs) = omega (
  arith,
  lifetime-run_samples (apply_input_snapshot x.disk x.now_wall x.inputs s) xs,
  lifetime-apply x.disk x.now_wall x.inputs s,
  ap (λ p. entries p xs) (position-apply x.disk x.now_wall x.inputs s),
)

-- The switch rests on the generator, or the reading is a glitch with both contacts open.
abbrev pub OnGenerator : Position → Type 0
OnGenerator generator = Unit
OnGenerator unknown = Unit
OnGenerator _ = ⊥

entry-OnGenerator : (p q : Position) → OnGenerator p → OnGenerator q → entry p q ≡ 0
entry-OnGenerator generator q h k = refl
entry-OnGenerator unknown q h k = refl
entry-OnGenerator utility q h k = absurd h
entry-OnGenerator transferring q h k = absurd h

entries-OnGenerator :
    (p : Position) (xs : List Sample)
    → OnGenerator p
    → All (λ x. OnGenerator x.inputs.position) xs
    → entries p xs ≡ 0
entries-OnGenerator p [] h k = refl
entries-OnGenerator p (x ∷ xs) h k = omega (
  arith,
  entry-OnGenerator p x.inputs.position h k.0,
  entries-OnGenerator x.inputs.position xs k.0 k.1,
)

-- A service that starts while the load is on the generator, and reads only `generator` and `unknown`
-- from then on, publishes the lifetime count that the state file held: restarts do not count.
restart_keeps_lifetime :
    (unit_id boot now : ℕ) (file : Option StateFile) (p : PersistedState) (xs : List Sample)
    → All (λ x. OnGenerator x.inputs.position) xs
    → (run_samples (init_with unit_id boot now file p) xs).snap.transfer_count_lifetime
      ≡ p.transfer_count_lifetime
unfolding init_with
restart_keeps_lifetime unit_id boot now file p xs h = omega (
  arith,
  lifetime-run_samples (init_with unit_id boot now file p) xs,
  entries-OnGenerator unknown xs tt h,
)
