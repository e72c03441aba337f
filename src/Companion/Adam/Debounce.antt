-- ===== src/Companion/Adam/Debounce.antt =====
-- The debouncer of the level contacts (`_Debouncer` of ats-pi-companion-main/src/atspi/io_adam.py).
pub mod Channel
use complete_gen_project.Base.{
  ℕ, ◌+◌, Bool, true, false, Option, none, some, List, [], ◌∷◌, max, leb, ◌==◌, if◌then◌else◌,
  bool_eq, length, replicate,
}

pub record Debouncer : Type 0 where
  pub samples : ℕ
  pub stable : Option (List Bool)
  pub candidate_count : List ℕ

unfoldable pub new_debouncer : ℕ → Debouncer
new_debouncer samples = record { samples = max 1 samples; stable = none; candidate_count = [] }

-- One channel's round of the loop in `update`: the published level and the count of samples against it.
unfoldable pub update_channel : ℕ → Bool → Bool × ℕ → Bool × ℕ
update_channel samples level (stable, count) =
    if bool_eq level stable
    then (stable, 0)
    else if leb samples (count + 1)
    then (level, 0)
    else (stable, count + 1)

-- The loop over the channels; the three lists are of one length.
unfoldable pub update_channels : ℕ → List Bool → List Bool → List ℕ → List Bool × List ℕ
unfolding update_channel
update_channels samples (level ∷ raw) (stable ∷ stables) (count ∷ counts) =
    let (stable', count') = update_channel samples level (stable, count) in
    let (stables', counts') = update_channels samples raw stables counts in
    (stable' ∷ stables', count' ∷ counts')
update_channels samples _ stables counts = (stables, counts)

baseline : List Bool → Debouncer → List Bool × Debouncer
baseline raw d = (raw, record d { stable = some raw; candidate_count = replicate (length raw) 0 })

settle : List Bool → List Bool → Debouncer → List Bool × Debouncer
unfolding update_channels
settle raw stable d =
    let (stable', counts) = update_channels d.samples raw stable d.candidate_count in
    (stable', record d { stable = some stable'; candidate_count = counts })

unfoldable pub update : List Bool → Debouncer → List Bool × Debouncer
unfolding baseline settle
update raw d = elim d.stable [
  | none ↦ baseline raw d
  | some stable ↦ if length stable == length raw then settle raw stable d else baseline raw d
]
