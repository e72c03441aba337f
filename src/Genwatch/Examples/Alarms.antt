-- ===== src/Genwatch/Examples/Alarms.antt =====
-- The alarm theorems at concrete polls.
use complete_gen_project.Base.{ℕ, ◌≡◌, refl, Bool, true, ◌==◌, [], ◌∷◌}
use complete_gen_project.Genwatch.LoadSource.{running}
use complete_gen_project.Genwatch.Alarms.{Poll, run_polls, start_alarms}
use complete_gen_project.Genwatch.Alarms.Session.Rows.{run_polls-stale}

abbrev quiet : Poll
quiet = record { active = []; engine = running }

-- The row of an alarm that was raised before a restart, and whose bit is low since.
abbrev old_row : ℕ → Bool
old_row c = c == 40

run_polls-stale_example : (run_polls (quiet ∷ quiet ∷ []) (start_alarms old_row)).rows 40 ≡ true
run_polls-stale_example = run_polls-stale 40 (quiet ∷ quiet ∷ []) old_row refl (refl, (refl, tt))
