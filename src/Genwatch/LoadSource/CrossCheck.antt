-- ===== src/Genwatch/LoadSource/CrossCheck.antt =====
-- The alarm on a switch position that the generator contradicts (`_check_loadsource_disagreement` of
-- GenWatch-main/backend/genwatch/services/state.py).
use complete_gen_project.Base.{
  ℕ, ◌+◌, ◌≡◌, refl, Bool, true, false, ◌&&◌, not, List, [], ◌∷◌, arith, leb,
}
use complete_gen_project.Genwatch.LoadSource.{
  CrossCheckState, Poll, Verdict, clears, holds, disagrees, judge, apply_verdict,
  emit_disagree_raise, emit_disagree_clear, check_loadsource_disagreement, run_checks, AlarmEvent,
  alarm_raised, alarm_cleared,
}

-- The polls that contradict the position since the last one that did not bear it out.
abbrev pub add_evidence : Verdict → ℕ → ℕ
add_evidence clears n = 0
add_evidence holds n = n
add_evidence disagrees n = n + 1

abbrev pub streak : List Poll → ℕ → ℕ
streak [] n = n
streak (p ∷ ps) n = streak ps (add_evidence (judge p.ats p.engine p.electrical) n)

-- Raised and cleared in turns, the last event first, up to a state that is raised or not.
abbrev pub alternates : Bool → List AlarmEvent → Bool
alternates is_raised [] = not is_raised
alternates is_raised (alarm_raised ∷ es) = is_raised && alternates false es
alternates is_raised (alarm_cleared ∷ es) = not is_raised && alternates true es

record IsConsistent (n : ℕ) (c : CrossCheckState) : Type 0 where
  pub counts : c.count ≡ n
  pub raises : c.is_raised ≡ leb 3 n
  pub stores : c.row ≡ c.is_raised
  pub tells : alternates c.is_raised c.emitted ≡ true

apply-IsConsistent :
    (v : Verdict) (n : ℕ) (c : CrossCheckState)
    → IsConsistent n c
    → IsConsistent (add_evidence v n) (apply_verdict v c)
unfolding apply_verdict emit_disagree_raise emit_disagree_clear
apply-IsConsistent holds n c i = i
apply-IsConsistent clears n c i = record {
  counts = refl;
  raises = ground arith;
  stores = ground arith;
  tells = ground arith;
}
apply-IsConsistent disagrees n c i = record {
  counts = ground arith;
  raises = ground arith;
  stores = ground arith;
  tells = ground arith;
}

run-IsConsistent :
    (ps : List Poll) (n : ℕ) (c : CrossCheckState)
    → IsConsistent n c
    → IsConsistent (streak ps n) (run_checks ps c)
unfolding run_checks check_loadsource_disagreement
run-IsConsistent [] n c i = i
run-IsConsistent (p ∷ ps) n c i =
    run-IsConsistent ps _ _ (apply-IsConsistent (judge p.ats p.engine p.electrical) n c i)

-- From a fresh start, after any sequence of polls, the alarm is raised exactly if at least three polls
-- have contradicted the position since the last one that agreed or could not be compared (polls that
-- hold do not count either way); the database has its row exactly then, and the events that were
-- emitted raise it and clear it in turns.
run_checks-evidence :
    (ps : List Poll)
    → let c = run_checks ps (record { count = 0; is_raised = false; row = false; emitted = [] }) in
      (c.is_raised ≡ leb 3 (streak ps 0))
      × (c.row ≡ c.is_raised)
      × (alternates c.is_raised c.emitted ≡ true)
run_checks-evidence ps =
    let i =
      run-IsConsistent ps 0 (record { count = 0; is_raised = false; row = false; emitted = [] })
        (record { counts = refl; raises = refl; stores = refl; tells = refl }) in
    (i.raises, i.stores, i.tells)
