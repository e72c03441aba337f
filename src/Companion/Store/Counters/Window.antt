-- ===== src/Companion/Store/Counters/Window.antt =====
-- The rolling 24-hour window of transfers (`_evict_old_transfers` and `_transfer_timestamps` of
-- ats-pi-companion-main/src/atspi/state.py).
use complete_gen_project.Base.{
  ℕ, ◌-◌, ◌≤◌, ◌≡◌, refl, sym, ◌∙◌, ap, Bool, true, false, List, [], ◌∷◌, ◌++◌, arith, leb,
  if◌then◌else◌, length, All, keep, keep-append, keep-keep, IsSorted, IsSorted-append,
  IsSorted-append_split, IsSorted-keep, All-keep,
}
use mathlib.Core.Path.{◌≡⟨◌⟩◌, ◌∎}
use mathlib.Core.List.{append-nil, append_assoc}
use complete_gen_project.Companion.IoDriver.{Position}
use complete_gen_project.Companion.Store.Model.{
  RegisterStore, rolling_window_s, evict_front, evict_old_transfers,
}
use complete_gen_project.Companion.Store.Writers.{transferred_to_gen, apply_input_snapshot}
use complete_gen_project.Companion.Store.Counters.{Sample, run_samples, position-apply}

-- A time within the window at `now`.
abbrev pub in_window : ℕ → ℕ → Bool
in_window now ts = leb (now - rolling_window_s) ts

keep-All : (c x : ℕ) (xs : List ℕ) → leb c x ≡ true → All (λ y. x ≤ y) xs → keep (leb c) xs ≡ xs
keep-All c x [] h b = refl
keep-All c x (y ∷ ys) h b = ground (arith, keep-All c x ys)

-- Popping from the front is filtering, where the stamps are in order.
evict_front-eq-keep : (c : ℕ) (xs : List ℕ) → IsSorted xs → evict_front c xs ≡ keep (leb c) xs
unfolding evict_front
evict_front-eq-keep c [] h = refl
evict_front-eq-keep c (x ∷ xs) h = ground (arith, evict_front-eq-keep c xs, keep-All c x xs)

stamp : Position → Sample → List ℕ
stamp p x = if transferred_to_gen p x.inputs.position then x.now_wall ∷ [] else []

-- The times at which a run of samples enters the generator position.
pub stamps : Position → List Sample → List ℕ
unfolding stamp
stamps p [] = []
stamps p (x ∷ xs) = stamp p x ++ stamps x.inputs.position xs

abbrev pub times : List Sample → List ℕ
times [] = []
times (x ∷ xs) = x.now_wall ∷ times xs

append-if :
    (b : Bool) (t : ℕ) (xs : List ℕ)
    → (if b then xs ++ t ∷ [] else xs) ≡ xs ++ (if b then t ∷ [] else [])
append-if true t xs = refl
append-if false t xs = sym (append-nil xs)

timestamps-apply :
    (x : Sample) (s : RegisterStore)
    → (apply_input_snapshot x.disk x.now_wall x.inputs s).transfer_timestamps
      ≡ evict_old_transfers x.now_wall (s.transfer_timestamps ++ stamp s.snap.position x)
unfolding apply_input_snapshot stamp
timestamps-apply x s = ap (evict_old_transfers x.now_wall) (
    append-if (transferred_to_gen s.snap.position x.inputs.position) x.now_wall
      s.transfer_timestamps)

across_tail :
    (t : ℕ) (ys xs : List ℕ)
    → All (λ x. All (λ y. x ≤ y) (t ∷ ys)) xs
    → All (λ x. All (λ y. x ≤ y) ys) xs
across_tail t ys [] h = tt
across_tail t ys (x ∷ xs) h = (h.0.1, across_tail t ys xs h.1)

IsSorted-stamped :
    (b : Bool) (t : ℕ) (xs ys : List ℕ)
    → IsSorted (xs ++ t ∷ ys)
    → IsSorted ((xs ++ (if b then t ∷ [] else [])) ++ ys)
IsSorted-stamped true t xs ys h = rw (append_assoc xs (t ∷ []) ys) h
IsSorted-stamped false t xs ys h =
    let (left, right, across) = IsSorted-append_split xs (t ∷ ys) h in
    rw (append-nil xs) (IsSorted-append xs ys left right.1 (across_tail t ys xs across))

IsSorted-evicted :
    (p : ℕ → Bool) (xs ys : List ℕ) → IsSorted (xs ++ ys) → IsSorted (keep p xs ++ ys)
IsSorted-evicted p xs ys h =
    let (left, right, across) = IsSorted-append_split xs ys h in
    IsSorted-append (keep p xs) ys (IsSorted-keep p xs left) right (All-keep _ p xs across)

abbrev pub last_time : Sample → List Sample → ℕ
last_time x [] = x.now_wall
last_time x (y ∷ ys) = last_time y ys

le-last_time :
    (t : ℕ) (x : Sample) (xs : List Sample) → All (λ y. t ≤ y) (times (x ∷ xs)) → t ≤ last_time x xs
le-last_time t x [] h = h.0
le-last_time t x (y ∷ ys) h = le-last_time t y ys h.1

in_window_mono : (t u ts : ℕ) → t ≤ u → in_window u ts ≡ true → in_window t ts ≡ true
in_window_mono t u ts h k = ground arith

module _ (x : Sample) (s : RegisterStore) where
  abbrev next : RegisterStore
  next = apply_input_snapshot x.disk x.now_wall x.inputs s

  abbrev stamped : List ℕ
  stamped = s.transfer_timestamps ++ stamp s.snap.position x

  module _ (rest : List ℕ) (h : IsSorted (s.transfer_timestamps ++ x.now_wall ∷ rest)) where
    stamped-IsSorted : IsSorted (stamped ++ rest)
    unfolding stamp
    stamped-IsSorted =
        IsSorted-stamped (transferred_to_gen s.snap.position x.inputs.position) x.now_wall
          s.transfer_timestamps rest h

    next_window : next.transfer_timestamps ≡ keep (in_window x.now_wall) stamped
    unfolding evict_old_transfers
    next_window =
        timestamps-apply x s
        ∙ evict_front-eq-keep _ stamped (IsSorted-append_split stamped rest stamped-IsSorted).0

    next-IsSorted : IsSorted (next.transfer_timestamps ++ rest)
    next-IsSorted =
        rw next_window (IsSorted-evicted (in_window x.now_wall) stamped rest stamped-IsSorted)

    -- Keeping by a later cutoff sees through the eviction of this sample.
    keep-next :
        (t : ℕ) (new : List ℕ)
        → x.now_wall ≤ t
        → keep (in_window t) (next.transfer_timestamps ++ new) ≡ keep (in_window t) (stamped ++ new)
    keep-next t new le =
        keep (in_window t) (next.transfer_timestamps ++ new)
        ≡⟨ keep-append (in_window t) next.transfer_timestamps new ⟩
          keep (in_window t) next.transfer_timestamps ++ keep (in_window t) new
        ≡⟨ ap (λ ts. keep (in_window t) ts ++ keep (in_window t) new) next_window ⟩
          keep (in_window t) (keep (in_window x.now_wall) stamped) ++ keep (in_window t) new
        ≡⟨ ap (λ ts. ts ++ keep (in_window t) new)
            (keep-keep (in_window x.now_wall) (in_window t)
              (λ ts. in_window_mono x.now_wall t ts le) stamped) ⟩
          keep (in_window t) stamped ++ keep (in_window t) new
        ≡⟨ sym (keep-append (in_window t) stamped new) ⟩ keep (in_window t) (stamped ++ new) ∎

-- While the clock never goes back, the window after a run holds exactly the transfers, kept from
-- before or made in the run, that are at most 24 hours older than the last sample, in order.
pub timestamps-run_samples :
    (s : RegisterStore) (x : Sample) (xs : List Sample)
    → IsSorted (s.transfer_timestamps ++ times (x ∷ xs))
    → (run_samples s (x ∷ xs)).transfer_timestamps
      ≡ keep (in_window (last_time x xs)) (s.transfer_timestamps ++ stamps s.snap.position (x ∷ xs))
unfolding run_samples stamps
timestamps-run_samples s x [] h = rw (append-nil (stamp s.snap.position x)) (next_window x s [] h)
timestamps-run_samples s x (y ∷ ys) h =
    let t = last_time y ys in
    let new = stamps x.inputs.position (y ∷ ys) in
    let ordered = (IsSorted-append_split s.transfer_timestamps (times (x ∷ y ∷ ys)) h).1 in
    timestamps-run_samples (next x s) y ys (next-IsSorted x s (times (y ∷ ys)) h)
    ∙ rw (position-apply x.disk x.now_wall x.inputs s) (
        keep-next x s (times (y ∷ ys)) h t new (le-last_time x.now_wall y ys ordered.0)
        ∙ ap (keep (in_window t))
            (append_assoc s.transfer_timestamps (stamp s.snap.position x) new))

count_24h-length :
    (s : RegisterStore) (x : Sample) (xs : List Sample)
    → let s' = run_samples s (x ∷ xs) in s'.snap.transfer_count_24h ≡ length s'.transfer_timestamps
unfolding run_samples apply_input_snapshot
count_24h-length s x [] = refl
count_24h-length s x (y ∷ ys) =
    count_24h-length (apply_input_snapshot x.disk x.now_wall x.inputs s) y ys

-- While the clock never goes back, the published 24-hour count after a run is the number of
-- transfers, kept from before or made in the run, that are at most 24 hours older than the last sample.
pub count_24h-run_samples :
    (s : RegisterStore) (x : Sample) (xs : List Sample)
    → IsSorted (s.transfer_timestamps ++ times (x ∷ xs))
    → (run_samples s (x ∷ xs)).snap.transfer_count_24h
      ≡ length (
          keep
            (in_window (last_time x xs))
            (s.transfer_timestamps ++ stamps s.snap.position (x ∷ xs)))
count_24h-run_samples s x xs h =
    count_24h-length s x xs ∙ ap length (timestamps-run_samples s x xs h)
