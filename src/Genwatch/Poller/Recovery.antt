-- ===== src/Genwatch/Poller/Recovery.antt =====
-- How a link is lost and becomes healthy again (`_record`, `_classify` and `_watchdog` of
-- GenWatch-main/backend/genwatch/modbus/poller.py).
use complete_gen_project.Base.{
  ℕ, zero, suc, ◌+◌, ◌*◌, ◌≤◌, ◌<◌, ◌≡◌, ◌≢◌, ◌↔◌, ◌⊎◌, ◌∙◌, inl, inr, refl, sym, Bool, true, false,
  not, ◌&&◌, ◌||◌, List, [], ◌∷◌, ltb, leb, if◌then◌else◌, bool_eq, length, take, max, arith,
  Bool-cases, ◌==◌, ==_iff, subst,
}
use complete_gen_project.Genwatch.Tokens.{CommsState, healthy, degraded, lost}
use complete_gen_project.Genwatch.Poller.Health.{
  CommsHealth, new_health, push, count_true, success_rate, recent_flaps, recovers, classify,
  count_sample, is_lost, enter_state, record_sample, is_silent, watchdog, HealthEvent, sample,
  check_silence, prime_good, health_step, run_health,
}

abbrev exact : ℕ → ℕ → Bool
exact n k = bool_eq (ltb (success_rate k n) 950) (ltb (100 * k) (95 * n))

-- The windows are short, so that the table of their rates is checked by evaluation: a row is the windows
-- of one length, by how many of their polls are good.
row_agrees : ℕ → ℕ → Bool
row_agrees n zero = exact n 0
row_agrees n (suc good) = if exact n (suc good) then row_agrees n good else false

rows_agree : ℕ → Bool
rows_agree zero = true
rows_agree (suc n) = if row_agrees (suc n) 60 then rows_agree n else false

table : rows_agree 60 ≡ true
unfolding rows_agree row_agrees success_rate
table = refl

-- What a test that goes on only after another says when it holds.
both : (b c : Bool) → (if b then c else false) ≡ true → (b ≡ true) × (c ≡ true)
both true c e = (refl, e)
both false c e = cc

in_row : (n most k : ℕ) → k ≤ most → row_agrees n most ≡ true → exact n k ≡ true
unfolding row_agrees
in_row n zero zero le e = e
in_row n zero (suc k) le e = absurd (omega arith)
in_row n (suc most) k le e = elim (Bool-cases (k == suc most)) [
  | inl last ↦
      subst (λ (j : ℕ). exact n j ≡ true) (sym ((==_iff k (suc most)).0 last)) (both _ _ e).0
  | inr before ↦ in_row n most k (ground arith) (both (exact n (suc most)) _ e).1
]

in_rows : (rows n : ℕ) → n < rows → rows_agree rows ≡ true → row_agrees (suc n) 60 ≡ true
unfolding rows_agree
in_rows zero n lt e = absurd (omega arith)
in_rows (suc rows) n lt e = elim (Bool-cases (n == rows)) [
  | inl last ↦ rw ((==_iff n rows).0 last) (both _ _ e).0
  | inr before ↦ in_rows rows n (ground arith) (both _ _ e).1
]

bool_eq-eq : (a b : Bool) → bool_eq a b ≡ true → a ≡ b
bool_eq-eq true b h = sym h
bool_eq-eq false true h = cc
bool_eq-eq false false h = refl

-- The rounding does not change the side of the threshold, for windows as long as the code keeps.
success_rate-exact :
    (k n : ℕ) → k ≤ 60 → n < 60 → ltb (success_rate k (suc n)) 950 ≡ ltb (100 * k) (95 * suc n)
success_rate-exact k n hk hn = bool_eq-eq _ _ (in_row (suc n) 60 k hk (in_rows 60 n hn table))

length-take {ℓ} : {A : Type ℓ} (n : ℕ) (xs : List A) → length (take n xs) ≤ n
length-take zero xs = omega arith
length-take (suc n) [] = omega arith
length-take (suc n) (x ∷ xs) = omega (arith, length-take n xs)

count_true-le : (bs : List Bool) → count_true bs ≤ length bs
count_true-le [] = omega arith
count_true-le (true ∷ bs) = omega (arith, count_true-le bs)
count_true-le (false ∷ bs) = omega (arith, count_true-le bs)

window_lem :
    (ok : Bool) (bs : List Bool)
    → let w = push 60 ok bs in
      ltb (success_rate (count_true w) (length w)) 950 ≡ ltb (100 * count_true w) (95 * length w)
window_lem ok bs =
    success_rate-exact (count_true (push 60 ok bs)) (length (take 59 bs))
      (omega (arith, count_true-le (push 60 ok bs), length-take 59 bs))
      (omega (arith, length-take 59 bs))

classify-lost :
    (now : ℕ) (h : CommsHealth) → is_lost (classify now h) ≡ leb 3 h.consecutive_failures
unfolding classify
classify-lost now h = elim (Bool-cases (leb 3 h.consecutive_failures)) [
  | inl many ↦ rw many refl
  | inr few ↦
      rw few (not_lost (recovers now h) (ltb h.success_tenths 950 || leb 1 h.consecutive_failures))
]
  where
    not_lost :
        (a b : Bool) → is_lost (if a then healthy else if b then degraded else healthy) ≡ false
    not_lost true b = refl
    not_lost false true = refl
    not_lost false false = refl

abbrev Agrees : CommsHealth → Type 0
Agrees h = is_lost h.state ≡ leb 3 h.consecutive_failures

step-Agrees : (x : HealthEvent) (h : CommsHealth) → Agrees h → Agrees (health_step x h)
unfolding health_step record_sample enter_state watchdog
step-Agrees (sample ok now) h e = classify-lost now (count_sample ok h)
step-Agrees (check_silence now prime_poll_ms) h e =
    elim (Bool-cases
      (is_silent now (prime_poll_ms * 3) h.last_prime_good && not (is_lost h.state))) [
        | inl silent ↦ rw silent (ground arith)
        | inr fine ↦ rw fine e
      ]
step-Agrees (prime_good now) h e = e

run_health-Agrees : (es : List HealthEvent) (h : CommsHealth) → Agrees h → Agrees (run_health es h)
unfolding run_health
run_health-Agrees [] h e = e
run_health-Agrees (x ∷ es) h e = run_health-Agrees es (health_step x h) (step-Agrees x h e)

-- Whatever happens on a link, it is lost exactly while there were three failures in a row, as the counter
-- has it; a silence that the watchdog finds counts as three.
pub run_health-lost :
    (es : List HealthEvent)
    → ((run_health es new_health).state ≡ lost)
      ↔ (3 ≤ (run_health es new_health).consecutive_failures)
run_health-lost es = ((λ e. ground (arith, agrees)), λ few. ground (arith, agrees))
  where
    agrees : Agrees (run_health es new_health)
    agrees = run_health-Agrees es new_health refl

-- The samples of the window are good enough: at least 95 of 100.
abbrev pub IsGoodWindow : List Bool → Type 0
IsGoodWindow w = 95 * length w ≤ 100 * count_true w

failing : Bool → CommsState
failing many = if many then lost else degraded

failing-ne-healthy : (many : Bool) → failing many ≢ healthy
unfolding failing
failing-ne-healthy true e = cc
failing-ne-healthy false e = cc

failed_lem :
    (many bad : Bool) (n : ℕ)
    → (if many
        then lost
        else if (leb 5 0 && ltb n 2)
        then healthy
        else if (bad || true)
        then degraded
        else healthy)
      ≡ failing many
unfolding failing
failed_lem true bad n = refl
failed_lem false true n = refl
failed_lem false false n = refl

one_more : (n : ℕ) → leb 1 (n + 1) ≡ true
one_more n = ground arith

after_failure :
    (now : ℕ) (h : CommsHealth)
    → classify now (count_sample false h) ≡ failing (leb 3 (h.consecutive_failures + 1))
unfolding classify count_sample
after_failure now h =
    rw (one_more h.consecutive_failures)
      (failed_lem (leb 3 (h.consecutive_failures + 1)) _ (recent_flaps now h.lost_episodes))

-- A link without failures, by its streak and its window.
abbrev recovered : Bool → Bool → CommsState
recovered streak bad = if streak then healthy else if bad then degraded else healthy

after_success :
    (now : ℕ) (h : CommsHealth)
    → classify now (count_sample true h)
      ≡ recovered
          (leb 5 (h.consecutive_successes + 1) && ltb (recent_flaps now h.lost_episodes) 2)
          (ltb (100 * count_true (push 60 true h.results)) (95 * length (push 60 true h.results)))
unfolding classify count_sample
after_success now h = rw (← window_lem true h.results) (ground arith)

recovered-healthy :
    (s f k n : ℕ)
    → (recovered (leb 5 s && ltb f 2) (ltb k n) ≡ healthy) ↔ ((n ≤ k) ⊎ (5 ≤ s) × (f < 2))
recovered-healthy s f k n = (there, back)
  where
    there : recovered (leb 5 s && ltb f 2) (ltb k n) ≡ healthy → (n ≤ k) ⊎ (5 ≤ s) × (f < 2)
    there e = ground arith

    back : (n ≤ k) ⊎ (5 ≤ s) × (f < 2) → recovered (leb 5 s && ltb f 2) (ltb k n) ≡ healthy
    back (inl good) = ground arith
    back (inr streak) = ground arith

-- After a sample the link is healthy exactly if the sample is good and either the window, exactly and not
-- as it is rounded, is good enough, or it is the fifth good sample in a row at least and the link was
-- lost less than twice in the last 120 s.
pub record_sample-healthy :
    (ok : Bool) (now : ℕ) (h : CommsHealth)
    → ((record_sample ok now h).state ≡ healthy) ↔ (
        (ok ≡ true)
        × (IsGoodWindow (push 60 ok h.results)
            ⊎ (5 ≤ h.consecutive_successes + 1) × (recent_flaps now h.lost_episodes < 2)))
unfolding record_sample enter_state
record_sample-healthy false now h =
    (λ e. absurd (failing-ne-healthy _ (sym (after_failure now h) ∙ e)), λ p. cc (p.0))
record_sample-healthy true now h =
    let r =
      recovered-healthy (h.consecutive_successes + 1) (recent_flaps now h.lost_episodes)
        (100 * count_true (push 60 true h.results)) (95 * length (push 60 true h.results)) in
    (λ e. (refl, r.0 (sym (after_success now h) ∙ e)), λ p. after_success now h ∙ r.1 p.1)

-- A silence that the watchdog finds does not outlast the next good sample: where the window is good
-- enough, one sample makes the link healthy again, with no streak and however often it was lost.
pub watchdog-record_sample :
    (now prime_poll_ms later : ℕ) (h : CommsHealth)
    → is_silent now (prime_poll_ms * 3) h.last_prime_good ≡ true
    → is_lost h.state ≡ false
    → IsGoodWindow (push 60 true h.results)
    → let h' = watchdog now prime_poll_ms h in
      (h'.state ≡ lost) × ((record_sample true later h').state ≡ healthy)
unfolding watchdog
watchdog-record_sample now prime_poll_ms later h silent up good =
    let down = record h {
      consecutive_successes = 0;
      consecutive_failures = max h.consecutive_failures 3;
      state = lost;
      lost_episodes = push 32 now h.lost_episodes;
    } in
    rw (silent, up) (refl, (record_sample-healthy true later down).1 (refl, inl good))
