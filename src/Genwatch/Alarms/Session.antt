-- ===== src/Genwatch/Alarms/Session.antt =====
-- What the loops of a poll do to one code (`StateMachine.update` of
-- GenWatch-main/backend/genwatch/services/state.py).
pub mod Rows
use complete_gen_project.Base.{
  ℕ, ◌≡◌, ◌∙◌, refl, sym, ap, Bool, true, false, Bool-cases, inl, inr, ◌==◌, ◌||◌, ◌&&◌,
  if◌then◌else◌, List, [], ◌∷◌, keep, arith,
}
use complete_gen_project.Genwatch.Alarms.{
  AlarmBit, AlarmState, has_code, is_member, add_member, set_row, raise_alarm, raise_loop,
  clear_alarm, clear_loop,
}

equal : (d c : ℕ) → (d == c) ≡ true → d ≡ c
equal d c h = ground arith

module _ (c : ℕ) where
  pub is_member-keep :
      (p : ℕ → Bool) (xs : List ℕ) → is_member c (keep p xs) ≡ (p c && is_member c xs)
  is_member-keep p [] = ground arith
  is_member-keep p (x ∷ xs) = elim (Bool-cases (x == c)) [
    | inl same ↦ ground (arith, is_member-keep p xs, ap p (equal x c same))
    | inr other ↦ ground (arith, is_member-keep p xs)
  ]

  pub has_code-keep :
      (p : AlarmBit → Bool) (abs : List AlarmBit)
      → has_code c (keep p abs) ≡ true
      → has_code c abs ≡ true
  has_code-keep p [] h = h
  has_code-keep p (ab ∷ abs) h = ground (arith, has_code-keep p abs)

  is_member-add :
      (d : ℕ) (cs : List ℕ) → is_member c (add_member d cs) ≡ ((d == c) || is_member c cs)
  is_member-add d cs = elim (Bool-cases (d == c)) [
    | inl same ↦ ground (arith, ap (λ (e : ℕ). is_member e cs) (equal d c same))
    | inr other ↦ ground arith
  ]

  -- The raise loop keeps members and rows, and covers what it goes over.
  pub raise-member :
      (displayed : ℕ → Bool) (abs : List AlarmBit) (s : AlarmState)
      → is_member c s.session ≡ true
      → is_member c (raise_loop displayed abs s).session ≡ true
  unfolding raise_loop raise_alarm
  raise-member displayed [] s h = h
  raise-member displayed (ab ∷ abs) s h =
      raise-member displayed abs _ (ground (arith, is_member-add ab.code s.session))

  pub raise-covers :
      (displayed : ℕ → Bool) (abs : List AlarmBit) (s : AlarmState)
      → (displayed c ≡ true → is_member c s.session ≡ true)
      → has_code c abs ≡ true
      → is_member c (raise_loop displayed abs s).session ≡ true
  unfolding raise_loop raise_alarm
  raise-covers displayed [] s h k = cc
  raise-covers displayed (ab ∷ abs) s h k = elim (Bool-cases (ab.code == c)) [
    | inl same ↦
        raise-member displayed abs _
          (ground (arith, is_member-add ab.code s.session, ap displayed (equal ab.code c same), h))
    | inr other ↦
        raise-covers displayed abs _ (λ m. ground (arith, is_member-add ab.code s.session, h))
          (ground arith)
  ]

  pub raise-backed :
      (displayed : ℕ → Bool) (abs : List AlarmBit) (s : AlarmState)
      → (is_member c s.session ≡ true → s.rows c ≡ true)
      → is_member c (raise_loop displayed abs s).session ≡ true
      → (raise_loop displayed abs s).rows c ≡ true
  unfolding raise_loop raise_alarm
  raise-backed displayed [] s h k = h k
  raise-backed displayed (ab ∷ abs) s h k =
      raise-backed displayed abs _ (λ m. ground (arith, is_member-add ab.code s.session)) k

  pub raise-other :
      (displayed : ℕ → Bool) (abs : List AlarmBit) (s : AlarmState)
      → has_code c abs ≡ false
      → ((raise_loop displayed abs s).rows c ≡ s.rows c)
        × (is_member c (raise_loop displayed abs s).session ≡ is_member c s.session)
  unfolding raise_loop raise_alarm
  raise-other displayed [] s h = (refl, refl)
  raise-other displayed (ab ∷ abs) s h =
      let (row, member) = raise-other displayed abs _ (ground arith) in
      (row ∙ ground arith, member ∙ ground (arith, is_member-add ab.code s.session))

  -- The clear loop touches the row of a code only if its bit is low, and then drops it.
  pub clear-active :
      (active : List AlarmBit) (cs : List ℕ) (s : AlarmState)
      → has_code c active ≡ true
      → (clear_loop active cs s).rows c ≡ s.rows c
  unfolding clear_loop clear_alarm
  clear-active active [] s h = refl
  clear-active active (d ∷ cs) s h = clear-active active cs _ h ∙ elim (Bool-cases (d == c)) [
    | inl same ↦ ground (arith, ap (λ (e : ℕ). has_code e active) (equal d c same))
    | inr other ↦ ground arith
  ]

  clear-false :
      (active : List AlarmBit) (cs : List ℕ) (s : AlarmState)
      → s.rows c ≡ false
      → (clear_loop active cs s).rows c ≡ false
  unfolding clear_loop clear_alarm
  clear-false active [] s h = h
  clear-false active (d ∷ cs) s h = clear-false active cs _ (ground arith)

  pub clear-member :
      (active : List AlarmBit) (cs : List ℕ) (s : AlarmState)
      → is_member c cs ≡ true
      → has_code c active ≡ false
      → (clear_loop active cs s).rows c ≡ false
  unfolding clear_loop clear_alarm
  clear-member active [] s h k = cc
  clear-member active (d ∷ cs) s h k = elim (Bool-cases (d == c)) [
    | inl same ↦
        clear-false active cs _ (ground (arith, ap (λ (e : ℕ). has_code e active) (equal d c same)))
    | inr other ↦ clear-member active cs _ (ground arith) k
  ]

  pub clear-other :
      (active : List AlarmBit) (cs : List ℕ) (s : AlarmState)
      → is_member c cs ≡ false
      → (clear_loop active cs s).rows c ≡ s.rows c
  unfolding clear_loop clear_alarm
  clear-other active [] s h = refl
  clear-other active (d ∷ cs) s h = clear-other active cs _ (ground arith) ∙ ground arith
