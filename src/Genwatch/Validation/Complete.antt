-- ===== src/Genwatch/Validation/Complete.antt =====
-- A sound map has a report without errors (`validate_register_map` of
-- GenWatch-main/backend/genwatch/modbus/registers.py).
use complete_gen_project.Base.{
  ℕ, length, zero, suc, ◌+◌, ◌≡◌, ◌≢◌, ◌≤◌, ◌<◌, ◌↔◌, inl, inr, ◌∙◌, refl, Bool, true, false, none,
  List, [], ◌∷◌, ◌++◌, ◌==◌, ◌||◌, ◌&&◌, not, arith, All, leb, le→leb,
}
use complete_gen_project.Genwatch.Registers.{words_of}
use complete_gen_project.Genwatch.Validation.{
  MapRegister, MapRule, ControlDef, write_values, RegisterMap, MapError, Occupied, occupy, unless,
  contains, check_words, check_registers, register_errors, check_references, check_masked,
  check_controls, validate_register_map, is_read_fc, is_mask, is_write_fc, is_empty,
}
use complete_gen_project.Genwatch.Validation.Words.{occupied-other}
use complete_gen_project.Genwatch.Validation.Sound.{Apart, AllApart, IsValidRegister}
use complete_gen_project.Genwatch.Validation.Report.{
  names_of, all_names-names_of, IsKnown, IsMasked, IsValidControl, AllNamed, IsSoundMap,
  clean-IsSoundMap, all_names,
}

append-nil : (xs ys : List MapError) → xs ≡ [] → ys ≡ [] → xs ++ ys ≡ []
append-nil xs ys e f = rw e f

unless-true : (b : Bool) (e : MapError) → b ≡ true → unless b e ≡ []
unless-true b e h = rw h refl

All-zip :
    {A : Type 0} {P Q R : A → Type 0}
    → ((x : A) → P x → Q x → R x)
    → (xs : List A) → All P xs
    → All Q xs
    → All R xs
All-zip f [] p q = tt
All-zip f (x ∷ xs) p q = (f x p.0 q.0, All-zip f xs p.1 q.1)

check_words-free :
    (k w n : ℕ) (occ : Occupied)
    → ((v : ℕ) → w ≤ v → v < w + k → occ v ≡ none)
    → (check_words k w n occ).0 ≡ []
unfolding check_words
check_words-free zero w n occ free = refl
check_words-free (suc k) w n occ free =
    let here : occ w ≡ none = free w (omega arith) (omega arith) in
    rw here (
      check_words-free k (w + 1) n (occupy w n occ)
        (λ v lo hi. let e = free v (omega arith) (omega arith) in ground arith))

-- The name and the words of a register are not in use.
abbrev Unused : List ℕ → Occupied → MapRegister → Type 0
Unused names occ r =
    (contains r.name names ≡ false)
    × ((v : ℕ) → r.reg.addr ≤ v → v < r.reg.addr + words_of r.reg → occ v ≡ none)

register_clean :
    (names : List ℕ) (r : MapRegister)
    → contains r.name names ≡ false
    → IsValidRegister r
    → register_errors names r ≡ []
register_clean names r new (fc, tier, range) =
    append-nil _ _
      (append-nil _ _
        (append-nil _ _ (unless-true (not (contains r.name names)) _ (rw new refl))
          (unless-true (is_read_fc r.fc) _ (ground arith)))
        (unless-true r.has_tier _ tier))
      (unless-true (leb r.reg.addr 65535) _ (le→leb r.reg.addr 65535 range))

stays_unoccupied :
    (names : List ℕ) (occ : Occupied) (r s : MapRegister)
    → Unused names occ s
    → Apart r s
    → Unused (r.name ∷ names) (check_words (words_of r.reg) r.reg.addr r.name occ).1 s
stays_unoccupied names occ r s (new, free) (ne, apart) = (
  ground arith,
  λ v lo hi.
      occupied-other (words_of r.reg) r.reg.addr r.name occ v
        (elim apart [ inl before ↦ inr (omega arith) | inr behind ↦ inl (omega arith) ])
      ∙ free v lo hi,
)

registers_clean :
    (rs : List MapRegister) (names : List ℕ) (occ : Occupied)
    → All (Unused names occ) rs
    → AllApart rs
    → All IsValidRegister rs
    → (check_registers rs names occ).0 ≡ []
unfolding check_registers
registers_clean [] names occ unused apart valid = refl
registers_clean (r ∷ rs) names occ unused apart valid =
    append-nil _ _
      (append-nil _ _ (register_clean names r unused.0.0 valid.0)
        (check_words-free (words_of r.reg) r.reg.addr r.name occ unused.0.1))
      (registers_clean rs (r.name ∷ names) _
        (All-zip (stays_unoccupied names occ r) rs unused.1 apart.0) apart.1 valid.1)

start_unoccupied : (rs : List MapRegister) → All (Unused [] (λ _. none)) rs
start_unoccupied [] = tt
start_unoccupied (r ∷ rs) = ((refl, λ v lo hi. refl), start_unoccupied rs)

module _ (rs : List MapRegister) where
  known_name : (rule : MapRule) → IsKnown rs rule → contains rule.register (all_names rs) ≡ true
  known_name rule h = all_names-names_of rs rule.register ∙ h

  references_clean :
      (rules : List MapRule) → All (IsKnown rs) rules → check_references (all_names rs) rules ≡ []
  unfolding check_references
  references_clean [] h = refl
  references_clean (rule ∷ rules) h =
      append-nil _ _ (unless-true _ _ (known_name rule h.0)) (references_clean rules h.1)

  masked_clean :
      (rules : List MapRule)
      → All (λ rule. IsKnown rs rule × IsMasked rule) rules
      → check_masked (all_names rs) rules ≡ []
  unfolding check_masked
  masked_clean [] h = refl
  masked_clean (rule ∷ rules) ((known, masked), h) =
      append-nil _ _
        (append-nil _ _ (unless-true _ _ (known_name rule known))
          (unless-true (is_mask rule.mask) _ (ground arith)))
        (masked_clean rules h)

-- The controls are named apart from those seen.
abbrev Unseen : List ℕ → ControlDef → Type 0
Unseen seen c = contains c.name seen ≡ false

one_value_test :
    (c : ControlDef)
    → (c.fc ≡ 6 → length (write_values c) ≡ 1)
    → (not (c.fc == 6) || length (write_values c) == 1) ≡ true
one_value_test c h = ground arith

controls_clean :
    (rs : List MapRegister) (cs : List ControlDef) (seen : List ℕ)
    → All (Unseen seen) cs
    → AllNamed (names_of rs) cs
    → All IsValidControl cs
    → check_controls (all_names rs) cs seen ≡ []
unfolding check_controls
controls_clean rs [] seen unseen named valid = refl
controls_clean rs (c ∷ cs) seen (unseen, unseens) (new, others, named)
      ((fc, range, values), valid) =
    let here : contains c.name (all_names rs) ≡ false = all_names-names_of rs c.name ∙ new in
    append-nil _ _
      (append-nil _ _
        (append-nil _ _
          (append-nil _ _
            (unless-true (not (contains c.name seen || contains c.name (all_names rs))) _
              (rw (unseen, here) refl))
            (unless-true (is_write_fc c.fc) _ (ground arith)))
          (unless-true (leb c.addr 65535) _ (le→leb c.addr 65535 range)))
        (unless-true (not (c.fc == 6) || length (write_values c) == 1) _ (one_value_test c values)))
      (controls_clean rs cs (c.name ∷ seen)
        (All-zip (λ (d : ControlDef) (e : Unseen seen d) (ne : c.name ≢ d.name). ground arith) cs
          unseens others)
        named valid)

nothing_seen : (cs : List ControlDef) → All (Unseen []) cs
nothing_seen [] = tt
nothing_seen (c ∷ cs) = (refl, nothing_seen cs)

sound-clean : (rm : RegisterMap) → IsSoundMap rm → validate_register_map rm ≡ []
unfolding validate_register_map
sound-clean rm (slave, fc, apart, valid, states, alarms, modes, controls, named, some_register) =
    append-nil _ _
      (append-nil _ _
        (append-nil _ _
          (append-nil _ _
            (append-nil _ _
              (append-nil _ _
                (append-nil _ _ (unless-true (leb 1 rm.slave && leb rm.slave 247) _ (ground arith))
                  (unless-true (is_read_fc rm.read_fc) _ (ground arith)))
                (registers_clean rm.registers [] (λ _. none) (start_unoccupied rm.registers) apart
                  valid))
              (references_clean rm.registers rm.engine_state_bits states))
            (masked_clean rm.registers rm.alarm_bits alarms))
          (masked_clean rm.registers rm.panel_mode_bits modes))
        (controls_clean rm.registers rm.controls [] (nothing_seen rm.controls) named controls))
      (unless-true (not (is_empty rm.registers)) _ (rw some_register refl))

-- The report on a register map has no error exactly when the map is sound: it has a register, the slave
-- is in 1 to 247, the function codes are those that read and write registers, all addresses have 16
-- bits, the tiers are known, the registers have different names and no two of them have a word in
-- common, the rules name registers of the map, the masks of the alarms and panel modes are not empty and
-- have 16 bits, the controls have different names that no register has, and a control with code 6 writes
-- exactly one value.
pub validate_register_map-IsSoundMap :
    (rm : RegisterMap) → (validate_register_map rm ≡ []) ↔ IsSoundMap rm
validate_register_map-IsSoundMap rm = (clean-IsSoundMap rm, sound-clean rm)
