-- ===== src/Genwatch/Validation/Report.antt =====
-- The report on a whole register map (`validate_register_map` of
-- GenWatch-main/backend/genwatch/modbus/registers.py).
use complete_gen_project.Base.{
  ℕ, length, ◌≡◌, ◌≢◌, ◌≤◌, ◌<◌, ◌⊎◌, ◌∙◌, sym, refl, Bool, true, false, none, List, [], ◌∷◌, ◌==◌,
  ◌||◌, ◌&&◌, not, arith, All, leb, leb→le,
}
use complete_gen_project.Genwatch.Registers.{words_of}
use complete_gen_project.Genwatch.Validation.{
  MapRegister, MapRule, ControlDef, write_values, RegisterMap, Occupied, contains, check_words,
  check_registers, check_references, check_masked, check_controls, validate_register_map,
  is_read_fc, is_mask, is_write_fc, is_empty,
}
use complete_gen_project.Genwatch.Validation.Words.{append-nil_split}
use complete_gen_project.Genwatch.Validation.Sound.{
  AllApart, IsValidRegister, unless-nil, registers_lem,
}

abbrev pub names_of : List MapRegister → List ℕ
names_of [] = []
names_of (r ∷ rs) = r.name ∷ names_of rs

-- The rule names a register of the map.
abbrev pub IsKnown : List MapRegister → MapRule → Type 0
IsKnown rs rule = contains rule.register (names_of rs) ≡ true

abbrev pub IsMasked : MapRule → Type 0
IsMasked rule = (0 < rule.mask) × (rule.mask ≤ 65535)

abbrev pub IsValidControl : ControlDef → Type 0
IsValidControl c =
    ((c.fc ≡ 6) ⊎ (c.fc ≡ 16)) × (c.addr ≤ 65535) × (c.fc ≡ 6 → length (write_values c) ≡ 1)

-- Controls with different names, none of them among the names given.
abbrev pub AllNamed : List ℕ → List ControlDef → Type 0
AllNamed taken [] = Unit
AllNamed taken (c ∷ cs) =
    (contains c.name taken ≡ false)
    × All (λ (d : ControlDef). c.name ≢ d.name) cs
    × AllNamed taken cs

-- The structure that the report is there to check.
abbrev pub IsSoundMap : RegisterMap → Type 0
IsSoundMap rm =
    ((1 ≤ rm.slave) × (rm.slave ≤ 247))
    × ((rm.read_fc ≡ 3) ⊎ (rm.read_fc ≡ 4))
    × AllApart rm.registers
    × All IsValidRegister rm.registers
    × All (IsKnown rm.registers) rm.engine_state_bits
    × All (λ rule. IsKnown rm.registers rule × IsMasked rule) rm.alarm_bits
    × All (λ rule. IsKnown rm.registers rule × IsMasked rule) rm.panel_mode_bits
    × All IsValidControl rm.controls
    × AllNamed (names_of rm.registers) rm.controls
    × (is_empty rm.registers ≡ false)

or_swap : (a b c : Bool) → (a || (b || c)) ≡ ((b || a) || c)
or_swap true true c = refl
or_swap true false c = refl
or_swap false true c = refl
or_swap false false c = refl

contains-names :
    (n : ℕ) (rs : List MapRegister) (names : List ℕ) (occ : Occupied)
    → contains n (check_registers rs names occ).1 ≡ (contains n (names_of rs) || contains n names)
unfolding check_registers
contains-names n [] names occ = refl
contains-names n (r ∷ rs) names occ =
    contains-names n rs (r.name ∷ names) (check_words (words_of r.reg) r.reg.addr r.name occ).1
    ∙ or_swap (contains n (names_of rs)) (r.name == n) (contains n names)

or_false : (b : Bool) → (b || false) ≡ b
or_false true = refl
or_false false = refl

module _ (rs : List MapRegister) where
  abbrev pub all_names : List ℕ
  all_names = (check_registers rs [] (λ _. none)).1

  pub all_names-names_of : (n : ℕ) → contains n all_names ≡ contains n (names_of rs)
  all_names-names_of n = contains-names n rs [] (λ _. none) ∙ or_false (contains n (names_of rs))

  known : (rule : MapRule) → contains rule.register all_names ≡ true → IsKnown rs rule
  known rule h = sym (all_names-names_of rule.register) ∙ h

  references_lem :
      (rules : List MapRule) → check_references all_names rules ≡ [] → All (IsKnown rs) rules
  unfolding check_references
  references_lem [] h = tt
  references_lem (rule ∷ rules) h =
      let (here, later) = append-nil_split _ _ h in
      (known rule (unless-nil _ _ here), references_lem rules later)

  masked_lem :
      (rules : List MapRule)
      → check_masked all_names rules ≡ []
      → All (λ rule. IsKnown rs rule × IsMasked rule) rules
  unfolding check_masked
  masked_lem [] h = tt
  masked_lem (rule ∷ rules) h =
      let (here, later) = append-nil_split _ _ h in
      let (name, mask) = append-nil_split _ _ here in
      (
        (known rule (unless-nil _ _ name), ground (arith, unless-nil (is_mask rule.mask) _ mask)),
        masked_lem rules later,
      )

write_fc : (c : ControlDef) → is_write_fc c.fc ≡ true → (c.fc ≡ 6) ⊎ (c.fc ≡ 16)
write_fc c h = ground arith

in_range :
    (rm : RegisterMap)
    → (leb 1 rm.slave && leb rm.slave 247) ≡ true
    → (1 ≤ rm.slave) × (rm.slave ≤ 247)
in_range rm h = ground arith

read_fc_lem : (fc : ℕ) → is_read_fc fc ≡ true → (fc ≡ 3) ⊎ (fc ≡ 4)
read_fc_lem fc h = ground arith

one_value :
    (c : ControlDef)
    → (not (c.fc == 6) || length (write_values c) == 1) ≡ true
    → c.fc ≡ 6
    → length (write_values c) ≡ 1
one_value c h e = ground arith

controls_lem :
    (taken : List ℕ) (cs : List ControlDef) (seen : List ℕ)
    → check_controls taken cs seen ≡ []
    → All IsValidControl cs
unfolding check_controls
controls_lem taken [] seen h = tt
controls_lem taken (c ∷ cs) seen h =
    let (here, later) = append-nil_split _ _ h in
    let (most, values) = append-nil_split _ _ here in
    let (front, range) = append-nil_split _ _ most in
    let (fresh, fc) = append-nil_split _ _ front in
    (
      (
        write_fc c (unless-nil _ _ fc),
        leb→le c.addr 65535 (unless-nil _ _ range),
        one_value c (unless-nil _ _ values),
      ),
      controls_lem taken cs (c.name ∷ seen) later,
    )

new_name : (a b : Bool) → not (a || b) ≡ true → (a ≡ false) × (b ≡ false)
new_name false false h = (refl, refl)
new_name false true h = cc
new_name true b h = cc

other_name :
    (n m : ℕ) (seen : List ℕ) → contains m (n ∷ seen) ≡ false → (n ≢ m) × (contains m seen ≡ false)
other_name n m seen h = ground arith

-- Controls whose names are not among those seen.
abbrev AllUnseen : List ℕ → List ControlDef → Type 0
AllUnseen seen cs = All (λ (d : ControlDef). contains d.name seen ≡ false) cs

split_unseen :
    (n : ℕ) (seen : List ℕ) (cs : List ControlDef)
    → AllUnseen (n ∷ seen) cs
    → All (λ (d : ControlDef). n ≢ d.name) cs × AllUnseen seen cs
split_unseen n seen [] h = (tt, tt)
split_unseen n seen (d ∷ cs) h =
    let (ne, new) = other_name n d.name seen h.0 in
    let (nes, news) = split_unseen n seen cs h.1 in ((ne, nes), (new, news))

named_lem :
    (taken : List ℕ) (cs : List ControlDef) (seen : List ℕ)
    → check_controls taken cs seen ≡ []
    → AllUnseen seen cs × AllNamed taken cs
unfolding check_controls
named_lem taken [] seen h = (tt, tt)
named_lem taken (c ∷ cs) seen h =
    let (here, later) = append-nil_split _ _ h in
    let (most, _) = append-nil_split _ _ here in
    let (front, _) = append-nil_split _ _ most in
    let (fresh, _) = append-nil_split _ _ front in
    let (unseen, new) =
      new_name (contains c.name seen) (contains c.name taken) (unless-nil _ _ fresh) in
    let (unseens, named) = named_lem taken cs (c.name ∷ seen) later in
    let (others, rest) = split_unseen c.name seen cs unseens in
    ((unseen, rest), (new, others, named))

AllNamed-all_names :
    (rs : List MapRegister) (cs : List ControlDef)
    → AllNamed (all_names rs) cs
    → AllNamed (names_of rs) cs
AllNamed-all_names rs [] h = tt
AllNamed-all_names rs (c ∷ cs) h =
    (sym (all_names-names_of rs c.name) ∙ h.0, h.1, AllNamed-all_names rs cs h.2)

not_empty : (b : Bool) → not b ≡ true → b ≡ false
not_empty true h = cc
not_empty false h = refl

pub clean-IsSoundMap : (rm : RegisterMap) → validate_register_map rm ≡ [] → IsSoundMap rm
unfolding validate_register_map
clean-IsSoundMap rm h =
    let (a, some_register) = append-nil_split _ _ h in
    let (b, controls) = append-nil_split _ _ a in
    let (c, modes) = append-nil_split _ _ b in
    let (d, alarms) = append-nil_split _ _ c in
    let (e, states) = append-nil_split _ _ d in
    let (f, registers) = append-nil_split _ _ e in
    let (slave, fc) = append-nil_split _ _ f in
    let (_, apart, valid) = registers_lem rm.registers [] [] (λ _. none) tt registers in
    (
      in_range rm (unless-nil _ _ slave),
      read_fc_lem rm.read_fc (unless-nil _ _ fc),
      apart,
      valid,
      references_lem rm.registers rm.engine_state_bits states,
      masked_lem rm.registers rm.alarm_bits alarms,
      masked_lem rm.registers rm.panel_mode_bits modes,
      controls_lem _ rm.controls [] controls,
      AllNamed-all_names rm.registers rm.controls (named_lem _ rm.controls [] controls).1,
      not_empty (is_empty rm.registers) (unless-nil _ _ some_register),
    )
