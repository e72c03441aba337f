-- ===== src/Genwatch/Validation/Sound.antt =====
-- What a report without errors guarantees (`validate_register_map` of
-- GenWatch-main/backend/genwatch/modbus/registers.py).
use complete_gen_project.Base.{
  ℕ, ◌+◌, ◌≡◌, ◌≢◌, ◌≤◌, ◌<◌, ◌⊎◌, inl, inr, ◌∙◌, refl, ap, Bool, true, false, some, List, [], ◌∷◌,
  ◌++◌, not, arith, All, leb, leb→le,
}
use complete_gen_project.Genwatch.Registers.{words_of}
use complete_gen_project.Genwatch.Validation.{
  MapRegister, MapError, Occupied, unless, contains, check_words, register_errors, check_registers,
  is_read_fc,
}
use complete_gen_project.Genwatch.Validation.Words.{
  append-nil_split, occupied-in, occupied-other, clean-IsFree, apart_lem,
}

-- Two registers with different names and no word in common.
abbrev pub Apart : MapRegister → MapRegister → Type 0
Apart p r =
    (p.name ≢ r.name)
    × ((p.reg.addr + words_of p.reg ≤ r.reg.addr) ⊎ (r.reg.addr + words_of r.reg ≤ p.reg.addr))

abbrev pub AllApart : List MapRegister → Type 0
AllApart [] = Unit
AllApart (r ∷ rs) = All (Apart r) rs × AllApart rs

abbrev pub IsValidRegister : MapRegister → Type 0
IsValidRegister r = ((r.fc ≡ 3) ⊎ (r.fc ≡ 4)) × (r.has_tier ≡ true) × (r.reg.addr ≤ 65535)

pub unless-nil : (b : Bool) (e : MapError) → unless b e ≡ [] → b ≡ true
unless-nil true e h = refl
unless-nil false e h = cc

words_lem : (r : MapRegister) → (1 ≤ words_of r.reg) × (words_of r.reg ≤ 2)
words_lem r = ground arith

-- The words of a register that was read before carry its name, and its name was seen.
abbrev Held : List ℕ → Occupied → MapRegister → Type 0
Held names occ p =
    (contains p.name names ≡ true)
    × ((v : ℕ) → p.reg.addr ≤ v → v < p.reg.addr + words_of p.reg → occ v ≡ some p.name)

module _ (names : List ℕ) (occ : Occupied) (r : MapRegister) where
  abbrev occ' : Occupied
  occ' = (check_words (words_of r.reg) r.reg.addr r.name occ).1

  module _
      (errors : register_errors names r ++ (check_words (words_of r.reg) r.reg.addr r.name occ).0
        ≡ []) where
    parts :
        (contains r.name names ≡ false)
        × IsValidRegister r
        × ((check_words (words_of r.reg) r.reg.addr r.name occ).0 ≡ [])
    parts =
        let (own, overlaps) = append-nil_split (register_errors names r) _ errors in
        let (most, range) = append-nil_split _ _ own in
        let (some_own, tier) = append-nil_split _ _ most in
        let (fresh, fc) = append-nil_split _ _ some_own in
        (
          ground (arith, unless-nil (not (contains r.name names)) _ fresh),
          (
            ground (arith, unless-nil (is_read_fc r.fc) _ fc),
            unless-nil r.has_tier _ tier,
            leb→le r.reg.addr 65535 (unless-nil (leb r.reg.addr 65535) _ range),
          ),
          overlaps,
        )

    Held-Apart : (p : MapRegister) → Held names occ p → Apart p r
    Held-Apart p h =
        let (fresh, valid, clean) = parts in
        let ne : p.name ≢ r.name = λ e. ground (arith, ap (λ (n : ℕ). contains n names) e) in
        (
          ne,
          apart_lem occ p.name r.name p.reg.addr (words_of p.reg) r.reg.addr (words_of r.reg) ne
              (words_lem p).0 (words_lem r).0 h.1
              (clean-IsFree (words_of r.reg) r.reg.addr r.name occ clean),
        )

    carried_over : (p : MapRegister) → Held names occ p → Held (r.name ∷ names) occ' p
    carried_over p h = (
      ground arith,
      λ v lo hi.
          occupied-other (words_of r.reg) r.reg.addr r.name occ v (elim (Held-Apart p h).1 [
            | inl before ↦ inl (omega arith)
            | inr behind ↦ inr (omega arith)
          ])
          ∙ h.1 v lo hi,
    )

    carried_first : Held (r.name ∷ names) occ' r
    carried_first = (ground arith, occupied-in (words_of r.reg) r.reg.addr r.name occ)

All-map :
    {P Q : MapRegister → Type 0}
    → ((r : MapRegister) → P r → Q r)
    → (rs : List MapRegister) → All P rs
    → All Q rs
All-map f [] h = tt
All-map f (r ∷ rs) h = (f r h.0, All-map f rs h.1)

pub registers_lem :
    (rs prev : List MapRegister) (names : List ℕ) (occ : Occupied)
    → All (Held names occ) prev
    → (check_registers rs names occ).0 ≡ []
    → All (λ r. All (λ p. Apart p r) prev) rs × AllApart rs × All IsValidRegister rs
unfolding check_registers
registers_lem [] prev names occ held h = (tt, tt, tt)
registers_lem (r ∷ rs) prev names occ held h =
    let (mine, later) = append-nil_split _ _ h in
    let (apart, disjoint, valid) =
      registers_lem rs (r ∷ prev) (r.name ∷ names) _
        (carried_first names occ r mine, All-map (carried_over names occ r mine) prev held) later in
    (
      (All-map (Held-Apart names occ r mine) prev held, All-map (λ s a. a.1) rs apart),
      (All-map (λ s a. a.0) rs apart, disjoint),
      ((parts names occ r mine).1, valid),
    )
