-- ===== src/Genwatch/Registers/Batches.antt =====
-- The grouping of reads (`batch_reads` of GenWatch-main/backend/genwatch/modbus/registers.py).
use complete_gen_project.Base.{
  ℕ, ◌+◌, ◌-◌, ◌≡◌, ◌≤◌, ◌⊎◌, inl, inr, refl, sym, subst, true, false, Bool-cases, List, [], ◌∷◌,
  All, arith, leb, leb→le, max, length,
}
use complete_gen_project.Genwatch.Registers.{
  RegisterDef, words_of, insert_reg, sort_regs, batch_loop, start_batches, batch_reads, joins,
}

-- Some batch of the list holds every word of the register.
abbrev pub IsRead : List (ℕ × ℕ) → RegisterDef → Type 0
IsRead [] r = ⊥
IsRead ((start, count) ∷ bs) r =
    (start ≤ r.addr) × (r.addr + words_of r ≤ start + count) ⊎ IsRead bs r

-- In the order of the addresses.
abbrev InOrder : List RegisterDef → Type 0
InOrder [] = Unit
InOrder (r ∷ rs) = All (λ x. r.addr ≤ x.addr) rs × InOrder rs

module _ (P : RegisterDef → Type 0) where
  All-insert : (r : RegisterDef) (xs : List RegisterDef) → P r → All P xs → All P (insert_reg r xs)
  All-insert r [] p ps = (p, tt)
  All-insert r (x ∷ xs) p ps = elim (Bool-cases (leb r.addr x.addr)) [
    | inl e ↦ rw e (p, ps)
    | inr e ↦ rw e (ps.0, All-insert r xs p ps.1)
  ]

  All-insert_split :
      (r : RegisterDef) (xs : List RegisterDef) → All P (insert_reg r xs) → P r × All P xs
  All-insert_split r [] h = h
  All-insert_split r (x ∷ xs) h = elim (Bool-cases (leb r.addr x.addr)) [
    | inl e ↦ rw e at h
    | inr e ↦
        let (px, rest) = rw e at h in let (pr, pxs) = All-insert_split r xs rest in (pr, (px, pxs))
  ]

  All-sort_split : (xs : List RegisterDef) → All P (sort_regs xs) → All P xs
  All-sort_split [] h = tt
  All-sort_split (x ∷ xs) h =
      let (px, rest) = All-insert_split x (sort_regs xs) h in (px, All-sort_split xs rest)

All-weaken :
    {P Q : RegisterDef → Type 0}
    → ((r : RegisterDef) → P r → Q r)
    → (xs : List RegisterDef) → All P xs
    → All Q xs
All-weaken f [] h = tt
All-weaken f (x ∷ xs) h = (f x h.0, All-weaken f xs h.1)

insert-InOrder : (r : RegisterDef) (xs : List RegisterDef) → InOrder xs → InOrder (insert_reg r xs)
insert-InOrder r [] h = (tt, tt)
insert-InOrder r (x ∷ xs) h = elim (Bool-cases (leb r.addr x.addr)) [
  | inl e ↦ rw e (
    (leb→le r.addr x.addr e, All-weaken (λ y le. omega (arith, leb→le r.addr x.addr e)) xs h.0),
    h,
  )
  | inr e ↦
      rw e (All-insert (λ y. x.addr ≤ y.addr) r xs (ground arith) h.0, insert-InOrder r xs h.1)
]

sort-InOrder : (xs : List RegisterDef) → InOrder (sort_regs xs)
sort-InOrder [] = tt
sort-InOrder (x ∷ xs) = insert-InOrder x (sort_regs xs) (sort-InOrder xs)

-- The batch that is open, and those after it, hold what lies between its start and `fin` and all the
-- registers to come.
abbrev Holds : List (ℕ × ℕ) → ℕ → ℕ → Type 0
Holds bs start fin = (r : RegisterDef) → start ≤ r.addr → r.addr + words_of r ≤ fin → IsRead bs r

module _ (max_words start fin : ℕ) (r : RegisterDef) (rs : List RegisterDef) where
  batch_loop-join :
      joins max_words start fin r ≡ true
      → batch_loop max_words start fin (r ∷ rs)
        ≡ batch_loop max_words start (max fin (r.addr + words_of r)) rs
  unfolding batch_loop
  batch_loop-join e = rw (batch_loop, e)

  batch_loop-split :
      joins max_words start fin r ≡ false
      → batch_loop max_words start fin (r ∷ rs)
        ≡ (start, fin - start) ∷ batch_loop max_words r.addr (r.addr + words_of r) rs
  unfolding batch_loop
  batch_loop-split e = rw (batch_loop, e)

batch_loop-reads :
    (max_words start fin : ℕ) (rs : List RegisterDef)
    → start ≤ fin
    → All (λ r. start ≤ r.addr) rs
    → InOrder rs
    → Holds (batch_loop max_words start fin rs) start fin
      × All (IsRead (batch_loop max_words start fin rs)) rs
unfolding batch_loop
batch_loop-reads max_words start fin [] le after order = (λ r lo hi. inl (lo, omega arith), tt)
batch_loop-reads max_words start fin (r ∷ rs) le after order =
    elim (Bool-cases (joins max_words start fin r)) [
      | inl e ↦
          let (held, read) =
            batch_loop-reads max_words start (max fin (r.addr + words_of r)) rs (omega arith)
              after.1 order.1 in
          subst (λ bs. Holds bs start fin × All (IsRead bs) (r ∷ rs))
            (sym (batch_loop-join max_words start fin r rs e))
            (λ x lo hi. held x lo (omega arith), (held r after.0 (omega arith), read))
      | inr e ↦
          let (held, read) =
            batch_loop-reads max_words r.addr (r.addr + words_of r) rs (omega arith) order.0
              order.1 in
          subst (λ bs. Holds bs start fin × All (IsRead bs) (r ∷ rs))
            (sym (batch_loop-split max_words start fin r rs e))
            (
              λ x lo hi. inl (lo, omega arith),
              (inr (held r (omega arith) (omega arith)), All-weaken (λ x h. inr h) rs read),
            )
    ]

start_batches-reads :
    (max_words : ℕ) (rs : List RegisterDef)
    → InOrder rs
    → All (IsRead (start_batches max_words rs)) rs
start_batches-reads max_words [] order = tt
start_batches-reads max_words (r ∷ rs) order =
    let (held, read) =
      batch_loop-reads max_words r.addr (r.addr + words_of r) rs (omega arith) order.0 order.1 in
    (held r (omega arith) (omega arith), read)

-- Every register of the list, in whatever order it comes and however it overlaps others, has all of
-- its words in one batch.
batch_reads-IsRead :
    (regs : List RegisterDef) (max_words : ℕ) → All (IsRead (batch_reads regs max_words)) regs
unfolding batch_reads
batch_reads-IsRead regs max_words =
    All-sort_split (IsRead (batch_reads regs max_words)) regs
      (start_batches-reads max_words (sort_regs regs) (sort-InOrder regs))

-- A read that the wire takes: at least a word, at most `max_words`.
abbrev pub IsBounded : ℕ → ℕ × ℕ → Type 0
IsBounded max_words b = (1 ≤ b.1) × (b.1 ≤ max_words)

words_lem : (r : RegisterDef) → (1 ≤ words_of r) × (words_of r ≤ 2)
words_lem r = ground arith

batch_loop-bounds :
    (max_words start fin : ℕ) (rs : List RegisterDef)
    → 2 ≤ max_words
    → IsBounded max_words (start, fin - start)
    → All (IsBounded max_words) (batch_loop max_words start fin rs)
      × (length (batch_loop max_words start fin rs) ≤ length rs + 1)
unfolding batch_loop
batch_loop-bounds max_words start fin [] two b = ((b, tt), omega arith)
batch_loop-bounds max_words start fin (r ∷ rs) two b =
    elim (Bool-cases (joins max_words start fin r)) [
      | inl e ↦
          let (bounded, few) =
            batch_loop-bounds max_words start (max fin (r.addr + words_of r)) rs two
              (ground arith) in
          rw (batch_loop-join max_words start fin r rs e) (bounded, omega arith)
      | inr e ↦
          let (bounded, few) =
            batch_loop-bounds max_words r.addr (r.addr + words_of r) rs two
              (omega (arith, words_lem r)) in
          rw (batch_loop-split max_words start fin r rs e) ((b, bounded), omega arith)
    ]

start_batches-bounds :
    (max_words : ℕ) (rs : List RegisterDef)
    → 2 ≤ max_words
    → All (IsBounded max_words) (start_batches max_words rs)
      × (length (start_batches max_words rs) ≤ length rs)
start_batches-bounds max_words [] two = (tt, omega arith)
start_batches-bounds max_words (r ∷ rs) two =
    let (bounded, few) =
      batch_loop-bounds max_words r.addr (r.addr + words_of r) rs two
        (omega (arith, words_lem r)) in
    (bounded, omega arith)

length-insert : (r : RegisterDef) (xs : List RegisterDef) → length (insert_reg r xs) ≡ length xs + 1
length-insert r [] = refl
length-insert r (x ∷ xs) = ground (arith, length-insert r xs)

length-sort : (xs : List RegisterDef) → length (sort_regs xs) ≡ length xs
length-sort [] = refl
length-sort (x ∷ xs) = omega (arith, length-insert x (sort_regs xs), length-sort xs)

-- Every read asks for at least one word and at most `max_words`, if that is at least 2; and there are
-- at most as many reads as registers.
batch_reads-IsBounded :
    (regs : List RegisterDef) (max_words : ℕ)
    → 2 ≤ max_words
    → All (IsBounded max_words) (batch_reads regs max_words)
      × (length (batch_reads regs max_words) ≤ length regs)
unfolding batch_reads
batch_reads-IsBounded regs max_words two =
    let (bounded, few) = start_batches-bounds max_words (sort_regs regs) two in
    (bounded, omega (arith, length-sort regs))
