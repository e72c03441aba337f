-- ===== src/Companion/Server/Writes.antt =====
-- Which writes the server lets through, and what they come to (`validate` and `setValues` of
-- ats-pi-companion-main/src/atspi/server.py).
use complete_gen_project.Base.{
  ℕ, zero, suc, ◌+◌, ◌-◌, ◌≤◌, ◌≡◌, ◌⊎◌, ◌↔◌, refl, ap, Bool, true, false, ◌||◌, List, [], ◌∷◌,
  arith, length, inl, inr, Bool-cases,
}
use complete_gen_project.Companion.IoDriver.{DriveRequest, AtsMode, auto, manual}
use complete_gen_project.Companion.Store.Model.{RegisterStore}
use complete_gen_project.Companion.Store.Modbus.{can_write, write_register, intent_for}
use complete_gen_project.Companion.Server.{
  is_command_addr, is_coil_write, is_unsupported_write, is_holding_write, validate_writes, validate,
  set_values_from, set_values, add_intent,
}

-- The policy of the ICD: in automatic mode the four command registers, in manual mode the inhibit.
abbrev pub Writable : AtsMode → ℕ → Type 0
Writable m a = ((m ≡ auto) × (0x0100 ≤ a) × (a ≤ 0x0103)) ⊎ ((m ≡ manual) × (a ≡ 0x0101))

-- Each of the `n` addresses from `a`.
abbrev pub AllWritable : AtsMode → ℕ → ℕ → Type 0
AllWritable m zero a = Unit
AllWritable m (suc n) a = Writable m a × AllWritable m n (a + 1)

-- `t` is `s`, but for the latch of a rejected write.
abbrev pub SameButLatch : RegisterStore → RegisterStore → Type 0
SameButLatch s t =
    t ≡ record s { snap = record (s.snap) { mode_reject_active = t.snap.mode_reject_active } }

can_write-Writable :
    (a : ℕ) (s : RegisterStore)
    → (can_write a s).0 ≡ true
    → Writable s.snap.ats_mode a × ((can_write a s).1 ≡ s) × (is_command_addr a ≡ true)
unfolding can_write is_command_addr
can_write-Writable a s h = ground arith

Writable-can_write :
    (a : ℕ) (s : RegisterStore)
    → Writable s.snap.ats_mode a
    → ((can_write a s).0 ≡ true) × ((can_write a s).1 ≡ s) × (is_command_addr a ≡ true)
unfolding can_write is_command_addr
Writable-can_write a s h = ground arith

can_write-SameButLatch : (a : ℕ) (s : RegisterStore) → SameButLatch s (can_write a s).1
unfolding can_write
can_write-SameButLatch a s = ground arith

validate_writes-true :
    (n a : ℕ) (s : RegisterStore)
    → (validate_writes n a s).0 ≡ true
    → AllWritable s.snap.ats_mode n a × ((validate_writes n a s).1 ≡ s)
unfolding validate_writes
validate_writes-true zero a s h = (tt, refl)
validate_writes-true (suc n) a s h = elim (Bool-cases (can_write a s).0) [
  | inl ok ↦
      let (can, same, command) = can_write-Writable a s ok in
      let rest = validate_writes-true n (a + 1) s (rw (command, ok, same) at h) in
      ((can, rest.0), rw (command, ok, same) rest.1)
  | inr bad ↦ ground arith
]

AllWritable-validate_writes :
    (n a : ℕ) (s : RegisterStore)
    → AllWritable s.snap.ats_mode n a
    → validate_writes n a s ≡ (true, s)
unfolding validate_writes
AllWritable-validate_writes zero a s h = refl
AllWritable-validate_writes (suc n) a s h =
    let (ok, same, command) = Writable-can_write a s h.0 in
    rw (command, ok, same) (AllWritable-validate_writes n (a + 1) s h.1)

validate_writes-SameButLatch :
    (n a : ℕ) (s : RegisterStore) → SameButLatch s (validate_writes n a s).1
unfolding validate_writes
validate_writes-SameButLatch zero a s = refl
validate_writes-SameButLatch (suc n) a s = elim (Bool-cases (can_write a s).0) [
  | inl ok ↦
      let (can, same, command) = can_write-Writable a s ok in
      rw (command, ok, same) (validate_writes-SameButLatch n (a + 1) s)
  | inr bad ↦ ground (arith, can_write-SameButLatch a s)
]

-- What the table of commands makes of each value of a write, in order.
abbrev pub intents : ℕ → List ℕ → List DriveRequest
intents a [] = []
intents a (v ∷ vs) = add_intent (intent_for a v) (intents (a + 1) vs)

write_register-Writable :
    (a v : ℕ) (s : RegisterStore)
    → Writable s.snap.ats_mode a
    → ((write_register a v s).0 ≡ intent_for a v)
      × ((write_register a v s).1.snap.ats_mode ≡ s.snap.ats_mode)
unfolding write_register
write_register-Writable a v s h = ground arith

set_values_from-AllWritable :
    (vs : List ℕ) (a : ℕ) (s : RegisterStore)
    → AllWritable s.snap.ats_mode (length vs) a
    → (set_values_from a vs s).0 ≡ intents a vs
unfolding set_values_from
set_values_from-AllWritable [] a s h = refl
set_values_from-AllWritable (v ∷ vs) a s h =
    let (intent, mode) = write_register-Writable a v s h.0 in
    rw (intent, ← set_values_from-AllWritable vs (a + 1) (write_register a v s).1 (rw mode h.1))

module _ (default_validate : ℕ → ℕ → ℕ → Bool) where
  validate_holding :
      (fc a n : ℕ) (s : RegisterStore)
      → is_holding_write fc ≡ true
      → validate default_validate fc a n s ≡ validate_writes n a s
  unfolding validate
  validate_holding fc a n s h = ground arith

  -- A holding write is let through exactly if every register that it covers may be written in the
  -- present mode.
  pub validate-AllWritable :
      (fc a n : ℕ) (s : RegisterStore)
      → is_holding_write fc ≡ true
      → ((validate default_validate fc a n s).0 ≡ true) ↔ AllWritable s.snap.ats_mode n a
  validate-AllWritable fc a n s h = rw (validate_holding fc a n s h) (
    λ ok. (validate_writes-true n a s ok).0,
    λ can. ap (λ (r : Bool × RegisterStore). r.0) (AllWritable-validate_writes n a s can),
  )

  -- Validation of any request leaves the store as it was, but for the latch of a rejected write.
  pub validate-SameButLatch :
      (fc a n : ℕ) (s : RegisterStore) → SameButLatch s (validate default_validate fc a n s).1
  unfolding validate
  validate-SameButLatch fc a n s = ground (arith, validate_writes-SameButLatch n a s)

  -- A write of coils, or by FC23, is refused whatever its address, and changes nothing.
  pub validate_unsupported :
      (fc a n : ℕ) (s : RegisterStore)
      → (is_coil_write fc || is_unsupported_write fc) ≡ true
      → validate default_validate fc a n s ≡ (false, s)
  unfolding validate
  validate_unsupported fc a n s h = rw h

  -- A holding write that is let through hands over the requests that the command table gives for its
  -- values, in order, each once.
  set_values-validate :
      (fc a : ℕ) (vs : List ℕ) (s : RegisterStore)
      → is_holding_write fc ≡ true
      → (validate default_validate fc a (length vs) s).0 ≡ true
      → (set_values (a + 1) vs (validate default_validate fc a (length vs) s).1).0 ≡ intents a vs
  unfolding set_values
  set_values-validate fc a vs s h ok =
      let held = validate_holding fc a (length vs) s h in
      let (can, same) = validate_writes-true (length vs) a s (rw held at ok) in
      let back : a + 1 - 1 ≡ a = omega arith in
      rw (held, same, back) (set_values_from-AllWritable vs a s can)
