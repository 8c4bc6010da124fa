-- ===== src/Debug/Program/Ends.antt =====
-- The line-number program reads no byte outside the section, and where no length wraps around it ends.
use roe.Base.{
  ℕ, zero, suc, ◌+◌, ◌^◌, ◌≤◌, ◌<◌, ◌≡◌, ◌⊎◌, true, false, Option, none, some, length, ltb, ◌==◌,
  Bool-cases, inl, inr, arith,
}
use roe.Core.Result.{Gives, Result, ok, err, aborted}
use roe.Elf.Types.{Bytes, Endianness}
use roe.Debug.Cursor.{Cursor, continue, u8}
use roe.Debug.Cursor.Moves.{highest, IsReadable, Moved, Advanced, u8-Advanced}
use roe.Debug.Program.{
  Header, Registers, Effect, Machine, and_then, dispatch, round, step, run, running, next_machine,
}
use roe.Debug.Program.Safe.{
  Wraps, Lands, standard_opcode-Moves, special_opcode-Moves, extended_opcode-Lands,
}

-- The run has come to the end of its loop.
abbrev pub IsFinished : ℕ → Option Machine → Type 0
IsFinished unit_end none = ⊥
IsFinished unit_end (some n) = running unit_end n ≡ false

module _ (bytes : Bytes) (bound : length bytes + 1 < 2 ^ 64) (order : Endianness) (h : Header) where
  Landing : Cursor → Cursor → Type 0
  Landing = Lands bytes bound order h

  lands :
      (c : Cursor) (q : Result (Effect × Cursor))
      → Gives (λ p. Moved highest c p.1) q
      → Gives (λ p. Landing c p.1) q
  unfolding Landing
  lands c (ok (e, d)) m = (m.kept, inl m.forward)
  lands c (err e) m = absurd m
  lands c aborted m = absurd m

  dispatch-Lands :
      (opcode : ℕ) (r : Registers) (c : Cursor)
      → IsReadable highest c
      → Gives (λ p. Landing c p.1) (dispatch bytes order h opcode r c)
  unfolding dispatch Landing
  dispatch-Lands opcode r c readable = elim (Bool-cases (opcode == 0)) [
    | inl e ↦ rw e (extended_opcode-Lands bytes bound order h r c readable)
    | inr e ↦ elim (Bool-cases (ltb opcode h.opcode_base)) [
      | inl t ↦
          rw (e, t) (lands c _ (standard_opcode-Moves bytes bound order h opcode r c readable))
      | inr t ↦ rw (e, t) (lands c _ (special_opcode-Moves bytes bound order h opcode r c readable))
    ]
  ]

  -- Some length in the section leads past the last number of 64 bits.
  SomeWraps : Type 0
  SomeWraps = (c : Cursor) × IsReadable highest c × Wraps bytes bound order h c

  -- A round passes a byte, or sets the flag, or a length wraps around.
  Progress : Cursor → Cursor → Type 0
  Progress c d = Advanced c d ⊎ SomeWraps

  round-Progress :
      (r : Registers) (c : Cursor)
      → IsReadable highest c
      → Gives (λ p. Progress c p.1) (round bytes order h r c)
  unfolding round Progress SomeWraps Landing
  round-Progress r c readable =
      first (u8 bytes c) (u8-Advanced highest bytes (omega arith) (omega arith) c readable)
    where
      second :
          (d : Cursor) (q : Result (Effect × Cursor))
          → IsReadable highest d
          → Advanced c d
          → Gives (λ p. Landing d p.1) q
          → Gives (λ p. Progress c p.1) q
      second d (ok (e, x)) near (inl t) (kept, inl f) = inl (inl (omega arith))
      second d (ok (e, x)) near (inl t) (kept, inr w) = inr (d, near, w)
      second d (ok (e, x)) near (inr t) (kept, l) = inl (inr (kept t))
      second d (err e) near a l = absurd l
      second d aborted near a l = absurd l

      first :
          (q : Result (ℕ × Cursor))
          → Gives (λ p. Moved highest c p.1 × Advanced c p.1) q
          → Gives (λ p. Progress c p.1) (continue (λ opcode. dispatch bytes order h opcode r) q)
      first (ok (opcode, d)) (m, a) =
          second d (dispatch bytes order h opcode r d) m.readable a
            (dispatch-Lands opcode r d m.readable)
      first (err e) both = absurd both
      first aborted both = absurd both

  next-Progress :
      (m : Machine) (q : Result (Effect × Cursor))
      → Gives (λ p. Progress m.cursor p.1) q
      → Gives (λ n. Progress m.cursor n.cursor) (next_machine m q)
  next-Progress m (ok ((r, rows), c)) g = g
  next-Progress m (err e) g = absurd g
  next-Progress m aborted g = absurd g

  step-Progress :
      (unit_end : ℕ) (m : Machine)
      → unit_end < 2 ^ 64
      → running unit_end m ≡ true
      → Gives (λ n. Progress m.cursor n.cursor) (step bytes order h m)
  unfolding step
  step-Progress unit_end m limit go =
      next-Progress m (round bytes order h m.registers m.cursor)
        (round-Progress m.registers m.cursor (ground arith))

  then-Gives :
      (P : Machine → Type 0) (Q : Option Machine → Type 0) (q : Result Machine)
      (f : Machine → Result (Option Machine))
      → Gives P q
      → ((n : Machine) → P n → Gives Q (f n))
      → Gives Q (and_then q f)
  then-Gives P Q (ok n) f p k = k n p
  then-Gives P Q (err e) f p k = absurd p
  then-Gives P Q aborted f p k = absurd p

  -- Whatever the section, the program, the registers and the number of rounds, a run of the
  -- line-number program reads no byte outside the section. The section is shorter than 2 ^ 64 - 1 bytes,
  -- and the end of the unit is a number of 64 bits.
  pub run-Gives :
      (fuel unit_end : ℕ) (m : Machine)
      → unit_end < 2 ^ 64
      → Gives (λ _. Unit {0}) (run bytes order h fuel unit_end m)
  unfolding run
  run-Gives zero unit_end m limit = tt
  run-Gives (suc fuel) unit_end m limit = elim (Bool-cases (running unit_end m)) [
    | inl e ↦ rw e (
        then-Gives (λ n. Progress m.cursor n.cursor) (λ _. Unit {0}) (step bytes order h m) _
          (step-Progress unit_end m limit e) λ n p. run-Gives fuel unit_end n limit)
    | inr e ↦ rw e tt
  ]

  stopped_run :
      (fuel unit_end : ℕ) (m : Machine)
      → running unit_end m ≡ false
      → Gives (IsFinished unit_end) (run bytes order h (suc fuel) unit_end m)
  unfolding run
  stopped_run fuel unit_end m e = rw e e

  -- Where no LEB128 number of the section, added to the position behind it, reaches 2 ^ 64, the loop of
  -- the line-number program ends, in at most one round for each byte between the cursor and the end of the
  -- unit, with the cursor at the end or its error flag set. The section is shorter than 2 ^ 64 - 1 bytes,
  -- and the end of the unit is a number of 64 bits.
  pub run-IsFinished :
      ((c : Cursor) → IsReadable highest c → ¬ Wraps bytes bound order h c)
      → (fuel unit_end : ℕ) (m : Machine) → unit_end < 2 ^ 64
      → unit_end ≤ fuel + m.cursor.position
      → Gives (IsFinished unit_end) (run bytes order h (suc fuel) unit_end m)
  unfolding run Progress SomeWraps
  run-IsFinished near zero unit_end m limit enough = stopped_run 0 unit_end m (ground arith)
  run-IsFinished near (suc fuel) unit_end m limit enough = elim (Bool-cases (running unit_end m)) [
    | inl e ↦ rw e (
        then-Gives (λ n. Progress m.cursor n.cursor) (IsFinished unit_end) (step bytes order h m) _
          (step-Progress unit_end m limit e)
          λ n p. elim p [
            | inl (inl t) ↦ run-IsFinished near fuel unit_end n limit (omega arith)
            | inl (inr t) ↦ stopped_run fuel unit_end n (ground arith)
            | inr (c, readable, w) ↦ absurd (near c readable w)
          ])
    | inr e ↦ rw e e
  ]
