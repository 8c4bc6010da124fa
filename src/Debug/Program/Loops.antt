-- ===== src/Debug/Program/Loops.antt =====
-- Lengths of extended opcodes: short ones do not wrap around, and one that wraps to its own opcode keeps
-- the line-number program from ending.
use roe.Base.{
  ℕ, zero, suc, ◌+◌, ◌%◌, ◌^◌, ◌<◌, ◌≡◌, refl, ap, true, false, none, List, [], ◌∷◌, ◌++◌, length,
  All, ltb, ◌==◌, Bool-cases, inl, inr, arith,
}
use roe.Core.Result.{ok, element, element-eq, Returns, Returns-element}
use roe.Elf.Types.{Bytes, Endianness}
use roe.Elf.Reader.{add64}
use roe.Debug.Cursor.{Cursor, u8, uleb_loop, uleb}
use roe.Debug.Cursor.Moves.{highest, IsReadable}
use roe.Debug.Program.{
  Header, Registers, Machine, extended_body, extended_opcode, dispatch, round, step, run, running,
}
use roe.Debug.Program.Safe.{Wraps}

module _ (bytes : Bytes) (bound : length bytes + 1 < 2 ^ 64) (order : Endianness) (h : Header) where
  -- The number and the position behind it do not reach 2 ^ 64.
  Near : ℕ × Cursor → Type 0
  Near p = p.1.position + p.0 < 2 ^ 64

  uleb-short :
      All (λ b. b < 128) bytes
      → length bytes < 2 ^ 63
      → (c : Cursor) → IsReadable highest c
      → Returns Near (uleb bytes c)
  unfolding uleb uleb_loop u8 add64 Near
  uleb-short all size c readable =
      elim (Bool-cases (ltb (length bytes) ((c.position + 1) % 2 ^ 64))) [
        | inl e ↦ rw e (omega arith)
        | inr e ↦
            let (b, at, _) = element-eq bytes c.position (ground arith) in
            let small : Returns (λ b. b < 128) (element bytes c.position) =
              Returns-element (λ b. b < 128) bytes c.position (ground arith) all in
            let below : b < 128 = subst_small b at small in
            let t : ltb b 128 ≡ true = ground arith in rw (e, at, t) (ground arith)
      ]
    where
      subst_small :
          (b : ℕ)
          → element bytes c.position ≡ ok b
          → Returns (λ b. b < 128) (element bytes c.position)
          → b < 128
      subst_small b at small = rw at at small

  -- A section of bytes below 128 has no length that wraps around.
  pub short-ne-Wraps :
      All (λ b. b < 128) bytes
      → length bytes < 2 ^ 63
      → (c : Cursor) → IsReadable highest c
      → ¬ Wraps bytes bound order h c
  unfolding Near
  short-ne-Wraps all size c readable (n, d, same, far) =
      let near : Returns Near (uleb bytes c) = uleb-short all size c readable in
      let here : d.position + n < 2 ^ 64 = rw same at near in omega arith

  -- An extended opcode at the cursor whose length leads back to the opcode itself. Its second byte is
  -- none of the three that change the registers or the cursor.
  pub record IsCircle (c : Cursor) : Type 0 where
    pub opcode_end : Cursor
    pub opcode_read : u8 bytes c ≡ ok (0, opcode_end)
    pub span : ℕ
    pub span_end : Cursor
    pub span_read : uleb bytes opcode_end ≡ ok (span, span_end)
    pub around : add64 span_end.position span ≡ c.position
    pub sub : ℕ
    pub sub_read : u8 bytes span_end ≡ ok (sub, record c { position = span_end.position + 1 })
    pub sub_other : ((sub == 1) ≡ false) × ((sub == 2) ≡ false) × ((sub == 4) ≡ false)

  extended_body-other :
      (n sub : ℕ) (r : Registers) (c : Cursor)
      → ((sub == 1) ≡ false) × ((sub == 2) ≡ false) × ((sub == 4) ≡ false)
      → extended_body bytes order h n sub r c ≡ ok ((r, []), c)
  unfolding extended_body
  extended_body-other n sub r c (d, e, f) = rw (d, e, f) refl

  round-circle :
      (c : Cursor) (r : Registers) → IsCircle c → round bytes order h r c ≡ ok ((r, []), c)
  unfolding round dispatch extended_opcode
  round-circle c r o =
      let behind = record c { position = o.span_end.position + 1 } in
      rw
        (
          o.opcode_read,
          o.span_read,
          o.sub_read,
          extended_body-other o.span o.sub r behind o.sub_other,
          o.around,
        )
        refl

  append-nil : {A : Type 0} (xs : List A) → xs ++ [] ≡ xs
  append-nil [] = refl
  append-nil (x ∷ xs) = ap (λ l. x ∷ l) (append-nil xs)

  step-circle : (m : Machine) → IsCircle m.cursor → step bytes order h m ≡ ok m
  unfolding step
  step-circle m o =
      rw (round-circle m.cursor m.registers o)
        (ap (λ l. ok (record m { rows = l })) (append-nil m.rows))

  -- Where an extended opcode's length wraps around at 2 ^ 64 to the opcode itself, before the end of the
  -- unit and without an error, the loop of the line-number program does not end: it has not come to its
  -- end after any number of rounds.
  pub run-circle :
      (unit_end : ℕ) (m : Machine)
      → running unit_end m ≡ true
      → IsCircle m.cursor
      → (fuel : ℕ) → run bytes order h fuel unit_end m ≡ ok none
  unfolding run
  run-circle unit_end m go o zero = refl
  run-circle unit_end m go o (suc fuel) = rw (go, step-circle m o) (run-circle unit_end m go o fuel)
