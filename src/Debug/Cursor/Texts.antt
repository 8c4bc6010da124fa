-- ===== src/Debug/Cursor/Texts.antt =====
-- Reads inside the section: texts, and bytes that are skipped.
use roe.Base.{
  ℕ, ◌+◌, ◌%◌, ◌^◌, ◌≤◌, ◌<◌, ◌≡◌, refl, Bool, true, false, [], ◌∷◌, length, length-drop, drop,
  arith, ltb, ◌==◌, Bool-cases, inl, inr, if◌then◌else◌,
}
use roe.Base.Text.{Text, is_empty}
use roe.Core.Result.{Gives, ok}
use roe.Elf.Types.{Bytes}
use roe.Elf.Reader.{add64}
use roe.Debug.Cursor.{Cursor, Read, while_ok, cstring_loop, cstring, skip}
use roe.Debug.Cursor.Moves.{Moved, Moves, Moved-refl}

module _ (bytes : Bytes) (size : length bytes < 2 ^ 63) where
  abbrev pub inside : ℕ
  inside = length bytes

  pub skip-Moves : (count : ℕ) → count ≤ 16 → Moves inside (skip bytes count)
  unfolding skip add64
  skip-Moves count small c h =
      elim (Bool-cases (ltb (length bytes) ((c.position + count) % 2 ^ 64))) [
        | inl e ↦ rw e (record { forward = h; kept = λ _. refl; readable = omega arith })
        | inr e ↦ rw e (record { forward = omega arith; kept = λ k. k; readable = ground arith })
      ]

  -- Where the loop of cstring leaves the cursor; a text that is not empty has passed a byte.
  record Scanned (rest : Bytes) (position : ℕ) (error : Bool) (p : Text × Cursor) : Type 0 where
    ahead : position ≤ p.1.position
    within : p.1.position ≤ position + length rest
    still : error ≡ true → p.1.error ≡ true
    passed : is_empty p.0 ≡ false → position < p.1.position

  cstring_loop-Scanned :
      (rest : Bytes) (position : ℕ) (error : Bool)
      → Scanned rest position error (cstring_loop bytes rest position error)
  unfolding cstring_loop is_empty
  cstring_loop-Scanned [] position error = record {
    ahead = omega arith;
    within = omega arith;
    still = λ _. refl;
    passed = λ e. absurd (true_ne e);
  }
    where
      true_ne : true ≡ false → ⊥
      true_ne e = cc
  cstring_loop-Scanned (b ∷ rest) position error =
      let ih = cstring_loop-Scanned rest (position + 1) error in
      elim (Bool-cases (b == 0)) [
        | inl e ↦ rw e (record {
          ahead = omega arith;
          within = omega arith;
          still = λ t. t;
          passed = λ _. omega arith;
        })
        | inr e ↦ rw e (record {
          ahead = omega (arith, ih.ahead);
          within = omega (arith, ih.within);
          still = ih.still;
          passed = λ _. omega (arith, ih.ahead);
        })
      ]

  -- The cursor has passed a byte behind a text that is not empty.
  abbrev pub Passed : Cursor → Text × Cursor → Type 0
  Passed c p = is_empty p.0 ≡ false → c.position < p.1.position

  pub cstring-Passed :
      (c : Cursor)
      → c.position ≤ inside
      → Gives (λ p. Moved inside c p.1 × Passed c p) (cstring bytes c)
  unfolding cstring
  cstring-Passed c h =
      let s = cstring_loop-Scanned (drop c.position bytes) c.position c.error in
      (
        record {
          forward = s.ahead;
          kept = s.still;
          readable = omega (arith, s.within, length-drop c.position bytes);
        },
        s.passed,
      )

  pub cstring-Moves : Moves inside (cstring bytes)
  unfolding cstring
  cstring-Moves c h = (cstring-Passed c h).0

  pub while_ok-Moves :
      {A : Type 0} (a : A) (m : Read A) → Moves inside m → Moves inside (while_ok a m)
  while_ok-Moves a m moves c h = choose c.error
    where
      choose : (b : Bool) → Gives (λ p. Moved inside c p.1) (if b then ok (a, c) else m c)
      choose true = Moved-refl inside c h
      choose false = moves c h
