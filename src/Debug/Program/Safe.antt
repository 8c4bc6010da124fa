-- ===== src/Debug/Program/Safe.antt =====
-- Where the opcodes of the line-number program leave the cursor.
use roe.Base.{
  ℕ, zero, suc, ◌+◌, ◌-◌, ◌^◌, ◌≤◌, ◌<◌, ◌≡◌, refl, ◌⊎◌, true, ◌||◌, [], ◌∷◌, length, ltb, leb,
  ◌==◌, Bool-cases, inl, inr, arith, ltb→le,
}
use roe.Core.Result.{Gives, Result, ok, err, aborted}
use roe.Elf.Types.{Bytes, Endianness}
use roe.Elf.Reader.{add64}
use roe.Debug.Cursor.{Cursor, Read, pure, continue, ◌>>=◌, ◌>>◌, tell, seek, u8, uleb}
use roe.Debug.Cursor.Moves.{
  highest, IsReadable, Moved, Moves, pure-Moves, bind-Moves, if-Moves, u8-Moves, u16-Moves,
  u32-Moves, u64-Moves, uleb-Moves, sleb-Moves,
}
use roe.Debug.Program.{
  Header, Registers, Effect, emit, reset, extended_body, extended_opcode, skip_arguments, const_add,
  special, standard_opcode, special_opcode,
}

module _ (bytes : Bytes) (bound : length bytes + 1 < 2 ^ 64) (order : Endianness) (h : Header) where
  done : (e : Effect) → Moves highest (pure e)
  done e = pure-Moves highest e

  -- A read whose value goes into the registers.
  into : (m : Read ℕ) (f : ℕ → Effect) → Moves highest m → Moves highest (m >>= λ n. pure (f n))
  into m f e = bind-Moves highest m (λ n. pure (f n)) e λ n. pure-Moves highest (f n)

  extended_body-Moves :
      (n sub : ℕ) (r : Registers) → Moves highest (extended_body bytes order h n sub r)
  unfolding extended_body
  extended_body-Moves n sub r = if-Moves highest (sub == 1) _ _ (done (reset h, emit r ∷ [])) (
      if-Moves highest (sub == 2) _ _
        (into _ _ (
          if-Moves highest (leb 9 n) _ _ (u64-Moves highest bytes (omega arith) (omega arith) order)
            (u32-Moves highest bytes (omega arith) (omega arith) order)))
        (if-Moves highest (sub == 4) _ _
          (into _ _ (uleb-Moves highest bytes (omega arith) (omega arith))) (done (r, []))))

  skip_arguments-Moves : (n : ℕ) → Moves highest (skip_arguments bytes order h n)
  unfolding skip_arguments
  skip_arguments-Moves zero = pure-Moves highest tt
  skip_arguments-Moves (suc n) =
      bind-Moves highest (uleb bytes) _ (uleb-Moves highest bytes (omega arith) (omega arith))
        λ _. skip_arguments-Moves n

  pub standard_opcode-Moves :
      (opcode : ℕ) (r : Registers) → Moves highest (standard_opcode bytes order h opcode r)
  unfolding standard_opcode
  standard_opcode-Moves opcode r =
      let leb128 : (f : ℕ → Effect) → Moves highest (uleb bytes >>= λ n. pure (f n)) =
        λ f. into (uleb bytes) f (uleb-Moves highest bytes (omega arith) (omega arith)) in
      if-Moves highest (opcode == 1) _ _ (done (r, emit r ∷ [])) (
        if-Moves highest (opcode == 2) _ _ (leb128 _) (
          if-Moves highest (opcode == 3) _ _
            (into _ _ (sleb-Moves highest bytes (omega arith) (omega arith)))
            (if-Moves highest (opcode == 4) _ _ (leb128 _) (
              if-Moves highest (opcode == 5) _ _ (leb128 _) (
                if-Moves highest ((opcode == 6 || opcode == 7) || (opcode == 10 || opcode == 11)) _
                  _ (done (r, []))
                  (if-Moves highest (opcode == 8) _ _ (done (const_add bytes order h r, [])) (
                    if-Moves highest (opcode == 9) _ _
                      (into _ _ (u16-Moves highest bytes (omega arith) (omega arith) order))
                      (if-Moves highest (opcode == 12) _ _ (leb128 _)
                        (bind-Moves highest _ _ (skip_arguments-Moves _) λ _. done (r, []))))))))))

  pub special_opcode-Moves :
      (opcode : ℕ) (r : Registers) → Moves highest (special_opcode bytes order h opcode r)
  unfolding special_opcode
  special_opcode-Moves opcode r =
      let s = special bytes order h (opcode - h.opcode_base) r in done (s, emit s ∷ [])

  -- A read that ends with a jump to the target, and forgets no error on the way.
  Jumps : ℕ → Read Effect → Type 0
  Jumps target m =
      (c : Cursor)
      → IsReadable highest c
      → Gives (λ p. (p.1.position ≡ target) × (c.error ≡ true → p.1.error ≡ true)) (m c)

  bind-Jumps :
      (A : Type 0) (target : ℕ) (m : Read A) (f : A → Read Effect)
      → Moves highest m
      → ((a : A) → Jumps target (f a))
      → Jumps target (m >>= f)
  unfolding Jumps
  bind-Jumps A target m f moves k c readable = first (m c) (moves c readable)
    where
      second :
          (d : Cursor) (r : Result (Effect × Cursor))
          → Moved highest c d
          → Gives (λ p. (p.1.position ≡ target) × (d.error ≡ true → p.1.error ≡ true)) r
          → Gives (λ p. (p.1.position ≡ target) × (c.error ≡ true → p.1.error ≡ true)) r
      second d (ok (e, x)) m (at, kept) = (at, λ t. kept (m.kept t))
      second d (err x) m h = absurd h
      second d aborted m h = absurd h

      first :
          (r : Result (A × Cursor))
          → Gives (λ p. Moved highest c p.1) r
          → Gives
              (λ p. (p.1.position ≡ target) × (c.error ≡ true → p.1.error ≡ true))
              (continue f r)
      first (ok (a, d)) n = second d (f a d) n (k a d n.readable)
      first (err e) n = absurd n
      first aborted n = absurd n

  jump : ℕ → Registers → Read Effect
  jump n r = tell >>= λ position. u8 bytes >>= λ sub.
      extended_body bytes order h n sub r >>= λ e. seek (add64 position n) >> pure e

  jump-Jumps :
      (n : ℕ) (r : Registers) (c : Cursor)
      → IsReadable highest c
      → Gives
          (λ p. (p.1.position ≡ add64 c.position n) × (c.error ≡ true → p.1.error ≡ true))
          (jump n r c)
  unfolding jump Jumps
  jump-Jumps n r c readable =
      let target = add64 c.position n in
      bind-Jumps ℕ target (u8 bytes)
        (λ sub. extended_body bytes order h n sub r >>= λ e. seek target >> pure e)
        (u8-Moves highest bytes (omega arith) (omega arith))
        (λ sub.
          bind-Jumps Effect target (extended_body bytes order h n sub r)
            (λ e. seek target >> pure e) (extended_body-Moves n sub r) λ e d k. (refl, λ t. t))
        c readable

  -- The LEB128 length at the cursor leads past the last number of 64 bits.
  abbrev pub Wraps : Cursor → Type 0
  Wraps c = (n : ℕ) × (d : Cursor) × (uleb bytes c ≡ ok (n, d)) × (2 ^ 64 ≤ d.position + n)

  abbrev pub Lands : Cursor → Cursor → Type 0
  Lands c d = (c.error ≡ true → d.error ≡ true) × ((c.position ≤ d.position) ⊎ Wraps c)

  pub extended_opcode-Lands :
      (r : Registers) (c : Cursor)
      → IsReadable highest c
      → Gives (λ p. Lands c p.1) (extended_opcode bytes order h r c)
  unfolding extended_opcode jump add64
  extended_opcode-Lands r c readable =
      behind (uleb bytes c) refl (uleb-Moves highest bytes (omega arith) (omega arith) c readable)
    where
      land :
          (n : ℕ) (d : Cursor) (q : Result (Effect × Cursor))
          → uleb bytes c ≡ ok (n, d)
          → Moved highest c d
          → Gives (λ p. (p.1.position ≡ add64 d.position n) × (d.error ≡ true → p.1.error ≡ true)) q
          → Gives (λ p. Lands c p.1) q
      land n d (ok (e, x)) same m (at, kept) = (
        λ t. kept (m.kept t),
        elim (Bool-cases (ltb (d.position + n) (2 ^ 64))) [
          | inl t ↦ inl (ground (arith, m.forward))
          | inr t ↦ inr (n, d, same, ltb→le _ _ t)
        ],
      )
      land n d (err e) same m g = absurd g
      land n d aborted same m g = absurd g

      behind :
          (res : Result (ℕ × Cursor))
          → uleb bytes c ≡ res
          → Gives (λ p. Moved highest c p.1) res
          → Gives (λ p. Lands c p.1) (continue (λ n. jump n r) res)
      behind (ok (n, d)) same m = land n d (jump n r d) same m (jump-Jumps n r d m.readable)
      behind (err e) same m = absurd m
      behind aborted same m = absurd m
