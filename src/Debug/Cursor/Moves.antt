-- ===== src/Debug/Cursor/Moves.antt =====
-- A read leaves the cursor where the next read is safe, and does not move it back.
use roe.Base.{
  ◌⊎◌, ℕ, zero, suc, ◌+◌, ◌*◌, ◌%◌, ◌^◌, ◌≤◌, ◌<◌, ◌≡◌, refl, Bool, true, false, ◌||◌, length,
  arith, ltb, Bool-cases, inl, inr, if◌then◌else◌,
}
use roe.Core.Result.{Result, ok, err, aborted, element-eq, Gives}
use roe.Elf.Types.{Bytes, Endianness, little, big}
use roe.Elf.Reader.{add64}
use roe.Debug.Cursor.{
  Cursor, Read, pure, continue, ◌>>=◌, u8, big_loop, little_loop, word, u16, u32, u64, with_group,
  uleb_loop, uleb, sleb_loop, sleb,
}

-- The cursor has passed a byte, or the flag is set.
abbrev pub Advanced : Cursor → Cursor → Type 0
Advanced c d = (c.position < d.position) ⊎ (d.error ≡ true)

-- The limit for the programs, whose cursor may stand anywhere.
abbrev pub highest : ℕ
highest = 0xffff_ffff_ffff_fffe

module _ (limit : ℕ) where
  -- The cursor stands where a read is safe: a limit below the number behind which the test of u8 wraps
  -- around.
  abbrev pub IsReadable : Cursor → Type 0
  IsReadable c = c.position ≤ limit

  -- The cursor has moved from `c` to `d`.
  pub record Moved (c d : Cursor) : Type 0 where
    pub forward : c.position ≤ d.position
    pub kept : c.error ≡ true → d.error ≡ true
    pub readable : IsReadable d

  abbrev pub Moves : {A : Type 0} → Read A → Type 0
  Moves m = (c : Cursor) → IsReadable c → Gives (λ p. Moved c p.1) (m c)

  pub Moved-refl : (c : Cursor) → IsReadable c → Moved c c
  Moved-refl c h = record { forward = omega arith; kept = λ e. e; readable = h }

  pub Moved-trans : (c d e : Cursor) → Moved c d → Moved d e → Moved c e
  Moved-trans c d e m n = record {
    forward = omega (arith, m.forward, n.forward);
    kept = λ h. n.kept (m.kept h);
    readable = n.readable;
  }

  pub pure-Moves : {A : Type 0} (a : A) → Moves (pure a)
  pure-Moves a c h = Moved-refl c h

  pub if-Moves :
      {A : Type 0} (b : Bool) (m n : Read A) → Moves m → Moves n → Moves (if b then m else n)
  if-Moves true m n h k = h
  if-Moves false m n h k = k

  module _ {A B : Type 0} where
    continue-Moves :
        (c : Cursor) (r : Result (A × Cursor)) (f : A → Read B)
        → Gives (λ p. Moved c p.1) r
        → ((a : A) → Moves (f a))
        → Gives (λ p. Moved c p.1) (continue f r)
    continue-Moves c (ok (a, d)) f m k = after (f a d) (k a d m.readable)
      where
        after : (r : Result (B × Cursor)) → Gives (λ p. Moved d p.1) r → Gives (λ p. Moved c p.1) r
        after (ok (b, e)) n = Moved-trans c d e m n
        after (err x) n = absurd n
        after aborted n = absurd n
    continue-Moves c (err e) f m k = absurd m
    continue-Moves c aborted f m k = absurd m

    pub bind-Moves :
        (m : Read A) (f : A → Read B) → Moves m → ((a : A) → Moves (f a)) → Moves (m >>= f)
    bind-Moves m f h k c r = continue-Moves c (m c) f (h c r) k

  module _ (bytes : Bytes) (bound : length bytes ≤ limit) (top : limit + 1 < 2 ^ 64) where
    pub u8-Advanced :
        (c : Cursor) → IsReadable c → Gives (λ p. Moved c p.1 × Advanced c p.1) (u8 bytes c)
    unfolding u8 add64
    u8-Advanced c h = elim (Bool-cases (ltb (length bytes) ((c.position + 1) % 2 ^ 64))) [
      | inl e ↦ rw e (record { forward = omega arith; kept = λ _. refl; readable = h }, inr refl)
      | inr e ↦
          let (b, at, _) = element-eq bytes c.position (ground arith) in
          rw (e, at)
            (
              record { forward = omega arith; kept = λ k. k; readable = ground arith },
              inl (omega arith),
            )
    ]

    pub u8-Moves : Moves (u8 bytes)
    u8-Moves c h = weaken (u8 bytes c) (u8-Advanced c h)
      where
        weaken :
            (r : Result (ℕ × Cursor))
            → Gives (λ p. Moved c p.1 × Advanced c p.1) r
            → Gives (λ p. Moved c p.1) r
        weaken (ok p) both = both.0
        weaken (err e) both = absurd both
        weaken aborted both = absurd both

    big_loop-Moves : (n value : ℕ) → Moves (big_loop bytes n value)
    unfolding big_loop
    big_loop-Moves zero value = pure-Moves value
    big_loop-Moves (suc n) value =
        bind-Moves (u8 bytes) (λ b. big_loop bytes n (value * 256 + b)) u8-Moves
          λ b. big_loop-Moves n (value * 256 + b)

    little_loop-Moves : (n shift value : ℕ) → Moves (little_loop bytes n shift value)
    unfolding little_loop
    little_loop-Moves zero shift value = pure-Moves value
    little_loop-Moves (suc n) shift value =
        bind-Moves (u8 bytes) (λ b. little_loop bytes n (shift + 8) (value + b * 2 ^ shift))
          u8-Moves λ b. little_loop-Moves n (shift + 8) (value + b * 2 ^ shift)

    word-Moves : (order : Endianness) (n : ℕ) → Moves (word bytes order n)
    word-Moves little n = little_loop-Moves n 0 0
    word-Moves big n = big_loop-Moves n 0

    pub u16-Moves : (order : Endianness) → Moves (u16 bytes order)
    unfolding u16
    u16-Moves order = word-Moves order 2

    pub u32-Moves : (order : Endianness) → Moves (u32 bytes order)
    unfolding u32
    u32-Moves order = word-Moves order 4

    pub u64-Moves : (order : Endianness) → Moves (u64 bytes order)
    unfolding u64
    u64-Moves order = word-Moves order 8

    uleb_loop-Moves : (rounds shift result : ℕ) → Moves (uleb_loop bytes rounds shift result)
    unfolding uleb_loop
    uleb_loop-Moves zero shift result = pure-Moves result
    uleb_loop-Moves (suc rounds) shift result = bind-Moves (u8 bytes) _ u8-Moves λ b c r.
        let value = with_group bytes b shift result in
        elim (Bool-cases (ltb b 128 || (c.error || ltb 70 (shift + 7)))) [
          | inl e ↦ rw e (Moved-refl c r)
          | inr e ↦ rw e (uleb_loop-Moves rounds (shift + 7) value c r)
        ]

    pub uleb-Moves : Moves (uleb bytes)
    unfolding uleb
    uleb-Moves = uleb_loop-Moves 11 0 0

    sleb_loop-Moves : (rounds shift result : ℕ) → Moves (sleb_loop bytes rounds shift result)
    unfolding sleb_loop
    sleb_loop-Moves zero shift result = pure-Moves result
    sleb_loop-Moves (suc rounds) shift result = bind-Moves (u8 bytes) _ u8-Moves λ b c r.
        let value = with_group bytes b shift result in
        elim (Bool-cases ((c.error || ltb 70 (shift + 7)) || ltb b 128)) [
          | inl e ↦ rw e (Moved-refl c r)
          | inr e ↦ rw e (sleb_loop-Moves rounds (shift + 7) value c r)
        ]

    pub sleb-Moves : Moves (sleb bytes)
    unfolding sleb
    sleb-Moves = sleb_loop-Moves 11 0 0
