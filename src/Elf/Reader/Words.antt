-- ===== src/Elf/Reader/Words.antt =====
-- The words that the Reader assembles, as sums of bytes.
use roe.Base.{ℕ, zero, suc, ◌+◌, ◌*◌, ◌^◌, ◌<◌, ◌≡◌, ◌∙◌, bit_or, arith}
use native.Mathlib.Nat.{mod-eq_of_lt}
use roe.Base.Bits.{bit_or-shifted, shifted-bit_or}
use roe.Elf.Types.{Endianness, little, big, IsByte}
use roe.Elf.Reader.{shl, word16, word32, word64}

-- A number in base 256 with its lowest digit first, and with its highest digit first.
abbrev pub little_sum : ℕ → ℕ → (ℕ → ℕ) → ℕ
little_sum zero i ptr = 0
little_sum (suc n) i ptr = ptr i + 256 * little_sum n (suc i) ptr

abbrev pub big_sum : ℕ → ℕ → (ℕ → ℕ) → ℕ → ℕ
big_sum zero i ptr acc = acc
big_sum (suc n) i ptr acc = big_sum n (suc i) ptr (acc * 256 + ptr i)

abbrev pub digits_sum : Endianness → ℕ → (ℕ → ℕ) → ℕ
digits_sum little n ptr = little_sum n 0 ptr
digits_sum big n ptr = big_sum n 0 ptr 0

-- `v | (b << k)` and `(a << k) | v` where `v` stays below the bit `k` and nothing is shifted out.
or_low : (w k v b : ℕ) → v < 2 ^ k → b * 2 ^ k < 2 ^ w → bit_or v (shl w b k) ≡ v + b * 2 ^ k
or_low w k v b hv hb = rw (mod-eq_of_lt hb) (bit_or-shifted k v b hv)

or_high : (w k a v : ℕ) → v < 2 ^ k → a * 2 ^ k < 2 ^ w → bit_or (shl w a k) v ≡ a * 2 ^ k + v
or_high w k a v hv ha = rw (mod-eq_of_lt ha) (shifted-bit_or k a v hv)

-- Two shifted operands: the second one counts from the bit `k`, and all of the first is above it.
or_both :
    (w j k a b : ℕ)
    → b * 2 ^ k < 2 ^ j
    → b * 2 ^ k < 2 ^ w
    → a * 2 ^ j < 2 ^ w
    → bit_or (shl w a j) (shl w b k) ≡ a * 2 ^ j + b * 2 ^ k
or_both w j k a b hb hw ha = rw (mod-eq_of_lt hw) (or_high w j a (b * 2 ^ k) hb ha)

-- A shifted operand below the bit `j`, on which the other one starts.
merge_round :
    (w j k s b : ℕ) {v : ℕ}
    → v ≡ s * 2 ^ j
    → b * 2 ^ k < 2 ^ j
    → b * 2 ^ k < 2 ^ w
    → bit_or v (shl w b k) ≡ s * 2 ^ j + b * 2 ^ k
merge_round w j k s b e hb hw = rw (e, mod-eq_of_lt hw) (shifted-bit_or j s (b * 2 ^ k) hb)

-- One round of a loop whose accumulator is known to be the sum `s`.
low_round :
    (w k b : ℕ) {v s : ℕ}
    → v ≡ s
    → s < 2 ^ k
    → b * 2 ^ k < 2 ^ w
    → bit_or v (shl w b k) ≡ s + b * 2 ^ k
low_round w k b {v} {s} e hs hb = rw e (or_low w k s b hs hb)

high_round :
    (b : ℕ) {v s : ℕ} → v ≡ s → b < 256 → s * 2 ^ 8 < 2 ^ 64 → bit_or (shl 64 v 8) b ≡ s * 2 ^ 8 + b
high_round b {v} {s} e hb hs = rw e (or_high 64 8 s b hb hs)

regroup : (a b : ℕ) → a * 2 ^ 24 + b * 2 ^ 16 ≡ (a * 256 + b) * 2 ^ 16
regroup a b = omega arith

regroup_8 : (a b : ℕ) → a * 2 ^ 16 + b * 2 ^ 8 ≡ (a * 256 + b) * 2 ^ 8
regroup_8 a b = omega arith

-- Four bytes joined from the highest to the lowest.
pub join32 :
    (a b c d : ℕ)
    → a < 256
    → b < 256
    → c < 256
    → d < 256
    → bit_or (bit_or (bit_or (shl 32 a 24) (shl 32 b 16)) (shl 32 c 8)) d
      ≡ ((a * 256 + b) * 256 + c) * 256 + d
join32 a b c d ha hb hc hd =
    let e1 = or_both 32 24 16 a b (omega arith) (omega arith) (omega arith) in
    let e2 = merge_round 32 16 8 (a * 256 + b) c (e1 ∙ regroup a b) (omega arith) (omega arith) in
    let e3 = shifted-bit_or 8 ((a * 256 + b) * 256 + c) d hd in
    rw (e2 ∙ regroup_8 (a * 256 + b) c, e3) (omega arith)

module _ (ptr : ℕ → ℕ) (bytes : (i : ℕ) → IsByte (ptr i)) where
  pub word16-digits : (e : Endianness) → word16 e ptr ≡ digits_sum e 2 ptr
  unfolding word16
  word16-digits little =
      let (b0, b1) : (ptr 0 < 256) × (ptr 1 < 256) = (bytes 0, bytes 1) in
      rw (or_low 32 8 (ptr 0) (ptr 1) (omega arith) (omega arith)) (omega arith)
  word16-digits big =
      let (b0, b1) : (ptr 0 < 256) × (ptr 1 < 256) = (bytes 0, bytes 1) in
      rw (or_high 32 8 (ptr 0) (ptr 1) (omega arith) (omega arith)) (omega arith)

  pub word32-digits : (e : Endianness) → word32 e ptr ≡ digits_sum e 4 ptr
  unfolding word32
  word32-digits little =
      let e1 = or_low 32 8 (ptr 0) (ptr 1) (bytes 0) (omega (arith, bytes 1)) in
      let e2 =
        low_round 32 16 (ptr 2) e1 (omega (arith, bytes 0, bytes 1)) (omega (arith, bytes 2)) in
      let e3 =
        low_round 32 24 (ptr 3) e2 (omega (arith, bytes 0, bytes 1, bytes 2))
          (omega (arith, bytes 3)) in
      rw e3 (omega (arith, bytes 0, bytes 1, bytes 2, bytes 3))
  word32-digits big =
      rw (join32 (ptr 0) (ptr 1) (ptr 2) (ptr 3) (bytes 0) (bytes 1) (bytes 2) (bytes 3))
        (omega (arith, bytes 0, bytes 1, bytes 2, bytes 3))

  pub word64-digits : (e : Endianness) → word64 e ptr ≡ digits_sum e 8 ptr
  unfolding word64
  word64-digits little =
      let e0 = or_low 64 0 0 (ptr 0) (omega arith) (omega (arith, bytes 0)) in
      let e1 = low_round 64 8 (ptr 1) e0 (omega (arith, bytes 0)) (omega (arith, bytes 1)) in
      let e2 =
        low_round 64 16 (ptr 2) e1 (omega (arith, bytes 0, bytes 1)) (omega (arith, bytes 2)) in
      let e3 =
        low_round 64 24 (ptr 3) e2 (omega (arith, bytes 0, bytes 1, bytes 2))
          (omega (arith, bytes 3)) in
      let e4 =
        low_round 64 32 (ptr 4) e3 (omega (arith, bytes 0, bytes 1, bytes 2, bytes 3))
          (omega (arith, bytes 4)) in
      let e5 =
        low_round 64 40 (ptr 5) e4 (omega (arith, bytes 0, bytes 1, bytes 2, bytes 3, bytes 4))
          (omega (arith, bytes 5)) in
      let e6 =
        low_round 64 48 (ptr 6) e5
          (omega (arith, bytes 0, bytes 1, bytes 2, bytes 3, bytes 4, bytes 5))
          (omega (arith, bytes 6)) in
      let e7 =
        low_round 64 56 (ptr 7) e6
          (omega (arith, bytes 0, bytes 1, bytes 2, bytes 3, bytes 4, bytes 5, bytes 6))
          (omega (arith, bytes 7)) in
      rw e7 (omega arith)
  word64-digits big =
      let e0 = shifted-bit_or 8 0 (ptr 0) (bytes 0) in
      let e1 = high_round (ptr 1) e0 (bytes 1) (omega (arith, bytes 0)) in
      let e2 = high_round (ptr 2) e1 (bytes 2) (omega (arith, bytes 0, bytes 1)) in
      let e3 = high_round (ptr 3) e2 (bytes 3) (omega (arith, bytes 0, bytes 1, bytes 2)) in
      let e4 =
        high_round (ptr 4) e3 (bytes 4) (omega (arith, bytes 0, bytes 1, bytes 2, bytes 3)) in
      let e5 =
        high_round (ptr 5) e4 (bytes 5)
          (omega (arith, bytes 0, bytes 1, bytes 2, bytes 3, bytes 4)) in
      let e6 =
        high_round (ptr 6) e5 (bytes 6)
          (omega (arith, bytes 0, bytes 1, bytes 2, bytes 3, bytes 4, bytes 5)) in
      let e7 =
        high_round (ptr 7) e6 (bytes 7)
          (omega (arith, bytes 0, bytes 1, bytes 2, bytes 3, bytes 4, bytes 5, bytes 6)) in
      rw e7 (omega arith)

  -- The bounds of the words.
  pub word16-lt : (e : Endianness) → word16 e ptr < 2 ^ 16
  word16-lt little = omega (arith, bytes 0, bytes 1, word16-digits little)
  word16-lt big = omega (arith, bytes 0, bytes 1, word16-digits big)

  pub word32-lt : (e : Endianness) → word32 e ptr < 2 ^ 32
  unfolding word32
  word32-lt little = omega arith
  word32-lt big = omega arith

  pub word64-lt : (e : Endianness) → word64 e ptr < 2 ^ 64
  word64-lt little =
      rw word64-digits
        (omega (arith, bytes 0, bytes 1, bytes 2, bytes 3, bytes 4, bytes 5, bytes 6, bytes 7))
  word64-lt big =
      rw word64-digits
        (omega (arith, bytes 0, bytes 1, bytes 2, bytes 3, bytes 4, bytes 5, bytes 6, bytes 7))
