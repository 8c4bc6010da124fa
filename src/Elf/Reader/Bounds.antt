-- ===== src/Elf/Reader/Bounds.antt =====
-- Reads inside the image succeed, and what any read returns fits its word.
use roe.Base.{
  ℕ, refl, ◌+◌, ◌^◌, ◌≤◌, ◌<◌, ◌≡◌, true, false, length, get_or, All-get_or, arith, leb, le→leb,
  lt→leb, if◌then◌else◌, Bool-cases, inl, inr,
}
use roe.Core.Result.{Result, ok, err, Returns, Returns-value, Returns-bind, value, ◌>>=◌}
use roe.Elf.Types.{IsByte, IsImage}
use roe.Elf.Reader.{
  Reader, window, range_within, validate_range, load, read_array, add64, u8, u16, u32, u64, word16,
  word32, word64,
}
use roe.Base.Text.{Text, text}
use roe.Core.Error.{make_error_at, malformed_input}
use roe.Elf.Reader.Windows.{element-ok, window-ok}
use roe.Elf.Reader.Words.{
  digits_sum, word16-digits, word32-digits, word64-digits, word16-lt, word32-lt, word64-lt,
}

-- For an offset, a size and an image size of 64 bits, range_within accepts exactly the ranges that end
-- inside the image, also where the sum of offset and size does not fit 64 bits.
pub range_within_lem :
    (offset size image_size : ℕ)
    → offset < 2 ^ 64
    → size < 2 ^ 64
    → image_size < 2 ^ 64
    → range_within offset size image_size ≡ leb (offset + size) image_size
unfolding range_within
range_within_lem offset size image_size ho hs hi = ground arith

-- An accepted range ends inside the image.
pub range_within-le :
    (offset size image_size : ℕ)
    → range_within offset size image_size ≡ true
    → offset + size ≤ image_size
unfolding range_within
range_within-le offset size image_size h = ground arith

pub in_range :
    (offset size image_size : ℕ)
    → offset + size ≤ image_size
    → image_size < 2 ^ 63
    → range_within offset size image_size ≡ true
unfolding range_within
in_range offset size image_size h hi = ground arith

pub validate_range-Returns :
    (offset size image_size : ℕ) (label : Text)
    → Returns (λ _. offset + size ≤ image_size) (validate_range offset size image_size label)
unfolding validate_range
validate_range-Returns offset size image_size label =
    elim (Bool-cases (range_within offset size image_size)) [
      | inl e ↦ rw e (range_within-le offset size image_size e)
      | inr e ↦ rw e tt
    ]

pub out_of_range :
    (offset size image_size : ℕ)
    → size < 2 ^ 63
    → range_within offset size image_size ≡ false
    → image_size < 2 ^ 63
    → image_size < offset + size
unfolding range_within
out_of_range offset size image_size hs h hi = ground arith

-- What a read of `n` bytes is to return.
abbrev pub decoded : Reader → ℕ → ℕ → Result ℕ
decoded r offset n =
    if leb (offset + n) (length r.bytes)
    then ok (digits_sum r.endianness n (load r.bytes offset))
    else err (make_error_at malformed_input (text "read past end of file") offset)

-- The step of a `do` block that checks a range.
pub bind_range {ℓ} :
    {B : Type ℓ} (Q : B → Type 0) (offset size image_size : ℕ) (label : Text)
    (f : Unit {0} → Result B)
    → (offset + size ≤ image_size → Returns Q (f tt))
    → Returns Q (validate_range offset size image_size label >>= f)
bind_range Q offset size image_size label f h =
    Returns-bind (λ _. offset + size ≤ image_size) Q (validate_range offset size image_size label) f
      (validate_range-Returns offset size image_size label) λ _ fits. h fits

module _ (r : Reader) (image : IsImage r.bytes) where
  load-IsByte : (start i : ℕ) → IsByte (load r.bytes start i)
  load-IsByte start i = All-get_or IsByte r.bytes (start + i) 0 (omega arith) image.is_bytes

  u8-ok : (offset : ℕ) → offset + 1 ≤ length r.bytes → u8 r offset ≡ ok (get_or r.bytes offset 0)
  unfolding u8
  u8-ok offset h =
      rw
        (
          in_range offset 1 (length r.bytes) h image.size_bound,
          element-ok r.bytes offset (omega arith),
        )
        refl

  u16-ok :
      (offset : ℕ)
      → offset + 2 ≤ length r.bytes
      → u16 r offset ≡ ok (word16 r.endianness (load r.bytes offset))
  unfolding u16
  u16-ok offset h =
      rw
        (
          in_range offset 2 (length r.bytes) h image.size_bound,
          window-ok r.bytes offset 2 (omega arith) h,
        )
        refl

  pub u32-ok :
      (offset : ℕ)
      → offset + 4 ≤ length r.bytes
      → u32 r offset ≡ ok (word32 r.endianness (load r.bytes offset))
  unfolding u32
  u32-ok offset h =
      rw
        (
          in_range offset 4 (length r.bytes) h image.size_bound,
          window-ok r.bytes offset 4 (omega arith) h,
        )
        refl

  u64-ok :
      (offset : ℕ)
      → offset + 8 ≤ length r.bytes
      → u64 r offset ≡ ok (word64 r.endianness (load r.bytes offset))
  unfolding u64
  u64-ok offset h =
      rw
        (
          in_range offset 8 (length r.bytes) h image.size_bound,
          window-ok r.bytes offset 8 (omega arith) h,
        )
        refl

  -- A field behind the start of an entry, which the source computes at 64 bits.
  pub reach :
      (offset k n : ℕ) → offset + k + n ≤ length r.bytes → add64 offset k + n ≤ length r.bytes
  unfolding add64
  reach offset k n h = omega (arith, image.size_bound)

  -- The value of a read inside the image is there, and fits its word.
  pub value-u8 :
      (offset : ℕ) → offset + 1 ≤ length r.bytes → Returns (λ v. v < 2 ^ 8) (value (u8 r offset))
  value-u8 offset h =
      Returns-value (λ v. v < 2 ^ 8) _ _ (u8-ok offset h)
        (All-get_or IsByte r.bytes offset 0 (omega arith) image.is_bytes)

  pub value-u16 :
      (offset : ℕ) → offset + 2 ≤ length r.bytes → Returns (λ v. v < 2 ^ 16) (value (u16 r offset))
  value-u16 offset h =
      Returns-value (λ v. v < 2 ^ 16) _ _ (u16-ok offset h)
        (word16-lt _ (load-IsByte offset) r.endianness)

  pub value-u32 :
      (offset : ℕ) → offset + 4 ≤ length r.bytes → Returns (λ v. v < 2 ^ 32) (value (u32 r offset))
  value-u32 offset h =
      Returns-value (λ v. v < 2 ^ 32) _ _ (u32-ok offset h)
        (word32-lt _ (load-IsByte offset) r.endianness)

  pub value-u64 :
      (offset : ℕ) → offset + 8 ≤ length r.bytes → Returns (λ v. v < 2 ^ 64) (value (u64 r offset))
  value-u64 offset h =
      Returns-value (λ v. v < 2 ^ 64) _ _ (u64-ok offset h)
        (word64-lt _ (load-IsByte offset) r.endianness)

  -- The step of a `do` block that takes the value of a read inside the image.
  pub bind_u8 {ℓ} :
      {B : Type ℓ} (Q : B → Type 0) (offset : ℕ) (f : ℕ → Result B)
      → offset + 1 ≤ length r.bytes
      → ((v : ℕ) → v < 2 ^ 8 → Returns Q (f v))
      → Returns Q (value (u8 r offset) >>= f)
  bind_u8 Q offset f h = Returns-bind (λ v. v < 2 ^ 8) Q (value (u8 r offset)) f (value-u8 offset h)

  pub bind_u16 {ℓ} :
      {B : Type ℓ} (Q : B → Type 0) (offset : ℕ) (f : ℕ → Result B)
      → offset + 2 ≤ length r.bytes
      → ((v : ℕ) → v < 2 ^ 16 → Returns Q (f v))
      → Returns Q (value (u16 r offset) >>= f)
  bind_u16 Q offset f h =
      Returns-bind (λ v. v < 2 ^ 16) Q (value (u16 r offset)) f (value-u16 offset h)

  pub bind_u32 {ℓ} :
      {B : Type ℓ} (Q : B → Type 0) (offset : ℕ) (f : ℕ → Result B)
      → offset + 4 ≤ length r.bytes
      → ((v : ℕ) → v < 2 ^ 32 → Returns Q (f v))
      → Returns Q (value (u32 r offset) >>= f)
  bind_u32 Q offset f h =
      Returns-bind (λ v. v < 2 ^ 32) Q (value (u32 r offset)) f (value-u32 offset h)

  pub bind_u64 {ℓ} :
      {B : Type ℓ} (Q : B → Type 0) (offset : ℕ) (f : ℕ → Result B)
      → offset + 8 ≤ length r.bytes
      → ((v : ℕ) → v < 2 ^ 64 → Returns Q (f v))
      → Returns Q (value (u64 r offset) >>= f)
  bind_u64 Q offset f h =
      Returns-bind (λ v. v < 2 ^ 64) Q (value (u64 r offset)) f (value-u64 offset h)

  -- A read anywhere returns such a word or an error.
  pub u16-Returns : (offset : ℕ) → Returns (λ v. v < 2 ^ 16) (u16 r offset)
  unfolding u16
  u16-Returns offset = elim (Bool-cases (range_within offset 2 (length r.bytes))) [
    | inl e ↦
        rw
          (
            e,
            window-ok r.bytes offset 2 (omega arith) (range_within-le offset 2 (length r.bytes) e),
          )
          (word16-lt _ (load-IsByte offset) r.endianness)
    | inr e ↦ rw e tt
  ]

  pub u32-Returns : (offset : ℕ) → Returns (λ v. v < 2 ^ 32) (u32 r offset)
  unfolding u32
  u32-Returns offset = elim (Bool-cases (range_within offset 4 (length r.bytes))) [
    | inl e ↦
        rw
          (
            e,
            window-ok r.bytes offset 4 (omega arith) (range_within-le offset 4 (length r.bytes) e),
          )
          (word32-lt _ (load-IsByte offset) r.endianness)
    | inr e ↦ rw e tt
  ]

  pub u64-Returns : (offset : ℕ) → Returns (λ v. v < 2 ^ 64) (u64 r offset)
  unfolding u64
  u64-Returns offset = elim (Bool-cases (range_within offset 8 (length r.bytes))) [
    | inl e ↦
        rw
          (
            e,
            window-ok r.bytes offset 8 (omega arith) (range_within-le offset 8 (length r.bytes) e),
          )
          (word64-lt _ (load-IsByte offset) r.endianness)
    | inr e ↦ rw e tt
  ]

  decode_by :
      (n offset : ℕ) (word : (ℕ → ℕ) → ℕ)
      → word (load r.bytes offset) ≡ digits_sum r.endianness n (load r.bytes offset)
      → 0 < n
      → n < 2 ^ 63
      → (read_array r offset n >>= λ ptr. window r.bytes ptr n >>= λ at. ok (word at))
        ≡ decoded r offset n
  unfolding read_array
  decode_by n offset word e pos h = elim (Bool-cases (range_within offset n (length r.bytes))) [
    | inl t ↦
        let fits = range_within-le offset n (length r.bytes) t in
        rw (t, le→leb _ _ fits, window-ok r.bytes offset n pos fits, e) refl
    | inr t ↦ rw (t, lt→leb _ _ (out_of_range offset n (length r.bytes) h t image.size_bound))
  ]

  -- On an image, reads of two, four and eight bytes return the number that these bytes spell in base 256 in the
  -- reader's order, exactly where they lie inside the image; elsewhere the error names the offset.
  pub reads_decode :
      (offset : ℕ)
      → (u16 r offset ≡ decoded r offset 2)
        × (u32 r offset ≡ decoded r offset 4)
        × (u64 r offset ≡ decoded r offset 8)
  unfolding u16 u32 u64
  reads_decode offset = (
    decode_by 2 offset (word16 r.endianness) (word16-digits _ (load-IsByte offset) r.endianness)
        (omega arith) (omega arith),
    decode_by 4 offset (word32 r.endianness) (word32-digits _ (load-IsByte offset) r.endianness)
        (omega arith) (omega arith),
    decode_by 8 offset (word64 r.endianness) (word64-digits _ (load-IsByte offset) r.endianness)
        (omega arith) (omega arith),
  )
