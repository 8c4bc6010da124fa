-- ===== src/Pe/Parse/Rejects.antt =====
-- Which images the PE parser rejects, and with which error.
use roe.Base.{
  ℕ, zero, suc, ◌+◌, ◌%◌, ◌^◌, ◌<◌, ◌≡◌, refl, ap, Bool, true, false, ◌&&◌, ◌||◌, not, Option, none,
  some, [], ◌∷◌, length, get_or, arith, ltb, leb, ◌==◌, Bool-cases, inl, inr, if◌then◌else◌,
}
use mathlib.Core.Option.{some-injective}
use roe.Base.Text.{Text}
use roe.Core.Error.{Error}
use roe.Core.Result.{Result, ok, err, reject, element, Returns-ok}
use roe.Elf.Types.{Bytes, IsImage}
use roe.Elf.Reader.{load}
use roe.Elf.Reader.Words.{little_sum}
use roe.Pe.Reader.{u16, u32, u64}
use roe.Pe.Reader.Laws.{decoded, pe_reads-decode, u32-lt}
use roe.Pe.Parse.{
  File, not_pe, bad_signature, bad_magic, bad_count, check_stub, check_signature, read_base,
  read_header, parse_bytes,
}

-- The number that `n` bytes spell at an offset, zero where they pass the end.
abbrev pub spelled : Bytes → ℕ → ℕ → ℕ
spelled bytes n off = if leb (off + n) (length bytes) then little_sum n 0 (load bytes off) else 0

-- The offset of the COFF header.
abbrev pub coff_of : Bytes → ℕ
coff_of bytes = (spelled bytes 4 0x3c + 4) % 2 ^ 32

abbrev pub has_stub : Bytes → Bool
has_stub bytes = leb 64 (length bytes) && get_or bytes 0 0 == b'M' && get_or bytes 1 0 == b'Z'

abbrev pub has_signature : Bytes → Bool
has_signature bytes =
    leb ((spelled bytes 4 0x3c + 24) % 2 ^ 32) (length bytes)
    && spelled bytes 4 (spelled bytes 4 0x3c) == 0x4550

abbrev pub has_magic : Bytes → Bool
has_magic bytes =
    spelled bytes 2 (coff_of bytes + 20) == 0x10b || spelled bytes 2 (coff_of bytes + 20) == 0x20b

abbrev pub has_count : Bytes → Bool
has_count bytes = leb (spelled bytes 2 (coff_of bytes + 2)) 4096

-- The first thing that is wrong with an image, as the bytes at fixed places tell.
abbrev pub first_fault : Bytes → Option Error
first_fault bytes =
    if not (has_stub bytes)
    then some not_pe
    else if not (has_signature bytes)
    then some bad_signature
    else if not (has_magic bytes)
    then some bad_magic
    else if not (has_count bytes)
    then some bad_count
    else none

reject_ok : (b : Bool) (e : Error) → b ≡ false → reject b e ≡ ok tt
unfolding reject
reject_ok b e h = rw h

reject_err : (b : Bool) (e : Error) → b ≡ true → reject b e ≡ err e
unfolding reject
reject_err b e h = rw h

element-get_or : (xs : Bytes) (i : ℕ) → i < length xs → element xs i ≡ ok (get_or xs i 0)
unfolding element
element-get_or [] i h = elim h [ ]
element-get_or (x ∷ xs) zero h = refl
element-get_or (x ∷ xs) (suc i) h = element-get_or xs i (omega arith)

module _ (bytes : Bytes) (image : IsImage bytes) where
  spells :
      (n off : ℕ) (flag : Bool)
      → (flag' : Bool) × (decoded bytes flag off n ≡ ok (spelled bytes n off, flag'))
  spells n off flag = elim (Bool-cases (leb (off + n) (length bytes))) [
    | inl e ↦ rw e (flag, refl)
    | inr e ↦ rw e (false, refl)
  ]

  u16-spells :
      (flag : Bool) (off : ℕ)
      → off < 2 ^ 63
      → (flag' : Bool) × (u16 bytes flag off ≡ ok (spelled bytes 2 off, flag'))
  u16-spells flag off h = rw (pe_reads-decode bytes image flag off h).0 (spells 2 off flag)

  u32-spells :
      (flag : Bool) (off : ℕ)
      → off < 2 ^ 63
      → (flag' : Bool) × (u32 bytes flag off ≡ ok (spelled bytes 4 off, flag'))
  u32-spells flag off h = rw (pe_reads-decode bytes image flag off h).1 (spells 4 off flag)

  u64-spells :
      (flag : Bool) (off : ℕ)
      → off < 2 ^ 63
      → (flag' : Bool) × (u64 bytes flag off ≡ ok (spelled bytes 8 off, flag'))
  u64-spells flag off h = rw (pe_reads-decode bytes image flag off h).2 (spells 8 off flag)

  pe_off-lt : spelled bytes 4 0x3c < 2 ^ 32
  pe_off-lt =
      let (flag, e) = u32-spells true 0x3c (omega arith) in
      Returns-ok (λ (p : ℕ × Bool). p.0 < 2 ^ 32) (u32 bytes true 0x3c) (spelled bytes 4 0x3c, flag)
        e (u32-lt bytes image true 0x3c (omega arith))

  check_stub_lem : check_stub bytes ≡ (if has_stub bytes then ok tt else err not_pe)
  unfolding check_stub
  check_stub_lem = elim (Bool-cases (ltb (length bytes) 0x40)) [
    | inl e ↦ let f : leb 64 (length bytes) ≡ false = ground arith in rw (e, f) refl
    | inr e ↦
        let f : leb 64 (length bytes) ≡ true = ground arith in
        rw (e, f, element-get_or bytes 0 (ground arith), element-get_or bytes 1 (ground arith))
          (tests (get_or bytes 0 0 == b'M') (get_or bytes 1 0 == b'Z'))
  ]
    where
      tests :
          (m z : Bool) → (reject (not m || not z) not_pe) ≡ (if m && z then ok tt else err not_pe)
      tests true true = reject_ok _ _ refl
      tests true false = reject_err _ _ refl
      tests false z = reject_err _ _ refl

  check_signature-ok :
      has_signature bytes ≡ true
      → (flag : Bool) × (check_signature bytes ≡ ok (spelled bytes 4 0x3c, flag))
  unfolding check_signature
  check_signature-ok h =
      let (flag1, e1) = u32-spells true 0x3c (omega arith) in
      let (flag2, e2) = u32-spells flag1 (spelled bytes 4 0x3c) (omega (arith, pe_off-lt)) in
      (
        flag2,
        rw
            (
              e1,
              reject_ok (ltb (length bytes) ((spelled bytes 4 0x3c + 24) % 2 ^ 32)) bad_signature
                  (ground arith),
              e2,
              reject_ok (not (spelled bytes 4 (spelled bytes 4 0x3c) == 0x4550)) bad_signature
                  (ground arith),
            )
            refl,
      )

  check_signature-err : has_signature bytes ≡ false → check_signature bytes ≡ err bad_signature
  unfolding check_signature
  check_signature-err h =
      let (flag1, e1) = u32-spells true 0x3c (omega arith) in
      let (flag2, e2) = u32-spells flag1 (spelled bytes 4 0x3c) (omega (arith, pe_off-lt)) in
      elim (Bool-cases (ltb (length bytes) ((spelled bytes 4 0x3c + 24) % 2 ^ 32))) [
        | inl t ↦ rw (e1, reject_err _ bad_signature t) refl
        | inr t ↦
            rw
              (
                e1,
                reject_ok _ bad_signature t,
                e2,
                reject_err (not (spelled bytes 4 (spelled bytes 4 0x3c) == 0x4550)) bad_signature
                    (ground arith),
              )
              refl
      ]

  read_base-ok :
      (wide : Bool) (opt : ℕ) (flag : Bool)
      → opt < 2 ^ 40
      → (p : ℕ × Bool) × (read_base bytes wide opt flag ≡ ok p)
  read_base-ok true opt flag h = let (f, e) = u64-spells flag (opt + 24) (omega arith) in (_, e)
  read_base-ok false opt flag h = let (f, e) = u32-spells flag (opt + 28) (omega arith) in (_, e)

  coff-lt : coff_of bytes < 2 ^ 32
  coff-lt = omega arith

  read_header-magic :
      (flag : Bool)
      → has_magic bytes ≡ false
      → read_header bytes (spelled bytes 4 0x3c) flag ≡ err bad_magic
  unfolding read_header
  read_header-magic flag h =
      let (flag1, e1) = u16-spells flag (coff_of bytes) (omega (arith, coff-lt)) in
      let (flag2, e2) = u16-spells flag1 (coff_of bytes + 2) (omega (arith, coff-lt)) in
      let (flag3, e3) = u16-spells flag2 (coff_of bytes + 16) (omega (arith, coff-lt)) in
      let (flag4, e4) = u16-spells flag3 (coff_of bytes + 18) (omega (arith, coff-lt)) in
      let (flag5, e5) = u16-spells flag4 (coff_of bytes + 20) (omega (arith, coff-lt)) in
      rw
        (
          e1,
          e2,
          e3,
          e4,
          e5,
          reject_err
              (not (spelled bytes 2 (coff_of bytes + 20) == 0x010b)
                && not (spelled bytes 2 (coff_of bytes + 20) == 0x020b))
              bad_magic (ground arith),
        )
        refl

  read_header-count :
      (flag : Bool)
      → has_magic bytes ≡ true
      → has_count bytes ≡ false
      → read_header bytes (spelled bytes 4 0x3c) flag ≡ err bad_count
  unfolding read_header
  read_header-count flag h k =
      let (flag1, e1) = u16-spells flag (coff_of bytes) (omega (arith, coff-lt)) in
      let (flag2, e2) = u16-spells flag1 (coff_of bytes + 2) (omega (arith, coff-lt)) in
      let (flag3, e3) = u16-spells flag2 (coff_of bytes + 16) (omega (arith, coff-lt)) in
      let (flag4, e4) = u16-spells flag3 (coff_of bytes + 18) (omega (arith, coff-lt)) in
      let (flag5, e5) = u16-spells flag4 (coff_of bytes + 20) (omega (arith, coff-lt)) in
      let (flag6, e6) = u32-spells flag5 (coff_of bytes + 20 + 16) (omega (arith, coff-lt)) in
      let wide = spelled bytes 2 (coff_of bytes + 20) == 0x020b in
      let (p, e7) = read_base-ok wide (coff_of bytes + 20) flag6 (omega (arith, coff-lt)) in
      let (flag8, e8) =
        u32-spells p.1 (coff_of bytes + 20 + (if wide then 108 else 92))
          (ground (arith, coff-lt)) in
      rw
        (
          e1,
          e2,
          e3,
          e4,
          e5,
          reject_ok
              (not (spelled bytes 2 (coff_of bytes + 20) == 0x010b)
                && not (spelled bytes 2 (coff_of bytes + 20) == 0x020b))
              bad_magic (ground arith),
          e6,
          e7,
          e8,
          reject_err (ltb 4096 (spelled bytes 2 (coff_of bytes + 2))) bad_count (ground arith),
        )
        refl

  -- On an image, parse_bytes rejects with the first fault in this order. An image shorter than 64 bytes,
  -- or one that does not start with MZ, is not a PE file. Otherwise the image has an invalid signature
  -- if it does not reach 24 bytes behind the offset at 0x3c, as a sum of 32 bits, or the four bytes at
  -- that offset are not "PE", 0, 0. Otherwise the magic of the optional header is unknown if it is not
  -- 0x10b or 0x20b. Otherwise the count of sections is implausible if it is more than 4096.
  pub parse_bytes-rejects :
      (source_name : Text) (e : Error)
      → first_fault bytes ≡ some e
      → parse_bytes source_name bytes ≡ err e
  unfolding parse_bytes
  parse_bytes-rejects source_name e h = elim (Bool-cases (has_stub bytes)) [
    | inr a ↦ rw (check_stub_lem, a) (fault not_pe (rw a at h))
    | inl a ↦ elim (Bool-cases (has_signature bytes)) [
      | inr b ↦ rw (check_stub_lem, a, check_signature-err b) (fault bad_signature (rw (a, b) at h))
      | inl b ↦
          let (flag, at) = check_signature-ok b in
          elim (Bool-cases (has_magic bytes)) [
            | inr c ↦
                rw (check_stub_lem, a, at, read_header-magic flag c)
                  (fault bad_magic (rw (a, b, c) at h))
            | inl c ↦ elim (Bool-cases (has_count bytes)) [
              | inr d ↦
                  rw (check_stub_lem, a, at, read_header-count flag c d)
                    (fault bad_count (rw (a, b, c, d) at h))
              | inl d ↦ let f : none ≡ some e = rw (a, b, c, d) at h in cc
            ]
          ]
    ]
  ]
    where
      fault : (d : Error) → some d ≡ some e → Path (Result File) (err d) (err e)
      fault d f = ap err (some-injective _ _ f)
