-- ===== src/Pe/Reader/Laws.antt =====
-- The reads of a PE file inside and outside the image, and the sections of an address.
use roe.Base.{
  ℕ, zero, suc, ◌+◌, ◌-◌, ◌%◌, ◌^◌, ◌≤◌, ◌<◌, ◌≡◌, refl, ap, Bool, true, false, Option, none, some,
  List, [], ◌∷◌, ◌++◌, length, length-drop, drop, All, All-get_or, arith, ltb, leb, ◌==◌,
  Bool-cases, inl, inr, if◌then◌else◌,
}
use roe.Core.Result.{Result, ok, ◌>>=◌, element-eq, Returns, Returns-bind}
use roe.Elf.Types.{Bytes, IsByte, IsImage, little}
use roe.Elf.Reader.{add64, load, word16, word32, word64}
use roe.Elf.Reader.Words.{little_sum, word16-digits, word32-digits, word64-digits}
use roe.Pe.Reader.{
  Read, read, u16, u32, u64, copy_fixed, fixed_string, SectionMap, larger, covers, rva_to_offset,
}

-- What a read of `n` bytes is to return: the number that they spell, or zero and a fallen flag.
abbrev pub decoded : Bytes → Bool → ℕ → ℕ → Read ℕ
decoded bytes flag off n =
    if leb (off + n) (length bytes)
    then ok (little_sum n 0 (load bytes off), flag)
    else ok (0, false)

module _ (bytes : Bytes) (image : IsImage bytes) where
  pub load-IsByte : (start i : ℕ) → IsByte (load bytes start i)
  load-IsByte start i = All-get_or IsByte bytes (start + i) 0 (omega arith) image.is_bytes

  read_by :
      (n off : ℕ) (word : (ℕ → ℕ) → ℕ) (flag : Bool)
      → word (load bytes off) ≡ little_sum n 0 (load bytes off)
      → 0 < n
      → n < 2 ^ 32
      → off < 2 ^ 63
      → read n word bytes flag off ≡ decoded bytes flag off n
  unfolding add64
  read_by n off word flag e pos hn h = elim (Bool-cases (leb (off + n) (length bytes))) [
    | inl t ↦
        let fits : ltb (length bytes) ((off + n) % 2 ^ 64) ≡ false =
          ground (arith, image.size_bound) in
        let (b, at, _) = element-eq bytes (off + (n - 1)) (ground arith) in rw (fits, t, at, e) refl
    | inr t ↦
        let out : ltb (length bytes) ((off + n) % 2 ^ 64) ≡ true =
          ground (arith, image.size_bound) in
        rw (out, t) refl
  ]

  -- On an image, reads at an offset below 2 ^ 63 return the little endian number that the bytes spell
  -- and leave the flag alone where these bytes lie inside the image. Elsewhere they return zero and the
  -- flag falls; no byte outside is touched.
  pub pe_reads-decode :
      (flag : Bool) (off : ℕ)
      → off < 2 ^ 63
      → (u16 bytes flag off ≡ decoded bytes flag off 2)
        × (u32 bytes flag off ≡ decoded bytes flag off 4)
        × (u64 bytes flag off ≡ decoded bytes flag off 8)
  unfolding u16 u32 u64
  pe_reads-decode flag off h = (
    read_by 2 off (word16 little) flag (word16-digits _ (load-IsByte off) little) (omega arith)
        (omega arith) h,
    read_by 4 off (word32 little) flag (word32-digits _ (load-IsByte off) little) (omega arith)
        (omega arith) h,
    read_by 8 off (word64 little) flag (word64-digits _ (load-IsByte off) little) (omega arith)
        (omega arith) h,
  )

  -- The step of a `do` block that reads a word of four bytes.
  pub u32-Returns :
      (flag : Bool) (off : ℕ) → off < 2 ^ 63 → Returns (λ _. Unit {0}) (u32 bytes flag off)
  u32-Returns flag off h =
      let (_, e, _) = pe_reads-decode flag off h in
      rw e (elim (Bool-cases (leb (off + 4) (length bytes))) [ inl t ↦ rw t tt | inr t ↦ rw t tt ])

  -- The same for a word of eight bytes.
  pub u64-Returns :
      (flag : Bool) (off : ℕ) → off < 2 ^ 63 → Returns (λ _. Unit {0}) (u64 bytes flag off)
  u64-Returns flag off h =
      let (_, _, e) = pe_reads-decode flag off h in
      rw e (elim (Bool-cases (leb (off + 8) (length bytes))) [ inl t ↦ rw t tt | inr t ↦ rw t tt ])

  -- A word that is read lies below the limit of its width.
  decoded-lt :
      (flag : Bool) (off n limit : ℕ)
      → little_sum n 0 (load bytes off) < limit
      → Returns (λ p. p.0 < limit) (decoded bytes flag off n)
  decoded-lt flag off n limit h = elim (Bool-cases (leb (off + n) (length bytes))) [
    | inl t ↦ rw t h
    | inr t ↦ rw t (omega arith)
  ]

  pub u16-lt :
      (flag : Bool) (off : ℕ) → off < 2 ^ 63 → Returns (λ p. p.0 < 2 ^ 16) (u16 bytes flag off)
  u16-lt flag off h =
      rw (pe_reads-decode flag off h).0
        (decoded-lt flag off 2 (2 ^ 16) (omega (arith, load-IsByte off 0, load-IsByte off 1)))

  pub u32-lt :
      (flag : Bool) (off : ℕ) → off < 2 ^ 63 → Returns (λ p. p.0 < 2 ^ 32) (u32 bytes flag off)
  u32-lt flag off h = rw (pe_reads-decode flag off h).1 (
      decoded-lt flag off 4 (2 ^ 32)
        (omega (arith, load-IsByte off 0, load-IsByte off 1, load-IsByte off 2, load-IsByte off 3)))

  -- The steps of a `do` block that read a word, which lies below the limit of its width.
  pub bind_u16 :
      {B : Type 0} (Q : B → Type 0) (flag : Bool) (off : ℕ) (f : ℕ × Bool → Result B)
      → off < 2 ^ 63
      → ((a : ℕ) (flag' : Bool) → a < 2 ^ 16 → Returns Q (f (a, flag')))
      → Returns Q (u16 bytes flag off >>= f)
  bind_u16 Q flag off f h k =
      Returns-bind (λ p. p.0 < 2 ^ 16) Q (u16 bytes flag off) f (u16-lt flag off h)
        λ (a, flag') near. k a flag' near

  pub bind_u32 :
      {B : Type 0} (Q : B → Type 0) (flag : Bool) (off : ℕ) (f : ℕ × Bool → Result B)
      → off < 2 ^ 63
      → ((a : ℕ) (flag' : Bool) → a < 2 ^ 32 → Returns Q (f (a, flag')))
      → Returns Q (u32 bytes flag off >>= f)
  bind_u32 Q flag off f h k =
      Returns-bind (λ p. p.0 < 2 ^ 32) Q (u32 bytes flag off) f (u32-lt flag off h)
        λ (a, flag') near. k a flag' near

copy_fixed-Returns :
    (n : ℕ) (bytes : Bytes) → n ≤ length bytes → Returns (λ _. Unit {0}) (copy_fixed n bytes)
unfolding copy_fixed
copy_fixed-Returns zero bytes h = tt
copy_fixed-Returns (suc n) [] h = elim h [ ]
copy_fixed-Returns (suc n) (b ∷ bytes) h = elim (Bool-cases (b == 0)) [
  | inl e ↦ rw e tt
  | inr e ↦ rw e (
      Returns-bind (λ _. Unit {0}) (λ _. Unit {0}) (copy_fixed n bytes) (λ t. ok (b ∷ t))
        (copy_fixed-Returns n bytes (omega arith)) λ _ _. tt)
]

pub fixed_string-Returns :
    (bytes : Bytes) (flag : Bool) (off n : ℕ)
    → off + n < 2 ^ 64
    → Returns (λ _. Unit {0}) (fixed_string bytes flag off n)
unfolding fixed_string add64
fixed_string-Returns bytes flag off n h =
    elim (Bool-cases (ltb (length bytes) ((off + n) % 2 ^ 64))) [
      | inl e ↦ rw e tt
      | inr e ↦ rw e (
          Returns-bind (λ _. Unit {0}) (λ _. Unit {0}) (copy_fixed n (drop off bytes)) _
            (copy_fixed-Returns n (drop off bytes) (ground (arith, length-drop off bytes)))
            λ _ _. tt)
    ]

-- A read of any width and order returns a number below the limit of its word.
pub read-Returns :
    (n : ℕ) (word : (ℕ → ℕ) → ℕ) (bytes : Bytes) (flag : Bool) (off limit : ℕ)
    → 0 < n
    → off + n < 2 ^ 64
    → 0 < limit
    → word (load bytes off) < limit
    → Returns (λ p. p.0 < limit) (read n word bytes flag off)
unfolding add64
read-Returns n word bytes flag off limit pos near some_limit below =
    elim (Bool-cases (ltb (length bytes) ((off + n) % 2 ^ 64))) [
      | inl e ↦ rw e some_limit
      | inr e ↦ let (b, at, _) = element-eq bytes (off + (n - 1)) (ground arith) in rw (e, at) below
    ]

-- The section gives the address a place in the file: the address lies in its span, which ends below
-- 2 ^ 32, and in its raw data.
abbrev pub IsPlace : SectionMap → ℕ → Type 0
IsPlace s rva =
    (s.va ≤ rva) × (rva < (s.va + larger s.vsize s.rawsize) % 2 ^ 32) × (rva - s.va < s.rawsize)

-- The first section that has a place for the address gives it, or none has.
abbrev pub IsMapped : List SectionMap → ℕ → Option ℕ → Type 0
IsMapped sections rva none = All (λ s. ¬ IsPlace s rva) sections
IsMapped sections rva (some out) =
    (before : List SectionMap) × (s : SectionMap) × (after : List SectionMap) × (sections
      ≡ before ++ (s ∷ after))
    × All (λ t. ¬ IsPlace t rva) before
    × IsPlace s rva
    × (out ≡ s.raw + (rva - s.va))

covers-IsPlace : (s : SectionMap) (rva : ℕ) → covers s rva ≡ true → IsPlace s rva
unfolding covers
covers-IsPlace s rva e = ground arith

covers-ne : (s : SectionMap) (rva : ℕ) → covers s rva ≡ false → ¬ IsPlace s rva
unfolding covers
covers-ne s rva e p = ground arith

IsMapped-cons :
    (s : SectionMap) (sections : List SectionMap) (rva : ℕ) (o : Option ℕ)
    → ¬ IsPlace s rva
    → IsMapped sections rva o
    → IsMapped (s ∷ sections) rva o
IsMapped-cons s sections rva none outside m = (outside, m)
IsMapped-cons s sections rva (some out) outside (before, t, after, e, all, p, q) =
    (s ∷ before, t, after, ap (λ (l : List SectionMap). s ∷ l) e, (outside, all), p, q)

-- rva_to_offset answers with the file position of the address in the first section that has a place
-- for it, and with nothing only where no section has one.
pub rva_to_offset-IsMapped :
    (sections : List SectionMap) (rva : ℕ) → IsMapped sections rva (rva_to_offset sections rva)
unfolding rva_to_offset
rva_to_offset-IsMapped [] rva = tt
rva_to_offset-IsMapped (s ∷ sections) rva = elim (Bool-cases (covers s rva)) [
  | inl e ↦ rw e ([], s, sections, refl, tt, covers-IsPlace s rva e, refl)
  | inr e ↦ rw e (
      IsMapped-cons s sections rva (rva_to_offset sections rva) (covers-ne s rva e)
        (rva_to_offset-IsMapped sections rva))
]

-- The fields of a section are words of 32 bits.
abbrev pub IsWord : SectionMap → Type 0
IsWord s = (s.raw < 2 ^ 32) × (s.rawsize < 2 ^ 32)

abbrev pub IsNear : Option ℕ → Type 0
IsNear none = Unit {0}
IsNear (some out) = out < 2 ^ 33

-- A file position that rva_to_offset gives does not pass 2 ^ 33.
pub rva_to_offset-IsNear :
    (sections : List SectionMap) (rva : ℕ)
    → All IsWord sections
    → IsNear (rva_to_offset sections rva)
unfolding rva_to_offset
rva_to_offset-IsNear [] rva all = tt
rva_to_offset-IsNear (s ∷ sections) rva all = elim (Bool-cases (covers s rva)) [
  | inl e ↦ let p = covers-IsPlace s rva e in rw e (omega (arith, p.2, all.0.0, all.0.1))
  | inr e ↦ rw e (rva_to_offset-IsNear sections rva all.1)
]
