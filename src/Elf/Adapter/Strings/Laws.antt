-- ===== src/Elf/Adapter/Strings/Laws.antt =====
-- Each extracted string stands in its section, between what it is not part of and a zero byte.
use roe.Base.{
  Elem, ℕ, ◌≤◌, ◌<◌, ◌≡◌, refl, inl, inr, ◌+◌, ◌-◌, ◌==◌, true, false, none, some, List, [], ◌∷◌,
  length, All, arith, Bool-cases, Option-cases,
}
use roe.Binary.Types.{StringLiteral}
use mathlib.Core.Option.{some-injective}
use roe.Core.Result.{ok, Gives, Gives-bind}
use roe.Elf.Types.{Bytes, File, Section}
use roe.Elf.Reader.{range_within}
use roe.Elf.Reader.Bounds.{range_within-le}
use roe.Elf.Reader.Windows.{slice-ok}
use roe.Elf.Strings.{sht_nobits}
use roe.Elf.Parse.{SectionBytes, section_bytes}
use roe.Elf.Adapter.Strings.Steps.{IsStringOf, scan_bytes-Kept}
use roe.Elf.Adapter.Strings.{
  max_strings, Scan, is_program_data, content, fresh, scan_section, scan_sections, extract_strings,
}

-- A string of the file: one of the bytes of a section that holds program data.
abbrev pub IsLiteral : File → ℕ → StringLiteral → Type 0
IsLiteral file index l =
    (s : Section) × Elem s file.sections
    × (is_program_data s ≡ true)
    × (b : SectionBytes) × (section_bytes file s ≡ some b)
    × (bytes : Bytes) × (content file.image b ≡ ok bytes)
    × IsStringOf index s.address bytes l

-- What the strings satisfy between two sections.
abbrev Extracted : File → ℕ → Scan → Type 0
Extracted file index scan =
    All (IsLiteral file index) scan.strings
    × (length scan.strings ≤ max_strings)
    × (scan.full ≡ false → length scan.strings < max_strings)

module _ (file : File) (index : ℕ) where
  -- The range check of section_bytes keeps the iterators inside the image.
  section_bytes-content :
      (s : Section) (b : SectionBytes)
      → section_bytes file s ≡ some b
      → (bytes : Bytes) × (content file.image b ≡ ok bytes)
  unfolding section_bytes
  section_bytes-content s b at = elim (Bool-cases (s.type == sht_nobits)) [
    | inl n ↦ let bad : none ≡ some b = rw n at at in cc
    | inr n ↦ elim (Bool-cases (range_within s.offset s.size (length file.image))) [
      | inl r ↦
          let made : some
                (record { address = s.address; first = s.offset; last = s.offset + s.size })
              ≡ some b =
            rw (n, r) at at in
          let fits : s.offset + (s.offset + s.size - s.offset) ≤ length file.image =
            omega (arith, range_within-le s.offset s.size (length file.image) r) in
          rw (← some-injective _ _ made)
            (_, slice-ok file.image s.offset (s.offset + s.size - s.offset) fits)
      | inr r ↦ let bad : none ≡ some b = rw (n, r) at at in cc
    ]
  ]

  scan_section-Extracted :
      (s : Section) (strings : List StringLiteral)
      → Elem s file.sections
      → All (IsLiteral file index) strings
      → length strings < max_strings
      → Gives (Extracted file index) (scan_section index file s strings)
  unfolding scan_section
  scan_section-Extracted s strings e all below = elim (Bool-cases (is_program_data s)) [
    | inl d ↦ elim (Option-cases (section_bytes file s)) [
      | inl n ↦ rw (d, n) (all, omega arith, λ _. below)
      | inr (b, at) ↦
          let (bytes, copied) = section_bytes-content s b at in
          rw (d, at, copied)
            (scan_bytes-Kept index s.address bytes (IsLiteral file index)
              (λ l is. (s, e, d, b, at, bytes, copied, is)) bytes 0 (fresh strings) refl
              (record {
                holds = record {
                  before = [];
                  split = refl;
                  ends = refl;
                  starts = inl refl;
                  printable = tt;
                };
                all = all;
                bounded = omega arith;
                room = λ _. below;
              }))
    ]
    | inr d ↦ rw d (all, omega arith, λ _. below)
  ]

  -- What the strings of a file satisfy.
  abbrev pub AreLiterals : List StringLiteral → Type 0
  AreLiterals strings = All (IsLiteral file index) strings × (length strings ≤ max_strings)

  scan_sections-All :
      (sections : List Section) (strings : List StringLiteral)
      → ((s : Section) → Elem s sections → Elem s file.sections)
      → All (IsLiteral file index) strings
      → length strings < max_strings
      → Gives AreLiterals (scan_sections index file sections strings)
  unfolding scan_sections
  scan_sections-All [] strings sub all below = (all, omega arith)
  scan_sections-All (s ∷ sections) strings sub all below =
      Gives-bind (Extracted file index) AreLiterals (scan_section index file s strings) _
        (scan_section-Extracted s strings (sub s (inl refl)) all below)
        λ next (all', bounded, room). elim (Bool-cases next.full) [
          | inl f ↦ rw f (all', bounded)
          | inr f ↦
              rw f (scan_sections-All sections next.strings (λ t e. sub t (inr e)) all' (room f))
        ]

  -- extract_strings reads no byte outside the image, and gives at most max_strings strings. Each stands
  -- in a section of the file that is allocated, neither writable nor executable, and neither a string
  -- table nor SHT_NOBITS: two bytes or more, all printable, with a zero byte behind them. Its address is
  -- the section's plus its position, and its size the number of its bytes.
  pub extract_strings-All : Gives AreLiterals (extract_strings file index)
  unfolding extract_strings
  extract_strings-All = scan_sections-All file.sections [] (λ s e. e) tt (omega arith)
