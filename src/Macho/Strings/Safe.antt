-- ===== src/Macho/Strings/Safe.antt =====
-- The strings of a Mach-O image are read inside it.
use roe.Base.{
  ℕ, ◌+◌, ◌-◌, ◌≤◌, ◌||◌, not, List, [], ◌∷◌, length, ltb, ◌==◌, arith, Bool-cases, inl, inr,
}
use roe.Core.Result.{Gives}
use roe.Binary.Types.{Section, StringLiteral}
use roe.Elf.Types.{Bytes}
use roe.Elf.Reader.Windows.{slice-ok}
use roe.Macho.Strings.{is_stringy, is_scanned, scan_section, extract_strings}

pub extract_strings-Gives :
    (index : ℕ) (image : Bytes) (sections : List Section) (strings : List StringLiteral)
    → Gives (λ _. Unit {0}) (extract_strings index image sections strings)
unfolding extract_strings scan_section is_scanned
extract_strings-Gives index image [] strings = tt
extract_strings-Gives index image (s ∷ sections) strings =
    elim (Bool-cases (
      not (
        (not (is_stringy s.kind) || s.offset == 0)
        || (ltb (length image) s.offset || ltb (length image - s.offset) s.size)))) [
          | inl e ↦
              let fits : s.offset + s.size ≤ length image = ground arith in
              rw (e, slice-ok image s.offset s.size fits)
                (extract_strings-Gives index image sections _)
          | inr e ↦ rw e (extract_strings-Gives index image sections strings)
        ]
