-- ===== src/Elf/Adapter/Strings.antt =====
-- src/elf/elf.cpp: extract_strings.
pub mod Steps
pub mod Laws
use roe.Base.{
  ℕ, zero, suc, ◌+◌, ◌-◌, ◌≤◌, ◌<◌, Bool, true, false, ◌&&◌, ◌||◌, not, Option, none, some, List,
  [], ◌∷◌, ◌++◌, length, take, drop, ltb, leb, ◌==◌, if◌then◌else◌,
}
use roe.Base.Text.{Text, is_empty}
use roe.Binary.Types.{StringLiteral}
use roe.Elf.Types.{Bytes, File, Section}
use roe.Core.Result.{Result, ok, ◌>>=◌}
use roe.Elf.Reader.{add64, slice}
use roe.Elf.Parse.{SectionBytes, section_bytes}
use roe.Elf.Strings.{sht_nobits}
use roe.Elf.Symbols.{sht_strtab}
use roe.Elf.Adapter.{has_flag, shf_alloc_flag, shf_write_flag}

unfoldable pub printable_string_byte : ℕ → Bool
printable_string_byte byte =
    (leb 0x20 byte && ltb byte 0x7f) || byte == 9 || byte == 0x0a || byte == 0x0d

abbrev pub max_strings : ℕ
max_strings = 200000

-- The variables of the loop over the bytes, and whether `max_strings` is reached.
pub record Scan : Type 0 where
  pub start : ℕ
  pub current : Text
  pub strings : List StringLiteral
  pub full : Bool

-- A zero byte ends a string.
unfoldable pub end_string : ℕ → ℕ → Scan → Scan
end_string index address scan =
    if leb 2 (length scan.current)
    then record {
      start = scan.start;
      current = [];
      strings =
          scan.strings
          ++ (record {
            object_index = index;
            address = add64 address scan.start;
            size = length scan.current;
            value = scan.current;
          }
              ∷ []);
      full = leb max_strings (length scan.strings + 1);
    }
    else record scan { current = [] }

unfoldable pub scan_byte : ℕ → ℕ → ℕ → ℕ → Scan → Scan
scan_byte index address offset byte scan =
    if byte == 0
    then end_string index address scan
    else if printable_string_byte byte
    then record {
      start = if is_empty scan.current then offset else scan.start;
      current = scan.current ++ (byte ∷ []);
      strings = scan.strings;
      full = scan.full;
    }
    else record scan { current = [] }

-- `for (it = begin; it != end; ++it, ++offset)`
unfoldable pub scan_bytes : ℕ → ℕ → Bytes → ℕ → Scan → Scan
scan_bytes index address [] offset scan = scan
scan_bytes index address (byte ∷ bytes) offset scan =
    let next = scan_byte index address offset byte scan in
    let rest = scan_bytes index address bytes (offset + 1) next in if next.full then next else rest

unfoldable pub is_program_data : Section → Bool
is_program_data s =
    (has_flag s.flags shf_alloc_flag && not (has_flag s.flags shf_write_flag) && not s.executable)
    && not (s.type == sht_nobits || s.type == sht_strtab)

-- The bytes between the iterators.
abbrev pub content : Bytes → SectionBytes → Result Bytes
content image b = slice image b.first (b.last - b.first)

abbrev pub fresh : List StringLiteral → Scan
fresh strings = record { start = 0; current = []; strings = strings; full = false }

abbrev pub scan_content :
    ℕ → Bytes → Section → List StringLiteral → Option SectionBytes → Result Scan
scan_content index image s strings none = ok (fresh strings)
scan_content index image s strings (some b) = do
  bytes ← content image b
  ok (scan_bytes index s.address bytes 0 (fresh strings))

unfoldable pub scan_section : ℕ → File → Section → List StringLiteral → Result Scan
scan_section index file s strings =
    if is_program_data s
    then scan_content index file.image s strings (section_bytes file s)
    else ok (fresh strings)

-- `for (const Section& section : file.sections)`
unfoldable pub scan_sections :
    ℕ → File → List Section → List StringLiteral → Result (List StringLiteral)
scan_sections index file [] strings = ok strings
scan_sections index file (s ∷ sections) strings = scan_section index file s strings >>= λ next.
    let rest = scan_sections index file sections next.strings in
    if next.full then ok next.strings else rest

-- The strings that are added to an object that has none.
unfoldable pub extract_strings : File → ℕ → Result (List StringLiteral)
extract_strings file index = scan_sections index file file.sections []
