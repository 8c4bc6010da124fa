-- ===== src/Macho/Strings.antt =====
-- src/macho/macho.cpp: extract_strings.
pub mod Safe
use roe.Base.{
  ℕ, ◌+◌, ◌-◌, Bool, true, false, ◌&&◌, ◌||◌, not, List, [], ◌∷◌, ◌++◌, length, take, drop, ltb,
  leb, ◌==◌, if◌then◌else◌,
}
use roe.Base.Text.{Text, is_empty}
use roe.Binary.Types.{Section, SectionKind, StringLiteral}
use roe.Elf.Types.{Bytes}
use roe.Core.Result.{Result, ok, ◌>>=◌}
use roe.Elf.Reader.{add64, slice}

-- The variables of the loop over the bytes of a section.
pub record Scan : Type 0 where
  pub start : ℕ
  pub current : Text
  pub strings : List StringLiteral

unfoldable pub is_text_byte : ℕ → Bool
is_text_byte byte = ((leb 0x20 byte && ltb byte 0x7f) || byte == 9) || byte == 10

unfoldable pub push_string : ℕ → ℕ → Scan → List StringLiteral
push_string index address scan =
    if leb 2 (length scan.current)
    then scan.strings
      ++ (record {
        object_index = index;
        address = add64 address scan.start;
        size = length scan.current;
        value = scan.current;
      }
          ∷ [])
    else scan.strings

unfoldable pub scan_byte : ℕ → ℕ → ℕ → ℕ → Scan → Scan
scan_byte index address i byte scan =
    if byte == 0
    then record scan { current = []; strings = push_string index address scan }
    else if is_text_byte byte
    then record scan {
      start = if is_empty scan.current then i else scan.start;
      current = scan.current ++ (byte ∷ []);
    }
    else record scan { current = [] }

-- `for (i = 0; i < section.size; ++i)` over the bytes that are left.
unfoldable pub scan_bytes : ℕ → ℕ → Bytes → ℕ → Scan → Scan
scan_bytes index address [] i scan = scan
scan_bytes index address (byte ∷ bytes) i scan =
    scan_bytes index address bytes (i + 1) (scan_byte index address i byte scan)

abbrev pub is_stringy : SectionKind → Bool
is_stringy SectionKind.c_string = true
is_stringy SectionKind.read_only_data = true
is_stringy _ = false

-- The section is read: it may hold strings, and it lies inside the image.
unfoldable pub is_scanned : Bytes → Section → Bool
is_scanned image s = not (
    (not (is_stringy s.kind) || s.offset == 0)
    || (ltb (length image) s.offset || ltb (length image - s.offset) s.size))

unfoldable pub scan_section : ℕ → Bytes → Section → List StringLiteral → Result (List StringLiteral)
scan_section index image s strings =
    let scanned = (do
      bytes ← slice image s.offset s.size
      let first : Scan = record { start = 0; current = []; strings = strings }
      ok (scan_bytes index s.address bytes 0 first).strings) in
    if is_scanned image s then scanned else ok strings

-- `for (const binary::Section& section : object.sections)`
unfoldable pub extract_strings :
    ℕ → Bytes → List Section → List StringLiteral → Result (List StringLiteral)
extract_strings index image [] strings = ok strings
extract_strings index image (s ∷ sections) strings = do
  next ← scan_section index image s strings
  extract_strings index image sections next
