-- ===== src/Elf/Strings.antt =====
-- src/elf/elf.cpp: range_for_section and string_from_table.
pub mod Safe
use roe.Base.{
  ℕ, zero, suc, ◌+◌, ◌-◌, Bool, true, false, ◌||◌, not, [], ◌++◌, length, take, drop, leb, ◌==◌,
  if◌then◌else◌,
}
use roe.Base.Text.{Text, text}
use roe.Core.Error.{Error, make_error_at, malformed_input}
use roe.Core.Result.{Result, ok, err, ◌>>=◌, ◌>>◌, reject, element}
use roe.Elf.Types.{Bytes, RawSection, Pointer, null, at, ByteRange}
use roe.Elf.Reader.{validate_range}

abbrev pub sht_nobits : ℕ
sht_nobits = 8

-- The label of a section in an error.
abbrev pub section_label : Text → Text
section_label name = text "section '" ++ (name ++ text "'")

unfoldable pub range_for_section : Bytes → RawSection → Result ByteRange
range_for_section image raw =
    if raw.section.type == sht_nobits then ok (record { data_pointer = null; size = 0 }) else (do
      validate_range raw.section.offset raw.section.size (length image)
          (section_label raw.section.name)
      ok (record { data_pointer = at raw.section.offset; size = raw.section.size }))

-- `while (end < table.size && table.data[end] != 0) ++end`, with `rounds` positions left below the
-- size.
unfoldable pub find_end : Bytes → ℕ → ℕ → ℕ → Result ℕ
find_end image base zero end = ok end
find_end image base (suc rounds) end = do
  byte ← element image (base + end)
  let rest = find_end image base rounds (end + 1)
  if byte == 0 then ok end else rest

-- The string at a position of a table that starts at `base`.
unfoldable pub string_at : Bytes → ℕ → ℕ → ℕ → Text → Result Text
string_at image base size offset table_name = do
  end ← find_end image base (size - offset) offset
  reject (end == size)
      (make_error_at malformed_input (text "unterminated string in " ++ table_name) offset)
  ok (take (end - offset) (drop (base + offset) image))

-- The error of an offset outside the table.
abbrev pub outside : Text → ℕ → Error
outside table_name offset =
    make_error_at malformed_input (text "string offset is outside " ++ table_name) offset

unfoldable pub nonzero_string : Bytes → Pointer → ℕ → ℕ → Text → Result Text
nonzero_string image null size offset table_name = err (outside table_name offset)
nonzero_string image (at base) size offset table_name =
    if leb size offset
    then err (outside table_name offset)
    else string_at image base size offset table_name

unfoldable pub string_from_table : Bytes → ByteRange → ℕ → Text → Result Text
string_from_table image table offset table_name =
    if offset == 0
    then ok []
    else nonzero_string image table.data_pointer table.size offset table_name
