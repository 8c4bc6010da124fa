-- ===== src/Elf/Sections.antt =====
-- src/elf/elf.cpp: parse_section_header and parse_section_headers.
pub mod Fields
pub mod Safe
use roe.Base.{
  ℕ, zero, suc, ◌+◌, ◌*◌, ◌/◌, ◌%◌, ◌^◌, bit_and, Bool, true, false, ◌&&◌, ◌||◌, not, List, [], ◌∷◌,
  length, ltb, leb, ◌==◌, if◌then◌else◌,
}
use roe.Base.Text.{Text, text}
use roe.Core.Error.{Error, make_error, make_error_at, malformed_input}
use roe.Core.Result.{Result, ok, err, ◌>>=◌, ◌>>◌, reject, or_error, element}
use roe.Elf.Types.{Bytes, Class, elf32, elf64, Header, Section, RawSection, ByteRange}
use roe.Elf.Reader.{Reader, add64, mul64, validate_range, u32, u64}
use roe.Elf.Strings.{range_for_section, string_from_table, sht_nobits, section_label}

abbrev pub shf_execinstr : ℕ
shf_execinstr = 4

abbrev pub shn_xindex : ℕ
shn_xindex = 0xffff

abbrev pub pn_xnum : ℕ
pn_xnum = 0xffff

abbrev pub unread : ℕ → Error
unread offset = make_error_at malformed_input (text "failed to read section header") offset

-- A section that is still without its name.
abbrev pub raw_section : ℕ → ℕ → ℕ → ℕ → ℕ → ℕ → ℕ → ℕ → ℕ → ℕ → ℕ → RawSection
raw_section index name type flags address offset size link info alignment entry_size = record {
  section = record {
    name = [];
    index = index;
    type = type;
    flags = flags;
    address = address;
    offset = offset;
    size = size;
    alignment = alignment;
    executable = not (bit_and flags shf_execinstr == 0);
  };
  name_offset = name;
  link = link;
  info = info;
  entry_size = entry_size;
}

-- The eight reads of each class; a failure of any of them has one error.
unfoldable pub section_fields : Class → Reader → ℕ → ℕ → ℕ → ℕ → Result RawSection
section_fields elf64 r offset index name type = do
  flags ← or_error (unread offset) (u64 r (add64 offset 8))
  address ← or_error (unread offset) (u64 r (add64 offset 16))
  section_offset ← or_error (unread offset) (u64 r (add64 offset 24))
  size ← or_error (unread offset) (u64 r (add64 offset 32))
  link ← or_error (unread offset) (u32 r (add64 offset 40))
  info ← or_error (unread offset) (u32 r (add64 offset 44))
  alignment ← or_error (unread offset) (u64 r (add64 offset 48))
  entry_size ← or_error (unread offset) (u64 r (add64 offset 56))
  ok (raw_section index name type flags address section_offset size link info alignment entry_size)
section_fields elf32 r offset index name type = do
  flags ← or_error (unread offset) (u32 r (add64 offset 8))
  address ← or_error (unread offset) (u32 r (add64 offset 12))
  section_offset ← or_error (unread offset) (u32 r (add64 offset 16))
  size ← or_error (unread offset) (u32 r (add64 offset 20))
  link ← or_error (unread offset) (u32 r (add64 offset 24))
  info ← or_error (unread offset) (u32 r (add64 offset 28))
  alignment ← or_error (unread offset) (u32 r (add64 offset 32))
  entry_size ← or_error (unread offset) (u32 r (add64 offset 36))
  ok (raw_section index name type flags address section_offset size link info alignment entry_size)

unfoldable pub parse_section_header : Reader → Header → ℕ → ℕ → Result RawSection
parse_section_header r h offset index = do
  name ← or_error (unread offset) (u32 r offset)
  type ← or_error (unread offset) (u32 r (add64 offset 4))
  section_fields h.elf_class r offset index name type

-- What the first entry overrides in the header, where the counts do not fit their members.
abbrev pub extended : Header → RawSection → Header
extended h first = record h {
  section_header_count =
      if h.section_header_count == 0 then first.section.size else h.section_header_count;
  section_name_index =
      if h.section_name_index == shn_xindex then first.link else h.section_name_index;
  program_header_count =
      if h.program_header_count == pn_xnum then first.info else h.program_header_count;
}

unfoldable pub is_extended : Header → Bool
is_extended h =
    h.section_header_count == 0
    || h.section_name_index == shn_xindex
    || h.program_header_count == pn_xnum

unfoldable pub read_first : Reader → Header → Result Header
read_first r h = do
  validate_range h.section_header_offset h.section_header_entry_size (length r.bytes)
      (text "section header table")
  first ← parse_section_header r h h.section_header_offset 0
  ok (extended h first)

unfoldable pub extend_header : Reader → Header → Result Header
extend_header r h = if is_extended h then read_first r h else ok h

-- `for (i = 0; i < section_header_count; ++i)` with `rounds` entries left.
unfoldable pub section_loop : Reader → Header → ℕ → ℕ → Result (List RawSection)
section_loop r h zero i = ok []
section_loop r h (suc rounds) i = do
  raw ←
      parse_section_header r h (add64 h.section_header_offset (mul64 i h.section_header_entry_size))
        (i % 2 ^ 16)
  rest ← section_loop r h rounds (i + 1)
  ok (raw ∷ rest)

unfoldable pub section_table : Reader → Header → Result (List RawSection)
section_table r h = do
  let total_size = mul64 h.section_header_count h.section_header_entry_size
  reject
      (not (h.section_header_count == 0)
        && not (total_size / h.section_header_count == h.section_header_entry_size))
      (make_error malformed_input (text "section header table size overflows"))
  validate_range h.section_header_offset total_size (length r.bytes) (text "section header table")
  reject (ltb 0xffff h.section_header_count)
      (make_error malformed_input (text "too many sections for public model"))
  section_loop r h h.section_header_count 0

abbrev pub named : RawSection → Text → RawSection
named raw name = record raw { section = record (raw.section) { name = name } }

-- `for (auto& section : sections)`: the names.
unfoldable pub name_loop : Bytes → ByteRange → List RawSection → Result (List RawSection)
name_loop image names [] = ok []
name_loop image names (raw ∷ raws) = do
  name ← string_from_table image names raw.name_offset (text "section name string table")
  rest ← name_loop image names raws
  ok (named raw name ∷ rest)

unfoldable pub name_sections : Bytes → ℕ → List RawSection → Result (List RawSection)
name_sections image index [] = ok []
name_sections image index (raw ∷ raws) = do
  names_section ← element (raw ∷ raws) index
  names ← range_for_section image names_section
  name_loop image names (raw ∷ raws)

unfoldable pub check_range : Bytes → RawSection → Result (Unit {0})
check_range image raw =
    if raw.section.type == sht_nobits
    then ok tt
    else validate_range raw.section.offset raw.section.size (length image)
        (section_label raw.section.name)

-- `for (const auto& section : sections)`: the ranges.
unfoldable pub check_ranges : Bytes → List RawSection → Result (Unit {0})
check_ranges image [] = ok tt
check_ranges image (raw ∷ raws) = do check_range image raw; check_ranges image raws

unfoldable pub read_sections : Reader → Header → Result (Header × List RawSection)
read_sections r h = do
  reject (h.section_header_entry_size == 0)
      (make_error malformed_input (text "section header entry size is zero"))
  h' ← extend_header r h
  sections ← section_table r h'
  reject (leb (length sections) h'.section_name_index && not (length sections == 0))
      (make_error malformed_input (text "section name string table index is invalid"))
  sections' ← name_sections r.bytes h'.section_name_index sections
  check_ranges r.bytes sections'
  ok (h', sections')

-- The header is a reference in the source: the new one is returned with the sections.
unfoldable pub parse_section_headers : Bytes → Header → Result (Header × List RawSection)
parse_section_headers image h =
    if h.section_header_count == 0 && h.section_header_offset == 0
    then ok (h, [])
    else read_sections (record { bytes = image; endianness = h.endianness }) h
