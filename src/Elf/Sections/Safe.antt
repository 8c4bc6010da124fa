-- ===== src/Elf/Sections/Safe.antt =====
-- Sections are read without a fault, and each that has bytes lies inside the image.
use roe.Base.{
  ℕ, zero, suc, ◌+◌, ◌^◌, ◌≤◌, ◌<◌, ◌≡◌, ◌≢◌, false, not, ◌&&◌, List, [], ◌∷◌, length, All, arith,
  leb, ◌==◌, ==→eq, Bool-cases, inl, inr,
}
use roe.Base.Text.{text}
use roe.Core.Result.{element, Returns, Returns-bind, Returns-element, Returns-weaken, bind_reject}
use roe.Elf.Types.{Bytes, IsImage, Header, RawSection, ByteRange}
use roe.Elf.Header.{phdr_size}
use roe.Elf.Header.Safe.{IsChecked}
use roe.Elf.Reader.{Reader, mul64}
use roe.Elf.Reader.Bounds.{validate_range-Returns, bind_range}
use roe.Elf.Strings.{range_for_section, string_from_table, sht_nobits, section_label}
use roe.Elf.Strings.Safe.{Inside, range_for_section-Returns, string_from_table-Returns}
use roe.Elf.Sections.{
  extended, parse_section_header, is_extended, read_first, extend_header, section_loop,
  section_table, name_loop, name_sections, check_range, check_ranges, read_sections,
  parse_section_headers,
}
use roe.Elf.Sections.Fields.{HasWidths, parse_section_header-Returns}

-- All bytes of the section lie inside the image.
pub record IsReadable (image : Bytes) (raw : RawSection) : Type 0 where
  pub widths : HasWidths raw
  pub inside : raw.section.type ≢ sht_nobits → raw.section.offset + raw.section.size ≤ length image

-- The header still admits a read of every program header of a table inside the image.
pub record HasProgramHeaders (h : Header) : Type 0 where
  pub program_header_offset_lt : h.program_header_offset < 2 ^ 64
  pub program_header_entry_size_lt : h.program_header_entry_size < 2 ^ 16
  pub program_header_count_lt : h.program_header_count < 2 ^ 32
  pub program_entries :
      0 < h.program_header_count → phdr_size h.elf_class ≤ h.program_header_entry_size

extended-HasProgramHeaders :
    (h : Header) (first : RawSection)
    → IsChecked h
    → HasWidths first
    → HasProgramHeaders (extended h first)
extended-HasProgramHeaders h first c w = record {
  program_header_offset_lt = c.widths.program_header_offset_lt;
  program_header_entry_size_lt = c.widths.program_header_entry_size_lt;
  program_header_count_lt = ground (arith, c.widths.program_header_count_lt, w.info_lt);
  program_entries = λ p. c.program_entries (ground arith);
}

unextended : (h : Header) → IsChecked h → HasProgramHeaders h
unextended h c = record {
  program_header_offset_lt = c.widths.program_header_offset_lt;
  program_header_entry_size_lt = c.widths.program_header_entry_size_lt;
  program_header_count_lt = omega (arith, c.widths.program_header_count_lt);
  program_entries = c.program_entries;
}

extend_header-Returns :
    (r : Reader) (h : Header)
    → IsImage r.bytes
    → IsChecked h
    → Returns HasProgramHeaders (extend_header r h)
unfolding extend_header read_first
extend_header-Returns r h image c = elim (Bool-cases (is_extended h)) [
  | inl e ↦ rw e (
      bind_range HasProgramHeaders h.section_header_offset h.section_header_entry_size
        (length r.bytes) (text "section header table") _
        λ _.
          Returns-bind HasWidths HasProgramHeaders
            (parse_section_header r h h.section_header_offset 0) _
            (parse_section_header-Returns r h h.section_header_offset 0 image)
            λ first w. extended-HasProgramHeaders h first c w)
  | inr e ↦ rw e (unextended h c)
]

section_loop-Returns :
    (r : Reader) (h : Header) (rounds i : ℕ)
    → IsImage r.bytes
    → Returns (All HasWidths) (section_loop r h rounds i)
unfolding section_loop
section_loop-Returns r h zero i image = tt
section_loop-Returns r h (suc rounds) i image =
    Returns-bind HasWidths (All HasWidths) (parse_section_header r h _ _) _
      (parse_section_header-Returns r h _ _ image)
      λ raw w.
        Returns-bind (All HasWidths) (All HasWidths) (section_loop r h rounds (i + 1)) _
          (section_loop-Returns r h rounds (i + 1) image) λ rest ws. (w, ws)

section_table-Returns :
    (r : Reader) (h : Header) → IsImage r.bytes → Returns (All HasWidths) (section_table r h)
unfolding section_table
section_table-Returns r h image = bind_reject (All HasWidths) _ _ _ λ _.
    bind_range (All HasWidths) h.section_header_offset
      (mul64 h.section_header_count h.section_header_entry_size) (length r.bytes)
      (text "section header table") _
      λ _.
        bind_reject (All HasWidths) _ _ _
          λ _. section_loop-Returns r h h.section_header_count 0 image

name_loop-Returns :
    (image : Bytes) (names : ByteRange) (raws : List RawSection)
    → Inside image names.data_pointer names.size
    → All HasWidths raws
    → Returns (All HasWidths) (name_loop image names raws)
unfolding name_loop
name_loop-Returns image names [] inside ws = tt
name_loop-Returns image names (raw ∷ raws) inside ws =
    Returns-bind (λ _. Unit {0}) (All HasWidths)
      (string_from_table image names raw.name_offset (text "section name string table")) _
      (string_from_table-Returns image names raw.name_offset _ inside)
      λ name _.
        Returns-bind (All HasWidths) (All HasWidths) (name_loop image names raws) _
          (name_loop-Returns image names raws inside ws.1)
          λ rest r. (
            record {
              offset_lt = ws.0.offset_lt;
              size_lt = ws.0.size_lt;
              link_lt = ws.0.link_lt;
              info_lt = ws.0.info_lt;
              entry_size_lt = ws.0.entry_size_lt;
            },
            r,
          )

name_sections-Returns :
    (image : Bytes) (index : ℕ) (raws : List RawSection)
    → (leb (length raws) index && not (length raws == 0)) ≡ false
    → All HasWidths raws
    → Returns (All HasWidths) (name_sections image index raws)
unfolding name_sections
name_sections-Returns image index [] valid ws = tt
name_sections-Returns image index (raw ∷ raws) valid ws =
    Returns-bind HasWidths (All HasWidths) (element (raw ∷ raws) index) _
      (Returns-element HasWidths (raw ∷ raws) index (ground arith) ws)
      λ names_section _.
        Returns-bind (λ t. Inside image t.data_pointer t.size) (All HasWidths)
          (range_for_section image names_section) _ (range_for_section-Returns image names_section)
          λ names inside. name_loop-Returns image names (raw ∷ raws) inside ws

check_range-Returns :
    (image : Bytes) (raw : RawSection)
    → Returns
        (λ _. raw.section.type ≢ sht_nobits → raw.section.offset + raw.section.size ≤ length image)
        (check_range image raw)
unfolding check_range
check_range-Returns image raw = elim (Bool-cases (raw.section.type == sht_nobits)) [
  | inl e ↦ rw e λ ne. absurd (ne (==→eq _ _ e))
  | inr e ↦ rw e (
      Returns-weaken (λ _. raw.section.offset + raw.section.size ≤ length image) _ _
        (validate_range-Returns raw.section.offset raw.section.size (length image)
          (section_label raw.section.name))
        λ _ h _. h)
]

check_ranges-Returns :
    (image : Bytes) (raws : List RawSection)
    → All HasWidths raws
    → Returns (λ _. All (IsReadable image) raws) (check_ranges image raws)
unfolding check_ranges
check_ranges-Returns image [] ws = tt
check_ranges-Returns image (raw ∷ raws) ws =
    Returns-bind _ (λ _. All (IsReadable image) (raw ∷ raws)) (check_range image raw) _
      (check_range-Returns image raw)
      λ _ inside.
        Returns-weaken (λ _. All (IsReadable image) raws) _ (check_ranges image raws)
          (check_ranges-Returns image raws ws.1)
          λ _ rest. (record { widths = ws.0; inside = inside }, rest)

-- What the section headers leave behind for the parsers of the other tables.
abbrev pub IsParsed : Bytes → Header × List RawSection → Type 0
IsParsed image p = HasProgramHeaders p.0 × All (IsReadable image) p.1

read_sections-Returns :
    (r : Reader) (h : Header)
    → IsImage r.bytes
    → IsChecked h
    → Returns (IsParsed r.bytes) (read_sections r h)
unfolding read_sections
read_sections-Returns r h image c = bind_reject (IsParsed r.bytes) _ _ _ λ _.
    Returns-bind HasProgramHeaders (IsParsed r.bytes) (extend_header r h) _
      (extend_header-Returns r h image c)
      λ h' p.
        Returns-bind (All HasWidths) (IsParsed r.bytes) (section_table r h') _
          (section_table-Returns r h' image)
          λ raws ws. bind_reject (IsParsed r.bytes) _ _ _ λ valid.
            Returns-bind (All HasWidths) (IsParsed r.bytes)
              (name_sections r.bytes h'.section_name_index raws) _
              (name_sections-Returns r.bytes h'.section_name_index raws valid ws)
              λ named ns.
                Returns-bind (λ _. All (IsReadable r.bytes) named) (IsParsed r.bytes)
                  (check_ranges r.bytes named) _ (check_ranges-Returns r.bytes named ns)
                  λ _ readable. (p, readable)

-- For an image and a header that parse_header has checked, parse_section_headers does not abort. Each
-- section that it returns has words that fit their members and, unless it is one without bytes
-- (SHT_NOBITS), lies inside the image. The header that it returns still has program header fields
-- that fit, and entries large enough for a program header where there are any.
pub parse_section_headers-Returns :
    (image : Bytes) (h : Header)
    → IsImage image
    → IsChecked h
    → Returns (IsParsed image) (parse_section_headers image h)
unfolding parse_section_headers
parse_section_headers-Returns image h i c =
    elim (Bool-cases (h.section_header_count == 0 && h.section_header_offset == 0)) [
      | inl e ↦ rw e (unextended h c, tt)
      | inr e ↦ rw e (read_sections-Returns _ h i c)
    ]
