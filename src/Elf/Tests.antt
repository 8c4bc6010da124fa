-- ===== src/Elf/Tests.antt =====
-- Runs of the ELF parser, and its theorems at a concrete image.
mod Image
mod Opened
use roe.Base.{ℕ, ◌+◌, ◌≡◌, ◌≢◌, refl, true, arith, leb, All, length, List, [], ◌∷◌}
use roe.Base.Text.{text}
use roe.Core.Result.{ok, reject, value, or_error, element}
use roe.Elf.Reader.{
  window, add64, mul64, range_within, validate_range, read_array, u8, u16, u32, u64, i64, word16,
  word32, word64,
}
use roe.Elf.Header.{
  is_magic, class_of, endianness_of, header_fields, check_header, parse_header_body, parse_header,
}
use roe.Elf.Strings.{range_for_section, find_end, string_at, nonzero_string, string_from_table}
use roe.Elf.Sections.{
  section_fields, parse_section_header, is_extended, read_first, extend_header, section_loop,
  section_table, name_loop, name_sections, check_range, check_ranges, read_sections,
  parse_section_headers,
}
use roe.Elf.Segments.{read_segment, segment_loop, segment_table, parse_segments}
use roe.Elf.Symbols.{
  map_symbol_bind, map_symbol_type, read_symbol, parse_symbol, symbol_loop, is_symbol_table,
  symbol_table, section_symbols, symbols_loop, parse_symbols,
}
use roe.Elf.Relocations.{
  read_addend, read_relocation, symbol_name, parse_relocation, relocation_loop, relocation_table,
  is_relocation_table, section_relocations, relocations_loop, parse_relocations,
}
use roe.Elf.Parse.{map_file_type, map_machine, has_static_symbol_table, parse_bytes}
use roe.Core.Result.{aborted, Returns}
use roe.Elf.Types.{Symbol, ByteRange, at, little}
use roe.Elf.Reader.{Reader}
use roe.Elf.Reader.Bounds.{reads_decode, decoded, range_within_lem}
use roe.Elf.Header.Safe.{IsChecked, parse_header-Returns}
use roe.Elf.Strings.Safe.{string_from_table_lem, table_string}
use roe.Elf.Sections.Safe.{IsParsed, IsReadable, parse_section_headers-Returns}
use roe.Elf.Segments.Safe.{AreInside, parse_segments-Returns}
use roe.Elf.Symbols.Safe.{Collects, parse_symbols-Returns}
use roe.Elf.Relocations.Safe.{IsResolved, parse_relocations-Returns}
use roe.Elf.Parse.Safe.{IsWellFormed, parse_bytes-ne-aborted, parse_bytes-IsWellFormed}
use Image.{image, image-IsImage, file, header, raw_sections}

parse_image : parse_bytes (text "a.out") image ≡ ok file
unfolding parse_bytes window parse_header is_magic class_of endianness_of header_fields check_header
    parse_header_body text reject value or_error element add64 mul64 range_within validate_range
    read_array u8 u16 u32 u64 i64 word16 word32 word64 range_for_section find_end string_at
    nonzero_string string_from_table section_fields parse_section_header is_extended read_first
    extend_header section_loop section_table name_loop name_sections check_range check_ranges
    read_sections parse_section_headers read_segment segment_loop segment_table parse_segments
    map_symbol_bind map_symbol_type read_symbol parse_symbol symbol_loop is_symbol_table
    symbol_table section_symbols symbols_loop parse_symbols read_addend read_relocation symbol_name
    parse_relocation relocation_loop relocation_table is_relocation_table section_relocations
    relocations_loop parse_relocations map_file_type map_machine has_static_symbol_table
parse_image = refl

parse_bytes-IsWellFormed_example : IsWellFormed image file
parse_bytes-IsWellFormed_example =
    parse_bytes-IsWellFormed (text "a.out") image file image-IsImage parse_image

abbrev reader : Reader
reader = record { bytes = image; endianness = little }

reads_decode_example :
    (u16 reader 16 ≡ decoded reader 16 2)
    × (u32 reader 16 ≡ decoded reader 16 4)
    × (u64 reader 16 ≡ decoded reader 16 8)
reads_decode_example = reads_decode reader image-IsImage 16

abbrev names : ByteRange
names = record { data_pointer = at 120; size = 37 }

string_from_table_lem_example :
    string_from_table image names 9 (text "names") ≡ table_string image (at 120) 37 9 (text "names")
string_from_table_lem_example = string_from_table_lem image names 9 (text "names") (omega arith)

parse_header-Returns_example : Returns IsChecked (parse_header image)
parse_header-Returns_example = parse_header-Returns image image-IsImage

header-IsChecked : IsChecked header
header-IsChecked = omega arith

parse_section_headers-Returns_example :
    Returns (IsParsed image) (parse_section_headers image header)
parse_section_headers-Returns_example =
    parse_section_headers-Returns image header image-IsImage header-IsChecked

readable : All (IsReadable image) raw_sections
readable = omega arith
