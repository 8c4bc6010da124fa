-- ===== src/Pe/Tests.antt =====
-- Runs of the PE tables, and their theorems at a concrete image.
mod Opened
use roe.Base.{◌≡◌, refl, false, true, arith, [], ◌∷◌}
use roe.Base.Text.{decimal, text, is_empty}
use roe.Core.Result.{ok, element, Returns}
use roe.Elf.Types.{Bytes, IsImage}
use roe.Elf.Reader.{add64, word32}
use roe.Pe.Reader.{u16, u32, u64, copy, c_string, SectionMap, covers, rva_to_offset}
use roe.Pe.Reader.Laws.{decoded, pe_reads-decode, IsMapped, rva_to_offset-IsMapped}
use roe.Pe.Exports.{export_loop, visit_name, parse_exports, exported_symbol, max_parsed_symbols}
use roe.Pe.Imports.{
  Imports, imported_symbol, thunk_name, read_thunk, thunk_loop, visit_descriptor, descriptor_loop,
  parse_imports,
}
use roe.Pe.Imports.Bounded.{IsBounded}
use roe.Pe.Imports.Safe.{parse_imports-Returns}
use roe.Pe.Exports.Safe.{Extends, parse_exports-Returns}

-- An import directory with one library, of which one function is imported by its number.
abbrev import_image : Bytes
import_image =
    0x28 ∷ 0x10 ∷ 0 ∷ 0 ∷ 0 ∷ 0 ∷ 0 ∷ 0 ∷ 0 ∷ 0 ∷ 0 ∷ 0 ∷ 0x30 ∷ 0x10 ∷ 0 ∷ 0 ∷ 0 ∷ 0 ∷ 0 ∷ 0 ∷ 0
    ∷ 0 ∷ 0 ∷ 0 ∷ 0 ∷ 0 ∷ 0 ∷ 0 ∷ 0 ∷ 0 ∷ 0 ∷ 0 ∷ 0 ∷ 0 ∷ 0 ∷ 0 ∷ 0 ∷ 0 ∷ 0 ∷ 0 ∷ 5 ∷ 0 ∷ 0 ∷ 0x80
    ∷ 0 ∷ 0 ∷ 0 ∷ 0 ∷ b'k' ∷ 0 ∷ []

import_image-IsImage : IsImage import_image
import_image-IsImage = record { is_bytes = omega arith; size_bound = omega arith }

abbrev import_section : SectionMap
import_section = record { va = 0x1000; vsize = 0x100; raw = 0; rawsize = 50 }

abbrev imports : Imports
imports = record {
  flag = true;
  budget = 2;
  libraries = text "k" ∷ [];
  symbols = imported_symbol 0 (text "k") (text "Ordinal#5") ∷ [];
  stopped = false;
}

imports_run :
    parse_imports import_image (import_section ∷ []) 0x1000 false 0 true [] [] ≡ ok imports
unfolding parse_imports descriptor_loop visit_descriptor thunk_loop read_thunk thunk_name decimal
    u32 word32 add64 element rva_to_offset covers c_string copy is_empty text
imports_run = refl

parse_imports-Returns_example :
    Returns
      (IsBounded [])
      (parse_imports import_image (import_section ∷ []) 0x1000 false 0 true [] [])
parse_imports-Returns_example =
    parse_imports-Returns import_image import_image-IsImage (import_section ∷ []) (omega arith) 0
      false [] 0x1000 true []

-- An export directory with one name.
abbrev image : Bytes
image =
    0 ∷ 0 ∷ 0 ∷ 0 ∷ 0 ∷ 0 ∷ 0 ∷ 0 ∷ 0 ∷ 0 ∷ 0 ∷ 0 ∷ 0 ∷ 0 ∷ 0 ∷ 0 ∷ 0 ∷ 0 ∷ 0 ∷ 0 ∷ 0 ∷ 0 ∷ 0 ∷ 0
    ∷ 1 ∷ 0 ∷ 0 ∷ 0 ∷ 0 ∷ 0 ∷ 0 ∷ 0 ∷ 0x28 ∷ 0x10 ∷ 0 ∷ 0 ∷ 0 ∷ 0 ∷ 0 ∷ 0 ∷ 0x2c ∷ 0x10 ∷ 0 ∷ 0
    ∷ b'f' ∷ 0 ∷ []

image-IsImage : IsImage image
image-IsImage = record { is_bytes = omega arith; size_bound = omega arith }

abbrev section : SectionMap
section = record { va = 0x1000; vsize = 0x100; raw = 0; rawsize = 46 }

exports_run :
    parse_exports image (section ∷ []) 0x1000 0 true []
    ≡ ok (exported_symbol 0 (text "f") ∷ [], true)
unfolding parse_exports export_loop visit_name u32 word32 add64 element rva_to_offset covers
    c_string copy is_empty text
exports_run = refl

pe_reads-decode_example :
    (u16 image true 32 ≡ decoded image true 32 2)
    × (u32 image true 32 ≡ decoded image true 32 4)
    × (u64 image true 32 ≡ decoded image true 32 8)
pe_reads-decode_example = pe_reads-decode image image-IsImage true 32 (omega arith)

rva_to_offset-IsMapped_example :
    IsMapped (section ∷ []) 0x1028 (rva_to_offset (section ∷ []) 0x1028)
rva_to_offset-IsMapped_example = rva_to_offset-IsMapped (section ∷ []) 0x1028

parse_exports-Returns_example :
    Returns (Extends [] max_parsed_symbols) (parse_exports image (section ∷ []) 0x1000 0 true [])
parse_exports-Returns_example =
    parse_exports-Returns image image-IsImage (section ∷ []) (omega arith) 0 0x1000 true []
