-- ===== src/Pe/Tests/Opened.antt =====
-- A PE file with one section and one COFF symbol: it is opened, and the theorems at its image.
use roe.Base.{ℕ, zero, suc, ◌≡◌, refl, false, true, arith, [], ◌∷◌, ◌++◌}
use roe.Base.Text.{text, is_empty, text_eq}
use roe.Core.Result.{ok, err, element, reject, Returns}
use roe.Binary.Types
use roe.Elf.Types.{Bytes, IsImage}
use roe.Elf.Reader.{add64, word16, word32}
use roe.Pe.Reader.{u16, u32, copy_fixed, fixed_string, map_machine}
use roe.Pe.Exports.{parse_exports}
use roe.Pe.Imports.{parse_imports}
use roe.Pe.Coff.{
  coff_loop, coff_symbol, export_index, fill, fill_at, find_name, is_function, parse_coff_symbols,
  place, visit_entry,
}
use roe.Pe.Coff.Safe.{IsCoffObject, parse_coff_symbols-Returns}
use roe.Pe.Exports.{exported_symbol}
use roe.Pe.Layout.{
  section_kind, pe_section, read_section, section_loop, dir_names, add_directory, directory_loop,
}
use roe.Pe.Parse.{
  Header, bad_signature, check_stub, check_signature, read_header, pe_object, read_tables,
  parse_bytes, open_bytes,
}
use roe.Pe.Parse.Safe.{IsOpened, pe_open_bytes-Returns}
use roe.Pe.Parse.Rejects.{parse_bytes-rejects}

abbrev zeros : ℕ → Bytes
zeros zero = []
zeros (suc n) = 0 ∷ zeros n

abbrev stub : Bytes
stub = b'M' ∷ b'Z' ∷ (zeros 58 ++ (0x40 ∷ 0 ∷ 0 ∷ 0 ∷ []))

abbrev coff_header : Bytes
coff_header =
    b'P' ∷ b'E' ∷ 0 ∷ 0 ∷ 0x64 ∷ 0x86 ∷ 1 ∷ 0 ∷ 0 ∷ 0 ∷ 0 ∷ 0 ∷ 0xe0 ∷ 0 ∷ 0 ∷ 0 ∷ 1 ∷ 0 ∷ 0 ∷ 0
    ∷ 96 ∷ 0 ∷ 0 ∷ 0x20 ∷ []

abbrev optional_header : Bytes
optional_header = 0x0b ∷ 1 ∷ (zeros 14 ++ (0x10 ∷ 0x20 ∷ (zeros 78)))

abbrev section_header : Bytes
section_header =
    b't'
    ∷ b'e'
    ∷ b'x'
    ∷ b't'
    ∷ (zeros 8
        ++ (0
            ∷ 0x10
            ∷ 0
            ∷ 0
            ∷ 8
            ∷ 0
            ∷ 0
            ∷ 0
            ∷ 0
            ∷ 0
            ∷ 0
            ∷ 0
            ∷ (zeros 12 ++ (0x20 ∷ 0 ∷ 0 ∷ 0x60 ∷ []))))

abbrev symbol : Bytes
symbol = b'm' ∷ b'a' ∷ b'i' ∷ b'n' ∷ 0 ∷ 0 ∷ 0 ∷ 0 ∷ 4 ∷ 0 ∷ 0 ∷ 0 ∷ 1 ∷ 0 ∷ 0x20 ∷ 0 ∷ 2 ∷ 0 ∷ []

abbrev image : Bytes
image = stub ++ (coff_header ++ (optional_header ++ (section_header ++ symbol)))

image-IsImage : IsImage image
image-IsImage = record { is_bytes = omega arith; size_bound = omega arith }

abbrev header : Header
header = record {
  coff = 0x44;
  machine = 0x8664;
  num_sections = 1;
  opt_size = 96;
  characteristics = 0x2000;
  pe32_plus = false;
  entry_rva = 0x2010;
  image_base = 0;
  num_dirs = 0;
}

abbrev main : Types.Symbol
main = coff_symbol 0 (text "main") 0x1004 0 2

abbrev object : Types.Object
object =
    pe_object header (pe_section (text "text") 0 0x1000 0 8 0x6000_0020 ∷ [])
      (record { segments = []; import_rva = 0; export_rva = 0 }) [] (main ∷ [])

opened_run :
    open_bytes [] image
    ≡ ok (record {
      view = record {
        source_name = [];
        format = Types.Format.pe_coff;
        first_bytes = b'M' ∷ b'Z' ∷ zeros 14;
        objects = object ∷ [];
      };
      image = image;
    })
unfolding open_bytes parse_bytes check_stub check_signature read_header read_tables reject u16 u32
    word16 word32 add64 element copy_fixed fixed_string section_loop read_section pe_section
    section_kind directory_loop dir_names add_directory parse_imports parse_exports
    parse_coff_symbols coff_loop visit_entry is_function place export_index find_name is_empty text
    map_machine
opened_run = refl

pe_open_bytes-Returns_example : Returns (IsOpened image) (open_bytes [] image)
pe_open_bytes-Returns_example = pe_open_bytes-Returns image image-IsImage []

parse_coff_symbols-Returns_example :
    Returns (λ p. IsCoffObject object p.0) (parse_coff_symbols image 0x44 true object)
parse_coff_symbols-Returns_example =
    parse_coff_symbols-Returns image image-IsImage 0x44 true object (omega arith)

-- The header without the bytes behind the stub.
stub-IsImage : IsImage stub
stub-IsImage = record { is_bytes = omega arith; size_bound = omega arith }

parse_bytes-rejects_example : parse_bytes [] stub ≡ err bad_signature
parse_bytes-rejects_example = parse_bytes-rejects stub stub-IsImage [] bad_signature refl

-- A function that an export names fills the export.
export_run :
    parse_coff_symbols image 0x44 true
      (record object { symbols = exported_symbol 0 (text "main") ∷ [] })
    ≡ ok (record object { symbols = fill 0x1004 0 (exported_symbol 0 (text "main")) ∷ [] }, true)
unfolding parse_coff_symbols coff_loop visit_entry is_function place export_index find_name fill_at
    fill is_empty text text_eq u16 u32 word16 word32 add64 element copy_fixed fixed_string
    pe_section
export_run = refl
