-- ===== src/Elf/Tests/Opened.antt =====
-- Runs of the adapter: a file that is opened, the libraries of a dynamic section, and the strings of a
-- read-only section.
use roe.Base.{ℕ, ◌≡◌, ◌≢◌, refl, true, false, [], ◌∷◌, ◌++◌, map}
use roe.Base.Text.{Text, text, text_eq, is_empty}
use roe.Core.Result.{Gives, ok, aborted, value, element, Returns}
use roe.Binary.Types
use roe.Elf.Types.{Bytes, Section, File}
use roe.Elf.Reader.{window, slice, add64, mul64, range_within, read_array, u64, i64, word64}
use roe.Elf.Parse.{first_section, section_bytes}
use roe.Elf.Adapter.{
  adapter_architecture, architecture_of, adapter_kind, mapped_section, mapped_symbol,
  mapped_relocation,
}
use roe.Elf.Adapter.Strings.{
  printable_string_byte, end_string, scan_byte, scan_bytes, is_program_data, scan_section,
  scan_sections, extract_strings,
}
use roe.Elf.Adapter.Strings.Laws.{AreLiterals, extract_strings-All}
use roe.Elf.Adapter.Dynamic.{
  segment_type_name, mapped_segment, read_dynamic, library_name, add_library, visit_entry,
  needed_loop, libraries_of, populate_dynamic,
}
use roe.Elf.Adapter.View.{
  ElfBinaryFile, open_bytes, build_view, build_object, has_interpreter, kind_of,
}
use roe.Elf.Adapter.View.Safe.{
  IsOpened, kind_with, any_interpreter, open_bytes-ne-aborted, open_bytes-IsOpened,
  build_object-kind,
}
use roe.Elf.Tests.{parse_image}
use roe.Elf.Tests.Image.{image, image-IsImage, file}

abbrev object : Types.Object
object = record {
  name = text "a.out";
  index = 0;
  format = Types.Format.elf;
  architecture = Types.Architecture.x86_64;
  address_width = Types.bits64;
  endianness = Types.little;
  kind = Types.ObjectKind.shared_library;
  entry = 0x1000;
  sections = map mapped_section file.sections;
  segments =
      record {
        name = text "LOAD";
        address = 0;
        offset = 0;
        size = 509;
        readable = true;
        writable = false;
        executable = true;
        detail = [];
      }
      ∷ [];
  symbols = map mapped_symbol file.symbols;
  relocations = map mapped_relocation file.relocations;
  strings = [];
  libraries = [];
  stripped = false;
}

abbrev opened : ElfBinaryFile
opened = record {
  file = file;
  view = record {
    source_name = text "a.out";
    format = Types.Format.elf;
    first_bytes = 0x7f ∷ b'E' ∷ b'L' ∷ b'F' ∷ 2 ∷ 1 ∷ 1 ∷ 0 ∷ 0 ∷ 0 ∷ 0 ∷ 0 ∷ 0 ∷ 0 ∷ 0 ∷ 0 ∷ [];
    objects = object ∷ [];
  };
}

open_image : open_bytes (text "a.out") image ≡ ok opened
unfolding open_bytes slice window build_view build_object populate_dynamic libraries_of
    first_section text text_eq segment_type_name extract_strings scan_sections scan_section
    is_program_data adapter_architecture architecture_of adapter_kind kind_of has_interpreter
open_image = rw parse_image refl

open_bytes-ne-aborted_example : open_bytes (text "a.out") image ≢ aborted
open_bytes-ne-aborted_example = open_bytes-ne-aborted (text "a.out") image image-IsImage

open_bytes-IsOpened_example : IsOpened image opened
open_bytes-IsOpened_example =
    open_bytes-IsOpened (text "a.out") image opened image-IsImage open_image

build_object-kind_example :
    Returns
      (λ o. o.kind ≡ kind_with file.file_type (any_interpreter file.segments))
      (build_object file)
build_object-kind_example = build_object-kind file image-IsImage

-- An entry that names the library at position 1, and the last entry.
abbrev entries : Bytes
entries =
    1 ∷ 0 ∷ 0 ∷ 0 ∷ 0 ∷ 0 ∷ 0 ∷ 0 ∷ 1 ∷ 0 ∷ 0 ∷ 0 ∷ 0 ∷ 0 ∷ 0 ∷ 0 ∷ 0 ∷ 0 ∷ 0 ∷ 0 ∷ 0 ∷ 0 ∷ 0 ∷ 0
    ∷ 0 ∷ 0 ∷ 0 ∷ 0 ∷ 0 ∷ 0 ∷ 0 ∷ 0 ∷ []

abbrev names : Bytes
names = 0 ∷ b'c' ∷ b'.' ∷ b's' ∷ b'o' ∷ 0 ∷ b'h' ∷ b'i' ∷ 0 ∷ 7 ∷ []

abbrev part : ℕ → Text → ℕ → ℕ → ℕ → Section
part index name type offset size = record {
  name = name;
  index = index;
  type = type;
  flags = 2;
  address = 0x1000;
  offset = offset;
  size = size;
  alignment = 1;
  executable = false;
}

abbrev linked : File
linked = record file {
  image = entries ++ names;
  sections =
      part 0 (text ".dynamic") 6 0 32
      ∷ part 1 (text ".dynstr") 3 32 6
      ∷ part 2 (text ".rodata") 1 37 5
      ∷ [];
}

needed_library : populate_dynamic linked ≡ ok (map mapped_segment file.segments, text "c.so" ∷ [])
unfolding populate_dynamic libraries_of first_section text text_eq range_within needed_loop window
    read_dynamic visit_entry add_library library_name value element u64 i64 read_array word64 add64
    mul64 is_empty
needed_library = refl

string_literals :
    extract_strings linked 0
    ≡ ok (record { object_index = 0; address = 0x1001; size = 2; value = text "hi" } ∷ [])
unfolding slice extract_strings scan_sections scan_section is_program_data scan_bytes scan_byte
    end_string printable_string_byte section_bytes range_within text is_empty add64
string_literals = refl

extract_strings-All_example : Gives (AreLiterals linked 0) (extract_strings linked 0)
extract_strings-All_example = extract_strings-All linked 0
