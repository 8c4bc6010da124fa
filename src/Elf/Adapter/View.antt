-- ===== src/Elf/Adapter/View.antt =====
-- src/elf/elf.cpp: ElfBinaryFile and open_bytes.
pub mod Safe
use roe.Base.{
  ℕ, ◌+◌, ◌-◌, Bool, true, false, ◌&&◌, ◌||◌, not, List, [], ◌∷◌, length, map, take, drop, ltb,
  if◌then◌else◌,
}
use roe.Base.Text.{Text, text, text_eq}
use roe.Core.Result.{Result, ok, ◌>>=◌}
use roe.Binary.Types
use roe.Elf.Types.{Bytes, Class, elf32, elf64, Endianness, little, big, File}
use roe.Elf.Reader.{slice}
use roe.Elf.Parse.{parse_bytes}
use roe.Elf.Adapter.{
  adapter_architecture, adapter_kind, mapped_section, mapped_symbol, mapped_relocation,
}
use roe.Elf.Adapter.Strings.{extract_strings}
use roe.Elf.Adapter.Dynamic.{populate_dynamic}

abbrev pub width_of : Class → Types.AddressWidth
width_of elf64 = Types.bits64
width_of elf32 = Types.bits32

abbrev pub order_of : Endianness → Types.Endianness
order_of big = Types.big
order_of little = Types.little

unfoldable pub has_interpreter : List Types.Segment → Bool
has_interpreter [] = false
has_interpreter (s ∷ segments) = text_eq s.name (text "INTERP") || has_interpreter segments

-- A shared object with an interpreter is a position independent executable.
unfoldable pub kind_of : Types.ObjectKind → List Types.Segment → Types.ObjectKind
kind_of Types.ObjectKind.shared_library segments =
    if has_interpreter segments
    then Types.ObjectKind.executable
    else Types.ObjectKind.shared_library
kind_of kind segments = kind

unfoldable pub build_object : File → Result Types.Object
build_object file = do
  (segments, libraries) ← populate_dynamic file
  strings ← extract_strings file 0
  ok (record {
    name = file.source_name;
    index = 0;
    format = Types.Format.elf;
    architecture = adapter_architecture file;
    address_width = width_of file.elf_class;
    endianness = order_of file.endianness;
    kind = kind_of (adapter_kind file.file_type) segments;
    entry = file.entry;
    sections = map mapped_section file.sections;
    segments = segments;
    symbols = map mapped_symbol file.symbols;
    relocations = map mapped_relocation file.relocations;
    strings = strings;
    libraries = libraries;
    stripped = file.stripped;
  })

unfoldable pub build_view : File → Result Types.FileView
build_view file = do
  object ← build_object file
  ok (record {
    source_name = file.source_name;
    format = Types.Format.elf;
    first_bytes = take 16 file.image;
    objects = object ∷ [];
  })

-- A parsed file with its view.
pub record ElfBinaryFile : Type 0 where
  pub file : File
  pub view : Types.FileView

unfoldable pub open_bytes : Text → Bytes → Result ElfBinaryFile
open_bytes source_name image = do
  file ← parse_bytes source_name image
  view ← build_view file
  ok (record { file = file; view = view })

-- A section without content in the image has no bytes.
unfoldable pub view_section_bytes : ElfBinaryFile → Types.Section → Result Types.SectionBytes
view_section_bytes b s =
    if ltb (length b.file.image) s.offset || ltb (length b.file.image - s.offset) s.size
    then ok (record {
      object_index = s.object_index;
      section_name = s.name;
      address = s.address;
      bytes = [];
    })
    else (do
      bytes ← slice b.file.image s.offset s.size
      ok (record {
        object_index = s.object_index;
        section_name = s.name;
        address = s.address;
        bytes = bytes;
      }))
