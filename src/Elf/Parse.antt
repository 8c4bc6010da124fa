-- ===== src/Elf/Parse.antt =====
-- src/elf/elf.cpp: parse_bytes and the queries on a parsed file.
pub mod Safe
use roe.Base.{
  ℕ, ◌+◌, Bool, true, false, ◌&&◌, ◌||◌, not, Option, none, some, List, [], ◌∷◌, map, length, ◌==◌,
  if◌then◌else◌,
}
use roe.Base.Text.{Text, text_eq}
use roe.Core.Result.{Result, ok, ◌>>=◌}
use roe.Elf.Types.{Bytes, File, FileType, Machine, RawSection, Section, Symbol, SymbolType}
use roe.Elf.Header.{parse_header}
use roe.Elf.Sections.{parse_section_headers}
use roe.Elf.Segments.{parse_segments}
use roe.Elf.Strings.{sht_nobits}
use roe.Elf.Symbols.{parse_symbols, sht_symtab}
use roe.Elf.Relocations.{parse_relocations}
use roe.Elf.Reader.{range_within}

unfoldable pub map_file_type : ℕ → FileType
map_file_type v =
    if v == 0
    then FileType.none
    else if v == 1
    then FileType.relocatable
    else if v == 2
    then FileType.executable
    else if v == 3
    then FileType.shared_object
    else if v == 4
    then FileType.core
    else FileType.other

unfoldable pub map_machine : ℕ → Machine
map_machine v =
    if v == 3
    then Machine.x86
    else if v == 62
    then Machine.x86_64
    else if v == 183
    then Machine.aarch64
    else if v == 40
    then Machine.arm
    else if v == 243
    then Machine.risc_v
    else if v == 8
    then Machine.mips
    else if v == 20
    then Machine.power_pc
    else if v == 21
    then Machine.power_pc64
    else Machine.other

unfoldable pub has_static_symbol_table : List RawSection → Bool
has_static_symbol_table [] = false
has_static_symbol_table (raw ∷ raws) =
    raw.section.type == sht_symtab || has_static_symbol_table raws

unfoldable pub parse_bytes : Text → Bytes → Result File
parse_bytes source_name image = do
  parsed ← parse_header image
  (h, raws) ← parse_section_headers image parsed
  segments ← parse_segments image h
  (by_section, symbols) ← parse_symbols image h raws
  relocations ← parse_relocations image h raws by_section
  ok (record {
    source_name = source_name;
    image = image;
    elf_class = h.elf_class;
    endianness = h.endianness;
    file_type = map_file_type h.type;
    machine = map_machine h.machine;
    entry = h.entry;
    sections = map (λ raw. raw.section) raws;
    segments = segments;
    symbols = symbols;
    relocations = relocations;
    stripped = not (has_static_symbol_table raws);
  })

unfoldable pub first_section : Text → List Section → Option Section
first_section name [] = none
first_section name (s ∷ sections) =
    if text_eq s.name name then some s else first_section name sections

unfoldable pub find_section : File → Text → Option Section
find_section file name = first_section name file.sections

abbrev pub is_function : SymbolType → Bool
is_function SymbolType.function = true
is_function _ = false

unfoldable pub functions_of : List Symbol → List Symbol
functions_of [] = []
functions_of (s ∷ symbols) =
    if is_function s.type then s ∷ functions_of symbols else functions_of symbols

unfoldable pub function_symbols : File → List Symbol
function_symbols file = functions_of file.symbols

-- The iterators of a section's bytes, as positions of the image.
pub record SectionBytes : Type 0 where
  pub address : ℕ
  pub first : ℕ
  pub last : ℕ

unfoldable pub section_bytes : File → Section → Option SectionBytes
section_bytes file s =
    if s.type == sht_nobits
    then none
    else if not (range_within s.offset s.size (length file.image))
    then none
    else some (record { address = s.address; first = s.offset; last = s.offset + s.size })
