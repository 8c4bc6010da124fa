-- ===== src/Elf/Adapter.antt =====
-- src/elf/elf.cpp: the translation of a parsed file's parts to the normalized view.
pub mod Strings
pub mod Dynamic
pub mod View
use roe.Base.{
  ℕ, ◌<◌, bit_and, Bool, true, false, ◌&&◌, ◌||◌, not, List, [], ◌∷◌, ◌==◌, if◌then◌else◌,
}
use roe.Base.Text.{Text, text, starts_with}
use roe.Binary.Types
use roe.Elf.Types.{
  Class, elf32, elf64, Endianness, little, big, File, FileType, Machine, Section, Segment, Symbol,
  SymbolBind, SymbolType, Relocation,
}
use roe.Elf.Symbols.{sht_symtab, sht_dynsym}
use roe.Elf.Relocations.{sht_rel, sht_rela}

abbrev pub shf_write_flag : ℕ
shf_write_flag = 1

abbrev pub shf_alloc_flag : ℕ
shf_alloc_flag = 2

abbrev pub shf_strings_flag : ℕ
shf_strings_flag = 0x20

-- `(flags & bit) != 0U`
abbrev pub has_flag : ℕ → ℕ → Bool
has_flag flags bit = not (bit_and flags bit == 0)

abbrev pub is_big : Endianness → Bool
is_big big = true
is_big little = false

-- The machines whose architecture depends on the class or on the order of bytes.
unfoldable pub architecture_of : Machine → Class → Endianness → Types.Architecture
architecture_of Machine.x86 class order = Types.Architecture.x86
architecture_of Machine.x86_64 class order = Types.Architecture.x86_64
architecture_of Machine.arm class order = Types.Architecture.arm
architecture_of Machine.aarch64 class order = Types.Architecture.aarch64
architecture_of Machine.risc_v elf64 order = Types.Architecture.risc_v64
architecture_of Machine.risc_v elf32 order = Types.Architecture.risc_v32
architecture_of Machine.mips elf64 order =
    if is_big order then Types.Architecture.mips64 else Types.Architecture.mips64el
architecture_of Machine.mips elf32 order =
    if is_big order then Types.Architecture.mips32 else Types.Architecture.mips32el
architecture_of Machine.power_pc class order = Types.Architecture.power_pc32
architecture_of Machine.power_pc64 class order =
    if is_big order then Types.Architecture.power_pc64 else Types.Architecture.power_pc64le
architecture_of Machine.unknown class order = Types.Architecture.unknown
architecture_of Machine.other class order = Types.Architecture.unknown

unfoldable pub adapter_architecture : File → Types.Architecture
adapter_architecture file = architecture_of file.machine file.elf_class file.endianness

unfoldable pub adapter_kind : FileType → Types.ObjectKind
adapter_kind FileType.relocatable = Types.ObjectKind.relocatable
adapter_kind FileType.executable = Types.ObjectKind.executable
adapter_kind FileType.shared_object = Types.ObjectKind.shared_library
adapter_kind FileType.none = Types.ObjectKind.unknown
adapter_kind FileType.core = Types.ObjectKind.unknown
adapter_kind FileType.other = Types.ObjectKind.unknown

unfoldable pub adapter_section_kind : Section → Types.SectionKind
adapter_section_kind s =
    if s.executable
    then Types.SectionKind.code
    else if s.type == sht_symtab || s.type == sht_dynsym
    then Types.SectionKind.symbol_table
    else if s.type == sht_rel || s.type == sht_rela
    then Types.SectionKind.relocation
    else if starts_with s.name (text ".debug")
    then Types.SectionKind.debug
    else if has_flag s.flags shf_strings_flag
    then Types.SectionKind.c_string
    else if has_flag s.flags shf_alloc_flag
    then if has_flag s.flags shf_write_flag
      then Types.SectionKind.plain_data
      else Types.SectionKind.read_only_data
    else Types.SectionKind.unknown

abbrev pub bind_of : SymbolBind → Types.SymbolBind
bind_of SymbolBind.local = Types.SymbolBind.local
bind_of SymbolBind.global = Types.SymbolBind.global
bind_of SymbolBind.weak = Types.SymbolBind.weak
bind_of SymbolBind.other = Types.SymbolBind.other

abbrev pub is_global : SymbolBind → Bool
is_global SymbolBind.global = true
is_global _ = false

unfoldable pub adapter_symbol_bind : Symbol → Types.SymbolBind
adapter_symbol_bind s =
    if s.dynamic && not s.defined
    then Types.SymbolBind.imported
    else if s.dynamic && s.defined && is_global s.bind
    then Types.SymbolBind.exported
    else bind_of s.bind

unfoldable pub adapter_symbol_type : SymbolType → Types.SymbolType
adapter_symbol_type SymbolType.no_type = Types.SymbolType.no_type
adapter_symbol_type SymbolType.object = Types.SymbolType.object
adapter_symbol_type SymbolType.function = Types.SymbolType.function
adapter_symbol_type SymbolType.section = Types.SymbolType.section
adapter_symbol_type SymbolType.file = Types.SymbolType.file
adapter_symbol_type SymbolType.tls = Types.SymbolType.tls
adapter_symbol_type SymbolType.common = Types.SymbolType.unknown
adapter_symbol_type SymbolType.other = Types.SymbolType.unknown

-- The bodies of the loops of `build_view`.
abbrev pub mapped_section : Section → Types.Section
mapped_section s = record {
  name = s.name;
  object_index = 0;
  index = s.index;
  kind = adapter_section_kind s;
  address = s.address;
  offset = s.offset;
  size = s.size;
  alignment = s.alignment;
  readable = has_flag s.flags shf_alloc_flag;
  writable = has_flag s.flags shf_write_flag;
  executable = s.executable;
  contains_strings = has_flag s.flags shf_strings_flag;
}

abbrev pub mapped_symbol : Symbol → Types.Symbol
mapped_symbol s = record {
  name = s.name;
  raw_name = s.name;
  object_index = 0;
  address = s.address;
  size = s.size;
  section_index = s.section_index;
  bind = adapter_symbol_bind s;
  type = adapter_symbol_type s.type;
  defined = s.defined;
  dynamic = s.dynamic;
  synthetic = false;
  library = [];
}

abbrev pub mapped_relocation : Relocation → Types.Relocation
mapped_relocation r = record {
  section_name = r.section_name;
  object_index = 0;
  offset = r.offset;
  target_address = 0;
  symbol_index = r.symbol_index;
  symbol_name = r.symbol_name;
  raw_symbol_name = r.symbol_name;
  type = r.type;
  addend = r.addend;
  has_addend = r.has_addend;
  encoding = if r.has_addend then Types.RelocationEncoding.rela else Types.RelocationEncoding.rel;
}
