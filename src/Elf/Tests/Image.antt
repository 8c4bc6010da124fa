-- ===== src/Elf/Tests/Image.antt =====
-- A small ELF64 image, little endian: a string table, a symbol table and a relocation table behind
-- one program header.
use roe.Base.{ℕ, ◌-◌, ◌^◌, Bool, true, false, ◌&&◌, List, [], ◌∷◌, All, arith, ltb, ◌≡◌, refl}
use roe.Elf.Types.{
  Header, RawSection, Bytes, IsByte, IsImage, File, Section, Segment, Symbol, Relocation,
}
use roe.Elf.Types
use roe.Base.Text.{Text, text}

abbrev part0 : Bytes → Bytes
part0 rest =
    127 ∷ 69 ∷ 76 ∷ 70 ∷ 2 ∷ 1 ∷ 1 ∷ 0 ∷ 0 ∷ 0 ∷ 0 ∷ 0 ∷ 0 ∷ 0 ∷ 0 ∷ 0 ∷ 3 ∷ 0 ∷ 62 ∷ 0 ∷ 1 ∷ 0 ∷ 0
    ∷ 0 ∷ 0 ∷ 16 ∷ 0 ∷ 0 ∷ 0 ∷ 0 ∷ 0 ∷ 0 ∷ 64 ∷ 0 ∷ 0 ∷ 0 ∷ 0 ∷ 0 ∷ 0 ∷ 0 ∷ 253 ∷ 0 ∷ 0 ∷ 0 ∷ 0 ∷ 0
    ∷ 0 ∷ 0 ∷ 0 ∷ 0 ∷ 0 ∷ 0 ∷ 64 ∷ 0 ∷ 56 ∷ 0 ∷ 1 ∷ 0 ∷ 64 ∷ 0 ∷ 4 ∷ 0 ∷ 1 ∷ 0 ∷ rest

abbrev part1 : Bytes → Bytes
part1 rest =
    1 ∷ 0 ∷ 0 ∷ 0 ∷ 5 ∷ 0 ∷ 0 ∷ 0 ∷ 0 ∷ 0 ∷ 0 ∷ 0 ∷ 0 ∷ 0 ∷ 0 ∷ 0 ∷ 0 ∷ 0 ∷ 0 ∷ 0 ∷ 0 ∷ 0 ∷ 0 ∷ 0
    ∷ 0 ∷ 0 ∷ 0 ∷ 0 ∷ 0 ∷ 0 ∷ 0 ∷ 0 ∷ 253 ∷ 1 ∷ 0 ∷ 0 ∷ 0 ∷ 0 ∷ 0 ∷ 0 ∷ 253 ∷ 1 ∷ 0 ∷ 0 ∷ 0 ∷ 0 ∷ 0
    ∷ 0 ∷ 0 ∷ 16 ∷ 0 ∷ 0 ∷ 0 ∷ 0 ∷ 0 ∷ 0 ∷ 0 ∷ 46 ∷ 115 ∷ 116 ∷ 114 ∷ 116 ∷ 97 ∷ 98 ∷ rest

abbrev part2 : Bytes → Bytes
part2 rest =
    0 ∷ 46 ∷ 115 ∷ 121 ∷ 109 ∷ 116 ∷ 97 ∷ 98 ∷ 0 ∷ 46 ∷ 114 ∷ 101 ∷ 108 ∷ 97 ∷ 46 ∷ 112 ∷ 108 ∷ 116
    ∷ 0 ∷ 109 ∷ 97 ∷ 105 ∷ 110 ∷ 0 ∷ 112 ∷ 117 ∷ 116 ∷ 115 ∷ 0 ∷ 0 ∷ 0 ∷ 0 ∷ 0 ∷ 0 ∷ 0 ∷ 0 ∷ 0 ∷ 0
    ∷ 0 ∷ 0 ∷ 0 ∷ 0 ∷ 0 ∷ 0 ∷ 0 ∷ 0 ∷ 0 ∷ 0 ∷ 0 ∷ 0 ∷ 0 ∷ 0 ∷ 0 ∷ 27 ∷ 0 ∷ 0 ∷ 0 ∷ 18 ∷ 0 ∷ 4 ∷ 0
    ∷ 0 ∷ 16 ∷ 0 ∷ rest

abbrev part3 : Bytes → Bytes
part3 rest =
    0 ∷ 0 ∷ 0 ∷ 0 ∷ 0 ∷ 32 ∷ 0 ∷ 0 ∷ 0 ∷ 0 ∷ 0 ∷ 0 ∷ 0 ∷ 32 ∷ 0 ∷ 0 ∷ 0 ∷ 18 ∷ 0 ∷ 0 ∷ 0 ∷ 0 ∷ 0 ∷ 0
    ∷ 0 ∷ 0 ∷ 0 ∷ 0 ∷ 0 ∷ 0 ∷ 0 ∷ 0 ∷ 0 ∷ 0 ∷ 0 ∷ 0 ∷ 0 ∷ 0 ∷ 64 ∷ 0 ∷ 0 ∷ 0 ∷ 0 ∷ 0 ∷ 0 ∷ 7 ∷ 0 ∷ 0
    ∷ 0 ∷ 2 ∷ 0 ∷ 0 ∷ 0 ∷ 255 ∷ 255 ∷ 255 ∷ 255 ∷ 255 ∷ 255 ∷ 255 ∷ 255 ∷ 0 ∷ 0 ∷ 0 ∷ rest

abbrev part4 : Bytes → Bytes
part4 rest =
    0 ∷ 0 ∷ 0 ∷ 0 ∷ 0 ∷ 0 ∷ 0 ∷ 0 ∷ 0 ∷ 0 ∷ 0 ∷ 0 ∷ 0 ∷ 0 ∷ 0 ∷ 0 ∷ 0 ∷ 0 ∷ 0 ∷ 0 ∷ 0 ∷ 0 ∷ 0 ∷ 0
    ∷ 0 ∷ 0 ∷ 0 ∷ 0 ∷ 0 ∷ 0 ∷ 0 ∷ 0 ∷ 0 ∷ 0 ∷ 0 ∷ 0 ∷ 0 ∷ 0 ∷ 0 ∷ 0 ∷ 0 ∷ 0 ∷ 0 ∷ 0 ∷ 0 ∷ 0 ∷ 0 ∷ 0
    ∷ 0 ∷ 0 ∷ 0 ∷ 0 ∷ 0 ∷ 0 ∷ 0 ∷ 0 ∷ 0 ∷ 0 ∷ 0 ∷ 0 ∷ 0 ∷ 1 ∷ 0 ∷ 0 ∷ rest

abbrev part5 : Bytes → Bytes
part5 rest =
    0 ∷ 3 ∷ 0 ∷ 0 ∷ 0 ∷ 0 ∷ 0 ∷ 0 ∷ 0 ∷ 0 ∷ 0 ∷ 0 ∷ 0 ∷ 0 ∷ 0 ∷ 0 ∷ 0 ∷ 0 ∷ 0 ∷ 0 ∷ 0 ∷ 120 ∷ 0 ∷ 0
    ∷ 0 ∷ 0 ∷ 0 ∷ 0 ∷ 0 ∷ 37 ∷ 0 ∷ 0 ∷ 0 ∷ 0 ∷ 0 ∷ 0 ∷ 0 ∷ 0 ∷ 0 ∷ 0 ∷ 0 ∷ 0 ∷ 0 ∷ 0 ∷ 0 ∷ 1 ∷ 0 ∷ 0
    ∷ 0 ∷ 0 ∷ 0 ∷ 0 ∷ 0 ∷ 0 ∷ 0 ∷ 0 ∷ 0 ∷ 0 ∷ 0 ∷ 0 ∷ 0 ∷ 9 ∷ 0 ∷ 0 ∷ rest

abbrev part6 : Bytes → Bytes
part6 rest =
    0 ∷ 2 ∷ 0 ∷ 0 ∷ 0 ∷ 0 ∷ 0 ∷ 0 ∷ 0 ∷ 0 ∷ 0 ∷ 0 ∷ 0 ∷ 0 ∷ 0 ∷ 0 ∷ 0 ∷ 0 ∷ 0 ∷ 0 ∷ 0 ∷ 157 ∷ 0 ∷ 0
    ∷ 0 ∷ 0 ∷ 0 ∷ 0 ∷ 0 ∷ 72 ∷ 0 ∷ 0 ∷ 0 ∷ 0 ∷ 0 ∷ 0 ∷ 0 ∷ 1 ∷ 0 ∷ 0 ∷ 0 ∷ 1 ∷ 0 ∷ 0 ∷ 0 ∷ 8 ∷ 0 ∷ 0
    ∷ 0 ∷ 0 ∷ 0 ∷ 0 ∷ 0 ∷ 24 ∷ 0 ∷ 0 ∷ 0 ∷ 0 ∷ 0 ∷ 0 ∷ 0 ∷ 17 ∷ 0 ∷ 0 ∷ rest

abbrev part7 : Bytes → Bytes
part7 rest =
    0 ∷ 4 ∷ 0 ∷ 0 ∷ 0 ∷ 0 ∷ 0 ∷ 0 ∷ 0 ∷ 0 ∷ 0 ∷ 0 ∷ 0 ∷ 0 ∷ 0 ∷ 0 ∷ 0 ∷ 0 ∷ 0 ∷ 0 ∷ 0 ∷ 229 ∷ 0 ∷ 0
    ∷ 0 ∷ 0 ∷ 0 ∷ 0 ∷ 0 ∷ 24 ∷ 0 ∷ 0 ∷ 0 ∷ 0 ∷ 0 ∷ 0 ∷ 0 ∷ 2 ∷ 0 ∷ 0 ∷ 0 ∷ 0 ∷ 0 ∷ 0 ∷ 0 ∷ 8 ∷ 0 ∷ 0
    ∷ 0 ∷ 0 ∷ 0 ∷ 0 ∷ 0 ∷ 24 ∷ 0 ∷ 0 ∷ 0 ∷ 0 ∷ 0 ∷ 0 ∷ 0 ∷ rest

abbrev pub image : Bytes
image = part0 (part1 (part2 (part3 (part4 (part5 (part6 (part7 ([]))))))))

are_bytes : Bytes → Bool
are_bytes [] = true
are_bytes (b ∷ bytes) = ltb b 256 && are_bytes bytes

are_bytes-All : (bytes : Bytes) → are_bytes bytes ≡ true → All IsByte bytes
unfolding are_bytes
are_bytes-All [] h = tt
are_bytes-All (b ∷ bytes) h = ground (arith, are_bytes-All bytes)

pub image-IsImage : IsImage image
unfolding are_bytes
image-IsImage = record { is_bytes = are_bytes-All image refl; size_bound = omega arith }

abbrev section : ℕ → Text → ℕ → ℕ → ℕ → ℕ → Section
section index name type offset size alignment = record {
  name = name;
  index = index;
  type = type;
  flags = 0;
  address = 0;
  offset = offset;
  size = size;
  alignment = alignment;
  executable = false;
}

abbrev main_symbol : Symbol
main_symbol = record {
  name = text "main";
  address = 0x1000;
  size = 0x20;
  section_index = 4;
  bind = Types.SymbolBind.global;
  type = Types.SymbolType.function;
  defined = true;
  dynamic = false;
}

abbrev puts_symbol : Symbol
puts_symbol = record {
  name = text "puts";
  address = 0;
  size = 0;
  section_index = 0;
  bind = Types.SymbolBind.global;
  type = Types.SymbolType.function;
  defined = false;
  dynamic = false;
}

abbrev null_symbol : Symbol
null_symbol = record {
  name = [];
  address = 0;
  size = 0;
  section_index = 0;
  bind = Types.SymbolBind.local;
  type = Types.SymbolType.no_type;
  defined = false;
  dynamic = false;
}

abbrev segment : Segment
segment = record {
  type = 1;
  flags = 5;
  virtual_address = 0;
  physical_address = 0;
  offset = 0;
  file_size = 509;
  memory_size = 509;
  alignment = 4096;
}

abbrev relocation : Relocation
relocation = record {
  section_name = text ".rela.plt";
  offset = 0x4000;
  type = 7;
  symbol_index = 2;
  symbol_name = text "puts";
  addend = 2 ^ 64 - 1;
  has_addend = true;
}

-- What the parser is to return.
abbrev pub file : File
file = record {
  source_name = text "a.out";
  image = image;
  elf_class = Types.elf64;
  endianness = Types.little;
  file_type = Types.FileType.shared_object;
  machine = Types.Machine.x86_64;
  entry = 0x1000;
  sections =
      section 0 [] 0 0 0 0
      ∷ section 1 (text ".strtab") 3 120 37 1
      ∷ section 2 (text ".symtab") 2 157 72 8
      ∷ section 3 (text ".rela.plt") 4 229 24 8
      ∷ [];
  segments = segment ∷ [];
  symbols = null_symbol ∷ main_symbol ∷ puts_symbol ∷ [];
  relocations = relocation ∷ [];
  stripped = false;
}

-- The header that the parser reads.
abbrev pub header : Header
header = record {
  elf_class = Types.elf64;
  endianness = Types.little;
  type = 3;
  machine = 62;
  entry = 0x1000;
  program_header_offset = 64;
  section_header_offset = 253;
  header_size = 64;
  program_header_entry_size = 56;
  program_header_count = 1;
  section_header_entry_size = 64;
  section_header_count = 4;
  section_name_index = 1;
}

abbrev raw : Section → ℕ → ℕ → ℕ → RawSection
raw s link info entry_size = record {
  section = s;
  name_offset = 0;
  link = link;
  info = info;
  entry_size = entry_size;
}

abbrev pub raw_sections : List RawSection
raw_sections =
    raw (section 0 [] 0 0 0 0) 0 0 0
    ∷ raw (section 1 (text ".strtab") 3 120 37 1) 0 0 0
    ∷ raw (section 2 (text ".symtab") 2 157 72 8) 1 1 24
    ∷ raw (section 3 (text ".rela.plt") 4 229 24 8) 2 0 24
    ∷ []
