-- ===== src/Elf/Relocations.antt =====
-- src/elf/elf.cpp: parse_relocations.
pub mod Safe
use roe.Base.{
  ℕ, zero, suc, ◌+◌, ◌/◌, ◌%◌, ◌^◌, bit_and, Bool, true, false, ◌&&◌, ◌||◌, not, List, [], ◌∷◌,
  ◌++◌, length, ltb, leb, ◌==◌, if◌then◌else◌,
}
use roe.Base.Text.{Text, text}
use roe.Core.Error.{make_error, malformed_input}
use roe.Core.Result.{Result, ok, ◌>>=◌, ◌>>◌, reject, value, element}
use roe.Elf.Types.{Bytes, Class, elf32, elf64, Header, RawSection, Symbol, Relocation}
use roe.Elf.Reader.{Reader, add64, mul64, u32, u64, i32, i64}
use roe.Elf.Symbols.{entry_size_or}

abbrev pub sht_rela : ℕ
sht_rela = 4

abbrev pub sht_rel : ℕ
sht_rel = 9

-- `elf64_rela_size` and its three kin.
abbrev pub reloc_size : Class → Bool → ℕ
reloc_size elf64 true = 24
reloc_size elf64 false = 16
reloc_size elf32 true = 12
reloc_size elf32 false = 8

pub record RawRelocation : Type 0 where
  pub offset : ℕ
  pub symbol_index : ℕ
  pub type : ℕ
  pub addend : ℕ

-- The addend stays zero in an entry that has none.
unfoldable pub read_addend : Class → Reader → ℕ → Bool → Result ℕ
read_addend class r offset false = ok 0
read_addend elf64 r offset true = value (i64 r (add64 offset 16))
read_addend elf32 r offset true = value (i32 r (add64 offset 8))

unfoldable pub read_relocation : Class → Reader → ℕ → Bool → Result RawRelocation
read_relocation elf64 r offset has_addend = do
  place ← value (u64 r offset)
  info ← value (u64 r (add64 offset 8))
  addend ← read_addend elf64 r offset has_addend
  ok (record {
    offset = place;
    symbol_index = info / 2 ^ 32;
    type = bit_and info 0xffff_ffff % 2 ^ 32;
    addend = addend;
  })
read_relocation elf32 r offset has_addend = do
  place ← value (u32 r offset)
  info ← value (u32 r (add64 offset 4))
  addend ← read_addend elf32 r offset has_addend
  ok (record {
    offset = place;
    symbol_index = info / 2 ^ 8;
    type = bit_and info 0xff % 2 ^ 32;
    addend = addend;
  })

-- The name of the symbol, empty where the table does not reach the index.
unfoldable pub symbol_name : List Symbol → ℕ → Result Text
symbol_name symbols index =
    if ltb index (length symbols)
    then (do symbol ← element symbols index; ok symbol.name)
    else ok []

unfoldable pub parse_relocation :
    Reader → Header → RawSection → Bool → List Symbol → ℕ → Result Relocation
parse_relocation r h raw has_addend symbols offset = do
  entry ← read_relocation h.elf_class r offset has_addend
  reject (not (entry.symbol_index == 0) && leb (length symbols) entry.symbol_index)
      (make_error malformed_input (text "relocation references invalid symbol index"))
  name ← symbol_name symbols entry.symbol_index
  ok (record {
    section_name = raw.section.name;
    offset = entry.offset;
    type = entry.type;
    symbol_index = entry.symbol_index;
    symbol_name = name;
    addend = entry.addend;
    has_addend = has_addend;
  })

-- `for (entry = 0; entry < count; ++entry)` with `rounds` entries left.
unfoldable pub relocation_loop :
    Reader
    → Header
    → RawSection
    → Bool
    → List Symbol
    → ℕ
    → ℕ
    → ℕ
    → List Relocation
    → Result (List Relocation)
relocation_loop r h raw has_addend symbols entry_size zero entry all = ok all
relocation_loop r h raw has_addend symbols entry_size (suc rounds) entry all = do
  relocation ←
      parse_relocation r h raw has_addend symbols
        (add64 raw.section.offset (mul64 entry entry_size))
  relocation_loop r h raw has_addend symbols entry_size rounds (entry + 1)
      (all ++ (relocation ∷ []))

unfoldable pub relocation_table :
    Reader
    → Header
    → List RawSection
    → List (List Symbol)
    → RawSection
    → List Relocation
    → Result (List Relocation)
relocation_table r h sections by_section raw all = do
  reject (leb (length sections) raw.link)
      (make_error malformed_input (text "relocation symbol table link is invalid"))
  reject (leb (length by_section) raw.link)
      (make_error malformed_input (text "relocation symbol table is unavailable"))
  let has_addend = raw.section.type == sht_rela
  let entry_size = entry_size_or raw (reloc_size h.elf_class has_addend)
  reject (ltb entry_size (reloc_size h.elf_class has_addend))
      (make_error malformed_input (text "relocation entry size is too small"))
  reject (not (raw.section.size % entry_size == 0))
      (make_error malformed_input (text "relocation table size is not a multiple of entry size"))
  symbols ← element by_section raw.link
  relocation_loop r h raw has_addend symbols entry_size (raw.section.size / entry_size) 0 all

unfoldable pub is_relocation_table : RawSection → Bool
is_relocation_table raw = raw.section.type == sht_rel || raw.section.type == sht_rela

unfoldable pub section_relocations :
    Reader
    → Header
    → List RawSection
    → List (List Symbol)
    → RawSection
    → List Relocation
    → Result (List Relocation)
section_relocations r h sections by_section raw all =
    if is_relocation_table raw then relocation_table r h sections by_section raw all else ok all

-- `for (const auto& section : sections)` over the sections that are left.
unfoldable pub relocations_loop :
    Reader
    → Header
    → List RawSection
    → List (List Symbol)
    → List RawSection
    → List Relocation
    → Result (List Relocation)
relocations_loop r h sections by_section [] all = ok all
relocations_loop r h sections by_section (raw ∷ raws) all = do
  all' ← section_relocations r h sections by_section raw all
  relocations_loop r h sections by_section raws all'

unfoldable pub parse_relocations :
    Bytes → Header → List RawSection → List (List Symbol) → Result (List Relocation)
parse_relocations image h sections by_section =
    relocations_loop (record { bytes = image; endianness = h.endianness }) h sections by_section
      sections []
