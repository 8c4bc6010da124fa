-- ===== src/Elf/Symbols.antt =====
-- src/elf/elf.cpp: parse_symbol and parse_symbols.
pub mod Safe
pub mod Entries
use roe.Base.{
  ℕ, zero, suc, ◌+◌, ◌/◌, ◌%◌, bit_and, Bool, true, false, ◌&&◌, ◌||◌, not, List, [], ◌∷◌, ◌++◌,
  length, ltb, leb, ◌==◌, if◌then◌else◌,
}
use roe.Base.Text.{text}
use roe.Core.Error.{make_error, malformed_input}
use roe.Core.Result.{Result, ok, ◌>>=◌, ◌>>◌, reject, value, element}
use roe.Elf.Types.{
  Bytes, Class, elf32, elf64, Header, RawSection, ByteRange, Symbol, SymbolBind, SymbolType,
}
use roe.Elf.Reader.{Reader, add64, mul64, u8, u16, u32, u64}
use roe.Elf.Strings.{range_for_section, string_from_table}

abbrev pub sht_symtab : ℕ
sht_symtab = 2

abbrev pub sht_strtab : ℕ
sht_strtab = 3

abbrev pub sht_dynsym : ℕ
sht_dynsym = 11

abbrev pub shn_undef : ℕ
shn_undef = 0

abbrev pub sym_size : Class → ℕ
sym_size elf32 = 16
sym_size elf64 = 24

unfoldable pub map_symbol_bind : ℕ → SymbolBind
map_symbol_bind v =
    if v == 0
    then SymbolBind.local
    else if v == 1
    then SymbolBind.global
    else if v == 2
    then SymbolBind.weak
    else SymbolBind.other

unfoldable pub map_symbol_type : ℕ → SymbolType
map_symbol_type v =
    if v == 0
    then SymbolType.no_type
    else if v == 1
    then SymbolType.object
    else if v == 2
    then SymbolType.function
    else if v == 3
    then SymbolType.section
    else if v == 4
    then SymbolType.file
    else if v == 5
    then SymbolType.common
    else if v == 6
    then SymbolType.tls
    else SymbolType.other

-- The members that the entry of a symbol gives, in the order of the reads of each class.
pub record RawSymbol : Type 0 where
  pub name_offset : ℕ
  pub info : ℕ
  pub section_index : ℕ
  pub address : ℕ
  pub size : ℕ

unfoldable pub read_symbol : Class → Reader → ℕ → Result RawSymbol
read_symbol elf64 r offset = do
  name_offset ← value (u32 r offset)
  info ← value (u8 r (add64 offset 4))
  section_index ← value (u16 r (add64 offset 6))
  address ← value (u64 r (add64 offset 8))
  size ← value (u64 r (add64 offset 16))
  ok (record {
    name_offset = name_offset;
    info = info;
    section_index = section_index;
    address = address;
    size = size;
  })
read_symbol elf32 r offset = do
  name_offset ← value (u32 r offset)
  address ← value (u32 r (add64 offset 4))
  size ← value (u32 r (add64 offset 8))
  info ← value (u8 r (add64 offset 12))
  section_index ← value (u16 r (add64 offset 14))
  ok (record {
    name_offset = name_offset;
    info = info;
    section_index = section_index;
    address = address;
    size = size;
  })

unfoldable pub parse_symbol : Reader → Header → ByteRange → ℕ → Bool → Result Symbol
parse_symbol r h string_table offset dynamic = do
  raw ← read_symbol h.elf_class r offset
  name ← string_from_table r.bytes string_table raw.name_offset (text "symbol string table")
  ok (record {
    name = name;
    address = raw.address;
    size = raw.size;
    section_index = raw.section_index;
    bind = map_symbol_bind (raw.info / 16 % 256);
    type = map_symbol_type (bit_and raw.info 0x0f);
    defined = not (raw.section_index == shn_undef);
    dynamic = dynamic;
  })

-- `by_section[i]` and `file.symbols`, to both of which each symbol is pushed.
abbrev pub Pushed : Type 0
Pushed = List Symbol × List Symbol

-- `for (entry = 0; entry < count; ++entry)` with `rounds` entries left.
unfoldable pub symbol_loop :
    Reader → Header → ByteRange → ℕ → ℕ → Bool → ℕ → ℕ → Pushed → Result Pushed
symbol_loop r h strings base entry_size dynamic zero entry pushed = ok pushed
symbol_loop r h strings base entry_size dynamic (suc rounds) entry (own, all) = do
  symbol ← parse_symbol r h strings (add64 base (mul64 entry entry_size)) dynamic
  symbol_loop r h strings base entry_size dynamic rounds (entry + 1)
      (own ++ (symbol ∷ []), all ++ (symbol ∷ []))

unfoldable pub is_symbol_table : RawSection → Bool
is_symbol_table raw = raw.section.type == sht_symtab || raw.section.type == sht_dynsym

-- The size of an entry that a table gives, or the default where it gives none.
abbrev pub entry_size_or : RawSection → ℕ → ℕ
entry_size_or raw expected = if raw.entry_size == 0 then expected else raw.entry_size

unfoldable pub symbol_table :
    Reader → Header → List RawSection → RawSection → List Symbol → Result Pushed
symbol_table r h sections raw all = do
  let entry_size = entry_size_or raw (sym_size h.elf_class)
  reject (ltb entry_size (sym_size h.elf_class))
      (make_error malformed_input (text "symbol table entry size is too small"))
  reject (not (raw.section.size % entry_size == 0))
      (make_error malformed_input (text "symbol table size is not a multiple of entry size"))
  reject (leb (length sections) raw.link)
      (make_error malformed_input (text "symbol table string table link is invalid"))
  linked ← element sections raw.link
  strings ← range_for_section r.bytes linked
  reject (not (linked.section.type == sht_strtab))
      (make_error malformed_input (text "symbol table link does not point to a string table"))
  symbol_loop r h strings raw.section.offset entry_size (raw.section.type == sht_dynsym)
      (raw.section.size / entry_size) 0 ([], all)

-- A section that is no symbol table leaves its list empty.
unfoldable pub section_symbols :
    Reader → Header → List RawSection → RawSection → List Symbol → Result Pushed
section_symbols r h sections raw all =
    if is_symbol_table raw then symbol_table r h sections raw all else ok ([], all)

-- `for (i = 0; i < sections.size(); ++i)` over the sections that are left.
unfoldable pub symbols_loop :
    Reader
    → Header
    → List RawSection
    → List RawSection
    → List Symbol
    → Result (List (List Symbol) × List Symbol)
symbols_loop r h sections [] all = ok ([], all)
symbols_loop r h sections (raw ∷ raws) all = do
  (own, all') ← section_symbols r h sections raw all
  (by_section, symbols) ← symbols_loop r h sections raws all'
  ok (own ∷ by_section, symbols)

unfoldable pub parse_symbols :
    Bytes → Header → List RawSection → Result (List (List Symbol) × List Symbol)
parse_symbols image h sections =
    symbols_loop (record { bytes = image; endianness = h.endianness }) h sections sections []
