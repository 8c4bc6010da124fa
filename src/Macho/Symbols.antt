-- ===== src/Macho/Symbols.antt =====
-- src/macho/macho.cpp, parse_thin: the loop over the symbol table.
pub mod Safe
use roe.Base.{
  ℕ, zero, suc, ◌+◌, ◌-◌, ◌*◌, ◌/◌, ◌%◌, ◌^◌, bit_and, Bool, true, false, ◌&&◌, ◌||◌, not, List, [],
  ◌∷◌, ◌++◌, length, get_or, drop, leb, ltb, ◌==◌, if◌then◌else◌,
}
use roe.Base.Text.{Text, text, is_empty, starts_with}
use roe.Core.Result.{Result, ok, ◌>>=◌, element}
use roe.Binary.Types.{Symbol, SymbolBind, SymbolType}
use roe.Elf.Types.{Bytes, Endianness}
use roe.Pe.Reader.{Read}
use roe.Macho.Reader.{u8, u16, u32, u64, c_string}
use roe.Macho.Commands.{Symtab, wide}

-- The fields of an entry of the symbol table that are read at once.
pub record Nlist : Type 0 where
  pub strx : ℕ
  pub type : ℕ
  pub desc : ℕ
  pub value : ℕ

abbrev pub nlist_size : Bool → ℕ
nlist_size is64 = if is64 then 16 else 12

-- An assembler temporary.
abbrev pub is_temporary : Text → Bool
is_temporary name = starts_with name (text "ltmp") || starts_with name (text "l_")

-- The name without its leading underscore.
unfoldable pub display_name : Text → Text
display_name [] = []
display_name (b ∷ name) = if b == b'_' then name else b ∷ name

abbrev pub is_external : ℕ → Bool
is_external type = not (bit_and type 1 == 0)

unfoldable pub mach_bind : ℕ → SymbolBind
mach_bind type =
    if bit_and type 0x0e == 0
    then SymbolBind.imported
    else if bit_and type 0x0e == 0x0e && is_external type
    then SymbolBind.exported
    else if is_external type
    then SymbolBind.global
    else SymbolBind.local

unfoldable pub mach_symbol : ℕ → Text → Nlist → ℕ → Text → Symbol
mach_symbol index name n sect library = record {
  name = display_name name;
  raw_name = name;
  object_index = index;
  address = n.value;
  size = 0;
  section_index = sect;
  bind = mach_bind n.type;
  type = SymbolType.function;
  defined = not (bit_and n.type 0x0e == 0);
  dynamic = true;
  synthetic = false;
  library = library;
}

-- The library of an import, by its ordinal in the high byte of `n_desc`.
abbrev pub library_at : List Text → ℕ → Result Text
library_at libraries ordinal =
    if leb 1 ordinal && leb ordinal (length libraries)
    then element libraries (ordinal - 1)
    else ok []

unfoldable pub import_library : List Text → Nlist → Result Text
import_library libraries n =
    if bit_and n.type 0x0e == 0 then library_at libraries (n.desc / 256 % 256) else ok []

-- The name of an entry; its offset is a sum of 32 bits.
unfoldable pub symbol_name : Bytes → Symtab → ℕ → Text
symbol_name bytes symtab strx =
    if not (strx == 0) && ltb strx symtab.strsize
    then c_string bytes ((symtab.stroff + strx) % 2 ^ 32)
    else []

abbrev pub push_symbol :
    Bytes → ℕ → List Text → ℕ → Text → Nlist → Bool → List Symbol → Read (List Symbol)
push_symbol bytes index libraries off name n flag symbols = do
  (sect, flag') ← u8 bytes flag (off + 5)
  library ← import_library libraries n
  ok (symbols ++ (mach_symbol index name n sect library ∷ []), flag')

-- The body of the loop behind the reads: debug symbols, and names that are empty or temporary, are
-- passed over.
unfoldable pub visit_nlist :
    Bytes → ℕ → List Text → Symtab → ℕ → Nlist → Bool → List Symbol → Read (List Symbol)
visit_nlist bytes index libraries symtab off n flag symbols =
    let name = symbol_name bytes symtab n.strx in
    if not (bit_and n.type 0xe0 == 0) || (is_empty name || is_temporary name)
    then ok (symbols, flag)
    else push_symbol bytes index libraries off name n flag symbols

module _ (order : Endianness) (bytes : Bytes) where
  abbrev pub read_nlist : Bool → ℕ → Bool → Read Nlist
  read_nlist is64 off flag = do
    (strx, flag1) ← u32 order bytes flag off
    (type, flag2) ← u8 bytes flag1 (off + 4)
    (desc, flag3) ← u16 order bytes flag2 (off + 6)
    (value, flag4) ← wide order is64 bytes flag3 (off + 8)
    ok (record { strx = strx; type = type; desc = desc; value = value }, flag4)

  -- `for (i = 0; i < symtab.nsyms; ++i)` with `rounds` entries left.
  unfoldable pub nlist_loop :
      ℕ → List Text → Symtab → Bool → ℕ → ℕ → Bool → List Symbol → Read (List Symbol)
  nlist_loop index libraries symtab is64 zero i flag symbols = ok (symbols, flag)
  nlist_loop index libraries symtab is64 (suc rounds) i flag symbols =
      let off = symtab.symoff + i * nlist_size is64 in
      let body = (do
        (n, flag1) ← read_nlist is64 off flag
        (symbols', flag2) ← visit_nlist bytes index libraries symtab off n flag1 symbols
        nlist_loop index libraries symtab is64 rounds (i + 1) flag2 symbols') in
      if ltb (length bytes) (off + nlist_size is64) then ok (symbols, flag) else body

  unfoldable pub parse_symtab : ℕ → List Text → Symtab → Bool → Bool → Read (List Symbol)
  parse_symtab index libraries symtab is64 flag =
      if symtab.present && leb symtab.nsyms 5000000
      then nlist_loop index libraries symtab is64 symtab.nsyms 0 flag []
      else ok ([], flag)
