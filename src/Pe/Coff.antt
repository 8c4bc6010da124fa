-- ===== src/Pe/Coff.antt =====
-- src/pe/pe.cpp: parse_coff_symbols.
pub mod Merged
pub mod Safe
use roe.Base.{
  ℕ, zero, suc, ◌+◌, ◌-◌, ◌*◌, ◌/◌, ◌%◌, ◌^◌, min, Bool, true, false, ◌&&◌, ◌||◌, not, Option, none,
  some, List, [], ◌∷◌, ◌++◌, length, ltb, leb, ◌==◌, if◌then◌else◌,
}
use roe.Base.Text.{Text, is_empty, text_eq}
use roe.Core.Result.{Result, ok, aborted, ◌>>=◌, element}
use roe.Binary.Types.{Object, Section, Symbol, SymbolBind, SymbolType}
use roe.Elf.Types.{Bytes}
use roe.Elf.Reader.{add64}
use roe.Pe.Reader.{Read, u16, u32, c_string, fixed_string}
use roe.Pe.Exports.{max_parsed_symbols}

-- The fields of a symbol table entry that are read at once. `secnum` is an int16_t, kept as its bit
-- pattern.
pub record Entry : Type 0 where
  pub name_inline : ℕ
  pub value : ℕ
  pub secnum : ℕ
  pub type : ℕ
  pub class_aux : ℕ

abbrev pub read_entry : Bytes → Bool → ℕ → Read Entry
read_entry bytes flag off = do
  (name_inline, flag1) ← u32 bytes flag off
  (value, flag2) ← u32 bytes flag1 (off + 8)
  (secnum, flag3) ← u16 bytes flag2 (off + 12)
  (type, flag4) ← u16 bytes flag3 (off + 14)
  (class_aux, flag5) ← u16 bytes flag4 (off + 16)
  ok (
    record {
      name_inline = name_inline;
      value = value;
      secnum = secnum;
      type = type;
      class_aux = class_aux;
    },
    flag5,
  )

abbrev pub is_exported : SymbolBind → Bool
is_exported SymbolBind.exported = true
is_exported _ = false

-- The names of the exports with their positions. `emplace` keeps the first position of a name, as
-- `find_name` does.
unfoldable pub export_index : ℕ → List Symbol → List (Text × ℕ)
export_index k [] = []
export_index k (s ∷ symbols) =
    let rest = export_index (k + 1) symbols in
    if is_exported s.bind then (s.name, k) ∷ rest else rest

unfoldable pub find_name : Text → List (Text × ℕ) → Option ℕ
find_name name [] = none
find_name name ((key, k) ∷ names) =
    let rest = find_name name names in if text_eq key name then some k else rest

unfoldable pub fill : ℕ → ℕ → Symbol → Symbol
fill address section_index s =
    if s.address == 0
    then record s { address = address; section_index = section_index; defined = true }
    else s

-- `object.symbols[existing->second]` with its missing address filled.
unfoldable pub fill_at : ℕ → ℕ → List Symbol → ℕ → Result (List Symbol)
fill_at address section_index [] k = aborted
fill_at address section_index (s ∷ symbols) zero = ok (fill address section_index s ∷ symbols)
fill_at address section_index (s ∷ symbols) (suc k) = do
  rest ← fill_at address section_index symbols k
  ok (s ∷ rest)

-- `storage == coff_sym_class_external`, where the storage class is the low byte.
abbrev pub coff_bind : ℕ → SymbolBind
coff_bind class_aux = if class_aux % 256 == 2 then SymbolBind.global else SymbolBind.local

abbrev pub coff_symbol : ℕ → Text → ℕ → ℕ → ℕ → Symbol
coff_symbol index name address section_index class_aux = record {
  name = name;
  raw_name = name;
  object_index = index;
  address = address;
  size = 0;
  section_index = section_index;
  bind = coff_bind class_aux;
  type = SymbolType.function;
  defined = true;
  dynamic = false;
  synthetic = false;
  library = [];
}

-- A function is filled into the export of its name, or added.
abbrev pub merge : ℕ → Text → ℕ → ℕ → ℕ → List Symbol → Option ℕ → Result (List Symbol)
merge index name address section_index class_aux symbols none =
    ok (symbols ++ (coff_symbol index name address section_index class_aux ∷ []))
merge index name address section_index class_aux symbols (some k) =
    fill_at address section_index symbols k

-- The entry is a function in a section of the object.
unfoldable pub is_function : List Section → Entry → Bool
is_function sections e =
    (e.type == 0x20 && not (e.secnum == 0 || leb 0x8000 e.secnum))
    && ltb (e.secnum - 1) (length sections)

abbrev pub coff_name : Bytes → Bool → ℕ → ℕ → ℕ → Read Text
coff_name bytes flag off strtab name_inline =
    if name_inline == 0
    then (do
      (str_off, flag') ← u32 bytes flag (off + 4)
      ok (c_string bytes (strtab + str_off), flag'))
    else fixed_string bytes flag off 8

unfoldable pub place :
    ℕ → List Section → List (Text × ℕ) → Entry → Text → List Symbol → Result (List Symbol)
place index sections names e name symbols = if is_empty name then ok symbols else (do
  section ← element sections (e.secnum - 1)
  merge index name (add64 section.address e.value) (e.secnum - 1) e.class_aux symbols
      (find_name name names))

-- The body of the loop behind the step over the auxiliary records.
unfoldable pub visit_entry :
    Bytes
    → ℕ
    → List Section
    → ℕ
    → List (Text × ℕ)
    → ℕ
    → Entry
    → Bool
    → List Symbol
    → Read (List Symbol)
visit_entry bytes index sections strtab names off e flag symbols =
    let named = (do
      (name, flag') ← coff_name bytes flag off strtab e.name_inline
      symbols' ← place index sections names e name symbols
      ok (symbols', flag')) in
    if is_function sections e then named else ok (symbols, flag)

-- `for (i = 0; i < count;)`. The rounds bound the recursion: `count` of them are enough, and a run
-- that used them up with entries left would abort.
unfoldable pub coff_loop :
    Bytes
    → ℕ
    → List Section
    → ℕ
    → ℕ
    → List (Text × ℕ)
    → ℕ
    → ℕ
    → ℕ
    → Bool
    → List Symbol
    → Read (List Symbol)
coff_loop bytes index sections symtab strtab names count zero i flag symbols =
    if ltb i count then aborted else ok (symbols, flag)
coff_loop bytes index sections symtab strtab names count (suc rounds) i flag symbols =
    let body = (do
      (e, flag') ← read_entry bytes flag (symtab + i * 18)
      let rest = (do
        (symbols', flag'') ←
            visit_entry bytes index sections strtab names (symtab + i * 18) e flag' symbols
        coff_loop bytes index sections symtab strtab names count rounds
            (i + (1 + e.class_aux / 256 % 256)) flag'' symbols')
      if flag' then rest else ok (symbols, flag')) in
    if ltb i count then body else ok (symbols, flag)

-- A table with `count` entries at `symtab`, and the string table behind it.
abbrev pub read_symbols : Bytes → ℕ → ℕ → Bool → Object → Read Object
read_symbols bytes symtab count flag object = do
  (symbols, flag') ←
      coff_loop bytes object.index object.sections symtab (symtab + count * 18)
        (export_index 0 object.symbols) count count 0 flag object.symbols
  ok (record object { symbols = symbols }, flag')

-- The object, and the reader's flag.
unfoldable pub parse_coff_symbols : Bytes → ℕ → Bool → Object → Read Object
parse_coff_symbols bytes coff flag object = do
  (sym_ptr, flag1) ← u32 bytes flag (coff + 8)
  (raw_count, flag2) ← u32 bytes flag1 (coff + 12)
  let count = min raw_count max_parsed_symbols
  if (not flag2 || (sym_ptr == 0 || raw_count == 0)) || ltb (length bytes) (sym_ptr + count * 18)
      then ok (record object { stripped = true }, flag2)
      else read_symbols bytes sym_ptr count flag2 object
