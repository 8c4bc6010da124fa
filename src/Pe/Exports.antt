-- ===== src/Pe/Exports.antt =====
-- src/pe/pe.cpp: parse_exports.
pub mod Safe
use roe.Base.{
  ℕ, zero, suc, ◌+◌, ◌*◌, Bool, true, false, ◌||◌, not, Option, none, some, List, [], ◌∷◌, ◌++◌,
  ltb, ◌==◌, if◌then◌else◌,
}
use roe.Base.Text.{Text, is_empty}
use roe.Core.Result.{Result, ok, ◌>>=◌}
use roe.Binary.Types.{Symbol, SymbolBind, SymbolType}
use roe.Elf.Types.{Bytes}
use roe.Pe.Reader.{Read, u32, c_string, SectionMap, rva_to_offset}

abbrev pub max_parsed_symbols : ℕ
max_parsed_symbols = 65536

abbrev pub exported_symbol : ℕ → Text → Symbol
exported_symbol index name = record {
  name = name;
  raw_name = name;
  object_index = index;
  address = 0;
  size = 0;
  section_index = 0;
  bind = SymbolBind.exported;
  type = SymbolType.function;
  defined = true;
  dynamic = true;
  synthetic = false;
  library = [];
}

abbrev pub push_named : ℕ → Text → List Symbol → List Symbol
push_named index name symbols =
    if is_empty name then symbols else symbols ++ (exported_symbol index name ∷ [])

-- The symbols behind an entry whose name is at an offset, or nothing where the loop ends.
abbrev pub named_at : Bytes → ℕ → List Symbol → Option ℕ → Option (List Symbol)
named_at bytes index symbols none = none
named_at bytes index symbols (some name_off) =
    some (push_named index (c_string bytes name_off) symbols)

unfoldable pub visit_name :
    Bytes → List SectionMap → ℕ → ℕ → Bool → List Symbol → Option (List Symbol)
visit_name bytes sections index name_rva flag symbols =
    if flag then named_at bytes index symbols (rva_to_offset sections name_rva) else none

abbrev pub or_else : {A : Type 0} → Option A → A → A
or_else none a = a
or_else (some b) a = b

abbrev pub goes_on : {A : Type 0} → Option A → Bool
goes_on none = false
goes_on (some b) = true

-- `for (i = 0; i < num_names; ++i)` with `rounds` entries left.
unfoldable pub export_loop :
    Bytes → List SectionMap → ℕ → ℕ → ℕ → ℕ → Bool → List Symbol → Read (List Symbol)
export_loop bytes sections index names_off zero i flag symbols = ok (symbols, flag)
export_loop bytes sections index names_off (suc rounds) i flag symbols = do
  (name_rva, flag') ← u32 bytes flag (names_off + i * 4)
  let visited = visit_name bytes sections index name_rva flag' symbols
  let rest =
      export_loop bytes sections index names_off rounds (i + 1) flag' (or_else visited symbols)
  if goes_on visited then rest else ok (symbols, flag')

abbrev pub names_at :
    Bytes → List SectionMap → ℕ → ℕ → Bool → List Symbol → Option ℕ → Read (List Symbol)
names_at bytes sections index num_names flag symbols none = ok (symbols, flag)
names_at bytes sections index num_names flag symbols (some names_off) =
    export_loop bytes sections index names_off num_names 0 flag symbols

abbrev pub directory_at :
    Bytes → List SectionMap → ℕ → Bool → List Symbol → Option ℕ → Read (List Symbol)
directory_at bytes sections index flag symbols none = ok (symbols, flag)
directory_at bytes sections index flag symbols (some dir_off) = do
  (num_names, flag') ← u32 bytes flag (dir_off + 24)
  (names_rva, flag'') ← u32 bytes flag' (dir_off + 32)
  if num_names == 0 || ltb max_parsed_symbols num_names
      then ok (symbols, flag'')
      else names_at bytes sections index num_names flag'' symbols (rva_to_offset sections names_rva)

-- The symbols of the object with its exports, and the reader's flag.
unfoldable pub parse_exports :
    Bytes → List SectionMap → ℕ → ℕ → Bool → List Symbol → Read (List Symbol)
parse_exports bytes sections export_rva index flag symbols =
    if export_rva == 0
    then ok (symbols, flag)
    else directory_at bytes sections index flag symbols (rva_to_offset sections export_rva)
