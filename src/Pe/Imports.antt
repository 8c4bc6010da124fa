-- ===== src/Pe/Imports.antt =====
-- src/pe/pe.cpp: parse_imports.
pub mod Bounded
pub mod Safe
use roe.Base.{
  ℕ, zero, suc, ◌+◌, ◌*◌, ◌/◌, ◌%◌, ◌^◌, bit_and, Bool, true, false, ◌&&◌, ◌||◌, not, Option, none,
  some, List, [], ◌∷◌, ◌++◌, ltb, leb, ◌==◌, if◌then◌else◌,
}
use roe.Base.Text.{Text, text, is_empty, decimal}
use roe.Core.Result.{Result, ok, ◌>>=◌}
use roe.Binary.Types.{Symbol, SymbolBind, SymbolType}
use roe.Elf.Types.{Bytes}
use roe.Pe.Reader.{Read, u32, u64, c_string, SectionMap, rva_to_offset}
use roe.Pe.Exports.{max_parsed_symbols}

-- What the two loops change, and whether the inner one has returned from the function.
pub record Imports : Type 0 where
  pub flag : Bool
  pub budget : ℕ
  pub libraries : List Text
  pub symbols : List Symbol
  pub stopped : Bool

abbrev pub imported_symbol : ℕ → Text → Text → Symbol
imported_symbol index dll name = record {
  name = name;
  raw_name = name;
  object_index = index;
  address = 0;
  size = 0;
  section_index = 0;
  bind = SymbolBind.imported;
  type = SymbolType.function;
  defined = false;
  dynamic = true;
  synthetic = false;
  library = dll;
}

-- `1ULL << 63` or `1ULL << 31`
abbrev pub ordinal_flag : Bool → ℕ
ordinal_flag pe32_plus = if pe32_plus then 2 ^ 63 else 2 ^ 31

abbrev pub hinted_name : Bytes → Option ℕ → Text
hinted_name bytes none = []
hinted_name bytes (some hint_off) = c_string bytes (hint_off + 2)

unfoldable pub thunk_name : Bytes → List SectionMap → Bool → ℕ → Text
thunk_name bytes sections pe32_plus thunk =
    if not (bit_and thunk (ordinal_flag pe32_plus) == 0)
    then text "Ordinal#" ++ decimal 5 (bit_and thunk 0xffff)
    else hinted_name bytes (rva_to_offset sections (bit_and thunk 0x7fff_ffff))

abbrev pub push_import : ℕ → Text → Text → List Symbol → List Symbol
push_import index dll name symbols =
    if is_empty name then symbols else symbols ++ (imported_symbol index dll name ∷ [])

unfoldable pub read_thunk : Bytes → Bool → Bool → ℕ → ℕ → Read ℕ
read_thunk bytes true flag thunk_off t = u64 bytes flag (thunk_off + t * 8)
read_thunk bytes false flag thunk_off t = u32 bytes flag (thunk_off + t * 4)

-- The state behind a thunk whose symbol is pushed.
abbrev pub with_thunk : Bytes → List SectionMap → ℕ → Bool → Text → ℕ → Bool → Imports → Imports
with_thunk bytes sections index pe32_plus dll thunk flag s = record {
  flag = flag;
  budget = s.budget + 1;
  libraries = s.libraries;
  symbols = push_import index dll (thunk_name bytes sections pe32_plus thunk) s.symbols;
  stopped = s.stopped;
}

-- `for (t = 0; t < 65536; ++t)` with `rounds` thunks left.
unfoldable pub thunk_loop :
    Bytes → List SectionMap → ℕ → Bool → Text → ℕ → ℕ → ℕ → Imports → Result Imports
thunk_loop bytes sections index pe32_plus dll thunk_off zero t s = ok s
thunk_loop bytes sections index pe32_plus dll thunk_off (suc rounds) t s =
    let go_on = (do
      (thunk, flag) ← read_thunk bytes pe32_plus s.flag thunk_off t
      let rest =
          thunk_loop bytes sections index pe32_plus dll thunk_off rounds (t + 1)
            (with_thunk bytes sections index pe32_plus dll thunk flag s)
      if not flag || thunk == 0
          then ok (record s { flag = flag; budget = s.budget + 1 })
          else rest) in
    if leb max_parsed_symbols s.budget
    then ok (record s { budget = s.budget + 1; stopped = true })
    else go_on

abbrev pub dll_name : Bytes → Option ℕ → Text
dll_name bytes none = text "?"
dll_name bytes (some name_off) = c_string bytes name_off

abbrev pub thunks_at :
    Bytes → List SectionMap → ℕ → Bool → Text → Option ℕ → Imports → Result Imports
thunks_at bytes sections index pe32_plus dll none s = ok s
thunks_at bytes sections index pe32_plus dll (some thunk_off) s =
    thunk_loop bytes sections index pe32_plus dll thunk_off 65536 0 s

abbrev pub thunk_place : List SectionMap → ℕ → Option ℕ
thunk_place sections thunk_rva = if thunk_rva == 0 then none else rva_to_offset sections thunk_rva

-- The body of the loop over the descriptors, behind the test that ends it.
unfoldable pub visit_descriptor :
    Bytes → List SectionMap → ℕ → Bool → ℕ → ℕ → ℕ → Imports → Result Imports
visit_descriptor bytes sections index pe32_plus ilt_rva name_rva iat_rva s =
    let dll = dll_name bytes (rva_to_offset sections name_rva) in
    thunks_at bytes sections index pe32_plus dll
      (thunk_place sections (if not (ilt_rva == 0) then ilt_rva else iat_rva))
      (record s { libraries = s.libraries ++ (dll ∷ []) })

-- `for (entry = 0; entry < 4096; ++entry)` with `rounds` descriptors left.
unfoldable pub descriptor_loop :
    Bytes → List SectionMap → ℕ → Bool → ℕ → ℕ → ℕ → Imports → Result Imports
descriptor_loop bytes sections index pe32_plus dir_off zero entry s = ok s
descriptor_loop bytes sections index pe32_plus dir_off (suc rounds) entry s = do
  (ilt_rva, flag1) ← u32 bytes s.flag (dir_off + entry * 20)
  (name_rva, flag2) ← u32 bytes flag1 (dir_off + entry * 20 + 12)
  (iat_rva, flag3) ← u32 bytes flag2 (dir_off + entry * 20 + 16)
  let go_on = (do
    s' ←
        visit_descriptor bytes sections index pe32_plus ilt_rva name_rva iat_rva
          (record s { flag = flag3 })
    let rest = descriptor_loop bytes sections index pe32_plus dir_off rounds (entry + 1) s'
    if s'.stopped then ok s' else rest)
  if not flag3 || (ilt_rva == 0 && name_rva == 0 && iat_rva == 0)
      then ok (record s { flag = flag3 })
      else go_on

abbrev pub imports_at : Bytes → List SectionMap → ℕ → Bool → Option ℕ → Imports → Result Imports
imports_at bytes sections index pe32_plus none s = ok s
imports_at bytes sections index pe32_plus (some dir_off) s =
    descriptor_loop bytes sections index pe32_plus dir_off 4096 0 s

unfoldable pub parse_imports :
    Bytes → List SectionMap → ℕ → Bool → ℕ → Bool → List Text → List Symbol → Result Imports
parse_imports bytes sections import_rva pe32_plus index flag libraries symbols =
    imports_at bytes sections index pe32_plus
      (if import_rva == 0 then none else rva_to_offset sections import_rva)
      (record {
        flag = flag;
        budget = 0;
        libraries = libraries;
        symbols = symbols;
        stopped = false;
      })
