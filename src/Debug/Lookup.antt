-- ===== src/Debug/Lookup.antt =====
-- src/debug/debug.cpp: the locations of the rows, behind the line-number programs, and their lookup.
pub mod Laws
use roe.Base.{
  ℕ, zero, suc, ◌-◌, ◌*◌, ◌/◌, ◌%◌, ◌^◌, bit_or, Bool, true, false, ◌&&◌, not, Option, none, some,
  List, [], ◌∷◌, ◌++◌, map, length, get_or, get_elem?, ltb, leb, ◌==◌, if◌then◌else◌,
}
use roe.Base.Text.{Text, is_empty}
use roe.Disasm.{Instruction}
use roe.Resolver.Search.{before_upper}
use roe.Resolver.Search.Sort.{sort}
use roe.Debug.Program.{Row}
use roe.Debug.Types.{Entry, SourceLocation, SourceMap, SourceInstruction}

-- What a unit leaves: its rows, and its paths by file index.
abbrev pub ParsedUnit : Type 0
ParsedUnit = List Row × List Text

-- `row.file |= (unit_id << 32U)`
unfoldable pub tag : ℕ → Row → Row
tag unit_id row = record row { file = bit_or row.file (unit_id * 2 ^ 32 % 2 ^ 64) }

-- The rows of all units, each tagged with its unit, from the unit `unit_id` on.
unfoldable pub tagged_rows : ℕ → List ParsedUnit → List Row
tagged_rows unit_id [] = []
tagged_rows unit_id ((rows, paths) ∷ units) =
    map (tag unit_id) rows ++ tagged_rows (suc unit_id) units

-- `unit_files.find(this_unit)` and the path at the index, or no text.
abbrev pub path_in : ℕ → Option ParsedUnit → Text
path_in file_index none = []
path_in file_index (some (rows, paths)) = get_or paths file_index []

-- The lines of the files that the paths name are a parameter: the files are read by std::ifstream, each
-- once, and kept in the cache of source_lines.
module _ (source_lines : Text → List Text) where
  unfoldable pub location : List ParsedUnit → Row → SourceLocation
  location units row =
      let path = path_in (row.file % 2 ^ 32) (get_elem? units (row.file / 2 ^ 32)) in
      record {
        path = path;
        line = row.line;
        column = row.column;
        text =
            if not (is_empty path) && ltb 0 row.line
            then get_or (source_lines path) (row.line - 1) []
            else [];
      }

  abbrev pub entry : List ParsedUnit → Row → Entry
  entry units row = (row.address, location units row)

  abbrev pub entry_less : Entry → Entry → Bool
  entry_less lhs rhs = ltb lhs.0 rhs.0

  -- `map.locations`, sorted.
  unfoldable pub locations : List ParsedUnit → List Entry
  locations units = sort entry_less (map (entry units) (tagged_rows 0 units))

abbrev pub address_of : Entry → ℕ
address_of e = e.0

abbrev pub with_line : Option Entry → Option SourceLocation
with_line none = none
with_line (some (a, l)) = if l.line == 0 then none else some l

unfoldable pub source_at : SourceMap → ℕ → Option SourceLocation
source_at map address = with_line (before_upper address_of none map.locations address)

unfoldable pub interleave : SourceMap → List Instruction → List SourceInstruction
interleave map [] = []
interleave map (i ∷ instructions) =
    record { instruction = i; source = source_at map i.address } ∷ interleave map instructions
