-- ===== src/Resolver/Index.antt =====
-- src/resolver/resolver.cpp: build_index on a parsed ELF file. `demangle` is resolver::demangle.
pub mod Laws
use roe.Base.{
  ℕ, zero, suc, ◌+◌, ◌*◌, Bool, true, false, ◌&&◌, ◌||◌, not, Option, none, some, List, [], ◌∷◌,
  ◌++◌, length, get_elem?, ltb, ◌==◌, if◌then◌else◌,
}
use roe.Base.Text.{Text, text, text_eq, text_lt, starts_with, contains, is_empty}
use roe.Core.Result.{Result, ok}
use roe.Elf.Types.{File, Section, Symbol, SymbolBind, SymbolType, Relocation}
use roe.Elf.Reader.{add64}
use roe.Elf.Parse.{find_section}
use roe.Binary.Types.{Format}
use roe.Resolver.Types.{Options, ResolvedSymbol, ResolvedReference, Index}
use roe.Resolver.Search.Sort.{sort}

abbrev pub is_file_or_section : SymbolType → Bool
is_file_or_section SymbolType.file = true
is_file_or_section SymbolType.section = true
is_file_or_section _ = false

abbrev pub is_local : SymbolBind → Bool
is_local SymbolBind.local = true
is_local _ = false

unfoldable pub include_symbol : Symbol → Options → Bool
include_symbol s options =
    if is_empty s.name || not s.defined
    then false
    else if is_file_or_section s.type
    then false
    else if starts_with s.name (text ".L")
    then false
    else if starts_with s.name (text "$")
    then false
    else if s.dynamic && not options.include_dynamic_symbols
    then false
    else if is_local s.bind && not options.include_local_symbols
    then false
    else true

unfoldable pub is_metadata_relocation_section : Text → Bool
is_metadata_relocation_section name =
    contains name (text ".debug")
    || contains name (text ".eh_frame")
    || contains name (text ".comment")
    || contains name (text ".note")

unfoldable pub find_plt_section : File → Option Section
find_plt_section file = find_section file (text ".plt")

unfoldable pub is_plt_relocation_section : Text → Bool
is_plt_relocation_section name = contains name (text ".rela.plt") || contains name (text ".rel.plt")

-- The name of the file's symbol at an index, empty past the end.
abbrev pub name_or_empty : Option Symbol → Text
name_or_empty none = []
name_or_empty (some s) = s.name

unfoldable pub relocation_raw_name : File → Relocation → Text
relocation_raw_name file rel =
    if not (is_empty rel.symbol_name)
    then rel.symbol_name
    else name_or_empty (get_elem? file.symbols rel.symbol_index)

-- `name += "@plt"` or `name += "@got"`, by the section of the relocation.
unfoldable pub mark_name : Text → Text → Text
mark_name section_name name =
    if contains section_name (text ".plt") && not (contains name (text "@plt"))
    then name ++ text "@plt"
    else if contains section_name (text ".got") && not (contains name (text "@got"))
    then name ++ text "@got"
    else name

-- `name += suffix` unless it is there.
abbrev pub with_suffix : Text → Text → Text
with_suffix name suffix = if contains name suffix then name else name ++ suffix

-- Relocations that the second loop skips.
unfoldable pub is_skipped : File → Relocation → Bool
is_skipped file rel =
    is_metadata_relocation_section rel.section_name
    || starts_with (relocation_raw_name file rel) (text ".L")

-- The names that the second loop keeps for the slots of the procedure linkage table.
unfoldable pub plt_names : File → List Relocation → List Text
plt_names file [] = []
plt_names file (rel ∷ relocations) =
    if not (is_skipped file rel)
      && is_plt_relocation_section rel.section_name
      && not (is_empty (relocation_raw_name file rel))
    then relocation_raw_name file rel ∷ plt_names file relocations
    else plt_names file relocations

-- The orders of the two calls of std::sort.
unfoldable pub symbol_less : ResolvedSymbol → ResolvedSymbol → Bool
symbol_less l r =
    if not (l.address == r.address) then ltb l.address r.address else text_lt l.raw_name r.raw_name

unfoldable pub reference_less : ResolvedReference → ResolvedReference → Bool
reference_less l r =
    if not (l.address == r.address)
    then ltb l.address r.address
    else if not (text_eq l.relocation_section r.relocation_section)
    then text_lt l.relocation_section r.relocation_section
    else text_lt l.raw_name r.raw_name

module _ (demangle : Text → Text) (options : Options) where
  unfoldable pub display_name : Text → Text
  display_name raw_name =
      if is_empty raw_name
      then []
      else if options.demangle_names
      then demangle raw_name
      else raw_name

  -- The name before a suffix is added.
  abbrev pub base_name : Text → Text → Text
  base_name raw_name section_name =
      if is_empty (display_name raw_name)
      then (if is_empty section_name then text "<relocation>" else section_name)
      else display_name raw_name

  unfoldable pub relocation_display_name : Text → Relocation → Text
  relocation_display_name raw_name rel =
      mark_name rel.section_name (base_name raw_name rel.section_name)

  abbrev pub resolved_symbol : Symbol → ResolvedSymbol
  resolved_symbol s = record {
    name = display_name s.name;
    raw_name = s.name;
    address = s.address;
    size = s.size;
    exact = false;
    dynamic = s.dynamic;
    object_index = 0;
    synthetic = false;
  }

  -- The first loop: the symbols of the file that are included.
  unfoldable pub index_symbols : List Symbol → List ResolvedSymbol
  index_symbols [] = []
  index_symbols (s ∷ symbols) =
      if include_symbol s options
      then resolved_symbol s ∷ index_symbols symbols
      else index_symbols symbols

  abbrev pub resolved_reference : Text → Relocation → ResolvedReference
  resolved_reference raw_name rel = record {
    address = rel.offset;
    name = relocation_display_name raw_name rel;
    raw_name = raw_name;
    relocation_section = rel.section_name;
    relocation_type = rel.type;
    addend = rel.addend;
    has_addend = rel.has_addend;
    object_index = 0;
  }

  unfoldable pub index_relocations : File → List Relocation → List ResolvedReference
  index_relocations file [] = []
  index_relocations file (rel ∷ relocations) =
      if is_skipped file rel
      then index_relocations file relocations
      else resolved_reference (relocation_raw_name file rel) rel
        ∷ index_relocations file relocations

  abbrev pub plt_symbol : ℕ → Text → ResolvedSymbol
  plt_symbol address raw_name = record {
    name = with_suffix (display_name raw_name) (text "@plt");
    raw_name = raw_name;
    address = address;
    size = 16;
    exact = false;
    dynamic = true;
    object_index = 0;
    synthetic = false;
  }

  -- The third loop: slot 0 of the table is its header, and each of the others has 16 bytes.
  unfoldable pub plt_symbols : ℕ → ℕ → List Text → List ResolvedSymbol
  plt_symbols base slot [] = []
  plt_symbols base slot (raw_name ∷ names) =
      plt_symbol (add64 base (slot * 16)) raw_name ∷ plt_symbols base (slot + 1) names

  abbrev pub symbols_of_plt : Option Section → List Text → List ResolvedSymbol
  symbols_of_plt none names = []
  symbols_of_plt (some s) names = if s.address == 0 then [] else plt_symbols s.address 1 names

  unfoldable pub build_index : File → Index
  build_index file = record {
    symbols = sort symbol_less (
        index_symbols file.symbols
        ++ symbols_of_plt (find_plt_section file) (plt_names file file.relocations));
    relocations = sort reference_less (index_relocations file file.relocations);
    format = Format.unknown;
    strings = [];
  }
