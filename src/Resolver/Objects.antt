-- ===== src/Resolver/Objects.antt =====
-- src/resolver/resolver.cpp: build_index on a normalized view.
pub mod Agrees
use roe.Base.{
  ℕ, ◌+◌, ◌*◌, Bool, true, false, ◌&&◌, ◌||◌, not, Option, none, some, List, [], ◌∷◌, ◌++◌, ◌==◌,
  if◌then◌else◌,
}
use roe.Base.Text.{Text, text, text_eq, starts_with, is_empty}
use roe.Core.Error.{make_error, ErrorCode}
use roe.Core.Result.{Result, ok, err}
use roe.Elf.Reader.{add64}
use roe.Binary.Types.{FileView, Object, Section, Symbol, SymbolBind, SymbolType, Relocation}
use roe.Binary.Queries.{find_if, primary_object}
use roe.Resolver.Types.{Options, ResolvedSymbol, ResolvedReference, Index}
use roe.Resolver.Search.Sort.{sort}
use roe.Resolver.Index.{
  is_metadata_relocation_section, is_plt_relocation_section, display_name, base_name, mark_name,
  with_suffix, symbol_less, reference_less,
}

abbrev is_file_or_section_type : SymbolType → Bool
is_file_or_section_type SymbolType.file = true
is_file_or_section_type SymbolType.section = true
is_file_or_section_type _ = false

abbrev is_local_bind : SymbolBind → Bool
is_local_bind SymbolBind.local = true
is_local_bind _ = false

unfoldable pub include_binary_symbol : Symbol → Options → Bool
include_binary_symbol s options =
    if is_empty s.name || not s.defined
    then false
    else if is_file_or_section_type s.type
    then false
    else if starts_with s.name (text ".L") || starts_with s.name (text "$")
    then false
    else if s.dynamic && not options.include_dynamic_symbols
    then false
    else if is_local_bind s.bind && not options.include_local_symbols
    then false
    else true

unfoldable pub raw_name_of : Relocation → Text
raw_name_of r = if is_empty r.symbol_name then r.raw_symbol_name else r.symbol_name

unfoldable pub is_skipped_binary : Relocation → Bool
is_skipped_binary r =
    is_metadata_relocation_section r.section_name || starts_with (raw_name_of r) (text ".L")

unfoldable pub binary_plt_names : List Relocation → List Text
binary_plt_names [] = []
binary_plt_names (r ∷ relocations) =
    if not (is_skipped_binary r)
      && is_plt_relocation_section r.section_name
      && not (is_empty (raw_name_of r))
    then raw_name_of r ∷ binary_plt_names relocations
    else binary_plt_names relocations

unfoldable pub find_binary_plt : List Section → Option Section
find_binary_plt sections = find_if (λ (s : Section). text_eq s.name (text ".plt")) sections

module _ (demangle : Text → Text) (options : Options) where
  unfoldable pub relocation_display_for : Text → Text → Text
  relocation_display_for raw_name section_name =
      mark_name section_name (base_name demangle options raw_name section_name)

  abbrev pub binary_symbol : Symbol → ResolvedSymbol
  binary_symbol s = record {
    name = display_name demangle options s.raw_name;
    raw_name = s.raw_name;
    address = s.address;
    size = s.size;
    exact = false;
    dynamic = s.dynamic;
    object_index = s.object_index;
    synthetic = false;
  }

  -- The first loop.
  unfoldable pub binary_symbols : List Symbol → List ResolvedSymbol
  binary_symbols [] = []
  binary_symbols (s ∷ symbols) =
      if include_binary_symbol s options
      then binary_symbol s ∷ binary_symbols symbols
      else binary_symbols symbols

  abbrev pub binary_reference : Relocation → ResolvedReference
  binary_reference r = record {
    address = r.offset;
    name = relocation_display_for (raw_name_of r) r.section_name;
    raw_name = raw_name_of r;
    relocation_section = r.section_name;
    relocation_type = r.type;
    addend = r.addend;
    has_addend = r.has_addend;
    object_index = r.object_index;
  }

  -- The second loop.
  unfoldable pub binary_references : List Relocation → List ResolvedReference
  binary_references [] = []
  binary_references (r ∷ relocations) =
      if is_skipped_binary r
      then binary_references relocations
      else binary_reference r ∷ binary_references relocations

  abbrev pub binary_plt_symbol : ℕ → ℕ → Text → ResolvedSymbol
  binary_plt_symbol index address raw_name = record {
    name = with_suffix (display_name demangle options raw_name) (text "@plt");
    raw_name = raw_name;
    address = address;
    size = 16;
    exact = false;
    dynamic = true;
    object_index = index;
    synthetic = true;
  }

  -- The third loop, from a slot on.
  unfoldable pub binary_plt_symbols : ℕ → ℕ → ℕ → List Text → List ResolvedSymbol
  binary_plt_symbols index base slot [] = []
  binary_plt_symbols index base slot (raw_name ∷ names) =
      binary_plt_symbol index (add64 base (slot * 16)) raw_name
      ∷ binary_plt_symbols index base (slot + 1) names

  abbrev pub symbols_of_binary_plt : ℕ → Option Section → List Text → List ResolvedSymbol
  symbols_of_binary_plt index none names = []
  symbols_of_binary_plt index (some s) names =
      if s.address == 0 then [] else binary_plt_symbols index s.address 1 names

  unfoldable pub index_object : Object → Index
  index_object o = record {
    symbols = sort symbol_less (
        binary_symbols o.symbols
        ++ symbols_of_binary_plt o.index (find_binary_plt o.sections)
            (binary_plt_names o.relocations));
    relocations = sort reference_less (binary_references o.relocations);
    format = o.format;
    strings = o.strings;
  }

  abbrev pub index_of : Option Object → Result Index
  index_of none = err (make_error ErrorCode.not_found (text "binary contains no analyzable object"))
  index_of (some o) = ok (index_object o)

  unfoldable pub build_binary_index : FileView → Result Index
  build_binary_index file = index_of (primary_object file)
