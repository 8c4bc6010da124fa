-- ===== src/Resolver/Objects/Agrees.antt =====
-- The index of the view of an ELF file against the index of the file itself.
use roe.Base.{
  ℕ, ◌+◌, ◌*◌, ◌≡◌, refl, ap, ◌∙◌, Bool, true, false, ◌&&◌, not, List, [], ◌∷◌, ◌++◌, map, All,
  arith, ◌==◌, Bool-cases, inl, inr, if◌then◌else◌,
}
use roe.Base.Text.{Text, text, text_eq}
use roe.Core.Result.{Returns, Returns-bind, Gives-Returns}
use roe.Elf.Adapter.Strings.{extract_strings}
use roe.Elf.Adapter.Strings.Laws.{AreLiterals, extract_strings-All}
use roe.Binary.Types.{Object, FileView}
use roe.Binary.Types
use roe.Binary.Queries.{find_if}
use roe.Elf.Types.{IsImage, File, Section, Symbol, SymbolBind, SymbolType, Relocation}
use roe.Elf.Reader.{add64}
use roe.Elf.Parse.{find_section, first_section}
use roe.Elf.Adapter.{
  bind_of, is_global, mapped_section, mapped_symbol, mapped_relocation, adapter_symbol_bind,
  adapter_symbol_type,
}
use roe.Elf.Adapter.Dynamic.{populate_dynamic}
use roe.Elf.Adapter.Dynamic.Safe.{HasSegments, populate_dynamic-Returns}
use roe.Elf.Adapter.View.{build_object}
use roe.Resolver.Types.{Options, ResolvedSymbol, ResolvedReference, Index}
use roe.Resolver.Search.Sort.{sort, map-sort}
use roe.Resolver.Index.{
  include_symbol, is_file_or_section, is_local, find_plt_section, relocation_raw_name, is_skipped,
  plt_names, symbol_less, reference_less, relocation_display_name, index_symbols, resolved_symbol,
  index_relocations, resolved_reference, plt_symbols, plt_symbol, symbols_of_plt, build_index,
}
use roe.Resolver.Objects.{
  include_binary_symbol, is_file_or_section_type, is_local_bind, raw_name_of, is_skipped_binary,
  binary_plt_names, find_binary_plt, relocation_display_for, binary_symbols, binary_references,
  binary_plt_symbols, symbols_of_binary_plt, index_object,
}

-- The mark on the symbols of the procedure linkage table, which the ELF overload does not set.
abbrev pub unmarked : ResolvedSymbol → ResolvedSymbol
unmarked s = record s { synthetic = false }

abbrev pub marked : ResolvedSymbol → ResolvedSymbol
marked s = record s { synthetic = true }

same_type :
    (type : SymbolType)
    → is_file_or_section_type (adapter_symbol_type type) ≡ is_file_or_section type
unfolding adapter_symbol_type
same_type SymbolType.no_type = refl
same_type SymbolType.object = refl
same_type SymbolType.function = refl
same_type SymbolType.section = refl
same_type SymbolType.file = refl
same_type SymbolType.common = refl
same_type SymbolType.tls = refl
same_type SymbolType.other = refl

defined_bind :
    (bind : SymbolBind) (dynamic : Bool)
    → is_local_bind (
        if dynamic && not true
        then Types.SymbolBind.imported
        else if dynamic && true && is_global bind
        then Types.SymbolBind.exported
        else bind_of bind)
      ≡ is_local bind
defined_bind SymbolBind.local dynamic = ground arith
defined_bind SymbolBind.global dynamic = ground arith
defined_bind SymbolBind.weak dynamic = ground arith
defined_bind SymbolBind.other dynamic = ground arith

same_bind :
    (s : Symbol) → s.defined ≡ true → is_local_bind (adapter_symbol_bind s) ≡ is_local s.bind
unfolding adapter_symbol_bind
same_bind s d = rw d (defined_bind s.bind s.dynamic)

-- A symbol of the view is included exactly if it is one of the file.
same_include :
    (s : Symbol) (options : Options)
    → include_binary_symbol (mapped_symbol s) options ≡ include_symbol s options
unfolding include_binary_symbol include_symbol
same_include s options = elim (Bool-cases s.defined) [
  | inl d ↦ rw (same_type s.type, same_bind s d) (ground arith)
  | inr d ↦ ground arith
]

-- A relocation whose symbol has a name in its own table, or none in the file either.
abbrev pub IsNamed : File → Relocation → Type 0
IsNamed file r = relocation_raw_name file r ≡ r.symbol_name

same_raw_name :
    (file : File) (r : Relocation)
    → IsNamed file r
    → raw_name_of (mapped_relocation r) ≡ relocation_raw_name file r
unfolding raw_name_of
same_raw_name file r e = rw e (ground arith)

same_skipped :
    (file : File) (r : Relocation)
    → IsNamed file r
    → is_skipped_binary (mapped_relocation r) ≡ is_skipped file r
unfolding is_skipped_binary is_skipped
same_skipped file r e = rw (same_raw_name file r e) refl

same_plt_names :
    (file : File) (relocations : List Relocation)
    → All (IsNamed file) relocations
    → binary_plt_names (map mapped_relocation relocations) ≡ plt_names file relocations
unfolding binary_plt_names plt_names
same_plt_names file [] all = refl
same_plt_names file (r ∷ relocations) all =
    rw
      (same_skipped file r all.0, same_raw_name file r all.0, same_plt_names file relocations all.1)
      refl

module _ (demangle : Text → Text) (options : Options) where
  same_symbols :
      (symbols : List Symbol)
      → map unmarked (binary_symbols demangle options (map mapped_symbol symbols))
        ≡ index_symbols demangle options symbols
  unfolding binary_symbols index_symbols
  same_symbols [] = refl
  same_symbols (s ∷ symbols) = elim (Bool-cases (include_symbol s options)) [
    | inl e ↦
        rw (same_include s options, e)
          (ap (λ (l : List ResolvedSymbol). resolved_symbol demangle options s ∷ l)
            (same_symbols symbols))
    | inr e ↦ rw (same_include s options, e) (same_symbols symbols)
  ]

  same_references :
      (file : File) (relocations : List Relocation)
      → All (IsNamed file) relocations
      → binary_references demangle options (map mapped_relocation relocations)
        ≡ index_relocations demangle options file relocations
  unfolding binary_references index_relocations relocation_display_for relocation_display_name
  same_references file [] all = refl
  same_references file (r ∷ relocations) all = elim (Bool-cases (is_skipped file r)) [
    | inl e ↦ rw (same_skipped file r all.0, e) (same_references file relocations all.1)
    | inr e ↦
        rw (same_skipped file r all.0, e, same_raw_name file r all.0)
          (ap
            (λ (l : List ResolvedReference).
              resolved_reference demangle options (relocation_raw_name file r) r ∷ l)
            (same_references file relocations all.1))
  ]

  same_slots :
      (base slot : ℕ) (names : List Text)
      → map unmarked (binary_plt_symbols demangle options 0 base slot names)
        ≡ plt_symbols demangle options base slot names
  unfolding binary_plt_symbols plt_symbols
  same_slots base slot [] = refl
  same_slots base slot (name ∷ names) =
      ap
        (λ (l : List ResolvedSymbol). plt_symbol demangle options (add64 base (slot * 16)) name ∷ l)
        (same_slots base (slot + 1) names)

  same_plt :
      (sections : List Section) (names : List Text)
      → map unmarked (
          symbols_of_binary_plt demangle options 0
            (find_if
              (λ (s : Types.Section). text_eq s.name (text ".plt"))
              (map mapped_section sections))
            names)
        ≡ symbols_of_plt demangle options (first_section (text ".plt") sections) names
  unfolding find_if first_section
  same_plt [] names = refl
  same_plt (s ∷ sections) names = elim (Bool-cases (text_eq s.name (text ".plt"))) [
    | inl e ↦ elim (Bool-cases (s.address == 0)) [
      | inl z ↦ rw (e, z) refl
      | inr z ↦ rw (e, z) (same_slots s.address 1 names)
    ]
    | inr e ↦ rw e (same_plt sections names)
  ]

map-append :
    (xs ys : List ResolvedSymbol) → map unmarked (xs ++ ys) ≡ map unmarked xs ++ map unmarked ys
map-append [] ys = refl
map-append (x ∷ xs) ys = ap (λ (l : List ResolvedSymbol). unmarked x ∷ l) (map-append xs ys)

less-unmarked : (x y : ResolvedSymbol) → symbol_less (unmarked x) (unmarked y) ≡ symbol_less x y
unfolding symbol_less
less-unmarked x y = refl

module _ (demangle : Text → Text) (options : Options) where
  own_symbols :
      (symbols : List Symbol)
      → binary_symbols demangle options (map mapped_symbol symbols)
        ≡ index_symbols demangle options symbols
  unfolding binary_symbols index_symbols
  own_symbols [] = refl
  own_symbols (s ∷ symbols) = elim (Bool-cases (include_symbol s options)) [
    | inl e ↦
        rw (same_include s options, e)
          (ap (λ (l : List ResolvedSymbol). resolved_symbol demangle options s ∷ l)
            (own_symbols symbols))
    | inr e ↦ rw (same_include s options, e) (own_symbols symbols)
  ]

  index_symbols-plain :
      (symbols : List Symbol)
      → All (λ (s : ResolvedSymbol). s.synthetic ≡ false) (index_symbols demangle options symbols)
  unfolding index_symbols
  index_symbols-plain [] = tt
  index_symbols-plain (s ∷ symbols) = elim (Bool-cases (include_symbol s options)) [
    | inl e ↦ rw e (refl, index_symbols-plain symbols)
    | inr e ↦ rw e (index_symbols-plain symbols)
  ]

  marked_slots :
      (base slot : ℕ) (names : List Text)
      → binary_plt_symbols demangle options 0 base slot names
        ≡ map marked (plt_symbols demangle options base slot names)
  unfolding binary_plt_symbols plt_symbols
  marked_slots base slot [] = refl
  marked_slots base slot (name ∷ names) =
      ap
        (λ (l : List ResolvedSymbol).
          marked (plt_symbol demangle options (add64 base (slot * 16)) name) ∷ l)
        (marked_slots base (slot + 1) names)

  marked_plt :
      (sections : List Section) (names : List Text)
      → symbols_of_binary_plt demangle options 0
          (find_if
            (λ (s : Types.Section). text_eq s.name (text ".plt"))
            (map mapped_section sections))
          names
        ≡ map marked (symbols_of_plt demangle options (first_section (text ".plt") sections) names)
  unfolding find_if first_section
  marked_plt [] names = refl
  marked_plt (s ∷ sections) names = elim (Bool-cases (text_eq s.name (text ".plt"))) [
    | inl e ↦ elim (Bool-cases (s.address == 0)) [
      | inl z ↦ rw (e, z) refl
      | inr z ↦ rw (e, z) (marked_slots s.address 1 names)
    ]
    | inr e ↦ rw e (marked_plt sections names)
  ]

-- An index against the file's own: the same references, the same symbols but for the mark, and the
-- mark on the symbols of the procedure linkage table and on no other.
pub record Agrees (demangle : Text → Text) (options : Options) (file : File) (index : Index)
    : Type 0 where
  pub symbols_agree : map unmarked index.symbols ≡ (build_index demangle options file).symbols
  pub symbols_marked :
      index.symbols
      ≡ sort symbol_less (
          index_symbols demangle options file.symbols
          ++ map marked (
              symbols_of_plt demangle options
                (find_plt_section file)
                (plt_names file file.relocations)))
  pub others_plain :
      All
        (λ (s : ResolvedSymbol). s.synthetic ≡ false)
        (index_symbols demangle options file.symbols)
  pub references_agree : index.relocations ≡ (build_index demangle options file).relocations

module _ (demangle : Text → Text) (options : Options) where
  -- For a parsed file on an image, each of whose relocations has a name of its own or none in the file
  -- either, the two overloads of build_index agree: on the object of the file's view the index has the
  -- references of the file's own index, and its symbols in the same order but for the mark `synthetic`.
  -- The symbols of the procedure linkage table have that mark, and the symbols of the file have not. The
  -- object is built without a fault.
  pub build_index-Agrees :
      (file : File)
      → IsImage file.image
      → All (IsNamed file) file.relocations
      → Returns
          (λ o. Agrees demangle options file (index_object demangle options o))
          (build_object file)
  unfolding build_object index_object build_index find_binary_plt find_plt_section find_section
  build_index-Agrees file i named =
      Returns-bind (HasSegments file) _ (populate_dynamic file) _ (populate_dynamic-Returns file i)
        λ p _.
          Returns-bind (AreLiterals file 0) _ (extract_strings file 0) _
            (Gives-Returns (AreLiterals file 0) _ (extract_strings-All file 0))
            λ _ _. record {
              symbols_agree =
                  map-sort symbol_less unmarked less-unmarked _
                  ∙ ap (λ (l : List ResolvedSymbol). sort symbol_less l)
                      (map-append (binary_symbols demangle options (map mapped_symbol file.symbols))
                          (symbols_of_binary_plt demangle options 0
                            (find_if (λ (s : Types.Section). text_eq s.name (text ".plt"))
                              (map mapped_section file.sections))
                            (binary_plt_names (map mapped_relocation file.relocations)))
                        ∙ rw
                            (
                              same_plt_names file file.relocations named,
                              same_symbols demangle options file.symbols,
                              same_plt demangle options file.sections
                                  (plt_names file file.relocations),
                            )
                            refl);
              symbols_marked =
                  rw
                    (
                      same_plt_names file file.relocations named,
                      own_symbols demangle options file.symbols,
                      marked_plt demangle options file.sections (plt_names file file.relocations),
                    )
                    refl;
              others_plain = index_symbols-plain demangle options file.symbols;
              references_agree =
                  ap (λ (l : List ResolvedReference). sort reference_less l)
                    (same_references demangle options file file.relocations named);
            }
