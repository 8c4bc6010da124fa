-- ===== src/Resolver/Tests.antt =====
-- Runs of the resolver, and its theorems at a concrete index.
use roe.Base.{
  map, All, ℕ, min, ◌+◌, ◌≡◌, refl, inl, inr, true, false, none, some, [], ◌∷◌, arith,
  if◌then◌else◌,
}
use roe.Base.Text.{Text, text, text_eq, text_lt, starts_with, contains, is_empty}
use roe.Elf.Types
use roe.Elf.Types.{File, Relocation, Symbol}
use roe.Elf.Reader.{add64}
use roe.Elf.Parse.{find_section, first_section}
use roe.Binary.Types.{Format}
use roe.Resolver.Types.{Options, ResolvedSymbol, Index}
use roe.Resolver.Search.{lower_bound, before_upper}
use roe.Resolver.Search.Sort.{insert, sort}
use roe.Resolver.Lookup.{
  symbol_end, symbol_at, nearest_symbol, relocation_at, relocation_inside,
  relocation_in_instruction,
}
use roe.Resolver.Lookup.Laws.{
  IsOrdered, IsExactAt, IsNearest, IsFirstIn, symbol_at-IsExactAt, nearest_symbol-IsNearest,
  relocation_in_instruction-IsFirstIn,
}
use roe.Resolver.Index.{
  include_symbol, is_metadata_relocation_section, find_plt_section, is_plt_relocation_section,
  relocation_raw_name, mark_name, display_name, relocation_display_name, index_symbols, is_skipped,
  index_relocations, plt_names, plt_symbols, symbol_less, reference_less, build_index,
}
use roe.Core.Result.{Returns}
use roe.Elf.Types.{IsImage}
use roe.Elf.Adapter.View.{build_object}
use roe.Disasm.{Instruction, BranchKind}
use roe.Resolver.Objects.{index_object}
use roe.Resolver.Objects.Agrees.{Agrees, build_index-Agrees}
use roe.Resolver.Annotate.{AnnotatedInstruction, annotate}
use roe.Resolver.Annotate.Laws.{IsAnnotated, annotate-IsAnnotated}
use roe.Resolver.Index.Laws.{
  build_index-IsOrdered, symbol_at-build_index, relocation_display_name-marked,
}

abbrev options : Options
options = record {
  demangle_names = false;
  include_dynamic_symbols = true;
  include_local_symbols = true;
}

abbrev demangled : Text → Text
demangled name = name

abbrev symbol : Text → ℕ → ℕ → Symbol
symbol name address size = record {
  name = name;
  address = address;
  size = size;
  section_index = 1;
  bind = Types.SymbolBind.global;
  type = Types.SymbolType.function;
  defined = true;
  dynamic = false;
}

abbrev relocation : Relocation
relocation = record {
  section_name = text ".rela.plt";
  offset = 0x4018;
  type = 7;
  symbol_index = 1;
  symbol_name = text "puts";
  addend = 0;
  has_addend = true;
}

abbrev plt : Types.Section
plt = record {
  name = text ".plt";
  index = 1;
  type = 1;
  flags = 6;
  address = 0x1020;
  offset = 0x1020;
  size = 0x20;
  alignment = 16;
  executable = true;
}

abbrev file : File
file = record {
  source_name = text "a.out";
  image = [];
  elf_class = Types.elf64;
  endianness = Types.little;
  file_type = Types.FileType.shared_object;
  machine = Types.Machine.x86_64;
  entry = 0x1100;
  sections = plt ∷ [];
  segments = [];
  symbols = symbol (text "main") 0x1100 0x20 ∷ symbol (text "init") 0x1000 0x10 ∷ [];
  relocations = relocation ∷ [];
  stripped = false;
}

abbrev resolved : Text → Text → ℕ → ℕ → ResolvedSymbol
resolved name raw_name address size = record {
  name = name;
  raw_name = raw_name;
  address = address;
  size = size;
  exact = false;
  dynamic = false;
  object_index = 0;
  synthetic = false;
}

abbrev index : Index
index = record {
  symbols =
      resolved (text "init") (text "init") 0x1000 0x10
      ∷ record (resolved (text "puts@plt") (text "puts") 0x1030 16) { dynamic = true }
      ∷ resolved (text "main") (text "main") 0x1100 0x20
      ∷ [];
  relocations =
      record {
        address = 0x4018;
        name = text "puts@plt";
        raw_name = text "puts";
        relocation_section = text ".rela.plt";
        relocation_type = 7;
        addend = 0;
        has_addend = true;
        object_index = 0;
      }
      ∷ [];
  format = Format.unknown;
  strings = [];
}

build_file : build_index demangled options file ≡ index
unfolding build_index index_symbols include_symbol index_relocations is_skipped plt_names
    plt_symbols find_plt_section find_section first_section is_metadata_relocation_section
    is_plt_relocation_section relocation_raw_name relocation_display_name display_name mark_name
    symbol_less reference_less sort insert text text_eq text_lt starts_with contains is_empty add64
build_file = refl

in_main : nearest_symbol index 0x1104 ≡ some (resolved (text "main") (text "main") 0x1100 0x20)
unfolding nearest_symbol before_upper symbol_end
in_main = refl

beyond : nearest_symbol index 0x1010 ≡ some (resolved (text "init") (text "init") 0x1000 0x10)
unfolding nearest_symbol before_upper symbol_end
beyond = refl

below : nearest_symbol index 0xfff ≡ none
unfolding nearest_symbol before_upper symbol_end
below = refl

at_main : symbol_at index 0x1104 ≡ none
unfolding symbol_at lower_bound
at_main = refl

in_instruction : relocation_in_instruction index 0x4020 8 ≡ none
unfolding relocation_in_instruction relocation_at relocation_inside lower_bound
in_instruction = refl

index-IsOrdered : IsOrdered index
index-IsOrdered = record { symbols_ordered = omega arith; relocations_ordered = omega arith }

symbol_at-IsExactAt_example : IsExactAt 0x1100 index.symbols (symbol_at index 0x1100)
symbol_at-IsExactAt_example = symbol_at-IsExactAt index 0x1100 index-IsOrdered

nearest_symbol-IsNearest_example : IsNearest 0x1104 index.symbols (nearest_symbol index 0x1104)
nearest_symbol-IsNearest_example = nearest_symbol-IsNearest index 0x1104 index-IsOrdered

relocation_in_instruction-IsFirstIn_example :
    IsFirstIn 0x4016
      (min (0x4016 + 8) 0xffff_ffff_ffff_ffff)
      index.relocations
      (relocation_in_instruction index 0x4016 8)
relocation_in_instruction-IsFirstIn_example =
    relocation_in_instruction-IsFirstIn index 0x4016 8 (omega arith) index-IsOrdered

build_index-IsOrdered_example : IsOrdered (build_index demangled options file)
build_index-IsOrdered_example = build_index-IsOrdered demangled options file

symbol_at-build_index_example :
    (r : ResolvedSymbol) × (symbol_at (build_index demangled options file) 0x1000 ≡ some r)
    × (r.address ≡ 0x1000)
    × (r.exact ≡ true)
unfolding include_symbol text starts_with is_empty
symbol_at-build_index_example =
    symbol_at-build_index demangled options file (symbol (text "init") 0x1000 0x10) (inr (inl refl))
      refl

relocation_display_name-marked_example :
    (if contains (text ".rela.plt") (text ".plt")
      then contains
          (relocation_display_name demangled options (text "puts") relocation)
          (text "@plt")
      else if contains (text ".rela.plt") (text ".got")
      then contains
          (relocation_display_name demangled options (text "puts") relocation)
          (text "@got")
      else true)
    ≡ true
relocation_display_name-marked_example =
    relocation_display_name-marked demangled options (text "puts") relocation

empty-IsImage : IsImage file.image
empty-IsImage = record { is_bytes = tt; size_bound = omega arith }

build_index-Agrees_example :
    Returns
      (λ o. Agrees demangled options file (index_object demangled options o))
      (build_object file)
unfolding relocation_raw_name is_empty text
build_index-Agrees_example = build_index-Agrees demangled options file empty-IsImage (refl, tt)

abbrev call : Instruction
call = record {
  address = 0x1104;
  size = 5;
  bytes = 0xe8 ∷ 0 ∷ 0 ∷ 0 ∷ 0 ∷ [];
  mnemonic = text "call";
  operands = text "0x1030";
  branch_kind = BranchKind.call;
  branch_target = some 0x1030;
  reference_target = none;
}

annotate-IsAnnotated_example :
    (map (λ (a : AnnotatedInstruction). a.instruction) (annotate index (call ∷ [])) ≡ call ∷ [])
    × All (IsAnnotated index) (annotate index (call ∷ []))
annotate-IsAnnotated_example = annotate-IsAnnotated index (call ∷ []) index-IsOrdered
