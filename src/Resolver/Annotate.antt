-- ===== src/Resolver/Annotate.antt =====
-- src/resolver/resolver.cpp: annotate.
pub mod Laws
use roe.Base.{ℕ, Option, none, some, List, [], ◌∷◌}
use roe.Base.Text.{Text}
use roe.Binary.Types.{StringLiteral}
use roe.Disasm.{Instruction}
use roe.Resolver.Types.{Index, ResolvedSymbol, ResolvedReference}
use roe.Resolver.Lookup.{symbol_at, nearest_symbol, relocation_in_instruction}

pub record AnnotatedInstruction : Type 0 where
  pub instruction : Instruction
  pub symbol : Option ResolvedSymbol
  pub reference : Option ResolvedReference
  pub branch_target_symbol : Option ResolvedSymbol
  pub string_reference : Option StringLiteral
  pub source_text : Option Text
  pub source_line : ℕ
  pub source_path : Text

unfoldable pub target_symbol : Index → Option ℕ → Option ResolvedSymbol
target_symbol index none = none
target_symbol index (some address) = symbol_at index address

abbrev pub annotated : Index → Instruction → AnnotatedInstruction
annotated index instruction = record {
  instruction = instruction;
  symbol = nearest_symbol index instruction.address;
  reference = relocation_in_instruction index instruction.address instruction.size;
  branch_target_symbol = target_symbol index instruction.branch_target;
  string_reference = none;
  source_text = none;
  source_line = 0;
  source_path = [];
}

unfoldable pub annotate : Index → List Instruction → List AnnotatedInstruction
annotate index [] = []
annotate index (instruction ∷ instructions) =
    annotated index instruction ∷ annotate index instructions
