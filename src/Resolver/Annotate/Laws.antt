-- ===== src/Resolver/Annotate/Laws.antt =====
-- What each annotation says of its instruction.
use roe.Base.{ℕ, ◌≡◌, refl, ap, Option, none, some, List, [], ◌∷◌, map, All}
use roe.Resolver.Types.{Index, ResolvedSymbol}
use roe.Resolver.Lookup.Laws.{
  IsOrdered, IsNearest, IsFirstIn, IsExactAt, nearest_symbol-IsNearest,
  relocation_in_instruction-IsFirstIn_end, symbol_at-IsExactAt,
}
use roe.Resolver.Lookup.{instruction_end}
use roe.Disasm.{Instruction}
use roe.Resolver.Annotate.{AnnotatedInstruction, target_symbol, annotate}

-- The annotation of a branch target: an exact symbol at it, or none is there.
abbrev pub IsTarget : Index → Option ℕ → Option ResolvedSymbol → Type 0
IsTarget index none answer = answer ≡ none
IsTarget index (some address) answer = IsExactAt address index.symbols answer

-- The annotations of an instruction.
pub record IsAnnotated (index : Index) (a : AnnotatedInstruction) : Type 0 where
  pub symbol_nearest : IsNearest a.instruction.address index.symbols a.symbol
  pub reference_first :
      IsFirstIn a.instruction.address
        (instruction_end a.instruction.address a.instruction.size)
        index.relocations
        a.reference
  pub target_exact : IsTarget index a.instruction.branch_target a.branch_target_symbol

target_symbol-IsTarget :
    (index : Index) (o : Option ℕ) → IsOrdered index → IsTarget index o (target_symbol index o)
unfolding target_symbol
target_symbol-IsTarget index none o = refl
target_symbol-IsTarget index (some address) o = symbol_at-IsExactAt index address o

-- On an index in ascending order of address, annotate keeps the instructions and their order. It gives
-- each the highest symbol at or below its address, the lowest relocation that is at its address or
-- between it and its end, and for a branch an exact symbol at its target, each where there is one.
pub annotate-IsAnnotated :
    (index : Index) (instructions : List Instruction)
    → IsOrdered index
    → (map (λ (a : AnnotatedInstruction). a.instruction) (annotate index instructions)
        ≡ instructions)
      × All (IsAnnotated index) (annotate index instructions)
unfolding annotate
annotate-IsAnnotated index [] o = (refl, tt)
annotate-IsAnnotated index (i ∷ instructions) o =
    let rest = annotate-IsAnnotated index instructions o in
    (
      ap (λ (l : List Instruction). i ∷ l) rest.0,
      (
        record {
          symbol_nearest = nearest_symbol-IsNearest index i.address o;
          reference_first = relocation_in_instruction-IsFirstIn_end index i.address i.size o;
          target_exact = target_symbol-IsTarget index i.branch_target o;
        },
        rest.1,
      ),
    )
