-- ===== src/Pe/Imports/Bounded.antt =====
-- The imports that the loops have added, and their budget.
use roe.Base.{
  ℕ, ◌+◌, ◌≤◌, ◌<◌, ◌≡◌, refl, ap, ◌∙◌, Bool, true, false, List, [], ◌∷◌, ◌++◌, length,
  length-append, All, All-append, arith, Bool-cases, inl, inr,
}
use mathlib.Core.List.{append_assoc}
use roe.Base.Text.{Text, is_empty}
use roe.Binary.Types
use roe.Binary.Types.{Symbol}
use roe.Pe.Exports.{max_parsed_symbols}
use roe.Pe.Imports.{Imports, imported_symbol, push_import}

-- An imported symbol with a name.
abbrev pub IsImport : Symbol → Type 0
IsImport s = (s.bind ≡ Types.SymbolBind.imported) × (is_empty s.name ≡ false)

-- At most `max_parsed_symbols` imports behind the symbols that were there; the budget counts them until
-- the loops have stopped.
pub record IsBounded (symbols : List Symbol) (s : Imports) : Type 0 where
  pub added : List Symbol
  pub split : s.symbols ≡ symbols ++ added
  pub count : length added ≤ max_parsed_symbols
  pub imports : All IsImport added
  pub room : s.stopped ≡ false → (length added ≤ s.budget) × (s.budget ≤ max_parsed_symbols)

module _ (symbols : List Symbol) (s : Imports) (b : IsBounded symbols s) where
  pub stopped-IsBounded : IsBounded symbols (record s { budget = s.budget + 1; stopped = true })
  stopped-IsBounded = record {
    added = b.added;
    split = b.split;
    count = b.count;
    imports = b.imports;
    room = λ e. cc;
  }

  pub skipped-IsBounded :
      (flag : Bool)
      → s.stopped ≡ false
      → s.budget < max_parsed_symbols
      → IsBounded symbols (record s { flag = flag; budget = s.budget + 1 })
  skipped-IsBounded flag running below = record {
    added = b.added;
    split = b.split;
    count = b.count;
    imports = b.imports;
    room = λ e. let (few, _) = b.room running in (omega arith, omega arith);
  }

  pub flagged-IsBounded : (flag : Bool) → IsBounded symbols (record s { flag = flag })
  flagged-IsBounded flag = record {
    added = b.added;
    split = b.split;
    count = b.count;
    imports = b.imports;
    room = b.room;
  }

  pub library-IsBounded :
      (libraries : List Text) → IsBounded symbols (record s { libraries = libraries })
  library-IsBounded libraries = record {
    added = b.added;
    split = b.split;
    count = b.count;
    imports = b.imports;
    room = b.room;
  }

  pub pushed-IsBounded :
      (index : ℕ) (dll name : Text) (flag : Bool)
      → s.stopped ≡ false
      → s.budget < max_parsed_symbols
      → IsBounded symbols (record {
        flag = flag;
        budget = s.budget + 1;
        libraries = s.libraries;
        symbols = push_import index dll name s.symbols;
        stopped = s.stopped;
      })
  pushed-IsBounded index dll name flag running below = elim (Bool-cases (is_empty name)) [
    | inl e ↦ rw e (skipped-IsBounded flag running below)
    | inr e ↦
        let (few, _) = b.room running in
        let one = length-append b.added (imported_symbol index dll name ∷ []) in
        rw e (record {
          added = b.added ++ (imported_symbol index dll name ∷ []);
          split =
              ap (λ (l : List Symbol). l ++ (imported_symbol index dll name ∷ [])) b.split
              ∙ append_assoc symbols b.added (imported_symbol index dll name ∷ []);
          count = omega arith;
          imports =
              All-append IsImport b.added (imported_symbol index dll name ∷ []) b.imports
                ((refl, e), tt);
          room = λ _. (omega arith, omega arith);
        })
  ]
