-- ===== src/Pe/Exports/Safe.antt =====
-- Exports are read without a fault, and no more than the limit are added.
use roe.Base.{
  ℕ, zero, suc, ◌+◌, ◌*◌, ◌^◌, ◌≤◌, ◌<◌, ◌≡◌, refl, sym, ap, ◌∙◌, Bool, true, false, ◌||◌, Option,
  none, some, List, [], ◌∷◌, ◌++◌, length, length-append, All, All-append, arith, ltb, ◌==◌,
  Bool-cases, inl, inr, if◌then◌else◌,
}
use mathlib.Core.List.{append_assoc, append-nil}
use roe.Base.Text.{Text, is_empty}
use roe.Core.Result.{ok, Returns, Returns-bind, Returns-weaken}
use roe.Binary.Types.{Symbol, SymbolBind}
use roe.Binary.Types
use roe.Elf.Types.{Bytes, IsImage}
use roe.Pe.Reader.{Read, u32, c_string, SectionMap, rva_to_offset}
use roe.Pe.Reader.Laws.{u32-Returns, IsWord, IsNear, rva_to_offset-IsNear}
use roe.Pe.Exports.{
  max_parsed_symbols, exported_symbol, push_named, named_at, visit_name, or_else, goes_on,
  export_loop, names_at, directory_at, parse_exports,
}

-- An exported symbol with a name.
abbrev pub IsExport : Symbol → Type 0
IsExport s = (s.bind ≡ Types.SymbolBind.exported) × (is_empty s.name ≡ false)

-- At most `n` exports behind the symbols that were there.
abbrev pub IsExtended : List Symbol → ℕ → List Symbol → Type 0
IsExtended symbols n symbols' =
    (added : List Symbol) × (symbols' ≡ symbols ++ added) × (length added ≤ n) × All IsExport added

abbrev pub Extends : List Symbol → ℕ → List Symbol × Bool → Type 0
Extends symbols n p = IsExtended symbols n p.0

IsExtended-refl : (symbols : List Symbol) (n : ℕ) → IsExtended symbols n symbols
IsExtended-refl symbols n = ([], sym (append-nil symbols), omega arith, tt)

IsExtended-push :
    (index : ℕ) (name : Text) (symbols : List Symbol)
    → IsExtended symbols 1 (push_named index name symbols)
IsExtended-push index name symbols = elim (Bool-cases (is_empty name)) [
  | inl e ↦ rw e (IsExtended-refl symbols 1)
  | inr e ↦ rw e (exported_symbol index name ∷ [], refl, omega arith, ((refl, e), tt))
]

IsExtended-trans :
    (n : ℕ) (a b c : List Symbol) → IsExtended a 1 b → IsExtended b n c → IsExtended a (suc n) c
IsExtended-trans n a b c (x, e, k, p) (y, f, l, q) = (
  x ++ y,
  f ∙ ap (λ (l : List Symbol). l ++ y) e ∙ append_assoc a x y,
  omega (arith, length-append x y),
  All-append IsExport x y p q,
)

-- What a visited entry leaves: at most one more export.
abbrev IsVisited : List Symbol → Option (List Symbol) → Type 0
IsVisited symbols none = Unit {0}
IsVisited symbols (some symbols') = IsExtended symbols 1 symbols'

named_at-IsVisited :
    (bytes : Bytes) (index : ℕ) (symbols : List Symbol) (o : Option ℕ)
    → IsVisited symbols (named_at bytes index symbols o)
named_at-IsVisited bytes index symbols none = tt
named_at-IsVisited bytes index symbols (some name_off) =
    IsExtended-push index (c_string bytes name_off) symbols

visit_name-IsVisited :
    (bytes : Bytes) (sections : List SectionMap) (index name_rva : ℕ) (flag : Bool)
    (symbols : List Symbol)
    → IsVisited symbols (visit_name bytes sections index name_rva flag symbols)
unfolding visit_name
visit_name-IsVisited bytes sections index name_rva true symbols =
    named_at-IsVisited bytes index symbols (rva_to_offset sections name_rva)
visit_name-IsVisited bytes sections index name_rva false symbols = tt

Extends-step :
    (n : ℕ) (symbols : List Symbol) (flag : Bool) (visited : Option (List Symbol))
    (rest : Read (List Symbol))
    → IsVisited symbols visited
    → Returns (Extends (or_else visited symbols) n) rest
    → Returns (Extends symbols (suc n)) (if goes_on visited then rest else ok (symbols, flag))
Extends-step n symbols flag none rest v r = IsExtended-refl symbols (suc n)
Extends-step n symbols flag (some symbols') rest v r =
    Returns-weaken (Extends symbols' n) (Extends symbols (suc n)) rest r
      λ p e. IsExtended-trans n symbols symbols' p.0 v e

module _ (bytes : Bytes) (image : IsImage bytes) (sections : List SectionMap)
    (words : All IsWord sections) (index : ℕ) where
  export_loop-Returns :
      (names_off rounds i : ℕ) (flag : Bool) (symbols : List Symbol)
      → names_off < 2 ^ 33
      → i + rounds ≤ max_parsed_symbols
      → Returns
          (Extends symbols rounds)
          (export_loop bytes sections index names_off rounds i flag symbols)
  unfolding export_loop
  export_loop-Returns names_off zero i flag symbols near few = IsExtended-refl symbols 0
  export_loop-Returns names_off (suc rounds) i flag symbols near few =
      Returns-bind (λ _. Unit {0}) (Extends symbols (suc rounds))
        (u32 bytes flag (names_off + i * 4)) _
        (u32-Returns bytes image flag (names_off + i * 4) (omega arith))
        λ (name_rva, flag') _.
          Extends-step rounds symbols flag' (visit_name bytes sections index name_rva flag' symbols)
            _ (visit_name-IsVisited bytes sections index name_rva flag' symbols)
            (export_loop-Returns names_off rounds (i + 1) flag'
              (or_else (visit_name bytes sections index name_rva flag' symbols) symbols) near
              (omega arith))

  names_at-Returns :
      (num_names : ℕ) (flag : Bool) (symbols : List Symbol) (o : Option ℕ)
      → num_names ≤ max_parsed_symbols
      → IsNear o
      → Returns
          (Extends symbols max_parsed_symbols)
          (names_at bytes sections index num_names flag symbols o)
  names_at-Returns num_names flag symbols none few near = IsExtended-refl symbols max_parsed_symbols
  names_at-Returns num_names flag symbols (some names_off) few near =
      Returns-weaken (Extends symbols num_names) (Extends symbols max_parsed_symbols)
        (export_loop bytes sections index names_off num_names 0 flag symbols)
        (export_loop-Returns names_off num_names 0 flag symbols near (omega arith))
        λ p (added, e, count, all). (added, e, omega arith, all)

  directory_at-Returns :
      (flag : Bool) (symbols : List Symbol) (o : Option ℕ)
      → IsNear o
      → Returns
          (Extends symbols max_parsed_symbols)
          (directory_at bytes sections index flag symbols o)
  directory_at-Returns flag symbols none near = IsExtended-refl symbols max_parsed_symbols
  directory_at-Returns flag symbols (some dir_off) near =
      Returns-bind (λ _. Unit {0}) (Extends symbols max_parsed_symbols)
        (u32 bytes flag (dir_off + 24)) _
        (u32-Returns bytes image flag (dir_off + 24) (omega arith))
        λ (num_names, flag1) _.
          Returns-bind (λ _. Unit {0}) (Extends symbols max_parsed_symbols)
            (u32 bytes flag1 (dir_off + 32)) _
            (u32-Returns bytes image flag1 (dir_off + 32) (omega arith))
            λ (names_rva, flag2) _.
              elim (Bool-cases (num_names == 0 || ltb max_parsed_symbols num_names)) [
                | inl e ↦ rw e (IsExtended-refl symbols max_parsed_symbols)
                | inr e ↦ rw e (
                    names_at-Returns num_names flag2 symbols (rva_to_offset sections names_rva)
                      (ground arith) (rva_to_offset-IsNear sections names_rva words))
              ]

  -- On an image, and for sections whose places in the file are words of 32 bits, parse_exports does not
  -- read outside the image, whatever the export directory says. It appends at most 65536 symbols to
  -- those of the object, each of them exported and with a name.
  pub parse_exports-Returns :
      (export_rva : ℕ) (flag : Bool) (symbols : List Symbol)
      → Returns
          (Extends symbols max_parsed_symbols)
          (parse_exports bytes sections export_rva index flag symbols)
  unfolding parse_exports
  parse_exports-Returns export_rva flag symbols = elim (Bool-cases (export_rva == 0)) [
    | inl e ↦ rw e (IsExtended-refl symbols max_parsed_symbols)
    | inr e ↦ rw e (
        directory_at-Returns flag symbols (rva_to_offset sections export_rva)
          (rva_to_offset-IsNear sections export_rva words))
  ]
