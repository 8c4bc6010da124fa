-- ===== src/Pe/Coff/Merged.antt =====
-- What the COFF symbols change: exports without an address are filled, functions are added.
use roe.Base.{
  ℕ, zero, suc, ◌+◌, ◌≤◌, ◌<◌, ◌≡◌, ◌≢◌, refl, sym, ap, ◌∙◌, ◌⊎◌, inl, inr, true, false, Option,
  none, some, List, [], ◌∷◌, ◌++◌, length, length-append, All, All-append, arith, ◌==◌, Bool-cases,
}
use mathlib.Core.List.{append_assoc, append-nil}
use roe.Base.Text.{Text, text_eq, text_eq_refl, is_empty}
use roe.Core.Result.{Returns, Returns-bind, Returns-weaken}
use native.Mathlib.Nat.{zero-add}
use roe.Binary.Types.{Symbol, SymbolBind, SymbolType}
use roe.Pe.Coff.{is_exported, export_index, find_name, fill, fill_at, coff_symbol, merge}

-- An export without an address has got one.
abbrev pub filled : ℕ → ℕ → Symbol → Symbol
filled address section_index s = record s {
  address = address;
  section_index = section_index;
  defined = true;
}

-- The symbol is unchanged, or it is an export that had no address.
abbrev pub IsFilled : Symbol → Symbol → Type 0
IsFilled s t =
    (t ≡ s)
    ⊎ ((s.bind ≡ SymbolBind.exported) × (s.address ≡ 0) × (a : ℕ) × (i : ℕ) × (t ≡ filled a i s))

abbrev pub AreFilled : List Symbol → List Symbol → Type 0
AreFilled [] [] = Unit {0}
AreFilled [] (t ∷ ts) = ⊥
AreFilled (s ∷ ss) [] = ⊥
AreFilled (s ∷ ss) (t ∷ ts) = IsFilled s t × AreFilled ss ts

-- No export has the name.
abbrev pub IsFresh : List Symbol → Text → Type 0
IsFresh symbols name = All (λ s. s.bind ≡ SymbolBind.exported → s.name ≢ name) symbols

-- A function of the COFF table, in one of the `n` sections and under a name that no export has.
abbrev pub IsAdded : List Symbol → ℕ → Symbol → Type 0
IsAdded symbols n s =
    (s.type ≡ SymbolType.function)
    × (s.defined ≡ true)
    × (is_empty s.name ≡ false)
    × (s.section_index < n)
    × IsFresh symbols s.name

-- The symbols behind at most `m` entries of the table.
pub record IsMerged (symbols : List Symbol) (n m : ℕ) (symbols' : List Symbol) : Type 0 where
  pub kept : List Symbol
  pub added : List Symbol
  pub split : symbols' ≡ kept ++ added
  pub filled : AreFilled symbols kept
  pub few : length added ≤ m
  pub functions : All (IsAdded symbols n) added

IsFilled-trans : (s t u : Symbol) → IsFilled s t → IsFilled t u → IsFilled s u
IsFilled-trans s t u (inl e) h = rw (sym e) h
IsFilled-trans s t u (inr (x, z, a, i, e)) (inl f) = inr (x, z, a, i, f ∙ e)
IsFilled-trans s t u (inr (x, z, a, i, e)) (inr (y, w, b, j, f)) =
    inr (x, z, b, j, f ∙ ap (filled b j) e)

-- The export at a position.
abbrev IsExportAt : List Symbol → ℕ → Type 0
IsExportAt [] k = ⊥
IsExportAt (s ∷ symbols) zero = s.bind ≡ SymbolBind.exported
IsExportAt (s ∷ symbols) (suc k) = IsExportAt symbols k

AreFilled-refl : (symbols : List Symbol) → AreFilled symbols symbols
AreFilled-refl [] = tt
AreFilled-refl (s ∷ symbols) = (inl refl, AreFilled-refl symbols)

bind-filled : (s t : Symbol) → IsFilled s t → t.bind ≡ s.bind
bind-filled s t (inl e) = ap (λ (r : Symbol). r.bind) e
bind-filled s t (inr (x, z, a, i, e)) = ap (λ (r : Symbol). r.bind) e

fill-IsFilled : (a i : ℕ) (s : Symbol) → s.bind ≡ SymbolBind.exported → IsFilled s (fill a i s)
unfolding fill
fill-IsFilled a i s x = elim (Bool-cases (s.address == 0)) [
  | inl e ↦ simp e (inr (x, ground arith, a, i, refl))
  | inr e ↦ simp e (inl refl)
]

-- The symbols with the first part of them filled.
abbrev HasFilled : List Symbol → List Symbol → List Symbol → Type 0
HasFilled symbols added l = (kept : List Symbol) × (l ≡ kept ++ added) × AreFilled symbols kept

fill_at-HasFilled :
    (a i : ℕ) (symbols kept added : List Symbol) (k : ℕ)
    → AreFilled symbols kept
    → IsExportAt symbols k
    → Returns (HasFilled symbols added) (fill_at a i (kept ++ added) k)
unfolding fill_at
fill_at-HasFilled a i [] kept added k f x = elim x [ ]
fill_at-HasFilled a i (s ∷ symbols) [] added k f x = elim f [ ]
fill_at-HasFilled a i (s ∷ symbols) (t ∷ kept) added zero f x = (
  fill a i t ∷ kept,
  refl,
  (IsFilled-trans s t (fill a i t) f.0 (fill-IsFilled a i t (bind-filled s t f.0 ∙ x)), f.1),
)
fill_at-HasFilled a i (s ∷ symbols) (t ∷ kept) added (suc k) f x =
    Returns-bind (HasFilled symbols added) (HasFilled (s ∷ symbols) added)
      (fill_at a i (kept ++ added) k) _ (fill_at-HasFilled a i symbols kept added k f.1 x)
      λ l (kept', e, f'). (t ∷ kept', ap (λ (r : List Symbol). t ∷ r) e, (f.0, f'))

-- What the index of the exports answers for a name: a position of an export, or no export has it.
abbrev IsIndexed : List Symbol → Text → ℕ → Option ℕ → Type 0
IsIndexed symbols name j none = IsFresh symbols name
IsIndexed symbols name j (some k) = (m : ℕ) × (k ≡ j + m) × IsExportAt symbols m

IsIndexed-skip :
    (s : Symbol) (symbols : List Symbol) (name : Text) (j : ℕ) (o : Option ℕ)
    → (s.bind ≡ SymbolBind.exported → s.name ≢ name)
    → IsIndexed symbols name (j + 1) o
    → IsIndexed (s ∷ symbols) name j o
IsIndexed-skip s symbols name j none h x = (h, x)
IsIndexed-skip s symbols name j (some k) h (m, e, x) = (suc m, omega arith, x)

is_exported-false : (b : SymbolBind) → is_exported b ≡ false → b ≢ SymbolBind.exported
is_exported-false SymbolBind.local h e = cc
is_exported-false SymbolBind.global h e = cc
is_exported-false SymbolBind.weak h e = cc
is_exported-false SymbolBind.imported h e = cc
is_exported-false SymbolBind.exported h e = cc
is_exported-false SymbolBind.other h e = cc

is_exported-true : (b : SymbolBind) → is_exported b ≡ true → b ≡ SymbolBind.exported
is_exported-true SymbolBind.local h = cc
is_exported-true SymbolBind.global h = cc
is_exported-true SymbolBind.weak h = cc
is_exported-true SymbolBind.imported h = cc
is_exported-true SymbolBind.exported h = refl
is_exported-true SymbolBind.other h = cc

ne-text_eq : (s t : Text) → text_eq s t ≡ false → s ≢ t
ne-text_eq s t h e = let f : text_eq s s ≡ false = rw (ap (text_eq s) e) h in cc (text_eq_refl s)

find_name-IsIndexed :
    (name : Text) (j : ℕ) (symbols : List Symbol)
    → IsIndexed symbols name j (find_name name (export_index j symbols))
unfolding export_index find_name
find_name-IsIndexed name j [] = tt
find_name-IsIndexed name j (s ∷ symbols) = elim (Bool-cases (is_exported s.bind)) [
  | inl e ↦ simp e (elim (Bool-cases (text_eq s.name name)) [
    | inl f ↦ simp f (0, omega arith, is_exported-true s.bind e)
    | inr f ↦ simp f (
        IsIndexed-skip s symbols name j _ (λ _. ne-text_eq s.name name f)
          (find_name-IsIndexed name (j + 1) symbols))
  ])
  | inr e ↦ simp e (
      IsIndexed-skip s symbols name j _ (λ x. absurd (is_exported-false s.bind e x))
        (find_name-IsIndexed name (j + 1) symbols))
]

pub IsMerged-refl : (symbols : List Symbol) (n : ℕ) → IsMerged symbols n 0 symbols
IsMerged-refl symbols n = record {
  kept = symbols;
  added = [];
  split = sym (append-nil symbols);
  filled = AreFilled-refl symbols;
  few = omega arith;
  functions = tt;
}

pub IsMerged-weaken :
    (symbols : List Symbol) (n m l : ℕ) (symbols' : List Symbol)
    → m ≤ l
    → IsMerged symbols n m symbols'
    → IsMerged symbols n l symbols'
IsMerged-weaken symbols n m l symbols' h r = record {
  kept = r.kept;
  added = r.added;
  split = r.split;
  filled = r.filled;
  few = omega (arith, r.few);
  functions = r.functions;
}

module _ (symbols : List Symbol) (n m : ℕ) (symbols' : List Symbol)
    (r : IsMerged symbols n m symbols') where
  added-IsMerged :
      (s : Symbol) → IsAdded symbols n s → IsMerged symbols n (suc m) (symbols' ++ (s ∷ []))
  added-IsMerged s h = record {
    kept = r.kept;
    added = r.added ++ (s ∷ []);
    split = ap (λ (l : List Symbol). l ++ (s ∷ [])) r.split ∙ append_assoc r.kept r.added (s ∷ []);
    filled = r.filled;
    few = omega (arith, r.few, length-append r.added (s ∷ []));
    functions = All-append (IsAdded symbols n) r.added (s ∷ []) r.functions (h, tt);
  }

  filled-IsMerged : (l : List Symbol) → HasFilled symbols r.added l → IsMerged symbols n (suc m) l
  filled-IsMerged l (kept, e, f) = record {
    kept = kept;
    added = r.added;
    split = e;
    filled = f;
    few = omega (arith, r.few);
    functions = r.functions;
  }

  merge-IsMerged :
      (index : ℕ) (name : Text) (address section_index class_aux : ℕ) (o : Option ℕ)
      → is_empty name ≡ false
      → section_index < n
      → IsIndexed symbols name 0 o
      → Returns
          (IsMerged symbols n (suc m))
          (merge index name address section_index class_aux symbols' o)
  merge-IsMerged index name address section_index class_aux none named inside fresh =
      added-IsMerged (coff_symbol index name address section_index class_aux)
        (refl, refl, named, inside, fresh)
  merge-IsMerged index name address section_index class_aux (some k) named inside (j, e, x) =
      rw (e, r.split)
        (Returns-weaken (HasFilled symbols r.added) (IsMerged symbols n (suc m))
          (fill_at address section_index (r.kept ++ r.added) (0 + j))
          (fill_at-HasFilled address section_index symbols r.kept r.added (0 + j) r.filled
            (rw (zero-add j) x))
          filled-IsMerged)

  -- The merge of a function into its export, or behind the symbols, with the index of the exports.
  pub merge-Returns :
      (index : ℕ) (name : Text) (address section_index class_aux : ℕ)
      → is_empty name ≡ false
      → section_index < n
      → Returns (IsMerged symbols n (suc m)) (
          merge index name address section_index class_aux symbols'
            (find_name name (export_index 0 symbols)))
  merge-Returns index name address section_index class_aux named inside =
      merge-IsMerged index name address section_index class_aux
        (find_name name (export_index 0 symbols)) named inside (find_name-IsIndexed name 0 symbols)

AreFilled-length : (ss ts : List Symbol) → AreFilled ss ts → length ts ≡ length ss
AreFilled-length [] [] h = refl
AreFilled-length [] (t ∷ ts) h = absurd h
AreFilled-length (s ∷ ss) [] h = absurd h
AreFilled-length (s ∷ ss) (t ∷ ts) h = omega (arith, AreFilled-length ss ts h.1)

pub IsMerged-length :
    (symbols : List Symbol) (n m : ℕ) (symbols' : List Symbol)
    → IsMerged symbols n m symbols'
    → length symbols' ≤ length symbols + m
IsMerged-length symbols n m symbols' r = omega (
  arith,
  ap (λ (l : List Symbol). length l) r.split,
  length-append r.kept r.added,
  AreFilled-length symbols r.kept r.filled,
  r.few,
)
