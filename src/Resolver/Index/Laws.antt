-- ===== src/Resolver/Index/Laws.antt =====
-- What build_index promises to the lookups.
use roe.Base.{
  Elem, ℕ, ◌≤◌, ◌≡◌, ◌≢◌, refl, inl, inr, true, false, Option, none, some, List, [], ◌∷◌, ◌++◌, All,
  arith, Bool-cases, if◌then◌else◌,
}
use roe.Base.Text.{Text, text, contains, contains-append, contains-append_left}
use roe.Elf.Types.{File, Symbol, Relocation}
use roe.Resolver.Types.{Options, ResolvedSymbol, ResolvedReference}
use roe.Resolver.Search.Sort.{sort-Ascending, Elem-sort}
use roe.Resolver.Lookup.{symbol_address, reference_address, symbol_at}
use roe.Resolver.Lookup.Laws.{IsOrdered, IsExactAt, symbol_at-IsExactAt}
use roe.Resolver.Index.{
  include_symbol, symbol_less, reference_less, build_index, index_symbols, resolved_symbol,
  relocation_display_name, base_name, mark_name,
}

pub symbol_less-falls : (x y : ResolvedSymbol) → symbol_less x y ≡ true → x.address ≤ y.address
unfolding symbol_less
symbol_less-falls x y e = ground arith

pub symbol_less-rises : (x y : ResolvedSymbol) → symbol_less x y ≡ false → y.address ≤ x.address
unfolding symbol_less
symbol_less-rises x y e = ground arith

pub reference_less-falls :
    (x y : ResolvedReference) → reference_less x y ≡ true → x.address ≤ y.address
unfolding reference_less
reference_less-falls x y e = ground arith

pub reference_less-rises :
    (x y : ResolvedReference) → reference_less x y ≡ false → y.address ≤ x.address
unfolding reference_less
reference_less-rises x y e = ground arith

Elem-append_left : {A : Type 0} (x : A) (xs ys : List A) → Elem x xs → Elem x (xs ++ ys)
Elem-append_left x [] ys e = absurd e
Elem-append_left x (z ∷ xs) ys (inl e) = inl e
Elem-append_left x (z ∷ xs) ys (inr e) = inr (Elem-append_left x xs ys e)

All-Elem : {A : Type 0} (P : A → Type 0) (x : A) (xs : List A) → All P xs → Elem x xs → P x
All-Elem P x [] all e = absurd e
All-Elem P x (y ∷ ys) all (inl e) = rw e all.0
All-Elem P x (y ∷ ys) all (inr e) = All-Elem P x ys all.1 e

mark_name-marked :
    (section_name name : Text)
    → (if contains section_name (text ".plt")
        then contains (mark_name section_name name) (text "@plt")
        else if contains section_name (text ".got")
        then contains (mark_name section_name name) (text "@got")
        else true)
      ≡ true
unfolding mark_name
mark_name-marked section_name name = ground (
  arith,
  contains-append name (text "@plt"),
  contains-append name (text "@got"),
  contains-append_left name (text "@plt") (text "@got"),
)

module _ (demangle : Text → Text) (options : Options) where
  -- The index is in ascending order of address, as the lookups by binary search want it, for every
  -- file and whatever names the demangler gives.
  pub build_index-IsOrdered : (file : File) → IsOrdered (build_index demangle options file)
  unfolding build_index
  build_index-IsOrdered file = record {
    symbols_ordered =
        sort-Ascending symbol_less symbol_address symbol_less-falls symbol_less-rises _;
    relocations_ordered =
        sort-Ascending reference_less reference_address reference_less-falls reference_less-rises _;
  }

  index_symbols-Elem :
      (s : Symbol) (symbols : List Symbol)
      → include_symbol s options ≡ true
      → Elem s symbols
      → Elem (resolved_symbol demangle options s) (index_symbols demangle options symbols)
  unfolding index_symbols
  index_symbols-Elem s [] inc e = absurd e
  index_symbols-Elem s (x ∷ symbols) inc (inl e) = rw (← e, inc) (inl refl)
  index_symbols-Elem s (x ∷ symbols) inc (inr e) =
      let rest = index_symbols-Elem s symbols inc e in
      elim (Bool-cases (include_symbol x options)) [ inl b ↦ rw b (inr rest) | inr b ↦ rw b rest ]

  exact_found :
      (a : ℕ) (symbols : List ResolvedSymbol) (s : ResolvedSymbol) (o : Option ResolvedSymbol)
      → Elem s symbols
      → s.address ≡ a
      → IsExactAt a symbols o
      → (r : ResolvedSymbol) × (o ≡ some r) × (r.address ≡ a) × (r.exact ≡ true)
  exact_found a symbols s none e at all =
      absurd (All-Elem (λ (q : ResolvedSymbol). q.address ≢ a) s symbols all e at)
  exact_found a symbols s (some r) e at (t, _, here, same) = (r, refl, rw same here, rw same refl)

  -- Every symbol of the file that the options include can be looked up: at its address the index
  -- has an exact symbol.
  pub symbol_at-build_index :
      (file : File) (s : Symbol)
      → Elem s file.symbols
      → include_symbol s options ≡ true
      → (r : ResolvedSymbol) × (symbol_at (build_index demangle options file) s.address ≡ some r)
        × (r.address ≡ s.address)
        × (r.exact ≡ true)
  symbol_at-build_index file s e inc =
      exact_found s.address (build_index demangle options file).symbols
        (resolved_symbol demangle options s) _ listed refl
        (symbol_at-IsExactAt (build_index demangle options file) s.address
          (build_index-IsOrdered file))
    where
      listed : Elem (resolved_symbol demangle options s) (build_index demangle options file).symbols
      listed =
          unfold build_index in
          Elem-sort symbol_less (resolved_symbol demangle options s) _ (
            Elem-append_left (resolved_symbol demangle options s)
              (index_symbols demangle options file.symbols) _
              (index_symbols-Elem s file.symbols inc e))

  -- The name of a relocation in a section like .plt holds the mark @plt. In a section like .got that
  -- is none like .plt it holds the mark @got.
  pub relocation_display_name-marked :
      (raw_name : Text) (rel : Relocation)
      → (if contains rel.section_name (text ".plt")
          then contains (relocation_display_name demangle options raw_name rel) (text "@plt")
          else if contains rel.section_name (text ".got")
          then contains (relocation_display_name demangle options raw_name rel) (text "@got")
          else true)
        ≡ true
  unfolding relocation_display_name
  relocation_display_name-marked raw_name rel =
      mark_name-marked rel.section_name (base_name demangle options raw_name rel.section_name)
