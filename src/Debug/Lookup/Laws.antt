-- ===== src/Debug/Lookup/Laws.antt =====
-- What source_at answers, on a map in ascending order and on the map of the rows.
use roe.Base.{
  Elem, ℕ, ◌≤◌, ◌<◌, ◌≡◌, ◌≢◌, refl, ◌⊎◌, inl, inr, Bool, Option, none, some, List, [], ◌∷◌, map,
  All, arith, ◌==◌, ==→eq, ==→ne, Bool-cases,
}
use roe.Base.Text.{Text}
use roe.Resolver.Search.{before_upper, Ascending}
use roe.Resolver.Search.Sort.{insert, sort, sort-Ascending}
use roe.Resolver.Search.Laws.{IsFloor, before_upper-IsFloor}
use roe.Debug.Types.{Entry, SourceLocation, SourceMap}
use roe.Debug.Lookup.{
  ParsedUnit, tagged_rows, entry, entry_less, locations, address_of, with_line, source_at,
}

-- The sort puts no element in and drops none.
module _ {A : Type 0} (less : A → A → Bool) (P : A → Type 0) where
  insert-All : (x : A) (xs : List A) → P x → All P xs → All P (insert less x xs)
  unfolding insert
  insert-All x [] p all = (p, tt)
  insert-All x (y ∷ ys) p all = elim (Bool-cases (less y x)) [
    | inl e ↦ rw e (all.0, insert-All x ys p all.1)
    | inr e ↦ rw e (p, all)
  ]

  sort-All : (xs : List A) → All P xs → All P (sort less xs)
  unfolding sort
  sort-All [] all = tt
  sort-All (x ∷ xs) all = insert-All x (sort less xs) all.0 (sort-All xs all.1)

  All-insert : (x : A) (xs : List A) → All P (insert less x xs) → P x × All P xs
  unfolding insert
  All-insert x [] all = all
  All-insert x (y ∷ ys) all = elim (Bool-cases (less y x)) [
    | inl e ↦
        let opened : P y × All P (insert less x ys) = rw e at all in
        let (p, rest) = All-insert x ys opened.1 in (p, (opened.0, rest))
    | inr e ↦ rw e at all
  ]

  All-sort : (xs : List A) → All P (sort less xs) → All P xs
  unfolding sort
  All-sort [] all = tt
  All-sort (x ∷ xs) all = let (p, rest) = All-insert x (sort less xs) all in (p, All-sort xs rest)

All-at : {A : Type 0} (P : A → Type 0) (x : A) (xs : List A) → All P xs → Elem x xs → P x
All-at P x [] all e = absurd e
All-at P x (y ∷ ys) all (inl e) = rw e all.0
All-at P x (y ∷ ys) all (inr e) = All-at P x ys all.1 e

All-keep :
    {A : Type 0} (P Q : A → Type 0) (xs : List A) → ((x : A) → P x → Q x) → All P xs → All Q xs
All-keep P Q [] k all = tt
All-keep P Q (x ∷ xs) k all = (k x all.0, All-keep P Q xs k all.1)

All-self : {A : Type 0} (xs : List A) → All (λ x. Elem x xs) xs
All-self [] = tt
All-self (x ∷ xs) = (inl refl, All-keep _ _ xs (λ y e. inr e) (All-self xs))

-- A floor of the sorted list is one of the list.
IsFloor-sort :
    {A : Type 0} (less : A → A → Bool) (key : A → ℕ) (a : ℕ) (xs : List A) (o : Option A)
    → IsFloor key a (sort less xs) o
    → IsFloor key a xs o
IsFloor-sort less key a xs none f = All-sort less (λ x. a < key x) xs f
IsFloor-sort less key a xs (some x) (e, le, all) = (
  All-at (λ y. Elem y xs) x (sort less xs) (sort-All less (λ y. Elem y xs) xs (All-self xs)) e,
  le,
  All-sort less (λ y. (key y ≤ key x) ⊎ (a < key y)) xs all,
)

-- An answer for an address: the location of the highest entry at or below it, which has a line; or
-- nothing, where every entry is above the address or that highest one has the line 0.
abbrev pub IsSource : ℕ → List Entry → Option SourceLocation → Type 0
IsSource a entries none =
    All (λ e. a < e.0) entries
    ⊎ ((e : Entry) × IsFloor address_of a entries (some e) × (e.1.line ≡ 0))
IsSource a entries (some l) =
    (e : Entry) × IsFloor address_of a entries (some e) × (e.1 ≡ l) × (l.line ≢ 0)

with_line-IsSource :
    (a : ℕ) (entries : List Entry) (o : Option Entry)
    → IsFloor address_of a entries o
    → IsSource a entries (with_line o)
with_line-IsSource a entries none f = inl f
with_line-IsSource a entries (some (at, l)) f = elim (Bool-cases (l.line == 0)) [
  | inl e ↦ rw e (inr ((at, l), f, ==→eq _ _ e))
  | inr e ↦ rw e ((at, l), f, refl, ==→ne _ _ e)
]

-- On the map that is made of the rows of the units, sorted by address, source_at answers with the
-- location of a row at or below the address with no row between them, and only where its line is not 0.
-- It answers with nothing only where all rows are above the address or such a row has the line 0.
pub source_at-IsSource :
    (source_lines : Text → List Text) (units : List ParsedUnit) (m : SourceMap) (a : ℕ)
    → m.locations ≡ locations source_lines units
    → IsSource a (map (entry source_lines units) (tagged_rows 0 units)) (source_at m a)
unfolding source_at locations
source_at-IsSource source_lines units m a made =
    let less = entry_less source_lines in
    let entries = map (entry source_lines units) (tagged_rows 0 units) in
    let ordered : Ascending address_of 0 (sort less entries) =
      sort-Ascending less address_of (λ x y e. ground (arith)) (λ x y e. ground (arith)) entries in
    rw made (
      with_line-IsSource a entries (before_upper address_of none (sort less entries) a) (
        IsFloor-sort less address_of a entries _
          (before_upper-IsFloor address_of 0 a (sort less entries) ordered)))
