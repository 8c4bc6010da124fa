-- ===== src/Resolver/Search.antt =====
-- std::lower_bound and std::upper_bound as src/resolver/resolver.cpp uses them: on a vector that is
-- sorted by address, the first element that is not below the address, and the element before the
-- first one that is above it.
pub mod Laws
pub mod Sort
use roe.Base.{
  ℕ, ◌≤◌, ◌≡◌, ◌⊎◌, Bool, true, false, Option, none, some, List, [], ◌∷◌, ltb, ◌==◌, if◌then◌else◌,
}

module _ {A : Type 0} (key : A → ℕ) where
  -- `*std::lower_bound(...)`, or nothing at the end.
  unfoldable pub lower_bound : List A → ℕ → Option A
  lower_bound [] a = none
  lower_bound (x ∷ xs) a = if ltb (key x) a then lower_bound xs a else some x

  -- `*(std::upper_bound(...) - 1)`, or nothing at the beginning; `last` is the element passed last.
  unfoldable pub before_upper : Option A → List A → ℕ → Option A
  before_upper last [] a = last
  before_upper last (x ∷ xs) a =
      let next = before_upper (some x) xs a in if ltb a (key x) then last else next

  -- `it == end || it->address != address`
  abbrev pub at_address : ℕ → Option A → Option A
  at_address a none = none
  at_address a (some x) = if key x == a then some x else none

  -- The keys do not fall along the list, and none is below `lo`.
  abbrev pub Ascending : ℕ → List A → Type 0
  Ascending lo [] = Unit {0}
  Ascending lo (x ∷ xs) = (lo ≤ key x) × Ascending (key x) xs
