-- ===== src/Resolver/Search/Laws.antt =====
-- The searches on a vector in ascending order.
use roe.Base.{
  Elem, ℕ, ◌≤◌, ◌<◌, ◌≡◌, ◌≢◌, refl, ◌⊎◌, inl, inr, Option, none, some, List, [], ◌∷◌, All, arith,
  ltb, ltb→lt, ltb→le, ◌==◌, ==→eq, ==→ne, Bool-cases,
}
use roe.Resolver.Search.{lower_bound, before_upper, at_address, Ascending}

module _ {A : Type 0} (key : A → ℕ) where
  Ascending-weaken :
      (lo lo' : ℕ) (xs : List A) → lo' ≤ lo → Ascending key lo xs → Ascending key lo' xs
  Ascending-weaken lo lo' [] h s = tt
  Ascending-weaken lo lo' (x ∷ xs) h s = (omega (arith, s.0), s.1)

  -- All keys are at or above the lower end.
  pub Ascending-All : (lo : ℕ) (xs : List A) → Ascending key lo xs → All (λ x. lo ≤ key x) xs
  Ascending-All lo [] s = tt
  Ascending-All lo (x ∷ xs) s = (s.0, Ascending-All lo xs (Ascending-weaken (key x) lo xs s.0 s.1))

  -- An answer for the address `a`: the first element at it, or that no element is at it.
  abbrev pub IsAt : ℕ → List A → Option A → Type 0
  IsAt a xs none = All (λ x. key x ≢ a) xs
  IsAt a xs (some x) = Elem x xs × (key x ≡ a)

  -- An answer for the elements at or below `a`: there is none, or the highest of them.
  abbrev pub IsFloor : ℕ → List A → Option A → Type 0
  IsFloor a xs none = All (λ x. a < key x) xs
  IsFloor a xs (some x) = Elem x xs × (key x ≤ a) × All (λ y. (key y ≤ key x) ⊎ (a < key y)) xs

  -- The first element not below `a` is the lowest such.
  abbrev pub IsCeiling : ℕ → List A → Option A → Type 0
  IsCeiling a xs none = All (λ x. key x < a) xs
  IsCeiling a xs (some x) = Elem x xs × (a ≤ key x) × All (λ y. (key y < a) ⊎ (key x ≤ key y)) xs

  All-above : (a lo : ℕ) (xs : List A) → a < lo → All (λ x. lo ≤ key x) xs → All (λ x. a < key x) xs
  All-above a lo [] h s = tt
  All-above a lo (x ∷ xs) h s = (omega (arith, s.0), All-above a lo xs h s.1)

  All-ceiling :
      (a lo : ℕ) (xs : List A) → All (λ x. lo ≤ key x) xs → All (λ y. (key y < a) ⊎ (lo ≤ key y)) xs
  All-ceiling a lo [] s = tt
  All-ceiling a lo (x ∷ xs) s = (inr s.0, All-ceiling a lo xs s.1)

  IsCeiling-cons :
      (a : ℕ) (x : A) (xs : List A) (o : Option A)
      → key x < a
      → IsCeiling a xs o
      → IsCeiling a (x ∷ xs) o
  IsCeiling-cons a x xs none h c = (h, c)
  IsCeiling-cons a x xs (some y) h (e, le, all) = (inr e, le, (inl h, all))

  pub lower_bound-IsCeiling :
      (lo a : ℕ) (xs : List A) → Ascending key lo xs → IsCeiling a xs (lower_bound key xs a)
  unfolding lower_bound
  lower_bound-IsCeiling lo a [] s = tt
  lower_bound-IsCeiling lo a (x ∷ xs) s = elim (Bool-cases (ltb (key x) a)) [
    | inl e ↦ rw e (
        IsCeiling-cons a x xs (lower_bound key xs a) (ltb→lt _ _ e)
          (lower_bound-IsCeiling (key x) a xs s.1))
    | inr e ↦ rw e (
      inl refl,
      ltb→le _ _ e,
      (inr (omega arith), All-ceiling a (key x) xs (Ascending-All (key x) xs s.1)),
    )
  ]

  All-floor :
      (a top : ℕ) (xs : List A)
      → All (λ x. a < key x) xs
      → All (λ y. (key y ≤ top) ⊎ (a < key y)) xs
  All-floor a top [] s = tt
  All-floor a top (x ∷ xs) s = (inr s.0, All-floor a top xs s.1)

  IsFloor-cons :
      (a : ℕ) (x y : A) (ys : List A) (o : Option A)
      → key x ≤ key y
      → key y ≤ a
      → IsFloor a (y ∷ ys) o
      → IsFloor a (x ∷ y ∷ ys) o
  IsFloor-cons a x y ys none h g f = absurd (omega (arith, f.0))
  IsFloor-cons a x y ys (some z) h g (e, le, all) = (inr e, le, (inl (omega (arith, all.0)), all))

  -- With `x` passed at or below `a`, the answer is the last one of `x ∷ xs` at or below it.
  IsFloor-from :
      (a : ℕ) (x : A) (xs : List A)
      → key x ≤ a
      → Ascending key (key x) xs
      → IsFloor a (x ∷ xs) (before_upper key (some x) xs a)
  unfolding before_upper
  IsFloor-from a x [] h s = (inl refl, h, (inl (omega arith), tt))
  IsFloor-from a x (y ∷ ys) h s = elim (Bool-cases (ltb a (key y))) [
    | inl e ↦ rw e (
      inl refl,
      h,
      (
        inl (omega arith),
        (
          inr (ltb→lt _ _ e),
          All-floor a (key x) ys
              (All-above a (key y) ys (ltb→lt _ _ e) (Ascending-All (key y) ys s.1)),
        ),
      ),
    )
    | inr e ↦ rw e (
        IsFloor-cons a x y ys (before_upper key (some y) ys a) s.0 (ltb→le _ _ e)
          (IsFloor-from a y ys (ltb→le _ _ e) s.1))
  ]

  pub before_upper-IsFloor :
      (lo a : ℕ) (xs : List A) → Ascending key lo xs → IsFloor a xs (before_upper key none xs a)
  unfolding before_upper
  before_upper-IsFloor lo a [] s = tt
  before_upper-IsFloor lo a (x ∷ xs) s = elim (Bool-cases (ltb a (key x))) [
    | inl e ↦
        rw e (ltb→lt _ _ e, All-above a (key x) xs (ltb→lt _ _ e) (Ascending-All (key x) xs s.1))
    | inr e ↦ rw e (IsFloor-from a x xs (ltb→le _ _ e) s.1)
  ]

  ceiling_at :
      (a : ℕ) (xs : List A) (x : A)
      → a < key x
      → All (λ y. (key y < a) ⊎ (key x ≤ key y)) xs
      → All (λ y. key y ≢ a) xs
  ceiling_at a [] x h all = tt
  ceiling_at a (y ∷ ys) x h all = (λ e. omega (arith, all.0), ceiling_at a ys x h all.1)

  below_at : (a : ℕ) (xs : List A) → All (λ x. key x < a) xs → All (λ x. key x ≢ a) xs
  below_at a [] all = tt
  below_at a (x ∷ xs) all = (λ e. omega (arith, all.0), below_at a xs all.1)

  -- The ceiling of `a` is at `a`, or nothing is.
  pub IsCeiling-IsAt :
      (a : ℕ) (xs : List A) (o : Option A) → IsCeiling a xs o → IsAt a xs (at_address key a o)
  IsCeiling-IsAt a xs none c = below_at a xs c
  IsCeiling-IsAt a xs (some x) (e, le, all) = elim (Bool-cases (key x == a)) [
    | inl t ↦ rw t (e, ==→eq _ _ t)
    | inr t ↦ rw t (ceiling_at a xs x (ground (arith, ==→ne _ _ t)) all)
  ]
