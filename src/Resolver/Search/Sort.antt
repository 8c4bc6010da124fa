-- ===== src/Resolver/Search/Sort.antt =====
-- std::sort as src/resolver/resolver.cpp calls it. Among elements that the order does not tell
-- apart, std::sort leaves any sequence: this one keeps the one that it finds.
use roe.Base.{
  refl, map, ap, ◌∙◌, Elem, ℕ, ◌≤◌, ◌≡◌, ◌⊎◌, inl, inr, Bool, true, false, List, [], ◌∷◌, arith,
  Bool-cases, if◌then◌else◌,
}
use mathlib.Core.List.{Perm}
use mathlib.Core.List.Perm
use roe.Resolver.Search.{Ascending}

module _ {A : Type 0} (less : A → A → Bool) where
  unfoldable pub insert : A → List A → List A
  insert x [] = x ∷ []
  insert x (y ∷ ys) = if less y x then y ∷ insert x ys else x ∷ y ∷ ys

  unfoldable pub sort : List A → List A
  sort [] = []
  sort (x ∷ xs) = insert x (sort xs)

  insert-perm : (x : A) (xs : List A) → Perm (insert x xs) (x ∷ xs)
  unfolding insert
  insert-perm x [] = Perm.refl (x ∷ [])
  insert-perm x (y ∷ ys) = elim (Bool-cases (less y x)) [
    | inl e ↦ rw e (Perm.trans (Perm.cons y (insert-perm x ys)) (Perm.swap x y ys))
    | inr e ↦ rw e (Perm.refl (x ∷ y ∷ ys))
  ]

  pub sort-perm : (xs : List A) → Perm (sort xs) xs
  unfolding sort
  sort-perm [] = Perm.refl []
  sort-perm (x ∷ xs) = Perm.trans (insert-perm x (sort xs)) (Perm.cons x (sort-perm xs))

module _ {A : Type 0} (less : A → A → Bool) where
  Elem-insert : (x y : A) (ys : List A) → (x ≡ y) ⊎ Elem x ys → Elem x (insert less y ys)
  unfolding insert
  Elem-insert x y [] e = e
  Elem-insert x y (z ∷ zs) e = elim (Bool-cases (less z y)) [
    | inl b ↦ rw b (elim e [
      | inl p ↦ inr (Elem-insert x y zs (inl p))
      | inr (inl p) ↦ inl p
      | inr (inr p) ↦ inr (Elem-insert x y zs (inr p))
    ])
    | inr b ↦ rw b e
  ]

  pub Elem-sort : (x : A) (xs : List A) → Elem x xs → Elem x (sort less xs)
  unfolding sort
  Elem-sort x [] e = e
  Elem-sort x (y ∷ ys) (inl e) = Elem-insert x y (sort less ys) (inl e)
  Elem-sort x (y ∷ ys) (inr e) = Elem-insert x y (sort less ys) (inr (Elem-sort x ys e))

-- An order that compares by a key first leaves the keys ascending.
module _ {A : Type 0} (less : A → A → Bool) (key : A → ℕ)
    (falls : (x y : A) → less x y ≡ true → key x ≤ key y)
    (rises : (x y : A) → less x y ≡ false → key y ≤ key x) where
  insert-Ascending :
      (lo : ℕ) (x : A) (xs : List A)
      → lo ≤ key x
      → Ascending key lo xs
      → Ascending key lo (insert less x xs)
  unfolding insert
  insert-Ascending lo x [] h s = (h, tt)
  insert-Ascending lo x (y ∷ ys) h s = elim (Bool-cases (less y x)) [
    | inl e ↦ rw e (s.0, insert-Ascending (key y) x ys (falls y x e) s.1)
    | inr e ↦ rw e (h, (rises y x e, s.1))
  ]

  pub sort-Ascending : (xs : List A) → Ascending key 0 (sort less xs)
  unfolding sort
  sort-Ascending [] = tt
  sort-Ascending (x ∷ xs) = insert-Ascending 0 x (sort less xs) (omega arith) (sort-Ascending xs)

-- A map that the order does not see commutes with the sort.
module _ {A : Type 0} (less : A → A → Bool) (f : A → A)
    (unseen : (x y : A) → less (f x) (f y) ≡ less x y) where
  map-insert : (x : A) (xs : List A) → map f (insert less x xs) ≡ insert less (f x) (map f xs)
  unfolding insert
  map-insert x [] = refl
  map-insert x (y ∷ ys) = elim (Bool-cases (less y x)) [
    | inl e ↦ rw (unseen y x, e) (ap (λ (l : List A). f y ∷ l) (map-insert x ys))
    | inr e ↦ rw (unseen y x, e) refl
  ]

  pub map-sort : (xs : List A) → map f (sort less xs) ≡ sort less (map f xs)
  unfolding sort
  map-sort [] = refl
  map-sort (x ∷ xs) =
      map-insert x (sort less xs) ∙ ap (λ (l : List A). insert less (f x) l) (map-sort xs)
