-- ===== src/Binary/Queries/Laws.antt =====
-- The queries find the first match, and find one whenever there is one.
use roe.Base.{
  ℕ, ◌≡◌, refl, ap, Bool, true, false, Option, none, some, List, [], ◌∷◌, ◌++◌, get_elem?, All,
  Bool-cases, Option-cases, inl, inr, ◌⊎◌,
}
use roe.Base.Text.{Text, text_eq}
use roe.Binary.Types.{FileView, Object, Section}
use roe.Binary.Queries.{on_object, find_if, find_section}

-- Nothing passes the test, or the answer passes it and nothing before it does.
module _ {A : Type 0} (test : A → Bool) where
  abbrev pub Found : List A → Option A → Type 0
  Found xs none = All (λ x. test x ≡ false) xs
  Found xs (some x) =
      (before : List A) × (after : List A) × (xs ≡ before ++ (x ∷ after))
      × (test x ≡ true)
      × All (λ y. test y ≡ false) before

  Found-cons : (x : A) (xs : List A) (o : Option A) → test x ≡ false → Found xs o → Found (x ∷ xs) o
  Found-cons x xs none e f = (e, f)
  Found-cons x xs (some y) e (before, after, q, t, all) =
      (x ∷ before, after, ap (λ (l : List A). x ∷ l) q, t, (e, all))

  find_if-Found : (xs : List A) → Found xs (find_if test xs)
  unfolding find_if
  find_if-Found [] = tt
  find_if-Found (x ∷ xs) = elim (Bool-cases (test x)) [
    | inl e ↦ rw e ([], xs, refl, e, tt)
    | inr e ↦ rw e (Found-cons x xs (find_if test xs) e (find_if-Found xs))
  ]

-- The answer of a query by name over one object: no object, or the first match among the entries.
abbrev pub Answers :
    {A : Type 0} → (A → Bool) → (Object → List A) → FileView → ℕ → Option A → Type 0
Answers test entries file index answer =
    ((get_elem? file.objects index ≡ none) × (answer ≡ none))
    ⊎ ((o : Object) × (get_elem? file.objects index ≡ some o) × Found test (entries o) answer)

-- find_section gives the first section of the object that has exactly the name, and nothing only
-- where the object is missing or no section of it has the name.
pub find_section-Answers :
    (file : FileView) (index : ℕ) (name : Text)
    → Answers
        (λ (s : Section). text_eq s.name name)
        (λ o. o.sections)
        file
        index
        (find_section file index name)
unfolding find_section
find_section-Answers file index name = elim (Option-cases (get_elem? file.objects index)) [
  | inl e ↦ rw (e, find_section, on_object) (inl (refl, refl))
  | inr (o, e) ↦
      rw (e, find_section, on_object)
        (inr (o, refl, find_if-Found (λ (s : Section). text_eq s.name name) o.sections))
]
