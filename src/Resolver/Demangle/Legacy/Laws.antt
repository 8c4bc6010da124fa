-- ===== src/Resolver/Demangle/Legacy/Laws.antt =====
-- A hash is stripped where a name ends in one, and nothing else is.
use roe.Base.{
  take-append, ℕ, suc, ◌+◌, ◌-◌, ◌≤◌, ◌≡◌, refl, ap, ◌∙◌, ◌⊎◌, inl, inr, true, false, ◌&&◌, Option,
  none, some, [], ◌∷◌, ◌++◌, length, length-append, length-drop, take, drop, arith, leb, Bool-cases,
  if◌then◌else◌,
}
use roe.Base.Text.{Text, text, text_eq, starts_with}
use roe.Resolver.Demangle.Legacy.{rfind, all_hex, strip_at, strip_by, strip_rust_legacy_hash}

abbrev marker : Text
marker = b':' ∷ b':' ∷ b'h' ∷ []

marker_lem : text "::h" ≡ marker
unfolding text
marker_lem = refl

-- No marker stands in a text of hexadecimal digits.
rfind-hex : (h : Text) → all_hex h ≡ true → rfind marker h ≡ none
unfolding rfind all_hex starts_with
rfind-hex [] e = refl
rfind-hex (c ∷ h) e = rw (rfind-hex h (ground arith)) (ground arith)

rfind-marker : (h : Text) → all_hex h ≡ true → rfind marker (marker ++ h) ≡ some 0
unfolding rfind starts_with
rfind-marker [] e = unfold text_eq in refl
rfind-marker (c ∷ h) e = rw (rfind-hex (c ∷ h) e) refl

rfind-append : (p h : Text) → all_hex h ≡ true → rfind marker (p ++ (marker ++ h)) ≡ some (length p)
unfolding rfind
rfind-append [] h e = rfind-marker h e
rfind-append (b ∷ p) h e = rw (rfind-append p h e) refl

drop-marker : (p h : Text) → drop (length p + 3) (p ++ (marker ++ h)) ≡ h
drop-marker [] h = refl
drop-marker (b ∷ p) h =
    let e : suc (length p) + 3 ≡ suc (length p + 3) = omega arith in rw e (drop-marker p h)

strip-append :
    (p h : Text)
    → all_hex h ≡ true
    → 16 ≤ length h
    → strip_rust_legacy_hash (p ++ (marker ++ h)) ≡ p
unfolding strip_rust_legacy_hash strip_at
strip-append p h e long =
    let size : length (p ++ (marker ++ h)) ≡ length p + (length h + 3) =
      omega (arith, length-append p (marker ++ h)) in
    let f : leb (length (p ++ (marker ++ h))) (length p + 3) ≡ false = ground arith in
    let g : leb 16 (length (p ++ (marker ++ h)) - (length p + 3)) ≡ true = ground arith in
    rw (marker_lem, rfind-append p h e, f, drop-marker p h, e, g) (take-append p (marker ++ h))

starts_with-split : (s t : Text) → starts_with s t ≡ true → s ≡ t ++ drop (length t) s
unfolding starts_with text_eq
starts_with-split [] [] e = refl
starts_with-split [] (c ∷ t) e = cc
starts_with-split (b ∷ s) [] e = refl
starts_with-split (b ∷ s) (c ∷ t) e =
    let same : b ≡ c = ground arith in
    let rest : s ≡ t ++ drop (length t) s = starts_with-split s t (ground arith) in
    rw (← same) (ap (λ (l : Text). b ∷ l) rest)

-- The marker stands at the position.
abbrev IsFound : Text → Option ℕ → Type 0
IsFound name none = Unit {0}
IsFound name (some pos) = name ≡ take pos name ++ (marker ++ drop (pos + 3) name)

IsFound-cons :
    (b : ℕ) (name : Text) (o : Option ℕ)
    → IsFound name o
    → IsFound (b ∷ name) (elim o [
      | some pos ↦ some (suc pos)
      | none ↦ if starts_with (b ∷ name) marker then some 0 else none
    ])
IsFound-cons b name (some pos) found =
    let e : suc pos + 3 ≡ suc (pos + 3) = omega arith in rw e (ap (λ (l : Text). b ∷ l) found)
IsFound-cons b name none found = elim (Bool-cases (starts_with (b ∷ name) marker)) [
  | inl e ↦ rw e (starts_with-split (b ∷ name) marker e)
  | inr e ↦ rw e tt
]

rfind-IsFound : (name : Text) → IsFound name (rfind marker name)
unfolding rfind
rfind-IsFound [] = tt
rfind-IsFound (b ∷ name) = IsFound-cons b name (rfind marker name) (rfind-IsFound name)

-- The text is a hash with its marker.
abbrev pub IsHash : Text → Type 0
IsHash t = (h : Text) × (t ≡ text "::h" ++ h) × (all_hex h ≡ true) × (16 ≤ length h)

length-drop_lt : (n : ℕ) (name : Text) → 16 ≤ length name - n → 16 ≤ length (drop n name)
length-drop_lt n name h = omega (arith, length-drop n name)

strip_at-cases :
    (name : Text) (pos : ℕ)
    → IsFound name (some pos)
    → (strip_at name pos ≡ name) ⊎ ((t : Text) × IsHash t × (name ≡ strip_at name pos ++ t))
unfolding strip_at
strip_at-cases name pos found = elim (Bool-cases (leb (length name) (pos + 3))) [
  | inl e ↦ inl (rw e refl)
  | inr e ↦ elim (Bool-cases (all_hex (drop (pos + 3) name) && leb 16 (length name - (pos + 3)))) [
    | inl f ↦ inr (
      marker ++ drop (pos + 3) name,
      (
        drop (pos + 3) name,
        rw marker_lem refl,
        ground arith,
        length-drop_lt (pos + 3) name (ground arith),
      ),
      rw (e, f) found,
    )
    | inr f ↦ inl (rw (e, f) refl)
  ]
]

strip_by-cases :
    (name : Text) (o : Option ℕ)
    → IsFound name o
    → (strip_by name o ≡ name) ⊎ ((t : Text) × IsHash t × (name ≡ strip_by name o ++ t))
strip_by-cases name none found = inl refl
strip_by-cases name (some pos) found = strip_at-cases name pos found

-- A hash is "::h" with 16 or more hexadecimal digits in lower case behind it. strip_rust_legacy_hash
-- takes a hash away from the end of a name, whatever stands before it; and each name that it returns is
-- the given one, or the given one without a hash at its end.
pub strip_rust_legacy_hash_lem :
    ((p t : Text) → IsHash t → strip_rust_legacy_hash (p ++ t) ≡ p)
    × ((name : Text)
        → (strip_rust_legacy_hash name ≡ name)
          ⊎ ((t : Text) × IsHash t × (name ≡ strip_rust_legacy_hash name ++ t)))
unfolding text
strip_rust_legacy_hash_lem = (
  λ p t (h, e, hex, long).
      let f : t ≡ marker ++ h = e ∙ ap (λ (l : Text). l ++ h) marker_lem in
      rw f (strip-append p h hex long),
  λ name.
      unfold strip_rust_legacy_hash in
      rw marker_lem (strip_by-cases name (rfind marker name) (rfind-IsFound name)),
)
