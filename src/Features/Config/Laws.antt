-- ===== src/Features/Config/Laws.antt =====
-- What the texts of a configuration line come to.
use roe.Base.{
  take-append, ℕ, suc, ◌+◌, ◌-◌, ◌≡◌, refl, sym, ◌∙◌, true, false, ◌&&◌, ◌||◌, Option, none, some,
  [], ◌∷◌, ◌++◌, length, length-append, take, leb, ◌==◌, Bool-cases, inl, inr, arith, ◌⊎◌,
  if◌then◌else◌,
}
use roe.Base.Text.{Text, is_empty}
use roe.Features.Config.{
  is_blank, find_first_not_of, find_last_not_of, last_or, next, between, trim, back, unquote,
}

-- A text without the blanks in front of it, and without those behind it.
unfoldable pub trim_front : Text → Text
trim_front [] = []
trim_front (c ∷ t) = let rest = trim_front t in if is_blank c then rest else c ∷ t

unfoldable pub trim_back : Text → Text
trim_back [] = []
trim_back (c ∷ t) = let rest = trim_back t in if is_empty rest && is_blank c then [] else c ∷ rest

-- The front that a last position leaves.
abbrev up_to : Text → Option ℕ → Text
up_to t none = []
up_to t (some last) = take (suc last) t

-- One character in front of a text that has a last position or none.
up_to_none : (c : ℕ) → (if is_blank c then [] else c ∷ []) ≡ up_to (c ∷ []) (last_or c none)
up_to_none c = elim (Bool-cases (is_blank c)) [ inl b ↦ rw b refl | inr b ↦ rw b refl ]

up_to_step :
    (c d : ℕ) (t : Text) (o : Option ℕ)
    → trim_back (d ∷ t) ≡ up_to (d ∷ t) o
    → trim_back (c ∷ d ∷ t) ≡ up_to (c ∷ d ∷ t) (last_or c o)
unfolding is_empty trim_back
up_to_step c d t none e = elim (Bool-cases (is_blank c)) [
  | inl b ↦ rw (e, b) refl
  | inr b ↦ rw (e, b) refl
]
up_to_step c d t (some i) e = rw e refl

trim_back-up_to : (t : Text) → trim_back t ≡ up_to t (find_last_not_of t)
unfolding trim_back find_last_not_of is_empty
trim_back-up_to [] = refl
trim_back-up_to (c ∷ []) = up_to_none c
trim_back-up_to (c ∷ d ∷ t) = up_to_step c d t (find_last_not_of (d ∷ t)) (trim_back-up_to (d ∷ t))

-- A blank in front moves the positions.
between-blank :
    (c : ℕ) (t : Text) (first last : Option ℕ)
    → is_blank c ≡ true
    → between (c ∷ t) (next first) (last_or c last) ≡ between t first last
between-blank c t none last b = refl
between-blank c t (some i) none b = rw b refl
between-blank c t (some i) (some j) b = let e : suc j - suc i ≡ j - i = omega arith in rw e refl

between-first :
    (c : ℕ) (t : Text) (last : Option ℕ)
    → is_blank c ≡ false
    → between (c ∷ t) (some 0) (last_or c last) ≡ up_to (c ∷ t) (last_or c last)
between-first c t none b = rw b refl
between-first c t (some j) b = let e : suc j - 0 + 1 ≡ suc (suc j) = omega arith in rw e refl

-- trim, which looks for the first and the last character that is not blank, takes away the blanks in
-- front of a text and behind it, and nothing else.
pub trim-front_back : (t : Text) → trim t ≡ trim_back (trim_front t)
unfolding trim trim_front find_first_not_of find_last_not_of
trim-front_back [] = unfold trim_back in refl
trim-front_back (c ∷ t) = elim (Bool-cases (is_blank c)) [
  | inl b ↦
      rw b (between-blank c t (find_first_not_of t) (find_last_not_of t) b ∙ trim-front_back t)
  | inr b ↦ rw b (between-first c t (find_last_not_of t) b ∙ sym (trim_back-up_to (c ∷ t)))
]

back-append : (c q : ℕ) (t : Text) → back c (t ++ (q ∷ [])) ≡ q
back-append c q [] = refl
back-append c q (d ∷ t) = back-append d q t

-- unquote takes away a pair of double or single quotes around any text.
pub unquote-quoted : (q : ℕ) (t : Text) → (q ≡ 34) ⊎ (q ≡ 39) → unquote (q ∷ (t ++ (q ∷ []))) ≡ t
unfolding unquote
unquote-quoted q t h =
    let n : length (t ++ (q ∷ [])) ≡ suc (length t) = omega (arith, length-append t (q ∷ [])) in
    let is_long : leb 2 (suc (suc (length t))) ≡ true = ground arith in
    let is_quote : (q == 34 || q == 39) ≡ true = ground arith in
    let same : (q == q) ≡ true = ground arith in
    let rest : suc (suc (length t)) - 2 ≡ length t = omega arith in
    rw (n, is_long, is_quote, back-append q q t, same, rest) (take-append t (q ∷ []))
