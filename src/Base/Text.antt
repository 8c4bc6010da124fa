-- ===== src/Base/Text.antt =====
-- Texts as lists of bytes, as std::string holds them.
use Prim.Native.Char.{code}
use Prim.Native.String.{String}
use Prim.Native.Nat.{ℕ, zero, suc, ◌+◌, ◌/◌, ◌%◌}
use mathlib.Core.List.{List, [], ◌∷◌, ◌++◌}
use mathlib.Core.Bool.{Bool, true, false, ◌&&◌, ◌||◌}
use mathlib.Core.Path.{◌≡◌, refl}
use native.Mathlib.Omega.{arith}
use roe.Base.Tests.{◌==◌, ltb, if◌then◌else◌}

abbrev pub Text : Type 0
Text = List ℕ

-- The bytes of an ASCII literal.
unfoldable pub text : String → Text
text String.[] = []
text (String.◌∷◌ c s) = code c ∷ text s

unfoldable pub text_eq : Text → Text → Bool
text_eq [] [] = true
text_eq [] (c ∷ t) = false
text_eq (b ∷ s) [] = false
text_eq (b ∷ s) (c ∷ t) = (b == c) && text_eq s t

pub text_eq→eq : (s t : Text) → text_eq s t ≡ true → s ≡ t
unfolding text_eq
text_eq→eq [] [] h = refl
text_eq→eq [] (c ∷ t) h = cc
text_eq→eq (b ∷ s) [] h = cc
text_eq→eq (b ∷ s) (c ∷ t) h = ground (arith, text_eq→eq s t)

pub text_eq_refl : (s : Text) → text_eq s s ≡ true
unfolding text_eq
text_eq_refl [] = refl
text_eq_refl (b ∷ s) = ground (arith, text_eq_refl s)

-- `std::string_view::operator<`
unfoldable pub text_lt : Text → Text → Bool
text_lt s [] = false
text_lt [] (c ∷ t) = true
text_lt (b ∷ s) (c ∷ t) = ltb b c || ((b == c) && text_lt s t)

-- `text.rfind(prefix, 0) == 0`
unfoldable pub starts_with : Text → Text → Bool
starts_with [] prefix = text_eq [] prefix
starts_with (b ∷ s) [] = true
starts_with (b ∷ s) (c ∷ prefix) = (b == c) && starts_with s prefix

-- `text.find(needle) != npos`
unfoldable pub contains : Text → Text → Bool
contains [] needle = text_eq [] needle
contains (b ∷ s) needle = starts_with (b ∷ s) needle || contains s needle

unfoldable pub is_empty : Text → Bool
is_empty [] = true
is_empty (b ∷ s) = false

-- `std::to_string`, with at most `rounds` digits.
unfoldable pub decimal : ℕ → ℕ → Text
decimal zero n = []
decimal (suc rounds) n =
    let front = decimal rounds (n / 10) in
    if ltb n 10 then (48 + n) ∷ [] else front ++ ((48 + n % 10) ∷ [])

starts_with_refl : (s : Text) → starts_with s s ≡ true
unfolding starts_with text_eq
starts_with_refl [] = refl
starts_with_refl (b ∷ s) = ground (arith, starts_with_refl s)

contains_refl : (s : Text) → contains s s ≡ true
unfolding contains text_eq
contains_refl [] = refl
contains_refl (b ∷ s) = rw (starts_with_refl (b ∷ s))

pub contains-append : (s t : Text) → contains (s ++ t) t ≡ true
unfolding contains
contains-append [] t = unfold text_eq starts_with in contains_refl t
contains-append (b ∷ s) t = ground (arith, contains-append s t)

starts_with-append : (s t u : Text) → starts_with s t ≡ true → starts_with (s ++ u) t ≡ true
unfolding starts_with text_eq
starts_with-append [] [] [] h = refl
starts_with-append [] [] (c ∷ u) h = refl
starts_with-append [] (c ∷ t) u h = cc
starts_with-append (b ∷ s) [] u h = refl
starts_with-append (b ∷ s) (c ∷ t) u h = ground (arith, starts_with-append s t u)

contains-nil : (u : Text) → contains u [] ≡ true
unfolding contains text_eq starts_with
contains-nil [] = refl
contains-nil (c ∷ u) = refl

-- What a text contains, it contains with more behind it.
pub contains-append_left : (s t u : Text) → contains s t ≡ true → contains (s ++ u) t ≡ true
unfolding contains
contains-append_left [] [] u h = contains-nil u
contains-append_left [] (c ∷ t) u h = unfold text_eq in cc
contains-append_left (b ∷ s) t u h =
    ground (arith, starts_with-append (b ∷ s) t u, contains-append_left s t u)
