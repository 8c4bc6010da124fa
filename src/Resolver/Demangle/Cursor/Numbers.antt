-- ===== src/Resolver/Demangle/Cursor/Numbers.antt =====
-- Numbers and identifiers are read back from their encoding.
use roe.Base.{
  ℕ, zero, suc, ◌+◌, ◌-◌, ◌*◌, ◌/◌, ◌%◌, ◌^◌, ◌≤◌, ◌<◌, ◌≡◌, refl, ap, ◌∙◌, Bool, true, false, ◌||◌,
  [], ◌∷◌, ◌++◌, length, length-append, length-drop, get_or, get_or-drop, take-append, drop,
  drop-add, drop-append, ltb, ◌==◌, arith, Bool-cases, inl, inr, if◌then◌else◌,
}
use native.Mathlib.Nat.{pow-suc, add-zero}
use mathlib.Core.List.{append_assoc}
use roe.Base.Text.{Text, decimal}
use roe.Elf.Reader.{add64}
use roe.Resolver.Demangle.Cursor.{
  returned, Budget, budget, peek, skip_if, is_between, decimal_loop, parse_decimal,
  skip_disambiguator, identifier_text, parse_identifier,
}

abbrev is_digit : ℕ → Bool
is_digit c = is_between b'0' b'9' c

-- One digit of a number that is read.
decimal_loop-digit :
    (rest : Text) (position value d m : ℕ) (any : Bool)
    → d < 10
    → value * 10 + d ≡ m
    → m < 2 ^ 64
    → decimal_loop ((48 + d) ∷ rest) position value any ≡ decimal_loop rest (position + 1) m true
unfolding decimal_loop
decimal_loop-digit rest position value d m any h same k =
    let e : is_between b'0' b'9' (48 + d) ≡ true = ground arith in
    let f : (value * 10 + (48 + d - b'0')) % 2 ^ 64 ≡ m = omega arith in rw (e, f) refl

decimal-small : (r n : ℕ) → n < 10 → decimal (suc r) n ≡ (48 + n) ∷ []
unfolding decimal
decimal-small r n h = let e : ltb n 10 ≡ true = ground arith in rw e refl

decimal-large : (r n : ℕ) → 10 ≤ n → decimal (suc r) n ≡ decimal r (n / 10) ++ ((48 + n % 10) ∷ [])
unfolding decimal
decimal-large r n h = let e : ltb n 10 ≡ false = ground arith in rw e refl

-- What the loop is to leave of a number in front of a rest.
abbrev ReadsBack : ℕ → Text → Text → ℕ → Bool → Type 0
ReadsBack n digits rest position any =
    decimal_loop (digits ++ rest) position 0 any
    ≡ decimal_loop rest (position + length digits) n true

ReadsBack-small :
    (r n : ℕ) (rest : Text) (position : ℕ) (any : Bool)
    → n < 10
    → ReadsBack n (decimal (suc r) n) rest position any
ReadsBack-small r n rest position any h =
    rw (decimal-small r n h)
      (decimal_loop-digit rest position 0 n n any h (omega arith) (omega arith))

ReadsBack-large :
    (r n : ℕ) (rest : Text) (position : ℕ) (any : Bool)
    → 10 ≤ n
    → n < 2 ^ 64
    → ReadsBack (n / 10) (decimal r (n / 10)) ((48 + n % 10) ∷ rest) position any
    → ReadsBack n (decimal (suc r) n) rest position any
ReadsBack-large r n rest position any h k ih =
    let front = decimal r (n / 10) in
    let digit : Text = (48 + n % 10) ∷ [] in
    let size : position + length (front ++ digit) ≡ position + length front + 1 =
      omega (arith, length-append front digit) in
    rw (decimal-large r n h, append_assoc front digit rest, size)
      (ih
        ∙ decimal_loop-digit rest (position + length front) (n / 10) (n % 10) n true (omega arith)
            (omega arith) k)

-- The loop reads back a number of at most `r` digits.
decimal_loop-decimal :
    (r n : ℕ) (rest : Text) (position : ℕ) (any : Bool)
    → n < 10 ^ r
    → 0 < r
    → n < 2 ^ 64
    → ReadsBack n (decimal r n) rest position any
decimal_loop-decimal zero n rest position any h pos k = absurd (omega arith)
decimal_loop-decimal (suc zero) n rest position any h pos k =
    ReadsBack-small 0 n rest position any (omega (arith, h))
decimal_loop-decimal (suc (suc r)) n rest position any h pos k = elim (Bool-cases (ltb n 10)) [
  | inl e ↦ ReadsBack-small (suc r) n rest position any (ground arith)
  | inr e ↦
      let big : 10 ≤ n = ground arith in
      let below : n / 10 < 10 ^ suc r = omega (arith, h, pow-suc 10 (suc r)) in
      ReadsBack-large (suc r) n rest position any big k (
        decimal_loop-decimal (suc r) (n / 10) ((48 + n % 10) ∷ rest) position any below
          (omega arith) (omega arith))
]

-- A number starts with a digit.
decimal-head : (r n : ℕ) (rest : Text) → is_digit (get_or (decimal (suc r) n ++ rest) 0 0) ≡ true
decimal-head zero n rest = elim (Bool-cases (ltb n 10)) [
  | inl e ↦ rw (decimal-small 0 n (ground arith)) (ground arith)
  | inr e ↦ rw (decimal-large 0 n (ground arith)) (unfold decimal in (ground arith))
]
decimal-head (suc r) n rest = elim (Bool-cases (ltb n 10)) [
  | inl e ↦ rw (decimal-small (suc r) n (ground arith)) (ground arith)
  | inr e ↦
      rw
        (
          decimal-large (suc r) n (ground arith),
          append_assoc (decimal (suc r) (n / 10)) ((48 + n % 10) ∷ []) rest,
        )
        (decimal-head r (n / 10) ((48 + n % 10) ∷ rest))
]

-- A name in a mangled path: its length in decimal digits, and an underscore before a name that could
-- be read as part of its length.
abbrev pub separator : Text → Text
separator name = if is_digit (get_or name 0 0) || get_or name 0 0 == b'_' then b'_' ∷ [] else []

abbrev pub encode_name : Text → Text
encode_name name = decimal 20 (length name) ++ (separator name ++ name)

stops-at :
    (t : Text) (position n : ℕ)
    → is_digit (get_or t 0 0) ≡ false
    → decimal_loop t position n true ≡ (position, n, true)
unfolding decimal_loop
stops-at [] position n h = refl
stops-at (c ∷ t) position n h = rw h refl

pub budget-spent :
    (position : ℕ) (s : Budget)
    → s.steps + 1 ≤ 20000
    → s.depth ≤ 256
    → budget position s ≡ returned (tt, position, record s { steps = s.steps + 1 })
unfolding budget
budget-spent position s h k =
    let e : (ltb 20000 (s.steps + 1) || ltb 256 s.depth) ≡ false = ground arith in rw e refl

module _ (body : Text) where
  -- What stands behind a part of the body.
  pub drop-behind :
      (position : ℕ) (a t : Text)
      → drop position body ≡ a ++ t
      → drop (position + length a) body ≡ t
  drop-behind position a t e =
      drop-add position (length a) body ∙ ap (drop (length a)) e ∙ drop-append a t

  -- A part of the body that is not empty lies inside it.
  pub behind-le :
      (position : ℕ) (a t : Text)
      → drop position body ≡ a ++ t
      → 0 < length a
      → position + length a ≤ length body
  behind-le position a t e h =
      omega (arith, ap (λ (l : Text). length l) e, length-append a t, length-drop position body)

  pub peek_lem :
      (position : ℕ) (t : Text) → drop position body ≡ t → peek body position ≡ get_or t 0 0
  unfolding peek
  peek_lem position t e = get_or-drop body position 0 ∙ ap (λ (l : Text). get_or l 0 0) e

  skip_if-miss :
      (c position : ℕ) (s : Budget)
      → (peek body position == c) ≡ false
      → skip_if body c position s ≡ returned (tt, position, s)
  unfolding skip_if
  skip_if-miss c position s h = rw h refl

  skip_if-hit :
      (c position : ℕ) (s : Budget)
      → (peek body position == c) ≡ true
      → skip_if body c position s ≡ returned (tt, position + 1, s)
  unfolding skip_if
  skip_if-hit c position s h = rw h refl

  skip_disambiguator-miss :
      (position : ℕ) (s : Budget)
      → (peek body position == b's') ≡ false
      → skip_disambiguator body position s ≡ returned (tt, position, s)
  unfolding skip_disambiguator
  skip_disambiguator-miss position s h = rw h refl

  parse_decimal-decimal :
      (position n : ℕ) (t : Text) (s : Budget)
      → drop position body ≡ decimal 20 n ++ t
      → is_digit (get_or t 0 0) ≡ false
      → n < 2 ^ 64
      → parse_decimal body position s ≡ returned (n, position + length (decimal 20 n), s)
  unfolding parse_decimal
  parse_decimal-decimal position n t s e h k =
      rw
        (
          e,
          decimal_loop-decimal 20 n t position false (omega arith) (omega arith) k
              ∙ stops-at t (position + length (decimal 20 n)) n h,
        )
        refl

  separator-head :
      (name t : Text)
      → 0 < length name
      → is_digit (get_or (separator name ++ (name ++ t)) 0 0) ≡ false
  separator-head [] t h = absurd (omega arith)
  separator-head (c ∷ name) t h = elim (Bool-cases (is_digit c || c == b'_')) [
    | inl e ↦ rw e refl
    | inr e ↦ rw e (ground arith)
  ]

  skip_if-separator :
      (position : ℕ) (name t : Text) (s : Budget)
      → drop position body ≡ separator name ++ (name ++ t)
      → 0 < length name
      → skip_if body b'_' position s ≡ returned (tt, position + length (separator name), s)
  skip_if-separator position [] t s e h = absurd (omega arith)
  skip_if-separator position (c ∷ name) t s e h = elim (Bool-cases (is_digit c || c == b'_')) [
    | inl f ↦
        let at : peek body position ≡ b'_' =
          peek_lem position (b'_' ∷ c ∷ (name ++ t)) (rw f at e) in
        rw f (skip_if-hit b'_' position s (rw at refl))
    | inr f ↦
        let at : peek body position ≡ c = peek_lem position (c ∷ (name ++ t)) (rw f at e) in
        rw (f, skip_if-miss b'_' position s (rw at (ground arith))) (rw (add-zero position) refl)
  ]

  identifier_text-name :
      (position : ℕ) (name t : Text) (s : Budget)
      → drop position body ≡ name ++ t
      → 0 < length name
      → length body < 2 ^ 64
      → identifier_text body (length name) position s ≡ returned (name, position + length name, s)
  unfolding identifier_text add64
  identifier_text-name position name t s e h small =
      let inside = behind-le position name t e h in
      let sum : (position + length name) % 2 ^ 64 ≡ position + length name = omega arith in
      let f : ltb (length body) (position + length name) ≡ false = ground arith in
      let g : ltb (length body) position ≡ false = ground arith in
      rw (sum, f, g, e, take-append name t) refl

  -- parse_identifier reads a name back from its encoding.
  pub parse_identifier-name :
      (position : ℕ) (name t : Text) (s : Budget)
      → drop position body ≡ encode_name name ++ t
      → 0 < length name
      → length body < 2 ^ 64
      → s.steps + 1 ≤ 20000
      → s.depth ≤ 256
      → parse_identifier body position s
        ≡ returned (name, position + length (encode_name name), record s { steps = s.steps + 1 })
  unfolding parse_identifier
  parse_identifier-name position name t s e h small h1 h2 =
      let number = decimal 20 (length name) in
      let rest : Text = separator name ++ (name ++ t) in
      let s' : Budget = record s { steps = s.steps + 1 } in
      let at : drop position body ≡ number ++ rest =
        e
        ∙ append_assoc number (separator name ++ name) t
        ∙ ap (λ (l : Text). number ++ l) (append_assoc (separator name) name t) in
      let head : is_digit (peek body position) ≡ true =
        rw (peek_lem position (number ++ rest) at) (decimal-head 19 (length name) rest) in
      let at' = drop-behind position number rest at in
      let at'' = drop-behind (position + length number) (separator name) (name ++ t) at' in
      let size : position + length number + length (separator name) + length name
          ≡ position + length (encode_name name) =
        omega (
          arith,
          length-append number (separator name ++ name),
          length-append (separator name) name,
        ) in
      let inside = behind-le (position + length number + length (separator name)) name t at'' h in
      rw
        (
          budget-spent position s h1 h2,
          skip_disambiguator-miss position s' (ground arith),
          skip_if-miss b'u' position s' (ground arith),
          parse_decimal-decimal position (length name) rest s' at (separator-head name t h)
              (omega arith),
          skip_if-separator (position + length number) name t s' at' h,
          identifier_text-name (position + length number + length (separator name)) name t s' at'' h
              small,
          size,
        )
        refl
