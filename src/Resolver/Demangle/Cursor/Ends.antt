-- ===== src/Resolver/Demangle/Cursor/Ends.antt =====
-- The calls of the cursor end: they return or fail, and count their steps.
use roe.Base.{
  ℕ, zero, suc, ◌+◌, ◌-◌, ◌*◌, ◌%◌, ◌^◌, ◌≤◌, ◌<◌, ◌≡◌, refl, ◌∙◌, Bool, true, false, ◌||◌, [], ◌∷◌,
  length, length-drop, drop, ltb, ◌==◌, arith, Bool-cases, inl, inr, if◌then◌else◌,
}
use roe.Base.Text.{Text}
use roe.Elf.Reader.{add64}
use roe.Resolver.Demangle.Cursor.{
  Outcome, returned, failed, thrown, out_of_fuel, bind, Budget, Parser, pure, ◌>>=◌, ◌>>◌, fail,
  budget, leave, deeper, advance, peek, elsewhere, skip_if, is_between, base62_loop, end_base62,
  parse_base62, decimal_loop, end_decimal, parse_decimal, skip_disambiguator, identifier_text,
  parse_identifier,
}

-- No exception and no lack of fuel; a return is within the budget, and has restored the depth.
abbrev pub Ends : {A : Type 0} → Budget → Outcome (A × ℕ × Budget) → Type 0
Ends s (returned (a, position, s')) =
    (s.steps ≤ s'.steps) × (s'.steps ≤ 20000) × (s'.depth ≡ s.depth)
Ends s failed = Unit
Ends s thrown = ⊥
Ends s out_of_fuel = ⊥

-- A call ends wherever it is made with `n` steps or more behind it.
pub record Total {A : Type 0} (n : ℕ) (p : Parser A) : Type 0 where
  pub ends : (position : ℕ) (s : Budget) → n ≤ s.steps → s.steps ≤ 20000 → Ends s (p position s)

Ends-earlier :
    {A : Type 0} (s s' : Budget) (m : Outcome (A × ℕ × Budget))
    → s.steps ≤ s'.steps
    → s'.depth ≡ s.depth
    → Ends s' m
    → Ends s m
Ends-earlier s s' (returned (a, position, t)) h d (x, y, z) = (omega arith, y, z ∙ d)
Ends-earlier s s' failed h d e = tt
Ends-earlier s s' thrown h d e = absurd e
Ends-earlier s s' out_of_fuel h d e = absurd e

Ends-bind :
    {A B : Type 0} (s : Budget) (m : Outcome (A × ℕ × Budget)) (f : A → Parser B)
    → Ends s m
    → ((a : A) (position : ℕ) (s' : Budget)
        → s.steps ≤ s'.steps
        → s'.steps ≤ 20000
        → Ends s' (f a position s'))
    → Ends s (bind m λ (a, position, s'). f a position s')
Ends-bind s (returned (a, position, s')) f (h, k, d) next =
    Ends-earlier s s' (f a position s') h d (next a position s' h k)
Ends-bind s failed f e next = tt
Ends-bind s thrown f e next = absurd e
Ends-bind s out_of_fuel f e next = absurd e

-- A call one level deeper, and the return from it.
Ends-leave :
    (s s' : Budget) (m : Outcome (Text × ℕ × Budget))
    → s.steps ≤ s'.steps
    → s'.depth ≡ s.depth + 1
    → Ends s' m
    → Ends s (bind m λ (a, position, t). (leave >> pure a) position t)
Ends-leave s s' (returned (a, position, t)) h d (x, y, z) = (omega arith, y, omega arith)
Ends-leave s s' failed h d e = tt
Ends-leave s s' thrown h d e = absurd e
Ends-leave s s' out_of_fuel h d e = absurd e

end_base62-Ends :
    (body : Text) (s : Budget) (r : ℕ × ℕ × Bool) → s.steps ≤ 20000 → Ends s (end_base62 body r s)
end_base62-Ends body s (position, accumulated, any) high =
    elim (Bool-cases (peek body position == b'_')) [
      | inl e ↦ rw e (omega arith, high, refl)
      | inr e ↦ rw e tt
    ]

peek-lt :
    (body : Text) (position c : ℕ)
    → (peek body position == c) ≡ true
    → 0 < c
    → position < length body
unfolding peek
peek-lt [] position c h pos = absurd (ground arith)
peek-lt (b ∷ body) zero c h pos = omega arith
peek-lt (b ∷ body) (suc position) c h pos = omega (arith, peek-lt body position c h pos)

-- Where the loop of parse_decimal stops, and what it has passed if it has found a digit.
abbrev Stops : Text → ℕ → Bool → ℕ × ℕ × Bool → Type 0
Stops rest position any r =
    (r.0 ≤ position + length rest) × (r.2 ≡ true → any ≡ false → 0 < length rest)

decimal_loop-Stops :
    (rest : Text) (position value : ℕ) (any : Bool)
    → Stops rest position any (decimal_loop rest position value any)
unfolding decimal_loop
decimal_loop-Stops [] position value any = (omega arith, λ e f. cc)
decimal_loop-Stops (c ∷ rest) position value any = elim (Bool-cases (is_between b'0' b'9' c)) [
  | inl e ↦
      let (h, _) =
        decimal_loop-Stops rest (position + 1) ((value * 10 + (c - b'0')) % 2 ^ 64) true in
      rw e (omega arith, λ _ _. omega arith)
  | inr e ↦ rw e (omega arith, λ f g. cc)
]

-- A position behind a digit is inside the body or at its end.
decimal-le :
    (body : Text) (position : ℕ)
    → (decimal_loop (drop position body) position 0 false).2 ≡ true
    → (decimal_loop (drop position body) position 0 false).0 ≤ length body
decimal-le body position h =
    let (le, some_digit) = decimal_loop-Stops (drop position body) position 0 false in
    omega (arith, some_digit h refl, length-drop position body)

identifier_text-Ends :
    (body : Text) (size position : ℕ) (s : Budget)
    → position ≤ length body
    → s.steps ≤ 20000
    → Ends s (identifier_text body size position s)
unfolding identifier_text
identifier_text-Ends body size position s inside high =
    let fits : ltb (length body) position ≡ false = ground arith in
    elim (Bool-cases (ltb (length body) (add64 position size))) [
      | inl e ↦ rw e tt
      | inr e ↦ rw (e, fits) (omega arith, high, refl)
    ]

-- The position behind an optional underscore.
underscore-le :
    (body : Text) (position : ℕ)
    → position ≤ length body
    → (if peek body position == b'_' then position + 1 else position) ≤ length body
underscore-le body position h = elim (Bool-cases (peek body position == b'_')) [
  | inl e ↦ rw e (omega (arith, peek-lt body position b'_' e (omega arith)))
  | inr e ↦ rw e h
]

abbrev name_tail : Text → ℕ → Parser Text
name_tail body size = do skip_if body b'_'; identifier_text body size

name_tail-Ends :
    (body : Text) (s : Budget) (r : ℕ × ℕ × Bool)
    → (r.2 ≡ true → r.0 ≤ length body)
    → s.steps ≤ 20000
    → Ends s (bind (end_decimal r s) λ (size, position, s'). name_tail body size position s')
unfolding skip_if
name_tail-Ends body s (position, size, true) inside high =
    identifier_text-Ends body size _ s (underscore-le body position (inside refl)) high
name_tail-Ends body s (position, size, false) inside high = tt

module _ {n : ℕ} where
  pub Total-bind :
      {A B : Type 0} {p : Parser A} {f : A → Parser B}
      → Total n p
      → ((a : A) → Total n (f a))
      → Total n (p >>= f)
  Total-bind {p = p} {f = f} hp hf = record {
    ends = λ position s low high.
        Ends-bind s (p position s) f (hp.ends position s low high)
          λ a position' s' more high'. (hf a).ends position' s' (omega arith) high';
  }

  pub Total-pure : {A : Type 0} (a : A) → Total n (pure a)
  Total-pure a = record { ends = λ position s low high. (omega arith, high, refl) }

  pub Total-fail : {A : Type 0} → Total n (fail {A = A})
  Total-fail = record { ends = λ position s low high. tt }

  pub Total-advance : (k : ℕ) → Total n (advance k)
  Total-advance k = record { ends = λ position s low high. (omega arith, high, refl) }

  pub Total-skip_if : (body : Text) (c : ℕ) → Total n (skip_if body c)
  unfolding skip_if
  Total-skip_if body c = record { ends = λ position s low high. (omega arith, high, refl) }

  pub Total-budget : {B : Type 0} {p : Parser B} → Total (suc n) p → Total n (budget >> p)
  unfolding budget
  Total-budget {p = p} h = record {
    ends = λ position s low high. elim (Bool-cases (ltb 20000 (s.steps + 1) || ltb 256 s.depth)) [
      | inl e ↦ rw e tt
      | inr e ↦
          let s' : Budget = record s { steps = s.steps + 1 } in
          rw e (
            Ends-earlier s s' (p position s') (omega arith) refl
              (h.ends position s' (omega arith) (ground arith)))
    ];
  }

  pub Total-deeper : {p : Parser Text} → Total (suc n) p → Total n (deeper p)
  unfolding deeper budget
  Total-deeper {p = p} h = record {
    ends = λ position s low high. elim (Bool-cases (ltb 20000 (s.steps + 1) || ltb 256 s.depth)) [
      | inl e ↦ rw e tt
      | inr e ↦
          let s' : Budget = record { steps = s.steps + 1; depth = s.depth + 1 } in
          rw e (
            Ends-leave s s' (p position s') (omega arith) refl
              (h.ends position s' (omega arith) (ground arith)))
    ];
  }

  pub Total-elsewhere : (target : ℕ) {p : Parser Text} → Total n p → Total n (elsewhere target p)
  unfolding elsewhere
  Total-elsewhere target {p = p} h = record {
    ends = λ position s low high.
        Ends-bind s (p target s) (λ out _ s'. returned (out, position, s'))
          (h.ends target s low high) λ out _ s' more high'. (omega arith, high', refl);
  }

  pub Total-parse_base62 : (body : Text) → Total n (parse_base62 body)
  unfolding parse_base62
  Total-parse_base62 body = record {
    ends = λ position s low high. elim (Bool-cases (peek body position == b'_')) [
      | inl e ↦ rw e (omega arith, high, refl)
      | inr e ↦
          rw e (end_base62-Ends body s (base62_loop (drop position body) position 0 false) high)
    ];
  }

  -- A call under a test.
  pub Total-if :
      {A : Type 0} (test : ℕ → Bool) {p q : Parser A}
      → Total n p
      → Total n q
      → Total n (λ position s. if test position then p position s else q position s)
  Total-if test {p = p} {q = q} hp hq = record {
    ends = λ position s low high. elim (Bool-cases (test position)) [
      | inl e ↦ rw e (hp.ends position s low high)
      | inr e ↦ rw e (hq.ends position s low high)
    ];
  }

  Total-skip_disambiguator : (body : Text) → Total n (skip_disambiguator body)
  unfolding skip_disambiguator
  Total-skip_disambiguator body =
      Total-if (λ position. peek body position == b's')
        (Total-bind (Total-advance 1) λ _. Total-bind (Total-parse_base62 body) λ _. Total-pure tt)
        (Total-pure tt)

  Total-name : (body : Text) → Total n (parse_decimal body >>= name_tail body)
  unfolding parse_decimal
  Total-name body = record {
    ends = λ position s low high.
        name_tail-Ends body s (decimal_loop (drop position body) position 0 false)
          (decimal-le body position) high;
  }

pub Total-parse_identifier : (n : ℕ) (body : Text) → Total n (parse_identifier body)
unfolding parse_identifier
Total-parse_identifier n body = Total-budget (
    Total-bind (Total-skip_disambiguator body)
      λ _. Total-bind (Total-skip_if body b'u') λ _. Total-name body)
