-- ===== src/Resolver/Demangle/Rust/Total.antt =====
-- The Rust demangler ends on every name: its budget is spent before its fuel.
use roe.Base.{
  ℕ, zero, suc, ◌+◌, ◌≤◌, ◌≡◌, refl, ◌⊎◌, Bool, true, false, ◌&&◌, not, [], ◌++◌, length, ltb, ◌==◌,
  arith, Bool-cases, inl, inr, if◌then◌else◌,
}
use roe.Base.Text.{Text, text, is_empty}
use roe.Resolver.Demangle.Cursor.{
  Outcome, returned, failed, thrown, out_of_fuel, bind, Budget, Parser, ◌>>◌, advance, peek,
  skip_optional_decimal,
}
use roe.Resolver.Demangle.Cursor.Ends.{
  Ends, Total, Total-bind, Total-pure, Total-fail, Total-advance, Total-skip_if, Total-budget,
  Total-deeper, Total-elsewhere, Total-parse_base62, Total-parse_identifier, Total-if,
}
use roe.Resolver.Demangle.Rust.{
  Request, path, type, arguments, elements, Call, PathTag, path_tag, back_reference, segment,
  path_inner, TypeTag, type_tag, read_digits, parse_const, parse_generic_arg, skip_lifetime,
  type_inner, close, loop_round, step, parse, run,
}

Total-read_digits : {n : ℕ} (body : Text) → Total n (read_digits body)
Total-read_digits body = record { ends = λ position s low high. (omega arith, high, refl) }

Total-close : {n : ℕ} (body bracket : Text) → Total n (close body bracket)
unfolding close
Total-close body bracket = record {
  ends = λ position s low high. elim (Bool-cases (peek body position == b'E')) [
    | inl e ↦ rw e (omega arith, high, refl)
    | inr e ↦ rw e tt
  ];
}

Total-skip_lifetime : {n : ℕ} (body : Text) → Total n (skip_lifetime body)
unfolding skip_lifetime
Total-skip_lifetime body =
    Total-if (λ position. peek body position == b'L')
      (Total-bind (Total-advance 1) λ _. Total-bind (Total-parse_base62 body) λ _. Total-pure [])
      (Total-pure [])

-- The calls of a function one level down end, so the function does.
module _ (n : ℕ) (call : Call) (calls : (r : Request) → Total (suc n) (call r)) (body : Text) where
  then_advance : {A : Type 0} {p : Parser A} → Total (suc n) p → Total (suc n) (advance 1 >> p)
  then_advance h = Total-bind (Total-advance 1) λ _. h

  Total-back_reference : (r : Request) → Total (suc n) (back_reference call body r)
  unfolding back_reference
  Total-back_reference r = then_advance (
      Total-bind (Total-parse_base62 body) λ offset. elim (Bool-cases (ltb offset (length body))) [
        | inl e ↦ rw e (Total-elsewhere offset (calls r))
        | inr e ↦ rw e (Total-fail {A = Text})
      ])

  Total-path_inner : (tag : PathTag) → Total (suc n) (path_inner call body tag)
  unfolding path_inner
  Total-path_inner PathTag.crate = then_advance (Total-parse_identifier (suc n) body)
  Total-path_inner PathTag.nested = Total-bind (Total-advance 2) λ _.
      Total-bind (calls path) λ parent.
        Total-bind (Total-parse_identifier (suc n) body)
          λ ident. Total-pure (parent ++ segment ident)
  Total-path_inner PathTag.generic =
      then_advance
        (Total-bind (calls path) λ _. Total-bind (calls (arguments true)) λ _. Total-pure _)
  Total-path_inner PathTag.back = Total-back_reference path
  Total-path_inner PathTag.inherent =
      then_advance (Total-bind (calls path) λ _. Total-bind (calls type) λ _. Total-pure _)
  Total-path_inner PathTag.trait_impl = then_advance (
      Total-bind (calls path)
        λ _. Total-bind (calls type) λ _. Total-bind (calls path) λ _. Total-pure _)
  Total-path_inner PathTag.trait_default =
      then_advance (Total-bind (calls type) λ _. Total-bind (calls path) λ _. Total-pure _)
  Total-path_inner PathTag.other = Total-fail

  Total-parse_const : Total (suc n) (parse_const call body)
  unfolding parse_const
  Total-parse_const =
      Total-if (λ position. peek body position == b'p')
        (Total-bind (Total-advance 1) λ _. Total-pure (text "_"))
        (Total-bind (calls type) λ _. Total-bind (Total-skip_if body b'n') λ _.
          Total-bind (Total-read_digits body) λ digits.
            Total-bind (Total-skip_if body b'_')
              λ _. Total-pure (if is_empty digits then text "_" else digits))

  Total-parse_generic_arg : Total (suc n) (parse_generic_arg call body)
  unfolding parse_generic_arg
  Total-parse_generic_arg =
      Total-if (λ position. peek body position == b'L')
        (then_advance (Total-bind (Total-parse_base62 body) λ _. Total-pure _))
        (Total-if (λ position. peek body position == b'K') (then_advance Total-parse_const)
          (calls type))

  Total-type_inner : (tag : TypeTag) → Total (suc n) (type_inner call body tag)
  unfolding type_inner
  Total-type_inner (TypeTag.basic name) = then_advance (Total-pure _)
  Total-type_inner TypeTag.array =
      then_advance (Total-bind (calls type) λ _. Total-bind Total-parse_const λ _. Total-pure _)
  Total-type_inner TypeTag.slice = then_advance (Total-bind (calls type) λ _. Total-pure _)
  Total-type_inner (TypeTag.reference mutable) =
      then_advance
        (Total-bind (Total-skip_lifetime body) λ _. Total-bind (calls type) λ _. Total-pure _)
  Total-type_inner (TypeTag.pointer mutable) =
      then_advance (Total-bind (calls type) λ _. Total-pure _)
  Total-type_inner TypeTag.tuple =
      then_advance (Total-bind (calls (elements true)) λ _. Total-pure _)
  Total-type_inner TypeTag.back = Total-back_reference type
  Total-type_inner TypeTag.path = calls path
  Total-type_inner TypeTag.other = Total-fail

  Total-loop_round :
      (bracket : Text) (first : Bool) (item later : Parser Text)
      → Total (suc n) item
      → Total (suc n) later
      → Total n (loop_round body bracket first item later)
  unfolding loop_round
  Total-loop_round bracket first item later h k =
      Total-if (λ position. not (peek body position == b'E') && ltb position (length body))
        (Total-budget (Total-bind h λ _. Total-bind k λ _. Total-pure _)) (Total-close body bracket)

  Total-step : (r : Request) → Total n (step call body r)
  unfolding step
  Total-step path = record {
    ends =
        λ position. (Total-deeper (Total-path_inner (path_tag (peek body position)))).ends position;
  }
  Total-step type = record {
    ends =
        λ position. (Total-deeper (Total-type_inner (type_tag (peek body position)))).ends position;
  }
  Total-step (arguments first) = record {
    ends = (Total-loop_round _ first _ _ Total-parse_generic_arg (calls (arguments false))).ends;
  }
  Total-step (elements first) = record {
    ends = (Total-loop_round _ first _ _ (calls type) (calls (elements false))).ends;
  }

-- The fuel and the steps behind a call together pass the budget.
Total-parse :
    (fuel n : ℕ) (body : Text) (r : Request) → 20001 ≤ fuel + n → Total n (parse fuel body r)
unfolding parse
Total-parse zero n body r h = record { ends = λ position s low high. absurd (omega arith) }
Total-parse (suc fuel) n body r h = record {
  ends =
      (Total-step n (parse fuel body) (λ q. Total-parse fuel (suc n) body q (omega arith)) body
        r).ends;
}

pub run-total : (body : Text) → (run body ≡ failed) ⊎ ((out : Text) × (run body ≡ returned out))
unfolding run
run-total body = decided _ (
    (Total-parse 20001 0 body path (omega arith)).ends (skip_optional_decimal body 0)
      (record { steps = 0; depth = 0 }) (omega arith) (omega arith))
  where
    decided :
        (m : Outcome (Text × ℕ × Budget))
        → Ends (record { steps = 0; depth = 0 }) m
        → (Path (Outcome Text) (bind m λ (out, _, _). returned out) failed)
          ⊎ ((out : Text) × (Path
                (Outcome Text)
                (bind m λ (out, _, _). returned out)
                (returned out)))
    decided (returned (out, position, s)) e = inr (out, refl)
    decided failed e = inl refl
    decided thrown e = absurd e
    decided out_of_fuel e = absurd e
