-- ===== src/Resolver/Demangle/Rust/Paths.antt =====
-- A mangled path of names demangles to the names, joined by "::".
use roe.Base.{
  ℕ, zero, suc, ◌+◌, ◌-◌, ◌*◌, ◌^◌, ◌≤◌, ◌<◌, ◌≡◌, refl, ◌∙◌, [], ◌∷◌, ◌++◌, length, length-append,
  drop, arith,
}
use mathlib.Core.List.{append_assoc}
use roe.Base.Text.{Text, text, is_empty}
use roe.Resolver.Demangle.Cursor.{
  Outcome, returned, Budget, Parser, skip_optional_decimal, peek, deeper,
}
use roe.Resolver.Demangle.Cursor.Numbers.{
  encode_name, parse_identifier-name, drop-behind, peek_lem, budget-spent,
}
use roe.Resolver.Demangle.Rust.{
  path, Call, PathTag, path_tag, path_inner, segment, step, parse, run,
}

-- A path: a crate, or a name below a path in the namespace of a letter.
pub data RustPath : Type 0 where
  crate : Text → RustPath
  nested : ℕ → RustPath → Text → RustPath

-- The mangled path, by RFC 2603.
abbrev pub encode : RustPath → Text
encode (RustPath.crate name) = b'C' ∷ encode_name name
encode (RustPath.nested letter parent name) = b'N' ∷ letter ∷ (encode parent ++ encode_name name)

abbrev pub show : RustPath → Text
show (RustPath.crate name) = name
show (RustPath.nested letter parent name) = show parent ++ (text "::" ++ name)

abbrev pub segments : RustPath → ℕ
segments (RustPath.crate name) = 1
segments (RustPath.nested letter parent name) = suc (segments parent)

-- No name is empty.
abbrev pub IsNamed : RustPath → Type 0
IsNamed (RustPath.crate name) = 0 < length name
IsNamed (RustPath.nested letter parent name) = IsNamed parent × (0 < length name)

segment-name : (name : Text) → 0 < length name → segment name ≡ text "::" ++ name
unfolding segment is_empty
segment-name [] h = absurd (omega arith)
segment-name (c ∷ name) h = refl

-- What a call for a path is to return.
abbrev pub reads_path : RustPath → ℕ → Budget → Outcome (Text × ℕ × Budget)
reads_path p position s =
    returned (show p, position + length (encode p), record s { steps = s.steps + 2 * segments p })

module _ (body : Text) (small : length body < 2 ^ 64) where
  -- A call below the budget, one level down.
  deeper-returned :
      (p : Parser Text) (position position' k : ℕ) (s : Budget) (out : Text)
      → s.steps + 1 ≤ 20000
      → s.depth ≤ 256
      → p position (record { steps = s.steps + 1; depth = s.depth + 1 })
        ≡ returned (out, position', record { steps = s.steps + 1 + k; depth = s.depth + 1 })
      → deeper p position s ≡ returned (out, position', record s { steps = s.steps + (k + 1) })
  unfolding deeper
  deeper-returned p position position' k s out h1 h2 e =
      let d : s.depth + 1 - 1 ≡ s.depth = omega arith in
      let n : s.steps + 1 + k ≡ s.steps + (k + 1) = omega arith in
      rw (budget-spent position s h1 h2, e, d, n) refl

  crate-returned :
      (name : Text) (call : Call) (position : ℕ) (t : Text) (s : Budget)
      → drop position body ≡ encode (RustPath.crate name) ++ t
      → 0 < length name
      → s.steps + 2 ≤ 20000
      → s.depth + 1 ≤ 256
      → step call body path position s ≡ reads_path (RustPath.crate name) position s
  unfolding step path_inner path_tag
  crate-returned name call position t s e named h k =
      let s' : Budget = record { steps = s.steps + 1; depth = s.depth + 1 } in
      let at : peek body position ≡ b'C' = peek_lem body position _ e in
      let next : drop (position + 1) body ≡ encode_name name ++ t =
        drop-behind body position (b'C' ∷ []) (encode_name name ++ t) e in
      let size : position + 1 + length (encode_name name)
          ≡ position + suc (length (encode_name name)) =
        omega arith in
      rw at (
        deeper-returned (path_inner call body PathTag.crate) position
          (position + suc (length (encode_name name))) 1 s name (omega arith) (omega arith)
          (parse_identifier-name body (position + 1) name t s' next named small (omega arith)
              (omega arith)
            ∙ (rw size refl)))

  nested-returned :
      (letter : ℕ) (parent : RustPath) (name : Text) (call : Call) (position : ℕ) (t : Text)
      (s : Budget)
      → drop position body ≡ encode (RustPath.nested letter parent name) ++ t
      → 0 < length name
      → s.steps + 2 * suc (segments parent) ≤ 20000
      → s.depth + suc (segments parent) ≤ 256
      → call path (position + 2) (record { steps = s.steps + 1; depth = s.depth + 1 })
        ≡ reads_path parent (position + 2) (record { steps = s.steps + 1; depth = s.depth + 1 })
      → step call body path position s ≡ reads_path (RustPath.nested letter parent name) position s
  unfolding step path_inner path_tag
  nested-returned letter parent name call position t s e named h k ih =
      let at : peek body position ≡ b'N' = peek_lem body position _ e in
      let start : Text = b'N' ∷ letter ∷ [] in
      let before = position + 2 + length (encode parent) in
      let s' : Budget = record { steps = s.steps + 1 + 2 * segments parent; depth = s.depth + 1 } in
      let both = drop-behind body position start ((encode parent ++ encode_name name) ++ t) e in
      let next : drop before body ≡ encode_name name ++ t =
        drop-behind body (position + 2) (encode parent) (encode_name name ++ t)
          (both ∙ append_assoc (encode parent) (encode_name name) t) in
      let ident =
        parse_identifier-name body before name t s' next named small (omega arith) (omega arith) in
      let size : before + length (encode_name name)
          ≡ position + length (encode (RustPath.nested letter parent name)) =
        omega (arith, length-append (encode parent) (encode_name name)) in
      let spent : s.steps + 1 + 2 * segments parent + 1 ≡ s.steps + 1 + (2 * segments parent + 1) =
        omega arith in
      let all : s.steps + (2 * segments parent + 1 + 1) ≡ s.steps + 2 * suc (segments parent) =
        omega arith in
      rw at (
        deeper-returned (path_inner call body PathTag.nested) position
          (position + length (encode (RustPath.nested letter parent name)))
          (2 * segments parent + 1) s (show parent ++ (text "::" ++ name)) (omega arith)
          (omega arith) (rw (ih, ident, segment-name name named, size, spent) refl)
        ∙ (rw all refl))

  pub parse-path :
      (p : RustPath) (fuel position : ℕ) (t : Text) (s : Budget)
      → drop position body ≡ encode p ++ t
      → IsNamed p
      → segments p ≤ fuel
      → s.steps + 2 * segments p ≤ 20000
      → s.depth + segments p ≤ 256
      → parse fuel body path position s ≡ reads_path p position s
  unfolding parse
  parse-path (RustPath.crate name) zero position t s e named f h k = absurd (omega arith)
  parse-path (RustPath.nested letter parent name) zero position t s e named f h k =
      absurd (omega arith)
  parse-path (RustPath.crate name) (suc fuel) position t s e named f h k =
      crate-returned name (parse fuel body) position t s e named h k
  parse-path (RustPath.nested letter parent name) (suc fuel) position t s e named f h k =
      let start : Text = b'N' ∷ letter ∷ [] in
      let next : drop (position + 2) body ≡ encode parent ++ (encode_name name ++ t) =
        drop-behind body position start ((encode parent ++ encode_name name) ++ t) e
        ∙ append_assoc (encode parent) (encode_name name) t in
      nested-returned letter parent name (parse fuel body) position t s e named.1 h k (
        parse-path parent fuel (position + 2) (encode_name name ++ t)
          (record { steps = s.steps + 1; depth = s.depth + 1 }) next named.0 (omega arith)
          (omega arith) (omega arith))

skip_optional_decimal-path : (p : RustPath) (t : Text) → skip_optional_decimal (encode p ++ t) 0 ≡ 0
unfolding skip_optional_decimal peek
skip_optional_decimal-path (RustPath.crate name) t = refl
skip_optional_decimal-path (RustPath.nested letter parent name) t = refl

pub run-path :
    (p : RustPath) (t : Text)
    → length (encode p ++ t) < 2 ^ 64
    → IsNamed p
    → segments p ≤ 256
    → run (encode p ++ t) ≡ returned (show p)
unfolding run
run-path p t small named few =
    rw
      (
        skip_optional_decimal-path p t,
        parse-path (encode p ++ t) small p 20001 0 t (record { steps = 0; depth = 0 }) refl named
            (omega arith) (omega arith) (omega arith),
      )
      refl

pub length-encode : (p : RustPath) → IsNamed p → 0 < length (encode p)
length-encode (RustPath.crate name) h = omega arith
length-encode (RustPath.nested letter parent name) h = omega arith
