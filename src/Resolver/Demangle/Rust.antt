-- ===== src/Resolver/Demangle/Rust.antt =====
-- src/resolver/resolver.cpp, RustV0Demangler: paths, types, constants and generic arguments.
pub mod Total
pub mod Paths
use roe.Base.{
  ℕ, zero, suc, ◌+◌, ◌-◌, Bool, true, false, ◌&&◌, ◌||◌, not, Option, none, some, List, [], ◌∷◌,
  ◌++◌, length, drop, ltb, ◌==◌, if◌then◌else◌,
}
use roe.Base.Text.{Text, text, is_empty}
use roe.Resolver.Demangle.Cursor.{
  Outcome, returned, failed, out_of_fuel, bind, Budget, Parser, pure, ◌>>=◌, ◌>>◌, fail, budget,
  deeper, advance, peek, elsewhere, skip_if, parse_base62, parse_identifier, skip_optional_decimal,
}

-- The recursive calls: parse_path, parse_type, and the loops over generic arguments and over the
-- elements of a tuple, in their first round or a later one.
pub data Request : Type 0 where
  path : Request
  type : Request
  arguments : Bool → Request
  elements : Bool → Request

-- The recursive calls of a function are calls of this.
abbrev pub Call : Type 0
Call = Request → Parser Text

pub data PathTag : Type 0 where
  crate nested generic back inherent trait_impl trait_default other : PathTag

unfoldable pub path_tag : ℕ → PathTag
path_tag c =
    if c == b'C'
    then PathTag.crate
    else if c == b'N'
    then PathTag.nested
    else if c == b'I'
    then PathTag.generic
    else if c == b'B'
    then PathTag.back
    else if c == b'M'
    then PathTag.inherent
    else if c == b'X'
    then PathTag.trait_impl
    else if c == b'Y'
    then PathTag.trait_default
    else PathTag.other

-- A reference to an earlier place of the body.
unfoldable pub back_reference : Call → Text → Request → Parser Text
back_reference call body request = do
  advance 1
  offset ← parse_base62 body
  if ltb offset (length body) then elsewhere offset (call request) else fail

-- What an identifier adds to its parent.
unfoldable pub segment : Text → Text
segment ident = if is_empty ident then [] else text "::" ++ ident

unfoldable pub path_inner : Call → Text → PathTag → Parser Text
path_inner call body PathTag.crate = do advance 1; parse_identifier body
path_inner call body PathTag.nested = do
  advance 2
  parent ← call path
  ident ← parse_identifier body
  pure (parent ++ segment ident)
path_inner call body PathTag.generic = do
  advance 1
  base ← call path
  args ← call (arguments true)
  pure (base ++ (text "::<" ++ args))
path_inner call body PathTag.back = back_reference call body path
path_inner call body PathTag.inherent = do
  advance 1
  _ ← call path
  t ← call type
  pure (text "<" ++ (t ++ text ">"))
path_inner call body PathTag.trait_impl = do
  advance 1
  _ ← call path
  t ← call type
  trait ← call path
  pure (text "<" ++ (t ++ (text " as " ++ (trait ++ text ">"))))
path_inner call body PathTag.trait_default = do
  advance 1
  t ← call type
  trait ← call path
  pure (text "<" ++ (t ++ (text " as " ++ (trait ++ text ">"))))
path_inner call body PathTag.other = fail

unfoldable pub basic_types : List (ℕ × Text)
basic_types =
    (b'a', text "i8")
    ∷ (b'b', text "bool")
    ∷ (b'c', text "char")
    ∷ (b'd', text "f64")
    ∷ (b'e', text "str")
    ∷ (b'f', text "f32")
    ∷ (b'h', text "u8")
    ∷ (b'i', text "isize")
    ∷ (b'j', text "usize")
    ∷ (b'l', text "i32")
    ∷ (b'm', text "u32")
    ∷ (b'n', text "i128")
    ∷ (b'o', text "u128")
    ∷ (b's', text "i16")
    ∷ (b't', text "u16")
    ∷ (b'u', text "()")
    ∷ (b'x', text "i64")
    ∷ (b'y', text "u64")
    ∷ (b'z', text "!")
    ∷ (b'p', text "_")
    ∷ []

unfoldable pub basic_type : List (ℕ × Text) → ℕ → Option Text
basic_type [] c = none
basic_type ((tag, name) ∷ types) c =
    let rest = basic_type types c in if c == tag then some name else rest

pub data TypeTag : Type 0 where
  basic : Text → TypeTag
  array slice tuple back path other : TypeTag
  reference : Bool → TypeTag
  pointer : Bool → TypeTag

abbrev pub is_path_letter : ℕ → Bool
is_path_letter c = c == b'C' || c == b'N' || c == b'I' || c == b'M' || c == b'X' || c == b'Y'

unfoldable pub compound_tag : ℕ → TypeTag
compound_tag c =
    if c == b'A'
    then TypeTag.array
    else if c == b'S'
    then TypeTag.slice
    else if c == b'R' || c == b'Q'
    then TypeTag.reference (c == b'Q')
    else if c == b'P' || c == b'O'
    then TypeTag.pointer (c == b'O')
    else if c == b'T'
    then TypeTag.tuple
    else if c == b'B'
    then TypeTag.back
    else if is_path_letter c
    then TypeTag.path
    else TypeTag.other

unfoldable pub type_tag : ℕ → TypeTag
type_tag c = elim (basic_type basic_types c) [
  | none ↦ compound_tag c
  | some name ↦ TypeTag.basic name
]

-- The digits of a constant, up to an underscore.
unfoldable pub const_digits : Text → Text
const_digits [] = []
const_digits (c ∷ rest) = let digits = const_digits rest in if c == b'_' then [] else c ∷ digits

abbrev pub read_digits : Text → Parser Text
read_digits body position s =
    let digits = const_digits (drop position body) in returned (digits, position + length digits, s)

abbrev pub typed_const : Call → Text → Parser Text
typed_const call body = do
  _ ← call type
  skip_if body b'n'
  digits ← read_digits body
  skip_if body b'_'
  pure (if is_empty digits then text "_" else digits)

unfoldable pub parse_const : Call → Text → Parser Text
parse_const call body position s =
    if peek body position == b'p'
    then returned (text "_", position + 1, s)
    else typed_const call body position s

abbrev pub lifetime_arg : Text → Parser Text
lifetime_arg body = do advance 1; _ ← parse_base62 body; pure (text "'_")

abbrev pub const_arg : Call → Text → Parser Text
const_arg call body = do advance 1; parse_const call body

unfoldable pub parse_generic_arg : Call → Text → Parser Text
parse_generic_arg call body position s =
    if peek body position == b'L'
    then lifetime_arg body position s
    else if peek body position == b'K'
    then const_arg call body position s
    else call type position s

abbrev pub lifetime : Text → Parser Text
lifetime body = do advance 1; _ ← parse_base62 body; pure []

-- `if (peek(position) == 'L')`: the lifetime of a reference.
unfoldable pub skip_lifetime : Text → Parser Text
skip_lifetime body position s =
    if peek body position == b'L' then lifetime body position s else returned ([], position, s)

unfoldable pub type_inner : Call → Text → TypeTag → Parser Text
type_inner call body (TypeTag.basic name) = do advance 1; pure name
type_inner call body TypeTag.array = do
  advance 1
  element ← call type
  n ← parse_const call body
  pure (text "[" ++ (element ++ (text "; " ++ (n ++ text "]"))))
type_inner call body TypeTag.slice = do
  advance 1
  element ← call type
  pure (text "[" ++ (element ++ text "]"))
type_inner call body (TypeTag.reference mutable) = do
  advance 1
  _ ← skip_lifetime body
  pointee ← call type
  pure ((if mutable then text "&mut " else text "&") ++ pointee)
type_inner call body (TypeTag.pointer mutable) = do
  advance 1
  pointee ← call type
  pure ((if mutable then text "*mut " else text "*const ") ++ pointee)
type_inner call body TypeTag.tuple = do
  advance 1
  rest ← call (elements true)
  pure (text "(" ++ rest)
type_inner call body TypeTag.back = back_reference call body type
type_inner call body TypeTag.path = call path
type_inner call body TypeTag.other = fail

-- Behind a loop that has ended: `E`, or the failure.
unfoldable pub close : Text → Text → Parser Text
close body bracket position s =
    if peek body position == b'E' then returned (bracket, position + 1, s) else failed

-- A round of a loop, or its end.
unfoldable pub loop_round : Text → Text → Bool → Parser Text → Parser Text → Parser Text
loop_round body bracket first item later position s =
    let more = (do
      budget
      a ← item
      rest ← later
      pure ((if first then [] else text ", ") ++ (a ++ rest))) in
    if not (peek body position == b'E') && ltb position (length body)
    then more position s
    else close body bracket position s

unfoldable pub step : Call → Text → Request → Parser Text
step call body path position s =
    deeper (path_inner call body (path_tag (peek body position))) position s
step call body type position s =
    deeper (type_inner call body (type_tag (peek body position))) position s
step call body (arguments first) position s =
    loop_round body (text ">") first (parse_generic_arg call body) (call (arguments false)) position
      s
step call body (elements first) position s =
    loop_round body (text ")") first (call type) (call (elements false)) position s

unfoldable pub parse : ℕ → Text → Call
parse zero body request position s = out_of_fuel
parse (suc fuel) body request position s = step (parse fuel body) body request position s

unfoldable pub run : Text → Outcome Text
run body =
    bind (parse 20001 body path (skip_optional_decimal body 0) (record { steps = 0; depth = 0 }))
      λ (out, _, _). returned out
