-- ===== src/Resolver/Demangle/Names/Laws.antt =====
-- The demangler returns a name for every name.
use roe.Base.{
  ◌≡◌, refl, ◌⊎◌, ap, inl, inr, true, false, ◌||◌, not, Option, length, get_or, drop, suc, ◌^◌, ◌<◌,
  ◌≤◌, ◌∷◌, ◌++◌, arith, length-append, leb, ltb, ◌==◌, Bool-cases,
}
use roe.Base.Text.{Text}
use roe.Resolver.Demangle.Cursor.{Outcome, returned, failed}
use roe.Resolver.Demangle.Rust.Total.{run-total}
use roe.Resolver.Demangle.Rust.Paths.{
  RustPath, encode, show, segments, IsNamed, run-path, length-encode,
}
use roe.Resolver.Demangle.Names.{is_rust, demangle_rust_v0, or_name, stripped_or, c_str, demangle}

-- The call returns, with a text or without one.
abbrev IsDecided : Outcome Text → Type 0
IsDecided m = (m ≡ failed) ⊎ ((out : Text) × (m ≡ returned out))

demangle_rust_v0-IsDecided : (name : Text) → IsDecided (demangle_rust_v0 name)
unfolding demangle_rust_v0
demangle_rust_v0-IsDecided name =
    elim (Bool-cases
      ((ltb (length name) 3 || not (get_or name 0 0 == b'_')) || not (get_or name 1 0 == b'R'))) [
        | inl e ↦ rw e (inl refl)
        | inr e ↦ rw e (run-total (drop 2 name))
      ]

or_name-returned :
    (name : Text) (m : Outcome Text) → IsDecided m → (out : Text) × (or_name name m ≡ returned out)
or_name-returned name m (inl e) = (name, ap (or_name name) e)
or_name-returned name m (inr (out, e)) = (out, ap (or_name name) e)

-- demangle returns a text for every name and whatever the demangler of the C++ runtime answers. The
-- Rust demangler neither throws nor recurses without end: the budget of 20000 steps is spent before the
-- 20001 levels of recursion that the model allows, also where back references form a cycle.
pub demangle-total :
    (itanium : Text → Option Text) (name : Text)
    → (out : Text) × (demangle itanium name ≡ returned out)
unfolding demangle
demangle-total itanium name = elim (Bool-cases (is_rust name)) [
  | inl e ↦ rw e (or_name-returned name (demangle_rust_v0 name) (demangle_rust_v0-IsDecided name))
  | inr e ↦ rw e (stripped_or name (itanium (c_str name)), refl)
]

-- A mangled Rust path of version 0 demangles to its names, joined by "::", whatever follows it. The path
-- is a crate with up to 255 names below it, each in a namespace of any letter, and no name is empty; a
-- name is written as its length in decimal digits, an underscore if it starts with a digit or an
-- underscore, and the name itself. The text is shorter than 2 ^ 64.
pub demangle-encode :
    (itanium : Text → Option Text) (p : RustPath) (rest : Text)
    → length (encode p ++ rest) < 2 ^ 64
    → IsNamed p
    → segments p ≤ 256
    → demangle itanium (b'_' ∷ b'R' ∷ (encode p ++ rest)) ≡ returned (show p)
unfolding demangle demangle_rust_v0
demangle-encode itanium p rest small named few =
    let long : 0 < length (encode p ++ rest) =
      omega (arith, length-encode p named, length-append (encode p) rest) in
    let e : leb 2 (suc (suc (length (encode p ++ rest)))) ≡ true = ground arith in
    let f : ltb (suc (suc (length (encode p ++ rest)))) 3 ≡ false = ground arith in
    rw (e, f, run-path p rest small named few) refl
