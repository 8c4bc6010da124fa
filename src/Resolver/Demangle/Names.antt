-- ===== src/Resolver/Demangle/Names.antt =====
-- src/resolver/resolver.cpp: demangle_rust_v0 and demangle. `itanium` stands for abi::__cxa_demangle of
-- the C++ runtime, which reads a text up to its first zero byte and returns nothing where its status
-- is not zero.
pub mod Laws
use roe.Base.{
  ℕ, zero, suc, Bool, true, false, ◌&&◌, ◌||◌, not, Option, none, some, [], ◌∷◌, length, get_or,
  drop, ltb, leb, ◌==◌, if◌then◌else◌,
}
use roe.Base.Text.{Text}
use roe.Resolver.Demangle.Cursor.{Outcome, returned, failed, thrown, out_of_fuel}
use roe.Resolver.Demangle.Rust.{run}
use roe.Resolver.Demangle.Legacy.{strip_rust_legacy_hash}

-- `std::string(name).c_str()`
unfoldable pub c_str : Text → Text
c_str [] = []
c_str (c ∷ rest) = let front = c_str rest in if c == 0 then [] else c ∷ front

abbrev pub is_rust : Text → Bool
is_rust name = (leb 2 (length name) && get_or name 0 0 == b'_') && get_or name 1 0 == b'R'

unfoldable pub demangle_rust_v0 : Text → Outcome Text
demangle_rust_v0 name =
    if (ltb (length name) 3 || not (get_or name 0 0 == b'_')) || not (get_or name 1 0 == b'R')
    then failed
    else run (drop 2 name)

-- A Rust name that is not demangled stays.
abbrev pub or_name : Text → Outcome Text → Outcome Text
or_name name (returned rust) = returned rust
or_name name failed = returned name
or_name name thrown = thrown
or_name name out_of_fuel = out_of_fuel

abbrev pub stripped_or : Text → Option Text → Text
stripped_or name none = name
stripped_or name (some demangled) = strip_rust_legacy_hash demangled

unfoldable pub demangle : (Text → Option Text) → Text → Outcome Text
demangle itanium name =
    if is_rust name
    then or_name name (demangle_rust_v0 name)
    else returned (stripped_or name (itanium (c_str name)))
