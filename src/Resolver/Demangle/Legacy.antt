-- ===== src/Resolver/Demangle/Legacy.antt =====
-- src/resolver/resolver.cpp: strip_rust_legacy_hash.
pub mod Laws
use roe.Base.{
  ℕ, zero, suc, ◌+◌, ◌-◌, Bool, true, false, ◌&&◌, ◌||◌, not, Option, none, some, List, [], ◌∷◌,
  length, take, drop, leb, if◌then◌else◌,
}
use roe.Base.Text.{Text, text, starts_with}

-- `name.rfind(needle)`: the last position at which the needle stands, for a needle that is not empty.
unfoldable pub rfind : Text → Text → Option ℕ
rfind needle [] = none
rfind needle (b ∷ name) = elim (rfind needle name) [
  | some pos ↦ some (suc pos)
  | none ↦ if starts_with (b ∷ name) needle then some 0 else none
]

abbrev pub is_hex : ℕ → Bool
is_hex c = (leb b'0' c && leb c b'9') || (leb b'a' c && leb c b'f')

unfoldable pub all_hex : Text → Bool
all_hex [] = true
all_hex (c ∷ rest) = is_hex c && all_hex rest

-- The name with a last "::h" at the position.
unfoldable pub strip_at : Text → ℕ → Text
strip_at name pos =
    if leb (length name) (pos + 3)
    then name
    else if all_hex (drop (pos + 3) name) && leb 16 (length name - (pos + 3))
    then take pos name
    else name

abbrev pub strip_by : Text → Option ℕ → Text
strip_by name none = name
strip_by name (some pos) = strip_at name pos

unfoldable pub strip_rust_legacy_hash : Text → Text
strip_rust_legacy_hash name = strip_by name (rfind (text "::h") name)
