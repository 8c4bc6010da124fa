-- ===== src/Resolver/Demangle/Cursor.antt =====
-- src/resolver/resolver.cpp, RustV0Demangler: the cursor, the budget, numbers and identifiers.
pub mod Ends
pub mod Numbers
use roe.Base.{
  ℕ, zero, suc, ◌+◌, ◌-◌, ◌*◌, ◌%◌, ◌^◌, Bool, true, false, ◌&&◌, ◌||◌, not, Option, none, some,
  List, [], ◌∷◌, length, get_or, take, drop, ltb, leb, ◌==◌, if◌then◌else◌,
}
use roe.Base.Text.{Text}
use roe.Elf.Reader.{add64}

-- What a call of the demangler comes to. `failed` is the return of false: the source sets failed_ before
-- it, and every caller returns false in turn. `thrown` is std::out_of_range from substr.
pub data Outcome {ℓ} (A : Type ℓ) : Type ℓ where
  returned : A → Outcome A
  failed : Outcome A
  thrown : Outcome A
  out_of_fuel : Outcome A

abbrev pub bind {ℓ κ} : {A : Type ℓ} {B : Type κ} → Outcome A → (A → Outcome B) → Outcome B
bind (returned a) f = f a
bind failed f = failed
bind thrown f = thrown
bind out_of_fuel f = out_of_fuel

-- The members `steps_` and `depth_`.
pub record Budget : Type 0 where
  pub steps : ℕ
  pub depth : ℕ

-- A call at a position returns a value and moves the position.
abbrev pub Parser : Type 0 → Type 0
Parser A = ℕ → Budget → Outcome (A × ℕ × Budget)

abbrev pub pure : {A : Type 0} → A → Parser A
pure a position s = returned (a, position, s)

infixl 5 ◌>>=◌ ◌>>◌
abbrev pub ◌>>=◌ : {A B : Type 0} → Parser A → (A → Parser B) → Parser B
◌>>=◌ p f position s = bind (p position s) λ (a, position', s'). f a position' s'

abbrev pub ◌>>◌ : {B : Type 0} → Parser (Unit {0}) → Parser B → Parser B
p >> q = p >>= λ _. q

abbrev pub fail : {A : Type 0} → Parser A
fail position s = failed

unfoldable pub budget : Parser (Unit {0})
budget position s =
    if ltb 20000 (s.steps + 1) || ltb 256 s.depth
    then failed
    else returned (tt, position, record s { steps = s.steps + 1 })

-- `++depth_`, the call, and `--depth_`, behind the test of the budget.
abbrev pub enter : Parser (Unit {0})
enter position s = returned (tt, position, record s { depth = s.depth + 1 })

abbrev pub leave : Parser (Unit {0})
leave position s = returned (tt, position, record s { depth = s.depth - 1 })

unfoldable pub deeper : Parser Text → Parser Text
deeper p = do budget; enter; out ← p; leave; pure out

-- `position += n`
abbrev pub advance : ℕ → Parser (Unit {0})
advance n position s = returned (tt, position + n, s)

unfoldable pub peek : Text → ℕ → ℕ
peek body position = get_or body position 0

-- The call at another position; the position of the caller stays.
unfoldable pub elsewhere : ℕ → Parser Text → Parser Text
elsewhere target p position s = bind (p target s) λ (out, _, s'). returned (out, position, s')

-- `if (peek(position) == c) { ++position; }`
unfoldable pub skip_if : Text → ℕ → Parser (Unit {0})
skip_if body c position s =
    returned (tt, (if peek body position == c then position + 1 else position), s)

abbrev pub is_between : ℕ → ℕ → ℕ → Bool
is_between lo hi c = leb lo c && leb c hi

unfoldable pub digit62 : ℕ → Option ℕ
digit62 c =
    if is_between b'0' b'9' c
    then some (c - b'0')
    else if is_between b'a' b'z' c
    then some (10 + (c - b'a'))
    else if is_between b'A' b'Z' c
    then some (36 + (c - b'A'))
    else none

-- The loop of parse_base62 over the rest of the body: the position, the number, and whether it has a
-- digit.
unfoldable pub base62_loop : Text → ℕ → ℕ → Bool → ℕ × ℕ × Bool
base62_loop [] position accumulated any = (position, accumulated, any)
base62_loop (c ∷ rest) position accumulated any = elim (digit62 c) [
  | none ↦ (position, accumulated, any)
  | some digit ↦ base62_loop rest (position + 1) ((accumulated * 62 + digit) % 2 ^ 64) true
]

abbrev pub end_base62 : Text → ℕ × ℕ × Bool → Budget → Outcome (ℕ × ℕ × Budget)
end_base62 body (position, accumulated, any) s =
    if not (peek body position == b'_')
    then failed
    else returned ((if any then (accumulated + 1) % 2 ^ 64 else 0), position + 1, s)

unfoldable pub parse_base62 : Text → Parser ℕ
parse_base62 body position s =
    if peek body position == b'_'
    then returned (0, position + 1, s)
    else end_base62 body (base62_loop (drop position body) position 0 false) s

-- The loop of parse_decimal, with the same results.
unfoldable pub decimal_loop : Text → ℕ → ℕ → Bool → ℕ × ℕ × Bool
decimal_loop [] position value any = (position, value, any)
decimal_loop (c ∷ rest) position value any =
    let next = decimal_loop rest (position + 1) ((value * 10 + (c - b'0')) % 2 ^ 64) true in
    if is_between b'0' b'9' c then next else (position, value, any)

abbrev pub end_decimal : ℕ × ℕ × Bool → Budget → Outcome (ℕ × ℕ × Budget)
end_decimal (position, value, any) s = if any then returned (value, position, s) else failed

-- parse_decimal, and the failure of parse_identifier where it finds no digit.
unfoldable pub parse_decimal : Text → Parser ℕ
parse_decimal body position s = end_decimal (decimal_loop (drop position body) position 0 false) s

-- The disambiguator of an identifier.
unfoldable pub skip_disambiguator : Text → Parser (Unit {0})
skip_disambiguator body position s =
    let skip = (do advance 1; _ ← parse_base62 body; pure tt) in
    if peek body position == b's' then skip position s else returned (tt, position, s)

-- The test on the length, and the text; the sum wraps around at 64 bits.
unfoldable pub identifier_text : Text → ℕ → Parser Text
identifier_text body n position s =
    if ltb (length body) (add64 position n)
    then failed
    else if ltb (length body) position
    then thrown
    else returned (take n (drop position body), add64 position n, s)

unfoldable pub parse_identifier : Text → Parser Text
parse_identifier body = do
  budget
  skip_disambiguator body
  skip_if body b'u'
  n ← parse_decimal body
  skip_if body b'_'
  identifier_text body n

-- The digits behind the vendor prefix.
unfoldable pub skip_digits : Text → ℕ → ℕ
skip_digits [] position = position
skip_digits (c ∷ rest) position =
    let next = skip_digits rest (position + 1) in if is_between b'0' b'9' c then next else position

unfoldable pub skip_optional_decimal : Text → ℕ → ℕ
skip_optional_decimal body position =
    if is_between b'1' b'9' (peek body position)
    then skip_digits (drop position body) position
    else position
