-- ===== src/Debug/Cursor.antt =====
-- src/debug/debug.cpp: the class Cursor and string_at.
pub mod Moves
pub mod Texts
use roe.Base.{
  ℕ, zero, suc, ◌+◌, ◌-◌, ◌*◌, ◌%◌, ◌^◌, Bool, true, false, ◌&&◌, ◌||◌, List, [], ◌∷◌, length, drop,
  ltb, leb, ◌==◌, if◌then◌else◌,
}
use roe.Base.Text.{Text}
use roe.Core.Result.{Result, ok, err, aborted, element}
use roe.Elf.Types.{Bytes, Endianness, little, big}
use roe.Elf.Reader.{add64}
use roe.Macho.Reader.{until_zero}

pub record Cursor : Type 0 where
  pub position : ℕ
  pub error : Bool

-- A member function returns a value and moves the cursor. It is aborted where it reads an element
-- outside the vector.
abbrev pub Read : Type 0 → Type 0
Read A = Cursor → Result (A × Cursor)

abbrev pub pure : {A : Type 0} → A → Read A
pure a c = ok (a, c)

abbrev pub continue : {A B : Type 0} → (A → Read B) → Result (A × Cursor) → Result (B × Cursor)
continue f (ok (a, c)) = f a c
continue f (err e) = err e
continue f aborted = aborted

infixl 5 ◌>>=◌ ◌>>◌
abbrev pub ◌>>=◌ : {A B : Type 0} → Read A → (A → Read B) → Read B
◌>>=◌ m f c = continue f (m c)

abbrev pub ◌>>◌ : {B : Type 0} → Read (Unit {0}) → Read B → Read B
m >> k = m >>= λ _. k

abbrev pub tell : Read ℕ
tell c = ok (c.position, c)

abbrev pub seek : ℕ → Read (Unit {0})
seek position c = ok (tt, record c { position = position })

-- A loop for which no round is left.
abbrev pub no_round : {A : Type 0} → Read A
no_round c = aborted

-- `&& cursor.ok()` in the test of a loop, which returns `a` where it ends.
abbrev pub while_ok : {A : Type 0} → A → Read A → Read A
while_ok a m c = if c.error then ok (a, c) else m c

module _ (bytes : Bytes) where
  abbrev pub got : Cursor → Result ℕ → Result (ℕ × Cursor)
  got c (ok b) = ok (b, record c { position = c.position + 1 })
  got c (err e) = err e
  got c aborted = aborted

  unfoldable pub u8 : Read ℕ
  u8 c =
      if ltb (length bytes) (add64 c.position 1)
      then ok (0, record c { error = true })
      else got c (element bytes c.position)

  -- The loops of u16, u32 and u64 with `n` bytes left to read. The bits that `|` joins do not meet.
  unfoldable pub big_loop : ℕ → ℕ → Read ℕ
  big_loop zero value = pure value
  big_loop (suc n) value = u8 >>= λ b. big_loop n (value * 256 + b)

  unfoldable pub little_loop : ℕ → ℕ → ℕ → Read ℕ
  little_loop zero shift value = pure value
  little_loop (suc n) shift value = u8 >>= λ b. little_loop n (shift + 8) (value + b * 2 ^ shift)

  abbrev pub word : Endianness → ℕ → Read ℕ
  word little n = little_loop n 0 0
  word big n = big_loop n 0

  unfoldable pub u16 : Endianness → Read ℕ
  u16 order = word order 2

  unfoldable pub u32 : Endianness → Read ℕ
  u32 order = word order 4

  unfoldable pub u64 : Endianness → Read ℕ
  u64 order = word order 8

  -- `result |= static_cast<std::uint64_t>(byte & 0x7fU) << shift` for a shift below 64. The bits of
  -- `result` lie below the shift.
  abbrev pub with_group : ℕ → ℕ → ℕ → ℕ
  with_group b shift result = if ltb shift 64 then result + b % 128 * 2 ^ shift % 2 ^ 64 else result

  -- The loop of uleb with `rounds` rounds left. It is left at the eleventh, where the shift passes 70.
  unfoldable pub uleb_loop : ℕ → ℕ → ℕ → Read ℕ
  uleb_loop zero shift result = pure result
  uleb_loop (suc rounds) shift result = u8 >>= λ b c.
      let value = with_group b shift result in
      let rest = uleb_loop rounds (shift + 7) value in
      if ltb b 128 || (c.error || ltb 70 (shift + 7)) then ok (value, c) else rest c

  unfoldable pub uleb : Read ℕ
  uleb = uleb_loop 11 0 0

  -- The result of sleb behind its loop, as the 64 bits of the signed number.
  abbrev pub extended : ℕ → ℕ → ℕ → ℕ
  extended b shift value =
      if ltb shift 64 && leb 64 (b % 128) then value + (2 ^ 64 - 2 ^ shift) else value

  unfoldable pub sleb_loop : ℕ → ℕ → ℕ → Read ℕ
  sleb_loop zero shift result = pure result
  sleb_loop (suc rounds) shift result = u8 >>= λ b c.
      let value = with_group b shift result in
      let rest = sleb_loop rounds (shift + 7) value in
      if (c.error || ltb 70 (shift + 7)) || ltb b 128
      then ok (extended b (shift + 7) value, c)
      else rest c

  unfoldable pub sleb : Read ℕ
  sleb = sleb_loop 11 0 0

  -- The loop of cstring on the bytes that are left at a position.
  unfoldable pub cstring_loop : Bytes → ℕ → Bool → Text × Cursor
  cstring_loop [] position error = ([], record { position = position; error = true })
  cstring_loop (b ∷ rest) position error =
      let (text, c) = cstring_loop rest (position + 1) error in
      if b == 0 then ([], record { position = position + 1; error = error }) else (b ∷ text, c)

  unfoldable pub cstring : Read Text
  cstring c = ok (cstring_loop (drop c.position bytes) c.position c.error)

  unfoldable pub skip : ℕ → Read (Unit {0})
  skip count c =
      if ltb (length bytes) (add64 c.position count)
      then ok (tt, record { position = length bytes; error = true })
      else ok (tt, record c { position = add64 c.position count })

unfoldable pub string_at : Bytes → ℕ → Text
string_at table offset = if leb (length table) offset then [] else until_zero (drop offset table)
