-- ===== src/Elf/Reader.antt =====
-- src/elf/elf.cpp: range checks with 64-bit wrap-around, and the Reader of little and big endian
-- words.
pub mod Windows
pub mod Bounds
pub mod Words
pub mod Tables
use roe.Base.{
  ℕ, zero, suc, ◌+◌, ◌-◌, ◌*◌, ◌%◌, ◌^◌, bit_or, Bool, true, false, ◌&&◌, not, Option, none, some,
  length, get_or, take, drop, ltb, leb, if◌then◌else◌, ◌++◌,
}
use roe.Base.Text.{Text, text}
use roe.Core.Error.{make_error_at, malformed_input}
use roe.Core.Result.{Result, ok, err, aborted, ◌>>=◌, ◌>>◌, element}
use roe.Elf.Types.{Bytes, Endianness, little, big}

-- `std::numeric_limits<std::uint64_t>::max()`
abbrev pub u64_max : ℕ
u64_max = 0xffff_ffff_ffff_ffff

-- `a + b` and `a * b` at std::uint64_t.
unfoldable pub add64 : ℕ → ℕ → ℕ
add64 a b = (a + b) % 2 ^ 64

unfoldable pub mul64 : ℕ → ℕ → ℕ
mul64 a b = a * b % 2 ^ 64

-- The sum, or nothing where the source returns false.
unfoldable pub checked_add : ℕ → ℕ → Option ℕ
checked_add lhs rhs = if ltb (u64_max - rhs) lhs then none else some (lhs + rhs)

unfoldable pub range_within : ℕ → ℕ → ℕ → Bool
unfolding checked_add
range_within offset size image_size = elim (checked_add offset size) [
  | none ↦ false
  | some end ↦ leb end image_size
]

unfoldable pub validate_range : ℕ → ℕ → ℕ → Text → Result (Unit {0})
validate_range offset size image_size label =
    if not (range_within offset size image_size)
    then err (make_error_at malformed_input (label ++ text " extends past end of file") offset)
    else ok tt

pub record Reader : Type 0 where
  pub bytes : Bytes
  pub endianness : Endianness

-- The pointer that `read_array` returns is the position in the image.
unfoldable pub read_array : Reader → ℕ → ℕ → Result ℕ
read_array r offset size =
    if not (range_within offset size (length r.bytes))
    then err (make_error_at malformed_input (text "read past end of file") offset)
    else ok offset

-- `ptr[i]` for a pointer to the position `start`.
abbrev pub load : Bytes → ℕ → ℕ → ℕ
load bytes start i = get_or bytes (start + i) 0

-- The `n` bytes behind a pointer to the position `start`, of which the last is read with the others: a
-- byte behind the image aborts.
unfoldable pub window : Bytes → ℕ → ℕ → Result (ℕ → ℕ)
window bytes start n = do _ ← element bytes (start + (n - 1)); ok (load bytes start)

-- The bytes between two iterators, `size` of them from `offset` on: outside the image they abort.
unfoldable pub slice : Bytes → ℕ → ℕ → Result Bytes
slice bytes offset size =
    if leb (offset + size) (length bytes) then ok (take size (drop offset bytes)) else aborted

unfoldable pub u8 : Reader → ℕ → Result ℕ
u8 r offset =
    if not (range_within offset 1 (length r.bytes))
    then err (make_error_at malformed_input (text "read past end of file") offset)
    else element r.bytes offset

-- `x << k` at a word of `w` bits.
abbrev shl : ℕ → ℕ → ℕ → ℕ
shl w x k = x * 2 ^ k % 2 ^ w

unfoldable pub word16 : Endianness → (ℕ → ℕ) → ℕ
word16 little ptr = bit_or (ptr 0) (shl 32 (ptr 1) 8) % 2 ^ 16
word16 big ptr = bit_or (shl 32 (ptr 0) 8) (ptr 1) % 2 ^ 16

unfoldable pub word32 : Endianness → (ℕ → ℕ) → ℕ
word32 little ptr =
    bit_or (bit_or (bit_or (ptr 0) (shl 32 (ptr 1) 8)) (shl 32 (ptr 2) 16)) (shl 32 (ptr 3) 24)
    % 2 ^ 32
word32 big ptr =
    bit_or (bit_or (bit_or (shl 32 (ptr 0) 24) (shl 32 (ptr 1) 16)) (shl 32 (ptr 2) 8)) (ptr 3)
    % 2 ^ 32

-- `for (i = 0; i < 8; ++i)` with `n` rounds left: the two loops of `u64`.
unfoldable pub little_loop : ℕ → ℕ → (ℕ → ℕ) → ℕ → ℕ
little_loop zero i ptr word = word
little_loop (suc n) i ptr word = little_loop n (i + 1) ptr (bit_or word (shl 64 (ptr i) (i * 8)))

unfoldable pub big_loop : ℕ → ℕ → (ℕ → ℕ) → ℕ → ℕ
big_loop zero i ptr word = word
big_loop (suc n) i ptr word = big_loop n (i + 1) ptr (bit_or (shl 64 word 8) (ptr i))

unfoldable pub word64 : Endianness → (ℕ → ℕ) → ℕ
unfolding little_loop big_loop
word64 little ptr = little_loop 8 0 ptr 0
word64 big ptr = big_loop 8 0 ptr 0

unfoldable pub u16 : Reader → ℕ → Result ℕ
unfolding read_array
u16 r offset = do
  ptr ← read_array r offset 2
  at ← window r.bytes ptr 2
  ok (word16 r.endianness at)

unfoldable pub u32 : Reader → ℕ → Result ℕ
unfolding read_array
u32 r offset = do
  ptr ← read_array r offset 4
  at ← window r.bytes ptr 4
  ok (word32 r.endianness at)

unfoldable pub u64 : Reader → ℕ → Result ℕ
unfolding read_array
u64 r offset = do
  ptr ← read_array r offset 8
  at ← window r.bytes ptr 8
  ok (word64 r.endianness at)

-- A signed word as the bit pattern of the int64_t that it becomes: `i32` extends the sign.
unfoldable pub i32 : Reader → ℕ → Result ℕ
unfolding u32
i32 r offset = do
  word ← u32 r offset
  ok (if ltb word (2 ^ 31) then word else word + (2 ^ 64 - 2 ^ 32))

unfoldable pub i64 : Reader → ℕ → Result ℕ
unfolding u64
i64 r offset = u64 r offset
