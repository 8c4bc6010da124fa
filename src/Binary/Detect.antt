-- ===== src/Binary/Detect.antt =====
-- src/binary/binary.cpp: detect_format, and its use of magic numbers.
pub mod Magic
use roe.Base.{
  ℕ, ◌*◌, ◌%◌, ◌^◌, bit_or, Bool, true, false, ◌&&◌, ◌||◌, List, length, get_or, take, leb, ◌==◌,
  if◌then◌else◌,
}
use roe.Base.Text.{text, text_eq}
use roe.Core.Result.{Result, ok, ◌>>=◌}
use roe.Binary.Types.{Format}
use roe.Elf.Types.{Bytes}
use roe.Elf.Reader.{window, slice}

-- The words that the four bytes behind `at` spell.
unfoldable pub big_word : (ℕ → ℕ) → ℕ
big_word at =
    bit_or
      (bit_or (bit_or (at 0 * 2 ^ 24 % 2 ^ 32) (at 1 * 2 ^ 16 % 2 ^ 32)) (at 2 * 2 ^ 8 % 2 ^ 32))
      (at 3)

unfoldable pub little_word : (ℕ → ℕ) → ℕ
little_word at =
    bit_or
      (bit_or (bit_or (at 3 * 2 ^ 24 % 2 ^ 32) (at 2 * 2 ^ 16 % 2 ^ 32)) (at 1 * 2 ^ 8 % 2 ^ 32))
      (at 0)

unfoldable pub read_be32 : Bytes → Result ℕ
read_be32 bytes = do at ← window bytes 0 4; ok (big_word at)

unfoldable pub read_le32 : Bytes → Result ℕ
read_le32 bytes = do at ← window bytes 0 4; ok (little_word at)

-- The bytes are read only behind the test of the size.
unfoldable pub is_elf : Bytes → Result Bool
is_elf bytes =
    let magic = (do
      at ← window bytes 0 4
      ok (at 0 == 0x7f && at 1 == b'E' && at 2 == b'L' && at 3 == b'F')) in
    if leb 4 (length bytes) then magic else ok false

unfoldable pub is_archive : Bytes → Result Bool
is_archive bytes =
    let magic = (do front ← slice bytes 0 8; ok (text_eq front (text "!<arch>\n"))) in
    if leb 8 (length bytes) then magic else ok false

unfoldable pub is_fat : ℕ → ℕ → Bool
is_fat be le = be == 0xCAFEBABE || be == 0xBEBAFECA || le == 0xCAFEBABE

unfoldable pub is_mach_o : ℕ → ℕ → Bool
is_mach_o be le = be == 0xFEEDFACE || be == 0xFEEDFACF || le == 0xFEEDFACE || le == 0xFEEDFACF

unfoldable pub is_pe : Bytes → Result Bool
is_pe bytes =
    let magic = (do at ← window bytes 0 2; ok (at 0 == b'M' && at 1 == b'Z')) in
    if leb 2 (length bytes) then magic else ok false

unfoldable pub pe_or_unknown : Bytes → Result Format
pe_or_unknown bytes = do pe ← is_pe bytes; ok (if pe then Format.pe_coff else Format.unknown)

-- What the two words tell, and otherwise the tests behind them.
abbrev pub word_format : ℕ → ℕ → Result Format → Result Format
word_format be le other =
    if is_fat be le
    then ok Format.mach_o_fat
    else if is_mach_o be le
    then ok Format.mach_o
    else other

-- The tests behind the archive's, for four bytes at least and for fewer.
unfoldable pub detect_words : Bytes → Result Format
detect_words bytes =
    let words = (do
      be ← read_be32 bytes
      le ← read_le32 bytes
      word_format be le (pe_or_unknown bytes)) in
    if leb 4 (length bytes) then words else pe_or_unknown bytes

unfoldable pub detect_format : Bytes → Result Format
detect_format bytes = do
  elf ← is_elf bytes
  archive ← (if elf then ok false else is_archive bytes)
  if elf then ok Format.elf else if archive then ok Format.archive else detect_words bytes
