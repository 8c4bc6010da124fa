-- ===== src/Macho/Reader.antt =====
-- src/macho/macho.cpp: the Reader, whose flag falls at the first read past the end, and map_arch.
pub mod Laws
use roe.Base.{
  ℕ, ◌+◌, bit_and, Bool, true, false, not, List, [], ◌∷◌, length, drop, leb, ◌==◌, if◌then◌else◌,
}
use roe.Base.Text.{Text}
use roe.Core.Result.{Result, ok, ◌>>=◌, element}
use roe.Binary.Types.{Architecture}
use roe.Elf.Types.{Bytes, Endianness}
use roe.Elf.Reader.{word16, word32, word64}
use roe.Pe.Reader.{Read, read}

unfoldable pub u8 : Bytes → Bool → ℕ → Read ℕ
u8 bytes flag off =
    if leb (length bytes) off then ok (0, false) else (do b ← element bytes off; ok (b, flag))

unfoldable pub u16 : Endianness → Bytes → Bool → ℕ → Read ℕ
u16 order bytes flag off = read 2 (word16 order) bytes flag off

unfoldable pub u32 : Endianness → Bytes → Bool → ℕ → Read ℕ
u32 order bytes flag off = read 4 (word32 order) bytes flag off

unfoldable pub u64 : Endianness → Bytes → Bool → ℕ → Read ℕ
u64 order bytes flag off = read 8 (word64 order) bytes flag off

-- The bytes up to a zero byte or the end.
unfoldable pub until_zero : Bytes → Text
until_zero [] = []
until_zero (b ∷ bytes) = let rest = until_zero bytes in if b == 0 then [] else b ∷ rest

unfoldable pub c_string : Bytes → ℕ → Text
c_string bytes off = until_zero (drop off bytes)

unfoldable pub map_arch : ℕ → Architecture
map_arch cputype =
    let is64 = not (bit_and cputype 0x0100_0000 == 0) in
    let base = bit_and cputype 0xfeff_ffff in
    if base == 7
    then (if is64 then Architecture.x86_64 else Architecture.x86)
    else if base == 12
    then (if is64 then Architecture.aarch64 else Architecture.arm)
    else Architecture.unknown
