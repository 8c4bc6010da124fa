-- ===== src/Pe/Reader.antt =====
-- src/pe/pe.cpp: the Reader, whose flag falls at the first read past the end, map_machine and
-- rva_to_offset.
pub mod Laws
use roe.Base.{
  ℕ, zero, suc, ◌+◌, ◌-◌, ◌*◌, ◌%◌, ◌^◌, Bool, true, false, ◌&&◌, Option, none, some, List, [], ◌∷◌,
  length, drop, ltb, leb, ◌==◌, if◌then◌else◌,
}
use roe.Base.Text.{Text}
use roe.Core.Result.{Result, ok, aborted, ◌>>=◌, element}
use roe.Binary.Types.{Architecture}
use roe.Elf.Types.{Bytes, little}
use roe.Elf.Reader.{add64, load, word16, word32, word64}

-- A value, and the flag behind the read.
abbrev pub Read : Type 0 → Type 0
Read A = Result (A × Bool)

-- A read of `n` bytes that `word` puts together, from the first to the last of them.
abbrev pub read : ℕ → ((ℕ → ℕ) → ℕ) → Bytes → Bool → ℕ → Read ℕ
read n word bytes flag off =
    if ltb (length bytes) (add64 off n)
    then ok (0, false)
    else (element bytes (off + (n - 1)) >>= λ _. ok (word (load bytes off), flag))

unfoldable pub u16 : Bytes → Bool → ℕ → Read ℕ
u16 bytes flag off = read 2 (word16 little) bytes flag off

unfoldable pub u32 : Bytes → Bool → ℕ → Read ℕ
u32 bytes flag off = read 4 (word32 little) bytes flag off

unfoldable pub u64 : Bytes → Bool → ℕ → Read ℕ
u64 bytes flag off = read 8 (word64 little) bytes flag off

-- The loop that copies bytes up to a zero byte, with `rounds` bytes left to copy.
unfoldable pub copy : ℕ → Bytes → Text
copy zero bytes = []
copy (suc rounds) [] = []
copy (suc rounds) (b ∷ bytes) = let rest = copy rounds bytes in if b == 0 then [] else b ∷ rest

unfoldable pub c_string : Bytes → ℕ → Text
c_string bytes off = copy 4096 (drop off bytes)

-- The loop of fixed_string, with `n` bytes left to copy.
unfoldable pub copy_fixed : ℕ → Bytes → Result Text
copy_fixed zero bytes = ok []
copy_fixed (suc n) [] = aborted
copy_fixed (suc n) (b ∷ bytes) =
    let rest = (do t ← copy_fixed n bytes; ok (b ∷ t)) in if b == 0 then ok [] else rest

unfoldable pub fixed_string : Bytes → Bool → ℕ → ℕ → Read Text
fixed_string bytes flag off n =
    if ltb (length bytes) (add64 off n)
    then ok ([], false)
    else (do t ← copy_fixed n (drop off bytes); ok (t, flag))

unfoldable pub map_machine : ℕ → Architecture
map_machine machine =
    if machine == 0x014c
    then Architecture.x86
    else if machine == 0x8664
    then Architecture.x86_64
    else if machine == 0xaa64
    then Architecture.aarch64
    else if machine == 0x01c4
    then Architecture.arm_thumb
    else Architecture.unknown

pub record SectionMap : Type 0 where
  pub va : ℕ
  pub vsize : ℕ
  pub raw : ℕ
  pub rawsize : ℕ

-- `std::max`
abbrev pub larger : ℕ → ℕ → ℕ
larger a b = if ltb a b then b else a

-- The section's addresses hold the address, and its file content reaches it.
unfoldable pub covers : SectionMap → ℕ → Bool
covers s rva =
    (leb s.va rva && ltb rva ((s.va + larger s.vsize s.rawsize) % 2 ^ 32))
    && ltb (rva - s.va) s.rawsize

-- `out`, or nothing where the source returns false.
unfoldable pub rva_to_offset : List SectionMap → ℕ → Option ℕ
rva_to_offset [] rva = none
rva_to_offset (s ∷ sections) rva =
    let rest = rva_to_offset sections rva in
    if covers s rva then some (s.raw + (rva - s.va)) else rest
