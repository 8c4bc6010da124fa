-- ===== src/Macho/Parse/Words.antt =====
-- The words of a fat header, which read_be32 reads without a fault.
use roe.Base.{
  ℕ, ◌+◌, ◌%◌, ◌^◌, ◌≤◌, ◌<◌, ◌≡◌, refl, true, false, length, leb, leb→le, le→leb, ltb, arith,
  Bool-cases, inl, inr, if◌then◌else◌,
}
use roe.Core.Result.{ok}
use roe.Elf.Types.{Bytes, IsImage, big}
use roe.Elf.Reader.{add64, load, word32}
use roe.Elf.Reader.Windows.{window-ok}
use roe.Macho.Reader.Laws.{word32-lt}
use roe.Macho.Parse.{read_be32}

-- The big endian word at an offset, or zero where it does not lie inside the image.
unfoldable pub be32 : Bytes → ℕ → ℕ
be32 bytes offset = if leb (offset + 4) (length bytes) then word32 big (load bytes offset) else 0

-- Inside the image of any size.
pub read_be32-inside :
    (bytes : Bytes) (offset : ℕ)
    → offset + 4 ≤ length bytes
    → offset + 4 < 2 ^ 64
    → read_be32 bytes offset ≡ ok (be32 bytes offset)
unfolding read_be32 add64 be32
read_be32-inside bytes offset fits near =
    let inside : ltb (length bytes) ((offset + 4) % 2 ^ 64) ≡ false = ground arith in
    rw (inside, le→leb _ _ fits, window-ok bytes offset 4 (omega arith) fits) refl

pub read_be32-be32 :
    (bytes : Bytes) (offset : ℕ)
    → length bytes < 2 ^ 63
    → offset < 2 ^ 63
    → read_be32 bytes offset ≡ ok (be32 bytes offset)
read_be32-be32 bytes offset size near = elim (Bool-cases (leb (offset + 4) (length bytes))) [
  | inl e ↦ read_be32-inside bytes offset (leb→le _ _ e) (omega arith)
  | inr e ↦
      let out : ltb (length bytes) ((offset + 4) % 2 ^ 64) ≡ true = ground arith in
      unfold read_be32 add64 be32 in rw (out, e) refl
]

pub be32-lt : (bytes : Bytes) (offset : ℕ) → IsImage bytes → be32 bytes offset < 2 ^ 32
unfolding be32
be32-lt bytes offset image = elim (Bool-cases (leb (offset + 4) (length bytes))) [
  | inl e ↦ rw e (word32-lt bytes image big offset)
  | inr e ↦ rw e (omega arith)
]
