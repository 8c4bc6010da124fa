-- ===== src/Macho/Reader/Laws.antt =====
-- The reads of a Mach-O image, as steps of a `do` block.
use roe.Base.{ℕ, ◌+◌, ◌^◌, ◌<◌, Bool, false, length, arith, leb, Bool-cases, inl, inr}
use roe.Core.Result.{Result, ◌>>=◌, element-eq, Returns, Returns-bind}
use roe.Elf.Types.{Bytes, IsImage, Endianness, little, big}
use roe.Elf.Reader.{load, word16, word32, word64}
use roe.Elf.Reader.Words.{word32-digits}
use roe.Pe.Reader.{read}
use roe.Pe.Reader.Laws.{read-Returns, load-IsByte}
use roe.Macho.Reader.{u8, u16, u32, u64}

module _ (bytes : Bytes) (image : IsImage bytes) where
  pub word32-lt : (order : Endianness) (off : ℕ) → word32 order (load bytes off) < 2 ^ 32
  word32-lt little off = omega (
    arith,
    word32-digits (load bytes off) (load-IsByte bytes image off) little,
    load-IsByte bytes image off 0,
    load-IsByte bytes image off 1,
    load-IsByte bytes image off 2,
    load-IsByte bytes image off 3,
  )
  word32-lt big off = omega (
    arith,
    word32-digits (load bytes off) (load-IsByte bytes image off) big,
    load-IsByte bytes image off 0,
    load-IsByte bytes image off 1,
    load-IsByte bytes image off 2,
    load-IsByte bytes image off 3,
  )

module _ {B : Type 0} (Q : B → Type 0) (bytes : Bytes) (flag : Bool) (off : ℕ)
    (near : off < 2 ^ 63 + 2 ^ 40) (f : ℕ × Bool → Result B) where
  -- A word that is only kept: nothing is said of its value.
  bind_kept :
      (n : ℕ) (word : (ℕ → ℕ) → ℕ)
      → 0 < n
      → n < 16
      → ((a : ℕ) (flag' : Bool) → Returns Q (f (a, flag')))
      → Returns Q (read n word bytes flag off >>= f)
  bind_kept n word pos small k =
      Returns-bind (λ p. p.0 < word (load bytes off) + 1) Q (read n word bytes flag off) f
        (read-Returns n word bytes flag off (word (load bytes off) + 1) pos (omega arith)
          (omega arith) (omega arith))
        λ (a, flag') _. k a flag'

  pub bind_u16 :
      (order : Endianness)
      → ((a : ℕ) (flag' : Bool) → Returns Q (f (a, flag')))
      → Returns Q (u16 order bytes flag off >>= f)
  unfolding u16
  bind_u16 order k = bind_kept 2 (word16 order) (omega arith) (omega arith) k

  pub bind_u64 :
      (order : Endianness)
      → ((a : ℕ) (flag' : Bool) → Returns Q (f (a, flag')))
      → Returns Q (u64 order bytes flag off >>= f)
  unfolding u64
  bind_u64 order k = bind_kept 8 (word64 order) (omega arith) (omega arith) k

  pub bind_u32 :
      (order : Endianness)
      → IsImage bytes
      → ((a : ℕ) (flag' : Bool) → a < 2 ^ 32 → Returns Q (f (a, flag')))
      → Returns Q (u32 order bytes flag off >>= f)
  unfolding u32
  bind_u32 order image k =
      Returns-bind (λ p. p.0 < 2 ^ 32) Q (read 4 (word32 order) bytes flag off) f
        (read-Returns 4 (word32 order) bytes flag off (2 ^ 32) (omega arith) (omega arith)
          (omega arith) (word32-lt bytes image order off))
        λ (a, flag') below. k a flag' below

  pub bind_u8 :
      ((a : ℕ) (flag' : Bool) → Returns Q (f (a, flag'))) → Returns Q (u8 bytes flag off >>= f)
  unfolding u8
  bind_u8 k = elim (Bool-cases (leb (length bytes) off)) [
    | inl e ↦ rw e (k 0 false)
    | inr e ↦ let (b, at, _) = element-eq bytes off (ground arith) in rw (e, at) (k b flag)
  ]
