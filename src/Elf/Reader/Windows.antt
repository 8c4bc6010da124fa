-- ===== src/Elf/Reader/Windows.antt =====
-- Bytes and ranges inside the image are read without a fault.
use roe.Base.{
  ℕ, ◌+◌, ◌-◌, ◌≤◌, ◌<◌, ◌≡◌, refl, length, get_or, take, drop, arith, zero, suc, [], ◌∷◌, le→leb,
}
use roe.Core.Result.{ok, element}
use roe.Elf.Types.{Bytes}
use roe.Elf.Reader.{load, window, slice}

pub element-ok : (xs : Bytes) (i : ℕ) → i < length xs → element xs i ≡ ok (get_or xs i 0)
unfolding element
element-ok [] i h = elim h [ ]
element-ok (x ∷ xs) zero h = refl
element-ok (x ∷ xs) (suc i) h = element-ok xs i (omega arith)

pub window-ok :
    (bytes : Bytes) (start n : ℕ)
    → 0 < n
    → start + n ≤ length bytes
    → window bytes start n ≡ ok (load bytes start)
unfolding window
window-ok bytes start n pos fits = rw (element-ok bytes (start + (n - 1)) (omega arith)) refl

pub slice-ok :
    (bytes : Bytes) (offset size : ℕ)
    → offset + size ≤ length bytes
    → slice bytes offset size ≡ ok (take size (drop offset bytes))
unfolding slice
slice-ok bytes offset size fits = rw (le→leb _ _ fits) refl
