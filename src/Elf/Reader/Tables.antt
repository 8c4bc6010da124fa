-- ===== src/Elf/Reader/Tables.antt =====
-- Positions of the entries of a table that lies inside the image.
use native.Mathlib.Nat.{div-add-mod}
use roe.Base.{ℕ, suc, ◌+◌, ◌*◌, ◌/◌, ◌^◌, ◌≤◌, ◌<◌, ◌≡◌, arith}
use roe.Elf.Reader.{add64, mul64}

pub add64-eq : (a b : ℕ) → a + b < 2 ^ 64 → add64 a b ≡ a + b
unfolding add64
add64-eq a b h = omega arith

pub mul64-eq : (a b : ℕ) → a * b < 2 ^ 64 → mul64 a b ≡ a * b
unfolding mul64
mul64-eq a b h = omega arith

-- The entries that the source counts in a table end inside it.
pub count_fits :
    (base total size image_size : ℕ)
    → base + total ≤ image_size
    → base + total / size * size ≤ image_size
count_fits base total size image_size h = omega (arith, div-add-mod total size)

product_lt : (a b : ℕ) → a < 2 ^ 32 → b < 2 ^ 16 → a * b < 2 ^ 64
product_lt a b ha hb = grind arith

-- A 32-bit count times a 16-bit size does not wrap.
pub total_size-eq :
    (count size : ℕ) → count < 2 ^ 32 → size < 2 ^ 16 → mul64 count size ≡ count * size
total_size-eq count size hc hs = mul64-eq count size (product_lt count size hc hs)

module _ (base size count image_size : ℕ) (fits : base + count * size ≤ image_size)
    (bound : image_size < 2 ^ 63) where
  entry_below : (i rounds : ℕ) → i + suc rounds ≡ count → i * size + size ≤ count * size
  entry_below i rounds e = grind arith

  -- The entry `i` of the table starts where the source computes it, and ends inside the image.
  pub entry_offset :
      (i rounds : ℕ)
      → i + suc rounds ≡ count
      → (add64 base (mul64 i size) ≡ base + i * size) × (base + i * size + size ≤ image_size)
  entry_offset i rounds e =
      let below = entry_below i rounds e in
      let product : mul64 i size ≡ i * size = mul64-eq i size (omega (arith, below)) in
      (rw product (add64-eq base (i * size) (omega (arith, below))), omega (arith, below))

  pub entry_inside :
      (i rounds : ℕ) → i + suc rounds ≡ count → add64 base (mul64 i size) + size ≤ image_size
  entry_inside i rounds e = let (eq, inside) = entry_offset i rounds e in omega arith
