-- ===== src/Macho/Parse/Escapes.antt =====
-- The slice of a fat file with 64-bit offsets may be cut outside the image.
use roe.Base.{
  ℕ, zero, suc, ◌+◌, ◌*◌, ◌≤◌, ◌<◌, ◌≡◌, refl, true, false, ◌||◌, length, ltb, leb, ◌==◌, arith,
}
use roe.Base.Text.{Text}
use roe.Core.Result.{ok, aborted, reject, element-eq}
use roe.Elf.Types.{Bytes, big}
use roe.Elf.Reader.{add64, load, word64}
use roe.Macho.Parse.Words.{be32, read_be32-inside}
use roe.Macho.Parse.{
  Slice, read_slice, is_arm64, arch_loop, assign, cut_slice, is_fat64, is_fat, choose_slice,
  thin_image, open_bytes, parse_bytes,
}

-- The slice that the first architecture of a fat file with 64-bit offsets gives.
abbrev pub first_slice : Bytes → Slice
first_slice bytes = record {
  offset = word64 big (load bytes 16);
  size = word64 big (load bytes 24);
}

-- The first architecture is of 64-bit ARM, and the end of its slice is beyond 2 ^ 64, so that the sum
-- of the test is small.
pub record IsWrapped (bytes : Bytes) : Type 0 where
  pub fat64 : is_fat64 (be32 bytes 0) ≡ true
  pub some_arch : 0 < be32 bytes 4
  pub few_archs : be32 bytes 4 ≤ 64
  pub long : 40 ≤ length bytes
  pub arm64 : is_arm64 (be32 bytes 8) ≡ true
  pub nonempty : 0 < (first_slice bytes).size
  pub passes : add64 (first_slice bytes).offset (first_slice bytes).size ≤ length bytes
  pub outside : length bytes < (first_slice bytes).offset + (first_slice bytes).size

module _ (bytes : Bytes) (w : IsWrapped bytes) where
  arch_loop-first :
      (rounds : ℕ) (chosen : Slice)
      → 0 < rounds
      → arch_loop bytes true rounds 0 chosen ≡ ok (first_slice bytes)
  unfolding arch_loop read_slice
  arch_loop-first zero chosen h = absurd (omega arith)
  arch_loop-first (suc rounds) chosen h =
      let e : ltb (length bytes) (8 + 0 * 32 + 32) ≡ false = ground (arith, w.long) in
      let (b, at, _) = element-eq bytes 31 (omega (arith, w.long)) in
      rw (e, read_be32-inside bytes 8 (omega (arith, w.long)) (omega arith), at, w.arm64) refl

  cut_slice-first : cut_slice bytes (first_slice bytes) ≡ aborted
  unfolding cut_slice assign reject
  cut_slice-first =
      let s = first_slice bytes in
      let e : (s.size == 0 || ltb (length bytes) (add64 s.offset s.size)) ≡ false =
        ground (arith, w.nonempty, w.passes) in
      let f : leb (s.offset + s.size) (length bytes) ≡ false = ground (arith, w.outside) in
      rw (e, f) refl

  choose_slice-first : choose_slice bytes (be32 bytes 0) ≡ aborted
  unfolding choose_slice reject
  choose_slice-first =
      let e : (be32 bytes 4 == 0 || ltb 64 (be32 bytes 4)) ≡ false =
        ground (arith, w.some_arch, w.few_archs) in
      rw
        (
          read_be32-inside bytes 4 (omega (arith, w.long)) (omega arith),
          e,
          w.fat64,
          arch_loop-first (be32 bytes 4) (record { offset = 0; size = 0 }) w.some_arch,
        )
        cut_slice-first

  -- A fat file with 64-bit offsets makes the Mach-O parser copy bytes from outside its image, if its
  -- first architecture is of 64-bit ARM and has a slice, not empty, whose end is beyond 2 ^ 64: the sum
  -- of the offset and the size wraps around, passes the test, and the copy starts behind the image.
  pub open_bytes-escapes : (source_name : Text) → open_bytes source_name bytes ≡ aborted
  unfolding open_bytes parse_bytes thin_image reject
  open_bytes-escapes source_name =
      let long : ltb (length bytes) 4 ≡ false = ground (arith, w.long) in
      let fat : is_fat (be32 bytes 0) ≡ true = ground (arith, w.fat64) in
      rw
        (
          long,
          read_be32-inside bytes 0 (omega (arith, w.long)) (omega arith),
          fat,
          choose_slice-first,
        )
        refl
