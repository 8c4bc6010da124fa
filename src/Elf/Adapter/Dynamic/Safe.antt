-- ===== src/Elf/Adapter/Dynamic/Safe.antt =====
-- The dynamic section is read without a fault.
use roe.Base.{
  ℕ, zero, suc, ◌+◌, ◌-◌, ◌*◌, ◌/◌, ◌≤◌, ◌<◌, ◌≡◌, refl, ◌&&◌, Option, none, some, List, [], length,
  map, arith, ltb, ◌==◌, Bool-cases, inl, inr, if◌then◌else◌,
}
use roe.Base.Text.{Text}
use roe.Core.Result.{ok, value, element-eq, Returns, Returns-bind}
use roe.Binary.Types
use roe.Elf.Types.{Bytes, Class, elf32, elf64, IsImage, File, Section}
use roe.Elf.Reader.{Reader, add64, mul64, range_within, i32, i64}
use roe.Elf.Reader.Bounds.{bind_u32, bind_u64, reach, range_within-le}
use roe.Elf.Reader.Tables.{add64-eq, count_fits, entry_inside}
use roe.Elf.Relocations.Safe.{value-i32, value-i64}
use roe.Elf.Adapter.Dynamic.{
  entry_size, read_dynamic, library_name, add_library, visit_entry, needed_loop, libraries_of,
  populate_dynamic, mapped_segment,
}

read_dynamic-Returns :
    (class : Class) (r : Reader) (offset : ℕ)
    → IsImage r.bytes
    → offset + entry_size class ≤ length r.bytes
    → Returns (λ _. Unit {0}) (read_dynamic class r offset)
unfolding read_dynamic
read_dynamic-Returns elf64 r offset image fits =
    Returns-bind (λ _. Unit {0}) (λ _. Unit {0}) (value (i64 r offset)) _
      (value-i64 r offset image (omega arith))
      λ _ _.
        bind_u64 r image (λ _. Unit {0}) (add64 offset 8) _ (reach r image offset 8 8 (omega arith))
          λ _ _. tt
read_dynamic-Returns elf32 r offset image fits =
    Returns-bind (λ _. Unit {0}) (λ _. Unit {0}) (value (i32 r offset)) _
      (value-i32 r offset image (omega arith))
      λ _ _.
        bind_u32 r image (λ _. Unit {0}) (add64 offset 4) _ (reach r image offset 4 4 (omega arith))
          λ _ _. tt

library_name-Returns :
    (image : Bytes) (rounds p : ℕ)
    → p + rounds ≤ length image
    → Returns (λ _. Unit {0}) (library_name image rounds p)
unfolding library_name
library_name-Returns image zero p fits = tt
library_name-Returns image (suc rounds) p fits =
    let (b, at, _) = element-eq image p (omega arith) in
    let rest = library_name-Returns image rounds (p + 1) (omega arith) in
    rw at (elim (Bool-cases (b == 0)) [
      | inl e ↦ rw e tt
      | inr e ↦ rw e (
          Returns-bind (λ _. Unit {0}) (λ _. Unit {0}) (library_name image rounds (p + 1)) _ rest
            λ _ _. tt)
    ])

module _ (image : Bytes) (i : IsImage image) (dynstr : Section)
    (strings : dynstr.offset + dynstr.size ≤ length image) where
  visit_entry-Returns :
      (tag v : ℕ) (libraries : List Text)
      → Returns (λ _. Unit {0}) (visit_entry image dynstr tag v libraries)
  unfolding visit_entry add_library
  visit_entry-Returns tag v libraries = elim (Bool-cases (tag == 1 && ltb v dynstr.size)) [
    | inl e ↦
        let below : v < dynstr.size = ground arith in
        let start = add64-eq dynstr.offset v (omega (arith, i.size_bound)) in
        let end = add64-eq dynstr.offset dynstr.size (omega (arith, i.size_bound)) in
        rw (e, start, end)
          (Returns-bind (λ _. Unit {0}) (λ _. Unit {0})
            (library_name image (dynstr.offset + dynstr.size - (dynstr.offset + v))
              (dynstr.offset + v))
            _ (library_name-Returns image _ _ (omega arith)) λ _ _. tt)
    | inr e ↦ rw e tt
  ]

module _ (class : Class) (r : Reader) (image : IsImage r.bytes) (dynamic dynstr : Section)
    (count : ℕ) (table : dynamic.offset + count * entry_size class ≤ length r.bytes)
    (strings : dynstr.offset + dynstr.size ≤ length r.bytes) where
  needed_loop-Returns :
      (rounds i : ℕ) (libraries : List Text)
      → i + rounds ≡ count
      → Returns (λ _. Unit {0}) (needed_loop class r dynamic dynstr rounds i libraries)
  unfolding needed_loop
  needed_loop-Returns zero i libraries e = tt
  needed_loop-Returns (suc rounds) i libraries e =
      Returns-bind (λ _. Unit {0}) (λ _. Unit {0})
        (read_dynamic class r (add64 dynamic.offset (mul64 i (entry_size class)))) _
        (read_dynamic-Returns class r (add64 dynamic.offset (mul64 i (entry_size class))) image (
          entry_inside dynamic.offset (entry_size class) count (length r.bytes) table
            image.size_bound i rounds e))
        λ (tag, v) _.
          Returns-bind (λ _. Unit {0}) (λ _. Unit {0}) (visit_entry r.bytes dynstr tag v libraries)
            _ (visit_entry-Returns r.bytes image dynstr strings tag v libraries)
            λ libraries' _.
              next tag libraries libraries'
                (needed_loop-Returns rounds (i + 1) libraries' (omega arith))
    where
      next :
          (tag : ℕ) (now later : List Text)
          → Returns (λ _. Unit {0}) (needed_loop class r dynamic dynstr rounds (i + 1) later)
          → Returns
              (λ _. Unit {0})
              (if tag == 0 then ok now else needed_loop class r dynamic dynstr rounds (i + 1) later)
      next tag now later h = elim (Bool-cases (tag == 0)) [ inl z ↦ rw z tt | inr z ↦ rw z h ]

libraries_of-Returns :
    (file : File) (dynamic dynstr : Option Section)
    → IsImage file.image
    → Returns (λ _. Unit {0}) (libraries_of file dynamic dynstr)
unfolding libraries_of
libraries_of-Returns file none dynstr i = tt
libraries_of-Returns file (some dynamic) none i = tt
libraries_of-Returns file (some dynamic) (some dynstr) i =
    elim (Bool-cases (range_within dynamic.offset dynamic.size (length file.image))) [
      | inl d ↦ elim (Bool-cases (range_within dynstr.offset dynstr.size (length file.image))) [
        | inl s ↦
            rw (d, s)
              (needed_loop-Returns file.elf_class
                (record { bytes = file.image; endianness = file.endianness }) i dynamic dynstr
                (dynamic.size / entry_size file.elf_class)
                (count_fits dynamic.offset dynamic.size (entry_size file.elf_class)
                  (length file.image)
                  (range_within-le dynamic.offset dynamic.size (length file.image) d))
                (range_within-le dynstr.offset dynstr.size (length file.image) s)
                (dynamic.size / entry_size file.elf_class) 0 [] (omega arith))
        | inr s ↦ rw (d, s) tt
      ]
      | inr d ↦ rw d tt
    ]

-- The segments of the object are the file's.
abbrev pub HasSegments : File → List Types.Segment × List Text → Type 0
HasSegments file p = p.0 ≡ map mapped_segment file.segments

pub populate_dynamic-Returns :
    (file : File) → IsImage file.image → Returns (HasSegments file) (populate_dynamic file)
unfolding populate_dynamic
populate_dynamic-Returns file i =
    Returns-bind (λ _. Unit {0}) (HasSegments file) (libraries_of file _ _) _
      (libraries_of-Returns file _ _ i) λ _ _. refl
