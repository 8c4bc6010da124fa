-- ===== src/Elf/Relocations/Safe.antt =====
-- Relocations are read without a fault, and each names the symbol that its index selects.
use roe.Base.{
  ℕ, zero, suc, ◌+◌, ◌*◌, ◌/◌, ◌^◌, ◌≤◌, ◌<◌, ◌≡◌, ◌≢◌, refl, Bool, true, false, not, ◌&&◌, List,
  [], ◌∷◌, ◌++◌, length, get_elem?, some, All, All-append, arith, ◌==◌, ◌⊎◌, ltb, leb, ltb→lt,
  ltb→le, leb→lt, Bool-cases, inl, inr,
}
use roe.Base.Text.{Text}
use roe.Core.Result.{value, Returns, Returns-bind, Returns-weaken, element-eq, bind_reject}
use roe.Elf.Types.{Bytes, Class, elf32, elf64, IsImage, Header, RawSection, Symbol, Relocation}
use roe.Elf.Reader.{Reader, add64, mul64, u64, i32, i64}
use roe.Elf.Reader.Bounds.{bind_u32, bind_u64, value-u64, u32-ok, reach}
use roe.Elf.Reader.Tables.{count_fits, entry_inside}
use roe.Elf.Strings.{sht_nobits}
use roe.Elf.Sections.Safe.{IsReadable}
use roe.Elf.Symbols.{entry_size_or}
use roe.Elf.Relocations.{
  reloc_size, read_addend, read_relocation, symbol_name, parse_relocation, relocation_loop,
  relocation_table, is_relocation_table, section_relocations, relocations_loop, parse_relocations,
  sht_rela,
}

pub value-i32 :
    (r : Reader) (offset : ℕ)
    → IsImage r.bytes
    → offset + 4 ≤ length r.bytes
    → Returns (λ _. Unit {0}) (value (i32 r offset))
unfolding i32 value
value-i32 r offset image fits = rw (u32-ok r image offset fits) tt

pub value-i64 :
    (r : Reader) (offset : ℕ)
    → IsImage r.bytes
    → offset + 8 ≤ length r.bytes
    → Returns (λ _. Unit {0}) (value (i64 r offset))
unfolding i64
value-i64 r offset image fits =
    Returns-weaken (λ v. v < 2 ^ 64) (λ _. Unit {0}) (value (u64 r offset))
      (value-u64 r image offset fits) λ _ _. tt

read_addend-Returns :
    (class : Class) (r : Reader) (offset : ℕ) (has_addend : Bool)
    → IsImage r.bytes
    → offset + reloc_size class has_addend ≤ length r.bytes
    → Returns (λ _. Unit {0}) (read_addend class r offset has_addend)
unfolding read_addend
read_addend-Returns class r offset false image fits = tt
read_addend-Returns elf64 r offset true image fits =
    value-i64 r (add64 offset 16) image (reach r image offset 16 8 (omega arith))
read_addend-Returns elf32 r offset true image fits =
    value-i32 r (add64 offset 8) image (reach r image offset 8 4 (omega arith))

reloc_size_min :
    (class : Class) (has_addend : Bool) → reloc_size class false ≤ reloc_size class has_addend
reloc_size_min elf64 true = omega arith
reloc_size_min elf64 false = omega arith
reloc_size_min elf32 true = omega arith
reloc_size_min elf32 false = omega arith

read_relocation-Returns :
    (class : Class) (r : Reader) (offset : ℕ) (has_addend : Bool)
    → IsImage r.bytes
    → offset + reloc_size class has_addend ≤ length r.bytes
    → Returns (λ _. Unit {0}) (read_relocation class r offset has_addend)
unfolding read_relocation
read_relocation-Returns elf64 r offset has_addend image fits =
    bind_u64 r image (λ _. Unit {0}) offset _ (omega (arith, reloc_size_min elf64 has_addend))
      λ _ _.
        bind_u64 r image (λ _. Unit {0}) (add64 offset 8) _
          (reach r image offset 8 8 (omega (arith, reloc_size_min elf64 has_addend)))
          λ _ _.
            Returns-bind (λ _. Unit {0}) (λ _. Unit {0}) (read_addend elf64 r offset has_addend) _
              (read_addend-Returns elf64 r offset has_addend image fits) λ _ _. tt
read_relocation-Returns elf32 r offset has_addend image fits =
    bind_u32 r image (λ _. Unit {0}) offset _ (omega (arith, reloc_size_min elf32 has_addend))
      λ _ _.
        bind_u32 r image (λ _. Unit {0}) (add64 offset 4) _
          (reach r image offset 4 4 (omega (arith, reloc_size_min elf32 has_addend)))
          λ _ _.
            Returns-bind (λ _. Unit {0}) (λ _. Unit {0}) (read_addend elf32 r offset has_addend) _
              (read_addend-Returns elf32 r offset has_addend image fits) λ _ _. tt

-- The name of a relocation is that of the symbol at its index. Only the index 0 may be outside the
-- table, and the name is empty then.
abbrev pub Names : List Symbol → ℕ → Text → Type 0
Names symbols index name =
    ((s : Symbol) × (get_elem? symbols index ≡ some s) × (name ≡ s.name))
    ⊎ ((index ≡ 0) × (length symbols ≡ 0) × (name ≡ []))

symbol_name-Returns :
    (symbols : List Symbol) (index : ℕ)
    → (not (index == 0) && leb (length symbols) index) ≡ false
    → Returns (Names symbols index) (symbol_name symbols index)
unfolding symbol_name
symbol_name-Returns symbols index valid = elim (Bool-cases (ltb index (length symbols))) [
  | inl e ↦
      let (s, at, get) = element-eq symbols index (ltb→lt _ _ e) in rw (e, at) (inl (s, get, refl))
  | inr e ↦ rw e (inr (ground arith, ground arith, refl))
]

-- Some symbol table of the file gives the relocation its name.
abbrev pub IsResolved : List (List Symbol) → Relocation → Type 0
IsResolved by_section rel =
    (link : ℕ) × (symbols : List Symbol) × (get_elem? by_section link ≡ some symbols)
    × Names symbols rel.symbol_index rel.symbol_name

parse_relocation-Returns :
    (r : Reader) (h : Header) (raw : RawSection) (has_addend : Bool) (symbols : List Symbol)
    (offset : ℕ)
    → IsImage r.bytes
    → offset + reloc_size h.elf_class has_addend ≤ length r.bytes
    → Returns
        (λ rel. Names symbols rel.symbol_index rel.symbol_name)
        (parse_relocation r h raw has_addend symbols offset)
unfolding parse_relocation
parse_relocation-Returns r h raw has_addend symbols offset image fits =
    Returns-bind (λ _. Unit {0}) (λ rel. Names symbols rel.symbol_index rel.symbol_name)
      (read_relocation h.elf_class r offset has_addend) _
      (read_relocation-Returns h.elf_class r offset has_addend image fits)
      λ entry _.
        bind_reject (λ rel. Names symbols rel.symbol_index rel.symbol_name) _ _ _
          λ valid.
            Returns-bind (Names symbols entry.symbol_index)
              (λ rel. Names symbols rel.symbol_index rel.symbol_name)
              (symbol_name symbols entry.symbol_index) _
              (symbol_name-Returns symbols entry.symbol_index valid) λ name n. n

module _ (r : Reader) (h : Header) (raw : RawSection) (has_addend : Bool)
    (by_section : List (List Symbol)) (link : ℕ) (symbols : List Symbol)
    (linked : get_elem? by_section link ≡ some symbols) (entry_size count : ℕ)
    (image : IsImage r.bytes) (entries : reloc_size h.elf_class has_addend ≤ entry_size)
    (table : raw.section.offset + count * entry_size ≤ length r.bytes) where
  relocation_loop-Returns :
      (rounds entry : ℕ) (all : List Relocation)
      → entry + rounds ≡ count
      → All (IsResolved by_section) all
      → Returns
          (All (IsResolved by_section))
          (relocation_loop r h raw has_addend symbols entry_size rounds entry all)
  unfolding relocation_loop
  relocation_loop-Returns zero entry all e resolved = resolved
  relocation_loop-Returns (suc rounds) entry all e resolved =
      let fits =
        entry_inside raw.section.offset entry_size count (length r.bytes) table image.size_bound
          entry rounds e in
      Returns-bind (λ rel. Names symbols rel.symbol_index rel.symbol_name)
        (All (IsResolved by_section))
        (parse_relocation r h raw has_addend symbols
          (add64 raw.section.offset (mul64 entry entry_size)))
        _
        (parse_relocation-Returns r h raw has_addend symbols
          (add64 raw.section.offset (mul64 entry entry_size)) image (omega (arith, fits)))
        λ rel names. relocation_loop-Returns rounds (entry + 1) (all ++ (rel ∷ [])) (omega arith) (
          All-append (IsResolved by_section) all (rel ∷ []) resolved
            ((link, symbols, linked, names), tt))

relocation_table-Returns :
    (r : Reader) (h : Header) (sections : List RawSection) (by_section : List (List Symbol))
    (raw : RawSection) (all : List Relocation)
    → IsImage r.bytes
    → raw.section.offset + raw.section.size ≤ length r.bytes
    → All (IsResolved by_section) all
    → Returns (All (IsResolved by_section)) (relocation_table r h sections by_section raw all)
unfolding relocation_table
relocation_table-Returns r h sections by_section raw all image fits resolved =
    let has_addend = raw.section.type == sht_rela in
    let entry_size = entry_size_or raw (reloc_size h.elf_class has_addend) in
    let count = raw.section.size / entry_size in
    bind_reject (All (IsResolved by_section)) _ _ _ λ _.
      bind_reject (All (IsResolved by_section)) _ _ _ λ available.
        bind_reject (All (IsResolved by_section)) _ _ _ λ large.
          bind_reject (All (IsResolved by_section)) _ _ _ λ _.
            let (symbols, at, get) = element-eq by_section raw.link (leb→lt _ _ available) in
            rw at (
              relocation_loop-Returns r h raw has_addend by_section raw.link symbols get entry_size
                count image (ltb→le _ _ large)
                (count_fits raw.section.offset raw.section.size entry_size (length r.bytes) fits)
                count 0 all (omega arith) resolved)

is_relocation_table-ne :
    (raw : RawSection) → is_relocation_table raw ≡ true → raw.section.type ≢ sht_nobits
unfolding is_relocation_table
is_relocation_table-ne raw e = ground arith

section_relocations-Returns :
    (r : Reader) (h : Header) (sections : List RawSection) (by_section : List (List Symbol))
    (raw : RawSection) (all : List Relocation)
    → IsImage r.bytes
    → IsReadable r.bytes raw
    → All (IsResolved by_section) all
    → Returns (All (IsResolved by_section)) (section_relocations r h sections by_section raw all)
unfolding section_relocations
section_relocations-Returns r h sections by_section raw all image w resolved =
    elim (Bool-cases (is_relocation_table raw)) [
      | inl e ↦ rw e (
          relocation_table-Returns r h sections by_section raw all image
            (w.inside (is_relocation_table-ne raw e)) resolved)
      | inr e ↦ rw e resolved
    ]

relocations_loop-Returns :
    (r : Reader) (h : Header) (sections : List RawSection) (by_section : List (List Symbol))
    (raws : List RawSection) (all : List Relocation)
    → IsImage r.bytes
    → All (IsReadable r.bytes) raws
    → All (IsResolved by_section) all
    → Returns (All (IsResolved by_section)) (relocations_loop r h sections by_section raws all)
unfolding relocations_loop
relocations_loop-Returns r h sections by_section [] all image ws resolved = resolved
relocations_loop-Returns r h sections by_section (raw ∷ raws) all image ws resolved =
    Returns-bind (All (IsResolved by_section)) (All (IsResolved by_section))
      (section_relocations r h sections by_section raw all) _
      (section_relocations-Returns r h sections by_section raw all image ws.0 resolved)
      λ all' more. relocations_loop-Returns r h sections by_section raws all' image ws.1 more

-- For an image and sections that each lie inside it unless they have no bytes, and any symbols for
-- them, parse_relocations does not abort. It returns an error, or relocations of which each names the
-- symbol that its index selects in one of the lists of symbols, or has index zero and no name where
-- that list is empty.
pub parse_relocations-Returns :
    (image : Bytes) (h : Header) (sections : List RawSection) (by_section : List (List Symbol))
    → IsImage image
    → All (IsReadable image) sections
    → Returns (All (IsResolved by_section)) (parse_relocations image h sections by_section)
unfolding parse_relocations
parse_relocations-Returns image h sections by_section i readable =
    relocations_loop-Returns _ h sections by_section sections [] i readable tt
