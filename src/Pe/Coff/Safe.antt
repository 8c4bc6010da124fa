-- ===== src/Pe/Coff/Safe.antt =====
-- The COFF symbol table is read without a fault, and its loop ends by its test.
use roe.Base.{
  ℕ, zero, suc, ◌+◌, ◌-◌, ◌*◌, ◌/◌, ◌%◌, ◌^◌, ◌≤◌, ◌<◌, ◌≡◌, refl, min, Bool, true, false, ◌||◌,
  not, List, length, arith, ltb, ◌==◌, Bool-cases, inl, inr,
}
use roe.Base.Text.{Text, is_empty}
use roe.Core.Result.{element-eq, Returns, Returns-bind}
use roe.Binary.Types.{Object, Section, Symbol}
use roe.Elf.Types.{Bytes, IsImage}
use roe.Elf.Reader.{add64}
use roe.Pe.Reader.{u16, u32}
use roe.Pe.Reader.Laws.{u16-lt, u32-lt, fixed_string-Returns}
use roe.Pe.Exports.{max_parsed_symbols}
use roe.Pe.Coff.{
  Entry, read_entry, export_index, is_function, coff_name, place, visit_entry, coff_loop,
  read_symbols, parse_coff_symbols,
}
use roe.Pe.Coff.Merged.{IsMerged, IsMerged-refl, IsMerged-weaken, merge-Returns}

is_function-lt :
    (sections : List Section) (e : Entry)
    → is_function sections e ≡ true
    → e.secnum - 1 < length sections
unfolding is_function
is_function-lt sections e h = ground arith

-- The object is the one that was, but for its symbols, which are merged, and for the mark of a
-- stripped file.
pub record IsCoffObject (o o' : Object) : Type 0 where
  pub sections_kept : o'.sections ≡ o.sections
  pub segments_kept : o'.segments ≡ o.segments
  pub libraries_kept : o'.libraries ≡ o.libraries
  pub entry_kept : o'.entry ≡ o.entry
  pub merged : IsMerged o.symbols (length o.sections) max_parsed_symbols o'.symbols

module _ (bytes : Bytes) (image : IsImage bytes) where
  read_entry-Returns :
      (flag : Bool) (off : ℕ) → off < 2 ^ 40 → Returns (λ _. Unit {0}) (read_entry bytes flag off)
  read_entry-Returns flag off h =
      Returns-bind (λ p. p.0 < 2 ^ 32) (λ _. Unit {0}) (u32 bytes flag off) _
        (u32-lt bytes image flag off (omega arith))
        λ (name_inline, flag1) _.
          Returns-bind (λ p. p.0 < 2 ^ 32) (λ _. Unit {0}) (u32 bytes flag1 (off + 8)) _
            (u32-lt bytes image flag1 (off + 8) (omega arith))
            λ (value, flag2) _.
              Returns-bind (λ p. p.0 < 2 ^ 16) (λ _. Unit {0}) (u16 bytes flag2 (off + 12)) _
                (u16-lt bytes image flag2 (off + 12) (omega arith))
                λ (secnum, flag3) _.
                  Returns-bind (λ p. p.0 < 2 ^ 16) (λ _. Unit {0}) (u16 bytes flag3 (off + 14)) _
                    (u16-lt bytes image flag3 (off + 14) (omega arith))
                    λ (type, flag4) _.
                      Returns-bind (λ p. p.0 < 2 ^ 16) (λ _. Unit {0}) (u16 bytes flag4 (off + 16))
                        _ (u16-lt bytes image flag4 (off + 16) (omega arith)) λ _ _. tt

  coff_name-Returns :
      (flag : Bool) (off strtab name_inline : ℕ)
      → off < 2 ^ 40
      → Returns (λ _. Unit {0}) (coff_name bytes flag off strtab name_inline)
  coff_name-Returns flag off strtab name_inline h = elim (Bool-cases (name_inline == 0)) [
    | inl e ↦ rw e (
        Returns-bind (λ p. p.0 < 2 ^ 32) (λ _. Unit {0}) (u32 bytes flag (off + 4)) _
          (u32-lt bytes image flag (off + 4) (omega arith)) λ _ _. tt)
    | inr e ↦ rw e (fixed_string-Returns bytes flag off 8 (omega arith))
  ]

  module _ (index : ℕ) (sections : List Section) (symbols : List Symbol) where
    abbrev Merged : ℕ → List Symbol × Bool → Type 0
    Merged m p = IsMerged symbols (length sections) m p.0

    place-Returns :
        (m : ℕ) (e : Entry) (name : Text) (symbols' : List Symbol)
        → e.secnum - 1 < length sections
        → IsMerged symbols (length sections) m symbols'
        → Returns
            (IsMerged symbols (length sections) (suc m))
            (place index sections (export_index 0 symbols) e name symbols')
    unfolding place
    place-Returns m e name symbols' inside r = elim (Bool-cases (is_empty name)) [
      | inl f ↦ rw f (IsMerged-weaken symbols _ m (suc m) symbols' (omega arith) r)
      | inr f ↦
          let (section, at, _) = element-eq sections (e.secnum - 1) inside in
          rw (f, at)
            (merge-Returns symbols (length sections) m symbols' r index name
              (add64 section.address e.value) (e.secnum - 1) e.class_aux f inside)
    ]

    visit_entry-Returns :
        (m strtab off : ℕ) (e : Entry) (flag : Bool) (symbols' : List Symbol)
        → off < 2 ^ 40
        → IsMerged symbols (length sections) m symbols'
        → Returns
            (Merged (suc m))
            (visit_entry bytes index sections strtab (export_index 0 symbols) off e flag symbols')
    unfolding visit_entry
    visit_entry-Returns m strtab off e flag symbols' h r =
        elim (Bool-cases (is_function sections e)) [
          | inl f ↦ rw f (
              Returns-bind (λ _. Unit {0}) (Merged (suc m))
                (coff_name bytes flag off strtab e.name_inline) _
                (coff_name-Returns flag off strtab e.name_inline h)
                λ (name, flag') _.
                  Returns-bind (IsMerged symbols (length sections) (suc m)) (Merged (suc m))
                    (place index sections (export_index 0 symbols) e name symbols') _
                    (place-Returns m e name symbols' (is_function-lt sections e f) r) λ _ r'. r')
          | inr f ↦ rw f (IsMerged-weaken symbols _ m (suc m) symbols' (omega arith) r)
        ]

    coff_loop-Returns :
        (symtab strtab count rounds i m : ℕ) (flag : Bool) (symbols' : List Symbol)
        → symtab < 2 ^ 32
        → count ≤ max_parsed_symbols
        → count ≤ i + rounds
        → m ≤ i
        → m ≤ count
        → IsMerged symbols (length sections) m symbols'
        → Returns (Merged count) (
            coff_loop bytes index sections symtab strtab
              (export_index 0 symbols)
              count
              rounds
              i
              flag
              symbols')
    unfolding coff_loop
    coff_loop-Returns symtab strtab count zero i m flag symbols' near few fuel low most r =
        let done : ltb i count ≡ false = ground arith in
        rw done (IsMerged-weaken symbols _ m count symbols' most r)
    coff_loop-Returns symtab strtab count (suc rounds) i m flag symbols' near few fuel low most r =
        elim (Bool-cases (ltb i count)) [
          | inl f ↦
              let below : i < count = ground arith in
              rw f (
                Returns-bind (λ _. Unit {0}) (Merged count)
                  (read_entry bytes flag (symtab + i * 18)) _
                  (read_entry-Returns flag (symtab + i * 18) (omega arith))
                  λ (e, flag') _. elim (Bool-cases flag') [
                    | inl g ↦ rw g (
                        Returns-bind (Merged (suc m)) (Merged count) _ _
                          (visit_entry-Returns m strtab (symtab + i * 18) e true symbols'
                            (omega arith) r)
                          λ (symbols'', flag'') r'.
                            coff_loop-Returns symtab strtab count rounds
                              (i + (1 + e.class_aux / 256 % 256)) (suc m) flag'' symbols'' near few
                              (omega arith) (omega arith) (omega arith) r')
                    | inr g ↦ rw g (IsMerged-weaken symbols _ m count symbols' most r)
                  ])
          | inr f ↦ rw f (IsMerged-weaken symbols _ m count symbols' most r)
        ]

  read_symbols-Returns :
      (symtab count : ℕ) (flag : Bool) (o : Object)
      → symtab < 2 ^ 32
      → count ≤ max_parsed_symbols
      → Returns (λ p. IsCoffObject o p.0) (read_symbols bytes symtab count flag o)
  read_symbols-Returns symtab count flag o near few =
      Returns-bind (λ p. IsMerged o.symbols (length o.sections) count p.0) (λ p. IsCoffObject o p.0)
        _ _
        (coff_loop-Returns o.index o.sections o.symbols symtab (symtab + count * 18) count count 0 0
          flag o.symbols near few (omega arith) (omega arith) (omega arith)
          (IsMerged-refl o.symbols (length o.sections)))
        λ (symbols, flag') r. record {
          sections_kept = refl;
          segments_kept = refl;
          libraries_kept = refl;
          entry_kept = refl;
          merged = IsMerged-weaken o.symbols _ count max_parsed_symbols symbols few r;
        }

  stripped-IsCoffObject : (o : Object) → IsCoffObject o (record o { stripped = true })
  stripped-IsCoffObject o = record {
    sections_kept = refl;
    segments_kept = refl;
    libraries_kept = refl;
    entry_kept = refl;
    merged =
        IsMerged-weaken o.symbols _ 0 max_parsed_symbols o.symbols (omega arith)
          (IsMerged-refl o.symbols (length o.sections));
  }

  -- On an image, parse_coff_symbols returns: it does not read outside the image, a section or a symbol
  -- of the object, whatever the symbol table says, and its loop ends. The object's symbols stay in
  -- their places, unchanged but for exports without an address, which may get an address and a section.
  -- At most 65536 symbols are added behind them, each a defined function with a name that no export
  -- has, in a section of the object.
  pub parse_coff_symbols-Returns :
      (coff : ℕ) (flag : Bool) (o : Object)
      → coff < 2 ^ 62
      → Returns (λ p. IsCoffObject o p.0) (parse_coff_symbols bytes coff flag o)
  unfolding parse_coff_symbols
  parse_coff_symbols-Returns coff flag o h =
      Returns-bind (λ p. p.0 < 2 ^ 32) (λ p. IsCoffObject o p.0) (u32 bytes flag (coff + 8)) _
        (u32-lt bytes image flag (coff + 8) (omega arith))
        λ (sym_ptr, flag1) near.
          Returns-bind (λ p. p.0 < 2 ^ 32) (λ p. IsCoffObject o p.0) (u32 bytes flag1 (coff + 12)) _
            (u32-lt bytes image flag1 (coff + 12) (omega arith))
            λ (raw_count, flag2) _.
              elim (Bool-cases (
                (not flag2 || (sym_ptr == 0 || raw_count == 0))
                || ltb (length bytes) (sym_ptr + min raw_count max_parsed_symbols * 18))) [
                  | inl e ↦ rw e (stripped-IsCoffObject o)
                  | inr e ↦ rw e (
                      read_symbols-Returns sym_ptr (min raw_count max_parsed_symbols) flag2 o near
                        (omega arith))
                ]
