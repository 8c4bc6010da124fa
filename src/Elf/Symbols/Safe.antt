-- ===== src/Elf/Symbols/Safe.antt =====
-- Symbols are read without a fault, and `file.symbols` holds the tables' symbols in their order.
use mathlib.Core.List.{append_assoc, append-nil}
use roe.Base.{
  suc, ◌+◌, ◌/◌, ◌≤◌, ◌≡◌, ◌≢◌, refl, sym, ap, ◌∙◌, Bool, true, false, ◌⊎◌, ◌||◌, List, [], ◌∷◌,
  ◌++◌, length, All, arith, ◌==◌, ltb→le, leb→lt, Bool-cases, inl, inr,
}
use roe.Core.Result.{
  ok, Returns, Returns-bind, Returns-element, Returns-weaken, bind_reject, element,
}
use roe.Elf.Types.{Bytes, IsImage, Header, RawSection, ByteRange, Symbol}
use roe.Elf.Reader.{Reader}
use roe.Elf.Reader.Tables.{count_fits}
use roe.Elf.Strings.{range_for_section, sht_nobits}
use roe.Elf.Strings.Safe.{Inside, range_for_section-Returns}
use roe.Elf.Sections.Safe.{IsReadable}
use roe.Elf.Symbols.{
  sym_size, Pushed, symbol_table, section_symbols, is_symbol_table, symbols_loop, parse_symbols,
  entry_size_or, sht_symtab, sht_dynsym,
}
use roe.Elf.Symbols.Entries.{with_equation, AreEntries, Pushes, symbol_loop-Returns}

-- The list of a section that is a symbol table: its size has room for so many symbols, each of them
-- read from its entry with the names of the table that the section links to. The symbols of a table of
-- type SHT_DYNSYM are dynamic.
pub record IsTable (r : Reader) (h : Header) (sections : List RawSection) (raw : RawSection)
    (own : List Symbol) : Type 0 where
  pub linked : RawSection
  pub linked_at : element sections raw.link ≡ ok linked
  pub strings : ByteRange
  pub strings_of : range_for_section r.bytes linked ≡ ok strings
  pub count_is : length own ≡ raw.section.size / entry_size_or raw (sym_size h.elf_class)
  pub entries_read :
      AreEntries r h strings raw.section.offset
        (entry_size_or raw (sym_size h.elf_class))
        (raw.section.type == 11)
        0
        own

-- The section is of type SHT_SYMTAB or SHT_DYNSYM.
abbrev pub has_symbols : RawSection → Bool
has_symbols raw = raw.section.type == 2 || raw.section.type == 11

-- The list of a section: that of a table, or none.
abbrev pub IsOwn : Reader → Header → List RawSection → RawSection → List Symbol → Type 0
IsOwn r h sections raw own =
    ((has_symbols raw ≡ true) × IsTable r h sections raw own)
    ⊎ ((has_symbols raw ≡ false) × (own ≡ []))

-- The symbols of a section are appended to those of the sections before it.
abbrev Appends : Reader → Header → List RawSection → RawSection → List Symbol → Pushed → Type 0
Appends r h sections raw prior p = (p.1 ≡ prior ++ p.0) × IsOwn r h sections raw p.0

symbol_table-Returns :
    (r : Reader) (h : Header) (sections : List RawSection) (raw : RawSection) (all : List Symbol)
    → IsImage r.bytes
    → All (IsReadable r.bytes) sections
    → has_symbols raw ≡ true
    → raw.section.offset + raw.section.size ≤ length r.bytes
    → Returns (Appends r h sections raw all) (symbol_table r h sections raw all)
unfolding symbol_table AreEntries
symbol_table-Returns r h sections raw all image readable is fits =
    let entry_size = entry_size_or raw (sym_size h.elf_class) in
    let count = raw.section.size / entry_size in
    let Q = Appends r h sections raw all in
    bind_reject Q _ _ _ λ large. bind_reject Q _ _ _ λ _. bind_reject Q _ _ _ λ link.
      Returns-bind (λ l. IsReadable r.bytes l × (element sections raw.link ≡ ok l)) Q
        (element sections raw.link) _
        (with_equation (IsReadable r.bytes) (element sections raw.link)
          (Returns-element (IsReadable r.bytes) sections raw.link (leb→lt _ _ link) readable))
        λ linked (_, linked_at).
          Returns-bind
            (λ t. Inside r.bytes t.data_pointer t.size × (range_for_section r.bytes linked ≡ ok t))
            Q (range_for_section r.bytes linked) _
            (with_equation (λ t. Inside r.bytes t.data_pointer t.size)
              (range_for_section r.bytes linked) (range_for_section-Returns r.bytes linked))
            λ strings (inside, strings_of). bind_reject Q _ _ _ λ _.
              Returns-weaken
                (Pushes r h strings raw.section.offset entry_size (raw.section.type == sht_dynsym)
                  all count)
                Q _
                (symbol_loop-Returns r h strings raw.section.offset entry_size count
                  (raw.section.type == sht_dynsym) image inside (ltb→le _ _ large)
                  (count_fits raw.section.offset raw.section.size entry_size (length r.bytes) fits)
                  count 0 all ([], all) (omega arith) (sym (append-nil all), refl, tt))
                λ p (joined, counted, read). (
                  joined,
                  inl (
                    is,
                    record {
                      linked = linked;
                      linked_at = linked_at;
                      strings = strings;
                      strings_of = strings_of;
                      count_is = counted;
                      entries_read = read;
                    },
                  ),
                )

section_symbols-Returns :
    (r : Reader) (h : Header) (sections : List RawSection) (raw : RawSection) (all : List Symbol)
    → IsImage r.bytes
    → All (IsReadable r.bytes) sections
    → IsReadable r.bytes raw
    → Returns (Appends r h sections raw all) (section_symbols r h sections raw all)
unfolding section_symbols is_symbol_table
section_symbols-Returns r h sections raw all image readable w =
    elim (Bool-cases (raw.section.type == sht_symtab || raw.section.type == sht_dynsym)) [
      | inl e ↦
          rw e (
            symbol_table-Returns r h sections raw all image readable e
              (w.inside (symbols-ne raw e)))
      | inr e ↦ rw e (sym (append-nil all), inr (e, refl))
    ]
  where
    symbols-ne : (raw : RawSection) → has_symbols raw ≡ true → raw.section.type ≢ sht_nobits
    symbols-ne raw e = ground arith

abbrev pub flat : List (List Symbol) → List Symbol
flat [] = []
flat (own ∷ by_section) = own ++ flat by_section

-- A list for each of the sections.
abbrev pub AreTables :
    Reader → Header → List RawSection → List RawSection → List (List Symbol) → Type 0
AreTables r h sections [] [] = Unit {0}
AreTables r h sections [] (own ∷ by_section) = ⊥
AreTables r h sections (raw ∷ raws) [] = ⊥
AreTables r h sections (raw ∷ raws) (own ∷ by_section) =
    IsOwn r h sections raw own × AreTables r h sections raws by_section

pub AreTables-length :
    (r : Reader) (h : Header) (sections raws : List RawSection) (by_section : List (List Symbol))
    → AreTables r h sections raws by_section
    → length by_section ≡ length raws
AreTables-length r h sections [] [] t = refl
AreTables-length r h sections [] (own ∷ by_section) t = absurd t
AreTables-length r h sections (raw ∷ raws) [] t = absurd t
AreTables-length r h sections (raw ∷ raws) (own ∷ by_section) t =
    ap suc (AreTables-length r h sections raws by_section t.1)

-- A list for each of the sections, and all of them behind `prior`.
abbrev pub Collects :
    Reader
    → Header
    → List RawSection
    → List RawSection
    → List Symbol
    → List (List Symbol) × List Symbol
    → Type 0
Collects r h sections raws prior p = (p.1 ≡ prior ++ flat p.0) × AreTables r h sections raws p.0

symbols_loop-Returns :
    (r : Reader) (h : Header) (sections raws : List RawSection) (all : List Symbol)
    → IsImage r.bytes
    → All (IsReadable r.bytes) sections
    → All (IsReadable r.bytes) raws
    → Returns (Collects r h sections raws all) (symbols_loop r h sections raws all)
unfolding symbols_loop
symbols_loop-Returns r h sections [] all image readable ws = (sym (append-nil all), tt)
symbols_loop-Returns r h sections (raw ∷ raws) all image readable ws =
    Returns-bind (Appends r h sections raw all) (Collects r h sections (raw ∷ raws) all)
      (section_symbols r h sections raw all) _
      (section_symbols-Returns r h sections raw all image readable ws.0)
      λ (own, all') (p, is).
        Returns-bind (Collects r h sections raws all') (Collects r h sections (raw ∷ raws) all)
          (symbols_loop r h sections raws all') _
          (symbols_loop-Returns r h sections raws all' image readable ws.1)
          λ (by_section, symbols) (q, tables). (
            q
                ∙ ap (λ (l : List Symbol). l ++ flat by_section) p
                ∙ append_assoc all own (flat by_section),
            (is, tables),
          )

-- The reader that parse_symbols makes.
abbrev pub reader_of : Bytes → Header → Reader
reader_of image h = record { bytes = image; endianness = h.endianness }

-- For an image and sections that each lie inside it unless they have no bytes, parse_symbols does not
-- abort. It returns an error, or a list of symbols for each section with their concatenation, which
-- is what it leaves in `file.symbols`.
pub parse_symbols-Returns :
    (image : Bytes) (h : Header) (sections : List RawSection)
    → IsImage image
    → All (IsReadable image) sections
    → Returns (Collects (reader_of image h) h sections sections []) (parse_symbols image h sections)
unfolding parse_symbols
parse_symbols-Returns image h sections i readable =
    symbols_loop-Returns _ h sections sections [] i readable readable
