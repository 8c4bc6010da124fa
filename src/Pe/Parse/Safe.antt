-- ===== src/Pe/Parse/Safe.antt =====
-- A PE image is parsed without a fault.
use roe.Base.{
  ℕ, ◌+◌, ◌*◌, ◌^◌, ◌≤◌, ◌<◌, ◌≡◌, refl, ap, Bool, true, false, ◌||◌, not, List, [], ◌∷◌, length,
  length-append, min, arith, ltb, ◌==◌, Bool-cases, inl, inr, if◌then◌else◌,
}
use roe.Base.Text.{Text}
use roe.Core.Result.{reject, element-eq, Returns, Returns-bind, bind_reject, Returns-weaken}
use roe.Binary.Types.{Object, Symbol, Section, Segment}
use roe.Elf.Types.{Bytes, IsImage}
use roe.Pe.Reader.Laws.{bind_u16, bind_u32, u32-Returns, u64-Returns}
use roe.Pe.Exports.{max_parsed_symbols}
use roe.Pe.Exports.Safe.{Extends, parse_exports-Returns}
use roe.Pe.Imports.Bounded.{IsBounded}
use roe.Pe.Imports.Safe.{parse_imports-Returns}
use roe.Pe.Coff.Merged.{IsMerged-length}
use roe.Pe.Coff.Safe.{IsCoffObject, parse_coff_symbols-Returns}
use roe.Pe.Layout.Safe.{
  Placed, ArePlaced-length, ArePlaced-words, section_loop-Returns, HasDirectories,
  directory_loop-Returns,
}
use roe.Pe.Parse.{
  File, Header, bad_signature, bad_magic, bad_count, check_stub, check_signature, read_base,
  read_header, pe_object, read_tables, parse_bytes, PeBinaryFile, open_bytes,
}

-- The fields of the header that place the tables.
pub record IsHeader (h : Header) : Type 0 where
  pub coff_word : h.coff < 2 ^ 32
  pub opt_size_word : h.opt_size < 2 ^ 16
  pub sections_few : h.num_sections ≤ 4096

-- The limits on what an object of a PE file holds.
pub record IsLimited (o : Object) : Type 0 where
  pub sections_few : length o.sections ≤ 4096
  pub segments_few : length o.segments ≤ 16
  pub symbols_few : length o.symbols ≤ 3 * max_parsed_symbols

-- What the parser promises of its result: the image is the one that was given, and its view has one
-- object, which keeps the limits.
abbrev pub IsParsed : Bytes → File → Type 0
IsParsed bytes f = (f.image ≡ bytes) × (o : Object) × (f.view.objects ≡ o ∷ []) × IsLimited o

-- What an opened file promises.
abbrev pub IsOpened : Bytes → PeBinaryFile → Type 0
IsOpened bytes b = (b.image ≡ bytes) × (o : Object) × (b.view.objects ≡ o ∷ []) × IsLimited o

module _ (bytes : Bytes) (image : IsImage bytes) where
  pub check_stub-Returns : Returns (λ _. Unit {0}) (check_stub bytes)
  unfolding check_stub reject
  check_stub-Returns = elim (Bool-cases (ltb (length bytes) 0x40)) [
    | inl e ↦ rw e tt
    | inr e ↦
        let (m, at_m, _) = element-eq bytes 0 (ground arith) in
        let (z, at_z, _) = element-eq bytes 1 (ground arith) in
        rw (e, at_m, at_z)
          (elim (Bool-cases (not (m == b'M') || not (z == b'Z'))) [
            | inl t ↦ rw t tt
            | inr t ↦ rw t tt
          ])
  ]

  check_signature-Returns : Returns (λ p. p.0 < 2 ^ 32) (check_signature bytes)
  unfolding check_signature
  check_signature-Returns = bind_u32 bytes image _ true 0x3c _ (omega arith) λ pe_off flag1 near.
      bind_reject _ _ bad_signature _ λ _.
        bind_u32 bytes image _ flag1 pe_off _ (omega arith)
          λ signature flag2 _. bind_reject _ _ bad_signature _ λ _. near

  pub read_base-Returns :
      (pe32_plus : Bool) (opt : ℕ) (flag : Bool)
      → opt < 2 ^ 40
      → Returns (λ _. Unit {0}) (read_base bytes pe32_plus opt flag)
  read_base-Returns true opt flag h = u64-Returns bytes image flag (opt + 24) (omega arith)
  read_base-Returns false opt flag h = u32-Returns bytes image flag (opt + 28) (omega arith)

  dirs_lt : (wide : Bool) (opt : ℕ) → opt < 2 ^ 40 → opt + (if wide then 108 else 92) < 2 ^ 63
  dirs_lt wide opt h = ground arith

  read_header-Returns :
      (pe_off : ℕ) (flag : Bool) → Returns (λ p. IsHeader p.0) (read_header bytes pe_off flag)
  unfolding read_header
  read_header-Returns pe_off flag = bind_u16 bytes image _ flag _ _ (omega arith) λ machine flag1 _.
      bind_u16 bytes image _ flag1 _ _ (omega arith) λ num_sections flag2 _.
        bind_u16 bytes image _ flag2 _ _ (omega arith) λ opt_size flag3 small.
          bind_u16 bytes image _ flag3 _ _ (omega arith) λ characteristics flag4 _.
            bind_u16 bytes image _ flag4 _ _ (omega arith) λ opt_magic flag5 _.
              bind_reject _ _ bad_magic _ λ _.
                bind_u32 bytes image _ flag5 _ _ (omega arith) λ entry_rva flag6 _.
                  Returns-bind (λ _. Unit {0}) _ (read_base bytes (opt_magic == 0x020b) _ flag6) _
                    (read_base-Returns (opt_magic == 0x020b) _ flag6 (omega arith))
                    λ (image_base, flag7) _.
                      bind_u32 bytes image _ flag7 _ _
                        (dirs_lt (opt_magic == 0x020b) _ (omega arith))
                        λ num_dirs flag8 _. bind_reject _ (ltb 4096 num_sections) bad_count _ λ few.
                          record {
                            coff_word = omega arith;
                            opt_size_word = small;
                            sections_few = ground arith;
                          }

  data_dirs_lt : (wide : Bool) (opt : ℕ) → opt < 2 ^ 33 → opt + (if wide then 112 else 96) < 2 ^ 34
  data_dirs_lt wide opt h = ground arith

  read_tables-Returns :
      (h : Header) (flag : Bool)
      → IsHeader h
      → Returns (λ p. IsLimited p.0) (read_tables bytes h flag)
  unfolding read_tables
  read_tables-Returns h flag w =
      Returns-bind (Placed h.num_sections) _ _ _
        (section_loop-Returns bytes image h.image_base (h.coff + 20 + h.opt_size) h.num_sections 0
          flag (omega (arith, w.coff_word, w.opt_size_word)) (omega (arith, w.sections_few)))
        λ ((sections, places), flag1) placed.
          Returns-bind (HasDirectories (0 + min h.num_dirs 16)) _ _ _
            (directory_loop-Returns bytes image h.image_base _ (min h.num_dirs 16) 0 flag1 _
              (data_dirs_lt h.pe32_plus (h.coff + 20) (omega (arith, w.coff_word))) (omega arith)
              (omega arith))
            λ (d, flag2) few.
              Returns-bind (IsBounded []) _ _ _
                (parse_imports-Returns bytes image places
                  (ArePlaced-words sections places h.num_sections placed) 0 h.pe32_plus []
                  d.import_rva flag2 [])
                λ imports bounded.
                  Returns-bind (Extends imports.symbols max_parsed_symbols) _ _ _
                    (parse_exports-Returns bytes image places
                      (ArePlaced-words sections places h.num_sections placed) 0 d.export_rva
                      imports.flag imports.symbols)
                    λ (symbols, flag3) (added, split, count, _).
                      Returns-weaken
                        (λ p. IsCoffObject (pe_object h sections d imports.libraries symbols) p.0)
                        (λ p. IsLimited p.0) _
                        (parse_coff_symbols-Returns bytes image h.coff flag3
                          (pe_object h sections d imports.libraries symbols)
                          (omega (arith, w.coff_word)))
                        λ p c. record {
                          sections_few = omega (
                            arith,
                            ap (λ (l : List Section). length l) c.sections_kept,
                            ArePlaced-length sections places h.num_sections placed,
                            w.sections_few,
                          );
                          segments_few =
                              omega
                                (arith, ap (λ (l : List Segment). length l) c.segments_kept, few);
                          symbols_few = omega (
                            arith,
                            ap (λ (l : List Symbol). length l) bounded.split,
                            bounded.count,
                            ap (λ (l : List Symbol). length l) split,
                            count,
                            length-append imports.symbols added,
                            IsMerged-length symbols (length sections) max_parsed_symbols p.0.symbols
                                c.merged,
                          );
                        }

  pub parse_bytes-Returns :
      (source_name : Text) → Returns (IsParsed bytes) (parse_bytes source_name bytes)
  unfolding parse_bytes
  parse_bytes-Returns source_name =
      Returns-bind (λ _. Unit {0}) (IsParsed bytes) (check_stub bytes) _ check_stub-Returns
        λ _ _.
          Returns-bind (λ p. p.0 < 2 ^ 32) (IsParsed bytes) (check_signature bytes) _
            check_signature-Returns
            λ (pe_off, flag1) _.
              Returns-bind (λ p. IsHeader p.0) (IsParsed bytes) (read_header bytes pe_off flag1) _
                (read_header-Returns pe_off flag1)
                λ (h, flag2) w.
                  Returns-bind (λ p. IsLimited p.0) (IsParsed bytes) (read_tables bytes h flag2) _
                    (read_tables-Returns h flag2 w) λ (o, _) limited. (refl, o, refl, limited)

  -- Opening an image as a PE file does not abort: no read, section, directory name or symbol is taken
  -- out of bounds, whatever the headers, the directories and the symbol table say, and the loops end.
  -- The file that it returns holds the image, and one object with at most 4096 sections, 16 segments and
  -- 3 * 65536 symbols.
  pub pe_open_bytes-Returns :
      (source_name : Text) → Returns (IsOpened bytes) (open_bytes source_name bytes)
  unfolding open_bytes
  pe_open_bytes-Returns source_name =
      Returns-bind (IsParsed bytes) (IsOpened bytes) (parse_bytes source_name bytes) _
        (parse_bytes-Returns source_name) λ f p. p
