-- ===== src/Elf/Parse/Safe.antt =====
-- The parser on any image: no fault, and what holds of the file that it returns.
use roe.Base.{◌+◌, ◌≤◌, ◌≡◌, ◌≢◌, refl, List, [], ◌∷◌, map, length, All}
use roe.Base.Text.{Text}
use roe.Core.Result.{ok, aborted, Returns, Returns-bind, Returns-ne-aborted, Returns-ok}
use roe.Elf.Types.{Bytes, IsImage, File, Header, RawSection, Section, Symbol}
use roe.Elf.Header.{parse_header}
use roe.Elf.Header.Safe.{IsChecked, parse_header-Returns}
use roe.Elf.Sections.{parse_section_headers}
use roe.Elf.Sections.Safe.{IsReadable, IsParsed, parse_section_headers-Returns}
use roe.Elf.Segments.{parse_segments}
use roe.Elf.Segments.Safe.{IsInside, parse_segments-Returns}
use roe.Elf.Strings.{sht_nobits}
use roe.Elf.Symbols.{parse_symbols}
use roe.Elf.Symbols.Entries.{with_equation}
use roe.Elf.Symbols.Safe.{flat, AreTables, Collects, reader_of, parse_symbols-Returns}
use roe.Elf.Relocations.{parse_relocations}
use roe.Elf.Relocations.Safe.{IsResolved, parse_relocations-Returns}
use roe.Elf.Parse.{parse_bytes}

-- The bytes of a section that has any lie inside the image.
abbrev pub HasBytes : Bytes → Section → Type 0
HasBytes image s = s.type ≢ sht_nobits → s.offset + s.size ≤ length image

-- What a parsed file promises to its clients.
pub record IsWellFormed (image : Bytes) (file : File) : Type 0 where
  pub image_kept : file.image ≡ image
  pub sections_inside : All (HasBytes image) file.sections
  pub segments_inside : All (IsInside image) file.segments
  pub parsed : Header
  pub parsed_from : parse_header image ≡ ok parsed
  pub header : Header
  pub raws : List RawSection
  pub raws_from : parse_section_headers image parsed ≡ ok (header, raws)
  pub sections_kept : file.sections ≡ map (λ raw. raw.section) raws
  pub by_section : List (List Symbol)
  pub symbols_joined : file.symbols ≡ flat by_section
  pub tables : AreTables (reader_of image header) header raws raws by_section
  pub resolved : All (IsResolved by_section) file.relocations

All-section :
    (image : Bytes) (raws : List RawSection)
    → All (IsReadable image) raws
    → All (HasBytes image) (map (λ raw. raw.section) raws)
All-section image [] all = tt
All-section image (raw ∷ raws) all = (all.0.inside, All-section image raws all.1)

pub parse_bytes-Returns :
    (source_name : Text) (image : Bytes)
    → IsImage image
    → Returns (IsWellFormed image) (parse_bytes source_name image)
unfolding parse_bytes
parse_bytes-Returns source_name image i =
    Returns-bind (λ p. IsChecked p × (parse_header image ≡ ok p)) (IsWellFormed image)
      (parse_header image) _
      (with_equation IsChecked (parse_header image) (parse_header-Returns image i))
      λ parsed (c, parsed_from).
        Returns-bind (λ p. IsParsed image p × (parse_section_headers image parsed ≡ ok p))
          (IsWellFormed image) (parse_section_headers image parsed) _
          (with_equation (IsParsed image) (parse_section_headers image parsed)
            (parse_section_headers-Returns image parsed i c))
          λ (h, raws) ((p, readable), raws_from).
            Returns-bind _ (IsWellFormed image) (parse_segments image h) _
              (parse_segments-Returns image h i p)
              λ segments inside.
                Returns-bind (Collects (reader_of image h) h raws raws []) (IsWellFormed image)
                  (parse_symbols image h raws) _ (parse_symbols-Returns image h raws i readable)
                  λ (by_section, symbols) (collected, tables).
                    Returns-bind (All (IsResolved by_section)) (IsWellFormed image)
                      (parse_relocations image h raws by_section) _
                      (parse_relocations-Returns image h raws by_section i readable)
                      λ relocations named. record {
                        image_kept = refl;
                        sections_inside = All-section image raws readable;
                        segments_inside = inside.0;
                        parsed = parsed;
                        parsed_from = parsed_from;
                        header = h;
                        raws = raws;
                        raws_from = raws_from;
                        sections_kept = refl;
                        by_section = by_section;
                        symbols_joined = collected;
                        tables = tables;
                        resolved = named;
                      }

-- The parser does not abort on any image: it reads no element outside a vector, and takes the value
-- of no failed read.
pub parse_bytes-ne-aborted :
    (source_name : Text) (image : Bytes) → IsImage image → parse_bytes source_name image ≢ aborted
parse_bytes-ne-aborted source_name image i =
    Returns-ne-aborted (IsWellFormed image) (parse_bytes source_name image)
      (parse_bytes-Returns source_name image i)

-- A file that the parser returns for an image keeps that image. Its segments lie inside the image, and
-- so do its sections but those that are SHT_NOBITS. The sections are those that parse_section_headers
-- reads. The symbols are one list for each section, in the order of the sections: for a section of type
-- SHT_SYMTAB or SHT_DYNSYM as many as its size has entries, each read from its entry with the names of
-- the linked table and dynamic for SHT_DYNSYM, and none for another section. Each relocation names the
-- symbol that its index selects in one of these lists, or has index zero and no name where that list is
-- empty.
pub parse_bytes-IsWellFormed :
    (source_name : Text) (image : Bytes) (file : File)
    → IsImage image
    → parse_bytes source_name image ≡ ok file
    → IsWellFormed image file
parse_bytes-IsWellFormed source_name image file i e =
    Returns-ok (IsWellFormed image) (parse_bytes source_name image) file e
      (parse_bytes-Returns source_name image i)
