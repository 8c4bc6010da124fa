-- ===== src/Binary/Load/Safe.antt =====
-- Loading a file of any format does not abort.
use roe.Base.{
  ℕ, ◌+◌, ◌*◌, ◌≡◌, inl, inr, refl, Bool, true, false, ◌||◌, [], ◌∷◌, length, leb, ◌&&◌, ◌==◌,
  if◌then◌else◌, arith, Bool-cases,
}
use roe.Base.Text.{Text}
use roe.Core.Result.{element, Gives, Gives-Returns, Returns, Returns-bind}
use roe.Binary.Types.{Format, Object}
use roe.Binary.Detect.{detect_format, is_elf, is_archive, detect_words, pe_or_unknown, is_pe}
use roe.Binary.Detect.Magic.{is_four, magic_format, dos_format, archive_front, detect_format-magic}
use roe.Elf.Types.{Bytes, IsImage, big}
use roe.Elf.Reader.{load, window}
use roe.Elf.Reader.Words.{word32-digits}
use roe.Pe.Reader.Laws.{load-IsByte}
use roe.Elf.Adapter.View.Safe.{open_bytes-Returns}
use roe.Elf.Adapter.View.Safe.{IsOpened as ElfOpened}
use roe.Macho.Parse.{is_fat64}
use roe.Macho.Parse.Words.{be32}
use roe.Macho.Parse.Safe.{macho_open_bytes-Returns}
use roe.Macho.Parse.Safe.{IsOpened as MachoOpened}
use roe.Pe.Parse.Safe.{pe_open_bytes-Returns}
use roe.Pe.Parse.Safe.{IsOpened as PeOpened}
use roe.Binary.Load.{BinaryFile, view_of, load_as, load_bytes}

-- The format is one that the Mach-O parser reads.
abbrev is_macho_format : Format → Bool
is_macho_format Format.mach_o = true
is_macho_format Format.mach_o_fat = true
is_macho_format _ = false

module _ (a b c d : ℕ) (rest : Bytes) (image : IsImage (a ∷ b ∷ c ∷ d ∷ rest)) where
  be32-digits : be32 (a ∷ b ∷ c ∷ d ∷ rest) 0 ≡ ((a * 256 + b) * 256 + c) * 256 + d
  unfolding be32
  be32-digits =
      let e : leb (0 + 4) (length (a ∷ b ∷ c ∷ d ∷ rest)) ≡ true = ground arith in
      rw
        (
          e,
          word32-digits (load (a ∷ b ∷ c ∷ d ∷ rest) 0) (load-IsByte (a ∷ b ∷ c ∷ d ∷ rest) image 0)
              big,
        )
        (omega arith)

  dos_format-other : is_macho_format (dos_format a b) ≡ false
  dos_format-other = elim (Bool-cases (a == b'M' && b == b'Z')) [
    | inl e ↦ rw e refl
    | inr e ↦ rw e refl
  ]

  magic-narrow :
      is_macho_format (magic_format a b c d (dos_format a b)) ≡ true
      → is_fat64 (be32 (a ∷ b ∷ c ∷ d ∷ rest) 0) ≡ false
  magic-narrow h =
      rw be32-digits
        (elim (Bool-cases
          (is_four a b c d 0xCA 0xFE 0xBA 0xBE || is_four a b c d 0xBE 0xBA 0xFE 0xCA)) [
            | inl f ↦ ground arith
            | inr f ↦
                elim (Bool-cases (
                  is_four a b c d 0xFE 0xED 0xFA 0xCE
                  || is_four a b c d 0xFE 0xED 0xFA 0xCF
                  || is_four a b c d 0xCE 0xFA 0xED 0xFE
                  || is_four a b c d 0xCF 0xFA 0xED 0xFE)) [
                    | inl g ↦ ground arith
                    | inr g ↦
                        let k : is_macho_format (dos_format a b) ≡ true = rw (f, g) at h in
                        cc (dos_format-other)
                  ]
          ])

-- A format for which the Mach-O parser is called is not that of a fat file with 64-bit offsets.
abbrev IsNarrow : Bytes → Format → Type 0
IsNarrow bytes format = is_macho_format format ≡ true → is_fat64 (be32 bytes 0) ≡ false

detect-IsNarrow : (bytes : Bytes) → IsImage bytes → Gives (IsNarrow bytes) (detect_format bytes)
unfolding be32 detect_format is_elf is_archive detect_words pe_or_unknown is_pe window element
detect-IsNarrow [] image = λ h. refl
detect-IsNarrow (a ∷ []) image = λ h. refl
detect-IsNarrow (a ∷ b ∷ []) image = λ h. refl
detect-IsNarrow (a ∷ b ∷ c ∷ []) image = λ h. refl
detect-IsNarrow (a ∷ b ∷ c ∷ d ∷ rest) image =
    let (ha, (hb, (hc, (hd, _)))) = image.is_bytes in
    rw (detect_format-magic a b c d rest ha hb hc hd) (told a b c d rest image)
  where
    told :
        (a b c d : ℕ) (rest : Bytes)
        → IsImage (a ∷ b ∷ c ∷ d ∷ rest)
        → IsNarrow (a ∷ b ∷ c ∷ d ∷ rest) (
            if is_four a b c d 0x7f b'E' b'L' b'F'
            then Format.elf
            else if archive_front (a ∷ b ∷ c ∷ d ∷ rest)
            then Format.archive
            else magic_format a b c d (dos_format a b))
    told a b c d rest image h = elim (Bool-cases (is_four a b c d 0x7f b'E' b'L' b'F')) [
      | inl e ↦ let bad : false ≡ true = rw e at h in cc
      | inr e ↦ elim (Bool-cases (archive_front (a ∷ b ∷ c ∷ d ∷ rest))) [
        | inl f ↦ let bad : false ≡ true = rw (e, f) at h in cc
        | inr f ↦ magic-narrow a b c d rest image (rw (e, f) at h)
      ]
    ]

-- The view of the file has one object.
abbrev pub HasObject : BinaryFile → Type 0
HasObject b = (o : Object) × ((view_of b).objects ≡ o ∷ [])

load_as-Returns :
    (format : Format) (source_name : Text) (bytes : Bytes)
    → IsImage bytes
    → (is_macho_format format ≡ true → is_fat64 (be32 bytes 0) ≡ false)
    → Returns HasObject (load_as format source_name bytes)
unfolding load_as view_of
load_as-Returns Format.elf source_name bytes image narrow =
    Returns-bind (ElfOpened bytes) HasObject _ _ (open_bytes-Returns source_name bytes image)
      λ b opened. (opened.0, opened.1)
load_as-Returns Format.mach_o source_name bytes image narrow =
    Returns-bind MachoOpened HasObject _ _
      (macho_open_bytes-Returns source_name bytes image (narrow refl))
      λ b (_, o, single, _). (o, single)
load_as-Returns Format.mach_o_fat source_name bytes image narrow =
    Returns-bind MachoOpened HasObject _ _
      (macho_open_bytes-Returns source_name bytes image (narrow refl))
      λ b (_, o, single, _). (o, single)
load_as-Returns Format.pe_coff source_name bytes image narrow =
    Returns-bind (PeOpened bytes) HasObject _ _ (pe_open_bytes-Returns bytes image source_name)
      λ b (_, o, single, _). (o, single)
load_as-Returns Format.archive source_name bytes image narrow = tt
load_as-Returns Format.unknown source_name bytes image narrow = tt

-- Loading a file of any content does not abort: with the format that detect_format tells, no parser
-- reads outside a buffer or takes the value of a failed result, and each of them ends. A file that is
-- loaded has a view with one object.
pub load_bytes-Returns :
    (source_name : Text) (bytes : Bytes)
    → IsImage bytes
    → Returns HasObject (load_bytes source_name bytes)
unfolding load_bytes
load_bytes-Returns source_name bytes image =
    Returns-bind (IsNarrow bytes) HasObject (detect_format bytes) _
      (Gives-Returns (IsNarrow bytes) _ (detect-IsNarrow bytes image))
      λ format narrow. load_as-Returns format source_name bytes image narrow
