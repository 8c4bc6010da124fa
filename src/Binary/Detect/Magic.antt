-- ===== src/Binary/Detect/Magic.antt =====
-- detect_format decides by the first bytes alone, in either byte order.
use roe.Base.{
  ℕ, ◌+◌, ◌*◌, ◌<◌, ◌≡◌, refl, take, leb→le, Bool-cases, inl, inr, Bool, true, ◌&&◌, ◌||◌, List,
  ◌∷◌, length, arith, ◌==◌, leb, if◌then◌else◌,
}
use roe.Elf.Reader.Words.{join32}
use roe.Binary.Types.{Format}
use roe.Core.Result.{ok}
use roe.Base.Text.{text, text_eq}
use roe.Elf.Reader.{load, window}
use roe.Elf.Reader.Windows.{window-ok, slice-ok}
use roe.Binary.Detect.{
  big_word, little_word, read_be32, read_le32, word_format, is_pe, is_fat, is_mach_o, detect_format,
  detect_words, is_elf, is_archive, pe_or_unknown,
}

module _ (a b c d : ℕ) (rest : List ℕ) (ha : a < 256) (hb : b < 256) (hc : c < 256)
    (hd : d < 256) where
  big_word-digits : big_word (load (a ∷ b ∷ c ∷ d ∷ rest) 0) ≡ ((a * 256 + b) * 256 + c) * 256 + d
  unfolding big_word
  big_word-digits = join32 a b c d ha hb hc hd

  little_word-digits :
      little_word (load (a ∷ b ∷ c ∷ d ∷ rest) 0) ≡ ((d * 256 + c) * 256 + b) * 256 + a
  unfolding little_word
  little_word-digits = join32 d c b a hd hc hb ha

abbrev pub is_four : ℕ → ℕ → ℕ → ℕ → ℕ → ℕ → ℕ → ℕ → Bool
is_four a b c d w x y z = a == w && b == x && c == y && d == z

-- A word has a given value exactly where its four bytes are the digits of that value.
word_is :
    (a b c d w x y z : ℕ)
    → a < 256
    → b < 256
    → c < 256
    → d < 256
    → w < 256
    → x < 256
    → y < 256
    → z < 256
    → (((a * 256 + b) * 256 + c) * 256 + d == ((w * 256 + x) * 256 + y) * 256 + z)
      ≡ is_four a b c d w x y z
word_is a b c d w x y z ha hb hc hd hw hx hy hz = ground arith

-- What the first two bytes tell behind the other tests: the stub of DOS, or nothing.
abbrev pub dos_format : ℕ → ℕ → Format
dos_format a b = if a == b'M' && b == b'Z' then Format.pe_coff else Format.unknown

-- The bytes are the magic text of an archive and what follows it.
abbrev pub archive_front : List ℕ → Bool
archive_front bytes = leb 8 (length bytes) && text_eq (take 8 bytes) (text "!<arch>\n")

-- The formats that four leading bytes tell.
abbrev pub magic_format : ℕ → ℕ → ℕ → ℕ → Format → Format
magic_format a b c d other =
    if is_four a b c d 0xCA 0xFE 0xBA 0xBE || is_four a b c d 0xBE 0xBA 0xFE 0xCA
    then Format.mach_o_fat
    else if is_four a b c d 0xFE 0xED 0xFA 0xCE
        || is_four a b c d 0xFE 0xED 0xFA 0xCF
        || is_four a b c d 0xCE 0xFA 0xED 0xFE
        || is_four a b c d 0xCF 0xFA 0xED 0xFE
    then Format.mach_o
    else other

module _ (a b c d : ℕ) (rest : List ℕ) (ha : a < 256) (hb : b < 256) (hc : c < 256)
    (hd : d < 256) where
  is_fat-four :
      is_fat
        (big_word (load (a ∷ b ∷ c ∷ d ∷ rest) 0))
        (little_word (load (a ∷ b ∷ c ∷ d ∷ rest) 0))
      ≡ (is_four a b c d 0xCA 0xFE 0xBA 0xBE || is_four a b c d 0xBE 0xBA 0xFE 0xCA)
  unfolding is_fat
  is_fat-four =
      rw
        (
          big_word-digits a b c d rest ha hb hc hd,
          little_word-digits a b c d rest ha hb hc hd,
          word_is a b c d 0xCA 0xFE 0xBA 0xBE ha hb hc hd (omega arith) (omega arith) (omega arith)
              (omega arith),
          word_is a b c d 0xBE 0xBA 0xFE 0xCA ha hb hc hd (omega arith) (omega arith) (omega arith)
              (omega arith),
          word_is d c b a 0xCA 0xFE 0xBA 0xBE hd hc hb ha (omega arith) (omega arith) (omega arith)
              (omega arith),
        )
        (ground arith)

  is_mach_o-four :
      is_mach_o
        (big_word (load (a ∷ b ∷ c ∷ d ∷ rest) 0))
        (little_word (load (a ∷ b ∷ c ∷ d ∷ rest) 0))
      ≡ (is_four a b c d 0xFE 0xED 0xFA 0xCE
          || is_four a b c d 0xFE 0xED 0xFA 0xCF
          || is_four a b c d 0xCE 0xFA 0xED 0xFE
          || is_four a b c d 0xCF 0xFA 0xED 0xFE)
  unfolding is_mach_o
  is_mach_o-four =
      rw
        (
          big_word-digits a b c d rest ha hb hc hd,
          little_word-digits a b c d rest ha hb hc hd,
          word_is a b c d 0xFE 0xED 0xFA 0xCE ha hb hc hd (omega arith) (omega arith) (omega arith)
              (omega arith),
          word_is a b c d 0xFE 0xED 0xFA 0xCF ha hb hc hd (omega arith) (omega arith) (omega arith)
              (omega arith),
          word_is d c b a 0xFE 0xED 0xFA 0xCE hd hc hb ha (omega arith) (omega arith) (omega arith)
              (omega arith),
          word_is d c b a 0xFE 0xED 0xFA 0xCF hd hc hb ha (omega arith) (omega arith) (omega arith)
              (omega arith),
        )
        (ground arith)

  -- The leading bytes are there to be read.
  window-four : window (a ∷ b ∷ c ∷ d ∷ rest) 0 4 ≡ ok (load (a ∷ b ∷ c ∷ d ∷ rest) 0)
  window-four = window-ok (a ∷ b ∷ c ∷ d ∷ rest) 0 4 (omega arith) (omega arith)

  is_elf-four : is_elf (a ∷ b ∷ c ∷ d ∷ rest) ≡ ok (is_four a b c d 0x7f b'E' b'L' b'F')
  unfolding is_elf
  is_elf-four =
      let long : leb 4 (length (a ∷ b ∷ c ∷ d ∷ rest)) ≡ true = ground arith in
      rw (long, window-four) refl

  pe_or_unknown-four : pe_or_unknown (a ∷ b ∷ c ∷ d ∷ rest) ≡ ok (dos_format a b)
  unfolding pe_or_unknown is_pe
  pe_or_unknown-four =
      let long : leb 2 (length (a ∷ b ∷ c ∷ d ∷ rest)) ≡ true = ground arith in
      rw (long, window-ok (a ∷ b ∷ c ∷ d ∷ rest) 0 2 (omega arith) (omega arith)) refl

  is_archive-four : is_archive (a ∷ b ∷ c ∷ d ∷ rest) ≡ ok (archive_front (a ∷ b ∷ c ∷ d ∷ rest))
  unfolding is_archive
  is_archive-four = elim (Bool-cases (leb 8 (length (a ∷ b ∷ c ∷ d ∷ rest)))) [
    | inl e ↦ rw (e, slice-ok (a ∷ b ∷ c ∷ d ∷ rest) 0 8 (leb→le _ _ e)) refl
    | inr e ↦ rw e refl
  ]

  word_format-four :
      word_format
        (big_word (load (a ∷ b ∷ c ∷ d ∷ rest) 0))
        (little_word (load (a ∷ b ∷ c ∷ d ∷ rest) 0))
        (ok (dos_format a b))
      ≡ ok (magic_format a b c d (dos_format a b))
  word_format-four =
      rw (is_fat-four, is_mach_o-four)
        (elim (Bool-cases
          (is_four a b c d 0xCA 0xFE 0xBA 0xBE || is_four a b c d 0xBE 0xBA 0xFE 0xCA)) [
            | inl e ↦ rw e refl
            | inr e ↦
                elim (Bool-cases (
                  is_four a b c d 0xFE 0xED 0xFA 0xCE
                  || is_four a b c d 0xFE 0xED 0xFA 0xCF
                  || is_four a b c d 0xCE 0xFA 0xED 0xFE
                  || is_four a b c d 0xCF 0xFA 0xED 0xFE)) [
                    | inl f ↦ rw (e, f) refl
                    | inr f ↦ rw (e, f) refl
                  ]
          ])

  detect_words-four :
      detect_words (a ∷ b ∷ c ∷ d ∷ rest) ≡ ok (magic_format a b c d (dos_format a b))
  unfolding detect_words read_be32 read_le32
  detect_words-four =
      let long : leb 4 (length (a ∷ b ∷ c ∷ d ∷ rest)) ≡ true = ground arith in
      rw (long, window-four, pe_or_unknown-four) word_format-four

  -- Of four bytes or more, of which the first four are below 256, these tell an ELF file and a Mach-O file,
  -- thin or universal, in either byte order; the archive's eight come between them, and the two of DOS
  -- last. No byte outside is read.
  pub detect_format-magic :
      detect_format (a ∷ b ∷ c ∷ d ∷ rest)
      ≡ ok (
          if is_four a b c d 0x7f b'E' b'L' b'F'
          then Format.elf
          else if (archive_front (a ∷ b ∷ c ∷ d ∷ rest))
          then Format.archive
          else magic_format a b c d (dos_format a b))
  unfolding detect_format
  detect_format-magic = rw is_elf-four (elim (Bool-cases (is_four a b c d 0x7f b'E' b'L' b'F')) [
    | inl e ↦ rw e refl
    | inr e ↦ elim (Bool-cases (archive_front (a ∷ b ∷ c ∷ d ∷ rest))) [
      | inl f ↦ rw (e, is_archive-four, f) refl
      | inr f ↦ rw (e, is_archive-four, f, detect_words-four) refl
    ]
  ])
