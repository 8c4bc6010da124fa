-- ===== src/Macho/Parse/Safe.antt =====
-- A Mach-O image is parsed without a fault, but for the slice of a fat file with 64-bit offsets.
use roe.Base.{
  ℕ, zero, suc, ◌+◌, ◌*◌, ◌^◌, ◌≤◌, ◌<◌, ◌≡◌, refl, Bool, true, false, ◌||◌, [], ◌∷◌, length,
  length-take, length-drop, take, drop, All-take, All-drop, ltb→le, ltb, leb, ◌==◌, arith,
  Bool-cases, inl, inr, if◌then◌else◌,
}
use roe.Base.Text.{Text}
use roe.Core.Result.{ok, Gives-Returns, element-eq, Returns, Returns-bind, bind_reject}
use roe.Binary.Types.{Object}
use roe.Elf.Types.{Bytes, IsByte, IsImage, little}
use roe.Elf.Reader.{add64, load, word32}
use roe.Macho.Reader.Laws.{bind_u32}
use roe.Macho.Commands.Safe.{IsLoaded, command_loop-Returns}
use roe.Macho.Symbols.Safe.{AreListed, parse_symtab-Returns}
use roe.Elf.Reader.Windows.{window-ok}
use roe.Macho.Strings.{extract_strings}
use roe.Macho.Strings.Safe.{extract_strings-Gives}
use roe.Macho.Parse.Words.{be32, read_be32-be32, be32-lt}
use roe.Macho.Parse.{
  Magic, magic_of, no_commands, read_thin, parse_thin, read_be32, Slice, arch_size, read_slice,
  is_arm64, arch_loop, assign, cut_slice, is_fat64, is_fat, choose_slice, thin_image, parse_bytes,
  MachoBinaryFile, front_image, open_bytes,
}

-- The limits on what an object of a Mach-O file holds.
pub record IsThin (o : Object) : Type 0 where
  pub segments_few : length o.segments ≤ 100000
  pub libraries_few : length o.libraries ≤ 100000
  pub symbols_listed : AreListed 5000000 o.symbols

magic_of-Returns : (magic : ℕ) → Returns (λ _. Unit {0}) (magic_of magic)
unfolding magic_of
magic_of-Returns magic = elim (Bool-cases (magic == 0xfeed_facf)) [
  | inl e ↦ rw e tt
  | inr e ↦ elim (Bool-cases (magic == 0xcffa_edfe)) [
    | inl f ↦ rw (e, f) tt
    | inr f ↦ elim (Bool-cases (magic == 0xfeed_face)) [
      | inl g ↦ rw (e, f, g) tt
      | inr g ↦ elim (Bool-cases (magic == 0xcefa_edfe)) [
        | inl h ↦ rw (e, f, g, h) tt
        | inr h ↦ rw (e, f, g, h) tt
      ]
    ]
  ]
]

no_commands-IsLoaded : IsLoaded 0 no_commands
no_commands-IsLoaded = record {
  segments_few = omega arith;
  libraries_few = omega arith;
  symoff_word = omega arith;
}

module _ (bytes : Bytes) (image : IsImage bytes) where
  read_thin-Returns : (index : ℕ) (m : Magic) → Returns IsThin (read_thin bytes index m)
  read_thin-Returns index m =
      bind_u32 _ bytes true 4 (omega arith) _ m.order image λ cputype flag1 _.
        bind_u32 _ bytes flag1 12 (omega arith) _ m.order image λ filetype flag2 _.
          bind_u32 _ bytes flag2 16 (omega arith) _ m.order image λ ncmds flag3 _.
            bind_reject IsThin (ltb 100000 ncmds) _ _ λ few.
              Returns-bind (λ p. IsLoaded (0 + ncmds) p.0) IsThin _ _
                (command_loop-Returns bytes image m.order 0 index ncmds _ flag3 no_commands
                  no_commands-IsLoaded)
                λ (c, flag4) l.
                  Returns-bind (λ p. AreListed 5000000 p.0) IsThin _ _
                    (parse_symtab-Returns bytes image m.order index c.libraries c.symtab m.is64
                      flag4 l.symoff_word)
                    λ (symbols, flag5) listed.
                      Returns-bind (λ _. Unit {0}) IsThin
                        (extract_strings index bytes c.sections []) _
                        (Gives-Returns (λ _. Unit {0}) _
                          (extract_strings-Gives index bytes c.sections []))
                        λ strings _. record {
                          segments_few = ground (arith, l.segments_few);
                          libraries_few = ground (arith, l.libraries_few);
                          symbols_listed = listed;
                        }

  parse_thin-Returns : (index : ℕ) → Returns IsThin (parse_thin bytes index)
  unfolding parse_thin
  parse_thin-Returns index = bind_reject IsThin (ltb (length bytes) 4) _ _ λ long.
      rw (window-ok bytes 0 4 (omega arith) (ltb→le _ _ long)) (
        Returns-bind (λ _. Unit {0}) IsThin (magic_of (word32 little (load bytes 0))) _
          (magic_of-Returns (word32 little (load bytes 0))) λ m _. read_thin-Returns index m)

  -- A place of a slice that two words of 32 bits give.
  abbrev IsNarrow : Bool → Slice → Type 0
  IsNarrow true s = Unit {0}
  IsNarrow false s = (s.offset < 2 ^ 32) × (s.size < 2 ^ 32)

  read_slice-Returns :
      (fat64 : Bool) (base : ℕ)
      → base + arch_size fat64 ≤ length bytes
      → Returns (IsNarrow fat64) (read_slice bytes fat64 base)
  unfolding read_slice
  read_slice-Returns true base h =
      let (b, at, _) = element-eq bytes (base + 23) (omega arith) in rw at tt
  read_slice-Returns false base h =
      rw
        (
          read_be32-be32 bytes (base + 8) image.size_bound (omega (arith, image.size_bound)),
          read_be32-be32 bytes (base + 12) image.size_bound (omega (arith, image.size_bound)),
        )
        (be32-lt bytes (base + 8) image, be32-lt bytes (base + 12) image)

  arch_loop-Returns :
      (fat64 : Bool) (rounds i : ℕ) (chosen : Slice)
      → IsNarrow fat64 chosen
      → Returns (IsNarrow fat64) (arch_loop bytes fat64 rounds i chosen)
  unfolding arch_loop
  arch_loop-Returns fat64 zero i chosen narrow = narrow
  arch_loop-Returns fat64 (suc rounds) i chosen narrow =
      elim (Bool-cases (ltb (length bytes) (8 + i * arch_size fat64 + arch_size fat64))) [
        | inl e ↦ rw e narrow
        | inr e ↦
            rw (e, base_read (ground arith))
              (Returns-bind (IsNarrow fat64) (IsNarrow fat64)
                (read_slice bytes fat64 (8 + i * arch_size fat64)) _
                (read_slice-Returns fat64 (8 + i * arch_size fat64) (ground arith))
                λ slice narrow'.
                  elim (Bool-cases (is_arm64 (be32 bytes (8 + i * arch_size fat64)))) [
                    | inl f ↦ rw f narrow'
                    | inr f ↦ rw f (
                        arch_loop-Returns fat64 rounds (i + 1) _
                          (chosen_narrow (chosen.size == 0 || false) slice narrow'))
                  ])
      ]
    where
      base_read :
          8 + i * arch_size fat64 + arch_size fat64 ≤ length bytes
          → read_be32 bytes (8 + i * arch_size fat64) ≡ ok (be32 bytes (8 + i * arch_size fat64))
      base_read h =
          read_be32-be32 bytes (8 + i * arch_size fat64) image.size_bound
            (omega (arith, image.size_bound))

      chosen_narrow :
          (b : Bool) (slice : Slice)
          → IsNarrow fat64 slice
          → IsNarrow fat64 (if b then slice else chosen)
      chosen_narrow true slice narrow' = narrow'
      chosen_narrow false slice narrow' = narrow

  slice-IsImage : (offset size : ℕ) → IsImage (take size (drop offset bytes))
  slice-IsImage offset size = record {
    is_bytes =
        All-take IsByte size (drop offset bytes) (All-drop IsByte offset bytes image.is_bytes);
    size_bound =
        omega
          (arith, length-take size (drop offset bytes), length-drop offset bytes, image.size_bound);
  }

  cut_slice-Returns : (s : Slice) → s.offset + s.size < 2 ^ 64 → Returns IsImage (cut_slice bytes s)
  unfolding cut_slice assign add64
  cut_slice-Returns s h = bind_reject IsImage _ _ _ λ fits.
      let inside : leb (s.offset + s.size) (length bytes) ≡ true = ground arith in
      rw inside (slice-IsImage s.offset s.size)

  choose_slice-Returns :
      (magic : ℕ) → is_fat64 magic ≡ false → Returns IsImage (choose_slice bytes magic)
  unfolding choose_slice
  choose_slice-Returns magic narrow =
      rw (read_be32-be32 bytes 4 image.size_bound (omega arith), narrow)
        (bind_reject IsImage _ _ _ λ _.
          Returns-bind (IsNarrow false) IsImage _ _
            (arch_loop-Returns false (be32 bytes 4) 0 (record { offset = 0; size = 0 })
              (omega arith))
            λ s (small, smaller). cut_slice-Returns s (omega arith))

  thin_image-Returns : is_fat64 (be32 bytes 0) ≡ false → Returns IsImage (thin_image bytes)
  unfolding thin_image
  thin_image-Returns narrow =
      rw (read_be32-be32 bytes 0 image.size_bound (omega arith))
        (elim (Bool-cases (is_fat (be32 bytes 0))) [
          | inl e ↦ rw e (choose_slice-Returns (be32 bytes 0) narrow)
          | inr e ↦ rw e image
        ])

-- What an opened file promises: its image is one, and its view has one object, which keeps the limits.
abbrev pub IsOpened : MachoBinaryFile → Type 0
IsOpened b = IsImage b.image × (o : Object) × (b.view.objects ≡ o ∷ []) × IsThin o

-- Opening an image as a Mach-O file does not abort, unless it is a fat file with 64-bit offsets (magic
-- number 0xcafebabf or 0xbfbafeca): no byte, library or slice is taken out of bounds, whatever the load
-- commands, the symbol table and the architectures say. The file that it returns has one object with at
-- most 100000 segments, 100000 libraries and 5000000 symbols. Each symbol has a name that is no assembler
-- temporary's and is shown without its leading underscore, and is defined unless it is imported.
pub macho_open_bytes-Returns :
    (source_name : Text) (bytes : Bytes)
    → IsImage bytes
    → is_fat64 (be32 bytes 0) ≡ false
    → Returns IsOpened (open_bytes source_name bytes)
unfolding open_bytes parse_bytes
macho_open_bytes-Returns source_name bytes image narrow =
    Returns-bind (λ f. IsOpened (record { view = f.view; image = front_image f.object_images }))
      IsOpened (parse_bytes source_name bytes) _
      (bind_reject _ (ltb (length bytes) 4) _ _ λ _.
        Returns-bind IsImage _ (thin_image bytes) _ (thin_image-Returns bytes image narrow)
          λ thin image'.
            Returns-bind IsThin _ (parse_thin thin 0) _ (parse_thin-Returns thin image' 0)
              λ o limited. (image', o, refl, limited))
      λ f opened. opened
