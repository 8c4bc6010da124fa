-- ===== src/Macho/Commands/Safe.antt =====
-- The load commands are read without a fault.
use roe.Base.{
  ℕ, zero, suc, ◌+◌, ◌*◌, ◌^◌, ◌≤◌, ◌<◌, Bool, true, false, ◌||◌, [], ◌∷◌, length, length-append,
  ltb, arith, Bool-cases, inl, inr, if◌then◌else◌,
}
use roe.Core.Result.{Result, ok, ◌>>=◌, Returns, Returns-bind, Returns-weaken}
use roe.Elf.Types.{Bytes, IsImage, Endianness}
use roe.Pe.Reader.{fixed_string}
use roe.Pe.Reader.Laws.{fixed_string-Returns}
use roe.Macho.Reader.Laws.{bind_u32, bind_u64}
use roe.Macho.Commands.{
  Commands, CommandKind, command_kind, SegmentFields, wide, read_segment, mach_segment,
  read_section, section_size, section_loop, sections_of, visit_segment, visit_symtab, visit_library,
  visit_command, command_loop,
}

-- What holds behind `n` commands.
pub record IsLoaded (n : ℕ) (c : Commands) : Type 0 where
  pub segments_few : length c.segments ≤ n
  pub libraries_few : length c.libraries ≤ n
  pub symoff_word : c.symtab.symoff < 2 ^ 32

abbrev Loads : ℕ → (Commands × Bool) × Bool → Type 0
Loads n p = IsLoaded n p.0.0

IsLoaded-weaken : (n : ℕ) (c : Commands) → IsLoaded n c → IsLoaded (suc n) c
IsLoaded-weaken n c l = record {
  segments_few = omega (arith, l.segments_few);
  libraries_few = omega (arith, l.libraries_few);
  symoff_word = l.symoff_word;
}

module _ (bytes : Bytes) (image : IsImage bytes) (order : Endianness) where
  -- The step of a `do` block that reads a word of either width.
  pub bind_wide :
      {B : Type 0} (Q : B → Type 0) (seg64 flag : Bool) (off : ℕ) (f : ℕ × Bool → Result B)
      → off < 2 ^ 63 + 2 ^ 40
      → ((a : ℕ) (flag' : Bool) → Returns Q (f (a, flag')))
      → Returns Q (wide order seg64 bytes flag off >>= f)
  bind_wide Q true flag off f near k = bind_u64 Q bytes flag off near f order k
  bind_wide Q false flag off f near k =
      bind_u32 Q bytes flag off near f order image λ a flag' _. k a flag'

  -- The offset of a field that depends on the width.
  field_near :
      (seg64 : Bool) (base a b : ℕ)
      → base < 2 ^ 63 + 2 ^ 39
      → a < 100
      → b < 100
      → base + (if seg64 then a else b) < 2 ^ 63 + 2 ^ 40
  field_near true base a b h ha hb = omega arith
  field_near false base a b h ha hb = omega arith

  read_segment-Returns :
      (seg64 flag : Bool) (base : ℕ)
      → base < 2 ^ 63 + 2 ^ 39
      → Returns (λ _. Unit {0}) (read_segment order bytes seg64 base flag)
  unfolding read_segment
  read_segment-Returns seg64 flag base h =
      bind_wide _ seg64 flag base _ (omega arith) λ vmaddr flag1.
        bind_wide _ seg64 flag1 _ _ (field_near seg64 base 8 4 h (omega arith) (omega arith))
          λ vmsize flag2.
            bind_wide _ seg64 flag2 _ _ (field_near seg64 base 16 8 h (omega arith) (omega arith))
              λ fileoff flag3.
                bind_u32 _ bytes flag3 _ (field_near seg64 base 36 20 h (omega arith) (omega arith))
                  _ order image
                  λ initprot flag4 _.
                    bind_u32 _ bytes flag4 _
                      (field_near seg64 base 40 24 h (omega arith) (omega arith)) _ order image
                      λ nsects flag5 _. tt

  read_section-Returns :
      (index initprot : ℕ) (seg64 : Bool) (so s : ℕ) (flag : Bool)
      → so < 2 ^ 63 + 2 ^ 39
      → Returns (λ _. Unit {0}) (read_section order bytes index initprot seg64 so s flag)
  unfolding read_section
  read_section-Returns index initprot seg64 so s flag h =
      Returns-bind (λ _. Unit {0}) _ (fixed_string bytes flag so 16) _
        (fixed_string-Returns bytes flag so 16 (omega arith))
        λ (name, flag1) _. bind_wide _ seg64 flag1 _ _ (omega arith) λ address flag2.
          bind_wide _ seg64 flag2 _ _ (field_near seg64 so 40 36 h (omega arith) (omega arith))
            λ size flag3.
              bind_u32 _ bytes flag3 _ (field_near seg64 so 48 40 h (omega arith) (omega arith)) _
                order image λ offset flag4 _. tt

  section_near :
      (seg64 : Bool) (sect_base s : ℕ)
      → sect_base < 2 ^ 63 + 2 ^ 20
      → s < 100000
      → sect_base + s * section_size seg64 < 2 ^ 63 + 2 ^ 39
  section_near true sect_base s h few = omega arith
  section_near false sect_base s h few = omega arith

  section_loop-Returns :
      (index initprot : ℕ) (seg64 : Bool) (sect_base rounds s : ℕ) (flag : Bool)
      → sect_base < 2 ^ 63 + 2 ^ 20
      → s + rounds ≤ 100000
      → Returns
          (λ p. length p.0 ≤ rounds)
          (section_loop order bytes index initprot seg64 sect_base rounds s flag)
  unfolding section_loop
  section_loop-Returns index initprot seg64 sect_base zero s flag h few = omega arith
  section_loop-Returns index initprot seg64 sect_base (suc rounds) s flag h few =
      elim (Bool-cases
        (ltb (length bytes) (sect_base + s * section_size seg64 + section_size seg64))) [
          | inl e ↦ rw e (omega arith)
          | inr e ↦ rw e (
              Returns-bind (λ _. Unit {0}) (λ p. length p.0 ≤ suc rounds) _ _
                (read_section-Returns index initprot seg64 (sect_base + s * section_size seg64) s
                  flag (section_near seg64 sect_base s h (omega arith)))
                λ (section, flag') _.
                  Returns-bind (λ p. length p.0 ≤ rounds) (λ p. length p.0 ≤ suc rounds) _ _
                    (section_loop-Returns index initprot seg64 sect_base rounds (s + 1) flag' h
                      (omega arith))
                    λ p fewer. omega arith)
        ]

  base_near :
      (seg64 : Bool) (offset : ℕ)
      → offset < 2 ^ 63
      → offset + (if seg64 then 72 else 56) < 2 ^ 63 + 2 ^ 20
  base_near true offset h = omega arith
  base_near false offset h = omega arith

  sections_of-Returns :
      (n index : ℕ) (seg64 : Bool) (offset : ℕ) (f : SegmentFields) (flag : Bool) (c : Commands)
      → offset < 2 ^ 63
      → IsLoaded n c
      → Returns (Loads n) (sections_of order bytes index seg64 offset f flag c)
  sections_of-Returns n index seg64 offset f flag c h l = elim (Bool-cases (ltb 100000 f.nsects)) [
    | inl e ↦ rw e l
    | inr e ↦ rw e (
        Returns-bind (λ p. length p.0 ≤ f.nsects) (Loads n) _ _
          (section_loop-Returns index f.initprot seg64 _ f.nsects 0 flag (base_near seg64 offset h)
            (ground arith))
          λ p _. record {
            segments_few = l.segments_few;
            libraries_few = l.libraries_few;
            symoff_word = l.symoff_word;
          })
  ]

  visit_segment-Returns :
      (n index : ℕ) (seg64 : Bool) (offset : ℕ) (flag : Bool) (c : Commands)
      → offset < 2 ^ 63
      → IsLoaded n c
      → Returns (Loads (suc n)) (visit_segment order bytes index seg64 offset flag c)
  unfolding visit_segment
  visit_segment-Returns n index seg64 offset flag c h l =
      Returns-bind (λ _. Unit {0}) (Loads (suc n)) (fixed_string bytes flag (offset + 8) 16) _
        (fixed_string-Returns bytes flag (offset + 8) 16 (omega arith))
        λ (segname, flag1) _.
          Returns-bind (λ _. Unit {0}) (Loads (suc n)) _ _
            (read_segment-Returns seg64 flag1 (offset + 24) (omega arith))
            λ (f, flag2) _. sections_of-Returns (suc n) index seg64 offset f flag2 _ h (record {
              segments_few = omega (
                arith,
                l.segments_few,
                length-append {0} c.segments (mach_segment segname f ∷ []),
              );
              libraries_few = omega (arith, l.libraries_few);
              symoff_word = l.symoff_word;
            })

  visit_symtab-Returns :
      (n offset : ℕ) (flag : Bool) (c : Commands)
      → offset < 2 ^ 63
      → IsLoaded n c
      → Returns (Loads (suc n)) (visit_symtab order bytes offset flag c)
  unfolding visit_symtab
  visit_symtab-Returns n offset flag c h l =
      bind_u32 _ bytes flag _ (omega arith) _ order image λ symoff flag1 word.
        bind_u32 _ bytes flag1 _ (omega arith) _ order image λ nsyms flag2 _.
          bind_u32 _ bytes flag2 _ (omega arith) _ order image λ stroff flag3 _.
            bind_u32 _ bytes flag3 _ (omega arith) _ order image λ strsize flag4 _. record {
              segments_few = omega (arith, l.segments_few);
              libraries_few = omega (arith, l.libraries_few);
              symoff_word = word;
            }

  visit_library-Returns :
      (n offset cmdsize : ℕ) (flag : Bool) (c : Commands)
      → offset < 2 ^ 63
      → IsLoaded n c
      → Returns (Loads (suc n)) (visit_library order bytes offset cmdsize flag c)
  unfolding visit_library
  visit_library-Returns n offset cmdsize flag c h l =
      bind_u32 _ bytes flag _ (omega arith) _ order image λ name_off flag1 _.
        elim (Bool-cases (ltb name_off cmdsize)) [
          | inl e ↦ rw e (record {
            segments_few = omega (arith, l.segments_few);
            libraries_few = omega (arith, l.libraries_few, length-append {0} c.libraries);
            symoff_word = l.symoff_word;
          })
          | inr e ↦ rw e (IsLoaded-weaken n c l)
        ]

  visit_command-Returns :
      (n index : ℕ) (kind : CommandKind) (offset cmdsize : ℕ) (flag : Bool) (c : Commands)
      → offset < 2 ^ 63
      → IsLoaded n c
      → Returns (Loads (suc n)) (visit_command order bytes index kind offset cmdsize flag c)
  unfolding visit_command
  visit_command-Returns n index (CommandKind.segment seg64) offset cmdsize flag c h l =
      visit_segment-Returns n index seg64 offset flag c h l
  visit_command-Returns n index CommandKind.symtab offset cmdsize flag c h l =
      visit_symtab-Returns n offset flag c h l
  visit_command-Returns n index CommandKind.library offset cmdsize flag c h l =
      visit_library-Returns n offset cmdsize flag c h l
  visit_command-Returns n index CommandKind.main offset cmdsize flag c h l =
      bind_u64 _ bytes flag _ (omega arith) _ order λ entry flag1. record {
        segments_few = omega (arith, l.segments_few);
        libraries_few = omega (arith, l.libraries_few);
        symoff_word = l.symoff_word;
      }
  visit_command-Returns n index CommandKind.other offset cmdsize flag c h l = IsLoaded-weaken n c l

  IsLoaded-raise : (n m : ℕ) (c : Commands) → n ≤ m → IsLoaded n c → IsLoaded m c
  IsLoaded-raise n m c h l = record {
    segments_few = omega (arith, l.segments_few);
    libraries_few = omega (arith, l.libraries_few);
    symoff_word = l.symoff_word;
  }

  -- Behind a command the loop goes on or ends.
  go_on-Returns :
      (m : ℕ) (go_on flag : Bool) (c : Commands) (rest : Result (Commands × Bool))
      → IsLoaded m c
      → Returns (λ p. IsLoaded m p.0) rest
      → Returns (λ p. IsLoaded m p.0) (if go_on then rest else ok (c, flag))
  go_on-Returns m true flag c rest l r = r
  go_on-Returns m false flag c rest l r = l

  pub command_loop-Returns :
      (n index rounds offset : ℕ) (flag : Bool) (c : Commands)
      → IsLoaded n c
      → Returns
          (λ p. IsLoaded (n + rounds) p.0)
          (command_loop order bytes index rounds offset flag c)
  unfolding command_loop
  command_loop-Returns n index zero offset flag c l = IsLoaded-raise n (n + 0) c (omega arith) l
  command_loop-Returns n index (suc rounds) offset flag c l =
      elim (Bool-cases (ltb (length bytes) (offset + 8))) [
        | inl e ↦ rw e (IsLoaded-raise n (n + suc rounds) c (omega arith) l)
        | inr e ↦
            let h : offset < 2 ^ 63 = ground (arith, image.size_bound) in
            rw e (
              bind_u32 _ bytes flag offset (omega arith) _ order image λ cmd flag1 _.
                bind_u32 _ bytes flag1 (offset + 4) (omega arith) _ order image λ cmdsize flag2 _.
                  elim (Bool-cases (ltb cmdsize 8 || ltb (length bytes) (offset + cmdsize))) [
                    | inl f ↦ rw f (IsLoaded-raise n (n + suc rounds) c (omega arith) l)
                    | inr f ↦ rw f (
                        Returns-bind (Loads (suc n)) _ _ _
                          (visit_command-Returns n index (command_kind cmd) offset cmdsize flag2 c h
                            l)
                          λ ((c', go_on), flag3) l'.
                            go_on-Returns (n + suc rounds) go_on flag3 c' _
                              (IsLoaded-raise (suc n) (n + suc rounds) c' (omega arith) l')
                              (Returns-weaken (λ p. IsLoaded (suc n + rounds) p.0)
                                (λ p. IsLoaded (n + suc rounds) p.0) _
                                (command_loop-Returns (suc n) index rounds (offset + cmdsize) flag3
                                  c' l')
                                λ p r.
                                  IsLoaded-raise (suc n + rounds) (n + suc rounds) p.0 (omega arith)
                                    r))
                  ])
      ]
