-- ===== src/Pe/Layout/Safe.antt =====
-- The section table and the data directories are read without a fault, and in bounds.
use roe.Base.{
  ℕ, zero, suc, ◌+◌, ◌*◌, ◌^◌, ◌≤◌, ◌<◌, ◌≡◌, refl, Bool, ◌&&◌, List, [], ◌∷◌, length,
  length-append, All, arith, ltb, ◌==◌, Bool-cases, inl, inr,
}
use roe.Core.Result.{element-eq, Returns, Returns-bind, Returns-weaken}
use roe.Binary.Types.{Section}
use roe.Elf.Types.{Bytes, IsImage}
use roe.Pe.Reader.{fixed_string, SectionMap}
use roe.Pe.Reader.Laws.{IsWord, bind_u32, fixed_string-Returns}
use roe.Pe.Layout.{
  pe_section, read_section, section_loop, dir_names, Directories, add_directory, visit_directory,
  directory_loop,
}

-- A section and its place agree, and the place is of words of 32 bits.
abbrev pub IsPlaced : Section → SectionMap → Type 0
IsPlaced s m = (s.offset ≡ m.raw) × (s.size ≡ m.rawsize) × IsWord m

-- At most `n` sections, each with its place.
abbrev pub ArePlaced : List Section → List SectionMap → ℕ → Type 0
ArePlaced [] [] n = Unit {0}
ArePlaced (s ∷ sections) (m ∷ places) zero = ⊥
ArePlaced (s ∷ sections) (m ∷ places) (suc n) = IsPlaced s m × ArePlaced sections places n
ArePlaced [] (m ∷ places) n = ⊥
ArePlaced (s ∷ sections) [] n = ⊥

abbrev pub Placed : ℕ → (List Section × List SectionMap) × Bool → Type 0
Placed n p = ArePlaced p.0.0 p.0.1 n

pub ArePlaced-length :
    (sections : List Section) (places : List SectionMap) (n : ℕ)
    → ArePlaced sections places n
    → length sections ≤ n
ArePlaced-length [] [] n h = omega arith
ArePlaced-length (s ∷ sections) (m ∷ places) zero h = absurd h
ArePlaced-length (s ∷ sections) (m ∷ places) (suc n) h =
    omega (arith, ArePlaced-length sections places n h.1)
ArePlaced-length [] (m ∷ places) n h = absurd h
ArePlaced-length (s ∷ sections) [] n h = absurd h

pub ArePlaced-words :
    (sections : List Section) (places : List SectionMap) (n : ℕ)
    → ArePlaced sections places n
    → All IsWord places
ArePlaced-words [] [] n h = tt
ArePlaced-words (s ∷ sections) (m ∷ places) zero h = absurd h
ArePlaced-words (s ∷ sections) (m ∷ places) (suc n) h =
    (h.0.2, ArePlaced-words sections places n h.1)
ArePlaced-words [] (m ∷ places) n h = absurd h
ArePlaced-words (s ∷ sections) [] n h = absurd h

-- At most `n` directories have become segments.
abbrev pub HasDirectories : ℕ → Directories × Bool → Type 0
HasDirectories n p = length p.0.segments ≤ n

module _ (bytes : Bytes) (image : IsImage bytes) (image_base : ℕ) where
  read_section-Returns :
      (so i : ℕ) (flag : Bool)
      → so < 2 ^ 40
      → Returns (λ p. IsPlaced p.0.0 p.0.1) (read_section bytes image_base so i flag)
  unfolding read_section pe_section
  read_section-Returns so i flag h =
      Returns-bind (λ _. Unit {0}) _ (fixed_string bytes flag so 8) _
        (fixed_string-Returns bytes flag so 8 (omega arith))
        λ (name, flag1) _. bind_u32 bytes image _ flag1 (so + 8) _ (omega arith) λ vsize flag2 _.
          bind_u32 bytes image _ flag2 (so + 12) _ (omega arith) λ va flag3 _.
            bind_u32 bytes image _ flag3 (so + 16) _ (omega arith) λ rawsize flag4 small.
              bind_u32 bytes image _ flag4 (so + 20) _ (omega arith) λ raw flag5 near.
                bind_u32 bytes image _ flag5 (so + 36) _ (omega arith)
                  λ flags flag6 _. (refl, refl, (near, small))

  pub section_loop-Returns :
      (sect_table rounds i : ℕ) (flag : Bool)
      → sect_table < 2 ^ 34
      → i + rounds ≤ 4096
      → Returns (Placed rounds) (section_loop bytes image_base sect_table rounds i flag)
  unfolding section_loop
  section_loop-Returns sect_table zero i flag near few = tt
  section_loop-Returns sect_table (suc rounds) i flag near few =
      elim (Bool-cases (ltb (length bytes) (sect_table + i * 40 + 40))) [
        | inl e ↦ rw e tt
        | inr e ↦ rw e (
            Returns-bind (λ p. IsPlaced p.0.0 p.0.1) (Placed (suc rounds))
              (read_section bytes image_base (sect_table + i * 40) i flag) _
              (read_section-Returns (sect_table + i * 40) i flag (omega arith))
              λ ((section, place), flag') placed.
                Returns-bind (Placed rounds) (Placed (suc rounds))
                  (section_loop bytes image_base sect_table rounds (i + 1) flag') _
                  (section_loop-Returns sect_table rounds (i + 1) flag' near (omega arith))
                  λ _ r. (placed, r))
      ]

  visit_directory-Returns :
      (i rva size : ℕ) (d : Directories)
      → i < 16
      → Returns
          (λ d'. length d'.segments ≤ suc (length d.segments))
          (visit_directory image_base i rva size d)
  unfolding dir_names add_directory
  visit_directory-Returns i rva size d h = elim (Bool-cases (rva == 0 && size == 0)) [
    | inl e ↦ rw e (omega arith)
    | inr e ↦
        let (name, at, _) = element-eq dir_names i h in
        rw (e, at) (omega (arith, length-append {0} d.segments))
  ]

  pub directory_loop-Returns :
      (datadir_off rounds i : ℕ) (flag : Bool) (d : Directories)
      → datadir_off < 2 ^ 34
      → i + rounds ≤ 16
      → length d.segments ≤ i
      → Returns
          (HasDirectories (i + rounds))
          (directory_loop bytes image_base datadir_off rounds i flag d)
  unfolding directory_loop
  directory_loop-Returns datadir_off zero i flag d near few h = omega arith
  directory_loop-Returns datadir_off (suc rounds) i flag d near few h =
      bind_u32 bytes image _ flag (datadir_off + i * 8) _ (omega arith) λ rva flag1 _.
        bind_u32 bytes image _ flag1 (datadir_off + i * 8 + 4) _ (omega arith) λ size flag2 _.
          Returns-bind (λ d'. length d'.segments ≤ suc (length d.segments))
            (HasDirectories (i + suc rounds)) (visit_directory image_base i rva size d) _
            (visit_directory-Returns i rva size d (omega arith))
            λ d' one.
              Returns-weaken (HasDirectories ((i + 1) + rounds)) (HasDirectories (i + suc rounds)) _
                (directory_loop-Returns datadir_off rounds (i + 1) flag2 d' near (omega arith)
                  (omega arith))
                λ p few'. omega arith
