-- ===== src/Elf/Strings/Safe.antt =====
-- Strings are read inside their table, and hold no zero byte.
use roe.Base.{
  ℕ, zero, suc, ◌+◌, ◌-◌, ◌≤◌, ◌<◌, ◌≡◌, refl, true, false, [], ◌∷◌, ◌++◌, length, length-take, sym,
  ltb, take, drop, leb, ◌==◌, Bool-cases, inl, inr, arith, leb→lt, Option, none, some, Option-cases,
  if◌then◌else◌, ap, ◌∙◌,
}
use mathlib.Core.Option
use mathlib.Core.Option.{some-injective}
use roe.Base.Text.{Text, text}
use roe.Core.Error.{Error, make_error_at, malformed_input}
use roe.Core.Result.{Result, ok, err, reject, element, Returns, Returns-bind}
use roe.Elf.Types.{Bytes, RawSection, Pointer, null, at, ByteRange}
use roe.Elf.Reader.{validate_range}
use roe.Elf.Reader.Bounds.{validate_range-Returns}
use roe.Elf.Strings.{
  range_for_section, find_end, string_at, nonzero_string, string_from_table, sht_nobits,
  section_label, outside,
}

-- All of a table that has a position lies inside the image.
abbrev pub Inside : Bytes → Pointer → ℕ → Type 0
Inside image null size = Unit {0}
Inside image (at base) size = base + size ≤ length image

pub range_for_section-Returns :
    (image : Bytes) (raw : RawSection)
    → Returns (λ t. Inside image t.data_pointer t.size) (range_for_section image raw)
unfolding range_for_section
range_for_section-Returns image raw = elim (Bool-cases (raw.section.type == sht_nobits)) [
  | inl e ↦ rw e tt
  | inr e ↦ rw e (
      Returns-bind (λ _. raw.section.offset + raw.section.size ≤ length image)
        (λ t. Inside image t.data_pointer t.size)
        (validate_range raw.section.offset raw.section.size (length image)
          (section_label raw.section.name))
        _ (validate_range-Returns raw.section.offset raw.section.size (length image) _) λ _ h. h)
]

-- The bytes before the first zero byte, if there is one.
unfoldable pub until_zero : Bytes → Option Text
until_zero [] = none
until_zero (b ∷ bs) = if b == 0 then some [] else Option.map (λ s. b ∷ s) (until_zero bs)

prefix_cons :
    (b : ℕ) (bs t s : Bytes)
    → b ∷ t ≡ s
    → (take (length t) bs ≡ t) × (length t < length bs)
    → (take (length s) (b ∷ bs) ≡ s) × (length s < suc (length bs))
prefix_cons b bs t s q h = rw (← q) (ap (λ (u : Bytes). b ∷ u) h.0, omega arith)

-- What is found is the front of the bytes, and shorter than they are.
until_zero-prefix :
    (bs : Bytes) (s : Text)
    → until_zero bs ≡ some s
    → (take (length s) bs ≡ s) × (length s < length bs)
unfolding until_zero
until_zero-prefix [] s e = cc
until_zero-prefix (b ∷ bs) s e = elim (Bool-cases (b == 0)) [
  | inl z ↦ let q : [] ≡ s = some-injective _ _ (rw z at e) in rw (← q) (refl, omega arith)
  | inr nz ↦ elim (Option-cases (until_zero bs)) [
    | inl n ↦ let q : none ≡ some s = rw (nz, n) at e in cc
    | inr (t, h) ↦
        let q : some (b ∷ t) ≡ some s = rw (nz, h) at e in
        prefix_cons b bs t s (some-injective _ _ q) (until_zero-prefix bs t h)
  ]
]

-- One position of an image.
drop_step :
    (xs : Bytes) (i : ℕ)
    → i < length xs
    → (x : ℕ) × (element xs i ≡ ok x) × (drop i xs ≡ x ∷ drop (suc i) xs)
unfolding element
drop_step [] i h = elim h [ ]
drop_step (x ∷ xs) zero h = (x, refl, refl)
drop_step (x ∷ xs) (suc i) h = drop_step xs i (omega arith)

abbrev ends : ℕ → ℕ → Option Text → Result ℕ
ends end rounds none = ok (end + rounds)
ends end rounds (some s) = ok (end + length s)

ends_cons :
    (x end rounds : ℕ) (o : Option Text)
    → ends (end + 1) rounds o ≡ ends end (suc rounds) (Option.map (λ s. x ∷ s) o)
ends_cons x end rounds none = ap ok (omega arith)
ends_cons x end rounds (some s) = ap ok (omega arith)

find_end_step :
    (image : Bytes) (base rounds end x : ℕ) (rest : Bytes)
    → element image (base + end) ≡ ok x
    → find_end image base rounds (end + 1) ≡ ends (end + 1) rounds (until_zero rest)
    → find_end image base (suc rounds) end ≡ ends end (suc rounds) (until_zero (x ∷ rest))
unfolding find_end until_zero
find_end_step image base rounds end x rest e ih = elim (Bool-cases (x == 0)) [
  | inl z ↦ rw (e, z) (ap ok (omega arith))
  | inr nz ↦ rw (e, nz) (ih ∙ ends_cons x end rounds (until_zero rest))
]

-- The loop finds the first zero byte of the window, or its end.
find_end_lem :
    (image : Bytes) (base rounds end : ℕ)
    → base + end + rounds ≤ length image
    → find_end image base rounds end
      ≡ ends end rounds (until_zero (take rounds (drop (base + end) image)))
unfolding find_end until_zero
find_end_lem image base zero end h = ap ok (omega arith)
find_end_lem image base (suc rounds) end h =
    let (x, e, d) = drop_step image (base + end) (omega arith) in
    let next : base + (end + 1) ≡ suc (base + end) = omega arith in
    let ih = find_end_lem image base rounds (end + 1) (omega arith) in
    rw d (
      find_end_step image base rounds end x (take rounds (drop (suc (base + end)) image)) e
        (rw next at ih))

-- What a string of a table is to be.
abbrev c_string : Option Text → Error → Result Text
c_string none e = err e
c_string (some s) e = ok s

take-take : (k n : ℕ) (xs : Bytes) → k ≤ n → take k (take n xs) ≡ take k xs
take-take zero n xs h = refl
take-take (suc k) zero xs h = absurd (omega arith)
take-take (suc k) (suc n) [] h = refl
take-take (suc k) (suc n) (x ∷ xs) h = ap (λ (u : Bytes). x ∷ u) (take-take k n xs (omega arith))

string_at_lem :
    (image : Bytes) (base size offset : ℕ) (table_name : Text)
    → offset < size
    → base + size ≤ length image
    → string_at image base size offset table_name
      ≡ c_string
          (until_zero (take (size - offset) (drop (base + offset) image)))
          (make_error_at malformed_input (text "unterminated string in " ++ table_name) offset)
unfolding string_at reject
string_at_lem image base size offset table_name h fits =
    let window = take (size - offset) (drop (base + offset) image) in
    let loop = find_end_lem image base (size - offset) offset (omega arith) in
    elim (Option-cases (until_zero window)) [
      | inl n ↦
          let stop : (offset + (size - offset) == size) ≡ true = ground arith in rw (loop, n, stop)
      | inr (s, e) ↦
          let (front, short) = until_zero-prefix window s e in
          let inside : length s < size - offset =
            omega (arith, short, length-take (size - offset) (drop (base + offset) image)) in
          let stop : (offset + length s == size) ≡ false = ground arith in
          let count : offset + length s - offset ≡ length s = omega arith in
          rw (loop, e, stop, count)
            (ap ok (
              sym (take-take (length s) (size - offset) (drop (base + offset) image) (omega arith))
              ∙ front))
    ]

abbrev pub table_string : Bytes → Pointer → ℕ → ℕ → Text → Result Text
table_string image pointer size zero table_name = ok []
table_string image null size (suc offset) table_name = err (outside table_name (suc offset))
table_string image (at base) size (suc offset) table_name =
    if ltb (suc offset) size
    then c_string (until_zero (take (size - suc offset) (drop (base + suc offset) image)))
        (make_error_at malformed_input (text "unterminated string in " ++ table_name) (suc offset))
    else err (outside table_name (suc offset))

nonzero_string_lem :
    (image : Bytes) (pointer : Pointer) (size offset : ℕ) (table_name : Text)
    → Inside image pointer size
    → nonzero_string image pointer size (suc offset) table_name
      ≡ table_string image pointer size (suc offset) table_name
unfolding nonzero_string
nonzero_string_lem image null size offset table_name fits = refl
nonzero_string_lem image (at base) size offset table_name fits =
    elim (Bool-cases (leb size (suc offset))) [
      | inl e ↦ let out : ltb (suc offset) size ≡ false = ground arith in rw (e, out)
      | inr e ↦
          let inside : ltb (suc offset) size ≡ true = ground arith in
          rw (e, inside) (string_at_lem image base size (suc offset) table_name (leb→lt _ _ e) fits)
    ]

table_string-Returns :
    (image : Bytes) (pointer : Pointer) (size offset : ℕ) (table_name : Text)
    → Returns (λ _. Unit {0}) (table_string image pointer size offset table_name)
table_string-Returns image pointer size zero table_name = tt
table_string-Returns image null size (suc offset) table_name = tt
table_string-Returns image (at base) size (suc offset) table_name = ground arith

-- A name is empty at offset zero. At another offset inside its table it is what stands before the
-- first zero byte of the table from there on, and an error if there is none. Outside the table, or
-- in a section without bytes, it is an error. The table lies inside the image.
pub string_from_table_lem :
    (image : Bytes) (table : ByteRange) (offset : ℕ) (table_name : Text)
    → Inside image table.data_pointer table.size
    → string_from_table image table offset table_name
      ≡ table_string image table.data_pointer table.size offset table_name
unfolding string_from_table
string_from_table_lem image table zero table_name fits = refl
string_from_table_lem image table (suc offset) table_name fits =
    let more : (suc offset == 0) ≡ false = ground arith in
    rw more (nonzero_string_lem image table.data_pointer table.size offset table_name fits)

pub string_from_table-Returns :
    (image : Bytes) (table : ByteRange) (offset : ℕ) (table_name : Text)
    → Inside image table.data_pointer table.size
    → Returns (λ _. Unit {0}) (string_from_table image table offset table_name)
string_from_table-Returns image table offset table_name fits =
    rw (string_from_table_lem image table offset table_name fits)
      (table_string-Returns image table.data_pointer table.size offset table_name)
