-- ===== src/Elf/Adapter/View/Safe.antt =====
-- An opened file: no fault while its view is built, and every section can be read in full.
use roe.Base.{
  ℕ, ◌+◌, ◌-◌, ◌≤◌, ◌≡◌, ◌≢◌, refl, Bool, true, false, ◌||◌, List, [], ◌∷◌, length, length-take,
  length-drop, map, take, drop, All, arith, ltb, ◌==◌, Bool-cases, inl, inr, sym, subst,
}
use roe.Base.Text.{Text, text, text_eq}
use roe.Core.Result.{
  ok, aborted, Gives-Returns, Returns, Returns-bind, Returns-ok, Returns-ne-aborted,
}
use roe.Binary.Types
use roe.Elf.Types.{Bytes, IsImage, File, FileType, Section, Segment}
use roe.Elf.Strings.{sht_nobits}
use roe.Elf.Parse.{parse_bytes}
use roe.Elf.Parse.Safe.{IsWellFormed, HasBytes, parse_bytes-Returns}
use roe.Elf.Adapter.{adapter_kind, mapped_section}
use roe.Elf.Adapter.Dynamic.{segment_type_name, mapped_segment, populate_dynamic}
use roe.Elf.Adapter.Dynamic.Safe.{HasSegments, populate_dynamic-Returns}
use roe.Elf.Reader.Windows.{slice-ok}
use roe.Elf.Adapter.Strings.{extract_strings}
use roe.Elf.Adapter.Strings.Laws.{AreLiterals, extract_strings-All}
use roe.Elf.Adapter.View.{
  ElfBinaryFile, open_bytes, build_view, build_object, view_section_bytes, has_interpreter, kind_of,
}

-- The section is read as the bytes of the image at its place, as many as its size.
abbrev pub IsServed : Bytes → ElfBinaryFile → Section → Type 0
IsServed image b s =
    s.type ≢ sht_nobits
    → (view_section_bytes b (mapped_section s)
        ≡ ok (record {
          object_index = 0;
          section_name = s.name;
          address = s.address;
          bytes = take s.size (drop s.offset image);
        }))
      × (length (take s.size (drop s.offset image)) ≡ s.size)

-- What an opened file promises: its view has one object, with the sections of the parsed file, and
-- each of these that has bytes is served. No section makes the read abort.
abbrev pub IsOpened : Bytes → ElfBinaryFile → Type 0
IsOpened image b =
    (o : Types.Object) × (b.view.objects ≡ o ∷ [])
    × (o.sections ≡ map mapped_section b.file.sections)
    × All (IsServed image b) b.file.sections
    × ((s : Types.Section) → view_section_bytes b s ≢ aborted)

readable : (b : ElfBinaryFile) (s : Types.Section) → view_section_bytes b s ≢ aborted
unfolding view_section_bytes
readable b s =
    elim (Bool-cases
      (ltb (length b.file.image) s.offset || ltb (length b.file.image - s.offset) s.size)) [
        | inl e ↦ rw e (λ h. cc)
        | inr e ↦
            let fits : s.offset + s.size ≤ length b.file.image = ground arith in
            rw (e, slice-ok b.file.image s.offset s.size fits) (λ h. cc)
      ]

length-window :
    (image : Bytes) (offset size : ℕ)
    → offset + size ≤ length image
    → length (take size (drop offset image)) ≡ size
length-window image offset size h =
    omega (arith, length-take size (drop offset image), length-drop offset image)

HasBytes-IsServed :
    (b : ElfBinaryFile) (s : Section) → HasBytes b.file.image s → IsServed b.file.image b s
unfolding view_section_bytes
HasBytes-IsServed b s inside ne =
    let fits = inside ne in
    let test : (ltb (length b.file.image) s.offset || ltb (length b.file.image - s.offset) s.size)
        ≡ false =
      ground arith in
    rw (test, slice-ok b.file.image s.offset s.size fits)
      (refl, length-window b.file.image s.offset s.size fits)

All-IsServed :
    (b : ElfBinaryFile) (sections : List Section)
    → All (HasBytes b.file.image) sections
    → All (IsServed b.file.image b) sections
All-IsServed b [] all = tt
All-IsServed b (s ∷ sections) all = (HasBytes-IsServed b s all.0, All-IsServed b sections all.1)

-- The object that `build_object` makes of a file.
abbrev Mirrors : File → Types.Object → Type 0
Mirrors file o = o.sections ≡ map mapped_section file.sections

strings-Returns : (file : File) → Returns (AreLiterals file 0) (extract_strings file 0)
strings-Returns file = Gives-Returns (AreLiterals file 0) _ (extract_strings-All file 0)

build_view-Returns :
    (file : File)
    → IsImage file.image
    → Returns (λ v. (o : Types.Object) × (v.objects ≡ o ∷ []) × Mirrors file o) (build_view file)
unfolding build_view build_object
build_view-Returns file i =
    Returns-bind (Mirrors file) _ (build_object file) _
      (Returns-bind (HasSegments file) (Mirrors file) (populate_dynamic file) _
        (populate_dynamic-Returns file i)
        λ _ _.
          Returns-bind _ (Mirrors file) (extract_strings file 0) _ (strings-Returns file)
            λ _ _. refl)
      λ o same. (o, refl, same)

pub open_bytes-Returns :
    (source_name : Text) (image : Bytes)
    → IsImage image
    → Returns (IsOpened image) (open_bytes source_name image)
unfolding open_bytes
open_bytes-Returns source_name image i =
    Returns-bind (IsWellFormed image) (IsOpened image) (parse_bytes source_name image) _
      (parse_bytes-Returns source_name image i)
      λ file w.
        Returns-bind (λ v. (o : Types.Object) × (v.objects ≡ o ∷ []) × Mirrors file o)
          (IsOpened image) (build_view file) _ (build_view-Returns file (rw w.image_kept i))
          λ v (o, single, same).
            (o, single, same, served file v w, readable (record { file = file; view = v }))
  where
    served :
        (file : File) (v : Types.FileView)
        → IsWellFormed image file
        → All (IsServed image (record { file = file; view = v })) file.sections
    served file v w =
        subst
          (λ (bytes : Bytes). All (IsServed bytes (record { file = file; view = v })) file.sections)
          w.image_kept
          (All-IsServed (record { file = file; view = v }) file.sections
            (subst (λ (bytes : Bytes). All (HasBytes bytes) file.sections) (sym w.image_kept)
              w.sections_inside))

-- Opening an image does not abort: neither the parser nor the building of the view reads outside a
-- buffer or takes the value of a failed read, also where the dynamic section's entries are arbitrary.
pub open_bytes-ne-aborted :
    (source_name : Text) (image : Bytes) → IsImage image → open_bytes source_name image ≢ aborted
open_bytes-ne-aborted source_name image i =
    Returns-ne-aborted (IsOpened image) (open_bytes source_name image)
      (open_bytes-Returns source_name image i)

-- The view of an image that was opened has one object, with a section for each section of the parsed
-- file. Each of these that is not SHT_NOBITS is read as the bytes of the image at its offset, as many
-- as its size. Whatever a section says, the read of its bytes does not leave the image.
pub open_bytes-IsOpened :
    (source_name : Text) (image : Bytes) (b : ElfBinaryFile)
    → IsImage image
    → open_bytes source_name image ≡ ok b
    → IsOpened image b
open_bytes-IsOpened source_name image b i e =
    Returns-ok (IsOpened image) (open_bytes source_name image) b e
      (open_bytes-Returns source_name image i)

segment_type_name_lem : (type : ℕ) → text_eq (segment_type_name type) (text "INTERP") ≡ (type == 3)
unfolding segment_type_name text text_eq
segment_type_name_lem type = ground arith

-- The file has a program header of type PT_INTERP.
abbrev pub any_interpreter : List Segment → Bool
any_interpreter [] = false
any_interpreter (s ∷ segments) = s.type == 3 || any_interpreter segments

has_interpreter-map :
    (segments : List Segment)
    → has_interpreter (map mapped_segment segments) ≡ any_interpreter segments
unfolding has_interpreter
has_interpreter-map [] = refl
has_interpreter-map (s ∷ segments) =
    rw (segment_type_name_lem s.type, has_interpreter-map segments) refl

-- The kind of a file with and without an interpreter.
abbrev pub kind_with : FileType → Bool → Types.ObjectKind
kind_with FileType.executable b = Types.ObjectKind.executable
kind_with FileType.shared_object true = Types.ObjectKind.executable
kind_with FileType.shared_object false = Types.ObjectKind.shared_library
kind_with FileType.relocatable b = Types.ObjectKind.relocatable
kind_with _ b = Types.ObjectKind.unknown

kind_of_lem :
    (type : FileType) (segments : List Segment)
    → kind_of (adapter_kind type) (map mapped_segment segments)
      ≡ kind_with type (any_interpreter segments)
unfolding kind_of adapter_kind
kind_of_lem FileType.none segments = refl
kind_of_lem FileType.relocatable segments = refl
kind_of_lem FileType.executable segments = refl
kind_of_lem FileType.shared_object segments = elim (Bool-cases (any_interpreter segments)) [
  | inl e ↦ rw (has_interpreter-map segments, e)
  | inr e ↦ rw (has_interpreter-map segments, e)
]
kind_of_lem FileType.core segments = refl
kind_of_lem FileType.other segments = refl

-- The object of a file on an image is built, and its kind follows from the file's type and program
-- headers: a shared object with a header of type PT_INTERP is an executable, and without one a shared
-- library; executables and relocatable files keep their kind, and the kind of others is unknown.
pub build_object-kind :
    (file : File)
    → IsImage file.image
    → Returns
        (λ o. o.kind ≡ kind_with file.file_type (any_interpreter file.segments))
        (build_object file)
unfolding build_object
build_object-kind file i =
    Returns-bind (HasSegments file)
      (λ o. o.kind ≡ kind_with file.file_type (any_interpreter file.segments))
      (populate_dynamic file) _ (populate_dynamic-Returns file i)
      λ p same.
        Returns-bind (AreLiterals file 0) _ (extract_strings file 0) _ (strings-Returns file)
          λ _ _. rw same (kind_of_lem file.file_type file.segments)
