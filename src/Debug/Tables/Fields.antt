-- ===== src/Debug/Tables/Fields.antt =====
-- The entries of the tables of version 5 are read inside the section.
use roe.Base.{
  ℕ, zero, suc, ◌^◌, ◌≤◌, ◌<◌, Bool, ◌||◌, List, [], ◌∷◌, length, arith, ◌==◌, if◌then◌else◌,
}
use roe.Base.Text.{Text}
use roe.Elf.Types.{Bytes, Endianness}
use roe.Debug.Cursor.{Read, pure, while_ok, ◌>>=◌, ◌>>◌, u8, u16, uleb, cstring, skip}
use roe.Debug.Cursor.Moves.{u16-Moves}
use roe.Debug.Cursor.Texts.{skip-Moves, cstring-Moves, while_ok-Moves}
use roe.Debug.Tables.{
  Tables, EntryFormat, join_path, read_formats, read_offset, path_field, path_fields, read_v5_path,
  read_directories, file_field, file_fields, read_files, read_new_tables,
}
use roe.Debug.Tables.Safe.{
  Stays, leb128-Stays, byte-Stays, then-Stays, pure-Stays, map-Stays, choose-Stays,
  read_offset-Stays,
}

module _ (bytes : Bytes) (size : length bytes < 2 ^ 63) (order : Endianness) (tables : Tables)
    (dwarf64 : Bool) where
  abbrev Safe : {A : Type 0} → Read A → Type 0
  Safe m = Stays bytes size order m

  done : {A : Type 0} (a : A) → Safe (pure a)
  done a = pure-Stays bytes size order a

  choose : {A : Type 0} (b : Bool) (m n : Read A) → Safe m → Safe n → Safe (if b then m else n)
  choose b m n h k = choose-Stays bytes size order b m n h k

  skipped : {A : Type 0} (count : ℕ) (a : A) → count ≤ 16 → Safe (skip bytes count >> pure a)
  skipped count a small =
      then-Stays bytes size order (skip bytes count) _ (skip-Moves bytes size count small)
        λ _. pure-Stays bytes size order a

  text_into : {A : Type 0} (f : Text → A) → Safe (cstring bytes >>= λ a. pure (f a))
  text_into f = map-Stays bytes size order (cstring bytes) f (cstring-Moves bytes size)

  leb128_into : {A : Type 0} (f : ℕ → A) → Safe (uleb bytes >>= λ a. pure (f a))
  leb128_into f = map-Stays bytes size order (uleb bytes) f (leb128-Stays bytes size order)

  byte_into : {A : Type 0} (f : ℕ → A) → Safe (u8 bytes >>= λ a. pure (f a))
  byte_into f = map-Stays bytes size order (u8 bytes) f (byte-Stays bytes size order)

  word_into : {A : Type 0} (f : ℕ → A) → Safe (u16 bytes order >>= λ a. pure (f a))
  word_into f =
      map-Stays bytes size order (u16 bytes order) f
        (u16-Moves (length bytes) bytes (omega arith) (omega arith) order)

  offset_into :
      {A : Type 0} (f : ℕ → A) → Safe (read_offset bytes order dwarf64 >>= λ a. pure (f a))
  offset_into f =
      map-Stays bytes size order (read_offset bytes order dwarf64) f
        (read_offset-Stays bytes size order dwarf64)

  path_field-Safe :
      (e : EntryFormat) (path : Text) → Safe (path_field bytes order tables dwarf64 e path)
  unfolding path_field
  path_field-Safe (content, form) path = choose (form == 0x08) _ _ (text_into _) (
      choose (form == 0x1f || form == 0x0e) _ _ (offset_into _) (
        choose (form == 0x0f || form == 0x1a) _ _ (leb128_into _) (
          choose (form == 0x25 || form == 0x0b) _ _ (skipped 1 path (omega arith)) (
            choose (form == 0x26 || form == 0x05) _ _ (skipped 2 path (omega arith)) (
              choose (form == 0x27) _ _ (skipped 3 path (omega arith)) (
                choose (form == 0x28 || form == 0x06) _ _ (skipped 4 path (omega arith)) (
                  choose (form == 0x07) _ _ (skipped 8 path (omega arith)) (
                    choose (form == 0x1e) _ _ (skipped 16 path (omega arith))
                      (leb128_into _)))))))))

  file_field-Safe :
      (e : EntryFormat) (found : Text × ℕ) → Safe (file_field bytes order tables dwarf64 e found)
  unfolding file_field
  file_field-Safe (content, form) (name, dir_index) =
      let found : Text × ℕ = (name, dir_index) in
      choose (form == 0x08) _ _ (text_into _) (
        choose (form == 0x1f || form == 0x0e) _ _ (offset_into _) (
          choose (form == 0x0f) _ _ (leb128_into _) (
            choose (form == 0x0b) _ _ (byte_into _) (
              choose (form == 0x05) _ _ (word_into _) (
                choose (form == 0x06) _ _ (skipped 4 found (omega arith)) (
                  choose (form == 0x07) _ _ (skipped 8 found (omega arith)) (
                    choose (form == 0x1e) _ _ (skipped 16 found (omega arith)) (
                      choose (form == 0x25) _ _ (skipped 1 found (omega arith)) (
                        choose (form == 0x26) _ _ (skipped 2 found (omega arith))
                          (leb128_into _))))))))))

  chain :
      {A B : Type 0} (m : Read A) (f : A → Read B)
      → Safe m
      → ((a : A) → Safe (f a))
      → Safe (m >>= f)
  chain m f h k = then-Stays bytes size order m f h k

  path_fields-Safe :
      (formats : List EntryFormat) (path : Text)
      → Safe (path_fields bytes order tables dwarf64 formats path)
  unfolding path_fields
  path_fields-Safe [] path = done path
  path_fields-Safe (e ∷ formats) path =
      chain (path_field bytes order tables dwarf64 e path) _ (path_field-Safe e path)
        λ next. path_fields-Safe formats next

  file_fields-Safe :
      (formats : List EntryFormat) (found : Text × ℕ)
      → Safe (file_fields bytes order tables dwarf64 formats found)
  unfolding file_fields
  file_fields-Safe [] found = done found
  file_fields-Safe (e ∷ formats) found =
      chain (file_field bytes order tables dwarf64 e found) _ (file_field-Safe e found)
        λ next. file_fields-Safe formats next

  guarded : {A : Type 0} (a : A) (m : Read A) → Safe m → Safe (while_ok a m)
  guarded a m h = while_ok-Moves bytes size a m h

  read_directories-Safe :
      (formats : List EntryFormat) (n : ℕ)
      → Safe (read_directories bytes order tables dwarf64 formats n)
  unfolding read_directories read_v5_path
  read_directories-Safe formats zero = done {A = List Text} []
  read_directories-Safe formats (suc n) = guarded [] _ (
      chain (path_fields bytes order tables dwarf64 formats []) _ (path_fields-Safe formats [])
        λ path.
          chain (read_directories bytes order tables dwarf64 formats n) _
            (read_directories-Safe formats n) λ directories. done (path ∷ directories))

  read_files-Safe :
      (directories : List Text) (formats : List EntryFormat) (n : ℕ)
      → Safe (read_files bytes order tables dwarf64 directories formats n)
  unfolding read_files
  read_files-Safe directories formats zero = done {A = List Text} []
  read_files-Safe directories formats (suc n) = guarded [] _ (
      chain (file_fields bytes order tables dwarf64 formats ([], 0)) _
        (file_fields-Safe formats ([], 0))
        λ (name, dir_index).
          chain (read_files bytes order tables dwarf64 directories formats n) _
            (read_files-Safe directories formats n)
            λ files. done (join_path directories name dir_index ∷ files))

  read_formats-Safe : (n : ℕ) → Safe (read_formats bytes order n)
  unfolding read_formats
  read_formats-Safe zero = done {A = List EntryFormat} []
  read_formats-Safe (suc n) = chain (uleb bytes) _ (leb128-Stays bytes size order) λ content.
      chain (uleb bytes) _ (leb128-Stays bytes size order) λ form.
        chain (read_formats bytes order n) _ (read_formats-Safe n)
          λ formats. done ((content, form) ∷ formats)

  pub read_new_tables-Stays : Stays bytes size order (read_new_tables bytes order tables dwarf64)
  unfolding read_new_tables
  read_new_tables-Stays = chain (u8 bytes) _ (byte-Stays bytes size order) λ dir_format_count.
      chain (read_formats bytes order dir_format_count) _ (read_formats-Safe dir_format_count)
        λ dir_formats. chain (uleb bytes) _ (leb128-Stays bytes size order) λ dir_count.
          chain (read_directories bytes order tables dwarf64 dir_formats dir_count) _
            (read_directories-Safe dir_formats dir_count)
            λ directories. chain (u8 bytes) _ (byte-Stays bytes size order) λ file_format_count.
              chain (read_formats bytes order file_format_count) _
                (read_formats-Safe file_format_count)
                λ file_formats.
                  chain (uleb bytes) _ (leb128-Stays bytes size order)
                    λ file_count. read_files-Safe directories file_formats file_count
