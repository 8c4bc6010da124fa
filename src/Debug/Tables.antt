-- ===== src/Debug/Tables.antt =====
-- src/debug/debug.cpp, parse_unit: the tables of directories and files in the header of a unit.
pub mod Safe
pub mod Fields
use roe.Base.{
  ℕ, zero, suc, Bool, ◌&&◌, ◌||◌, not, List, [], ◌∷◌, ◌++◌, length, get_or, ltb, ◌==◌,
  if◌then◌else◌,
}
use roe.Base.Text.{Text, text, is_empty}
use roe.Elf.Types.{Bytes, Endianness}
use roe.Debug.Cursor.{
  Read, pure, no_round, while_ok, ◌>>=◌, ◌>>◌, u8, u16, u32, u64, uleb, cstring, skip, string_at,
}

-- The struct Tables, less the line table, which the cursor reads.
pub record Tables : Type 0 where
  pub line_str : Bytes
  pub str : Bytes

-- A content type and a form.
abbrev pub EntryFormat : Type 0
EntryFormat = ℕ × ℕ

-- The path of a file from its name and its directory.
unfoldable pub join_path : List Text → Text → ℕ → Text
join_path directories name dir_index =
    if (not (is_empty name) && not (get_or name 0 0 == b'/')) && ltb dir_index (length directories)
    then (let dir = get_or directories dir_index [] in
        if is_empty dir then name else dir ++ text "/" ++ name)
    else name

module _ (bytes : Bytes) (order : Endianness) where
  -- The directories of versions up to 4, at most `rounds` of them. The last round is not reached:
  -- a name that is not empty passes a byte, and `rounds` is above the number of bytes.
  unfoldable pub directory_loop : ℕ → Read (List Text)
  directory_loop zero = no_round
  directory_loop (suc rounds) = cstring bytes >>= λ dir.
      if is_empty dir
      then pure []
      else (directory_loop rounds >>= λ directories. pure (dir ∷ directories))

  unfoldable pub file_loop : List Text → ℕ → Read (List Text)
  file_loop directories zero = no_round
  file_loop directories (suc rounds) = cstring bytes >>= λ name.
      if is_empty name
      then pure []
      else (uleb bytes >>= λ dir_index. uleb bytes >>= λ mtime. uleb bytes >>= λ size.
          file_loop directories rounds >>= λ files.
          pure (join_path directories name dir_index ∷ files))

  -- The files of a unit of version 2, 3 or 4.
  unfoldable pub read_old_tables : Text → Read (List Text)
  read_old_tables comp_dir_hint = directory_loop (suc (length bytes)) >>= λ directories.
      file_loop (comp_dir_hint ∷ directories) (suc (length bytes)) >>= λ files. pure ([] ∷ files)

  unfoldable pub read_formats : ℕ → Read (List EntryFormat)
  read_formats zero = pure []
  read_formats (suc n) = uleb bytes >>= λ content.
      uleb bytes >>= λ form. read_formats n >>= λ formats. pure ((content, form) ∷ formats)

  -- `dwarf64 ? cursor.u64() : cursor.u32()`
  unfoldable pub read_offset : Bool → Read ℕ
  read_offset dwarf64 = if dwarf64 then u64 bytes order else u32 bytes order

  module _ (tables : Tables) (dwarf64 : Bool) where
    -- `string_at(form == dw_form_line_strp ? tables.line_str : tables.str, offset)`
    abbrev pub indirect : ℕ → ℕ → Text
    indirect form offset = string_at (if form == 0x1f then tables.line_str else tables.str) offset

    -- One field of an entry of read_v5_path. `path` is the path so far.
    unfoldable pub path_field : EntryFormat → Text → Read Text
    path_field (content, form) path =
        if form == 0x08
        then (cstring bytes >>= λ value. pure (if content == 1 then value else path))
        else if form == 0x1f || form == 0x0e
        then (read_offset dwarf64 >>= λ offset.
            pure (if content == 1 then indirect form offset else path))
        else if form == 0x0f || form == 0x1a
        then (uleb bytes >>= λ _. pure path)
        else if form == 0x25 || form == 0x0b
        then (skip bytes 1 >> pure path)
        else if form == 0x26 || form == 0x05
        then (skip bytes 2 >> pure path)
        else if form == 0x27
        then (skip bytes 3 >> pure path)
        else if form == 0x28 || form == 0x06
        then (skip bytes 4 >> pure path)
        else if form == 0x07
        then (skip bytes 8 >> pure path)
        else if form == 0x1e
        then (skip bytes 16 >> pure path)
        else (uleb bytes >>= λ _. pure path)

    unfoldable pub path_fields : List EntryFormat → Text → Read Text
    path_fields [] path = pure path
    path_fields (f ∷ formats) path = path_field f path >>= λ next. path_fields formats next

    unfoldable pub read_v5_path : List EntryFormat → Read Text
    read_v5_path formats = path_fields formats []

    -- The loop on the directories, of which `n` are left.
    unfoldable pub read_directories : List EntryFormat → ℕ → Read (List Text)
    read_directories formats zero = pure []
    read_directories formats (suc n) = while_ok [] (
        read_v5_path formats >>= λ path.
        read_directories formats n >>= λ directories. pure (path ∷ directories))

    -- One field of an entry of the file table. The name and the directory index so far.
    unfoldable pub file_field : EntryFormat → Text × ℕ → Read (Text × ℕ)
    file_field (content, form) (name, dir_index) =
        if form == 0x08
        then (cstring bytes >>= λ value. pure ((if content == 1 then value else name), dir_index))
        else if form == 0x1f || form == 0x0e
        then (read_offset dwarf64 >>= λ offset.
            pure ((if content == 1 then indirect form offset else name), dir_index))
        else if form == 0x0f
        then (uleb bytes >>= λ value. pure (name, (if content == 2 then value else dir_index)))
        else if form == 0x0b
        then (u8 bytes >>= λ value. pure (name, (if content == 2 then value else dir_index)))
        else if form == 0x05
        then (u16 bytes order >>= λ value. pure (name, (if content == 2 then value else dir_index)))
        else if form == 0x06
        then (skip bytes 4 >> pure (name, dir_index))
        else if form == 0x07
        then (skip bytes 8 >> pure (name, dir_index))
        else if form == 0x1e
        then (skip bytes 16 >> pure (name, dir_index))
        else if form == 0x25
        then (skip bytes 1 >> pure (name, dir_index))
        else if form == 0x26
        then (skip bytes 2 >> pure (name, dir_index))
        else (uleb bytes >>= λ _. pure (name, dir_index))

    unfoldable pub file_fields : List EntryFormat → Text × ℕ → Read (Text × ℕ)
    file_fields [] found = pure found
    file_fields (f ∷ formats) found = file_field f found >>= λ next. file_fields formats next

    unfoldable pub read_files : List Text → List EntryFormat → ℕ → Read (List Text)
    read_files directories formats zero = pure []
    read_files directories formats (suc n) = while_ok [] (
        file_fields formats ([], 0) >>= λ (name, dir_index).
        read_files directories formats n >>= λ files.
        pure (join_path directories name dir_index ∷ files))

    -- The files of a unit of version 5.
    unfoldable pub read_new_tables : Read (List Text)
    read_new_tables = u8 bytes >>= λ dir_format_count.
        read_formats dir_format_count >>= λ dir_formats. uleb bytes >>= λ dir_count.
        read_directories dir_formats dir_count >>= λ directories. u8 bytes >>= λ file_format_count.
        read_formats file_format_count >>= λ file_formats.
        uleb bytes >>= λ file_count. read_files directories file_formats file_count
