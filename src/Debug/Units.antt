-- ===== src/Debug/Units.antt =====
-- src/debug/debug.cpp: parse_unit, and the loop of load_source_map on the units.
pub mod Safe
pub mod Ends
use roe.Base.{
  ℕ, zero, suc, ◌+◌, ◌-◌, ◌^◌, Bool, true, false, ◌&&◌, ◌||◌, not, Option, none, some, List, [],
  ◌∷◌, length, ltb, leb, ◌==◌, if◌then◌else◌,
}
use roe.Base.Text.{Text}
use roe.Core.Result.{Result, ok, err, aborted}
use roe.Elf.Types.{Bytes, Endianness}
use roe.Elf.Reader.{add64}
use roe.Debug.Cursor.{Cursor, Read, pure, ◌>>=◌, ◌>>◌, tell, seek, u8, u16, u32, u64}
use roe.Debug.Tables.{Tables, read_offset, read_old_tables, read_new_tables}
use roe.Debug.Program.{Header, Machine, reset, run}
use roe.Debug.Lookup.{ParsedUnit}

-- The type std::int8_t, as 64 bits.
abbrev pub signed_byte : ℕ → ℕ
signed_byte b = if ltb b 128 then b else b + (2 ^ 64 - 256)

-- The length of a unit or its header, and whether it takes 64 bits.
abbrev pub Length : Type 0
Length = ℕ × Bool

-- The cursor that load_source_map makes.
abbrev pub front : Cursor
front = record { position = 0; error = false }

module _ (bytes : Bytes) (order : Endianness) (tables : Tables) (comp_dir_hint : Text) where
  unfoldable pub read_length : Read Length
  read_length = u32 bytes order >>= λ n.
      if n == 0xffff_ffff then (u64 bytes order >>= λ m. pure (m, true)) else pure (n, false)

  unfoldable pub read_bytes : ℕ → Read (List ℕ)
  read_bytes zero = pure []
  read_bytes (suc n) = u8 bytes >>= λ b. read_bytes n >>= λ rest. pure (b ∷ rest)

  -- A read that only some versions have.
  abbrev pub only_if : Bool → Read ℕ → Read (Unit {0})
  only_if test m = if test then (m >>= λ _. pure tt) else pure tt

  -- The header of the program, from the minimum length of an instruction on.
  unfoldable pub read_header : ℕ → Read Header
  read_header version = u8 bytes >>= λ minimum.
      only_if (leb 4 version) (u8 bytes) >> u8 bytes >>= λ default_is_stmt.
      u8 bytes >>= λ line_base. u8 bytes >>= λ line_range. u8 bytes >>= λ opcode_base.
      read_bytes (opcode_base - 1) >>= λ lengths. pure record {
        version = version;
        minimum_instruction_length = minimum;
        line_base = signed_byte line_base;
        line_range = line_range;
        opcode_base = opcode_base;
        standard_opcode_lengths = lengths;
      }

  -- The program of a unit, from its first byte on, and the jump to the end of the unit. It comes to
  -- nothing where `fuel` is too small for the loop of the program.
  abbrev pub unit_of : ℕ → List Text → Result (Option Machine) → Result (Option ParsedUnit × Cursor)
  unit_of unit_end files (ok none) = ok (none, record { position = 0; error = true })
  unit_of unit_end files (ok (some m)) =
      ok (some (m.rows, files), record m.cursor { position = unit_end })
  unit_of unit_end files (err e) = err e
  unit_of unit_end files aborted = aborted

  unfoldable pub run_unit : ℕ → ℕ → ℕ → Header → List Text → Read (Option ParsedUnit)
  run_unit fuel unit_end program_start h files c = unit_of unit_end files (
      run bytes order h fuel unit_end
        record { registers = reset h; cursor = record c { position = program_start }; rows = [] })

  -- What stands behind the version.
  unfoldable pub read_unit : ℕ → ℕ → Bool → ℕ → Read (Option ParsedUnit)
  read_unit fuel unit_end dwarf64 version =
      only_if (leb 5 version) (u8 bytes)
      >> only_if (leb 5 version) (u8 bytes)
      >> read_offset bytes order dwarf64
      >>= λ header_length. tell >>= λ position. read_header version >>= λ h.
          (if leb version 4
            then read_old_tables bytes order comp_dir_hint
            else read_new_tables bytes order tables dwarf64)
          >>= λ files. run_unit fuel unit_end (add64 position header_length) h files

  unfoldable pub parse_unit : ℕ → Read (Option ParsedUnit)
  parse_unit fuel = read_length >>= λ (unit_length, dwarf64). tell >>= λ position.
      u16 bytes order >>= λ version.
      let unit_end = add64 position unit_length in
      if ltb version 2 || ltb 5 version
      then (seek unit_end >> pure (some ([], [])))
      else read_unit fuel unit_end dwarf64 version

  -- The units behind one, where it was parsed and the cursor has moved forward.
  abbrev pub append_unit :
      ParsedUnit → Result (Option (List ParsedUnit)) → Result (Option (List ParsedUnit))
  append_unit unit (ok none) = ok none
  append_unit unit (ok (some units)) = ok (some (unit ∷ units))
  append_unit unit (err e) = err e
  append_unit unit aborted = aborted

  abbrev pub next_unit :
      Cursor
      → (Cursor → Result (Option (List ParsedUnit)))
      → Result (Option ParsedUnit × Cursor)
      → Result (Option (List ParsedUnit))
  next_unit before rest (ok (none, c)) = ok none
  next_unit before rest (ok (some unit, c)) =
      if leb c.position before.position then ok (some []) else append_unit unit (rest c)
  next_unit before rest (err e) = err e
  next_unit before rest aborted = aborted

  -- The loop on the units with `rounds` rounds left, and `fuel` rounds for each program.
  unfoldable pub load_units : ℕ → ℕ → Cursor → Result (Option (List ParsedUnit))
  load_units fuel zero c = ok none
  load_units fuel (suc rounds) c =
      if ltb c.position (length bytes) && not c.error
      then next_unit c (λ d. load_units fuel rounds d) (parse_unit fuel c)
      else ok (some [])
