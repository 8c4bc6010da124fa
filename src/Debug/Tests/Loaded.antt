-- ===== src/Debug/Tests/Loaded.antt =====
-- A line table of one unit, and the theorems at it.
use roe.Base.{suc, ◌^◌, ◌<◌, ◌≡◌, refl, arith, some, List, [], ◌∷◌, All}
use roe.Base.Text.{text, is_empty}
use roe.Core.Result.{Gives, ok, element}
use roe.Elf.Types.{Bytes, little}
use roe.Elf.Reader.{add64, mul64}
use roe.Debug.Cursor.{u8, little_loop, u16, u32, u64, uleb_loop, uleb, cstring_loop, cstring}
use roe.Debug.Tables.{Tables, join_path, directory_loop, file_loop, read_old_tables, read_offset}
use roe.Debug.Program.{
  Row, emit, reset, extended_body, extended_opcode, standard_opcode, special, special_opcode,
  dispatch, round, step, run,
}
use roe.Debug.Program.Loops.{short-ne-Wraps}
use roe.Debug.Units.{
  read_length, read_bytes, read_header, run_unit, read_unit, parse_unit, load_units, front,
}
use roe.Debug.Units.Ends.{Unless, load_units-Gives, load_units-total}
use roe.Debug.Tests.{two_rows}

-- Version 3, one file in the directory of the compilation, and the program of two rows.
abbrev line_table : Bytes
line_table =
    47 ∷ 0 ∷ 0 ∷ 0 ∷ 3 ∷ 0 ∷ 24 ∷ 0 ∷ 0 ∷ 0 ∷ 1 ∷ 1 ∷ 1 ∷ 14 ∷ 13 ∷ 0 ∷ 1 ∷ 1 ∷ 1 ∷ 1 ∷ 0 ∷ 0 ∷ 0
    ∷ 1 ∷ 0 ∷ 0 ∷ 1 ∷ 0 ∷ b'a' ∷ 0 ∷ 0 ∷ 0 ∷ 0 ∷ 0 ∷ two_rows

abbrev no_tables : Tables
no_tables = record { line_str = []; str = [] }

abbrev rows : List Row
rows =
    record { address = 0x1004; file = 1; line = 8; column = 0 }
    ∷ record { address = 0x1008; file = 1; line = 8; column = 0 }
    ∷ []

loads :
    load_units line_table little no_tables (text "d") 20 52 front
    ≡ ok (some ((rows, [] ∷ text "d/a" ∷ []) ∷ []))
unfolding load_units parse_unit read_unit run_unit read_header read_bytes read_length read_offset
    read_old_tables file_loop directory_loop join_path is_empty cstring cstring_loop run step round
    dispatch extended_opcode extended_body standard_opcode special_opcode special emit reset u8 u16
    u32 u64 little_loop uleb uleb_loop add64 mul64 element text
loads = refl

load_units-Gives_example :
    Gives (λ _. Unit {0}) (load_units line_table little no_tables (text "d") 20 52 front)
load_units-Gives_example = load_units-Gives line_table (omega arith) little no_tables (text "d") 20

line_table-short : All (λ b. b < 128) line_table
line_table-short = (
  omega arith,
  (
    omega arith,
    (
      omega arith,
      (
        omega arith,
        (
          omega arith,
          (
            omega arith,
            (
              omega arith,
              (
                omega arith,
                (
                  omega arith,
                  (
                    omega arith,
                    (
                      omega arith,
                      (
                        omega arith,
                        (
                          omega arith,
                          (
                            omega arith,
                            (
                              omega arith,
                              (
                                omega arith,
                                (
                                  omega arith,
                                  (
                                    omega arith,
                                    (
                                      omega arith,
                                      (
                                        omega arith,
                                        (
                                          omega arith,
                                          (
                                            omega arith,
                                            (
                                              omega arith,
                                              (
                                                omega arith,
                                                (
                                                  omega arith,
                                                  (
                                                    omega arith,
                                                    (
                                                      omega arith,
                                                      (
                                                        omega arith,
                                                        (
                                                          omega arith,
                                                          (
                                                            omega arith,
                                                            (
                                                            omega arith,
                                                            (
                                                            omega arith,
                                                            (
                                                            omega arith,
                                                            (
                                                            omega arith,
                                                            (
                                                            omega arith,
                                                            (
                                                            omega arith,
                                                            (
                                                            omega arith,
                                                            (
                                                            omega arith,
                                                            (
                                                            omega arith,
                                                            (
                                                            omega arith,
                                                            (
                                                            omega arith,
                                                            (
                                                            omega arith,
                                                            (
                                                            omega arith,
                                                            (
                                                            omega arith,
                                                            (
                                                            omega arith,
                                                            (
                                                            omega arith,
                                                            (
                                                            omega arith,
                                                            (
                                                            omega arith,
                                                            (
                                                            omega arith,
                                                            (omega arith, (omega arith, tt)),
                                                            ),
                                                            ),
                                                            ),
                                                            ),
                                                            ),
                                                            ),
                                                            ),
                                                            ),
                                                            ),
                                                            ),
                                                            ),
                                                            ),
                                                            ),
                                                            ),
                                                            ),
                                                            ),
                                                            ),
                                                            ),
                                                            ),
                                                          ),
                                                        ),
                                                      ),
                                                    ),
                                                  ),
                                                ),
                                              ),
                                            ),
                                          ),
                                        ),
                                      ),
                                    ),
                                  ),
                                ),
                              ),
                            ),
                          ),
                        ),
                      ),
                    ),
                  ),
                ),
              ),
            ),
          ),
        ),
      ),
    ),
  ),
)

load_units-total_example :
    Gives (Unless ⊥) (load_units line_table little no_tables (text "d") (suc (2 ^ 64)) 52 front)
load_units-total_example =
    load_units-total line_table (omega arith) little no_tables (text "d")
      λ h. short-ne-Wraps line_table (omega arith) little h line_table-short (omega arith)
