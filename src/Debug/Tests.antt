-- ===== src/Debug/Tests.antt =====
-- A line-number program of two rows and one that does not end, and the theorems at them.
mod Loaded
use roe.Base.{◌≡◌, refl, false, arith, none, some, [], ◌∷◌, map, List}
use roe.Base.Text.{Text, text}
use roe.Core.Result.{Gives, ok, element}
use roe.Elf.Types.{Bytes, little}
use roe.Elf.Reader.{add64, mul64}
use roe.Debug.Types.{SourceMap, dwarf}
use roe.Debug.Cursor.{Cursor, u8, little_loop, u64, uleb_loop, uleb}
use roe.Debug.Program.{
  Header, Row, Machine, emit, reset, extended_body, extended_opcode, standard_opcode, special,
  special_opcode, dispatch, round, step, run,
}
use roe.Debug.Program.Ends.{IsFinished, run-Gives, run-IsFinished}
use roe.Debug.Program.Loops.{IsCircle, short-ne-Wraps, run-circle}
use roe.Debug.Lookup.{tagged_rows, locations, entry, source_at}
use roe.Debug.Lookup.Laws.{IsSource, source_at-IsSource}

abbrev header : Header
header = record {
  version = 4;
  minimum_instruction_length = 1;
  line_base = 0xffff_ffff_ffff_fffb;
  line_range = 14;
  opcode_base = 13;
  standard_opcode_lengths = 0 ∷ 1 ∷ 1 ∷ 1 ∷ 1 ∷ 0 ∷ 0 ∷ 0 ∷ 1 ∷ 0 ∷ 0 ∷ 1 ∷ [];
}

-- The address 0x1000, a special opcode, four bytes more, and the end of the sequence.
abbrev pub two_rows : Bytes
two_rows = 0 ∷ 9 ∷ 2 ∷ 0 ∷ 0x10 ∷ 0 ∷ 0 ∷ 0 ∷ 0 ∷ 0 ∷ 0 ∷ 75 ∷ 2 ∷ 4 ∷ 0 ∷ 1 ∷ 1 ∷ []

abbrev start : Cursor
start = record { position = 0; error = false }

abbrev machine : Machine
machine = record {
  registers = record { address = 0; file = 1; line = 1; column = 0 };
  cursor = start;
  rows = [];
}

abbrev pub rows : List Row
rows =
    record { address = 0x1004; file = 1; line = 2; column = 0 }
    ∷ record { address = 0x1008; file = 1; line = 2; column = 0 }
    ∷ []

abbrev ended : Machine
ended = record {
  registers = record { address = 0; file = 1; line = 1; column = 0 };
  cursor = record { position = 17; error = false };
  rows = rows;
}

runs : run two_rows little header 20 17 machine ≡ ok (some ended)
unfolding run step round dispatch extended_opcode extended_body standard_opcode special_opcode
    special emit reset u8 u64 little_loop uleb uleb_loop add64 mul64 element
runs = refl

run-IsFinished_example : Gives (IsFinished 17) (run two_rows little header 18 17 machine)
run-IsFinished_example =
    run-IsFinished two_rows (omega arith) little header
      (short-ne-Wraps two_rows (omega arith) little header
        (
          omega arith,
          (
            omega arith,
            (
              omega arith,
              (
                omega arith,
                (
                  omega arith,
                  (
                    omega arith,
                    (
                      omega arith,
                      (
                        omega arith,
                        (
                          omega arith,
                          (
                            omega arith,
                            (
                              omega arith,
                              (
                                omega arith,
                                (
                                  omega arith,
                                  (omega arith, (omega arith, (omega arith, (omega arith, tt)))),
                                ),
                              ),
                            ),
                          ),
                        ),
                      ),
                    ),
                  ),
                ),
              ),
            ),
          ),
        )
        (omega arith))
      17 17 machine (omega arith) (omega arith)

-- An extended opcode of the length 2 ^ 64 - 11, which ends where it begins.
abbrev circle : Bytes
circle = 0 ∷ 0xf5 ∷ 255 ∷ 255 ∷ 255 ∷ 255 ∷ 255 ∷ 255 ∷ 255 ∷ 255 ∷ 1 ∷ 3 ∷ []

circle-IsCircle : IsCircle circle (omega arith) little header start
unfolding u8 uleb uleb_loop add64 element
circle-IsCircle = record {
  opcode_end = record { position = 1; error = false };
  opcode_read = refl;
  span = 0xffff_ffff_ffff_fff5;
  span_end = record { position = 11; error = false };
  span_read = refl;
  around = refl;
  sub = 3;
  sub_read = refl;
  sub_other = (refl, refl, refl);
}

run-circle_example : run circle little header 1000 12 machine ≡ ok none
run-circle_example =
    run-circle circle (omega arith) little header 12 machine refl circle-IsCircle 1000

abbrev no_lines : Text → List Text
no_lines path = []

abbrev unit : List Row × List Text
unit = (rows, [] ∷ text "a.c" ∷ [])

abbrev source_map : SourceMap
source_map = record {
  format = dwarf;
  object_index = 0;
  locations = locations no_lines (unit ∷ []);
  fallback_message = [];
}

source_at-IsSource_example :
    IsSource 0x1005
      (map (entry no_lines (unit ∷ [])) (tagged_rows 0 (unit ∷ [])))
      (source_at source_map 0x1005)
source_at-IsSource_example = source_at-IsSource no_lines (unit ∷ []) source_map 0x1005 refl
