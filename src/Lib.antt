-- ===== src/Lib.antt =====
-- roe is a command line tool that inspects executables: it detects a file's format, parses it into a
-- file of its own format and a normalized view, indexes symbols and relocations by address, and prints
-- annotated disassembly. This library models the parts that carry the analysis of an ELF file, from
-- its bytes to the lookups by address and the names that it shows, the parsers of Mach-O and PE files,
-- the line tables of DWARF, and the configuration file.
--
-- The parts, in the order in which a file passes through them:
-- - Base: native numbers, lists and texts, with the Boolean tests and bit lemmas that the others share.
-- - Core (include/roe/core.hpp): Error and Result. Result has a third outcome, aborted: the end of a
--   run that calls value() on a failed result or reads an element outside a vector. A read of a file's
--   bytes at a position goes through `element` (one byte), `window` (the bytes behind a pointer) or
--   `slice` (the bytes between two iterators), which abort outside the image also where the source has
--   tested the size before; a scan that the source stops at the end of the buffer walks its list. A
--   theorem that a run does not abort therefore says that the source stays inside its buffers.
-- - Binary (src/binary/binary.cpp, include/roe/binary.hpp): detect_format in Detect, the queries on a
--   normalized view in Queries, names and dumps in Names, its structs in Types. Load has load_bytes, which
--   hands a file to the parser of its format; BinaryFile is the sum of the classes that implement it.
-- - Elf (src/elf/elf.cpp, include/roe/elf.hpp): one module for each function of the parser. Reader has
--   the range checks and the Reader class; Header, Strings, Sections, Segments, Symbols and Relocations
--   have parse_header, string_from_table, parse_section_headers, parse_segments, parse_symbols and
--   parse_relocations; Parse has parse_bytes, which calls them in this order and passes the header that
--   the section headers extend on to the others, and the queries on a parsed file. Adapter translates a
--   parsed file to the normalized view: extract_strings in Strings, populate_dynamic in Dynamic, and
--   ElfBinaryFile with open_bytes in View.
-- - Resolver (src/resolver/resolver.cpp, include/roe/resolver.hpp): build_index on a parsed ELF file in
--   Index and on a normalized view in Objects, the lookups by address in Lookup, annotate in Annotate,
--   the searches and the sort that they use in Search. Demangle has demangle: the cursor, the budget
--   and the numbers of RustV0Demangler in Cursor, its grammar in Rust, strip_rust_legacy_hash in Legacy,
--   and the calls that put them together in Names. Its recursive functions are the requests of one
--   function on fuel, 20001 levels, of which each spends a step of the budget of 20000.
-- - Pe (src/pe/pe.cpp): the Reader, whose flag falls at the first read past the end, map_machine and
--   rva_to_offset in Reader; parse_imports, parse_exports and parse_coff_symbols in Imports, Exports and
--   Coff; the loops of parse_bytes over the section table and the data directories in Layout; parse_bytes
--   and open_bytes in Parse, which threads one flag through all of them.
-- - Macho (src/macho/macho.cpp): the Reader of both byte orders in Reader, extract_strings in Strings, the
--   loop of parse_thin over the load commands in Commands and over the symbol table in Symbols, the rest
--   of parse_thin with parse_bytes and open_bytes in Parse, which first cuts a slice of a fat file.
-- - Debug (src/debug/debug.cpp, include/roe/debug.hpp): the class Cursor in Cursor, the tables of a unit's
--   header in Tables, its line-number program as a step function in Program, parse_unit and the loop on
--   the units in Units, the locations of the rows with source_at and interleave in Lookup.
-- - Features (src/features/config.cpp): load_config on the lines of the file, in Config.
-- - Disasm (include/roe/disasm.hpp): the instructions that annotate takes.
-- In each part, the modules below a module prove what holds of it, and Tests runs it.
--
-- How the code is represented:
-- - An unsigned number is a native one, and each sum, product or shift that can pass its width is
--   reduced by hand (add64, mul64, shl). A signed 64-bit number is kept as its bit pattern.
-- - A position of the image stands for a pointer into it. IsImage says what a std::vector of bytes
--   promises: elements below 256 and a size below 2 ^ 63.
-- - A loop recurses on the rounds that are left, whose number the source gives before it. The loop of
--   parse_coff_symbols, which steps over auxiliary entries, and the Rust demangler have fuel. A run whose
--   fuel runs out has an outcome of its own, which no run of these two has. The loops of Debug have fuel
--   as well: one round for each byte is enough for a line-number program in which no length wraps around,
--   and no number of rounds is for one with a length that leads back to its own opcode. The loops on the
--   tables of old units have a round more than the section has bytes, and come to aborted without one.
-- - A vector that a loop fills is the list that it returns.
-- - std::sort is an insertion sort by the same comparison, which keeps one of the orders that std::sort
--   may leave among equal elements. std::lower_bound and std::upper_bound are their documented answers
--   on a sorted range.
-- - The demangler is a parameter of build_index, and its theorems hold for every such function. The
--   demangler of the C++ runtime, abi::__cxa_demangle, is a parameter of demangle.
-- - Memory that runs out, and the work of a reader of files, are not modelled. Neither are the
--   disassembler, the search for debug sections, the output and the command line.
pub mod Base
pub mod Binary
pub mod Core
pub mod Debug
pub mod Disasm
pub mod Elf
pub mod Features
pub mod Macho
pub mod Pe
pub mod Resolver
