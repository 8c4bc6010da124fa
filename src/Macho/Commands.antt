-- ===== src/Macho/Commands.antt =====
-- src/macho/macho.cpp, parse_thin: the loop over the load commands.
pub mod Safe
use roe.Base.{
  ℕ, zero, suc, ◌+◌, ◌*◌, bit_and, Bool, true, false, ◌&&◌, ◌||◌, not, Option, none, some, List, [],
  ◌∷◌, ◌++◌, length, drop, ltb, ◌==◌, if◌then◌else◌,
}
use roe.Base.Text.{Text, text, text_eq, contains}
use roe.Core.Result.{Result, ok, ◌>>=◌}
use roe.Binary.Types.{Section, SectionKind, Segment}
use roe.Elf.Types.{Bytes, Endianness}
use roe.Pe.Reader.{Read, fixed_string}
use roe.Macho.Reader.{u32, u64, c_string}

-- SymtabInfo
pub record Symtab : Type 0 where
  pub symoff : ℕ
  pub nsyms : ℕ
  pub stroff : ℕ
  pub strsize : ℕ
  pub present : Bool

-- What the loop over the load commands changes.
pub record Commands : Type 0 where
  pub segments : List Segment
  pub sections : List Section
  pub libraries : List Text
  pub entry : ℕ
  pub symtab : Symtab

pub data CommandKind : Type 0 where
  segment : Bool → CommandKind
  symtab library main other : CommandKind

unfoldable pub command_kind : ℕ → CommandKind
command_kind cmd =
    if cmd == 0x19 || cmd == 1
    then CommandKind.segment (cmd == 0x19)
    else if cmd == 2
    then CommandKind.symtab
    else if cmd == 0xc || cmd == 0x8000_0018 || cmd == 0x8000_001f
    then CommandKind.library
    else if cmd == 0x8000_0028
    then CommandKind.main
    else CommandKind.other

-- The fields of a segment command.
pub record SegmentFields : Type 0 where
  pub vmaddr : ℕ
  pub vmsize : ℕ
  pub fileoff : ℕ
  pub initprot : ℕ
  pub nsects : ℕ

abbrev pub has_prot : ℕ → ℕ → Bool
has_prot initprot bit = not (bit_and initprot bit == 0)

-- A word that has 64 bits in a command for 64-bit segments.
abbrev pub wide : Endianness → Bool → Bytes → Bool → ℕ → Read ℕ
wide order seg64 bytes flag off =
    if seg64 then u64 order bytes flag off else u32 order bytes flag off

abbrev pub mach_segment : Text → SegmentFields → Segment
mach_segment name f = record {
  name = name;
  address = f.vmaddr;
  offset = f.fileoff;
  size = f.vmsize;
  readable = has_prot f.initprot 1;
  writable = has_prot f.initprot 2;
  executable = has_prot f.initprot 4;
  detail = text "segment";
}

abbrev pub is_code : Text → ℕ → Bool
is_code name initprot = has_prot initprot 4 || text_eq name (text "__text")

abbrev pub is_string_name : Text → Bool
is_string_name name = text_eq name (text "__cstring") || contains name (text "string")

unfoldable pub section_kind : Text → ℕ → SectionKind
section_kind name initprot =
    if is_code name initprot
    then SectionKind.code
    else if is_string_name name
    then SectionKind.c_string
    else if not (has_prot initprot 2)
    then SectionKind.read_only_data
    else SectionKind.plain_data

unfoldable pub mach_section : ℕ → ℕ → Text → ℕ → ℕ → ℕ → ℕ → Section
mach_section index s name address size offset initprot = record {
  name = name;
  object_index = index;
  index = s;
  kind = section_kind name initprot;
  address = address;
  offset = offset;
  size = size;
  alignment = 0;
  readable = has_prot initprot 1;
  writable = has_prot initprot 2;
  executable = is_code name initprot;
  contains_strings = not (is_code name initprot) && is_string_name name;
}

abbrev pub section_size : Bool → ℕ
section_size seg64 = if seg64 then 80 else 68

-- The commands, and whether the loop goes on.
abbrev pub Visited : Type 0
Visited = Read (Commands × Bool)

-- The text behind the last slash.
unfoldable pub leaf_name : Text → Text → Text
leaf_name leaf [] = leaf
leaf_name leaf (b ∷ rest) = leaf_name (if b == b'/' then rest else leaf) rest

module _ (order : Endianness) (bytes : Bytes) where
  unfoldable pub read_segment : Bool → ℕ → Bool → Read SegmentFields
  read_segment seg64 base flag = do
    (vmaddr, flag1) ← wide order seg64 bytes flag base
    (vmsize, flag2) ← wide order seg64 bytes flag1 (base + (if seg64 then 8 else 4))
    (fileoff, flag3) ← wide order seg64 bytes flag2 (base + (if seg64 then 16 else 8))
    (initprot, flag4) ← u32 order bytes flag3 (base + (if seg64 then 36 else 20))
    (nsects, flag5) ← u32 order bytes flag4 (base + (if seg64 then 40 else 24))
    ok (
      record {
        vmaddr = vmaddr;
        vmsize = vmsize;
        fileoff = fileoff;
        initprot = initprot;
        nsects = nsects;
      },
      flag5,
    )

  -- The section whose header is at `so`.
  unfoldable pub read_section : ℕ → ℕ → Bool → ℕ → ℕ → Bool → Read Section
  read_section index initprot seg64 so s flag = do
    (name, flag1) ← fixed_string bytes flag so 16
    (address, flag2) ← wide order seg64 bytes flag1 (so + 32)
    (size, flag3) ← wide order seg64 bytes flag2 (so + (if seg64 then 40 else 36))
    (offset, flag4) ← u32 order bytes flag3 (so + (if seg64 then 48 else 40))
    ok (mach_section index s name address size offset initprot, flag4)

  -- `for (s = 0; s < nsects; ++s)` with `rounds` headers left: the sections from `s` on.
  unfoldable pub section_loop : ℕ → ℕ → Bool → ℕ → ℕ → ℕ → Bool → Read (List Section)
  section_loop index initprot seg64 sect_base zero s flag = ok ([], flag)
  section_loop index initprot seg64 sect_base (suc rounds) s flag =
      let so = sect_base + s * section_size seg64 in
      let body = (do
        (section, flag') ← read_section index initprot seg64 so s flag
        (sections, flag'') ← section_loop index initprot seg64 sect_base rounds (s + 1) flag'
        ok (section ∷ sections, flag'')) in
      if ltb (length bytes) (so + section_size seg64) then ok ([], flag) else body

  abbrev pub sections_of : ℕ → Bool → ℕ → SegmentFields → Bool → Commands → Visited
  sections_of index seg64 offset f flag c =
      if ltb 100000 f.nsects then ok ((c, false), flag) else (do
        (sections, flag') ←
            section_loop index f.initprot seg64 (offset + (if seg64 then 72 else 56)) f.nsects 0
              flag
        ok ((record c { sections = c.sections ++ sections }, true), flag'))

  unfoldable pub visit_segment : ℕ → Bool → ℕ → Bool → Commands → Visited
  visit_segment index seg64 offset flag c = do
    (segname, flag1) ← fixed_string bytes flag (offset + 8) 16
    (f, flag2) ← read_segment seg64 (offset + 24) flag1
    sections_of index seg64 offset f flag2
        (record c { segments = c.segments ++ (mach_segment segname f ∷ []) })

  unfoldable pub visit_symtab : ℕ → Bool → Commands → Visited
  visit_symtab offset flag c = do
    (symoff, flag1) ← u32 order bytes flag (offset + 8)
    (nsyms, flag2) ← u32 order bytes flag1 (offset + 12)
    (stroff, flag3) ← u32 order bytes flag2 (offset + 16)
    (strsize, flag4) ← u32 order bytes flag3 (offset + 20)
    ok (
      (
        record c {
          symtab = record {
            symoff = symoff;
            nsyms = nsyms;
            stroff = stroff;
            strsize = strsize;
            present = true;
          };
        },
        true,
      ),
      flag4,
    )

  unfoldable pub visit_library : ℕ → ℕ → Bool → Commands → Visited
  visit_library offset cmdsize flag c = do
    (name_off, flag1) ← u32 order bytes flag (offset + 8)
    let library = c_string bytes (offset + name_off)
    if ltb name_off cmdsize
        then ok (
          (record c { libraries = c.libraries ++ (leaf_name library library ∷ []) }, true),
          flag1,
        )
        else ok ((c, true), flag1)

  abbrev pub visit_main : ℕ → Bool → Commands → Visited
  visit_main offset flag c = do
    (entry, flag1) ← u64 order bytes flag (offset + 8)
    ok ((record c { entry = entry }, true), flag1)

  unfoldable pub visit_command : ℕ → CommandKind → ℕ → ℕ → Bool → Commands → Visited
  visit_command index (CommandKind.segment seg64) offset cmdsize flag c =
      visit_segment index seg64 offset flag c
  visit_command index CommandKind.symtab offset cmdsize flag c = visit_symtab offset flag c
  visit_command index CommandKind.library offset cmdsize flag c =
      visit_library offset cmdsize flag c
  visit_command index CommandKind.main offset cmdsize flag c = visit_main offset flag c
  visit_command index CommandKind.other offset cmdsize flag c = ok ((c, true), flag)

  -- `for (i = 0; i < ncmds; ++i)` with `rounds` commands left.
  unfoldable pub command_loop : ℕ → ℕ → ℕ → Bool → Commands → Read Commands
  command_loop index zero offset flag c = ok (c, flag)
  command_loop index (suc rounds) offset flag c =
      let body = (do
        (cmd, flag1) ← u32 order bytes flag offset
        (cmdsize, flag2) ← u32 order bytes flag1 (offset + 4)
        let visit = (do
          ((c', go_on), flag3) ← visit_command index (command_kind cmd) offset cmdsize flag2 c
          let rest = command_loop index rounds (offset + cmdsize) flag3 c'
          if go_on then rest else ok (c', flag3))
        if ltb cmdsize 8 || ltb (length bytes) (offset + cmdsize) then ok (c, flag2) else visit) in
      if ltb (length bytes) (offset + 8) then ok (c, flag) else body
