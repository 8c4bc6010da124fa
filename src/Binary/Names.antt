-- ===== src/Binary/Names.antt =====
-- src/binary/binary.cpp: the names of formats and architectures, and first_bytes_hex.
pub mod Laws
use roe.Base.{ℕ, ◌+◌, ◌/◌, ◌%◌, min, ltb, ◌==◌, List, [], ◌∷◌, ◌++◌, length, take, if◌then◌else◌}
use roe.Base.Text.{Text, text}
use roe.Binary.Types.{Format, Architecture}

unfoldable pub format_name : Format → Text
format_name Format.unknown = text "unknown"
format_name Format.elf = text "ELF"
format_name Format.mach_o = text "Mach-O"
format_name Format.mach_o_fat = text "Mach-O universal"
format_name Format.pe_coff = text "PE/COFF"
format_name Format.archive = text "static archive"

unfoldable pub architecture_name : Architecture → Text
architecture_name Architecture.unknown = text "unknown"
architecture_name Architecture.x86 = text "x86"
architecture_name Architecture.x86_64 = text "x86-64"
architecture_name Architecture.arm = text "arm"
architecture_name Architecture.arm_thumb = text "arm-thumb"
architecture_name Architecture.aarch64 = text "aarch64"
architecture_name Architecture.risc_v32 = text "riscv32"
architecture_name Architecture.risc_v64 = text "riscv64"
architecture_name Architecture.mips32 = text "mips"
architecture_name Architecture.mips32el = text "mipsel"
architecture_name Architecture.mips64 = text "mips64"
architecture_name Architecture.mips64el = text "mips64el"
architecture_name Architecture.power_pc32 = text "ppc"
architecture_name Architecture.power_pc64 = text "ppc64"
architecture_name Architecture.power_pc64le = text "ppc64le"

-- `std::hex << std::nouppercase` of a digit.
unfoldable pub hex_digit : ℕ → ℕ
hex_digit d = if ltb d 10 then 48 + d else 87 + d

-- `std::setw(2)` with `std::setfill('0')`
unfoldable pub hex_byte : ℕ → Text
hex_byte b = hex_digit (b / 16) ∷ hex_digit (b % 16) ∷ []

-- `for (index = 0; index < count; ++index)` over the bytes that are left.
unfoldable pub hex_loop : ℕ → List ℕ → Text
hex_loop index [] = []
hex_loop index (b ∷ bytes) =
    (if index == 0 then [] else text " ") ++ (hex_byte b ++ hex_loop (index + 1) bytes)

unfoldable pub first_bytes_hex : List ℕ → ℕ → Text
first_bytes_hex bytes limit =
    let count = min limit (length bytes) in
    if count == 0 then text "(empty)" else hex_loop 0 (take count bytes)
