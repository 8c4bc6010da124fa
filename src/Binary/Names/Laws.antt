-- ===== src/Binary/Names/Laws.antt =====
-- Names and dumps can be read back.
use roe.Base.{
  ℕ, zero, suc, ◌+◌, ◌-◌, ◌*◌, ◌/◌, ◌%◌, ◌<◌, ◌≡◌, refl, sym, ap, ◌∙◌, min, ltb, ◌==◌, false, List,
  [], ◌∷◌, ◌++◌, length, take, All, arith, if◌then◌else◌,
}
use roe.Base.Text.{Text, text, text_eq}
use roe.Binary.Types.{Format, Architecture}
use roe.Binary.Names.{
  format_name, architecture_name, hex_digit, hex_byte, hex_loop, first_bytes_hex,
}

-- The format of a name.
unfoldable format_of : Text → Format
format_of name =
    if text_eq name (text "ELF")
    then Format.elf
    else if text_eq name (text "Mach-O")
    then Format.mach_o
    else if text_eq name (text "Mach-O universal")
    then Format.mach_o_fat
    else if text_eq name (text "PE/COFF")
    then Format.pe_coff
    else if text_eq name (text "static archive")
    then Format.archive
    else Format.unknown

format_of-name : (f : Format) → format_of (format_name f) ≡ f
unfolding format_of format_name text text_eq
format_of-name Format.unknown = refl
format_of-name Format.elf = refl
format_of-name Format.mach_o = refl
format_of-name Format.mach_o_fat = refl
format_of-name Format.pe_coff = refl
format_of-name Format.archive = refl

-- The architecture of a name.
unfoldable architecture_of : Text → Architecture
architecture_of name =
    if text_eq name (text "x86")
    then Architecture.x86
    else if text_eq name (text "x86-64")
    then Architecture.x86_64
    else if text_eq name (text "arm")
    then Architecture.arm
    else if text_eq name (text "arm-thumb")
    then Architecture.arm_thumb
    else if text_eq name (text "aarch64")
    then Architecture.aarch64
    else if text_eq name (text "riscv32")
    then Architecture.risc_v32
    else if text_eq name (text "riscv64")
    then Architecture.risc_v64
    else if text_eq name (text "mips")
    then Architecture.mips32
    else if text_eq name (text "mipsel")
    then Architecture.mips32el
    else if text_eq name (text "mips64")
    then Architecture.mips64
    else if text_eq name (text "mips64el")
    then Architecture.mips64el
    else if text_eq name (text "ppc")
    then Architecture.power_pc32
    else if text_eq name (text "ppc64")
    then Architecture.power_pc64
    else if text_eq name (text "ppc64le")
    then Architecture.power_pc64le
    else Architecture.unknown

architecture_of-name : (a : Architecture) → architecture_of (architecture_name a) ≡ a
unfolding architecture_of architecture_name text text_eq
architecture_of-name Architecture.unknown = refl
architecture_of-name Architecture.x86 = refl
architecture_of-name Architecture.x86_64 = refl
architecture_of-name Architecture.arm = refl
architecture_of-name Architecture.arm_thumb = refl
architecture_of-name Architecture.aarch64 = refl
architecture_of-name Architecture.risc_v32 = refl
architecture_of-name Architecture.risc_v64 = refl
architecture_of-name Architecture.mips32 = refl
architecture_of-name Architecture.mips32el = refl
architecture_of-name Architecture.mips64 = refl
architecture_of-name Architecture.mips64el = refl
architecture_of-name Architecture.power_pc32 = refl
architecture_of-name Architecture.power_pc64 = refl
architecture_of-name Architecture.power_pc64le = refl

-- Different formats and different architectures have different names: equal names come from equal
-- formats, and from equal architectures.
pub names-differ :
    ((f g : Format) → format_name f ≡ format_name g → f ≡ g)
    × ((a b : Architecture) → architecture_name a ≡ architecture_name b → a ≡ b)
names-differ = (
  λ f g e. sym (format_of-name f) ∙ ap format_of e ∙ format_of-name g,
  λ a b e. sym (architecture_of-name a) ∙ ap architecture_of e ∙ architecture_of-name b,
)

-- The value of a hexadecimal digit, and the bytes of a dump.
unfoldable pub unhex : ℕ → ℕ
unhex c = if ltb c 58 then c - 48 else c - 87

unfoldable pub read_hex : Text → List ℕ
read_hex [] = []
read_hex (h ∷ []) = []
read_hex (h ∷ l ∷ []) = (16 * unhex h + unhex l) ∷ []
read_hex (h ∷ l ∷ c ∷ rest) = (16 * unhex h + unhex l) ∷ read_hex rest

unhex-digit : (d : ℕ) → d < 16 → unhex (hex_digit d) ≡ d
unfolding unhex hex_digit
unhex-digit d h = ground arith

read-byte : (b : ℕ) → b < 256 → 16 * unhex (hex_digit (b / 16)) + unhex (hex_digit (b % 16)) ≡ b
read-byte b h =
    rw (unhex-digit (b / 16) (omega arith), unhex-digit (b % 16) (omega arith)) (omega arith)

read_hex-loop :
    (i b : ℕ) (bytes : List ℕ)
    → 0 < i
    → b < 256
    → All (λ c. c < 256) bytes
    → read_hex (hex_byte b ++ hex_loop i bytes) ≡ b ∷ bytes
unfolding read_hex hex_byte hex_loop text
read_hex-loop i b [] pos h all = rw (read-byte b h) refl
read_hex-loop i b (c ∷ bytes) pos h all =
    let more : (i == 0) ≡ false = ground arith in
    rw (more, read-byte b h)
      (ap (λ (l : List ℕ). b ∷ l) (read_hex-loop (i + 1) c bytes (omega arith) all.0 all.1))

hex_loop-front : (b : ℕ) (bytes : List ℕ) → hex_loop 0 (b ∷ bytes) ≡ hex_byte b ++ hex_loop 1 bytes
unfolding hex_loop
hex_loop-front b bytes = refl

All-take : (n : ℕ) (bytes : List ℕ) → All (λ b. b < 256) bytes → All (λ b. b < 256) (take n bytes)
All-take zero bytes all = tt
All-take (suc n) [] all = tt
All-take (suc n) (b ∷ bytes) all = (all.0, All-take n bytes all.1)

take-min : (n : ℕ) (bytes : List ℕ) → take (min n (length bytes)) bytes ≡ take n bytes
take-min zero bytes = let e : min 0 (length bytes) ≡ 0 = omega arith in rw e refl
take-min (suc n) [] = let e : min (suc n) 0 ≡ 0 = omega arith in rw e refl
take-min (suc n) (b ∷ bytes) =
    let e : min (suc n) (suc (length bytes)) ≡ suc (min n (length bytes)) = omega arith in
    rw e (ap (λ (l : List ℕ). b ∷ l) (take-min n bytes))

-- The dump of the first bytes can be read back: it spells the bytes up to the limit, two digits for
-- each and one character between them, where there is a byte and the limit is not zero.
pub read_hex-first_bytes_hex :
    (b : ℕ) (bytes : List ℕ) (limit : ℕ)
    → b < 256
    → All (λ c. c < 256) bytes
    → read_hex (first_bytes_hex (b ∷ bytes) (suc limit)) ≡ b ∷ take limit bytes
unfolding first_bytes_hex
read_hex-first_bytes_hex b bytes limit h all =
    let e : min (suc limit) (suc (length bytes)) ≡ suc (min limit (length bytes)) = omega arith in
    let more : (suc (min limit (length bytes)) == 0) ≡ false = ground arith in
    rw (e, more, take-min limit bytes, hex_loop-front b (take limit bytes))
      (read_hex-loop 1 b (take limit bytes) (omega arith) h (All-take limit bytes all))
