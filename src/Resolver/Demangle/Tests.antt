-- ===== src/Resolver/Demangle/Tests.antt =====
-- Runs of the demanglers, and their theorems at concrete names.
use roe.Base.{◌≡◌, refl, Option, none, some, [], ◌∷◌, arith}
use roe.Base.Text.{Text, text, is_empty, starts_with, text_eq, decimal}
use roe.Elf.Reader.{add64}
use roe.Resolver.Demangle.Cursor.{
  returned, budget, deeper, peek, elsewhere, skip_if, parse_base62, decimal_loop, parse_decimal,
  skip_disambiguator, identifier_text, parse_identifier, skip_optional_decimal,
}
use roe.Resolver.Demangle.Rust.{
  path_tag, back_reference, segment, path_inner, basic_types, basic_type, compound_tag, type_tag,
  parse_const, const_digits, parse_generic_arg, skip_lifetime, type_inner, close, loop_round, step,
  parse, run,
}
use roe.Resolver.Demangle.Rust.Paths.{RustPath}
use roe.Resolver.Demangle.Legacy.{rfind, all_hex, strip_at, strip_rust_legacy_hash}
use roe.Resolver.Demangle.Names.{c_str, demangle_rust_v0, demangle}
use roe.Resolver.Demangle.Names.Laws.{demangle-total, demangle-encode}

-- A demangler of the C++ runtime that knows no name.
abbrev unknown : Text → Option Text
unknown name = none

path_run : demangle unknown (text "_RNvC3foo3bar") ≡ returned (text "foo::bar")
unfolding demangle demangle_rust_v0 run skip_optional_decimal peek parse step deeper budget path_tag
    path_inner parse_identifier skip_disambiguator skip_if parse_decimal decimal_loop
    identifier_text add64 segment is_empty text
path_run = refl

-- Arguments of basic types, a reference, a tuple and an array.
generic_run :
    demangle unknown (text "_RINvC3foo3bartRlTehEAxj4_E")
    ≡ returned (text "foo::bar::<u16, &i32, (str, u8), [i64; 4]>")
unfolding demangle demangle_rust_v0 run skip_optional_decimal peek parse step deeper budget path_tag
    path_inner parse_identifier skip_disambiguator skip_if parse_decimal decimal_loop
    identifier_text add64 segment is_empty text loop_round close parse_generic_arg type_tag
    basic_types basic_type compound_tag type_inner skip_lifetime parse_const const_digits
generic_run = refl

-- A reference to itself runs into the limit on the depth, and the name stays.
cycle_run : demangle unknown (text "_RB_") ≡ returned (text "_RB_")
unfolding demangle demangle_rust_v0 run skip_optional_decimal peek parse step deeper budget path_tag
    path_inner back_reference parse_base62 elsewhere text
cycle_run = refl

legacy_run :
    demangle (λ name. some (text "a::b::h0123456789abcdef")) (text "_ZN1a1bE")
    ≡ returned (text "a::b")
unfolding demangle c_str strip_rust_legacy_hash rfind strip_at all_hex starts_with text_eq text
legacy_run = refl

demangle-total_example : (out : Text) × (demangle unknown (text "_RB_") ≡ returned out)
demangle-total_example = demangle-total unknown (text "_RB_")

abbrev bar : RustPath
bar = RustPath.nested b'v' (RustPath.crate (b'f' ∷ b'o' ∷ b'o' ∷ [])) (b'2' ∷ b'd' ∷ [])

demangle-encode_example : demangle unknown (text "_RNvC3foo2_2d") ≡ returned (text "foo::2d")
unfolding text decimal
demangle-encode_example = demangle-encode unknown bar [] (omega arith) (omega arith) (omega arith)
