-- ===== src/Binary/Queries.antt =====
-- src/binary/binary.cpp: the queries on a file view.
pub mod Laws
use roe.Base.{
  ℕ, Bool, true, false, ◌&&◌, ◌||◌, Option, none, some, List, [], ◌∷◌, get_elem?, if◌then◌else◌,
}
use roe.Base.Text.{Text, text_eq}
use roe.Binary.Types.{FileView, Object, Section, Symbol, SymbolType}

unfoldable pub front : List Object → Option Object
front [] = none
front (o ∷ objects) = some o

unfoldable pub primary_object : FileView → Option Object
primary_object file = front file.objects

-- `std::find_if`
unfoldable pub find_if : {A : Type 0} → (A → Bool) → List A → Option A
find_if test [] = none
find_if test (x ∷ xs) = if test x then some x else find_if test xs

abbrev pub on_object : {A : Type 0} → Option Object → A → (Object → A) → A
on_object none missing found = missing
on_object (some o) missing found = found o

-- A file has the object where the index is below their number.
abbrev pub with_object : {A : Type 0} → FileView → ℕ → A → (Object → A) → A
with_object file index = on_object (get_elem? file.objects index)

unfoldable pub find_section : FileView → ℕ → Text → Option Section
find_section file object_index name =
    with_object file object_index none λ o. find_if (λ s. text_eq s.name name) o.sections

abbrev pub is_function_type : SymbolType → Bool
is_function_type SymbolType.function = true
is_function_type _ = false

unfoldable pub functions_of : List Symbol → List Symbol
functions_of [] = []
functions_of (s ∷ symbols) =
    if is_function_type s.type && s.defined then s ∷ functions_of symbols else functions_of symbols

unfoldable pub function_symbols : FileView → ℕ → List Symbol
function_symbols file object_index = with_object file object_index [] λ o. functions_of o.symbols

unfoldable pub has_name : Text → Symbol → Bool
has_name name s = text_eq s.name name || text_eq s.raw_name name

unfoldable pub find_symbol : FileView → ℕ → Text → Option Symbol
find_symbol file object_index name =
    with_object file object_index none λ o. find_if (has_name name) o.symbols
