-- ===== src/Features/Config.antt =====
-- src/features/config.cpp: load_config on the lines of the file.
pub mod Laws
use roe.Base.{
  ℕ, suc, ◌+◌, ◌-◌, Bool, true, false, ◌&&◌, ◌||◌, Option, none, some, List, [], ◌∷◌, length, take,
  drop, leb, ◌==◌, if◌then◌else◌,
}
use roe.Base.Text.{Text, text, text_eq, starts_with, is_empty}

pub record Config : Type 0 where
  pub color : Bool
  pub pager : Bool
  pub show_bytes : Bool
  pub source : Bool
  pub syntax : Text

abbrev pub default_config : Config
default_config = record {
  color = true;
  pager = true;
  show_bytes = false;
  source = false;
  syntax = text "intel";
}

-- The characters of " \t\r\n".
unfoldable pub is_blank : ℕ → Bool
is_blank c = c == 32 || c == 9 || c == 13 || c == 10

-- A position one further on.
abbrev pub next : Option ℕ → Option ℕ
next none = none
next (some i) = some (suc i)

-- `text.find_first_not_of(" \t\r\n")`, where nothing stands for npos.
unfoldable pub find_first_not_of : Text → Option ℕ
find_first_not_of [] = none
find_first_not_of (c ∷ t) =
    let rest = find_first_not_of t in if is_blank c then next rest else some 0

abbrev pub last_or : ℕ → Option ℕ → Option ℕ
last_or c none = if is_blank c then none else some 0
last_or c (some i) = some (suc i)

-- `text.find_last_not_of(" \t\r\n")`
unfoldable pub find_last_not_of : Text → Option ℕ
find_last_not_of [] = none
find_last_not_of (c ∷ t) = last_or c (find_last_not_of t)

abbrev pub between : Text → Option ℕ → Option ℕ → Text
between t none last = []
between t (some first) none = drop first t
between t (some first) (some last) = take (last - first + 1) (drop first t)

unfoldable pub trim : Text → Text
trim t = between t (find_first_not_of t) (find_last_not_of t)

-- `value.front()` and `value.back()` of a text that starts with `c`.
abbrev pub back : ℕ → Text → ℕ
back c [] = c
back c (d ∷ t) = back d t

unfoldable pub unquote : Text → Text
unquote [] = []
unquote (c ∷ t) =
    if leb 2 (length (c ∷ t)) && (c == 34 || c == 39) && back c t == c
    then take (length (c ∷ t) - 2) t
    else c ∷ t

unfoldable pub as_bool : Text → Bool → Bool
as_bool value fallback =
    let t = unquote value in
    if text_eq t (text "true")
      || text_eq t (text "1")
      || text_eq t (text "yes")
      || text_eq t (text "on")
    then true
    else if text_eq t (text "false")
        || text_eq t (text "0")
        || text_eq t (text "no")
        || text_eq t (text "off")
    then false
    else fallback

-- `text.find(needle)` for a needle that is not empty.
unfoldable pub find : Text → Text → Option ℕ
find needle [] = none
find needle (c ∷ t) =
    let rest = find needle t in if starts_with (c ∷ t) needle then some 0 else next rest

abbrev pub cut : Text → Option ℕ → Text
cut value none = value
cut value (some comment) = trim (take comment value)

-- `if (comment != npos) { value = trim(value.substr(0, comment)); }`
unfoldable pub without_comment : Text → Text
without_comment value = cut value (find (text " #") value)

unfoldable pub set_key : Config → Text → Text → Config
set_key config key value =
    if text_eq key (text "color")
    then record config { color = as_bool value config.color }
    else if text_eq key (text "pager")
    then record config { pager = as_bool value config.pager }
    else if text_eq key (text "show_bytes")
    then record config { show_bytes = as_bool value config.show_bytes }
    else if text_eq key (text "source")
    then record config { source = as_bool value config.source }
    else if text_eq key (text "syntax")
    then record config { syntax = unquote value }
    else config

abbrev pub set_at : Config → Text → Option ℕ → Config
set_at config trimmed none = config
set_at config trimmed (some equals) =
    set_key config (trim (take equals trimmed)) (without_comment (trim (drop (equals + 1) trimmed)))

-- An empty line, a comment and the head of a section are skipped.
unfoldable pub is_ignored : Text → Bool
is_ignored [] = true
is_ignored (c ∷ t) = c == b'#' || c == b'['

unfoldable pub load_line : Config → Text → Config
load_line config line =
    let trimmed = trim line in
    if is_ignored trimmed then config else set_at config trimmed (find (text "=") trimmed)

-- `while (std::getline(stream, line))`
unfoldable pub load_lines : Config → List Text → Config
load_lines config [] = config
load_lines config (line ∷ lines) = load_lines (load_line config line) lines

-- No lines stand for a file that is missing.
unfoldable pub load_config : List Text → Config
load_config lines = load_lines default_config lines
