-- ===== src/Features/Tests.antt =====
-- Runs of the configuration, and its theorems at concrete texts.
use roe.Base.{◌≡◌, refl, false, List, [], ◌∷◌}
use roe.Base.Text.{Text, text, text_eq, starts_with}
use roe.Features.Config.{
  default_config, is_blank, find_first_not_of, find_last_not_of, trim, unquote, as_bool, find,
  without_comment, set_key, is_ignored, load_line, load_lines, load_config,
}
use roe.Features.Config.Laws.{trim_front, trim_back, trim-front_back}

abbrev lines : List Text
lines =
    text "# defaults" ∷ text "[output]" ∷ text "  color = off # no color" ∷ text "syntax='att'" ∷ []

load_run : load_config lines ≡ record default_config { color = false; syntax = text "att" }
unfolding load_config load_lines load_line is_ignored set_key without_comment find trim
    find_first_not_of find_last_not_of is_blank unquote as_bool text text_eq starts_with
load_run = refl

trim-front_back_example : trim (text " a b ") ≡ trim_back (trim_front (text " a b "))
trim-front_back_example = trim-front_back (text " a b ")
