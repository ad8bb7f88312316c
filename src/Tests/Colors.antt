-- ===== src/Tests/Colors.antt =====
-- src/ansicolors.rs on a message with one code.
use mathlib.Core.List.{Sublist}
use havok_rust.Base.{
  some, ◌≡◌, refl, Bytes, codes, true, false, [], ◌∷◌, none, ok, panic, inl, list_eq, nat_eq, arith,
}
use havok_rust.Base.HashMap.{get}
use havok_rust.Ansi.Colors.{faint, bold, AnsiColors, filled, fg_colors, bg_colors, style_table}
use havok_rust.Ansi.Code.{convert_code}
use havok_rust.Ansi.Code.Result.{convert_code_bold, convert_code_panic}
use havok_rust.Ansi.Convert.{convert_string, message_parts, parts_of}
use havok_rust.Ansi.Convert.Plain.{visible_or, convert_string_plain}
use havok_rust.Ansi.Convert.Spans.{Code, Span, Shown, usual}
use havok_rust.Ansi.Convert.Shows.{convert_string_shows}
use havok_rust.Ansi.Code.Meaning.{convert_code_means}
use havok_rust.Ansi.Convert.Keeps.{convert_string_keeps}
use havok_rust.Tests.Samples.{term, term_keeps, re, colored}

abbrev colors : AnsiColors term re
colors = filled term re tt

plain_runs : convert_string term re colors colored false ≡ ok (codes "ab")
unfolding convert_string message_parts
plain_runs = refl

-- White on black for the preamble, black on black for the code.
ansi_runs :
    convert_string term re colors colored true
    ≡ ok (27 ∷ 37 ∷ 40 ∷ b'a' ∷ 27 ∷ 27 ∷ 31 ∷ 40 ∷ b'b' ∷ 27 ∷ [])
unfolding convert_string convert_code get fg_colors style_table bg_colors
ansi_runs = refl

colored_plain :
    convert_string term re colors colored false
    ≡ ok (visible_or colored (parts_of (re.captures_iter tt colored)))
colored_plain = convert_string_plain term re colors colored

-- The code in it, and its match.
abbrev red : Code
red = record { style_digit = 0; bg_digit = 0; fg_number = 1; by_letter = false }

abbrev span : Span
span = record { preamble = codes "a"; code = red; text = codes "b"; eol = none }

convert_string_shows_example :
    (out : Bytes) × (convert_string term re colors colored true ≡ ok out)
    × Shown term none
        (record { code = usual; text = codes "a"; eol = [] }
          ∷ record { code = red; text = codes "b"; eol = [] }
          ∷ [])
        out
convert_string_shows_example =
    convert_string_shows term re tt colored (some span ∷ [])
      ((omega arith, omega arith, omega arith), tt) refl

convert_string_keeps_example :
    (out : Bytes) × (convert_string term re colors colored true ≡ ok out)
    × Sublist (visible_or colored (parts_of (re.captures_iter tt colored))) out
unfolding parts_of
convert_string_keeps_example =
    convert_string_keeps term term_keeps re tt colored ((omega arith, inl (omega arith)), tt)

convert_code_means_example :
    convert_code term re colors (codes "2414")
    ≡ ok (record { style = faint ∷ bold ∷ []; bg = 4; fg = 6 })
convert_code_means_example =
    convert_code_means term re tt 2 4 14 false (omega arith) (omega arith) (omega arith)

bold_is_lost :
    convert_code term re colors (codes "1001") ≡ convert_code term re colors (codes "0001")
unfolding get fg_colors
bold_is_lost = convert_code_bold term re tt b'0' (codes "01") (omega arith) (inl (omega arith)) refl

-- An Arabic digit zero as the first digit.
other_digits_panic : convert_code term re colors (0xD9 ∷ 0xA0 ∷ codes "007") ≡ panic
other_digits_panic =
    convert_code_panic term re tt 0xD9 0xA0 (codes "007") (omega arith) (omega arith)
