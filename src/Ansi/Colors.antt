-- ===== src/Ansi/Colors.antt =====
-- src/ansicolors.rs: the data types, the tables and `AnsiColors::initialize`.
use havok_rust.Base.{
  ℕ, Bytes, codes, Bool, true, false, ◌&&◌, List, [], ◌∷◌, Option, Outcome, ok, panic, ◌≡◌, ◌↔◌,
  ◌==◌, if◌then◌else◌, Eq, nat_eq, list_eq, arith,
}
use havok_rust.Base.HashMap.{HashMap, insert, fill}
use havok_rust.Ansi.Libraries.{AnsiTerm, FancyRegex}

-- `enum Styles`.
pub data Styles : Type 0 where
  none bold faint italic underline blink negative : Styles

abbrev pub tag : Styles → ℕ
tag none = 0
tag bold = 1
tag faint = 2
tag italic = 3
tag underline = 4
tag blink = 5
tag negative = 6

-- The derived `PartialEq` of `Styles`.
abbrev pub eq_styles : Styles → Styles → Bool
eq_styles a b = tag a == tag b

pub eq_styles_iff : (a b : Styles) → (eq_styles a b ≡ true) ↔ (a ≡ b)
eq_styles_iff a b = ground arith

instance abbrev pub styles_eq : Eq Styles
styles_eq = record { eq = eq_styles; eq_iff = eq_styles_iff }

-- `struct RegexCapture`.
pub record RegexCapture : Type 0 where
  pub preamble : Bytes
  pub code : Bytes
  pub text : Bytes
  pub eol : Bytes

-- `struct ColorMap`.
pub record ColorMap (term : AnsiTerm) : Type 0 where
  pub style : Styles
  pub color : term.Color

-- `struct AnsiParams`.
pub record AnsiParams (term : AnsiTerm) : Type 0 where
  pub style : List Styles
  pub bg : term.Color
  pub fg : term.Color

-- `struct AnsiColors`.
pub record AnsiColors (term : AnsiTerm) (re : FancyRegex) : Type 0 where
  pub initialized : Bool
  pub default_color_code : Bytes
  pub fg_color_map : HashMap Bytes (ColorMap term)
  pub bg_color_map : HashMap ℕ term.Color
  pub style_map : HashMap ℕ Styles
  pub regex : re.Regex

module _ (term : AnsiTerm) where
  abbrev pub plain : term.Color → ColorMap term
  plain c = record { style = none; color = c }

  abbrev pub bright : term.Color → ColorMap term
  bright c = record { style = bold; color = c }

  -- `impl PartialEq for AnsiParams`.
  unfoldable pub eq_params : AnsiParams term → AnsiParams term → Bool
  eq_params a b =
      Eq.eq list_eq a.style b.style
      && (Eq.eq term.color_eq a.bg b.bg && Eq.eq term.color_eq a.fg b.fg)

  -- `impl Default for AnsiParams`.
  unfoldable pub default_params : AnsiParams term
  default_params = record { style = none ∷ []; bg = term.black; fg = term.white }

  -- The calls of `map.insert`, the last one outermost.
  unfoldable pub fg_colors : HashMap Bytes (ColorMap term)
  unfolding insert
  fg_colors = fill [] (
      (codes "00", plain term.black)
      ∷ (codes "0X", plain term.black)
      ∷ (codes "01", plain term.red)
      ∷ (codes "0r", plain term.red)
      ∷ (codes "02", plain term.green)
      ∷ (codes "0g", plain term.green)
      ∷ (codes "03", plain term.yellow)
      ∷ (codes "0y", plain term.yellow)
      ∷ (codes "04", plain term.blue)
      ∷ (codes "0b", plain term.blue)
      ∷ (codes "05", plain term.purple)
      ∷ (codes "0p", plain term.purple)
      ∷ (codes "06", plain term.cyan)
      ∷ (codes "0c", plain term.cyan)
      ∷ (codes "07", plain term.white)
      ∷ (codes "0w", plain term.white)
      ∷ (codes "08", bright term.black)
      ∷ (codes "0x", bright term.black)
      ∷ (codes "09", bright term.red)
      ∷ (codes "0R", bright term.red)
      ∷ (codes "10", bright term.green)
      ∷ (codes "0G", bright term.green)
      ∷ (codes "11", bright term.yellow)
      ∷ (codes "0Y", bright term.yellow)
      ∷ (codes "12", bright term.blue)
      ∷ (codes "0B", bright term.blue)
      ∷ (codes "13", bright term.purple)
      ∷ (codes "0P", bright term.purple)
      ∷ (codes "14", bright term.cyan)
      ∷ (codes "0C", bright term.cyan)
      ∷ (codes "15", bright term.white)
      ∷ (codes "0W", bright term.white)
      ∷ [])

  unfoldable pub bg_colors : HashMap ℕ term.Color
  unfolding insert
  bg_colors = fill [] (
      (0, term.black)
      ∷ (1, term.red)
      ∷ (2, term.green)
      ∷ (3, term.yellow)
      ∷ (4, term.blue)
      ∷ (5, term.purple)
      ∷ (6, term.cyan)
      ∷ (7, term.white)
      ∷ [])

unfoldable pub style_table : HashMap ℕ Styles
unfolding insert
style_table = fill [] (
    (0, none)
    ∷ (1, bold)
    ∷ (2, faint)
    ∷ (3, italic)
    ∷ (4, underline)
    ∷ (5, blink)
    ∷ (6, negative)
    ∷ [])

abbrev pub default_code : Bytes
default_code = codes "0007"

-- The pattern of the colour codes.
abbrev pub color_pattern : Bytes
color_pattern =
    codes
      "(?P<preamble>.*?)\\$[Cc](?P<code>\\d\\d\\d\\S)(?P<text>.*?)(?=(?P<eol>[\\r\\n]+)|$|\\$[Cc]\\d\\d\\d\\S)"

module _ (term : AnsiTerm) (re : FancyRegex) where
  -- The parser that `initialize` leaves.
  abbrev pub filled : re.Regex → AnsiColors term re
  filled regex = record {
    initialized = true;
    default_color_code = default_code;
    fg_color_map = fg_colors term;
    bg_color_map = bg_colors term;
    style_map = style_table;
    regex = regex;
  }

  -- The `unwrap` of the compiled pattern panics if the pattern is refused.
  unfoldable pub initialize : AnsiColors term re → Outcome (AnsiColors term re)
  initialize s = elim (re.build color_pattern) [
    | Option.none ↦ panic
    | Option.some regex ↦ ok (filled regex)
  ]

  -- The initial value of the static `ANSI_PARSER`.
  unfoldable pub ansi_parser : Outcome (AnsiColors term re)
  ansi_parser = elim (re.build []) [
    | Option.none ↦ panic
    | Option.some regex ↦ ok (record {
      initialized = false;
      default_color_code = default_code;
      fg_color_map = [];
      bg_color_map = [];
      style_map = [];
      regex = regex;
    })
  ]

  -- `AnsiColors::get`: what `ANSI_PARSER` holds afterwards, which is what the caller gets.
  unfoldable pub get_colors : AnsiColors term re → Outcome (AnsiColors term re)
  unfolding initialize
  get_colors s = if s.initialized then ok s else initialize s
