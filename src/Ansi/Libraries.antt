-- ===== src/Ansi/Libraries.antt =====
-- The two crates that ansicolors.rs calls, as parameters: `ansi_term` and `fancy_regex`. Nothing of them
-- is defined here; a theorem that needs a law of one names it as a hypothesis.
use havok_rust.Base.{Bytes, List, Option, Eq}

-- `ansi_term`: `Color` with its derived `PartialEq` and the names that the source uses, the builder
-- `Style`, and `format!("{}", style.paint(text))`.
pub record AnsiTerm : Type 1 where
  pub Color : Type 0
  pub color_eq : Eq Color
  pub black : Color
  pub red : Color
  pub green : Color
  pub yellow : Color
  pub blue : Color
  pub purple : Color
  pub cyan : Color
  pub white : Color
  pub Style : Type 0
  pub new_style : Style
  pub bold : Style → Style
  pub dimmed : Style → Style
  pub italic : Style → Style
  pub underline : Style → Style
  pub blink : Style → Style
  pub reverse : Style → Style
  pub on : Style → Color → Style
  pub fg : Style → Color → Style
  pub paint : Style → Bytes → Bytes

-- The named groups of one match, as `cap.name(...)` gives them.
pub record Groups : Type 0 where
  pub preamble : Option Bytes
  pub code : Option Bytes
  pub text : Option Bytes
  pub eol : Option Bytes

-- `fancy_regex`: compiling a pattern, and the items of `captures_iter`, `none` for an error.
pub record FancyRegex : Type 1 where
  pub Regex : Type 0
  pub build : Bytes → Option Regex
  pub captures_iter : Regex → Bytes → List (Option Groups)
