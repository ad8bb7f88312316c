-- ===== src/Ansi/Convert/Spans.antt =====
-- What a message of colour codes should look like, described without the tables and the steps of
-- src/ansicolors.rs: what each text looks like, and when it is painted.
use havok_rust.Base.{
  ℕ, ◌<◌, ◌≢◌, Bytes, Bool, true, false, List, [], ◌∷◌, ◌++◌, Option, none, some, leb, nat_eq,
  list_eq,
}
use havok_rust.Ansi.Libraries.{AnsiTerm, Groups}
use havok_rust.Ansi.Colors.{AnsiParams, styles_eq}
use havok_rust.Ansi.Code.{unwrap_or}
use havok_rust.Ansi.Code.Meaning.{digit, spelled, entry, code_styles, color_of, fg_of}
use havok_rust.Ansi.Convert.Painting.{piece}

-- A code by what it says: the style digit, the background digit, and the foreground's number or letter.
pub record Code : Type 0 where
  pub style_digit : ℕ
  pub bg_digit : ℕ
  pub fg_number : ℕ
  pub by_letter : Bool

abbrev pub IsValid : Code → Type 0
IsValid code = (code.style_digit < 10) × (code.bg_digit < 10) × (code.fg_number < 16)

abbrev pub in_full : Code → Bytes
in_full code = digit code.style_digit ∷ digit code.bg_digit ∷ spelled code.by_letter code.fg_number

-- White on black, without a style.
abbrev pub usual : Code
usual = record { style_digit = 0; bg_digit = 0; fg_number = 7; by_letter = false }

-- What one match holds. It has no line end at the end of the message or before another code.
pub record Span : Type 0 where
  pub preamble : Bytes
  pub code : Code
  pub text : Bytes
  pub eol : Option Bytes

-- A match, or one in error.
abbrev pub match_of : Option Span → Option Groups
match_of none = none
match_of (some span) = some (record {
  preamble = some span.preamble;
  code = some (in_full span.code);
  text = some span.text;
  eol = span.eol;
})

-- A text in one code, with the line end behind it.
pub record Piece : Type 0 where
  pub code : Code
  pub text : Bytes
  pub eol : Bytes

-- The preamble of a match, if there is one, stands in the usual colours.
abbrev pub with_preamble : Bytes → Piece → List Piece
with_preamble [] piece = piece ∷ []
with_preamble (c ∷ cs) piece = record { code = usual; text = c ∷ cs; eol = [] } ∷ piece ∷ []

abbrev pub piece_of : Span → Piece
piece_of span = record { code = span.code; text = span.text; eol = unwrap_or span.eol [] }

abbrev pub all_pieces : List (Option Span) → List Piece
all_pieces [] = []
all_pieces (none ∷ spans) = all_pieces spans
all_pieces (some span ∷ spans) = with_preamble span.preamble (piece_of span) ++ all_pieces spans

-- A message in which nothing matches is one text in the usual colours.
abbrev pub or_usual : Bytes → List Piece → List Piece
or_usual message [] = record { code = usual; text = message; eol = [] } ∷ []
or_usual message (first ∷ pieces) = first ∷ pieces

abbrev pub pieces : Bytes → List (Option Span) → List Piece
pieces message spans = or_usual message (all_pieces spans)

abbrev pub AreValid : List (Option Span) → Type 0
AreValid [] = Unit
AreValid (none ∷ spans) = AreValid spans
AreValid (some span ∷ spans) = IsValid span.code × AreValid spans

module _ (term : AnsiTerm) where
  -- The marks of a style digit before a foreground, which is bright or not.
  abbrev pub marked : Bool → ℕ → term.Style
  marked false = entry term.new_style (
      term.new_style
      ∷ term.new_style
      ∷ term.dimmed term.new_style
      ∷ term.italic term.new_style
      ∷ term.underline term.new_style
      ∷ term.blink term.new_style
      ∷ term.reverse term.new_style
      ∷ [])
  marked true = entry (term.bold term.new_style) (
      term.bold term.new_style
      ∷ term.bold (term.bold term.new_style)
      ∷ term.bold (term.dimmed term.new_style)
      ∷ term.bold (term.italic term.new_style)
      ∷ term.bold (term.underline term.new_style)
      ∷ term.bold (term.blink term.new_style)
      ∷ term.bold (term.reverse term.new_style)
      ∷ [])

  abbrev pub look : Code → term.Style
  look code =
      term.fg
        (term.on (marked (leb 8 code.fg_number) code.style_digit) (color_of term code.bg_digit))
        (fg_of term code.fg_number)

  abbrev pub meant : Code → AnsiParams term
  meant code = record {
    style = code_styles (leb 8 code.fg_number) code.style_digit;
    bg = color_of term code.bg_digit;
    fg = fg_of term code.fg_number;
  }

  -- What is shown for some pieces behind one with these colours, or behind none: a text is left as it is
  -- where the piece before it means the same, and painted with its look where not.
  pub data Shown : Option (AnsiParams term) → List Piece → Bytes → Type 0 where
    nothing : {old : Option (AnsiParams term)} → Shown old [] []
    as_before :
        {p : Piece} {ps : List Piece} {out : Bytes}
        → Shown (some (meant p.code)) ps out
        → Shown (some (meant p.code)) (p ∷ ps) (p.text ++ (p.eol ++ out))
    in_color :
        {old : Option (AnsiParams term)} {p : Piece} {ps : List Piece} {out : Bytes}
        → old ≢ some (meant p.code)
        → Shown (some (meant p.code)) ps out
        → Shown old (p ∷ ps) (term.paint (look p.code) p.text ++ (p.eol ++ out))
