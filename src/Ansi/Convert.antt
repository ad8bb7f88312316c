-- ===== src/Ansi/Convert.antt =====
-- src/ansicolors.rs, `AnsiColors::convert_string`.
pub mod Plain
pub mod Keeps
pub mod Painting
pub mod Spans
pub mod Shows
use havok_rust.Base.{
  ℕ, Bytes, Bool, true, false, not, ◌&&◌, ◌||◌, List, [], ◌∷◌, ◌++◌, Option, none, some, Outcome,
  ok, panic, ◌>>=◌, if◌then◌else◌, equal,
}
use havok_rust.Ansi.Libraries.{AnsiTerm, FancyRegex, Groups}
use havok_rust.Ansi.Colors.{Styles, RegexCapture, AnsiParams, AnsiColors, eq_params, default_params}
use havok_rust.Ansi.Code.{unwrap_or, convert_code}

-- `cap.name(...).map_or("", ...)` for each group.
unfoldable pub part_of : Groups → RegexCapture
part_of cap = record {
  preamble = unwrap_or cap.preamble [];
  code = unwrap_or cap.code [];
  text = unwrap_or cap.text [];
  eol = unwrap_or cap.eol [];
}

-- The first loop: matches in error are passed over.
unfoldable pub parts_of : List (Option Groups) → List RegexCapture
unfolding part_of
parts_of [] = []
parts_of (none ∷ captures) = parts_of captures
parts_of (some cap ∷ captures) = part_of cap ∷ parts_of captures

module _ (default_color_code : Bytes) where
  -- `if parts.len() == 0`: the whole message as one part.
  unfoldable pub or_whole : Bytes → List RegexCapture → List RegexCapture
  or_whole message [] =
      record { preamble = []; code = default_color_code; text = message; eol = [] } ∷ []
  or_whole message (part ∷ parts) = part ∷ parts

  -- The second loop: a preamble becomes a part of its own, in the default colours.
  abbrev pub split_preamble : Bytes → RegexCapture → List RegexCapture
  split_preamble [] part = part ∷ []
  split_preamble (c ∷ cs) part =
      record { preamble = []; code = default_color_code; text = c ∷ cs; eol = [] }
      ∷ record part { preamble = [] }
      ∷ []

  unfoldable pub split_preambles : List RegexCapture → List RegexCapture
  split_preambles [] = []
  split_preambles (part ∷ parts) = split_preamble part.preamble part ++ split_preambles parts

-- What the third loop carries from part to part.
pub record Painter (term : AnsiTerm) : Type 0 where
  pub output : Bytes
  pub have_old_color_params : Bool
  pub color_params : AnsiParams term
  pub old_color_params : AnsiParams term

module _ (term : AnsiTerm) where
  unfoldable pub add_style : term.Style → Styles → term.Style
  add_style style Styles.none = style
  add_style style Styles.bold = term.bold style
  add_style style Styles.faint = term.dimmed style
  add_style style Styles.italic = term.italic style
  add_style style Styles.underline = term.underline style
  add_style style Styles.blink = term.blink style
  add_style style Styles.negative = term.reverse style

  unfoldable pub add_styles : term.Style → List Styles → term.Style
  unfolding add_style
  add_styles style [] = style
  add_styles style (s ∷ ss) = add_styles (add_style style s) ss

  unfoldable pub style_of : AnsiParams term → term.Style
  unfolding add_styles
  style_of params = term.fg (term.on (add_styles term.new_style params.style) params.bg) params.fg

  abbrev start : Painter term
  start = record {
    output = [];
    have_old_color_params = false;
    color_params = default_params term;
    old_color_params = default_params term;
  }

module _ (term : AnsiTerm) (re : FancyRegex) (s : AnsiColors term re) where
  -- The colours of a part: in plain mode those before it stay.
  unfoldable pub part_params : Bool → Painter term → RegexCapture → Outcome (AnsiParams term)
  unfolding convert_code
  part_params ansi_mode p part =
      if ansi_mode then convert_code term re s part.code else ok p.color_params

  -- One round of the third loop, behind `convert_code`.
  unfoldable pub write_part : Bool → Painter term → RegexCapture → AnsiParams term → Painter term
  unfolding style_of eq_params
  write_part ansi_mode p part params =
      let same = p.have_old_color_params && eq_params term params p.old_color_params in
      let text =
        if not ansi_mode || same then part.text else term.paint (style_of term params) part.text in
      record {
        output = p.output ++ (text ++ part.eol);
        have_old_color_params = true;
        color_params = params;
        old_color_params = params;
      }

  unfoldable pub write_parts : Bool → Painter term → List RegexCapture → Outcome (Painter term)
  unfolding part_params write_part
  write_parts ansi_mode p [] = ok p
  write_parts ansi_mode p (part ∷ parts) = do
    params ← part_params ansi_mode p part
    write_parts ansi_mode (write_part ansi_mode p part params) parts

  -- The parts that the third loop runs over.
  unfoldable pub message_parts : Bytes → List RegexCapture
  unfolding parts_of or_whole split_preambles
  message_parts message =
      split_preambles s.default_color_code
        (or_whole s.default_color_code message (parts_of (re.captures_iter s.regex message)))

  unfoldable pub convert_string : Bytes → Bool → Outcome Bytes
  unfolding message_parts write_parts default_params
  convert_string message ansi_mode = do
    p ← write_parts ansi_mode (start term) (message_parts message)
    ok p.output
