-- ===== src/Tests/Samples.antt =====
-- Concrete stand-ins for the crates, small enough to follow: a style is the list of its marks, and painting
-- puts them between two escapes.
use mathlib.Core.List.{Sublist, sublist-append_left, sublist-append_right}
use mathlib.Core.List.Sublist
use havok_rust.Base.{ℕ, ◌+◌, Bytes, codes, [], ◌∷◌, ◌++◌, none, some, if◌then◌else◌, equal, nat_eq}
use havok_rust.Net.{SocketAddr, v4}
use havok_rust.Ansi.Libraries.{AnsiTerm, FancyRegex}
use havok_rust.Connection.Session.{Crates}

abbrev pub term : AnsiTerm
term = record {
  Color = ℕ;
  color_eq = nat_eq;
  black = 0;
  red = 1;
  green = 2;
  yellow = 3;
  blue = 4;
  purple = 5;
  cyan = 6;
  white = 7;
  Style = Bytes;
  new_style = [];
  bold = λ s. 1 ∷ s;
  dimmed = λ s. 2 ∷ s;
  italic = λ s. 3 ∷ s;
  underline = λ s. 4 ∷ s;
  blink = λ s. 5 ∷ s;
  reverse = λ s. 7 ∷ s;
  on = λ s c. (40 + c) ∷ s;
  fg = λ s c. (30 + c) ∷ s;
  paint = λ s text. (27 ∷ s) ++ (text ++ (27 ∷ []));
}

pub term_keeps : (style : Bytes) (text : Bytes) → Sublist text (term.paint style text)
term_keeps style text =
    Sublist.trans (sublist-append_left text (27 ∷ []))
      (sublist-append_right (27 ∷ style) (text ++ (27 ∷ [])))

-- "a$c0001b", and a preamble "a", a code and a text for it; every other message has no match.
abbrev pub colored : Bytes
colored = codes "a$c0001b"

abbrev pub re : FancyRegex
re = record {
  Regex = Unit {0};
  build = λ pattern. some tt;
  captures_iter = λ regex message.
      if equal message colored
      then (some (record {
        preamble = some (codes "a");
        code = some (codes "0001");
        text = some (codes "b");
        eol = none;
      })
          ∷ [])
      else [];
}

abbrev pub crates : Crates
crates = record {
  term = term;
  re = re;
  jinja = record {
    Template = Bytes;
    add_template = λ text. some text;
    render = λ template context. some template;
  };
  from_utf8_lossy = λ bytes. bytes;
}

abbrev pub home : SocketAddr
home = record { ip = v4 1; port = 4000; flowinfo = 0; scope_id = 0 }

abbrev pub away : SocketAddr
away = record { ip = v4 2; port = 4001; flowinfo = 0; scope_id = 0 }
