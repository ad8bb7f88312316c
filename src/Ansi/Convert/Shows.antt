-- ===== src/Ansi/Convert/Shows.antt =====
-- `convert_string` on a message of colour codes shows what the description says.
use mathlib.Core.Path.{subst}
use havok_rust.Base.{
  ℕ, ◌≡◌, ◌↔◌, ◌∙◌, refl, sym, ap, Bytes, Bool, true, false, Bool-cases, inl, inr, List, [], ◌∷◌,
  ◌++◌, Option, none, some, ok, All, map, leb, arith, nat_eq, list_eq, Eq,
}
use havok_rust.Ansi.Libraries.{AnsiTerm, FancyRegex}
use havok_rust.Ansi.Colors.{
  Styles, RegexCapture, AnsiParams, filled, eq_params, default_code, styles_eq,
}
use havok_rust.Ansi.Convert.Spans.{
  Code, IsValid, in_full, usual, Span, match_of, Piece, with_preamble, piece_of, all_pieces,
  or_usual, pieces, AreValid, marked, look, meant, Shown,
}
use havok_rust.Ansi.Code.Meaning.{code_styles, color_of, fg_of, Below, at-Below, convert_code_means}
use havok_rust.Ansi.Convert.{
  style_of, split_preamble, parts_of, or_whole, split_preambles, message_parts, convert_string,
}
use havok_rust.Ansi.Convert.Painting.{piece, painted, convert_string-painted}

usual-IsValid : IsValid usual
usual-IsValid = (omega arith, omega arith, omega arith)

module _ (term : AnsiTerm) where
  abbrev IsMarked : Bool → ℕ → Type 0
  IsMarked is_bright a =
      (bg fg : term.Color)
      → style_of term (record { style = code_styles is_bright a; bg = bg; fg = fg })
        ≡ term.fg (term.on (marked term is_bright a) bg) fg

  marks : (is_bright : Bool) → Below (IsMarked is_bright) 10
  unfolding style_of
  marks true = (
    λ bg fg. refl,
    (
      λ bg fg. refl,
      (
        λ bg fg. refl,
        (
          λ bg fg. refl,
          (
            λ bg fg. refl,
            (λ bg fg. refl, (λ bg fg. refl, (λ bg fg. refl, (λ bg fg. refl, (λ bg fg. refl, tt))))),
          ),
        ),
      ),
    ),
  )
  marks false = (
    λ bg fg. refl,
    (
      λ bg fg. refl,
      (
        λ bg fg. refl,
        (
          λ bg fg. refl,
          (
            λ bg fg. refl,
            (λ bg fg. refl, (λ bg fg. refl, (λ bg fg. refl, (λ bg fg. refl, (λ bg fg. refl, tt))))),
          ),
        ),
      ),
    ),
  )

  style_of-meant : (code : Code) → IsValid code → style_of term (meant term code) ≡ look term code
  style_of-meant code h =
      at-Below (IsMarked (leb 8 code.fg_number)) 10 code.style_digit (marks (leb 8 code.fg_number))
        h.0 (color_of term code.bg_digit) (fg_of term code.fg_number)

  same_params : (a b : AnsiParams term) → a.style ≡ b.style → a.bg ≡ b.bg → a.fg ≡ b.fg → a ≡ b
  same_params a b style bg fg =
      ap (λ (s : List Styles). record a { style = s }) style
      ∙ ap (λ (c : term.Color). record a { style = b.style; bg = c }) bg
      ∙ ap (λ (c : term.Color). record b { fg = c }) fg

  eq_params_iff : (a b : AnsiParams term) → (eq_params term a b ≡ true) ↔ (a ≡ b)
  unfolding eq_params
  eq_params_iff a b =
      let styles = Eq.eq_iff (list_eq ⦃e = styles_eq⦄) a.style b.style in
      let bgs = Eq.eq_iff term.color_eq a.bg b.bg in
      let fgs = Eq.eq_iff term.color_eq a.fg b.fg in
      (
        λ h.
            same_params a b (styles.0 (ground arith)) (bgs.0 (ground arith)) (fgs.0 (ground arith)),
        λ e.
            rw
              (
                styles.1 (ap (λ (x : AnsiParams term). x.style) e),
                bgs.1 (ap (λ (x : AnsiParams term). x.bg) e),
                fgs.1 (ap (λ (x : AnsiParams term). x.fg) e),
              )
              refl,
      )

  in_look :
      (old : Option (AnsiParams term)) (p : Piece) (ps : List Piece) (out : Bytes)
      → IsValid p.code
      → Shown term old (p ∷ ps) (term.paint (look term p.code) p.text ++ (p.eol ++ out))
      → Shown term old
          (p ∷ ps)
          (term.paint (style_of term (meant term p.code)) p.text ++ (p.eol ++ out))
  in_look old p ps out h shown =
      subst (λ (st : term.Style). Shown term old (p ∷ ps) (term.paint st p.text ++ (p.eol ++ out)))
        (sym (style_of-meant p.code h)) shown

  as_it_was :
      (old : AnsiParams term) (p : Piece) (ps : List Piece) (out : Bytes)
      → meant term p.code ≡ old
      → Shown term (some (meant term p.code)) ps out
      → Shown term (some old) (p ∷ ps) (p.text ++ (p.eol ++ out))
  as_it_was old p ps out is_meant later =
      subst (λ (o : AnsiParams term). Shown term (some o) (p ∷ ps) (p.text ++ (p.eol ++ out)))
        is_meant (Shown.as_before later)

  piece-Shown :
      (old : Option (AnsiParams term)) (p : Piece) (ps : List Piece) (out : Bytes)
      → IsValid p.code
      → Shown term (some (meant term p.code)) ps out
      → Shown term old (p ∷ ps) (piece term old (meant term p.code) p.text ++ (p.eol ++ out))
  unfolding piece
  piece-Shown none p ps out h later = in_look none p ps out h (Shown.in_color (λ e. cc) later)
  piece-Shown (some old) p ps out h later =
      elim (Bool-cases (eq_params term (meant term p.code) old)) [
        | inl same ↦
            let is_meant : meant term p.code ≡ old =
              (eq_params_iff (meant term p.code) old).0 same in
            rw same (as_it_was old p ps out is_meant later)
        | inr other ↦ rw other (
            in_look (some old) p ps out h (
              Shown.in_color
                (λ e.
                  let same : meant term p.code ≡ old = cc in
                  let found = (eq_params_iff (meant term p.code) old).1 same in cc)
                later))
      ]

module _ (term : AnsiTerm) (re : FancyRegex) (regex : re.Regex) where
  abbrev part : Piece → RegexCapture
  part p = record { preamble = []; code = in_full p.code; text = p.text; eol = p.eol }

  abbrev Valids : List Piece → Type 0
  Valids = All (λ p. IsValid p.code)

  painted-Shown :
      (old : Option (AnsiParams term)) (ps : List Piece)
      → Valids ps
      → (out : Bytes) × (painted term re (filled term re regex) old (map part ps) ≡ ok out)
        × Shown term old ps out
  unfolding painted
  painted-Shown old [] h = ([], refl, Shown.nothing)
  painted-Shown old (p ∷ ps) h =
      let e =
        convert_code_means term re regex p.code.style_digit p.code.bg_digit p.code.fg_number
          p.code.by_letter h.0.0 h.0.1 h.0.2 in
      let (out, ran, shown) = painted-Shown (some (meant term p.code)) ps h.1 in
      (
        piece term old (meant term p.code) p.text ++ (p.eol ++ out),
        rw (e, ran) refl,
        piece-Shown term old p ps out h.0 shown,
      )

  with_preamble-Valids :
      (preamble : Bytes) (p : Piece) (ps : List Piece)
      → IsValid p.code
      → Valids ps
      → Valids (with_preamble preamble p ++ ps)
  with_preamble-Valids [] p ps h hs = (h, hs)
  with_preamble-Valids (c ∷ cs) p ps h hs = (usual-IsValid, (h, hs))

  all_pieces-Valids : (spans : List (Option Span)) → AreValid spans → Valids (all_pieces spans)
  all_pieces-Valids [] h = tt
  all_pieces-Valids (none ∷ spans) h = all_pieces-Valids spans h
  all_pieces-Valids (some span ∷ spans) h =
      with_preamble-Valids span.preamble (piece_of span) (all_pieces spans) h.0
        (all_pieces-Valids spans h.1)

  or_usual-Valids : (message : Bytes) (ps : List Piece) → Valids ps → Valids (or_usual message ps)
  or_usual-Valids message [] h = (usual-IsValid, tt)
  or_usual-Valids message (p ∷ ps) h = h

  abbrev part_in : Bytes → Piece → RegexCapture
  part_in preamble p = record (part p) { preamble = preamble }

  splits_one :
      (preamble : Bytes) (p : Piece) (parts : List RegexCapture) (ps : List Piece)
      → parts ≡ map part ps
      → split_preamble default_code preamble (part_in preamble p) ++ parts
        ≡ map part (with_preamble preamble p ++ ps)
  splits_one [] p parts ps e = ap (λ (rest : List RegexCapture). part p ∷ rest) e
  splits_one (c ∷ cs) p parts ps e =
      ap
        (λ (rest : List RegexCapture).
          part (record { code = usual; text = c ∷ cs; eol = [] }) ∷ part p ∷ rest)
        e

  splits :
      (spans : List (Option Span))
      → split_preambles default_code (parts_of (map match_of spans)) ≡ map part (all_pieces spans)
  unfolding split_preambles parts_of
  splits [] = refl
  splits (none ∷ spans) = splits spans
  splits (some span ∷ spans) =
      splits_one span.preamble (piece_of span)
        (split_preambles default_code (parts_of (map match_of spans))) (all_pieces spans)
        (splits spans)

  or_usual-with_preamble :
      (message preamble : Bytes) (p : Piece) (ps : List Piece)
      → or_usual message (with_preamble preamble p ++ ps) ≡ with_preamble preamble p ++ ps
  or_usual-with_preamble message [] p ps = refl
  or_usual-with_preamble message (c ∷ cs) p ps = refl

  whole :
      (message : Bytes) (spans : List (Option Span))
      → split_preambles default_code (or_whole default_code message (parts_of (map match_of spans)))
        ≡ map part (pieces message spans)
  unfolding split_preambles or_whole parts_of
  whole message [] = refl
  whole message (none ∷ spans) = whole message spans
  whole message (some span ∷ spans) =
      splits (some span ∷ spans)
      ∙ ap (map part)
          (sym (or_usual-with_preamble message span.preamble (piece_of span) (all_pieces spans)))

  -- Let each match of the pattern in a message be in error or have a preamble, a code of a style digit, a
  -- background digit and one of the sixteen foregrounds, a text and a line end. Then the conversion with ANSI
  -- colours does not panic, and gives, in order, the preambles and texts of the matches without an error, or
  -- the whole message where there are none. A preamble that is not empty, and the whole message, stands in
  -- white on black. A text is painted with the look of its code, its marks, background and foreground, but
  -- left as it is where the text before it is in a code of the same styles and colours. Each text of a match
  -- is followed by its line end.
  pub convert_string_shows :
      (message : Bytes) (spans : List (Option Span))
      → AreValid spans
      → re.captures_iter regex message ≡ map match_of spans
      → (out : Bytes) × (convert_string term re (filled term re regex) message true ≡ ok out)
        × Shown term none (pieces message spans) out
  unfolding message_parts
  convert_string_shows message spans h matched =
      let s = filled term re regex in
      let parts : message_parts term re s message ≡ map part (pieces message spans) =
        rw matched (whole message spans) in
      let (out, ran, shown) =
        painted-Shown none (pieces message spans)
          (or_usual-Valids message (all_pieces spans) (all_pieces-Valids spans h)) in
      (
        out,
        convert_string-painted term re s message ∙ ap (painted term re s none) parts ∙ ran,
        shown,
      )
