-- ===== src/Ansi/Convert/Keeps.antt =====
-- `convert_string` with ANSI colours keeps the text of plain mode, and does not panic on the codes that the
-- pattern of the source describes, in ASCII.
use mathlib.Core.List.{Sublist}
use mathlib.Core.List.Sublist
use havok_rust.Base.{
  ◌≡◌, refl, ◌∙◌, Bytes, true, List, [], ◌∷◌, ◌++◌, Option, none, some, ok, arith, All, All-append,
  nat_eq, list_eq, Bool-cases, inl, inr,
}
use havok_rust.Ansi.Libraries.{AnsiTerm, FancyRegex}
use havok_rust.Ansi.Colors.{RegexCapture, AnsiParams, eq_params, filled, default_code, styles_eq}
use havok_rust.Ansi.Code.{convert_code}
use havok_rust.Ansi.Code.Result.{IsAscii, Starts, convert_code_lem}
use havok_rust.Ansi.Convert.{
  style_of, parts_of, or_whole, split_preamble, split_preambles, message_parts, convert_string,
}
use havok_rust.Ansi.Convert.Plain.{shown, visible_or, shown-message_parts}
use havok_rust.Ansi.Convert.Painting.{piece, painted, convert_string-painted}

-- Two ASCII characters, and a rest that begins a character.
abbrev pub IsCode : Bytes → Type 0
IsCode [] = ⊥
IsCode (a ∷ []) = ⊥
IsCode (a ∷ b ∷ cs) = IsAscii b × Starts cs

abbrev pub HasCode : RegexCapture → Type 0
HasCode part = IsCode part.code

split_preamble-HasCode :
    (pre : Bytes) (part : RegexCapture)
    → HasCode part
    → All HasCode (split_preamble default_code pre part)
split_preamble-HasCode [] part h = (h, tt)
split_preamble-HasCode (c ∷ cs) part h = ((omega arith, inl (omega arith)), (h, tt))

split_preambles-HasCode :
    (parts : List RegexCapture)
    → All HasCode parts
    → All HasCode (split_preambles default_code parts)
unfolding split_preambles
split_preambles-HasCode [] h = tt
split_preambles-HasCode (part ∷ parts) h =
    All-append HasCode (split_preamble default_code part.preamble part)
      (split_preambles default_code parts) (split_preamble-HasCode part.preamble part h.0)
      (split_preambles-HasCode parts h.1)

or_whole-HasCode :
    (message : Bytes) (parts : List RegexCapture)
    → All HasCode parts
    → All HasCode (or_whole default_code message parts)
unfolding or_whole
or_whole-HasCode message [] h = ((omega arith, inl (omega arith)), tt)
or_whole-HasCode message (part ∷ parts) h = h

module _ (term : AnsiTerm)
    (keeps : (style : term.Style) (text : Bytes) → Sublist text (term.paint style text)) where
  piece_keeps :
      (old : Option (AnsiParams term)) (params : AnsiParams term) (text : Bytes)
      → Sublist text (piece term old params text)
  unfolding piece
  piece_keeps none params text = keeps (style_of term params) text
  piece_keeps (some old) params text = elim (Bool-cases (eq_params term params old)) [
    | inl same ↦ rw same (Sublist.refl text)
    | inr other ↦ rw other (keeps (style_of term params) text)
  ]

  module _ (re : FancyRegex) (regex : re.Regex) where
    convert_code_total :
        (code : Bytes)
        → IsCode code
        → (params : AnsiParams term) × (convert_code term re (filled term re regex) code
            ≡ ok params)
    convert_code_total [] h = absurd h
    convert_code_total (a ∷ []) h = absurd h
    convert_code_total (a ∷ b ∷ cs) h = (_, convert_code_lem term re regex a b cs h.0 h.1)

    painted_total :
        (old : Option (AnsiParams term)) (parts : List RegexCapture)
        → All HasCode parts
        → (out : Bytes) × (painted term re (filled term re regex) old parts ≡ ok out)
          × Sublist (shown parts) out
    unfolding painted
    painted_total old [] h = ([], refl, Sublist.refl [])
    painted_total old (part ∷ parts) h =
        let (params, e) = convert_code_total part.code h.0 in
        let later = painted_total (some params) parts h.1 in
        (
          piece term old params part.text ++ (part.eol ++ later.0),
          rw (e, later.1),
          Sublist.append (piece_keeps old params part.text)
              (Sublist.append (Sublist.refl part.eol) later.2),
        )

    -- Let painting keep the text, as a subsequence. On a filled parser, if every match has a code of two
    -- ASCII characters and a rest that begins a character, the conversion with ANSI colours does not panic,
    -- and holds the output of plain mode, in its order, with only other bytes added.
    pub convert_string_keeps :
        (message : Bytes)
        → All HasCode (parts_of (re.captures_iter regex message))
        → (out : Bytes) × (convert_string term re (filled term re regex) message true ≡ ok out)
          × Sublist (visible_or message (parts_of (re.captures_iter regex message))) out
    unfolding message_parts
    convert_string_keeps message h =
        let run = painted_total none (message_parts term re (filled term re regex) message) (
          split_preambles-HasCode
            (or_whole default_code message (parts_of (re.captures_iter regex message)))
            (or_whole-HasCode message (parts_of (re.captures_iter regex message)) h)) in
        (
          run.0,
          convert_string-painted term re (filled term re regex) message ∙ run.1,
          rw (← shown-message_parts term re (filled term re regex) message) run.2,
        )
