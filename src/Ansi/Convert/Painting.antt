-- ===== src/Ansi/Convert/Painting.antt =====
-- `convert_string` with ANSI colours, against a description by parts: what a part adds depends on its own
-- colours and on those of the part before it.
use havok_rust.Base.{
  ◌≡◌, refl, sym, ap, ◌∙◌, Bytes, true, List, [], ◌∷◌, ◌++◌, Option, none, some, Outcome, ok, panic,
  out_of_fuel, ◌>>=◌, append_assoc, append-nil, if◌then◌else◌, Bool-cases, inl, inr, ◌&&◌, nat_eq,
  list_eq,
}
use havok_rust.Ansi.Libraries.{AnsiTerm, FancyRegex}
use havok_rust.Ansi.Colors.{RegexCapture, AnsiParams, AnsiColors, eq_params}
use havok_rust.Ansi.Code.{convert_code}
use havok_rust.Ansi.Convert.{
  Painter, start, style_of, write_part, write_parts, message_parts, convert_string,
}

module _ (term : AnsiTerm) where
  -- The text is painted unless the part before it, if there is one, has the same colours.
  unfoldable pub piece : Option (AnsiParams term) → AnsiParams term → Bytes → Bytes
  piece none params text = term.paint (style_of term params) text
  piece (some old) params text =
      if eq_params term params old then text else term.paint (style_of term params) text

  -- The colours of the part before.
  abbrev before : Painter term → Option (AnsiParams term)
  before p = if p.have_old_color_params then some p.old_color_params else none

  written :
      (p : Painter term) (params : AnsiParams term) (text : Bytes)
      → (if p.have_old_color_params && eq_params term params p.old_color_params
          then text
          else term.paint (style_of term params) text)
        ≡ piece (before p) params text
  unfolding piece
  written p params text = elim (Bool-cases p.have_old_color_params) [ inl h ↦ rw h | inr h ↦ rw h ]

module _ (term : AnsiTerm) (re : FancyRegex) (s : AnsiColors term re) where
  unfoldable pub painted : Option (AnsiParams term) → List RegexCapture → Outcome Bytes
  unfolding piece
  painted old [] = ok []
  painted old (part ∷ parts) = do
    params ← convert_code term re s part.code
    rest ← painted (some params) parts
    ok (piece term old params part.text ++ (part.eol ++ rest))

  -- Putting the output so far in front.
  abbrev in_front : Bytes → Outcome Bytes → Outcome Bytes
  in_front pre r = r >>= λ out. ok (pre ++ out)

  write_part-output :
      (p : Painter term) (part : RegexCapture) (params : AnsiParams term)
      → (write_part term re s true p part params).output
        ≡ p.output ++ (piece term (before term p) params part.text ++ part.eol)
  unfolding write_part
  write_part-output p part params = rw (← written term p params part.text)

  in_front-piece :
      (p : Painter term) (part : RegexCapture) (params : AnsiParams term) (r : Outcome Bytes)
      → in_front (write_part term re s true p part params).output r
        ≡ in_front p.output
            (r >>= λ rest. ok (piece term (before term p) params part.text ++ (part.eol ++ rest)))
  in_front-piece p part params (ok out) = rw (write_part-output p part params) (simp append_assoc)
  in_front-piece p part params _ = refl

  write_parts-painted :
      (p : Painter term) (parts : List RegexCapture)
      → (write_parts term re s true p parts >>= λ p'. ok p'.output)
        ≡ in_front p.output (painted (before term p) parts)
  unfolding write_parts painted write_part
  write_parts-painted p [] = ap ok (sym (append-nil p.output))
  write_parts-painted p (part ∷ parts) =
      go (convert_code term re s part.code)
        (λ params. write_parts-painted (write_part term re s true p part params) parts)
    where
      Params : Type 0
      Params = AnsiParams term

      Step : Params → Type 0
      Step params =
          (write_parts term re s true (write_part term re s true p part params) parts >>= λ p'.
          ok p'.output)
          ≡ in_front (write_part term re s true p part params).output (painted (some params) parts)

      go :
          (r : Outcome Params)
          → ((params : Params) → Step params)
          → ((r >>= λ params.
                write_parts term re s true (write_part term re s true p part params) parts)
              >>= λ p'. ok p'.output)
            ≡ in_front p.output (
                r >>= λ params. painted (some params) parts >>= λ rest.
                ok (piece term (before term p) params part.text ++ (part.eol ++ rest)))
      go (ok params) ih = ih params ∙ in_front-piece p part params (painted (some params) parts)
      go panic ih = refl
      go out_of_fuel ih = refl

  in_front_nil : (r : Outcome Bytes) → in_front [] r ≡ r
  in_front_nil (ok out) = refl
  in_front_nil _ = refl

  -- With ANSI colours the output is, part by part, the text and the line end; the text is painted in the
  -- part's colours, but left as it is where the part before has the same colours. It panics where
  -- `convert_code` does.
  pub convert_string-painted :
      (message : Bytes)
      → convert_string term re s message true ≡ painted none (message_parts term re s message)
  unfolding convert_string
  convert_string-painted message =
      write_parts-painted (start term) (message_parts term re s message)
      ∙ in_front_nil (painted none (message_parts term re s message))
