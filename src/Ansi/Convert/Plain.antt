-- ===== src/Ansi/Convert/Plain.antt =====
-- `convert_string` in plain mode: the message without its codes.
use havok_rust.Base.{
  ◌≡◌, refl, sym, ap, ◌∙◌, Bytes, false, List, [], ◌∷◌, ◌++◌, ok, append_assoc, append-nil,
}
use havok_rust.Ansi.Libraries.{AnsiTerm, FancyRegex}
use havok_rust.Ansi.Colors.{RegexCapture, AnsiColors}
use havok_rust.Ansi.Convert.{
  Painter, start, parts_of, or_whole, split_preamble, split_preambles, write_part, write_parts,
  message_parts, convert_string,
}

-- The text and line end of each part.
abbrev pub shown : List RegexCapture → Bytes
shown [] = []
shown (part ∷ parts) = part.text ++ (part.eol ++ shown parts)

-- The preamble, text and line end of each match.
abbrev pub visible : List RegexCapture → Bytes
visible [] = []
visible (part ∷ parts) = part.preamble ++ (part.text ++ (part.eol ++ visible parts))

-- A message with no code in it is shown whole.
abbrev pub visible_or : Bytes → List RegexCapture → Bytes
visible_or message [] = message
visible_or message (part ∷ parts) = visible (part ∷ parts)

shown-append : (xs ys : List RegexCapture) → shown (xs ++ ys) ≡ shown xs ++ shown ys
shown-append [] ys = refl
shown-append (x ∷ xs) ys = simp (shown-append xs ys, append_assoc)

shown-split_preamble :
    (code pre : Bytes) (part : RegexCapture)
    → shown (split_preamble code pre part) ≡ pre ++ (part.text ++ part.eol)
shown-split_preamble code [] part = simp append-nil
shown-split_preamble code (c ∷ cs) part = simp append-nil

shown-split_preambles :
    (code : Bytes) (parts : List RegexCapture) → shown (split_preambles code parts) ≡ visible parts
unfolding split_preambles
shown-split_preambles code [] = refl
shown-split_preambles code (part ∷ parts) =
    shown-append (split_preamble code part.preamble part) (split_preambles code parts)
    ∙ rw (shown-split_preamble code part.preamble part, shown-split_preambles code parts)
        (simp append_assoc)

visible-or_whole :
    (code message : Bytes) (parts : List RegexCapture)
    → visible (or_whole code message parts) ≡ visible_or message parts
unfolding or_whole
visible-or_whole code message [] = simp append-nil
visible-or_whole code message (part ∷ parts) = refl

module _ (term : AnsiTerm) (re : FancyRegex) (s : AnsiColors term re) where
  pub shown-message_parts :
      (message : Bytes)
      → shown (message_parts term re s message)
        ≡ visible_or message (parts_of (re.captures_iter s.regex message))
  unfolding message_parts
  shown-message_parts message =
      shown-split_preambles s.default_color_code
        (or_whole s.default_color_code message (parts_of (re.captures_iter s.regex message)))
      ∙ visible-or_whole s.default_color_code message (parts_of (re.captures_iter s.regex message))

  write_parts_plain :
      (p : Painter term) (parts : List RegexCapture)
      → (p' : Painter term) × (write_parts term re s false p parts ≡ ok p')
        × (p'.output ≡ p.output ++ shown parts)
  unfolding write_parts
  write_parts_plain p [] = (p, refl, sym (append-nil p.output))
  write_parts_plain p (part ∷ parts) =
      let later = write_parts_plain (write_part term re s false p part p.color_params) parts in
      (later.0, later.1, later.2 ∙ simp append_assoc)

  -- In plain mode nothing panics, whatever the codes are: the output is the preambles, texts and line ends
  -- of the matches in their order, without the codes, or the whole message if there is no match.
  pub convert_string_plain :
      (message : Bytes)
      → convert_string term re s message false
        ≡ ok (visible_or message (parts_of (re.captures_iter s.regex message)))
  unfolding convert_string
  convert_string_plain message =
      let run = write_parts_plain (start term) (message_parts term re s message) in
      rw run.1 (ap ok (run.2 ∙ shown-message_parts message))
