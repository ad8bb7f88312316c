-- ===== src/Connection/Lines/ReadLine.antt =====
-- What `read_line` returns.
use havok_rust.Base.{
  ℕ, ◌+◌, ◌≤◌, ◌≡◌, ◌≢◌, refl, sym, ap, ◌∙◌, ◌⊎◌, inl, inr, [], ◌∷◌, ◌++◌, Bytes, none, some, ok,
  Free, eq_false, length, length-append, arith, take, drop, split_at, take-append-drop,
  append_assoc, take-length_append, drop-length_append, Option-cases, length-drop,
}
use havok_rust.Connection.Lines.{cr, lf, take_line, read_line}
use havok_rust.Connection.Lines.Scan.{seek, find, find-append_cr, find-Free, find-le, scan-find}
use havok_rust.Connection.Lines.Backspace.{typed, typed-snoc, process_backspaces-typed}

split_at_lem : (n : ℕ) (b : Bytes) → n ≤ length b → split_at n b ≡ ok (take n b, drop n b)
unfolding split_at
split_at_lem n b h = ground arith

take_line-some :
    (b : Bytes) (i : ℕ)
    → i + 2 ≤ length b
    → take_line b (some i) ≡ ok (typed (take (i + 2) b), drop (i + 2) b)
unfolding take_line
take_line-some b i h = rw (split_at_lem (i + 2) b h, process_backspaces-typed (take (i + 2) b))

read_line-find : (b : Bytes) → read_line b ≡ take_line b (find seek 0 b)
unfolding read_line
read_line-find b = rw (scan-find b)

pub read_line_none : (b : Bytes) → find seek 0 b ≡ none → read_line b ≡ ok ([], b)
read_line_none b e = read_line-find b ∙ rw e (unfold take_line in refl)

pub read_line-some :
    (b : Bytes) (i : ℕ)
    → find seek 0 b ≡ some i
    → read_line b ≡ ok (typed (take (i + 2) b), drop (i + 2) b)
read_line-some b i e = read_line-find b ∙ rw e (take_line-some b i (find-le b e))

-- The buffer is left as it was, or is cut in two behind at least two bytes.
pub record Cut (b line rest : Bytes) : Type 0 where
  pub front : Bytes
  pub cuts : b ≡ front ++ rest
  pub advances : 2 ≤ length front
  pub line_is : line ≡ typed front

-- `read_line` returns on every buffer: no line and the buffer itself, or a first part of the buffer with
-- its backspaces carried out, and all of the rest.
pub read_line_total :
    (b : Bytes)
    → (line : Bytes) × (rest : Bytes) × (read_line b ≡ ok (line, rest))
      × (((line ≡ []) × (rest ≡ b)) ⊎ Cut b line rest)
read_line_total b = elim (Option-cases (find seek 0 b)) [
  | inl e ↦ ([], b, read_line_none b e, inl (refl, refl))
  | inr (i, e) ↦ (
    typed (take (i + 2) b),
    drop (i + 2) b,
    read_line-some b i e,
    inr (record {
      front = take (i + 2) b;
      cuts = sym (take-append-drop (i + 2) b);
      advances = omega (
        arith,
        find-le b e,
        ap length (take-append-drop (i + 2) b),
        length-append (take (i + 2) b) (drop (i + 2) b),
        length-drop (i + 2) b,
      );
      line_is = refl;
    }),
  )
]

find_text :
    (text rest : Bytes) → Free cr text → find seek 0 (text ++ (cr ∷ lf ∷ rest)) ≡ some (length text)
unfolding find
find_text text rest free = find-append_cr 0 (length text) text (lf ∷ rest) (omega arith) free

abbrev pub crlf : Bytes
crlf = cr ∷ lf ∷ []

pub typed-crlf : (text : Bytes) → typed (text ++ crlf) ≡ typed text ++ crlf
typed-crlf text =
    ap typed (sym (append_assoc text (cr ∷ []) (lf ∷ [])))
    ∙ typed-snoc (text ++ (cr ∷ [])) lf (omega arith)
    ∙ ap (λ (l : Bytes). l ++ (lf ∷ [])) (typed-snoc text cr (omega arith))
    ∙ append_assoc (typed text) (cr ∷ []) (lf ∷ [])

-- A buffer that is cut at the length of its first part.
pub read_line_cut :
    (front rest : Bytes) (i : ℕ)
    → i + 2 ≡ length front
    → find seek 0 (front ++ rest) ≡ some i
    → read_line (front ++ rest) ≡ ok (typed front, rest)
read_line_cut front rest i e found =
    read_line-some (front ++ rest) i found
    ∙ rw (e, take-length_append front rest, drop-length_append front rest)

-- For a text without CR, in front of CR LF, the line is the text with its backspaces carried out and
-- CR LF behind it, and the rest is what follows.
pub read_line_text :
    (text rest : Bytes)
    → Free cr text
    → read_line (text ++ (cr ∷ lf ∷ rest)) ≡ ok (typed text ++ crlf, rest)
read_line_text text rest free =
    ap read_line (sym (append_assoc text crlf rest))
    ∙ read_line_cut (text ++ crlf) rest (length text) (omega (arith, length-append text crlf))
        (ap (find seek 0) (append_assoc text crlf rest) ∙ find_text text rest free)
    ∙ rw (typed-crlf text)

find_lone :
    (text more rest : Bytes) (x : ℕ)
    → Free cr text
    → Free cr more
    → x ≢ lf
    → find seek 0 (text ++ (cr ∷ x ∷ (more ++ (cr ∷ lf ∷ rest)))) ≡ some (length more)
find_lone text more rest x free free' h =
    find-append_cr 0 (length text) text (x ∷ (more ++ (cr ∷ lf ∷ rest))) (omega arith) free
    ∙ unfold find in rw (eq_false x lf h) (find_text more rest free')

-- A CR that no LF follows spoils the next line: the buffer is cut, from its start, behind as many bytes
-- as stand behind the byte after that CR up to the line's end, and not at the line's end.
pub read_line_lone_cr :
    (text more rest : Bytes) (x : ℕ)
    → Free cr text
    → Free cr more
    → x ≢ lf
    → let b = text ++ (cr ∷ x ∷ (more ++ (cr ∷ lf ∷ rest))) in
      read_line b ≡ ok (typed (take (length more + 2) b), drop (length more + 2) b)
read_line_lone_cr text more rest x free free' h =
    read_line-some (text ++ (cr ∷ x ∷ (more ++ (cr ∷ lf ∷ rest)))) (length more)
      (find_lone text more rest x free free' h)

-- Behind two CRs in a row the LF is not seen: with no further CR there is no line.
pub read_line_doubled_cr :
    (text rest : Bytes)
    → Free cr text
    → Free cr rest
    → read_line (text ++ (cr ∷ cr ∷ lf ∷ rest)) ≡ ok ([], text ++ (cr ∷ cr ∷ lf ∷ rest))
read_line_doubled_cr text rest free free' = read_line_none (text ++ (cr ∷ cr ∷ lf ∷ rest)) (
    find-append_cr 0 (length text) text (cr ∷ lf ∷ rest) (omega arith) free
    ∙ unfold find in find-Free 1 rest free')
