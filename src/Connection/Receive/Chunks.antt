-- ===== src/Connection/Receive/Chunks.antt =====
-- The line loop over a buffer that arrives in pieces, and over whole lines.
use havok_rust.Base.{
  ℕ, ◌≡◌, ◌≢◌, refl, ◌∙◌, Bytes, List, [], ◌∷◌, ◌++◌, map, Outcome, ok, ◌>>=◌, append_assoc, Free,
  All, pop-snoc, none,
}
use havok_rust.Net.{UserMessage}
use havok_rust.Connection.Lines.{cr, lf, backspace, read_line}
use havok_rust.Connection.Lines.Scan.{seek, find}
use havok_rust.Connection.Lines.Backspace.{typed}
use havok_rust.Connection.Lines.ReadLine.{crlf, read_line_text, read_line_none}
use havok_rust.Connection.Receive.{user_message, Sent, receive_lines}
use havok_rust.Connection.Receive.Drains.{
  Reads, stop, line, Reads-total, Reads-append, receive_lines-Reads,
}

module _ (from_utf8_lossy : Bytes → Bytes) where
  -- Messages sent before.
  abbrev pub sent_before :
      List UserMessage → Outcome (Sent from_utf8_lossy) → Outcome (Sent from_utf8_lossy)
  sent_before us r = r >>= λ (vs, rest). ok (us ++ vs, rest)

  -- A buffer without backspaces may arrive in two pieces: the lines of the first are sent when it arrives,
  -- what is left of it waits, and in the end the same messages are sent and the same bytes are left as if
  -- all had come at once.
  pub receive_lines-append :
      (b more : Bytes)
      → Free backspace b
      → (us : List UserMessage) × (r : Bytes) × (receive_lines from_utf8_lossy b ≡ ok (us, r))
        × (receive_lines from_utf8_lossy (b ++ more)
            ≡ sent_before us (receive_lines from_utf8_lossy (r ++ more)))
  receive_lines-append b more free =
      let (us, r, reads) = Reads-total from_utf8_lossy b in
      let (vs, r', later) = Reads-total from_utf8_lossy (r ++ more) in
      (
        us,
        r,
        receive_lines-Reads from_utf8_lossy reads,
        receive_lines-Reads from_utf8_lossy (Reads-append from_utf8_lossy more reads free later)
            ∙ rw (receive_lines-Reads from_utf8_lossy later),
      )

  -- Lines as they are sent over the network.
  abbrev pub with_crlf : List Bytes → Bytes → Bytes
  with_crlf [] tail = tail
  with_crlf (text ∷ texts) tail = text ++ (crlf ++ with_crlf texts tail)

  -- What the user channel gets for a line: its text with the backspaces carried out.
  abbrev pub message_of : Bytes → UserMessage
  message_of text = record {
    bytes = typed text;
    string = from_utf8_lossy (typed text);
    jinja = none;
  }

  user_message-crlf :
      (text : Bytes)
      → user_message from_utf8_lossy (text ++ crlf)
        ≡ record { bytes = text; string = from_utf8_lossy text; jinja = none }
  unfolding user_message
  user_message-crlf text =
      rw
        (← append_assoc text (cr ∷ []) (lf ∷ []), pop-snoc (text ++ (cr ∷ [])) lf, pop-snoc text cr)

  append-ne-nil : (xs : Bytes) (y : ℕ) (ys : Bytes) → xs ++ (y ∷ ys) ≢ []
  append-ne-nil [] y ys e = cc
  append-ne-nil (x ∷ xs) y ys e = cc

  Reads-cons :
      {b rest r : Bytes} {us : List UserMessage} (l : Bytes)
      → l ≢ []
      → read_line b ≡ ok (l, rest)
      → Reads from_utf8_lossy rest us r
      → Reads from_utf8_lossy b (user_message from_utf8_lossy l ∷ us) r
  Reads-cons [] ne e reads = absurd (ne refl)
  Reads-cons (c ∷ cs) ne e reads = line e reads

  pub Reads-with_crlf :
      (texts : List Bytes) (tail : Bytes)
      → All (Free cr) texts
      → find seek 0 tail ≡ none
      → Reads from_utf8_lossy (with_crlf texts tail) (map message_of texts) tail
  Reads-with_crlf [] tail free settled = stop (read_line_none tail settled)
  Reads-with_crlf (text ∷ texts) tail free settled = rw (← user_message-crlf (typed text)) (
      Reads-cons (typed text ++ crlf) (append-ne-nil (typed text) cr (lf ∷ []))
        (read_line_text text (with_crlf texts tail) free.0)
        (Reads-with_crlf texts tail free.1 settled))

  -- Of lines without CR in them, each with CR LF behind it, and a tail without a complete line, the loop
  -- sends one message for each line, in order, with the line's backspaces carried out and without CR LF,
  -- and leaves the tail in the buffer.
  pub receive_lines-with_crlf :
      (texts : List Bytes) (tail : Bytes)
      → All (Free cr) texts
      → find seek 0 tail ≡ none
      → receive_lines from_utf8_lossy (with_crlf texts tail) ≡ ok (map message_of texts, tail)
  receive_lines-with_crlf texts tail free settled =
      receive_lines-Reads from_utf8_lossy (Reads-with_crlf texts tail free settled)
