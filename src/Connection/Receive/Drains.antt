-- ===== src/Connection/Receive/Drains.antt =====
-- The line loop as a relation, which needs no fuel.
use havok_rust.Base.{
  ℕ, zero, suc, ◌+◌, ◌<◌, ◌≡◌, ◌≢◌, sym, ap, ◌∙◌, inl, inr, Bytes, List, [], ◌∷◌, ◌++◌, Outcome, ok,
  follow, run_loop, length, length-append, append-nil, append_assoc, arith, Free, All-front,
  Option-cases, take, drop, take-append_le, drop-append_le, take-append-drop, length-drop, All-back,
}
use havok_rust.Net.{UserMessage}
use havok_rust.Connection.Lines.{backspace, read_line}
use havok_rust.Connection.Lines.Scan.{seek, find, find-le, find-append}
use havok_rust.Connection.Lines.Backspace.{typed, typed-Free}
use havok_rust.Connection.Lines.ReadLine.{read_line_total, read_line-some, read_line_none}
use havok_rust.Connection.Receive.{user_message, Sent, lines_round, receive_lines}

-- A line is shorter than the buffer that it is read from by what is left.
line_shortens :
    (b : Bytes) (c : ℕ) (cs rest : Bytes) → read_line b ≡ ok (c ∷ cs, rest) → length rest < length b
line_shortens b c cs rest e =
    let (line, rest', e', out) = read_line_total b in
    let same_rest : rest' ≡ rest = cc in
    let same_line : line ≡ c ∷ cs = cc in
    elim out [
      | inl (empty, _) ↦ cc
      | inr cut ↦ omega (
        arith,
        ap length cut.cuts,
        cut.advances,
        length-append cut.front rest',
        ap length same_rest,
      )
    ]

module _ (from_utf8_lossy : Bytes → Bytes) where
  -- From buffer `b` the loop sends `us` and leaves `r`.
  pub data Reads : Bytes → List UserMessage → Bytes → Type 0 where
    stop : {b r : Bytes} → read_line b ≡ ok ([], r) → Reads b [] r
    line :
        {b r r' : Bytes} {us : List UserMessage} {c : ℕ} {cs : Bytes}
        → read_line b ≡ ok (c ∷ cs, r)
        → Reads r us r'
        → Reads b (user_message from_utf8_lossy (c ∷ cs) ∷ us) r'

  round_stop :
      (sent : List UserMessage) (b r : Bytes)
      → read_line b ≡ ok ([], r)
      → (next : Sent from_utf8_lossy → Outcome (Sent from_utf8_lossy))
      → follow (lines_round from_utf8_lossy (sent, b)) next ≡ ok (sent, r)
  unfolding lines_round
  round_stop sent b r e next = rw e

  round_line :
      (sent : List UserMessage) (b r : Bytes) (c : ℕ) (cs : Bytes)
      → read_line b ≡ ok (c ∷ cs, r)
      → (next : Sent from_utf8_lossy → Outcome (Sent from_utf8_lossy))
      → follow (lines_round from_utf8_lossy (sent, b)) next
        ≡ next (sent ++ (user_message from_utf8_lossy (c ∷ cs) ∷ []), r)
  unfolding lines_round
  round_line sent b r c cs e next = rw e

  run-Reads :
      (fuel : ℕ) (sent : List UserMessage) {b : Bytes} {us : List UserMessage} {r : Bytes}
      → Reads b us r
      → length b < fuel
      → run_loop fuel (lines_round from_utf8_lossy) (sent, b) ≡ ok (sent ++ us, r)
  unfolding run_loop
  run-Reads zero sent reads h = absurd (omega arith)
  run-Reads (suc fuel) sent {b} {r = r} (stop e) h =
      round_stop sent b r e (run_loop fuel (lines_round from_utf8_lossy)) ∙ rw append-nil
  run-Reads (suc fuel) sent {b} (line {r = rest} {us = us} {c = c} {cs = cs} e later) h =
      round_line sent b rest c cs e (run_loop fuel (lines_round from_utf8_lossy))
      ∙ run-Reads fuel (sent ++ (user_message from_utf8_lossy (c ∷ cs) ∷ [])) later
          (omega (arith, line_shortens b c cs rest e))
      ∙ rw (append_assoc sent (user_message from_utf8_lossy (c ∷ cs) ∷ []) us)

  pub receive_lines-Reads :
      {b : Bytes} {us : List UserMessage} {r : Bytes}
      → Reads b us r
      → receive_lines from_utf8_lossy b ≡ ok (us, r)
  unfolding receive_lines
  receive_lines-Reads {b} reads = run-Reads (suc (length b)) [] reads (omega arith)

  abbrev pub Drained : Bytes → Type 0
  Drained b = (us : List UserMessage) × (r : Bytes) × Reads b us r

  Reads-line :
      (b l rest : Bytes)
      → read_line b ≡ ok (l, rest)
      → (length rest < length b → Drained rest)
      → Drained b
  Reads-line b [] rest e later = ([], rest, stop e)
  Reads-line b (c ∷ cs) rest e later =
      let (us, r, reads) = later (line_shortens b c cs rest e) in
      (user_message from_utf8_lossy (c ∷ cs) ∷ us, r, line e reads)

  Reads-below : (fuel : ℕ) (b : Bytes) → length b < fuel → Drained b
  Reads-below zero b h = absurd (omega arith)
  Reads-below (suc fuel) b h =
      let found = read_line_total b in
      Reads-line b found.0 found.1 found.2 (λ less. Reads-below fuel found.1 (omega arith))

  pub Reads-total : (b : Bytes) → Drained b
  Reads-total b = Reads-below (suc (length b)) b (omega arith)

  -- A line that is there is read in the same way when more bytes have arrived.
  read_line-append :
      (b more : Bytes) (c : ℕ) (cs rest : Bytes)
      → read_line b ≡ ok (c ∷ cs, rest)
      → read_line (b ++ more) ≡ ok (c ∷ cs, rest ++ more)
  read_line-append b more c cs rest e = elim (Option-cases (find seek 0 b)) [
    | inl missing ↦ cc (read_line_none b missing)
    | inr (i, found) ↦
        let within = find-le b found in
        let same_line : typed (take (i + 2) b) ≡ c ∷ cs = cc (read_line-some b i found) in
        let same_rest : drop (i + 2) b ≡ rest = cc (read_line-some b i found) in
        read_line-some (b ++ more) i (find-append seek 0 b more found)
        ∙ rw (
          take-append_le (i + 2) b more within,
          drop-append_le (i + 2) b more within,
          same_line,
          same_rest,
        )
  ]

  -- Without backspaces in the buffer, the loop ends only where no line is left.
  stop_keeps : (b r : Bytes) → Free backspace b → read_line b ≡ ok ([], r) → r ≡ b
  stop_keeps b r free e = elim (Option-cases (find seek 0 b)) [
    | inl missing ↦ cc (read_line_none b missing)
    | inr (i, found) ↦
        let within = find-le b found in
        let split = take-append-drop (i + 2) b in
        let free_front =
          All-front (λ x. x ≢ backspace) (take (i + 2) b) (drop (i + 2) b) (rw split free) in
        let same_line : typed (take (i + 2) b) ≡ [] = cc (read_line-some b i found) in
        let empty : take (i + 2) b ≡ [] =
          sym (typed-Free (take (i + 2) b) free_front) ∙ same_line in
        absurd (
          omega (
            arith,
            ap length empty,
            ap length split,
            length-append (take (i + 2) b) (drop (i + 2) b),
            length-drop (i + 2) b,
          ))
  ]

  rest-Free :
      (b : Bytes) (c : ℕ) (cs rest : Bytes)
      → read_line b ≡ ok (c ∷ cs, rest)
      → Free backspace b
      → Free backspace rest
  rest-Free b c cs rest e free =
      let (l, rest', e', out) = read_line_total b in
      let same_rest : rest' ≡ rest = cc in
      elim out [
        | inl (empty, _) ↦ let same_line : l ≡ c ∷ cs = cc in cc
        | inr cut ↦
            rw (← same_rest) (All-back (λ x. x ≢ backspace) cut.front rest' (rw cut.cuts at free))
      ]

  -- Reading what has arrived and then the rest with more bytes is reading all of it at once.
  pub Reads-append :
      {b : Bytes} {us : List UserMessage} {r : Bytes} (more : Bytes) {vs : List UserMessage}
      {r' : Bytes}
      → Reads b us r
      → Free backspace b
      → Reads (r ++ more) vs r'
      → Reads (b ++ more) (us ++ vs) r'
  Reads-append {b} {r = r} more {r' = r'} (stop e) free later =
      let same = stop_keeps b r free e in rw same at later
  Reads-append {b} more (line {r = rest} {c = c} {cs = cs} e reads) free later =
      line (read_line-append b more c cs rest e)
        (Reads-append more reads (rest-Free b c cs rest e free) later)

  -- What is left when the loop ends holds no line, and no backspaces.
  pub Reads-settled :
      {b : Bytes} {us : List UserMessage} {r : Bytes}
      → Reads b us r
      → Free backspace b
      → Reads r [] r × Free backspace r
  Reads-settled {b} {r = r} (stop e) free =
      let same = stop_keeps b r free e in (rw (sym same) at (stop e), rw same free)
  Reads-settled {b} (line {r = rest} {c = c} {cs = cs} e reads) free =
      Reads-settled reads (rest-Free b c cs rest e free)
