-- ===== src/Connection/Session/Stream.antt =====
-- The receive task over a telnet stream that arrives in messages.
use havok_rust.Base.{
  ◌≡◌, ◌≢◌, refl, ◌∙◌, Bytes, List, [], ◌∷◌, ◌++◌, map, some, Option, ok, append_assoc, append-nil,
  map-append, Free, All, All-append,
}
use havok_rust.Net.{NetworkMessage, UserMessage, SocketAddr}
use havok_rust.Connection.Telnet.Grammar.{
  Item, IsItem, encode, texts, handle_telnet_commands-encode,
}
use havok_rust.Connection.Lines.{backspace}
use havok_rust.Connection.Lines.Scan.{find}
use havok_rust.Connection.Lines.ReadLine.{read_line_none}
use havok_rust.Connection.Receive.{receive_lines, receive_data}
use havok_rust.Connection.Receive.Drains.{
  Reads, Reads-total, Reads-append, receive_lines-Reads, Reads-settled, stop,
}
use havok_rust.Connection.Session.{
  Crates, Connection, to_network, to_user, waiting, finished, Trace, and_then, run_step, disconnect,
  rx_data, do_rx_process_thread,
}

-- A message that is a telnet stream, not empty, and whose text has no backspaces.
abbrev pub IsChunk : List Item → Type 0
IsChunk items = All IsItem items × (encode items ≢ []) × Free backspace (texts items)

-- The text of all messages.
abbrev pub all_texts : List (List Item) → Bytes
all_texts [] = []
all_texts (chunk ∷ chunks) = texts chunk ++ all_texts chunks

abbrev pub arrive : SocketAddr → List (List Item) → List (Option NetworkMessage)
arrive addr [] = []
arrive addr (chunk ∷ chunks) =
    some (record { dest = addr; payload = encode chunk }) ∷ arrive addr chunks

module _ (crates : Crates) (c : Connection crates) where
  pub receive_chunk :
      (buffer : Bytes) (chunk : List Item)
      → All IsItem chunk
      → receive_data crates.from_utf8_lossy buffer (encode chunk)
        ≡ receive_lines crates.from_utf8_lossy (buffer ++ texts chunk)
  unfolding receive_data
  receive_chunk buffer chunk h = rw (handle_telnet_commands-encode chunk h)

  pub rx_data-ok :
      (buffer bytes r : Bytes) (us : List UserMessage) (next : Bytes → Trace)
      → bytes ≢ []
      → receive_data crates.from_utf8_lossy buffer bytes ≡ ok (us, r)
      → rx_data crates c buffer bytes next ≡ and_then (map to_user us) (next r)
  unfolding rx_data
  rx_data-ok buffer [] r us next ne e = absurd (ne refl)
  rx_data-ok buffer (b ∷ bytes) r us next ne e = rw e

  abbrev Outcomes : List (List Item) → Bytes → SocketAddr → Type 0
  Outcomes chunks buffer addr =
      (us : List UserMessage) × (r : Bytes) × Reads crates.from_utf8_lossy
        (buffer ++ all_texts chunks) us r
      × (do_rx_process_thread crates c buffer (arrive addr chunks) ≡ (map to_user us, waiting))

  stream :
      (chunks : List (List Item)) (buffer : Bytes) (addr : SocketAddr)
      → All IsChunk chunks
      → Reads crates.from_utf8_lossy buffer [] buffer
      → Free backspace buffer
      → Outcomes chunks buffer addr
  unfolding do_rx_process_thread
  stream [] buffer addr h settled free = ([], buffer, rw append-nil settled, refl)
  stream (chunk ∷ chunks) buffer addr h settled free =
      let free' = All-append (λ x. x ≢ backspace) buffer (texts chunk) free h.0.2 in
      let (us, r, reads) = Reads-total crates.from_utf8_lossy (buffer ++ texts chunk) in
      let rest = Reads-settled crates.from_utf8_lossy reads free' in
      let (vs, r', later, ran) = stream chunks r addr h.1 rest.0 rest.1 in
      (
        us ++ vs,
        r',
        rw (← append_assoc buffer (texts chunk) (all_texts chunks))
            (Reads-append crates.from_utf8_lossy (all_texts chunks) reads free' later),
        rx_data-ok buffer (encode chunk) r us
              (λ b. do_rx_process_thread crates c b (arrive addr chunks)) h.0.1
              (receive_chunk buffer chunk h.0.0 ∙ receive_lines-Reads crates.from_utf8_lossy reads)
            ∙ rw (ran, map-append),
      )

  -- However a telnet stream, without an empty message and without backspaces in its text, is cut into
  -- messages between its items: the task sends to the user channel, in order, the messages that the line
  -- loop makes of the whole text at once, sends nothing to the network, and waits for more.
  pub do_rx_process_thread-chunks :
      (chunks : List (List Item)) (addr : SocketAddr)
      → All IsChunk chunks
      → (us : List UserMessage) × (r : Bytes) × (receive_lines crates.from_utf8_lossy
            (all_texts chunks)
          ≡ ok (us, r))
        × (do_rx_process_thread crates c [] (arrive addr chunks) ≡ (map to_user us, waiting))
  unfolding find
  do_rx_process_thread-chunks chunks addr h =
      let (us, r, reads, ran) = stream chunks [] addr h (stop (read_line_none [] refl)) tt in
      (us, r, receive_lines-Reads crates.from_utf8_lossy reads, ran)

  -- An empty message ends the task: it disconnects without a reason, and what came before and what comes
  -- after plays no part. Where the line end cannot be converted the task panics instead.
  pub do_rx_process_thread_empty :
      (buffer : Bytes) (msg : NetworkMessage) (events : List (Option NetworkMessage))
      → msg.payload ≡ []
      → do_rx_process_thread crates c buffer (some msg ∷ events)
        ≡ run_step (disconnect crates c []) (λ r. (map to_network r.1, finished))
  unfolding do_rx_process_thread rx_data
  do_rx_process_thread_empty buffer msg events e = rw e
