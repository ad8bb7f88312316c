-- ===== src/Connection/Session/Typed.antt =====
-- The receive task over lines that a player types, backspaces among them, and that arrive in messages.
use havok_rust.Base.{
  ◌≡◌, ◌≢◌, refl, sym, ap, ◌∙◌, Bytes, List, [], ◌∷◌, ◌++◌, map, map-append, none, append_assoc,
  append-nil, All, All-front, All-back, Free,
}
use havok_rust.Net.{SocketAddr}
use havok_rust.Connection.Telnet.Grammar.{Item, IsItem, encode, texts}
use havok_rust.Connection.Lines.{cr}
use havok_rust.Connection.Lines.Scan.{seek, find}
use havok_rust.Connection.Lines.ReadLine.{read_line_none}
use havok_rust.Connection.Receive.{receive_lines}
use havok_rust.Connection.Receive.Drains.{stop, receive_lines-Reads}
use havok_rust.Connection.Receive.Chunks.{message_of, with_crlf, receive_lines-with_crlf}
use havok_rust.Connection.Receive.Pieces.{arrived}
use havok_rust.Connection.Session.{Crates, Connection, to_user, waiting, do_rx_process_thread}
use havok_rust.Connection.Session.Stream.{all_texts, arrive, receive_chunk, rx_data-ok}

-- A message that is a telnet stream and not empty.
abbrev pub IsPart : List Item → Type 0
IsPart items = All IsItem items × (encode items ≢ [])

module _ (crates : Crates) (c : Connection crates) where
  -- What waits without a complete line is no line.
  no_lines :
      (lines : List Bytes) (tail buffer : Bytes)
      → All (Free cr) lines
      → find seek 0 tail ≡ none
      → find seek 0 buffer ≡ none
      → buffer ≡ with_crlf crates.from_utf8_lossy lines tail
      → map (message_of crates.from_utf8_lossy) lines ≡ []
  no_lines lines tail buffer free open_tail settled same =
      let all = receive_lines-with_crlf crates.from_utf8_lossy lines tail free open_tail in
      let none_left =
        receive_lines-Reads crates.from_utf8_lossy (stop (read_line_none buffer settled)) in
      cc (rw same at none_left)

  pub do_rx_process_thread-typed :
      (chunks : List (List Item)) (lines : List Bytes) (tail buffer : Bytes) (addr : SocketAddr)
      → All IsPart chunks
      → All (Free cr) lines
      → find seek 0 tail ≡ none
      → find seek 0 buffer ≡ none
      → buffer ++ all_texts chunks ≡ with_crlf crates.from_utf8_lossy lines tail
      → do_rx_process_thread crates c buffer (arrive addr chunks)
        ≡ (map to_user (map (message_of crates.from_utf8_lossy) lines), waiting)
  unfolding do_rx_process_thread
  do_rx_process_thread-typed [] lines tail buffer addr h free open_tail settled carry =
      let same : buffer ≡ with_crlf crates.from_utf8_lossy lines tail =
        sym (append-nil buffer) ∙ carry in
      rw (no_lines lines tail buffer free open_tail settled same) refl
  do_rx_process_thread-typed (chunk ∷ chunks) lines tail buffer addr h free open_tail settled
        carry =
      let part =
        arrived crates.from_utf8_lossy lines tail (buffer ++ texts chunk) (all_texts chunks) free
          open_tail (append_assoc buffer (texts chunk) (all_texts chunks) ∙ carry) in
      let free' = rw part.lines_are at free in
      let done_free = All-front (Free cr) part.done part.left free' in
      let left_free = All-back (Free cr) part.done part.left free' in
      rx_data-ok crates c buffer (encode chunk) part.begun
        (map (message_of crates.from_utf8_lossy) part.done)
        (λ b. do_rx_process_thread crates c b (arrive addr chunks)) h.0.1
        (receive_chunk crates c buffer chunk h.0.0
          ∙ ap (receive_lines crates.from_utf8_lossy) part.piece_is
          ∙ receive_lines-with_crlf crates.from_utf8_lossy part.done part.begun done_free
              part.open_begun)
      ∙ rw
          (
            do_rx_process_thread-typed chunks part.left tail part.begun addr h.1 left_free open_tail
                part.open_begun part.awaits,
            part.lines_are,
            map-append,
            map-append,
          )
          refl
