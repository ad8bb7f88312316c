-- ===== src/Connection/Session/Sends.antt =====
-- What a connection and its transmit task send.
use mathlib.Core.List.{Sublist}
use havok_rust.Base.{◌≡◌, Bytes, codes, true, List, [], ◌∷◌, ◌++◌, map, some, none, Option, ok}
use havok_rust.Net.{NetworkMessage, UserMessage}
use havok_rust.Ansi.Colors.{filled}
use havok_rust.Ansi.Convert.{parts_of}
use havok_rust.Ansi.Convert.Keeps.{convert_string_keeps}
use havok_rust.Connection.Session.{
  Crates, Connection, to_network, finished, send_raw, send_string, send_line, disconnect,
  tx_message, by_kind, do_tx_process_thread,
}

module _ (crates : Crates) where
  -- The messages that the transmit task makes of `msgs`, one each.
  pub data Sends (c : Connection crates) : List UserMessage → List NetworkMessage → Type 0 where
    none_left : Sends c [] []
    one :
        {msg : UserMessage} {out : NetworkMessage} {msgs : List UserMessage}
        {outs : List NetworkMessage}
        → tx_message crates c msg ≡ ok (some out)
        → Sends c msgs outs
        → Sends c (msg ∷ msgs) (out ∷ outs)

  -- An empty message without a template: the wish to disconnect.
  abbrev pub IsGoodbye : UserMessage → Type 0
  IsGoodbye msg = (msg.bytes ≡ []) × (msg.string ≡ []) × (msg.jinja ≡ none)

  goodbye_none :
      (c : Connection crates) (msg : UserMessage)
      → IsGoodbye msg
      → tx_message crates c msg ≡ ok none
  unfolding by_kind
  goodbye_none c msg h = rw (h.0, h.1, h.2)

  -- The transmit task sends what comes before the goodbye, one network message for each user message and
  -- in order, and then ends, whatever else is in its channel.
  pub do_tx_process_thread_goodbye :
      (c : Connection crates) (msgs : List UserMessage) (outs : List NetworkMessage)
      (bye : UserMessage) (later : List (Option UserMessage))
      → Sends c msgs outs
      → IsGoodbye bye
      → do_tx_process_thread crates c (map some msgs ++ (some bye ∷ later))
        ≡ (map to_network outs, finished)
  unfolding do_tx_process_thread
  do_tx_process_thread_goodbye c msgs outs bye later none_left h = rw (goodbye_none c bye h)
  do_tx_process_thread_goodbye c msgs outs bye later (one {msgs = msgs'} {outs = outs'} e sends) h =
      rw (e, do_tx_process_thread_goodbye c msgs' outs' bye later sends h)

  module _
      (keeps : (style : crates.term.Style) (text : Bytes)
        → Sublist text (crates.term.paint style text))
      (regex : crates.re.Regex) where
    -- Let painting keep the text, and let the pattern match nowhere in the reason. A connection in ANSI mode
    -- with filled colour tables then disconnects with two messages to its own address: one that holds the
    -- reason and a line end, and an empty one. It is marked as disconnected, and nothing else of it changes.
    pub disconnect_sends :
        (c : Connection crates) (reason : Bytes)
        → c.ansi_mode ≡ true
        → c.ansi_colors ≡ filled crates.term crates.re regex
        → parts_of (crates.re.captures_iter regex (reason ++ codes "\r\n")) ≡ []
        → (line : Bytes) × (disconnect crates c reason
            ≡ ok (
              record c { disconnected = true },
              record { dest = c.addr; payload = line }
                  ∷ record { dest = c.addr; payload = [] }
                  ∷ [],
            ))
          × Sublist (reason ++ codes "\r\n") line
    unfolding disconnect send_line send_string send_raw
    disconnect_sends c reason mode colors unmatched =
        let (line, e, sub) =
          convert_string_keeps crates.term keeps crates.re regex (reason ++ codes "\r\n")
            (rw unmatched tt) in
        (line, rw (mode, colors, e), rw unmatched at sub)
