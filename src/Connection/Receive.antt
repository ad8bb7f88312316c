-- ===== src/Connection/Receive.antt =====
-- src/connection.rs, the loop of `do_rx_process_thread` that takes complete lines from the buffer.
pub mod Drains
pub mod Chunks
pub mod Pieces
use havok_rust.Base.{
  ℕ, suc, Bytes, List, [], ◌∷◌, ◌++◌, none, Outcome, ok, ◌>>=◌, Flow, again, break, run_loop,
  length, pop,
}
use havok_rust.Net.{UserMessage}
use havok_rust.Connection.Telnet.{handle_telnet_commands}
use havok_rust.Connection.Lines.{read_line}

-- `String::from_utf8_lossy` is a parameter.
module _ (from_utf8_lossy : Bytes → Bytes) where
  -- A line without its last two bytes, as a message for the user channel.
  unfoldable pub user_message : Bytes → UserMessage
  user_message linebuf =
      let stripped = pop (pop linebuf) in
      record { bytes = stripped; string = from_utf8_lossy stripped; jinja = none }

  abbrev pub Sent : Type 0
  Sent = List UserMessage × Bytes

  -- Behind `read_line`: an empty line ends the loop.
  unfoldable pub send_line_up : List UserMessage → Bytes → Bytes → Flow Sent Sent
  unfolding user_message
  send_line_up sent rest [] = break (sent, rest)
  send_line_up sent rest (c ∷ cs) = again (sent ++ (user_message (c ∷ cs) ∷ []), rest)

  -- One round of the inner `loop`: the messages sent so far, and the buffer.
  unfoldable pub lines_round : Sent → Outcome (Flow Sent Sent)
  unfolding send_line_up read_line
  lines_round (sent, buffer) = do
    (linebuf, rest) ← read_line buffer
    ok (send_line_up sent rest linebuf)

  -- Each round that goes on takes at least two bytes from the buffer.
  unfoldable pub receive_lines : Bytes → Outcome Sent
  unfolding lines_round run_loop
  receive_lines buffer = run_loop (suc (length buffer)) lines_round ([], buffer)

  -- What one message from the network, not empty, adds to the buffer and sends up.
  unfoldable pub receive_data : Bytes → Bytes → Outcome Sent
  unfolding handle_telnet_commands receive_lines
  receive_data incoming_buffer bytes = do
    clean ← handle_telnet_commands bytes
    receive_lines (incoming_buffer ++ clean)
