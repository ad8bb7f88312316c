-- ===== src/Tests/Sessions.antt =====
-- Connections of src/connection.rs with streams and messages.
use mathlib.Core.List.{Sublist}
use havok_rust.Base.{
  ◌≡◌, refl, Bytes, codes, true, false, List, [], ◌∷◌, ◌++◌, map, some, none, ok, arith,
}
use havok_rust.Net.{UserMessage}
use havok_rust.Ansi.Colors.{filled}
use havok_rust.Ansi.Convert.{parts_of}
use havok_rust.Connection.Telnet.Grammar.{Item, char, simple, negotiation}
use havok_rust.Connection.Receive.{receive_lines}
use havok_rust.Connection.Session.{
  Connection, new, disconnect, waiting, finished, to_network, to_user, do_tx_process_thread,
  do_rx_process_thread, by_kind, send_raw,
}
use havok_rust.Connection.Session.Sends.{
  one, none_left, do_tx_process_thread_goodbye, disconnect_sends,
}
use havok_rust.Connection.Session.Stream.{arrive, all_texts, do_rx_process_thread-chunks}
use havok_rust.Tests.Samples.{term, term_keeps, re, crates, home}

abbrev connection : Connection crates
connection = record {
  txqueue = 0;
  addr = home;
  ansi_mode = true;
  ansi_colors = filled term re tt;
  rx_process_handle = none;
  tx_process_handle = none;
  disconnected = false;
  rxsender = some 7;
  usertxsender = none;
  userrxsender = none;
  hostnames = none;
}

new_runs : new crates 0 home (filled term re tt) ≡ record connection { rxsender = none }
unfolding new
new_runs = refl

-- "go" with an IAC NOP, and then the line end.
abbrev chunks : List (List Item)
chunks =
    (char b'g' ∷ simple 0xF1 ∷ char b'o' ∷ []) ∷ (char 13 ∷ char 10 ∷ negotiation 0xFD 1 ∷ []) ∷ []

do_rx_process_thread-chunks_example :
    (us : List UserMessage) × (r : Bytes) × (receive_lines crates.from_utf8_lossy (all_texts chunks)
      ≡ ok (us, r))
    × (do_rx_process_thread crates connection [] (arrive home chunks) ≡ (map to_user us, waiting))
do_rx_process_thread-chunks_example =
    do_rx_process_thread-chunks crates connection chunks home
      ((omega arith, (λ e. cc), omega arith), ((omega arith, (λ e. cc), omega arith), tt))

abbrev pub beep : UserMessage
beep = record { bytes = 7 ∷ []; string = []; jinja = none }

abbrev pub bye : UserMessage
bye = record { bytes = []; string = []; jinja = none }

goodbye_ends :
    do_tx_process_thread crates connection (some beep ∷ some bye ∷ none ∷ [])
    ≡ (to_network (record { dest = home; payload = 7 ∷ [] }) ∷ [], finished)
unfolding by_kind send_raw
goodbye_ends =
    do_tx_process_thread_goodbye crates connection (beep ∷ [])
      (record { dest = home; payload = 7 ∷ [] } ∷ []) bye (none ∷ []) (one refl none_left)
      (refl, refl, refl)

disconnect_once :
    (line : Bytes) × (disconnect crates connection (codes "bye")
      ≡ ok (
        record connection { disconnected = true },
        record { dest = home; payload = line } ∷ record { dest = home; payload = [] } ∷ [],
      ))
    × Sublist (codes "bye" ++ codes "\r\n") line
unfolding parts_of
disconnect_once = disconnect_sends crates term_keeps tt connection (codes "bye") refl refl refl

-- A message with a template that renders to nothing, for a player without colours, is one that disconnects.
nothing_rendered :
    by_kind crates (record connection { ansi_mode = false }) (some []) [] []
    ≡ ok (some (record { dest = home; payload = [] }))
unfolding by_kind
nothing_rendered = refl
