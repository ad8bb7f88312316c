-- ===== src/Connection/Session.antt =====
-- src/connection.rs: `Connection`, what it sends, and its two tasks. A send on the transmit queue or on
-- the user channel, whose result the source drops, is a message in a list. Channels and tasks of tokio go
-- by numbers.
pub mod Sends
pub mod Stream
pub mod Typed
use havok_rust.Base.{
  ℕ, Bytes, codes, Bool, true, false, List, [], ◌∷◌, ◌++◌, map, Option, none, some, Outcome, ok,
  panic, out_of_fuel, ◌>>=◌, if◌then◌else◌, list_eq, nat_eq,
}
use havok_rust.Base.HashMap.{HashMap, get, remove}
use havok_rust.Net.{SocketAddr, NetworkMessage, UserMessage}
use havok_rust.Ansi.Libraries.{AnsiTerm, FancyRegex}
use havok_rust.Ansi.Colors.{AnsiColors}
use havok_rust.Ansi.Convert.{convert_string}
use havok_rust.Ansi.Code.{unwrap_or, unwrap}
use havok_rust.Connection.Receive.{receive_data}

-- `minijinja`: `add_template` with `get_template`, and `render` with the map as context; `none` is an error.
pub record MiniJinja : Type 1 where
  pub Template : Type 0
  pub add_template : Bytes → Option Template
  pub render : Template → HashMap Bytes Bytes → Option Bytes

-- All that a connection calls outside of this repository.
pub record Crates : Type 1 where
  pub term : AnsiTerm
  pub re : FancyRegex
  pub jinja : MiniJinja
  pub from_utf8_lossy : Bytes → Bytes

-- `struct Connection`.
pub record Connection (crates : Crates) : Type 0 where
  pub txqueue : ℕ
  pub addr : SocketAddr
  pub ansi_mode : Bool
  pub ansi_colors : AnsiColors crates.term crates.re
  pub rx_process_handle : Option ℕ
  pub tx_process_handle : Option ℕ
  pub disconnected : Bool
  pub rxsender : Option ℕ
  pub usertxsender : Option ℕ
  pub userrxsender : Option ℕ
  pub hostnames : Option (List Bytes)

-- What a task did: what it sent, in order.
pub data Effect : Type 0 where
  to_network : NetworkMessage → Effect
  to_user : UserMessage → Effect

-- How far a task came with the events so far: it waits for the next one, or it ended.
pub data Status : Type 0 where
  waiting finished panicked stuck : Status

abbrev pub Trace : Type 0
Trace = List Effect × Status

abbrev pub and_then : List Effect → Trace → Trace
and_then done (effects, status) = (done ++ effects, status)

-- A step that may panic, and what the task does behind it.
abbrev pub run_step {ℓ} : {A : Type ℓ} → Outcome A → (A → Trace) → Trace
run_step (ok a) next = next a
run_step panic next = ([], panicked)
run_step out_of_fuel next = ([], stuck)

module _ (crates : Crates) where
  -- `Connection::new`; the colours are what `AnsiColors::get` returned.
  unfoldable pub new : ℕ → SocketAddr → AnsiColors crates.term crates.re → Connection crates
  new txsender addr colors = record {
    txqueue = txsender;
    addr = addr;
    ansi_mode = true;
    ansi_colors = colors;
    rx_process_handle = none;
    tx_process_handle = none;
    disconnected = false;
    rxsender = none;
    usertxsender = none;
    userrxsender = none;
    hostnames = none;
  }

  -- `send_raw`: the message that goes on the transmit queue.
  unfoldable pub send_raw : Connection crates → Bytes → NetworkMessage
  send_raw c message = record { dest = c.addr; payload = message }

  -- `set_echo`: IAC WILL ECHO or IAC WONT ECHO.
  unfoldable pub set_echo : Connection crates → Bool → NetworkMessage
  unfolding send_raw
  set_echo c enable =
      if enable then send_raw c (0xFF ∷ 0xFB ∷ 0x01 ∷ []) else send_raw c (0xFF ∷ 0xFC ∷ 0x01 ∷ [])

  unfoldable pub send_string : Connection crates → Bytes → Outcome NetworkMessage
  unfolding send_raw convert_string
  send_string c message = do
    ansimsg ← convert_string crates.term crates.re c.ansi_colors message c.ansi_mode
    ok (send_raw c ansimsg)

  unfoldable pub send_line : Connection crates → Bytes → Outcome NetworkMessage
  unfolding send_string
  send_line c message = send_string c (message ++ codes "\r\n")

  -- `disconnect`: the connection afterwards, and what it sent.
  unfoldable pub disconnect :
      Connection crates → Bytes → Outcome (Connection crates × List NetworkMessage)
  unfolding send_line send_raw
  disconnect c reason = do
    line ← send_line c reason
    ok (record c { disconnected = true }, line ∷ send_raw c [] ∷ [])

  -- Behind the template text of the map, the rest of which is the context.
  unfoldable pub render_template : Bytes → HashMap Bytes Bytes → Outcome Bytes
  render_template [] context = ok []
  render_template (t ∷ ts) context = do
    tmpl ← unwrap (crates.jinja.add_template (t ∷ ts))
    unwrap (crates.jinja.render tmpl context)

  unfoldable pub jinja_process : HashMap Bytes Bytes → Outcome Bytes
  unfolding render_template get remove
  jinja_process jinjamap =
      render_template (unwrap_or (get (codes "template") jinjamap) [])
        (remove (codes "template") jinjamap)

  -- One message for the player, by its fields: with a template; the empty message that disconnects, `none`;
  -- as raw bytes; as text.
  unfoldable pub by_kind :
      Connection crates
      → Option (HashMap Bytes Bytes)
      → Bytes
      → Bytes
      → Outcome (Option NetworkMessage)
  unfolding send_string send_raw jinja_process
  by_kind c (some jinjamap) bytes string = do
    text ← jinja_process jinjamap
    message ← send_string c text
    ok (some message)
  by_kind c none [] [] = ok none
  by_kind c none (b ∷ bytes) string = ok (some (send_raw c (b ∷ bytes)))
  by_kind c none [] (b ∷ string) = do message ← send_string c (b ∷ string); ok (some message)

  abbrev tx_message : Connection crates → UserMessage → Outcome (Option NetworkMessage)
  tx_message c msg = by_kind c msg.jinja msg.bytes msg.string

  abbrev pub or_finish : Option NetworkMessage → Trace → Trace
  or_finish none later = ([], finished)
  or_finish (some message) later = and_then (to_network message ∷ []) later

  -- The loop of `do_tx_process_thread` over what `recv` gives, `none` for an error.
  unfoldable pub do_tx_process_thread : Connection crates → List (Option UserMessage) → Trace
  unfolding by_kind
  do_tx_process_thread c [] = ([], waiting)
  do_tx_process_thread c (none ∷ events) = ([], panicked)
  do_tx_process_thread c (some msg ∷ events) =
      let later = do_tx_process_thread c events in
      run_step (tx_message c msg) (λ r. or_finish r later)

  -- One message from the network: an empty one disconnects and ends the task.
  unfoldable pub rx_data : Connection crates → Bytes → Bytes → (Bytes → Trace) → Trace
  unfolding receive_data disconnect
  rx_data c incoming_buffer [] next =
      run_step (disconnect c []) (λ (_, sent). (map to_network sent, finished))
  rx_data c incoming_buffer (b ∷ bytes) next =
      run_step (receive_data crates.from_utf8_lossy incoming_buffer (b ∷ bytes))
        (λ (sent, buffer). and_then (map to_user sent) (next buffer))

  -- The loop of `do_rx_process_thread` over what `recv` gives, `none` for a closed channel.
  unfoldable pub do_rx_process_thread :
      Connection crates → Bytes → List (Option NetworkMessage) → Trace
  unfolding rx_data disconnect
  do_rx_process_thread c incoming_buffer [] = ([], waiting)
  do_rx_process_thread c incoming_buffer (none ∷ events) = ([], finished)
  do_rx_process_thread c incoming_buffer (some msg ∷ events) =
      rx_data c incoming_buffer msg.payload (λ buffer. do_rx_process_thread c buffer events)

  -- The tasks that `start_processing` spawns, with the copies of the connection that they own, and the
  -- connection itself, whose host names came from `resolve_ip`; `none` if that task failed.
  pub record Started : Type 0 where
    pub connection : Connection crates
    pub rxconnection : Connection crates
    pub txconnection : Connection crates

  -- The numbers are those of the three channels and the two tasks.
  unfoldable pub start_processing :
      Connection crates
      → (rx usertx userrx rxtask txtask : ℕ) → Option (Option (List Bytes))
      → Started
  start_processing c rx usertx userrx rxtask txtask dnsresult =
      let rxconnection = record c {
        rxsender = some rx;
        usertxsender = some usertx;
        userrxsender = some userrx;
      } in
      let txconnection = record rxconnection { rx_process_handle = some rxtask } in
      record {
        connection = record txconnection {
          tx_process_handle = some txtask;
          hostnames = unwrap_or dnsresult none;
        };
        rxconnection = rxconnection;
        txconnection = txconnection;
      }
