-- ===== src/Server/Thread/Welcome.antt =====
-- A new connection in the server thread.
use mathlib.Core.List.{Sublist}
use havok_rust.Base.{
  ◌≡◌, refl, ap, ◌∙◌, ◌⊎◌, inl, inr, Bytes, codes, Bool, true, false, [], ◌∷◌, ◌++◌, some, ok, All,
  if◌then◌else◌,
}
use havok_rust.Base.HashMap.{get, get-insert}
use havok_rust.Net.{SocketAddr, addr_eq, eq_addr}
use havok_rust.Settings.{Settings}
use havok_rust.Ansi.Colors.{AnsiColors, initialize, color_pattern, filled, get_colors}
use havok_rust.Ansi.Convert.{parts_of}
use havok_rust.Ansi.Convert.Plain.{visible_or}
use havok_rust.Ansi.Convert.Keeps.{HasCode, convert_string_keeps}
use havok_rust.Connection.Session.{
  Crates, Connection, new, send_line, send_string, send_raw, start_processing,
}
use havok_rust.Server.{Sockets}
use havok_rust.Server.Channel.{is_full}
use havok_rust.Server.Thread.{Accepted, Thread, enter, on_accepted, welcome}

module _ (crates : Crates) (sockets : Sockets) (regex : crates.re.Regex) where
  -- The static parser is as it was at the start, or filled already.
  abbrev pub CanColor : AnsiColors crates.term crates.re → Type 0
  CanColor parser = (parser.initialized ≡ false) ⊎ (parser ≡ filled crates.term crates.re regex)

  initialize-filled :
      (parser : AnsiColors crates.term crates.re)
      → crates.re.build color_pattern ≡ some regex
      → initialize crates.term crates.re parser ≡ ok (filled crates.term crates.re regex)
  unfolding initialize
  initialize-filled parser built = rw (built, initialize)

  get_colors-filled :
      (parser : AnsiColors crates.term crates.re)
      → crates.re.build color_pattern ≡ some regex
      → CanColor parser
      → get_colors crates.term crates.re parser ≡ ok (filled crates.term crates.re regex)
  unfolding get_colors
  get_colors-filled parser built (inl fresh) =
      ap (λ (b : Bool). if b then ok parser else initialize crates.term crates.re parser) fresh
      ∙ initialize-filled parser built
  get_colors-filled parser built (inr same) = rw same refl

  -- The connection that the thread makes of what it accepted.
  abbrev pub connected : Thread crates → Accepted → Connection crates
  connected t a =
      (start_processing crates (new crates t.txsender a.addr (filled crates.term crates.re regex))
        a.rx a.usertx a.userrx a.rxtask a.txtask a.dnsresult).connection

  module _
      (keeps : (style : crates.term.Style) (text : Bytes)
        → Sublist text (crates.term.paint style text)) where
    send_line_colored :
        (c : Connection crates) (message : Bytes)
        → c.ansi_mode ≡ true
        → c.ansi_colors ≡ filled crates.term crates.re regex
        → All HasCode (parts_of (crates.re.captures_iter regex (message ++ codes "\r\n")))
        → (line : Bytes) × (send_line crates c message
            ≡ ok (record { dest = c.addr; payload = line }))
          × Sublist
              (visible_or
                (message ++ codes "\r\n")
                (parts_of (crates.re.captures_iter regex (message ++ codes "\r\n"))))
              line
    unfolding send_line send_string send_raw
    send_line_colored c message mode colors h =
        let (line, e, sub) =
          convert_string_keeps crates.term keeps crates.re regex (message ++ codes "\r\n") h in
        (line, rw (mode, colors, e), sub)

    -- Let painting keep the text, let the colour pattern compile and match only well-formed codes in the
    -- welcome line, and let the thread have its settings and room in its transmit channel, of 2048 messages.
    -- Then accepting a connection does not panic and does not wait for ever. The
    -- thread afterwards has under the new address the connection, which has this address and the new
    -- receive queue, and its streams; under every other address nothing has changed. At the end of the
    -- transmit channel there is one message more, for the new address, which holds the text of the welcome.
    pub on_accepted_enters :
        (a : Accepted) (t : Thread crates) (conf : Settings)
        → crates.re.build color_pattern ≡ some regex
        → CanColor t.parser
        → t.server.settings ≡ some conf
        → is_full t.txqueue ≡ false
        → All HasCode
            (parts_of (crates.re.captures_iter regex (welcome conf.mud.name ++ codes "\r\n")))
        → (t' : Thread crates) × (line : Bytes) × (on_accepted crates sockets a t ≡ ok (t', []))
          × ((j : SocketAddr)
              → get j t'.server.connections
                ≡ (if eq_addr a.addr j then some (connected t a) else get j t.server.connections))
          × ((j : SocketAddr)
              → get j t'.server.wr_streams
                ≡ (if eq_addr a.addr j then some a.wr_half else get j t.server.wr_streams))
          × ((j : SocketAddr)
              → get j t'.server.rd_streams
                ≡ (if eq_addr a.addr j then some a.rd_half else get j t.server.rd_streams))
          × ((connected t a).addr ≡ a.addr)
          × ((connected t a).rxsender ≡ some a.rx)
          × (t'.txqueue ≡ t.txqueue ++ (record { dest = a.addr; payload = line } ∷ []))
          × Sublist
              (visible_or
                (welcome conf.mud.name ++ codes "\r\n")
                (parts_of (crates.re.captures_iter regex (welcome conf.mud.name ++ codes "\r\n"))))
              line
    unfolding on_accepted start_processing new
    on_accepted_enters a t conf built can set room h =
        let (line, sent, held) =
          send_line_colored (connected t a) (welcome conf.mud.name) refl refl h in
        let t' =
          enter crates sockets a (filled crates.term crates.re regex) (connected t a)
            (record { dest = a.addr; payload = line }) t in
        (
          t',
          line,
          rw (get_colors-filled t.parser built can, set, sent, room) refl,
          λ j. get-insert a.addr j (connected t a) t.server.connections,
          λ j. get-insert a.addr j a.wr_half t.server.wr_streams,
          λ j. get-insert a.addr j a.rd_half t.server.rd_streams,
          refl,
          refl,
          refl,
          held,
        )
