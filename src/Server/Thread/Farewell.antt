-- ===== src/Server/Thread/Farewell.antt =====
-- The end of the server thread does not panic on connections that have their colours.
use mathlib.Core.List.{Sublist}
use havok_rust.Base.{
  ◌≡◌, refl, ◌*◌, length, arith, Bytes, codes, true, List, [], ◌∷◌, ◌++◌, ok, All,
}
use havok_rust.Base.HashMap.{HashMap}
use havok_rust.Net.{SocketAddr, addr_eq, NetworkMessage}
use havok_rust.Ansi.Colors.{filled}
use havok_rust.Ansi.Convert.{parts_of}
use havok_rust.Connection.Session.{Crates, Connection}
use havok_rust.Connection.Session.Sends.{disconnect_sends}
use havok_rust.Server.{Sockets}
use havok_rust.Server.Thread.{disconnect_all, reason}

module _ (crates : Crates) (sockets : Sockets)
    (keeps : (style : crates.term.Style) (text : Bytes)
      → Sublist text (crates.term.paint style text))
    (regex : crates.re.Regex) where
  -- A connection as `Connection::new` makes it, with the colours of an initialized parser.
  abbrev pub IsColored : SocketAddr × Connection crates → Type 0
  IsColored entry =
      (entry.1.ansi_mode ≡ true) × (entry.1.ansi_colors ≡ filled crates.term crates.re regex)

  pub disconnect_all_total :
      (m : HashMap SocketAddr (Connection crates))
      → All IsColored m
      → parts_of (crates.re.captures_iter regex (reason ++ codes "\r\n")) ≡ []
      → (sent : List NetworkMessage) × (disconnect_all crates sockets m ≡ ok sent)
        × (length sent ≡ 2 * length m)
  unfolding disconnect_all
  disconnect_all_total [] h unmatched = ([], refl, refl)
  disconnect_all_total ((a, c) ∷ m) h unmatched =
      let (line, told, _) = disconnect_sends crates keeps regex c reason h.0.0 h.0.1 unmatched in
      let (others, rest, count) = disconnect_all_total m h.1 unmatched in
      (
        record { dest = c.addr; payload = line } ∷ record { dest = c.addr; payload = [] } ∷ others,
        rw (told, rest) refl,
        omega (arith, count),
      )
