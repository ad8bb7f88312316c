-- ===== src/Connection/Telnet.antt =====
-- src/connection.rs, `Connection::handle_telnet_commands`. The method reads no field of the
-- connection, so it is a function of the bytes alone.
pub mod OnePass
pub mod Grammar
use havok_rust.Base.{
  ℕ, suc, ◌+◌, Bytes, Option, none, some, Outcome, ok, ◌>>=◌, Flow, again, break, run_loop,
  position, head?, drain, leb, ◌==◌, if◌then◌else◌, length,
}

-- IAC, "interpret as command".
abbrev pub iac : ℕ
iac = 0xFF

-- The first command byte that an option byte follows: WILL.
abbrev pub will : ℕ
will = 0xFB

-- The body of the `loop` behind `iter.next()`; `i` is where the IAC was found in `b`.
unfoldable pub telnet_command : Bytes → ℕ → Option ℕ → Outcome (Flow Bytes Bytes)
unfolding drain
telnet_command b i none = ok (break b)
telnet_command b i (some cmd) =
    if cmd == iac
    then (drain i (i + 1) b >>= λ b'. ok (again b'))
    else if leb will cmd
    then (drain i (i + 3) b >>= λ b'. ok (again b'))
    else (drain i (i + 2) b >>= λ b'. ok (again b'))

-- One round of the `loop`.
unfoldable pub telnet_round : Bytes → Outcome (Flow Bytes Bytes)
unfolding telnet_command position
telnet_round b = elim (position iac b) [
  | none ↦ ok (break b)
  | some (i, iter) ↦ telnet_command b i (head? iter)
]

-- Each round that goes on drops a byte, so one round more than there are bytes is enough.
unfoldable pub handle_telnet_commands : Bytes → Outcome Bytes
unfolding telnet_round run_loop
handle_telnet_commands data_bytes = run_loop (suc (length data_bytes)) telnet_round data_bytes
