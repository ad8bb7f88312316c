-- ===== src/Connection/Lines.antt =====
-- src/connection.rs, `Connection::read_line`. The method reads no field of the connection, so it is
-- a function of the buffer alone.
pub mod Scan
pub mod Backspace
pub mod ReadLine
use havok_rust.Base.{
  ℕ, zero, suc, ◌+◌, ◌-◌, Bytes, List, [], ◌∷◌, Option, none, some, Outcome, ok, ◌>>=◌, Flow, again,
  break, run_loop, position, head?, drain, split_at, ◌==◌, if◌then◌else◌, length,
}

abbrev pub cr : ℕ
cr = b'\r'

abbrev pub lf : ℕ
lf = b'\n'

abbrev pub backspace : ℕ
backspace = 0x08

-- Behind `iter.position`, which gave `pos` and left the iterator `iter`: `peek`, and `next` if the
-- byte is no LF. The result is `i` with `found`, or `none`.
unfoldable pub scan_peek : ℕ → Bytes → Flow Bytes (Option ℕ)
scan_peek pos [] = break none
scan_peek pos (x ∷ iter) = if x == lf then break (some pos) else again iter

-- One round of the inner `loop` that looks for CR LF. `pos` counts from where the iterator stood.
unfoldable pub scan_round : Bytes → Outcome (Flow Bytes (Option ℕ))
unfolding scan_peek position
scan_round iter = elim (position cr iter) [
  | none ↦ ok (break none)
  | some (pos, iter') ↦ ok (scan_peek pos iter')
]

-- Each round that goes on takes bytes from the iterator.
unfoldable pub scan : Bytes → Outcome (Option ℕ)
unfolding scan_round run_loop
scan s = run_loop (suc (length s)) scan_round s

-- `if i == 0 { line.drain(..1) } else { line.drain(i - 1..i + 1) }`
unfoldable pub rub_out : ℕ → Bytes → Outcome Bytes
rub_out i line = if i == 0 then drain 0 1 line else drain (i - 1) (i + 1) line

-- One round of the `loop` that processes backspaces.
unfoldable pub backspace_round : Bytes → Outcome (Flow Bytes Bytes)
unfolding rub_out position
backspace_round line = elim (position backspace line) [
  | none ↦ ok (break line)
  | some (i, _) ↦ rub_out i line >>= λ line'. ok (again line')
]

-- Each round that goes on takes a byte from the line.
unfoldable pub process_backspaces : Bytes → Outcome Bytes
unfolding backspace_round run_loop drain
process_backspaces line = run_loop (suc (length line)) backspace_round line

-- Behind the search: `split_at(i + 2)` and the backspaces, or no line and the whole buffer.
unfoldable pub take_line : Bytes → Option ℕ → Outcome (Bytes × Bytes)
unfolding split_at process_backspaces
take_line s none = ok ([], s)
take_line s (some i) = do
  (line_data, new_buf) ← split_at (i + 2) s
  line ← process_backspaces line_data
  ok (line, new_buf)

-- The line with its CR LF, and what is left of the buffer. The outer `loop` returns in its first round.
unfoldable pub read_line : Bytes → Outcome (Bytes × Bytes)
unfolding scan take_line
read_line buffer = do i ← scan buffer; take_line buffer i
