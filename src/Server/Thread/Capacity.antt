-- ===== src/Server/Thread/Capacity.antt =====
-- The loop of `do_server_thread` that disconnects every connection, with the bound of the transmit channel.
-- The only receiver of the channel is the server thread itself, which in that loop sends.
use mathlib.Core.List.{Sublist}
use havok_rust.Base.{
  ℕ, suc, ◌+◌, ◌*◌, ◌≤◌, ◌<◌, ◌≡◌, ◌≢◌, refl, ap, Bytes, codes, false, Bool-cases, inl, inr, List,
  [], ◌∷◌, ◌++◌, ok, length, length-append, All, arith,
}
use havok_rust.Net.{NetworkMessage}
use havok_rust.Ansi.Convert.{parts_of}
use havok_rust.Connection.Session.{Crates}
use havok_rust.Server.{Sockets}
use havok_rust.Server.Channel.{transmit_capacity, Sending, Turn, own, other, is_full, turn, turns}
use havok_rust.Server.Thread.{Thread, disconnect_all, reason}
use havok_rust.Server.Thread.Farewell.{IsColored, disconnect_all_total}

-- More is in the channel and to be sent than the channel can hold.
record Stuck (s : Sending) : Type 0 where
  bounded : length s.0 ≤ transmit_capacity
  too_many : transmit_capacity < length s.0 + length s.1

pub sent_fits :
    (queue : List NetworkMessage) (message : NetworkMessage)
    → is_full queue ≡ false
    → (length (queue ++ (message ∷ [])) ≤ transmit_capacity)
      × (length (queue ++ (message ∷ [])) ≡ suc (length queue))
sent_fits queue message room = ground (arith, length-append queue (message ∷ []))

turn-Stuck : (s : Sending) (t : Turn) → Stuck s → Stuck (turn s t)
unfolding turn
turn-Stuck (queue, left) (other message) h = elim (Bool-cases (is_full queue)) [
  | inl full ↦ rw full h
  | inr room ↦
      let (fits, count) = sent_fits queue message room in
      rw room (record { bounded = fits; too_many = omega (arith, h.too_many) })
]
turn-Stuck (queue, []) own h = h
turn-Stuck (queue, message ∷ left) own h = elim (Bool-cases (is_full queue)) [
  | inl full ↦ rw full h
  | inr room ↦
      let (fits, count) = sent_fits queue message room in
      rw room (record { bounded = fits; too_many = omega (arith, h.too_many) })
]

turns-Stuck : (s : Sending) (ts : List Turn) → Stuck s → Stuck (turns s ts)
unfolding turns
turns-Stuck s [] h = h
turns-Stuck s (t ∷ ts) h = turns-Stuck (turn s t) ts (turn-Stuck s t h)

Stuck-left : (s : Sending) → Stuck s → s.1 ≢ []
Stuck-left s h none_left = omega (arith, h.bounded, h.too_many, ap length none_left)

-- How often the thread has its turn, and how often others do.
abbrev pub owns : List Turn → ℕ
owns [] = 0
owns (own ∷ ts) = suc (owns ts)
owns (other message ∷ ts) = owns ts

abbrev pub others : List Turn → ℕ
others [] = 0
others (own ∷ ts) = others ts
others (other message ∷ ts) = suc (others ts)

-- With room for all, the thread comes to the end of its messages.
pub turns_end :
    (queue left : List NetworkMessage) (ts : List Turn)
    → length queue + length left + others ts ≤ transmit_capacity
    → length left ≤ owns ts
    → (turns (queue, left) ts).1 ≡ []
unfolding turns turn
turns_end queue [] [] fits enough = refl
turns_end queue (m ∷ left) [] fits enough = absurd (omega (arith, enough))
turns_end queue left (other m ∷ ts) fits enough =
    let room : is_full queue ≡ false = ground arith in
    rw (turns, room)
      (turns_end (queue ++ (m ∷ [])) left ts (omega (arith, fits, length-append queue (m ∷ [])))
        enough)
turns_end queue [] (own ∷ ts) fits enough = turns_end queue [] ts fits (omega arith)
turns_end queue (m ∷ left) (own ∷ ts) fits enough =
    let room : is_full queue ≡ false = ground arith in
    rw (turns, room)
      (turns_end (queue ++ (m ∷ [])) left ts (omega (arith, fits, length-append queue (m ∷ [])))
        (omega (arith, enough)))

module _ (crates : Crates) (sockets : Sockets)
    (keeps : (style : crates.term.Style) (text : Bytes)
      → Sublist text (crates.term.paint style text))
    (regex : crates.re.Regex) where
  -- Let painting keep the text, and let every connection have ANSI mode and filled colour tables, in which
  -- the pattern matches nowhere in the farewell. If the transmit channel holds no more than its 2048 messages,
  -- but with two more for each connection would hold more, then whatever turns the thread and the other tasks
  -- have to send, the thread has farewells left: it never comes to read the channel, which nothing else reads.
  pub close_down_hangs :
      (t : Thread crates)
      → All (IsColored crates sockets keeps regex) t.server.connections
      → parts_of (crates.re.captures_iter regex (reason ++ codes "\r\n")) ≡ []
      → length t.txqueue ≤ transmit_capacity
      → transmit_capacity < length t.txqueue + 2 * length t.server.connections
      → (farewells : List NetworkMessage) × (disconnect_all crates sockets t.server.connections
          ≡ ok farewells)
        × ((ts : List Turn) → (turns (t.txqueue, farewells) ts).1 ≢ [])
  close_down_hangs t h unmatched bounded many =
      let (farewells, told, count) =
        disconnect_all_total crates sockets keeps regex t.server.connections h unmatched in
      (
        farewells,
        told,
        λ ts. Stuck-left (turns (t.txqueue, farewells) ts) (
            turns-Stuck (t.txqueue, farewells) ts
              (record { bounded = bounded; too_many = rw count many })),
      )
