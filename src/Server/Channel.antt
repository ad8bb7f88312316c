-- ===== src/Server/Channel.antt =====
-- src/server.rs, the transmit channel of `do_server_thread` with its bound. The server thread is its only
-- receiver, and sends to it as other tasks do.
use havok_rust.Base.{ℕ, Bool, suc, zero, List, [], ◌∷◌, ◌++◌, if◌then◌else◌, leb, length}
use havok_rust.Net.{NetworkMessage}

-- The bound of the transmit channel.
abbrev pub transmit_capacity : ℕ
transmit_capacity = 2048

-- The messages in the channel, and those that the server thread has still to send.
abbrev pub Sending : Type 0
Sending = List NetworkMessage × List NetworkMessage

-- Whose `send` comes next: that of the server thread, or that of another task.
pub data Turn : Type 0 where
  own : Turn
  other : NetworkMessage → Turn

abbrev pub is_full : List NetworkMessage → Bool
is_full queue = leb transmit_capacity (length queue)

-- A `send` waits while the channel is full.
unfoldable pub turn : Sending → Turn → Sending
turn (queue, left) (other message) =
    if is_full queue then (queue, left) else (queue ++ (message ∷ []), left)
turn (queue, []) own = (queue, [])
turn (queue, message ∷ left) own =
    if is_full queue then (queue, message ∷ left) else (queue ++ (message ∷ []), left)

unfoldable pub turns : Sending → List Turn → Sending
unfolding turn
turns s [] = s
turns s (t ∷ ts) = turns (turn s t) ts

abbrev pub own_turns : ℕ → List Turn
own_turns zero = []
own_turns (suc n) = own ∷ own_turns n
