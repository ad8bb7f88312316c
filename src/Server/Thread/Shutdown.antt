-- ===== src/Server/Thread/Shutdown.antt =====
-- The end of the server thread: every connection is told, and every connection is closed.
use havok_rust.Base.{
  ◌≡◌, refl, ◌∙◌, inl, inr, Bool, true, false, List, [], ◌∷◌, ◌++◌, Option, none, some,
  if◌then◌else◌, Option-cases, Bool-cases, All, ok, bind-eq-ok, ok-pair, ap, append-nil,
  append_assoc,
}
use havok_rust.Base.HashMap.{HashMap, get, get-remove}
use havok_rust.Net.{SocketAddr, addr_eq, eq_addr, eq_addr_iff, NetworkMessage}
use havok_rust.Connection.Session.{Crates, Connection, send_raw, send_line, disconnect}
use havok_rust.Server.{Server, Action, Sockets, send_message}
use havok_rust.Server.Channel.{Sending, Turn, own, other, is_full, turn, turns}
use havok_rust.Server.Table.{
  InSync, has, send_message_table, send_message_disconnect, send_message-InSync,
}
use havok_rust.Server.Thread.{Thread, disconnect_all, drain_queue, drain_if, close_down, reason}
use havok_rust.Server.Thread.Invariant.{Inv, Filed}

-- The queue holds the message that closes the connection of `a`.
pub data Closes (a : SocketAddr) : List NetworkMessage → Type 0 where
  here :
      {m : NetworkMessage} {ms : List NetworkMessage}
      → m.dest ≡ a
      → m.payload ≡ []
      → Closes a (m ∷ ms)
  later : {m : NetworkMessage} {ms : List NetworkMessage} → Closes a ms → Closes a (m ∷ ms)

Closes-append_right :
    {a : SocketAddr} (xs : List NetworkMessage) {ys : List NetworkMessage}
    → Closes a ys
    → Closes a (xs ++ ys)
Closes-append_right [] h = h
Closes-append_right (x ∷ xs) h = later (Closes-append_right xs h)

Closes-append_left :
    {a : SocketAddr} {xs : List NetworkMessage} (ys : List NetworkMessage)
    → Closes a xs
    → Closes a (xs ++ ys)
Closes-append_left ys (here d e) = here d e
Closes-append_left ys (later h) = later (Closes-append_left ys h)

Closes-insert :
    {a : SocketAddr} (m : NetworkMessage) (xs ys : List NetworkMessage)
    → Closes a (xs ++ ys)
    → Closes a ((xs ++ (m ∷ [])) ++ ys)
Closes-insert m [] ys h = later h
Closes-insert m (x ∷ xs) ys (here d e) = here d e
Closes-insert m (x ∷ xs) ys (later h) = later (Closes-insert m xs ys h)

pushed-Closes :
    {a : SocketAddr} (full : Bool) (m : NetworkMessage) (queue left : List NetworkMessage)
    → Closes a (queue ++ left)
    → let r : Sending = if full then (queue, left) else (queue ++ (m ∷ []), left) in
      Closes a (r.0 ++ r.1)
pushed-Closes true m queue left h = h
pushed-Closes false m queue left h = Closes-insert m queue left h

sent-Closes :
    {a : SocketAddr} (full : Bool) (m : NetworkMessage) (queue left : List NetworkMessage)
    → Closes a (queue ++ (m ∷ left))
    → let r : Sending = if full then (queue, m ∷ left) else (queue ++ (m ∷ []), left) in
      Closes a (r.0 ++ r.1)
sent-Closes true m queue left h = h
sent-Closes false m queue left h = rw (append_assoc queue (m ∷ []) left) h

-- What is in the channel or to be sent stays so.
turns-Closes :
    {a : SocketAddr} (queue left : List NetworkMessage) (ts : List Turn)
    → Closes a (queue ++ left)
    → let r = turns (queue, left) ts in Closes a (r.0 ++ r.1)
unfolding turns turn
turns-Closes queue left [] h = h
turns-Closes queue left (other m ∷ ts) h =
    let r = turn (queue, left) (other m) in
    turns-Closes r.0 r.1 ts (pushed-Closes (is_full queue) m queue left h)
turns-Closes queue [] (own ∷ ts) h = turns-Closes queue [] ts h
turns-Closes queue (m ∷ left) (own ∷ ts) h =
    let r = turn (queue, m ∷ left) own in
    turns-Closes r.0 r.1 ts (sent-Closes (is_full queue) m queue left h)

module _ (crates : Crates) where
  -- A connection that is gone stays gone.
  send_message_gone :
      (s : Server crates) (message : NetworkMessage) (a : SocketAddr)
      → get a s.connections ≡ none
      → get a (send_message crates s message).0.connections ≡ none
  send_message_gone s message a e = elim (send_message_table crates s message) [
    | inl same ↦ rw same e
    | inr removed ↦
        rw (removed, get-remove message.dest a s.connections, e) (either (eq_addr message.dest a))
  ]
    where
      either : (b : Bool) → ◌≡◌ {A = Option (Connection crates)} (if b then none else none) none
      either true = refl
      either false = refl

  pub has-some {ℓ} : {A : Type ℓ} (o : Option A) → has o ≡ true → (a : A) × (o ≡ some a)
  has-some none h = cc
  has-some (some a) h = (a, refl)

  eq_addr_self : (a : SocketAddr) → eq_addr a a ≡ true
  eq_addr_self a = (eq_addr_iff a a).1 refl

  -- A message that closes an address takes its connection away.
  pub send_message_closes :
      (s : Server crates) (message : NetworkMessage) (a : SocketAddr)
      → InSync crates s
      → message.dest ≡ a
      → message.payload ≡ []
      → get a (send_message crates s message).0.connections ≡ none
  send_message_closes s message a v d e = elim (Option-cases (get a s.connections)) [
    | inl gone ↦ send_message_gone s message a gone
    | inr (c, there) ↦
        let (item, stream) = has-some (get a s.wr_streams) (v.writable a (rw there)) in
        let closed = send_message_disconnect crates s message item (rw d stream) e in
        closed.1 a ∙ rw (d, eq_addr_self a)
  ]

module _ (crates : Crates) (sockets : Sockets) where
  drain_queue_gone :
      (queue : List NetworkMessage) (s : Server crates) (a : SocketAddr)
      → get a s.connections ≡ none
      → get a (drain_queue crates sockets s queue).0.connections ≡ none
  unfolding drain_queue
  drain_queue_gone [] s a e = e
  drain_queue_gone (message ∷ queue) s a e =
      drain_queue_gone queue (send_message crates s message).0 a
        (send_message_gone crates s message a e)

  drain_queue-Closes :
      {a : SocketAddr} {queue : List NetworkMessage} (s : Server crates)
      → Closes a queue
      → InSync crates s
      → get a (drain_queue crates sockets s queue).0.connections ≡ none
  unfolding drain_queue
  drain_queue-Closes {a} s (here {m = m} {ms = ms} d e) v =
      drain_queue_gone ms (send_message crates s m).0 a (send_message_closes crates s m a v d e)
  drain_queue-Closes s (later {m = m} h) v =
      drain_queue-Closes (send_message crates s m).0 h (send_message-InSync crates s m v)

  disconnect-Closes :
      (c c' : Connection crates) (sent : List NetworkMessage)
      → disconnect crates c reason ≡ ok (c', sent)
      → Closes c.addr sent
  unfolding disconnect send_raw
  disconnect-Closes c c' sent e =
      let (line, _, done) = bind-eq-ok (send_line crates c reason) _ e in
      let same : line ∷ record { dest = c.addr; payload = [] } ∷ [] ≡ sent = cc in
      rw (← same) (later (here refl refl))

  disconnect_all-Closes :
      (m : HashMap SocketAddr (Connection crates)) (a : SocketAddr) (c : Connection crates)
      (sent : List NetworkMessage)
      → All (Filed crates) m
      → get a m ≡ some c
      → disconnect_all crates sockets m ≡ ok sent
      → Closes a sent
  unfolding disconnect_all get
  disconnect_all-Closes [] a c sent h g e = cc
  disconnect_all-Closes ((b, d) ∷ m) a c sent h g e =
      let (r, first, rest) = bind-eq-ok (disconnect crates d reason) _ e in
      let (more, others, done) = bind-eq-ok (disconnect_all crates sockets m) _ rest in
      let same : r.1 ++ more ≡ sent = cc in
      rw (← same) (elim (Bool-cases (eq_addr b a)) [
        | inl hit ↦
            Closes-append_left more
              (rw (← (eq_addr_iff b a).0 hit, ← h.0) (disconnect-Closes d r.0 r.1 first))
        | inr miss ↦
            Closes-append_right r.1 (disconnect_all-Closes m a c more h.1 (rw miss at g) others)
      ])

  drained :
      (t : Thread crates) (r : Sending) (s : Server crates) (actions : List Action)
      → drain_if crates sockets t r ≡ ok (s, actions)
      → (r.1 ≡ []) × ((drain_queue crates sockets t.server r.0).0 ≡ s)
  drained t (queue, []) s actions e = (refl, (ok-pair e).0)
  drained t (queue, message ∷ left) s actions e = cc

  -- From a thread whose tables agree, a shutdown that comes to its end leaves no connection in the table.
  pub close_down_closes :
      (t : Thread crates) (ts : List Turn) (s : Server crates) (actions : List Action)
      → Inv crates t
      → close_down crates sockets t ts ≡ ok (s, actions)
      → (a : SocketAddr) → get a s.connections ≡ none
  unfolding close_down
  close_down_closes t ts s actions v e a =
      let (farewells, told, done) =
        bind-eq-ok (disconnect_all crates sockets t.server.connections) _ e in
      let r : Sending = turns (t.txqueue, farewells) ts in
      let (empty, same) = drained t r s actions done in
      rw (← same) (elim (Option-cases (get a t.server.connections)) [
        | inl gone ↦ drain_queue_gone r.0 t.server a gone
        | inr (c, there) ↦
            let sent : Closes a (t.txqueue ++ farewells) =
              Closes-append_right t.txqueue
                (disconnect_all-Closes t.server.connections a c farewells v.filed there told) in
            let all_in = turns-Closes t.txqueue farewells ts sent in
            drain_queue-Closes t.server
              (rw (ap (λ (left : List NetworkMessage). r.0 ++ left) empty, append-nil r.0) at
                all_in)
              v.in_sync
      ])
