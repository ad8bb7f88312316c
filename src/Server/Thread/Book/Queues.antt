-- ===== src/Server/Thread/Book/Queues.antt =====
-- What goes to one connection, among all that is sent and written.
use havok_rust.Base.{
  ℕ, ◌≡◌, ◌≢◌, refl, ap, ◌∙◌, Bytes, Bool, true, false, List, [], ◌∷◌, ◌++◌, if◌then◌else◌, All,
  append_assoc, ◌==◌, nat_eq, list_eq,
}
use havok_rust.Net.{SocketAddr, addr_eq, eq_addr, NetworkMessage}
use havok_rust.Settings.{shutdown}
use havok_rust.Server.{Action, shut_down, write_all, queue_up}
use havok_rust.Server.Thread.{Event, control, enqueued}

-- The messages of a queue to one address.
abbrev pub addressed : SocketAddr → List NetworkMessage → List Bytes
addressed a [] = []
addressed a (message ∷ queue) =
    let rest = addressed a queue in if eq_addr message.dest a then message.payload ∷ rest else rest

-- What is written to one stream.
abbrev pub written_to : ℕ → List Action → List Bytes
written_to item [] = []
written_to item (write_all stream bytes ∷ actions) =
    let rest = written_to item actions in if stream == item then bytes ∷ rest else rest
written_to item (_ ∷ actions) = written_to item actions

-- What an event puts into the transmit channel for another task.
abbrev pub sent_by : Event → List NetworkMessage
sent_by (enqueued message) = message ∷ []
sent_by _ = []

abbrev pub ends_loop : Event → Bool
ends_loop (control shutdown) = true
ends_loop _ = false

-- What events put there, up to a shutdown.
abbrev pub sent_in : Bool → List Event → List NetworkMessage
sent_in true events = []
sent_in false [] = []
sent_in false (event ∷ events) = sent_by event ++ sent_in (ends_loop event) events

abbrev pub IsText : Bytes → Type 0
IsText payload = payload ≢ []

abbrev pub if_cons : Bool → Bytes → List Bytes → List Bytes
if_cons b payload rest = if b then payload ∷ rest else rest

pub first-IsText :
    (t : Bool) (payload : Bytes) (rest : List Bytes)
    → All IsText (if_cons t payload rest)
    → All IsText (if_cons t payload [])
first-IsText true payload rest h = (h.0, tt)
first-IsText false payload rest h = tt

pub if_cons-append :
    (b : Bool) (payload : Bytes) (xs ys : List Bytes)
    → if_cons b payload (xs ++ ys) ≡ if_cons b payload xs ++ ys
if_cons-append true payload xs ys = refl
if_cons-append false payload xs ys = refl

pub addressed-append :
    (a : SocketAddr) (queue more : List NetworkMessage)
    → addressed a (queue ++ more) ≡ addressed a queue ++ addressed a more
addressed-append a [] more = refl
addressed-append a (message ∷ queue) more =
    ap (if_cons (eq_addr message.dest a) message.payload) (addressed-append a queue more)
    ∙ if_cons-append (eq_addr message.dest a) message.payload (addressed a queue) (addressed a more)

pub written_to-append :
    (item : ℕ) (actions more : List Action)
    → written_to item (actions ++ more) ≡ written_to item actions ++ written_to item more
written_to-append item [] more = refl
written_to-append item (write_all stream bytes ∷ actions) more =
    ap (if_cons (stream == item) bytes) (written_to-append item actions more)
    ∙ if_cons-append (stream == item) bytes (written_to item actions) (written_to item more)
written_to-append item (shut_down stream ∷ actions) more = written_to-append item actions more
written_to-append item (queue_up rx message ∷ actions) more = written_to-append item actions more

pub written-then :
    (item : ℕ) (now later : List Action) (rest : List Bytes)
    → written_to item (now ++ later) ++ rest
      ≡ written_to item now ++ (written_to item later ++ rest)
written-then item now later rest =
    ap (λ (front : List Bytes). front ++ rest) (written_to-append item now later)
    ∙ append_assoc (written_to item now) (written_to item later) rest
