-- ===== src/Server/Thread/Rounds.antt =====
-- Postconditions of the rounds of the server thread, and of all of them.
use havok_rust.Base.{
  ℕ, ◌≡◌, refl, Bool, false, Outcome, ap, sym, ◌∙◌, ◌++◌, append-nil, append_assoc, bind-eq-ok,
  if◌then◌else◌, true, Bool-cases, inl, inr, List, [], ◌∷◌, Option, none, some, ok, ◌>>=◌, Ensures,
  Ensures-bind, Ensures-ok, Ensures-if,
}
use havok_rust.Net.{NetworkMessage}
use havok_rust.Settings.{Settings}
use havok_rust.Ansi.Code.{unwrap}
use havok_rust.Ansi.Colors.{AnsiColors, get_colors}
use havok_rust.Connection.Session.{Crates, Connection, new, send_line, start_processing}
use havok_rust.Server.{Action, Sockets}
use havok_rust.Server.Channel.{is_full}
use havok_rust.Server.Thread.{
  Accepted, Event, Thread, disconnect_all, apply_settings, moves, on_reconfigure, on_accepted,
  accept_connection, on_incoming, step, run, welcome, enter, renewed, dropped, greeted_if,
}

module _ (crates : Crates) (sockets : Sockets) where
  abbrev pub Round : Type 0
  Round = Thread crates × List Action

  -- The connection that the thread makes of what it accepted.
  abbrev pub made : Thread crates → Accepted → AnsiColors crates.term crates.re → Connection crates
  made t a colors =
      (start_processing crates (new crates t.txsender a.addr colors) a.rx a.usertx a.userrx a.rxtask
        a.txtask a.dnsresult).connection

  pub greeted-Ensures {ℓ} :
      (P : Round → Type ℓ) (full : Bool) (t : Thread crates)
      → P (t, [])
      → Ensures P (greeted_if crates sockets full t)
  greeted-Ensures P true t h = tt
  greeted-Ensures P false t h = h

  pub on_accepted-Ensures {ℓ} :
      (P : Round → Type ℓ) (a : Accepted) (t : Thread crates)
      → ((colors : AnsiColors crates.term crates.re) (greeting : NetworkMessage)
          → P (enter crates sockets a colors (made t a colors) greeting t, []))
      → Ensures P (on_accepted crates sockets a t)
  unfolding on_accepted
  on_accepted-Ensures P a t h =
      Ensures-bind P (get_colors crates.term crates.re t.parser) _ (λ colors _.
        Ensures-bind P (unwrap t.server.settings) _ (λ conf _.
          Ensures-bind P (send_line crates (made t a colors) (welcome conf.mud.name)) _
            (λ greeting _.
              greeted-Ensures P (is_full t.txqueue)
                (enter crates sockets a colors (made t a colors) greeting t) (h colors greeting))))

  -- The thread with nothing in its transmit channel.
  abbrev pub emptied : Thread crates → Thread crates
  emptied t = record t { txqueue = [] }

  pub on_reconfigure_moved {ℓ} :
      (P : Round → Type ℓ) (conf : Settings) (t : Thread crates)
      → moves crates sockets conf t ≡ true
      → ((u : Thread crates)
          → apply_settings crates sockets conf (renewed crates sockets t) ≡ ok u
          → P (u, dropped crates sockets t.server.wr_streams))
      → Ensures P (on_reconfigure crates sockets conf t)
  unfolding on_reconfigure
  on_reconfigure_moved P conf t e h = rw e (
      Ensures-bind P (disconnect_all crates sockets t.server.connections) _ (λ farewells _.
        Ensures-bind P (apply_settings crates sockets conf (renewed crates sockets t)) _
          (λ u applied. h u applied)))

  pub on_reconfigure-Ensures {ℓ} :
      (P : Round → Type ℓ) (conf : Settings) (t : Thread crates)
      → P (t, [])
      → ((u : Thread crates)
          → apply_settings crates sockets conf (renewed crates sockets t) ≡ ok u
          → P (u, dropped crates sockets t.server.wr_streams))
      → Ensures P (on_reconfigure crates sockets conf t)
  unfolding on_reconfigure
  on_reconfigure-Ensures P conf t stay h = elim (Bool-cases (moves crates sockets conf t)) [
    | inl e ↦ on_reconfigure_moved P conf t e h
    | inr e ↦ rw e stay
  ]

  taken-Ensures {ℓ} :
      (P : Round → Type ℓ) (t : Thread crates) (listener : Option ℕ) (result : Option Accepted)
      → ((a : Accepted) → result ≡ some a → Ensures P (on_accepted crates sockets a t))
      → Ensures P (
          accept_connection crates sockets listener result >>= λ r.
          unwrap r >>= λ a. on_accepted crates sockets a t)
  unfolding accept_connection
  taken-Ensures P t none result h = tt
  taken-Ensures P t (some l) none h = tt
  taken-Ensures P t (some l) (some a) h = h a refl

  pub on_incoming-Ensures {ℓ} :
      (P : Round → Type ℓ) (result : Option Accepted) (t : Thread crates)
      → ((a : Accepted) → result ≡ some a → Ensures P (on_accepted crates sockets a t))
      → Ensures P (on_incoming crates sockets result t)
  on_incoming-Ensures P result t h = taken-Ensures P t t.listener result h

  -- What every round keeps, a run keeps.
  pub run-Ensures {ℓ} :
      (P : Thread crates → Type ℓ)
      → ((t : Thread crates) (event : Event)
          → P t
          → Ensures (λ (r : Round). P r.0) (step crates sockets t event))
      → (t : Thread crates) (events : List Event) → P t
      → Ensures (λ (r : Round). P r.0) (run crates sockets t events)
  unfolding run
  run-Ensures P keeps t [] v = v
  run-Ensures P keeps t (event ∷ events) v =
      Ensures-if (λ (r : Round). P r.0) t.is_shutdown _ _ v
        (Ensures-bind (λ (r : Round). P r.0) (step crates sockets t event) _
          (λ r s.
            Ensures-bind (λ (r : Round). P r.0) (run crates sockets r.0 events) _
              (λ r' s'.
                Ensures-ok (λ (r : Round). P r.0) (run crates sockets r.0 events)
                  (run-Ensures P keeps r.0 events (
                    Ensures-ok (λ (r : Round). P r.0) (step crates sockets t event)
                      (keeps t event v) s))
                  s')))

  -- The first round of a run, and then the others.
  abbrev pub first_then : Thread crates → Event → List Event → Outcome Round
  first_then t event events = step crates sockets t event >>= λ r.
      run crates sockets r.0 events >>= λ r'. ok (r'.0, r.1 ++ r'.1)

  abbrev one_or_other : Thread crates → Event → List Event → Bool → Outcome Round
  one_or_other t event events over =
      let stop : Outcome Round = ok (t, []) in if over then stop else first_then t event events

  pub run_going :
      (t : Thread crates) (event : Event) (events : List Event)
      → t.is_shutdown ≡ false
      → run crates sockets t (event ∷ events) ≡ first_then t event events
  unfolding run
  run_going t event events going = ap (one_or_other t event events) going

  pub run_over :
      (t : Thread crates) (event : Event) (events : List Event)
      → t.is_shutdown ≡ true
      → run crates sockets t (event ∷ events) ≡ ok (t, [])
  unfolding run
  run_over t event events over = ap (one_or_other t event events) over

  -- One event more, where the run has not ended.
  pub run-snoc :
      (t u t' : Thread crates) (events : List Event) (event : Event) (done now : List Action)
      → run crates sockets t events ≡ ok (u, done)
      → u.is_shutdown ≡ false
      → step crates sockets u event ≡ ok (t', now)
      → run crates sockets t (events ++ (event ∷ [])) ≡ ok (t', done ++ now)
  unfolding run
  run-snoc t u t' [] event done now ran going e =
      let same : t ≡ u = cc in
      let nothing : done ≡ [] = cc in
      run_going t event [] (rw same going)
      ∙ rw (same, nothing, e) (ap (λ (a : List Action). ok (t', a)) (append-nil now))
  run-snoc t u t' (first ∷ events) event done now ran going e = elim (Bool-cases t.is_shutdown) [
    | inl over ↦
        let same : t ≡ u = cc (run_over t first events over) in
        cc (ap (λ (x : Thread crates). x.is_shutdown) same)
    | inr on ↦
        let (r, s, later) =
          bind-eq-ok (step crates sockets t first) _ (sym (run_going t first events on) ∙ ran) in
        let (r', ran', last) = bind-eq-ok (run crates sockets r.0 events) _ later in
        let same : r'.0 ≡ u = cc in
        let all_done : r.1 ++ r'.1 ≡ done = cc in
        let more =
          run-snoc r.0 u t' events event r'.1 now
            (ran' ∙ ap (λ (x : Thread crates). ok (x, r'.1)) same) going e in
        run_going t first (events ++ (event ∷ [])) on ∙ rw (s, more, ← all_done, append_assoc) refl
  ]
