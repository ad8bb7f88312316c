-- ===== src/Server/Thread/Book/Rounds.antt =====
-- A round of the server thread, and the stream of one connection.
use havok_rust.Base.{
  codes, ℕ, ◌≡◌, ◌≢◌, refl, sym, ap, ◌∙◌, Bytes, Bool, true, false, List, [], ◌∷◌, ◌++◌, Option,
  none, some, All, Ensures, Ensures-bind, Ensures-ok, append-nil, nat_eq, list_eq,
}
use havok_rust.Net.{SocketAddr, addr_eq, eq_addr, NetworkMessage}
use havok_rust.Settings.{reconfigure, shutdown}
use havok_rust.Ansi.Code.{unwrap}
use havok_rust.Ansi.Colors.{get_colors}
use havok_rust.Ansi.Convert.{convert_string}
use havok_rust.Connection.Session.{
  Crates, Connection, new, send_raw, send_string, send_line, start_processing,
}
use havok_rust.Server.{Action, queue_on}
use havok_rust.Server.Channel.{is_full}
use havok_rust.Server.Thread.{
  Accepted, Event, control, accepted, transmit, receive, enqueued, lagged, welcome,
}
use havok_rust.Server.Thread.Book.{Book, greeted_entry, admit_next, send_next, pass_on, book_step}
use havok_rust.Server.Thread.Book.Queues.{
  addressed, written_to, sent_by, ends_loop, IsText, if_cons, first-IsText, if_cons-append,
  addressed-append,
}
use havok_rust.Server.Thread.Book.Delivers.{Owns, put-Owns, deliver-Delivered}

module _ (crates : Crates) (a : SocketAddr) (item : ℕ) where
  -- Of a round: what is written to the stream, and what then waits for it, is what waited before, and behind
  -- it what the round puts into the channel.
  pub record Round (b : Book crates) (sent : List NetworkMessage) (is_shutdown : Bool)
      (r : Book crates × List Action) : Type 0 where
    pub owns : Owns crates a item r.0.streams
    pub in_order :
        written_to item r.1 ++ addressed a r.0.txqueue ≡ addressed a b.txqueue ++ addressed a sent
    pub flag : r.0.is_shutdown ≡ is_shutdown

  send_next-Round :
      (queue : List NetworkMessage) (b : Book crates)
      → Owns crates a item b.streams
      → b.is_shutdown ≡ false
      → b.txqueue ≡ queue
      → All IsText (addressed a queue)
      → Round b [] false (send_next crates queue b)
  send_next-Round [] b o going e text = record {
    owns = o;
    in_order = sym (append-nil (addressed a b.txqueue));
    flag = going;
  }
  send_next-Round (message ∷ queue) b o going e text =
      let d =
        deliver-Delivered crates a item message.dest message.payload (record b { txqueue = queue })
          o (first-IsText (eq_addr message.dest a) message.payload (addressed a queue) text) in
      record {
        owns = d.owns;
        in_order =
            ap
              (λ (ws : List Bytes).
                ws ++ addressed a (send_next crates (message ∷ queue) b).0.txqueue)
              d.writes
            ∙ ap
                (λ (q : List NetworkMessage).
                  if_cons (eq_addr message.dest a) message.payload [] ++ addressed a q)
                d.queue
            ∙ sym (if_cons-append (eq_addr message.dest a) message.payload [] (addressed a queue))
            ∙ ap (addressed a) (sym e)
            ∙ sym (append-nil (addressed a b.txqueue));
        flag = d.flag ∙ going;
      }

  -- A new connection from another address, on a stream of its own.
  abbrev pub IsApart : Event → Type 0
  IsApart (accepted (some x)) = (eq_addr x.addr a ≡ false) × (x.wr_half ≢ item)
  IsApart _ = Unit

  send_line-dest :
      (c : Connection crates) (text : Bytes)
      → Ensures (λ (m : NetworkMessage). m.dest ≡ c.addr) (send_line crates c text)
  unfolding send_line send_string send_raw
  send_line-dest c text =
      Ensures-bind (λ (m : NetworkMessage). m.dest ≡ c.addr)
        (convert_string crates.term crates.re c.ansi_colors (text ++ codes "\r\n") c.ansi_mode) _
        (λ line _. refl)

  elsewhere :
      (message : NetworkMessage) → eq_addr message.dest a ≡ false → addressed a (message ∷ []) ≡ []
  elsewhere message apart = ap (λ (t : Bool). if_cons t message.payload []) apart

  greeted-Round :
      (full : Bool) (b b' : Book crates)
      → Round b [] false (b', [])
      → Ensures (Round b [] false) (greeted_entry crates full b')
  greeted-Round true b b' h = tt
  greeted-Round false b b' h = h

  admit_next-Round :
      (listening : Bool) (result : Option Accepted) (b : Book crates)
      → Owns crates a item b.streams
      → b.is_shutdown ≡ false
      → IsApart (accepted result)
      → Ensures (Round b [] false) (admit_next crates listening result b)
  unfolding start_processing new
  admit_next-Round false result b o going apart = tt
  admit_next-Round true none b o going apart = tt
  admit_next-Round true (some x) b o going apart =
      Ensures-bind (Round b [] false) (get_colors crates.term crates.re b.parser) _ (λ colors _.
        let c : Connection crates =
          (start_processing crates (new crates b.txsender x.addr colors) x.rx x.usertx x.userrx
            x.rxtask x.txtask x.dnsresult).connection in
        Ensures-bind (Round b [] false) (unwrap b.settings) _ (λ conf _.
          Ensures-bind (Round b [] false) (send_line crates c (welcome conf.mud.name)) _
            (λ greeting e. greeted-Round (is_full b.txqueue) b _ (record {
              owns = put-Owns crates a item x.addr x.wr_half b.streams apart.0 apart.1 o;
              in_order =
                  addressed-append a b.txqueue (greeting ∷ [])
                  ∙ ap (λ (xs : List Bytes). addressed a b.txqueue ++ xs)
                      (elsewhere greeting (
                        ap (λ (d : SocketAddr). eq_addr d a)
                          (Ensures-ok (λ (m : NetworkMessage). m.dest ≡ c.addr)
                            (send_line crates c (welcome conf.mud.name))
                            (send_line-dest c (welcome conf.mud.name)) e)
                        ∙ apart.0));
              flag = going;
            }))))

  queue_on-quiet :
      (sender : Option ℕ) (message : NetworkMessage)
      → written_to item (queue_on crates sender message) ≡ []
  queue_on-quiet none message = refl
  queue_on-quiet (some rx) message = refl

  pass_on-quiet :
      (known : Option (Connection crates)) (message : NetworkMessage)
      → written_to item (pass_on crates known message) ≡ []
  pass_on-quiet none message = refl
  pass_on-quiet (some c) message = queue_on-quiet c.rxsender message

  pub book_step-Round :
      (b : Book crates) (event : Event)
      → Owns crates a item b.streams
      → b.is_shutdown ≡ false
      → All IsText (addressed a b.txqueue)
      → IsApart event
      → Ensures (Round b (sent_by event) (ends_loop event)) (book_step crates b event)
  book_step-Round b (control shutdown) o going text apart = record {
    owns = o;
    in_order = sym (append-nil (addressed a b.txqueue));
    flag = refl;
  }
  book_step-Round b (control (reconfigure conf)) o going text apart = record {
    owns = o;
    in_order = sym (append-nil (addressed a b.txqueue));
    flag = going;
  }
  book_step-Round b (accepted result) o going text apart =
      admit_next-Round b.is_listening result b o going apart
  book_step-Round b transmit o going text apart = send_next-Round b.txqueue b o going refl text
  book_step-Round b (receive message) o going text apart = record {
    owns = o;
    in_order =
        rw (pass_on-quiet (b.connections message.dest) message)
          (sym (append-nil (addressed a b.txqueue)));
    flag = going;
  }
  book_step-Round b lagged o going text apart = tt
  book_step-Round b (enqueued message) o going text apart = record {
    owns = o;
    in_order = addressed-append a b.txqueue (message ∷ []);
    flag = going;
  }
