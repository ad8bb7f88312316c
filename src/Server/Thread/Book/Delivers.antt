-- ===== src/Server/Thread/Book/Delivers.antt =====
-- A message that is delivered, and the stream of one connection.
use havok_rust.Base.{
  ℕ, ◌≡◌, ◌≢◌, refl, ap, ◌∙◌, Bytes, Bool, true, false, Bool-cases, inl, inr, List, [], ◌∷◌, Option,
  none, some, if◌then◌else◌, All, ◌==◌, ==_iff, nat_eq, list_eq,
}
use havok_rust.Net.{SocketAddr, addr_eq, eq_addr, eq_addr_iff}
use havok_rust.Connection.Session.{Crates}
use havok_rust.Server.{Action}
use havok_rust.Server.Thread.Book.{put, forget, Book, deliver}
use havok_rust.Server.Thread.Book.Queues.{written_to, IsText, if_cons}

module _ (crates : Crates) (a : SocketAddr) (item : ℕ) where
  -- The stream is that of the address, and of no other.
  pub record Owns (streams : SocketAddr → Option ℕ) : Type 0 where
    pub mine : streams a ≡ some item
    pub only : (b : SocketAddr) → streams b ≡ some item → b ≡ a

  is_mine : (d : SocketAddr) → eq_addr d a ≡ true → d ≡ a
  is_mine d e = (eq_addr_iff d a).0 e

  not_mine : (d : SocketAddr) → eq_addr d a ≡ false → d ≢ a
  not_mine d e same = cc ((eq_addr_iff d a).1 same)

  below_none : (t : Bool) (x : Option ℕ) → (if t then none else x) ≡ some item → x ≡ some item
  below_none true x h = cc
  below_none false x h = h

  below_some :
      (t : Bool) (stream : ℕ) (x : Option ℕ)
      → stream ≢ item
      → (if t then some stream else x) ≡ some item
      → x ≡ some item
  below_some true stream x other h = absurd (other cc)
  below_some false stream x other h = h

  forget-Owns :
      (d : SocketAddr) (streams : SocketAddr → Option ℕ)
      → eq_addr d a ≡ false
      → Owns streams
      → Owns (forget d streams)
  forget-Owns d streams apart o = record {
    mine = rw apart o.mine;
    only = λ b h. o.only b (below_none (eq_addr d b) (streams b) h);
  }

  pub put-Owns :
      (d : SocketAddr) (stream : ℕ) (streams : SocketAddr → Option ℕ)
      → eq_addr d a ≡ false
      → stream ≢ item
      → Owns streams
      → Owns (put d stream streams)
  put-Owns d stream streams apart other o = record {
    mine = rw apart o.mine;
    only = λ b h. o.only b (below_some (eq_addr d b) stream (streams b) other h);
  }

  -- A message to the address is written, and any other writes nothing there.
  pub record Delivered (payload : Bytes) (d : SocketAddr) (b : Book crates)
      (r : Book crates × List Action) : Type 0 where
    pub owns : Owns r.0.streams
    pub writes : written_to item r.1 ≡ if_cons (eq_addr d a) payload []
    pub queue : r.0.txqueue ≡ b.txqueue
    pub flag : r.0.is_shutdown ≡ b.is_shutdown

  other_stream :
      (d : SocketAddr) (stream : ℕ) (streams : SocketAddr → Option ℕ)
      → Owns streams
      → streams d ≡ some stream
      → eq_addr d a ≡ false
      → (stream == item) ≡ false
  other_stream d stream streams o e apart = elim (Bool-cases (stream == item)) [
    | inl same ↦ absurd (not_mine d apart (o.only d (e ∙ ap some ((==_iff stream item).0 same))))
    | inr other ↦ other
  ]

  deliver_other :
      (d : SocketAddr) (stream : Option ℕ) (payload : Bytes) (b : Book crates)
      → Owns b.streams
      → b.streams d ≡ stream
      → eq_addr d a ≡ false
      → Delivered payload d b (deliver crates d stream payload b)
  deliver_other d none payload b o e apart = record {
    owns = o;
    writes = rw apart refl;
    queue = refl;
    flag = refl;
  }
  deliver_other d (some stream) [] b o e apart = record {
    owns = forget-Owns d b.streams apart o;
    writes = rw apart refl;
    queue = refl;
    flag = refl;
  }
  deliver_other d (some stream) (c ∷ payload) b o e apart = record {
    owns = o;
    writes = rw (apart, other_stream d stream b.streams o e apart) refl;
    queue = refl;
    flag = refl;
  }

  deliver_mine :
      (d : SocketAddr) (stream : Option ℕ) (payload : Bytes) (b : Book crates)
      → Owns b.streams
      → stream ≡ some item
      → eq_addr d a ≡ true
      → IsText payload
      → Delivered payload d b (deliver crates d stream payload b)
  deliver_mine d none payload b o e same text = cc
  deliver_mine d (some stream) [] b o e same text = absurd (text refl)
  deliver_mine d (some stream) (c ∷ payload) b o e same text =
      let here : (stream == item) ≡ true = (==_iff stream item).1 cc in
      record { owns = o; writes = rw (same, here) refl; queue = refl; flag = refl }

  pub deliver-Delivered :
      (d : SocketAddr) (payload : Bytes) (b : Book crates)
      → Owns b.streams
      → All IsText (if_cons (eq_addr d a) payload [])
      → Delivered payload d b (deliver crates d (b.streams d) payload b)
  deliver-Delivered d payload b o text = elim (Bool-cases (eq_addr d a)) [
    | inl same ↦
        deliver_mine d (b.streams d) payload b o (ap b.streams (is_mine d same) ∙ o.mine) same
          (rw same at text).0
    | inr apart ↦ deliver_other d (b.streams d) payload b o refl apart
  ]
