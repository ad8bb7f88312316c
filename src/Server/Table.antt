-- ===== src/Server/Table.antt =====
-- What the operations of the server do to the table of connections.
use havok_rust.Base.{
  ℕ, ◌≡◌, ◌≢◌, refl, ◌∙◌, ◌⊎◌, inl, inr, Bytes, Bool, true, false, List, [], ◌∷◌, Option, none,
  some, if◌then◌else◌, Option-cases, Bool-cases,
}
use havok_rust.Base.HashMap.{HashMap, get, insert, remove, get-insert, get-remove}
use havok_rust.Net.{SocketAddr, addr_eq, eq_addr, NetworkMessage}
use havok_rust.Connection.Session.{Crates}
use havok_rust.Server.{Server, Action, shut_down, write_all, send_to, send_message}

abbrev pub has {ℓ} : {A : Type ℓ} → Option A → Bool
has none = false
has (some a) = true

-- Every connection has both its streams, and the streams go in pairs.
pub record InSync (crates : Crates) (s : Server crates) : Type 0 where
  pub writable :
      (a : SocketAddr) → has (get a s.connections) ≡ true → has (get a s.wr_streams) ≡ true
  pub paired : (a : SocketAddr) → has (get a s.wr_streams) ≡ has (get a s.rd_streams)

module _ {ℓ} {V : Type ℓ} where
  pub has-remove :
      (k j : SocketAddr) (m : HashMap SocketAddr V)
      → has (get j (remove k m)) ≡ (if eq_addr k j then false else has (get j m))
  has-remove k j m = elim (Bool-cases (eq_addr k j)) [
    | inl e ↦ rw (get-remove k j m, e)
    | inr e ↦ rw (get-remove k j m, e)
  ]

  pub has-insert :
      (k j : SocketAddr) (v : V) (m : HashMap SocketAddr V)
      → has (get j (insert k v m)) ≡ (if eq_addr k j then true else has (get j m))
  has-insert k j v m = elim (Bool-cases (eq_addr k j)) [
    | inl e ↦ rw (get-insert k j v m, e)
    | inr e ↦ rw (get-insert k j v m, e)
  ]

gone_or_kept :
    (b x y : Bool)
    → (x ≡ true → y ≡ true)
    → (if b then false else x) ≡ true
    → (if b then false else y) ≡ true
gone_or_kept true x y f h = h
gone_or_kept false x y f h = f h

module _ (crates : Crates) where
  pub send_message_unknown :
      (s : Server crates) (message : NetworkMessage)
      → get message.dest s.wr_streams ≡ none
      → send_message crates s message ≡ (s, [])
  unfolding send_message
  send_message_unknown s message e = rw (e, send_message)

  pub send_message_known :
      (s : Server crates) (message : NetworkMessage) (item : ℕ)
      → get message.dest s.wr_streams ≡ some item
      → send_message crates s message ≡ send_to crates s message.dest item message.payload
  unfolding send_message
  send_message_known s message item e = rw (e, send_message)

  -- An empty message to an address with a stream shuts that stream down and takes the address, and no
  -- other, out of the connections and of both stream tables. The handle of its reading task stays.
  pub send_message_disconnect :
      (s : Server crates) (message : NetworkMessage) (item : ℕ)
      → get message.dest s.wr_streams ≡ some item
      → message.payload ≡ []
      → let (s', actions) = send_message crates s message in
        (actions ≡ shut_down item ∷ [])
        × ((a : SocketAddr)
            → get a s'.connections ≡ (if eq_addr message.dest a then none else get a s.connections))
        × ((a : SocketAddr)
            → get a s'.wr_streams ≡ (if eq_addr message.dest a then none else get a s.wr_streams))
        × ((a : SocketAddr)
            → get a s'.rd_streams ≡ (if eq_addr message.dest a then none else get a s.rd_streams))
        × (s'.rd_handles ≡ s.rd_handles)
  unfolding send_to
  send_message_disconnect s message item e empty =
      rw (send_message_known s message item e, empty)
        (
          refl,
          λ a. get-remove message.dest a s.connections,
          λ a. get-remove message.dest a s.wr_streams,
          λ a. get-remove message.dest a s.rd_streams,
          refl,
        )

  abbrev pub writes : Option ℕ → Bytes → List Action
  writes none payload = []
  writes (some item) payload = write_all item payload ∷ []

  send_to_data :
      (s : Server crates) (a : SocketAddr) (item : ℕ) (payload : Bytes)
      → payload ≢ []
      → send_to crates s a item payload ≡ (s, write_all item payload ∷ [])
  unfolding send_to
  send_to_data s a item [] ne = absurd (ne refl)
  send_to_data s a item (b ∷ payload) ne = refl

  -- A message that is not empty leaves the table as it is: it is written whole to the stream of its
  -- address, and dropped if there is none.
  pub send_message_data :
      (s : Server crates) (message : NetworkMessage)
      → message.payload ≢ []
      → send_message crates s message ≡ (s, writes (get message.dest s.wr_streams) message.payload)
  send_message_data s message ne = elim (Option-cases (get message.dest s.wr_streams)) [
    | inl e ↦ send_message_unknown s message e ∙ rw e
    | inr (item, e) ↦
        send_message_known s message item e
        ∙ send_to_data s message.dest item message.payload ne
        ∙ rw e
  ]

  -- What `send_message` can leave: the same table, or the one without the address.
  abbrev pub without : SocketAddr → Server crates → Server crates
  without a s = record s {
    wr_streams = remove a s.wr_streams;
    rd_streams = remove a s.rd_streams;
    connections = remove a s.connections;
  }

  send_to_table :
      (s : Server crates) (a : SocketAddr) (item : ℕ) (payload : Bytes)
      → ((send_to crates s a item payload).0 ≡ s)
        ⊎ ((send_to crates s a item payload).0 ≡ without a s)
  unfolding send_to
  send_to_table s a item [] = inr refl
  send_to_table s a item (b ∷ payload) = inl refl

  pub send_message_table :
      (s : Server crates) (message : NetworkMessage)
      → ((send_message crates s message).0 ≡ s)
        ⊎ ((send_message crates s message).0 ≡ without message.dest s)
  send_message_table s message = elim (Option-cases (get message.dest s.wr_streams)) [
    | inl e ↦ inl (rw (send_message_unknown s message e))
    | inr (item, e) ↦
        rw (send_message_known s message item e) (send_to_table s message.dest item message.payload)
  ]

  without-InSync :
      (a : SocketAddr) (s : Server crates) → InSync crates s → InSync crates (without a s)
  without-InSync a s v = record {
    writable = λ b h.
        rw (has-remove a b s.wr_streams)
          (gone_or_kept (eq_addr a b) _ _ (v.writable b) (rw (has-remove a b s.connections) at h));
    paired = λ b. rw (has-remove a b s.wr_streams, has-remove a b s.rd_streams, v.paired b);
  }

  pub send_message-InSync :
      (s : Server crates) (message : NetworkMessage)
      → InSync crates s
      → InSync crates (send_message crates s message).0
  send_message-InSync s message v = elim (send_message_table s message) [
    | inl e ↦ rw e v
    | inr e ↦ rw e (without-InSync message.dest s v)
  ]
