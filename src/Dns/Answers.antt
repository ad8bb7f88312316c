-- ===== src/Dns/Answers.antt =====
-- A connection gets the names of its own address.
use havok_rust.Base.{
  ◌≡◌, refl, sym, ap, ◌∙◌, ◌⊎◌, inl, inr, Bytes, false, List, [], ◌∷◌, ◌++◌, map, Option, none,
  some, ℕ, Bool-cases,
}
use havok_rust.Net.{IpAddr, eq_ip, eq_ip_iff}
use havok_rust.Settings.{reconfigure, shutdown}
use havok_rust.Dns.{
  DnsItem, DnsChannels, publish, names_of, reverse_lookup, response_inner, resolve_ip, LookupEvent,
  control, request, do_dns_lookup_thread,
}

-- An occurrence in a list.
abbrev pub In : {A : Type 0} → A → List A → Type 0
In a [] = ⊥
In a (x ∷ xs) = (a ≡ x) ⊎ In a xs

-- An item that a lookup of its own address made.
abbrev pub IsAnswer : (IpAddr → Option (List Bytes)) → DnsItem → Type 0
IsAnswer resolver item = item.names ≡ names_of (resolver item.addr)

module _ (resolver : IpAddr → Option (List Bytes)) where
  lookup-IsAnswer :
      (events : List LookupEvent) (item : DnsItem)
      → In item (do_dns_lookup_thread resolver events).0
      → IsAnswer resolver item
  unfolding do_dns_lookup_thread
  lookup-IsAnswer [] item h = absurd h
  lookup-IsAnswer (control none ∷ events) item h = absurd h
  lookup-IsAnswer (control (some shutdown) ∷ events) item h = absurd h
  lookup-IsAnswer (control (some (reconfigure conf)) ∷ events) item h =
      lookup-IsAnswer events item h
  lookup-IsAnswer (request none ∷ events) item h = absurd h
  lookup-IsAnswer (request (some asked) ∷ events) item (inl e) = rw e
  lookup-IsAnswer (request (some asked) ∷ events) item (inr h) = lookup-IsAnswer events item h

  response_inner-answers :
      (addr : IpAddr) (arrived : List DnsItem) (later : List (Option DnsItem))
      → ((item : DnsItem) → In item arrived → IsAnswer resolver item)
      → In (reverse_lookup resolver addr) arrived
      → response_inner addr (map some arrived ++ later) ≡ some (names_of (resolver addr))
  unfolding response_inner reverse_lookup
  response_inner-answers addr [] later answers h = absurd h
  response_inner-answers addr (item ∷ arrived) later answers h =
      elim (Bool-cases (eq_ip item.addr addr)) [
        | inl same ↦ rw same (
            ap some (
              answers item (inl refl)
              ∙ ap (λ (a : IpAddr). names_of (resolver a)) ((eq_ip_iff item.addr addr).0 same)))
        | inr other ↦
            rw other (
              response_inner-answers addr arrived later (λ x g. answers x (inr g))
                (further other h))
      ]
    where
      further :
          eq_ip item.addr addr ≡ false
          → In (reverse_lookup resolver addr) (item ∷ arrived)
          → In (reverse_lookup resolver addr) arrived
      further other (inr g) = g
      further other (inl e) =
          let same : addr ≡ item.addr = ap (λ (x : DnsItem). x.addr) e in
          cc (sym other ∙ (eq_ip_iff item.addr addr).1 (sym same))

  -- Let the lookup thread have made its channels known. Let all that arrives in time be answers of the
  -- lookup thread, in any order and with any of them lost, and the answer for `addr` be among them. Then
  -- `resolve_ip` sends one request, for `addr`, and returns the names that the resolver has for `addr`,
  -- whatever other addresses were looked up beside it.
  pub resolve_ip-answers :
      (requests responses : ℕ) (channels : DnsChannels) (addr : IpAddr) (events : List LookupEvent)
      (arrived : List DnsItem) (later : List (Option DnsItem))
      → ((item : DnsItem) → In item arrived → In item (do_dns_lookup_thread resolver events).0)
      → In (reverse_lookup resolver addr) arrived
      → resolve_ip (publish requests responses channels) addr (map some arrived ++ later)
        ≡ ((requests, record { addr = addr; names = none }) ∷ [], names_of (resolver addr))
  unfolding resolve_ip publish
  resolve_ip-answers requests responses channels addr events arrived later from_thread there = rw (
      response_inner-answers addr arrived later
        (λ item g. lookup-IsAnswer events item (from_thread item g)) there)

-- Names that `response_inner` returns stand in an item that arrived and that is for the address asked for.
pub response_inner_sound :
    (addr : IpAddr) (events : List (Option DnsItem)) (names : List Bytes)
    → response_inner addr events ≡ some (some names)
    → (item : DnsItem) × In (some item) events × (item.addr ≡ addr) × (item.names ≡ some names)
unfolding response_inner
response_inner_sound addr [] names e = cc
response_inner_sound addr (none ∷ events) names e = cc
response_inner_sound addr (some item ∷ events) names e = elim (Bool-cases (eq_ip item.addr addr)) [
  | inl same ↦ (item, inl refl, (eq_ip_iff item.addr addr).0 same, cc (rw same at e))
  | inr other ↦
      let (found, there, is_for, has) = response_inner_sound addr events names (rw other at e) in
      (found, inr there, is_for, has)
]
