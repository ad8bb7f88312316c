-- ===== src/Dns.antt =====
-- src/dnslookup.rs: the lookup thread, and a connection's wait for its answer. The resolver is a parameter,
-- `none` for an error. What arrives within the three seconds of the time limit is the list of events.
pub mod Answers
use havok_rust.Base.{
  ◌≡◌, Bytes, Bool, true, false, List, [], ◌∷◌, Option, none, some, if◌then◌else◌, ℕ,
}
use havok_rust.Net.{IpAddr, eq_ip}
use havok_rust.Settings.{ControlSignal, reconfigure, shutdown}
use havok_rust.Connection.Session.{Status, waiting, finished, panicked}
use havok_rust.Ansi.Code.{unwrap_or}

-- `struct DnsItem`.
pub record DnsItem : Type 0 where
  pub addr : IpAddr
  pub names : Option (List Bytes)

-- `struct DnsChannels`.
pub record DnsChannels : Type 0 where
  pub request_sender : Option ℕ
  pub response_sender : Option ℕ

-- The initial value of the static `DNS_CHANNELS`.
abbrev pub channels_static : DnsChannels
channels_static = record { request_sender = none; response_sender = none }

-- The lookup thread makes its channels known. The lock on them is held over no wait.
unfoldable pub publish : ℕ → ℕ → DnsChannels → DnsChannels
publish requests responses channels = record channels {
  request_sender = some requests;
  response_sender = some responses;
}

abbrev pub some_names : List Bytes → Option (List Bytes)
some_names [] = none
some_names (name ∷ names) = some (name ∷ names)

abbrev pub names_of : Option (List Bytes) → Option (List Bytes)
names_of none = none
names_of (some results) = some_names results

-- `reverse_lookup`: the item that goes on the response channel.
unfoldable pub reverse_lookup : (IpAddr → Option (List Bytes)) → IpAddr → DnsItem
reverse_lookup resolver addr = record { addr = addr; names = names_of (resolver addr) }

-- `response_inner`: what the loop returns, `none` while it still waits. An event `none` is an error of the
-- channel.
unfoldable pub response_inner : IpAddr → List (Option DnsItem) → Option (Option (List Bytes))
response_inner addr [] = none
response_inner addr (none ∷ events) = some none
response_inner addr (some response ∷ events) =
    let later = response_inner addr events in
    if eq_ip response.addr addr then some response.names else later

-- Behind the lock: without a sender there is nothing to wait for, and a wait that is not over has timed out.
unfoldable pub ask :
    IpAddr → List (Option DnsItem) → Option ℕ → Option ℕ → List (ℕ × DnsItem) × Option (List Bytes)
unfolding response_inner
ask addr events (some requests) (some responses) = (
  (requests, record { addr = addr; names = none }) ∷ [],
  unwrap_or (response_inner addr events) none,
)
ask addr events _ _ = ([], none)

-- `resolve_ip`: the request that it sends, and its result.
unfoldable pub resolve_ip :
    DnsChannels → IpAddr → List (Option DnsItem) → List (ℕ × DnsItem) × Option (List Bytes)
unfolding ask
resolve_ip channels addr events = ask addr events channels.request_sender channels.response_sender

-- An event of the lookup thread: a control signal, `none` if the channel fails, or a request, `none` if all
-- senders are gone.
pub data LookupEvent : Type 0 where
  control : Option ControlSignal → LookupEvent
  request : Option DnsItem → LookupEvent

abbrev pub spawn_first : DnsItem → List DnsItem × Status → List DnsItem × Status
spawn_first item (later, status) = (item ∷ later, status)

-- `do_dns_lookup_thread`: the answers of the lookups that it spawns, in the order of the requests.
unfoldable pub do_dns_lookup_thread :
    (IpAddr → Option (List Bytes)) → List LookupEvent → List DnsItem × Status
unfolding reverse_lookup
do_dns_lookup_thread resolver [] = ([], waiting)
do_dns_lookup_thread resolver (control none ∷ events) = ([], panicked)
do_dns_lookup_thread resolver (control (some shutdown) ∷ events) = ([], finished)
do_dns_lookup_thread resolver (control (some (reconfigure conf)) ∷ events) =
    do_dns_lookup_thread resolver events
do_dns_lookup_thread resolver (request none ∷ events) = ([], panicked)
do_dns_lookup_thread resolver (request (some item) ∷ events) =
    spawn_first (reverse_lookup resolver item.addr) (do_dns_lookup_thread resolver events)
