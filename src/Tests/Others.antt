-- ===== src/Tests/Others.antt =====
-- src/dnslookup.rs and src/logging.rs on a few events.
use havok_rust.Base.{
  ◌≡◌, refl, Bytes, codes, Bool, true, List, [], ◌∷◌, Option, none, some, ok, panic, inl, inr,
  if◌then◌else◌, leb, length, arith, ◌+◌,
}
use havok_rust.Net.{IpAddr, v4, v6}
use havok_rust.Settings.{shutdown}
use havok_rust.Connection.Session.{finished}
use havok_rust.Dns.{
  DnsItem, channels_static, publish, LookupEvent, request, reverse_lookup, response_inner,
  resolve_ip, do_dns_lookup_thread,
}
use havok_rust.Dns.Answers.{In, resolve_ip-answers, response_inner_sound}
use havok_rust.Logging.{
  Level, info, debug, trace, LogMessage, logged, control, Logging, logger_static, capacity,
  log_thread, fresh_flags, set_debug, set_logfile, set_logqueue, initialize, output, say,
}
use havok_rust.Logging.Drain.{log_thread-drains}
use havok_rust.Logging.Levels.{set_up, set_up-level, log_all, log_all_lem, messages}

abbrev resolver : IpAddr → Option (List Bytes)
resolver (v4 n) = some (codes "host" ∷ [])
resolver (v6 n) = none

abbrev requests : List LookupEvent
requests =
    request (some (record { addr = v6 9; names = none }))
    ∷ request (some (record { addr = v4 1; names = none }))
    ∷ []

-- The answer for another address arrives first.
abbrev answers : List DnsItem
answers =
    record { addr = v6 9; names = none }
    ∷ record { addr = v4 1; names = some (codes "host" ∷ []) }
    ∷ []

from_lookups :
    (item : DnsItem) → In item answers → In item (do_dns_lookup_thread resolver requests).0
unfolding do_dns_lookup_thread reverse_lookup
from_lookups item h = h

resolve_ip-answers_example :
    resolve_ip (publish 5 6 channels_static) (v4 1) (
      some (record { addr = v6 9; names = none })
      ∷ some (record { addr = v4 1; names = some (codes "host" ∷ []) })
      ∷ none
      ∷ [])
    ≡ ((5, record { addr = v4 1; names = none }) ∷ [], some (codes "host" ∷ []))
unfolding reverse_lookup
resolve_ip-answers_example =
    resolve_ip-answers resolver 5 6 channels_static (v4 1) requests answers (none ∷ []) from_lookups
      (inr (inl refl))

response_found :
    (item : DnsItem) × In (some item) (
      some (record { addr = v6 9; names = none })
      ∷ some (record { addr = v4 1; names = some (codes "host" ∷ []) })
      ∷ [])
    × (item.addr ≡ v4 1)
    × (item.names ≡ some (codes "host" ∷ []))
unfolding response_inner
response_found =
    response_inner_sound (v4 1)
      (some (record { addr = v6 9; names = none })
        ∷ some (record { addr = v4 1; names = some (codes "host" ∷ []) })
        ∷ [])
      (codes "host" ∷ []) refl

abbrev hello : LogMessage
hello = record { message = codes "hello"; level = info }

abbrev pub detail : LogMessage
detail = record { message = codes "detail"; level = trace }

abbrev pub always : Level → Bool
always level = true

drains_in_order :
    log_thread always info fresh_flags (
      logged (some hello)
      ∷ control (some shutdown)
      ∷ logged (some detail)
      ∷ logged (some hello)
      ∷ logged none
      ∷ [])
    ≡ (
      hello
          ∷ record { message = codes "Draining logs"; level = info }
          ∷ hello
          ∷ record { message = codes "Logs drained."; level = info }
          ∷ record { message = codes "Shutting down Logging thread"; level = info }
          ∷ [],
      finished,
    )
unfolding output say
drains_in_order =
    log_thread-drains always info
      (logged (some hello)
        ∷ control (some shutdown)
        ∷ logged (some detail)
        ∷ logged (some hello)
        ∷ [])
      [] (tt, (tt, (tt, (tt, tt))))

abbrev opens : Bytes → Bool
opens path = true

abbrev pub ready : Logging
ready = record {
  initialized = true;
  logtx = some 3;
  level = debug;
  logfile = some (codes "mud.log");
}

ready_runs : set_up opens 3 (codes "mud.log") true logger_static ≡ ok ready
unfolding set_debug set_logfile set_logqueue initialize
ready_runs = refl

ready_at_debug :
    (l : Logging) × (set_up opens 3 (codes "mud.log") true logger_static ≡ ok l)
    × (l.level ≡ (if true then debug else info))
    × (l.logtx ≡ some 3)
    × (l.logfile ≡ some (codes "mud.log"))
ready_at_debug = set_up-level opens 3 (codes "mud.log") true logger_static refl

abbrev pub calls : List (Level × Bytes)
calls = (info, codes "hello") ∷ (trace, codes "detail") ∷ []

calls_fit : log_all ready calls (detail ∷ []) ≡ (
    if leb (length (detail ∷ []) + length calls) capacity
    then ok (detail ∷ messages calls)
    else panic)
calls_fit = log_all_lem ready calls (detail ∷ []) 3 refl (omega arith)
