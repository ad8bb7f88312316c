-- ===== src/Program/Inboxes.antt =====
-- What the queue of the server thread holds while it waits for its settings, in src/main.rs.
use havok_rust.Base.{◌≡◌, ◌≢◌, refl, Bool, true, false, List, [], ◌∷◌, ◌++◌, arith}
use havok_rust.Settings.{Settings, ControlSignal, reconfigure, shutdown}
use havok_rust.Program.State.{
  Pc, unborn, born, settling, at_start, Inbox, closed, queued, lagged, post, hear, thread_step,
}

abbrev pub is_settling : Pc → Bool
is_settling (settling b) = true
is_settling _ = false

abbrev pub has_settings : List ControlSignal → Bool
has_settings [] = false
has_settings (shutdown ∷ q) = has_settings q
has_settings (reconfigure conf ∷ q) = true

-- New settings are on their way, or an error is.
abbrev pub is_served : Inbox → Bool
is_served closed = false
is_served (queued q) = has_settings q
is_served lagged = true

abbrev pub is_open : Inbox → Bool
is_open closed = false
is_open _ = true

has_settings-append :
    (q : List ControlSignal) (s : ControlSignal)
    → has_settings q ≡ true
    → has_settings (q ++ (s ∷ [])) ≡ true
has_settings-append [] s h = cc
has_settings-append (shutdown ∷ q) s h = has_settings-append q s h
has_settings-append (reconfigure conf ∷ q) s h = refl

has_settings_sent :
    (q : List ControlSignal) (conf : Settings) → has_settings (q ++ (reconfigure conf ∷ [])) ≡ true
has_settings_sent [] conf = refl
has_settings_sent (shutdown ∷ q) conf = has_settings_sent q conf
has_settings_sent (reconfigure _ ∷ q) conf = refl

pub post_served :
    (s : ControlSignal) (inbox : Inbox) → is_served inbox ≡ true → is_served (post s inbox) ≡ true
unfolding post
post_served s closed h = cc
post_served s (queued q) h = ground (arith, has_settings-append q s)
post_served s lagged h = refl

pub post_first :
    (conf : Settings) (inbox : Inbox)
    → is_open inbox ≡ true
    → is_served (post (reconfigure conf) inbox) ≡ true
unfolding post
post_first conf closed h = cc
post_first conf (queued q) h = ground (arith, has_settings_sent q conf)
post_first conf lagged h = refl

pub post_open :
    (s : ControlSignal) (inbox : Inbox) → is_open inbox ≡ true → is_open (post s inbox) ≡ true
unfolding post
post_open s inbox h = ground arith

-- A step of the server thread that is not born.
pub thread_step_open :
    (pc : Pc) (inbox : Inbox) → is_open inbox ≡ true → is_open (thread_step pc inbox).1 ≡ true
unfolding thread_step hear
thread_step_open pc inbox h = ground arith

pub thread_step_before :
    (pc : Pc) (inbox : Inbox)
    → (pc ≢ born) × (pc ≢ unborn)
    → ((thread_step pc inbox).0 ≢ born)
      × ((thread_step pc inbox).0 ≢ unborn)
      × ((thread_step pc inbox).0 ≡ at_start → pc ≡ at_start)
unfolding thread_step hear
thread_step_before pc inbox h = ground arith

pub thread_step_subscribed :
    (pc : Pc) (inbox : Inbox)
    → (pc ≡ at_start → is_open inbox ≡ true)
    → (thread_step pc inbox).0 ≡ at_start
    → is_open (thread_step pc inbox).1 ≡ true
unfolding thread_step hear
thread_step_subscribed pc inbox h e = ground arith

pub thread_step_served :
    (pc : Pc) (inbox : Inbox)
    → (is_settling pc ≡ true → is_served inbox ≡ true)
    → is_settling (thread_step pc inbox).0 ≡ true
    → is_served (thread_step pc inbox).1 ≡ true
unfolding thread_step hear
thread_step_served pc inbox h e = ground arith
