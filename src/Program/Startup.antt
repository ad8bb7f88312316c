-- ===== src/Program/Startup.antt =====
-- The first settings reach the server thread.
use havok_rust.Base.{
  ◌≡◌, ◌≢◌, refl, Bool, true, false, List, Option, none, some, Bool-cases, inl, inr, arith,
}
use havok_rust.Settings.{Settings, ControlSignal, reconfigure, shutdown}
use havok_rust.Program.State.{
  Tokio, Pc, unborn, born, at_start, running, reloading, finished, panicked, MainPc, World, Choice,
  start, post_all, start_size,
}
use havok_rust.Program.{
  main_hears, waits_start, start_count, main_step, on_interrupt, on_hang_up, reload, sighup_goes_on,
  open_start, open_shutdown, choose, schedule, all_finished, handles,
}
use havok_rust.Program.Barriers.{start-AllWait}
use havok_rust.Program.Shutdown.{NobodyEnds, choose-NobodyEnds, start-NobodyEnds, never_opens}
use havok_rust.Program.Inboxes.{
  is_settling, is_served, is_open, post_served, post_first, post_open, thread_step_open,
  thread_step_before, thread_step_subscribed, thread_step_served,
}
use havok_rust.Program.Runs.{schedule_keeps}

-- The main task is behind the start barrier.
abbrev is_started : MainPc → Bool
is_started MainPc.spawn_log = false
is_started MainPc.spawn_ctrl_c = false
is_started MainPc.spawn_sighup = false
is_started MainPc.spawn_server = false
is_started MainPc.spawn_dns = false
is_started MainPc.at_start = false
is_started MainPc.exited = false
is_started _ = true

-- It has sent the first settings.
abbrev pub has_sent : MainPc → Bool
has_sent MainPc.running = true
has_sent (MainPc.checking ts) = true
has_sent (MainPc.filling ts) = true
has_sent MainPc.at_shutdown = true
has_sent _ = false

record Serves (w : World) : Type 0 where
  idle : waits_start w.ctrl_c ≡ 0
  opened : is_started w.main ≡ true → is_open w.server_inbox ≡ true
  subscribed : w.server ≡ at_start → is_open w.server_inbox ≡ true
  before : is_started w.main ≡ true → (w.server ≢ born) × (w.server ≢ unborn)
  served : has_sent w.main ≡ true → is_settling w.server ≡ true → is_served w.server_inbox ≡ true

start-Serves : Serves start
start-Serves = record {
  idle = refl;
  opened = λ e. cc;
  subscribed = λ e. cc;
  before = λ e. cc;
  served = λ e. cc;
}

module _ (tokio : Tokio) (settings : Settings) where
  main_moves :
      (pc : MainPc) (w : World)
      → (is_started pc ≡ true → is_started w.main ≡ true)
      → (has_sent pc ≡ true → has_sent w.main ≡ true)
      → Serves w
      → Serves (record w { main = pc })
  main_moves pc w f g v = record {
    idle = v.idle;
    opened = λ e. v.opened (f e);
    subscribed = v.subscribed;
    before = λ e. v.before (f e);
    served = λ e. v.served (g e);
  }

  exits : (w : World) → Serves w → Serves (record w { main = MainPc.exited })
  exits w v = main_moves MainPc.exited w (λ e. cc) (λ e. cc) v

  main_step-Serves :
      (pc : MainPc) (w : World) → pc ≡ w.main → Serves w → Serves (main_step tokio settings pc w)
  unfolding main_step post_all main_hears
  main_step-Serves MainPc.sending w e v =
      let open_now = v.opened (rw (← e) refl) in
      record {
        idle = v.idle;
        opened = λ _. post_open (reconfigure settings) w.server_inbox open_now;
        subscribed = λ _. post_open (reconfigure settings) w.server_inbox open_now;
        before = λ _. v.before (rw (← e) refl);
        served = λ _ _. post_first settings w.server_inbox open_now;
      }
  main_step-Serves MainPc.joining w e v = elim (Bool-cases (all_finished handles w)) [
    | inl done ↦ rw done (main_moves MainPc.finished w (λ _. rw (← e) refl) (λ f. cc) v)
    | inr more ↦ rw more v
  ]
  main_step-Serves pc w e v = ground arith

  sighup_goes_on-Serves :
      (pc : Pc) (w : World) → Serves w → Serves (sighup_goes_on tokio settings pc w)
  unfolding sighup_goes_on reload
  sighup_goes_on-Serves pc w v = ground arith

  post_all-Serves : (s : ControlSignal) (w : World) → Serves w → Serves (post_all s w)
  unfolding post_all
  post_all-Serves s w v = record {
    idle = v.idle;
    opened = λ e. post_open s w.server_inbox (v.opened e);
    subscribed = λ e. post_open s w.server_inbox (v.subscribed e);
    before = v.before;
    served = λ e f. post_served s w.server_inbox (v.served e f);
  }

  handled : (w : World) → Serves w → Serves (record w { ctrl_c = finished })
  handled w v = record {
    idle = refl;
    opened = v.opened;
    subscribed = v.subscribed;
    before = v.before;
    served = v.served;
  }

  -- What becomes of the SIGHUP handler plays no part.
  other_sighup : (pc : Pc) (w : World) → Serves w → Serves (record w { sighup = pc })
  other_sighup pc w v = record {
    idle = v.idle;
    opened = v.opened;
    subscribed = v.subscribed;
    before = v.before;
    served = v.served;
  }

  on_interrupt-Serves : (pc : Pc) (w : World) → Serves w → Serves (on_interrupt tokio settings pc w)
  unfolding on_interrupt
  on_interrupt-Serves born w v =
      post_all-Serves shutdown (record w { ctrl_c = finished }) (handled w v)
  on_interrupt-Serves pc w v = exits w v

  on_hang_up-Serves :
      (pc : Pc) (conf : Option Settings) (w : World)
      → Serves w
      → Serves (on_hang_up tokio settings pc conf w)
  unfolding on_hang_up
  on_hang_up-Serves running (some conf) w v =
      post_all-Serves (reconfigure conf) (record w { sighup = reloading })
        (other_sighup reloading w v)
  on_hang_up-Serves running none w v = other_sighup panicked w v
  on_hang_up-Serves unborn conf w v = exits w v
  on_hang_up-Serves born conf w v = exits w v
  on_hang_up-Serves at_start conf w v = exits w v
  on_hang_up-Serves pc conf w v = v

  open_start-Serves : (w : World) → Serves w → Serves (open_start tokio settings w)
  unfolding open_start
  open_start-Serves w v = elim (Bool-cases (tokio.barrier_opens start_size (start_count w))) [
    | inl opens ↦
        let all =
          start-AllWait w v.idle (tokio.barrier_opens_full start_size (start_count w) opens) in
        rw opens (record {
          idle = ground arith;
          opened = λ _. v.subscribed all.server;
          subscribed = λ _. v.subscribed all.server;
          before = λ _. rw all.server ((λ e. cc), (λ e. cc));
          served = λ e. cc (rw all.main at e);
        })
    | inr stays ↦ rw stays v
  ]

  choose-Serves :
      (w : World) (c : Choice) → NobodyEnds w → Serves w → Serves (choose tokio settings w c)
  unfolding choose
  choose-Serves w Choice.main_goes n v = main_step-Serves w.main w refl v
  choose-Serves w Choice.log_goes n v = ground arith
  choose-Serves w Choice.sighup_goes n v = sighup_goes_on-Serves w.sighup w v
  choose-Serves w Choice.server_goes n v = record {
    idle = v.idle;
    opened = λ e. thread_step_open w.server w.server_inbox (v.opened e);
    subscribed = thread_step_subscribed w.server w.server_inbox v.subscribed;
    before = λ e. let b = thread_step_before w.server w.server_inbox (v.before e) in (b.0, b.1);
    served = λ e. thread_step_served w.server w.server_inbox (v.served e);
  }
  choose-Serves w Choice.dns_goes n v = ground arith
  choose-Serves w Choice.interrupt n v = on_interrupt-Serves w.ctrl_c w v
  choose-Serves w (Choice.hang_up conf) n v = on_hang_up-Serves w.sighup conf w v
  choose-Serves w Choice.server_fails n v = ground arith
  choose-Serves w Choice.start_opens n v = open_start-Serves w v
  choose-Serves w Choice.shutdown_opens n v = rw (never_opens tokio settings w n, open_shutdown) v

  -- Whatever happens from the start on, in any order, shutdowns and reloads included: once the main task has
  -- sent the first settings, a server thread that still waits for settings has some in its queue, or an error
  -- that ends it. It has not missed them.
  pub schedule_serves :
      (cs : List Choice)
      → has_sent (schedule tokio settings start cs).main ≡ true
      → is_settling (schedule tokio settings start cs).server ≡ true
      → is_served (schedule tokio settings start cs).server_inbox ≡ true
  schedule_serves cs =
      (schedule_keeps tokio settings (λ w. NobodyEnds w × Serves w)
        (λ w c v. (choose-NobodyEnds tokio settings w c v.0, choose-Serves w c v.0 v.1)) start cs
        (start-NobodyEnds, start-Serves)).1.served
