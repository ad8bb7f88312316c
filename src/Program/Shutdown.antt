-- ===== src/Program/Shutdown.antt =====
-- The shutdown barrier of src/main.rs: how many tasks can wait at it.
use havok_rust.Base.{
  ◌≤◌, ◌≡◌, ◌≢◌, refl, Bool, true, false, Option, List, Bool-cases, inl, inr, arith,
}
use havok_rust.Settings.{Settings}
use havok_rust.Program.State.{
  Tokio, Pc, leaving, finished, MainPc, Inbox, World, Choice, start, hear, log_step, sighup_step,
  thread_step, post_all, thread_count,
}
use havok_rust.Program.{
  main_hears, waits_shutdown, main_waits_shutdown, shutdown_count, main_step, on_interrupt,
  on_hang_up, reload, sighup_goes_on, open_start, open_shutdown, choose, schedule,
}
use havok_rust.Program.Runs.{schedule_keeps}

-- Whether a task is behind the shutdown barrier.
abbrev pub is_behind : Pc → Bool
is_behind leaving = true
is_behind finished = true
is_behind _ = false

abbrev pub is_main_behind : MainPc → Bool
is_main_behind MainPc.joining = true
is_main_behind MainPc.finished = true
is_main_behind _ = false

-- Nobody is behind the shutdown barrier; the Ctrl-C handler does not wait at it.
pub record NobodyEnds (w : World) : Type 0 where
  pub main : is_main_behind w.main ≡ false
  pub log : is_behind w.log ≡ false
  pub ctrl_c : waits_shutdown w.ctrl_c ≡ 0
  pub sighup : is_behind w.sighup ≡ false
  pub server : is_behind w.server ≡ false
  pub dns : is_behind w.dns ≡ false

pub start-NobodyEnds : NobodyEnds start
start-NobodyEnds = record {
  main = refl;
  log = refl;
  ctrl_c = refl;
  sighup = refl;
  server = refl;
  dns = refl;
}

hear_behind : (pc : Pc) (inbox : Inbox) → is_behind pc ≡ false → is_behind (hear pc inbox).0 ≡ false
unfolding hear
hear_behind pc inbox h = ground arith

log_step_behind :
    (pc : Pc) (inbox : Inbox) → is_behind pc ≡ false → is_behind (log_step pc inbox).0 ≡ false
unfolding log_step
log_step_behind pc inbox h = ground (arith, hear_behind pc inbox)

sighup_step_behind :
    (pc : Pc) (inbox : Inbox) → is_behind pc ≡ false → is_behind (sighup_step pc inbox).0 ≡ false
unfolding sighup_step
sighup_step_behind pc inbox h = ground (arith, hear_behind pc inbox)

thread_step_behind :
    (pc : Pc) (inbox : Inbox) → is_behind pc ≡ false → is_behind (thread_step pc inbox).0 ≡ false
unfolding thread_step
thread_step_behind pc inbox h = ground (arith, hear_behind pc inbox)

one_at_most : (pc : Pc) → waits_shutdown pc ≤ 1
one_at_most pc = ground arith

main_one_at_most : (pc : MainPc) → main_waits_shutdown pc ≤ 1
main_one_at_most pc = ground arith

-- The main task and four others can wait at the barrier, and no more.
five_at_most : (w : World) → NobodyEnds w → shutdown_count w ≤ 5
five_at_most w v = omega (
  arith,
  main_one_at_most w.main,
  one_at_most w.log,
  v.ctrl_c,
  one_at_most w.sighup,
  one_at_most w.server,
  one_at_most w.dns,
)

module _ (tokio : Tokio) (settings : Settings) where
  pub never_opens :
      (w : World) → NobodyEnds w → tokio.barrier_opens thread_count (shutdown_count w) ≡ false
  never_opens w v = elim (Bool-cases (tokio.barrier_opens thread_count (shutdown_count w))) [
    | inl opens ↦ absurd (
        omega
          (arith, tokio.barrier_opens_full thread_count (shutdown_count w) opens, five_at_most w v))
    | inr stays ↦ stays
  ]

  main_hears-NobodyEnds :
      (inbox : Inbox) (w : World) → NobodyEnds w → NobodyEnds (main_hears inbox w)
  unfolding main_hears
  main_hears-NobodyEnds inbox w v = ground arith

  main_step-NobodyEnds :
      (pc : MainPc) (w : World)
      → pc ≡ w.main
      → NobodyEnds w
      → NobodyEnds (main_step tokio settings pc w)
  unfolding main_step post_all
  main_step-NobodyEnds pc w e v = ground (arith, main_hears-NobodyEnds w.main_inbox w)

  sighup_goes_on-NobodyEnds :
      (pc : Pc) (w : World)
      → is_behind pc ≡ false
      → NobodyEnds w
      → NobodyEnds (sighup_goes_on tokio settings pc w)
  unfolding sighup_goes_on reload
  sighup_goes_on-NobodyEnds pc w h v = ground (arith, sighup_step_behind pc w.sighup_inbox)

  on_interrupt-NobodyEnds :
      (pc : Pc) (w : World) → NobodyEnds w → NobodyEnds (on_interrupt tokio settings pc w)
  unfolding on_interrupt post_all
  on_interrupt-NobodyEnds pc w v = ground arith

  on_hang_up-NobodyEnds :
      (pc : Pc) (conf : Option Settings) (w : World)
      → NobodyEnds w
      → NobodyEnds (on_hang_up tokio settings pc conf w)
  unfolding on_hang_up post_all
  on_hang_up-NobodyEnds pc conf w v = ground arith

  open_start-NobodyEnds : (w : World) → NobodyEnds w → NobodyEnds (open_start tokio settings w)
  unfolding open_start
  open_start-NobodyEnds w v = ground arith

  pub choose-NobodyEnds :
      (w : World) (c : Choice) → NobodyEnds w → NobodyEnds (choose tokio settings w c)
  unfolding choose
  choose-NobodyEnds w Choice.main_goes v = main_step-NobodyEnds w.main w refl v
  choose-NobodyEnds w Choice.log_goes v = ground (arith, log_step_behind w.log w.log_inbox)
  choose-NobodyEnds w Choice.sighup_goes v = sighup_goes_on-NobodyEnds w.sighup w v.sighup v
  choose-NobodyEnds w Choice.server_goes v =
      ground (arith, thread_step_behind w.server w.server_inbox)
  choose-NobodyEnds w Choice.dns_goes v = ground (arith, thread_step_behind w.dns w.dns_inbox)
  choose-NobodyEnds w Choice.interrupt v = on_interrupt-NobodyEnds w.ctrl_c w v
  choose-NobodyEnds w (Choice.hang_up conf) v = on_hang_up-NobodyEnds w.sighup conf w v
  choose-NobodyEnds w Choice.server_fails v = ground arith
  choose-NobodyEnds w Choice.start_opens v = open_start-NobodyEnds w v
  choose-NobodyEnds w Choice.shutdown_opens v = rw (never_opens w v, open_shutdown) v

  -- Whatever happens from the start on, in any order: the main task never finishes, and no task gets behind
  -- the shutdown barrier, which is of six while at most five tasks wait at it.
  pub schedule_never_finishes :
      (cs : List Choice)
      → ((schedule tokio settings start cs).main ≢ MainPc.finished)
        × NobodyEnds (schedule tokio settings start cs)
  schedule_never_finishes cs =
      let v =
        schedule_keeps tokio settings NobodyEnds choose-NobodyEnds start cs start-NobodyEnds in
      ((λ e. cc (rw e at v.main)), v)
