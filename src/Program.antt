-- ===== src/Program.antt =====
-- src/main.rs: the main task and the five tasks that it spawns, with what they do to the control channel and
-- the two barriers in `do_log_thread`, `log_thread`, `do_server_thread` and `do_dns_lookup_thread`. One step
-- is one task going on to its next wait, and a schedule is any sequence of steps. What the tasks do beside
-- that is modelled in Logging, Server and Dns.
pub mod Barriers
pub mod Inboxes
pub mod Prepare
pub mod Reload
pub mod Runs
pub mod Shutdown
pub mod Startup
pub mod State
use havok_rust.Base.{
  ℕ, suc, ◌+◌, ◌≤◌, ◌≡◌, Bool, true, false, not, ◌&&◌, List, [], ◌∷◌, ◌++◌, Option, none, some,
  length, leb, if◌then◌else◌,
}
use havok_rust.Settings.{Settings, ControlSignal, reconfigure, shutdown}
use havok_rust.Program.State.{
  Tokio, Pc, unborn, born, locking, at_start, settling, running, reloading, at_shutdown, leaving,
  finished, panicked, Task, log_task, ctrl_c_task, sighup_task, server_task, dns_task, MainPc,
  spawn_log, spawn_ctrl_c, spawn_sighup, spawn_server, spawn_dns, sending, checking, filling,
  joining, exited, Inbox, closed, queued, lagged, control_capacity, World, Choice, main_goes,
  log_goes, sighup_goes, server_goes, dns_goes, interrupt, hang_up, server_fails, start_opens,
  shutdown_opens, thread_count, start_size, start, post, post_all, hear, log_step, sighup_step,
  thread_step,
}

-- `log_thread` runs with `LOGGER` read.
abbrev pub log_readers : Pc → ℕ
log_readers at_start = 1
log_readers running = 1
log_readers at_shutdown = 1
log_readers leaving = 1
log_readers _ = 0

-- `handle.is_finished()`
abbrev pub has_ended : Pc → Bool
has_ended finished = true
has_ended panicked = true
has_ended _ = false

-- The handle of the logging task is that of `do_log_thread`, which ends once it has spawned the other.
abbrev pub outer_ended : Pc → Bool
outer_ended unborn = false
outer_ended born = false
outer_ended _ = true

abbrev pub is_finished : Task → World → Bool
is_finished log_task w = outer_ended w.log
is_finished ctrl_c_task w = has_ended w.ctrl_c
is_finished sighup_task w = has_ended w.sighup
is_finished server_task w = has_ended w.server
is_finished dns_task w = has_ended w.dns

abbrev pub handles : List Task
handles = log_task ∷ ctrl_c_task ∷ sighup_task ∷ server_task ∷ dns_task ∷ []

abbrev pub all_finished : List Task → World → Bool
all_finished [] w = true
all_finished (t ∷ ts) w = is_finished t w && all_finished ts w

-- The loop of main behind the start: `ctlrx.recv()`.
unfoldable pub main_hears : Inbox → World → World
main_hears (queued (shutdown ∷ q)) w = record w { main = checking handles; main_inbox = queued q }
main_hears (queued (reconfigure conf ∷ q)) w = record w { main_inbox = queued q }
main_hears lagged w = record w { main = panicked }
main_hears _ w = w

-- Whether something waits at a barrier.
abbrev pub waits_start : Pc → ℕ
waits_start at_start = 1
waits_start _ = 0

abbrev pub waits_shutdown : Pc → ℕ
waits_shutdown at_shutdown = 1
waits_shutdown _ = 0

abbrev pub main_waits_start : MainPc → ℕ
main_waits_start at_start = 1
main_waits_start _ = 0

abbrev pub main_waits_shutdown : MainPc → ℕ
main_waits_shutdown (filling ts) = 1
main_waits_shutdown at_shutdown = 1
main_waits_shutdown _ = 0

abbrev pub begin : Pc → Pc
begin at_start = running
begin pc = pc

abbrev pub begin_server : Pc → Pc
begin_server at_start = settling false
begin_server pc = pc

abbrev pub begin_main : MainPc → MainPc
begin_main at_start = sending
begin_main pc = pc

abbrev pub leave : Pc → Pc
leave at_shutdown = leaving
leave pc = pc

abbrev pub leave_main : MainPc → MainPc
leave_main (filling ts) = checking ts
leave_main at_shutdown = joining
leave_main pc = pc

abbrev pub start_count : World → ℕ
start_count w =
    main_waits_start w.main
    + waits_start w.log
    + waits_start w.ctrl_c
    + waits_start w.sighup
    + waits_start w.server
    + waits_start w.dns

abbrev pub shutdown_count : World → ℕ
shutdown_count w =
    main_waits_shutdown w.main
    + waits_shutdown w.log
    + waits_shutdown w.ctrl_c
    + waits_shutdown w.sighup
    + waits_shutdown w.server
    + waits_shutdown w.dns

-- The process goes on.
abbrev pub is_alive : MainPc → Bool
is_alive finished = false
is_alive panicked = false
is_alive exited = false
is_alive _ = true

module _ (tokio : Tokio) (settings : Settings) where
  -- The main task goes on from where it stands.
  unfoldable pub main_step : MainPc → World → World
  unfolding main_hears post_all
  main_step spawn_log w = record w { main = spawn_ctrl_c; log = born }
  main_step spawn_ctrl_c w = record w { main = spawn_sighup; ctrl_c = born }
  main_step spawn_sighup w = record w {
    main = spawn_server;
    sighup = born;
    sighup_inbox = queued [];
  }
  main_step spawn_server w = record w { main = spawn_dns; server = born }
  main_step spawn_dns w = record w { main = at_start; dns = born }
  main_step sending w = post_all (reconfigure settings) (record w { main = running })
  main_step running w = main_hears w.main_inbox w
  main_step (checking []) w = record w { main = at_shutdown }
  main_step (checking (t ∷ ts)) w = record w {
    main = if is_finished t w then filling ts else checking ts;
  }
  main_step joining w = if all_finished handles w then record w { main = finished } else w
  main_step _ w = w

  -- The first Ctrl-C, and the second; without a handler the process ends at the first.
  unfoldable pub on_interrupt : Pc → World → World
  unfolding post_all
  on_interrupt born w = post_all shutdown (record w { ctrl_c = finished })
  on_interrupt _ w = record w { main = exited }

  -- A SIGHUP while its handler runs: new settings for all, or a panic if they cannot be read. Before the
  -- handler is installed it ends the process.
  unfoldable pub on_hang_up : Pc → Option Settings → World → World
  unfolding post_all
  on_hang_up running (some conf) w = post_all (reconfigure conf) (record w { sighup = reloading })
  on_hang_up running none w = record w { sighup = panicked }
  on_hang_up unborn conf w = record w { main = exited }
  on_hang_up born conf w = record w { main = exited }
  on_hang_up at_start conf w = record w { main = exited }
  on_hang_up _ _ w = w

  -- `Logging::set_debug` returns.
  unfoldable pub reload : World → World
  reload w =
      if tokio.lock_writes (log_readers w.log)
      then record w { sighup = running; reloads = suc w.reloads }
      else w

  unfoldable pub sighup_goes_on : Pc → World → World
  unfolding reload sighup_step
  sighup_goes_on reloading w = reload w
  sighup_goes_on pc w =
      let (pc', inbox) = sighup_step pc w.sighup_inbox in
      record w { sighup = pc'; sighup_inbox = inbox }

  -- The panics of the server that Server.Thread has.
  abbrev pub fails : Pc → Pc
  fails running = panicked
  fails (settling b) = panicked
  fails pc = pc

  unfoldable pub open_start : World → World
  open_start w =
      if tokio.barrier_opens start_size (start_count w)
      then record w {
        main = begin_main w.main;
        log = begin w.log;
        ctrl_c = begin w.ctrl_c;
        sighup = begin w.sighup;
        server = begin_server w.server;
        dns = begin w.dns;
      }
      else w

  unfoldable pub open_shutdown : World → World
  open_shutdown w =
      if tokio.barrier_opens thread_count (shutdown_count w)
      then record w {
        main = leave_main w.main;
        log = leave w.log;
        ctrl_c = leave w.ctrl_c;
        sighup = leave w.sighup;
        server = leave w.server;
        dns = leave w.dns;
      }
      else w

  unfoldable pub choose : World → Choice → World
  unfolding main_step log_step sighup_goes_on thread_step on_interrupt on_hang_up open_start
      open_shutdown
  choose w main_goes = main_step w.main w
  choose w log_goes =
      let (pc, inbox) = log_step w.log w.log_inbox in record w { log = pc; log_inbox = inbox }
  choose w sighup_goes = sighup_goes_on w.sighup w
  choose w server_goes =
      let (pc, inbox) = thread_step w.server w.server_inbox in
      record w { server = pc; server_inbox = inbox }
  choose w dns_goes =
      let (pc, inbox) = thread_step w.dns w.dns_inbox in record w { dns = pc; dns_inbox = inbox }
  choose w interrupt = on_interrupt w.ctrl_c w
  choose w (hang_up conf) = on_hang_up w.sighup conf w
  choose w server_fails = record w { server = fails w.server }
  choose w start_opens = open_start w
  choose w shutdown_opens = open_shutdown w

  -- A choice that is not possible changes nothing.
  unfoldable pub schedule : World → List Choice → World
  unfolding choose
  schedule w [] = w
  schedule w (c ∷ cs) = schedule (if is_alive w.main then choose w c else w) cs
