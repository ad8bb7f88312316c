-- ===== src/Program/Barriers.antt =====
-- The start barrier of src/main.rs opens only when all five are there.
use havok_rust.Base.{◌≤◌, ◌≡◌, arith}
use havok_rust.Program.State.{Pc, at_start, MainPc, World}
use havok_rust.Program.{waits_start, main_waits_start, start_count}

-- The five tasks of the start barrier wait at it.
pub record AllWait (w : World) : Type 0 where
  pub main : w.main ≡ MainPc.at_start
  pub log : w.log ≡ at_start
  pub sighup : w.sighup ≡ at_start
  pub server : w.server ≡ at_start
  pub dns : w.dns ≡ at_start

one_at_most : (pc : Pc) → waits_start pc ≤ 1
one_at_most pc = ground arith

main_one_at_most : (pc : MainPc) → main_waits_start pc ≤ 1
main_one_at_most pc = ground arith

waits : (pc : Pc) → 1 ≤ waits_start pc → pc ≡ at_start
waits pc h = ground arith

main_waits : (pc : MainPc) → 1 ≤ main_waits_start pc → pc ≡ MainPc.at_start
main_waits pc h = ground arith

module _ (w : World) (idle : waits_start w.ctrl_c ≡ 0) (full : 5 ≤ start_count w) where
  ruleset ones = (arith, one_at_most, main_one_at_most)

  pub start-AllWait : AllWait w
  start-AllWait =
      let (m, l, s, v, d) = counts in
      record {
        main = main_waits w.main m;
        log = waits w.log l;
        sighup = waits w.sighup s;
        server = waits w.server v;
        dns = waits w.dns d;
      }
    where
      counts :
          (1 ≤ main_waits_start w.main)
          × (1 ≤ waits_start w.log)
          × (1 ≤ waits_start w.sighup)
          × (1 ≤ waits_start w.server)
          × (1 ≤ waits_start w.dns)
      counts = omega (
        arith,
        idle,
        full,
        main_one_at_most w.main,
        one_at_most w.log,
        one_at_most w.sighup,
        one_at_most w.server,
        one_at_most w.dns,
      )
