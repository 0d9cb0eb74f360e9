-- ===== src/Dba/Tests.antt =====
-- A table with two ONUs, a report ring with three pairs, and a map of two bursts.
use clanker_npu.Prelude.{
  ℕ, ◌+◌, ◌<◌, ◌≡◌, ◌^◌, ◌*◌, refl, arith, List, [], ◌∷◌, true, false, if◌then◌else◌, ◌==◌,
  replicate, ltb,
}
use clanker_npu.Dba.{
  TcontCfg, Tcont, Rpt, Alloc, valid, dba_aid_conv, dba_tcont_init, map_of, count_up,
}
use clanker_npu.Dba.Table.{dba_tcont_init-own}
use clanker_npu.Dba.Mail.{onu_state, DbaMail, Dba}
use clanker_npu.Dba.Reports.{Fttr, dba_rpt_drain}
use clanker_npu.Dba.Drain.{Drained, dba_rpt_drain-Drained}
use clanker_npu.Dba.Sort.{gather}
use clanker_npu.Dba.Gather.{Gathered, gather-Gathered}
use clanker_npu.Dba.Bwmap.{Bwmap, Call, build}
use clanker_npu.Dba.Ordered.{Ordered, need, build-Ordered}
use clanker_npu.Dba.Budget.{Budget, Burst, dba_budget_calc}
use clanker_npu.Dba.Shares.{fec_onus, active, all_bytes, all_shares, onu_bytes, guaranteed}
use clanker_npu.Dba.Share.{Shared, dba_budget_calc-Shared}

abbrev unset : TcontCfg
unset = record { flags = 0; alloc_id = 0; dba_type = 0; fix_bw = 0; assure_bw = 0; max_bw = 0 }

abbrev blank : Tcont
blank = record { changed = false; mode = 0; olt_mode = 0; cfg = λ i. unset }

dba_tcont_init-own_example :
    dba_aid_conv ((dba_tcont_init blank 2).cfg 93).alloc_id 0 (dba_tcont_init blank 2).mode 2 ≡ 93
dba_tcont_init-own_example = dba_tcont_init-own blank 2 93 (omega arith)

-- The place 0 has a fixed grant, 32 has an assured one, 64 takes from the rest.
abbrev grants : ℕ → TcontCfg
grants i =
    if i == 0
    then record { flags = 3; alloc_id = 0; dba_type = 1; fix_bw = 90; assure_bw = 0; max_bw = 0 }
    else if i == 32
    then record {
      flags = 3;
      alloc_id = 256;
      dba_type = 3;
      fix_bw = 0;
      assure_bw = 500;
      max_bw = 9000;
    }
    else if i == 64
    then record {
      flags = 1;
      alloc_id = 512;
      dba_type = 4;
      fix_bw = 0;
      assure_bw = 0;
      max_bw = 19340;
    }
    else unset

abbrev no_report : Rpt
no_report = record { non_idle = 0; bwmap_byte = 0; dbru = 0 }

abbrev alloc : ℕ → ℕ → Alloc
alloc bw i = record {
  cfg = grants i;
  ring_idx = 0;
  step_cnt = 0;
  grow_cnt = 0;
  hold_cnt = 0;
  ring = λ k. no_report;
  cur_bw = bw;
  ref_dbru = 0;
  idle_avg = 0;
  state = 0;
}

-- All T-CONTs of a fresh table, made valid.
abbrev configured : Tcont
configured =
    let fresh = dba_tcont_init blank 0 in
    record fresh { cfg = λ i. record (fresh.cfg i) { flags = 3 } }

abbrev host : Dba
host = record {
  tcont = configured;
  ctx = alloc 0;
  print_en = 0;
  print_no_idle_en = 0;
  clean_no_idle = 0;
  get_timer_en = 1;
  do_timer_en = 1;
  sw_bwmap_test = 0;
  burst_ovh = 46;
  single_onu_en = 1;
  new_en = 1;
  onu_tx_burst = λ i. 0;
  regs = λ i. 0;
  printed = [];
}

-- ONU 5 goes off.
abbrev off : DbaMail
off = record {
  alloc_id = 0;
  fix_band = 0;
  max_band = 0;
  assure_band = 0;
  func_id = onu_state;
  get_timer_en = 0;
  do_timer_en = 0;
  enable = 0;
  onu_id = 5;
  state = 0;
  sw_bwmap_test = 0;
  dba_type = 0;
  valid = 0;
  fec = 0;
  tcont_id = 0;
  tcont_map_mode = 0;
  reg = 0;
  reg_val = 0;
  olt_mode = 0;
  all_band_to_single_onu = 0;
}

abbrev fttr : Fttr
fttr = record {
  reports = λ i. (
    record { non_idle = i; bwmap_byte = 10; word = 5 * 2 ^ 15 + i },
    record { non_idle = i; bwmap_byte = 20; word = 261 * 2 ^ 15 + i },
  );
  last = 3;
  ridx = 2 * 2 ^ 16;
  pending = λ k. if ltb k 3 then 3 else 0;
}

dba_rpt_drain-Drained_example : Drained 0 fttr (alloc 0) 80 (dba_rpt_drain 0 1 fttr (alloc 0))
dba_rpt_drain-Drained_example = dba_rpt_drain-Drained 0 1 fttr (alloc 0) (omega arith)

abbrev wanted : ℕ → ℕ
wanted i = if i == 4 then 900 else if i == 7 then 100 else 500

gather-Gathered_example :
    Gathered wanted (4 ∷ 7 ∷ 9 ∷ []) (gather wanted (replicate 128 0) (4 ∷ 7 ∷ 9 ∷ []) 0)
gather-Gathered_example =
    gather-Gathered wanted (4 ∷ 7 ∷ 9 ∷ []) (omega arith)
      (omega arith, (omega arith, (omega arith, tt)))

abbrev map : Bwmap
map = record {
  ctrl = 0;
  start = 0;
  stop = 0;
  pos = 0;
  left = 3;
  ovh = 46;
  olt_mode = 0;
  log_en = true;
  written = [];
  printed = [];
}

abbrev calls : List Call
calls =
    record { idx = 0; fec = true; slot = 0; onu = 0 }
    ∷ record { idx = 32; fec = true; slot = 1; onu = 0 }
    ∷ record { idx = 5; fec = false; slot = 4; onu = 5 }
    ∷ []

calls_fit : 0 + need (alloc 90) 46 calls < 2 ^ 16
unfolding need
calls_fit = omega arith

nothing_written : Ordered 0 [] 0
unfolding Ordered
nothing_written = omega arith

build-Ordered_example :
    Ordered 0 (build (alloc 90) map calls).written (build (alloc 90) map calls).pos
build-Ordered_example = build-Ordered calls (alloc 90) map calls_fit nothing_written

abbrev burst : Burst
burst = record { ovh = 46; dual = false; act_onus = 1 }

abbrev budget : Budget
budget = record {
  total = 0;
  remain = 0;
  cnt = 0;
  share = 0;
  demand = 0;
  over_share = 0;
  left = 0;
  over_assure = 0;
}

bytes_fit : all_bytes (map_of 0) (alloc 0) (count_up 0 32) < 2 ^ 31
unfolding all_bytes onu_bytes guaranteed count_up
bytes_fit = omega arith

dba_budget_calc-Shared_example :
    Shared blank burst
      (fec_onus (alloc 0) (count_up 0 32))
      (active (map_of 0) (alloc 0) (count_up 0 32))
      (all_bytes (map_of 0) (alloc 0) (count_up 0 32))
      (all_shares (map_of 0) (alloc 0) (count_up 0 32))
      (dba_budget_calc blank burst (alloc 0) budget).0
dba_budget_calc-Shared_example =
    dba_budget_calc-Shared blank burst (alloc 0) budget refl refl (omega arith) bytes_fit
