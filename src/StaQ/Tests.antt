-- ===== src/StaQ/Tests.antt =====
-- Drop decisions and frame counts at concrete inputs.
use clanker_npu.Prelude.{
  ℕ, suc, ◌≡◌, ◌≢◌, refl, arith, true, false, List, [], inl, inr, ◌∷◌, zero, get_or, replicate,
  length-replicate,
}
use clanker_npu.StaQ.{
  StaQ, Cfg, Settings, Aqm, drop_aqm, fault, sta_q_none, sta_q_init, sta_q_decide, sta_q_sent_tok,
  sta_q_done_tok, queue_depth, aqm_verdict, standing, standing_verdict, drop_standing, idle_aqm,
  idle_probe,
}
use clanker_npu.StaQ.Count.{tokens_of}
use clanker_npu.StaQ.Decide.{AqmValid, AllValid, Drops, sta_q_decide-total, aqm_verdict-iff-Drops}
use clanker_npu.StaQ.Stood.{Call, StoodSince, Quiet, aqm_after, Loses, call_of}
use clanker_npu.StaQ.Rate.{Spaced, aqm_verdict-Spaced}
use clanker_npu.StaQ.History.{sends, reports, here, next, queue_depth-after, get_or-replicate_in}

abbrev codel : Settings
codel = record { limit = 2; target = 1; interval = 72000; delay = 7200; min_q = 64; small = 256 }

abbrev cfg : Cfg
cfg = record { on = true; settings = codel; host = false }

-- Two stations; the second has two frames in the chip.
abbrev tables : StaQ
tables = record {
  driver = false;
  settings = codel;
  limit_drops = 4;
  aqm_drops = 0;
  mapped = true;
  tokens = 1 ∷ 1 ∷ [];
  sent = 0 ∷ 1 ∷ [];
  sent_host = replicate 1024 0;
  done = 0 ∷ 0xFFFF ∷ [];
  aqm = idle_aqm ∷ idle_aqm ∷ [];
  aqm_host = [];
  probe = idle_probe ∷ idle_probe ∷ [];
}

-- The count of sent frames has wrapped.
depth_wraps : queue_depth tables 1 ≡ 2
unfolding queue_depth
depth_wraps = refl

idle-AqmValid : AqmValid idle_aqm
idle-AqmValid = record { count_in = omega arith; dropped = λ e. cc }

tables-AllValid : AllValid tables
tables-AllValid = record { wire = wire; host = λ sta. idle-AqmValid }
  where
    wire : (sta : ℕ) → AqmValid (get_or tables.aqm sta idle_aqm)
    wire zero = idle-AqmValid
    wire (suc zero) = idle-AqmValid
    wire (suc (suc sta)) = idle-AqmValid

sta_q_decide-total_example :
    ((sta_q_decide cfg tables 1 5000 1500).0 ≢ fault)
    × AllValid (sta_q_decide cfg tables 1 5000 1500).1
sta_q_decide-total_example = sta_q_decide-total cfg tables 1 5000 1500 tables-AllValid

-- A queue that has stood since 1000, with four drops behind it.
abbrev stood : Aqm
stood = record { above = 1000; next = 5000; count = 4; last = 1; is_above = true; dropping = true }

stood-AqmValid : AqmValid stood
stood-AqmValid = record { count_in = omega arith; dropped = λ e. omega arith }

stood-Drops : Drops codel true stood 6000 1500
stood-Drops = record {
  stands = refl;
  stood = refl;
  long_enough = refl;
  not_small = omega arith;
  due = λ e. refl;
}

drops_now : (aqm_verdict codel true stood 6000 1500).0 ≡ drop_aqm
drops_now = (aqm_verdict-iff-Drops codel true stood 6000 1500 stood-AqmValid).1 stood-Drops

-- Two calls for station 1 found two frames in the chip, at 1000 and 50000; its drop state is what they
-- left, and the one at 80000 loses its frame.
abbrev call_at : ℕ → Call
call_at now = record { depth = 2; probe = idle_probe; now = now; len = 1500 }

abbrev calls : List Call
calls = call_at 50000 ∷ call_at 1000 ∷ []

abbrev waited : StaQ
waited = record tables { aqm = idle_aqm ∷ aqm_after codel calls ∷ [] }

waited-Loses : Loses codel calls (call_of waited 1 80000 1500)
unfolding queue_depth StoodSince Quiet aqm_after aqm_verdict standing standing_verdict drop_standing
waited-Loses = record {
  stands = inl (omega arith, omega arith);
  from = 1000;
  since = (inl (omega arith, omega arith), inl (inl (omega arith, omega arith), inr (tt, refl)));
  long_enough = refl;
  not_small = omega arith;
  due = λ e. absurd cc;
}

aqm_verdict-Spaced_example : Spaced codel stood 6000 (aqm_verdict codel true stood 6000 1500).1
aqm_verdict-Spaced_example = aqm_verdict-Spaced codel true stood 6000 1500 stood-AqmValid drops_now

-- Token 3 goes out with a frame of station 7, and is reported twice.
queue_depth-after_example :
    let fresh = sta_q_init 0x3E800000 720 tables in
    let after = sta_q_done_tok (sta_q_done_tok (sta_q_sent_tok cfg fresh 3 7 99000) 3 5) 3 6 in
    queue_depth after 7 ≡ tokens_of 7 after.tokens
unfolding sta_q_init
queue_depth-after_example =
    queue_depth-after 0x3E800000 720 tables _ 7 (λ e. omega (arith, e)) (length-replicate 1024 0)
      (next
        (next
          (next here
            (sends cfg 3 7 99000 (λ e. cc) (get_or-replicate_in 13312 sta_q_none 3 (omega arith))))
          (reports 3 5))
        (reports 3 6))
      (omega arith)
