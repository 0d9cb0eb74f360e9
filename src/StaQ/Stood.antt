-- ===== src/StaQ/Stood.antt =====
-- npu_sta_q.c: what sta_q_decide drops, as a statement on the calls for one station so far.
use clanker_npu.Prelude.{
  ℕ, ◌*◌, ◌^◌, ◌≤◌, ◌<◌, ◌≡◌, ◌≢◌, ◌⊎◌, true, false, List, [], ◌∷◌, sub32, add32, neg32, u32,
  get_or,
}
use clanker_npu.StaQ.{
  StaQ, Settings, Aqm, Probe, Verdict, sta_q_delay, queue_depth, standing, aqm_verdict, idle_aqm,
  idle_probe,
}

-- What a call of sta_q_decide below the hard limit finds: the frames in the chip, the probe, the time
-- and the length.
pub record Call : Type 0 where
  pub depth : ℕ
  pub probe : Probe
  pub now : ℕ
  pub len : ℕ

-- The queue stands above its target: by the count of frames, or by the delay of enough frames.
abbrev pub Stands : Settings → Call → Type 0
Stands c k =
    ((c.target ≢ 0) × (c.target ≤ k.depth))
    ⊎ ((c.delay ≢ 0)
        × ((c.min_q ≤ k.depth) × (c.delay ≤ u32 ((sta_q_delay k.probe k.now).0 * 2 ^ 16))))

-- The verdict of a call on a drop state, and the drop state after the calls, the last one first.
abbrev pub verdict : Settings → Aqm → Call → Verdict × Aqm
verdict c a k = aqm_verdict c (standing c k.depth k.probe k.now).0 a k.now k.len

unfoldable pub aqm_after : Settings → List Call → Aqm
aqm_after c [] = idle_aqm
aqm_after c (k ∷ ks) = (verdict c (aqm_after c ks) k).1

-- The last call, if there is one, did not find the queue standing.
unfoldable pub Quiet : Settings → List Call → Type 0
Quiet c [] = Unit
Quiet c (k ∷ ks) = ¬ Stands c k

-- All calls from the one at time t on found the queue standing, and the one before that did not.
unfoldable pub StoodSince : Settings → ℕ → List Call → Type 0
StoodSince c t [] = ⊥
StoodSince c t (k ∷ ks) = Stands c k × (StoodSince c t ks ⊎ (Quiet c ks × (t ≡ k.now)))

-- The drop state tells since when the queue has stood.
abbrev Tracks : Settings → List Call → Aqm → Type 0
Tracks c ks a =
    ((a.is_above ≡ false) × Quiet c ks)
    ⊎ ((a.is_above ≡ true) × ((t : ℕ) × (StoodSince c t ks × (a.above ≡ add32 t c.interval))))

-- The conditions on the calls so far under which the next one loses its frame.
pub record Loses (c : Settings) (ks : List Call) (k : Call) : Type 0 where
  pub stands : Stands c k
  pub from : ℕ
  pub since : StoodSince c from ks
  pub long_enough : neg32 (sub32 k.now (add32 from c.interval)) ≡ false
  pub not_small : c.small < k.len
  pub due : (aqm_after c ks).dropping ≡ true → neg32 (sub32 k.now (aqm_after c ks).next) ≡ false

-- The call that sta_q_decide makes of the state of a station.
abbrev pub call_of : StaQ → ℕ → ℕ → ℕ → Call
call_of q sta now len = record {
  depth = queue_depth q sta;
  probe = get_or q.probe sta idle_probe;
  now = now;
  len = len;
}
