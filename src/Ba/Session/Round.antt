-- ===== src/Ba/Session/Round.antt =====
-- npu_wifi_ba.c: one round of ba_timeout_entry takes the head and all that may go with it.
use mathlib.Core.List.{append_assoc}
use clanker_npu.Prelude.{
  inl, inr, ℕ, ◌^◌, ◌≤◌, ◌<◌, ◌≡◌, refl, ap, sym, ◌∙◌, arith, List, [], ◌∷◌, ◌++◌, some, length,
  length-append, ◌==◌, Bool-cases, subst,
}
use clanker_npu.Ba.{Node, Entry, World, wifi_cnt_inc, no_sn}
use clanker_npu.Ba.Chains.{Mpdu, Queue}
use clanker_npu.Ba.Moved.{Moved, rounds}
use clanker_npu.Ba.Indicate.{AtOrBehind, StopsBehind, ba_indicate_le_seq-Indicated}
use clanker_npu.Ba.Scan.{ba_seq_scan-Scanned}
use clanker_npu.Ba.Session.{take_last, timeout_round}
use clanker_npu.Ba.Append.{rounds-append, Moved-append}

-- Moved does not read the last number, nor the counters.
pub take_last-Moved :
    {w v : World} {e f : Entry} {gone left : List Mpdu} (r : ℕ)
    → Moved w e gone left v f
    → Moved w e gone left (wifi_cnt_inc v (take_last f r).band 200) (take_last f r)
unfolding wifi_cnt_inc
take_last-Moved {w} {v} {e} {f} {gone} {left} r a = elim (Bool-cases (r == no_sn)) [
  | inl same ↦ rw same (record {
    held = a.held;
    sent = a.sent;
    pools = a.pools;
    band = a.band;
    win = a.win;
    count = a.count;
  })
  | inr other ↦ rw other (record {
    held = a.held;
    sent = a.sent;
    pools = a.pools;
    band = a.band;
    win = a.win;
    count = a.count;
  })
]

pub record Timed (w : World) (e : Entry) (ms : List Mpdu) (v : World) (f : Entry) : Type 0 where
  pub gone : List Mpdu
  pub left : List Mpdu
  pub split : ms ≡ gone ++ left
  pub moved : Moved w e gone left v f

takes_one :
    (seq : ℕ) (m : Mpdu) (ms gone left : List Mpdu)
    → seq ≡ m.node.sn
    → m.node.sn < 2 ^ 16
    → m ∷ ms ≡ gone ++ left
    → StopsBehind seq left
    → 1 ≤ length gone
takes_one seq m ms [] left e small split stops =
    let at_head : ¬ AtOrBehind seq m.node.sn = subst (StopsBehind seq) (sym split) stops in
    absurd (at_head (inl (ground arith)))
takes_one seq m ms (x ∷ xs) left e small split stops = omega arith

-- One round takes at least the head.
pub timeout_round-Timed :
    (fuel : ℕ) (w : World) (e : Entry) (m : Mpdu) (ms : List Mpdu)
    → Queue w.nodes e.head (m ∷ ms)
    → m.node.sn < 2 ^ 16
    → rounds (m ∷ ms) ≤ fuel
    → (v : World) × ((f : Entry) × ((timeout_round fuel w e ≡ some (v, f))
          × ((t : Timed w e (m ∷ ms) v f) × (1 ≤ length t.gone))))
unfolding timeout_round
timeout_round-Timed fuel w e m ms q small h =
    let sn = (w.nodes e.head).sn in
    let (v, (f, (run, i))) = ba_indicate_le_seq-Indicated fuel w e sn (m ∷ ms) q h in
    let mark : Entry = record f { last = sn } in
    let moved : Moved w e i.gone i.left v mark = record {
      held = i.moved.held;
      sent = i.moved.sent;
      pools = i.moved.pools;
      band = i.moved.band;
      win = i.moved.win;
      count = i.moved.count;
    } in
    let (r, (u, (g, (scan, s)))) =
      ba_seq_scan-Scanned fuel v mark sn i.left i.moved.held
        (omega (arith, h, ap rounds i.split, rounds-append i.gone i.left)) in
    (
      wifi_cnt_inc u (take_last g r).band 200,
      (
        take_last g r,
        (
          rw (timeout_round, run, scan) refl,
          (
            record {
              gone = i.gone ++ s.gone;
              left = s.left;
              split =
                  i.split
                  ∙ (ap (λ (x : List Mpdu). i.gone ++ x) s.split
                      ∙ sym (append_assoc i.gone s.gone s.left));
              moved =
                  take_last-Moved r
                    (Moved-append w e i.gone s.gone i.left s.left v u mark g moved s.moved);
            },
            (omega (
              arith,
              length-append i.gone s.gone,
              takes_one sn m ms i.gone i.left (ap (λ (n : Node). n.sn) q.1.1.0) small i.split
                  i.stops,
            )),
          ),
        ),
      ),
    )
