-- ===== src/Rx/InOrder.antt =====
-- npu_wifi_rx.c: the frame that was expected goes out, and after it those that waited for it.
use mathlib.Core.List.{append_assoc}
use clanker_npu.Prelude.{ℕ, ◌≤◌, ◌≡◌, refl, ap, ◌∙◌, arith, true, List, [], ◌∷◌, ◌++◌, some, leb}
use clanker_npu.Ba.{Node, Entry, frame_of, wifi_cnt_inc, pkt_enqueue_bridge}
use clanker_npu.Ba.Chains.{Mpdu, Queue}
use clanker_npu.Ba.Moved.{rounds, all_frames}
use clanker_npu.Ba.Flush.{last_sn}
use clanker_npu.Ba.Scan.{Follows, Gap, ba_seq_scan-Scanned}
use clanker_npu.Ba.Session.{take_last}
use clanker_npu.Ba.Session.Restart.{scanned_last, take_last-Moved}
use clanker_npu.Rx.{Rx, count, send, take_in_order}

-- The state with the frame handed on.
abbrev handed_on : Rx → Node → ℕ → Rx
handed_on rx pn band = send (count rx band 52) rx.entry.band pn

handed_on-nodes :
    (rx : Rx) (pn : Node) (band : ℕ) → (handed_on rx pn band).world.nodes ≡ rx.world.nodes
unfolding send count wifi_cnt_inc pkt_enqueue_bridge
handed_on-nodes rx pn band = refl

handed_on-sent :
    (rx : Rx) (pn : Node) (band : ℕ)
    → (handed_on rx pn band).world.sent ≡ rx.world.sent ++ frame_of rx.entry.band pn.bss pn ∷ []
unfolding send count wifi_cnt_inc pkt_enqueue_bridge
handed_on-sent rx pn band = refl

handed_on-freed : (rx : Rx) (pn : Node) (band : ℕ) → (handed_on rx pn band).freed ≡ rx.freed
unfolding send count
handed_on-freed rx pn band = refl

-- What went out, and what the session is after it.
pub record Caught (rx : Rx) (pn : Node) (ms : List Mpdu) (out : Rx) : Type 0 where
  pub gone : List Mpdu
  pub left : List Mpdu
  pub split : ms ≡ gone ++ left
  pub follows : Follows pn.sn gone
  pub gap : Gap (last_sn pn.sn gone) left
  pub sent :
      out.world.sent
      ≡ rx.world.sent ++ frame_of rx.entry.band pn.bss pn ∷ all_frames rx.entry.band gone
  pub held : Queue out.world.nodes out.entry.head left
  pub last : out.entry.last ≡ last_sn pn.sn gone
  pub closed : out.entry.msdu ≡ 0
  pub freed : out.freed ≡ rx.freed

-- A session that holds the MPDUs ms, with fuel for each node, and the last MSDU of the frame that was
-- expected: the frame goes out, then in order those of ms whose numbers go on from it without a gap.
-- The rest is still held, the last number that went out is the last given out, the A-MSDU is closed,
-- and no buffer is given back.
pub take_in_order-Caught :
    (fuel : ℕ) (rx : Rx) (pn : Node) (band : ℕ) (ms : List Mpdu)
    → Queue rx.world.nodes rx.entry.head ms
    → rounds ms ≤ fuel
    → pn.amsdu ≤ 1
    → (out : Rx) × ((take_in_order fuel rx pn band ≡ some out) × Caught rx pn ms out)
unfolding take_in_order
take_in_order-Caught fuel rx pn band ms q h whole =
    let e : Entry = record (rx.entry) { last = pn.sn } in
    let w = (handed_on rx pn band).world in
    let held : Queue w.nodes e.head ms = rw (handed_on-nodes rx pn band) q in
    let (r, (u, (g, (scan, s)))) = ba_seq_scan-Scanned fuel w e pn.sn ms held h in
    let test : leb pn.amsdu 1 ≡ true = ground arith in
    let after = take_last-Moved r s.moved in
    (
      record (handed_on rx pn band) {
        world = u;
        entry = record (take_last g r) { msdu = 0; amsdu = pn.amsdu; flag = 0; ref = pn.sn };
      },
      (
        rw (take_in_order, test, scan) refl,
        record {
          gone = s.gone;
          left = s.left;
          split = s.split;
          follows = s.follows;
          gap = s.gap;
          sent =
              after.sent
              ∙ (ap (λ x. x ++ all_frames rx.entry.band s.gone) (handed_on-sent rx pn band)
                  ∙ append_assoc rx.world.sent (frame_of rx.entry.band pn.bss pn ∷ [])
                      (all_frames rx.entry.band s.gone));
          held = after.held;
          last = scanned_last g pn.sn r s.gone s.follows s.same_last s.value;
          closed = refl;
          freed = handed_on-freed rx pn band;
        },
      ),
    )
