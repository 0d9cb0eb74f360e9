-- ===== src/Rx/Fast/Agree.antt =====
-- npu_wifi_rx.c: the fast path and kite_classify_pn do the same with a frame that is in order.
use clanker_npu.Prelude.{
  ℕ, suc, ◌≤◌, ◌≡◌, ◌≢◌, sym, ap, ◌∙◌, subst, arith, Bool, true, false, List, [], ◌∷◌, ◌++◌, some,
  if◌then◌else◌, leb, ◌==◌, add32, sub32, u16,
}
use clanker_npu.IdRing.{minus_one}
use clanker_npu.Ba.{Node, Entry, frame_of, wifi_cnt_inc}
use clanker_npu.Ba.Chains.{Mpdu, Queue}
use clanker_npu.Ba.Moved.{rounds, all_frames}
use clanker_npu.Rx.{Rx, Chip, mark}
use clanker_npu.Rx.InOrder.{take_in_order-Caught}
use clanker_npu.Rx.Classify.{kite_classify_pn}
use clanker_npu.Rx.Fast.Steps.{
  fast_path-caught, bridge_exit-tdma, free_refused-freed, classify_in_order, classify_pn_open,
  classify_fast_straight, detour-state, detour-keeps, detour-next, counted-nodes, counted-sent,
}
use clanker_npu.Rx.Fast.Runs.{run_of, After, Caught-After, catch_up-After}
use clanker_npu.Rx.Fast.{
  free_refused, Route, Exit, to_tdma, bridge_exit, takes_detour, kite_classify_fast,
}

-- The two results of one frame: `slow` of kite_classify_pn and `fast` of kite_classify_fast.
pub record Agree (r : Route) (va : ℕ → ℕ) (refuses : Exit → ℕ → Bool) (rx : Rx) (pn : Node)
    (band : ℕ) (ms : List Mpdu) (slow fast : Rx) (exit : Exit) : Type 0 where
  pub same_exit : exit ≡ (bridge_exit r va refuses (frame_of band pn.bss pn)).0
  pub slow_freed : slow.freed ≡ rx.freed
  pub fast_freed : fast.freed ≡ rx.freed ++ (bridge_exit r va refuses (frame_of band pn.bss pn)).1
  pub one_freed : fast.freed ≡ rx.freed ++ (if refuses exit pn.buf then pn.buf ∷ [] else [])
  pub slow_after : After rx pn ms slow
  pub fast_after : After rx pn ms fast
  pub slow_sent :
      slow.world.sent ≡ rx.world.sent ++ frame_of band pn.bss pn ∷ all_frames band (run_of pn.sn ms)
  pub fast_sent : fast.world.sent ≡ rx.world.sent ++ all_frames band (run_of pn.sn ms)

-- A frame that kite_classify_fast keeps to itself, of a station and a session that holds the MPDUs ms,
-- with no further MSDU, fuel for each node, and a descriptor length that the parser stored. Then both
-- functions take the frame. The fast one submits it to the chip with the length and the address that
-- pkt_enqueue_bridge takes when kite_classify_pn calls it; whichever frames an exit refuses, it frees what
-- pkt_enqueue_bridge then frees of the frame: its buffer, once, if the submit is refused, and nothing
-- else. kite_classify_pn frees no buffer outside pkt_enqueue_bridge. After the frame both hand the held
-- MPDUs that go on from it to pkt_enqueue_bridge, in order, leave the others held, and end with the same
-- last number and the A-MSDU closed.
pub kite_classify_fast-Agree :
    (n fuel : ℕ) (c : Chip) (r : Route) (va : ℕ → ℕ) (refuses : Exit → ℕ → Bool) (rx : Rx)
    (pn : Node) (buf_id len band : ℕ) (ms : List Mpdu)
    → Queue rx.world.nodes rx.entry.head ms
    → rounds ms ≤ fuel
    → pn.amsdu ≤ 1
    → pn.wcid ≢ 0
    → pn.len ≡ u16 len
    → takes_detour r rx.entry pn band ≡ false
    → (slow : Rx) × ((fast : Rx) × ((exit : Exit) × ((kite_classify_pn
                (suc n)
                fuel
                c
                rx
                pn
                buf_id
                band
              ≡ some (minus_one, slow))
            × ((kite_classify_fast (suc n) fuel c r va refuses rx pn buf_id len band
                  ≡ some (exit ∷ [], (minus_one, fast)))
                × Agree r va refuses rx pn band ms slow fast exit))))
kite_classify_fast-Agree n fuel c r va refuses rx pn buf_id len band ms q h whole station size
      straight =
    let e : Entry = record rx.entry { band = band } in
    let w = if pn.amsdu == 0 then rx.world else wifi_cnt_inc rx.world band 72 in
    let opened : Rx = record rx { world = w; entry = e } in
    let exit = to_tdma (u16 (sub32 (sub32 len pn.hdr) 2)) (add32 (add32 (va pn.buf) 2) pn.hdr) in
    let given = free_refused (refuses exit pn.buf) rx pn.buf in
    let one : leb pn.amsdu 1 ≡ true = ground (arith, whole) in
    let some_station : (pn.wcid == 0) ≡ false = ground (arith, station) in
    let nodes : w.nodes ≡ rx.world.nodes = counted-nodes rx.world pn band in
    let sent : w.sent ≡ rx.world.sent = counted-sent rx.world pn band in
    let (slow, (run, caught)) =
      take_in_order-Caught fuel opened pn band ms
        (subst (λ (x : ℕ → Node). Queue x rx.entry.head ms) (sym nodes) q) h whole in
    let (after, slow_sent) = Caught-After opened pn ms slow caught in
    let (u, (g, (fast_run, (fast_after, fast_sent)))) = catch_up-After fuel rx given e pn ms q h in
    let bridged = bridge_exit-tdma r va refuses rx.entry pn len band straight size in
    let freed = free_refused-freed (refuses exit pn.buf) rx pn.buf in
    (
      slow,
      (
        record given { world = u; entry = mark g pn 0 },
        (
          exit,
          (
            classify_pn_open (suc n) fuel c rx slow pn buf_id band some_station
                (detour-state r rx.entry pn band straight)
                (classify_in_order n fuel c rx pn band
                    (detour-keeps r rx.entry pn band pn.sn straight)
                    (detour-next r rx.entry pn band straight)
                  ∙ run),
            (
              classify_fast_straight (suc n) fuel c r va refuses rx
                  (record given { world = u; entry = mark g pn 0 }) pn buf_id len band exit
                  some_station straight
                  (fast_path-caught fuel va refuses rx pn len band u g one fast_run),
              record {
                same_exit = sym (ap (λ x. x.0) bridged);
                slow_freed = caught.freed;
                fast_freed = freed ∙ ap (λ x. rx.freed ++ x.1) (sym bridged);
                one_freed = freed;
                slow_after = record { held = after.held; last = after.last; closed = after.closed };
                fast_after = fast_after;
                slow_sent =
                    slow_sent
                    ∙ ap (λ xs. xs ++ frame_of band pn.bss pn ∷ all_frames band (run_of pn.sn ms))
                        sent;
                fast_sent = fast_sent;
              },
            ),
          ),
        ),
      ),
    )
