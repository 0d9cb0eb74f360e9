-- ===== src/HostAdpt/Tests.antt =====
-- HostOut rings at their wrap, with nothing for the host to take.
use clanker_npu.Prelude.{
  ℕ, zero, suc, ◌+◌, ◌<◌, ◌≤◌, ◌≡◌, ◌≢◌, refl, arith, List, [], ◌∷◌, true, false, none, some, ◌==◌,
  if◌then◌else◌, ◌⊎◌, bit, get_or,
}
use clanker_npu.Fwd.{PiNode, Fwd, Submit, pi_cleared, rx_cleared, pinode_ring_size}
use clanker_npu.Fwd.Slots.{slot}
use clanker_npu.Fwd.Ends.{blank, PiHolds}
use clanker_npu.HostAdpt.{Desc, OutRing, HostAdpt, Seg, play, failed, host_out_room, host_out_chain}
use clanker_npu.HostAdpt.Words.{desc_of, host_frame, host_frame-desc_of}
use clanker_npu.HostAdpt.Queue.{HostHolds}
use clanker_npu.HostAdpt.Copies.{copies}
use clanker_npu.HostAdpt.History.{submit, host_take, Turn, Run, run, InOrder, run-TakenInOrder}
use clanker_npu.HostAdpt.Pending.{out_batch, submit_all}
use clanker_npu.HostAdpt.Batch.{host_out_room-exact, host_out-eq-submits}
use clanker_npu.HostAdpt.Steps.{Always}
use clanker_npu.HostAdpt.Chain.{HeadLast, Chained, host_out_chain-Chained, host_out_chain-HeadLast}
use clanker_npu.HostAdpt.Delivery.{Delivered, drain_times, drain_times-Delivered}

-- The slot k has the buffer 65536 + k.
abbrev empty : OutRing
empty = record { desc = λ k. record { w0 = 0; w1 = 0; w2 = 0; dst = 65536 + k }; idx = 510 }

empty-HostHolds : HostHolds 510 empty []
empty-HostHolds = record {
  start_in = omega arith;
  fits = omega arith;
  end_at = refl;
  reads = λ k h. absurd (omega arith);
  ready = λ k h. absurd (omega arith);
  free = λ k h l. refl;
}

abbrev adpt : HostAdpt
adpt = record { tx = empty; rx = empty; debug = true; tri = true; log = [] }

abbrev frame : ℕ → Submit
frame buf = record {
  buf = buf;
  len = 1500;
  wcid = 3;
  amsdu = 1;
  kind = 17;
  orig = 1500;
  is_last = 1;
  info = 25;
}

host_frame-desc_of_example : host_frame (desc_of (frame 7) 65536) ≡ record (frame 7) { buf = 65536 }
host_frame-desc_of_example = host_frame-desc_of (frame 7) 65536 (record {
  len = omega arith;
  wcid = omega arith;
  amsdu = omega arith;
  kind = omega arith;
  orig = omega arith;
  is_last = omega arith;
})

abbrev taken_slot : Desc
taken_slot = record { w0 = 0; w1 = 0; w2 = 0; dst = 70000 }

abbrev turns : List Turn
turns =
    submit (frame 1)
    ∷ submit (frame 2)
    ∷ host_take taken_slot refl
    ∷ submit (frame 3)
    ∷ host_take taken_slot refl
    ∷ []

abbrev start : Run
start = record { adpt = adpt; host = 510; accepted = []; taken = [] }

run-TakenInOrder_example : InOrder 1 (run 1792 1 start turns)
run-TakenInOrder_example =
    run-TakenInOrder turns 1792 1 start (omega arith)
      (record { left = []; held = empty-HostHolds; order = refl })

abbrev frames : List Submit
frames = frame 1 ∷ frame 2 ∷ frame 3 ∷ []

granted : host_out_room false empty 510 3 ≢ 0
granted e =
    absurd (omega (arith, e, host_out_room-exact 510 empty [] 3 empty-HostHolds (omega arith)))

host_out-eq-submits_example :
    submit_all 1792 empty frames
    ≡ some (
      play empty (out_batch 1792 empty none 510 frames),
      copies (out_batch 1792 empty none 510 frames),
    )
host_out-eq-submits_example =
    host_out-eq-submits 1792 510 empty [] frames empty-HostHolds granted (omega arith)

abbrev first_seg : Seg
first_seg = record { src = 9; info = 5; frame = 3200; seg = 1700; fwd_type = 17; last = 0 }

abbrev last_seg : Seg
last_seg = record { src = 10; info = 5; frame = 3200; seg = 1500; fwd_type = 17; last = 1 }

host_out_chain-Chained_example :
    ((0 + 2 < 511)
      × Chained 510 empty []
          (first_seg ∷ last_seg ∷ [])
          (host_out_chain 1792 false empty (first_seg ∷ last_seg ∷ [])))
    ⊎ ((511 ≤ 0 + 2) × (host_out_chain 1792 false empty (first_seg ∷ last_seg ∷ []) ≡ (failed, [])))
host_out_chain-Chained_example =
    host_out_chain-Chained 1792 510 empty [] (first_seg ∷ last_seg ∷ []) empty-HostHolds
      (omega arith)

host_out_chain-HeadLast_example :
    Always
      (HeadLast 510 empty [] (first_seg ∷ last_seg ∷ []))
      empty
      (host_out_chain 1792 false empty (first_seg ∷ last_seg ∷ [])).1
host_out_chain-HeadLast_example =
    host_out_chain-HeadLast 1792 510 empty [] first_seg (last_seg ∷ []) empty-HostHolds
      (omega arith)

abbrev node : ℕ → PiNode
node buf = record { buf = buf; len = 1500; wcid = 3; amsdu = 1; orig = 1500; flags = 71; info = 25 }

abbrev nodes : List PiNode
nodes = node 7 ∷ node 8 ∷ []

abbrev fwd : Fwd
fwd = record {
  pi = record {
    nodes = λ i. if i == 511 then node 7 else if i == 0 then node 8 else pi_cleared 0;
    widx = 1;
    ridx = 511;
  };
  rx = record { nodes = λ i. rx_cleared; widx = 0; ridx = 0 };
  bytes = λ i. 0;
  pkts = λ i. 0;
  submits = [];
  freed = [];
  counts = [];
}

nodes_read : (k : ℕ) → k < 2 → fwd.pi.nodes (slot 512 511 k) ≡ get_or nodes k blank
nodes_read zero h = refl
nodes_read (suc zero) h = refl
nodes_read (suc (suc k)) h = absurd (omega arith)

nodes_ready : (k : ℕ) → k < 2 → bit ((get_or nodes k blank).flags) 0 ≡ 1
nodes_ready zero h = refl
nodes_ready (suc zero) h = refl
nodes_ready (suc (suc k)) h = absurd (omega arith)

two-PiHolds : PiHolds 1 fwd nodes
unfolding pinode_ring_size pi_cleared
two-PiHolds = record {
  start_in = omega arith;
  fits = omega arith;
  end_at = refl;
  reads = nodes_read;
  ready = nodes_ready;
  free = λ k h l. ground (arith, h, l);
}

drain_times-Delivered_example :
    Delivered 1 510 (fwd, adpt) [] nodes [] (drain_times 2 1792 (λ b. b + 4096) 1 (fwd, adpt))
drain_times-Delivered_example =
    drain_times-Delivered nodes 1792 (λ b. b + 4096) 1 510 (fwd, adpt) [] (omega arith) two-PiHolds
      empty-HostHolds (omega arith)
