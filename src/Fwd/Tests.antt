-- ===== src/Fwd/Tests.antt =====
-- The rings of the 2.4 GHz band, empty and with two frames or three segments.
use clanker_npu.Prelude.{
  ℕ, zero, suc, ◌≤◌, ◌<◌, ◌≡◌, refl, arith, List, [], ◌∷◌, ◌==◌, some, if◌then◌else◌, bit, get_or,
  false, ◌^◌,
}
use clanker_npu.Fwd.{RxNode, Fwd, Packet, rx_cleared}
use clanker_npu.Fwd.Slots.{slot}
use clanker_npu.Fwd.Ends.{blank}
use clanker_npu.Fwd.History.{Event, forward, drain}
use clanker_npu.Fwd.Segments.{rxnode_drain}
use clanker_npu.Fwd.Segments.Release.{RxHolds, Drained, rxnode_drain-Drained}

-- Two segments of one frame at the wrap of the ring, the second the last of two.
abbrev first_part : RxNode
first_part = record { buf = 10; len = 5000; orig = 3500; flags = 69 }

abbrev last_part : RxNode
last_part = record { buf = 11; len = 5000; orig = 1500; flags = 75 }

abbrev segments : ℕ → RxNode
segments i = if i == 127 then first_part else if i == 0 then last_part else rx_cleared

abbrev band_24 : Fwd
band_24 = record {
  pi = record { nodes = λ i. blank; widx = 255; ridx = 255 };
  rx = record { nodes = segments; widx = 1; ridx = 127 };
  bytes = λ i. 0;
  pkts = λ i. 0;
  submits = [];
  freed = [];
  counts = [];
}

abbrev frame : ℕ → Packet
frame buf = record {
  buf = buf;
  len = 1500;
  wcid = 3;
  amsdu = 0;
  fwd_type = 2;
  orig = 1500;
  dropped = false;
  tunnel = 0;
}

abbrev events : List Event
events = forward (frame 7) 5 ∷ forward (frame 8) 5 ∷ drain 0 ∷ drain 1 ∷ drain 0 ∷ []

abbrev parts : List RxNode
parts = first_part ∷ last_part ∷ []

parts_read : (k : ℕ) → k < 2 → segments (slot 128 127 k) ≡ get_or parts k rx_cleared
unfolding rx_cleared
parts_read zero h = refl
parts_read (suc zero) h = refl
parts_read (suc (suc k)) h = absurd (omega arith)

parts_ready : (k : ℕ) → k < 2 → bit ((get_or parts k rx_cleared).flags) 0 ≡ 1
parts_ready zero h = refl
parts_ready (suc zero) h = refl
parts_ready (suc (suc k)) h = absurd (omega arith)

cleared_flags : rx_cleared.flags ≡ 0
unfolding rx_cleared
cleared_flags = refl

no_more : (k : ℕ) → 2 ≤ k → k < 128 → (segments (slot 128 127 k)).flags ≡ 0
no_more k h l = ground (arith, cleared_flags)

flags_small : (i : ℕ) → (segments i).flags < 2 ^ 8
flags_small i = ground (arith, cleared_flags)

only_parts : (k : ℕ) → k ≤ 6 → bit ((segments (slot 128 127 k)).flags) 0 ≡ 1 → k < 2
only_parts k h odd = ground (arith, odd, no_more k)

parts-RxHolds : RxHolds band_24 parts
unfolding rx_cleared
parts-RxHolds = record {
  start_in = omega arith;
  fits = omega arith;
  end_at = refl;
  reads = parts_read;
  ready = parts_ready;
  free = λ k h l. rw (no_more k h l) refl;
}

rxnode_drain-Drained_example :
    (out : Fwd) × ((rxnode_drain 12 band_24 (λ n i. (segments i).flags) 3 (λ k. 0) ≡ some out)
      × Drained band_24 parts out)
rxnode_drain-Drained_example =
    rxnode_drain-Drained 12 band_24 (λ n i. (segments i).flags) 3 (λ k. 0) parts parts-RxHolds
      (λ n i. flags_small i) (λ n k. only_parts k) (omega arith)
