-- ===== src/Fwd/History.antt =====
-- npu_wifi_fwd.c: every sequence of pkt_forward and pinode_drain on one band.
use clanker_npu.Prelude.{ℕ, ◌≡◌, List, [], ◌∷◌, ◌++◌, if◌then◌else◌, ◌==◌, ◌&&◌}
use clanker_npu.Fwd.{PiNode, Fwd, Packet, pi_node, pkt_forward, pinode_drain}
use clanker_npu.Fwd.Ends.{PiHolds}
use clanker_npu.Fwd.Drain.{calls, buffers}

-- `info` is the statistics word of the frame's buffer, `ret` the answer of host_ring_submit.
pub data Event : Type 0 where
  forward : Packet → ℕ → Event
  drain : ℕ → Event

-- The whole frames that were accepted, in their order, and the state at the end.
pub run : ℕ → Fwd → List Event → List PiNode × Fwd
run band s [] = ([], s)
run band s (forward p info ∷ es) =
    let out = pkt_forward s p band info in
    let rest = run band out.1 es in
    (if p.orig == p.len && out.0 == 0 then pi_node p ∷ rest.0 else rest.0, rest.1)
run band s (drain ret ∷ es) = run band (pinode_drain s band ret) es

-- What was submitted and freed since s, with what the ring still holds, is what was accepted since the
-- ring held q.
pub record InOrder (band : ℕ) (s : Fwd) (q : List PiNode) (out : List PiNode × Fwd) : Type 0 where
  pub left : List PiNode
  pub held : PiHolds band out.1 left
  pub submits : out.1.submits ++ calls left ≡ s.submits ++ calls (q ++ out.0)
  pub freed : out.1.freed ++ buffers left ≡ s.freed ++ buffers (q ++ out.0)
