-- ===== src/Ba/Session/Tests.antt =====
-- The rings of node indices with two indices each; index 9 is out.
use clanker_npu.Prelude.{ℕ, ◌≡◌, refl, arith, [], ◌∷◌, replicate, length-replicate}
use clanker_npu.Ba.{Node, Pools, World}
use clanker_npu.Ba.Session.{Bases, Granted, reorder_node_alloc}
use clanker_npu.Ba.Session.NodeRings.{PoolsHold, alloc_queues, reorder_node_alloc-PoolsHold}

abbrev two_each : Pools
two_each = record {
  pri = 3 ∷ 4 ∷ replicate 1998 0;
  pri_ridx = 2;
  pri_widx = 0;
  sec = 5 ∷ 6 ∷ replicate 4998 0;
  sec_ridx = 2;
  sec_widx = 0;
}

two_each-PoolsHold : PoolsHold two_each (3 ∷ 4 ∷ []) (5 ∷ 6 ∷ [])
two_each-PoolsHold = (
  record {
    storage = omega (arith, length-replicate {A = ℕ} 1998 0);
    start_in = omega arith;
    some_left = omega arith;
    fits = omega arith;
    end_at = refl;
    reads = refl;
    ids = omega arith;
  },
  record {
    storage = omega (arith, length-replicate {A = ℕ} 4998 0);
    start_in = omega arith;
    some_left = omega arith;
    fits = omega arith;
    end_at = refl;
    reads = refl;
    ids = omega arith;
  },
)

abbrev bases : Bases
bases = record { pri = 0x3E800000; sec = 0x84000000 }

-- What the caller sets before the call.
abbrev unset : Granted
unset = record { addr = 0; idx = 0xFFFF; pool_type = 1 }

abbrev empty_node : Node
empty_node = record {
  next = 0;
  msdu_head = 0;
  msdu_tail = 0;
  msdus = 0;
  hdr = 0;
  tid = 0;
  wcid = 0;
  bss = 0;
  buf = 0;
  idx = 0;
  sn = 0;
  len = 0;
  amsdu = 0;
  pool = 0;
  tick = 0;
}

abbrev world : World
world = record { nodes = λ _. empty_node; pools = two_each; sent = []; counts = [] }

reorder_node_alloc-PoolsHold_example :
    ((reorder_node_alloc bases world 1 unset).0
      ≡ (alloc_queues bases unset (3 ∷ 4 ∷ []) (5 ∷ 6 ∷ [])).0)
    × PoolsHold
        (reorder_node_alloc bases world 1 unset).1.pools
        (alloc_queues bases unset (3 ∷ 4 ∷ []) (5 ∷ 6 ∷ [])).1.0
        (alloc_queues bases unset (3 ∷ 4 ∷ []) (5 ∷ 6 ∷ [])).1.1
reorder_node_alloc-PoolsHold_example =
    reorder_node_alloc-PoolsHold bases world 1 unset (3 ∷ 4 ∷ []) (5 ∷ 6 ∷ []) two_each-PoolsHold
