-- ===== src/Ba/Session/NodeRings.antt =====
-- npu_wifi_ba.c: the two rings of free node indices as two queues.
use clanker_npu.Prelude.{
  inl, inr, ℕ, suc, ◌+◌, ◌^◌, ◌≤◌, ◌<◌, ◌≡◌, refl, ap, arith, true, false, List, [], ◌∷◌, ◌++◌,
  length, if◌then◌else◌, ◌==◌, not, Bool-cases, add32, mul32, get_or,
}
use clanker_npu.IdRing.{next_index}
use clanker_npu.IdRing.Refine.{Run, Run-put, Run-last, Run-next}
use clanker_npu.Ba.{Pools, World, wifi_cnt_inc, pool_free}
use clanker_npu.Ba.Session.{Bases, Granted, ring_next, reorder_node_alloc}

-- The primary ring holds the indices of pq, the secondary those of sq.
abbrev pub PoolsHold : Pools → List ℕ → List ℕ → Type 0
PoolsHold p pq sq =
    Run p.pri 1999 p.pri_widx p.pri_ridx pq × Run p.sec 4999 p.sec_widx p.sec_ridx sq

from_secondary : Bases → Granted → List ℕ → Granted × List ℕ
from_secondary b g [] = (record g { addr = 0 }, [])
from_secondary b g (x ∷ []) = (record g { addr = 0 }, x ∷ [])
from_secondary b g (x ∷ y ∷ sq) =
    (record { addr = add32 b.sec (mul32 36 x); idx = x; pool_type = 0 }, y ∷ sq)

-- The oldest index of the primary queue, or of the secondary one; the last of each stays.
pub alloc_queues : Bases → Granted → List ℕ → List ℕ → Granted × (List ℕ × List ℕ)
alloc_queues b g (x ∷ y ∷ pq) sq =
    (record { addr = add32 b.pri (mul32 36 x); idx = x; pool_type = g.pool_type }, (y ∷ pq, sq))
alloc_queues b g (x ∷ []) sq = ((from_secondary b g sq).0, (x ∷ [], (from_secondary b g sq).1))
alloc_queues b g [] sq = (record g { addr = 0 }, ([], sq))

ring_next-eq : (last i : ℕ) → ring_next (suc last) i ≡ next_index last i
ring_next-eq last i = ground arith

Run-last_ne :
    {slots : List ℕ} {last i w x : ℕ}
    → Run slots last i w (x ∷ [])
    → not (w == ring_next (suc last) i) ≡ false
Run-last_ne {slots} {last} {i} {w} h = ground (arith, Run-last h, ring_next-eq last i)

Run-more :
    {slots q : List ℕ} {last i w x y : ℕ}
    → Run slots last i w (x ∷ y ∷ q)
    → (not (w == ring_next (suc last) i) ≡ true)
      × ((get_or slots i 0 ≡ x) × Run slots last (ring_next (suc last) i) w (y ∷ q))
Run-more {slots} {q} {last} {i} {w} h =
    let (more, first, rest) = Run-next h in rw (ring_next-eq last i) (ap not more, (first, rest))

-- Where the two rings hold the indices of the queues pq and sq: reorder_node_alloc gives the node of
-- the oldest primary index while more than one is there, else that of the oldest secondary index,
-- under the pool type 0, while more than one is there, else the address 0; the index that it gives
-- leaves its queue, and nothing else changes in the rings.
pub reorder_node_alloc-PoolsHold :
    (b : Bases) (w : World) (band : ℕ) (g : Granted) (pq sq : List ℕ)
    → PoolsHold w.pools pq sq
    → ((reorder_node_alloc b w band g).0 ≡ (alloc_queues b g pq sq).0)
      × PoolsHold
          (reorder_node_alloc b w band g).1.pools
          (alloc_queues b g pq sq).1.0
          (alloc_queues b g pq sq).1.1
unfolding reorder_node_alloc wifi_cnt_inc alloc_queues from_secondary
reorder_node_alloc-PoolsHold b w band g [] sq h = absurd (omega (arith, h.0.some_left))
reorder_node_alloc-PoolsHold b w band g (x ∷ y ∷ pq) sq h =
    let (more, (first, rest)) = Run-more h.0 in
    rw (reorder_node_alloc, more)
      (
        ap (λ (i : ℕ). record { addr = add32 b.pri (mul32 36 i); idx = i; pool_type = g.pool_type })
            first,
        (rest, h.1),
      )
reorder_node_alloc-PoolsHold b w band g (x ∷ []) [] h = absurd (omega (arith, h.1.some_left))
reorder_node_alloc-PoolsHold b w band g (x ∷ []) (z ∷ []) h =
    rw (reorder_node_alloc, Run-last_ne h.0, Run-last_ne h.1) (refl, h)
reorder_node_alloc-PoolsHold b w band g (x ∷ []) (y ∷ z ∷ sq) h =
    let (more, (first, rest)) = Run-more h.1 in
    rw (reorder_node_alloc, Run-last_ne h.0, more)
      (
        ap (λ (i : ℕ). record { addr = add32 b.sec (mul32 36 i); idx = i; pool_type = 0 }) first,
        (h.0, rest),
      )

Run-end : {slots q : List ℕ} {last i w : ℕ} → Run slots last i w q → w ≤ last
Run-end {slots} {q} {last} {i} h = ground (arith, h.end_at, h.start_in, h.fits)

-- `ridx++; if (ridx == size) ridx = 0`.
step_index : (last w : ℕ) → (if w + 1 == suc last then 0 else w + 1) ≡ next_index last w
step_index last w = ground arith

whole_index : (last w : ℕ) → w ≤ last → (if w == suc last then 0 else w) ≡ w
whole_index last w h = ground arith

-- Where the two rings hold the indices of pq and sq and an index is out: reorder_node_free puts the
-- index at the end of the queue that the node type names, and leaves the other queue.
pub pool_free-PoolsHold :
    (p : Pools) (idx node_type : ℕ) (pq sq : List ℕ)
    → PoolsHold p pq sq
    → length pq ≤ 1999
    → length sq ≤ 4999
    → idx < 2 ^ 15
    → PoolsHold
        (pool_free p idx node_type)
        (if node_type == 0 then pq else pq ++ idx ∷ [])
        (if node_type == 0 then sq ++ idx ∷ [] else sq)
unfolding pool_free
pool_free-PoolsHold p idx node_type pq sq h pri sec small = elim (Bool-cases (node_type == 0)) [
  | inl zero_type ↦
      rw
        (
          pool_free,
          zero_type,
          whole_index 1999 p.pri_ridx (Run-end h.0),
          step_index 4999 p.sec_ridx,
        )
        (h.0, Run-put idx h.1 sec small)
  | inr other ↦
      rw (pool_free, other, whole_index 4999 p.sec_ridx (Run-end h.1), step_index 1999 p.pri_ridx)
        (Run-put idx h.0 pri small, h.1)
]
