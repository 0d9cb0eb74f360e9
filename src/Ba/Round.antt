-- ===== src/Ba/Round.antt =====
-- npu_wifi_ba.c: one round of the loop of ba_release_mpdu.
use native.Mathlib.Decide.{ℕ_discrete}
use clanker_npu.Prelude.{ℕ, ◌≡◌, ◌≢◌, refl, ap, ap₂, arith, false, [], ◌∷◌, ◌++◌, ◌==◌, ==_refl}
use clanker_npu.Ba.{
  Node, World, store, wifi_cnt_inc, pkt_enqueue_bridge, pool_free, reorder_node_free, frame_of,
  drop_msdu, count_release, release_msdu,
}
use clanker_npu.Ba.Chains.{Kept, bare}

store_self : (nodes : ℕ → Node) (a : ℕ) (n : Node) → store nodes a n a ≡ n
store_self nodes a n = rw (==_refl a) refl

store_ne : (nodes : ℕ → Node) (a b : ℕ) (n : Node) → b ≢ a → store nodes a n b ≡ nodes b
store_ne nodes a b n ne = let e : (b == a) ≡ false = ground arith in rw e refl

store-bare :
    (nodes : ℕ → Node) (a b : ℕ) (n : Node)
    → bare n ≡ bare (nodes a)
    → bare (store nodes a n b) ≡ bare (nodes b)
store-bare nodes a b n same = elim (ℕ_discrete b a) [
  | yes e ↦ rw (e, ==_refl a) same
  | no ne ↦ ap bare (store_ne nodes a b n ne)
]

pub count_release-nodes : (w : World) (band mode : ℕ) → (count_release w band mode).nodes ≡ w.nodes
unfolding count_release wifi_cnt_inc
count_release-nodes w band mode = ground arith

pub count_release-pools : (w : World) (band mode : ℕ) → (count_release w band mode).pools ≡ w.pools
unfolding count_release wifi_cnt_inc
count_release-pools w band mode = ground arith

pub count_release-sent : (w : World) (band mode : ℕ) → (count_release w band mode).sent ≡ w.sent
unfolding count_release wifi_cnt_inc
count_release-sent w band mode = ground arith

-- The memory after one round.
abbrev after : World → ℕ → ℕ → Node
after w a = store w.nodes a (drop_msdu (w.nodes a) (w.nodes (w.nodes a).msdu_head).next)

after-bare : (w : World) (a b : ℕ) → bare (after w a b) ≡ bare (w.nodes b)
after-bare w a b =
    store-bare w.nodes a b (drop_msdu (w.nodes a) (w.nodes (w.nodes a).msdu_head).next) refl

release_msdu-nodes : (w : World) (a band mode : ℕ) → (release_msdu w a band mode).nodes ≡ after w a
unfolding release_msdu reorder_node_free wifi_cnt_inc pkt_enqueue_bridge
release_msdu-nodes w a band mode = rw count_release-nodes refl

pub release_msdu-Kept : (w : World) (a band mode : ℕ) → Kept a w (release_msdu w a band mode)
release_msdu-Kept w a band mode = record {
  bares = λ b. rw release_msdu-nodes (after-bare w a b);
  others = λ b ne.
      rw release_msdu-nodes
        (store_ne w.nodes a b (drop_msdu (w.nodes a) (w.nodes (w.nodes a).msdu_head).next) ne);
}

pub release_msdu-head :
    (w : World) (a band mode : ℕ)
    → ((release_msdu w a band mode).nodes a).msdu_head ≡ (w.nodes (w.nodes a).msdu_head).next
release_msdu-head w a band mode = rw (release_msdu-nodes w a band mode) (
    ap (λ (n : Node). n.msdu_head)
      (store_self w.nodes a (drop_msdu (w.nodes a) (w.nodes (w.nodes a).msdu_head).next)))

-- What one round hands on, by what the node holds before it.
pub release_msdu-sent :
    (w : World) (a band mode : ℕ)
    → (release_msdu w a band mode).sent
      ≡ w.sent ++ frame_of band (w.nodes a).bss (w.nodes (w.nodes a).msdu_head) ∷ []
unfolding release_msdu reorder_node_free wifi_cnt_inc pkt_enqueue_bridge frame_of
release_msdu-sent w a band mode = rw count_release-sent (
    ap₂ (λ (x y : Node). w.sent ++ frame_of band x.bss y ∷ []) (after-bare w a a)
      (after-bare w a (w.nodes a).msdu_head))

pub release_msdu-pools :
    (w : World) (a band mode : ℕ)
    → (release_msdu w a band mode).pools
      ≡ pool_free w.pools (w.nodes (w.nodes a).msdu_head).idx (w.nodes (w.nodes a).msdu_head).pool
unfolding release_msdu reorder_node_free wifi_cnt_inc pkt_enqueue_bridge
release_msdu-pools w a band mode =
    rw count_release-pools
      (ap (λ (x : Node). pool_free w.pools x.idx x.pool) (after-bare w a (w.nodes a).msdu_head))
