-- ===== src/Ba/Release.antt =====
-- npu_wifi_ba.c: ba_release_mpdu on a held A-MSDU.
use mathlib.Core.List.{append_assoc}
use clanker_npu.Prelude.{
  ℕ, zero, suc, ◌≤◌, ◌≡◌, refl, ap, ap₂, ◌∙◌, arith, false, List, [], ◌∷◌, ◌++◌, some, map, length,
  ◌==◌,
}
use clanker_npu.Ba.{
  Node, Pools, Frame, World, wifi_cnt_inc, pkt_enqueue_bridge, pool_free, reorder_node_free,
  frame_of, count_release, release_msdu, release_msdus, ba_release_mpdu,
}
use clanker_npu.Ba.Chains.{
  Mpdu, Chain, Kept, bare, mpdu_frames, free_subs, free_mpdu, Kept-trans, Chain-Kept,
}
use clanker_npu.Ba.Round.{
  release_msdu-Kept, release_msdu-head, release_msdu-sent, release_msdu-pools, count_release-nodes,
  count_release-sent, count_release-pools,
}

-- A release from w to v: it hands the frames on, gives the indices back, and keeps the other nodes.
pub record Out (a : ℕ) (w : World) (frames : List Frame) (pools : Pools) (v : World) : Type 0 where
  pub kept : Kept a w v
  pub sent : v.sent ≡ w.sent ++ frames
  pub pools_after : v.pools ≡ pools

pub append_nil : {A : Type 0} (xs : List A) → xs ≡ xs ++ []
append_nil [] = refl
append_nil (x ∷ xs) = ap (λ (ys : List _). x ∷ ys) (append_nil xs)

release_msdus-none :
    (fuel : ℕ) (w : World) (a band mode : ℕ)
    → (w.nodes a).msdu_head ≡ 0
    → release_msdus fuel w a band mode ≡ some w
unfolding release_msdus
release_msdus-none zero w a band mode e = rw e refl
release_msdus-none (suc fuel) w a band mode e = rw e refl

sent_step :
    (w : World) (a band mode : ℕ) (n : Node) (ns : List Node)
    → bare (w.nodes (w.nodes a).msdu_head) ≡ n
    → (release_msdu w a band mode).sent
        ++ map (frame_of band ((release_msdu w a band mode).nodes a).bss) ns
      ≡ w.sent ++ map (frame_of band (w.nodes a).bss) (n ∷ ns)
unfolding frame_of
sent_step w a band mode n ns node =
    let bss = (w.nodes a).bss in
    ap₂ (λ (s : List Frame) (x : Node). s ++ map (frame_of band x.bss) ns)
      (release_msdu-sent w a band mode) ((release_msdu-Kept w a band mode).bares a)
    ∙ (append_assoc w.sent (frame_of band bss (w.nodes (w.nodes a).msdu_head) ∷ [])
          (map (frame_of band bss) ns)
        ∙ ap (λ (x : Node). w.sent ++ frame_of band bss x ∷ map (frame_of band bss) ns) node)

pools_step :
    (w : World) (a band mode : ℕ) (n : Node) (ns : List Node)
    → bare (w.nodes (w.nodes a).msdu_head) ≡ n
    → free_subs (release_msdu w a band mode).pools ns ≡ free_subs w.pools (n ∷ ns)
pools_step w a band mode n ns node =
    ap (λ (p : Pools). free_subs p ns) (release_msdu-pools w a band mode)
    ∙ ap (λ (x : Node). free_subs (pool_free w.pools x.idx x.pool) ns) node

release_msdus-Out :
    (fuel : ℕ) (w : World) (a band mode : ℕ) (ns : List Node)
    → Chain w.nodes (w.nodes a).msdu_head ns
    → length ns ≤ fuel
    → (v : World) × ((release_msdus fuel w a band mode ≡ some v)
        × Out a w (map (frame_of band (w.nodes a).bss) ns) (free_subs w.pools ns) v)
unfolding release_msdus
release_msdus-Out fuel w a band mode [] c h = (
  w,
  (
    release_msdus-none fuel w a band mode c,
    record {
      kept = record { bares = λ b. refl; others = λ b ne. refl };
      sent = append_nil w.sent;
      pools_after = refl;
    },
  ),
)
release_msdus-Out zero w a band mode (n ∷ ns) c h = absurd (omega arith)
release_msdus-Out (suc fuel) w a band mode (n ∷ ns) (ne, (node, chain)) h =
    let u = release_msdu w a band mode in
    let k = release_msdu-Kept w a band mode in
    let head : (u.nodes a).msdu_head ≡ n.next =
      release_msdu-head w a band mode ∙ ap (λ (x : Node). x.next) node in
    let (v, (e, out)) =
      release_msdus-Out fuel u a band mode ns (rw head (Chain-Kept a w u n.next ns k chain))
        (omega arith) in
    let some_left : ((w.nodes a).msdu_head == 0) ≡ false = ground arith in
    (
      v,
      (
        rw some_left e,
        record {
          kept = Kept-trans k out.kept;
          sent = out.sent ∙ sent_step w a band mode n ns node;
          pools_after = out.pools_after ∙ pools_step w a band mode n ns node;
        },
      ),
    )

-- The state with the first frame handed on.
abbrev first_sent : World → ℕ → ℕ → ℕ → World
first_sent w a band mode =
    count_release (pkt_enqueue_bridge w (frame_of band (w.nodes a).bss (w.nodes a))) band mode

first_sent-nodes : (w : World) (a band mode : ℕ) → (first_sent w a band mode).nodes ≡ w.nodes
unfolding pkt_enqueue_bridge
first_sent-nodes w a band mode = rw count_release-nodes refl

first_sent-pools : (w : World) (a band mode : ℕ) → (first_sent w a band mode).pools ≡ w.pools
unfolding pkt_enqueue_bridge
first_sent-pools w a band mode = rw count_release-pools refl

first_sent-sent :
    (w : World) (m : Mpdu) (band mode : ℕ)
    → bare (w.nodes m.addr) ≡ m.node
    → (first_sent w m.addr band mode).sent
        ++ map (frame_of band ((first_sent w m.addr band mode).nodes m.addr).bss) m.subs
      ≡ w.sent ++ mpdu_frames band m
unfolding pkt_enqueue_bridge frame_of
first_sent-sent w m band mode node =
    rw (count_release-sent, count_release-nodes)
      (append_assoc w.sent (frame_of band (w.nodes m.addr).bss (w.nodes m.addr) ∷ [])
          (map (frame_of band (w.nodes m.addr).bss) m.subs)
        ∙ ap (λ (x : Node). w.sent ++ frame_of band x.bss x ∷ map (frame_of band x.bss) m.subs)
            node)

first_sent-Kept : (w : World) (a band mode : ℕ) → Kept a w (first_sent w a band mode)
first_sent-Kept w a band mode = record {
  bares = λ b. ap (λ (f : ℕ → Node). bare (f b)) (first_sent-nodes w a band mode);
  others = λ b ne. ap (λ (f : ℕ → Node). f b) (first_sent-nodes w a band mode);
}

free-Out :
    (w u : World) (m : Mpdu) (band : ℕ)
    → bare (w.nodes m.addr) ≡ m.node
    → Out m.addr w (mpdu_frames band m) (free_subs w.pools m.subs) u
    → Out m.addr w
        (mpdu_frames band m)
        (free_mpdu w.pools m)
        (reorder_node_free u (u.nodes m.addr).idx (u.nodes m.addr).pool band)
unfolding reorder_node_free wifi_cnt_inc
free-Out w u m band node o = record {
  kept = record { bares = o.kept.bares; others = o.kept.others };
  sent = o.sent;
  pools_after =
      ap₂ (λ (p : Pools) (x : Node). pool_free p x.idx x.pool) o.pools_after
        (o.kept.bares m.addr ∙ node);
}

-- A held MPDU, released: with fuel for its MSDUs the release ends, hands the frames on in their
-- order, and gives the index of every node back.
pub ba_release_mpdu-Out :
    (fuel : ℕ) (w : World) (m : Mpdu) (band mode : ℕ)
    → bare (w.nodes m.addr) ≡ m.node
    → Chain w.nodes (w.nodes m.addr).msdu_head m.subs
    → length m.subs ≤ fuel
    → (v : World) × ((ba_release_mpdu fuel w m.addr band mode ≡ some v)
        × Out m.addr w (mpdu_frames band m) (free_mpdu w.pools m) v)
unfolding ba_release_mpdu
ba_release_mpdu-Out fuel w m band mode node chain h =
    let u = first_sent w m.addr band mode in
    let head : (u.nodes m.addr).msdu_head ≡ (w.nodes m.addr).msdu_head =
      ap (λ (f : ℕ → Node). (f m.addr).msdu_head) (first_sent-nodes w m.addr band mode) in
    let k = first_sent-Kept w m.addr band mode in
    let (v, (e, out)) =
      release_msdus-Out fuel u m.addr band mode m.subs
        (rw head (Chain-Kept m.addr w u (w.nodes m.addr).msdu_head m.subs k chain)) h in
    let all : Out m.addr w (mpdu_frames band m) (free_subs w.pools m.subs) v = record {
      kept = Kept-trans k out.kept;
      sent = out.sent ∙ first_sent-sent w m band mode node;
      pools_after =
          out.pools_after
          ∙ ap (λ (p : Pools). free_subs p m.subs) (first_sent-pools w m.addr band mode);
    } in
    (
      reorder_node_free v (v.nodes m.addr).idx (v.nodes m.addr).pool band,
      (rw (ba_release_mpdu, e) refl, free-Out w v m band node all),
    )
