-- ===== src/HostAdpt/Chain.antt =====
-- npu_hostadpt.c: host_out_chain, as a whole and at each of its accesses.
use clanker_npu.Prelude.{
  ℕ, suc, ◌+◌, ◌*◌, ◌%◌, ◌^◌, ◌<◌, ◌≤◌, ◌≡◌, refl, sym, ap, ◌∙◌, arith, List, [], ◌∷◌, ◌++◌, true,
  false, Bool-cases, inl, inr, ◌⊎◌, subst, length, ltb,
}
use mathlib.Core.List.{append_assoc}
use clanker_npu.Fwd.Slots.{slot_zero}
use clanker_npu.Fwd.Fifo.{free_slot}
use clanker_npu.HostAdpt.{
  Desc, OutRing, Access, store_w0, store_w1, store_w2, set_idx, act, play, ring_size, failed, word0,
  Seg, copy_segs, publish_segs, slot_after, room_slot, ready, host_out_chain,
}
use clanker_npu.HostAdpt.Queue.{
  blank, HostHolds, as_ring, play-append, ready-free, ready-taken, idx_in,
}
use clanker_npu.HostAdpt.Batch.{room-slot}
use clanker_npu.HostAdpt.Steps.{
  Always, Always-append, Always-map, Quiet, Spares, Always-Quiet, play-Quiet, spared-Quiet,
  copy_segs-spare, publish_segs-spare,
}
use clanker_npu.HostAdpt.Segments.{
  seg_descs, with_segs-Holds, play-copy_segs, published, seg-slot, with_segs,
}

-- The accesses of the chain once there is room.
abbrev chain_accesses : ℕ → OutRing → List Seg → List Access
chain_accesses limit r ss =
    copy_segs limit r r.idx ss ++ (publish_segs r.idx 0 ss ++ set_idx (slot_after r.idx ss) ∷ [])

play-chain :
    (limit : ℕ) (r : OutRing) (ss : List Seg)
    → r.idx < ring_size
    → length ss ≤ ring_size
    → play r (chain_accesses limit r ss) ≡ with_segs r ss
unfolding play act
play-chain limit r ss h fits =
    let publish = publish_segs r.idx 0 ss in
    let end : List Access = set_idx (slot_after r.idx ss) ∷ [] in
    play-append r (copy_segs limit r r.idx ss) (publish ++ end)
    ∙ (ap (λ t. play t (publish ++ end)) (play-copy_segs ss limit r r r.idx)
        ∙ (play-append r publish end ∙ published r ss h fits))

-- The segments stand as one run behind what the host has still to take.
pub record Chained (host : ℕ) (r : OutRing) (q : List Desc) (ss : List Seg) (out : ℕ × List Access)
    : Type 0 where
  pub value : out.0 ≡ 0
  pub held : HostHolds host (play r out.1) (q ++ seg_descs r ss)

chain-room :
    (limit : ℕ) (r : OutRing) (ss : List Seg)
    → ready r (room_slot r.idx (length ss)) ≡ false
    → host_out_chain limit false r ss ≡ (0, chain_accesses limit r ss)
unfolding host_out_chain
chain-room limit r ss e = rw e refl

chain-full :
    (limit : ℕ) (r : OutRing) (ss : List Seg)
    → ready r (room_slot r.idx (length ss)) ≡ true
    → host_out_chain limit false r ss ≡ (failed, [])
unfolding host_out_chain
chain-full limit r ss e = rw e refl

-- The debug counters off, and fewer than 511 segments: host_out_chain puts them all behind what the host
-- has still to take and gives 0, if with them there are fewer than 511, and else gives -1 and makes no
-- access.
pub host_out_chain-Chained :
    (limit host : ℕ) (r : OutRing) (q : List Desc) (ss : List Seg)
    → HostHolds host r q
    → length ss < 511
    → ((length q + length ss < 511) × Chained host r q ss (host_out_chain limit false r ss))
      ⊎ ((511 ≤ length q + length ss) × (host_out_chain limit false r ss ≡ (failed, [])))
host_out_chain-Chained limit host r q ss held few =
    let n = length ss in
    let inside = idx_in host r q held in
    let at = room-slot r.idx n inside few in
    elim (Bool-cases (ltb (length q + n) 511)) [
      | inl e ↦
          let less : length q + n < 511 = ground (arith, e) in
          let free : ready r (room_slot r.idx n) ≡ false =
            subst (λ k. ready r k ≡ false) (sym at)
              (ready-free host r q (n + 1) held (omega arith)) in
          inl (
            less,
            subst (Chained host r q ss) (sym (chain-room limit r ss free)) (record {
              value = refl;
              held =
                  subst (λ t. HostHolds host t (q ++ seg_descs r ss))
                    (sym (play-chain limit r ss inside (omega arith)))
                    (with_segs-Holds ss host r q held (omega arith));
            }),
          )
      | inr e ↦
          let more : 511 ≤ length q + n = ground (arith, e) in
          let taken : ready r (room_slot r.idx n) ≡ true =
            subst (λ k. ready r k ≡ true) (sym at)
              (ready-taken host r q (n + 1) held (omega arith) (omega arith)) in
          inr (more, chain-full limit r ss taken)
    ]

-- If the slot of the first segment is ready, all segments stand, up to the index register.
abbrev pub HeadLast : ℕ → OutRing → List Desc → List Seg → OutRing → Type 0
HeadLast host r q ss t =
    ready t r.idx ≡ true
    → HostHolds host (record t { idx = (with_segs r ss).idx }) (q ++ seg_descs r ss)

Quiet-HeadLast :
    (host : ℕ) (r : OutRing) (q : List Desc) (ss : List Seg) (t : OutRing)
    → Quiet r.idx t
    → HeadLast host r q ss t
Quiet-HeadLast host r q ss t h e = absurd (ground (arith, h, e))

abbrev first_stores : ℕ → Seg → List Access
first_stores idx s =
    store_w2 idx s.info
    ∷ store_w1 idx (s.fwd_type % 2 ^ 6 * 2 ^ 26)
    ∷ store_w0 idx (word0 s.seg s.frame s.last)
    ∷ []

publish-first :
    (idx : ℕ) (s : Seg) (ss : List Seg)
    → idx < ring_size
    → publish_segs idx 0 (s ∷ ss) ≡ publish_segs idx 1 ss ++ first_stores idx s
unfolding publish_segs
publish-first idx s ss h =
    let at = seg-slot idx 0 h (omega arith) ∙ slot_zero ring_size idx h in
    ap (λ k. publish_segs idx 1 ss ++ first_stores k s) at

-- The stores of the first segment and of the index, after everything else.
last-HeadLast :
    (host : ℕ) (r : OutRing) (q : List Desc) (s : Seg) (ss : List Seg) (t : OutRing)
    → Quiet r.idx t
    → (record (play t (first_stores r.idx s)) { idx = slot_after r.idx (s ∷ ss) }
        ≡ with_segs r (s ∷ ss))
    → HostHolds host (with_segs r (s ∷ ss)) (q ++ seg_descs r (s ∷ ss))
    → Always
        (HeadLast host r q (s ∷ ss))
        t
        (first_stores r.idx s ++ set_idx (slot_after r.idx (s ∷ ss)) ∷ [])
unfolding Always play act Spares
last-HeadLast host r q s ss t quiet ends held =
    let silent = λ (u : OutRing) (h : Quiet r.idx u). Quiet-HeadLast host r q (s ∷ ss) u h in
    let info = act t (store_w2 r.idx s.info) in
    let kind = act info (store_w1 r.idx (s.fwd_type % 2 ^ 6 * 2 ^ 26)) in
    let quiet_info = spared-Quiet r.idx t (store_w2 r.idx s.info) tt quiet in
    let quiet_kind =
      spared-Quiet r.idx info (store_w1 r.idx (s.fwd_type % 2 ^ 6 * 2 ^ 26)) tt quiet_info in
    let stands =
      subst (λ u. HostHolds host u (q ++ seg_descs r (s ∷ ss)))
        (sym (ap (λ (u : OutRing). record u { idx = (with_segs r (s ∷ ss)).idx }) ends)) held in
    (silent t quiet, (silent info quiet_info, (silent kind quiet_kind, (λ e. stands, λ e. stands))))

-- The debug counters off, and fewer than 511 frames for the host to take with the segments of this one.
-- At each access of host_out_chain, if the host finds the first segment ready, it finds all of them,
-- with their words.
pub host_out_chain-HeadLast :
    (limit host : ℕ) (r : OutRing) (q : List Desc) (s : Seg) (ss : List Seg)
    → HostHolds host r q
    → length q + suc (length ss) < 511
    → Always (HeadLast host r q (s ∷ ss)) r (host_out_chain limit false r (s ∷ ss)).1
host_out_chain-HeadLast limit host r q s ss held room =
    let P = HeadLast host r q (s ∷ ss) in
    let n = suc (length ss) in
    let inside = idx_in host r q held in
    let free : ready r (room_slot r.idx n) ≡ false =
      subst (λ k. ready r k ≡ false) (sym (room-slot r.idx n inside (omega (arith, room))))
        (ready-free host r q (n + 1) held (omega (arith, room))) in
    let quiet : Quiet r.idx r =
      free_slot (λ d. d.w0) blank ring_size (as_ring host r) q held (omega (arith, room)) in
    let silent = λ (t : OutRing) (h : Quiet r.idx t). Quiet-HeadLast host r q (s ∷ ss) t h in
    let copying = copy_segs limit r r.idx (s ∷ ss) in
    let tail = publish_segs r.idx 1 ss in
    let end : List Access = set_idx (slot_after r.idx (s ∷ ss)) ∷ [] in
    let spare = publish_segs-spare ss r.idx 1 inside (omega arith) (omega (arith, room)) in
    let stands = with_segs-Holds (s ∷ ss) host r q held (omega (arith, room)) in
    let whole : record (play (play r tail) (first_stores r.idx s)) {
      idx = slot_after r.idx (s ∷ ss);
    }
        ≡ with_segs r (s ∷ ss) =
      ap (λ (t : OutRing). record t { idx = slot_after r.idx (s ∷ ss) })
        (sym (play-append r tail (first_stores r.idx s))
          ∙ ap (play r) (sym (publish-first r.idx s ss inside)))
      ∙ published r (s ∷ ss) inside (omega (arith, room)) in
    let ending =
      last-HeadLast host r q s ss (play r tail) (play-Quiet r.idx tail r spare quiet) whole
        stands in
    let publishing : Always P r (tail ++ (first_stores r.idx s ++ end)) =
      Always-append P tail (first_stores r.idx s ++ end) r
        (Always-map (Quiet r.idx) P silent tail r (Always-Quiet r.idx tail r spare quiet)) ending in
    let same : publish_segs r.idx 0 (s ∷ ss) ++ end ≡ tail ++ (first_stores r.idx s ++ end) =
      ap (λ xs. xs ++ end) (publish-first r.idx s ss inside)
      ∙ append_assoc tail (first_stores r.idx s) end in
    let all : Always P r (chain_accesses limit r (s ∷ ss)) =
      Always-append P copying (publish_segs r.idx 0 (s ∷ ss) ++ end) r
        (Always-map (Quiet r.idx) P silent copying r
          (Always-Quiet r.idx copying r (copy_segs-spare (s ∷ ss) limit r r.idx r.idx) quiet))
        (subst (λ t. Always P t (publish_segs r.idx 0 (s ∷ ss) ++ end))
          (sym (play-copy_segs (s ∷ ss) limit r r r.idx))
          (subst (Always P r) (sym same) publishing)) in
    subst (λ out. Always P r out.1) (sym (chain-room limit r (s ∷ ss) free)) all
