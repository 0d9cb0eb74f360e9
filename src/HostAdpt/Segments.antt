-- ===== src/HostAdpt/Segments.antt =====
-- npu_hostadpt.c: the descriptors that the second loop of host_out_chain leaves.
use clanker_npu.Prelude.{
  ℕ, ◌+◌, ◌*◌, ◌%◌, ◌^◌, ◌<◌, ◌≤◌, ◌≡◌, ◌≢◌, refl, sym, ap, ap₂, ◌∙◌, arith, List, [], ◌∷◌, ◌++◌,
  subst, length, length-append, if◌then◌else◌, ltb, leb, add32, sub32,
}
use mathlib.Core.Path.{fun_ext}
use mathlib.Core.List.{append_assoc, append-nil}
use clanker_npu.Fwd.{put_at, next_slot}
use clanker_npu.Fwd.Slots.{slot, slot_ne, slot_zero, next-slot, put_at_other}
use clanker_npu.Fwd.Fifo.{placed-Holds}
use clanker_npu.HostAdpt.{
  Desc, OutRing, store_w0, store_w1, store_w2, play, ring_size, word0, Seg, publish_segs,
  slot_after, copy_segs, act,
}
use clanker_npu.HostAdpt.Words.{word0-odd}
use clanker_npu.HostAdpt.Queue.{blank, HostHolds, as_ring, play-append, play-stores}

-- The descriptor of a segment.
abbrev pub seg_desc : Seg → ℕ → Desc
seg_desc s dst = record {
  w0 = word0 s.seg s.frame s.last;
  w1 = s.fwd_type % 2 ^ 6 * 2 ^ 26;
  w2 = s.info;
  dst = dst;
}

-- The segments put into the slots from the index on, first to last.
unfoldable pub with_segs : OutRing → List Seg → OutRing
with_segs r [] = r
with_segs r (s ∷ ss) =
    with_segs
      (record {
        desc = put_at r.desc r.idx (seg_desc s (r.desc r.idx).dst);
        idx = next_slot ring_size r.idx;
      })
      ss

-- The descriptors after the loop, which goes from the last segment to the first.
unfoldable pub written : (ℕ → Desc) → ℕ → ℕ → List Seg → ℕ → Desc
written d idx i [] = d
written d idx i (s ∷ ss) =
    let tail = written d idx (i + 1) ss in
    put_at tail (slot ring_size idx i) (seg_desc s (tail (slot ring_size idx i)).dst)

pub seg-slot :
    (idx i : ℕ)
    → idx < ring_size
    → i < ring_size
    → (if leb ring_size (add32 idx i) then sub32 (add32 idx i) ring_size else add32 idx i)
      ≡ slot ring_size idx i
seg-slot idx i h lt = ground (arith, h, lt)

pub play-publish_segs :
    (ss : List Seg) (r : OutRing) (idx i : ℕ)
    → idx < ring_size
    → i + length ss ≤ ring_size
    → play r (publish_segs idx i ss) ≡ record r { desc = written r.desc idx i ss }
unfolding publish_segs written play
play-publish_segs [] r idx i h fits = refl
play-publish_segs (s ∷ ss) r idx i h fits =
    let tail = publish_segs idx (i + 1) ss in
    let k : ℕ = slot ring_size idx i in
    let a : ℕ = s.info in
    let b : ℕ = s.fwd_type % 2 ^ 6 * 2 ^ 26 in
    let c : ℕ = word0 s.seg s.frame s.last in
    let rest = play-publish_segs ss r idx (i + 1) h (omega (arith, fits)) in
    rw (seg-slot idx i h (omega (arith, fits))) (
      play-append r tail (store_w2 k a ∷ store_w1 k b ∷ store_w0 k c ∷ [])
      ∙ (play-stores (play r tail) k a b c
          ∙ ap
              (λ (t : OutRing). record t {
                desc = put_at t.desc k (record { w0 = c; w1 = b; w2 = a; dst = (t.desc k).dst });
              })
              rest))

-- A slot before those of the segments is left alone, and a write to it can come first.
pub written-before :
    (ss : List Seg) (d : ℕ → Desc) (idx i j : ℕ)
    → idx < ring_size
    → j < i
    → i + length ss ≤ ring_size
    → written d idx i ss (slot ring_size idx j) ≡ d (slot ring_size idx j)
unfolding written
written-before [] d idx i j h lt fits = refl
written-before (s ∷ ss) d idx i j h lt fits =
    let tail = written d idx (i + 1) ss in
    let k : ℕ = slot ring_size idx i in
    put_at_other tail k (slot ring_size idx j) (seg_desc s (tail k).dst)
      (slot_ne ring_size idx i j h (omega (arith, fits)) (omega (arith, fits)) (omega (arith, lt)))
    ∙ written-before ss d idx (i + 1) j h (omega (arith, lt)) (omega (arith, fits))

put_at-swap :
    (d : ℕ → Desc) (j k : ℕ) (a : Desc) (s : Seg)
    → j ≢ k
    → put_at (put_at d j a) k (seg_desc s (put_at d j a k).dst)
      ≡ put_at (put_at d k (seg_desc s (d k).dst)) j a
put_at-swap d j k a s ne = fun_ext λ m. ground (arith, ne)

written-put_at :
    (ss : List Seg) (d : ℕ → Desc) (idx i j : ℕ) (a : Desc)
    → idx < ring_size
    → j < i
    → i + length ss ≤ ring_size
    → written (put_at d (slot ring_size idx j) a) idx i ss
      ≡ put_at (written d idx i ss) (slot ring_size idx j) a
unfolding written
written-put_at [] d idx i j a h lt fits = refl
written-put_at (s ∷ ss) d idx i j a h lt fits =
    let rest = written-put_at ss d idx (i + 1) j a h (omega (arith, lt)) (omega (arith, fits)) in
    let k : ℕ = slot ring_size idx i in
    ap (λ tail. put_at tail k (seg_desc s (tail k).dst)) rest
    ∙ put_at-swap (written d idx (i + 1) ss) (slot ring_size idx j) k a s (
        slot_ne ring_size idx j i h (omega (arith, lt, fits)) (omega (arith, fits))
          (omega (arith, lt)))

wrap-next :
    (j : ℕ) → j < ring_size → (if ltb (j + 1) ring_size then j + 1 else 0) ≡ next_slot ring_size j
wrap-next j h = ground (arith, h)

-- Last to first is as good as first to last.
pub written-with_segs :
    (ss : List Seg) (d : ℕ → Desc) (idx i : ℕ)
    → idx < ring_size
    → i + length ss ≤ ring_size
    → with_segs (record { desc = d; idx = slot ring_size idx i }) ss
      ≡ record { desc = written d idx i ss; idx = slot_after (slot ring_size idx i) ss }
unfolding written with_segs slot_after
written-with_segs [] d idx i h fits = refl
written-with_segs (s ∷ ss) d idx i h fits =
    let k : ℕ = slot ring_size idx i in
    let a : Desc = seg_desc s (d k).dst in
    let tail = written d idx (i + 1) ss in
    let next = next-slot ring_size idx i h (omega (arith, fits)) in
    let wrap = wrap-next k (ground (arith, h, fits)) in
    let rest = written-with_segs ss (put_at d k a) idx (i + 1) h (omega (arith, fits)) in
    let moved = written-put_at ss d idx (i + 1) i a h (omega arith) (omega (arith, fits)) in
    let same = written-before ss d idx (i + 1) i h (omega arith) (omega (arith, fits)) in
    ap (λ j. with_segs (record { desc = put_at d k a; idx = j }) ss)
      (next ∙ ap (slot ring_size idx) (omega arith))
    ∙ (rest
        ∙ ap₂ (λ e j. record { desc = e; idx = slot_after j ss })
            (moved ∙ ap (λ (e : Desc). put_at tail k (seg_desc s e.dst)) (sym same))
            (ap (slot ring_size idx) (omega arith) ∙ (sym next ∙ sym wrap)))

-- The descriptors of the segments, with the buffers that the host put into their slots.
pub seg_descs : OutRing → List Seg → List Desc
seg_descs r [] = []
seg_descs r (s ∷ ss) =
    let d = seg_desc s (r.desc r.idx).dst in
    d ∷ seg_descs (record { desc = put_at r.desc r.idx d; idx = next_slot ring_size r.idx }) ss

pub with_segs-Holds :
    (ss : List Seg) (host : ℕ) (r : OutRing) (q : List Desc)
    → HostHolds host r q
    → length q + length ss ≤ ring_size
    → HostHolds host (with_segs r ss) (q ++ seg_descs r ss)
unfolding with_segs seg_descs
with_segs-Holds [] host r q held room = subst (HostHolds host r) (sym (append-nil q)) held
with_segs-Holds (s ∷ ss) host r q held room =
    let d = seg_desc s (r.desc r.idx).dst in
    let t : OutRing = record { desc = put_at r.desc r.idx d; idx = next_slot ring_size r.idx } in
    let placed =
      placed-Holds (λ e. e.w0) blank ring_size (as_ring host r) q d held
        (word0-odd s.seg s.frame s.last) (omega (arith, room)) in
    let longer = length-append q (d ∷ []) in
    subst (HostHolds host (with_segs t ss)) (append_assoc q (d ∷ []) (seg_descs t ss))
      (with_segs-Holds ss host t (q ++ d ∷ []) placed (omega (arith, longer, room)))

pub play-copy_segs :
    (ss : List Seg) (limit : ℕ) (r t : OutRing) (slot : ℕ) → play t (copy_segs limit r slot ss) ≡ t
unfolding play act copy_segs
play-copy_segs [] limit r t slot = refl
play-copy_segs (s ∷ ss) limit r t slot =
    play-copy_segs ss limit r t (if ltb (slot + 1) ring_size then slot + 1 else 0)

-- The ring after the publishing loop, whatever the index says meanwhile.
pub published :
    (r : OutRing) (ss : List Seg)
    → r.idx < ring_size
    → length ss ≤ ring_size
    → record (play r (publish_segs r.idx 0 ss)) { idx = slot_after r.idx ss } ≡ with_segs r ss
published r ss h fits =
    let start = slot_zero ring_size r.idx h in
    ap (λ (t : OutRing). record t { idx = slot_after r.idx ss })
      (play-publish_segs ss r r.idx 0 h (omega (arith, fits)))
    ∙ (ap (λ i. record { desc = written r.desc r.idx 0 ss; idx = slot_after i ss }) (sym start)
        ∙ (sym (written-with_segs ss r.desc r.idx 0 h (omega (arith, fits)))
            ∙ ap (λ i. with_segs (record { desc = r.desc; idx = i }) ss) start))
