-- ===== src/HostAdpt/Pending.antt =====
-- npu_hostadpt.c: a frame between host_out_start and host_out_finish.
use clanker_npu.Prelude.{
  ℕ, ◌<◌, ◌≡◌, refl, ap, ◌∙◌, arith, List, [], ◌∷◌, ◌++◌, false, length, if◌then◌else◌, ◌==◌, ltb,
  add32, Option, none, some, not,
}
use clanker_npu.Fwd.{Submit, put_at}
use clanker_npu.Fwd.Fifo.{placed-Holds}
use clanker_npu.HostAdpt.{
  Desc, OutRing, Access, copied, act, play, ring_size, word0, word1, dma_len, check_slot, ready,
  submit_on, HostOut, host_out_finish, host_out_start,
}
use clanker_npu.HostAdpt.Words.{desc_of, word0-odd, out_len-dma_len}
use clanker_npu.HostAdpt.Queue.{
  blank, HostHolds, as_ring, with_frame, play-stores, wrap-next_slot, submit_on-room,
}
use clanker_npu.HostAdpt.Copies.{copies, copies-room}

-- Frames as eagle_drain_queue sends them: a start for each, with the one before as the pending one, and a
-- finish for the last.
unfoldable pub out_batch : ℕ → OutRing → Option HostOut → ℕ → List Submit → List Access
out_batch limit r none idx [] = []
out_batch limit r (some p) idx [] = host_out_finish p
out_batch limit r prev idx (f ∷ fs) =
    let start = host_out_start limit r prev idx f in
    start.1 ++ out_batch limit (play r start.1) (some start.0) (start.0).next fs

-- The same by host_ring_submit, which has to give 0 each time; the ring and the copies.
unfoldable pub submit_all : ℕ → OutRing → List Submit → Option (OutRing × List Access)
submit_all limit r [] = some (r, [])
submit_all limit r (f ∷ fs) =
    let out = submit_on limit false false 0 r f in
    let rest = submit_all limit (play r out.1) fs in
    if not (out.0 == 0)
    then none
    else elim rest [ none ↦ none | some t ↦ some (t.0, copies out.1 ++ t.1) ]

pub submit_all-more :
    (limit : ℕ) (r : OutRing) (f : Submit) (fs : List Submit) (t : OutRing) (log : List Access)
    → r.idx < ring_size
    → ready r (check_slot r.idx) ≡ false
    → submit_all limit (with_frame r f) fs ≡ some (t, log)
    → submit_all limit r (f ∷ fs)
      ≡ some (t, copied f.buf (r.desc r.idx).dst (dma_len limit f) ∷ log)
unfolding submit_all
submit_all-more limit r f fs t log h e rest =
    let done = submit_on-room limit false false 0 r f h e in
    let same = copies-room limit false false 0 r f e in rw (done.0, done.1, rest, same) refl

-- What host_out_start notes for the frame f.
abbrev pub pending : ℕ → ℕ → Submit → HostOut
pending idx dst f = record {
  slot = idx;
  dst = dst;
  next = if ltb (add32 idx 1) ring_size then add32 idx 1 else 0;
  w0 = word0 f.orig f.len f.is_last;
  w1 = word1 f.wcid f.amsdu f.kind;
  w2 = f.info;
}

pub finish-with_frame :
    (r : OutRing) (dst : ℕ) (f : Submit)
    → r.idx < ring_size
    → play r (host_out_finish (pending r.idx dst f)) ≡ with_frame r f
unfolding host_out_finish play act
finish-with_frame r dst f h =
    let next : ℕ = if ltb (add32 r.idx 1) ring_size then add32 r.idx 1 else 0 in
    ap (λ (t : OutRing). record t { idx = next })
      (play-stores r r.idx f.info (word1 f.wcid f.amsdu f.kind) (word0 f.orig f.len f.is_last))
    ∙ ap (λ i. record { desc = put_at r.desc r.idx (desc_of f (r.desc r.idx).dst); idx = i })
        (wrap-next_slot r.idx h)

pub finish-dst :
    (r : OutRing) (p : HostOut) (k : ℕ) → ((play r (host_out_finish p)).desc k).dst ≡ (r.desc k).dst
unfolding host_out_finish play act
finish-dst r p k = ground arith

-- The accesses of a start with the frame p pending: p is finished first.
pub start-pending :
    (limit : ℕ) (r : OutRing) (p : HostOut) (f : Submit)
    → host_out_start limit r (some p) p.next f ≡ (
      pending p.next (r.desc p.next).dst f,
      host_out_finish p ++ copied f.buf (r.desc p.next).dst (dma_len limit f) ∷ [],
    )
unfolding host_out_start
start-pending limit r p f = rw (out_len-dma_len limit f) refl

pub play-start :
    (r : OutRing) (p : HostOut) (src dst len : ℕ)
    → play r (host_out_finish p ++ copied src dst len ∷ []) ≡ play r (host_out_finish p)
unfolding host_out_finish play act
play-start r p src dst len = refl

pub copies-start :
    (p : HostOut) (src dst len : ℕ) (more : List Access)
    → copies ((host_out_finish p ++ copied src dst len ∷ []) ++ more)
      ≡ copied src dst len ∷ copies more
unfolding host_out_finish copies
copies-start p src dst len more = refl

pub batch-more :
    (limit : ℕ) (r t : OutRing) (p : HostOut) (f : Submit) (fs : List Submit)
    → play r (host_out_finish p) ≡ t
    → out_batch limit r (some p) p.next (f ∷ fs)
      ≡ (host_out_finish p ++ copied f.buf (r.desc p.next).dst (dma_len limit f) ∷ [])
        ++ out_batch limit t
            (some (pending p.next (r.desc p.next).dst f))
            (pending p.next (r.desc p.next).dst f).next
            fs
unfolding out_batch
batch-more limit r t p f fs done =
    let dst : ℕ = (r.desc p.next).dst in
    let played = play-start r p f.buf dst (dma_len limit f) ∙ done in
    rw (start-pending limit r p f, played) refl

pub frame-Holds :
    (host : ℕ) (r : OutRing) (q : List Desc) (f : Submit)
    → HostHolds host r q
    → length q < ring_size
    → HostHolds host (with_frame r f) (q ++ desc_of f (r.desc r.idx).dst ∷ [])
frame-Holds host r q f held room =
    placed-Holds (λ d. d.w0) blank ring_size (as_ring host r) q (desc_of f (r.desc r.idx).dst) held
      (word0-odd f.orig f.len f.is_last) room
