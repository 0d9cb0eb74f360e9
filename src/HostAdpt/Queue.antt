-- ===== src/HostAdpt/Queue.antt =====
-- npu_hostadpt.c: host_ring_submit puts a frame behind those that the host has not taken.
use clanker_npu.Prelude.{
  ℕ, ◌+◌, ◌-◌, ◌<◌, ◌≤◌, ◌≡◌, refl, ap, ◌∙◌, arith, List, [], ◌∷◌, ◌++◌, Bool, true, false, ◌&&◌,
  length, if◌then◌else◌, ltb, add32,
}
use mathlib.Core.Path.{fun_ext}
use clanker_npu.Fwd.{Ring, Submit, put_at, next_slot}
use clanker_npu.Fwd.Slots.{Holds, slot}
use clanker_npu.HostAdpt.{
  Desc, OutRing, Access, store_w0, store_w1, store_w2, set_idx, act, play, ring_size, failed, word0,
  word1, host_ring_write_desc, count_if, check_slot, ready, submit_on,
}
use clanker_npu.HostAdpt.Words.{desc_of}

abbrev pub blank : Desc
blank = record { w0 = 0; w1 = 0; w2 = 0; dst = 0 }

-- The ring as the host meets it, whose next slot is `host`.
abbrev pub as_ring : ℕ → OutRing → Ring Desc
as_ring host r = record { nodes = r.desc; widx = r.idx; ridx = host }

-- The host has still to take q, oldest first.
abbrev pub HostHolds : ℕ → OutRing → List Desc → Type 0
HostHolds host r q = Holds (λ d. d.w0) blank ring_size (as_ring host r) q

pub play-append : (r : OutRing) (xs ys : List Access) → play r (xs ++ ys) ≡ play (play r xs) ys
unfolding play
play-append r [] ys = refl
play-append r (x ∷ xs) ys = play-append (act r x) xs ys

pub play-count_if :
    (r : OutRing) (on : Bool) (block offset : ℕ) → play r (count_if on block offset) ≡ r
unfolding play act
play-count_if r true block offset = refl
play-count_if r false block offset = refl

-- The three words of a slot, stored in this order.
pub play-stores :
    (r : OutRing) (k a b c : ℕ)
    → play r (store_w2 k a ∷ store_w1 k b ∷ store_w0 k c ∷ []) ≡ record r {
      desc = put_at r.desc k (record { w0 = c; w1 = b; w2 = a; dst = (r.desc k).dst });
    }
unfolding play act
play-stores r k a b c = ap (λ d. record r { desc = d }) (fun_ext λ j. ground arith)

-- The ring with a frame in the slot of its index, and the index one further.
abbrev pub with_frame : OutRing → Submit → OutRing
with_frame r f = record {
  desc = put_at r.desc r.idx (desc_of f (r.desc r.idx).dst);
  idx = next_slot ring_size r.idx;
}

pub wrap-next_slot :
    (i : ℕ)
    → i < ring_size
    → (if ltb (add32 i 1) ring_size then add32 i 1 else 0) ≡ next_slot ring_size i
wrap-next_slot i h = ground (arith, h)

pub play-write :
    (limit : ℕ) (count : Bool) (r : OutRing) (f : Submit)
    → play r (host_ring_write_desc limit count r.idx (r.desc r.idx).dst f)
      ≡ record r { desc = put_at r.desc r.idx (desc_of f (r.desc r.idx).dst) }
unfolding host_ring_write_desc play act
play-write limit true r f =
    play-stores r r.idx f.info (word1 f.wcid f.amsdu f.kind) (word0 f.orig f.len f.is_last)
play-write limit false r f =
    play-stores r r.idx f.info (word1 f.wcid f.amsdu f.kind) (word0 f.orig f.len f.is_last)

pub submit_on-room :
    (limit : ℕ) (debug tri : Bool) (band : ℕ) (r : OutRing) (f : Submit)
    → r.idx < ring_size
    → ready r (check_slot r.idx) ≡ false
    → ((submit_on limit debug tri band r f).0 ≡ 0)
      × (play r (submit_on limit debug tri band r f).1 ≡ with_frame r f)
unfolding submit_on play act
submit_on-room limit debug tri band r f h e =
    let write = host_ring_write_desc limit (debug && tri) r.idx (r.desc r.idx).dst f in
    let wrap = wrap-next_slot r.idx h in
    let next : ℕ = if ltb (add32 r.idx 1) ring_size then add32 r.idx 1 else 0 in
    let played : play r (write ++ set_idx next ∷ []) ≡ with_frame r f =
      play-append r write (set_idx next ∷ [])
      ∙ (ap (λ t. play t (set_idx next ∷ [])) (play-write limit (debug && tri) r f)
          ∙ ap (λ i. record { desc = put_at r.desc r.idx (desc_of f (r.desc r.idx).dst); idx = i })
              wrap) in
    (rw e refl, rw e played)

pub submit_on-busy :
    (limit : ℕ) (debug tri : Bool) (band : ℕ) (r : OutRing) (f : Submit)
    → ready r (check_slot r.idx) ≡ true
    → ((submit_on limit debug tri band r f).0 ≡ failed)
      × (play r (submit_on limit debug tri band r f).1 ≡ r)
unfolding submit_on play act
submit_on-busy limit true tri band r f e = (rw e refl, rw e refl)
submit_on-busy limit false tri band r f e = (rw e refl, rw e refl)

-- The slot k past the index, for the room tests.
pub ready-free :
    (host : ℕ) (r : OutRing) (q : List Desc) (k : ℕ)
    → HostHolds host r q
    → length q + k < ring_size
    → ready r (slot ring_size r.idx k) ≡ false
ready-free host r q k h room =
    let at : slot ring_size r.idx k ≡ slot ring_size host (length q + k) =
      ground (arith, h.end_at, h.start_in) in
    rw (at, h.free (length q + k) (omega arith) room) refl

pub ready-taken :
    (host : ℕ) (r : OutRing) (q : List Desc) (k : ℕ)
    → HostHolds host r q
    → ring_size ≤ length q + k
    → k < ring_size
    → ready r (slot ring_size r.idx k) ≡ true
ready-taken host r q k h turn lt =
    let j : ℕ = length q + k - ring_size in
    let inside : j < length q = omega (arith, h.fits) in
    let at : slot ring_size r.idx k ≡ slot ring_size host j =
      ground (arith, h.end_at, h.start_in, h.fits) in
    rw (at, h.reads j inside, h.ready j inside) refl

pub idx_in : (host : ℕ) (r : OutRing) (q : List Desc) → HostHolds host r q → r.idx < ring_size
idx_in host r q h = ground (arith, h.end_at, h.start_in, h.fits)
