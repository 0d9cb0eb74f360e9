-- ===== src/HostAdpt/Batch.antt =====
-- npu_hostadpt.c: host_out_start and host_out_finish with one copy in flight, against host_ring_submit.
use clanker_npu.Prelude.{
  ℕ, suc, ◌+◌, ◌<◌, ◌≤◌, ◌≡◌, ◌≢◌, refl, sym, ap, ap₂, ◌∙◌, arith, List, [], ◌∷◌, ◌++◌, false,
  Bool-cases, inl, inr, subst, length, length-append, if◌then◌else◌, ltb, none, some,
}
use clanker_npu.Fwd.{Submit}
use clanker_npu.Fwd.Slots.{slot}
use clanker_npu.HostAdpt.{
  Desc, OutRing, copied, act, play, ring_size, dma_len, check_slot, ready, room_slot, host_out_room,
  HostOut, host_out_finish, host_out_start,
}
use clanker_npu.HostAdpt.Words.{desc_of, out_len-dma_len}
use clanker_npu.HostAdpt.Queue.{
  HostHolds, with_frame, play-append, wrap-next_slot, ready-free, ready-taken, idx_in,
}
use clanker_npu.HostAdpt.Copies.{copies}
use clanker_npu.HostAdpt.Room.{check-slot}
use clanker_npu.HostAdpt.Pending.{
  out_batch, submit_all, pending, submit_all-more, finish-with_frame, finish-dst, play-start,
  copies-start, batch-more, frame-Holds,
}

-- A pending frame, after which the state is t, and the frames fs.
batch-pending :
    (fs : List Submit) (limit host : ℕ) (r t : OutRing) (p : HostOut) (q : List Desc)
    → play r (host_out_finish p) ≡ t
    → p.next ≡ t.idx
    → HostHolds host t q
    → length q + length fs < 511
    → submit_all limit t fs
      ≡ some (
        play r (out_batch limit r (some p) p.next fs),
        copies (out_batch limit r (some p) p.next fs),
      )
unfolding out_batch submit_all copies host_out_finish
batch-pending [] limit host r t p q done at held room = ap (λ u. some (u, [])) (sym done)
batch-pending (f ∷ fs) limit host r t p q done at held room =
    let dst : ℕ = (r.desc p.next).dst in
    let o : HostOut = pending p.next dst f in
    let inside = idx_in host t q held in
    let free : ready t (check_slot t.idx) ≡ false =
      subst (λ k. ready t k ≡ false) (sym (check-slot t.idx inside))
        (ready-free host t q 2 held (omega arith)) in
    let stands = frame-Holds host t q f held (omega arith) in
    let longer = length-append q (desc_of f (t.desc t.idx).dst ∷ []) in
    let finished : play t (host_out_finish o) ≡ with_frame t f =
      subst (λ i. play t (host_out_finish (pending i dst f)) ≡ with_frame t f) (sym at)
        (finish-with_frame t dst f inside) in
    let next_at : o.next ≡ (with_frame t f).idx =
      subst (λ i. (pending i dst f).next ≡ (with_frame t f).idx) (sym at)
        (wrap-next_slot t.idx inside) in
    let rest =
      batch-pending fs limit host t (with_frame t f) o (q ++ desc_of f (t.desc t.idx).dst ∷ [])
        finished next_at stands (omega (arith, longer)) in
    let first = host_out_finish p ++ copied f.buf dst (dma_len limit f) ∷ [] in
    let after = out_batch limit t (some o) o.next fs in
    let same_dst : (t.desc t.idx).dst ≡ dst =
      ap (λ i. (t.desc i).dst) (sym at)
      ∙ (ap (λ (u : OutRing). (u.desc p.next).dst) (sym done) ∙ finish-dst r p p.next) in
    let ring : play t after ≡ play r (first ++ after) =
      ap (λ u. play u after) (sym (play-start r p f.buf dst (dma_len limit f) ∙ done))
      ∙ sym (play-append r first after) in
    let same : copied f.buf (t.desc t.idx).dst (dma_len limit f) ∷ copies after
        ≡ copies (first ++ after) =
      ap (λ d. copied f.buf d (dma_len limit f) ∷ copies after) same_dst
      ∙ sym (copies-start p f.buf dst (dma_len limit f) after) in
    submit_all-more limit t f fs (play t after) (copies after) inside free rest
    ∙ (ap₂ (λ u c. some (u, c)) ring same
        ∙ ap (λ b. some (play r b, copies b)) (sym (batch-more limit r t p f fs done)))

-- With no frame pending the first start is a pure copy.
start-first :
    (limit : ℕ) (r : OutRing) (f : Submit)
    → host_out_start limit r none r.idx f
      ≡ (pending r.idx (r.desc r.idx).dst f, copied f.buf (r.desc r.idx).dst (dma_len limit f) ∷ [])
unfolding host_out_start
start-first limit r f = rw (out_len-dma_len limit f) refl

batch-first :
    (limit : ℕ) (r : OutRing) (f : Submit) (fs : List Submit)
    → out_batch limit r none r.idx (f ∷ fs)
      ≡ copied f.buf (r.desc r.idx).dst (dma_len limit f)
        ∷ out_batch limit r
            (some (pending r.idx (r.desc r.idx).dst f))
            (pending r.idx (r.desc r.idx).dst f).next
            fs
unfolding out_batch play act
batch-first limit r f fs = rw (start-first limit r f) refl

pub room-slot :
    (idx n : ℕ) → idx < ring_size → n < 511 → room_slot idx n ≡ slot ring_size idx (n + 1)
room-slot idx n h lt = ground (arith, h, lt)

-- The room test is exact.
pub host_out_room-exact :
    (host : ℕ) (r : OutRing) (q : List Desc) (n : ℕ)
    → HostHolds host r q
    → n < 511
    → host_out_room false r r.idx n ≡ (if ltb (length q + n) 511 then n else 0)
unfolding host_out_room
host_out_room-exact host r q n held few =
    let inside = idx_in host r q held in
    let at = room-slot r.idx n inside few in
    elim (Bool-cases (ltb (length q + n) 511)) [
      | inl e ↦
          let less : length q + n < 511 = ground (arith, e) in
          rw (at, ready-free host r q (n + 1) held (omega arith), e) refl
      | inr e ↦
          let more : 511 ≤ length q + n = ground (arith, e) in
          rw (at, ready-taken host r q (n + 1) held (omega arith) (omega arith), e) refl
    ]

room-granted :
    (host : ℕ) (r : OutRing) (q : List Desc) (n : ℕ)
    → HostHolds host r q
    → n < 511
    → host_out_room false r r.idx n ≢ 0
    → length q + n < 511
room-granted host r q n held few granted =
    ground (arith, granted, host_out_room-exact host r q n held few)

-- Fewer than 511 frames, the debug counters off, when host_out_room has granted room for as many: sent by
-- host_out_start and host_out_finish, with one copy in flight, they leave the same ring and make the same
-- copies as host_ring_submit for one after another, which accepts them all.
pub host_out-eq-submits :
    (limit host : ℕ) (r : OutRing) (q : List Desc) (fs : List Submit)
    → HostHolds host r q
    → host_out_room false r r.idx (length fs) ≢ 0
    → length fs < 511
    → submit_all limit r fs
      ≡ some (play r (out_batch limit r none r.idx fs), copies (out_batch limit r none r.idx fs))
unfolding submit_all out_batch play act copies
host_out-eq-submits limit host r q [] held granted few = refl
host_out-eq-submits limit host r q (f ∷ fs) held granted few =
    let room : length q + suc (length fs) < 511 =
      room-granted host r q (suc (length fs)) held few granted in
    let inside = idx_in host r q held in
    let dst : ℕ = (r.desc r.idx).dst in
    let p : HostOut = pending r.idx dst f in
    let free : ready r (check_slot r.idx) ≡ false =
      subst (λ k. ready r k ≡ false) (sym (check-slot r.idx inside))
        (ready-free host r q 2 held (omega arith)) in
    let longer = length-append q (desc_of f dst ∷ []) in
    let after = out_batch limit r (some p) p.next fs in
    let rest =
      batch-pending fs limit host r (with_frame r f) p (q ++ desc_of f dst ∷ [])
        (finish-with_frame r dst f inside) (wrap-next_slot r.idx inside)
        (frame-Holds host r q f held (omega arith)) (omega (arith, longer)) in
    submit_all-more limit r f fs (play r after) (copies after) inside free rest
    ∙ ap (λ b. some (play r b, copies b)) (sym (batch-first limit r f fs))
