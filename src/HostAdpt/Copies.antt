-- ===== src/HostAdpt/Copies.antt =====
-- npu_hostadpt.c: the copies that host_ring_submit makes.
use clanker_npu.Prelude.{
  ℕ, ◌≡◌, refl, ap, List, [], ◌∷◌, ◌++◌, Bool, true, false, ◌&&◌, if◌then◌else◌, ltb, add32,
}
use clanker_npu.Fwd.{Submit}
use clanker_npu.HostAdpt.{
  OutRing, Access, counted, copied, waited, store_w0, store_w1, store_w2, set_idx, complained,
  ring_size, dma_len, host_ring_write_desc, count_if, check_slot, ready, submit_on,
}

-- The copies among some accesses.
unfoldable pub copies : List Access → List Access
copies [] = []
copies (copied src dst len ∷ more) = copied src dst len ∷ copies more
copies (counted band offset ∷ more) = copies more
copies (waited ∷ more) = copies more
copies (store_w2 k v ∷ more) = copies more
copies (store_w1 k v ∷ more) = copies more
copies (store_w0 k v ∷ more) = copies more
copies (set_idx v ∷ more) = copies more
copies (complained ∷ more) = copies more

pub copies-append : (xs ys : List Access) → copies (xs ++ ys) ≡ copies xs ++ copies ys
unfolding copies
copies-append [] ys = refl
copies-append (copied src dst len ∷ more) ys =
    ap (λ c. copied src dst len ∷ c) (copies-append more ys)
copies-append (counted band offset ∷ more) ys = copies-append more ys
copies-append (waited ∷ more) ys = copies-append more ys
copies-append (store_w2 k v ∷ more) ys = copies-append more ys
copies-append (store_w1 k v ∷ more) ys = copies-append more ys
copies-append (store_w0 k v ∷ more) ys = copies-append more ys
copies-append (set_idx v ∷ more) ys = copies-append more ys
copies-append (complained ∷ more) ys = copies-append more ys

pub copies-count_if : (on : Bool) (block offset : ℕ) → copies (count_if on block offset) ≡ []
unfolding copies
copies-count_if true block offset = refl
copies-count_if false block offset = refl

copies-write :
    (limit : ℕ) (count : Bool) (k dst : ℕ) (f : Submit) (more : List Access)
    → copies (host_ring_write_desc limit count k dst f ++ more)
      ≡ copied f.buf dst (dma_len limit f) ∷ copies more
unfolding copies host_ring_write_desc
copies-write limit true k dst f more = refl
copies-write limit false k dst f more = refl

pub copies-room :
    (limit : ℕ) (debug tri : Bool) (band : ℕ) (r : OutRing) (f : Submit)
    → ready r (check_slot r.idx) ≡ false
    → copies (submit_on limit debug tri band r f).1
      ≡ copied f.buf (r.desc r.idx).dst (dma_len limit f) ∷ []
unfolding submit_on copies
copies-room limit debug tri band r f e = rw e (
    copies-write limit (debug && tri) r.idx (r.desc r.idx).dst f
      (set_idx (if ltb (add32 r.idx 1) ring_size then add32 r.idx 1 else 0) ∷ []))

pub copies-busy :
    (limit : ℕ) (debug tri : Bool) (band : ℕ) (r : OutRing) (f : Submit)
    → ready r (check_slot r.idx) ≡ true
    → copies (submit_on limit debug tri band r f).1 ≡ []
unfolding submit_on copies
copies-busy limit true tri band r f e = rw e refl
copies-busy limit false tri band r f e = rw e refl
