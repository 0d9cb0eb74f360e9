-- ===== src/IdRing/Batch.antt =====
-- The batched calls of npu_wifi_bufid.c against the calls for one id.
use clanker_npu.Prelude.{
  ℕ, zero, suc, ◌^◌, ◌<◌, ◌≡◌, refl, ◌∙◌, true, false, arith, List, [], ◌∷◌, ◌==◌, if◌then◌else◌,
  get_or, add32, neg32,
}
use clanker_npu.IdRing.{
  IdRing, Tally, minus_one, next_index, tx_token_free, buf_id_alloc_ring, id_ring_take, take_loop,
  put_loop, tx_token_free_n, count_freed, count_taken, count_failed,
}
use clanker_npu.IdRing.Refine.{Holds, buf_id_alloc_ring-Holds, queue_alloc, Run-last, Run-next}

-- A client that asks for one id at a time, until it has max or is refused.
pub take_singly : ℕ → IdRing → List ℕ × IdRing
take_singly zero r = ([], r)
take_singly (suc max) r =
    let (id, r') = buf_id_alloc_ring r in
    let rest = take_singly max r' in if neg32 id then ([], r') else (id ∷ rest.0, rest.1)

pub free_singly : IdRing → List ℕ → IdRing
free_singly r [] = r
free_singly r (id ∷ ids) = free_singly (tx_token_free r id) ids

-- The counts of a ring are `u32` values.
pub record CountsFit (r : IdRing) : Type 0 where
  pub allocs : r.alloc_count < 2 ^ 32
  pub frees : r.free_count < 2 ^ 32
  pub freed : r.tally.freed < 2 ^ 32
  pub taken : r.tally.taken < 2 ^ 32

tally_of_none : (t : Tally) → t.freed < 2 ^ 32 → count_freed t 0 ≡ t
unfolding count_freed
tally_of_none t h = ground arith

tally_taken_none : (t : Tally) → t.taken < 2 ^ 32 → count_taken t 0 ≡ t
unfolding count_taken
tally_taken_none t h = ground arith

tally_freed_suc : (t : Tally) (n : ℕ) → count_freed (count_freed t 1) n ≡ count_freed t (suc n)
unfolding count_freed
tally_freed_suc t n = ground arith

tally_taken_suc : (t : Tally) (n : ℕ) → count_taken (count_taken t 1) n ≡ count_taken t (suc n)
unfolding count_taken
tally_taken_suc t n = ground arith

add32-suc : (c n : ℕ) → add32 (add32 c 1) n ≡ add32 c (suc n)
add32-suc c n = omega arith

tx_token_free_n-nil : (r : IdRing) → CountsFit r → tx_token_free_n r [] ≡ r
unfolding tx_token_free_n put_loop
tx_token_free_n-nil r h = rw (tally_of_none r.tally h.freed) (ground arith)

tx_token_free_n-cons :
    (r : IdRing) (id : ℕ) (ids : List ℕ)
    → tx_token_free_n r (id ∷ ids) ≡ tx_token_free_n (tx_token_free r id) ids
unfolding tx_token_free_n tx_token_free put_loop
tx_token_free_n-cons r id ids = rw (tally_freed_suc, add32-suc) refl

CountsFit-free : (r : IdRing) (id : ℕ) → CountsFit r → CountsFit (tx_token_free r id)
unfolding tx_token_free count_freed
CountsFit-free r id h = ground arith

-- Tokens freed in a batch leave the ring, its counts and the debug words as the same tokens freed
-- one by one, in order.
pub tx_token_free_n-eq-singly :
    (r : IdRing) (ids : List ℕ) → CountsFit r → tx_token_free_n r ids ≡ free_singly r ids
unfolding free_singly
tx_token_free_n-eq-singly r [] h = tx_token_free_n-nil r h
tx_token_free_n-eq-singly r (id ∷ ids) h =
    tx_token_free_n-cons r id ids
    ∙ tx_token_free_n-eq-singly (tx_token_free r id) ids (CountsFit-free r id h)

CountsFit-alloc : (r : IdRing) → CountsFit r → CountsFit (buf_id_alloc_ring r).1
unfolding buf_id_alloc_ring count_taken count_failed
CountsFit-alloc r h = ground arith

id_ring_take-zero : (r : IdRing) → CountsFit r → id_ring_take r 0 ≡ ([], r)
unfolding id_ring_take take_loop
id_ring_take-zero r h = rw (tally_taken_none r.tally h.taken) (ground arith)

-- At the slot that must stay behind the batch takes nothing and counts one failure.
id_ring_take-stop :
    (r : IdRing) (max : ℕ)
    → CountsFit r
    → (r.widx == next_index r.last r.ridx) ≡ true
    → id_ring_take r (suc max) ≡ ([], record r { tally = count_failed r.tally })
unfolding id_ring_take take_loop
id_ring_take-stop r max h e =
    let e' : (next_index r.last r.ridx == r.widx) ≡ true = ground arith in
    rw (e', tally_taken_none r.tally h.taken) (ground arith)

id_ring_take-more :
    (r : IdRing) (max x : ℕ)
    → (r.widx == next_index r.last r.ridx) ≡ false
    → get_or r.slots r.ridx 0 ≡ x
    → let rest = id_ring_take (buf_id_alloc_ring r).1 max in
      id_ring_take r (suc max) ≡ (x ∷ rest.0, rest.1)
unfolding id_ring_take take_loop buf_id_alloc_ring
id_ring_take-more r max x e first =
    let e' : (next_index r.last r.ridx == r.widx) ≡ false = ground arith in
    rw (e, e', first, tally_taken_suc, add32-suc) (ground arith)

neg32-id : (x : ℕ) → x < 2 ^ 15 → neg32 x ≡ false
neg32-id x h = ground arith

buf_id_alloc_ring-stop :
    (r : IdRing)
    → (r.widx == next_index r.last r.ridx) ≡ true
    → buf_id_alloc_ring r ≡ (minus_one, record r { tally = count_failed r.tally })
unfolding buf_id_alloc_ring
buf_id_alloc_ring-stop r e = rw e

-- A batch gives the ids, and leaves the ring, its counts and the debug words, of asking for one id
-- at a time until max are there or the ring refuses.
pub id_ring_take-eq-singly :
    (max : ℕ) (r : IdRing) (q : List ℕ)
    → Holds r q
    → CountsFit r
    → id_ring_take r max ≡ take_singly max r
unfolding take_singly queue_alloc
id_ring_take-eq-singly zero r q h c = id_ring_take-zero r c
id_ring_take-eq-singly (suc max) r [] h c = absurd (omega (arith, h.some_left))
id_ring_take-eq-singly (suc max) r (x ∷ []) h c =
    id_ring_take-stop r max c (Run-last h) ∙ rw (buf_id_alloc_ring-stop r (Run-last h))
id_ring_take-eq-singly (suc max) r (x ∷ y ∷ q) h c =
    let (more, first, rest) = Run-next h in
    let (got, held) = buf_id_alloc_ring-Holds r (x ∷ y ∷ q) h in
    let ih =
      id_ring_take-eq-singly max (buf_id_alloc_ring r).1 (y ∷ q) held (CountsFit-alloc r c) in
    id_ring_take-more r max x more first ∙ rw (got, neg32-id x h.ids.0, ih)
