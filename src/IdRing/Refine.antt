-- ===== src/IdRing/Refine.antt =====
-- A ring of ids behaves as a queue that always keeps one id back.
use clanker_npu.Prelude.{
  ℕ, suc, ◌^◌, ◌≤◌, ◌<◌, ◌≡◌, refl, ap, ◌∙◌, sym, true, false, arith, List, [], ◌∷◌, ◌++◌, ◌==◌,
  length, All, get_or, set, length-set, length-append,
}
use clanker_npu.IdRing.{
  IdRing, minus_one, sign_extend, next_index, buf_id_return, tx_token_free, buf_id_alloc_ring,
  tx_token_alloc,
}
use clanker_npu.IdRing.Window.{
  index_after, window, window-set, index_after_next, next-index_after, next_index-le,
}

-- An id that `s16` reads as itself.
abbrev pub AllIds : List ℕ → Type 0
AllIds q = All (λ id. id < 2 ^ 15) q

-- The slots from index i up to index w hold the ids of q, oldest first.
pub record Run (slots : List ℕ) (last i w : ℕ) (q : List ℕ) : Type 0 where
  pub storage : length slots ≡ suc last
  pub start_in : i ≤ last
  pub some_left : 1 ≤ length q
  pub fits : length q ≤ suc last
  pub end_at : w ≡ index_after last i (length q)
  pub reads : window slots last i (length q) ≡ q
  pub ids : AllIds q

abbrev pub Holds : IdRing → List ℕ → Type 0
Holds r q = Run r.slots r.last r.ridx r.widx q

-- What an allocation does to the queue: the oldest id goes out, but never the last one.
unfoldable pub queue_alloc : List ℕ → ℕ × List ℕ
queue_alloc [] = (minus_one, [])
queue_alloc (x ∷ []) = (minus_one, x ∷ [])
queue_alloc (x ∷ y ∷ q) = (x, y ∷ q)

All-snoc : (q : List ℕ) (x : ℕ) → AllIds q → x < 2 ^ 15 → AllIds (q ++ x ∷ [])
All-snoc [] x h hx = (hx, tt)
All-snoc (y ∷ q) x h hx = (h.0, All-snoc q x h.1 hx)

snoc_length : (q : List ℕ) (x : ℕ) → length (q ++ x ∷ []) ≡ suc (length q)
snoc_length q x = omega (arith, length-append q (x ∷ []))

pub Run-put :
    {slots q : List ℕ} {last i w : ℕ} (id : ℕ)
    → Run slots last i w q
    → length q ≤ last
    → id < 2 ^ 15
    → Run (set slots w id) last i (next_index last w) (q ++ id ∷ [])
Run-put {slots} {q} {last} {i} {w} id h room small = record {
  storage = omega (arith, length-set slots w id, h.storage);
  start_in = h.start_in;
  some_left = omega (arith, snoc_length q id);
  fits = omega (arith, snoc_length q id);
  end_at =
      ap (next_index last) h.end_at
      ∙ (next-index_after last i (length q) h.start_in room
          ∙ ap (index_after last i) (omega (arith, snoc_length q id)));
  reads =
      ap (window (set slots w id) last i) (snoc_length q id)
      ∙ (window-set slots last id (length q) i w h.storage h.start_in room h.end_at
          ∙ ap (λ l. l ++ id ∷ []) h.reads);
  ids = All-snoc q id h.ids small;
}

-- A run of one id ends one past its start, and a longer one does not.
pub Run-last :
    {slots : List ℕ} {last i w x : ℕ}
    → Run slots last i w (x ∷ [])
    → (w == next_index last i) ≡ true
Run-last h = ground arith

pub Run-next :
    {slots q : List ℕ} {last i w x y : ℕ}
    → Run slots last i w (x ∷ y ∷ q)
    → ((w == next_index last i) ≡ false)
      × (get_or slots i 0 ≡ x)
      × Run slots last (next_index last i) w (y ∷ q)
Run-next {slots} {q} {last} {i} h = (
  ground arith,
  cc,
  record {
    storage = h.storage;
    start_in = next_index-le last i h.start_in;
    some_left = omega arith;
    fits = omega (arith, h.fits);
    end_at =
        h.end_at
        ∙ sym (index_after_next last i (suc (length q)) h.start_in (omega (arith, h.fits)));
    reads = cc;
    ids = h.ids.1;
  },
)

pub sign_extend-id : (x : ℕ) → x < 2 ^ 15 → sign_extend x ≡ x
sign_extend-id x h = ground arith

-- A returned id goes to the end of the queue, when an id is outstanding.
pub buf_id_return-Holds :
    (r : IdRing) {q : List ℕ} (id : ℕ)
    → Holds r q
    → length q ≤ r.last
    → id < 2 ^ 15
    → Holds (buf_id_return r id) (q ++ id ∷ [])
unfolding buf_id_return
buf_id_return-Holds r id h room small = Run-put id h room small

pub tx_token_free-Holds :
    (r : IdRing) {q : List ℕ} (token : ℕ)
    → Holds r q
    → length q ≤ r.last
    → token < 2 ^ 15
    → Holds (tx_token_free r token) (q ++ token ∷ [])
unfolding tx_token_free
tx_token_free-Holds r token h room small = Run-put token h room small

-- An allocation gives what the queue gives, and leaves the ring holding the rest.
pub buf_id_alloc_ring-Holds :
    (r : IdRing) (q : List ℕ)
    → Holds r q
    → ((buf_id_alloc_ring r).0 ≡ (queue_alloc q).0)
      × Holds (buf_id_alloc_ring r).1 (queue_alloc q).1
unfolding buf_id_alloc_ring queue_alloc
buf_id_alloc_ring-Holds r [] h = absurd (omega (arith, h.some_left))
buf_id_alloc_ring-Holds r (x ∷ []) h = rw (Run-last h) (refl, h)
buf_id_alloc_ring-Holds r (x ∷ y ∷ q) h =
    let (more, first, rest) = Run-next h in
    rw more (ap sign_extend first ∙ sign_extend-id x h.ids.0, rest)

pub tx_token_alloc-eq : (r : IdRing) → tx_token_alloc r ≡ buf_id_alloc_ring r
unfolding tx_token_alloc buf_id_alloc_ring
tx_token_alloc-eq r = refl

pub tx_token_alloc-Holds :
    (r : IdRing) (q : List ℕ)
    → Holds r q
    → ((tx_token_alloc r).0 ≡ (queue_alloc q).0) × Holds (tx_token_alloc r).1 (queue_alloc q).1
tx_token_alloc-Holds r q h = rw (tx_token_alloc-eq r) (buf_id_alloc_ring-Holds r q h)
