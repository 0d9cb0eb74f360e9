-- ===== src/BufId/Init.antt =====
-- What the pools hold once they are set up.
use mathlib.Core.List.{Perm, Mem, Nodup, Nodup-nil, Nodup-cons, not-mem-nil, mem-cons, append-nil}
use mathlib.Core.Logic.Or
use native.Mathlib.Bridge.{le_prop}
use clanker_npu.IdRing.Conserve.{Pool, Reach, Reach-Nodup}
use mathlib.Core.List.Perm
use native.Mathlib.Numerals.{add-one}
use native.Mathlib.Decide.{ℕ_discrete}
use clanker_npu.Prelude.{
  ℕ, zero, suc, ◌+◌, ◌^◌, ◌≤◌, ◌<◌, ◌≡◌, refl, ap, ap₂, sym, ◌∙◌, Bool, true, false, arith, List,
  [], ◌∷◌, ◌++◌, ◌==◌, if◌then◌else◌, length, get_or, set, length-set, get_or-set_self,
  get_or-set_ne, u16,
}
use clanker_npu.IdRing.{next_index}
use clanker_npu.IdRing.Window.{index_after, window}
use clanker_npu.IdRing.Refine.{AllIds, Holds, Run}
use clanker_npu.BufId.{
  Pools, fill_ids, rx_bufid_pool_reset, bufid_pool_init, tx_free_ring_entries, tx_token_ids,
  tx_jumbo_first,
}

-- i, i + 1, …: n ids.
unfoldable pub ids_from : ℕ → ℕ → List ℕ
ids_from i zero = []
ids_from i (suc n) = i ∷ ids_from (i + 1) n

length-ids_from : (i n : ℕ) → length (ids_from i n) ≡ n
unfolding ids_from
length-ids_from i zero = refl
length-ids_from i (suc n) = ap suc (length-ids_from (i + 1) n)

ids_from-AllIds : (i n : ℕ) → i + n ≤ 2 ^ 15 → AllIds (ids_from i n)
unfolding ids_from
ids_from-AllIds i zero h = tt
ids_from-AllIds i (suc n) h = (omega arith, ids_from-AllIds (i + 1) n (omega arith))

length-fill_ids : (n i : ℕ) (p : List ℕ) → length (fill_ids n i p) ≡ length p
unfolding fill_ids
length-fill_ids zero i p = refl
length-fill_ids (suc n) i p = length-fill_ids n (i + 1) (set p i (u16 i)) ∙ length-set p i (u16 i)

fill_ids-below : (n i j : ℕ) (p : List ℕ) → j < i → get_or (fill_ids n i p) j 0 ≡ get_or p j 0
unfolding fill_ids
fill_ids-below zero i j p h = refl
fill_ids-below (suc n) i j p h =
    fill_ids-below n (i + 1) j (set p i (u16 i)) (omega arith)
    ∙ get_or-set_ne p i j (u16 i) 0 (λ e. omega (arith, e))

fill_ids-at :
    (n i j : ℕ) (p : List ℕ)
    → i ≤ j
    → j < i + n
    → i + n ≤ length p
    → i + n ≤ 2 ^ 15
    → get_or (fill_ids n i p) j 0 ≡ j
unfolding fill_ids
fill_ids-at zero i j p a b c d = absurd (omega arith)
fill_ids-at (suc n) i j p a b c d = elim (ℕ_discrete i j) [
  | yes e ↦
      fill_ids-below n (i + 1) j (set p i (u16 i)) (omega arith)
      ∙ rw (← e) (get_or-set_self p i (u16 i) 0 (omega arith) ∙ omega arith)
  | no ne ↦
      fill_ids-at n (i + 1) j (set p i (u16 i)) (omega arith) (omega arith)
        (omega (arith, length-set p i (u16 i))) (omega arith)
]

window-ids_from :
    (slots : List ℕ) (last n i : ℕ)
    → ((j : ℕ) → i ≤ j → j < i + n → get_or slots j 0 ≡ j)
    → i + n ≤ suc last
    → window slots last i n ≡ ids_from i n
unfolding ids_from
window-ids_from slots last zero i h k = refl
window-ids_from slots last (suc zero) i h k = ap (λ x. x ∷ []) (h i (omega arith) (omega arith))
window-ids_from slots last (suc (suc n)) i h k =
    let step : next_index last i ≡ i + 1 = ground arith in
    ap₂ ◌∷◌ (h i (omega arith) (omega arith)) (
      rw step (
        window-ids_from slots last (suc n) (i + 1) (λ j a b. h j (omega arith) (omega arith))
          (omega arith)))

-- An array filled with the first n ids is a run of them.
fill_ids-Run :
    (last n w : ℕ) (p : List ℕ)
    → length p ≡ suc last
    → 1 ≤ n
    → n ≤ suc last
    → suc last ≤ 2 ^ 15
    → w ≡ index_after last 0 n
    → Run (fill_ids n 0 p) last 0 w (ids_from 0 n)
fill_ids-Run last n w p len a b c e = record {
  storage = omega (arith, length-fill_ids n 0 p);
  start_in = omega arith;
  some_left = omega (arith, length-ids_from 0 n);
  fits = omega (arith, length-ids_from 0 n);
  end_at = e ∙ ap (index_after last 0) (sym (length-ids_from 0 n));
  reads =
      ap (window (fill_ids n 0 p) last 0) (length-ids_from 0 n)
      ∙ window-ids_from (fill_ids n 0 p) last n 0
          (λ j x y. fill_ids-at n 0 j p x y (omega arith) (omega arith)) (omega arith);
  ids = ids_from-AllIds 0 n (omega arith);
}

-- After a reset the rx ring holds every id of its range in order, each free.
pub rx_bufid_pool_reset-Holds :
    (p : Pools)
    → length p.rx.slots ≡ suc p.rx.last
    → suc p.rx.last ≤ 2 ^ 15
    → Holds (rx_bufid_pool_reset p).rx (ids_from 0 (suc p.rx.last))
unfolding rx_bufid_pool_reset
rx_bufid_pool_reset-Holds p len small = rw add-one (
    fill_ids-Run p.rx.last (suc p.rx.last) 0 p.rx.slots len (omega arith) (omega arith) small
      (ground arith))

token_ring-Run :
    (has_jumbo : Bool) (last : ℕ) (mem : List ℕ)
    → length mem ≡ tx_free_ring_entries
    → suc last ≡ tx_free_ring_entries
    → let ids = tx_token_ids has_jumbo in
      Run
        (fill_ids ids 0 mem)
        last
        0
        (if ids == tx_free_ring_entries then 0 else ids)
        (ids_from 0 ids)
token_ring-Run true last mem len e =
    fill_ids-Run last tx_jumbo_first tx_jumbo_first mem (omega arith) (omega arith) (omega arith)
      (omega arith) (ground arith)
token_ring-Run false last mem len e =
    fill_ids-Run last tx_free_ring_entries 0 mem (omega arith) (omega arith) (omega arith)
      (omega arith) (ground arith)

-- bufid_pool_init leaves the rx ring with every buffer id, and the token ring with the ids below
-- the jumbo pairs, or with all 13312 where the build has none.
pub bufid_pool_init-Holds :
    (has_jumbo : Bool) (rx_mem tx_mem : List ℕ) (p : Pools)
    → length rx_mem ≡ suc p.rx.last
    → suc p.rx.last ≤ 2 ^ 15
    → length tx_mem ≡ tx_free_ring_entries
    → suc p.tx.last ≡ tx_free_ring_entries
    → let q = bufid_pool_init true has_jumbo rx_mem tx_mem p in
      Holds q.rx (ids_from 0 (suc p.rx.last)) × Holds q.tx (ids_from 0 (tx_token_ids has_jumbo))
unfolding bufid_pool_init
bufid_pool_init-Holds has_jumbo rx_mem tx_mem p len small tx_len tx_last = (
  rw add-one (
      fill_ids-Run p.rx.last (suc p.rx.last) 0 rx_mem len (omega arith) (omega arith) small
        (ground arith)),
  token_ring-Run has_jumbo p.tx.last tx_mem tx_len tx_last,
)

ids_from-least : (i n x : ℕ) → Mem x (ids_from i n) → i ≤ x
unfolding ids_from
ids_from-least i zero x m = absurd (not-mem-nil m)
ids_from-least i (suc n) x m =
    Or.elim le_prop (mem-cons.0 m) (λ (e : x ≡ i). omega (arith, e))
      (λ (t : Mem x (ids_from (i + 1) n)). omega (arith, ids_from-least (i + 1) n x t))

pub ids_from-Nodup : (i n : ℕ) → Nodup (ids_from i n)
unfolding ids_from
ids_from-Nodup i zero = Nodup-nil
ids_from-Nodup i (suc n) =
    Nodup-cons.1
      ((λ m. absurd (omega (arith, ids_from-least (i + 1) n i m))), ids_from-Nodup (i + 1) n)

-- From the init on, whatever the harts allocate and give back, no rx buffer id is in two hands or
-- both in a hand and in the ring, and none is lost.
pub rx_ids-Nodup :
    (has_tx has_jumbo : Bool) (rx_mem tx_mem : List ℕ) (p : Pools) (after : Pool)
    → length rx_mem ≡ suc p.rx.last
    → suc p.rx.last ≤ 2 ^ 15
    → Reach
        (record { ring = (bufid_pool_init has_tx has_jumbo rx_mem tx_mem p).rx; out = [] })
        after
    → (queue : List ℕ) × Holds after.ring queue
      × Perm (queue ++ after.out) (ids_from 0 (suc p.rx.last))
      × Nodup (queue ++ after.out)
unfolding bufid_pool_init
rx_ids-Nodup has_tx has_jumbo rx_mem tx_mem p after len small reach =
    let all = ids_from 0 (suc p.rx.last) in
    Reach-Nodup all _ after (ids_from-Nodup 0 (suc p.rx.last))
      (
        all,
        record {
          holds = rw add-one (
              fill_ids-Run p.rx.last (suc p.rx.last) 0 rx_mem len (omega arith) (omega arith) small
                (ground arith));
          everyone = omega (arith, length-ids_from 0 (suc p.rx.last));
          fits = tt;
          perm = rw append-nil (Perm.refl all);
        },
      )
      reach
