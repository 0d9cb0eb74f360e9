-- ===== src/BufId/Tests.antt =====
-- The pools at concrete inputs: an rx ring of four ids, the token ring at its full size.
use mathlib.Core.List.{Perm, Nodup}
use clanker_npu.Prelude.{
  ℕ, ◌≡◌, refl, arith, true, false, List, [], ◌∷◌, ◌++◌, length, replicate, length-replicate,
}
use clanker_npu.IdRing.{IdRing, Tally, buf_id_alloc_ring}
use clanker_npu.IdRing.Refine.{Holds}
use clanker_npu.IdRing.Conserve.{got, here, next}
use clanker_npu.BufId.{Jumbo, Pools, bufid_pool_init, fill_ids, tx_jumbo_pairs}
use clanker_npu.BufId.Init.{ids_from, rx_ids-Nodup}

abbrev quiet : Tally
quiet = record { counting = false; freed = 0; taken = 0; failed = 0 }

-- A ring after a boot that has not set it up.
abbrev blank : ℕ → List ℕ → IdRing
blank last slots = record {
  slots = slots;
  last = last;
  ridx = 2;
  widx = 1;
  alloc_count = 0;
  free_count = 0;
  tally = quiet;
}

abbrev four : List ℕ
four = 9 ∷ 9 ∷ 9 ∷ 9 ∷ []

abbrev pools : Pools
pools = record {
  rx = blank 3 four;
  tx = blank 13311 [];
  jumbo = record { stack = replicate 128 0; top = 0 };
}

rx_ring : IdRing
unfolding bufid_pool_init
rx_ring = (bufid_pool_init true true four [] pools).rx

rx_ids-Nodup_example :
    (queue : List ℕ) × Holds
      (buf_id_alloc_ring (bufid_pool_init true true four [] pools).rx).1
      queue
    × Perm
        (queue ++ (buf_id_alloc_ring (bufid_pool_init true true four [] pools).rx).0 ∷ [])
        (ids_from 0 4)
    × Nodup (queue ++ (buf_id_alloc_ring (bufid_pool_init true true four [] pools).rx).0 ∷ [])
unfolding bufid_pool_init buf_id_alloc_ring fill_ids
rx_ids-Nodup_example =
    rx_ids-Nodup true true four [] pools _ refl (omega arith)
      (next here (got (λ e. omega (arith, e))))

-- Two tokens on the stack.
abbrev two_tokens : Jumbo
two_tokens = record { stack = 13056 ∷ 13058 ∷ replicate 126 0; top = 2 }

two_tokens_length : length two_tokens.stack ≡ tx_jumbo_pairs
two_tokens_length = omega (arith, length-replicate {A = ℕ} 126 0)
