-- ===== src/IdRing/Tests.antt =====
-- A small ring of ids, and the theorems on it.
use mathlib.Core.List.{Perm, Nodup}
use mathlib.Core.List.Perm
use clanker_npu.Prelude.{ℕ, refl, arith, true, List, [], ◌∷◌, ◌++◌}
use clanker_npu.IdRing.{IdRing, buf_id_return}
use clanker_npu.IdRing.Refine.{Holds}
use clanker_npu.IdRing.Batch.{CountsFit}
use clanker_npu.BufId.Init.{ids_from, ids_from-Nodup}
use clanker_npu.IdRing.Conserve.{Pool, gave, here, next, Owned, Reach-Nodup}

-- Ids 20, 21 and 22 of four slots, wrapped round the end; 23 is out.
abbrev small_ring : IdRing
small_ring = record {
  slots = 21 ∷ 22 ∷ 99 ∷ 20 ∷ [];
  last = 3;
  ridx = 3;
  widx = 2;
  alloc_count = 7;
  free_count = 6;
  tally = record { counting = true; freed = 6; taken = 7; failed = 0 };
}

abbrev held : List ℕ
held = 20 ∷ 21 ∷ 22 ∷ []

small_ring-Holds : Holds small_ring held
small_ring-Holds = record {
  storage = refl;
  start_in = omega arith;
  some_left = omega arith;
  fits = omega arith;
  end_at = refl;
  reads = refl;
  ids = omega arith;
}

small_ring-CountsFit : CountsFit small_ring
small_ring-CountsFit = omega arith

abbrev pool : Pool
pool = record { ring = small_ring; out = 23 ∷ [] }

abbrev all_ids : List ℕ
all_ids = 20 ∷ 21 ∷ 22 ∷ 23 ∷ []

pool-Owned : Owned all_ids pool held
pool-Owned = record {
  holds = small_ring-Holds;
  everyone = refl;
  fits = omega arith;
  perm = Perm.refl all_ids;
}

all_ids-Nodup : Nodup all_ids
unfolding ids_from
all_ids-Nodup = ids_from-Nodup 20 4

-- The client gives 23 back and gets the oldest id.
Reach-Nodup_example :
    (queue : List ℕ) × Holds (buf_id_return small_ring 23) queue
    × Perm (queue ++ []) all_ids
    × Nodup (queue ++ [])
Reach-Nodup_example =
    Reach-Nodup all_ids pool (record { ring = buf_id_return small_ring 23; out = [] }) all_ids-Nodup
      (held, pool-Owned) (next here (gave 23 [] [] refl))
