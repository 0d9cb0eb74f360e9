-- ===== src/Dba/Sort.antt =====
-- npu_dba.c: dba_sort_bw, the insertion step of the list of alloc ids by their grant.
use clanker_npu.Prelude.{
  ℕ, zero, suc, ◌+◌, ◌-◌, List, [], ◌∷◌, if◌then◌else◌, leb, get_or, set, u16, slt32, not,
}

-- The loop of dba_sort_bw: `k` entries from the start on are still to be compared with the last one, which
-- stands behind them; `bw` is cur_bw by alloc index.
unfoldable pub sink : (ℕ → ℕ) → ℕ → ℕ → ℕ → ℕ → List ℕ → List ℕ
sink bw start last key zero list = list
sink bw start last key (suc k) list =
    let i = start + k in
    let rest = sink bw start last key k (set (set list (i + 1) (get_or list i 0)) i last) in
    if not (slt32 key (bw (get_or list i 0))) then list else rest

unfoldable pub dba_sort_bw : (ℕ → ℕ) → List ℕ → ℕ → ℕ → List ℕ
dba_sort_bw bw list n start =
    let last = get_or list (start + n - 1) 0 in
    if leb n 1 then list else sink bw start last (u16 (bw last)) (n - 1) list

-- The part of dba_bw_request that builds its list: each id goes behind the n that stand, and is sunk.
unfoldable pub gather : (ℕ → ℕ) → List ℕ → List ℕ → ℕ → List ℕ
gather bw list [] n = list
gather bw list (i ∷ is) n = gather bw (dba_sort_bw bw (set list n i) (n + 1) 0) is (n + 1)
