-- ===== src/Dba/Share.antt =====
-- npu_dba.c: the budget that dba_budget_calc leaves.
use clanker_npu.Prelude.{
  ℕ, zero, suc, ◌+◌, ◌*◌, ◌^◌, ◌<◌, ◌≤◌, ◌≡◌, refl, ap, ◌∙◌, arith, false, not, List, [], ◌∷◌,
  if◌then◌else◌, ◌==◌, Bool-cases, inl, inr, u16, sub32, length, subst,
}
use clanker_npu.Dba.{Map, dba_map_tbl, map_of, Tcont, Alloc, count_up}
use clanker_npu.Dba.Table.{four_modes}
use clanker_npu.Dba.Budget.{
  Budget, Sums, sum_all, fair_share, Burst, overhead, map_total, dba_budget_calc,
}
use clanker_npu.Dba.Fair.{fair_share-Split}
use clanker_npu.Dba.Shares.{onu_shares, all_bytes, all_shares, active, fec_onus}
use clanker_npu.Dba.Sums.{Words, sum_all-AllSums}

length-count_up : (n from : ℕ) → length (count_up from n) ≡ n
unfolding count_up
length-count_up zero from = refl
length-count_up (suc n) from = ap suc (length-count_up n (from + 1))

active-few : (onus : List ℕ) (m : Map) (ctx : ℕ → Alloc) → active m ctx onus ≤ length onus
unfolding active
active-few [] m ctx = omega arith
active-few (onu ∷ onus) m ctx = ground (arith, active-few onus m ctx)

fec_onus-few : (onus : List ℕ) (ctx : ℕ → Alloc) → fec_onus ctx onus ≤ length onus
unfolding fec_onus
fec_onus-few [] ctx = omega arith
fec_onus-few (onu ∷ onus) ctx = ground (arith, fec_onus-few onus ctx)

onu_shares-few :
    (ts : List ℕ) (m : Map) (ctx : ℕ → Alloc) (onu : ℕ) → onu_shares m ctx onu ts ≤ length ts
unfolding onu_shares
onu_shares-few [] m ctx onu = omega arith
onu_shares-few (t ∷ ts) m ctx onu = ground (arith, onu_shares-few ts m ctx onu)

all_shares-few :
    (onus : List ℕ) (m : Map) (ctx : ℕ → Alloc) → all_shares m ctx onus ≤ length onus * m.n_tc
unfolding all_shares
all_shares-few [] m ctx = omega arith
all_shares-few (onu ∷ onus) m ctx =
    let one = onu_shares-few (count_up 0 m.n_tc) m ctx onu in
    let size = length-count_up m.n_tc 0 in
    let rest = all_shares-few onus m ctx in grind (arith, one, size, rest)

-- The table has at most 64 ONUs and 128 T-CONTs.
map_of-small :
    (mode : ℕ) → ((map_of mode).n_onu ≤ 64) × ((map_of mode).n_onu * (map_of mode).n_tc ≤ 128)
map_of-small mode =
    four_modes
      (λ k. ((dba_map_tbl k).n_onu ≤ 64) × ((dba_map_tbl k).n_onu * (dba_map_tbl k).n_tc ≤ 128))
      mode (omega arith, omega arith) (omega arith, omega arith) (omega arith, omega arith)
      (omega arith, omega arith)

-- The overhead of a burst: fixed by the OLT mode, or by whether an ONU has FEC.
abbrev pub burst_cost : Tcont → Burst → ℕ → ℕ
burst_cost t g fec = if not (t.olt_mode == 0) then g.ovh else if not (fec == 0) then 64 else 46

-- The budget by the T-CONTs of the table's map: `fec` ONUs with FEC, `on` ONUs with a valid T-CONT, `sure`
-- guaranteed bytes, and `n` T-CONTs that share the rest.
pub record Shared (t : Tcont) (g : Burst) (fec on sure n : ℕ) (out : Budget) : Type 0 where
  pub frame : out.total + fec * 36 + burst_cost t g fec * on ≡ 0x4B8C
  pub cnt : out.cnt ≡ n
  pub no_rest : out.total ≤ sure → out.share ≡ 0
  pub enough : sure ≤ out.total → sure + out.share * n ≤ out.total
  pub most : sure ≤ out.total → 0 < n → out.total < sure + out.share * n + n

products-small : (ovh on : ℕ) → ovh ≤ 75 → on ≤ 64 → ovh * on ≤ 4800
products-small ovh on a b = grind (arith, a, b)

exact :
    (o k f : ℕ)
    → o * k ≤ 4800
    → f ≤ 64
    → u16 (sub32 (sub32 0x4B8C (f * 36)) (u16 (o * k))) + f * 36 + o * k ≡ 0x4B8C
exact o k f a b = omega (arith, a, b)

total-exact :
    (t : Tcont) (g : Burst) (s : Sums)
    → g.dual ≡ false
    → g.ovh ≤ 75
    → s.n_full ≤ 64
    → s.n_act ≤ 64
    → map_total g (overhead t g s) s + s.n_full * 36 + burst_cost t g s.n_full * s.n_act ≡ 0x4B8C
unfolding map_total overhead
total-exact t g s single low few_fec few_on =
    let same : overhead t g s ≡ burst_cost t g s.n_full = ground (arith, low) in
    let bound : burst_cost t g s.n_full ≤ 75 = ground (arith, low) in
    let small = products-small (burst_cost t g s.n_full) s.n_act bound few_on in
    ap (λ o. map_total g o s + s.n_full * 36 + burst_cost t g s.n_full * s.n_act) same
    ∙ rw single (exact (burst_cost t g s.n_full) s.n_act s.n_full small few_fec)

total-word : (t : Tcont) (g : Burst) (s : Sums) → map_total g (overhead t g s) s < 2 ^ 16
unfolding map_total
total-word t g s = elim (Bool-cases g.dual) [
  | inl e ↦ rw e (omega arith)
  | inr e ↦ rw e (omega arith)
]

calc-Shared :
    (t : Tcont) (g : Burst) (b : Budget) (s : Sums)
    → g.dual ≡ false
    → g.ovh ≤ 75
    → s.n_full ≤ 64
    → s.n_act ≤ 64
    → s.sum < 2 ^ 31
    → Shared t g s.n_full s.n_act s.sum s.cnt (record b {
      total = map_total g (overhead t g s) s;
      remain = sub32 (map_total g (overhead t g s) s) s.sum;
      cnt = s.cnt;
      share = fair_share (sub32 (map_total g (overhead t g s) s) s.sum) s.cnt;
    })
calc-Shared t g b s single low few_fec few_on fits =
    let split =
      fair_share-Split (map_total g (overhead t g s) s) s.sum s.cnt (total-word t g s) fits in
    record {
      frame = total-exact t g s single low few_fec few_on;
      cnt = refl;
      no_rest = split.no_rest;
      enough = split.enough;
      most = split.most;
    }

-- The sums are the plain numbers of the T-CONTs.
record Plain (m : Map) (ctx : ℕ → Alloc) (onus : List ℕ) (s : Sums) : Type 0 where
  pub n_full : s.n_full ≡ fec_onus ctx onus
  pub n_act : s.n_act ≡ active m ctx onus
  pub sum : s.sum ≡ all_bytes m ctx onus
  pub cnt : s.cnt ≡ all_shares m ctx onus

sum_all-Plain :
    (mode cnt : ℕ) (ctx : ℕ → Alloc)
    → cnt ≡ 0
    → all_bytes (map_of mode) ctx (count_up 0 (map_of mode).n_onu) < 2 ^ 31
    → Plain (map_of mode) ctx (count_up 0 (map_of mode).n_onu) (
        sum_all
          (map_of mode)
          ctx
          (count_up 0 (map_of mode).n_onu)
          (record { n_full = 0; n_act = 0; cnt = cnt; sum = 0 }))
sum_all-Plain mode cnt ctx none_yet fits =
    let m = map_of mode in
    let onus = count_up 0 m.n_onu in
    let start : Sums = record { n_full = 0; n_act = 0; cnt = cnt; sum = 0 } in
    let words : Words start = record {
      sum = omega arith;
      cnt = omega (arith, none_yet);
      n_act = omega arith;
      n_full = omega arith;
    } in
    let all = sum_all-AllSums onus m ctx start words in
    let few = map_of-small mode in
    let size = length-count_up m.n_onu 0 in
    let bound : all_shares m ctx onus ≤ m.n_onu * m.n_tc =
      subst (λ k. all_shares m ctx onus ≤ k * m.n_tc) size (all_shares-few onus m ctx) in
    let shared : all_shares m ctx onus ≤ 128 = omega (arith, bound, few.1) in
    record {
      n_full = omega (arith, all.n_full, all.words.n_full, fec_onus-few onus ctx, size, few.0);
      n_act = omega (arith, all.n_act, all.words.n_act, active-few onus m ctx, size, few.0);
      sum = omega (arith, all.sum, all.words.sum, fits);
      cnt = omega (arith, all.cnt, all.words.cnt, shared, none_yet);
    }

-- With the count of the budget at 0, the dual mode off, a burst overhead of at most 75 and guaranteed bytes
-- below 2 ^ 31, dba_budget_calc accounts for the whole frame: the total, 36 for each ONU with FEC and the
-- overhead of each ONU with a valid T-CONT make up 0x4B8C. The T-CONTs that share are counted, and their
-- share is the largest that fits beside the guaranteed bytes, or 0 if nothing is left beside these.
pub dba_budget_calc-Shared :
    (t : Tcont) (g : Burst) (ctx : ℕ → Alloc) (b : Budget)
    → b.cnt ≡ 0
    → g.dual ≡ false
    → g.ovh ≤ 75
    → all_bytes (map_of t.mode) ctx (count_up 0 (map_of t.mode).n_onu) < 2 ^ 31
    → Shared t g
        (fec_onus ctx (count_up 0 (map_of t.mode).n_onu))
        (active (map_of t.mode) ctx (count_up 0 (map_of t.mode).n_onu))
        (all_bytes (map_of t.mode) ctx (count_up 0 (map_of t.mode).n_onu))
        (all_shares (map_of t.mode) ctx (count_up 0 (map_of t.mode).n_onu))
        (dba_budget_calc t g ctx b).0
unfolding dba_budget_calc
dba_budget_calc-Shared t g ctx b none_yet single low fits =
    let m = map_of t.mode in
    let onus = count_up 0 m.n_onu in
    let s = sum_all m ctx onus (record { n_full = 0; n_act = 0; cnt = b.cnt; sum = 0 }) in
    let p = sum_all-Plain t.mode b.cnt ctx none_yet fits in
    let out = (dba_budget_calc t g ctx b).0 in
    let few = map_of-small t.mode in
    let size = length-count_up m.n_onu 0 in
    let raw : Shared t g s.n_full s.n_act s.sum s.cnt out =
      calc-Shared t g b s single low (omega (arith, p.n_full, fec_onus-few onus ctx, size, few.0))
        (omega (arith, p.n_act, active-few onus m ctx, size, few.0)) (omega (arith, p.sum, fits)) in
    subst (λ k. Shared t g (fec_onus ctx onus) (active m ctx onus) (all_bytes m ctx onus) k out)
      p.cnt
      (subst (λ k. Shared t g (fec_onus ctx onus) (active m ctx onus) k s.cnt out) p.sum
        (subst (λ k. Shared t g (fec_onus ctx onus) k s.sum s.cnt out) p.n_act
          (subst (λ k. Shared t g k s.n_act s.sum s.cnt out) p.n_full raw)))
