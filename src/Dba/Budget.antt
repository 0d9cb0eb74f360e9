-- ===== src/Dba/Budget.antt =====
-- npu_dba.c: dba_budget_calc. Grants are `u32` words on both sides; a `s32` is read by its sign bit.
use clanker_npu.Prelude.{
  ℕ, ◌+◌, ◌*◌, ◌/◌, ◌%◌, ◌^◌, Bool, true, false, ◌&&◌, ◌||◌, not, List, [], ◌∷◌, if◌then◌else◌,
  ◌==◌, bit_or, u8, u16, add32, sub32, mul32, neg32,
}
use clanker_npu.Dba.{Map, map_of, TcontCfg, Tcont, Alloc, valid, count_up}

-- struct dba_budget.
pub record Budget : Type 0 where
  pub total : ℕ
  pub remain : ℕ
  pub cnt : ℕ
  pub share : ℕ
  pub demand : ℕ
  pub over_share : ℕ
  pub left : ℕ
  pub over_assure : ℕ

-- The sums of the two loops: ONUs whose first T-CONT is valid with FEC, ONUs with a valid T-CONT, the
-- T-CONTs that share, and the fixed and assured bytes.
pub record Sums : Type 0 where
  pub n_full : ℕ
  pub n_act : ℕ
  pub cnt : ℕ
  pub sum : ℕ

-- The switch on the type of a valid T-CONT.
unfoldable pub add_tcont : TcontCfg → Sums → Sums
add_tcont c s =
    if c.dba_type == 1
    then record s { sum = add32 s.sum c.fix_bw }
    else if c.dba_type == 2
    then record s { sum = add32 s.sum c.assure_bw }
    else if c.dba_type == 3 || c.dba_type == 5
    then record s { cnt = u16 (s.cnt + 1); sum = add32 s.sum c.assure_bw }
    else if c.dba_type == 4
    then record s { cnt = u16 (s.cnt + 1) }
    else s

-- The inner loop; `first` as in the source.
unfoldable pub sum_onu : Map → (ℕ → Alloc) → ℕ → Bool → List ℕ → Sums → Sums
sum_onu m ctx onu first [] s = s
sum_onu m ctx onu first (t ∷ ts) s =
    let c = (ctx (u16 (bit_or onu (t * 2 ^ m.idx_shift)))).cfg in
    let counted = if first then record s { n_act = u8 (s.n_act + 1) } else s in
    let skip = sum_onu m ctx onu first ts s in
    let take = sum_onu m ctx onu false ts (add_tcont c counted) in if valid c then take else skip

unfoldable pub sum_all : Map → (ℕ → Alloc) → List ℕ → Sums → Sums
sum_all m ctx [] s = s
sum_all m ctx (onu ∷ onus) s =
    let full =
      if (ctx onu).cfg.flags % 2 ^ 2 == 3 then record s { n_full = u8 (s.n_full + 1) } else s in
    sum_all m ctx onus (sum_onu m ctx onu true (count_up 0 m.n_tc) full)

-- The global settings: dba_burst_ovh, dba_new_act and dba_act_onus.
pub record Burst : Type 0 where
  pub ovh : ℕ
  pub dual : Bool
  pub act_onus : ℕ

unfoldable pub overhead : Tcont → Burst → Sums → ℕ
overhead t g s = if not (t.olt_mode == 0) then u16 g.ovh else if not (s.n_full == 0) then 64 else 46

-- The bytes of a map, of two frames in the dual mode.
unfoldable pub map_total : Burst → ℕ → Sums → ℕ
map_total g ovh s =
    if g.dual
    then u16 (sub32 0x97E0 (mul32 ovh g.act_onus))
    else u16 (sub32 (sub32 0x4B8C (s.n_full * 36)) (u16 (ovh * s.n_act)))

-- The rest by the T-CONTs that share it, if there is a rest and one of them.
unfoldable pub fair_share : ℕ → ℕ → ℕ
fair_share remain cnt =
    if not (neg32 remain) && (not (remain == 0) && not (cnt == 0)) then u16 (remain / cnt) else 0

-- dba_budget_calc on a budget whose `cnt` the caller set; the new value of dba_burst_ovh comes with it.
unfoldable pub dba_budget_calc : Tcont → Burst → (ℕ → Alloc) → Budget → Budget × ℕ
dba_budget_calc t g ctx b =
    let m = map_of t.mode in
    let s =
      sum_all m ctx (count_up 0 m.n_onu) (record { n_full = 0; n_act = 0; cnt = b.cnt; sum = 0 }) in
    let ovh = overhead t g s in
    let total = map_total g ovh s in
    let remain = sub32 total s.sum in
    (
      record b { total = total; remain = remain; cnt = s.cnt; share = fair_share remain s.cnt },
      if not (t.olt_mode == 0) then g.ovh else ovh,
    )
