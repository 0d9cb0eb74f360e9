-- ===== src/Dba/Table.antt =====
-- npu_dba.c: the alloc ids of the T-CONT table after dba_tcont_init.
use clanker_npu.Prelude.{
  ℕ, zero, suc, ◌<◌, ◌≡◌, refl, sym, ap, ◌∙◌, arith, Bool, true, false, ◌&&◌, if◌then◌else◌, ltb,
  ◌==◌, u8, Bool-cases, inl, inr,
}
use clanker_npu.Dba.{
  dba_map_tbl, dba_aid_conv, aid_conv_on, TcontCfg, Tcont, count_up, init_entry, init_onu, init_all,
  dba_tcont_init,
}

-- A test on all numbers below n.
abbrev pub all_below : ℕ → (ℕ → Bool) → Bool
all_below zero test = true
all_below (suc n) test = test n && all_below n test

both : (a b : Bool) → a && b ≡ true → (a ≡ true) × (b ≡ true)
both true b h = (refl, h)
both false b h = absurd (cc)

pub all_below-each :
    (n : ℕ) (test : ℕ → Bool) → all_below n test ≡ true → (i : ℕ) → i < n → test i ≡ true
all_below-each zero test h i lt = absurd (omega arith)
all_below-each (suc n) test h i lt = elim (Bool-cases (i == n)) [
  | inl e ↦ let last : i ≡ n = ground (arith, e) in rw last ((both (test n) (all_below n test) h).0)
  | inr e ↦ all_below-each n test ((both (test n) (all_below n test) h).1) i (ground (arith, e, lt))
]

own_index : ℕ → ℕ → (ℕ → TcontCfg) → ℕ → Bool
own_index mode v cfg i =
    let m = dba_map_tbl mode in
    dba_aid_conv (init_all m v (count_up 0 m.n_onu) cfg i).alloc_id 0 mode 2 == i

own_index_0 : (v : ℕ) (cfg : ℕ → TcontCfg) → all_below 128 (own_index 0 v cfg) ≡ true
unfolding own_index init_all init_onu init_entry dba_aid_conv count_up aid_conv_on
own_index_0 v cfg = refl

own_index_1 : (v : ℕ) (cfg : ℕ → TcontCfg) → all_below 128 (own_index 1 v cfg) ≡ true
unfolding own_index init_all init_onu init_entry dba_aid_conv count_up aid_conv_on
own_index_1 v cfg = refl

own_index_2 : (v : ℕ) (cfg : ℕ → TcontCfg) → all_below 128 (own_index 2 v cfg) ≡ true
unfolding own_index init_all init_onu init_entry dba_aid_conv count_up aid_conv_on
own_index_2 v cfg = refl

own_index_3 : (v : ℕ) (cfg : ℕ → TcontCfg) → all_below 128 (own_index 3 v cfg) ≡ true
unfolding own_index init_all init_onu init_entry dba_aid_conv count_up aid_conv_on
own_index_3 v cfg = refl

-- A map mode is one of four, where the larger ones count as 3.
pub four_modes :
    (P : ℕ → Type 0) (mode : ℕ) → P 0 → P 1 → P 2 → P 3 → P (if ltb 3 mode then 3 else mode)
four_modes P zero a b c d = a
four_modes P (suc zero) a b c d = b
four_modes P (suc (suc zero)) a b c d = c
four_modes P (suc (suc (suc zero))) a b c d = d
four_modes P (suc (suc (suc (suc k)))) a b c d =
    let more : ltb 3 (suc (suc (suc (suc k)))) ≡ true = ground arith in rw more d

indices-own :
    (mode v : ℕ) (cfg : ℕ → TcontCfg) (i : ℕ)
    → i < 128
    → own_index (if ltb 3 mode then 3 else mode) v cfg i ≡ true
indices-own mode v cfg i lt =
    all_below-each 128 (own_index (if ltb 3 mode then 3 else mode) v cfg)
      (four_modes (λ k. all_below 128 (own_index k v cfg) ≡ true) mode (own_index_0 v cfg)
        (own_index_1 v cfg) (own_index_2 v cfg) (own_index_3 v cfg))
      i lt

pub aid_conv-capped :
    (val idx mode op : ℕ)
    → mode < 256
    → dba_aid_conv val idx (if ltb 3 mode then 3 else mode) op ≡ dba_aid_conv val idx mode op
unfolding dba_aid_conv
aid_conv-capped val idx mode op h =
    let capped : ℕ = if ltb 3 mode then 3 else mode in
    let same : (if ltb 3 capped then 3 else u8 capped) ≡ (if ltb 3 mode then 3 else u8 mode) =
      ground (arith, h) in
    ap (λ k. aid_conv_on (dba_map_tbl k) val idx op) same

-- After dba_tcont_init, whatever the register FTTR_MAP_MODE says, dba_aid_conv takes the alloc id of
-- each of the 128 T-CONTs back to its place in the table.
pub dba_tcont_init-own :
    (s : Tcont) (v i : ℕ)
    → i < 128
    → dba_aid_conv ((dba_tcont_init s v).cfg i).alloc_id 0 (dba_tcont_init s v).mode 2 ≡ i
unfolding dba_tcont_init own_index
dba_tcont_init-own s v i lt =
    let mode : ℕ = if ltb 3 (u8 v) then 3 else u8 v in
    let own = indices-own (u8 v) v s.cfg i lt in
    let at = init_all (dba_map_tbl mode) v (count_up 0 (dba_map_tbl mode).n_onu) s.cfg i in
    sym (aid_conv-capped at.alloc_id 0 (u8 v) 2 (omega arith)) ∙ ground (arith, own)
