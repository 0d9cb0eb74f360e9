-- ===== src/Dba/Onus.antt =====
-- npu_dba.c: the mail that takes an ONU out, and the contexts that the next frame loads.
use clanker_npu.Prelude.{
  ℕ, ◌<◌, ◌≡◌, refl, ap, subst, arith, Bool, true, false, Option, none, some, if◌then◌else◌, ltb,
  ◌==◌, u8,
}
use clanker_npu.Dba.{
  dba_map_tbl, dba_aid_conv, aid_conv_on, TcontCfg, Tcont, Alloc, count_up, init_entry, init_onu,
  init_all, dba_tcont_init, dba_tcont_load, dba_idx_onu,
}
use clanker_npu.Dba.Table.{all_below, all_below-each, four_modes}
use clanker_npu.Dba.Mail.{DbaMail, Dba, dba_mail_set}

own_onu : ℕ → ℕ → (ℕ → TcontCfg) → ℕ → Bool
own_onu mode v cfg i =
    let m = dba_map_tbl mode in
    let aid = (init_all m v (count_up 0 m.n_onu) cfg i).alloc_id in
    elim (dba_idx_onu i mode) [ none ↦ false | some onu ↦ onu == dba_aid_conv aid 0 mode 4 ]

own_onu_0 : (v : ℕ) (cfg : ℕ → TcontCfg) → all_below 128 (own_onu 0 v cfg) ≡ true
unfolding own_onu init_all init_onu init_entry dba_aid_conv aid_conv_on count_up dba_idx_onu
own_onu_0 v cfg = refl

own_onu_1 : (v : ℕ) (cfg : ℕ → TcontCfg) → all_below 128 (own_onu 1 v cfg) ≡ true
unfolding own_onu init_all init_onu init_entry dba_aid_conv aid_conv_on count_up dba_idx_onu
own_onu_1 v cfg = refl

own_onu_2 : (v : ℕ) (cfg : ℕ → TcontCfg) → all_below 128 (own_onu 2 v cfg) ≡ true
unfolding own_onu init_all init_onu init_entry dba_aid_conv aid_conv_on count_up dba_idx_onu
own_onu_2 v cfg = refl

own_onu_3 : (v : ℕ) (cfg : ℕ → TcontCfg) → all_below 128 (own_onu 3 v cfg) ≡ true
unfolding own_onu init_all init_onu init_entry dba_aid_conv aid_conv_on count_up dba_idx_onu
own_onu_3 v cfg = refl

onu-some :
    (o : Option ℕ) (k : ℕ) → elim o [ none ↦ false | some onu ↦ onu == k ] ≡ true → o ≡ some k
onu-some none k h = absurd (cc)
onu-some (some onu) k h = ap some (ground (arith, h))

-- The ONU of a place in the table is the one that the alloc id there names.
pub idx_onu-own :
    (s : Tcont) (v i : ℕ)
    → u8 v < 4
    → i < 128
    → dba_idx_onu i (dba_tcont_init s v).mode
      ≡ some (dba_aid_conv ((dba_tcont_init s v).cfg i).alloc_id 0 (dba_tcont_init s v).mode 4)
unfolding dba_tcont_init own_onu
idx_onu-own s v i few lt =
    let small : (if ltb 3 (u8 v) then 3 else u8 v) ≡ u8 v = ground (arith, few) in
    let own : own_onu (if ltb 3 (u8 v) then 3 else u8 v) v s.cfg i ≡ true =
      all_below-each 128 (own_onu (if ltb 3 (u8 v) then 3 else u8 v) v s.cfg)
        (four_modes (λ k. all_below 128 (own_onu k v s.cfg) ≡ true) (u8 v) (own_onu_0 v s.cfg)
          (own_onu_1 v s.cfg) (own_onu_2 v s.cfg) (own_onu_3 v s.cfg))
        i lt in
    let plain : own_onu (u8 v) v s.cfg i ≡ true =
      subst (λ k. own_onu k v s.cfg i ≡ true) small own in
    rw small (onu-some (dba_idx_onu i (u8 v)) _ plain)

-- The table and the contexts after the mail, as the next frame loads them.
abbrev pub loaded : Dba → DbaMail → ℕ → Alloc
loaded s m = (dba_tcont_load (dba_mail_set s m).tcont s.ctx).1
