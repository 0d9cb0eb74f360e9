-- ===== src/Dba/Shares.antt =====
-- npu_dba.c: what dba_budget_calc counts, and the share that it leaves.
use clanker_npu.Prelude.{
  ℕ, suc, ◌+◌, ◌*◌, ◌%◌, ◌^◌, Bool, false, ◌&&◌, ◌||◌, not, List, [], ◌∷◌, if◌then◌else◌, ◌==◌,
  bit_or, u16,
}
use clanker_npu.Dba.{Map, TcontCfg, Alloc, valid, count_up}

-- What a T-CONT has for certain, and whether it takes part in the rest.
unfoldable pub guaranteed : TcontCfg → ℕ
guaranteed c =
    if not (valid c)
    then 0
    else if c.dba_type == 1
    then c.fix_bw
    else if c.dba_type == 2 || (c.dba_type == 3 || c.dba_type == 5)
    then c.assure_bw
    else 0

unfoldable pub shares : TcontCfg → Bool
shares c = valid c && (c.dba_type == 3 || (c.dba_type == 4 || c.dba_type == 5))

-- The T-CONTs of an ONU by their numbers: their guaranteed bytes, how many share, and whether one is valid.
unfoldable pub onu_bytes : Map → (ℕ → Alloc) → ℕ → List ℕ → ℕ
onu_bytes m ctx onu [] = 0
onu_bytes m ctx onu (t ∷ ts) =
    guaranteed (ctx (u16 (bit_or onu (t * 2 ^ m.idx_shift)))).cfg + onu_bytes m ctx onu ts

unfoldable pub onu_shares : Map → (ℕ → Alloc) → ℕ → List ℕ → ℕ
onu_shares m ctx onu [] = 0
onu_shares m ctx onu (t ∷ ts) =
    let rest = onu_shares m ctx onu ts in
    if shares (ctx (u16 (bit_or onu (t * 2 ^ m.idx_shift)))).cfg then suc rest else rest

unfoldable pub onu_active : Map → (ℕ → Alloc) → ℕ → List ℕ → Bool
onu_active m ctx onu [] = false
onu_active m ctx onu (t ∷ ts) =
    valid (ctx (u16 (bit_or onu (t * 2 ^ m.idx_shift)))).cfg || onu_active m ctx onu ts

-- The same over all ONUs, with the ONUs whose first T-CONT is valid with FEC.
unfoldable pub all_bytes : Map → (ℕ → Alloc) → List ℕ → ℕ
all_bytes m ctx [] = 0
all_bytes m ctx (onu ∷ onus) = onu_bytes m ctx onu (count_up 0 m.n_tc) + all_bytes m ctx onus

unfoldable pub all_shares : Map → (ℕ → Alloc) → List ℕ → ℕ
all_shares m ctx [] = 0
all_shares m ctx (onu ∷ onus) = onu_shares m ctx onu (count_up 0 m.n_tc) + all_shares m ctx onus

unfoldable pub active : Map → (ℕ → Alloc) → List ℕ → ℕ
active m ctx [] = 0
active m ctx (onu ∷ onus) =
    let rest = active m ctx onus in
    if onu_active m ctx onu (count_up 0 m.n_tc) then suc rest else rest

unfoldable pub fec_onus : (ℕ → Alloc) → List ℕ → ℕ
fec_onus ctx [] = 0
fec_onus ctx (onu ∷ onus) =
    let rest = fec_onus ctx onus in if (ctx onu).cfg.flags % 2 ^ 2 == 3 then suc rest else rest
