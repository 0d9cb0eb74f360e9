-- ===== src/Dba.antt =====
-- npu_dba.c: the upstream bandwidth allocation of the GPON OLT. The T-CONT table with its alloc ids and
-- the mail that the host configures it by; the parts that work on it are the children.
pub mod Table
pub mod Mail
pub mod Onus
pub mod Reports
pub mod Drain
pub mod Budget
pub mod Sort
pub mod Sorted
pub mod Gather
pub mod Bwmap
pub mod Ordered
pub mod Shares
pub mod Sums
pub mod Fair
pub mod Share
mod Tests
use clanker_npu.Prelude.{
  ℕ, zero, suc, ◌+◌, ◌-◌, ◌*◌, ◌/◌, ◌%◌, ◌^◌, Bool, true, false, ◌&&◌, not, List, [], ◌∷◌, ◌++◌,
  Option, none, some, if◌then◌else◌, ltb, ◌==◌, bit_and, bit_or, u8, u16, shr,
}
use clanker_npu.Fwd.{put_at}

-- struct dba_map and dba_map_tbl.
pub record Map : Type 0 where
  pub onu_mask : ℕ
  pub tc_mask : ℕ
  pub tc_shift : ℕ
  pub idx_shift : ℕ
  pub n_onu : ℕ
  pub n_tc : ℕ

abbrev pub dba_map_tbl : ℕ → Map
dba_map_tbl mode =
    let few : Map = record {
      onu_mask = 0x1f;
      tc_mask = 0x0300;
      tc_shift = 8;
      idx_shift = 5;
      n_onu = 32;
      n_tc = 4;
    } in
    let more : Map = record {
      onu_mask = 0x0f;
      tc_mask = 0x0700;
      tc_shift = 8;
      idx_shift = 4;
      n_onu = 16;
      n_tc = 8;
    } in
    let most : Map = record {
      onu_mask = 0x07;
      tc_mask = 0x0f00;
      tc_shift = 8;
      idx_shift = 3;
      n_onu = 8;
      n_tc = 16;
    } in
    let two : Map = record {
      onu_mask = 0x3f;
      tc_mask = 0x0200;
      tc_shift = 9;
      idx_shift = 6;
      n_onu = 64;
      n_tc = 2;
    } in
    if mode == 0 then few else if mode == 1 then more else if mode == 2 then most else two

-- `mode > 3 ? 3 : mode`.
abbrev pub map_of : ℕ → Map
map_of mode = dba_map_tbl (if ltb 3 mode then 3 else mode)

-- The switch of dba_aid_conv on the entry of its mode; the last case is `default`.
pub aid_conv_on : Map → ℕ → ℕ → ℕ → ℕ
aid_conv_on m val idx op =
    if op == 0
    then m.n_onu
    else if op == 1
    then m.n_tc
    else if op == 2
    then u16 (
        bit_or (u8 (shr (bit_and val m.tc_mask) m.tc_shift) * 2 ^ m.idx_shift)
          (bit_and val m.onu_mask))
    else if op == 3
    then u16 (bit_or (u8 val) (idx * 2 ^ m.idx_shift))
    else if op == 4
    then bit_and val m.onu_mask
    else if op == 5
    then bit_or (u8 val) (bit_and (idx * 2 ^ m.tc_shift) m.tc_mask)
    else u16 (idx * 2 ^ m.idx_shift)

pub dba_aid_conv : ℕ → ℕ → ℕ → ℕ → ℕ
dba_aid_conv val idx mode op =
    aid_conv_on (dba_map_tbl (if ltb 3 mode then 3 else u8 mode)) val idx op

-- struct dba_tcont_cfg; `flags` has bit 0 valid, bit 1 fec, bits 3:2 the map mode.
pub record TcontCfg : Type 0 where
  pub flags : ℕ
  pub alloc_id : ℕ
  pub dba_type : ℕ
  pub fix_bw : ℕ
  pub assure_bw : ℕ
  pub max_bw : ℕ

-- `x & ~mask | (v & max) << lo` for the mask of the `width` bits from `lo` on.
abbrev pub set_bits : ℕ → ℕ → ℕ → ℕ → ℕ
set_bits x lo width v =
    x / 2 ^ (lo + width) * 2 ^ (lo + width) + v % 2 ^ width * 2 ^ lo + x % 2 ^ lo

abbrev pub valid : TcontCfg → Bool
valid c = not (c.flags % 2 == 0)

-- The static `dba_tcont`; the entries from 128 on are what lies behind the table.
pub record Tcont : Type 0 where
  pub changed : Bool
  pub mode : ℕ
  pub olt_mode : ℕ
  pub cfg : ℕ → TcontCfg

-- 0 … n - 1, for the counting loops.
unfoldable pub count_up : ℕ → ℕ → List ℕ
count_up from zero = []
count_up from (suc n) = from ∷ count_up (from + 1) n

-- `(c->flags & 0xF0) | ((v & 3) << 2)`, and the defaults of the first T-CONT and the others.
pub init_entry : Map → ℕ → ℕ → ℕ → TcontCfg → TcontCfg
init_entry m v onu t c =
    let first = t == 0 in
    record {
      flags = c.flags % 2 ^ 8 / 2 ^ 4 * 2 ^ 4 + v % 2 ^ 2 * 2 ^ 2;
      alloc_id = bit_or (bit_and m.tc_mask (t * 2 ^ m.tc_shift)) onu;
      dba_type = if first then 1 else 4;
      fix_bw = if first then 90 else 0;
      assure_bw = 0;
      max_bw = if first then 0 else 19340;
    }

-- The inner loop of dba_tcont_init over the T-CONTs of an ONU, and the outer loop.
pub init_onu : Map → ℕ → ℕ → List ℕ → (ℕ → TcontCfg) → ℕ → TcontCfg
init_onu m v onu [] cfg = cfg
init_onu m v onu (t ∷ ts) cfg =
    let i = u16 (bit_or (t * 2 ^ m.idx_shift) onu) in
    init_onu m v onu ts (put_at cfg i (init_entry m v onu t (cfg i)))

pub init_all : Map → ℕ → List ℕ → (ℕ → TcontCfg) → ℕ → TcontCfg
init_all m v [] cfg = cfg
init_all m v (onu ∷ onus) cfg = init_all m v onus (init_onu m v onu (count_up 0 m.n_tc) cfg)

-- dba_tcont_init; `v` is the register FTTR_MAP_MODE.
unfoldable pub dba_tcont_init : Tcont → ℕ → Tcont
dba_tcont_init s v =
    let m = dba_map_tbl (if ltb 3 (u8 v) then 3 else u8 v) in
    record s { changed = false; mode = u8 v; cfg = init_all m v (count_up 0 m.n_onu) s.cfg }

-- dba_idx_onu; `none` is -1.
pub dba_idx_onu : ℕ → ℕ → Option ℕ
dba_idx_onu i mode =
    if mode == 0
    then some (bit_and i 31)
    else if mode == 1
    then some (bit_and i 15)
    else if mode == 2
    then some (bit_and i 7)
    else if mode == 3
    then some (bit_and i 63)
    else none

-- struct dba_rpt.
pub record Rpt : Type 0 where
  pub non_idle : ℕ
  pub bwmap_byte : ℕ
  pub dbru : ℕ

-- struct dba_alloc; `ring_idx` has the read slot in bits 3:0 and the write slot in bits 7:4.
pub record Alloc : Type 0 where
  pub cfg : TcontCfg
  pub ring_idx : ℕ
  pub step_cnt : ℕ
  pub grow_cnt : ℕ
  pub hold_cnt : ℕ
  pub ring : ℕ → Rpt
  pub cur_bw : ℕ
  pub ref_dbru : ℕ
  pub idle_avg : ℕ
  pub state : ℕ

-- dba_tcont_load: the configuration of each of the 128 alloc ids, taken over from the table.
pub dba_tcont_load : Tcont → (ℕ → Alloc) → Tcont × (ℕ → Alloc)
dba_tcont_load s ctx = (
  record s { changed = false },
  λ i. if ltb i 128 then record (ctx i) { cfg = s.cfg i } else ctx i,
)

-- dba_cfg_init.
pub dba_cfg_init : Tcont → ℕ → (ℕ → Alloc) → Tcont × (ℕ → Alloc)
dba_cfg_init s v ctx = dba_tcont_load (dba_tcont_init s v) ctx
