-- ===== src/Dba/Bwmap.antt =====
-- npu_dba.c: dba_config_bwmap_handler, which writes one entry of the bandwidth map.
use clanker_npu.Prelude.{
  ℕ, ◌+◌, ◌%◌, Bool, false, ◌&&◌, not, List, [], ◌∷◌, ◌++◌, if◌then◌else◌, ltb, leb, ◌==◌, u16, u8,
  sub16,
}
use clanker_npu.Dba.{TcontCfg, Alloc, set_bits}

-- DBA_STOP_MAX.
abbrev pub stop_max : ℕ
stop_max = 0x4BC1

-- One entry as the FTTR block gets it: the two times of the first word, and the second word.
pub record BwmapEntry : Type 0 where
  pub start : ℕ
  pub stop : ℕ
  pub ctrl : ℕ

-- The globals: dba_bwmap, dba_bwmap_pos, dba_bwmap_left, dba_burst_ovh, dba_tcont.olt_mode, dba_log_en, the
-- entries written so far, and the start and stop of the failures that were printed.
pub record Bwmap : Type 0 where
  pub ctrl : ℕ
  pub start : ℕ
  pub stop : ℕ
  pub pos : ℕ
  pub left : ℕ
  pub ovh : ℕ
  pub olt_mode : ℕ
  pub log_en : Bool
  pub written : List BwmapEntry
  pub printed : List (ℕ × ℕ)

abbrev pub digit : Bool → ℕ
digit b = if b then 1 else 0

-- The control word of an entry, but for the bits that end the map.
pub entry_ctrl : Bwmap → TcontCfg → Bool → Bool → ℕ
entry_ctrl s c ploamu fec =
    let dbru = set_bits s.ctrl 1 2 (digit (not (c.dba_type == 1))) in
    let with_fec = set_bits (set_bits dbru 4 1 (digit ploamu)) 3 1 (digit fec) in
    let aid = set_bits with_fec 6 12 c.alloc_id in
    if s.olt_mode == 1 then set_bits aid 25 1 1 else aid

-- The first T-CONT of a burst pays the burst overhead.
unfoldable pub entry_start : Bwmap → ℕ → ℕ
entry_start s slot = if slot % 4 == 0 && not (s.pos == 0) then u16 (s.pos + s.ovh) else s.pos

unfoldable pub entry_end : Bwmap → Alloc → ℕ → ℕ
entry_end s a slot = u16 (a.cur_bw + entry_start s slot)

-- An entry that does not fit: one printed line while dba_log_en is set.
unfoldable pub entry_failed : Bwmap → ℕ → ℕ → Bwmap
entry_failed s start stop =
    if s.log_en then record s { log_en = false; printed = s.printed ++ (stop, start) ∷ [] } else s

unfoldable pub entry_written : Bwmap → TcontCfg → ℕ → ℕ → Bool → Bool → Bwmap
entry_written s c start stop ploamu fec =
    let left = u8 (s.left + 255) in
    let open_end = set_bits (entry_ctrl s c ploamu fec) 27 2 0 in
    let ctrl = if left == 0 then set_bits open_end 27 2 3 else open_end in
    record s {
      left = left;
      ctrl = ctrl;
      written = s.written ++ (record { start = start; stop = stop; ctrl = ctrl }) ∷ [];
    }

unfoldable pub dba_config_bwmap_handler : (ℕ → Alloc) → Bwmap → ℕ → Bool → ℕ → ℕ → Bwmap
dba_config_bwmap_handler ctx s idx fec slot onu =
    let a = ctx idx in
    let start = entry_start s slot in
    let end = entry_end s a slot in
    let stop = sub16 end 1 in
    let staged = record s { start = start; stop = stop; pos = end } in
    if ltb stop_max stop
    then entry_failed staged start stop
    else if leb stop start
    then entry_failed staged start stop
    else entry_written staged a.cfg start stop (idx == onu) fec

-- One call of a run over the T-CONTs of a map.
pub record Call : Type 0 where
  pub idx : ℕ
  pub fec : Bool
  pub slot : ℕ
  pub onu : ℕ

unfoldable pub build : (ℕ → Alloc) → Bwmap → List Call → Bwmap
build ctx s [] = s
build ctx s (c ∷ cs) = build ctx (dba_config_bwmap_handler ctx s c.idx c.fec c.slot c.onu) cs
