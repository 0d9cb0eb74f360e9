-- ===== src/Dba/Mail.antt =====
-- npu_dba.c: the mail of the host, dba_mail_set, dba_mail_get and dba_mail_handler.
use clanker_npu.Prelude.{
  ℕ, Bool, true, false, not, List, [], ◌∷◌, ◌++◌, none, some, if◌then◌else◌, ltb, ◌==◌,
}
use clanker_npu.Fwd.{put_at}
use clanker_npu.Dba.{TcontCfg, Tcont, Alloc, set_bits, dba_idx_onu}

-- The enum of func_id, with one more for every other value.
pub data Fn : Type 0 where
  print_dba_en : Fn
  print_no_idle_en : Fn
  clean_no_idle : Fn
  dba_timer_en : Fn
  onu_state : Fn
  onu_us_fec : Fn
  tcont_dba : Fn
  tcont_state : Fn
  get_tcont_info : Fn
  ploamu_flag : Fn
  sw_bwmap_test : Fn
  set_olt_phy_data : Fn
  get_olt_phy_data : Fn
  set_olt_mac_data : Fn
  get_olt_mac_data : Fn
  tcont_mapping_mode : Fn
  olt_mode : Fn
  all_band_to_single_onu : Fn
  new_dba_en : Fn
  clean_onu_tx_burst : Fn
  get_onu_tx_burst : Fn
  unknown : Fn

-- struct dba_mail, without `func_type`, which the handler tests first.
pub record DbaMail : Type 0 where
  pub alloc_id : ℕ
  pub fix_band : ℕ
  pub max_band : ℕ
  pub assure_band : ℕ
  pub func_id : Fn
  pub get_timer_en : ℕ
  pub do_timer_en : ℕ
  pub enable : ℕ
  pub onu_id : ℕ
  pub state : ℕ
  pub sw_bwmap_test : ℕ
  pub dba_type : ℕ
  pub valid : ℕ
  pub fec : ℕ
  pub tcont_id : ℕ
  pub tcont_map_mode : ℕ
  pub reg : ℕ
  pub reg_val : ℕ
  pub olt_mode : ℕ
  pub all_band_to_single_onu : ℕ

-- The globals that mail reads or writes; `regs` are the registers of the FTTR block, `printed` the
-- values of the lines that were printed.
pub record Dba : Type 0 where
  pub tcont : Tcont
  pub ctx : ℕ → Alloc
  pub print_en : ℕ
  pub print_no_idle_en : ℕ
  pub clean_no_idle : ℕ
  pub get_timer_en : ℕ
  pub do_timer_en : ℕ
  pub sw_bwmap_test : ℕ
  pub burst_ovh : ℕ
  pub single_onu_en : ℕ
  pub new_en : ℕ
  pub onu_tx_burst : ℕ → ℕ
  pub regs : ℕ → ℕ
  pub printed : List (List ℕ)

-- `dba_idx_onu(i, mode) == onu_id`.
abbrev pub of_onu : ℕ → ℕ → ℕ → Bool
of_onu mode onu_id i = elim (dba_idx_onu i mode) [ none ↦ false | some onu ↦ onu == onu_id ]

-- The loops over the 128 entries.
unfoldable pub each_of_onu : ℕ → ℕ → (TcontCfg → TcontCfg) → (ℕ → TcontCfg) → ℕ → TcontCfg
each_of_onu mode onu_id change cfg i =
    if ltb i 128 then if of_onu mode onu_id i then change (cfg i) else cfg i else cfg i

abbrev set_cfg : Dba → (ℕ → TcontCfg) → Dba
set_cfg s cfg = record s { tcont = record s.tcont { cfg = cfg; changed = true } }

unfoldable pub mail_set : Fn → Dba → DbaMail → Dba
mail_set print_dba_en s m = record s { print_en = m.enable }
mail_set print_no_idle_en s m = record s { print_no_idle_en = m.enable }
mail_set clean_no_idle s m = record s { clean_no_idle = m.enable }
mail_set dba_timer_en s m = record s { get_timer_en = m.get_timer_en; do_timer_en = m.do_timer_en }
mail_set sw_bwmap_test s m = record s { sw_bwmap_test = m.sw_bwmap_test }
mail_set onu_state s m =
    let off = λ (c : TcontCfg). record c { flags = set_bits c.flags 0 1 0 } in
    if not (m.state == 0) then s else set_cfg s (each_of_onu s.tcont.mode m.onu_id off s.tcont.cfg)
mail_set onu_us_fec s m =
    let fec = λ (c : TcontCfg). record c { flags = set_bits c.flags 1 1 m.fec } in
    set_cfg s (each_of_onu s.tcont.mode m.onu_id fec s.tcont.cfg)
mail_set tcont_dba s m = set_cfg s (
    put_at s.tcont.cfg m.tcont_id (record (s.tcont.cfg m.tcont_id) {
      fix_bw = m.fix_band;
      max_bw = m.max_band;
      assure_bw = m.assure_band;
      dba_type = m.dba_type;
      alloc_id = m.alloc_id;
    }))
mail_set tcont_state s m =
    let c = s.tcont.cfg m.tcont_id in
    set_cfg s (put_at s.tcont.cfg m.tcont_id (record c { flags = set_bits c.flags 0 1 m.valid }))
mail_set get_tcont_info s m =
    let c = s.tcont.cfg m.tcont_id in
    record s {
      printed =
          s.printed
          ++ (c.alloc_id
              ∷ m.tcont_id
              ∷ c.fix_bw
              ∷ c.max_bw
              ∷ c.assure_bw
              ∷ c.dba_type
              ∷ (s.ctx m.tcont_id).cur_bw
              ∷ [])
            ∷ [];
    }
mail_set set_olt_phy_data s m = record s { regs = put_at s.regs m.reg m.reg_val }
mail_set set_olt_mac_data s m = record s { regs = put_at s.regs m.reg m.reg_val }
mail_set tcont_mapping_mode s m = record s {
  tcont = record s.tcont { changed = true; mode = m.tcont_map_mode };
}
mail_set olt_mode s m =
    if m.olt_mode == 1
    then record s { burst_ovh = 75; tcont = record s.tcont { olt_mode = 1 } }
    else record s { burst_ovh = 46; tcont = record s.tcont { olt_mode = 0 } }
mail_set all_band_to_single_onu s m = record s { single_onu_en = m.all_band_to_single_onu }
mail_set new_dba_en s m = record s { new_en = m.enable }
mail_set clean_onu_tx_burst s m = record s { onu_tx_burst = put_at s.onu_tx_burst m.onu_id 0 }
mail_set ploamu_flag s m = s
mail_set get_olt_phy_data s m = s
mail_set get_olt_mac_data s m = s
mail_set get_onu_tx_burst s m = s
mail_set unknown s m = s

unfoldable pub dba_mail_set : Dba → DbaMail → Dba
dba_mail_set s m = mail_set m.func_id s m

-- dba_mail_get answers in the mail itself.
pub dba_mail_get : Dba → DbaMail → DbaMail
dba_mail_get s m = elim m.func_id [
  | get_olt_phy_data ↦ record m { reg_val = s.regs m.reg }
  | get_olt_mac_data ↦ record m { reg_val = s.regs m.reg }
  | get_onu_tx_burst ↦ record m { reg_val = s.onu_tx_burst m.onu_id }
  | _ ↦ m
]

-- dba_mail_handler, with func_type; other types than 1 and 3 are printed and answered alike.
pub dba_mail_handler : Dba → ℕ → DbaMail → Dba × DbaMail
dba_mail_handler s func_type m =
    if func_type == 1
    then (dba_mail_set s m, m)
    else if func_type == 3
    then (s, dba_mail_get s m)
    else (record s { printed = s.printed ++ (func_type ∷ []) ∷ [] }, m)
