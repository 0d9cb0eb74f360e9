-- ===== src/Sram/Sizes.antt =====
-- npu_sram.c: the size of the SRAM and the reserved size of each address type, per build.
pub mod Bounds
use clanker_npu.Prelude.{
  ℕ, Bool, true, false, List, [], ◌∷◌, ◌++◌, Option, none, some, if◌then◌else◌, leb, ◌==◌,
}

pub data Soc : Type 0 where
  an7552 : Soc
  an7581 : Soc
  an7583 : Soc

-- WIFI_KITE, HAS_EAGLE_STA_QLIMIT and USE_CLANKER_DRIVER beside the SoC.
pub record Build : Type 0 where
  pub soc : Soc
  pub kite : Bool
  pub sta_qlimit : Bool
  pub clanker_driver : Bool

abbrev size_of : Soc → ℕ
size_of an7552 = 0x40000
size_of an7581 = 0x78000
size_of an7583 = 0x80000

abbrev entries_of : Soc → ℕ
entries_of an7552 = 50
entries_of an7581 = 100
entries_of an7583 = 100

abbrev pub sram_size : Build → ℕ
sram_size b = size_of b.soc

abbrev pub sram_max_entries : Build → ℕ
sram_max_entries b = entries_of b.soc

abbrev pub kite_lo : Soc → List (ℕ × ℕ)
kite_lo an7552 =
    (1, 0x0C000)
    ∷ (2, 0x02000)
    ∷ (3, 0x01000)
    ∷ (9, 0x002A8)
    ∷ (10, 0x002A8)
    ∷ (11, 0x00078)
    ∷ (14, 0x00600)
    ∷ (15, 0x00600)
    ∷ (6, 0x00C00)
    ∷ (4, 0x11940)
    ∷ (7, 0x08340)
    ∷ (8, 0x08340)
    ∷ (12, 0x00FA0)
    ∷ (13, 0x02710)
    ∷ (19, 0x00400)
    ∷ (20, 0x00400)
    ∷ []
kite_lo an7581 =
    (1, 0x0C040)
    ∷ (2, 0x02020)
    ∷ (3, 0x01020)
    ∷ (9, 0x003E8)
    ∷ (10, 0x003E8)
    ∷ (11, 0x00078)
    ∷ (14, 0x00600)
    ∷ (15, 0x00600)
    ∷ (6, 0x00C04)
    ∷ (4, 0x11940)
    ∷ (7, 0x08340)
    ∷ (8, 0x08340)
    ∷ (12, 0x00FA0)
    ∷ (13, 0x02710)
    ∷ (19, 0x00400)
    ∷ (20, 0x00400)
    ∷ (21, 0x06400)
    ∷ []
kite_lo an7583 =
    (1, 0x0C040)
    ∷ (2, 0x02020)
    ∷ (3, 0x01020)
    ∷ (9, 0x003E8)
    ∷ (10, 0x003E8)
    ∷ (11, 0x00078)
    ∷ (14, 0x00600)
    ∷ (15, 0x00600)
    ∷ (6, 0x00C04)
    ∷ (4, 0x11940)
    ∷ (7, 0x08340)
    ∷ (8, 0x08340)
    ∷ (12, 0x00FA0)
    ∷ (13, 0x02710)
    ∷ (19, 0x00400)
    ∷ (20, 0x00400)
    ∷ (21, 0x06400)
    ∷ []

abbrev pub kite_hi : Soc → List (ℕ × ℕ)
kite_hi an7552 =
    (138, 0x02BC0) ∷ (129, 0x10FFF) ∷ (132, 0x04000) ∷ (134, 0x01000) ∷ (137, 0x00004) ∷ []
kite_hi an7581 =
    (138, 0x02BC0)
    ∷ (129, 0x13FFF)
    ∷ (132, 0x11000)
    ∷ (133, 0x01080)
    ∷ (130, 0x00004)
    ∷ (137, 0x00004)
    ∷ []
kite_hi an7583 =
    (138, 0x02BC0)
    ∷ (129, 0x13FFF)
    ∷ (132, 0x04000)
    ∷ (133, 0x00080)
    ∷ (134, 0x01000)
    ∷ (136, 0x08010)
    ∷ (130, 0x00004)
    ∷ (137, 0x00004)
    ∷ []

abbrev pub eagle_lo : Soc → List (ℕ × ℕ)
eagle_lo an7552 =
    (1, 0x12080)
    ∷ (2, 0x01800)
    ∷ (3, 0x01800)
    ∷ (9, 0x002A8)
    ∷ (10, 0x002A8)
    ∷ (11, 0x00078)
    ∷ (14, 0x00600)
    ∷ (15, 0x00600)
    ∷ (22, 0x01008)
    ∷ (25, 0x00090)
    ∷ (26, 0x00010)
    ∷ (30, 0x00100)
    ∷ (31, 0x02BC0)
    ∷ []
eagle_lo an7581 =
    (1, 0x220C0)
    ∷ (2, 0x01818)
    ∷ (3, 0x01818)
    ∷ (9, 0x003E8)
    ∷ (10, 0x003E8)
    ∷ (11, 0x00078)
    ∷ (14, 0x00600)
    ∷ (15, 0x00600)
    ∷ (22, 0x01008)
    ∷ (25, 0x00040)
    ∷ (26, 0x00010)
    ∷ (30, 0x00100)
    ∷ (31, 0x00601)
    ∷ (18, 0x06800)
    ∷ (16, 0x02020)
    ∷ (17, 0x02020)
    ∷ (28, 0x06800)
    ∷ (29, 0x01000)
    ∷ (23, 0x00800)
    ∷ []
eagle_lo an7583 =
    (1, 0x220C0)
    ∷ (2, 0x01818)
    ∷ (3, 0x01818)
    ∷ (9, 0x003E8)
    ∷ (10, 0x003E8)
    ∷ (11, 0x00078)
    ∷ (14, 0x00600)
    ∷ (15, 0x00600)
    ∷ (22, 0x01008)
    ∷ (25, 0x00040)
    ∷ (26, 0x00010)
    ∷ (30, 0x00100)
    ∷ (18, 0x06800)
    ∷ (16, 0x02020)
    ∷ (17, 0x02020)
    ∷ (28, 0x06800)
    ∷ (29, 0x01000)
    ∷ (23, 0x00800)
    ∷ []

abbrev pub eagle_hi : Soc → List (ℕ × ℕ)
eagle_hi an7552 =
    (138, 0x05780) ∷ (129, 0x10FFF) ∷ (132, 0x04000) ∷ (134, 0x01000) ∷ (137, 0x00004) ∷ []
eagle_hi an7581 =
    (138, 0x06000)
    ∷ (129, 0x13FFF)
    ∷ (132, 0x11000)
    ∷ (133, 0x11000)
    ∷ (130, 0x00004)
    ∷ (137, 0x00004)
    ∷ []
eagle_hi an7583 =
    (138, 0x06000)
    ∷ (129, 0x13FFF)
    ∷ (132, 0x04000)
    ∷ (133, 0x10000)
    ∷ (134, 0x01000)
    ∷ (136, 0x08010)
    ∷ (130, 0x00004)
    ∷ (137, 0x00004)
    ∷ []

-- sram_size_lo and sram_size_hi.
abbrev pub sram_size_lo : Build → List (ℕ × ℕ)
sram_size_lo b = if b.kite then kite_lo b.soc else eagle_lo b.soc

abbrev pub sram_size_hi : Build → List (ℕ × ℕ)
sram_size_hi b = if b.kite then kite_hi b.soc else eagle_hi b.soc

-- sram_size_ext.
abbrev pub sram_size_ext : Build → List (ℕ × ℕ)
sram_size_ext b =
    (12, 0x01000)
    ∷ (13, 0x02800)
    ∷ (if b.sta_qlimit
        then (if b.clanker_driver then (41, 0x10000) else (41, 0x0C800)) ∷ []
        else [])

abbrev pub sram_default_size : ℕ
sram_default_size = 0x2000

-- The size in the first row of a type.
unfoldable pub find_size : List (ℕ × ℕ) → ℕ → Option ℕ
find_size [] addr_type = none
find_size (t ∷ ts) addr_type =
    let rest = find_size ts addr_type in if t.0 == addr_type then some t.1 else rest

-- sram_type_size.
unfoldable pub sram_type_size : Build → ℕ → ℕ
sram_type_size b addr_type =
    let t = if leb addr_type 128 then sram_size_lo b else sram_size_hi b in
    elim (find_size t addr_type) [
      | some size ↦ size
      | none ↦ elim (find_size (sram_size_ext b) addr_type) [
        | some size ↦ size
        | none ↦ sram_default_size
      ]
    ]
