-- ===== src/Plic.antt =====
-- npu_plic.c: the interrupt controller. 192 sources, which the hardware numbers from 1; each hart has its
-- enable and mask words.
pub mod Bits
pub mod Sources
pub mod Runs
mod Tests
use clanker_npu.Prelude.{
  ℕ, zero, suc, ◌+◌, ◌-◌, ◌/◌, ◌%◌, ◌^◌, Bool, true, false, ◌&&◌, not, List, [], ◌∷◌, ◌++◌,
  if◌then◌else◌, ltb, ◌==◌, bit_and, bit_or, u8,
}
use clanker_npu.Fwd.{put_at}

-- What a source can have in plic_isr_table: NULL, default_isr, or a handler by its address.
pub data Handler : Type 0 where
  null : Handler
  default_isr : Handler
  isr : ℕ → Handler

pub real : Handler → Bool
real null = false
real default_isr = false
real (isr f) = true

pub called : Handler → ℕ → List (ℕ × ℕ)
called null src = []
called default_isr src = (0, src) ∷ []
called (isr f) src = (f, src) ∷ []

-- The words of one hart, the table that all share, the calls of handlers, with 0 for default_isr, and the
-- sources that were completed and that were reported as errors.
pub record Plic : Type 0 where
  pub enable : ℕ → ℕ
  pub mask : ℕ → ℕ
  pub priority : ℕ → ℕ
  pub threshold : ℕ
  pub table : ℕ → Handler
  pub init_done : Bool
  pub calls : List (ℕ × ℕ)
  pub claims : List ℕ
  pub errors : List ℕ

-- `w | bit` and `w & ~bit` for the bit k of a 32-bit word.
unfoldable pub set_bit : ℕ → ℕ → ℕ
set_bit w k = bit_or w (2 ^ k)

pub clear_bit : ℕ → ℕ → ℕ
clear_bit w k = bit_and w (2 ^ 32 - 1 - 2 ^ k)

abbrev pub failed_at : Plic → ℕ → Plic
failed_at s src = record s { errors = s.errors ++ src ∷ [] }

pub call_isr_by_src : Plic → ℕ → Plic
call_isr_by_src s src = if ltb 191 src then failed_at s src else record s {
  calls = s.calls ++ called (s.table src) src;
  claims = s.claims ++ (src + 1) ∷ [];
}

-- plic_set_threshold; `level` is the hart's entry of plic_threshold_table.
pub plic_set_threshold : Plic → ℕ → Plic
plic_set_threshold s level = record s { threshold = level % 2 ^ 5 }

pub plic_get_priority : Plic → ℕ → ℕ × Plic
plic_get_priority s src = if ltb 191 src then (16, failed_at s src) else (s.priority src % 2 ^ 5, s)

pub plic_set_priority : Plic → ℕ → ℕ → Plic
plic_set_priority s src prio =
    if ltb 191 src
    then failed_at s src
    else record s { priority = put_at s.priority src (u8 prio % 2 ^ 5) }

pub plic_enable : Plic → ℕ → Plic
plic_enable s src =
    let i = (src + 1) / 2 ^ 5 in
    let k = (src + 1) % 2 ^ 5 in
    if ltb 191 src then failed_at s src else record s {
      mask = put_at s.mask i (clear_bit (s.mask i) k);
      enable = put_at s.enable i (set_bit (s.enable i) k);
    }

pub plic_enable_wrapper : Plic → ℕ → Plic
plic_enable_wrapper s src = plic_enable s src

pub plic_disable : Plic → ℕ → Plic
plic_disable s src =
    let i = (src + 1) / 2 ^ 5 in
    let k = (src + 1) % 2 ^ 5 in
    if ltb 191 src then failed_at s src else record s {
      mask = put_at s.mask i (set_bit (s.mask i) k);
      enable = put_at s.enable i (clear_bit (s.enable i) k);
    }

-- The loop of plic_init from source i on, with n left.
pub init_loop : Bool → ℕ → ℕ → Plic → Plic
init_loop first i zero s = s
init_loop first i (suc n) s =
    let off = plic_disable s i in
    let prio = record off { priority = put_at off.priority i (if i == 95 then 17 else 16) } in
    let fresh = if first then record prio { table = put_at prio.table i default_isr } else prio in
    init_loop first (i + 1) n fresh

pub plic_init : Plic → ℕ → ℕ → Plic
plic_init s hart level =
    let start = plic_set_threshold s level in
    let out = init_loop (hart == 0 && not s.init_done) 0 192 start in
    if hart == 0 then record out { init_done = true } else out

pub plic_register_isr : Plic → ℕ → Handler → Plic
plic_register_isr s src handler =
    let refused = real handler && real (s.table src) in
    let stored =
      if ltb 191 src
      then failed_at s src
      else if refused
      then failed_at s src
      else record s { table = put_at s.table src handler } in
    plic_enable stored src
