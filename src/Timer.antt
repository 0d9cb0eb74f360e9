-- ===== src/Timer.antt =====
-- npu_timer.c: the timer interrupt. A timer_isr is given the word that it reads from the control
-- register, and returns the register's address and the word that it writes back.
pub mod Clock
mod Tests
use clanker_npu.Prelude.{
  ℕ, zero, suc, ◌+◌, ◌*◌, ◌-◌, ◌%◌, ◌^◌, Bool, true, false, ◌&&◌, List, [], ◌∷◌, if◌then◌else◌, ltb,
  leb, ◌==◌, add32, sub32, bit_and, bit_or,
}
use clanker_npu.Sram.{Soc, an7552, an7581, an7583}

pub record Timer : Type 0 where
  pub int_count : ℕ
  pub raw_tick : ℕ
  pub slow_tick : ℕ
  pub tod_sec : ℕ
  pub tod_usec : ℕ
  pub prev_ctrl : ℕ

-- timer_irq_map and timer_clr_bit, as rows of one table.
abbrev pub timer_rows : Soc → List (ℕ × ℕ)
timer_rows an7581 = (18, 16) ∷ (19, 17) ∷ (20, 18) ∷ (21, 21) ∷ []
timer_rows an7552 =
    (18, 16) ∷ (19, 17) ∷ (20, 18) ∷ (52, 21) ∷ (53, 22) ∷ (54, 23) ∷ (55, 24) ∷ (21, 19) ∷ []
timer_rows an7583 =
    (18, 16)
    ∷ (19, 17)
    ∷ (20, 18)
    ∷ (52, 21)
    ∷ (53, 22)
    ∷ (54, 23)
    ∷ (55, 24)
    ∷ (21, 19)
    ∷ (24, 16)
    ∷ (25, 17)
    ∷ (26, 18)
    ∷ (27, 21)
    ∷ (28, 22)
    ∷ (29, 23)
    ∷ (30, 24)
    ∷ (31, 19)
    ∷ []

find_bit : List (ℕ × ℕ) → ℕ → ℕ
find_bit [] src = 20
find_bit (r ∷ rs) src = let rest = find_bit rs src in if r.0 == src then r.1 else rest

-- timer_get_bit, with 20 for an unknown source.
pub timer_get_bit : Soc → ℕ → ℕ
timer_get_bit soc src = find_bit (timer_rows soc) src

-- The bank of a source: NPU_TIMER1_BASE or NPU_TIMER0_BASE.
abbrev pub timer_base : ℕ → ℕ
timer_base src = if leb 24 src && leb src 31 then 0x1EC10200 else 0x1EC10100

-- The word written back: only this timer's clear bit is set.
pub ack_word : ℕ → ℕ → ℕ
ack_word ctrl bit_no = bit_or (bit_and ctrl 0x1E0001EF) (2 ^ bit_no % 2 ^ 32)

-- The time of day, 100000 further.
abbrev pub tod_step : Timer → Timer
tod_step t =
    if ltb 999999999 (add32 t.tod_usec 100000)
    then record t { tod_sec = add32 t.tod_sec 1; tod_usec = sub32 t.tod_usec 999900000 }
    else record t { tod_usec = add32 t.tod_usec 100000 }

-- The counts of one tick where the timers have a core of their own.
pub tick_step : Timer → Timer
tick_step t =
    let tick = add32 t.raw_tick 1 in
    tod_step (record t {
      int_count = add32 t.int_count 1;
      raw_tick = tick;
      slow_tick = if tick % 100 == 0 then add32 t.slow_tick 1 else t.slow_tick;
    })

-- The control word that an acknowledge goes by: AN7552 keeps that of the first tick.
abbrev pub seen_ctrl : Soc → ℕ → Timer → ℕ
seen_ctrl an7552 ctrl t = if t.prev_ctrl == 0 then ctrl else t.prev_ctrl
seen_ctrl an7581 ctrl t = ctrl
seen_ctrl an7583 ctrl t = ctrl

-- The counts of one tick.
abbrev pub count_tick : Soc → Timer → Timer
count_tick an7552 t = record t { int_count = add32 t.int_count 1; raw_tick = add32 t.raw_tick 1 }
count_tick an7581 t = tick_step t
count_tick an7583 t = tick_step t

-- timer_isr.
pub timer_isr : Soc → ℕ → ℕ → Timer → (ℕ × ℕ) × Timer
timer_isr soc src ctrl t =
    let seen = seen_ctrl soc ctrl t in
    (
      (timer_base src, ack_word seen (timer_get_bit soc src)),
      count_tick soc (record t { prev_ctrl = seen }),
    )
