-- ===== src/Timer/Tests.antt =====
-- Three ticks over the end of a second.
use clanker_npu.Prelude.{ℕ, ◌≡◌, ◌≢◌, refl, arith, Bool, true, false, List, [], ◌∷◌, ap}
use clanker_npu.Sram.{Soc, an7552, an7581, an7583}
use clanker_npu.Timer.{Timer, timer_isr, timer_get_bit, tick_step, find_bit, ack_word}
use clanker_npu.Timer.Clock.{isr_run, tod, InStep, isr_run-InStep}

abbrev clock : Timer
clock = record {
  int_count = 198;
  raw_tick = 198;
  slow_tick = 1;
  tod_sec = 7;
  tod_usec = 999800000;
  prev_ctrl = 0;
}

abbrev ticks : List (ℕ × ℕ)
ticks = (21, 0x55) ∷ (18, 0x55) ∷ (24, 0x55) ∷ []

ticked : (isr_run an7583 ticks clock).slow_tick ≡ 2
unfolding isr_run timer_isr tick_step
ticked = refl

-- The acknowledge of source 21 keeps the enable bits and writes bit 19.
acked : (timer_isr an7583 21 0x55 clock).0 ≡ (0x1EC10100, 0x80045)
unfolding timer_isr timer_get_bit find_bit ack_word
acked = refl

abbrev is_old : Soc → Bool
is_old an7552 = true
is_old an7581 = false
is_old an7583 = false

newer : an7583 ≢ an7552
newer e = let bad : false ≡ true = ap is_old e in absurd (ground arith)

isr_run-InStep_example :
    InStep (isr_run an7583 ticks clock)
    × ((isr_run an7583 ticks clock).raw_tick ≡ 201)
    × (tod (isr_run an7583 ticks clock) ≡ 8000100000)
isr_run-InStep_example =
    isr_run-InStep an7583 ticks clock newer (omega arith, refl) (omega arith) (omega arith)
