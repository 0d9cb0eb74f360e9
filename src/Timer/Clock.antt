-- ===== src/Timer/Clock.antt =====
-- npu_timer.c: the clocks that the ticks drive.
use clanker_npu.Prelude.{
  ℕ, ◌+◌, ◌*◌, ◌-◌, ◌/◌, ◌^◌, ◌<◌, ◌≡◌, ◌≢◌, refl, arith, List, [], ◌∷◌, length,
}
use clanker_npu.Sram.{Soc, an7552, an7581, an7583}
use clanker_npu.Timer.{Timer, tick_step, timer_isr}

-- The interrupts in their order: the source and the control word read.
unfoldable pub isr_run : Soc → List (ℕ × ℕ) → Timer → Timer
isr_run soc [] t = t
isr_run soc (i ∷ is) t = isr_run soc is (timer_isr soc i.0 i.1 t).1

-- The time of day in the units that tod_usec counts, 10^9 of which the code carries to a second.
abbrev pub tod : Timer → ℕ
tod t = t.tod_sec * 1000000000 + t.tod_usec

tick_step-tod :
    (t : Timer)
    → t.tod_usec < 1000000000
    → tod t + 100000 < 2 ^ 32 * 1000000000
    → (tod (tick_step t) ≡ tod t + 100000) × ((tick_step t).tod_usec < 1000000000)
unfolding tick_step
tick_step-tod t h k = ground arith

tick_step-slow :
    (t : Timer)
    → t.raw_tick < 2 ^ 32 - 1
    → t.slow_tick ≡ t.raw_tick / 100
    → ((tick_step t).raw_tick ≡ t.raw_tick + 1)
      × ((tick_step t).slow_tick ≡ (tick_step t).raw_tick / 100)
unfolding tick_step
tick_step-slow t h k = ground arith

-- A clock that is in step: the units of the time of day are fewer than a second has, and one slow tick is 100 raw ones.
abbrev pub InStep : Timer → Type 0
InStep t = (t.tod_usec < 1000000000) × (t.slow_tick ≡ t.raw_tick / 100)

one_isr :
    (soc : Soc) (src ctrl : ℕ) (t : Timer)
    → soc ≢ an7552
    → InStep t
    → t.raw_tick < 2 ^ 32 - 1
    → tod t + 100000 < 2 ^ 32 * 1000000000
    → let u = (timer_isr soc src ctrl t).1 in
      InStep u × (u.raw_tick ≡ t.raw_tick + 1) × (tod u ≡ tod t + 100000)
unfolding timer_isr
one_isr an7552 src ctrl t soc i r s = absurd (soc refl)
one_isr an7581 src ctrl t soc i r s =
    let u : Timer = record t { prev_ctrl = ctrl } in
    let (a, b) = tick_step-tod u i.0 s in let (c, d) = tick_step-slow u r i.1 in ((b, d), c, a)
one_isr an7583 src ctrl t soc i r s =
    let u : Timer = record t { prev_ctrl = ctrl } in
    let (a, b) = tick_step-tod u i.0 s in let (c, d) = tick_step-slow u r i.1 in ((b, d), c, a)

-- On the chips other than AN7552, from a clock in step, for any interrupts in any order that overflow
-- neither the 32 bits of the raw ticks nor those of the seconds: each interrupt is one raw tick and
-- 100000 more units of the time of day, of which the code carries 10^9 to a second, although the second
-- word is named tod_usec; the second word stays below 10^9, and there is one slow tick for every 100 raw
-- ones.
pub isr_run-InStep :
    (soc : Soc) (is : List (ℕ × ℕ)) (t : Timer)
    → soc ≢ an7552
    → InStep t
    → t.raw_tick + length is < 2 ^ 32
    → tod t + 100000 * length is < 2 ^ 32 * 1000000000
    → InStep (isr_run soc is t)
      × ((isr_run soc is t).raw_tick ≡ t.raw_tick + length is)
      × (tod (isr_run soc is t) ≡ tod t + 100000 * length is)
unfolding isr_run
isr_run-InStep soc [] t ne i r s = (i, omega arith, omega arith)
isr_run-InStep soc (x ∷ is) t ne i r s =
    let (a, b, c) = one_isr soc x.0 x.1 t ne i (omega arith) (omega (arith, s)) in
    let (d, e, f) =
      isr_run-InStep soc is (timer_isr soc x.0 x.1 t).1 ne a (omega (arith, b))
        (omega (arith, c, i.0, s)) in
    (d, omega (arith, b, e), omega (arith, c, f))
