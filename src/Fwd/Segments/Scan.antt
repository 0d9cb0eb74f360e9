-- ===== src/Fwd/Segments/Scan.antt =====
-- npu_wifi_fwd.c: the scan of rxnode_drain ends, and counts only segments that it saw ready.
use clanker_npu.Prelude.{
  ℕ, zero, suc, ◌+◌, ◌≤◌, ◌<◌, ◌≡◌, refl, sym, ap, ◌∙◌, arith, List, Option, some, leb, ◌==◌, ltb,
  not, Bool-cases, inl, inr, subst, shr, bit, Bool, ◌^◌, u16,
}
use clanker_npu.Fwd.{next_slot, rxnode_ring_size}
use clanker_npu.Fwd.Slots.{slot, next-slot}
use clanker_npu.Fwd.Segments.{Turn, stop, go, rx_turn, rx_scan}

-- What a turn may do in the state (tries, count, scan), with `ready` for the bit that it saw.
data Allowed (limit tries count scan : ℕ) (ready : ℕ) : Turn → Type 0 where
  stops : {b : Bool} {l : List ℕ} → Allowed limit tries count scan ready (stop b count l)
  counts :
      {b : Bool} {l : List ℕ}
      → ready ≡ 1
      → Allowed limit tries count scan ready (stop b (suc count) l)
  waits :
      {l : List ℕ}
      → tries + 1 ≤ limit
      → Allowed limit tries count scan ready (go (tries + 1) count scan l)
  steps :
      {l : List ℕ}
      → ready ≡ 1
      → suc count < 7
      → Allowed limit tries count scan ready
          (go tries (suc count) (next_slot rxnode_ring_size scan) l)

rx_turn-Allowed :
    (flags limit tries count scan : ℕ) (log : List ℕ)
    → flags < 2 ^ 8
    → count ≤ 6
    → Allowed limit tries count scan (bit flags 0) (rx_turn flags limit tries count scan log)
unfolding rx_turn
rx_turn-Allowed flags limit tries count scan log small few =
    let next : u16 (count + 1) ≡ suc count = omega arith in
    elim (Bool-cases (bit flags 0 == 0)) [
      | inl idle ↦ elim (Bool-cases (ltb limit (tries + 1))) [
        | inl over ↦ rw (idle, over) stops
        | inr under ↦ rw (idle, under) (waits (ground (arith, under)))
      ]
      | inr busy ↦
          let ready : bit flags 0 ≡ 1 = ground (arith, busy) in
          elim (Bool-cases (not (bit flags 1 == 0))) [
            | inl last ↦ rw (busy, last, next) (counts ready)
            | inr more ↦ elim (Bool-cases (leb (shr flags 5) (suc count))) [
              | inl enough ↦ rw (busy, more, next, enough) stops
              | inr short ↦ elim (Bool-cases (ltb limit tries)) [
                | inl over ↦ rw (busy, more, next, short, over) (counts ready)
                | inr under ↦
                    rw (busy, more, next, short, under) (steps ready (ground (arith, short, small)))
              ]
            ]
          ]
    ]

-- The result of a scan that started at a slot `base` and may count up to `len` segments.
pub record Ended (len : ℕ) (out : Option (Bool × (ℕ × List ℕ))) : Type 0 where
  pub submit : Bool
  pub count : ℕ
  pub log : List ℕ
  pub value : out ≡ some (submit, (count, log))
  pub few : count ≤ 7
  pub inside : count ≤ len

scan-stop :
    (fuel : ℕ) (look : ℕ → ℕ → ℕ) (limit poll tries count scan : ℕ) (log : List ℕ) (b : Bool)
    (n : ℕ) (l : List ℕ)
    → rx_turn (look poll scan) limit tries count scan log ≡ stop b n l
    → rx_scan (suc fuel) look limit poll tries count scan log ≡ some (b, (n, l))
unfolding rx_scan
scan-stop fuel look limit poll tries count scan log b n l h = rw (rx_scan, h) refl

scan-go :
    (fuel : ℕ) (look : ℕ → ℕ → ℕ) (limit poll tries count scan : ℕ) (log : List ℕ) (t n i : ℕ)
    (l : List ℕ)
    → rx_turn (look poll scan) limit tries count scan log ≡ go t n i l
    → rx_scan (suc fuel) look limit poll tries count scan log
      ≡ rx_scan fuel look limit (suc poll) t n i l
unfolding rx_scan
scan-go fuel look limit poll tries count scan log t n i l h = rw (rx_scan, h) refl

-- One turn, when the rest of the scan ends.
turn-Ended :
    (fuel : ℕ) (look : ℕ → ℕ → ℕ) (limit poll tries count base scan len : ℕ) (log : List ℕ)
    → (bit (look poll (slot rxnode_ring_size base count)) 0 ≡ 1 → count < len)
    → base < rxnode_ring_size
    → scan ≡ slot rxnode_ring_size base count
    → tries ≤ limit
    → count ≤ 6
    → count ≤ len
    → limit + 7 < suc fuel + tries + count
    → ((t n i : ℕ) (l : List ℕ)
        → i ≡ slot rxnode_ring_size base n
        → t ≤ limit
        → n ≤ 6
        → n ≤ len
        → limit + 7 < fuel + t + n
        → Ended len (rx_scan fuel look limit (suc poll) t n i l))
    → (turn : Turn) → rx_turn (look poll scan) limit tries count scan log ≡ turn
    → Allowed limit tries count scan (bit (look poll scan) 0) turn
    → Ended len (rx_scan (suc fuel) look limit poll tries count scan log)
turn-Ended fuel look limit poll tries count base scan len log seen hb at ht few hl enough ih turn
      run (stops {b} {l}) =
    record {
      submit = b;
      count = count;
      log = l;
      value = scan-stop fuel look limit poll tries count scan log b count l run;
      few = omega arith;
      inside = hl;
    }
turn-Ended fuel look limit poll tries count base scan len log seen hb at ht few hl enough ih turn
      run (counts {b} {l} ready) =
    record {
      submit = b;
      count = suc count;
      log = l;
      value = scan-stop fuel look limit poll tries count scan log b (suc count) l run;
      few = omega arith;
      inside = seen (subst (λ i. bit (look poll i) 0 ≡ 1) at ready);
    }
turn-Ended fuel look limit poll tries count base scan len log seen hb at ht few hl enough ih turn
      run (waits {l} more) =
    subst (Ended len)
      (sym (scan-go fuel look limit poll tries count scan log (tries + 1) count scan l run))
      (ih (tries + 1) count scan l at more few hl (omega arith))
turn-Ended fuel look limit poll tries count base scan len log seen hb at ht few hl enough ih turn
      run (steps {l} ready more) =
    let next = next_slot rxnode_ring_size scan in
    subst (Ended len)
      (sym (scan-go fuel look limit poll tries count scan log tries (suc count) next l run))
      (ih tries (suc count) next l
        (ap (next_slot rxnode_ring_size) at
          ∙ next-slot rxnode_ring_size base count hb (omega arith))
        ht (omega arith) (seen (subst (λ i. bit (look poll i) 0 ≡ 1) at ready)) (omega arith))

-- Whatever the other core stores between the polls, the scan ends: with fuel for each try and each of
-- the up to 7 segments that the flags can announce. It counts no more than 7 segments, and none past a
-- number `len` such that the slots from there on are never seen ready.
pub rx_scan-Ended :
    (fuel : ℕ) (look : ℕ → ℕ → ℕ) (limit poll tries count base scan len : ℕ) (log : List ℕ)
    → ((n i : ℕ) → look n i < 2 ^ 8)
    → ((n k : ℕ) → k ≤ 6 → bit (look n (slot rxnode_ring_size base k)) 0 ≡ 1 → k < len)
    → base < rxnode_ring_size
    → scan ≡ slot rxnode_ring_size base count
    → tries ≤ limit
    → count ≤ 6
    → count ≤ len
    → limit + 7 < fuel + tries + count
    → Ended len (rx_scan fuel look limit poll tries count scan log)
rx_scan-Ended zero look limit poll tries count base scan len log bytes seen hb at ht few hl enough =
    absurd (omega arith)
rx_scan-Ended (suc fuel) look limit poll tries count base scan len log bytes seen hb at ht few hl
      enough =
    turn-Ended fuel look limit poll tries count base scan len log (seen poll count few) hb at ht few
      hl enough
      (λ t n i l e a b c d.
        rx_scan-Ended fuel look limit (suc poll) t n base i len l bytes seen hb e a b c d)
      (rx_turn (look poll scan) limit tries count scan log) refl
      (rx_turn-Allowed (look poll scan) limit tries count scan log (bytes poll scan) few)
