-- ===== src/Rx/Place.antt =====
-- npu_wifi_rx.c: the loop that slides the window ends.
use mathlib.Core.List.{append_assoc}
use clanker_npu.Prelude.{
  inl, inr, ℕ, zero, suc, ◌+◌, ◌-◌, ◌%◌, ◌^◌, ◌≤◌, ◌<◌, ◌≡◌, ◌≢◌, ◌⊎◌, refl, ap, sym, ◌∙◌, arith,
  List, [], ◌∷◌, ◌++◌, some, length, length-append,
}
use clanker_npu.Ba.{Entry, World, no_sn}
use clanker_npu.Ba.Chains.{Mpdu, Queue}
use clanker_npu.Ba.Moved.{Moved, rounds, none_gone}
use clanker_npu.Ba.Append.{rounds-append, Moved-append}
use clanker_npu.Ba.Flush.{last_sn}
use clanker_npu.Ba.Indicate.{ba_indicate_le_seq-Indicated}
use clanker_npu.Ba.Scan.{ba_seq_scan-Scanned}
use clanker_npu.Ba.Session.{take_last}
use clanker_npu.Ba.Session.Restart.{take_last-Moved}
use clanker_npu.Rx.{
  Rx, Spot, in_order, duplicate, behind, inside, past, spot, slide_start, slide, find_spot,
}

slide_start-eq :
    (sn win : ℕ) → sn < 2 ^ 12 → win < 2 ^ 11 → slide_start sn win ≡ (sn + 2 ^ 12 - win) % 2 ^ 12
unfolding slide_start
slide_start-eq sn win h k = ground arith

-- After a slide that releases nothing further the number lies in the window.
spot-slide_start :
    (sn win : ℕ) → sn < 2 ^ 12 → win < 2 ^ 11 → spot (slide_start sn win) win sn ≢ past
unfolding spot
spot-slide_start sn win h k = rw (slide_start-eq sn win h k) (ground arith)

-- What one slide does to the held MPDUs ms: it releases some from the front, and if it releases none
-- the number before the window is the last one given out.
record Slid (rx : Rx) (sn : ℕ) (ms : List Mpdu) (next : Rx) : Type 0 where
  gone : List Mpdu
  left : List Mpdu
  split : ms ≡ gone ++ left
  moved : Moved rx.world rx.entry gone left next.world next.entry
  progress : (next.entry.last ≡ slide_start sn rx.entry.win) ⊎ (1 ≤ length gone)
  freed : next.freed ≡ rx.freed

progress_of :
    (e : Entry) (fs r : ℕ) (gone : List Mpdu)
    → e.last ≡ fs
    → r ≡ last_sn no_sn gone
    → ((take_last e r).last ≡ fs) ⊎ (1 ≤ length gone)
progress_of e fs r [] last value = inl (rw value last)
progress_of e fs r (m ∷ gone) last value = inr (omega arith)

flagged :
    {w v : World} {e f : Entry} {gone left : List Mpdu}
    → Moved w e gone left v f
    → Moved w e gone left v (record f { flag = 4 })
flagged a = record {
  held = a.held;
  sent = a.sent;
  pools = a.pools;
  band = a.band;
  win = a.win;
  count = a.count;
}

marked_last :
    {w v : World} {e f : Entry} {gone left : List Mpdu} (n : ℕ)
    → Moved w e gone left v f
    → Moved w e gone left v (record f { last = n })
marked_last n a = record {
  held = a.held;
  sent = a.sent;
  pools = a.pools;
  band = a.band;
  win = a.win;
  count = a.count;
}

slide-Slid :
    (fuel : ℕ) (rx : Rx) (sn : ℕ) (ms : List Mpdu)
    → Queue rx.world.nodes rx.entry.head ms
    → rounds ms ≤ fuel
    → (next : Rx) × ((slide fuel rx sn ≡ some next) × Slid rx sn ms next)
unfolding slide
slide-Slid fuel rx sn ms q h =
    let w = rx.world in
    let e = rx.entry in
    let fs = slide_start sn e.win in
    let (v, (f, (run, i))) = ba_indicate_le_seq-Indicated fuel w e fs ms q h in
    let at_start : Entry = record f { last = fs } in
    let (r, (u, (g, (scan, s)))) =
      ba_seq_scan-Scanned fuel v at_start fs i.left i.moved.held
        (omega (arith, h, ap rounds i.split, rounds-append i.gone i.left)) in
    let next : Rx = record rx { world = u; entry = record (take_last g r) { flag = 4 } } in
    (
      next,
      (
        rw (slide, run, scan) refl,
        record {
          gone = i.gone ++ s.gone;
          left = s.left;
          split =
              i.split
              ∙ (ap (λ (x : List Mpdu). i.gone ++ x) s.split
                  ∙ sym (append_assoc i.gone s.gone s.left));
          moved = flagged (
              take_last-Moved r (
                Moved-append w e i.gone s.gone i.left s.left v u at_start g (marked_last fs i.moved)
                  s.moved));
          progress = elim (progress_of g fs r s.gone s.same_last s.value) [
            | inl at ↦ inl at
            | inr some_gone ↦ inr (omega (arith, length-append i.gone s.gone))
          ];
          freed = refl;
        },
      ),
    )

-- The loop ended at a spot that is not past the window, and released a first part of ms.
pub record Found (rx : Rx) (sn : ℕ) (ms : List Mpdu) (s : Spot) (next : Rx) : Type 0 where
  pub at : s ≡ spot next.entry.last next.entry.win sn
  pub reached : s ≢ past
  pub gone : List Mpdu
  pub left : List Mpdu
  pub split : ms ≡ gone ++ left
  pub moved : Moved rx.world rx.entry gone left next.world next.entry
  pub freed : next.freed ≡ rx.freed

Spot-past : (s : Spot) → (s ≡ past) ⊎ (s ≢ past)
Spot-past past = inl refl
Spot-past in_order = inr (λ e. cc)
Spot-past duplicate = inr (λ e. cc)
Spot-past behind = inr (λ e. cc)
Spot-past inside = inr (λ e. cc)

find_spot-at :
    (n fuel : ℕ) (rx : Rx) (sn : ℕ) (s : Spot)
    → spot rx.entry.last rx.entry.win sn ≡ s
    → s ≢ past
    → find_spot (suc n) fuel rx sn ≡ some (s, rx)
unfolding find_spot
find_spot-at n fuel rx sn in_order e ne = rw (find_spot, e) refl
find_spot-at n fuel rx sn duplicate e ne = rw (find_spot, e) refl
find_spot-at n fuel rx sn behind e ne = rw (find_spot, e) refl
find_spot-at n fuel rx sn inside e ne = rw (find_spot, e) refl
find_spot-at n fuel rx sn past e ne = absurd (ne refl)

find_spot-slides :
    (n fuel : ℕ) (rx : Rx) (sn : ℕ) (next : Rx)
    → spot rx.entry.last rx.entry.win sn ≡ past
    → slide fuel rx sn ≡ some next
    → find_spot (suc n) fuel rx sn ≡ find_spot n fuel next sn
unfolding find_spot
find_spot-slides n fuel rx sn next e run = rw (find_spot, e, run) refl

settled :
    (n fuel : ℕ) (rx : Rx) (sn : ℕ) (ms : List Mpdu)
    → Queue rx.world.nodes rx.entry.head ms
    → spot rx.entry.last rx.entry.win sn ≢ past
    → (s : Spot) × ((next : Rx) × ((find_spot (suc n) fuel rx sn ≡ some (s, next))
          × Found rx sn ms s next))
settled n fuel rx sn ms q ne =
    let s = spot rx.entry.last rx.entry.win sn in
    (
      s,
      (
        rx,
        (
          find_spot-at n fuel rx sn s refl ne,
          record {
            at = refl;
            reached = ne;
            gone = [];
            left = ms;
            split = refl;
            moved = none_gone rx.world rx.entry ms q;
            freed = refl;
          },
        ),
      ),
    )

after_slide :
    (rx next last : Rx) (sn : ℕ) (ms : List Mpdu) (s : Spot) (t : Slid rx sn ms next)
    → Found next sn t.left s last
    → Found rx sn ms s last
after_slide rx next last sn ms s t f = record {
  at = f.at;
  reached = f.reached;
  gone = t.gone ++ f.gone;
  left = f.left;
  split =
      t.split
      ∙ (ap (λ (x : List Mpdu). t.gone ++ x) f.split ∙ sym (append_assoc t.gone f.gone f.left));
  moved =
      Moved-append rx.world rx.entry t.gone f.gone t.left f.left next.world last.world next.entry
        last.entry t.moved f.moved;
  freed = f.freed ∙ t.freed;
}

-- A session that holds the MPDUs ms, for a number of 12 bits and a window below 2^11, with fuel for
-- each node and two turns more than MPDUs: the loop ends, at a number that is not past the window
-- that it left. Until then it released a first part of ms, in order, and dropped no buffer.
pub find_spot-Found :
    (n fuel : ℕ) (rx : Rx) (sn : ℕ) (ms : List Mpdu)
    → Queue rx.world.nodes rx.entry.head ms
    → rounds ms ≤ fuel
    → sn < 2 ^ 12
    → rx.entry.win < 2 ^ 11
    → length ms + 2 ≤ n
    → (s : Spot) × ((next : Rx) × ((find_spot n fuel rx sn ≡ some (s, next))
          × Found rx sn ms s next))
find_spot-Found zero fuel rx sn ms q h small win turns = absurd (omega arith)
find_spot-Found (suc zero) fuel rx sn ms q h small win turns = absurd (omega arith)
find_spot-Found (suc (suc n)) fuel rx sn ms q h small win turns =
    elim (Spot-past (spot rx.entry.last rx.entry.win sn)) [
      | inr ne ↦ settled (suc n) fuel rx sn ms q ne
      | inl is_past ↦
          let (next, (run, t)) = slide-Slid fuel rx sn ms q h in
          let less : rounds t.left ≤ fuel =
            omega (arith, h, ap rounds t.split, rounds-append t.gone t.left) in
          let step = find_spot-slides (suc n) fuel rx sn next is_past run in
          elim t.progress [
            | inl at ↦
                let stops : spot next.entry.last next.entry.win sn ≢ past =
                  rw (at, t.moved.win) (spot-slide_start sn rx.entry.win small win) in
                let (s, (last, (found, f))) = settled n fuel next sn t.left t.moved.held stops in
                (s, (last, (step ∙ found, after_slide rx next last sn ms s t f)))
            | inr some_gone ↦
                let fewer : length t.left + 2 ≤ suc n =
                  omega (arith, turns, some_gone, ap length t.split, length-append t.gone t.left) in
                let (s, (last, (found, f))) =
                  find_spot-Found (suc n) fuel next sn t.left t.moved.held less small
                    (omega (arith, t.moved.win)) fewer in
                (s, (last, (step ∙ found, after_slide rx next last sn ms s t f)))
          ]
    ]
