-- ===== src/Ba/Indicate.antt =====
-- npu_wifi_ba.c: ba_indicate_le_seq releases the held MPDUs up to a number.
use clanker_npu.Prelude.{
  inl, inr, ℕ, zero, suc, ◌+◌, ◌-◌, ◌%◌, ◌/◌, ◌^◌, ◌<◌, ◌≤◌, ◌⊎◌, u16, bit, sub16, ◌≡◌, refl, ap,
  arith, true, false, List, [], ◌∷◌, ◌++◌, some, All, ◌==◌, Bool-cases,
}
use clanker_npu.Ba.{Node, Entry, World, ba_pop_mpdu, le_seq, ba_indicate_le_seq}
use clanker_npu.Ba.Chains.{Mpdu, Queue}
use clanker_npu.Ba.Moved.{Moved, rounds, none_gone, one_gone, Moved-trans}

-- How far a number lies behind another on the circle of 12-bit numbers.
abbrev pub behind : ℕ → ℕ → ℕ
behind seq sn = (seq + 2 ^ 12 - sn % 2 ^ 12) % 2 ^ 12

-- A number that is `seq`, or lies behind it by at most half of the circle.
abbrev pub AtOrBehind : ℕ → ℕ → Type 0
AtOrBehind seq sn = (sn ≡ u16 seq) ⊎ ((0 < behind seq sn) × (behind seq sn ≤ 2 ^ 11))

abbrev pub AllBehind : ℕ → List Mpdu → Type 0
AllBehind seq ms = All (λ m. AtOrBehind seq m.node.sn) ms

abbrev pub StopsBehind : ℕ → List Mpdu → Type 0
StopsBehind seq [] = Unit
StopsBehind seq (m ∷ ms) = ¬ AtOrBehind seq m.node.sn

bit_11-half : (d : ℕ) → bit d 11 ≡ d % 2 ^ 12 / 2 ^ 11
bit_11-half d = omega arith

sub16-behind : (sn seq : ℕ) → ((sub16 sn seq % 2 ^ 12) + behind seq sn) % 2 ^ 12 ≡ 0
sub16-behind sn seq = omega arith

le_seq-behind : (sn seq : ℕ) → le_seq sn seq ≡ true → AtOrBehind seq sn
le_seq-behind sn seq h = ground (arith, h, sub16-behind sn seq, bit_11-half (sub16 sn seq))

gt_seq-ahead : (sn seq : ℕ) → le_seq sn seq ≡ false → ¬ AtOrBehind seq sn
gt_seq-ahead sn seq h p = ground (arith, h, p, sub16-behind sn seq, bit_11-half (sub16 sn seq))

-- What ba_indicate_le_seq does to the MPDUs ms.
pub record Indicated (w : World) (e : Entry) (seq : ℕ) (ms : List Mpdu) (v : World) (f : Entry)
    : Type 0 where
  pub gone : List Mpdu
  pub left : List Mpdu
  pub split : ms ≡ gone ++ left
  pub moved : Moved w e gone left v f
  pub below : AllBehind seq gone
  pub stops : StopsBehind seq left

-- A session that holds the MPDUs ms, with one round of fuel for each node: ba_indicate_le_seq ends.
-- It splits ms in two: it releases the first part in order, frames and indices, all of whose numbers
-- are seq or lie behind it by at most half of the 12-bit numbers; the rest is still held, and does not
-- start with such a number.
pub ba_indicate_le_seq-Indicated :
    (fuel : ℕ) (w : World) (e : Entry) (seq : ℕ) (ms : List Mpdu)
    → Queue w.nodes e.head ms
    → rounds ms ≤ fuel
    → (v : World) × ((f : Entry) × ((ba_indicate_le_seq fuel w e seq ≡ some (v, f))
          × Indicated w e seq ms v f))
unfolding ba_indicate_le_seq
ba_indicate_le_seq-Indicated zero w e seq [] q h = (
  w,
  (
    e,
    (
      rw q refl,
      record {
        gone = [];
        left = [];
        split = refl;
        moved = none_gone w e [] q;
        below = tt;
        stops = tt;
      },
    ),
  ),
)
ba_indicate_le_seq-Indicated (suc fuel) w e seq [] q h = (
  w,
  (
    e,
    (
      rw q refl,
      record {
        gone = [];
        left = [];
        split = refl;
        moved = none_gone w e [] q;
        below = tt;
        stops = tt;
      },
    ),
  ),
)
ba_indicate_le_seq-Indicated zero w e seq (m ∷ ms) q h = absurd (omega arith)
ba_indicate_le_seq-Indicated (suc fuel) w e seq (m ∷ ms) q h =
    let busy : (e.head == 0) ≡ false = ground (arith, q.1.0) in
    let sn : (w.nodes e.head).sn ≡ m.node.sn = ap (λ (n : Node). n.sn) q.1.1.0 in
    elim (Bool-cases (le_seq m.node.sn seq)) [
      | inl le ↦
          let (v, (run, one)) = one_gone fuel w e 2 m ms q (omega arith) in
          let (u, (g, (rest, r))) =
            ba_indicate_le_seq-Indicated fuel v (ba_pop_mpdu w e).1 seq ms one.held (omega arith) in
          (
            u,
            (
              g,
              (
                rw (busy, sn, le, run) rest,
                record {
                  gone = m ∷ r.gone;
                  left = r.left;
                  split = ap (λ (x : List Mpdu). m ∷ x) r.split;
                  moved = Moved-trans w e m r.gone ms r.left v u (ba_pop_mpdu w e).1 g one r.moved;
                  below = (le_seq-behind m.node.sn seq le, r.below);
                  stops = r.stops;
                },
              ),
            ),
          )
      | inr gt ↦ (
        w,
        (
          e,
          (
            rw (busy, sn, gt) refl,
            record {
              gone = [];
              left = m ∷ ms;
              split = refl;
              moved = none_gone w e (m ∷ ms) q;
              below = tt;
              stops = gt_seq-ahead m.node.sn seq gt;
            },
          ),
        ),
      )
    ]
