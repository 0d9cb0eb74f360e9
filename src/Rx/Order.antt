-- ===== src/Rx/Order.antt =====
-- npu_wifi_rx.c: the walk to the place of a number, and the order of the numbers.
use clanker_npu.Prelude.{
  inl, inr, ℕ, zero, suc, ◌+◌, ◌-◌, ◌%◌, ◌^◌, ◌<◌, ◌≡◌, ◌≢◌, refl, ap, ◌∙◌, arith, Bool, true,
  false, List, [], ◌∷◌, ◌++◌, some, length, All, ◌==◌, not, bit, sub32, Bool-cases,
}
use clanker_npu.Ba.{Node}
use clanker_npu.Ba.Chains.{Mpdu, Queue}
use clanker_npu.Rx.{insert_walk}
use clanker_npu.Rx.Splice.{first_addr, last_addr, relink}

-- How far a number of 12 bits lies behind `base`.
abbrev pub dist : ℕ → ℕ → ℕ
dist base sn = (sn + 2 ^ 12 - base) % 2 ^ 12

-- The numbers of ms lie in the half of the space behind base, each further than the one before, and
-- the first further than d.
abbrev pub Ascending : ℕ → ℕ → List Mpdu → Type 0
Ascending base d [] = Unit
Ascending base d (m ∷ ms) =
    (m.node.sn < 2 ^ 12)
    × ((d < dist base m.node.sn)
        × ((dist base m.node.sn < 2 ^ 11) × Ascending base (dist base m.node.sn) ms))

-- The test of the walk: a lies before b.
abbrev pub is_before : ℕ → ℕ → Bool
is_before a b = not (bit (sub32 a b) 11 == 0)

is_before-dist :
    (base a b : ℕ)
    → base < 2 ^ 12
    → a < 2 ^ 12
    → b < 2 ^ 12
    → dist base a < 2 ^ 11
    → dist base b < 2 ^ 11
    → is_before a b ≡ true
    → dist base a < dist base b
is_before-dist base a b h i j k l t = ground arith

not_before-dist :
    (base a b : ℕ)
    → base < 2 ^ 12
    → a < 2 ^ 12
    → b < 2 ^ 12
    → dist base a < 2 ^ 11
    → dist base b < 2 ^ 11
    → is_before a b ≡ false
    → a ≢ b
    → dist base b < dist base a
not_before-dist base a b h i j k l t ne = ground arith

abbrev pub Stop : ℕ → List Mpdu → Type 0
Stop sn [] = Unit
Stop sn (m ∷ ms) = is_before m.node.sn sn ≡ false

-- Where the walk ends: between two parts of the queue.
pub record Split (sn prev : ℕ) (ms : List Mpdu) (out : ℕ × ℕ) : Type 0 where
  pub front : List Mpdu
  pub rest : List Mpdu
  pub split : ms ≡ front ++ rest
  pub prev_at : out.0 ≡ last_addr prev front
  pub cur_at : out.1 ≡ first_addr rest
  pub below : All (λ m. is_before m.node.sn sn ≡ true) front
  pub stop : Stop sn rest

pub insert_walk-Split :
    (fuel : ℕ) (nodes : ℕ → Node) (sn prev cur : ℕ) (ms : List Mpdu)
    → Queue nodes cur ms
    → length ms < fuel
    → (out : ℕ × ℕ) × ((insert_walk fuel nodes sn prev cur ≡ some out) × Split sn prev ms out)
unfolding insert_walk
insert_walk-Split zero nodes sn prev cur ms q h = absurd (omega arith)
insert_walk-Split (suc fuel) nodes sn prev cur [] q h = (
  (prev, cur),
  (
    rw q refl,
    record {
      front = [];
      rest = [];
      split = refl;
      prev_at = refl;
      cur_at = q;
      below = tt;
      stop = tt;
    },
  ),
)
insert_walk-Split (suc fuel) nodes sn prev cur (m ∷ ms) (at, (ne, (node, (chain, (alone, rest)))))
      h =
    let busy : (cur == 0) ≡ false = ground arith in
    let number : (nodes cur).sn ≡ m.node.sn = ap (λ (n : Node). n.sn) node in
    let follows : (nodes cur).next ≡ m.node.next = ap (λ (n : Node). n.next) node in
    elim (Bool-cases (is_before m.node.sn sn)) [
      | inl before ↦
          let (out, (run, s)) =
            insert_walk-Split fuel nodes sn cur (nodes cur).next ms (rw follows rest)
              (omega arith) in
          (
            out,
            (
              rw (insert_walk, busy, number, before) run,
              record {
                front = m ∷ s.front;
                rest = s.rest;
                split = ap (λ (x : List Mpdu). m ∷ x) s.split;
                prev_at = s.prev_at ∙ ap (λ (d : ℕ). last_addr d s.front) at;
                cur_at = s.cur_at;
                below = (before, s.below);
                stop = s.stop;
              },
            ),
          )
      | inr stops ↦ (
        (prev, cur),
        (
          rw (busy, number, stops) refl,
          record {
            front = [];
            rest = m ∷ ms;
            split = refl;
            prev_at = refl;
            cur_at = at;
            below = tt;
            stop = stops;
          },
        ),
      )
    ]

-- The numbers behind sn start further from base.
abbrev pub Ahead : ℕ → ℕ → List Mpdu → Type 0
Ahead base sn [] = Unit
Ahead base sn (m ∷ ms) = dist base sn < dist base m.node.sn

abbrev pub Unequal : ℕ → List Mpdu → Type 0
Unequal sn [] = Unit
Unequal sn (m ∷ ms) = m.node.sn ≢ sn

pub Ascending-Ahead :
    (base d sn : ℕ) (front rest : List Mpdu)
    → base < 2 ^ 12
    → sn < 2 ^ 12
    → dist base sn < 2 ^ 11
    → Ascending base d (front ++ rest)
    → Stop sn rest
    → Unequal sn rest
    → Ahead base sn rest
Ascending-Ahead base d sn [] [] hb hs hd a stop ne = tt
Ascending-Ahead base d sn [] (m ∷ ms) hb hs hd a stop ne =
    not_before-dist base m.node.sn sn hb a.0 hs a.1.1.0 hd stop ne
Ascending-Ahead base d sn (x ∷ front) rest hb hs hd a stop ne =
    Ascending-Ahead base (dist base x.node.sn) sn front rest hb hs hd a.1.1.1 stop ne

Ascending-front :
    (base d : ℕ) (new : Mpdu) (rest : List Mpdu)
    → new.node.sn < 2 ^ 12
    → d < dist base new.node.sn
    → dist base new.node.sn < 2 ^ 11
    → Ascending base d rest
    → Ahead base new.node.sn rest
    → Ascending base d (new ∷ rest)
Ascending-front base d new [] hs hd hw a ahead = (hs, (hd, (hw, tt)))
Ascending-front base d new (m ∷ ms) hs hd hw a ahead =
    (hs, (hd, (hw, (a.0, (ahead, (a.1.1.0, a.1.1.1))))))

pub Ascending-insert :
    (base d k : ℕ) (new : Mpdu) (front rest : List Mpdu)
    → base < 2 ^ 12
    → new.node.sn < 2 ^ 12
    → d < dist base new.node.sn
    → dist base new.node.sn < 2 ^ 11
    → Ascending base d (front ++ rest)
    → All (λ m. is_before m.node.sn new.node.sn ≡ true) front
    → Ahead base new.node.sn rest
    → Ascending base d (relink k front ++ new ∷ rest)
Ascending-insert base d k new [] rest hb hs hd hw a below ahead =
    Ascending-front base d new rest hs hd hw a ahead
Ascending-insert base d k new (x ∷ []) rest hb hs hd hw a below ahead =
    let further = is_before-dist base x.node.sn new.node.sn hb a.0 hs a.1.1.0 hw below.0 in
    (
      a.0,
      (
        a.1.0,
        (a.1.1.0, Ascending-front base (dist base x.node.sn) new rest hs further hw a.1.1.1 ahead),
      ),
    )
Ascending-insert base d k new (x ∷ y ∷ front) rest hb hs hd hw a below ahead =
    let further = is_before-dist base x.node.sn new.node.sn hb a.0 hs a.1.1.0 hw below.0 in
    (
      a.0,
      (
        a.1.0,
        (
          a.1.1.0,
          Ascending-insert base (dist base x.node.sn) k new (y ∷ front) rest hb hs further hw
              a.1.1.1 below.1 ahead,
        ),
      ),
    )
