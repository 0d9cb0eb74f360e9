-- ===== src/Rx/Insert.antt =====
-- npu_wifi_rx.c: a held frame stands at its place among the numbers, or is given back.
use clanker_npu.Prelude.{
  inl, inr, ℕ, ◌+◌, ◌^◌, ◌<◌, ◌≡◌, ◌≢◌, ◌⊎◌, refl, ap, sym, ◌∙◌, arith, Bool, true, false, List, [],
  ◌∷◌, ◌++◌, some, length, All, if◌then◌else◌, leb, ◌==◌, ◌&&◌, not, u16, Bool-cases, subst,
}
use clanker_npu.Ba.{Node, reorder_node_free, wifi_cnt_inc}
use clanker_npu.Ba.Chains.{Mpdu, Queue}
use clanker_npu.Ba.Session.{Granted}
use clanker_npu.Rx.{Rx, count, buf_id_free, insert_walk, link, insert}
use clanker_npu.Rx.Splice.{Marked, Fresh, first_addr, relink, single}
use clanker_npu.Rx.Order.{
  dist, Ascending, Ahead, is_before, Unequal, insert_walk-Split, Ascending-Ahead, Ascending-insert,
}
use clanker_npu.Rx.Link.{Queue-drop, link-Linked}

-- The frame is held: its node stands between two parts of the queue, and the numbers ascend.
pub record Inserted (base : ℕ) (rx : Rx) (pn : Node) (k : ℕ) (ms : List Mpdu) (out : Rx)
    : Type 0 where
  pub front : List Mpdu
  pub rest : List Mpdu
  pub split : ms ≡ front ++ rest
  pub held :
      Queue out.world.nodes out.entry.head
        (relink k front ++ single rx.world.nodes k (first_addr rest) ∷ rest)
  pub order : Ascending base 0 (relink k front ++ single rx.world.nodes k (first_addr rest) ∷ rest)
  pub sent : out.world.sent ≡ rx.world.sent
  pub pools : out.world.pools ≡ rx.world.pools
  pub freed : out.freed ≡ rx.freed
  pub counted : out.entry.count ≡ u16 (rx.entry.count + 1)
  pub last : out.entry.last ≡ rx.entry.last
  pub open_at : out.entry.msdu ≡ (if leb pn.amsdu 1 then 0 else k)

-- The number is held already: the index and the buffer go back, and the queue stays.
pub record GivenBack (rx : Rx) (pn : Node) (g : Granted) (ms : List Mpdu) (out : Rx) : Type 0 where
  pub front : List Mpdu
  pub twin : Mpdu
  pub rest : List Mpdu
  pub split : ms ≡ front ++ twin ∷ rest
  pub number : twin.node.sn ≡ pn.sn
  pub entry : out.entry ≡ rx.entry
  pub freed : out.freed ≡ rx.freed ++ pn.buf ∷ []
  pub world :
      out.world
      ≡ wifi_cnt_inc (reorder_node_free rx.world g.idx g.pool_type rx.entry.band) rx.entry.band 208

-- The test for a number that is held already.
abbrev twin_test : (ℕ → Node) → ℕ → ℕ → Bool
twin_test nodes cur sn = not (cur == 0) && (nodes cur).sn == sn

insert-gives_back :
    (fuel : ℕ) (rx : Rx) (pn : Node) (k : ℕ) (g : Granted) (at : ℕ × ℕ)
    → insert_walk fuel rx.world.nodes pn.sn 0 rx.entry.head ≡ some at
    → twin_test rx.world.nodes at.1 pn.sn ≡ true
    → insert fuel rx pn k g
      ≡ some (
          count
            (buf_id_free
              (record rx { world = reorder_node_free rx.world g.idx g.pool_type rx.entry.band })
              pn.buf)
            rx.entry.band
            208)
unfolding insert
insert-gives_back fuel rx pn k g at run twin = rw (insert, run, twin) refl

insert-links :
    (fuel : ℕ) (rx : Rx) (pn : Node) (k : ℕ) (g : Granted) (at : ℕ × ℕ)
    → insert_walk fuel rx.world.nodes pn.sn 0 rx.entry.head ≡ some at
    → twin_test rx.world.nodes at.1 pn.sn ≡ false
    → let linked = link rx.world rx.entry at.0 at.1 k in
      insert fuel rx pn k g
      ≡ some (record rx {
        world = linked.0;
        entry = record linked.1 { msdu = if leb pn.amsdu 1 then 0 else k };
      })
unfolding insert
insert-links fuel rx pn k g at run single_one = rw (insert, run, single_one) refl

twin-of :
    (nodes : ℕ → Node) (p sn : ℕ) (xs ys : List Mpdu)
    → Queue nodes p (xs ++ ys)
    → twin_test nodes (first_addr ys) sn ≡ true
    → (m : Mpdu) × ((rest : List Mpdu) × ((ys ≡ m ∷ rest) × (m.node.sn ≡ sn)))
twin-of nodes p sn xs [] q t = absurd (cc)
twin-of nodes p sn xs (m ∷ ys) q t =
    let d = Queue-drop nodes p xs (m ∷ ys) q in
    let number : (nodes m.addr).sn ≡ m.node.sn = ap (λ (n : Node). n.sn) d.1.1.0 in
    (m, (ys, (refl, ground arith)))

no_twin-Unequal :
    (nodes : ℕ → Node) (p sn : ℕ) (xs ys : List Mpdu)
    → Queue nodes p (xs ++ ys)
    → twin_test nodes (first_addr ys) sn ≡ false
    → Unequal sn ys
no_twin-Unequal nodes p sn xs [] q t = tt
no_twin-Unequal nodes p sn xs (m ∷ ys) q t =
    let d = Queue-drop nodes p xs (m ∷ ys) q in
    let number : (nodes m.addr).sn ≡ m.node.sn = ap (λ (n : Node). n.sn) d.1.1.0 in
    let somewhere : m.addr ≢ 0 = d.1.0 in ground arith

-- A session that holds the MPDUs ms, whose 12-bit numbers ascend from base within half the space, and
-- a frame with a number in that half, whose node k lies apart from them and holds no MSDU; marks tell
-- the addresses of MPDUs from those of their further MSDUs, and there is fuel for each MPDU and one
-- more. Then the insertion ends. Either the number was held: the index of the node and the buffer are
-- given back and the session is as before. Or the node stands between two parts of the queue, the
-- numbers ascend with it, one MPDU more is counted, the last number stays, the A-MSDU is open at the node
-- if the frame has more MSDUs, no frame is sent, no index goes back to a pool and no buffer is freed.
pub insert-Ascending :
    (f : ℕ → Bool) (base fuel : ℕ) (rx : Rx) (pn : Node) (k : ℕ) (g : Granted) (ms : List Mpdu)
    → Queue rx.world.nodes rx.entry.head ms
    → Marked f rx.world.nodes ms
    → Ascending base 0 ms
    → base < 2 ^ 12
    → pn.sn < 2 ^ 12
    → 0 < dist base pn.sn
    → dist base pn.sn < 2 ^ 11
    → f k ≡ true
    → k ≢ 0
    → Fresh k ms
    → (rx.world.nodes k).msdu_head ≡ 0
    → (rx.world.nodes k).sn ≡ pn.sn
    → length ms < fuel
    → (out : Rx) × ((insert fuel rx pn k g ≡ some out)
        × ((GivenBack rx pn g ms out) ⊎ (Inserted base rx pn k ms out)))
unfolding count buf_id_free
insert-Ascending f base fuel rx pn k g ms q m asc hb hs hd hw fk ne fresh head number enough =
    let nodes = rx.world.nodes in
    let (at, (run, s)) = insert_walk-Split fuel nodes pn.sn 0 rx.entry.head ms q enough in
    let q' : Queue nodes rx.entry.head (s.front ++ s.rest) =
      subst (Queue nodes rx.entry.head) s.split q in
    let asc' : Ascending base 0 (s.front ++ s.rest) = subst (Ascending base 0) s.split asc in
    elim (Bool-cases (twin_test nodes (first_addr s.rest) pn.sn)) [
      | inl twin ↦
          let (t, (rest, (split, same))) =
            twin-of nodes rx.entry.head pn.sn s.front s.rest q' twin in
          let twin_at : twin_test nodes at.1 pn.sn ≡ true = rw s.cur_at twin in
          (
            count
                (buf_id_free
                  (record rx { world = reorder_node_free rx.world g.idx g.pool_type rx.entry.band })
                  pn.buf)
                rx.entry.band 208,
            (
              insert-gives_back fuel rx pn k g at run twin_at,
              inl (record {
                front = s.front;
                twin = t;
                rest = rest;
                split = s.split ∙ ap (λ (x : List Mpdu). s.front ++ x) split;
                number = same;
                entry = refl;
                freed = refl;
                world = refl;
              }),
            ),
          )
      | inr alone ↦
          let alone_at : twin_test nodes at.1 pn.sn ≡ false = rw s.cur_at alone in
          let linked = link rx.world rx.entry at.0 at.1 k in
          let done =
            link-Linked f rx.world rx.entry at.0 at.1 k s.front s.rest s.prev_at s.cur_at q'
              (subst (Marked f nodes) s.split m) fk ne (subst (Fresh k) s.split fresh) head in
          let ahead =
            Ascending-Ahead base 0 pn.sn s.front s.rest hb hs hw asc' s.stop
              (no_twin-Unequal nodes rx.entry.head pn.sn s.front s.rest q' alone) in
          (
            record rx {
              world = linked.0;
              entry = record linked.1 { msdu = if leb pn.amsdu 1 then 0 else k };
            },
            (
              insert-links fuel rx pn k g at run alone_at,
              inr (record {
                front = s.front;
                rest = s.rest;
                split = s.split;
                held = done.held;
                order =
                    Ascending-insert base 0 k (single nodes k (first_addr s.rest)) s.front s.rest hb
                      (subst (λ (x : ℕ). x < 2 ^ 12) (sym number) hs)
                      (subst (λ (x : ℕ). 0 < dist base x) (sym number) hd)
                      (subst (λ (x : ℕ). dist base x < 2 ^ 11) (sym number) hw) asc'
                      (subst (λ (x : ℕ). All (λ m. is_before m.node.sn x ≡ true) s.front)
                        (sym number) s.below)
                      (subst (λ (x : ℕ). Ahead base x s.rest) (sym number) ahead);
                sent = done.sent;
                pools = done.pools;
                freed = refl;
                counted = done.count;
                last = done.last;
                open_at = refl;
              }),
            ),
          )
    ]
