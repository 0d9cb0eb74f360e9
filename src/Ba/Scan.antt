-- ===== src/Ba/Scan.antt =====
-- npu_wifi_ba.c: ba_seq_scan releases the held MPDUs that go on from a number without a gap.
use clanker_npu.Prelude.{
  inl, inr, ℕ, zero, suc, ◌+◌, ◌≤◌, ◌≡◌, ◌≢◌, refl, ◌∙◌, ap, arith, false, List, [], ◌∷◌, ◌++◌,
  some, ◌==◌, ==_iff, Bool-cases,
}
use clanker_npu.Ba.{Node, Entry, World, ba_pop_mpdu, scan_loop, ba_seq_scan, u12, no_sn}
use clanker_npu.Ba.Chains.{Mpdu, Queue}
use clanker_npu.Ba.Moved.{Moved, rounds, none_gone, one_gone, Moved-trans}
use clanker_npu.Ba.Flush.{last_sn, head_sn}

-- The numbers go on from seq without a gap, modulo 2^12.
abbrev pub Follows : ℕ → List Mpdu → Type 0
Follows seq [] = Unit
Follows seq (m ∷ ms) = (m.node.sn ≡ u12 (seq + 1)) × Follows m.node.sn ms

-- The next number is missing.
abbrev pub Gap : ℕ → List Mpdu → Type 0
Gap seq [] = Unit
Gap seq (m ∷ ms) = m.node.sn ≢ u12 (seq + 1)

-- What ba_seq_scan does to the MPDUs ms, and the number that it gives out, with `last` for none.
pub record Scanned (w : World) (e : Entry) (seq last : ℕ) (ms : List Mpdu) (n : ℕ) (v : World)
    (f : Entry) : Type 0 where
  pub gone : List Mpdu
  pub left : List Mpdu
  pub split : ms ≡ gone ++ left
  pub moved : Moved w e gone left v f
  pub follows : Follows seq gone
  pub gap : Gap (last_sn seq gone) left
  pub value : n ≡ last_sn last gone
  pub same_last : f.last ≡ e.last
  pub same_msdu : f.msdu ≡ e.msdu

stays :
    (w : World) (e : Entry) (seq last : ℕ) (ms : List Mpdu)
    → Queue w.nodes e.head ms
    → Gap seq ms
    → Scanned w e seq last ms last w e
stays w e seq last ms q gap = record {
  gone = [];
  left = ms;
  split = refl;
  moved = none_gone w e ms q;
  follows = tt;
  gap = gap;
  value = refl;
  same_last = refl;
  same_msdu = refl;
}

pop-last : (w : World) (e : Entry) → (ba_pop_mpdu w e).1.last ≡ e.last
unfolding ba_pop_mpdu
pop-last w e = refl

pop-msdu : (w : World) (e : Entry) → (ba_pop_mpdu w e).1.msdu ≡ e.msdu
unfolding ba_pop_mpdu
pop-msdu w e = refl

scan_loop-Scanned :
    (fuel : ℕ) (w : World) (e : Entry) (seq last : ℕ) (ms : List Mpdu)
    → Queue w.nodes e.head ms
    → rounds ms ≤ fuel
    → (n : ℕ) × ((v : World) × ((f : Entry) × ((scan_loop fuel w e seq last ≡ some (n, v, f))
            × Scanned w e seq last ms n v f)))
unfolding scan_loop
scan_loop-Scanned zero w e seq last [] q h =
    (last, (w, (e, (rw q refl, stays w e seq last [] q tt))))
scan_loop-Scanned (suc fuel) w e seq last [] q h =
    (last, (w, (e, (rw q refl, stays w e seq last [] q tt))))
scan_loop-Scanned zero w e seq last (m ∷ ms) q h = absurd (omega arith)
scan_loop-Scanned (suc fuel) w e seq last (m ∷ ms) q h =
    let busy : (e.head == 0) ≡ false = ground (arith, q.1.0) in
    let sn : (w.nodes e.head).sn ≡ m.node.sn = ap (λ (n : Node). n.sn) q.1.1.0 in
    elim (Bool-cases (m.node.sn == u12 (seq + 1))) [
      | inl next ↦
          let (v, (run, one)) = one_gone fuel w e 1 m ms q (omega arith) in
          let popped = head_sn w e m ms q in
          let (n, (u, (g, (rest, r)))) =
            scan_loop-Scanned fuel v (ba_pop_mpdu w e).1 m.node.sn m.node.sn ms one.held
              (omega arith) in
          (
            n,
            (
              u,
              (
                g,
                (
                  rw (busy, sn, next, run, popped) rest,
                  record {
                    gone = m ∷ r.gone;
                    left = r.left;
                    split = ap (λ (x : List Mpdu). m ∷ x) r.split;
                    moved =
                        Moved-trans w e m r.gone ms r.left v u (ba_pop_mpdu w e).1 g one r.moved;
                    follows = (ground (arith, ==_iff m.node.sn (u12 (seq + 1))), r.follows);
                    gap = r.gap;
                    value = r.value;
                    same_last = r.same_last ∙ pop-last w e;
                    same_msdu = r.same_msdu ∙ pop-msdu w e;
                  },
                ),
              ),
            ),
          )
      | inr missing ↦ (
        last,
        (w, (e, (rw (busy, sn, missing) refl, stays w e seq last (m ∷ ms) q (ground arith)))),
      )
    ]

-- A session that holds the MPDUs ms, with one round of fuel for each node: ba_seq_scan ends. It
-- splits ms in two: it releases the first part in order, frames and indices, whose numbers go on
-- from seq without a gap modulo 2^12; the rest is still held, and does not start with the next
-- number. The value is the last number released, or 0xFFFF.
pub ba_seq_scan-Scanned :
    (fuel : ℕ) (w : World) (e : Entry) (seq : ℕ) (ms : List Mpdu)
    → Queue w.nodes e.head ms
    → rounds ms ≤ fuel
    → (n : ℕ) × ((v : World) × ((f : Entry) × ((ba_seq_scan fuel w e seq ≡ some (n, v, f))
            × Scanned w e seq no_sn ms n v f)))
unfolding ba_seq_scan
ba_seq_scan-Scanned fuel w e seq ms q h = scan_loop-Scanned fuel w e seq no_sn ms q h
