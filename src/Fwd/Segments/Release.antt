-- ===== src/Fwd/Segments/Release.antt =====
-- npu_wifi_fwd.c: what rxnode_drain leaves of the ring of segments.
use clanker_npu.Prelude.{
  ℕ, zero, suc, ◌+◌, ◌≤◌, ◌<◌, ◌≡◌, refl, sym, ap, ◌∙◌, arith, List, [], ◌∷◌, ◌++◌, some,
  if◌then◌else◌, ◌==◌, Bool-cases, inl, inr, subst, map, length, bit, Bool, ◌^◌,
}
use mathlib.Core.List.{append_assoc, append-nil}
use clanker_npu.Fwd.{RxNode, Fwd, next_slot, rxnode_ring_size, rx_cleared, put_at}
use clanker_npu.Fwd.Slots.{Holds, slot, slot_zero}
use clanker_npu.Fwd.Fifo.{front-reads, take-Holds}
use clanker_npu.Fwd.Segments.{rx_scan, submit_segment, release, rxnode_drain}
use clanker_npu.Fwd.Segments.Scan.{rx_scan-Ended}

abbrev pub RxHolds : Fwd → List RxNode → Type 0
RxHolds s q = Holds (λ n. n.flags) rx_cleared rxnode_ring_size s.rx q

-- The buffers of segments.
pub buffers : List RxNode → List ℕ
buffers q = map (λ n. n.buf) q

-- The state after one segment was handed on or dropped.
abbrev one_out : Fwd → RxNode → Fwd × ℕ → Fwd
one_out s n sent = record sent.0 {
  rx = record s.rx {
    nodes = put_at s.rx.nodes s.rx.ridx rx_cleared;
    ridx = next_slot rxnode_ring_size s.rx.ridx;
  };
  freed = s.freed ++ n.buf ∷ [];
  counts = sent.0.counts ++ 192 ∷ [];
}

release-suc :
    (count : ℕ) (s : Fwd) (submit : Bool) (limit : ℕ) (answers : ℕ → ℕ) (k : ℕ) (n : RxNode)
    → s.rx.nodes s.rx.ridx ≡ n
    → (sent : Fwd × ℕ) × (release (suc count) s submit limit answers k
        ≡ release count (one_out s n sent) submit limit answers sent.1)
unfolding release
release-suc count s submit limit answers k n at =
    (if submit then submit_segment s n limit answers k else (s, k), rw (release, at) refl)

rx_cleared-flags : bit (rx_cleared.flags) 0 ≡ 0
unfolding rx_cleared
rx_cleared-flags = refl

-- The first segments left the ring and their buffers were given back; the others stay.
pub record Released (s : Fwd) (gone left : List RxNode) (out : Fwd) : Type 0 where
  pub held : RxHolds out left
  pub freed : out.freed ≡ s.freed ++ buffers gone

release-Released :
    (gone left : List RxNode) (s : Fwd) (submit : Bool) (limit : ℕ) (answers : ℕ → ℕ) (k : ℕ)
    → RxHolds s (gone ++ left)
    → Released s gone left (release (length gone) s submit limit answers k)
unfolding release buffers
release-Released [] left s submit limit answers k h = record {
  held = h;
  freed = sym (append-nil s.freed);
}
release-Released (n ∷ gone) left s submit limit answers k h =
    let at =
      front-reads (λ (x : RxNode). x.flags) rx_cleared rxnode_ring_size s.rx n (gone ++ left) h in
    let (sent, step) = release-suc (length gone) s submit limit answers k n at in
    let next = one_out s n sent in
    let held =
      take-Holds (λ (x : RxNode). x.flags) rx_cleared rxnode_ring_size s.rx n rx_cleared
        (gone ++ left) h rx_cleared-flags in
    let rest = release-Released gone left next submit limit answers sent.1 held in
    subst (Released s (n ∷ gone) left) (sym step) (record {
      held = rest.held;
      freed = rest.freed ∙ append_assoc s.freed (n.buf ∷ []) (buffers gone);
    })

split_at :
    (n : ℕ) (q : List RxNode)
    → n ≤ length q
    → (gone : List RxNode) × ((left : List RxNode) × ((q ≡ gone ++ left) × (length gone ≡ n)))
split_at zero q h = ([], (q, (refl, refl)))
split_at (suc n) [] h = absurd (omega arith)
split_at (suc n) (x ∷ q) h =
    let (gone, (left, (e, l))) = split_at n q (omega arith) in
    (x ∷ gone, (left, (ap (λ xs. x ∷ xs) e, ap suc l)))

-- The segments that one drain takes from the front of the ring.
pub record Drained (s : Fwd) (q : List RxNode) (out : Fwd) : Type 0 where
  pub gone : List RxNode
  pub left : List RxNode
  pub split : q ≡ gone ++ left
  pub few : length gone ≤ 7
  pub held : RxHolds out left
  pub freed : out.freed ≡ s.freed ++ buffers gone

drain_some :
    (fuel : ℕ) (s : Fwd) (look : ℕ → ℕ → ℕ) (limit : ℕ) (answers : ℕ → ℕ) (b : Bool) (n : ℕ)
    (log : List ℕ)
    → bit (look 0 s.rx.ridx) 0 ≡ 1
    → rx_scan fuel look limit 1 0 0 s.rx.ridx [] ≡ some (b, (n, log))
    → rxnode_drain fuel s look limit answers
      ≡ some (release n (record s { counts = s.counts ++ log }) b limit answers 0)
unfolding rxnode_drain
drain_some fuel s look limit answers b n log ready run = rw (ready, run) refl

drain_none :
    (fuel : ℕ) (s : Fwd) (look : ℕ → ℕ → ℕ) (limit : ℕ) (answers : ℕ → ℕ)
    → bit (look 0 s.rx.ridx) 0 ≡ 0
    → rxnode_drain fuel s look limit answers ≡ some (record s { counts = s.counts ++ 152 ∷ [] })
unfolding rxnode_drain
drain_none fuel s look limit answers idle = rw idle refl

-- The ring of segments holds q at the end of the scan, and every slot that a poll saw ready is one of q
-- (the other core only adds at the end). Then the drain returns, with fuel for the retry limit and eight
-- turns more; it takes at most 7 segments, from the front of q, and gives the buffer of each back once,
-- in their order, whether the host took them, refused them, or the frame was dropped as incomplete.
-- The rest is still held.
pub rxnode_drain-Drained :
    (fuel : ℕ) (s : Fwd) (look : ℕ → ℕ → ℕ) (limit : ℕ) (answers : ℕ → ℕ) (q : List RxNode)
    → RxHolds s q
    → ((n i : ℕ) → look n i < 2 ^ 8)
    → ((n k : ℕ) → k ≤ 6 → bit (look n (slot rxnode_ring_size s.rx.ridx k)) 0 ≡ 1 → k < length q)
    → limit + 8 ≤ fuel
    → (out : Fwd) × ((rxnode_drain fuel s look limit answers ≡ some out) × Drained s q out)
unfolding buffers
rxnode_drain-Drained fuel s look limit answers q h bytes seen enough =
    elim (Bool-cases (bit (look 0 s.rx.ridx) 0 == 0)) [
      | inl idle ↦ (
        record s { counts = s.counts ++ 152 ∷ [] },
        (
          drain_none fuel s look limit answers (ground (arith, idle)),
          record {
            gone = [];
            left = q;
            split = refl;
            few = omega arith;
            held = h;
            freed = sym (append-nil s.freed);
          },
        ),
      )
      | inr busy ↦
          let e =
            rx_scan-Ended fuel look limit 1 0 0 s.rx.ridx s.rx.ridx (length q) [] bytes seen
              h.start_in (sym (slot_zero rxnode_ring_size s.rx.ridx h.start_in)) (omega arith)
              (omega arith) (omega arith) (omega arith) in
          let (gone, (left, (split, many))) = split_at e.count q e.inside in
          let counted : Fwd = record s { counts = s.counts ++ e.log } in
          let r =
            release-Released gone left counted e.submit limit answers 0
              (subst (λ (xs : List RxNode). RxHolds counted xs) split h) in
          (
            release (length gone) counted e.submit limit answers 0,
            (
              drain_some fuel s look limit answers e.submit (length gone) e.log
                  (ground (arith, busy))
                  (e.value ∙ ap (λ n. some (e.submit, (n, e.log))) (sym many)),
              record {
                gone = gone;
                left = left;
                split = split;
                few = omega (arith, many, e.few);
                held = r.held;
                freed = r.freed;
              },
            ),
          )
    ]
