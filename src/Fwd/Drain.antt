-- ===== src/Fwd/Drain.antt =====
-- npu_wifi_fwd.c: pinode_drain, which empties the piNode ring from the front.
use clanker_npu.Prelude.{
  ℕ, ◌≡◌, refl, sym, arith, List, [], ◌∷◌, ◌++◌, if◌then◌else◌, ◌==◌, ltb, not, Bool-cases, inl,
  inr, subst, ◌&&◌, bit, Bool, ◌^◌, u16,
}
use mathlib.Core.List.{append-nil}
use clanker_npu.Fwd.{
  PiNode, Fwd, Submit, put_at, next_slot, pi_cleared, pi_submit, pinode_ring_size, deliver,
  pinode_drain,
}
use clanker_npu.Fwd.Fifo.{front-reads, front-ready, empty-unready, take-Holds}
use clanker_npu.Fwd.Ends.{blank, PiHolds, size_some}

-- Whether the drain hands a node to the host: a buffer id that is not negative, and a length.
unfoldable pub goes_out : PiNode → Bool
goes_out n = ltb n.buf (2 ^ 31) && not (n.len == 0)

unfoldable pub calls : List PiNode → List Submit
calls [] = []
calls (n ∷ ns) = let rest = calls ns in if goes_out n then pi_submit n ∷ rest else rest

unfoldable pub buffers : List PiNode → List ℕ
buffers [] = []
buffers (n ∷ ns) = let rest = buffers ns in if goes_out n then u16 n.buf ∷ rest else rest

deliver-submits :
    (s : Fwd) (n : PiNode) (ret : ℕ) → (deliver s n ret).submits ≡ s.submits ++ calls (n ∷ [])
unfolding deliver calls goes_out
deliver-submits s n ret = ground (arith, append-nil s.submits)

deliver-freed :
    (s : Fwd) (n : PiNode) (ret : ℕ) → (deliver s n ret).freed ≡ s.freed ++ buffers (n ∷ [])
unfolding deliver buffers goes_out
deliver-freed s n ret = ground (arith, append-nil s.freed)

drain-idle :
    (s : Fwd) (band ret : ℕ)
    → bit ((s.pi.nodes s.pi.ridx).flags) 0 ≡ 0
    → pinode_drain s band ret ≡ record s { counts = s.counts ++ 20 ∷ [] }
unfolding pinode_drain
drain-idle s band ret h = ground (arith, h)

-- The state after a round on a ready node.
abbrev drained : Fwd → ℕ → PiNode → ℕ → Fwd
drained s band n ret =
    let out = deliver (record s { counts = s.counts ++ 36 ∷ [] }) n ret in
    record out {
      pi = record s.pi {
        nodes = put_at s.pi.nodes s.pi.ridx (pi_cleared n.info);
        ridx = next_slot (pinode_ring_size band) s.pi.ridx;
      };
      counts = out.counts ++ 20 ∷ [];
    }

drain-ready :
    (s : Fwd) (band ret : ℕ) (n : PiNode)
    → s.pi.nodes s.pi.ridx ≡ n
    → bit n.flags 0 ≡ 1
    → pinode_drain s band ret ≡ drained s band n ret
unfolding pinode_drain
drain-ready s band ret n at h = rw (at, h) refl

pi_cleared-flags : (info : ℕ) → bit ((pi_cleared info).flags) 0 ≡ 0
unfolding pi_cleared
pi_cleared-flags info = refl

-- The oldest frame left the ring; it went to the host if it may, and then its buffer was given back.
pub record Taken (band : ℕ) (s : Fwd) (n : PiNode) (q : List PiNode) (out : Fwd) : Type 0 where
  pub held : PiHolds band out q
  pub submits : out.submits ≡ s.submits ++ calls (n ∷ [])
  pub freed : out.freed ≡ s.freed ++ buffers (n ∷ [])

pub pinode_drain-Taken :
    (s : Fwd) (band ret : ℕ) (n : PiNode) (q : List PiNode)
    → PiHolds band s (n ∷ q)
    → Taken band s n q (pinode_drain s band ret)
pinode_drain-Taken s band ret n q h =
    let size = pinode_ring_size band in
    let at = front-reads (λ (x : PiNode). x.flags) blank size s.pi n q h in
    let ready = front-ready (λ (x : PiNode). x.flags) blank size s.pi n q h in
    let counted : Fwd = record s { counts = s.counts ++ 36 ∷ [] } in
    subst (Taken band s n q) (sym (drain-ready s band ret n at ready)) (record {
      held =
          take-Holds (λ (x : PiNode). x.flags) blank size s.pi n (pi_cleared n.info) q h
            (pi_cleared-flags n.info);
      submits = deliver-submits counted n ret;
      freed = deliver-freed counted n ret;
    })

pub pinode_drain_empty :
    (s : Fwd) (band ret : ℕ)
    → PiHolds band s []
    → pinode_drain s band ret ≡ record s { counts = s.counts ++ 20 ∷ [] }
pinode_drain_empty s band ret h =
    drain-idle s band ret (
      empty-unready (λ (x : PiNode). x.flags) blank (pinode_ring_size band) s.pi h (size_some band))

pub calls-append : (xs ys : List PiNode) → calls (xs ++ ys) ≡ calls xs ++ calls ys
unfolding calls
calls-append [] ys = refl
calls-append (x ∷ xs) ys = elim (Bool-cases (goes_out x)) [
  | inl e ↦ rw (e, calls-append xs ys) refl
  | inr e ↦ rw (e, calls-append xs ys) refl
]

pub buffers-append : (xs ys : List PiNode) → buffers (xs ++ ys) ≡ buffers xs ++ buffers ys
unfolding buffers
buffers-append [] ys = refl
buffers-append (x ∷ xs) ys = elim (Bool-cases (goes_out x)) [
  | inl e ↦ rw (e, buffers-append xs ys) refl
  | inr e ↦ rw (e, buffers-append xs ys) refl
]
