-- ===== src/Fwd/Ends.antt =====
-- npu_wifi_fwd.c: pkt_forward, which fills the piNode ring from behind.
use clanker_npu.Prelude.{
  Option-cases, ltb→lt, ltb→le, ℕ, ◌<◌, ◌≡◌, refl, sym, arith, List, [], ◌∷◌, ◌++◌, none, some,
  ◌==◌, ltb, Bool-cases, inl, inr, ◌⊎◌, subst, length, bit, true, false, bit_or, u8,
}
use clanker_npu.Prelude.Bits.{bit_or-halves}
use clanker_npu.Fwd.{
  Ring, PiNode, RxNode, Fwd, Packet, put, pi_node, rx_node, pi_cleared, pinode_ring_size,
  rxnode_ring_size, stats, pkt_forward,
}
use clanker_npu.Fwd.Slots.{Holds}
use clanker_npu.Fwd.Fifo.{put-Holds, put-full}

-- A node that is read past the end of a queue only.
abbrev pub blank : PiNode
blank = pi_cleared 0

abbrev pub PiHolds : ℕ → Fwd → List PiNode → Type 0
PiHolds band s q = Holds (λ n. n.flags) blank (pinode_ring_size band) s.pi q

pub size_some : (band : ℕ) → 0 < pinode_ring_size band
unfolding pinode_ring_size
size_some band = ground arith

ready_bit : (x : ℕ) → bit (u8 (bit_or x 1)) 0 ≡ 1
ready_bit x = ground (arith, bit_or-halves x 1)

pub pi_node-ready : (p : Packet) → bit ((pi_node p).flags) 0 ≡ 1
unfolding pi_node
pi_node-ready p = ready_bit p.fwd_type

-- The statistics touch neither the rings nor the logs.
pub stats-pi : (s : Fwd) (info orig tunnel : ℕ) → (stats s info orig tunnel).pi ≡ s.pi
unfolding stats
stats-pi s info orig tunnel = ground arith

pub stats-submits :
    (s : Fwd) (info orig tunnel : ℕ) → (stats s info orig tunnel).submits ≡ s.submits
unfolding stats
stats-submits s info orig tunnel = ground arith

pub stats-freed : (s : Fwd) (info orig tunnel : ℕ) → (stats s info orig tunnel).freed ≡ s.freed
unfolding stats
stats-freed s info orig tunnel = ground arith

-- The frame stands behind the queue; nothing went out.
pub record Queued (band : ℕ) (s : Fwd) (q : List PiNode) (out : ℕ × Fwd) : Type 0 where
  pub value : out.0 ≡ 0
  pub held : PiHolds band out.1 q
  pub submits : out.1.submits ≡ s.submits
  pub freed : out.1.freed ≡ s.freed

pub record Refused (band : ℕ) (s : Fwd) (q : List PiNode) (out : ℕ × Fwd) : Type 0 where
  pub value : out.0 ≡ 1
  pub full : length q ≡ pinode_ring_size band
  pub held : PiHolds band out.1 q
  pub submits : out.1.submits ≡ s.submits
  pub freed : out.1.freed ≡ s.freed

forward-whole :
    (s : Fwd) (p : Packet) (band info : ℕ) (r : Ring PiNode)
    → (p.orig == p.len) ≡ true
    → put (λ n. n.flags) (pinode_ring_size band) s.pi (pi_node p) ≡ some r
    → pkt_forward s p band info
      ≡ (0, stats (record s { pi = r; counts = s.counts ++ 24 ∷ [] }) info p.orig p.tunnel)
unfolding pkt_forward
forward-whole s p band info r w h = rw (w, h) refl

forward-refused :
    (s : Fwd) (p : Packet) (band info : ℕ)
    → (p.orig == p.len) ≡ true
    → put (λ n. n.flags) (pinode_ring_size band) s.pi (pi_node p) ≡ none
    → pkt_forward s p band info ≡ (1, record s { counts = s.counts ++ 28 ∷ [] })
unfolding pkt_forward
forward-refused s p band info w h = rw (w, h) refl

-- A whole frame is put behind the frames that the piNode ring holds, with the value 0, or, exactly when
-- the ring is full, it is refused with the value 1 and the ring is as it was. In both cases nothing is
-- submitted or freed.
pub pkt_forward-Queued :
    (s : Fwd) (p : Packet) (band info : ℕ) (q : List PiNode)
    → PiHolds band s q
    → p.orig ≡ p.len
    → Queued band s (q ++ pi_node p ∷ []) (pkt_forward s p band info)
      ⊎ Refused band s q (pkt_forward s p band info)
pkt_forward-Queued s p band info q h whole =
    let size = pinode_ring_size band in
    let test : (p.orig == p.len) ≡ true = ground (arith, whole) in
    elim (Bool-cases (ltb (length q) size)) [
      | inl room ↦
          let (r, (run, held)) =
            put-Holds (λ (n : PiNode). n.flags) blank size s.pi q (pi_node p) h (pi_node-ready p)
              (ltb→lt (length q) size room) in
          let s' : Fwd = record s { pi = r; counts = s.counts ++ 24 ∷ [] } in
          inl (
            subst (Queued band s (q ++ pi_node p ∷ []))
              (sym (forward-whole s p band info r test run))
              (record {
                value = refl;
                held =
                    subst
                      (λ (x : Ring PiNode). Holds (λ n. n.flags) blank size x (q ++ pi_node p ∷ []))
                      (sym (stats-pi s' info p.orig p.tunnel)) held;
                submits = stats-submits s' info p.orig p.tunnel;
                freed = stats-freed s' info p.orig p.tunnel;
              }))
      | inr none_left ↦
          let full : length q ≡ size = omega (arith, h.fits, ltb→le (length q) size none_left) in
          inr (
            subst (Refused band s q)
              (sym (
                forward-refused s p band info test (
                  put-full (λ (n : PiNode). n.flags) blank size s.pi q (pi_node p) h full
                    (size_some band))))
              (record { value = refl; full = full; held = h; submits = refl; freed = refl }))
    ]

segment-put :
    (s : Fwd) (p : Packet) (band info : ℕ) (r : Ring RxNode)
    → (p.orig == p.len) ≡ false
    → put (λ n. n.flags) rxnode_ring_size s.rx (rx_node p) ≡ some r
    → pkt_forward s p band info
      ≡ (0, stats (record s { rx = r; counts = s.counts ++ 148 ∷ [] }) info p.orig p.tunnel)
unfolding pkt_forward
segment-put s p band info r w h = rw (w, h) refl

segment-full :
    (s : Fwd) (p : Packet) (band info : ℕ)
    → (p.orig == p.len) ≡ false
    → put (λ n. n.flags) rxnode_ring_size s.rx (rx_node p) ≡ none
    → pkt_forward s p band info ≡ (1, s)
unfolding pkt_forward
segment-full s p band info w h = rw (w, h) refl

pub record Kept (s t : Fwd) : Type 0 where
  pub pi : t.pi ≡ s.pi
  pub submits : t.submits ≡ s.submits
  pub freed : t.freed ≡ s.freed

-- A segment leaves the ring of whole frames and the logs alone.
pub pkt_forward-Kept :
    (s : Fwd) (p : Packet) (band info : ℕ)
    → (p.orig == p.len) ≡ false
    → Kept s (pkt_forward s p band info).1
pkt_forward-Kept s p band info w =
    elim (Option-cases (put (λ n. n.flags) rxnode_ring_size s.rx (rx_node p))) [
      | inl full ↦
          subst (λ (o : ℕ × Fwd). Kept s o.1) (sym (segment-full s p band info w full))
            (record { pi = refl; submits = refl; freed = refl })
      | inr (r, h) ↦
          let s' : Fwd = record s { rx = r; counts = s.counts ++ 148 ∷ [] } in
          subst (λ (o : ℕ × Fwd). Kept s o.1) (sym (segment-put s p band info r w h))
            (record {
              pi = stats-pi s' info p.orig p.tunnel;
              submits = stats-submits s' info p.orig p.tunnel;
              freed = stats-freed s' info p.orig p.tunnel;
            })
    ]
