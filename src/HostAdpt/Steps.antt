-- ===== src/HostAdpt/Steps.antt =====
-- npu_hostadpt.c: what holds at each access of a sequence.
use clanker_npu.Prelude.{
  ℕ, ◌+◌, ◌<◌, ◌≤◌, ◌≡◌, ◌≢◌, sym, ◌∙◌, arith, List, [], ◌∷◌, ◌++◌, length, if◌then◌else◌, ltb, leb,
  add32, sub32, All, bit,
}
use clanker_npu.Fwd.Slots.{slot_ne, slot_zero}
use clanker_npu.HostAdpt.{
  OutRing, Access, counted, copied, waited, store_w0, store_w1, store_w2, set_idx, complained, act,
  play, ring_size, Seg, copy_segs, publish_segs,
}
use clanker_npu.HostAdpt.Segments.{seg-slot}

-- P holds before each access and at the end.
unfoldable pub Always : (OutRing → Type 0) → OutRing → List Access → Type 0
Always P r [] = P r
Always P r (a ∷ more) = P r × Always P (act r a) more

pub Always-append :
    (P : OutRing → Type 0) (xs ys : List Access) (r : OutRing)
    → Always P r xs
    → Always P (play r xs) ys
    → Always P r (xs ++ ys)
unfolding Always play
Always-append P [] ys r h rest = rest
Always-append P (x ∷ xs) ys r h rest = (h.0, Always-append P xs ys (act r x) h.1 rest)

pub Always-map :
    (P Q : OutRing → Type 0) (f : (r : OutRing) → P r → Q r) (xs : List Access) (r : OutRing)
    → Always P r xs
    → Always Q r xs
unfolding Always
Always-map P Q f [] r h = f r h
Always-map P Q f (x ∷ xs) r h = (f r h.0, Always-map P Q f xs (act r x) h.1)

-- The slot k is not ready.
abbrev pub Quiet : ℕ → OutRing → Type 0
Quiet k r = bit (r.desc k).w0 0 ≡ 0

-- An access that does not store word 0 of the slot k.
unfoldable pub Spares : ℕ → Access → Type 0
Spares k (store_w0 j v) = j ≢ k
Spares k (counted band offset) = Unit
Spares k (copied src dst len) = Unit
Spares k waited = Unit
Spares k (store_w2 j v) = Unit
Spares k (store_w1 j v) = Unit
Spares k (set_idx v) = Unit
Spares k complained = Unit

pub spared-Quiet : (k : ℕ) (r : OutRing) (a : Access) → Spares k a → Quiet k r → Quiet k (act r a)
unfolding Spares act
spared-Quiet k r (store_w0 j v) h q = ground (arith, h, q)
spared-Quiet k r (counted band offset) h q = q
spared-Quiet k r (copied src dst len) h q = q
spared-Quiet k r waited h q = q
spared-Quiet k r (store_w2 j v) h q = ground (arith, q)
spared-Quiet k r (store_w1 j v) h q = ground (arith, q)
spared-Quiet k r (set_idx v) h q = q
spared-Quiet k r complained h q = q

pub Always-Quiet :
    (k : ℕ) (xs : List Access) (r : OutRing) → All (Spares k) xs → Quiet k r → Always (Quiet k) r xs
unfolding Always
Always-Quiet k [] r h q = q
Always-Quiet k (x ∷ xs) r h q = (q, Always-Quiet k xs (act r x) h.1 (spared-Quiet k r x h.0 q))

pub play-Quiet :
    (k : ℕ) (xs : List Access) (r : OutRing) → All (Spares k) xs → Quiet k r → Quiet k (play r xs)
unfolding play
play-Quiet k [] r h q = q
play-Quiet k (x ∷ xs) r h q = play-Quiet k xs (act r x) h.1 (spared-Quiet k r x h.0 q)

All-append :
    (k : ℕ) (xs ys : List Access)
    → All (Spares k) xs
    → All (Spares k) ys
    → All (Spares k) (xs ++ ys)
All-append k [] ys h g = g
All-append k (x ∷ xs) ys h g = (h.0, All-append k xs ys h.1 g)

pub copy_segs-spare :
    (ss : List Seg) (limit : ℕ) (r : OutRing) (slot k : ℕ)
    → All (Spares k) (copy_segs limit r slot ss)
unfolding copy_segs Spares
copy_segs-spare [] limit r slot k = tt
copy_segs-spare (s ∷ ss) limit r slot k =
    (tt, (tt, copy_segs-spare ss limit r (if ltb (slot + 1) ring_size then slot + 1 else 0) k))

pub publish_segs-spare :
    (ss : List Seg) (idx i : ℕ)
    → idx < ring_size
    → 0 < i
    → i + length ss ≤ ring_size
    → All (Spares idx) (publish_segs idx i ss)
unfolding publish_segs Spares
publish_segs-spare [] idx i h odd fits = tt
publish_segs-spare (s ∷ ss) idx i h odd fits =
    let at = seg-slot idx i h (omega (arith, fits)) in
    let ne : (if leb ring_size (add32 idx i) then sub32 (add32 idx i) ring_size else add32 idx i)
        ≢ idx =
      λ e.
        slot_ne ring_size idx i 0 h (omega (arith, fits)) (omega arith) (omega (arith, odd))
          (sym at ∙ (e ∙ sym (slot_zero ring_size idx h))) in
    All-append idx (publish_segs idx (i + 1) ss) _
      (publish_segs-spare ss idx (i + 1) h (omega arith) (omega (arith, fits))) (tt, (tt, (ne, tt)))
