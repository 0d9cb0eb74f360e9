-- ===== src/HostAdpt/History.antt =====
-- npu_hostadpt.c: every sequence of host_ring_submit and of the host's turns on one out ring.
use clanker_npu.Prelude.{
  ℕ, ◌<◌, ◌≡◌, refl, sym, ap, ◌∙◌, arith, List, [], ◌∷◌, ◌++◌, Bool-cases, inl, inr, subst,
  if◌then◌else◌, not, ◌==◌, bit,
}
use mathlib.Core.List.{append_assoc}
use clanker_npu.Fwd.{Submit, put_at, next_slot}
use clanker_npu.Fwd.Fifo.{front-reads, front-ready, empty-unready, take-Holds}
use clanker_npu.HostAdpt.{Desc, OutRing, HostAdpt, ring_size, ready, host_ring_submit}
use clanker_npu.HostAdpt.Words.{desc_of}
use clanker_npu.HostAdpt.Queue.{blank, HostHolds, as_ring}
use clanker_npu.HostAdpt.Room.{ring_of, Refused, host_ring_submit-Queued}

-- The host takes the descriptor at its index, if that is ready, and leaves b there.
pub data Turn : Type 0 where
  submit : Submit → Turn
  host_take : (b : Desc) → bit b.w0 0 ≡ 0 → Turn

pub record Run : Type 0 where
  pub adpt : HostAdpt
  pub host : ℕ
  pub accepted : List Desc
  pub taken : List Desc

pub with_ring : HostAdpt → ℕ → OutRing → HostAdpt
with_ring s band r = if band == 0 then record s { tx = r } else record s { rx = r }

-- `accepted` has the descriptors of the frames for which the answer was 0.
pub turn : ℕ → ℕ → Run → Turn → Run
turn limit band w (submit f) =
    let r = ring_of w.adpt band in
    let out = host_ring_submit limit w.adpt f band in
    record w {
      adpt = out.1;
      accepted = if out.0 == 0 then w.accepted ++ desc_of f (r.desc r.idx).dst ∷ [] else w.accepted;
    }
turn limit band w (host_take b clear) =
    let r = ring_of w.adpt band in
    if not (ready r w.host) then w else record w {
      adpt = with_ring w.adpt band (record r { desc = put_at r.desc w.host b });
      host = next_slot ring_size w.host;
      taken = w.taken ++ r.desc w.host ∷ [];
    }

pub run : ℕ → ℕ → Run → List Turn → Run
run limit band w [] = w
run limit band w (t ∷ ts) = run limit band (turn limit band w t) ts

-- The frames that the host took, then those that stand ready for it, are the accepted ones in their order.
pub record InOrder (band : ℕ) (w : Run) : Type 0 where
  pub left : List Desc
  pub held : HostHolds w.host (ring_of w.adpt band) left
  pub order : w.taken ++ left ≡ w.accepted

turn-accepted :
    (limit band : ℕ) (w : Run) (f : Submit)
    → (host_ring_submit limit w.adpt f band).0 ≡ 0
    → turn limit band w (submit f) ≡ record w {
      adpt = (host_ring_submit limit w.adpt f band).1;
      accepted =
          w.accepted ++ desc_of f ((ring_of w.adpt band).desc (ring_of w.adpt band).idx).dst ∷ [];
    }
unfolding turn
turn-accepted limit band w f e = rw e refl

turn-Refused :
    (limit band : ℕ) (w : Run) (f : Submit)
    → Refused band w.adpt (host_ring_submit limit w.adpt f band)
    → turn limit band w (submit f) ≡ record w { adpt = (host_ring_submit limit w.adpt f band).1 }
unfolding turn
turn-Refused limit band w f h = rw h.value refl

turn-idle :
    (limit band : ℕ) (w : Run) (b : Desc) (clear : bit b.w0 0 ≡ 0)
    → bit ((ring_of w.adpt band).desc w.host).w0 0 ≡ 0
    → turn limit band w (host_take b clear) ≡ w
unfolding turn
turn-idle limit band w b clear e = rw e refl

-- The state after the host took the descriptor d.
abbrev took : ℕ → Run → Desc → Desc → Run
took band w b d =
    let r = ring_of w.adpt band in
    record w {
      adpt = with_ring w.adpt band (record r { desc = put_at r.desc w.host b });
      host = next_slot ring_size w.host;
      taken = w.taken ++ d ∷ [];
    }

turn-took :
    (limit band : ℕ) (w : Run) (b d : Desc) (clear : bit b.w0 0 ≡ 0)
    → (ring_of w.adpt band).desc w.host ≡ d
    → bit d.w0 0 ≡ 1
    → turn limit band w (host_take b clear) ≡ took band w b d
unfolding turn
turn-took limit band w b d clear e h =
    let odd : bit ((ring_of w.adpt band).desc w.host).w0 0 ≡ 1 = rw e h in
    rw odd (ap (took band w b) e)

ring-with_ring : (s : HostAdpt) (band : ℕ) (r : OutRing) → ring_of (with_ring s band r) band ≡ r
unfolding with_ring
ring-with_ring s band r = elim (Bool-cases (band == 0)) [ inl e ↦ rw e refl | inr e ↦ rw e refl ]

turn-InOrder :
    (limit band : ℕ) (w : Run) (t : Turn)
    → band < 2
    → InOrder band w
    → InOrder band (turn limit band w t)
turn-InOrder limit band w (submit f) h i =
    elim (host_ring_submit-Queued limit w.adpt f band w.host i.left h i.held) [
      | inl q ↦
          let dst : ℕ = ((ring_of w.adpt band).desc (ring_of w.adpt band).idx).dst in
          subst (InOrder band) (sym (turn-accepted limit band w f q.1.value)) (record {
            left = i.left ++ desc_of f dst ∷ [];
            held = q.1.held;
            order =
                sym (append_assoc w.taken i.left (desc_of f dst ∷ []))
                ∙ ap (λ xs. xs ++ desc_of f dst ∷ []) i.order;
          })
      | inr q ↦ subst (InOrder band) (sym (turn-Refused limit band w f q.1)) (record {
        left = i.left;
        held = subst (λ r. HostHolds w.host r i.left) (sym q.1.same) i.held;
        order = i.order;
      })
    ]
turn-InOrder limit band w (host_take b clear) h i = host_turn i.left i.held i.order
  where
    host_turn :
        (left : List Desc)
        → HostHolds w.host (ring_of w.adpt band) left
        → w.taken ++ left ≡ w.accepted
        → InOrder band (turn limit band w (host_take b clear))
    host_turn [] held order =
        let idle = turn-idle limit band w b clear (
          empty-unready (λ d. d.w0) blank ring_size (as_ring w.host (ring_of w.adpt band)) held
            (omega arith)) in
        subst (InOrder band) (sym idle) (record { left = []; held = held; order = order })
    host_turn (d ∷ left) held order =
        let r = ring_of w.adpt band in
        let reads = front-reads (λ d. d.w0) blank ring_size (as_ring w.host r) d left held in
        let odd = front-ready (λ d. d.w0) blank ring_size (as_ring w.host r) d left held in
        let rest = take-Holds (λ d. d.w0) blank ring_size (as_ring w.host r) d b left held clear in
        subst (InOrder band) (sym (turn-took limit band w b d clear reads odd)) (record {
          left = left;
          held =
              subst (λ (t : OutRing). HostHolds (next_slot ring_size w.host) t left)
                (sym (ring-with_ring w.adpt band (record r { desc = put_at r.desc w.host b })))
                rest;
          order = append_assoc w.taken (d ∷ []) left ∙ order;
        })

-- Band 0 or 1, from a state in which what the host took, then what stands ready for it, is what was
-- accepted. However the calls of host_ring_submit on the band and the host's turns follow one another,
-- the same holds afterwards: the host takes the accepted frames in their order, each once and with the
-- words that were stored for it, and none is overwritten before it is taken.
pub run-TakenInOrder :
    (turns : List Turn) (limit band : ℕ) (w : Run)
    → band < 2
    → InOrder band w
    → InOrder band (run limit band w turns)
unfolding run
run-TakenInOrder [] limit band w h i = i
run-TakenInOrder (t ∷ ts) limit band w h i =
    run-TakenInOrder ts limit band (turn limit band w t) h (turn-InOrder limit band w t h i)
