-- ===== src/HostAdpt/Room.antt =====
-- npu_hostadpt.c: host_ring_submit on the two rings.
use clanker_npu.Prelude.{
  ℕ, ◌-◌, ◌<◌, ◌≤◌, ◌≡◌, refl, sym, ap, ◌∙◌, arith, List, [], ◌∷◌, ◌++◌, true, false, Bool-cases,
  inl, inr, ◌⊎◌, subst, length, if◌then◌else◌, ◌==◌, ltb,
}
use mathlib.Core.List.{append-nil}
use clanker_npu.Fwd.{Submit}
use clanker_npu.Fwd.Slots.{slot}
use clanker_npu.Fwd.Fifo.{placed-Holds}
use clanker_npu.HostAdpt.{
  Desc, OutRing, Access, copied, play, ring_size, failed, dma_len, HostAdpt, count_if, check_slot,
  ready, submit_on, host_ring_submit,
}
use clanker_npu.HostAdpt.Copies.{copies, copies-append, copies-count_if, copies-room, copies-busy}
use clanker_npu.HostAdpt.Words.{desc_of, word0-odd}
use clanker_npu.HostAdpt.Queue.{
  blank, HostHolds, submit_on-room, submit_on-busy, ready-free, ready-taken, idx_in,
}

abbrev pub ring_of : HostAdpt → ℕ → OutRing
ring_of s band = if band == 0 then s.tx else s.rx

-- What a submission on one band does to the state.
abbrev after_submit : HostAdpt → ℕ → OutRing → List Access → HostAdpt
after_submit s band r more =
    if band == 0
    then record s { tx = r; log = (s.log ++ count_if s.debug band 140) ++ more }
    else record s { rx = r; log = (s.log ++ count_if s.debug band 140) ++ more }

submit-on_band :
    (limit : ℕ) (s : HostAdpt) (f : Submit) (band : ℕ)
    → band < 2
    → host_ring_submit limit s f band ≡ (
      (submit_on limit s.debug s.tri band (ring_of s band) f).0,
      after_submit s band
          (play (ring_of s band) (submit_on limit s.debug s.tri band (ring_of s band) f).1)
          (submit_on limit s.debug s.tri band (ring_of s band) f).1,
    )
unfolding host_ring_submit
submit-on_band limit s f band h = elim (Bool-cases (band == 0)) [
  | inl e ↦ let zero : band ≡ 0 = ground (arith, e) in rw zero refl
  | inr e ↦ let one : band ≡ 1 = ground (arith, e, h) in rw one refl
]

-- The frame stands behind those that the host has still to take, and its bytes were copied to the
-- buffer that the host had put into the slot.
pub record Queued (limit band host : ℕ) (s : HostAdpt) (q : List Desc) (f : Submit)
    (out : ℕ × HostAdpt) : Type 0 where
  pub value : out.0 ≡ 0
  pub held :
      HostHolds host
        (ring_of out.1 band)
        (q ++ desc_of f ((ring_of s band).desc (ring_of s band).idx).dst ∷ [])
  pub other : ring_of out.1 (1 - band) ≡ ring_of s (1 - band)
  pub copy :
      copies out.1.log
      ≡ copies s.log
        ++ copied f.buf ((ring_of s band).desc (ring_of s band).idx).dst (dma_len limit f) ∷ []

pub record Refused (band : ℕ) (s : HostAdpt) (out : ℕ × HostAdpt) : Type 0 where
  pub value : out.0 ≡ failed
  pub same : ring_of out.1 band ≡ ring_of s band
  pub other : ring_of out.1 (1 - band) ≡ ring_of s (1 - band)
  pub copy : copies out.1.log ≡ copies s.log

pub check-slot : (idx : ℕ) → idx < ring_size → check_slot idx ≡ slot ring_size idx 2
check-slot idx h = ground (arith, h)

after-ring :
    (s : HostAdpt) (band : ℕ) (r : OutRing) (more : List Access)
    → band < 2
    → (ring_of (after_submit s band r more) band ≡ r)
      × (ring_of (after_submit s band r more) (1 - band) ≡ ring_of s (1 - band))
after-ring s band r more h = elim (Bool-cases (band == 0)) [
  | inl e ↦ let zero : band ≡ 0 = ground (arith, e) in rw zero (refl, refl)
  | inr e ↦ let one : band ≡ 1 = ground (arith, e, h) in rw one (refl, refl)
]

after-copies :
    (s : HostAdpt) (band : ℕ) (r : OutRing) (more : List Access)
    → copies (after_submit s band r more).log ≡ copies s.log ++ copies more
after-copies s band r more =
    let counts = count_if s.debug band 140 in
    let parts : copies ((s.log ++ counts) ++ more) ≡ copies s.log ++ copies more =
      copies-append (s.log ++ counts) more
      ∙ ap (λ xs. xs ++ copies more)
          (copies-append s.log counts
            ∙ (ap (λ xs. copies s.log ++ xs) (copies-count_if s.debug band 140)
                ∙ append-nil (copies s.log))) in
    elim (Bool-cases (band == 0)) [ inl e ↦ rw e parts | inr e ↦ rw e parts ]

pub submit-room :
    (limit : ℕ) (s : HostAdpt) (f : Submit) (band host : ℕ) (q : List Desc)
    → band < 2
    → HostHolds host (ring_of s band) q
    → length q < 510
    → Queued limit band host s q f (host_ring_submit limit s f band)
submit-room limit s f band host q h held room =
    let r = ring_of s band in
    let inside = idx_in host r q held in
    let free : ready r (check_slot r.idx) ≡ false =
      subst (λ k. ready r k ≡ false) (sym (check-slot r.idx inside))
        (ready-free host r q 2 held (omega arith)) in
    let done = submit_on-room limit s.debug s.tri band r f inside free in
    let more = (submit_on limit s.debug s.tri band r f).1 in
    let rings = after-ring s band (play r more) more h in
    subst (Queued limit band host s q f) (sym (submit-on_band limit s f band h)) (record {
      value = done.0;
      held =
          subst (λ t. HostHolds host t (q ++ desc_of f (r.desc r.idx).dst ∷ []))
            (sym (rings.0 ∙ done.1))
            (placed-Holds (λ d. d.w0) blank ring_size
              (record { nodes = r.desc; widx = r.idx; ridx = host }) q
              (desc_of f (r.desc r.idx).dst) held (word0-odd f.orig f.len f.is_last) (omega arith));
      other = rings.1;
      copy =
          after-copies s band (play r more) more
          ∙ ap (λ xs. copies s.log ++ xs) (copies-room limit s.debug s.tri band r f free);
    })

submit-full :
    (limit : ℕ) (s : HostAdpt) (f : Submit) (band host : ℕ) (q : List Desc)
    → band < 2
    → HostHolds host (ring_of s band) q
    → 510 ≤ length q
    → Refused band s (host_ring_submit limit s f band)
submit-full limit s f band host q h held full =
    let r = ring_of s band in
    let inside = idx_in host r q held in
    let taken : ready r (check_slot r.idx) ≡ true =
      subst (λ k. ready r k ≡ true) (sym (check-slot r.idx inside))
        (ready-taken host r q 2 held (omega arith) (omega arith)) in
    let done = submit_on-busy limit s.debug s.tri band r f taken in
    let more = (submit_on limit s.debug s.tri band r f).1 in
    let rings = after-ring s band (play r more) more h in
    subst (Refused band s) (sym (submit-on_band limit s f band h)) (record {
      value = done.0;
      same = rings.0 ∙ done.1;
      other = rings.1;
      copy =
          after-copies s band (play r more) more
          ∙ (ap (λ xs. copies s.log ++ xs) (copies-busy limit s.debug s.tri band r f taken)
              ∙ append-nil (copies s.log));
    })

-- With fewer than 510 frames that the host has still to take, host_ring_submit on band 0 or 1 gives 0,
-- puts the frame behind them and copies its bytes, as many as fit, to the host's buffer of that slot;
-- with 510 or more it gives -1, and the ring's words and the index are as they were. The other ring is
-- not touched.
pub host_ring_submit-Queued :
    (limit : ℕ) (s : HostAdpt) (f : Submit) (band host : ℕ) (q : List Desc)
    → band < 2
    → HostHolds host (ring_of s band) q
    → ((length q < 510) × Queued limit band host s q f (host_ring_submit limit s f band))
      ⊎ ((510 ≤ length q) × Refused band s (host_ring_submit limit s f band))
host_ring_submit-Queued limit s f band host q h held = elim (Bool-cases (ltb (length q) 510)) [
  | inl e ↦
      let room : length q < 510 = ground (arith, e) in
      inl (room, submit-room limit s f band host q h held room)
  | inr e ↦
      let full : 510 ≤ length q = ground (arith, e) in
      inr (full, submit-full limit s f band host q h held full)
]
