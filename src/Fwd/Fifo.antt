-- ===== src/Fwd/Fifo.antt =====
-- npu_wifi_fwd.c: pkt_forward and pinode_drain as the two ends of a queue.
use clanker_npu.Prelude.{
  ℕ, suc, ◌<◌, ◌≡◌, ◌≢◌, refl, sym, ap, ◌∙◌, arith, List, [], ◌∷◌, ◌++◌, none, some, ◌==◌,
  Bool-cases, inl, inr, subst, length, length-append, bit,
}
use clanker_npu.Fwd.{Ring, put, put_at, next_slot}
use clanker_npu.Fwd.Slots.{
  slot, slot_ne, slot_next, next-slot, slot_zero, slot_turn, Holds, get_or_front, get_or_end,
  put_at_self, put_at_other,
}

module _ {A : Type 0} (flags : A → ℕ) (d : A) (size : ℕ) where
  put-taken : (r : Ring A) (a : A) → bit (flags (r.nodes r.widx)) 0 ≡ 1 → put flags size r a ≡ none
  unfolding put
  put-taken r a h = rw h refl

  put-free :
      (r : Ring A) (a : A)
      → bit (flags (r.nodes r.widx)) 0 ≡ 0
      → put flags size r a
        ≡ some (record r { nodes = put_at r.nodes r.widx a; widx = next_slot size r.widx })
  unfolding put
  put-free r a h = rw h refl

  -- The slot at the write index is free while there is room.
  pub free_slot :
      (r : Ring A) (q : List A)
      → Holds flags d size r q
      → length q < size
      → bit (flags (r.nodes r.widx)) 0 ≡ 0
  free_slot r q h room =
      subst (λ i. bit (flags (r.nodes i)) 0 ≡ 0) (sym h.end_at)
        (h.free (length q) (omega arith) room)

  -- A ready node in the slot at the write index stands behind the queue.
  pub placed-Holds :
      (r : Ring A) (q : List A) (a : A)
      → Holds flags d size r q
      → bit (flags a) 0 ≡ 1
      → length q < size
      → Holds flags d size
          (record r { nodes = put_at r.nodes r.widx a; widx = next_slot size r.widx })
          (q ++ a ∷ [])
  placed-Holds r q a h odd room =
      let n = length q in
      let longer : length (q ++ a ∷ []) ≡ suc n = omega (arith, length-append q (a ∷ [])) in
      let other = λ (k : ℕ) (lt : k < size) (ne : n ≢ k).
        put_at_other r.nodes r.widx (slot size r.ridx k) a
          (λ e. slot_ne size r.ridx n k h.start_in room lt ne (sym h.end_at ∙ e)) in
      record {
        start_in = h.start_in;
        fits = omega (arith, longer);
        end_at =
            ap (next_slot size) h.end_at
            ∙ (next-slot size r.ridx n h.start_in room ∙ ap (slot size r.ridx) (sym longer));
        reads = λ k lt. elim (Bool-cases (k == n)) [
          | inl e ↦
              let here : k ≡ n = ground (arith, e) in
              rw here (
                ap (put_at r.nodes r.widx a) (sym h.end_at)
                ∙ (put_at_self r.nodes r.widx a ∙ sym (get_or_end q a d)))
          | inr ne ↦
              let before : k < n = ground (arith, ne, lt, longer) in
              other k (omega arith) (omega arith)
              ∙ (h.reads k before ∙ sym (get_or_front q a d k before))
        ];
        ready = λ k lt. elim (Bool-cases (k == n)) [
          | inl e ↦ let here : k ≡ n = ground (arith, e) in rw (here, get_or_end q a d) odd
          | inr ne ↦
              let before : k < n = ground (arith, ne, lt, longer) in
              rw (get_or_front q a d k before) (h.ready k before)
        ];
        free = λ k le lt.
            rw (other k lt (omega (arith, longer))) (h.free k (omega (arith, longer)) lt);
      }

  -- Behind the queue, if there is a slot.
  pub put-Holds :
      (r : Ring A) (q : List A) (a : A)
      → Holds flags d size r q
      → bit (flags a) 0 ≡ 1
      → length q < size
      → (out : Ring A) × ((put flags size r a ≡ some out) × Holds flags d size out (q ++ a ∷ []))
  put-Holds r q a h odd room = (
    record r { nodes = put_at r.nodes r.widx a; widx = next_slot size r.widx },
    (put-free r a (free_slot r q h room), placed-Holds r q a h odd room),
  )

  -- A full ring takes nothing.
  pub put-full :
      (r : Ring A) (q : List A) (a : A)
      → Holds flags d size r q
      → length q ≡ size
      → 0 < size
      → put flags size r a ≡ none
  put-full r q a h full some_room =
      let at : r.widx ≡ slot size r.ridx 0 =
        h.end_at
        ∙ (ap (slot size r.ridx) full
            ∙ (slot_turn size r.ridx h.start_in ∙ sym (slot_zero size r.ridx h.start_in))) in
      put-taken r a (rw (at, h.reads 0 (omega arith)) (h.ready 0 (omega arith)))

  -- The front of the queue stands at the read index.
  pub front-reads :
      (r : Ring A) (a : A) (q : List A) → Holds flags d size r (a ∷ q) → r.nodes r.ridx ≡ a
  front-reads r a q h =
      ap r.nodes (sym (slot_zero size r.ridx h.start_in)) ∙ h.reads 0 (omega arith)

  pub front-ready :
      (r : Ring A) (a : A) (q : List A) → Holds flags d size r (a ∷ q) → bit (flags a) 0 ≡ 1
  front-ready r a q h = h.ready 0 (omega arith)

  pub empty-unready :
      (r : Ring A) → Holds flags d size r [] → 0 < size → bit (flags (r.nodes r.ridx)) 0 ≡ 0
  empty-unready r h room =
      subst (λ i. bit (flags (r.nodes i)) 0 ≡ 0) (slot_zero size r.ridx h.start_in)
        (h.free 0 (omega arith) room)

  -- The front cleared and the read index moved on.
  pub take-Holds :
      (r : Ring A) (a b : A) (q : List A)
      → Holds flags d size r (a ∷ q)
      → bit (flags b) 0 ≡ 0
      → Holds flags d size
          (record r { nodes = put_at r.nodes r.ridx b; ridx = next_slot size r.ridx })
          q
  take-Holds r a b q h clear =
      let i = r.ridx in
      let other = λ (k : ℕ) (lt : suc k < size).
        put_at_other r.nodes i (slot size i (suc k)) b (λ e.
          slot_ne size i 0 (suc k) h.start_in (omega (arith, h.start_in)) lt (omega arith)
            (slot_zero size i h.start_in ∙ e)) in
      let at = λ (k : ℕ) (lt : k < size). slot_next size i k h.start_in lt in
      record {
        start_in = ground (arith, h.start_in);
        fits = omega (arith, h.fits);
        end_at = h.end_at ∙ sym (at (length q) (omega (arith, h.fits)));
        reads = λ k lt.
            ap (put_at r.nodes i b) (at k (omega (arith, h.fits)))
            ∙ (other k (omega (arith, h.fits)) ∙ h.reads (suc k) (omega arith));
        ready = λ k lt. h.ready (suc k) (omega arith);
        free = λ k le lt. elim (Bool-cases (suc k == size)) [
          | inl e ↦
              let turn : suc k ≡ size = ground (arith, e) in
              rw (at k lt, turn, slot_turn size i h.start_in, put_at_self r.nodes i b) clear
          | inr ne ↦
              let more : suc k < size = ground (arith, ne, lt) in
              rw (at k lt, other k more) (h.free (suc k) (omega arith) more)
        ];
      }
