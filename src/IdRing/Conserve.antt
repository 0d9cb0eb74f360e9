-- ===== src/IdRing/Conserve.antt =====
-- Histories of allocations and returns: no id is lost, and none is handed out twice.
use mathlib.Core.List.{Perm, Nodup, perm_middle, append_assoc}
use mathlib.Core.List.Perm
use clanker_npu.Prelude.{
  ℕ, suc, ◌+◌, ◌^◌, ◌<◌, ◌≡◌, ◌≢◌, refl, ap, arith, List, [], ◌∷◌, ◌++◌, length, length-append,
  subst,
}
use clanker_npu.IdRing.{IdRing, minus_one, buf_id_return, buf_id_alloc_ring}
use clanker_npu.IdRing.Refine.{
  AllIds, Holds, queue_alloc, buf_id_alloc_ring-Holds, buf_id_return-Holds,
}

-- The ring beside the ids that its clients hold.
pub record Pool : Type 0 where
  pub ring : IdRing
  pub out : List ℕ

-- A client gets an id, is refused, or gives back one that it holds.
pub data Step (p : Pool) : Pool → Type 0 where
  got :
      (buf_id_alloc_ring p.ring).0 ≢ minus_one
      → Step p (record {
        ring = (buf_id_alloc_ring p.ring).1;
        out = (buf_id_alloc_ring p.ring).0 ∷ p.out;
      })
  refused :
      (buf_id_alloc_ring p.ring).0 ≡ minus_one
      → Step p (record p { ring = (buf_id_alloc_ring p.ring).1 })
  gave :
      (id : ℕ) (before after : List ℕ)
      → p.out ≡ before ++ id ∷ after
      → Step p (record { ring = buf_id_return p.ring id; out = before ++ after })

pub data Reach (p : Pool) : Pool → Type 0 where
  here : Reach p p
  next : {q r : Pool} → Reach p q → Step q r → Reach p r

-- The ring holds the ids of q, and with those of the clients they are the ids of `all`, each as
-- often as there.
pub record Owned (all : List ℕ) (p : Pool) (q : List ℕ) : Type 0 where
  pub holds : Holds p.ring q
  pub everyone : length q + length p.out ≡ suc p.ring.last
  pub fits : AllIds p.out
  pub perm : Perm (q ++ p.out) all

abbrev pub Owns : List ℕ → Pool → Type 0
Owns all p = (q : List ℕ) × Owned all p q

All-split :
    (xs : List ℕ) (x : ℕ) (ys : List ℕ) → AllIds (xs ++ x ∷ ys) → (x < 2 ^ 15) × AllIds (xs ++ ys)
All-split [] x ys h = h
All-split (y ∷ xs) x ys h = let (a, b) = All-split xs x ys h.1 in (a, (h.0, b))

last-alloc : (r : IdRing) → (buf_id_alloc_ring r).1.last ≡ r.last
unfolding buf_id_alloc_ring
last-alloc r = ground arith

last-return : (r : IdRing) (id : ℕ) → (buf_id_return r id).last ≡ r.last
unfolding buf_id_return
last-return r id = refl

Step-got :
    {all : List ℕ} (p : Pool) (q : List ℕ)
    → Owned all p q
    → (buf_id_alloc_ring p.ring).0 ≢ minus_one
    → Owns all
        (record { ring = (buf_id_alloc_ring p.ring).1; out = (buf_id_alloc_ring p.ring).0 ∷ p.out })
unfolding queue_alloc
Step-got p [] o ne = absurd (omega (arith, o.holds.some_left))
Step-got p (x ∷ []) o ne = absurd (ne (buf_id_alloc_ring-Holds p.ring (x ∷ []) o.holds).0)
Step-got p (x ∷ y ∷ q) o ne =
    let (e, held) = buf_id_alloc_ring-Holds p.ring (x ∷ y ∷ q) o.holds in
    rw e (
      y ∷ q,
      record {
        holds = held;
        everyone = omega (arith, o.everyone, last-alloc p.ring);
        fits = (o.holds.ids.0, o.fits);
        perm = Perm.trans (perm_middle (y ∷ q) p.out) o.perm;
      },
    )

Step-refused :
    {all : List ℕ} (p : Pool) (q : List ℕ)
    → Owned all p q
    → (buf_id_alloc_ring p.ring).0 ≡ minus_one
    → Owns all (record p { ring = (buf_id_alloc_ring p.ring).1 })
unfolding queue_alloc
Step-refused p [] o e = absurd (omega (arith, o.holds.some_left))
Step-refused p (x ∷ []) o e = (
  x ∷ [],
  record {
    holds = (buf_id_alloc_ring-Holds p.ring (x ∷ []) o.holds).1;
    everyone = omega (arith, o.everyone, last-alloc p.ring);
    fits = o.fits;
    perm = o.perm;
  },
)
Step-refused p (x ∷ y ∷ q) o e =
    let (value, held) = buf_id_alloc_ring-Holds p.ring (x ∷ y ∷ q) o.holds in
    absurd (omega (arith, value, e, o.holds.ids.0))

Step-gave :
    {all : List ℕ} (p : Pool) (q : List ℕ) (id : ℕ) (before after : List ℕ)
    → Owned all p q
    → p.out ≡ before ++ id ∷ after
    → Owns all (record { ring = buf_id_return p.ring id; out = before ++ after })
Step-gave p q id before after o e =
    let (small, fits) = All-split before id after (subst AllIds e o.fits) in
    (
      q ++ id ∷ [],
      record {
        holds = buf_id_return-Holds p.ring id o.holds (omega (arith, counted)) small;
        everyone = omega (
          arith,
          counted,
          length-append q (id ∷ []),
          length-append before after,
          last-return p.ring id,
        );
        fits = fits;
        perm = rw append_assoc (
            Perm.trans (Perm.append_left q (Perm.symm (perm_middle before after)))
              (rw e at o.perm));
      },
    )
  where
    counted : length q + (length before + suc (length after)) ≡ suc p.ring.last
    counted = omega (arith, o.everyone, ap length e, length-append before (id ∷ after))

Step-Owns : {all : List ℕ} {p q : Pool} → Step p q → Owns all p → Owns all q
Step-Owns {p} (got ne) (q, o) = Step-got p q o ne
Step-Owns {p} (refused e) (q, o) = Step-refused p q o e
Step-Owns {p} (gave id before after e) (q, o) = Step-gave p q id before after o e

pub Reach-Owns : {all : List ℕ} {p q : Pool} → Owns all p → Reach p q → Owns all q
Reach-Owns o here = o
Reach-Owns o (next r s) = Step-Owns s (Reach-Owns o r)

-- Whatever the clients do, while they return only ids that they hold: the ids in the ring and
-- those in the clients' hands stay a permutation of the ids of the start, and no id is ever in two
-- hands, or in a hand and in the ring.
pub Reach-Nodup :
    (all : List ℕ) (p q : Pool)
    → Nodup all
    → Owns all p
    → Reach p q
    → (queue : List ℕ) × Holds q.ring queue × Perm (queue ++ q.out) all × Nodup (queue ++ q.out)
Reach-Nodup all p q distinct o r =
    let (queue, w) = Reach-Owns o r in
    (queue, w.holds, w.perm, Perm.nodup (Perm.symm w.perm) distinct)
