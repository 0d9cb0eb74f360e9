-- ===== src/Fwd/Slots.antt =====
-- The slots of a ring whose nodes carry a ready bit, as a queue.
use clanker_npu.Prelude.{
  ℕ, zero, suc, ◌+◌, ◌-◌, ◌≤◌, ◌<◌, ◌≡◌, ◌≢◌, refl, arith, List, [], ◌∷◌, ◌++◌, if◌then◌else◌, ltb,
  length, get_or, bit,
}
use clanker_npu.Fwd.{Ring, put_at, next_slot}

-- The slot k steps past i, for k up to a whole turn.
abbrev pub slot : ℕ → ℕ → ℕ → ℕ
slot size i k = if ltb (i + k) size then i + k else i + k - size

pub slot_ne :
    (size i j k : ℕ) → i < size → j < size → k < size → j ≢ k → slot size i j ≢ slot size i k
slot_ne size i j k h a b n = ground (arith, n)

pub slot_next :
    (size i k : ℕ) → i < size → k < size → slot size (next_slot size i) k ≡ slot size i (suc k)
slot_next size i k h a = ground arith

pub next-slot :
    (size i k : ℕ) → i < size → k < size → next_slot size (slot size i k) ≡ slot size i (suc k)
next-slot size i k h a = ground arith

pub slot_zero : (size i : ℕ) → i < size → slot size i 0 ≡ i
slot_zero size i h = ground arith

pub slot_turn : (size i : ℕ) → i < size → slot size i size ≡ i
slot_turn size i h = ground arith

-- The ring holds the nodes q, oldest first: they stand ready from the read index on, and no other slot
-- is ready. `d` is read past the end of q only.
pub record Holds {A : Type 0} (flags : A → ℕ) (d : A) (size : ℕ) (r : Ring A) (q : List A)
    : Type 0 where
  pub start_in : r.ridx < size
  pub fits : length q ≤ size
  pub end_at : r.widx ≡ slot size r.ridx (length q)
  pub reads : (k : ℕ) → k < length q → r.nodes (slot size r.ridx k) ≡ get_or q k d
  pub ready : (k : ℕ) → k < length q → bit (flags (get_or q k d)) 0 ≡ 1
  pub free : (k : ℕ) → length q ≤ k → k < size → bit (flags (r.nodes (slot size r.ridx k))) 0 ≡ 0

module _ {A : Type 0} where
  pub get_or_front :
      (q : List A) (a d : A) (k : ℕ) → k < length q → get_or (q ++ a ∷ []) k d ≡ get_or q k d
  get_or_front [] a d k h = absurd (omega arith)
  get_or_front (x ∷ q) a d zero h = refl
  get_or_front (x ∷ q) a d (suc k) h = get_or_front q a d k (omega arith)

  pub get_or_end : (q : List A) (a d : A) → get_or (q ++ a ∷ []) (length q) d ≡ a
  get_or_end [] a d = refl
  get_or_end (x ∷ q) a d = get_or_end q a d

  pub put_at_self : (f : ℕ → A) (i : ℕ) (a : A) → put_at f i a i ≡ a
  put_at_self f i a = ground arith

  pub put_at_other : (f : ℕ → A) (i j : ℕ) (a : A) → i ≢ j → put_at f i a j ≡ f j
  put_at_other f i j a h = ground (arith, h)
