-- ===== src/IdRing/Window.antt =====
-- The run of slots that a ring of ids reads next, and what a write does to it.
use clanker_npu.Prelude.{
  ℕ, zero, suc, ◌+◌, ◌-◌, ◌≤◌, ◌≡◌, refl, sym, ap, ap₂, ◌≢◌, ◌∙◌, arith, List, [], ◌∷◌, ◌++◌,
  if◌then◌else◌, leb, length, get_or, set, get_or-set_self, get_or-set_ne,
}
use clanker_npu.IdRing.{next_index}

-- The index n steps past i, for n up to a whole turn.
abbrev pub index_after : ℕ → ℕ → ℕ → ℕ
index_after last i n = if leb (i + n) last then i + n else i + n - (last + 1)

module _ (slots : List ℕ) (last : ℕ) where
  abbrev pub window : ℕ → ℕ → List ℕ
  window i zero = []
  window i (suc n) = get_or slots i 0 ∷ window (next_index last i) n

  pub length-window : (i n : ℕ) → length (window i n) ≡ n
  length-window i zero = refl
  length-window i (suc n) = ap suc (length-window (next_index last i) n)

pub index_after_zero : (last i : ℕ) → i ≤ last → index_after last i 0 ≡ i
index_after_zero last i h = ground arith

pub index_after_next :
    (last i n : ℕ)
    → i ≤ last
    → n ≤ last
    → index_after last (next_index last i) n ≡ index_after last i (suc n)
index_after_next last i n h k = ground arith

pub next-index_after :
    (last i n : ℕ)
    → i ≤ last
    → n ≤ last
    → next_index last (index_after last i n) ≡ index_after last i (suc n)
next-index_after last i n h k = ground arith

pub index_after_ne : (last i n : ℕ) → i ≤ last → suc n ≤ last → index_after last i (suc n) ≢ i
index_after_ne last i n h k = ground arith

pub next_index-le : (last i : ℕ) → i ≤ last → next_index last i ≤ last
next_index-le last i h = ground arith

-- Storing at the end of a run that leaves a slot free makes it longer by that id.
pub window-set :
    (slots : List ℕ) (last id n i j : ℕ)
    → length slots ≡ suc last
    → i ≤ last
    → n ≤ last
    → j ≡ index_after last i n
    → window (set slots j id) last i (suc n) ≡ window slots last i n ++ id ∷ []
window-set slots last id zero i j len h k e =
    let at : j ≡ i = e ∙ index_after_zero last i h in
    rw at (ap (λ x. x ∷ []) (get_or-set_self slots i id 0 (omega arith)))
window-set slots last id (suc n) i j len h k e =
    ap₂ ◌∷◌ (get_or-set_ne slots j i id 0 (λ p. index_after_ne last i n h k (sym e ∙ p))) (
      window-set slots last id n (next_index last i) j len (next_index-le last i h) (omega arith)
        (e ∙ sym (index_after_next last i n h (omega arith))))
