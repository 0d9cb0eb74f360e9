-- ===== src/BufId/Pairs.antt =====
-- The stack of jumbo tokens.
use native.Mathlib.Numerals.{add-one}
use clanker_npu.Prelude.{
  ℕ, zero, suc, ◌+◌, ◌≤◌, ◌≡◌, refl, ap, ap₂, Bool-cases, inl, inr, true, false, arith, List, [],
  ◌∷◌, ltb, if◌then◌else◌, length, get_or, set, get_or-set_self, get_or-set_ne,
}
use clanker_npu.IdRing.{minus_one}
use clanker_npu.BufId.{Jumbo, tx_jumbo_pairs, tx_jumbo_alloc, tx_jumbo_free}

-- The tokens on the stack, the next one to hand out first.
unfoldable pub stacked : List ℕ → ℕ → List ℕ
stacked stack zero = []
stacked stack (suc n) = get_or stack n 0 ∷ stacked stack n

-- A pop of the abstract stack, and a push that a full stack ignores.
unfoldable pub pop : List ℕ → ℕ × List ℕ
pop [] = (minus_one, [])
pop (x ∷ xs) = (x, xs)

unfoldable pub push : List ℕ → ℕ → List ℕ
push xs x = if ltb (length xs) tx_jumbo_pairs then x ∷ xs else xs

abbrev pub view : Jumbo → List ℕ
view j = stacked j.stack j.top

length-stacked : (stack : List ℕ) (n : ℕ) → length (stacked stack n) ≡ n
unfolding stacked
length-stacked stack zero = refl
length-stacked stack (suc n) = ap suc (length-stacked stack n)

stacked-set : (stack : List ℕ) (n i x : ℕ) → n ≤ i → stacked (set stack i x) n ≡ stacked stack n
unfolding stacked
stacked-set stack zero i x h = refl
stacked-set stack (suc n) i x h =
    ap₂ ◌∷◌ (get_or-set_ne stack i n x 0 (λ e. omega (arith, e)))
      (stacked-set stack n i x (omega arith))

-- tx_jumbo_alloc pops the stack, and refuses on the empty one only.
pub tx_jumbo_alloc_refines :
    (j : Jumbo) → ((tx_jumbo_alloc j).0, view (tx_jumbo_alloc j).1) ≡ pop (view j)
unfolding tx_jumbo_alloc pop stacked
tx_jumbo_alloc_refines j = by_top j.stack j.top
  where
    by_top :
        (stack : List ℕ) (top : ℕ)
        → let out = tx_jumbo_alloc (record { stack = stack; top = top }) in
          (out.0, view out.1) ≡ pop (stacked stack top)
    by_top stack zero = refl
    by_top stack (suc n) = ground arith

free_with_room :
    (j : Jumbo) (token : ℕ)
    → ltb j.top tx_jumbo_pairs ≡ true
    → tx_jumbo_free j token ≡ record { stack = set j.stack j.top token; top = j.top + 1 }
unfolding tx_jumbo_free
free_with_room j token h = rw h

free_when_full :
    (j : Jumbo) (token : ℕ) → ltb j.top tx_jumbo_pairs ≡ false → tx_jumbo_free j token ≡ j
unfolding tx_jumbo_free
free_when_full j token h = rw h

-- tx_jumbo_free pushes, and drops a token that does not fit.
pub tx_jumbo_free_refines :
    (j : Jumbo) (token : ℕ)
    → length j.stack ≡ tx_jumbo_pairs
    → view (tx_jumbo_free j token) ≡ push (view j) token
unfolding push stacked
tx_jumbo_free_refines j token h = elim (Bool-cases (ltb j.top tx_jumbo_pairs)) [
  | inl room ↦
      rw (length-stacked j.stack j.top, free_with_room j token room, room, add-one)
        (ap₂ ◌∷◌ (get_or-set_self j.stack j.top token 0 (ground arith))
          (stacked-set j.stack j.top j.top token (omega arith)))
  | inr full ↦ rw (length-stacked j.stack j.top, free_when_full j token full, full)
]
