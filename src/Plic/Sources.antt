-- ===== src/Plic/Sources.antt =====
-- npu_plic.c: the enable and mask words as a set of sources, and the table of handlers, over every run.
use clanker_npu.Prelude.{
  ℕ, suc, ◌+◌, ◌-◌, ◌/◌, ◌%◌, ◌^◌, ◌<◌, ◌≡◌, refl, arith, false, if◌then◌else◌, ◌==◌, ==_refl,
  bit_and, Bool-cases, inl, inr, subst,
}
use clanker_npu.Fwd.{put_at}
use clanker_npu.Plic.{Plic, set_bit, clear_bit}
use clanker_npu.Plic.Bits.{digit, digit-or, digit-and}

-- Whether a source is enabled, and whether it is masked.
abbrev pub enabled : Plic → ℕ → ℕ
enabled s src = digit ((src + 1) % 2 ^ 5) (s.enable ((src + 1) / 2 ^ 5))

abbrev pub masked : Plic → ℕ → ℕ
masked s src = digit ((src + 1) % 2 ^ 5) (s.mask ((src + 1) / 2 ^ 5))

pub digit-set_bit : (w k j : ℕ) → digit j (set_bit w k) ≡ (if j == k then 1 else digit j w)
unfolding set_bit
digit-set_bit w k j = digit-or k j w

pub digit-clear_bit :
    (w k j : ℕ) → k < 32 → j < 32 → digit j (clear_bit w k) ≡ (if j == k then 0 else digit j w)
unfolding clear_bit
digit-clear_bit w k j h lt =
    let n : ℕ = 31 - k in
    let size : suc n + k ≡ 32 = omega (arith, h) in
    subst (λ t. digit j (bit_and w (2 ^ t - 1 - 2 ^ k)) ≡ (if j == k then 0 else digit j w)) size
      (digit-and k n j w (omega (arith, size, lt)))

-- The two numbers of a source tell it from every other.
same_place : (a b : ℕ) → a / 2 ^ 5 ≡ b / 2 ^ 5 → a % 2 ^ 5 ≡ b % 2 ^ 5 → a ≡ b
same_place a b h g = omega (arith, h, g)

-- A word at an index replaced by one with the bit k changed to v.
pub changed :
    (words : ℕ → ℕ) (w v src other : ℕ)
    → ((j : ℕ)
        → j < 32
        → digit j w ≡ (if j == (src + 1) % 2 ^ 5 then v else digit j (words ((src + 1) / 2 ^ 5))))
    → digit ((other + 1) % 2 ^ 5) (put_at words ((src + 1) / 2 ^ 5) w ((other + 1) / 2 ^ 5))
      ≡ (if other == src then v else digit ((other + 1) % 2 ^ 5) (words ((other + 1) / 2 ^ 5)))
changed words w v src other h =
    let j : ℕ = (other + 1) % 2 ^ 5 in
    let i : ℕ = (src + 1) / 2 ^ 5 in
    elim (Bool-cases (i == (other + 1) / 2 ^ 5)) [
      | inl e ↦
          let at : (other + 1) / 2 ^ 5 ≡ i = ground (arith, e) in
          let bits : (other == src) ≡ (j == (src + 1) % 2 ^ 5) = ground (arith, at) in
          rw (at, ==_refl i, bits) (h j (omega arith))
      | inr e ↦ let off : (other == src) ≡ false = ground (arith, e) in rw (e, off) refl
    ]
