-- ===== src/Plic/Bits.antt =====
-- npu_plic.c: one bit of a word.
use clanker_npu.Prelude.{
  ℕ, zero, suc, ◌+◌, ◌-◌, ◌*◌, ◌/◌, ◌%◌, ◌^◌, ◌<◌, ◌≤◌, ◌≡◌, refl, sym, ap, ◌∙◌, arith,
  if◌then◌else◌, ◌==◌, false, bit_and, bit_or,
}
use Prim.Native.Nat.{min, max}
use native.Mathlib.Nat.{pow-suc, one-le-pow, pow-le-pow_right}
use clanker_npu.Prelude.Bits.{bit_or-halves, bit_and-halves, shifted-bit_or}

-- The bit j by halving.
pub digit : ℕ → ℕ → ℕ
digit zero w = w % 2
digit (suc j) w = digit j (w / 2)

or-zero : (q : ℕ) → bit_or q 0 ≡ q
or-zero q =
    let same : q * 2 ^ 0 ≡ q = omega arith in
    ap (λ z. bit_or z 0) (sym same) ∙ (shifted-bit_or 0 q 0 (omega arith) ∙ omega arith)

or-even : (w : ℕ) (k : ℕ) → bit_or w (2 ^ suc k) / 2 ≡ bit_or (w / 2) (2 ^ k)
or-even w k =
    let half : 2 ^ suc k / 2 ≡ 2 ^ k = omega (arith, pow-suc 2 k) in
    let parts : bit_or w (2 ^ suc k) ≡ bit_or (w / 2) (2 ^ k) * 2 + max (w % 2) (2 ^ suc k % 2) =
      bit_or-halves w (2 ^ suc k)
      ∙ ap (λ h. bit_or (w / 2) h * 2 + max (w % 2) (2 ^ suc k % 2)) half in
    ground (arith, parts, pow-suc 2 k)

pub digit-or : (k j w : ℕ) → digit j (bit_or w (2 ^ k)) ≡ (if j == k then 1 else digit j w)
unfolding digit
digit-or zero zero w = ground (arith, bit_or-halves w 1)
digit-or zero (suc j) w =
    let half : bit_or w 1 / 2 ≡ w / 2 = ground (arith, bit_or-halves w 1, or-zero (w / 2)) in
    let other : (suc j == 0) ≡ false = ground arith in rw (half, other) refl
digit-or (suc k) zero w = ground (arith, bit_or-halves w (2 ^ suc k), pow-suc 2 k)
digit-or (suc k) (suc j) w =
    let same : (suc j == suc k) ≡ (j == k) = ground arith in
    ap (digit j) (or-even w k)
    ∙ (digit-or k j (w / 2) ∙ ap (λ b. if b then 1 else digit j (w / 2)) (sym same))

and-odd : (w m : ℕ) → bit_and w (m * 2 + 1) / 2 ≡ bit_and (w / 2) m
and-odd w m =
    let half : (m * 2 + 1) / 2 ≡ m = omega arith in
    let parts : bit_and w (m * 2 + 1) ≡ bit_and (w / 2) m * 2 + min (w % 2) ((m * 2 + 1) % 2) =
      bit_and-halves w (m * 2 + 1)
      ∙ ap (λ h. bit_and (w / 2) h * 2 + min (w % 2) ((m * 2 + 1) % 2)) half in
    ground (arith, parts)

-- The low bits.
digit-low : (j n w : ℕ) → j < n → digit j (bit_and w (2 ^ n - 1)) ≡ digit j w
unfolding digit
digit-low j zero w lt = absurd (omega (arith, lt))
digit-low zero (suc n) w lt =
    ground (arith, bit_and-halves w (2 ^ suc n - 1), pow-suc 2 n, one-le-pow n 2)
digit-low (suc j) (suc n) w lt =
    let odd : 2 ^ suc n - 1 ≡ (2 ^ n - 1) * 2 + 1 = omega (arith, pow-suc 2 n, one-le-pow n 2) in
    ap (λ m. digit j (bit_and w m / 2)) odd
    ∙ (ap (digit j) (and-odd w (2 ^ n - 1)) ∙ digit-low j n (w / 2) (omega (arith, lt)))

and-even : (w m : ℕ) → bit_and w (m * 2) / 2 ≡ bit_and (w / 2) m
and-even w m =
    let half : m * 2 / 2 ≡ m = omega arith in
    let parts : bit_and w (m * 2) ≡ bit_and (w / 2) m * 2 + min (w % 2) (m * 2 % 2) =
      bit_and-halves w (m * 2) ∙ ap (λ h. bit_and (w / 2) h * 2 + min (w % 2) (m * 2 % 2)) half in
    ground (arith, parts)

low_mask : (n : ℕ) → 2 ^ (suc n + 0) - 1 - 2 ^ 0 ≡ (2 ^ n - 1) * 2
low_mask n =
    let size : suc n + 0 ≡ suc n = omega arith in
    rw size (omega (arith, pow-suc 2 n, one-le-pow n 2))

high_mask : (n k : ℕ) → 2 ^ (suc n + suc k) - 1 - 2 ^ suc k ≡ (2 ^ (suc n + k) - 1 - 2 ^ k) * 2 + 1
high_mask n k =
    let size : suc n + suc k ≡ suc (suc (n + k)) = omega arith in
    let below : suc n + k ≡ suc (n + k) = omega arith in
    let le : 2 ^ k ≤ 2 ^ (n + k) = pow-le-pow_right (omega arith) (omega arith) in
    rw (size, below)
      (omega (arith, pow-suc 2 (suc (n + k)), pow-suc 2 (n + k), pow-suc 2 k, le, one-le-pow k 2))

pub digit-and :
    (k n j w : ℕ)
    → j < suc n + k
    → digit j (bit_and w (2 ^ (suc n + k) - 1 - 2 ^ k)) ≡ (if j == k then 0 else digit j w)
unfolding digit
digit-and zero n zero w lt =
    let m : ℕ = 2 ^ n - 1 in
    ap (λ x. bit_and w x % 2) (low_mask n) ∙ ground (arith, bit_and-halves w (m * 2))
digit-and zero n (suc j) w lt =
    let other : (suc j == 0) ≡ false = ground arith in
    ap (λ x. digit j (bit_and w x / 2)) (low_mask n)
    ∙ (ap (digit j) (and-even w (2 ^ n - 1))
        ∙ (digit-low j n (w / 2) (omega (arith, lt))
            ∙ ap (λ b. if b then 0 else digit j (w / 2)) (sym other)))
digit-and (suc k) n zero w lt =
    let m : ℕ = 2 ^ (suc n + k) - 1 - 2 ^ k in
    let other : (0 == suc k) ≡ false = ground arith in
    ap (λ x. bit_and w x % 2) (high_mask n k)
    ∙ (ground (arith, bit_and-halves w (m * 2 + 1)) ∙ ap (λ b. if b then 0 else w % 2) (sym other))
digit-and (suc k) n (suc j) w lt =
    let same : (suc j == suc k) ≡ (j == k) = ground arith in
    ap (λ x. digit j (bit_and w x / 2)) (high_mask n k)
    ∙ (ap (digit j) (and-odd w (2 ^ (suc n + k) - 1 - 2 ^ k))
        ∙ (digit-and k n j (w / 2) (omega (arith, lt))
            ∙ ap (λ b. if b then 0 else digit j (w / 2)) (sym same)))
