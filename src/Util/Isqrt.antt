-- ===== src/Util/Isqrt.antt =====
-- npu_isqrt returns, and returns the floor of the square root.
use native.Mathlib.Nat.{pow-suc, one-le-pow, pow-le-pow_right}
use clanker_npu.Prelude.{
  ℕ, zero, suc, ◌+◌, ◌-◌, ◌*◌, ◌/◌, ◌^◌, ◌≤◌, ◌<◌, ◌≡◌, ◌⊎◌, inl, inr, refl, ap, ◌∙◌, arith,
  Bool-cases, true, false, leb→le, leb→lt, ltb→lt, le→ltb, subst, sym, ap₂, Option, some, ltb, leb,
  ◌==◌, add32, shr,
}
use clanker_npu.Util.{isqrt_start, isqrt_loop, npu_isqrt}

-- r is the floor of the square root of x.
pub record IsRoot (x r : ℕ) : Type 0 where
  pub below : r * r ≤ x
  pub above : x < (r + 1) * (r + 1)

abbrev Returns : Option ℕ → ℕ → Type 0
Returns o x = (r : ℕ) × (o ≡ some r) × IsRoot x r

-- One round at side s: with the root so far q, the remainder x and r = 2 * q * s.
record Round (x₀ q s x r b : ℕ) : Type 0 where
  remainder : x + q * q ≡ x₀
  doubled : r ≡ 2 * (q * s)
  square : b ≡ s * s
  above : x₀ < (q + 2 * s) * (q + 2 * s)
  small : q + 2 * s ≤ 2 ^ 16

square_mono : (a m : ℕ) → a ≤ m → a * a ≤ m * m
square_mono a m h = grind arith

-- `r + b` does not wrap.
Round-no_wrap : {x₀ q s x r b : ℕ} → Round x₀ q s x r b → 1 ≤ s → add32 r b ≡ r + b
Round-no_wrap {q} {s} {r} {b} h one =
    let small = square_mono (q + 2 * s) (2 ^ 16) h.small in
    let fits : r + b < 2 ^ 32 = omega (arith, small, h.doubled, h.square, square_mono 1 s one) in
    omega arith

Round-over :
    {x₀ q t x r b : ℕ}
    → Round x₀ q (2 * t) x r b
    → 1 ≤ t
    → r + b ≤ x
    → Round x₀ (q + 2 * t) t (x - (r + b)) (add32 (r / 2) b) (b / 4)
Round-over {q} {t} {r} {b} h one le =
    let wrap = Round-no_wrap h (omega arith) in
    record {
      remainder = omega (arith, h.remainder, h.doubled, h.square);
      doubled = omega (arith, wrap, h.doubled, h.square);
      square = omega (arith, h.square);
      above = omega (arith, h.above);
      small = omega (arith, h.small);
    }

Round-under :
    {x₀ q t x r b : ℕ} → Round x₀ q (2 * t) x r b → x < r + b → Round x₀ q t x (r / 2) (b / 4)
Round-under h lt = record {
  remainder = h.remainder;
  doubled = omega (arith, h.doubled);
  square = omega (arith, h.square);
  above = omega (arith, h.remainder, h.doubled, h.square);
  small = omega (arith, h.small);
}

loop-over :
    (fuel x r b : ℕ)
    → 1 ≤ b
    → leb (add32 r b) x ≡ true
    → isqrt_loop (suc fuel) x r b ≡ isqrt_loop fuel (x - add32 r b) (add32 (shr r 1) b) (shr b 2)
unfolding isqrt_loop
loop-over fuel x r b one e = let more : (b == 0) ≡ false = ground arith in rw (more, e)

loop-under :
    (fuel x r b : ℕ)
    → 1 ≤ b
    → leb (add32 r b) x ≡ false
    → isqrt_loop (suc fuel) x r b ≡ isqrt_loop fuel x (shr r 1) (shr b 2)
unfolding isqrt_loop
loop-under fuel x r b one e = let more : (b == 0) ≡ false = ground arith in rw (more, e)

loop-end : (fuel x r b : ℕ) → b ≡ 0 → isqrt_loop fuel x r b ≡ some r
unfolding isqrt_loop
loop-end zero x r b e = rw e
loop-end (suc fuel) x r b e = rw e

-- The round at side 1 is the last.
last-IsRoot : (fuel x₀ q x r b : ℕ) → Round x₀ q 1 x r b → Returns (isqrt_loop (suc fuel) x r b) x₀
last-IsRoot fuel x₀ q x r b h =
    let wrap = Round-no_wrap h (omega arith) in
    elim (Bool-cases (leb (add32 r b) x)) [
      | inl over ↦ (
        add32 (shr r 1) b,
        loop-over fuel x r b (omega (arith, h.square)) over
            ∙ loop-end fuel (x - add32 r b) (add32 (shr r 1) b) (shr b 2) (omega (arith, h.square)),
        subst (IsRoot x₀) (sym (half_over wrap)) (record {
          below = omega (arith, wrap, leb→le _ _ over, h.remainder, h.doubled, h.square);
          above = omega (arith, h.above);
        }),
      )
      | inr under ↦ (
        shr r 1,
        loop-under fuel x r b (omega (arith, h.square)) under
            ∙ loop-end fuel x (shr r 1) (shr b 2) (omega (arith, h.square)),
        subst (IsRoot x₀) (sym half) (record {
          below = omega (arith, h.remainder);
          above = omega (arith, wrap, leb→lt _ _ under, h.remainder, h.doubled, h.square);
        }),
      )
    ]
  where
    half : shr r 1 ≡ q
    half = omega (arith, h.doubled)

    half_over : add32 r b ≡ r + b → add32 (shr r 1) b ≡ q + 1
    half_over wrap = omega (arith, h.doubled, h.square, wrap, h.small)

loop-IsRoot :
    (k fuel x₀ q x r b : ℕ)
    → k < fuel
    → Round x₀ q (2 ^ k) x r b
    → Returns (isqrt_loop fuel x r b) x₀
loop-IsRoot k zero x₀ q x r b lt h = elim lt [ ]
loop-IsRoot zero (suc fuel) x₀ q x r b lt h = last-IsRoot fuel x₀ q x r b h
loop-IsRoot (suc k) (suc fuel) x₀ q x r b lt h = elim (Bool-cases (leb (add32 r b) x)) [
  | inl over ↦
      rw (loop-over fuel x r b some_b over, wrap)
        (loop-IsRoot k fuel x₀ (q + 2 * 2 ^ k) (x - (r + b)) (add32 (shr r 1) b) (shr b 2)
          (omega arith) (Round-over h' one (omega (arith, wrap, leb→le _ _ over))))
  | inr under ↦ rw (loop-under fuel x r b some_b under) (
      loop-IsRoot k fuel x₀ q x (shr r 1) (shr b 2) (omega arith)
        (Round-under h' (omega (arith, wrap, leb→lt _ _ under))))
]
  where
    one : 1 ≤ 2 ^ k
    one = one-le-pow k 2 (omega arith)

    h' : Round x₀ q (2 * 2 ^ k) x r b
    h' = subst (λ s. Round x₀ q s x r b) (omega (arith, pow-suc 2 k)) h

    wrap : add32 r b ≡ r + b
    wrap = Round-no_wrap h' (omega (arith, one))

    some_b : 1 ≤ b
    some_b = omega (arith, h'.square, square_mono 1 (2 * 2 ^ k) (omega (arith, one)))

start-more :
    (fuel x b : ℕ) → ltb x b ≡ true → isqrt_start (suc fuel) x b ≡ isqrt_start fuel x (shr b 2)
unfolding isqrt_start
start-more fuel x b e = rw e

start-done : (fuel x b : ℕ) → ltb x b ≡ false → isqrt_start fuel x b ≡ some b
unfolding isqrt_start
start-done zero x b e = rw e
start-done (suc fuel) x b e = rw e

-- Where the first loop stops: at the largest power of four up to x, or at 0 for x = 0.
abbrev Stops : ℕ → ℕ → Option ℕ → Type 0
Stops k x o =
    ((x ≡ 0) × (o ≡ some 0))
    ⊎ ((j : ℕ) × (j ≤ k) × (o ≡ some (2 ^ j * 2 ^ j)) × (x < 4 * (2 ^ j * 2 ^ j)))

start-Stops : (k x b : ℕ) → b ≡ 2 ^ k * 2 ^ k → x < 4 * b → Stops k x (isqrt_start (suc k) x b)
start-Stops zero x b e h = elim (Bool-cases (ltb x b)) [
  | inl more ↦
      let none_left : x ≡ 0 = omega (arith, e, ltb→lt _ _ more) in
      inl (
        none_left,
        start-more 0 x b more
            ∙ (start-done 0 x (shr b 2) (le→ltb _ _ (omega (arith, e, none_left)))
                ∙ ap some (omega (arith, e))),
      )
  | inr done ↦ inr (0, omega arith, start-done 1 x b done ∙ ap some e, omega (arith, e, h))
]
start-Stops (suc k) x b e h = elim (Bool-cases (ltb x b)) [
  | inl more ↦ rw (start-more (suc k) x b more) (
      widen (
        start-Stops k x (shr b 2) (omega (arith, e ∙ ap₂ ◌*◌ twice twice))
          (omega (arith, e ∙ ap₂ ◌*◌ twice twice, ltb→lt _ _ more))))
  | inr done ↦
      inr (suc k, omega arith, start-done (suc (suc k)) x b done ∙ ap some e, omega (arith, e, h))
]
  where
    twice : 2 ^ suc k ≡ 2 * 2 ^ k
    twice = omega (arith, pow-suc 2 k)

    widen :
        Stops k x (isqrt_start (suc k) x (shr b 2))
        → Stops (suc k) x (isqrt_start (suc k) x (shr b 2))
    widen (inl z) = inl z
    widen (inr (j, le, o, lt)) = inr (j, omega arith, o, lt)

pow-below : (j : ℕ) → j ≤ 15 → 2 ^ j ≤ 2 ^ 15
pow-below j h = pow-le-pow_right (omega arith) h

-- npu_isqrt returns for every `u32`, and what it returns is the floor of the square root: its
-- square is at most x, and the next square is above x.
pub npu_isqrt-IsRoot : (x : ℕ) → x < 2 ^ 32 → (r : ℕ) × (npu_isqrt x ≡ some r) × IsRoot x r
unfolding npu_isqrt
npu_isqrt-IsRoot x h = from_start (start-Stops 15 x (2 ^ 30) refl (omega arith))
  where
    from_start :
        Stops 15 x (isqrt_start 16 x (2 ^ 30)) → (r : ℕ) × (npu_isqrt x ≡ some r) × IsRoot x r
    from_start (inl (z, e)) = (
      0,
      rw (e, npu_isqrt) (loop-end 16 x 0 0 refl),
      record { below = omega arith; above = omega arith },
    )
    from_start (inr (j, le, e, lt)) =
        rw (e, npu_isqrt)
          (loop-IsRoot j 16 x 0 x 0 (2 ^ j * 2 ^ j) (omega arith) (record {
            remainder = omega arith;
            doubled = omega arith;
            square = refl;
            above = omega arith;
            small = omega (arith, pow-below j le);
          }))
