-- ===== src/Console/Columns.antt =====
-- npu_printf.c: the columns of a command, typed with the hexadecimal digits that %p and %x print.
use clanker_npu.Prelude.{
  ℕ, zero, suc, ◌+◌, ◌-◌, ◌*◌, ◌/◌, ◌%◌, ◌^◌, ◌≤◌, ◌<◌, true, false, some, leb, ◌==◌, ◌≡◌, refl,
  arith, sym, ◌∙◌, ap, subst, u32, bit_or,
}
use native.Mathlib.Nat.{one-le-pow}
use clanker_npu.Prelude.Bits.{shifted-bit_or}
use clanker_npu.Printf.{hex}
use clanker_npu.Console.{hex_digit, column, columns}

split_sum : (q r p : ℕ) → q * (16 * p) + r * p ≡ (q * 16 + r) * p
split_sum q r p = grind arith

nibble_small : (r p : ℕ) → r < 16 → 0 < p → r * p < 16 * p
nibble_small r p h k = grind arith

-- One more digit below those of x / 16.
or_nibble : (n x : ℕ) → bit_or (x / 16 * 2 ^ suc (suc (suc (suc n)))) (x % 16 * 2 ^ n) ≡ x * 2 ^ n
or_nibble n x =
    let p = 2 ^ n in
    let pow : 2 ^ suc (suc (suc (suc n))) ≡ 16 * p = omega arith in
    let small : x % 16 * p < 2 ^ suc (suc (suc (suc n))) =
      subst (λ y. x % 16 * p < y) (sym pow)
        (nibble_small (x % 16) p (omega arith) (omega (arith, one-le-pow n 2))) in
    shifted-bit_or (suc (suc (suc (suc n)))) (x / 16) (x % 16 * p) small
    ∙ (ap (λ y. x / 16 * y + x % 16 * p) pow
        ∙ (split_sum (x / 16) (x % 16) p ∙ ap (λ y. y * p) (omega arith)))

pub hex_digit-hex : (d : ℕ) → d < 16 → hex_digit (hex false d) ≡ some d
unfolding hex_digit hex
hex_digit-hex zero h = refl
hex_digit-hex (suc zero) h = refl
hex_digit-hex (suc (suc zero)) h = refl
hex_digit-hex (suc (suc (suc zero))) h = refl
hex_digit-hex (suc (suc (suc (suc zero)))) h = refl
hex_digit-hex (suc (suc (suc (suc (suc zero))))) h = refl
hex_digit-hex (suc (suc (suc (suc (suc (suc zero)))))) h = refl
hex_digit-hex (suc (suc (suc (suc (suc (suc (suc zero))))))) h = refl
hex_digit-hex (suc (suc (suc (suc (suc (suc (suc (suc zero)))))))) h = refl
hex_digit-hex (suc (suc (suc (suc (suc (suc (suc (suc (suc zero))))))))) h = refl
hex_digit-hex (suc (suc (suc (suc (suc (suc (suc (suc (suc (suc zero)))))))))) h = refl
hex_digit-hex (suc (suc (suc (suc (suc (suc (suc (suc (suc (suc (suc zero))))))))))) h = refl
hex_digit-hex (suc (suc (suc (suc (suc (suc (suc (suc (suc (suc (suc (suc zero)))))))))))) h = refl
hex_digit-hex (suc (suc (suc (suc (suc (suc (suc (suc (suc (suc (suc (suc (suc zero))))))))))))) h =
    refl
hex_digit-hex
      (suc (suc (suc (suc (suc (suc (suc (suc (suc (suc (suc (suc (suc (suc zero)))))))))))))) h =
    refl
hex_digit-hex
      (suc (suc (suc (suc (suc (suc (suc (suc (suc (suc (suc (suc (suc (suc (suc zero)))))))))))))))
      h =
    refl
hex_digit-hex
      (suc
        (suc (suc (suc (suc (suc (suc (suc (suc (suc (suc (suc (suc (suc (suc (suc n))))))))))))))))
      h =
    absurd (omega arith)

-- The column of the address that holds the digit of x, which stands n bits up.
column-addr :
    (buf : ℕ → ℕ) (pos n x val : ℕ)
    → pos ≤ 10
    → 4 * (10 - pos) ≡ n
    → 16 * 2 ^ n ≤ 2 ^ 32
    → buf pos ≡ hex false (x % 16)
    → column buf pos (x / 16 * 2 ^ suc (suc (suc (suc n)))) val ≡ some (x * 2 ^ n, val)
unfolding column
column-addr buf pos n x val k at l e =
    let digit = hex_digit-hex (x % 16) (omega arith) in
    let gap : (pos == 11) ≡ false = ground arith in
    let early : leb pos 10 ≡ true = ground arith in
    let fits : x % 16 * 2 ^ n < 16 * 2 ^ n =
      nibble_small (x % 16) (2 ^ n) (omega arith) (omega (arith, one-le-pow n 2)) in
    let whole : u32 (x % 16 * 2 ^ n) ≡ x % 16 * 2 ^ n = omega arith in
    rw (gap, e, digit, early, at, whole, or_nibble n x) refl

column-val :
    (buf : ℕ → ℕ) (pos n x addr : ℕ)
    → 12 ≤ pos
    → 4 * (19 - pos) ≡ n
    → 16 * 2 ^ n ≤ 2 ^ 32
    → buf pos ≡ hex false (x % 16)
    → column buf pos addr (x / 16 * 2 ^ suc (suc (suc (suc n)))) ≡ some (addr, x * 2 ^ n)
unfolding column
column-val buf pos n x addr k at l e =
    let digit = hex_digit-hex (x % 16) (omega arith) in
    let gap : (pos == 11) ≡ false = ground arith in
    let late : leb pos 10 ≡ false = ground arith in
    let fits : x % 16 * 2 ^ n < 16 * 2 ^ n =
      nibble_small (x % 16) (2 ^ n) (omega arith) (omega (arith, one-le-pow n 2)) in
    let whole : u32 (x % 16 * 2 ^ n) ≡ x % 16 * 2 ^ n = omega arith in
    rw (gap, e, digit, late, at, whole, or_nibble n x) refl

columns-next :
    (k : ℕ) (buf : ℕ → ℕ) (pos addr val a v : ℕ)
    → column buf pos addr val ≡ some (a, v)
    → columns (suc k) buf pos addr val ≡ columns k buf (suc pos) a v
unfolding columns
columns-next k buf pos addr val a v h = rw (columns, h) refl

step-addr :
    (r : ℕ) (buf : ℕ → ℕ) (pos n x y val : ℕ)
    → pos ≤ 10
    → 4 * (10 - pos) ≡ n
    → 16 * 2 ^ n ≤ 2 ^ 32
    → buf pos ≡ hex false (x % 16)
    → y ≡ x / 16
    → columns (suc r) buf pos (y * 2 ^ suc (suc (suc (suc n)))) val
      ≡ columns r buf (suc pos) (x * 2 ^ n) val
step-addr r buf pos n x y val k at l e same =
    columns-next r buf pos (y * 2 ^ suc (suc (suc (suc n)))) val (x * 2 ^ n) val
      (rw same (column-addr buf pos n x val k at l e))

step-val :
    (r : ℕ) (buf : ℕ → ℕ) (pos n x y addr : ℕ)
    → 12 ≤ pos
    → 4 * (19 - pos) ≡ n
    → 16 * 2 ^ n ≤ 2 ^ 32
    → buf pos ≡ hex false (x % 16)
    → y ≡ x / 16
    → columns (suc r) buf pos addr (y * 2 ^ suc (suc (suc (suc n))))
      ≡ columns r buf (suc pos) addr (x * 2 ^ n)
step-val r buf pos n x y addr k at l e same =
    columns-next r buf pos addr (y * 2 ^ suc (suc (suc (suc n)))) addr (x * 2 ^ n)
      (rw same (column-val buf pos n x addr k at l e))

-- The eight digits of v stand in the columns from `pos` on.
abbrev pub Typed : (ℕ → ℕ) → ℕ → ℕ → Type 0
Typed buf pos v = (k : ℕ) → k < 8 → buf (pos + k) ≡ hex false (v / 2 ^ (4 * (7 - k)) % 16)

pub columns-addr :
    (r : ℕ) (buf : ℕ → ℕ) (v val : ℕ)
    → v < 2 ^ 32
    → Typed buf 3 v
    → columns (suc (suc (suc (suc (suc (suc (suc (suc r)))))))) buf 3 0 val ≡ columns r buf 11 v val
columns-addr r buf v val h t =
    step-addr (suc (suc (suc (suc (suc (suc (suc r))))))) buf 3 28 (v / 2 ^ 28) 0 val (omega arith)
      refl (omega arith) (t 0 (omega arith)) (omega arith)
    ∙ (step-addr (suc (suc (suc (suc (suc (suc r)))))) buf 4 24 (v / 2 ^ 24) (v / 2 ^ 28) val
          (omega arith) refl (omega arith) (t 1 (omega arith)) (omega arith)
        ∙ (step-addr (suc (suc (suc (suc (suc r))))) buf 5 20 (v / 2 ^ 20) (v / 2 ^ 24) val
              (omega arith) refl (omega arith) (t 2 (omega arith)) (omega arith)
            ∙ (step-addr (suc (suc (suc (suc r)))) buf 6 16 (v / 2 ^ 16) (v / 2 ^ 20) val
                  (omega arith) refl (omega arith) (t 3 (omega arith)) (omega arith)
                ∙ (step-addr (suc (suc (suc r))) buf 7 12 (v / 2 ^ 12) (v / 2 ^ 16) val
                      (omega arith) refl (omega arith) (t 4 (omega arith)) (omega arith)
                    ∙ (step-addr (suc (suc r)) buf 8 8 (v / 2 ^ 8) (v / 2 ^ 12) val (omega arith)
                          refl (omega arith) (t 5 (omega arith)) (omega arith)
                        ∙ (step-addr (suc r) buf 9 4 (v / 2 ^ 4) (v / 2 ^ 8) val (omega arith) refl
                              (omega arith) (t 6 (omega arith)) (omega arith)
                            ∙ (step-addr r buf 10 0 (v / 2 ^ 0) (v / 2 ^ 4) val (omega arith) refl
                                  (omega arith) (t 7 (omega arith)) (omega arith)
                                ∙ (ap (λ a. columns r buf 11 a val) (omega arith)))))))))

pub columns-val :
    (r : ℕ) (buf : ℕ → ℕ) (v addr : ℕ)
    → v < 2 ^ 32
    → Typed buf 12 v
    → columns (suc (suc (suc (suc (suc (suc (suc (suc r)))))))) buf 12 addr 0
      ≡ columns r buf 20 addr v
columns-val r buf v addr h t =
    step-val (suc (suc (suc (suc (suc (suc (suc r))))))) buf 12 28 (v / 2 ^ 28) 0 addr (omega arith)
      refl (omega arith) (t 0 (omega arith)) (omega arith)
    ∙ (step-val (suc (suc (suc (suc (suc (suc r)))))) buf 13 24 (v / 2 ^ 24) (v / 2 ^ 28) addr
          (omega arith) refl (omega arith) (t 1 (omega arith)) (omega arith)
        ∙ (step-val (suc (suc (suc (suc (suc r))))) buf 14 20 (v / 2 ^ 20) (v / 2 ^ 24) addr
              (omega arith) refl (omega arith) (t 2 (omega arith)) (omega arith)
            ∙ (step-val (suc (suc (suc (suc r)))) buf 15 16 (v / 2 ^ 16) (v / 2 ^ 20) addr
                  (omega arith) refl (omega arith) (t 3 (omega arith)) (omega arith)
                ∙ (step-val (suc (suc (suc r))) buf 16 12 (v / 2 ^ 12) (v / 2 ^ 16) addr
                      (omega arith) refl (omega arith) (t 4 (omega arith)) (omega arith)
                    ∙ (step-val (suc (suc r)) buf 17 8 (v / 2 ^ 8) (v / 2 ^ 12) addr (omega arith)
                          refl (omega arith) (t 5 (omega arith)) (omega arith)
                        ∙ (step-val (suc r) buf 18 4 (v / 2 ^ 4) (v / 2 ^ 8) addr (omega arith) refl
                              (omega arith) (t 6 (omega arith)) (omega arith)
                            ∙ (step-val r buf 19 0 (v / 2 ^ 0) (v / 2 ^ 4) addr (omega arith) refl
                                  (omega arith) (t 7 (omega arith)) (omega arith)
                                ∙ (ap (λ a. columns r buf 20 addr a) (omega arith)))))))))
