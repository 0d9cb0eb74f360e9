-- ===== src/Printf/Signed.antt =====
-- npu_printf.c: %d with every flag, width and size, on every argument.
use clanker_npu.Prelude.{
  ℕ, suc, ◌+◌, ◌-◌, ◌*◌, ◌/◌, ◌%◌, ◌^◌, ◌≤◌, ◌<◌, Bool, true, false, List, [], ◌∷◌, ◌++◌,
  if◌then◌else◌, ltb, ◌==◌, length, ◌≡◌, refl, arith, Bool-cases, inl, inr, ◌∙◌, ap, replicate,
  sub32, ltb→le,
}
use clanker_npu.Printf.{
  Spec, digits, backwards, decimal, field, signed_field, signed_number, number, wide,
}
use clanker_npu.Printf.Digits.{
  read_digits, value, IsDigits, value-digits, digits-IsDigits, read_digits-zeros,
}
use clanker_npu.Printf.Fields.{
  read_signed, read_signed-minus, read_field, field-left, field-blanks, field-zeros,
  read_signed-blanks, backwards-minus, read_number, read_bare,
}
use clanker_npu.Prelude.Bits.{bit_or-shifted}

-- The signed number of an argument: two's complement in 32 or 64 bits, as sign and size.
pub signed_of : Bool → (ℕ → ℕ) → ℕ → Bool × ℕ
signed_of is_ll args i =
    let v = if is_ll then args i + args (i + 1) * 2 ^ 32 else args i in
    let half = if is_ll then 2 ^ 63 else 2 ^ 31 in
    if ltb v half then (false, v) else (true, 2 * half - v)

signed-left :
    (s : Spec) (tmp : List ℕ) → s.left ≡ true → signed_field s true tmp ≡ field s (tmp ++ b'-' ∷ [])
unfolding signed_field
signed-left s tmp l = ground (arith, l)

signed-blanks :
    (s : Spec) (tmp : List ℕ)
    → s.left ≡ false
    → s.pad_zero ≡ false
    → signed_field s true tmp ≡ field s (tmp ++ b'-' ∷ [])
unfolding signed_field
signed-blanks s tmp l z = rw (l, z) refl

signed-zeros :
    (s : Spec) (tmp : List ℕ)
    → s.left ≡ false
    → s.pad_zero ≡ true
    → signed_field s true tmp ≡ b'-' ∷ field (record s { width = s.width - 1 }) tmp
unfolding signed_field
signed-zeros s tmp l z = rw (l, z) refl

signed-plain : (s : Spec) (tmp : List ℕ) → signed_field s false tmp ≡ field s tmp
unfolding signed_field
signed-plain s tmp = refl

read_minus :
    (s : Spec) (c : ℕ) (ds : List ℕ)
    → IsDigits (c ∷ ds)
    → read_signed (signed_field s true (c ∷ ds)) ≡ (true, value (c ∷ ds))
read_minus s c ds h = elim (Bool-cases s.left) [
  | inl l ↦
      let n = s.width - length ((c ∷ ds) ++ b'-' ∷ []) in
      ap read_signed (signed-left s (c ∷ ds) l)
      ∙ (ap read_signed (
            field-left s ((c ∷ ds) ++ b'-' ∷ []) l
            ∙ ap (λ xs. xs ++ replicate n b' ') (backwards-minus (c ∷ ds)))
          ∙ (read_signed-minus (backwards (c ∷ ds) ++ replicate n b' ')
              ∙ ap (λ v. (true, v)) (read_number (c ∷ ds) n h)))
  | inr r ↦ elim (Bool-cases s.pad_zero) [
    | inl z ↦
        let inner : Spec = record s { width = s.width - 1 } in
        let n = s.width - 1 - length (c ∷ ds) in
        ap read_signed (signed-zeros s (c ∷ ds) r z)
        ∙ (read_signed-minus (field inner (c ∷ ds))
            ∙ ap (λ v. (true, v))
                (ap (read_digits 0) (field-zeros inner (c ∷ ds) r z)
                  ∙ (read_digits-zeros n 0 (backwards (c ∷ ds)) refl ∙ read_bare (c ∷ ds) h)))
    | inr b ↦
        let n = s.width - length ((c ∷ ds) ++ b'-' ∷ []) in
        ap read_signed (signed-blanks s (c ∷ ds) r b)
        ∙ (ap read_signed (field-blanks s ((c ∷ ds) ++ b'-' ∷ []) r b)
            ∙ (read_signed-blanks n (backwards ((c ∷ ds) ++ b'-' ∷ []))
                ∙ (ap read_signed (backwards-minus (c ∷ ds))
                    ∙ (read_signed-minus (backwards (c ∷ ds))
                        ∙ ap (λ v. (true, v)) (read_bare (c ∷ ds) h)))))
  ]
]

-- The digits of a number that is written with a minus or without.
read_sign :
    (s : Spec) (neg : Bool) (n v : ℕ)
    → v < 10 ^ suc n
    → read_signed (signed_field s neg (digits (suc n) 10 decimal v)) ≡ (neg, v)
unfolding digits
read_sign s true n v h =
    read_minus s (decimal (v % 10)) (if v / 10 == 0 then [] else digits n 10 decimal (v / 10))
      (digits-IsDigits (suc n) v)
    ∙ ap (λ x. (true, x)) (value-digits (suc n) v h)
read_sign s false n v h =
    ap read_signed (signed-plain s (digits (suc n) 10 decimal v))
    ∙ (read_field s (decimal (v % 10)) (if v / 10 == 0 then [] else digits n 10 decimal (v / 10))
          (digits-IsDigits (suc n) v)
        ∙ ap (λ x. (false, x)) (value-digits (suc n) v h))

-- One of the four runs of the digit loop that %d has.
Reads : Spec → (ℕ → ℕ) → ℕ → Type 0
Reads s args i = read_signed (signed_number s args i) ≡ signed_of s.is_ll args i

wide_sum : (args : ℕ → ℕ) (i : ℕ) → args i < 2 ^ 32 → wide args i ≡ args i + args (i + 1) * 2 ^ 32
unfolding wide
wide_sum args i h = omega (arith, bit_or-shifted 32 (args (i + 1)) (args i) h)

read_wide :
    (s : Spec) (args : ℕ → ℕ) (i : ℕ)
    → s.is_ll ≡ true
    → args i < 2 ^ 32
    → args (i + 1) < 2 ^ 32
    → Reads s args i
unfolding Reads signed_number signed_of number signed_field field
read_wide s args i l h g =
    let w = args i + args (i + 1) * 2 ^ 32 in
    let sum = wide_sum args i h in
    elim (Bool-cases (ltb w (2 ^ 63))) [
      | inl low ↦ rw (l, sum, low) (read_sign s false 19 w (omega arith))
      | inr high ↦
          let size : w < 2 ^ 64 = omega arith in
          let over : 2 ^ 63 ≤ w = ltb→le w (2 ^ 63) high in
          let rest : (2 ^ 64 - w) % 2 ^ 64 ≡ 2 ^ 64 - w = omega arith in
          rw (l, sum, high, rest) (read_sign s true 19 (2 ^ 64 - w) (omega arith))
    ]

read_narrow : (s : Spec) (args : ℕ → ℕ) (i : ℕ) → s.is_ll ≡ false → args i < 2 ^ 32 → Reads s args i
unfolding Reads signed_number signed_of number signed_field field
read_narrow s args i l h = elim (Bool-cases (ltb (args i) (2 ^ 31))) [
  | inl low ↦ rw (l, low) (read_sign s false 9 (args i) (omega arith))
  | inr high ↦
      let over : 2 ^ 31 ≤ args i = ltb→le (args i) (2 ^ 31) high in
      let rest : sub32 0 (args i) ≡ 2 ^ 32 - args i = omega arith in
      rw (l, high, rest) (read_sign s true 9 (2 ^ 32 - args i) (omega arith))
]

-- Whatever the flags, the width and the size are, what %d writes reads back as the number that the
-- argument holds in two's complement.
pub read_signed-signed_number :
    (s : Spec) (args : ℕ → ℕ) (i : ℕ)
    → args i < 2 ^ 32
    → args (i + 1) < 2 ^ 32
    → read_signed (signed_number s args i) ≡ signed_of s.is_ll args i
unfolding Reads
read_signed-signed_number s args i h g = elim (Bool-cases s.is_ll) [
  | inl l ↦ read_wide s args i l h g
  | inr l ↦ read_narrow s args i l h
]
