-- ===== src/Printf/Fields.antt =====
-- npu_printf.c: the fields of %d. A reader that skips the padding takes the number back.
use clanker_npu.Prelude.{
  ℕ, zero, suc, ◌+◌, ◌-◌, ◌*◌, ◌^◌, Bool, true, false, List, [], ◌∷◌, ◌++◌, if◌then◌else◌, ◌==◌,
  length, ◌≡◌, refl, arith, Bool-cases, inl, inr, sym, ◌∙◌, ap, replicate,
}
use mathlib.Core.List.{append_assoc}
use clanker_npu.Printf.{Spec, backwards, is_digit, field}
use clanker_npu.Printf.Digits.{
  read_digits-blanks, read_digits, value, IsDigits, read_digits-zeros, read_digits-backwards,
}

-- The number that a text holds: blanks, a sign, digits; the first is true for a minus.
pub read_signed : List ℕ → Bool × ℕ
read_signed [] = (false, 0)
read_signed (c ∷ cs) =
    let rest = read_signed cs in
    if c == b' '
    then rest
    else if c == b'-'
    then (true, read_digits 0 cs)
    else (false, read_digits 0 (c ∷ cs))

pub read_signed-blanks :
    (n : ℕ) (cs : List ℕ) → read_signed (replicate n b' ' ++ cs) ≡ read_signed cs
unfolding read_signed replicate
read_signed-blanks zero cs = refl
read_signed-blanks (suc n) cs = read_signed-blanks n cs

pub read_signed-minus : (cs : List ℕ) → read_signed (b'-' ∷ cs) ≡ (true, read_digits 0 cs)
unfolding read_signed
read_signed-minus cs = refl

read_signed-digit :
    (c : ℕ) (cs : List ℕ)
    → is_digit c ≡ true
    → read_signed (c ∷ cs) ≡ (false, read_digits 0 (c ∷ cs))
unfolding read_signed
read_signed-digit c cs h = ground arith

append_nil : (xs : List ℕ) → xs ++ [] ≡ xs
append_nil [] = refl
append_nil (x ∷ xs) = ap (λ ys. x ∷ ys) (append_nil xs)

-- Digits up to the end or to the blanks behind them.
pub read_number :
    (ds : List ℕ) (n : ℕ)
    → IsDigits ds
    → read_digits 0 (backwards ds ++ replicate n b' ') ≡ value ds
read_number ds n h =
    read_digits-backwards 0 ds (replicate n b' ') h
    ∙ (read_digits-blanks (0 * 10 ^ length ds + value ds) n ∙ omega arith)

pub read_bare : (ds : List ℕ) → IsDigits ds → read_digits 0 (backwards ds) ≡ value ds
unfolding replicate
read_bare ds h = ap (read_digits 0) (sym (append_nil (backwards ds))) ∙ read_number ds 0 h

-- A text of digits is taken as a number with no sign.
read_signed-backwards :
    (c : ℕ) (ds ys : List ℕ)
    → IsDigits (c ∷ ds)
    → read_signed (backwards (c ∷ ds) ++ ys) ≡ (false, read_digits 0 (backwards (c ∷ ds) ++ ys))
unfolding backwards
read_signed-backwards c [] ys (h, _) = read_signed-digit c ys h
read_signed-backwards c (d ∷ ds) ys (h, hs) =
    rw (append_assoc (backwards (d ∷ ds)) (c ∷ []) ys) (read_signed-backwards d ds (c ∷ ys) hs)

pub backwards-minus : (ds : List ℕ) → backwards (ds ++ b'-' ∷ []) ≡ b'-' ∷ backwards ds
unfolding backwards
backwards-minus [] = refl
backwards-minus (d ∷ ds) = ap (λ xs. xs ++ d ∷ []) (backwards-minus ds)

pub field-left :
    (s : Spec) (tmp : List ℕ)
    → s.left ≡ true
    → field s tmp ≡ backwards tmp ++ replicate (s.width - length tmp) b' '
unfolding field
field-left s tmp e = rw e refl

pub field-blanks :
    (s : Spec) (tmp : List ℕ)
    → s.left ≡ false
    → s.pad_zero ≡ false
    → field s tmp ≡ replicate (s.width - length tmp) b' ' ++ backwards tmp
unfolding field
field-blanks s tmp e z = rw (e, z) refl

pub field-zeros :
    (s : Spec) (tmp : List ℕ)
    → s.left ≡ false
    → s.pad_zero ≡ true
    → field s tmp ≡ replicate (s.width - length tmp) b'0' ++ backwards tmp
unfolding field
field-zeros s tmp e z = rw (e, z) refl

read_zeros :
    (n c : ℕ) (ds : List ℕ)
    → IsDigits (c ∷ ds)
    → read_signed (replicate n b'0' ++ backwards (c ∷ ds)) ≡ (false, value (c ∷ ds))
unfolding replicate
read_zeros zero c ds h =
    ap read_signed (sym (append_nil (backwards (c ∷ ds))))
    ∙ (read_signed-backwards c ds [] h ∙ ap (λ v. (false, v)) (read_number (c ∷ ds) 0 h))
read_zeros (suc n) c ds h =
    read_signed-digit b'0' (replicate n b'0' ++ backwards (c ∷ ds)) refl
    ∙ ap (λ v. (false, v))
        (read_digits-zeros (suc n) 0 (backwards (c ∷ ds)) refl ∙ read_bare (c ∷ ds) h)

pub read_field :
    (s : Spec) (c : ℕ) (ds : List ℕ)
    → IsDigits (c ∷ ds)
    → read_signed (field s (c ∷ ds)) ≡ (false, value (c ∷ ds))
unfolding replicate
read_field s c ds h = elim (Bool-cases s.left) [
  | inl l ↦
      ap read_signed (field-left s (c ∷ ds) l)
      ∙ (read_signed-backwards c ds (replicate (s.width - length (c ∷ ds)) b' ') h
          ∙ ap (λ v. (false, v)) (read_number (c ∷ ds) (s.width - length (c ∷ ds)) h))
  | inr r ↦ elim (Bool-cases s.pad_zero) [
    | inl z ↦
        ap read_signed (field-zeros s (c ∷ ds) r z) ∙ read_zeros (s.width - length (c ∷ ds)) c ds h
    | inr b ↦
        ap read_signed (field-blanks s (c ∷ ds) r b)
        ∙ (read_signed-blanks (s.width - length (c ∷ ds)) (backwards (c ∷ ds))
            ∙ read_zeros 0 c ds h)
  ]
]
