-- ===== src/Printf/Digits.antt =====
-- npu_printf.c: what the digit loops leave in tmp, and how it reads as a number.
use clanker_npu.Prelude.{
  ℕ, zero, suc, ◌+◌, ◌-◌, ◌*◌, ◌/◌, ◌%◌, ◌^◌, ◌≤◌, ◌<◌, Bool, true, false, List, [], ◌∷◌, ◌++◌,
  if◌then◌else◌, ◌==◌, length, All, ◌≡◌, refl, arith, ◌∙◌, ap, length-append, replicate,
}
use mathlib.Core.List.{append_assoc}
use clanker_npu.Printf.{digits, backwards, decimal, is_digit}

-- The digits after `acc`, up to the first other character.
pub read_digits : ℕ → List ℕ → ℕ
read_digits acc [] = acc
read_digits acc (c ∷ cs) =
    let rest = read_digits (acc * 10 + (c - b'0')) cs in if is_digit c then rest else acc

-- The value of decimal digits, the lowest first.
pub value : List ℕ → ℕ
value [] = 0
value (c ∷ cs) = (c - b'0') + 10 * value cs

abbrev pub IsDigits : List ℕ → Type 0
IsDigits = All (λ c. is_digit c ≡ true)

digits-last :
    (n base : ℕ) (glyph : ℕ → ℕ) (v : ℕ)
    → v / base ≡ 0
    → digits (suc n) base glyph v ≡ glyph (v % base) ∷ []
unfolding digits
digits-last n base glyph v h = rw h refl

digits-more :
    (n base : ℕ) (glyph : ℕ → ℕ) (v : ℕ)
    → (v / base == 0) ≡ false
    → digits (suc n) base glyph v ≡ glyph (v % base) ∷ digits n base glyph (v / base)
unfolding digits
digits-more n base glyph v h = rw h refl

digits-decimal :
    (n v : ℕ)
    → digits (suc n) 10 decimal v
      ≡ decimal (v % 10) ∷ (if v / 10 == 0 then [] else digits n 10 decimal (v / 10))
unfolding digits
digits-decimal n v = refl

tenth : (n v : ℕ) → v < 10 ^ suc n → v / 10 < 10 ^ n
tenth n v h = omega arith

-- With as many rounds as the number has digits.
pub value-digits : (n v : ℕ) → v < 10 ^ n → value (digits n 10 decimal v) ≡ v
unfolding value digits decimal
value-digits zero v h = omega arith
value-digits (suc n) v h = ground (arith, value-digits n (v / 10) (tenth n v h))

if_IsDigits : (b : Bool) (ds : List ℕ) → IsDigits ds → IsDigits (if b then [] else ds)
if_IsDigits true ds h = tt
if_IsDigits false ds h = h

pub digits-IsDigits : (n v : ℕ) → IsDigits (digits n 10 decimal v)
unfolding digits decimal
digits-IsDigits zero v = tt
digits-IsDigits (suc n) v = (
  ground arith,
  if_IsDigits (v / 10 == 0) (digits n 10 decimal (v / 10)) (digits-IsDigits n (v / 10)),
)

pub length-digits : (n base : ℕ) (glyph : ℕ → ℕ) (v : ℕ) → length (digits n base glyph v) ≤ n
unfolding digits
length-digits zero base glyph v = omega arith
length-digits (suc n) base glyph v = ground (arith, length-digits n base glyph (v / base))

pub length-backwards : (tmp : List ℕ) → length (backwards tmp) ≡ length tmp
unfolding backwards
length-backwards [] = refl
length-backwards (c ∷ tmp) =
    omega (arith, length-append (backwards tmp) (c ∷ []), length-backwards tmp)

pub read_digits-more :
    (acc c : ℕ) (cs : List ℕ)
    → is_digit c ≡ true
    → read_digits acc (c ∷ cs) ≡ read_digits (acc * 10 + (c - b'0')) cs
unfolding read_digits
read_digits-more acc c cs h = rw h refl

pub read_digits-zeros :
    (n acc : ℕ) (cs : List ℕ)
    → acc ≡ 0
    → read_digits acc (replicate n b'0' ++ cs) ≡ read_digits 0 cs
unfolding replicate
read_digits-zeros zero acc cs e = rw e refl
read_digits-zeros (suc n) acc cs e =
    read_digits-more acc b'0' (replicate n b'0' ++ cs) refl
    ∙ read_digits-zeros n (acc * 10 + 0) cs (omega arith)

scaled : (acc p v d : ℕ) → (acc * p + v) * 10 + d ≡ acc * (10 * p) + (d + 10 * v)
scaled acc p v d = grind arith

next_digit : (acc k v d : ℕ) → (acc * 10 ^ k + v) * 10 + d ≡ acc * 10 ^ suc k + (d + 10 * v)
next_digit acc k v d = scaled acc (10 ^ k) v d ∙ ap (λ p. acc * p + (d + 10 * v)) (omega arith)

-- The digits that tmp holds, read in the order they are written.
pub read_digits-backwards :
    (acc : ℕ) (ds ys : List ℕ)
    → IsDigits ds
    → read_digits acc (backwards ds ++ ys) ≡ read_digits (acc * 10 ^ length ds + value ds) ys
unfolding backwards value
read_digits-backwards acc [] ys h = ap (λ a. read_digits a ys) (omega arith)
read_digits-backwards acc (c ∷ ds) ys (h, hs) =
    ap (read_digits acc) (append_assoc (backwards ds) (c ∷ []) ys)
    ∙ read_digits-backwards acc ds (c ∷ ys) hs
    ∙ read_digits-more (acc * 10 ^ length ds + value ds) c ys h
    ∙ ap (λ a. read_digits a ys) (next_digit acc (length ds) (value ds) (c - b'0'))

pub read_digits-blanks : (acc n : ℕ) → read_digits acc (replicate n b' ') ≡ acc
unfolding read_digits replicate
read_digits-blanks acc zero = refl
read_digits-blanks acc (suc n) = refl
