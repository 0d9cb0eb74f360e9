-- ===== src/Printf.antt =====
-- npu_printf.c: npu_vsprintf. Text is a list of bytes; a format is the list before its NUL. The
-- arguments are the words of the call by index, and `text` is the string that a pointer leads to.
pub mod Digits
pub mod Fields
pub mod Signed
pub mod Length
pub mod Total
mod Tests
use clanker_npu.Prelude.{
  ℕ, zero, suc, ◌+◌, ◌-◌, ◌*◌, ◌/◌, ◌%◌, ◌^◌, Bool, true, false, ◌&&◌, not, List, [], ◌∷◌, ◌++◌,
  Option, none, some, if◌then◌else◌, ltb, leb, ◌==◌, get_or, length, replicate, bit_or, shr, sub32,
  neg32,
}

-- The flags between the '%' and the conversion.
pub record Spec : Type 0 where
  pub left : Bool
  pub pad_zero : Bool
  pub width : ℕ
  pub is_ll : Bool

-- What a call leaves: the bytes before the NUL, or a read past the end of the format. The third is
-- for a run that needs more fuel.
pub data Printed : Type 0 where
  done : List ℕ → Printed
  overrun : Printed
  unfinished : Printed

abbrev pub put : List ℕ → Printed → Printed
put xs (done ys) = done (xs ++ ys)
put xs overrun = overrun
put xs unfinished = unfinished

pub decimal : ℕ → ℕ
decimal d = b'0' + d

abbrev pub lower_table : List ℕ
lower_table =
    b'0' ∷ b'1' ∷ b'2' ∷ b'3' ∷ b'4' ∷ b'5' ∷ b'6' ∷ b'7' ∷ b'8' ∷ b'9' ∷ b'a' ∷ b'b' ∷ b'c' ∷ b'd'
    ∷ b'e' ∷ b'f' ∷ []

abbrev pub upper_table : List ℕ
upper_table =
    b'0' ∷ b'1' ∷ b'2' ∷ b'3' ∷ b'4' ∷ b'5' ∷ b'6' ∷ b'7' ∷ b'8' ∷ b'9' ∷ b'A' ∷ b'B' ∷ b'C' ∷ b'D'
    ∷ b'E' ∷ b'F' ∷ []

unfoldable pub hex : Bool → ℕ → ℕ
hex upper d = get_or (if upper then upper_table else lower_table) d 0

-- The loop that fills tmp from tmp[0] on, the lowest digit first.
pub digits : ℕ → ℕ → (ℕ → ℕ) → ℕ → List ℕ
digits zero base glyph v = []
digits (suc n) base glyph v =
    let rest = digits n base glyph (v / base) in
    glyph (v % base) ∷ (if v / base == 0 then [] else rest)

-- `for (i = len - 1; i >= 0; i--) *p++ = tmp[i]`.
pub backwards : List ℕ → List ℕ
backwards [] = []
backwards (c ∷ tmp) = backwards tmp ++ c ∷ []

-- The padding, the number and the padding after it. A count that is negative in the source is 0.
pub field : Spec → List ℕ → List ℕ
field s tmp =
    let n = s.width - length tmp in
    if s.left
    then backwards tmp ++ replicate n b' '
    else replicate n (if s.pad_zero then b'0' else b' ') ++ backwards tmp

-- The digits of a number with its sign, which stays in front of the zero padding.
pub signed_field : Spec → Bool → List ℕ → List ℕ
signed_field s neg tmp =
    let inner : Spec = record s { width = s.width - 1 } in
    if neg
    then (if s.pad_zero && not s.left then b'-' ∷ field inner tmp else field s (tmp ++ b'-' ∷ []))
    else field s tmp

-- A 64-bit argument takes two words.
pub wide : (ℕ → ℕ) → ℕ → ℕ
wide args i = bit_or (args i) (args (i + 1) * 2 ^ 32)

-- The sizes of the digit loops: 64 bits have 20 decimal digits, 16 hexadecimal ones.
pub number : Bool → ℕ → (ℕ → ℕ) → ℕ → List ℕ
number is_ll base glyph v = digits (if is_ll then 20 else 10) base glyph v

pub signed_number : Spec → (ℕ → ℕ) → ℕ → List ℕ
signed_number s args i =
    if s.is_ll
    then (if ltb (wide args i) (2 ^ 63)
        then signed_field s false (number true 10 decimal (wide args i))
        else signed_field s true (number true 10 decimal ((2 ^ 64 - wide args i) % 2 ^ 64)))
    else (if neg32 (args i)
        then signed_field s true (number false 10 decimal (sub32 0 (args i)))
        else signed_field s false (number false 10 decimal (args i)))

pub unsigned_number : Spec → ℕ → (ℕ → ℕ) → (ℕ → ℕ) → ℕ → List ℕ
unsigned_number s base glyph args i =
    field s (number s.is_ll base glyph (if s.is_ll then wide args i else args i))

-- `(null)`
abbrev pub null_text : List ℕ
null_text = b'(' ∷ b'n' ∷ b'u' ∷ b'l' ∷ b'l' ∷ b')' ∷ []

pub text_field : Spec → List ℕ → List ℕ
text_field s t =
    let n = s.width - length t in if s.left then t ++ replicate n b' ' else replicate n b' ' ++ t

-- The loop of 'p', with `k` digits left.
unfoldable pub nibbles : ℕ → ℕ → List ℕ
nibbles zero v = []
nibbles (suc k) v = hex false (shr v (4 * k) % 16) ∷ nibbles k v

-- What the conversion `c` writes and the argument index after it.
pub convert : ℕ → Spec → (ℕ → List ℕ) → (ℕ → ℕ) → ℕ → List ℕ × ℕ
convert c s text args i =
    let after = if s.is_ll then i + 2 else i + 1 in
    let str = if args i == 0 then null_text else text (args i) in
    if c == b'd'
    then (signed_number s args i, after)
    else if c == b'u'
    then (unsigned_number s 10 decimal args i, after)
    else if c == b'x'
    then (unsigned_number s 16 (hex false) args i, after)
    else if c == b'X'
    then (unsigned_number s 16 (hex true) args i, after)
    else if c == b's'
    then (text_field s str, i + 1)
    else if c == b'c'
    then (args i % 2 ^ 8 ∷ [], i + 1)
    else if c == b'p'
    then (b'0' ∷ b'x' ∷ nibbles 8 (args i), i + 1)
    else if c == b'%'
    then (b'%' ∷ [], i)
    else (b'%' ∷ c ∷ [], i)

-- A flag character, if the format has it next.
pub flag : ℕ → List ℕ → Bool × List ℕ
flag c [] = (false, [])
flag c (x ∷ f) = if x == c then (true, f) else (false, x ∷ f)

abbrev pub is_digit : ℕ → Bool
is_digit c = leb b'0' c && leb c b'9'

-- The digits of the width.
pub take_width : ℕ → List ℕ → ℕ × List ℕ
take_width width [] = (width, [])
take_width width (x ∷ f) =
    let rest = take_width (width * 10 + (x - b'0')) f in if is_digit x then rest else (width, x ∷ f)

-- `l`, `ll` or `z`.
pub take_size : List ℕ → Bool × List ℕ
take_size f = let (long, g) = flag b'l' f in if long then flag b'l' g else (false, (flag b'z' f).1)

pub take_spec : List ℕ → Spec × List ℕ
take_spec f =
    let (left, f1) = flag b'-' f in
    let (pad_zero, f2) = flag b'0' f1 in
    let (width, f3) = take_width 0 f2 in
    let (is_ll, f4) = take_size f3 in
    (record { left = left; pad_zero = pad_zero; width = width; is_ll = is_ll }, f4)

-- The loop over the format, one round for each character or conversion. A format that ends inside a
-- conversion has its NUL taken for the conversion, and the loop runs past it.
pub npu_vsprintf : ℕ → List ℕ → (ℕ → List ℕ) → (ℕ → ℕ) → ℕ → Printed
npu_vsprintf n [] text args i = done []
npu_vsprintf zero (c ∷ f) text args i = unfinished
npu_vsprintf (suc n) (c ∷ f) text args i =
    let plain = npu_vsprintf n f text args i in
    let converted : Printed = elim (take_spec f).1 [
      | [] ↦ overrun
      | x ∷ g ↦
          let out = convert x (take_spec f).0 text args i in
          put out.0 (npu_vsprintf n g text args out.1)
    ] in
    if c == b'%' then converted else put (c ∷ []) plain
