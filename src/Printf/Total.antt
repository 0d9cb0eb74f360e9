-- ===== src/Printf/Total.antt =====
-- npu_printf.c: the loop of npu_vsprintf ends.
use clanker_npu.Prelude.{
  ℕ, zero, suc, ◌+◌, ◌-◌, ◌*◌, ◌≤◌, Bool, true, false, List, [], ◌∷◌, if◌then◌else◌, ◌==◌, length,
  ◌≢◌, arith, refl,
}
use clanker_npu.Printf.{
  Spec, Printed, done, overrun, unfinished, put, flag, take_width, take_size, take_spec, convert,
  npu_vsprintf,
}

length-flag : (c : ℕ) (f : List ℕ) → length (flag c f).1 ≤ length f
unfolding flag
length-flag c [] = omega arith
length-flag c (x ∷ f) = ground arith

length-take_width : (w : ℕ) (f : List ℕ) → length (take_width w f).1 ≤ length f
unfolding take_width
length-take_width w [] = omega arith
length-take_width w (x ∷ f) = ground (arith, length-take_width (w * 10 + (x - b'0')) f)

length-take_size : (f : List ℕ) → length (take_size f).1 ≤ length f
unfolding take_size
length-take_size f =
    ground (arith, length-flag b'l' f, length-flag b'l' (flag b'l' f).1, length-flag b'z' f)

length-take_spec : (f : List ℕ) → length (take_spec f).1 ≤ length f
unfolding take_spec
length-take_spec f =
    let f1 = (flag b'-' f).1 in
    let f2 = (flag b'0' f1).1 in
    omega (
      arith,
      length-flag b'-' f,
      length-flag b'0' f1,
      length-take_width 0 f2,
      length-take_size (take_width 0 f2).1,
    )

put-finished : (xs : List ℕ) (p : Printed) → p ≢ unfinished → put xs p ≢ unfinished
put-finished xs (done ys) h = λ e. cc
put-finished xs overrun h = λ e. cc
put-finished xs unfinished h = absurd (h refl)

if-finished :
    (b : Bool) {p q : Printed} → p ≢ unfinished → q ≢ unfinished → (if b then p else q) ≢ unfinished
if-finished true h k = h
if-finished false h k = k

-- The round of one conversion, when the rest of the format finishes.
next-finished :
    (n : ℕ) (s : Spec) (f : List ℕ) (text : ℕ → List ℕ) (args : ℕ → ℕ) (i : ℕ)
    → ((g : List ℕ) (j : ℕ) → length g ≤ n → npu_vsprintf n g text args j ≢ unfinished)
    → length f ≤ suc n
    → elim f [
      | [] ↦ overrun
      | x ∷ g ↦
          put (convert x s text args i).0 (npu_vsprintf n g text args (convert x s text args i).1)
    ]
      ≢ unfinished
next-finished n s [] text args i ih h = λ e. cc
next-finished n s (x ∷ g) text args i ih h =
    let out = convert x s text args i in
    put-finished out.0 (npu_vsprintf n g text args out.1) (ih g out.1 (omega arith))

-- A round for each byte of the format is enough, whatever the arguments are: the call ends with a
-- text or with a read past the end of the format.
pub npu_vsprintf-finished :
    (n : ℕ) (f : List ℕ) (text : ℕ → List ℕ) (args : ℕ → ℕ) (i : ℕ)
    → length f ≤ n
    → npu_vsprintf n f text args i ≢ unfinished
unfolding npu_vsprintf
npu_vsprintf-finished zero [] text args i h = λ e. cc
npu_vsprintf-finished (suc n) [] text args i h = λ e. cc
npu_vsprintf-finished zero (c ∷ f) text args i h = absurd (omega arith)
npu_vsprintf-finished (suc n) (c ∷ f) text args i h =
    if-finished (c == b'%')
      (next-finished n (take_spec f).0 (take_spec f).1 text args i
        (λ g j k. npu_vsprintf-finished n g text args j k) (omega (arith, length-take_spec f)))
      (put-finished (c ∷ []) (npu_vsprintf n f text args i)
        (npu_vsprintf-finished n f text args i (omega arith)))
