-- ===== src/Printf/Length.antt =====
-- npu_printf.c: how many bytes a number takes in tmp and in the output.
use clanker_npu.Prelude.{
  ℕ, ◌+◌, ◌-◌, ◌^◌, ◌≤◌, ◌%◌, Bool, true, false, List, [], ◌∷◌, ◌++◌, if◌then◌else◌, length, ◌≡◌,
  arith, length-append, replicate, length-replicate, sub32,
}
use Prim.Native.Nat.{max}
use clanker_npu.Printf.{
  Spec, digits, backwards, decimal, field, signed_field, signed_number, number, wide,
}
use clanker_npu.Printf.Digits.{length-digits, length-backwards}

length-field : (s : Spec) (tmp : List ℕ) → length (field s tmp) ≡ max s.width (length tmp)
unfolding field
length-field s tmp =
    let n = s.width - length tmp in
    let zeros = replicate {A = ℕ} n b'0' in
    let blanks = replicate {A = ℕ} n b' ' in
    ground (
      arith,
      length-append (backwards tmp) blanks,
      length-append blanks (backwards tmp),
      length-append zeros (backwards tmp),
      length-backwards tmp,
      length-replicate {A = ℕ} n b'0',
      length-replicate {A = ℕ} n b' ',
    )

length-signed_field :
    (s : Spec) (neg : Bool) (tmp : List ℕ)
    → length (signed_field s neg tmp) ≡ max s.width (length tmp + (if neg then 1 else 0))
unfolding signed_field
length-signed_field s neg tmp = ground (
  arith,
  length-field s tmp,
  length-field (record s { width = s.width - 1 }) tmp,
  length-field s (tmp ++ b'-' ∷ []),
  length-append tmp (b'-' ∷ []),
)

-- Whatever the argument is, %d writes at least `width` bytes, and it writes more only for a number of
-- at most 21 bytes with its sign, which is what it puts into the 24 bytes of tmp.
pub length-signed_number :
    (s : Spec) (args : ℕ → ℕ) (i : ℕ)
    → (s.width ≤ length (signed_number s args i))
      × (length (signed_number s args i) ≤ max s.width 21)
unfolding signed_number number
length-signed_number s args i =
    let w = wide args i in
    ground (
      arith,
      length-signed_field s false (digits 20 10 decimal w),
      length-signed_field s true (digits 20 10 decimal ((2 ^ 64 - w) % 2 ^ 64)),
      length-signed_field s true (digits 10 10 decimal (sub32 0 (args i))),
      length-signed_field s false (digits 10 10 decimal (args i)),
      length-digits 20 10 decimal w,
      length-digits 20 10 decimal ((2 ^ 64 - w) % 2 ^ 64),
      length-digits 10 10 decimal (sub32 0 (args i)),
      length-digits 10 10 decimal (args i),
    )
