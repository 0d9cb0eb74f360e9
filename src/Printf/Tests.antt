-- ===== src/Printf/Tests.antt =====
-- Runs of npu_vsprintf, and the properties of the number fields at concrete arguments.
use clanker_npu.Prelude.{
  ℕ, zero, suc, ◌-◌, ◌^◌, ◌≡◌, ◌≢◌, refl, true, false, List, [], ◌∷◌, arith, replicate,
  if◌then◌else◌, ◌==◌,
}
use clanker_npu.Printf.{
  Spec, done, overrun, unfinished, npu_vsprintf, signed_number, take_spec, take_size, flag,
  take_width, convert, unsigned_number, number, digits, signed_field, field, backwards, decimal,
  hex, text_field,
}
use clanker_npu.Printf.Signed.{signed_of, read_signed-signed_number}
use clanker_npu.Printf.Fields.{read_signed}
use clanker_npu.Printf.Total.{npu_vsprintf-finished}

-- The words -42 and 65535, and the string "up" at every address.
abbrev args : ℕ → ℕ
args i = elim i [ zero ↦ 2 ^ 32 - 42 | suc j ↦ 65535 ]

abbrev text : ℕ → List ℕ
text a = b'u' ∷ b'p' ∷ []

abbrev spec : Spec
spec = record { left = false; pad_zero = true; width = 6; is_ll = false }

read_signed-signed_number_example : read_signed (signed_number spec args 0) ≡ signed_of false args 0
read_signed-signed_number_example =
    read_signed-signed_number spec args 0 (omega arith) (omega arith)

-- "a%06d" on -42.
abbrev format : List ℕ
format = b'a' ∷ b'%' ∷ b'0' ∷ b'6' ∷ b'd' ∷ []

npu_vsprintf-finished_example : npu_vsprintf 5 format text args 0 ≢ unfinished
npu_vsprintf-finished_example = npu_vsprintf-finished 5 format text args 0 (omega arith)

padded :
    npu_vsprintf 5 format text args 0 ≡ done (b'a' ∷ b'-' ∷ b'0' ∷ b'0' ∷ b'0' ∷ b'4' ∷ b'2' ∷ [])
unfolding npu_vsprintf take_spec take_size flag take_width convert signed_number number digits
    signed_field field backwards decimal replicate
padded = refl

-- A format that ends in '%' is read past its end.
lone_percent : npu_vsprintf 9 (b'%' ∷ []) text args 0 ≡ overrun
unfolding npu_vsprintf take_spec take_size flag take_width
lone_percent = refl

-- "%X|%-3s." on 65535 and a null pointer.
text_and_hex :
    npu_vsprintf 9
      (b'%' ∷ b'X' ∷ b'|' ∷ b'%' ∷ b'-' ∷ b'3' ∷ b's' ∷ b'.' ∷ [])
      text
      (λ i. if i == 0 then 65535 else 0)
      0
    ≡ done (b'F' ∷ b'F' ∷ b'F' ∷ b'F' ∷ b'|' ∷ b'(' ∷ b'n' ∷ b'u' ∷ b'l' ∷ b'l' ∷ b')' ∷ b'.' ∷ [])
unfolding npu_vsprintf take_spec take_size flag take_width convert unsigned_number number digits
    field backwards hex text_field replicate
text_and_hex = refl
