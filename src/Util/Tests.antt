-- ===== src/Util/Tests.antt =====
-- The helpers at concrete inputs.
use clanker_npu.Prelude.{ℕ, ◌-◌, ◌^◌, ◌≡◌, refl, arith, List, [], ◌∷◌, some}
use clanker_npu.Util.{npu_isqrt, isqrt_start, isqrt_loop, get_core_char}
use clanker_npu.Util.Isqrt.{IsRoot, npu_isqrt-IsRoot}

isqrt_of_max : npu_isqrt (2 ^ 32 - 1) ≡ some 65535
unfolding npu_isqrt isqrt_start isqrt_loop
isqrt_of_max = refl

isqrt_of_zero : npu_isqrt 0 ≡ some 0
unfolding npu_isqrt isqrt_start isqrt_loop
isqrt_of_zero = refl

core_chars : (get_core_char 3 ≡ b'3') × (get_core_char 8 ≡ b'X')
unfolding get_core_char
core_chars = (refl, refl)

npu_isqrt-IsRoot_example : (r : ℕ) × (npu_isqrt 1000 ≡ some r) × IsRoot 1000 r
npu_isqrt-IsRoot_example = npu_isqrt-IsRoot 1000 (omega arith)

abbrev bytes : List ℕ
bytes = 1 ∷ 2 ∷ 3 ∷ 4 ∷ 5 ∷ []
