-- ===== src/Util.antt =====
-- npu_util.c: memory and string helpers, the integer square root and the core letter. Memory is a
-- list of bytes; pointers are positions in it.
pub mod Isqrt
pub mod Memory
mod Tests
use clanker_npu.Prelude.{
  ℕ, zero, suc, ◌+◌, ◌-◌, ◌*◌, ◌/◌, ◌%◌, ◌^◌, Bool, List, [], ◌∷◌, Option, none, some,
  if◌then◌else◌, ltb, leb, ◌==◌, get_or, set, add32, shr, u8, u16, bit_or,
}

-- npu_memset, with the count that is left.
pub npu_memset : List ℕ → ℕ → ℕ → ℕ → List ℕ
npu_memset mem d c zero = mem
npu_memset mem d c (suc n) = npu_memset (set mem d (u8 c)) (d + 1) c n

-- npu_memcpy within one memory: a byte is read after the earlier ones are written.
pub npu_memcpy : List ℕ → ℕ → ℕ → ℕ → List ℕ
npu_memcpy mem d s zero = mem
npu_memcpy mem d s (suc n) = npu_memcpy (set mem d (get_or mem s 0)) (d + 1) (s + 1) n

-- npu_strlen over the bytes from s on; `none` when they end with no NUL.
pub npu_strlen : List ℕ → Option ℕ
npu_strlen [] = none
npu_strlen (c ∷ s) =
    if c == 0 then some 0 else elim (npu_strlen s) [ none ↦ none | some n ↦ some (n + 1) ]

-- `while (b > x) b >>= 2`; `none` when the fuel runs out.
pub isqrt_start : ℕ → ℕ → ℕ → Option ℕ
isqrt_start zero x b = if ltb x b then none else some b
isqrt_start (suc fuel) x b =
    let rest = isqrt_start fuel x (shr b 2) in if ltb x b then rest else some b

-- The second loop of npu_isqrt.
pub isqrt_loop : ℕ → ℕ → ℕ → ℕ → Option ℕ
isqrt_loop zero x r b = if b == 0 then some r else none
isqrt_loop (suc fuel) x r b =
    let over = isqrt_loop fuel (x - add32 r b) (add32 (shr r 1) b) (shr b 2) in
    let under = isqrt_loop fuel x (shr r 1) (shr b 2) in
    let rest = if leb (add32 r b) x then over else under in if b == 0 then some r else rest

-- npu_isqrt: b starts at 2^30, so 16 rounds of either loop are enough (Util.Isqrt).
pub npu_isqrt : ℕ → Option ℕ
npu_isqrt x = elim (isqrt_start 16 x (2 ^ 30)) [ none ↦ none | some b ↦ isqrt_loop 16 x 0 b ]

-- get_core_char on the hart id.
pub get_core_char : ℕ → ℕ
get_core_char id = if leb id 7 then u8 (b'0' + id) else b'X'

-- npu_htons on a `u16`.
pub npu_htons : ℕ → ℕ
npu_htons x = u16 (bit_or (shr x 8) (x * 2 ^ 8))
