-- ===== src/Util/Memory.antt =====
-- The memory and string helpers do what the C library's do.
use native.Mathlib.Decide.{ℕ_discrete}
use clanker_npu.Prelude.{
  ℕ, zero, suc, ◌+◌, ◌-◌, ◌*◌, ◌/◌, ◌%◌, ◌^◌, ◌≤◌, ◌<◌, ◌≡◌, ◌≢◌, ◌⊎◌, refl, ap, ◌∙◌, arith, ◌&&◌,
  List, [], ◌∷◌, ◌++◌, some, length, All, get_or, set, length-set, get_or-set_self, get_or-set_ne,
  if◌then◌else◌, leb, ltb, u8,
}
use clanker_npu.Prelude.Bits.{bit_or-shifted}
use clanker_npu.Util.{npu_memset, npu_memcpy, npu_strlen, npu_htons}

pub length-npu_memset : (mem : List ℕ) (d c n : ℕ) → length (npu_memset mem d c n) ≡ length mem
unfolding npu_memset
length-npu_memset mem d c zero = refl
length-npu_memset mem d c (suc n) =
    length-npu_memset (set mem d (u8 c)) (d + 1) c n ∙ length-set mem d (u8 c)

-- npu_memset writes the low byte of c to the n bytes from d on, and no other byte.
pub get_or-npu_memset :
    (mem : List ℕ) (d c n j : ℕ)
    → d + n ≤ length mem
    → get_or (npu_memset mem d c n) j 0
      ≡ (if leb d j && ltb j (d + n) then u8 c else get_or mem j 0)
unfolding npu_memset
get_or-npu_memset mem d c zero j h = ground arith
get_or-npu_memset mem d c (suc n) j h = elim (ℕ_discrete d j) [
  | yes e ↦
      get_or-npu_memset (set mem d (u8 c)) (d + 1) c n j (omega (arith, length-set mem d (u8 c)))
      ∙ rw (← e) (ground (arith, get_or-set_self mem d (u8 c) 0 (omega arith)))
  | no ne ↦ ground (
    arith,
    get_or-npu_memset (set mem d (u8 c)) (d + 1) c n j (omega (arith, length-set mem d (u8 c))),
    get_or-set_ne mem d j (u8 c) 0 ne,
  )
]

same_read : (mem : List ℕ) (i j : ℕ) → i ≡ j → get_or mem i 0 ≡ get_or mem j 0
same_read mem i j e = ap (λ k. get_or mem k 0) e

-- npu_memcpy copies the n bytes from s to d and leaves every other byte, where the destination
-- does not start inside the source.
pub get_or-npu_memcpy :
    (mem : List ℕ) (d s n j : ℕ)
    → d + n ≤ length mem
    → (d ≤ s) ⊎ (s + n ≤ d)
    → get_or (npu_memcpy mem d s n) j 0
      ≡ (if leb d j && ltb j (d + n) then get_or mem (s + (j - d)) 0 else get_or mem j 0)
unfolding npu_memcpy
get_or-npu_memcpy mem d s zero j h apart = ground arith
get_or-npu_memcpy mem d s (suc n) j h apart =
    let next = set mem d (get_or mem s 0) in
    let ih =
      get_or-npu_memcpy next (d + 1) (s + 1) n j (omega (arith, length-set mem d (get_or mem s 0)))
        (omega arith) in
    elim (ℕ_discrete d j) [
      | yes e ↦
          ih
          ∙ rw (← e) (
              ground (
                arith,
                get_or-set_self mem d (get_or mem s 0) 0 (omega arith),
                same_read mem (s + (d - d)) s (omega arith),
              ))
      | no ne ↦ ground (
        arith,
        ih,
        same_read next (s + 1 + (j - (d + 1))) (s + (j - d)),
        get_or-set_ne mem d j (get_or mem s 0) 0 ne,
        get_or-set_ne mem d (s + (j - d)) (get_or mem s 0) 0,
      )
    ]

-- npu_strlen counts the bytes before the first NUL.
pub npu_strlen-text :
    (s rest : List ℕ) → All (λ c. c ≢ 0) s → npu_strlen (s ++ 0 ∷ rest) ≡ some (length s)
unfolding npu_strlen
npu_strlen-text [] rest h = refl
npu_strlen-text (c ∷ s) rest h = rw (npu_strlen-text s rest h.1) (ground arith)

-- npu_htons swaps the two bytes.
pub npu_htons-eq : (x : ℕ) → x < 2 ^ 16 → npu_htons x ≡ x % 2 ^ 8 * 2 ^ 8 + x / 2 ^ 8
unfolding npu_htons
npu_htons-eq x h = rw (bit_or-shifted 8 x (x / 2 ^ 8) (omega arith)) (omega arith)

-- npu_htons is its own inverse.
pub npu_htons-npu_htons : (x : ℕ) → x < 2 ^ 16 → npu_htons (npu_htons x) ≡ x
npu_htons-npu_htons x h =
    rw (npu_htons-eq x h, npu_htons-eq (x % 2 ^ 8 * 2 ^ 8 + x / 2 ^ 8) (omega arith)) (omega arith)
