-- ===== src/Sram/Sizes/Bounds.antt =====
-- npu_sram.c: the bounds of the size tables.
use clanker_npu.Prelude.{
  ℕ, ◌^◌, ◌≤◌, ◌<◌, ◌≡◌, inl, inr, refl, arith, Bool, true, false, ◌&&◌, List, [], ◌∷◌, none, some,
  if◌then◌else◌, ltb, leb, Bool-cases, Option-cases,
}
use clanker_npu.Sram.Sizes.{
  Build, Soc, an7552, an7581, an7583, kite_lo, kite_hi, eagle_lo, eagle_hi, sram_type_size,
  sram_size_lo, sram_size_hi, sram_size_ext, sram_default_size, find_size,
}

-- A size is positive and below 2^18.
abbrev modest : List (ℕ × ℕ) → Bool
modest [] = true
modest (r ∷ rs) = leb 1 r.1 && (ltb r.1 (2 ^ 18) && modest rs)

abbrev pub Modest : ℕ → Type 0
Modest n = (1 ≤ n) × (n < 2 ^ 18)

find_size-Modest :
    (rs : List (ℕ × ℕ)) (t n : ℕ) → modest rs ≡ true → find_size rs t ≡ some n → Modest n
unfolding find_size
find_size-Modest [] t n h e = ground arith
find_size-Modest (r ∷ rs) t n h e = ground (arith, find_size-Modest rs t n)

lo_modest : (soc : Soc) (kite : Bool) → modest (if kite then kite_lo soc else eagle_lo soc) ≡ true
lo_modest an7552 true = refl
lo_modest an7552 false = refl
lo_modest an7581 true = refl
lo_modest an7581 false = refl
lo_modest an7583 true = refl
lo_modest an7583 false = refl

hi_modest : (soc : Soc) (kite : Bool) → modest (if kite then kite_hi soc else eagle_hi soc) ≡ true
hi_modest an7552 true = refl
hi_modest an7552 false = refl
hi_modest an7581 true = refl
hi_modest an7581 false = refl
hi_modest an7583 true = refl
hi_modest an7583 false = refl

ext_modest :
    (qlimit clanker : Bool)
    → modest (
        (12, 0x01000)
        ∷ (13, 0x02800)
        ∷ (if qlimit then (if clanker then (41, 0x10000) else (41, 0x0C800)) ∷ [] else []))
      ≡ true
ext_modest true true = refl
ext_modest true false = refl
ext_modest false _ = refl

ext_or_default :
    (b : Build) (t : ℕ)
    → Modest (elim (find_size (sram_size_ext b) t) [ some size ↦ size | none ↦ sram_default_size ])
ext_or_default b t = elim (Option-cases (find_size (sram_size_ext b) t)) [
  | inl e ↦ rw e (omega arith, omega arith)
  | inr (n, e) ↦
      rw e (find_size-Modest (sram_size_ext b) t n (ext_modest b.sta_qlimit b.clanker_driver) e)
]

row_or :
    (b : Build) (t : ℕ) (rs : List (ℕ × ℕ))
    → modest rs ≡ true
    → Modest (elim (find_size rs t) [
      | some size ↦ size
      | none ↦ elim (find_size (sram_size_ext b) t) [ some size ↦ size | none ↦ sram_default_size ]
    ])
row_or b t rs h = elim (Option-cases (find_size rs t)) [
  | inl e ↦ rw e (ext_or_default b t)
  | inr (n, e) ↦ rw e (find_size-Modest rs t n h e)
]

-- Every type has a positive size below 2^18, in every build.
pub sram_type_size-Modest : (b : Build) (t : ℕ) → Modest (sram_type_size b t)
unfolding sram_type_size
sram_type_size-Modest b t = elim (Bool-cases (leb t 128)) [
  | inl e ↦ rw (sram_type_size, e) (row_or b t (sram_size_lo b) (lo_modest b.soc b.kite))
  | inr e ↦ rw (sram_type_size, e) (row_or b t (sram_size_hi b) (hi_modest b.soc b.kite))
]
