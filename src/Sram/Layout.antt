-- ===== src/Sram/Layout.antt =====
-- npu_sram.c: what sram_buf_alloc_impl keeps of its table. A block is the reserved size of a type
-- from the address of its slot on.
use native.Mathlib.Decide.{ℕ_discrete}
use clanker_npu.Prelude.{
  ℕ, ◌+◌, ◌*◌, ◌-◌, ◌/◌, ◌%◌, ◌^◌, ◌≤◌, ◌<◌, ◌≡◌, ◌≢◌, ◌⊎◌, inl, inr, ◌∙◌, arith, length,
  length-set, get_or, get_or-set_self, get_or-set_ne, bit_and,
}
use clanker_npu.Prelude.Bits.{bit_and-halves, bit_and-low_mask}
use clanker_npu.Sram.{
  Build, an7552, an7581, an7583, Sram, sram_base, sram_size, sram_end, sram_max_entries,
  sram_type_size, align_up, next_base, record_entry,
}
use clanker_npu.Sram.Sizes.Bounds.{sram_type_size-Modest}

high_bits : (y : ℕ) → bit_and y (2 ^ 32 - 2 ^ 5) ≡ y / 32 % 2 ^ 27 * 32
high_bits y = ground (
  arith,
  bit_and-low_mask 27 (y / 2 / 2 / 2 / 2 / 2),
  bit_and-halves y (2 ^ 32 - 2 ^ 5),
  bit_and-halves (y / 2) (2 ^ 31 - 2 ^ 4),
  bit_and-halves (y / 2 / 2) (2 ^ 30 - 2 ^ 3),
  bit_and-halves (y / 2 / 2 / 2) (2 ^ 29 - 2 ^ 2),
  bit_and-halves (y / 2 / 2 / 2 / 2) (2 ^ 28 - 2 ^ 1),
)

-- align_up rounds up to the next multiple of 32.
pub align_up-eq : (x : ℕ) → x < 2 ^ 32 - 31 → align_up x ≡ (x + 31) / 32 * 32
unfolding align_up
align_up-eq x h = ground (arith, bit_and-low_mask 5 x, high_bits (x + 31))

abbrev pub slot : Sram → ℕ → ℕ × ℕ
slot s i = get_or s.table i (0, 0)

-- The table: every block starts on a multiple of 32 inside the SRAM and ends below the offset, the
-- blocks lie in the order of their slots without overlap, and no type has two slots.
pub record Sound (b : Build) (s : Sram) : Type 0 where
  pub room : length s.table ≡ sram_max_entries b
  pub bounded : s.offset ≤ sram_size b + 2 ^ 18
  pub started : s.offset ≡ 0 → s.count ≡ 0
  pub inside :
      (k : ℕ)
      → k < s.count
      → (sram_base ≤ (slot s k).1)
        × ((slot s k).1 ≤ sram_end b)
        × ((slot s k).1 % 32 ≡ 0)
        × ((slot s k).1 + sram_type_size b (slot s k).0 ≤ sram_base + s.offset)
  pub ordered :
      (j k : ℕ) → j < k → k < s.count → (slot s j).1 + sram_type_size b (slot s j).0 ≤ (slot s k).1
  pub distinct : (j k : ℕ) → j < k → k < s.count → (slot s j).0 ≢ (slot s k).0

sizes : (b : Build) → (0x40000 ≤ sram_size b) × (sram_size b ≤ 0x80000)
sizes b =
    elim b.soc
      as (λ s.
        (0x40000 ≤ sram_size (record b { soc = s }))
        × (sram_size (record b { soc = s }) ≤ 0x80000)) [
          | an7552 ↦ (omega arith, omega arith)
          | an7581 ↦ (omega arith, omega arith)
          | an7583 ↦ (omega arith, omega arith)
        ]

-- The next block starts on a multiple of 32, at most 31 bytes past the offset.
next_base-bounds :
    (b : Build) (s : Sram)
    → s.offset ≤ sram_size b + 2 ^ 18
    → (sram_base + s.offset ≤ next_base s)
      × (next_base s < sram_base + s.offset + 32)
      × (next_base s % 32 ≡ 0)
unfolding next_base
next_base-bounds b s h = ground (arith, align_up-eq (sram_base + s.offset), sizes b)

pub slot-old :
    (s : Sram) (base t size k : ℕ) → k < s.count → slot (record_entry s base t size) k ≡ slot s k
unfolding record_entry
slot-old s base t size k h = get_or-set_ne s.table s.count k (t, base) (0, 0) (omega arith)

pub slot-new :
    (s : Sram) (base t size : ℕ)
    → s.count < length s.table
    → slot (record_entry s base t size) s.count ≡ (t, base)
unfolding record_entry
slot-new s base t size h = get_or-set_self s.table s.count (t, base) (0, 0) h

max_entries : (b : Build) → sram_max_entries b ≤ 100
max_entries b = elim b.soc as (λ s. sram_max_entries (record b { soc = s }) ≤ 100) [
  | an7552 ↦ omega arith
  | an7581 ↦ omega arith
  | an7583 ↦ omega arith
]

pub new_counts :
    (b : Build) (s : Sram) (t : ℕ)
    → s.offset ≤ sram_size b + 2 ^ 18
    → s.count < sram_max_entries b
    → ((record_entry s (next_base s) t (sram_type_size b t)).count ≡ s.count + 1)
      × (sram_base + (record_entry s (next_base s) t (sram_type_size b t)).offset
          ≡ next_base s + sram_type_size b t)
unfolding record_entry
new_counts b s t h room =
    let (low, high, _) = next_base-bounds b s h in
    let size = sram_type_size-Modest b t in
    (omega (arith, max_entries b), omega (arith, low, high, size, sizes b))

-- Every slot of the new table is an old one or the new one.
slot_cases :
    (b : Build) (s : Sram) (t k : ℕ)
    → Sound b s
    → s.count < sram_max_entries b
    → k < (record_entry s (next_base s) t (sram_type_size b t)).count
    → let s' = record_entry s (next_base s) t (sram_type_size b t) in
      ((k < s.count) × (slot s' k ≡ slot s k)) ⊎ ((k ≡ s.count) × (slot s' k ≡ (t, next_base s)))
slot_cases b s t k w room h = elim (ℕ_discrete k s.count) [
  | yes e ↦ inr (e, rw e (slot-new s (next_base s) t (sram_type_size b t) (omega (arith, w.room))))
  | no ne ↦
      let below : k < s.count = omega (arith, new_counts b s t w.bounded room) in
      inl (below, slot-old s (next_base s) t (sram_type_size b t) k below)
]

length-record_entry :
    (b : Build) (s : Sram) (t : ℕ)
    → length (record_entry s (next_base s) t (sram_type_size b t)).table ≡ length s.table
unfolding record_entry
length-record_entry b s t = length-set s.table s.count (t, next_base s)

pub record_entry-Sound :
    (b : Build) (s : Sram) (t : ℕ)
    → Sound b s
    → s.count < sram_max_entries b
    → ((k : ℕ) → k < s.count → (slot s k).0 ≢ t)
    → (s.offset ≡ 0) ⊎ (next_base s ≤ sram_end b)
    → Sound b (record_entry s (next_base s) t (sram_type_size b t))
record_entry-Sound b s t w room fresh fits =
    let (count, offset) = new_counts b s t w.bounded room in
    let (low, high, aligned) = next_base-bounds b s w.bounded in
    let size = sram_type_size-Modest b t in
    record {
      room = length-record_entry b s t ∙ w.room;
      bounded = omega (arith, offset, high, size, fits, sizes b, low);
      started = λ e. absurd (omega (arith, offset, low, size));
      inside = λ k h. elim (slot_cases b s t k w room h) [
        | inl (below, e) ↦ rw e (
            let (above, below_end, round, used) = w.inside k below in
            (above, below_end, round, omega (arith, used, offset, low)))
        | inr (_, e) ↦
            rw e (
              omega (arith, low),
              omega (arith, fits, high, sizes b),
              aligned,
              omega (arith, offset),
            )
      ];
      ordered = λ j k jk h. elim (slot_cases b s t k w room h) [
        | inl (below, e) ↦ rw (e, old j (omega arith)) (w.ordered j k jk below)
        | inr (at, e) ↦
            rw (e, old j (omega arith))
              (let (_, _, _, used) = w.inside j (omega arith) in omega (arith, used, low))
      ];
      distinct = λ j k jk h. elim (slot_cases b s t k w room h) [
        | inl (below, e) ↦ rw (e, old j (omega arith)) (w.distinct j k jk below)
        | inr (at, e) ↦ rw (e, old j (omega arith)) (fresh j (omega arith))
      ];
    }
  where
    old :
        (j : ℕ)
        → j < s.count
        → slot (record_entry s (next_base s) t (sram_type_size b t)) j ≡ slot s j
    old j h = slot-old s (next_base s) t (sram_type_size b t) j h
