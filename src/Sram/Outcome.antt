-- ===== src/Sram/Outcome.antt =====
-- npu_sram.c: the three ways a call of sram_buf_alloc_impl goes.
use native.Mathlib.Decide.{ℕ_discrete}
use clanker_npu.Prelude.{
  ℕ, zero, suc, ◌+◌, ◌≤◌, ◌<◌, ◌≡◌, ◌≢◌, ◌⊎◌, inl, inr, ap, arith, ◌&&◌, not, List, none, some,
  get_or, if◌then◌else◌, ltb, leb, ◌==◌, Bool-cases, Option-cases, ==_iff,
}
use clanker_npu.Sram.{
  Build, Sram, sram_size, sram_end, sram_error_addr, sram_max_entries, sram_type_size, find_slot,
  next_base, record_entry, sram_buf_alloc_impl,
}
use clanker_npu.Sram.Layout.{slot}

find_slot-some :
    (table : List (ℕ × ℕ)) (t n i a : ℕ)
    → find_slot table t n i ≡ some a
    → (k : ℕ) × ((k < i + n) × (((get_or table k (0, 0)).0 ≡ t) × ((get_or table k (0, 0)).1 ≡ a)))
unfolding find_slot
find_slot-some table t zero i a e = ground arith
find_slot-some table t (suc n) i a e = elim (Bool-cases ((get_or table i (0, 0)).0 == t)) [
  | inl same ↦
      (i, (omega arith, (ground (arith, ==_iff (get_or table i (0, 0)).0 t), ground arith)))
  | inr other ↦
      let out = find_slot-some table t n (i + 1) a (ground arith) in
      (out.0, (omega (arith, out.1.0), out.1.1))
]

find_slot-none :
    (table : List (ℕ × ℕ)) (t n i k : ℕ)
    → find_slot table t n i ≡ none
    → i ≤ k
    → k < i + n
    → (get_or table k (0, 0)).0 ≢ t
unfolding find_slot
find_slot-none table t zero i k e l h = ground arith
find_slot-none table t (suc n) i k e l h = elim (ℕ_discrete i k) [
  | yes ik ↦ ground (arith, ap (λ (x : ℕ). (get_or table x (0, 0)).0) ik)
  | no ne ↦ find_slot-none table t n (i + 1) k (ground arith) (omega arith) (omega arith)
]

-- The three ways a call goes: it fails and changes nothing, it finds the slot of the type, or it
-- adds one at the next free address.
pub data Outcome (b : Build) (s : Sram) (t : ℕ) : ℕ × Sram → Type 0 where
  failed : Outcome b s t (sram_error_addr b, s)
  found : (k : ℕ) → k < s.count → (slot s k).0 ≡ t → Outcome b s t ((slot s k).1, s)
  added :
      ((k : ℕ) → k < s.count → (slot s k).0 ≢ t)
      → (s.offset ≡ 0) ⊎ (next_base s ≤ sram_end b)
      → Outcome b s t (next_base s, record_entry s (next_base s) t (sram_type_size b t))

searched :
    (b : Build) (s : Sram) (t : ℕ)
    → Outcome b s t (elim (find_slot s.table t s.count 0) [
      | some existing ↦ (existing, s)
      | none ↦
          if not (s.offset == 0) && ltb (sram_end b) (next_base s)
          then (sram_error_addr b, s)
          else (next_base s, record_entry s (next_base s) t (sram_type_size b t))
    ])
searched b s t = elim (Option-cases (find_slot s.table t s.count 0)) [
  | inr (a, e) ↦
      let (k, (below, (typ, addr))) = find_slot-some s.table t s.count 0 a e in
      rw (e, ← addr) (found k (omega arith) typ)
  | inl e ↦ rw e (elim (Bool-cases (not (s.offset == 0) && ltb (sram_end b) (next_base s))) [
    | inl full ↦ rw full failed
    | inr fits ↦ rw fits (
        added (λ k h. find_slot-none s.table t s.count 0 k e (omega arith) (omega arith))
          (ground arith))
  ])
]

pub sram_buf_alloc_impl-Outcome :
    (b : Build) (s : Sram) (t : ℕ) → Outcome b s t (sram_buf_alloc_impl b s t (sram_type_size b t))
unfolding sram_buf_alloc_impl
sram_buf_alloc_impl-Outcome b s t =
    elim (Bool-cases (leb (sram_size b) s.offset && leb (sram_max_entries b) s.count)) [
      | inl full ↦ rw full failed
      | inr free ↦ rw free (searched b s t)
    ]
