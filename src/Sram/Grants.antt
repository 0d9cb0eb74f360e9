-- ===== src/Sram/Grants.antt =====
-- npu_sram.c: runs of sram_buf_alloc from a fresh table, and what the callers can rely on.
use native.Mathlib.Decide.{ℕ_discrete}
use clanker_npu.Prelude.{
  ℕ, zero, suc, ◌+◌, ◌%◌, ◌≤◌, ◌<◌, ◌≡◌, ◌≢◌, ◌⊎◌, inl, inr, refl, ap, sym, ◌∙◌, arith, List, [],
  ◌∷◌, length, length-replicate, get_or, All, if◌then◌else◌, ltb, ◌||◌, ==_refl, ltb→lt, ltb→le,
  ◌==◌, u16, Bool-cases,
}
use clanker_npu.Sram.{
  Build, Sram, sram_base, sram_end, sram_error_addr, sram_max_entries, sram_type_size, next_base,
  record_entry, sram_buf_alloc_impl, sram_buf_alloc, sram_buf_init,
}
use clanker_npu.Sram.Outcome.{Outcome, failed, found, added, sram_buf_alloc_impl-Outcome}
use clanker_npu.Sram.Layout.{Sound, slot, record_entry-Sound, slot-old, slot-new, new_counts}

-- The calls in their order: each type with the address that its caller gets, and the last state.
unfoldable pub sram_run : Build → Sram → List ℕ → List (ℕ × ℕ) × Sram
sram_run b s [] = ([], s)
sram_run b s (t ∷ ts) =
    let out = sram_buf_alloc b s t in
    let rest = sram_run b out.1 ts in ((t, out.0) ∷ rest.0, rest.1)

-- The slot of a grant.
Recorded : Sram → ℕ × ℕ → Type 0
Recorded s g = (k : ℕ) × (k < s.count) × (slot s k ≡ g)

-- One call: the invariant and the old slots stay, and an address that is not 0 has its slot.
record Served (b : Build) (s : Sram) (t : ℕ) (out : ℕ × Sram) : Type 0 where
  sound : Sound b out.1
  count : out.1.count ≤ s.count + 1
  kept : (g : ℕ × ℕ) → Recorded s g → Recorded out.1 g
  granted : out.0 ≢ 0 → Recorded out.1 (t, out.0)

pair_eq : (p : ℕ × ℕ) (a b : ℕ) → p.0 ≡ a → p.1 ≡ b → p ≡ (a, b)
pair_eq p a b e f i = (e i, f i)

added-Served :
    (b : Build) (s : Sram) (t : ℕ)
    → Sound b s
    → s.count < sram_max_entries b
    → ((k : ℕ) → k < s.count → (slot s k).0 ≢ t)
    → (s.offset ≡ 0) ⊎ (next_base s ≤ sram_end b)
    → Served b s t (next_base s, record_entry s (next_base s) t (sram_type_size b t))
unfolding Recorded
added-Served b s t w room fresh fits =
    let (count, _) = new_counts b s t w.bounded room in
    record {
      sound = record_entry-Sound b s t w room fresh fits;
      count = omega (arith, count);
      kept = λ g (k, below, e).
          (k, omega (arith, count), slot-old s (next_base s) t (sram_type_size b t) k below ∙ e);
      granted = λ _. (
        s.count,
        omega (arith, count),
        slot-new s (next_base s) t (sram_type_size b t) (omega (arith, w.room)),
      );
    }

idle : (b : Build) (s : Sram) (t : ℕ) → Sound b s → Served b s t (0, s)
idle b s t w = record {
  sound = w;
  count = omega arith;
  kept = λ g r. r;
  granted = λ ne. absurd (ne refl);
}

zeroed :
    (b : Build) (s : Sram) (t : ℕ) (out : ℕ × Sram) → Served b s t out → Served b s t (0, out.1)
zeroed b s t out v = record {
  sound = v.sound;
  count = v.count;
  kept = v.kept;
  granted = λ ne. absurd (ne refl);
}

-- Every way a call goes, as its caller sees it.
Outcome-Served :
    (b : Build) (s : Sram) (t : ℕ) (out : ℕ × Sram)
    → Sound b s
    → s.count < sram_max_entries b
    → Outcome b s t out
    → Served b s t (if out.0 == sram_error_addr b then (0, out.1) else out)
unfolding Recorded
Outcome-Served b s t _ w room failed = rw (==_refl (sram_error_addr b)) (idle b s t w)
Outcome-Served b s t _ w room (found k below typ) =
    let v : Served b s t ((slot s k).1, s) = record {
      sound = w;
      count = omega arith;
      kept = λ g r. r;
      granted = λ _. (k, below, pair_eq (slot s k) t (slot s k).1 typ refl);
    } in
    elim (Bool-cases ((slot s k).1 == sram_error_addr b)) [
      | inl e ↦ rw e (idle b s t w)
      | inr e ↦ rw e v
    ]
Outcome-Served b s t _ w room (added fresh fits) =
    let v = added-Served b s t w room fresh fits in
    elim (Bool-cases (next_base s == sram_error_addr b)) [
      | inl e ↦
          rw e (zeroed b s t (next_base s, record_entry s (next_base s) t (sram_type_size b t)) v)
      | inr e ↦ rw e v
    ]

sram_buf_alloc-Served :
    (b : Build) (s : Sram) (t : ℕ)
    → Sound b s
    → s.count < sram_max_entries b
    → Served b s t (sram_buf_alloc b s t)
unfolding sram_buf_alloc
sram_buf_alloc-Served b s t w room = elim (Bool-cases (t == 0 || ltb 255 t)) [
  | inl e ↦ rw e (idle b s t w)
  | inr e ↦
      let small : u16 t ≡ t = ground arith in
      rw (e, small)
        (Outcome-Served b s t (sram_buf_alloc_impl b s t (sram_type_size b t)) w room
          (sram_buf_alloc_impl-Outcome b s t))
]

sram_buf_init-Sound : (b : Build) → Sound b (sram_buf_init b)
unfolding sram_buf_init
sram_buf_init-Sound b = record {
  room = length-replicate (sram_max_entries b) (0, 0);
  bounded = omega arith;
  started = λ _. refl;
  inside = λ k h. absurd (omega arith);
  ordered = λ j k jk h. absurd (omega arith);
  distinct = λ j k jk h. absurd (omega arith);
}

init_count : (b : Build) → (sram_buf_init b).count ≡ 0
unfolding sram_buf_init
init_count b = refl

-- A run from a sound state that has the slots for it: the state stays sound, the old slots stay,
-- and every address that is not 0 has a slot at the end.
sram_run-Served :
    (b : Build) (s : Sram) (ts : List ℕ)
    → Sound b s
    → s.count + length ts ≤ sram_max_entries b
    → Sound b (sram_run b s ts).1
      × ((g : ℕ × ℕ) → Recorded s g → Recorded (sram_run b s ts).1 g)
      × All (λ g. g.1 ≢ 0 → Recorded (sram_run b s ts).1 g) (sram_run b s ts).0
unfolding sram_run
sram_run-Served b s [] w room = (w, λ g r. r, tt)
sram_run-Served b s (t ∷ ts) w room =
    let v = sram_buf_alloc-Served b s t w (omega arith) in
    let (sound, kept, all) =
      sram_run-Served b (sram_buf_alloc b s t).1 ts v.sound (omega (arith, v.count)) in
    (
      sound,
      λ g r. kept g (v.kept g r),
      (λ ne. kept (t, (sram_buf_alloc b s t).0) (v.granted ne), all),
    )

All-at {ℓ κ} :
    {A : Type ℓ} (P : A → Type κ) (xs : List A) (i : ℕ) (d : A)
    → i < length xs
    → All P xs
    → P (get_or xs i d)
All-at P (x ∷ xs) zero d h all = all.0
All-at P (x ∷ xs) (suc i) d h all = All-at P xs i d (omega arith) all.1
All-at P [] i d h all = absurd (omega arith)

-- Two slots of a sound table are one slot, or of two types and apart.
slots-apart :
    (b : Build) (s : Sram) (g h : ℕ × ℕ)
    → Sound b s
    → Recorded s g
    → Recorded s h
    → (g ≡ h)
      ⊎ ((g.0 ≢ h.0) × ((g.1 + sram_type_size b g.0 ≤ h.1) ⊎ (h.1 + sram_type_size b h.0 ≤ g.1)))
unfolding Recorded
slots-apart b s g h w (j, jc, je) (k, kc, ke) =
    rw (← je, ← ke)
      (elim (ℕ_discrete j k) [
        | yes e ↦ inl (ap (slot s) e)
        | no ne ↦ elim (Bool-cases (ltb j k)) [
          | inl less ↦
              let jk = ltb→lt j k less in inr (w.distinct j k jk kc, inl (w.ordered j k jk kc))
          | inr more ↦
              let jk : k < j = omega (arith, ltb→le j k more) in
              inr (λ same. w.distinct k j jk jc (sym same), inr (w.ordered k j jk jc))
        ]
      ])

-- A run after sram_buf_init.
fresh_run :
    (b : Build) (ts : List ℕ)
    → length ts ≤ sram_max_entries b
    → let out = sram_run b (sram_buf_init b) ts in
      Sound b out.1
      × ((g : ℕ × ℕ) → Recorded (sram_buf_init b) g → Recorded out.1 g)
      × All (λ g. g.1 ≢ 0 → Recorded out.1 g) out.0
fresh_run b ts fits =
    sram_run-Served b (sram_buf_init b) ts (sram_buf_init-Sound b) (omega (arith, init_count b))

-- Any requests after sram_buf_init, as many as the table has slots: two addresses that were granted
-- are either of one type and then equal, or of two types and then the block at the one ends before
-- the other starts. So a repeated request gives the first address again, and no two types share a
-- byte.
pub sram_run-apart :
    (b : Build) (ts : List ℕ) (i j : ℕ)
    → length ts ≤ sram_max_entries b
    → let grants = (sram_run b (sram_buf_init b) ts).0 in
      let g = get_or grants i (0, 0) in
      let h = get_or grants j (0, 0) in
      i < length grants
      → j < length grants
      → g.1 ≢ 0
      → h.1 ≢ 0
      → (g ≡ h)
        ⊎ ((g.0 ≢ h.0) × ((g.1 + sram_type_size b g.0 ≤ h.1) ⊎ (h.1 + sram_type_size b h.0 ≤ g.1)))
sram_run-apart b ts i j fits il jl ig jh =
    let (sound, _, all) = fresh_run b ts fits in
    slots-apart b (sram_run b (sram_buf_init b) ts).1
      (get_or (sram_run b (sram_buf_init b) ts).0 i (0, 0))
      (get_or (sram_run b (sram_buf_init b) ts).0 j (0, 0)) sound
      (All-at (λ g. g.1 ≢ 0 → Recorded (sram_run b (sram_buf_init b) ts).1 g)
        (sram_run b (sram_buf_init b) ts).0 i (0, 0) il all ig)
      (All-at (λ g. g.1 ≢ 0 → Recorded (sram_run b (sram_buf_init b) ts).1 g)
        (sram_run b (sram_buf_init b) ts).0 j (0, 0) jl all jh)

-- Any requests after sram_buf_init, as many as the table has slots: an address that was granted is
-- a multiple of 32 inside the SRAM, at most two bytes before its end.
pub sram_run-inside :
    (b : Build) (ts : List ℕ) (i : ℕ)
    → length ts ≤ sram_max_entries b
    → let grants = (sram_run b (sram_buf_init b) ts).0 in
      let g = get_or grants i (0, 0) in
      i < length grants → g.1 ≢ 0 → (sram_base ≤ g.1) × (g.1 ≤ sram_end b) × (g.1 % 32 ≡ 0)
unfolding Recorded
sram_run-inside b ts i fits il ig =
    let (sound, _, all) = fresh_run b ts fits in
    let (k, kc, e) =
      (All-at (λ g. g.1 ≢ 0 → Recorded (sram_run b (sram_buf_init b) ts).1 g)
        (sram_run b (sram_buf_init b) ts).0 i (0, 0) il all ig) in
    let (low, high, round, _) = sound.inside k kc in rw (← e) (low, high, round)
