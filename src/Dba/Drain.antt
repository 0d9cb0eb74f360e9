-- ===== src/Dba/Drain.antt =====
-- npu_dba.c: dba_rpt_drain leaves the last two reports of each alloc id.
use clanker_npu.Prelude.{
  ℕ, zero, suc, ◌+◌, ◌/◌, ◌%◌, ◌*◌, ◌^◌, ◌≤◌, ◌≡◌, refl, sym, ap, ◌∙◌, arith, true, List, [], ◌∷◌,
  ◌++◌, if◌then◌else◌, ◌==◌, Bool-cases, inl, inr, All, length, length-append, subst,
}
use mathlib.Core.List.{append_assoc}
use clanker_npu.Dba.{Rpt, Alloc}
use clanker_npu.Dba.Reports.{
  HwRpt, no_alloc, report_index, report_of, dba_rpt_store, Fttr, Drain, next_report, drain_loop,
  dba_rpt_drain, Slots, view, dba_rpt_push-Pushed,
}

-- The reports of the alloc id with the index i, oldest first.
pub reports_for : ℕ → ℕ → List HwRpt → List Rpt
reports_for mode i [] = []
reports_for mode i (h ∷ hs) =
    let rest = reports_for mode i hs in
    if no_alloc h then rest else if report_index mode h == i then report_of h ∷ rest else rest

reports_for-append :
    (mode i : ℕ) (xs ys : List HwRpt)
    → reports_for mode i (xs ++ ys) ≡ reports_for mode i xs ++ reports_for mode i ys
unfolding reports_for
reports_for-append mode i [] ys = refl
reports_for-append mode i (x ∷ xs) ys = rw (reports_for-append mode i xs ys) (ground arith)

-- The two reports kept, after some more.
pub last_two : Rpt × Rpt → List Rpt → Rpt × Rpt
last_two v [] = v
last_two v (r ∷ rs) = last_two (v.1, r) rs

last_two-append :
    (v : Rpt × Rpt) (xs ys : List Rpt) → last_two v (xs ++ ys) ≡ last_two (last_two v xs) ys
unfolding last_two
last_two-append v [] ys = refl
last_two-append v (x ∷ xs) ys = last_two-append (v.1, x) xs ys

-- From the contexts `ctx`, after the reports hs.
pub record LastTwo (mode : ℕ) (ctx : ℕ → Alloc) (hs : List HwRpt) (out : ℕ → Alloc) (i : ℕ)
    : Type 0 where
  pub slots : Slots (out i)
  pub kept : view (out i) ≡ last_two (view (ctx i)) (reports_for mode i hs)

store-LastTwo :
    (mode : ℕ) (ctx : ℕ → Alloc) (h : HwRpt) (i : ℕ)
    → Slots (ctx i)
    → LastTwo mode ctx (h ∷ []) (dba_rpt_store mode ctx h) i
unfolding dba_rpt_store reports_for last_two
store-LastTwo mode ctx h i ok = elim (Bool-cases (no_alloc h)) [
  | inl e ↦ record { slots = rw e ok; kept = rw e refl }
  | inr e ↦ elim (Bool-cases (report_index mode h == i)) [
    | inl f ↦
        let p = dba_rpt_push-Pushed (ctx i) (report_of h) ok in
        let at : report_index mode h ≡ i = ground (arith, f) in
        let hit : (i == i) ≡ true = ground arith in
        record { slots = rw (e, at, hit) p.slots; kept = rw (e, at, hit) p.kept }
    | inr f ↦ record { slots = rw (e, f) ok; kept = rw (e, f) refl }
  ]
]

more-LastTwo :
    (mode : ℕ) (ctx mid : ℕ → Alloc) (hs : List HwRpt) (h : HwRpt) (i : ℕ)
    → LastTwo mode ctx hs mid i
    → LastTwo mode ctx (hs ++ h ∷ []) (dba_rpt_store mode mid h) i
more-LastTwo mode ctx mid hs h i ok =
    let one = store-LastTwo mode mid h i ok.slots in
    record {
      slots = one.slots;
      kept =
          one.kept
          ∙ (ap (λ v. last_two v (reports_for mode i (h ∷ []))) ok.kept
              ∙ (sym (
                    last_two-append (view (ctx i)) (reports_for mode i hs)
                      (reports_for mode i (h ∷ [])))
                  ∙ ap (last_two (view (ctx i))) (sym (reports_for-append mode i hs (h ∷ [])))));
    }

-- The reports at the indices, in the order in which they are stored.
pub read_at : Fttr → List ℕ → List HwRpt
read_at f [] = []
read_at f (idx ∷ more) = (f.reports idx).1 ∷ (f.reports idx).0 ∷ read_at f more

read_at-append : (f : Fttr) (xs ys : List ℕ) → read_at f (xs ++ ys) ≡ read_at f xs ++ read_at f ys
unfolding read_at
read_at-append f [] ys = refl
read_at-append f (x ∷ xs) ys =
    ap (λ hs. (f.reports x).1 ∷ (f.reports x).0 ∷ hs) (read_at-append f xs ys)

All-end : (P : ℕ → Type 0) (xs : List ℕ) (x : ℕ) → All P xs → P x → All P (xs ++ x ∷ [])
All-end P [] x h p = (p, tt)
All-end P (y ∷ xs) x h p = (h.0, All-end P xs x h.1 p)

-- A drain of at most n rounds after d, all of it within the report ring.
pub record Drained (mode : ℕ) (f : Fttr) (ctx : ℕ → Alloc) (rounds : ℕ) (d : Drain) : Type 0 where
  pub reports : (i : ℕ) → Slots (ctx i) → LastTwo mode ctx (read_at f d.indices) d.ctx i
  pub inside : All (λ k. k ≤ f.last) d.indices
  pub few : length d.indices ≤ rounds

turn-Drained :
    (mode rounds idx ridx : ℕ) (f : Fttr) (ctx : ℕ → Alloc) (d : Drain)
    → idx ≤ f.last
    → Drained mode f ctx rounds d
    → Drained mode f ctx (suc rounds) (record {
      ctx = dba_rpt_store mode (dba_rpt_store mode d.ctx (f.reports idx).1) (f.reports idx).0;
      ridx = ridx;
      indices = d.indices ++ idx ∷ [];
    })
unfolding read_at
turn-Drained mode rounds idx ridx f ctx d in_ring h = record {
  reports = λ i ok.
      let first =
        more-LastTwo mode ctx d.ctx (read_at f d.indices) ((f.reports idx).1) i (h.reports i ok) in
      let both =
        more-LastTwo mode ctx (dba_rpt_store mode d.ctx (f.reports idx).1)
          (read_at f d.indices ++ (f.reports idx).1 ∷ []) ((f.reports idx).0) i first in
      subst
        (λ hs.
          LastTwo mode ctx hs
            (dba_rpt_store mode (dba_rpt_store mode d.ctx (f.reports idx).1) (f.reports idx).0) i)
        (append_assoc (read_at f d.indices) ((f.reports idx).1 ∷ []) ((f.reports idx).0 ∷ [])
          ∙ sym (read_at-append f d.indices (idx ∷ [])))
        both;
  inside = All-end (λ k. k ≤ f.last) d.indices idx h.inside in_ring;
  few = omega (arith, length-append d.indices (idx ∷ []), h.few);
}

next_report-inside :
    (step : ℕ) (f : Fttr) (pending idx : ℕ) → next_report step f pending idx ≤ f.last
unfolding next_report
next_report-inside step f pending idx = ground arith

weaker :
    (mode rounds more : ℕ) (f : Fttr) (ctx : ℕ → Alloc) (d : Drain)
    → rounds ≤ more
    → Drained mode f ctx rounds d
    → Drained mode f ctx more d
weaker mode rounds more f ctx d le h = record {
  reports = h.reports;
  inside = h.inside;
  few = omega (arith, h.few, le);
}

drain_loop-Drained :
    (n mode step rounds k idx : ℕ) (f : Fttr) (ctx : ℕ → Alloc) (d : Drain)
    → idx ≤ f.last
    → Drained mode f ctx rounds d
    → Drained mode f ctx (rounds + n) (drain_loop n mode step f k idx d)
unfolding drain_loop
drain_loop-Drained zero mode step rounds k idx f ctx d in_ring h =
    weaker mode rounds (rounds + 0) f ctx d (omega arith) h
drain_loop-Drained (suc n) mode step rounds k idx f ctx d in_ring h =
    let next = next_report step f (f.pending k % 2 ^ 16) idx in
    let ridx : ℕ = d.ridx % 2 ^ 16 + next % 2 ^ 16 * 2 ^ 16 in
    let after = turn-Drained mode rounds idx ridx f ctx d in_ring h in
    elim (Bool-cases (f.pending (k + 1) % 2 ^ 16 == 0)) [
      | inl e ↦ rw e (weaker mode (suc rounds) (rounds + suc n) f ctx _ (omega arith) after)
      | inr e ↦ rw e (
          weaker mode (suc rounds + n) (rounds + suc n) f ctx _ (omega arith) (
            drain_loop-Drained n mode step (suc rounds) (k + 1) next f ctx _
              (next_report-inside step f (f.pending k % 2 ^ 16) idx) after))
    ]

none_yet :
    (mode : ℕ) (f : Fttr) (ctx : ℕ → Alloc) (i : ℕ)
    → Slots (ctx i)
    → LastTwo mode ctx (read_at f []) ctx i
unfolding read_at reports_for last_two
none_yet mode f ctx i ok = record { slots = ok; kept = refl }

-- Whatever counts the FTTR block shows, from a reading index inside the report ring dba_rpt_drain ends
-- after at most 80 pairs of reports and reads none past the last index. An alloc id whose slots are 0 and
-- 1 is left with its last two reports: those of the pairs that were read, in their order, pushed onto the
-- two that it had.
pub dba_rpt_drain-Drained :
    (mode step : ℕ) (f : Fttr) (ctx : ℕ → Alloc)
    → f.ridx / 2 ^ 16 ≤ f.last
    → Drained mode f ctx 80 (dba_rpt_drain mode step f ctx)
unfolding dba_rpt_drain
dba_rpt_drain-Drained mode step f ctx in_ring =
    let start : Drain = record { ctx = ctx; ridx = f.ridx; indices = [] } in
    let idle : Drained mode f ctx 0 start = record {
      reports = λ i ok. none_yet mode f ctx i ok;
      inside = tt;
      few = omega arith;
    } in
    elim (Bool-cases (f.pending 0 % 2 ^ 16 == 0)) [
      | inl e ↦ rw e (weaker mode 0 80 f ctx start (omega arith) idle)
      | inr e ↦
          rw e (drain_loop-Drained 80 mode step 0 0 (f.ridx / 2 ^ 16) f ctx start in_ring idle)
    ]
