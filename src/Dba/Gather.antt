-- ===== src/Dba/Gather.antt =====
-- npu_dba.c: the list that dba_bw_request builds by dba_sort_bw.
use clanker_npu.Prelude.{
  ℕ, suc, ◌+◌, ◌-◌, ◌^◌, ◌<◌, ◌≤◌, ◌≡◌, refl, sym, ap, ◌∙◌, arith, true, false, List, [], ◌∷◌, ◌++◌,
  leb, Bool-cases, inl, inr, length, length-append, get_or, set, u16, All, subst, replicate,
  length-replicate,
}
use mathlib.Core.List.{append_assoc, append-nil, Perm, perm_middle}
use mathlib.Core.List.Perm
use clanker_npu.Dba.Sort.{dba_sort_bw, gather}
use clanker_npu.Dba.Sorted.{get_or-middle, set-middle, insert_by, Sorted, Small, sink-insert_by}

dba_sort_bw-insert_by :
    (bw : ℕ → ℕ) (pre body post : List ℕ) (x n start : ℕ)
    → n ≡ length body + 1
    → start ≡ length pre
    → Sorted bw body
    → Small bw body
    → bw x < 2 ^ 16
    → dba_sort_bw bw (pre ++ (body ++ x ∷ post)) n start ≡ pre ++ (insert_by bw x body ++ post)
unfolding dba_sort_bw insert_by
dba_sort_bw-insert_by bw pre [] post x n start size at s small key =
    let one : leb n 1 ≡ true = ground (arith, size) in rw one refl
dba_sort_bw-insert_by bw pre (y ∷ ys) post x n start size at s small key =
    let more : leb n 1 ≡ false = ground (arith, size) in
    let body = y ∷ ys in
    let rounds : n - 1 ≡ length body = omega (arith, size) in
    let place : start + n - 1 ≡ length (pre ++ body) =
      omega (arith, at, size, length-append pre body) in
    let reads : get_or (pre ++ (body ++ x ∷ post)) (start + n - 1) 0 ≡ x =
      ap (λ zs. get_or zs (start + n - 1) 0) (sym (append_assoc pre body (x ∷ post)))
      ∙ get_or-middle (pre ++ body) post x (start + n - 1) place in
    let small_key : u16 (bw x) ≡ bw x = ground (arith, key) in
    rw (more, reads, small_key, rounds)
      (sink-insert_by (length body) start bw pre body post x (sym at) refl s small key)

insert_by-perm : (bw : ℕ → ℕ) (x : ℕ) (ys : List ℕ) → Perm (insert_by bw x ys) (x ∷ ys)
unfolding insert_by
insert_by-perm bw x [] = Perm.refl (x ∷ [])
insert_by-perm bw x (y ∷ ys) = elim (Bool-cases (leb (bw y) (bw x))) [
  | inl e ↦ rw e (Perm.trans (Perm.cons y (insert_by-perm bw x ys)) (Perm.swap x y ys))
  | inr e ↦ rw e (Perm.refl (x ∷ y ∷ ys))
]

insert_by-All :
    (P : ℕ → Type 0) (bw : ℕ → ℕ) (x : ℕ) (ys : List ℕ) → P x → All P ys → All P (insert_by bw x ys)
unfolding insert_by
insert_by-All P bw x [] p h = (p, tt)
insert_by-All P bw x (y ∷ ys) p h = elim (Bool-cases (leb (bw y) (bw x))) [
  | inl e ↦ rw e (h.0, insert_by-All P bw x ys p h.1)
  | inr e ↦ rw e (p, h)
]

All-weaker :
    (bw : ℕ → ℕ) (a b : ℕ) (ys : List ℕ) → a ≤ b → All (λ z. b ≤ bw z) ys → All (λ z. a ≤ bw z) ys
All-weaker bw a b [] le h = tt
All-weaker bw a b (y ∷ ys) le h = (omega (arith, le, h.0), All-weaker bw a b ys le h.1)

insert_by-Sorted : (bw : ℕ → ℕ) (x : ℕ) (ys : List ℕ) → Sorted bw ys → Sorted bw (insert_by bw x ys)
unfolding insert_by
insert_by-Sorted bw x [] s = (tt, tt)
insert_by-Sorted bw x (y ∷ ys) s = elim (Bool-cases (leb (bw y) (bw x))) [
  | inl e ↦
      let le : bw y ≤ bw x = ground (arith, e) in
      rw e (insert_by-All (λ z. bw y ≤ bw z) bw x ys le s.0, insert_by-Sorted bw x ys s.1)
  | inr e ↦
      let le : bw x ≤ bw y = ground (arith, e) in
      rw e ((le, All-weaker bw (bw x) (bw y) ys le s.0), s)
]

length-insert_by : (bw : ℕ → ℕ) (x : ℕ) (ys : List ℕ) → length (insert_by bw x ys) ≡ suc (length ys)
unfolding insert_by
length-insert_by bw x [] = refl
length-insert_by bw x (y ∷ ys) = elim (Bool-cases (leb (bw y) (bw x))) [
  | inl e ↦ rw e (ap suc (length-insert_by bw x ys))
  | inr e ↦ rw e refl
]

-- The list starts with the ids, ascending by their grants.
pub record Gathered (bw : ℕ → ℕ) (ids : List ℕ) (list : List ℕ) : Type 0 where
  pub front : List ℕ
  pub back : List ℕ
  pub parts : list ≡ front ++ back
  pub perm : Perm front ids
  pub sorted : Sorted bw front

gather-onto :
    (ids : List ℕ) (bw : ℕ → ℕ) (body rest : List ℕ) (n : ℕ)
    → n ≡ length body
    → length ids ≤ length rest
    → Sorted bw body
    → Small bw body
    → Small bw ids
    → Gathered bw (body ++ ids) (gather bw (body ++ rest) ids n)
unfolding gather
gather-onto [] bw body rest n size room s small_body small = record {
  front = body;
  back = rest;
  parts = refl;
  perm = subst (λ z. Perm body z) (sym (append-nil body)) (Perm.refl body);
  sorted = s;
}
gather-onto (i ∷ is) bw body [] n size room s small_body small = absurd (omega (arith, room))
gather-onto (i ∷ is) bw body (r ∷ rest) n size room s small_body small =
    let step : dba_sort_bw bw (set (body ++ r ∷ rest) n i) (n + 1) 0 ≡ insert_by bw i body ++ rest =
      ap (λ zs. dba_sort_bw bw zs (n + 1) 0) (set-middle body rest r i n size)
      ∙ dba_sort_bw-insert_by bw [] body rest i (n + 1) 0 (omega (arith, size)) refl s small_body
          small.0 in
    let rest_of =
      gather-onto is bw (insert_by bw i body) rest (n + 1)
        (omega (arith, size, length-insert_by bw i body)) (omega (arith, room))
        (insert_by-Sorted bw i body s)
        (insert_by-All (λ j. bw j < 2 ^ 16) bw i body small.0 small_body) small.1 in
    record {
      front = rest_of.front;
      back = rest_of.back;
      parts = ap (λ zs. gather bw zs is (n + 1)) step ∙ rest_of.parts;
      perm = Perm.trans rest_of.perm (
          Perm.trans (Perm.append_right is (insert_by-perm bw i body))
            (Perm.symm (perm_middle body is)));
      sorted = rest_of.sorted;
    }

-- Up to 128 alloc ids whose grants fit 16 bits, put one after another behind the list of dba_bw_request
-- and sunk by dba_sort_bw, stand at the front of the list ascending by their grants, each as often as it was put.
pub gather-Gathered :
    (bw : ℕ → ℕ) (ids : List ℕ)
    → length ids ≤ 128
    → Small bw ids
    → Gathered bw ids (gather bw (replicate 128 0) ids 0)
gather-Gathered bw ids few small =
    gather-onto ids bw [] (replicate 128 0) 0 refl
      (omega (arith, length-replicate {A = ℕ} 128 0, few)) tt tt small
