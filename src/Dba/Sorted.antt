-- ===== src/Dba/Sorted.antt =====
-- npu_dba.c: dba_sort_bw sinks one entry into a sorted list.
use clanker_npu.Prelude.{
  ℕ, zero, suc, ◌+◌, ◌^◌, ◌<◌, ◌≤◌, ◌≡◌, refl, sym, ap, ◌∙◌, arith, true, false, List, [], ◌∷◌,
  ◌++◌, if◌then◌else◌, leb, Bool-cases, inl, inr, length, length-append, get_or, set, slt32, All,
  subst,
}
use mathlib.Core.List.{append_assoc}
use clanker_npu.Dba.Sort.{sink}

pub get_or-middle : (xs ys : List ℕ) (y : ℕ) (i : ℕ) → i ≡ length xs → get_or (xs ++ y ∷ ys) i 0 ≡ y
get_or-middle [] ys y i h = rw h refl
get_or-middle (x ∷ xs) ys y i h = rw h (get_or-middle xs ys y (length xs) refl)

pub set-middle :
    (xs ys : List ℕ) (y v i : ℕ) → i ≡ length xs → set (xs ++ y ∷ ys) i v ≡ xs ++ v ∷ ys
set-middle [] ys y v i h = rw h refl
set-middle (x ∷ xs) ys y v i h = rw h (ap (λ zs. x ∷ zs) (set-middle xs ys y v (length xs) refl))

-- The insertion of an id into a list by the grants, behind those with no more.
unfoldable pub insert_by : (ℕ → ℕ) → ℕ → List ℕ → List ℕ
insert_by bw x [] = x ∷ []
insert_by bw x (y ∷ ys) =
    let rest = insert_by bw x ys in if leb (bw y) (bw x) then y ∷ rest else x ∷ y ∷ ys

insert_by-above :
    (bw : ℕ → ℕ) (x y : ℕ) (ys : List ℕ)
    → bw x < bw y
    → insert_by bw x (ys ++ y ∷ []) ≡ insert_by bw x ys ++ y ∷ []
unfolding insert_by
insert_by-above bw x y [] h = let e : leb (bw y) (bw x) ≡ false = ground (arith, h) in rw e refl
insert_by-above bw x y (z ∷ zs) h = elim (Bool-cases (leb (bw z) (bw x))) [
  | inl e ↦ rw (e, insert_by-above bw x y zs h) refl
  | inr e ↦ rw e refl
]

insert_by-last :
    (bw : ℕ → ℕ) (x : ℕ) (ys : List ℕ)
    → All (λ y. bw y ≤ bw x) ys
    → insert_by bw x ys ≡ ys ++ x ∷ []
unfolding insert_by
insert_by-last bw x [] h = refl
insert_by-last bw x (y ∷ ys) h =
    let e : leb (bw y) (bw x) ≡ true = ground (arith, h.0) in
    rw (e, insert_by-last bw x ys h.1) refl

All-parts : (P : ℕ → Type 0) (xs ys : List ℕ) → All P (xs ++ ys) → All P xs × All P ys
All-parts P [] ys h = (tt, h)
All-parts P (x ∷ xs) ys h = let rest = All-parts P xs ys h.1 in ((h.0, rest.0), rest.1)

-- Ascending by the grants.
abbrev pub Sorted : (ℕ → ℕ) → List ℕ → Type 0
Sorted bw [] = Unit
Sorted bw (y ∷ ys) = All (λ z. bw y ≤ bw z) ys × Sorted bw ys

All-below-end :
    (bw : ℕ → ℕ) (ys : List ℕ) (y x : ℕ)
    → Sorted bw (ys ++ y ∷ [])
    → bw y ≤ bw x
    → All (λ z. bw z ≤ bw x) (ys ++ y ∷ [])
All-below-end bw [] y x s h = (h, tt)
All-below-end bw (z ∷ zs) y x s h =
    let last = (All-parts (λ w. bw z ≤ bw w) zs (y ∷ []) s.0).1 in
    (omega (arith, last.0, h), All-below-end bw zs y x s.1 h)

Sorted-front : (bw : ℕ → ℕ) (ys : List ℕ) (y : ℕ) → Sorted bw (ys ++ y ∷ []) → Sorted bw ys
Sorted-front bw [] y s = tt
Sorted-front bw (z ∷ zs) y s =
    ((All-parts (λ w. bw z ≤ bw w) zs (y ∷ []) s.0).0, Sorted-front bw zs y s.1)

-- A list that is not empty has a last entry.
pub record Ends (xs : List ℕ) (k : ℕ) : Type 0 where
  pub front : List ℕ
  pub last : ℕ
  pub parts : xs ≡ front ++ last ∷ []
  pub size : length front ≡ k

ends : (k : ℕ) (xs : List ℕ) → length xs ≡ suc k → Ends xs k
ends k [] h = absurd (omega (arith, h))
ends zero (x ∷ []) h = record { front = []; last = x; parts = refl; size = refl }
ends (suc k) (x ∷ []) h = absurd (omega (arith, h))
ends zero (x ∷ y ∷ xs) h = absurd (omega (arith, h))
ends (suc k) (x ∷ y ∷ xs) h =
    let e = ends k (y ∷ xs) (omega (arith, h)) in
    record {
      front = x ∷ e.front;
      last = e.last;
      parts = ap (λ zs. x ∷ zs) e.parts;
      size = ap suc e.size;
    }

sink-stays :
    (bw : ℕ → ℕ) (start last key k : ℕ) (list : List ℕ) (y : ℕ)
    → get_or list (start + k) 0 ≡ y
    → slt32 key (bw y) ≡ false
    → sink bw start last key (suc k) list ≡ list
unfolding sink
sink-stays bw start last key k list y at e = rw (at, e) refl

sink-moves :
    (bw : ℕ → ℕ) (start last key k : ℕ) (list : List ℕ) (y : ℕ)
    → get_or list (start + k) 0 ≡ y
    → slt32 key (bw y) ≡ true
    → sink bw start last key (suc k) list
      ≡ sink bw start last key k (set (set list (start + k + 1) y) (start + k) last)
unfolding sink
sink-moves bw start last key k list y at e = rw (at, e) refl

-- Two entries change places.
swapped :
    (xs ys : List ℕ) (y x i : ℕ)
    → i ≡ length xs
    → set (set (xs ++ y ∷ x ∷ ys) (i + 1) y) i x ≡ xs ++ x ∷ y ∷ ys
swapped xs ys y x i h =
    let first : set (xs ++ y ∷ x ∷ ys) (i + 1) y ≡ xs ++ y ∷ y ∷ ys =
      ap (λ zs. set zs (i + 1) y) (sym (append_assoc xs (y ∷ []) (x ∷ ys)))
      ∙ (set-middle (xs ++ y ∷ []) ys x y (i + 1) (omega (arith, h, length-append xs (y ∷ [])))
          ∙ append_assoc xs (y ∷ []) (y ∷ ys)) in
    ap (λ zs. set zs i x) first ∙ set-middle xs (y ∷ ys) y x i h

-- Grants in the range in which the 16-bit key and the signed comparison agree with the numbers.
abbrev pub Small : (ℕ → ℕ) → List ℕ → Type 0
Small bw ids = All (λ i. bw i < 2 ^ 16) ids

regroup :
    (pre front post : List ℕ) (y x : ℕ)
    → pre ++ ((front ++ y ∷ []) ++ x ∷ post) ≡ (pre ++ front) ++ y ∷ x ∷ post
regroup pre front post y x =
    ap (λ zs. pre ++ zs) (append_assoc front (y ∷ []) (x ∷ post))
    ∙ sym (append_assoc pre front (y ∷ x ∷ post))

pub sink-insert_by :
    (k start : ℕ) (bw : ℕ → ℕ) (pre body post : List ℕ) (x : ℕ)
    → length pre ≡ start
    → length body ≡ k
    → Sorted bw body
    → Small bw body
    → bw x < 2 ^ 16
    → sink bw start x (bw x) k (pre ++ (body ++ x ∷ post)) ≡ pre ++ (insert_by bw x body ++ post)
unfolding sink insert_by
sink-insert_by zero start bw pre [] post x at size s small key = refl
sink-insert_by zero start bw pre (y ∷ ys) post x at size s small key = absurd (omega (arith, size))
sink-insert_by (suc k) start bw pre body post x at size s small key =
    let e = ends k body size in
    let y = e.last in
    let front = e.front in
    let sorted : Sorted bw (front ++ y ∷ []) = subst (Sorted bw) e.parts s in
    let little = All-parts (λ i. bw i < 2 ^ 16) front (y ∷ []) (subst (Small bw) e.parts small) in
    let place : start + k ≡ length (pre ++ front) =
      omega (arith, at, e.size, length-append pre front) in
    let list = (pre ++ front) ++ y ∷ x ∷ post in
    let whole : pre ++ (body ++ x ∷ post) ≡ list =
      ap (λ b. pre ++ (b ++ x ∷ post)) e.parts ∙ regroup pre front post y x in
    let reads = get_or-middle (pre ++ front) (x ∷ post) y (start + k) place in
    ap (sink bw start x (bw x) (suc k)) whole ∙ (elim (Bool-cases (slt32 (bw x) (bw y))) [
      | inl lt ↦
          let above : bw x < bw y = ground (arith, lt, little.1.0, key) in
          sink-moves bw start x (bw x) k list y reads lt
          ∙ (ap (sink bw start x (bw x) k) (
                swapped (pre ++ front) post y x (start + k) place
                ∙ append_assoc pre front (x ∷ y ∷ post))
              ∙ (sink-insert_by k start bw pre front (y ∷ post) x at e.size
                    (Sorted-front bw front y sorted) little.0 key
                  ∙ ap (λ zs. pre ++ zs)
                      (sym (append_assoc (insert_by bw x front) (y ∷ []) post)
                        ∙ (ap (λ zs. zs ++ post) (sym (insert_by-above bw x y front above))
                            ∙ ap (λ b. insert_by bw x b ++ post) (sym e.parts)))))
      | inr ge ↦
          let below : bw y ≤ bw x = ground (arith, ge, little.1.0, key) in
          let stays : insert_by bw x (front ++ y ∷ []) ≡ (front ++ y ∷ []) ++ x ∷ [] =
            insert_by-last bw x (front ++ y ∷ []) (All-below-end bw front y x sorted below) in
          sink-stays bw start x (bw x) k list y reads ge
          ∙ (sym (regroup pre front post y x)
              ∙ ap (λ zs. pre ++ zs)
                  (sym (append_assoc (front ++ y ∷ []) (x ∷ []) post)
                    ∙ ap (λ zs. zs ++ post) (sym stays ∙ ap (insert_by bw x) (sym e.parts))))
    ])
