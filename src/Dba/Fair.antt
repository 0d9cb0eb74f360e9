-- ===== src/Dba/Fair.antt =====
-- npu_dba.c: the share that dba_budget_calc gives to each of the T-CONTs that share.
use clanker_npu.Prelude.{
  ℕ, ◌+◌, ◌-◌, ◌*◌, ◌/◌, ◌^◌, ◌<◌, ◌≤◌, ◌≡◌, refl, sym, arith, false, ltb, ◌==◌, Bool-cases, inl,
  inr, u16, sub32, neg32, subst, ◌⊎◌, ltb→le, ltb→lt,
}
use native.Mathlib.Nat.{div-mul-le_self, lt-div-mul-add, div-le_self}
use clanker_npu.Dba.Budget.{fair_share}

-- The share of n T-CONTs in what `total` leaves beside `sure`.
pub record Split (total sure n share : ℕ) : Type 0 where
  pub no_rest : total ≤ sure → share ≡ 0
  pub enough : sure ≤ total → sure + share * n ≤ total
  pub most : sure ≤ total → 0 < n → total < sure + share * n + n

no_share-Split : (total sure n : ℕ) → total ≤ sure ⊎ n ≡ 0 → Split total sure n 0
no_share-Split total sure n (inl h) = record {
  no_rest = λ e. refl;
  enough = λ e. omega (arith, e);
  most = λ e p. omega (arith, h, e, p);
}
no_share-Split total sure n (inr h) = record {
  no_rest = λ e. refl;
  enough = λ e. omega (arith, e);
  most = λ e p. absurd (omega (arith, h, p));
}

share-Split : (total sure n : ℕ) → sure < total → 0 < n → Split total sure n ((total - sure) / n)
share-Split total sure n h p =
    let below = div-mul-le_self (total - sure) n in
    let above = lt-div-mul-add {a = total - sure} {b = n} p in
    record {
      no_rest = λ e. absurd (omega (arith, h, e));
      enough = λ e. omega (arith, e, below);
      most = λ e q. omega (arith, e, above);
    }

fair_share-none :
    (total sure n : ℕ)
    → total < 2 ^ 16
    → sure < 2 ^ 31
    → total ≤ sure ⊎ n ≡ 0
    → fair_share (sub32 total sure) n ≡ 0
unfolding fair_share
fair_share-none total sure n a b (inl h) = ground (arith, a, b, h)
fair_share-none total sure n a b (inr h) = ground (arith, a, b, h)

fair_share-some :
    (total sure n : ℕ)
    → total < 2 ^ 16
    → sure < total
    → 0 < n
    → fair_share (sub32 total sure) n ≡ (total - sure) / n
unfolding fair_share
fair_share-some total sure n a h p =
    let rest : sub32 total sure ≡ total - sure = omega (arith, a, h) in
    let small = div-le_self (total - sure) n in
    let word : u16 ((total - sure) / n) ≡ (total - sure) / n = omega (arith, a, small) in
    let plus : neg32 (total - sure) ≡ false = ground (arith, a, h) in
    let not_zero : (total - sure == 0) ≡ false = ground (arith, h) in
    let some_n : (n == 0) ≡ false = ground (arith, p) in rw (rest, plus, not_zero, some_n) word

pub fair_share-Split :
    (total sure n : ℕ)
    → total < 2 ^ 16
    → sure < 2 ^ 31
    → Split total sure n (fair_share (sub32 total sure) n)
fair_share-Split total sure n a b = elim (Bool-cases (ltb sure total)) [
  | inr e ↦
      let full : total ≤ sure ⊎ n ≡ 0 = inl (ltb→le sure total e) in
      subst (Split total sure n) (sym (fair_share-none total sure n a b full))
        (no_share-Split total sure n full)
  | inl e ↦ elim (Bool-cases (n == 0)) [
    | inl f ↦
        let nobody : total ≤ sure ⊎ n ≡ 0 = inr (ground (arith, f)) in
        subst (Split total sure n) (sym (fair_share-none total sure n a b nobody))
          (no_share-Split total sure n nobody)
    | inr f ↦
        let less : sure < total = ltb→lt sure total e in
        let some_n : 0 < n = ground (arith, f) in
        subst (Split total sure n) (sym (fair_share-some total sure n a less some_n))
          (share-Split total sure n less some_n)
  ]
]
