-- ===== src/Dba/Sums.antt =====
-- npu_dba.c: the two loops of dba_budget_calc compute the sums.
use clanker_npu.Prelude.{
  ℕ, suc, ◌+◌, ◌*◌, ◌%◌, ◌^◌, ◌<◌, ◌≡◌, refl, sym, ap, ◌∙◌, arith, Bool, true, false, ◌&&◌, List,
  [], ◌∷◌, if◌then◌else◌, ◌==◌, Bool-cases, inl, inr, bit_or, u8, u16,
}
use clanker_npu.Dba.{Map, TcontCfg, Alloc, valid, count_up}
use clanker_npu.Dba.Budget.{Sums, add_tcont, sum_onu, sum_all}
use clanker_npu.Dba.Shares.{
  guaranteed, shares, onu_bytes, onu_shares, onu_active, all_bytes, all_shares, active, fec_onus,
}

add_tcont-sums :
    (c : TcontCfg) (s : Sums)
    → valid c ≡ true
    → (((add_tcont c s).sum % 2 ^ 32 ≡ (s.sum + guaranteed c) % 2 ^ 32)
        × ((add_tcont c s).cnt % 2 ^ 16 ≡ (s.cnt + (if shares c then 1 else 0)) % 2 ^ 16))
      × (((add_tcont c s).n_act ≡ s.n_act) × ((add_tcont c s).n_full ≡ s.n_full))
unfolding add_tcont guaranteed shares
add_tcont-sums c s h =
    ((ground (arith, h), ground (arith, h)), (ground (arith, h), ground (arith, h)))

pub record OnuSums (m : Map) (ctx : ℕ → Alloc) (onu : ℕ) (first : Bool) (ts : List ℕ) (s out : Sums)
    : Type 0 where
  pub sum : out.sum % 2 ^ 32 ≡ (s.sum + onu_bytes m ctx onu ts) % 2 ^ 32
  pub cnt : out.cnt % 2 ^ 16 ≡ (s.cnt + onu_shares m ctx onu ts) % 2 ^ 16
  pub n_act :
      out.n_act % 2 ^ 8 ≡ (s.n_act + (if first && onu_active m ctx onu ts then 1 else 0)) % 2 ^ 8
  pub n_full : out.n_full ≡ s.n_full

abbrev counted : Bool → Sums → Sums
counted first s = if first then record s { n_act = u8 (s.n_act + 1) } else s

counted-same :
    (first : Bool) (s : Sums)
    → (((counted first s).sum ≡ s.sum) × ((counted first s).cnt ≡ s.cnt))
      × (((counted first s).n_full ≡ s.n_full)
          × ((counted first s).n_act % 2 ^ 8 ≡ (s.n_act + (if first then 1 else 0)) % 2 ^ 8))
counted-same true s = ((refl, refl), (refl, omega arith))
counted-same false s = ((refl, refl), (refl, omega arith))

no_more : (first : Bool) (k : ℕ) → k % 2 ^ 8 ≡ (k + (if first && false then 1 else 0)) % 2 ^ 8
no_more true k = omega arith
no_more false k = omega arith

-- A valid T-CONT, with the others of its ONU.
take-OnuSums :
    (m : Map) (ctx : ℕ → Alloc) (onu t : ℕ) (first : Bool) (ts : List ℕ) (s out : Sums)
    → valid (ctx (u16 (bit_or onu (t * 2 ^ m.idx_shift)))).cfg ≡ true
    → OnuSums m ctx onu false ts
        (add_tcont (ctx (u16 (bit_or onu (t * 2 ^ m.idx_shift)))).cfg (counted first s))
        out
    → OnuSums m ctx onu first (t ∷ ts) s out
unfolding onu_bytes onu_shares onu_active
take-OnuSums m ctx onu t first ts s out e rest =
    let c = (ctx (u16 (bit_or onu (t * 2 ^ m.idx_shift)))).cfg in
    let same = counted-same first s in
    let step = add_tcont-sums c (counted first s) e in
    record {
      sum = omega (arith, rest.sum, step.0.0, same.0.0);
      cnt = elim (Bool-cases (shares c)) [
        | inl f ↦
            let one : (add_tcont c (counted first s)).cnt % 2 ^ 16
                ≡ ((counted first s).cnt + 1) % 2 ^ 16 =
              step.0.1 ∙ ap (λ b. ((counted first s).cnt + (if b then 1 else 0)) % 2 ^ 16) f in
            rw f (omega (arith, rest.cnt, one, same.0.1))
        | inr f ↦
            let none_more : (add_tcont c (counted first s)).cnt % 2 ^ 16
                ≡ ((counted first s).cnt + 0) % 2 ^ 16 =
              step.0.1 ∙ ap (λ b. ((counted first s).cnt + (if b then 1 else 0)) % 2 ^ 16) f in
            rw f (omega (arith, rest.cnt, none_more, same.0.1))
      ];
      n_act =
          rest.n_act
          ∙ (sym (no_more true (add_tcont c (counted first s)).n_act)
              ∙ (ap (λ k. k % 2 ^ 8) step.1.0
                  ∙ (same.1.1
                      ∙ rw e (ap (λ b. (s.n_act + (if b then 1 else 0)) % 2 ^ 8) (both first)))));
      n_full = rest.n_full ∙ (step.1.1 ∙ same.1.0);
    }
  where
    both : (b : Bool) → b ≡ (b && true)
    both true = refl
    both false = refl

skip-OnuSums :
    (m : Map) (ctx : ℕ → Alloc) (onu t : ℕ) (first : Bool) (ts : List ℕ) (s out : Sums)
    → valid (ctx (u16 (bit_or onu (t * 2 ^ m.idx_shift)))).cfg ≡ false
    → OnuSums m ctx onu first ts s out
    → OnuSums m ctx onu first (t ∷ ts) s out
unfolding onu_bytes onu_shares onu_active guaranteed shares
skip-OnuSums m ctx onu t first ts s out e rest = record {
  sum = rw e (omega (arith, rest.sum));
  cnt = rw e rest.cnt;
  n_act = rw e rest.n_act;
  n_full = rest.n_full;
}

pub sum_onu-OnuSums :
    (ts : List ℕ) (m : Map) (ctx : ℕ → Alloc) (onu : ℕ) (first : Bool) (s : Sums)
    → OnuSums m ctx onu first ts s (sum_onu m ctx onu first ts s)
unfolding sum_onu onu_bytes onu_shares onu_active
sum_onu-OnuSums [] m ctx onu first s = record {
  sum = omega arith;
  cnt = omega arith;
  n_act = no_more first s.n_act;
  n_full = refl;
}
sum_onu-OnuSums (t ∷ ts) m ctx onu first s =
    let c = (ctx (u16 (bit_or onu (t * 2 ^ m.idx_shift)))).cfg in
    elim (Bool-cases (valid c)) [
      | inl e ↦ rw e (
          take-OnuSums m ctx onu t first ts s _ e
            (sum_onu-OnuSums ts m ctx onu false (add_tcont c (counted first s))))
      | inr e ↦
          rw e (skip-OnuSums m ctx onu t first ts s _ e (sum_onu-OnuSums ts m ctx onu first s))
    ]

-- The sums are words.
pub record Words (s : Sums) : Type 0 where
  pub sum : s.sum < 2 ^ 32
  pub cnt : s.cnt < 2 ^ 16
  pub n_act : s.n_act < 2 ^ 8
  pub n_full : s.n_full < 2 ^ 8

add_tcont-Words : (c : TcontCfg) (s : Sums) → Words s → Words (add_tcont c s)
unfolding add_tcont
add_tcont-Words c s h = record {
  sum = ground (arith, h.sum);
  cnt = ground (arith, h.cnt);
  n_act = ground (arith, h.n_act);
  n_full = ground (arith, h.n_full);
}

counted-Words : (first : Bool) (s : Sums) → Words s → Words (counted first s)
counted-Words true s h = record { sum = h.sum; cnt = h.cnt; n_act = omega arith; n_full = h.n_full }
counted-Words false s h = h

sum_onu-Words :
    (ts : List ℕ) (m : Map) (ctx : ℕ → Alloc) (onu : ℕ) (first : Bool) (s : Sums)
    → Words s
    → Words (sum_onu m ctx onu first ts s)
unfolding sum_onu
sum_onu-Words [] m ctx onu first s h = h
sum_onu-Words (t ∷ ts) m ctx onu first s h =
    let c = (ctx (u16 (bit_or onu (t * 2 ^ m.idx_shift)))).cfg in
    elim (Bool-cases (valid c)) [
      | inl e ↦ rw e (
          sum_onu-Words ts m ctx onu false (add_tcont c (counted first s))
            (add_tcont-Words c (counted first s) (counted-Words first s h)))
      | inr e ↦ rw e (sum_onu-Words ts m ctx onu first s h)
    ]

-- The sums over some ONUs.
pub record AllSums (m : Map) (ctx : ℕ → Alloc) (onus : List ℕ) (s out : Sums) : Type 0 where
  pub sum : out.sum % 2 ^ 32 ≡ (s.sum + all_bytes m ctx onus) % 2 ^ 32
  pub cnt : out.cnt % 2 ^ 16 ≡ (s.cnt + all_shares m ctx onus) % 2 ^ 16
  pub n_act : out.n_act % 2 ^ 8 ≡ (s.n_act + active m ctx onus) % 2 ^ 8
  pub n_full : out.n_full % 2 ^ 8 ≡ (s.n_full + fec_onus ctx onus) % 2 ^ 8
  pub words : Words out

abbrev with_fec : Bool → Sums → Sums
with_fec fec s = if fec then record s { n_full = u8 (s.n_full + 1) } else s

with_fec-same :
    (fec : Bool) (s : Sums)
    → (((with_fec fec s).sum ≡ s.sum) × ((with_fec fec s).cnt ≡ s.cnt))
      × (((with_fec fec s).n_act ≡ s.n_act)
          × ((with_fec fec s).n_full % 2 ^ 8 ≡ (s.n_full + (if fec then 1 else 0)) % 2 ^ 8))
with_fec-same true s = ((refl, refl), (refl, omega arith))
with_fec-same false s = ((refl, refl), (refl, omega arith))

with_fec-Words : (fec : Bool) (s : Sums) → Words s → Words (with_fec fec s)
with_fec-Words true s h = record { sum = h.sum; cnt = h.cnt; n_act = h.n_act; n_full = omega arith }
with_fec-Words false s h = h

if-suc : (b : Bool) (k : ℕ) → (if b then suc k else k) ≡ (if b then 1 else 0) + k
if-suc true k = omega arith
if-suc false k = omega arith

more-AllSums :
    (m : Map) (ctx : ℕ → Alloc) (onu : ℕ) (onus : List ℕ) (s mid out : Sums)
    → OnuSums m ctx onu true (count_up 0 m.n_tc) (with_fec ((ctx onu).cfg.flags % 2 ^ 2 == 3) s) mid
    → AllSums m ctx onus mid out
    → AllSums m ctx (onu ∷ onus) s out
unfolding all_bytes all_shares active fec_onus
more-AllSums m ctx onu onus s mid out one rest =
    let fec = (ctx onu).cfg.flags % 2 ^ 2 == 3 in
    let on = onu_active m ctx onu (count_up 0 m.n_tc) in
    let same = with_fec-same fec s in
    record {
      sum = omega (arith, one.sum, rest.sum, same.0.0);
      cnt = omega (arith, one.cnt, rest.cnt, same.0.1);
      n_act = omega (arith, one.n_act, rest.n_act, same.1.0, if-suc on (active m ctx onus));
      n_full = omega (arith, one.n_full, rest.n_full, same.1.1, if-suc fec (fec_onus ctx onus));
      words = rest.words;
    }

pub sum_all-AllSums :
    (onus : List ℕ) (m : Map) (ctx : ℕ → Alloc) (s : Sums)
    → Words s
    → AllSums m ctx onus s (sum_all m ctx onus s)
unfolding sum_all all_bytes all_shares active fec_onus
sum_all-AllSums [] m ctx s h = record {
  sum = omega arith;
  cnt = omega arith;
  n_act = omega arith;
  n_full = omega arith;
  words = h;
}
sum_all-AllSums (onu ∷ onus) m ctx s h =
    let full = with_fec ((ctx onu).cfg.flags % 2 ^ 2 == 3) s in
    let ts = count_up 0 m.n_tc in
    let mid = sum_onu m ctx onu true ts full in
    let words = with_fec-Words ((ctx onu).cfg.flags % 2 ^ 2 == 3) s h in
    more-AllSums m ctx onu onus s mid _ (sum_onu-OnuSums ts m ctx onu true full)
      (sum_all-AllSums onus m ctx mid (sum_onu-Words ts m ctx onu true full words))
