-- ===== src/StaQ/Decide.antt =====
-- What sta_q_decide decides, on every branch.
use clanker_npu.Prelude.{
  ℕ, zero, suc, ◌/◌, ◌^◌, ◌≤◌, ◌<◌, ◌≡◌, ◌≢◌, ◌↔◌, arith, Bool, true, false, List, [], ◌∷◌,
  Bool-cases, Option-cases, inl, inr, ap, ◌∙◌, sym, subst, get_or, set, none, some, sub32, add32,
  neg32,
}
use clanker_npu.Util.Isqrt.{npu_isqrt-IsRoot, IsRoot}
use clanker_npu.StaQ.{
  StaQ, Cfg, Settings, Aqm, Verdict, pass, drop_limit, drop_aqm, fault, queue_depth, standing,
  spacing, drop_again, drop_first, drop_standing, space_next, aqm_verdict, standing_verdict, aqm_of,
  put_aqm, sta_q_decide, count_aqm, decide_standing, idle_aqm, idle_probe,
}

-- The drop count is a `u16`, and a dropping state has dropped.
pub record AqmValid (a : Aqm) : Type 0 where
  pub count_in : a.count < 2 ^ 16
  pub dropped : a.dropping ≡ true → 1 ≤ a.count

pub root_pos : (count r : ℕ) → 1 ≤ count → IsRoot count r → r ≢ 0
root_pos count zero one root e = omega (arith, root.above)
root_pos count (suc r) one root e = omega arith

-- The spacing of a count from 1 on divides by a root from 1 on.
spacing-some :
    (interval count : ℕ) → 1 ≤ count → count < 2 ^ 16 → (s : ℕ) × (spacing interval count ≡ some s)
unfolding spacing
spacing-some interval count one small =
    let (r, e, root) = npu_isqrt-IsRoot count (omega arith) in
    (interval / r, rw (e, spacing) (ground (arith, root_pos count r one root)))

pub drop_standing-valid :
    (c : Settings) (a b : Aqm) (now len : ℕ)
    → AqmValid a
    → drop_standing c a now len ≡ some b
    → (1 ≤ b.count) × (b.count < 2 ^ 16) × (b.dropping ≡ true)
unfolding drop_standing drop_again drop_first
drop_standing-valid c a b now len v e = ground arith

standing_verdict-AqmValid :
    (c : Settings) (a : Aqm) (now len : ℕ)
    → AqmValid a
    → ((standing_verdict c a now len).0 ≢ fault) × AqmValid (standing_verdict c a now len).1
unfolding standing_verdict space_next
standing_verdict-AqmValid c a now len v = elim (Option-cases (drop_standing c a now len)) [
  | inl e ↦ rw (e, standing_verdict) (ground arith)
  | inr (b, e) ↦
      let (one, small, dropping) = drop_standing-valid c a b now len v e in
      let (s, spaced) = spacing-some c.interval b.count one small in
      rw (e, standing_verdict) (rw (spaced, space_next) (ground arith))
]

-- The verdict below the limit test never divides by zero, and keeps the drop state valid.
pub aqm_verdict-AqmValid :
    (c : Settings) (above : Bool) (a : Aqm) (now len : ℕ)
    → AqmValid a
    → ((aqm_verdict c above a now len).0 ≢ fault) × AqmValid (aqm_verdict c above a now len).1
unfolding aqm_verdict
aqm_verdict-AqmValid c above a now len v = ground (arith, standing_verdict-AqmValid c a now len v)

-- A full queue drops the frame, whatever the drop state, and changes nothing but the drop count.
pub sta_q_decide-full :
    (c : Cfg) (q : StaQ) (sta now len : ℕ)
    → c.limit ≢ 0
    → c.limit ≤ queue_depth q sta
    → sta_q_decide c q sta now len ≡ (drop_limit, record q { limit_drops = add32 q.limit_drops 1 })
unfolding sta_q_decide
sta_q_decide-full c q sta now len on full = ground arith

-- The conditions under which a standing queue loses a frame.
pub record Drops (c : Settings) (above : Bool) (a : Aqm) (now len : ℕ) : Type 0 where
  pub stands : above ≡ true
  pub stood : a.is_above ≡ true
  pub long_enough : neg32 (sub32 now a.above) ≡ false
  pub not_small : c.small < len
  pub due : a.dropping ≡ true → neg32 (sub32 now a.next) ≡ false

drop_standing-Drops :
    (c : Settings) (a b : Aqm) (now len : ℕ)
    → a.is_above ≡ true
    → drop_standing c a now len ≡ some b
    → Drops c true a now len
unfolding drop_standing
drop_standing-Drops c a b now len stood e = ground arith

Drops-drop_standing :
    (c : Settings) (above : Bool) (a : Aqm) (now len : ℕ)
    → Drops c above a now len
    → drop_standing c a now len ≢ none
unfolding drop_standing
Drops-drop_standing c above a now len d e = ground arith

standing_verdict-Drops :
    (c : Settings) (a : Aqm) (now len : ℕ)
    → a.is_above ≡ true
    → (standing_verdict c a now len).0 ≡ drop_aqm
    → Drops c true a now len
unfolding standing_verdict
standing_verdict-Drops c a now len stood v = elim (Option-cases (drop_standing c a now len)) [
  | inl e ↦ absurd (pass-ne (rw (e, standing_verdict) at v))
  | inr (b, e) ↦ drop_standing-Drops c a b now len stood e
]
  where
    pass-ne : pass ≢ drop_aqm
    pass-ne p = cc

pub aqm_verdict-Drops :
    (c : Settings) (above : Bool) (a : Aqm) (now len : ℕ)
    → (aqm_verdict c above a now len).0 ≡ drop_aqm
    → (above ≡ true) × (a.is_above ≡ true) × ((standing_verdict c a now len).0 ≡ drop_aqm)
unfolding aqm_verdict
aqm_verdict-Drops c above a now len e = ground arith

pub aqm_verdict-standing :
    (c : Settings) (above : Bool) (a : Aqm) (now len : ℕ)
    → above ≡ true
    → a.is_above ≡ true
    → aqm_verdict c above a now len ≡ standing_verdict c a now len
unfolding aqm_verdict
aqm_verdict-standing c above a now len e f = ground arith

standing_verdict-some :
    (c : Settings) (a b : Aqm) (now len : ℕ)
    → AqmValid a
    → drop_standing c a now len ≡ some b
    → (standing_verdict c a now len).0 ≡ drop_aqm
unfolding standing_verdict space_next
standing_verdict-some c a b now len v e =
    let (one, small, dropping) = drop_standing-valid c a b now len v e in
    let (s, spaced) = spacing-some c.interval b.count one small in
    rw (e, standing_verdict) (rw (spaced, space_next))

-- Below the limit a frame is dropped exactly when its queue stands above target, has stood for the
-- interval, the frame is longer than `small`, and the next drop of a dropping state is due.
pub aqm_verdict-iff-Drops :
    (c : Settings) (above : Bool) (a : Aqm) (now len : ℕ)
    → AqmValid a
    → ((aqm_verdict c above a now len).0 ≡ drop_aqm) ↔ Drops c above a now len
aqm_verdict-iff-Drops c above a now len v = (only_if, if_all)
  where
    only_if : (aqm_verdict c above a now len).0 ≡ drop_aqm → Drops c above a now len
    only_if e =
        let (stands, stood, tail) = aqm_verdict-Drops c above a now len e in
        subst (λ b. Drops c b a now len) (sym stands)
          (standing_verdict-Drops c a now len stood tail)

    if_all : Drops c above a now len → (aqm_verdict c above a now len).0 ≡ drop_aqm
    if_all d = elim (Option-cases (drop_standing c a now len)) [
      | inl e ↦ absurd (Drops-drop_standing c above a now len d e)
      | inr (b, e) ↦
          ap (λ o. o.0) (aqm_verdict-standing c above a now len d.stands d.stood)
          ∙ standing_verdict-some c a b now len v e
    ]

-- The drop states of all stations are valid.
pub record AllValid (q : StaQ) : Type 0 where
  pub wire : (sta : ℕ) → AqmValid (get_or q.aqm sta idle_aqm)
  pub host : (sta : ℕ) → AqmValid (get_or q.aqm_host sta idle_aqm)

aqm_of-AqmValid : (c : Cfg) (q : StaQ) (sta : ℕ) → AllValid q → AqmValid (aqm_of c q sta)
unfolding aqm_of
aqm_of-AqmValid c q sta v = elim (Bool-cases c.host) [
  | inl e ↦ rw e (v.host sta)
  | inr e ↦ rw e (v.wire sta)
]

set-valid :
    (t : List Aqm) (sta : ℕ) (a : Aqm)
    → ((j : ℕ) → AqmValid (get_or t j idle_aqm))
    → AqmValid a
    → (j : ℕ) → AqmValid (get_or (set t sta a) j idle_aqm)
set-valid [] sta a all v j = all j
set-valid (x ∷ t) zero a all v zero = v
set-valid (x ∷ t) zero a all v (suc j) = all (suc j)
set-valid (x ∷ t) (suc sta) a all v zero = all zero
set-valid (x ∷ t) (suc sta) a all v (suc j) = set-valid t sta a (λ i. all (suc i)) v j

put_aqm-AllValid :
    (c : Cfg) (q : StaQ) (sta : ℕ) (a : Aqm)
    → AllValid q
    → AqmValid a
    → AllValid (put_aqm c q sta a)
unfolding put_aqm
put_aqm-AllValid c q sta a v va = elim (Bool-cases c.host) [
  | inl e ↦ rw e (record { wire = v.wire; host = set-valid q.aqm_host sta a v.host va })
  | inr e ↦ rw e (record { wire = set-valid q.aqm sta a v.wire va; host = v.host })
]

count_aqm-AllValid : (v : Verdict) (q : StaQ) → AllValid q → AllValid (count_aqm v q)
unfolding count_aqm
count_aqm-AllValid pass q h = h
count_aqm-AllValid drop_limit q h = h
count_aqm-AllValid drop_aqm q h = record { wire = h.wire; host = h.host }
count_aqm-AllValid fault q h = h

decide_standing-total :
    (c : Cfg) (q : StaQ) (sta now len : ℕ)
    → AllValid q
    → ((decide_standing c q sta now len).0 ≢ fault) × AllValid (decide_standing c q sta now len).1
unfolding decide_standing
decide_standing-total c q sta now len v =
    let s = standing c.settings (queue_depth q sta) (get_or q.probe sta idle_probe) now in
    let (sound, valid) =
      aqm_verdict-AqmValid c.settings s.0 (aqm_of c q sta) now len (aqm_of-AqmValid c q sta v) in
    (
      sound,
      count_aqm-AllValid _ _
          (put_aqm-AllValid c _ sta _ (record { wire = v.wire; host = v.host }) valid),
    )

-- sta_q_decide never divides by zero, for any snapshot, station, time and length, and keeps the
-- drop states valid for the next call.
pub sta_q_decide-total :
    (c : Cfg) (q : StaQ) (sta now len : ℕ)
    → AllValid q
    → ((sta_q_decide c q sta now len).0 ≢ fault) × AllValid (sta_q_decide c q sta now len).1
unfolding sta_q_decide
sta_q_decide-total c q sta now len v =
    ground (arith, decide_standing-total c q sta now len v, v.wire, v.host)
