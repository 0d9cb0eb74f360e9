-- ===== src/StaQ/Rate.antt =====
-- How far apart the drops of a standing queue are.
use clanker_npu.Prelude.{
  ℕ, ◌+◌, ◌/◌, ◌≡◌, ◌≢◌, arith, Bool, true, false, not, ◌&&◌, if◌then◌else◌, Option-cases, inl, inr,
  ap, ◌==◌, ltb, some, sub32, sub16, add32, mul32, slt32,
}
use clanker_npu.Util.Isqrt.{npu_isqrt-IsRoot, IsRoot}
use clanker_npu.StaQ.{
  Settings, Aqm, pass, drop_aqm, spacing, drop_again, drop_first, drop_standing, space_next,
  aqm_verdict, standing_verdict,
}
use clanker_npu.StaQ.Decide.{
  AqmValid, root_pos, drop_standing-valid, aqm_verdict-Drops, aqm_verdict-standing,
}

-- Where the next spacing starts: from the planned drop, or from now where that is over an interval
-- late or a dropping state begins.
abbrev pub drop_base : Settings → Aqm → ℕ → ℕ
drop_base c a now = if a.dropping && not (slt32 c.interval (sub32 now a.next)) then a.next else now

-- The drop count after a drop: one more, up to the width, or the rate of a recent dropping state.
abbrev pub drop_count : Settings → Aqm → ℕ → ℕ
drop_count c a now =
    let n = sub16 a.count a.last in
    if a.dropping
    then (if a.count == 0xFFFF then a.count else a.count + 1)
    else if ltb 1 n && slt32 (sub32 now a.next) (mul32 16 c.interval)
    then n
    else 1

-- A drop state after a drop at `now`.
pub record Spaced (c : Settings) (a : Aqm) (now : ℕ) (a' : Aqm) : Type 0 where
  pub root : ℕ
  pub is_root : IsRoot a'.count root
  pub count : a'.count ≡ drop_count c a now
  pub next : a'.next ≡ add32 (drop_base c a now) (c.interval / root)
  pub dropping : a'.dropping ≡ true

drop_standing-base :
    (c : Settings) (a b : Aqm) (now len : ℕ)
    → drop_standing c a now len ≡ some b
    → (b.next ≡ drop_base c a now) × (b.count ≡ drop_count c a now)
unfolding drop_standing drop_again drop_first
drop_standing-base c a b now len e = ground arith

space_next-Spaced :
    (c : Settings) (a b : Aqm) (now len : ℕ)
    → AqmValid a
    → drop_standing c a now len ≡ some b
    → (b' : Aqm) × (space_next c b ≡ some b') × Spaced c a now b'
unfolding space_next spacing
space_next-Spaced c a b now len v e =
    let (one, small, dropping) = drop_standing-valid c a b now len v e in
    let (r, got, root) = npu_isqrt-IsRoot b.count (omega arith) in
    let (base, count) = drop_standing-base c a b now len e in
    let pos : (r == 0) ≡ false = ground (arith, root_pos b.count r one root) in
    (
      record b { next = add32 b.next (c.interval / r) },
      rw (got, space_next) (rw pos),
      record {
        root = r;
        is_root = root;
        count = count;
        next = ap (λ n. add32 n (c.interval / r)) base;
        dropping = dropping;
      },
    )

standing_verdict-Spaced :
    (c : Settings) (a : Aqm) (now len : ℕ)
    → AqmValid a
    → (standing_verdict c a now len).0 ≡ drop_aqm
    → Spaced c a now (standing_verdict c a now len).1
unfolding standing_verdict
standing_verdict-Spaced c a now len v e = elim (Option-cases (drop_standing c a now len)) [
  | inl none_left ↦ absurd (pass-ne (rw (none_left, standing_verdict) at e))
  | inr (b, some_b) ↦
      let (b', spaced, s) = space_next-Spaced c a b now len v some_b in
      rw (some_b, standing_verdict) (rw spaced s)
]
  where
    pass-ne : pass ≢ drop_aqm
    pass-ne p = cc

-- After a drop the next one is planned interval / √count later, where √count is the floor of the
-- square root of the new drop count.
pub aqm_verdict-Spaced :
    (c : Settings) (above : Bool) (a : Aqm) (now len : ℕ)
    → AqmValid a
    → (aqm_verdict c above a now len).0 ≡ drop_aqm
    → Spaced c a now (aqm_verdict c above a now len).1
aqm_verdict-Spaced c above a now len v e =
    let (stands, stood, tail) = aqm_verdict-Drops c above a now len e in
    rw (aqm_verdict-standing c above a now len stands stood)
      (standing_verdict-Spaced c a now len v tail)
