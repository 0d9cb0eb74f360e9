-- ===== src/Dba/Reports.antt =====
-- npu_dba.c: the upstream reports. An alloc id keeps two of them, in the slots that `ring_idx` names.
use clanker_npu.Prelude.{
  ℕ, zero, suc, ◌+◌, ◌*◌, ◌/◌, ◌%◌, ◌^◌, ◌<◌, ◌≡◌, refl, arith, Bool, List, [], ◌∷◌, ◌++◌,
  if◌then◌else◌, ltb, ◌==◌, Bool-cases, inl, inr, bit_and, bit_or, u8, u16, add32,
}
use clanker_npu.Fwd.{put_at}
use clanker_npu.Dba.{dba_aid_conv, Rpt, Alloc}

pub dba_rpt_push : Alloc → Rpt → Alloc
dba_rpt_push a r =
    let rd = a.ring_idx % 2 ^ 4 in
    let next = a.ring_idx / 2 ^ 4 % 2 ^ 4 + 1 in
    let wr = if next == 2 then 0 else next in
    let oldest = if wr == rd then (if rd + 1 == 2 then 0 else rd + 1) % 2 ^ 4 else rd in
    record a { ring = put_at a.ring wr r; ring_idx = bit_or oldest (wr % 2 ^ 4 * 2 ^ 4) }

-- struct dba_hw_rpt; `word` has the dbru in bits 14:0 and the alloc id in bits 26:15.
pub record HwRpt : Type 0 where
  pub non_idle : ℕ
  pub bwmap_byte : ℕ
  pub word : ℕ

-- The test of dba_rpt_store for a report without an alloc id.
pub no_alloc : HwRpt → Bool
no_alloc h = bit_and h.word 0x7FF8000 == 0x7F8000

pub report_index : ℕ → HwRpt → ℕ
report_index mode h = u8 (dba_aid_conv (u16 (h.word / 2 ^ 15 % 2 ^ 12)) 0 mode 2)

pub report_of : HwRpt → Rpt
report_of h = record { non_idle = h.non_idle; bwmap_byte = h.bwmap_byte; dbru = h.word % 2 ^ 15 }

unfoldable pub dba_rpt_store : ℕ → (ℕ → Alloc) → HwRpt → ℕ → Alloc
dba_rpt_store mode ctx h =
    let i = report_index mode h in
    if no_alloc h then ctx else put_at ctx i (dba_rpt_push (ctx i) (report_of h))

-- What the FTTR block shows: the pair of reports at an index, the last index, the word that the reading
-- index starts from, and the count of pending reports at each reading.
pub record Fttr : Type 0 where
  pub reports : ℕ → HwRpt × HwRpt
  pub last : ℕ
  pub ridx : ℕ
  pub pending : ℕ → ℕ

-- The state of dba_rpt_drain: the contexts, the register FTTR_RPT_RIDX, and the indices read so far.
pub record Drain : Type 0 where
  pub ctx : ℕ → Alloc
  pub ridx : ℕ
  pub indices : List ℕ

unfoldable pub next_report : ℕ → Fttr → ℕ → ℕ → ℕ
next_report step f pending idx =
    let next = if ltb step pending then add32 idx step else add32 idx 1 in
    if ltb f.last next then 0 else next

-- The loop of dba_rpt_drain with n rounds left; `k` counts the readings of FTTR_RPT_CNT.
unfoldable pub drain_loop : ℕ → ℕ → ℕ → Fttr → ℕ → ℕ → Drain → Drain
drain_loop zero mode step f k idx d = d
drain_loop (suc n) mode step f k idx d =
    let pair = f.reports idx in
    let ctx = dba_rpt_store mode (dba_rpt_store mode d.ctx pair.1) pair.0 in
    let next = next_report step f (f.pending k % 2 ^ 16) idx in
    let after : Drain = record {
      ctx = ctx;
      ridx = d.ridx % 2 ^ 16 + next % 2 ^ 16 * 2 ^ 16;
      indices = d.indices ++ idx ∷ [];
    } in
    let rest = drain_loop n mode step f (k + 1) next after in
    if f.pending (k + 1) % 2 ^ 16 == 0 then after else rest

-- dba_rpt_drain without the lines that it prints on request.
unfoldable pub dba_rpt_drain : ℕ → ℕ → Fttr → (ℕ → Alloc) → Drain
dba_rpt_drain mode step f ctx =
    let start : Drain = record { ctx = ctx; ridx = f.ridx; indices = [] } in
    if f.pending 0 % 2 ^ 16 == 0 then start else drain_loop 80 mode step f 0 (f.ridx / 2 ^ 16) start

-- The two slots of an alloc id, each 0 or 1.
pub record Slots (a : Alloc) : Type 0 where
  pub read : a.ring_idx % 2 ^ 4 < 2
  pub write : a.ring_idx / 2 ^ 4 < 2

-- The report in the read slot, and the one in the write slot.
pub view : Alloc → Rpt × Rpt
view a = (a.ring (a.ring_idx % 2 ^ 4), a.ring (a.ring_idx / 2 ^ 4))

pub record Pushed (a : Alloc) (r : Rpt) (out : Alloc) : Type 0 where
  pub slots : Slots out
  pub kept : view out ≡ ((view a).1, r)

pub dba_rpt_push-Pushed : (a : Alloc) (r : Rpt) → Slots a → Pushed a r (dba_rpt_push a r)
unfolding dba_rpt_push view
dba_rpt_push-Pushed a r h = elim (Bool-cases (a.ring_idx % 2 ^ 4 == 0)) [
  | inl e ↦ elim (Bool-cases (a.ring_idx / 2 ^ 4 == 0)) [
    | inl f ↦
        let at : a.ring_idx ≡ 0 = ground (arith, e, f) in
        record {
          slots = record { read = rw at (omega arith); write = rw at (omega arith) };
          kept = rw at refl;
        }
    | inr f ↦
        let at : a.ring_idx ≡ 16 = ground (arith, e, f, h.write) in
        record {
          slots = record { read = rw at (omega arith); write = rw at (omega arith) };
          kept = rw at refl;
        }
  ]
  | inr e ↦ elim (Bool-cases (a.ring_idx / 2 ^ 4 == 0)) [
    | inl f ↦
        let at : a.ring_idx ≡ 1 = ground (arith, e, f, h.read) in
        record {
          slots = record { read = rw at (omega arith); write = rw at (omega arith) };
          kept = rw at refl;
        }
    | inr f ↦
        let at : a.ring_idx ≡ 17 = ground (arith, e, f, h.read, h.write) in
        record {
          slots = record { read = rw at (omega arith); write = rw at (omega arith) };
          kept = rw at refl;
        }
  ]
]
