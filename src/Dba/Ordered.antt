-- ===== src/Dba/Ordered.antt =====
-- npu_dba.c: the entries of a bandwidth map stand in order.
use clanker_npu.Prelude.{
  ℕ, ◌+◌, ◌^◌, ◌<◌, ◌≤◌, ◌≡◌, refl, sym, ap, arith, Bool, List, [], ◌∷◌, ◌++◌, ltb, leb, ◌==◌,
  Bool-cases, inl, inr, u16, sub16, subst, ltb→le, leb→lt,
}
use clanker_npu.Dba.{TcontCfg, Alloc}
use clanker_npu.Dba.Bwmap.{
  stop_max, BwmapEntry, Bwmap, entry_start, entry_end, entry_failed, entry_written,
  dba_config_bwmap_handler, Call, build,
}

-- Every entry lies in the frame and behind the one before it, and all lie before `bound`.
unfoldable pub Ordered : ℕ → List BwmapEntry → ℕ → Type 0
Ordered from [] bound = from ≤ bound
Ordered from (e ∷ es) bound =
    ((from ≤ e.start) × ((e.start < e.stop) × (e.stop ≤ stop_max))) × Ordered (e.stop + 1) es bound

-- What the calls may use up: their grants, and an overhead for each.
unfoldable pub need : (ℕ → Alloc) → ℕ → List Call → ℕ
need ctx ovh [] = 0
need ctx ovh (c ∷ cs) = (ctx c.idx).cur_bw + ovh + need ctx ovh cs

Ordered-end :
    (es : List BwmapEntry) (from bound next : ℕ)
    → bound ≤ next
    → Ordered from es bound
    → Ordered from es next
unfolding Ordered
Ordered-end [] from bound next le h = omega (arith, le, h)
Ordered-end (e ∷ es) from bound next le h = (h.0, Ordered-end es (e.stop + 1) bound next le h.1)

Ordered-more :
    (es : List BwmapEntry) (e : BwmapEntry) (from bound : ℕ)
    → Ordered from es bound
    → bound ≤ e.start
    → e.start < e.stop
    → e.stop ≤ stop_max
    → Ordered from (es ++ e ∷ []) (e.stop + 1)
unfolding Ordered
Ordered-more [] e from bound h a b c = ((omega (arith, h, a), (b, c)), omega arith)
Ordered-more (x ∷ es) e from bound h a b c = (h.0, Ordered-more es e (x.stop + 1) bound h.1 a b c)

-- The position after a call, if no 16-bit word wraps.
pub record Stepped (ctx : ℕ → Alloc) (s : Bwmap) (c : Call) (out : Bwmap) : Type 0 where
  pub ordered : Ordered 0 out.written out.pos
  pub pos : out.pos ≤ s.pos + (ctx c.idx).cur_bw + s.ovh
  pub ovh : out.ovh ≡ s.ovh

entry_start-inside :
    (s : Bwmap) (slot : ℕ)
    → s.pos + s.ovh < 2 ^ 16
    → (s.pos ≤ entry_start s slot) × (entry_start s slot ≤ s.pos + s.ovh)
unfolding entry_start
entry_start-inside s slot h = (ground (arith, h), ground (arith, h))

failed-Ordered :
    (ctx : ℕ → Alloc) (s : Bwmap) (c : Call) (start end stop : ℕ)
    → s.pos ≤ end
    → end ≤ s.pos + (ctx c.idx).cur_bw + s.ovh
    → Ordered 0 s.written s.pos
    → Stepped ctx s c (entry_failed (record s { start = start; stop = stop; pos = end }) start stop)
unfolding entry_failed
failed-Ordered ctx s c start end stop low high h = elim (Bool-cases s.log_en) [
  | inl e ↦
      rw e (record { ordered = Ordered-end s.written 0 s.pos end low h; pos = high; ovh = refl })
  | inr e ↦
      rw e (record { ordered = Ordered-end s.written 0 s.pos end low h; pos = high; ovh = refl })
]

written-Ordered :
    (ctx : ℕ → Alloc) (s : Bwmap) (c : Call) (a : TcontCfg) (start end stop : ℕ) (ploamu fec : Bool)
    → s.pos ≤ start
    → start < stop
    → stop ≤ stop_max
    → end ≡ stop + 1
    → end ≤ s.pos + (ctx c.idx).cur_bw + s.ovh
    → Ordered 0 s.written s.pos
    → Stepped ctx s c
        (entry_written (record s { start = start; stop = stop; pos = end }) a start stop ploamu fec)
unfolding entry_written
written-Ordered ctx s c a start end stop ploamu fec low some_room inside next high h = record {
  ordered =
      subst (Ordered 0 _) (sym next) (Ordered-more s.written _ 0 s.pos h low some_room inside);
  pos = high;
  ovh = refl;
}

step-Ordered :
    (ctx : ℕ → Alloc) (s : Bwmap) (c : Call)
    → s.pos + (ctx c.idx).cur_bw + s.ovh < 2 ^ 16
    → Ordered 0 s.written s.pos
    → Stepped ctx s c (dba_config_bwmap_handler ctx s c.idx c.fec c.slot c.onu)
unfolding dba_config_bwmap_handler entry_end
step-Ordered ctx s c room h =
    let start : ℕ = entry_start s c.slot in
    let bw : ℕ = (ctx c.idx).cur_bw in
    let place = entry_start-inside s c.slot (omega (arith, room)) in
    let end : ℕ = u16 (bw + start) in
    let stop : ℕ = sub16 end 1 in
    let sum : end ≡ bw + start = omega (arith, room, place.1) in
    let low : s.pos ≤ end = omega (arith, sum, place.0) in
    let high : end ≤ s.pos + bw + s.ovh = omega (arith, sum, place.1) in
    elim (Bool-cases (ltb stop_max stop)) [
      | inl e ↦ rw e (failed-Ordered ctx s c start end stop low high h)
      | inr e ↦ elim (Bool-cases (leb stop start)) [
        | inl f ↦ rw (e, f) (failed-Ordered ctx s c start end stop low high h)
        | inr f ↦
            let inside : stop ≤ stop_max = ltb→le stop_max stop e in
            let some_room : start < stop = leb→lt stop start f in
            let next : end ≡ stop + 1 = omega (arith, some_room, inside) in
            rw (e, f)
              (written-Ordered ctx s c ((ctx c.idx).cfg) start end stop (c.idx == c.onu) c.fec
                place.0 some_room inside next high h)
      ]
    ]

-- While the grants of the calls, with an overhead for each, leave no 16-bit wrap, and the entries so far
-- stand in order before the position, the entries that dba_config_bwmap_handler writes over a run stand in
-- the upstream frame, each behind the one before it.
pub build-Ordered :
    (cs : List Call) (ctx : ℕ → Alloc) (s : Bwmap)
    → s.pos + need ctx s.ovh cs < 2 ^ 16
    → Ordered 0 s.written s.pos
    → Ordered 0 (build ctx s cs).written (build ctx s cs).pos
unfolding build need
build-Ordered [] ctx s room h = h
build-Ordered (c ∷ cs) ctx s room h =
    let step = step-Ordered ctx s c (omega (arith, room)) h in
    let next = dba_config_bwmap_handler ctx s c.idx c.fec c.slot c.onu in
    let same : need ctx next.ovh cs ≡ need ctx s.ovh cs = ap (λ o. need ctx o cs) step.ovh in
    build-Ordered cs ctx next (omega (arith, room, step.pos, same)) step.ordered
