-- ===== src/StaQ.antt =====
-- npu_sta_q.c and its inline part in npu_internal.h: the frames that each station has in the WiFi
-- chip, counted, timed one at a time, and dropped against a hard limit and a standing queue.
-- The tables are lists over the stations (wcid); `tokens` is the station of each tx token.
pub mod Decide
pub mod Stood
pub mod Rate
pub mod Count
pub mod Depth
pub mod History
mod Tests
use clanker_npu.Prelude.{
  ℕ, zero, suc, ◌+◌, ◌-◌, ◌*◌, ◌/◌, ◌%◌, ◌^◌, Bool, true, false, not, ◌&&◌, ◌||◌, List, [], ◌∷◌,
  Option, none, some, if◌then◌else◌, ltb, leb, ◌==◌, get_or, set, replicate, add32, mul32, sub32,
  sub16, u8, u16, u32, shr, neg16, neg32, slt32,
}
use clanker_npu.Util.{npu_isqrt}

abbrev pub sta_q_tokens : ℕ
sta_q_tokens = 13312

abbrev pub sta_q_stas : ℕ
sta_q_stas = 1024

abbrev pub sta_q_none : ℕ
sta_q_none = 0xFFFF

abbrev pub sta_q_probe_lost : ℕ
sta_q_probe_lost = 11000

-- struct sta_q_aqm; `is_above` and `dropping` are AQM_ABOVE and AQM_DROPPING of its flags.
pub record Aqm : Type 0 where
  pub above : ℕ
  pub next : ℕ
  pub count : ℕ
  pub last : ℕ
  pub is_above : Bool
  pub dropping : Bool

-- struct sta_q_probe.
pub record Probe : Type 0 where
  pub tokts : ℕ
  pub delay : ℕ

-- struct wifi_sta_q without its two drop counts.
pub record Settings : Type 0 where
  pub limit : ℕ
  pub target : ℕ
  pub interval : ℕ
  pub delay : ℕ
  pub min_q : ℕ
  pub small : ℕ

-- The tables and counts. `driver` is USE_CLANKER_DRIVER; `mapped` says that sta_q_tok is set.
pub record StaQ : Type 0 where
  pub driver : Bool
  pub settings : Settings
  pub limit_drops : ℕ
  pub aqm_drops : ℕ
  pub mapped : Bool
  pub tokens : List ℕ
  pub sent : List ℕ
  pub sent_host : List ℕ
  pub done : List ℕ
  pub aqm : List Aqm
  pub aqm_host : List Aqm
  pub probe : List Probe

-- struct sta_q_cfg, the snapshot. `host` is the snapshot of sta_q_snap_host.
pub record Cfg : Type 0 where
  pub on : Bool
  pub settings : Settings
  pub open settings use *
  pub host : Bool

abbrev pub idle_aqm : Aqm
idle_aqm = record { above = 0; next = 0; count = 0; last = 0; is_above = false; dropping = false }

abbrev pub idle_probe : Probe
idle_probe = record { tokts = sta_q_none; delay = 0 }

-- sta_q_init, with the address that sram_buf_alloc(41) returns and the clock in MHz.
pub sta_q_init : ℕ → ℕ → StaQ → StaQ
sta_q_init base clock q = if base == 0 then q else record q {
  settings = record {
    limit = 8192;
    target = 0;
    interval = mul32 100000 clock;
    delay = mul32 10000 clock;
    min_q = 64;
    small = 256;
  };
  mapped = true;
  tokens = replicate sta_q_tokens sta_q_none;
  sent = replicate sta_q_stas 0;
  sent_host = if q.driver then replicate sta_q_stas 0 else q.sent_host;
  done = replicate sta_q_stas 0;
  aqm = replicate sta_q_stas idle_aqm;
  aqm_host = if q.driver then replicate sta_q_stas idle_aqm else q.aqm_host;
  probe = replicate sta_q_stas idle_probe;
}

-- sta_q_snap.
pub sta_q_snap : StaQ → Cfg
sta_q_snap q = record {
  on = q.mapped && not (q.settings.limit == 0 && q.settings.target == 0 && q.settings.delay == 0);
  settings = q.settings;
  host = false;
}

-- sta_q_snap_host, which the driver build has; sent_host is set whenever the map is.
pub sta_q_snap_host : StaQ → Cfg
unfolding sta_q_snap
sta_q_snap_host q = record (sta_q_snap q) { host = true }

-- sta_q_delay: the delay that counts, and the probe after a lost report is dropped.
pub sta_q_delay : Probe → ℕ → ℕ × Probe
sta_q_delay p now =
    let age = u16 (sub32 (shr now 16) (shr p.tokts 16)) in
    if u16 p.tokts == sta_q_none
    then (p.delay, p)
    else if ltb sta_q_probe_lost age
    then (p.delay, record p { tokts = sta_q_none })
    else if ltb p.delay age
    then (age, p)
    else (p.delay, p)

-- `q` of sta_q_decide: the frames of the station in the chip, 0 where the difference is negative.
pub queue_depth : StaQ → ℕ → ℕ
queue_depth q sta =
    let other = if q.driver then get_or q.sent_host sta 0 else 0 in
    let d = sub16 (get_or q.sent sta 0 + other) (get_or q.done sta 0) in if neg16 d then 0 else d

-- The test for a standing queue. The probe is looked at only when the frame count does not decide.
pub standing : Settings → ℕ → Probe → ℕ → Bool × Probe
standing c depth p now =
    if not (c.target == 0) && leb c.target depth
    then (true, p)
    else if not (c.delay == 0) && leb c.min_q depth
    then (let (d, p') = sta_q_delay p now in (leb c.delay (u32 (d * 2 ^ 16)), p'))
    else (false, p)

-- `interval / npu_isqrt(count)`; `none` would be a division by zero.
pub spacing : ℕ → ℕ → Option ℕ
spacing interval count = elim (npu_isqrt count) [
  | none ↦ none
  | some r ↦ if r == 0 then none else some (interval / r)
]

-- A drop inside a dropping state: the count and the time of the next drop before the spacing.
pub drop_again : Settings → Aqm → ℕ → Aqm
drop_again c a now = record a {
  count = if a.count == 0xFFFF then a.count else a.count + 1;
  next = if slt32 c.interval (sub32 now a.next) then now else a.next;
}

-- The first drop of a dropping state; soon after the last one it keeps its rate.
pub drop_first : Settings → Aqm → ℕ → Aqm
drop_first c a now =
    let n = sub16 a.count a.last in
    let count = if ltb 1 n && slt32 (sub32 now a.next) (mul32 16 c.interval) then n else 1 in
    record a {
      count = count;
      last = if ltb 255 count then 255 else u8 count;
      dropping = true;
      next = now;
    }

-- What sta_q_decide does to the drop state of a queue that stands: none where the frame goes on.
pub drop_standing : Settings → Aqm → ℕ → ℕ → Option Aqm
drop_standing c a now len =
    if neg32 (sub32 now a.above)
    then none
    else if leb len c.small
    then none
    else if a.dropping
    then (if neg32 (sub32 now a.next) then none else some (drop_again c a now))
    else some (drop_first c a now)

-- `a->next += interval / npu_isqrt(a->count)`.
pub space_next : Settings → Aqm → Option Aqm
space_next c a = elim (spacing c.interval a.count) [
  | none ↦ none
  | some step ↦ some (record a { next = add32 a.next step })
]

pub data Verdict : Type 0 where
  pass drop_limit drop_aqm fault : Verdict

-- The verdict on a queue that has stood above its target.
pub standing_verdict : Settings → Aqm → ℕ → ℕ → Verdict × Aqm
standing_verdict c a now len = elim (drop_standing c a now len) [
  | none ↦ (pass, a)
  | some b ↦ elim (space_next c b) [ none ↦ (fault, b) | some b' ↦ (drop_aqm, b') ]
]

-- The part of sta_q_decide below the limit test, on the drop state of the station.
pub aqm_verdict : Settings → Bool → Aqm → ℕ → ℕ → Verdict × Aqm
aqm_verdict c above a now len =
    if not above
    then (pass, record a { is_above = false; dropping = false })
    else if not a.is_above
    then (pass, record a { is_above = true; dropping = false; above = add32 now c.interval })
    else standing_verdict c a now len

-- c->aqm == NULL or not: which table holds the drop state.
pub aqm_of : Cfg → StaQ → ℕ → Aqm
aqm_of c q sta = if c.host then get_or q.aqm_host sta idle_aqm else get_or q.aqm sta idle_aqm

pub put_aqm : Cfg → StaQ → ℕ → Aqm → StaQ
put_aqm c q sta a =
    if c.host
    then record q { aqm_host = set q.aqm_host sta a }
    else record q { aqm = set q.aqm sta a }

-- `wifi_sta_q.aqm_drops++` on a drop of the standing queue.
pub count_aqm : Verdict → StaQ → StaQ
count_aqm pass q = q
count_aqm drop_limit q = q
count_aqm drop_aqm q = record q { aqm_drops = add32 q.aqm_drops 1 }
count_aqm fault q = q

-- sta_q_decide below the hard limit.
pub decide_standing : Cfg → StaQ → ℕ → ℕ → ℕ → Verdict × StaQ
decide_standing c q sta now len =
    let s = standing c.settings (queue_depth q sta) (get_or q.probe sta idle_probe) now in
    let r = aqm_verdict c.settings s.0 (aqm_of c q sta) now len in
    (r.0, count_aqm r.0 (put_aqm c (record q { probe = set q.probe sta s.1 }) sta r.1))

-- sta_q_decide.
pub sta_q_decide : Cfg → StaQ → ℕ → ℕ → ℕ → Verdict × StaQ
sta_q_decide c q sta now len =
    if not (c.limit == 0) && leb c.limit (queue_depth q sta)
    then (drop_limit, record q { limit_drops = add32 q.limit_drops 1 })
    else decide_standing c q sta now len

-- sta_q_drop.
pub sta_q_drop : Cfg → StaQ → ℕ → ℕ → ℕ → Verdict × StaQ
sta_q_drop c q sta now len =
    if not c.on || leb sta_q_stas sta then (pass, q) else sta_q_decide c q sta now len

abbrev pub bump_table : List ℕ → ℕ → ℕ → List ℕ
bump_table t sta by = set t sta (u16 (get_or t sta 0 + by))

-- `c->sent[sta]` changes by `by`, on the table that the snapshot points at.
pub bump_sent : Cfg → StaQ → ℕ → ℕ → StaQ
bump_sent c q sta by =
    if c.host
    then record q { sent_host = bump_table q.sent_host sta by }
    else record q { sent = bump_table q.sent sta by }

-- sta_q_sent_tok.
pub sta_q_sent_tok : Cfg → StaQ → ℕ → ℕ → ℕ → StaQ
unfolding bump_sent
sta_q_sent_tok c q tok sta now =
    let p = get_or q.probe sta idle_probe in
    let timed = record p { tokts = tok + u16 (shr now 16) * 2 ^ 16 } in
    if ltb sta sta_q_stas && ltb tok sta_q_tokens && q.mapped
    then record (bump_sent c q sta 1) {
      tokens = set q.tokens tok (u16 sta);
      probe = if u16 p.tokts == sta_q_none then set q.probe sta timed else q.probe;
    }
    else q

-- sta_q_unsent_tok; a decrement adds 2 ^ 16 - 1.
pub sta_q_unsent_tok : Cfg → StaQ → ℕ → ℕ → StaQ
unfolding bump_sent
sta_q_unsent_tok c q tok sta =
    let p = get_or q.probe sta idle_probe in
    if ltb sta sta_q_stas && ltb tok sta_q_tokens && q.mapped
    then record (bump_sent c q sta 0xFFFF) {
      tokens = set q.tokens tok sta_q_none;
      probe =
          if u16 p.tokts == tok then set q.probe sta (record p { tokts = sta_q_none }) else q.probe;
    }
    else q

-- sta_q_done_tok.
pub sta_q_done_tok : StaQ → ℕ → ℕ → StaQ
sta_q_done_tok q tok tick =
    let sta = get_or q.tokens tok 0 in
    let p = get_or q.probe sta idle_probe in
    let timed : Probe = record { tokts = sta_q_none; delay = u16 (sub32 tick (shr p.tokts 16)) } in
    if not q.mapped || leb sta_q_tokens tok || (sta == sta_q_none) then q else record q {
      tokens = set q.tokens tok sta_q_none;
      done = bump_table q.done sta 1;
      probe = if u16 p.tokts == tok then set q.probe sta timed else q.probe;
    }
