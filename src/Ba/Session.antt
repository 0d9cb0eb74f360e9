-- ===== src/Ba/Session.antt =====
-- npu_wifi_ba.c: the operations of a session over the release loops, and reorder_node_alloc.
pub mod Round
pub mod Timeout
pub mod Restart
pub mod NodeRings
mod Tests
use clanker_npu.Prelude.{
  ℕ, zero, suc, ◌+◌, ◌*◌, ◌%◌, ◌^◌, Bool, ◌&&◌, ◌||◌, not, Option, none, some, if◌then◌else◌, ltb,
  ◌==◌, get_or, sub32, u8, u16, add32, mul32,
}
use clanker_npu.Ba.{
  Entry, Pools, World, wifi_cnt_inc, ba_indicate_le_seq, ba_seq_scan, no_sn, pri_pool_size,
  sec_pool_size,
}

-- Where the nodes of the two pools lie: ba_node_pool_base and wifi_dram_ba_node_addr.
pub record Bases : Type 0 where
  pub pri : ℕ
  pub sec : ℕ

-- What reorder_node_alloc gives: the address, or 0, with the index and the pool of the node.
pub record Granted : Type 0 where
  pub addr : ℕ
  pub idx : ℕ
  pub pool_type : ℕ

-- The index after `widx` in a ring of n slots.
abbrev pub ring_next : ℕ → ℕ → ℕ
ring_next n widx = if widx + 1 == n then 0 else widx + 1

-- reorder_node_alloc: `g` is what the caller has stored in *pool_type and *idx_out.
pub reorder_node_alloc : Bases → World → ℕ → Granted → Granted × World
reorder_node_alloc b w band g =
    let p = w.pools in
    let pri = get_or p.pri p.pri_widx 0 in
    let sec = get_or p.sec p.sec_widx 0 in
    let from_pri : Pools = record p { pri_widx = ring_next pri_pool_size p.pri_widx } in
    let from_sec : Pools = record p { sec_widx = ring_next sec_pool_size p.sec_widx } in
    if not (p.pri_ridx == ring_next pri_pool_size p.pri_widx)
    then (
      record { addr = add32 b.pri (mul32 36 pri); idx = pri; pool_type = g.pool_type },
      wifi_cnt_inc (record w { pools = from_pri }) band 220,
    )
    else if not (p.sec_ridx == ring_next sec_pool_size p.sec_widx)
    then (
      record { addr = add32 b.sec (mul32 36 sec); idx = sec; pool_type = 0 },
      wifi_cnt_inc (record w { pools = from_sec }) band 224,
    )
    else (record g { addr = 0 }, wifi_cnt_inc w band 216)

-- `if (r != 0xFFFF) entry->last = r`.
abbrev pub take_last : Entry → ℕ → Entry
take_last e r = if r == no_sn then e else record e { last = u16 r }

-- The two early returns of ba_state_update.
abbrev pub keeps_window : Entry → ℕ → ℕ → Bool
keeps_window e sn check_type =
    let state_adj = u8 (e.amsdu + 254) in
    if e.ref == u16 sn then ltb 1 state_adj || not (check_type == 3) else ltb 1 state_adj

-- ba_state_update.
unfoldable pub ba_state_update : ℕ → World → ℕ → ℕ → Entry → Option (ℕ × World × Entry)
ba_state_update fuel w sn check_type e =
    let v = wifi_cnt_inc w e.band 196 in
    let open_entry : Entry = record e { msdu = 0 } in
    let scanned : Option (ℕ × World × Entry) =
      elim (ba_seq_scan fuel v (record open_entry { last = e.ref }) e.ref) [
        | none ↦ none
        | some (r, u, f) ↦ some (1, u, take_last f r)
      ] in
    if keeps_window e sn check_type
    then some (0, w, e)
    else if not (e.flag == 0)
    then some (1, v, open_entry)
    else scanned

-- The test of ba_timeout_entry on the head of the queue.
abbrev pub overdue : World → Entry → ℕ → ℕ → Bool
overdue w e now timeout = not (e.head == 0) && ltb timeout (sub32 now (w.nodes e.head).tick)

-- One round of ba_timeout_entry.
pub timeout_round : ℕ → World → Entry → Option (World × Entry)
timeout_round fuel w e =
    let sn = (w.nodes e.head).sn in
    elim (ba_indicate_le_seq fuel w e sn) [
      | none ↦ none
      | some (v, f) ↦ elim (ba_seq_scan fuel v (record f { last = sn }) sn) [
        | none ↦ none
        | some (r, u, g) ↦ some (wifi_cnt_inc u (take_last g r).band 200, take_last g r)
      ]
    ]

-- ba_timeout_entry: the first number bounds the rounds, the second the loops within one.
pub ba_timeout_entry : ℕ → ℕ → World → Entry → ℕ → ℕ → Option (World × Entry)
ba_timeout_entry zero fuel w e now timeout = if overdue w e now timeout then none else some (w, e)
ba_timeout_entry (suc n) fuel w e now timeout =
    let rest : Option (World × Entry) = elim (timeout_round fuel w e) [
      | none ↦ none
      | some (v, f) ↦ ba_timeout_entry n fuel v f now timeout
    ] in
    if overdue w e now timeout then rest else some (w, e)
