-- ===== src/Rx.antt =====
-- npu_wifi_rx.c: what happens to a parsed frame of a block ack session (kite_classify_pn). The entry
-- is the one that the address of the session selects; the frame `pn` is laid out as a reorder node,
-- as in the source. `freed` has the calls of buf_id_free; the locks only order the calls.
pub mod Place
pub mod Splice
pub mod Order
pub mod Link
pub mod Insert
pub mod InOrder
pub mod Classify
pub mod Fast
mod Tests
use clanker_npu.Prelude.{
  ℕ, zero, suc, ◌+◌, ◌-◌, ◌*◌, ◌/◌, ◌%◌, ◌^◌, Bool, true, false, ◌&&◌, ◌||◌, not, List, [], ◌∷◌,
  ◌++◌, Option, none, some, if◌then◌else◌, ltb, leb, ◌==◌, add32, sub32, shr, u16, bit, neg32,
  slt32,
}
use clanker_npu.IdRing.{minus_one}
use clanker_npu.Ba.{
  Node, Entry, Frame, World, store, u12, wifi_cnt_inc, pkt_enqueue_bridge, frame_of,
  reorder_node_free, ba_flush_entry, ba_indicate_le_seq, ba_seq_scan,
}
use clanker_npu.Ba.Session.{Bases, Granted, take_last, ba_state_update, reorder_node_alloc}

pub record Rx : Type 0 where
  pub world : World
  pub entry : Entry
  pub freed : List ℕ

-- What the frame meets: kite_fast_flag() & 1, KITE_TICK and the bases of the node pools.
pub record Chip : Type 0 where
  pub fast : Bool
  pub tick : ℕ
  pub bases : Bases

-- The address of the entry of (wcid, tid): ba_table_a and ba_table_b are `a` and `b`.
pub entry_addr : Bool → ℕ → ℕ → ℕ → ℕ → ℕ → ℕ
entry_addr dbdc band wcid tid a b =
    if dbdc
    then (if ltb 150 wcid
        then add32 a (28 * (8 * (wcid - 151) + tid))
        else add32 b (28 * (8 * (wcid - 1) + tid)))
    else add32 (if band == 0 then a else b) (28 * (8 * (wcid - 1) + tid))

pub count : Rx → ℕ → ℕ → Rx
count rx band off = record rx { world = wifi_cnt_inc rx.world band off }

pub send : Rx → ℕ → Node → Rx
send rx band pn = record rx { world = pkt_enqueue_bridge rx.world (frame_of band pn.bss pn) }

pub buf_id_free : Rx → ℕ → Rx
buf_id_free rx buf = record rx { freed = rx.freed ++ buf ∷ [] }

-- Where a number lies from the last one given out.
pub data Spot : Type 0 where
  in_order : Spot
  duplicate : Spot
  behind : Spot
  inside : Spot
  past : Spot

-- The tests of the loop of kite_classify_pn, in their order.
pub spot : ℕ → ℕ → ℕ → Spot
spot last win sn =
    if u12 (last + 1) == sn
    then in_order
    else if last == sn
    then duplicate
    else if not (bit (sub32 sn last) 11 == 0)
    then behind
    else if not (bit (sub32 sn (u12 (last + win + 1))) 11 == 0)
    then inside
    else past

-- The number before the window whose last slot is sn.
pub slide_start : ℕ → ℕ → ℕ
slide_start sn win =
    let fs = add32 (sub32 sn win) 1 in
    u12 (sub32 (if neg32 fs then add32 (sub32 sn win) 0x1001 else fs) 1)

-- One turn of the loop past the window.
pub slide : ℕ → Rx → ℕ → Option Rx
slide fuel rx sn =
    let fs = slide_start sn rx.entry.win in
    elim (ba_indicate_le_seq fuel rx.world rx.entry fs) [
      | none ↦ none
      | some (v, f) ↦ elim (ba_seq_scan fuel v (record f { last = fs }) fs) [
        | none ↦ none
        | some (r, u, g) ↦
            some (record rx { world = u; entry = record (take_last g r) { flag = 4 } })
      ]
    ]

-- The loop: the local `last` is always that of the entry.
pub find_spot : ℕ → ℕ → Rx → ℕ → Option (Spot × Rx)
find_spot zero fuel rx sn = none
find_spot (suc n) fuel rx sn =
    let rest : Option (Spot × Rx) = elim (slide fuel rx sn) [
      | none ↦ none
      | some next ↦ find_spot n fuel next sn
    ] in
    elim (spot rx.entry.last rx.entry.win sn) [
      | past ↦ rest
      | in_order ↦ some (in_order, rx)
      | duplicate ↦ some (duplicate, rx)
      | behind ↦ some (behind, rx)
      | inside ↦ some (inside, rx)
    ]

-- `if (pn.amsdu <= 1) entry[3] = 0`.
abbrev pub close_amsdu : Entry → Node → Entry
close_amsdu e pn = if leb pn.amsdu 1 then record e { msdu = 0 } else e

-- The marks that every branch leaves in the entry.
abbrev pub mark : Entry → Node → ℕ → Entry
mark e pn flag = record e { amsdu = pn.amsdu; flag = flag; ref = pn.sn }

-- The frame that was expected next, and those that it was missing for.
pub take_in_order : ℕ → Rx → Node → ℕ → Option Rx
take_in_order fuel rx pn band =
    let sent = send (count rx band 52) rx.entry.band pn in
    let scanned : Option Rx =
      elim (ba_seq_scan fuel sent.world (record rx.entry { last = pn.sn }) pn.sn) [
        | none ↦ none
        | some (r, u, g) ↦
            some
              (record sent { world = u; entry = mark (record (take_last g r) { msdu = 0 }) pn 0 })
      ] in
    if leb pn.amsdu 1 then scanned else some (record sent { entry = mark rx.entry pn 0 })

pub take_duplicate : Chip → Rx → Node → ℕ → Rx
take_duplicate c rx pn band =
    let counted = count rx band 56 in
    let out = if c.fast then send counted band pn else buf_id_free counted pn.buf in
    record out { entry = mark (close_amsdu rx.entry pn) pn 1 }

-- The three tests for a peer that restarted.
pub too_far : ℕ → ℕ → ℕ → Bool
too_far last win sn =
    slt32 win (sub32 last sn)
    || (not (bit (sub32 ((shr win 1 + sn + 1) % 4095) last) 11 == 0)
        || (slt32 win (sub32 sn last) && ltb (sn + win) 4096))

pub take_behind : Chip → Rx → Node → ℕ → Rx
take_behind c rx pn band =
    let last = rx.entry.last in
    let marked = record rx { entry = mark (close_amsdu rx.entry pn) pn 2 } in
    let restarted : Rx = record (send marked band pn) {
      entry = record marked.entry { last = pn.sn };
    } in
    if too_far last rx.entry.win pn.sn
    then restarted
    else if c.fast
    then send marked band pn
    else count (buf_id_free marked pn.buf) band 60

-- The node as it is stored; `old` keeps its count of MSDUs.
abbrev pub filled : Chip → Node → Node → Granted → Node
filled c old pn g = record pn {
  next = 0;
  msdu_head = 0;
  msdu_tail = 0;
  msdus = old.msdus;
  idx = g.idx;
  pool = g.pool_type;
  tick = c.tick;
}

-- A further MSDU of the A-MSDU at `sub`.
pub append_msdu : World → ℕ → ℕ → World
append_msdu w sub node =
    let tail = (w.nodes sub).msdu_tail in
    let nodes =
      store w.nodes sub (record (w.nodes sub) { msdus = u16 ((w.nodes sub).msdus + 1) }) in
    let ended = store nodes node (record (nodes node) { next = 0 }) in
    let linked =
      if tail == 0
      then store ended sub (record (ended sub) { msdu_head = node })
      else store ended tail (record (ended tail) { next = node }) in
    record w { nodes = store linked sub (record (linked sub) { msdu_tail = node }) }

-- The walk to the place of sn: the node before it, with 0 for the entry itself, and the one after.
pub insert_walk : ℕ → (ℕ → Node) → ℕ → ℕ → ℕ → Option (ℕ × ℕ)
insert_walk zero nodes sn prev cur = none
insert_walk (suc fuel) nodes sn prev cur =
    let rest = insert_walk fuel nodes sn cur (nodes cur).next in
    if not (cur == 0) && not (bit (sub32 (nodes cur).sn sn) 11 == 0) then rest else some (prev, cur)

-- The node between the two.
pub link : World → Entry → ℕ → ℕ → ℕ → World × Entry
link w e prev cur node =
    let nodes = store w.nodes node (record (w.nodes node) { next = cur }) in
    let counted = record e { count = u16 (e.count + 1) } in
    if prev == 0
    then (record w { nodes = nodes }, record counted { head = node })
    else (record w { nodes = store nodes prev (record (nodes prev) { next = node }) }, counted)

-- The node at its place among the held ones, or given back if its number is held already.
pub insert : ℕ → Rx → Node → ℕ → Granted → Option Rx
insert fuel rx pn node g =
    let w = rx.world in
    let e = rx.entry in
    elim (insert_walk fuel w.nodes pn.sn 0 e.head) [
      | none ↦ none
      | some (prev, cur) ↦
          let held =
            buf_id_free (record rx { world = reorder_node_free w g.idx g.pool_type e.band })
              pn.buf in
          let linked = link w e prev cur node in
          if not (cur == 0) && (w.nodes cur).sn == pn.sn
          then some (count held e.band 208)
          else some (record rx {
            world = linked.0;
            entry = record linked.1 { msdu = if leb pn.amsdu 1 then 0 else node };
          })
    ]
