-- ===== src/Rx/Classify.antt =====
-- npu_wifi_rx.c: what becomes of a frame inside the window, and the whole of kite_classify_pn: the
-- frames that never reach the window, the state of the session, the place in the window.
use clanker_npu.Prelude.{ℕ, not, Option, none, some, if◌then◌else◌, ltb, ◌==◌, sub32}
use clanker_npu.IdRing.{minus_one}
use clanker_npu.Ba.{Node, Entry, store, u12, wifi_cnt_inc, ba_flush_entry}
use clanker_npu.Ba.Session.{Granted, ba_state_update, reorder_node_alloc}
use clanker_npu.Rx.{
  Rx, Chip, count, buf_id_free, Spot, in_order, duplicate, behind, inside, past, find_spot,
  close_amsdu, mark, take_in_order, take_duplicate, take_behind, filled, append_msdu, insert,
}

-- The end of every held frame.
pub finish_hold : Rx → Node → Rx
finish_hold rx pn =
    let e = rx.entry in
    let counted = if ltb e.win e.count then count rx e.band 228 else rx in
    record counted { entry = mark (close_amsdu e pn) pn 3 }

-- A frame inside the window.
pub take_inside : ℕ → Chip → Rx → Node → ℕ → Option Rx
take_inside fuel c rx pn band =
    let none_yet : Granted = record { addr = 0; idx = 0xFFFF; pool_type = 1 } in
    let got = reorder_node_alloc c.bases (wifi_cnt_inc rx.world band 64) band none_yet in
    let g = got.0 in
    let w = got.1 in
    let stored = record w { nodes = store w.nodes g.addr (filled c (w.nodes g.addr) pn g) } in
    let held : Rx = record rx { world = stored } in
    let chained : Rx = record held { world = append_msdu stored rx.entry.msdu g.addr } in
    if g.addr == 0
    then some (count (record rx { world = w }) band 80)
    else if not (rx.entry.msdu == 0)
    then some (finish_hold chained pn)
    else elim (insert fuel held pn g.addr g) [ none ↦ none | some out ↦ some (finish_hold out pn) ]

unfoldable pub dispatch : Spot → ℕ → Chip → Rx → Node → ℕ → Option Rx
dispatch in_order fuel c rx pn band = take_in_order fuel rx pn band
dispatch duplicate fuel c rx pn band = some (take_duplicate c rx pn band)
dispatch behind fuel c rx pn band = some (take_behind c rx pn band)
dispatch inside fuel c rx pn band = take_inside fuel c rx pn band
dispatch past fuel c rx pn band = none

-- From the state of the entry on, which is 4 here.
unfoldable pub classify_open : ℕ → ℕ → Chip → Rx → Node → ℕ → Option Rx
classify_open n fuel c rx pn band =
    let e = record rx.entry { band = band } in
    let w = if pn.amsdu == 0 then rx.world else wifi_cnt_inc rx.world band 72 in
    elim (ba_state_update fuel w pn.sn pn.amsdu e) [
      | none ↦ none
      | some (_, v, f) ↦ elim (find_spot n fuel (record rx { world = v; entry = f }) pn.sn) [
        | none ↦ none
        | some (s, found) ↦ dispatch s fuel c found pn band
      ]
    ]

-- The first frame after ADDBA starts the window at its own number.
abbrev pub start_window : Entry → Node → Entry
start_window e pn = record e {
  last = u12 (sub32 pn.sn 1);
  ref = pn.sn;
  state = 4;
  amsdu = pn.amsdu;
}

-- kite_classify_pn: the value is buf_id for a frame that goes up, else -1.
unfoldable pub kite_classify_pn : ℕ → ℕ → Chip → Rx → Node → ℕ → ℕ → Option (ℕ × Rx)
kite_classify_pn n fuel c rx pn buf_id band =
    let taken : Rx → Option (ℕ × Rx) = λ r. elim (classify_open n fuel c r pn band) [
      | none ↦ none
      | some out ↦ some (minus_one, out)
    ] in
    let flushed : (Rx → Option (ℕ × Rx)) → Option (ℕ × Rx) = λ k.
      elim (ba_flush_entry fuel rx.world rx.entry) [
        | none ↦ none
        | some (w, e) ↦ k (record rx { world = w; entry = e })
      ] in
    if pn.wcid == 0
    then some (minus_one, count (buf_id_free rx pn.buf) band 232)
    else if rx.entry.state == 0
    then flushed (λ r. some (buf_id, r))
    else if rx.entry.state == 3
    then flushed (λ r. taken (record r { entry = start_window r.entry pn }))
    else taken rx
