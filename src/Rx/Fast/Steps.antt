-- ===== src/Rx/Fast/Steps.antt =====
-- npu_wifi_rx.c: the steps of the fast path and of kite_classify_pn on a frame that is in order.
use clanker_npu.Prelude.{
  ℕ, suc, ◌+◌, ◌≡◌, refl, sym, arith, Bool, true, false, [], ◌∷◌, ◌++◌, some, if◌then◌else◌, leb,
  ◌==◌, add32, sub32, u16, Bool-cases, inl, inr,
}
use clanker_npu.IdRing.{minus_one}
use clanker_npu.Ba.{Node, Entry, World, u12, frame_of, wifi_cnt_inc}
use clanker_npu.Ba.Session.{keeps_window, ba_state_update}
use mathlib.Core.List.{append-nil}
use clanker_npu.Rx.{
  buf_id_free, entry_addr, Rx, Chip, mark, in_order, spot, find_spot, take_in_order,
}
use clanker_npu.Rx.Classify.{dispatch, classify_open, kite_classify_pn}
use clanker_npu.Rx.Fast.{
  free_refused, fast_entry_addr, Route, Exit, to_tdma, bridge_exit, takes_detour, catch_up,
  fast_path, kite_classify_fast,
}

-- It is the entry that kite_classify_pn works on.
fast_entry_addr-entry_addr :
    (dbdc : Bool) (band wcid tid a b : ℕ)
    → fast_entry_addr dbdc band wcid tid a b ≡ entry_addr dbdc band wcid tid a b
unfolding fast_entry_addr entry_addr
fast_entry_addr-entry_addr true band wcid tid a b = refl
fast_entry_addr-entry_addr false band wcid tid a b = elim (Bool-cases (band == 0)) [
  | inl e ↦ rw e refl
  | inr e ↦ rw e refl
]

free_refused-world : (b : Bool) (rx : Rx) (buf : ℕ) → (free_refused b rx buf).world ≡ rx.world
unfolding free_refused buf_id_free
free_refused-world true rx buf = refl
free_refused-world false rx buf = refl

pub fast_path-caught :
    (fuel : ℕ) (va : ℕ → ℕ) (refuses : Exit → ℕ → Bool) (rx : Rx) (pn : Node) (len band : ℕ)
    (u : World) (g : Entry)
    → leb pn.amsdu 1 ≡ true
    → catch_up fuel rx.world (record rx.entry { band = band }) pn ≡ some (u, g)
    → let exit = to_tdma (u16 (sub32 (sub32 len pn.hdr) 2)) (add32 (add32 (va pn.buf) 2) pn.hdr) in
      fast_path fuel va refuses rx pn len band
      ≡ some (
        exit,
        record (free_refused (refuses exit pn.buf) rx pn.buf) { world = u; entry = mark g pn 0 },
      )
unfolding fast_path
fast_path-caught fuel va refuses rx pn len band u g one run =
    let exit = to_tdma (u16 (sub32 (sub32 len pn.hdr) 2)) (add32 (add32 (va pn.buf) 2) pn.hdr) in
    rw (one, free_refused-world (refuses exit pn.buf) rx pn.buf, run) refl

-- The bridge takes the same exit for the frame.
pub bridge_exit-tdma :
    (r : Route) (va : ℕ → ℕ) (refuses : Exit → ℕ → Bool) (e : Entry) (pn : Node) (len band : ℕ)
    → takes_detour r e pn band ≡ false
    → pn.len ≡ u16 len
    → let exit = to_tdma (u16 (sub32 (sub32 len pn.hdr) 2)) (add32 (add32 (va pn.buf) 2) pn.hdr) in
      bridge_exit r va refuses (frame_of band pn.bss pn)
      ≡ (exit, if refuses exit pn.buf then pn.buf ∷ [] else [])
unfolding bridge_exit takes_detour frame_of
bridge_exit-tdma r va refuses e pn len band fast size = ground (arith, fast, size)

pub free_refused-freed :
    (b : Bool) (rx : Rx) (buf : ℕ)
    → (free_refused b rx buf).freed ≡ rx.freed ++ (if b then buf ∷ [] else [])
unfolding free_refused buf_id_free
free_refused-freed true rx buf = refl
free_refused-freed false rx buf = sym (append-nil rx.freed)

spot-in_order : (last win sn : ℕ) → (u12 (last + 1) == sn) ≡ true → spot last win sn ≡ in_order
unfolding spot
spot-in_order last win sn h = ground (arith, h)

update_kept :
    (fuel : ℕ) (w : World) (e : Entry) (sn check : ℕ)
    → keeps_window e sn check ≡ true
    → ba_state_update fuel w sn check e ≡ some (0, w, e)
unfolding ba_state_update
update_kept fuel w e sn check keeps = rw keeps refl

found_in_order :
    (n fuel : ℕ) (rx : Rx) (sn : ℕ)
    → (u12 (rx.entry.last + 1) == sn) ≡ true
    → find_spot (suc n) fuel rx sn ≡ some (in_order, rx)
unfolding find_spot
found_in_order n fuel rx sn next =
    rw (find_spot, spot-in_order rx.entry.last rx.entry.win sn next) refl

pub classify_in_order :
    (n fuel : ℕ) (c : Chip) (rx : Rx) (pn : Node) (band : ℕ)
    → keeps_window (record rx.entry { band = band }) pn.sn pn.amsdu ≡ true
    → (u12 (rx.entry.last + 1) == pn.sn) ≡ true
    → classify_open (suc n) fuel c rx pn band
      ≡ take_in_order fuel
          (record rx {
            world = if pn.amsdu == 0 then rx.world else wifi_cnt_inc rx.world band 72;
            entry = record rx.entry { band = band };
          })
          pn
          band
unfolding classify_open dispatch
classify_in_order n fuel c rx pn band keeps next =
    let e : Entry = record rx.entry { band = band } in
    let w = if pn.amsdu == 0 then rx.world else wifi_cnt_inc rx.world band 72 in
    rw
      (
        classify_open,
        update_kept fuel w e pn.sn pn.amsdu keeps,
        found_in_order n fuel (record rx { world = w; entry = e }) pn.sn next,
      )
      refl

pub classify_pn_open :
    (n fuel : ℕ) (c : Chip) (rx out : Rx) (pn : Node) (buf_id band : ℕ)
    → (pn.wcid == 0) ≡ false
    → rx.entry.state ≡ 4
    → classify_open n fuel c rx pn band ≡ some out
    → kite_classify_pn n fuel c rx pn buf_id band ≡ some (minus_one, out)
unfolding kite_classify_pn
classify_pn_open n fuel c rx out pn buf_id band station state run =
    let shut : (rx.entry.state == 0) ≡ false = ground (arith, state) in
    let begun : (rx.entry.state == 3) ≡ false = ground (arith, state) in
    rw (station, shut, begun, run) refl

pub classify_fast_straight :
    (n fuel : ℕ) (c : Chip) (r : Route) (va : ℕ → ℕ) (refuses : Exit → ℕ → Bool) (rx out : Rx)
    (pn : Node) (buf_id len band : ℕ) (exit : Exit)
    → (pn.wcid == 0) ≡ false
    → takes_detour r rx.entry pn band ≡ false
    → fast_path fuel va refuses rx pn len band ≡ some (exit, out)
    → kite_classify_fast n fuel c r va refuses rx pn buf_id len band
      ≡ some (exit ∷ [], (minus_one, out))
unfolding kite_classify_fast
classify_fast_straight n fuel c r va refuses rx out pn buf_id len band exit station fast run =
    rw (station, fast, run) refl

pub detour-state :
    (r : Route) (e : Entry) (pn : Node) (band : ℕ) → takes_detour r e pn band ≡ false → e.state ≡ 4
unfolding takes_detour
detour-state r e pn band h = ground (arith, h)

pub detour-keeps :
    (r : Route) (e : Entry) (pn : Node) (band sn : ℕ)
    → takes_detour r e pn band ≡ false
    → keeps_window e sn pn.amsdu ≡ true
unfolding takes_detour
detour-keeps r e pn band sn h = ground (arith, h)

pub detour-next :
    (r : Route) (e : Entry) (pn : Node) (band : ℕ)
    → takes_detour r e pn band ≡ false
    → (u12 (e.last + 1) == pn.sn) ≡ true
unfolding takes_detour
detour-next r e pn band h = ground (arith, h)

pub counted-nodes :
    (w : World) (pn : Node) (band : ℕ)
    → (if pn.amsdu == 0 then w else wifi_cnt_inc w band 72).nodes ≡ w.nodes
unfolding wifi_cnt_inc
counted-nodes w pn band = elim (Bool-cases (pn.amsdu == 0)) [
  | inl e ↦ rw e refl
  | inr e ↦ rw e refl
]

pub counted-sent :
    (w : World) (pn : Node) (band : ℕ)
    → (if pn.amsdu == 0 then w else wifi_cnt_inc w band 72).sent ≡ w.sent
unfolding wifi_cnt_inc
counted-sent w pn band = elim (Bool-cases (pn.amsdu == 0)) [ inl e ↦ rw e refl | inr e ↦ rw e refl ]
