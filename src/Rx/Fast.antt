-- ===== src/Rx/Fast.antt =====
-- npu_wifi_rx.c: kite_classify_fast after the parse, with the counters off, which takes the frames of an
-- open session that are in order past kite_classify_pn; and the choice of pkt_enqueue_bridge in
-- npu_wifi_ba.c that it makes itself. `va` is wifi_pkt_va, and `refuses` tells for an exit and a buffer
-- whether pkt_forward or tdma_tx_submit answers with an error.
pub mod Runs
pub mod Steps
pub mod Agree
use clanker_npu.Prelude.{
  ℕ, ◌+◌, ◌-◌, ◌*◌, ◌/◌, ◌%◌, ◌^◌, Bool, true, false, ◌&&◌, ◌||◌, not, List, [], ◌∷◌, ◌++◌, Option,
  none, some, if◌then◌else◌, ltb, leb, ◌==◌, add32, sub32, u8, u16,
}
use clanker_npu.Ba.{Node, Entry, Frame, World, u12, ba_seq_scan}
use clanker_npu.Ba.Session.{take_last}
use clanker_npu.IdRing.{minus_one}
use clanker_npu.Rx.{Rx, Chip, mark, buf_id_free}
use clanker_npu.Rx.Classify.{kite_classify_pn}

-- The address of the entry of (wcid, tid), as the fast path computes it.
pub fast_entry_addr : Bool → ℕ → ℕ → ℕ → ℕ → ℕ → ℕ
fast_entry_addr dbdc band wcid tid a b =
    if dbdc && ltb 150 wcid
    then add32 a (28 * (8 * (wcid - 151) + tid))
    else if dbdc || not (band == 0)
    then add32 b (28 * (8 * (wcid - 1) + tid))
    else add32 a (28 * (8 * (wcid - 1) + tid))

-- The settings that send frames past the bridge: ratelimit_table, wifi_band_cap, wifi_force_to_cpu and
-- wifi_wait_band_2g and 5g.
pub record Route : Type 0 where
  pub ratelimit : ℕ → ℕ
  pub cap : ℕ
  pub force : Bool
  pub wait_2g : ℕ
  pub wait_5g : ℕ

-- Where a frame goes: to the host ring, rate limited or not, or to the chip with a length and an address.
pub data Exit : Type 0 where
  to_host : Bool → ℕ → Exit
  to_tdma : ℕ → ℕ → Exit

-- pkt_enqueue_bridge on bands 0 and 1: the exit, and the buffers that go back to the buffer manager
-- because the exit refused the frame.
pub bridge_exit : Route → (ℕ → ℕ) → (Exit → ℕ → Bool) → Frame → Exit × List ℕ
bridge_exit r va refuses f =
    let with_freed : Exit → Exit × List ℕ =
      λ exit. (exit, if refuses exit f.buf then f.buf ∷ [] else []) in
    let size = u16 (sub32 f.len f.hdr) in
    let waits = r.force && ((f.band == 1 && r.wait_5g == 1) || (f.band == 0 && r.wait_2g == 1)) in
    if not (r.ratelimit (f.band * 16 + f.bss) == 0)
    then with_freed (to_host true f.len)
    else if waits || r.cap == 0
    then with_freed (to_host false f.len)
    else with_freed (to_tdma (u16 (sub32 size 2)) (add32 (add32 (va f.buf) 2) f.hdr))

-- The test that keeps a frame off the fast path.
unfoldable pub takes_detour : Route → Entry → Node → ℕ → Bool
takes_detour r e pn band =
    not (e.state == 4)
    || (leb (u8 (e.amsdu + 254)) 1
        || (not (u12 (e.last + 1) == pn.sn)
            || (not (r.ratelimit (band * 16 + pn.bss) == 0)
                || (r.cap == 0 || (r.force && (if band == 0 then r.wait_2g else r.wait_5g) == 1)))))

-- The entry after a frame with no further MSDU: held frames are looked at only if there are any.
pub catch_up : ℕ → World → Entry → Node → Option (World × Entry)
catch_up fuel w e pn =
    let at : Entry = record e { last = pn.sn } in
    let scanned : Option (World × Entry) = elim (ba_seq_scan fuel w at pn.sn) [
      | none ↦ none
      | some (r, u, g) ↦ some (u, record (take_last g r) { msdu = 0 })
    ] in
    if e.head == 0 then some (w, record at { msdu = 0 }) else scanned

-- The buffer of a frame that the exit refused goes back to the buffer manager.
pub free_refused : Bool → Rx → ℕ → Rx
free_refused true rx buf = buf_id_free rx buf
free_refused false rx buf = rx

-- The fast path itself: the call of tdma_tx_submit and the state; `len` is the length of the descriptor.
pub fast_path : ℕ → (ℕ → ℕ) → (Exit → ℕ → Bool) → Rx → Node → ℕ → ℕ → Option (Exit × Rx)
fast_path fuel va refuses rx pn len band =
    let e : Entry = record rx.entry { band = band } in
    let exit = to_tdma (u16 (sub32 (sub32 len pn.hdr) 2)) (add32 (add32 (va pn.buf) 2) pn.hdr) in
    let given = free_refused (refuses exit pn.buf) rx pn.buf in
    let caught : Option (Exit × Rx) = elim (catch_up fuel given.world e pn) [
      | none ↦ none
      | some (u, g) ↦ some (exit, record given { world = u; entry = mark g pn 0 })
    ] in
    if leb pn.amsdu 1 then caught else some (exit, record given { entry = mark e pn 0 })

-- kite_classify_fast from the parsed frame on: what was submitted to the chip here, and the value with
-- the state as in kite_classify_pn.
pub kite_classify_fast :
    ℕ
    → ℕ
    → Chip
    → Route
    → (ℕ → ℕ)
    → (Exit → ℕ → Bool)
    → Rx
    → Node
    → ℕ
    → ℕ
    → ℕ
    → Option (List Exit × (ℕ × Rx))
kite_classify_fast n fuel c r va refuses rx pn buf_id len band =
    let slow : Option (List Exit × (ℕ × Rx)) = elim (kite_classify_pn n fuel c rx pn buf_id band) [
      | none ↦ none
      | some out ↦ some ([], out)
    ] in
    let fast : Option (List Exit × (ℕ × Rx)) = elim (fast_path fuel va refuses rx pn len band) [
      | none ↦ none
      | some (exit, out) ↦ some (exit ∷ [], (minus_one, out))
    ] in
    if pn.wcid == 0 || takes_detour r rx.entry pn band then slow else fast
