-- ===== src/Fwd/Segments.antt =====
-- npu_wifi_fwd.c: rxnode_drain, which waits for the segments of a frame and hands them to the host
-- together. Another core fills the ring meanwhile: `look n i` is the flag byte of slot i at the n-th poll.
-- `answers k` is what the k-th call of host_ring_submit returns.
pub mod Scan
pub mod Release
use clanker_npu.Prelude.{
  ℕ, zero, suc, ◌+◌, ◌-◌, ◌*◌, ◌/◌, ◌%◌, ◌^◌, Bool, true, false, ◌&&◌, ◌||◌, not, List, [], ◌∷◌,
  ◌++◌, Option, none, some, if◌then◌else◌, ltb, leb, ◌==◌, bit, u16, shr, replicate,
}
use clanker_npu.Fwd.{Ring, RxNode, Submit, Fwd, put_at, rx_cleared, rxnode_ring_size, next_slot}

-- What one turn of the scan leads to: its end with `submit`, or the next turn.
pub data Turn : Type 0 where
  stop : Bool → ℕ → List ℕ → Turn
  go : ℕ → ℕ → ℕ → List ℕ → Turn

-- The counters of a last segment, when the flags say `total` and `seg`.
pub last_counts : ℕ → ℕ → ℕ → List ℕ
last_counts total seg next =
    if total == next && seg == next
    then 164 ∷ []
    else if total == next
    then 172 ∷ []
    else if total == seg
    then 176 ∷ []
    else 172 ∷ 176 ∷ []

pub rx_turn : ℕ → ℕ → ℕ → ℕ → ℕ → List ℕ → Turn
rx_turn flags limit tries count scan log =
    let total = shr flags 5 in
    let seg = shr flags 2 % 8 in
    let next = u16 (count + 1) in
    let seen = log ++ 156 ∷ 160 ∷ [] in
    if bit flags 0 == 0
    then (if ltb limit (tries + 1)
        then stop false count (log ++ 156 ∷ 184 ∷ [])
        else go (tries + 1) count scan (log ++ 156 ∷ []))
    else if not (bit flags 1 == 0)
    then stop (total == next && seg == next) next (seen ++ 168 ∷ last_counts total seg next)
    else if leb total next
    then stop false count (seen ++ 180 ∷ [])
    else if ltb limit tries
    then stop false next (seen ++ 184 ∷ [])
    else go tries next (next_slot rxnode_ring_size scan) seen

-- The scan: whether the frame is complete, the number of its segments, and the counters.
pub rx_scan : ℕ → (ℕ → ℕ → ℕ) → ℕ → ℕ → ℕ → ℕ → ℕ → List ℕ → Option (Bool × (ℕ × List ℕ))
rx_scan zero look limit poll tries count scan log = none
rx_scan (suc fuel) look limit poll tries count scan log =
    elim (rx_turn (look poll scan) limit tries count scan log) [
      | stop submit n out ↦ some (submit, (n, out))
      | go t n i out ↦ rx_scan fuel look limit (suc poll) t n i out
    ]

-- The retries after a refused call: how many calls there are, and whether the last was taken.
pub retry_loop : ℕ → (ℕ → ℕ) → ℕ → ℕ × Bool
retry_loop zero answers k = (0, false)
retry_loop (suc n) answers k =
    let rest = retry_loop n answers (k + 1) in
    if answers k == 0 then (1, true) else (rest.0 + 1, rest.1)

abbrev pub rx_submit : RxNode → Submit
rx_submit n = record {
  buf = n.buf;
  len = n.len;
  wcid = 0;
  amsdu = 0;
  kind = shr n.flags 2;
  orig = n.orig;
  is_last = bit n.flags 1;
  info = 0;
}

-- The calls of host_ring_submit for one segment, with the counters and the number of the next call.
pub submit_segment : Fwd → RxNode → ℕ → (ℕ → ℕ) → ℕ → Fwd × ℕ
submit_segment s n limit answers k =
    let again = retry_loop limit answers (k + 1) in
    let refused : Fwd = record s {
      submits = s.submits ++ replicate (suc again.0) (rx_submit n);
      counts = s.counts ++ 136 ∷ (if again.1 then 188 ∷ [] else []);
    } in
    if answers k == 0
    then (
      record s { submits = s.submits ++ rx_submit n ∷ []; counts = s.counts ++ 188 ∷ [] },
      k + 1,
    )
    else (refused, k + again.0 + 1)

-- The loop that hands `count` segments to the host or drops them.
pub release : ℕ → Fwd → Bool → ℕ → (ℕ → ℕ) → ℕ → Fwd
release zero s submit limit answers k = s
release (suc count) s submit limit answers k =
    let n = s.rx.nodes s.rx.ridx in
    let sent = if submit then submit_segment s n limit answers k else (s, k) in
    release count
      (record sent.0 {
        rx = record s.rx {
          nodes = put_at s.rx.nodes s.rx.ridx rx_cleared;
          ridx = next_slot rxnode_ring_size s.rx.ridx;
        };
        freed = s.freed ++ n.buf ∷ [];
        counts = sent.0.counts ++ 192 ∷ [];
      })
      submit limit answers sent.1

pub rxnode_drain : ℕ → Fwd → (ℕ → ℕ → ℕ) → ℕ → (ℕ → ℕ) → Option Fwd
rxnode_drain fuel s look limit answers =
    let scanned : Option Fwd = elim (rx_scan fuel look limit 1 0 0 s.rx.ridx []) [
      | none ↦ none
      | some (submit, (n, log)) ↦
          some (release n (record s { counts = s.counts ++ log }) submit limit answers 0)
    ] in
    if bit (look 0 s.rx.ridx) 0 == 0
    then some (record s { counts = s.counts ++ 152 ∷ [] })
    else scanned
