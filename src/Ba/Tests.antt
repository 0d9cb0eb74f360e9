-- ===== src/Ba/Tests.antt =====
-- The release loops on a session that holds the numbers 5, 6 and 8, with a second MSDU in 5.
use clanker_npu.Prelude.{
  ℕ, ◌+◌, ◌⊎◌, ◌++◌, map, ◌≡◌, refl, arith, List, [], ◌∷◌, some, none, if◌then◌else◌, ◌==◌,
}
use clanker_npu.Ba.{
  Node, Entry, World, ba_flush_entry, ba_indicate_le_seq, ba_seq_scan, no_sn, scan_loop,
  ba_pop_mpdu, ba_release_mpdu, release_msdus, release_msdu, count_release, frame_of,
  pkt_enqueue_bridge, wifi_cnt_inc, reorder_node_free, pool_free,
}
use clanker_npu.Ba.Chains.{Mpdu, Queue}
use clanker_npu.Ba.Moved.{Moved}
use clanker_npu.Ba.Flush.{last_sn, ba_flush_entry-all}
use clanker_npu.Ba.Indicate.{Indicated, ba_indicate_le_seq-Indicated}
use clanker_npu.Ba.Scan.{Scanned, ba_seq_scan-Scanned}
use clanker_npu.Ba.Session.{ba_timeout_entry, ba_state_update}
use clanker_npu.Ba.Session.Timeout.{Young, ba_timeout_entry-Young}
use clanker_npu.Ba.Session.Restart.{Restarts, Restarted, ba_state_update-Restarted}

-- A node with its successor, its further MSDUs, its number and its index.
abbrev node : ℕ → ℕ → ℕ → ℕ → Node
node next msdus sn idx = record {
  next = next;
  msdu_head = msdus;
  msdu_tail = msdus;
  msdus = if msdus == 0 then 0 else 1;
  hdr = 30;
  tid = 0;
  wcid = 1;
  bss = 2;
  buf = 100 + idx;
  idx = idx;
  sn = sn;
  len = 1500;
  amsdu = 0;
  pool = 1;
  tick = 7;
}

abbrev memory : ℕ → Node
memory a =
    if a == 36
    then node 108 72 5 1
    else if a == 72
    then node 0 0 5 2
    else if a == 108
    then node 144 0 6 3
    else node 0 0 8 4

abbrev world : World
world = record {
  nodes = memory;
  pools = record {
    pri = 0 ∷ 0 ∷ 0 ∷ 0 ∷ 0 ∷ [];
    pri_ridx = 1;
    pri_widx = 0;
    sec = [];
    sec_ridx = 0;
    sec_widx = 0;
  };
  sent = [];
  counts = [];
}

abbrev session : Entry
session = record {
  head = 36;
  tail = 144;
  count = 3;
  msdu = 0;
  win = 64;
  last = 4;
  ref = 4;
  amsdu = 0;
  flag = 0;
  state = 4;
  band = 1;
}

abbrev held : List Mpdu
held =
    record { addr = 36; node = node 108 0 5 1; subs = node 0 0 5 2 ∷ [] }
    ∷ record { addr = 108; node = node 144 0 6 3; subs = [] }
    ∷ record { addr = 144; node = node 0 0 8 4; subs = [] }
    ∷ []

session-Queue : Queue world.nodes session.head held
session-Queue = (
  refl,
  (
    omega arith,
    (
      refl,
      (
        (omega arith, (refl, refl)),
        (
          (omega arith, (omega arith, tt)),
          (
            refl,
            (
              omega arith,
              (
                refl,
                (refl, ((omega arith, tt), (refl, (omega arith, (refl, (refl, (tt, refl))))))),
              ),
            ),
          ),
        ),
      ),
    ),
  ),
)

ba_flush_entry-all_example :
    (v : World) × ((f : Entry) × ((ba_flush_entry 10 world session ≡ some (v, f))
        × (Moved world session held [] v f
            × ((f.last ≡ last_sn session.last held) × (f.msdu ≡ 0)))))
ba_flush_entry-all_example = ba_flush_entry-all 10 world session held session-Queue (omega arith)

ba_indicate_le_seq-Indicated_example :
    (v : World) × ((f : Entry) × ((ba_indicate_le_seq 10 world session 6 ≡ some (v, f))
        × Indicated world session 6 held v f))
ba_indicate_le_seq-Indicated_example =
    ba_indicate_le_seq-Indicated 10 world session 6 held session-Queue (omega arith)

ba_seq_scan-Scanned_example :
    (n : ℕ) × ((v : World) × ((f : Entry) × ((ba_seq_scan 10 world session 4 ≡ some (n, v, f))
          × Scanned world session 4 no_sn held n v f)))
ba_seq_scan-Scanned_example =
    ba_seq_scan-Scanned 10 world session 4 held session-Queue (omega arith)

-- The scan after 4 sends the buffers of 5, of its second MSDU and of 6, and gives out 6.
scan_sends :
    elim (ba_seq_scan 10 world session 4) as (λ _. List ℕ) [
      | none ↦ []
      | some (n, v, f) ↦ n ∷ map (λ x. x.buf) v.sent
    ]
    ≡ 6 ∷ 101 ∷ 102 ∷ 103 ∷ []
unfolding ba_seq_scan scan_loop ba_pop_mpdu ba_release_mpdu release_msdus release_msdu count_release
    frame_of pkt_enqueue_bridge wifi_cnt_inc reorder_node_free pool_free
scan_sends = refl

-- At tick 1000 with a timeout of 100 everything that is held is overdue.
ba_timeout_entry-Young_example :
    (v : World) × ((f : Entry) × ((ba_timeout_entry 3 10 world session 1000 100 ≡ some (v, f))
        × ((gone : List Mpdu) × ((left : List Mpdu) × ((held ≡ gone ++ left)
                × (Moved world session gone left v f × Young 1000 100 left))))))
ba_timeout_entry-Young_example =
    ba_timeout_entry-Young 3 10 world session 1000 100 held session-Queue
      (omega arith, (omega arith, (omega arith, tt))) (omega arith) (omega arith)

-- The session ended on 4 in the middle of an A-MSDU; a frame that starts another one restarts it.
abbrev cut_off : Entry
cut_off = record session { amsdu = 3 }

ba_state_update-Restarted_example :
    (r : ℕ) × ((v : World) × ((f : Entry) × ((ba_state_update 10 world 4 3 cut_off ≡ some (r, v, f))
          × (((¬ Restarts cut_off 4 3) × ((r ≡ 0) × ((v ≡ world) × (f ≡ cut_off))))
              ⊎ (Restarts cut_off 4 3 × ((r ≡ 1) × Restarted world cut_off held v f))))))
ba_state_update-Restarted_example =
    ba_state_update-Restarted 10 world 4 3 cut_off held session-Queue (omega arith)
