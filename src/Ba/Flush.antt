-- ===== src/Ba/Flush.antt =====
-- npu_wifi_ba.c: ba_flush_entry releases every held MPDU.
use clanker_npu.Prelude.{
  ℕ, zero, suc, ◌≤◌, ◌≡◌, refl, ap, ◌∙◌, arith, false, List, [], ◌∷◌, some, ◌==◌,
}
use clanker_npu.Ba.{Node, Entry, World, ba_pop_mpdu, flush_loop, ba_flush_entry}
use clanker_npu.Ba.Chains.{Mpdu, Queue}
use clanker_npu.Ba.Moved.{Moved, rounds, none_gone, one_gone, Moved-trans}

-- The number of the last MPDU of a list, or d for the empty list.
abbrev pub last_sn : ℕ → List Mpdu → ℕ
last_sn d [] = d
last_sn d (m ∷ ms) = last_sn m.node.sn ms

relabel :
    {w v : World} {e f : Entry} {gone left : List Mpdu} (n : ℕ)
    → Moved w e gone left v f
    → Moved w e gone left v (record f { last = n })
relabel n a = record {
  held = a.held;
  sent = a.sent;
  pools = a.pools;
  band = a.band;
  win = a.win;
  count = a.count;
}

pub head_sn :
    (w : World) (e : Entry) (m : Mpdu) (ms : List Mpdu)
    → Queue w.nodes e.head (m ∷ ms)
    → (w.nodes (ba_pop_mpdu w e).0).sn ≡ m.node.sn
unfolding ba_pop_mpdu
head_sn w e m ms q = ap (λ (n : Node). n.sn) q.1.1.0

flush_loop-Moved :
    (fuel : ℕ) (w : World) (e : Entry) (ms : List Mpdu)
    → Queue w.nodes e.head ms
    → rounds ms ≤ fuel
    → (v : World) × ((f : Entry) × ((flush_loop fuel w e ≡ some (v, f))
          × (Moved w e ms [] v f × (f.last ≡ last_sn e.last ms))))
unfolding flush_loop
flush_loop-Moved zero w e [] q h = (w, (e, (rw q refl, (none_gone w e [] q, refl))))
flush_loop-Moved (suc fuel) w e [] q h = (w, (e, (rw q refl, (none_gone w e [] q, refl))))
flush_loop-Moved zero w e (m ∷ ms) q h = absurd (omega arith)
flush_loop-Moved (suc fuel) w e (m ∷ ms) q h =
    let (v, (run, moved)) = one_gone fuel w e 0 m ms q (omega arith) in
    let f : Entry = record (ba_pop_mpdu w e).1 { last = (w.nodes (ba_pop_mpdu w e).0).sn } in
    let (u, (g, (rest, (all, last)))) = flush_loop-Moved fuel v f ms moved.held (omega arith) in
    let busy : (e.head == 0) ≡ false = ground (arith, q.1.0) in
    (
      u,
      (
        g,
        (
          rw (busy, run) rest,
          (
            Moved-trans w e m ms ms [] v u f g (relabel (w.nodes (ba_pop_mpdu w e).0).sn moved) all,
            last ∙ ap (λ (n : ℕ). last_sn n ms) (head_sn w e m ms q),
          ),
        ),
      ),
    )

-- A session that holds the MPDUs ms, with one round of fuel for each node: ba_flush_entry ends. It
-- hands on the frames of every MPDU and of its MSDUs in the order of the queue, gives the index of
-- every node back to the pools, holds nothing after it, counts the MPDUs down modulo 2^16, and
-- leaves the number of the last MPDU as the last given out and no open A-MSDU.
pub ba_flush_entry-all :
    (fuel : ℕ) (w : World) (e : Entry) (ms : List Mpdu)
    → Queue w.nodes e.head ms
    → rounds ms ≤ fuel
    → (v : World) × ((f : Entry) × ((ba_flush_entry fuel w e ≡ some (v, f))
          × (Moved w e ms [] v f × ((f.last ≡ last_sn e.last ms) × (f.msdu ≡ 0)))))
unfolding ba_flush_entry
ba_flush_entry-all fuel w e ms q h =
    let (v, (f, (run, (moved, last)))) = flush_loop-Moved fuel w e ms q h in
    (
      v,
      (
        record f { msdu = 0 },
        (
          rw (ba_flush_entry, run) refl,
          (
            record {
              held = moved.held;
              sent = moved.sent;
              pools = moved.pools;
              band = moved.band;
              win = moved.win;
              count = moved.count;
            },
            (last, refl),
          ),
        ),
      ),
    )
