-- ===== src/Fwd/Start.antt =====
-- npu_wifi_fwd.c: the state in which the histories of the rings begin.
use clanker_npu.Prelude.{ℕ, ◌≤◌, ◌<◌, ◌≡◌, refl, sym, subst, arith, [], ltb, bit, false}
use clanker_npu.Fwd.{
  PiNode, RxNode, Fwd, clear_pi, clear_rx, pi_cleared, rx_cleared, pinode_ring_size,
  rxnode_ring_size, wifi_pkt_queue_init,
}
use clanker_npu.Fwd.Slots.{slot, slot_zero}
use clanker_npu.Fwd.Ends.{PiHolds, size_some}
use clanker_npu.Fwd.Segments.Release.{RxHolds}

clear_pi-flags :
    (count : ℕ) (nodes : ℕ → PiNode) (i : ℕ) → i < count → (clear_pi count nodes i).flags ≡ 0
unfolding clear_pi pi_cleared
clear_pi-flags count nodes i h = ground (arith, h)

clear_rx-flags :
    (count : ℕ) (nodes : ℕ → RxNode) (i : ℕ) → i < count → (clear_rx count nodes i).flags ≡ 0
unfolding clear_rx rx_cleared
clear_rx-flags count nodes i h = ground (arith, h)

clear_all :
    (f : ℕ → ℕ) (size k : ℕ)
    → ((i : ℕ) → i < size → f i ≡ 0)
    → k < size
    → bit (f (slot size 0 k)) 0 ≡ 0
clear_all f size k h l =
    let inside : slot size 0 k < size = ground (arith, l) in rw (h (slot size 0 k) inside) refl

init-open :
    (s : Fwd) (band : ℕ)
    → band ≤ 1
    → wifi_pkt_queue_init s band ≡ record s {
      pi = record { nodes = clear_pi (pinode_ring_size band) s.pi.nodes; widx = 0; ridx = 0 };
      rx = record { nodes = clear_rx rxnode_ring_size s.rx.nodes; widx = 0; ridx = 0 };
    }
unfolding wifi_pkt_queue_init
init-open s band h = let test : ltb 1 band ≡ false = ground (arith, h) in rw test refl

Empty : ℕ → Fwd → Type 0
Empty band s = PiHolds band s [] × RxHolds s []

-- wifi_pkt_queue_init of band 0 or 1 empties both rings of the band, whatever they held.
pub wifi_pkt_queue_init-Holds :
    (s : Fwd) (band : ℕ)
    → band ≤ 1
    → PiHolds band (wifi_pkt_queue_init s band) [] × RxHolds (wifi_pkt_queue_init s band) []
unfolding Empty
wifi_pkt_queue_init-Holds s band h =
    let size = pinode_ring_size band in
    let room = size_some band in
    subst (Empty band) (sym (init-open s band h)) (
      record {
        start_in = room;
        fits = omega arith;
        end_at = sym (slot_zero size 0 room);
        reads = λ k l. absurd (omega arith);
        ready = λ k l. absurd (omega arith);
        free = λ k a l.
            clear_all (λ i. (clear_pi size s.pi.nodes i).flags) size k
              (clear_pi-flags size s.pi.nodes) l;
      },
      record {
        start_in = omega arith;
        fits = omega arith;
        end_at = sym (slot_zero rxnode_ring_size 0 (omega arith));
        reads = λ k l. absurd (omega arith);
        ready = λ k l. absurd (omega arith);
        free = λ k a l.
            clear_all (λ i. (clear_rx 128 s.rx.nodes i).flags) 128 k (clear_rx-flags 128 s.rx.nodes)
              l;
      },
    )
