-- ===== src/HostAdpt/Delivery.antt =====
-- npu_wifi_fwd.c with npu_hostadpt.c: pinode_drain with the host_ring_submit that it calls.
use clanker_npu.Prelude.{
  ℕ, zero, suc, ◌+◌, ◌<◌, ◌≤◌, ◌≡◌, refl, sym, ap, ap₂, ◌∙◌, arith, List, [], ◌∷◌, ◌++◌, true,
  false, ◌&&◌, Bool-cases, inl, inr, subst, length, length-append, if◌then◌else◌, not, ◌==◌, bit,
  map,
}
use mathlib.Core.List.{append_assoc, append-nil}
use clanker_npu.Fwd.{PiNode, Fwd, Submit, pi_submit, pinode_drain, pinode_ring_size}
use clanker_npu.Fwd.Fifo.{front-reads, front-ready}
use clanker_npu.Fwd.Ends.{blank, PiHolds}
use clanker_npu.Fwd.Drain.{goes_out, calls, buffers, pinode_drain-Taken}
use clanker_npu.HostAdpt.{Desc, HostAdpt, host_ring_submit}
use clanker_npu.HostAdpt.Words.{desc_of}
use clanker_npu.HostAdpt.Queue.{HostHolds}
use clanker_npu.HostAdpt.Room.{ring_of, submit-room}

-- The arguments of the call, `phys` being wifi_pkt_dma.
abbrev pub at_address : (ℕ → ℕ) → PiNode → Submit
at_address phys n = record (pi_submit n) { buf = phys n.buf }

pub drain_to_host : ℕ → (ℕ → ℕ) → ℕ → Fwd × HostAdpt → Fwd × HostAdpt
drain_to_host limit phys band w =
    let s = w.0 in
    let n = s.pi.nodes s.pi.ridx in
    let out = host_ring_submit limit w.1 (at_address phys n) band in
    if not (bit n.flags 0 == 0) && goes_out n
    then (pinode_drain s band out.0, out.1)
    else (pinode_drain s band 0, w.1)

pub drain_times : ℕ → ℕ → (ℕ → ℕ) → ℕ → Fwd × HostAdpt → Fwd × HostAdpt
drain_times zero limit phys band w = w
drain_times (suc k) limit phys band w =
    drain_times k limit phys band (drain_to_host limit phys band w)

abbrev pub without_buffer : Desc → Desc
without_buffer d = record d { dst = 0 }

-- The words of the frames that go out.
pub words_of : List PiNode → List Desc
words_of ns = map (λ c. without_buffer (desc_of c 0)) (calls ns)

pub record Delivered (band host : ℕ) (w : Fwd × HostAdpt) (q : List Desc) (ns left : List PiNode)
    (out : Fwd × HostAdpt) : Type 0 where
  pub queue : PiHolds band out.0 left
  pub freed : out.0.freed ≡ w.0.freed ++ buffers ns
  pub sent : List Desc
  pub held : HostHolds host (ring_of out.1 band) (q ++ sent)
  pub words : map without_buffer sent ≡ words_of ns

front :
    (band : ℕ) (s : Fwd) (n : PiNode) (ns : List PiNode)
    → PiHolds band s (n ∷ ns)
    → (s.pi.nodes s.pi.ridx ≡ n) × (bit n.flags 0 ≡ 1)
front band s n ns h = (
  front-reads (λ (x : PiNode). x.flags) blank (pinode_ring_size band) s.pi n ns h,
  front-ready (λ (x : PiNode). x.flags) blank (pinode_ring_size band) s.pi n ns h,
)

drain-out :
    (limit : ℕ) (phys : ℕ → ℕ) (band : ℕ) (w : Fwd × HostAdpt) (n : PiNode) (ns : List PiNode)
    → PiHolds band w.0 (n ∷ ns)
    → goes_out n ≡ true
    → drain_to_host limit phys band w ≡ (
      pinode_drain w.0 band (host_ring_submit limit w.1 (at_address phys n) band).0,
      (host_ring_submit limit w.1 (at_address phys n) band).1,
    )
unfolding drain_to_host
drain-out limit phys band w n ns h e = let at = front band w.0 n ns h in rw (at.0, at.1, e) refl

drain-dropped :
    (limit : ℕ) (phys : ℕ → ℕ) (band : ℕ) (w : Fwd × HostAdpt) (n : PiNode) (ns : List PiNode)
    → PiHolds band w.0 (n ∷ ns)
    → goes_out n ≡ false
    → drain_to_host limit phys band w ≡ (pinode_drain w.0 band 0, w.1)
unfolding drain_to_host
drain-dropped limit phys band w n ns h e = let at = front band w.0 n ns h in rw (at.0, at.1, e) refl

words-sent :
    (n : PiNode) (phys : ℕ → ℕ) (dst : ℕ)
    → goes_out n ≡ true
    → map without_buffer (desc_of (at_address phys n) dst ∷ []) ≡ words_of (n ∷ [])
unfolding words_of calls
words-sent n phys dst e = rw e refl

words-dropped : (n : PiNode) → goes_out n ≡ false → map without_buffer [] ≡ words_of (n ∷ [])
unfolding words_of calls
words-dropped n e = rw e refl

drain-Delivered :
    (limit : ℕ) (phys : ℕ → ℕ) (band host : ℕ) (w : Fwd × HostAdpt) (q : List Desc) (n : PiNode)
    (ns : List PiNode)
    → band < 2
    → PiHolds band w.0 (n ∷ ns)
    → HostHolds host (ring_of w.1 band) q
    → length q < 510
    → Delivered band host w q (n ∷ []) ns (drain_to_host limit phys band w)
drain-Delivered limit phys band host w q n ns h queue held room = elim (Bool-cases (goes_out n)) [
  | inl e ↦
      let r = ring_of w.1 band in
      let out = submit-room limit w.1 (at_address phys n) band host q h held room in
      let ret : ℕ = (host_ring_submit limit w.1 (at_address phys n) band).0 in
      let t = pinode_drain-Taken w.0 band ret n ns queue in
      subst (Delivered band host w q (n ∷ []) ns) (sym (drain-out limit phys band w n ns queue e))
        (record {
          queue = t.held;
          freed = t.freed;
          sent = desc_of (at_address phys n) (r.desc r.idx).dst ∷ [];
          held = out.held;
          words = words-sent n phys (r.desc r.idx).dst e;
        })
  | inr e ↦
      let t = pinode_drain-Taken w.0 band 0 n ns queue in
      subst (Delivered band host w q (n ∷ []) ns)
        (sym (drain-dropped limit phys band w n ns queue e))
        (record {
          queue = t.held;
          freed = t.freed;
          sent = [];
          held = subst (HostHolds host (ring_of w.1 band)) (sym (append-nil q)) held;
          words = words-dropped n e;
        })
]

length-map : (xs : List Desc) → length (map without_buffer xs) ≡ length xs
length-map [] = refl
length-map (x ∷ xs) = ap suc (length-map xs)

length-words_of : (n : PiNode) → length (words_of (n ∷ [])) ≤ 1
unfolding words_of calls
length-words_of n = elim (Bool-cases (goes_out n)) [
  | inl e ↦ rw e (omega arith)
  | inr e ↦ rw e (omega arith)
]

sent-length :
    (n : PiNode) (sent : List Desc) → map without_buffer sent ≡ words_of (n ∷ []) → length sent ≤ 1
sent-length n sent e = omega (arith, length-map sent, ap length e, length-words_of n)

map-append :
    (xs ys : List Desc)
    → map without_buffer (xs ++ ys) ≡ map without_buffer xs ++ map without_buffer ys
map-append [] ys = refl
map-append (x ∷ xs) ys = ap (λ zs. without_buffer x ∷ zs) (map-append xs ys)

words_of-cons :
    (n : PiNode) (ns : List PiNode) → words_of (n ∷ ns) ≡ words_of (n ∷ []) ++ words_of ns
unfolding words_of calls
words_of-cons n ns = elim (Bool-cases (goes_out n)) [ inl e ↦ rw e refl | inr e ↦ rw e refl ]

buffers-cons : (n : PiNode) (ns : List PiNode) → buffers (n ∷ ns) ≡ buffers (n ∷ []) ++ buffers ns
unfolding buffers
buffers-cons n ns = elim (Bool-cases (goes_out n)) [ inl e ↦ rw e refl | inr e ↦ rw e refl ]

-- Band 0 or 1, with fewer than 511 frames between the piNode ring of the band and what the host has still
-- to take. As many rounds of pinode_drain as the piNode ring holds frames empty it: the frames that have
-- a buffer and a length stand, with their words and in their order, behind what the host has still to
-- take, and their buffers are given back.
pub drain_times-Delivered :
    (ns : List PiNode) (limit : ℕ) (phys : ℕ → ℕ) (band host : ℕ) (w : Fwd × HostAdpt)
    (q : List Desc)
    → band < 2
    → PiHolds band w.0 ns
    → HostHolds host (ring_of w.1 band) q
    → length q + length ns < 511
    → Delivered band host w q ns [] (drain_times (length ns) limit phys band w)
unfolding drain_times words_of calls buffers
drain_times-Delivered [] limit phys band host w q h queue held room = record {
  queue = queue;
  freed = sym (append-nil w.0.freed);
  sent = [];
  held = subst (HostHolds host (ring_of w.1 band)) (sym (append-nil q)) held;
  words = refl;
}
drain_times-Delivered (n ∷ ns) limit phys band host w q h queue held room =
    let one = drain-Delivered limit phys band host w q n ns h queue held (omega (arith, room)) in
    let few = sent-length n one.sent one.words in
    let longer = length-append q one.sent in
    let w2 = drain_to_host limit phys band w in
    let rest =
      drain_times-Delivered ns limit phys band host w2 (q ++ one.sent) h one.queue one.held
        (omega (arith, room, few, longer)) in
    record {
      queue = rest.queue;
      freed =
          rest.freed
          ∙ (ap (λ xs. xs ++ buffers ns) one.freed
              ∙ (append_assoc w.0.freed (buffers (n ∷ [])) (buffers ns)
                  ∙ ap (λ xs. w.0.freed ++ xs) (sym (buffers-cons n ns))));
      sent = one.sent ++ rest.sent;
      held =
          subst (HostHolds host (ring_of (drain_times (length ns) limit phys band w2).1 band))
            (append_assoc q one.sent rest.sent) rest.held;
      words =
          map-append one.sent rest.sent
          ∙ (ap₂ (λ xs ys. xs ++ ys) one.words rest.words ∙ sym (words_of-cons n ns));
    }
