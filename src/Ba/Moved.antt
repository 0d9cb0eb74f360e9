-- ===== src/Ba/Moved.antt =====
-- npu_wifi_ba.c: what the release of a list of held MPDUs comes to, one round after the other.
use mathlib.Core.List.{append_assoc}
use clanker_npu.Prelude.{
  ℕ, ◌+◌, ◌%◌, ◌^◌, ◌≤◌, ◌≡◌, refl, ap, ap₂, ◌∙◌, arith, List, [], ◌∷◌, ◌++◌, some, length,
}
use clanker_npu.Ba.{Node, Entry, Pools, Frame, World, ba_pop_mpdu, ba_release_mpdu}
use clanker_npu.Ba.Release.{append_nil, ba_release_mpdu-Out}
use clanker_npu.Ba.Chains.{Mpdu, Queue, mpdu_frames, free_mpdu, Queue-Kept}

-- The frames and the pools after the release of a list of MPDUs.
abbrev pub all_frames : ℕ → List Mpdu → List Frame
all_frames band [] = []
all_frames band (m ∷ ms) = mpdu_frames band m ++ all_frames band ms

abbrev pub free_all : Pools → List Mpdu → Pools
free_all p [] = p
free_all p (m ∷ ms) = free_all (free_mpdu p m) ms

-- Rounds that are enough: one for each MPDU, and below it one for each of its MSDUs.
abbrev pub rounds : List Mpdu → ℕ
rounds [] = 0
rounds (m ∷ ms) = 1 + length m.subs + rounds ms

-- From (w, e) to (v, f), the MPDUs `gone` are released and `left` still held.
pub record Moved (w : World) (e : Entry) (gone left : List Mpdu) (v : World) (f : Entry)
    : Type 0 where
  pub held : Queue v.nodes f.head left
  pub sent : v.sent ≡ w.sent ++ all_frames e.band gone
  pub pools : v.pools ≡ free_all w.pools gone
  pub band : f.band ≡ e.band
  pub win : f.win ≡ e.win
  pub count : (f.count + length gone) % 2 ^ 16 ≡ e.count % 2 ^ 16

pub none_gone :
    (w : World) (e : Entry) (ms : List Mpdu) → Queue w.nodes e.head ms → Moved w e [] ms w e
none_gone w e ms q = record {
  held = q;
  sent = append_nil w.sent;
  pools = refl;
  band = refl;
  win = refl;
  count = omega arith;
}

-- One round: the head is popped and released.
pub one_gone :
    (fuel : ℕ) (w : World) (e : Entry) (mode : ℕ) (m : Mpdu) (ms : List Mpdu)
    → Queue w.nodes e.head (m ∷ ms)
    → length m.subs ≤ fuel
    → (v : World) × ((ba_release_mpdu fuel w (ba_pop_mpdu w e).0 e.band mode ≡ some v)
        × Moved w e (m ∷ []) ms v (ba_pop_mpdu w e).1)
unfolding ba_pop_mpdu
one_gone fuel w e mode m ms (at, (ne, (node, (chain, (alone, rest))))) h =
    let (v, (run, out)) =
      ba_release_mpdu-Out fuel w m e.band mode (rw (← at) node) (rw (← at) chain) h in
    (
      v,
      (
        rw at run,
        record {
          held =
              rw (ap (λ (x : Node). x.next) node)
                (Queue-Kept m.addr w v m.node.next ms out.kept (rw (← at) alone) rest);
          sent =
              out.sent ∙ ap (λ (x : List Frame). w.sent ++ x) (append_nil (mpdu_frames e.band m));
          pools = out.pools_after;
          band = refl;
          win = refl;
          count = omega arith;
        },
      ),
    )

-- Releases one after the other.
pub Moved-trans :
    (w : World) (e : Entry) (m : Mpdu) (gone mid left : List Mpdu) (v u : World) (f g : Entry)
    → Moved w e (m ∷ []) mid v f
    → Moved v f gone left u g
    → Moved w e (m ∷ gone) left u g
Moved-trans w e m gone mid left v u f g a b = record {
  held = b.held;
  sent =
      b.sent
      ∙ (ap₂ (λ (x : List Frame) (d : ℕ). x ++ all_frames d gone) a.sent a.band
          ∙ (append_assoc w.sent (mpdu_frames e.band m ++ []) (all_frames e.band gone)
              ∙ ap (λ (x : List Frame). w.sent ++ x)
                  (append_assoc (mpdu_frames e.band m) [] (all_frames e.band gone))));
  pools = b.pools ∙ ap (λ (x : Pools). free_all x gone) a.pools;
  band = b.band ∙ a.band;
  win = b.win ∙ a.win;
  count = omega (arith, a.count, b.count);
}
