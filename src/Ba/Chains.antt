-- ===== src/Ba/Chains.antt =====
-- npu_wifi_ba.c: the linked nodes of an entry stand for a list of MPDUs, each with the list of its
-- further MSDUs; what a release leaves of them.
use clanker_npu.Prelude.{ℕ, ◌≡◌, ◌≢◌, sym, ◌∙◌, List, [], ◌∷◌, map, All}
use clanker_npu.Ba.{Node, Pools, Frame, World, pool_free, frame_of}

-- What no release changes of a node.
abbrev pub bare : Node → Node
bare n = record n { msdu_head = 0; msdu_tail = 0; msdus = 0 }

-- The nodes linked from p on.
abbrev pub Chain : (ℕ → Node) → ℕ → List Node → Type 0
Chain nodes p [] = p ≡ 0
Chain nodes p (n ∷ ns) = (p ≢ 0) × ((bare (nodes p) ≡ n) × Chain nodes n.next ns)

pub record Mpdu : Type 0 where
  pub addr : ℕ
  pub node : Node
  pub subs : List Node

-- The MPDUs linked from p on, at addresses of their own.
abbrev pub Queue : (ℕ → Node) → ℕ → List Mpdu → Type 0
Queue nodes p [] = p ≡ 0
Queue nodes p (m ∷ ms) =
    (p ≡ m.addr)
    × ((p ≢ 0)
        × ((bare (nodes p) ≡ m.node)
            × (Chain nodes (nodes p).msdu_head m.subs
                × (All (λ k. k.addr ≢ p) ms × Queue nodes m.node.next ms))))

-- The frames of an MPDU in the order of its MSDUs, and the indices that its release gives back.
abbrev pub mpdu_frames : ℕ → Mpdu → List Frame
mpdu_frames band m = frame_of band m.node.bss m.node ∷ map (frame_of band m.node.bss) m.subs

abbrev pub free_subs : Pools → List Node → Pools
free_subs p [] = p
free_subs p (n ∷ ns) = free_subs (pool_free p n.idx n.pool) ns

abbrev pub free_mpdu : Pools → Mpdu → Pools
free_mpdu p m = pool_free (free_subs p m.subs) m.node.idx m.node.pool

-- From w to v, only node a changed, and only in what it holds of its MSDUs.
pub record Kept (a : ℕ) (w v : World) : Type 0 where
  pub bares : (b : ℕ) → bare (v.nodes b) ≡ bare (w.nodes b)
  pub others : (b : ℕ) → b ≢ a → v.nodes b ≡ w.nodes b

pub Kept-trans : {a : ℕ} {w v u : World} → Kept a w v → Kept a v u → Kept a w u
Kept-trans k l = record {
  bares = λ b. l.bares b ∙ k.bares b;
  others = λ b ne. l.others b ne ∙ k.others b ne;
}

pub Chain-Kept :
    (a : ℕ) (w v : World) (p : ℕ) (ns : List Node)
    → Kept a w v
    → Chain w.nodes p ns
    → Chain v.nodes p ns
Chain-Kept a w v p [] k c = c
Chain-Kept a w v p (n ∷ ns) k c = (c.0, (k.bares p ∙ c.1.0, Chain-Kept a w v n.next ns k c.1.1))

pub Queue-Kept :
    (a : ℕ) (w v : World) (p : ℕ) (ms : List Mpdu)
    → Kept a w v
    → All (λ m. m.addr ≢ a) ms
    → Queue w.nodes p ms
    → Queue v.nodes p ms
Queue-Kept a w v p [] k apart q = q
Queue-Kept a w v p (m ∷ ms) k apart (at, (ne, (node, (chain, (alone, rest))))) = (
  at,
  (
    ne,
    (
      k.bares p ∙ node,
      (
        rw (k.others p (λ e. apart.0 (sym at ∙ e)))
            (Chain-Kept a w v (w.nodes p).msdu_head m.subs k chain),
        (alone, Queue-Kept a w v m.node.next ms k apart.1 rest),
      ),
    ),
  ),
)
