-- ===== src/Rx/Splice.antt =====
-- npu_wifi_rx.c: a node linked into a queue of MPDUs, between the node `prev` and what follows it.
-- A mark on the addresses tells MPDUs from the nodes of their further MSDUs.
use clanker_npu.Prelude.{
  ℕ, ◌≡◌, ◌≢◌, refl, ap, sym, ◌∙◌, arith, Bool, true, false, List, [], ◌∷◌, ◌++◌, All, ◌==◌,
  ==_refl, subst,
}
use clanker_npu.Ba.{Node, store}
use clanker_npu.Ba.Chains.{Mpdu, Chain, Queue, bare}

-- No further MSDU lies at a marked address.
abbrev pub SubsOut : (ℕ → Bool) → ℕ → List Node → Type 0
SubsOut f p [] = Unit
SubsOut f p (n ∷ ns) = (f p ≡ false) × SubsOut f n.next ns

-- The MPDUs lie at marked addresses, and their further MSDUs do not.
abbrev pub Marked : (ℕ → Bool) → (ℕ → Node) → List Mpdu → Type 0
Marked f nodes ms = All (λ m. (f m.addr ≡ true) × SubsOut f (nodes m.addr).msdu_head m.subs) ms

abbrev pub Fresh : ℕ → List Mpdu → Type 0
Fresh k ms = All (λ m. m.addr ≢ k) ms

stored_ne : (nodes : ℕ → Node) (a b : ℕ) (n : Node) → b ≢ a → store nodes a n b ≡ nodes b
stored_ne nodes a b n ne = let e : (b == a) ≡ false = ground arith in rw e refl

pub stored_self : (nodes : ℕ → Node) (a : ℕ) (n : Node) → store nodes a n a ≡ n
stored_self nodes a n = rw (==_refl a) refl

mark_ne : (f : ℕ → Bool) (a b : ℕ) → f a ≡ true → f b ≡ false → b ≢ a
mark_ne f a b t e same = let bad : true ≡ false = sym t ∙ (ap f (sym same) ∙ e) in cc

Chain-store :
    (f : ℕ → Bool) (nodes : ℕ → Node) (a : ℕ) (n : Node) (p : ℕ) (ns : List Node)
    → f a ≡ true
    → SubsOut f p ns
    → Chain nodes p ns
    → Chain (store nodes a n) p ns
Chain-store f nodes a n p [] marked out c = c
Chain-store f nodes a n p (x ∷ ns) marked out c = (
  c.0,
  (
    rw (stored_ne nodes a p n (mark_ne f a p marked out.0)) c.1.0,
    Chain-store f nodes a n x.next ns marked out.1 c.1.1,
  ),
)

-- A store at a marked address that is none of theirs leaves a queue.
pub Queue-store :
    (f : ℕ → Bool) (nodes : ℕ → Node) (a : ℕ) (n : Node) (p : ℕ) (ms : List Mpdu)
    → f a ≡ true
    → Fresh a ms
    → Marked f nodes ms
    → Queue nodes p ms
    → Queue (store nodes a n) p ms
Queue-store f nodes a n p [] marked fresh m q = q
Queue-store f nodes a n p (x ∷ ms) marked fresh m (at, (ne, (node, (chain, (alone, rest))))) =
    let same : store nodes a n p ≡ nodes p = stored_ne nodes a p n (λ e. fresh.0 (sym at ∙ e)) in
    let out : SubsOut f (nodes p).msdu_head x.subs = rw at m.0.1 in
    (
      at,
      (
        ne,
        (
          rw same node,
          (
            rw same (Chain-store f nodes a n (nodes p).msdu_head x.subs marked out chain),
            (alone, Queue-store f nodes a n x.node.next ms marked fresh.1 m.1 rest),
          ),
        ),
      ),
    )

-- A store leaves the marks where it keeps the first MSDU.
pub Marked-store :
    (f : ℕ → Bool) (nodes : ℕ → Node) (a : ℕ) (n : Node) (ms : List Mpdu)
    → Fresh a ms
    → Marked f nodes ms
    → Marked f (store nodes a n) ms
Marked-store f nodes a n [] fresh m = tt
Marked-store f nodes a n (x ∷ ms) fresh m = (
  (m.0.0, rw (stored_ne nodes a x.addr n fresh.0) m.0.1),
  Marked-store f nodes a n ms fresh.1 m.1,
)

abbrev pub first_addr : List Mpdu → ℕ
first_addr [] = 0
first_addr (m ∷ ms) = m.addr

abbrev pub last_addr : ℕ → List Mpdu → ℕ
last_addr d [] = d
last_addr d (m ∷ ms) = last_addr m.addr ms

pub Queue-first : (nodes : ℕ → Node) (p : ℕ) (ms : List Mpdu) → Queue nodes p ms → p ≡ first_addr ms
Queue-first nodes p [] q = q
Queue-first nodes p (m ∷ ms) q = q.0

-- The MPDU with another successor, and the list whose last one has it.
abbrev pub follow : ℕ → Mpdu → Mpdu
follow k m = record m { node = record (m.node) { next = k } }

abbrev pub relink : ℕ → List Mpdu → List Mpdu
relink k [] = []
relink k (m ∷ []) = follow k m ∷ []
relink k (m ∷ x ∷ ms) = m ∷ relink k (x ∷ ms)

-- The MPDU of a node with no further MSDUs.
abbrev pub single : (ℕ → Node) → ℕ → ℕ → Mpdu
single nodes k next = record { addr = k; node = bare (record (nodes k) { next = next }); subs = [] }

-- The new node before the queue ys.
pub Queue-front :
    (f : ℕ → Bool) (nodes : ℕ → Node) (k p : ℕ) (ys : List Mpdu)
    → f k ≡ true
    → k ≢ 0
    → (nodes k).msdu_head ≡ 0
    → Fresh k ys
    → Marked f nodes ys
    → Queue nodes p ys
    → Queue
        (store nodes k (record (nodes k) { next = first_addr ys }))
        k
        (single nodes k (first_addr ys) ∷ ys)
Queue-front f nodes k p ys marked ne head fresh m q =
    let n : Node = record (nodes k) { next = first_addr ys } in
    let self = stored_self nodes k n in
    (
      refl,
      (
        ne,
        (
          ap bare self,
          (
            ap (λ (x : Node). x.msdu_head) self ∙ head,
            (
              fresh,
              Queue-store f nodes k n (first_addr ys) ys marked fresh m
                  (subst (λ a. Queue nodes a ys) (Queue-first nodes p ys q) q),
            ),
          ),
        ),
      ),
    )

pub Fresh-append : (k : ℕ) (xs ys : List Mpdu) → Fresh k (xs ++ ys) → Fresh k xs × Fresh k ys
Fresh-append k [] ys h = (tt, h)
Fresh-append k (x ∷ xs) ys h = ((h.0, (Fresh-append k xs ys h.1).0), (Fresh-append k xs ys h.1).1)

Fresh-relink : (k a : ℕ) (xs ys : List Mpdu) → Fresh a (xs ++ ys) → Fresh a (relink k xs ++ ys)
Fresh-relink k a [] ys h = h
Fresh-relink k a (x ∷ []) ys h = h
Fresh-relink k a (x ∷ y ∷ xs) ys h = (h.0, Fresh-relink k a (y ∷ xs) ys h.1)

Fresh-insert :
    (a : ℕ) (m : Mpdu) (xs ys : List Mpdu)
    → m.addr ≢ a
    → Fresh a (xs ++ ys)
    → Fresh a (xs ++ m ∷ ys)
Fresh-insert a m [] ys ne h = (ne, h)
Fresh-insert a m (x ∷ xs) ys ne h = (h.0, Fresh-insert a m xs ys ne h.1)

last_ne : (a : ℕ) (x : Mpdu) (xs : List Mpdu) → Fresh a (x ∷ xs) → last_addr x.addr xs ≢ a
last_ne a x [] h = h.0
last_ne a x (y ∷ xs) h = last_ne a y xs h.1

last-Marked :
    (f : ℕ → Bool) (nodes : ℕ → Node) (x : Mpdu) (xs ys : List Mpdu)
    → Marked f nodes (x ∷ xs ++ ys)
    → f (last_addr x.addr xs) ≡ true
last-Marked f nodes x [] ys m = m.0.0
last-Marked f nodes x (y ∷ xs) ys m = last-Marked f nodes y xs ys m.1

-- The node k behind the MPDUs x ∷ xs of a queue, at the head of what follows them.
pub Queue-link :
    (f : ℕ → Bool) (nodes : ℕ → Node) (k p : ℕ) (x : Mpdu) (xs ys : List Mpdu) (new : Mpdu)
    → new.addr ≡ k
    → f k ≡ true
    → Marked f nodes (x ∷ xs ++ new ∷ ys)
    → Fresh k (x ∷ xs)
    → Queue nodes k (new ∷ ys)
    → Queue nodes p (x ∷ xs ++ ys)
    → let prev = last_addr x.addr xs in
      Queue (store nodes prev (record (nodes prev) { next = k })) p (relink k (x ∷ xs) ++ new ∷ ys)
Queue-link f nodes k p x [] ys new at_k marked m fresh tail
      (at, (ne, (node, (chain, (alone, rest))))) =
    let prev = x.addr in
    let n : Node = record (nodes prev) { next = k } in
    let self : store nodes prev n p ≡ n = rw at (stored_self nodes prev n) in
    let back : nodes p ≡ nodes prev = ap nodes at in
    let kept =
      Queue-store f nodes prev n k (new ∷ ys) m.0.0
        (λ e. fresh.0 (sym e ∙ at_k), subst (λ a. Fresh a ys) at alone) m.1 tail in
    (
      at,
      (
        ne,
        (
          rw self (ap (λ (y : Node). record y { next = k }) (ap bare (sym back) ∙ node)),
          (
            rw self (
                Chain-store f nodes prev n (nodes prev).msdu_head x.subs m.0.0 m.0.1
                  (rw at at chain)),
            ((λ e. fresh.0 (sym at ∙ (sym e ∙ at_k)), alone), kept),
          ),
        ),
      ),
    )
Queue-link f nodes k p x (y ∷ xs) ys new at_k marked m fresh tail
      (at, (ne, (node, (chain, (alone, rest))))) =
    let prev = last_addr y.addr xs in
    let n : Node = record (nodes prev) { next = k } in
    let prev_marked = last-Marked f nodes y xs (new ∷ ys) m.1 in
    let same : store nodes prev n p ≡ nodes p =
      stored_ne nodes prev p n (λ e. last_ne p y xs (Fresh-append p (y ∷ xs) ys alone).0 (sym e)) in
    (
      at,
      (
        ne,
        (
          rw same node,
          (
            rw same (
                Chain-store f nodes prev n (nodes p).msdu_head x.subs prev_marked (rw at m.0.1)
                  chain),
            (
              Fresh-relink k p (y ∷ xs) (new ∷ ys)
                  (Fresh-insert p new (y ∷ xs) ys (λ e. fresh.0 (sym at ∙ (sym e ∙ at_k))) alone),
              Queue-link f nodes k x.node.next y xs ys new at_k marked m.1 fresh.1 tail rest,
            ),
          ),
        ),
      ),
    )
