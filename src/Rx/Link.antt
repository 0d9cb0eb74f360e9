-- ===== src/Rx/Link.antt =====
-- npu_wifi_rx.c: the linking step of kite_classify_pn, which puts a node between two held ones.
use clanker_npu.Prelude.{
  ℕ, ◌+◌, ◌≡◌, ◌≢◌, refl, sym, ◌∙◌, arith, Bool, true, false, List, [], ◌∷◌, ◌++◌, ◌==◌, u16, subst,
}
use clanker_npu.Ba.{Node, Entry, World, store}
use clanker_npu.Ba.Chains.{Mpdu, Queue}
use clanker_npu.Rx.{link}
use clanker_npu.Rx.Splice.{
  Marked, Fresh, SubsOut, first_addr, last_addr, relink, single, Queue-first, Queue-front,
  Queue-link, Queue-store, Marked-store, Fresh-append,
}

link-front :
    (w : World) (e : Entry) (prev cur k c : ℕ)
    → prev ≡ 0
    → cur ≡ c
    → link w e prev cur k ≡ (
      record w { nodes = store w.nodes k (record (w.nodes k) { next = c }) },
      record e { count = u16 (e.count + 1); head = k },
    )
unfolding link
link-front w e prev cur k c p q = rw (p, q) refl

link-behind :
    (w : World) (e : Entry) (prev cur k p c : ℕ)
    → prev ≡ p
    → p ≢ 0
    → cur ≡ c
    → let nodes = store w.nodes k (record (w.nodes k) { next = c }) in
      link w e prev cur k ≡ (
        record w { nodes = store nodes p (record (nodes p) { next = k }) },
        record e { count = u16 (e.count + 1) },
      )
unfolding link
link-behind w e prev cur k p c at ne q =
    let test : (p == 0) ≡ false = ground arith in rw (at, q, test) refl

pub Queue-drop :
    (nodes : ℕ → Node) (p : ℕ) (xs ys : List Mpdu)
    → Queue nodes p (xs ++ ys)
    → Queue nodes (first_addr ys) ys
Queue-drop nodes p [] ys q = subst (λ a. Queue nodes a ys) (Queue-first nodes p ys q) q
Queue-drop nodes p (x ∷ xs) ys q = Queue-drop nodes x.node.next xs ys q.1.1.1.1.1

last_ne0 :
    (nodes : ℕ → Node) (p : ℕ) (x : Mpdu) (xs ys : List Mpdu)
    → Queue nodes p (x ∷ xs ++ ys)
    → last_addr x.addr xs ≢ 0
last_ne0 nodes p x [] ys q = λ e. q.1.0 (q.0 ∙ e)
last_ne0 nodes p x (y ∷ xs) ys q = last_ne0 nodes x.node.next y xs ys q.1.1.1.1.1

Marked-insert :
    (f : ℕ → Bool) (nodes : ℕ → Node) (new : Mpdu) (xs ys : List Mpdu)
    → (f new.addr ≡ true) × SubsOut f (nodes new.addr).msdu_head new.subs
    → Marked f nodes (xs ++ ys)
    → Marked f nodes (xs ++ new ∷ ys)
Marked-insert f nodes new [] ys n m = (n, m)
Marked-insert f nodes new (x ∷ xs) ys n m = (m.0, Marked-insert f nodes new xs ys n m.1)

Marked-drop :
    (f : ℕ → Bool) (nodes : ℕ → Node) (xs ys : List Mpdu)
    → Marked f nodes (xs ++ ys)
    → Marked f nodes ys
Marked-drop f nodes [] ys m = m
Marked-drop f nodes (x ∷ xs) ys m = Marked-drop f nodes xs ys m.1

-- The memory and the entry with the node linked in hold the queue `now`.
pub record Linked (w : World) (e : Entry) (now : List Mpdu) (out : World × Entry) : Type 0 where
  pub held : Queue out.0.nodes out.1.head now
  pub sent : out.0.sent ≡ w.sent
  pub pools : out.0.pools ≡ w.pools
  pub count : out.1.count ≡ u16 (e.count + 1)
  pub last : out.1.last ≡ e.last

pub link-Linked :
    (f : ℕ → Bool) (w : World) (e : Entry) (prev cur k : ℕ) (front rest : List Mpdu)
    → prev ≡ last_addr 0 front
    → cur ≡ first_addr rest
    → Queue w.nodes e.head (front ++ rest)
    → Marked f w.nodes (front ++ rest)
    → f k ≡ true
    → k ≢ 0
    → Fresh k (front ++ rest)
    → (w.nodes k).msdu_head ≡ 0
    → Linked w e (relink k front ++ single w.nodes k (first_addr rest) ∷ rest) (link w e prev cur k)
link-Linked f w e prev cur k [] rest pa ca q m fk ne fresh head =
    subst (Linked w e (single w.nodes k (first_addr rest) ∷ rest))
      (sym (link-front w e prev cur k (first_addr rest) pa ca))
      (record {
        held = Queue-front f w.nodes k e.head rest fk ne head fresh m q;
        sent = refl;
        pools = refl;
        count = refl;
        last = refl;
      })
link-Linked f w e prev cur k (x ∷ xs) rest pa ca q m fk ne fresh head =
    let n : Node = record (w.nodes k) { next = first_addr rest } in
    let nodes = store w.nodes k n in
    let new = single w.nodes k (first_addr rest) in
    let (fresh_front, fresh_rest) = Fresh-append k (x ∷ xs) rest fresh in
    let tail =
      Queue-front f w.nodes k (first_addr rest) rest fk ne head fresh_rest
        (Marked-drop f w.nodes (x ∷ xs) rest m) (Queue-drop w.nodes e.head (x ∷ xs) rest q) in
    let marked =
      Marked-insert f nodes new (x ∷ xs) rest (fk, tt)
        (Marked-store f w.nodes k n (x ∷ xs ++ rest) fresh m) in
    let old = Queue-store f w.nodes k n e.head (x ∷ xs ++ rest) fk fresh m q in
    subst (Linked w e (relink k (x ∷ xs) ++ new ∷ rest))
      (sym (
        link-behind w e prev cur k (last_addr x.addr xs) (first_addr rest) pa
          (last_ne0 w.nodes e.head x xs rest q) ca))
      (record {
        held = Queue-link f nodes k e.head x xs rest new refl fk marked fresh_front tail old;
        sent = refl;
        pools = refl;
        count = refl;
        last = refl;
      })
