-- ===== src/IdRing.antt =====
-- npu_wifi_bufid.c: the rings of free ids. One IdRing is the rx buffer id ring or the tx token
-- ring: its slots in SRAM, the two indices, the running counts, and the three debug words that the
-- host reads. `last` is BUFID_POOL_LAST or TX_FREE_RING_LAST.
pub mod Window
pub mod Refine
pub mod Batch
pub mod Conserve
mod Tests
use clanker_npu.Prelude.{
  ℕ, zero, suc, ◌+◌, ◌*◌, ◌-◌, ◌^◌, Bool, true, false, List, [], ◌∷◌, if◌then◌else◌, ltb, ◌==◌,
  length, get_or, set, add32,
}

-- The words of the debug block; they move only while the host has counters on.
pub record Tally : Type 0 where
  pub counting : Bool
  pub freed : ℕ
  pub taken : ℕ
  pub failed : ℕ

pub record IdRing : Type 0 where
  pub slots : List ℕ
  pub last : ℕ
  pub ridx : ℕ
  pub widx : ℕ
  pub alloc_count : ℕ
  pub free_count : ℕ
  pub tally : Tally

abbrev pub minus_one : ℕ
minus_one = 2 ^ 32 - 1

-- `(s32)*(s16 *)p` as a bit pattern.
abbrev pub sign_extend : ℕ → ℕ
sign_extend v = if ltb v (2 ^ 15) then v else v + (2 ^ 32 - 2 ^ 16)

-- `(i == LAST) ? 0 : i + 1`.
abbrev pub next_index : ℕ → ℕ → ℕ
next_index last i = if i == last then 0 else i + 1

pub count_freed : Tally → ℕ → Tally
count_freed t n = if t.counting then record t { freed = add32 t.freed n } else t

pub count_taken : Tally → ℕ → Tally
count_taken t n = if t.counting then record t { taken = add32 t.taken n } else t

pub count_failed : Tally → Tally
count_failed t = if t.counting then record t { failed = add32 t.failed 1 } else t

-- buf_id_return: the rx ring keeps no count of its own.
unfoldable pub buf_id_return : IdRing → ℕ → IdRing
buf_id_return r id = record r {
  slots = set r.slots r.widx id;
  tally = count_freed r.tally 1;
  widx = next_index r.last r.widx;
}

-- tx_token_free.
pub tx_token_free : IdRing → ℕ → IdRing
tx_token_free r token = record r {
  slots = set r.slots r.widx token;
  free_count = add32 r.free_count 1;
  tally = count_freed r.tally 1;
  widx = next_index r.last r.widx;
}

-- buf_id_alloc_ring: one slot always stays behind, so that equal indices mean a full ring.
unfoldable pub buf_id_alloc_ring : IdRing → ℕ × IdRing
buf_id_alloc_ring r =
    let next = next_index r.last r.ridx in
    if r.widx == next then (minus_one, record r { tally = count_failed r.tally }) else (
      sign_extend (get_or r.slots r.ridx 0),
      record r { alloc_count = add32 r.alloc_count 1; tally = count_taken r.tally 1; ridx = next },
    )

-- tx_token_alloc: the same steps on the token ring.
pub tx_token_alloc : IdRing → ℕ × IdRing
tx_token_alloc r =
    let next = next_index r.last r.ridx in
    if r.widx == next then (minus_one, record r { tally = count_failed r.tally }) else (
      sign_extend (get_or r.slots r.ridx 0),
      record r { alloc_count = add32 r.alloc_count 1; tally = count_taken r.tally 1; ridx = next },
    )

-- The loop of id_ring_take: the ids read and the index reached, with w read once.
pub take_loop : List ℕ → ℕ → ℕ → ℕ → ℕ → List ℕ × ℕ
take_loop slots last w zero r = ([], r)
take_loop slots last w (suc max) r =
    let next = next_index last r in
    let rest = take_loop slots last w max next in
    if next == w then ([], r) else (get_or slots r 0 ∷ rest.0, rest.1)

-- id_ring_take: up to max ids under one hold; fewer than max is one failure.
pub id_ring_take : IdRing → ℕ → List ℕ × IdRing
id_ring_take r max =
    let out = take_loop r.slots r.last r.widx max r.ridx in
    let n = length out.0 in
    let t = count_taken r.tally n in
    (
      out.0,
      record r {
        ridx = out.1;
        alloc_count = add32 r.alloc_count n;
        tally = if ltb n max then count_failed t else t;
      },
    )

-- The loop of id_ring_put.
pub put_loop : ℕ → List ℕ → ℕ → List ℕ → List ℕ × ℕ
put_loop last slots w [] = (slots, w)
put_loop last slots w (id ∷ ids) = put_loop last (set slots w id) (next_index last w) ids

-- id_ring_put as tx_token_free_n calls it.
pub tx_token_free_n : IdRing → List ℕ → IdRing
tx_token_free_n r ids =
    let out = put_loop r.last r.slots r.widx ids in
    record r {
      slots = out.0;
      free_count = add32 r.free_count (length ids);
      tally = count_freed r.tally (length ids);
      widx = out.1;
    }

-- id_ring_put as buf_id_return_n calls it, with no count.
pub buf_id_return_n : IdRing → List ℕ → IdRing
buf_id_return_n r ids =
    let out = put_loop r.last r.slots r.widx ids in
    record r { slots = out.0; tally = count_freed r.tally (length ids); widx = out.1 }
