-- ===== src/BufId.antt =====
-- npu_wifi_bufid.c: the pools over the rings of ids. The arrays that sram_buf_alloc hands out are
-- parameters, as lists of their `u16` words; mutex ids and counter bases are left out.
pub mod Init
pub mod Pairs
mod Tests
use clanker_npu.Prelude.{
  ℕ, zero, suc, ◌+◌, ◌*◌, ◌-◌, ◌/◌, ◌%◌, Bool, true, false, ◌&&◌, List, [], ◌∷◌, if◌then◌else◌, ltb,
  leb, ◌==◌, length, get_or, set, not, sub32, shr, u16,
}
use clanker_npu.IdRing.{IdRing, Tally, minus_one, sign_extend}

abbrev pub tx_free_ring_entries : ℕ
tx_free_ring_entries = 13312

abbrev pub tx_jumbo_pairs : ℕ
tx_jumbo_pairs = 128

abbrev pub tx_jumbo_first : ℕ
tx_jumbo_first = tx_free_ring_entries - 2 * tx_jumbo_pairs

-- TX_TOKEN_IDS: with jumbo pairs the ring holds the ids below the first of them.
abbrev pub tx_token_ids : Bool → ℕ
tx_token_ids has_jumbo = if has_jumbo then tx_jumbo_first else tx_free_ring_entries

-- tx_jumbo_stack and tx_jumbo_top.
pub record Jumbo : Type 0 where
  pub stack : List ℕ
  pub top : ℕ

pub record Pools : Type 0 where
  pub rx : IdRing
  pub tx : IdRing
  pub jumbo : Jumbo

-- `for (i = ...; i < ...; i++) p[i] = (u16)i`, with the rounds that are left.
pub fill_ids : ℕ → ℕ → List ℕ → List ℕ
fill_ids zero i p = p
fill_ids (suc n) i p = fill_ids n (i + 1) (set p i (u16 i))

-- `for (i = ...; i < TX_JUMBO_PAIRS; i++) tx_jumbo_stack[i] = ...`.
pub jumbo_fill : ℕ → ℕ → List ℕ → List ℕ
jumbo_fill zero i stack = stack
jumbo_fill (suc n) i stack = jumbo_fill n (i + 1) (set stack i (u16 (tx_jumbo_first + 2 * i)))

pub tx_jumbo_reset : Jumbo → Jumbo
unfolding jumbo_fill
tx_jumbo_reset j = record { stack = jumbo_fill tx_jumbo_pairs 0 j.stack; top = tx_jumbo_pairs }

pub tx_jumbo_alloc : Jumbo → ℕ × Jumbo
tx_jumbo_alloc j =
    if j.top == 0
    then (minus_one, j)
    else (get_or j.stack (j.top - 1) 0, record j { top = j.top - 1 })

pub tx_jumbo_free : Jumbo → ℕ → Jumbo
tx_jumbo_free j token =
    if ltb j.top tx_jumbo_pairs
    then record { stack = set j.stack j.top token; top = j.top + 1 }
    else j

-- rx_bufid_pool_reset: every id is free again.
pub rx_bufid_pool_reset : Pools → Pools
rx_bufid_pool_reset p = record p {
  rx = record p.rx { slots = fill_ids (p.rx.last + 1) 0 p.rx.slots; ridx = 0; widx = 0 };
}

-- bufid_pool_init with `rx_mem` and `tx_mem` behind the two bases. AN7552 has no tx tokens.
pub bufid_pool_init : Bool → Bool → List ℕ → List ℕ → Pools → Pools
bufid_pool_init has_tx has_jumbo rx_mem tx_mem p =
    let rx = record p.rx { slots = fill_ids (p.rx.last + 1) 0 rx_mem; ridx = 0; widx = 0 } in
    let ids = tx_token_ids has_jumbo in
    let tx = record p.tx {
      slots = fill_ids ids 0 tx_mem;
      ridx = 0;
      widx = if ids == tx_free_ring_entries then 0 else ids;
    } in
    record {
      rx = rx;
      tx = if has_tx then tx else p.tx;
      jumbo = if has_tx && has_jumbo then tx_jumbo_reset p.jumbo else p.jumbo;
    }
