-- ===== src/HostAdpt.antt =====
-- npu_hostadpt.c: the out rings, which carry received frames to the host. A ring is the descriptors by
-- slot with its index register. An operation gives the accesses that it makes, in their order; `play`
-- carries them out. What an operation reads of the ring it reads before it has changed it.
pub mod Words
pub mod Queue
pub mod Copies
pub mod Room
pub mod Pending
pub mod History
pub mod Batch
pub mod Segments
pub mod Steps
pub mod Chain
pub mod Delivery
mod Tests
use clanker_npu.Prelude.{
  ℕ, zero, suc, ◌+◌, ◌*◌, ◌%◌, ◌^◌, ◌-◌, Bool, true, false, ◌&&◌, ◌||◌, not, List, [], ◌∷◌, ◌++◌,
  Option, none, some, if◌then◌else◌, ltb, leb, ◌==◌, bit_or, bit, add32, sub32, length,
}
use clanker_npu.Fwd.{Submit, put_at, next_slot}

-- The first four of the six words of a descriptor: d[0] with the ready bit, d[1], d[2], and d[3], the
-- host's buffer.
pub record Desc : Type 0 where
  pub w0 : ℕ
  pub w1 : ℕ
  pub w2 : ℕ
  pub dst : ℕ

pub record OutRing : Type 0 where
  pub desc : ℕ → Desc
  pub idx : ℕ

-- One access: a debug counter of band 0, band 1 or the third block by its offset; the start of a copy on
-- channel 3 with its source, target and length; the wait for its end; a word of a descriptor; the index
-- register; the error message.
pub data Access : Type 0 where
  counted : ℕ → ℕ → Access
  copied : ℕ → ℕ → ℕ → Access
  waited : Access
  store_w2 : ℕ → ℕ → Access
  store_w1 : ℕ → ℕ → Access
  store_w0 : ℕ → ℕ → Access
  set_idx : ℕ → Access
  complained : Access

pub act : OutRing → Access → OutRing
act r (counted band offset) = r
act r (copied src dst len) = r
act r waited = r
act r (store_w2 k v) = record r { desc = put_at r.desc k (record (r.desc k) { w2 = v }) }
act r (store_w1 k v) = record r { desc = put_at r.desc k (record (r.desc k) { w1 = v }) }
act r (store_w0 k v) = record r { desc = put_at r.desc k (record (r.desc k) { w0 = v }) }
act r (set_idx v) = record r { idx = v }
act r complained = r

pub play : OutRing → List Access → OutRing
play r [] = r
play r (a ∷ more) = play (act r a) more

-- HOSTADPT_RING_SIZE.
abbrev pub ring_size : ℕ
ring_size = 512

-- The `-1` of the error returns.
abbrev pub failed : ℕ
failed = 2 ^ 32 - 1

-- The words that host_ring_write_desc stores.
pub word0 : ℕ → ℕ → ℕ → ℕ
word0 orig_len pkt_len is_last =
    bit_or (bit_or (bit_or 1 (orig_len % 2 ^ 14 * 2 ^ 1)) (pkt_len % 2 ^ 14 * 2 ^ 15))
      (is_last % 2 * 2 ^ 29)

pub word1 : ℕ → ℕ → ℕ → ℕ
word1 wcid amsdu fwd_type =
    bit_or (bit_or (wcid % 2 ^ 16) (amsdu % 2 ^ 5 * 2 ^ 16)) (fwd_type % 2 ^ 6 * 2 ^ 26)

-- `limit` is HOSTADPT_BUFFER_LEN, which differs between the builds.
pub dma_len : ℕ → Submit → ℕ
dma_len limit f = if leb f.len limit then f.len else if ltb limit f.orig then limit else f.orig

-- The state that the two rings share: the rings of the bands 0 and 1, bit 2 of wifi_debug_flags, whether
-- counter_base_tri is set, and all accesses so far.
pub record HostAdpt : Type 0 where
  pub tx : OutRing
  pub rx : OutRing
  pub debug : Bool
  pub tri : Bool
  pub log : List Access

abbrev pub count_if : Bool → ℕ → ℕ → List Access
count_if on block offset = if on then counted block offset ∷ [] else []

-- host_ring_write_desc on the slot k with the host's buffer dst; bridge_dma_copy starts a copy and waits.
pub host_ring_write_desc : ℕ → Bool → ℕ → ℕ → Submit → List Access
host_ring_write_desc limit count k dst f =
    count_if count 2 (if leb f.len limit then 52 else 48)
    ++ copied f.buf dst (dma_len limit f)
      ∷ waited
      ∷ store_w2 k f.info
      ∷ store_w1 k (word1 f.wcid f.amsdu f.kind)
      ∷ store_w0 k (word0 f.orig f.len f.is_last)
      ∷ count_if count 2 56

-- The slot whose ready bit tells whether there is room.
abbrev pub check_slot : ℕ → ℕ
check_slot idx = if ltb 511 (add32 idx 2) then sub32 idx 510 else add32 idx 2

abbrev pub ready : OutRing → ℕ → Bool
ready r k = not (bit (r.desc k).w0 0 == 0)

-- The part of host_ring_submit for one band, the same text for both.
pub submit_on : ℕ → Bool → Bool → ℕ → OutRing → Submit → ℕ × List Access
submit_on limit debug tri band r f =
    let idx = r.idx in
    let busy =
      count_if debug band 236
      ++ set_idx (if not (idx == 0) then idx - 1 else 511) ∷ set_idx idx ∷ [] in
    let write = host_ring_write_desc limit (debug && tri) idx (r.desc idx).dst f in
    if ready r (check_slot idx)
    then (failed, busy)
    else (0, write ++ set_idx (if ltb (add32 idx 1) ring_size then add32 idx 1 else 0) ∷ [])

pub host_ring_submit : ℕ → HostAdpt → Submit → ℕ → ℕ × HostAdpt
host_ring_submit limit s f band =
    let log = s.log ++ count_if s.debug (if band == 1 then 1 else if band == 0 then 0 else 2) 140 in
    let two = submit_on limit s.debug s.tri 0 s.tx f in
    let five = submit_on limit s.debug s.tri 1 s.rx f in
    if band == 0
    then (two.0, record s { tx = play s.tx two.1; log = log ++ two.1 })
    else if band == 1
    then (five.0, record s { rx = play s.rx five.1; log = log ++ five.1 })
    else (failed, record s { log = log ++ complained ∷ [] })

-- host_out_room: n or 0.
abbrev pub room_slot : ℕ → ℕ → ℕ
room_slot idx n =
    let check = add32 (add32 idx n) 1 in
    if leb ring_size check then sub32 check ring_size else check

pub host_out_room : Bool → OutRing → ℕ → ℕ → ℕ
host_out_room debug r idx n = if debug || ready r (room_slot idx n) then 0 else n

-- struct host_out, with the slot in place of the descriptor's address.
pub record HostOut : Type 0 where
  pub slot : ℕ
  pub dst : ℕ
  pub next : ℕ
  pub w0 : ℕ
  pub w1 : ℕ
  pub w2 : ℕ

pub host_out_finish : HostOut → List Access
host_out_finish o =
    waited
    ∷ store_w2 o.slot o.w2
    ∷ store_w1 o.slot o.w1
    ∷ store_w0 o.slot o.w0
    ∷ set_idx o.next
    ∷ []

pub out_len : ℕ → Submit → ℕ
out_len limit f = if ltb limit f.len then if ltb f.orig limit then f.orig else limit else f.len

pub host_out_start : ℕ → OutRing → Option HostOut → ℕ → Submit → HostOut × List Access
host_out_start limit r prev idx f =
    let o : HostOut = record {
      slot = idx;
      dst = (r.desc idx).dst;
      next = if ltb (add32 idx 1) ring_size then add32 idx 1 else 0;
      w0 = word0 f.orig f.len f.is_last;
      w1 = word1 f.wcid f.amsdu f.kind;
      w2 = f.info;
    } in
    let before : List Access = elim prev [ none ↦ [] | some p ↦ host_out_finish p ] in
    (o, before ++ copied f.buf o.dst (out_len limit f) ∷ [])

-- struct host_seg.
pub record Seg : Type 0 where
  pub src : ℕ
  pub info : ℕ
  pub frame : ℕ
  pub seg : ℕ
  pub fwd_type : ℕ
  pub last : ℕ

-- The first loop of host_out_chain: the copies of the segments into the slots from `slot` on.
pub copy_segs : ℕ → OutRing → ℕ → List Seg → List Access
copy_segs limit r slot [] = []
copy_segs limit r slot (s ∷ ss) =
    copied s.src (r.desc slot).dst (if ltb limit s.seg then limit else s.seg)
    ∷ waited
    ∷ copy_segs limit r (if ltb (slot + 1) ring_size then slot + 1 else 0) ss

-- The second loop, which counts down: segment i of the list goes to slot idx + i.
pub publish_segs : ℕ → ℕ → List Seg → List Access
publish_segs idx i [] = []
publish_segs idx i (s ∷ ss) =
    let k = if leb ring_size (add32 idx i) then sub32 (add32 idx i) ring_size else add32 idx i in
    publish_segs idx (i + 1) ss
    ++ store_w2 k s.info
      ∷ store_w1 k (s.fwd_type % 2 ^ 6 * 2 ^ 26)
      ∷ store_w0 k (word0 s.seg s.frame s.last)
      ∷ []

-- The slot after n more.
pub slot_after : ℕ → List Seg → ℕ
slot_after slot [] = slot
slot_after slot (s ∷ ss) = slot_after (if ltb (slot + 1) ring_size then slot + 1 else 0) ss

pub host_out_chain : ℕ → Bool → OutRing → List Seg → ℕ × List Access
host_out_chain limit debug r ss =
    if debug || ready r (room_slot r.idx (length ss)) then (failed, []) else (
      0,
      copy_segs limit r r.idx ss ++ (publish_segs r.idx 0 ss ++ set_idx (slot_after r.idx ss) ∷ []),
    )
