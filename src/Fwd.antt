-- ===== src/Fwd.antt =====
-- npu_wifi_fwd.c: the rings that carry received frames to the host core. Whole frames take the piNode
-- ring of a band, segments of long frames its rxNode ring. A ring is its nodes by index with the two
-- indices; `submits` has the calls of host_ring_submit, `freed` those of buf_id_free, `counts` those of
-- wifi_cnt_inc.
pub mod Slots
pub mod Fifo
pub mod Ends
pub mod Drain
pub mod History
pub mod Segments
pub mod Start
mod Tests
use clanker_npu.Prelude.{
  ℕ, zero, suc, ◌+◌, ◌-◌, ◌*◌, ◌/◌, ◌%◌, ◌^◌, Bool, true, false, ◌&&◌, ◌||◌, not, List, [], ◌∷◌,
  ◌++◌, Option, none, some, if◌then◌else◌, ltb, leb, ◌==◌, bit_or, bit, u8, u16, u32, add32, sub32,
  shr,
}

pub record PiNode : Type 0 where
  pub buf : ℕ
  pub wcid : ℕ
  pub len : ℕ
  pub orig : ℕ
  pub flags : ℕ
  pub amsdu : ℕ
  pub info : ℕ

pub record RxNode : Type 0 where
  pub buf : ℕ
  pub len : ℕ
  pub orig : ℕ
  pub flags : ℕ

pub record Ring (A : Type 0) : Type 0 where
  pub nodes : ℕ → A
  pub widx : ℕ
  pub ridx : ℕ

-- The arguments of host_ring_submit, with the buffer id in place of its address.
pub record Submit : Type 0 where
  pub buf : ℕ
  pub len : ℕ
  pub wcid : ℕ
  pub amsdu : ℕ
  pub kind : ℕ
  pub orig : ℕ
  pub is_last : ℕ
  pub info : ℕ

-- The rings of one band with its statistics, pairs of words for each of 16 queues.
pub record Fwd : Type 0 where
  pub pi : Ring PiNode
  pub rx : Ring RxNode
  pub bytes : ℕ → ℕ
  pub pkts : ℕ → ℕ
  pub submits : List Submit
  pub freed : List ℕ
  pub counts : List ℕ

abbrev pub put_at {ℓ} : {A : Type ℓ} → (ℕ → A) → ℕ → A → ℕ → A
put_at nodes i a j = if i == j then a else nodes j

unfoldable pub pinode_ring_size : ℕ → ℕ
pinode_ring_size band = if band == 0 then 256 else 512

abbrev pub rxnode_ring_size : ℕ
rxnode_ring_size = 128

-- `widx + 1 != SIZE ? widx + 1 : 0`.
abbrev pub next_slot : ℕ → ℕ → ℕ
next_slot size i = if i + 1 == size then 0 else i + 1

-- A node as the initialisation and the drain leave it; the drain keeps `info`.
unfoldable pub pi_cleared : ℕ → PiNode
pi_cleared info = record {
  buf = 2 ^ 32 - 1;
  wcid = 0;
  len = 0;
  orig = 0;
  flags = 0;
  amsdu = 0;
  info = info;
}

pub rx_cleared : RxNode
rx_cleared = record { buf = 2 ^ 32 - 1; len = 0; orig = 0; flags = 0 }

-- The loops of wifi_pkt_queue_init over the nodes of a band.
pub clear_pi : ℕ → (ℕ → PiNode) → ℕ → PiNode
clear_pi count nodes i = if ltb i count then pi_cleared (nodes i).info else nodes i

pub clear_rx : ℕ → (ℕ → RxNode) → ℕ → RxNode
clear_rx count nodes i = if ltb i count then rx_cleared else nodes i

-- wifi_pkt_queue_init on the rings of its band; other bands than 0 and 1 are left alone.
pub wifi_pkt_queue_init : Fwd → ℕ → Fwd
wifi_pkt_queue_init s band = if ltb 1 band then s else record s {
  pi = record { nodes = clear_pi (pinode_ring_size band) s.pi.nodes; widx = 0; ridx = 0 };
  rx = record { nodes = clear_rx rxnode_ring_size s.rx.nodes; widx = 0; ridx = 0 };
}

-- wifi_u64_add on the pair of words at `i`.
pub wifi_u64_add : (ℕ → ℕ) → ℕ → ℕ → ℕ → ℕ
wifi_u64_add c i v =
    let lo = c i in
    let low = put_at c i (add32 lo v) in
    if ltb (add32 lo v) lo then put_at low (i + 1) (add32 (low (i + 1)) 1) else low

-- The arguments of pkt_forward; `dropped` is classify_result == -2.
pub record Packet : Type 0 where
  pub buf : ℕ
  pub len : ℕ
  pub wcid : ℕ
  pub amsdu : ℕ
  pub fwd_type : ℕ
  pub orig : ℕ
  pub dropped : Bool
  pub tunnel : ℕ

pub pi_node : Packet → PiNode
pi_node p = record {
  buf = u32 p.buf;
  wcid = u16 p.wcid;
  len = u16 p.len;
  orig = u16 p.orig;
  flags = u8 (bit_or p.fwd_type 1);
  amsdu = u8 p.amsdu;
  info = if p.dropped then 1 else 0;
}

pub rx_node : Packet → RxNode
rx_node p = record {
  buf = u32 p.buf;
  len = u16 p.len;
  orig = u16 p.orig;
  flags = u8 (bit_or p.fwd_type 1);
}

-- A node into the slot at the write index, unless that is taken.
pub put : {A : Type 0} → (A → ℕ) → ℕ → Ring A → A → Option (Ring A)
put flags size r a =
    if not (bit (flags (r.nodes r.widx)) 0 == 0)
    then none
    else some (record r { nodes = put_at r.nodes r.widx a; widx = next_slot size r.widx })

-- The statistics of one frame; `info` is the word at offset 0x88 of its buffer.
pub stats : Fwd → ℕ → ℕ → ℕ → Fwd
stats s info orig tunnel =
    let q = if not (shr info 4 % 4 == 0) then u8 (info % 64 + 256 - 16) else info % 64 in
    let errors = not (bit info 25 == 0) || (not (bit info 28 == 0) || not (bit info 29 == 0)) in
    if errors then s else if ltb 15 q || not (tunnel == 0) then s else record s {
      bytes = wifi_u64_add s.bytes (q * 2) (u16 (sub32 orig 98));
      pkts = wifi_u64_add s.pkts (q * 2) 1;
    }

-- pkt_forward on the rings of its band: 1 when the ring is full.
pub pkt_forward : Fwd → Packet → ℕ → ℕ → ℕ × Fwd
pkt_forward s p band info =
    let segment : ℕ × Fwd = elim (put (λ n. n.flags) rxnode_ring_size s.rx (rx_node p)) [
      | none ↦ (1, s)
      | some r ↦
          (0, stats (record s { rx = r; counts = s.counts ++ 148 ∷ [] }) info p.orig p.tunnel)
    ] in
    let whole : ℕ × Fwd = elim (put (λ n. n.flags) (pinode_ring_size band) s.pi (pi_node p)) [
      | none ↦ (1, record s { counts = s.counts ++ 28 ∷ [] })
      | some r ↦ (0, stats (record s { pi = r; counts = s.counts ++ 24 ∷ [] }) info p.orig p.tunnel)
    ] in
    if p.orig == p.len then whole else segment

-- pkt_forward_bme: the buffer starts with the half word `len` and has the byte `channel` at 13; `word` is
-- its statistics word.
pub pkt_forward_bme : Fwd → ℕ → ℕ → ℕ → ℕ → ℕ → ℕ → ℕ × Fwd
pkt_forward_bme s buf wcid info len channel word =
    pkt_forward s
      (record {
        buf = buf;
        len = len;
        wcid = wcid;
        amsdu = u8 info;
        fwd_type = 2;
        orig = len;
        dropped = false;
        tunnel = 1;
      })
      (if leb 36 channel then 1 else 0) word

abbrev pub pi_submit : PiNode → Submit
pi_submit n = record {
  buf = n.buf;
  len = n.len;
  wcid = n.wcid;
  amsdu = n.amsdu;
  kind = shr n.flags 2;
  orig = n.orig;
  is_last = bit n.flags 1;
  info = n.info;
}

-- What pinode_drain does with the node at the read index; `ret` is the answer of host_ring_submit.
pub deliver : Fwd → PiNode → ℕ → Fwd
deliver s n ret =
    let sent = record s {
      submits = s.submits ++ pi_submit n ∷ [];
      counts = s.counts ++ (if ret == 0 then 48 else 108) ∷ [];
      freed = s.freed ++ u16 n.buf ∷ [];
    } in
    if not (ltb n.buf (2 ^ 31))
    then record s { counts = s.counts ++ 40 ∷ [] }
    else if n.len == 0
    then record s { counts = s.counts ++ 44 ∷ [] }
    else sent

pub pinode_drain : Fwd → ℕ → ℕ → Fwd
pinode_drain s band ret =
    let n = s.pi.nodes s.pi.ridx in
    let out = deliver (record s { counts = s.counts ++ 36 ∷ [] }) n ret in
    if bit n.flags 0 == 0 then record s { counts = s.counts ++ 20 ∷ [] } else record out {
      pi = record s.pi {
        nodes = put_at s.pi.nodes s.pi.ridx (pi_cleared n.info);
        ridx = next_slot (pinode_ring_size band) s.pi.ridx;
      };
      counts = out.counts ++ 20 ∷ [];
    }
