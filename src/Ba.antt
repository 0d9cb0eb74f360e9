-- ===== src/Ba.antt =====
-- npu_wifi_ba.c: the reorder engine of the kite chips. A node is read and written at its address;
-- `nodes` is the memory of all of them. An Entry is one session of a station and a traffic class.
-- What leaves the engine stands in the state as it is handed on: `sent` has the calls of
-- pkt_enqueue_bridge, `counts` those of wifi_cnt_inc. ba_check_node only prints and the locks only
-- order the calls, so neither is here.
pub mod Chains
pub mod Round
pub mod Release
pub mod Moved
pub mod Append
pub mod Flush
pub mod Indicate
pub mod Scan
pub mod Session
mod Tests
use clanker_npu.Prelude.{
  ℕ, zero, suc, ◌+◌, ◌-◌, ◌*◌, ◌/◌, ◌%◌, ◌^◌, Bool, true, false, ◌&&◌, ◌||◌, not, List, [], ◌∷◌,
  ◌++◌, Option, none, some, if◌then◌else◌, ltb, leb, ◌==◌, get_or, set, add32, sub32, sub16, u8,
  u16, bit,
}

-- One held frame: a node of 36 bytes.
pub record Node : Type 0 where
  pub next : ℕ
  pub msdu_head : ℕ
  pub msdu_tail : ℕ
  pub msdus : ℕ
  pub hdr : ℕ
  pub tid : ℕ
  pub wcid : ℕ
  pub bss : ℕ
  pub buf : ℕ
  pub idx : ℕ
  pub sn : ℕ
  pub len : ℕ
  pub amsdu : ℕ
  pub pool : ℕ
  pub tick : ℕ

-- One BA entry of 28 bytes; `msdu` is entry[3], `last` the last sequence number given out.
pub record Entry : Type 0 where
  pub head : ℕ
  pub tail : ℕ
  pub count : ℕ
  pub msdu : ℕ
  pub win : ℕ
  pub last : ℕ
  pub ref : ℕ
  pub amsdu : ℕ
  pub flag : ℕ
  pub state : ℕ
  pub band : ℕ

-- The two rings of free node indices. A free moves `ridx`, an allocation moves `widx`.
pub record Pools : Type 0 where
  pub pri : List ℕ
  pub pri_ridx : ℕ
  pub pri_widx : ℕ
  pub sec : List ℕ
  pub sec_ridx : ℕ
  pub sec_widx : ℕ

-- The arguments of one call of pkt_enqueue_bridge.
pub record Frame : Type 0 where
  pub buf : ℕ
  pub len : ℕ
  pub hdr : ℕ
  pub band : ℕ
  pub bss : ℕ

pub record World : Type 0 where
  pub nodes : ℕ → Node
  pub pools : Pools
  pub sent : List Frame
  pub counts : List (ℕ × ℕ)

abbrev pub pri_pool_size : ℕ
pri_pool_size = 2000

abbrev pub sec_pool_size : ℕ
sec_pool_size = 5000

-- A word of which the low 12 bits are kept, `x & 0xFFF`.
abbrev pub u12 : ℕ → ℕ
u12 x = x % 2 ^ 12

abbrev pub no_sn : ℕ
no_sn = 0xFFFF

unfoldable pub wifi_cnt_inc : World → ℕ → ℕ → World
wifi_cnt_inc w band off = record w { counts = w.counts ++ (band, off) ∷ [] }

unfoldable pub pkt_enqueue_bridge : World → Frame → World
pkt_enqueue_bridge w f = record w { sent = w.sent ++ f ∷ [] }

abbrev pub store : (ℕ → Node) → ℕ → Node → ℕ → Node
store nodes a n b = if b == a then n else nodes b

-- The rings after reorder_node_free.
pub pool_free : Pools → ℕ → ℕ → Pools
pool_free p node_idx node_type =
    let q : Pools =
      if not (node_type == 0)
      then record p { pri = set p.pri p.pri_ridx node_idx; pri_ridx = p.pri_ridx + 1 }
      else record p { sec = set p.sec p.sec_ridx node_idx; sec_ridx = p.sec_ridx + 1 } in
    record q {
      pri_ridx = if q.pri_ridx == pri_pool_size then 0 else q.pri_ridx;
      sec_ridx = if q.sec_ridx == sec_pool_size then 0 else q.sec_ridx;
    }

pub reorder_node_free : World → ℕ → ℕ → ℕ → World
reorder_node_free w node_idx node_type band =
    wifi_cnt_inc (record w { pools = pool_free w.pools node_idx node_type }) band 212

-- ba_pop_mpdu: the head node and the entry without it. The C code also stores a 0 over the 0 that
-- it has just read from the node.
pub ba_pop_mpdu : World → Entry → ℕ × Entry
ba_pop_mpdu w e =
    let next = (w.nodes e.head).next in
    (
      e.head,
      record e { count = sub16 e.count 1; head = next; tail = if next == 0 then 0 else e.tail },
    )

-- The frame of a node, with the BSS of its MPDU.
unfoldable pub frame_of : ℕ → ℕ → Node → Frame
frame_of band bss n = record { buf = n.buf; len = n.len; hdr = n.hdr; band = band; bss = bss }

-- An MPDU without its first MSDU, whose successor is `next`.
abbrev pub drop_msdu : Node → ℕ → Node
drop_msdu m next = record m {
  msdus = sub16 m.msdus 1;
  msdu_head = next;
  msdu_tail = if next == 0 then 0 else m.msdu_tail;
}

pub count_release : World → ℕ → ℕ → World
count_release w band mode = if mode == 0 then w else wifi_cnt_inc w band 68

-- One round of the loop of ba_release_mpdu.
pub release_msdu : World → ℕ → ℕ → ℕ → World
release_msdu w mpdu band mode =
    let msdu = (w.nodes mpdu).msdu_head in
    let v : World = record w {
      nodes = store w.nodes mpdu (drop_msdu (w.nodes mpdu) (w.nodes msdu).next);
    } in
    let n = v.nodes msdu in
    reorder_node_free
      (count_release (pkt_enqueue_bridge v (frame_of band (v.nodes mpdu).bss n)) band mode) n.idx
      n.pool band

-- The loop of ba_release_mpdu; `none` when the fuel runs out.
pub release_msdus : ℕ → World → ℕ → ℕ → ℕ → Option World
release_msdus zero w mpdu band mode = if (w.nodes mpdu).msdu_head == 0 then some w else none
release_msdus (suc fuel) w mpdu band mode =
    let rest = release_msdus fuel (release_msdu w mpdu band mode) mpdu band mode in
    if (w.nodes mpdu).msdu_head == 0 then some w else rest

-- ba_release_mpdu.
pub ba_release_mpdu : ℕ → World → ℕ → ℕ → ℕ → Option World
ba_release_mpdu fuel w mpdu band mode =
    let n = w.nodes mpdu in
    let v = count_release (pkt_enqueue_bridge w (frame_of band n.bss n)) band mode in
    elim (release_msdus fuel v mpdu band mode) [
      | none ↦ none
      | some u ↦ some (reorder_node_free u (u.nodes mpdu).idx (u.nodes mpdu).pool band)
    ]

-- The loop of ba_flush_entry.
pub flush_loop : ℕ → World → Entry → Option (World × Entry)
flush_loop zero w e = if e.head == 0 then some (w, e) else none
flush_loop (suc fuel) w e =
    let out = ba_pop_mpdu w e in
    let rest : Option (World × Entry) = elim (ba_release_mpdu fuel w out.0 e.band 0) [
      | none ↦ none
      | some v ↦ flush_loop fuel v (record out.1 { last = (w.nodes out.0).sn })
    ] in
    if e.head == 0 then some (w, e) else rest

-- ba_flush_entry.
pub ba_flush_entry : ℕ → World → Entry → Option (World × Entry)
ba_flush_entry fuel w e = elim (flush_loop fuel w e) [
  | none ↦ none
  | some (v, f) ↦ some (v, record f { msdu = 0 })
]

-- The test of ba_indicate_le_seq: `sn` is `seq` or lies behind it in the space of 12 bits.
abbrev pub le_seq : ℕ → ℕ → Bool
le_seq sn seq = (sn == u16 seq) || not (bit (sub16 sn seq) 11 == 0)

-- ba_indicate_le_seq.
pub ba_indicate_le_seq : ℕ → World → Entry → ℕ → Option (World × Entry)
ba_indicate_le_seq zero w e seq = if e.head == 0 then some (w, e) else none
ba_indicate_le_seq (suc fuel) w e seq =
    let out = ba_pop_mpdu w e in
    let rest : Option (World × Entry) = elim (ba_release_mpdu fuel w out.0 e.band 2) [
      | none ↦ none
      | some v ↦ ba_indicate_le_seq fuel v out.1 seq
    ] in
    if e.head == 0
    then some (w, e)
    else if le_seq (w.nodes e.head).sn seq
    then rest
    else some (w, e)

-- The loop of ba_seq_scan, with the number that it last gave out and the value to return.
pub scan_loop : ℕ → World → Entry → ℕ → ℕ → Option (ℕ × World × Entry)
scan_loop zero w e seq last = if e.head == 0 then some (last, w, e) else none
scan_loop (suc fuel) w e seq last =
    let out = ba_pop_mpdu w e in
    let sn = (w.nodes out.0).sn in
    let rest : Option (ℕ × World × Entry) = elim (ba_release_mpdu fuel w out.0 e.band 1) [
      | none ↦ none
      | some v ↦ scan_loop fuel v out.1 sn sn
    ] in
    if e.head == 0
    then some (last, w, e)
    else if (w.nodes e.head).sn == u12 (seq + 1)
    then rest
    else some (last, w, e)

-- ba_seq_scan: the first test and those of the loop are one.
pub ba_seq_scan : ℕ → World → Entry → ℕ → Option (ℕ × World × Entry)
ba_seq_scan fuel w e seq = scan_loop fuel w e seq no_sn
