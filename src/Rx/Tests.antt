-- ===== src/Rx/Tests.antt =====
-- A session that gave out 4 last and holds 6 and 8; the frame 7 in the node at 144, and others.
use clanker_npu.Prelude.{
  ℕ, ◌*◌, false, true, ◌+◌, ◌≡◌, ◌⊎◌, refl, arith, Bool, ◌||◌, List, [], ◌∷◌, some, if◌then◌else◌,
  ◌==◌,
}
use clanker_npu.IdRing.{minus_one}
use clanker_npu.Ba.{Node, Entry}
use clanker_npu.Ba.Chains.{Mpdu, Queue}
use clanker_npu.Ba.Session.{Granted}
use clanker_npu.Rx.Classify.{kite_classify_pn}
use clanker_npu.Rx.{
  Chip, Rx, buf_id_free, count, Spot, in_order, find_spot, insert, spot, slide_start, take_in_order,
}
use clanker_npu.Rx.Place.{Found, find_spot-Found}
use clanker_npu.Rx.Insert.{GivenBack, Inserted, insert-Ascending}
use clanker_npu.Rx.Fast.{Route, Exit, to_host, to_tdma, takes_detour, kite_classify_fast}
use clanker_npu.Rx.Fast.Agree.{Agree, kite_classify_fast-Agree}
use clanker_npu.Rx.InOrder.{Caught, take_in_order-Caught}

abbrev node : ℕ → ℕ → ℕ → Node
node next sn idx = record {
  next = next;
  msdu_head = 0;
  msdu_tail = 0;
  msdus = 0;
  hdr = 40;
  tid = 0;
  wcid = 1;
  bss = 0;
  buf = 100 + idx;
  idx = idx;
  sn = sn;
  len = 1500;
  amsdu = 0;
  pool = 1;
  tick = 7;
}

abbrev memory : ℕ → Node
memory a = if a == 36 then node 108 6 1 else if a == 108 then node 0 8 3 else node 0 7 4

abbrev session : Entry
session = record {
  head = 36;
  tail = 108;
  count = 2;
  msdu = 0;
  win = 64;
  last = 4;
  ref = 4;
  amsdu = 0;
  flag = 0;
  state = 4;
  band = 1;
}

abbrev rx : Rx
rx = record {
  world = record {
    nodes = memory;
    pools = record {
      pri = 0 ∷ 0 ∷ 0 ∷ [];
      pri_ridx = 1;
      pri_widx = 0;
      sec = [];
      sec_ridx = 0;
      sec_widx = 0;
    };
    sent = [];
    counts = [];
  };
  entry = session;
  freed = [];
}

abbrev held : List Mpdu
held =
    record { addr = 36; node = node 108 6 1; subs = [] }
    ∷ record { addr = 108; node = node 0 8 3; subs = [] }
    ∷ []

session-Queue : Queue rx.world.nodes session.head held
session-Queue = (
  refl,
  (
    omega arith,
    (refl, (refl, ((omega arith, tt), (refl, (omega arith, (refl, (refl, (tt, refl)))))))),
  ),
)

abbrev is_mpdu : ℕ → Bool
is_mpdu a = a == 36 || (a == 108 || a == 144)

abbrev granted : Granted
granted = record { addr = 144; idx = 4; pool_type = 1 }

insert-Ascending_example :
    (out : Rx) × ((insert 9 rx (node 0 7 4) 144 granted ≡ some out)
      × ((GivenBack rx (node 0 7 4) granted held out) ⊎ (Inserted 4 rx (node 0 7 4) 144 held out)))
insert-Ascending_example =
    insert-Ascending is_mpdu 4 9 rx (node 0 7 4) 144 granted held session-Queue
      ((refl, tt), ((refl, tt), tt)) (omega arith) (omega arith) (omega arith) (omega arith)
      (omega arith) refl (omega arith) (omega arith) refl refl (omega arith)

-- The number 200 is past the window of 64; sliding it gives out both held frames.
find_spot-Found_example :
    (s : Spot) × ((next : Rx) × ((find_spot 9 9 rx 200 ≡ some (s, next))
        × Found rx 200 held s next))
find_spot-Found_example =
    find_spot-Found 9 9 rx 200 held session-Queue (omega arith) (omega arith) (omega arith)
      (omega arith)

-- The spot of a number at the wrap of the 12 bits, and the start of a window over it.
spot_wraps : spot 4095 64 0 ≡ in_order
unfolding spot
spot_wraps = refl

slide_wraps : slide_start 3 64 ≡ 4035
unfolding slide_start
slide_wraps = refl

-- The frame 5 goes out, and 6 after it.
take_in_order-Caught_example :
    (out : Rx) × ((take_in_order 9 rx (node 0 5 2) 1 ≡ some out) × Caught rx (node 0 5 2) held out)
take_in_order-Caught_example =
    take_in_order-Caught 9 rx (node 0 5 2) 1 held session-Queue (omega arith) (omega arith)

-- A frame from no station is freed and counted, whatever the session holds.
no_station :
    (c : Chip)
    → kite_classify_pn 9 9 c rx (record (node 0 7 4) { wcid = 0 }) 144 1
      ≡ some (minus_one, count (buf_id_free rx 104) 1 232)
unfolding kite_classify_pn
no_station c = refl

-- With no rate limit and a band in service, the frame 5 takes the fast path, and the same as the other.
abbrev chip : Chip
chip = record { fast = false; tick = 9; bases = record { pri = 0; sec = 0 } }

abbrev route : Route
route = record { ratelimit = λ i. 0; cap = 1; force = true; wait_2g = 0; wait_5g = 0 }

abbrev va : ℕ → ℕ
va buf = buf * 4096

straight : takes_detour route session (node 0 5 2) 1 ≡ false
unfolding takes_detour
straight = refl

-- The chip refuses every frame, so the buffer goes back.
abbrev refuses : Exit → ℕ → Bool
refuses (to_host limited len) buf = false
refuses (to_tdma len at) buf = true

kite_classify_fast-Agree_example :
    (slow : Rx) × ((fast : Rx) × ((exit : Exit) × ((kite_classify_pn 9 9 chip rx (node 0 5 2) 102 1
            ≡ some (minus_one, slow))
          × ((kite_classify_fast 9 9 chip route va refuses rx (node 0 5 2) 102 1500 1
                ≡ some (exit ∷ [], (minus_one, fast)))
              × Agree route va refuses rx (node 0 5 2) 1 held slow fast exit))))
kite_classify_fast-Agree_example =
    kite_classify_fast-Agree 8 9 chip route va refuses rx (node 0 5 2) 102 1500 1 held session-Queue
      (omega arith) (omega arith) (omega arith) refl straight
