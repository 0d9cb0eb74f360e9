-- ===== src/Ba/Session/Restart.antt =====
-- npu_wifi_ba.c: ba_state_update, which restarts the window of a session.
use clanker_npu.Prelude.{
  inl, inr, ℕ, ◌^◌, ◌≤◌, ◌<◌, ◌≡◌, ◌≢◌, ◌⊎◌, u8, u16, refl, ap, ◌∙◌, arith, true, false, List, [],
  ◌∷◌, ◌++◌, some, ◌==◌, Bool-cases,
}
use clanker_npu.Ba.{Entry, World, wifi_cnt_inc, no_sn}
use clanker_npu.Ba.Chains.{Mpdu, Queue}
use clanker_npu.Ba.Moved.{Moved, rounds, none_gone}
use clanker_npu.Ba.Flush.{last_sn}
use clanker_npu.Ba.Scan.{Follows, Gap, ba_seq_scan-Scanned}
use clanker_npu.Ba.Session.{take_last, keeps_window, ba_state_update}

-- When the window restarts: the last frame was inside an A-MSDU, and the new one has another number than
-- the reference or is itself of type 3.
abbrev pub Restarts : Entry → ℕ → ℕ → Type 0
Restarts e sn check_type =
    ((u8 e.amsdu ≡ 2) ⊎ (u8 e.amsdu ≡ 3)) × ((e.ref ≢ u16 sn) ⊎ (check_type ≡ 3))

keeps-Restarts :
    (e : Entry) (sn check_type : ℕ)
    → keeps_window e sn check_type ≡ true
    → ¬ Restarts e sn check_type
keeps-Restarts e sn check_type h p = ground (arith, h, p)

moves-Restarts :
    (e : Entry) (sn check_type : ℕ)
    → keeps_window e sn check_type ≡ false
    → Restarts e sn check_type
moves-Restarts e sn check_type h = ground (arith, h)

-- What a restart leaves: the A-MSDU closed, and either a scan from the reference number, with the
-- last number that it releases as the last given out, or, after a frame out of order, the queue as
-- it was.
pub record Restarted (w : World) (e : Entry) (ms : List Mpdu) (v : World) (f : Entry) : Type 0 where
  pub gone : List Mpdu
  pub left : List Mpdu
  pub split : ms ≡ gone ++ left
  pub moved : Moved w e gone left v f
  pub closed : f.msdu ≡ 0
  pub branch :
      ((e.flag ≢ 0) × ((gone ≡ []) × (f.last ≡ e.last)))
      ⊎ ((e.flag ≡ 0)
          × (Follows e.ref gone × (Gap (last_sn e.ref gone) left × (f.last ≡ last_sn e.ref gone))))

-- The numbers of a scan have 12 bits, so none of them is the mark for no release.
last_sn-cases :
    (seq : ℕ) (gone : List Mpdu)
    → Follows seq gone
    → (gone ≡ []) ⊎ ((d : ℕ) → (last_sn d gone ≡ last_sn seq gone) × (last_sn d gone < 2 ^ 12))
last_sn-cases seq [] f = inl refl
last_sn-cases seq (m ∷ ms) f = elim (last_sn-cases m.node.sn ms f.1) [
  | inl e ↦ inr (λ d. (refl, rw e (omega (arith, f.0))))
  | inr g ↦ inr (λ d. (refl, (g m.node.sn).1))
]

pub scanned_last :
    (e : Entry) (seq r : ℕ) (gone : List Mpdu)
    → Follows seq gone
    → e.last ≡ seq
    → r ≡ last_sn no_sn gone
    → (take_last e r).last ≡ last_sn seq gone
scanned_last e seq r gone f last value = elim (last_sn-cases seq gone f) [
  | inl none_left ↦
      let r_none : r ≡ no_sn = value ∙ ap (last_sn no_sn) none_left in rw (r_none, none_left) last
  | inr g ↦
      let (same, small) = g no_sn in
      let other : (r == no_sn) ≡ false = ground (arith, value, small) in
      rw other (omega (arith, value, same, small))
]

pub take_last-msdu : (e : Entry) (r : ℕ) → (take_last e r).msdu ≡ e.msdu
take_last-msdu e r = elim (Bool-cases (r == no_sn)) [
  | inl same ↦ rw same refl
  | inr other ↦ rw other refl
]

pub take_last-Moved :
    {w v : World} {e f : Entry} {gone left : List Mpdu} (r : ℕ)
    → Moved w e gone left v f
    → Moved w e gone left v (take_last f r)
take_last-Moved {w} {v} {e} {f} {gone} {left} r a = elim (Bool-cases (r == no_sn)) [
  | inl same ↦ rw same (record {
    held = a.held;
    sent = a.sent;
    pools = a.pools;
    band = a.band;
    win = a.win;
    count = a.count;
  })
  | inr other ↦ rw other (record {
    held = a.held;
    sent = a.sent;
    pools = a.pools;
    band = a.band;
    win = a.win;
    count = a.count;
  })
]

restart_quiet :
    (w : World) (e : Entry) (ms : List Mpdu)
    → Queue w.nodes e.head ms
    → Moved w e [] ms (wifi_cnt_inc w e.band 196) (record e { msdu = 0 })
unfolding wifi_cnt_inc
restart_quiet w e ms q =
    let a = none_gone w e ms q in
    record {
      held = a.held;
      sent = a.sent;
      pools = a.pools;
      band = a.band;
      win = a.win;
      count = a.count;
    }

-- A session that holds the MPDUs ms, with fuel for each node: ba_state_update ends. Unless the last
-- frame was of type 2 or 3 in an A-MSDU, and the new one has another number than the reference or is of
-- type 3, it returns 0 and changes nothing; else it returns 1, the A-MSDU is closed, and either the
-- queue is as before, after a frame that was not in order, or the MPDUs that go on from the reference
-- number are released in order, up to a gap, and the last of their numbers is the last given out.
pub ba_state_update-Restarted :
    (fuel : ℕ) (w : World) (sn check_type : ℕ) (e : Entry) (ms : List Mpdu)
    → Queue w.nodes e.head ms
    → rounds ms ≤ fuel
    → (r : ℕ) × ((v : World) × ((f : Entry) × ((ba_state_update fuel w sn check_type e
              ≡ some (r, v, f))
            × (((¬ Restarts e sn check_type) × ((r ≡ 0) × ((v ≡ w) × (f ≡ e))))
                ⊎ (Restarts e sn check_type × ((r ≡ 1) × Restarted w e ms v f))))))
unfolding ba_state_update wifi_cnt_inc
ba_state_update-Restarted fuel w sn check_type e ms q h =
    elim (Bool-cases (keeps_window e sn check_type)) [
      | inl keep ↦ (
        0,
        (
          w,
          (
            e,
            (
              rw (ba_state_update, keep) refl,
              inl (keeps-Restarts e sn check_type keep, (refl, (refl, refl))),
            ),
          ),
        ),
      )
      | inr go ↦ elim (Bool-cases (e.flag == 0)) [
        | inr flagged ↦ (
          1,
          (
            wifi_cnt_inc w e.band 196,
            (
              record e { msdu = 0 },
              (
                rw (ba_state_update, go, flagged) refl,
                inr (
                  moves-Restarts e sn check_type go,
                  (
                    refl,
                    record {
                      gone = [];
                      left = ms;
                      split = refl;
                      moved = restart_quiet w e ms q;
                      closed = refl;
                      branch = inl (ground arith, (refl, refl));
                    },
                  ),
                ),
              ),
            ),
          ),
        )
        | inl fresh ↦
            let open_entry : Entry = record e { msdu = 0; last = e.ref } in
            let (r, (u, (f, (run, s)))) =
              ba_seq_scan-Scanned fuel (wifi_cnt_inc w e.band 196) open_entry e.ref ms q h in
            (
              1,
              (
                u,
                (
                  take_last f r,
                  (
                    rw (ba_state_update, go, fresh, run) refl,
                    inr (
                      moves-Restarts e sn check_type go,
                      (
                        refl,
                        record {
                          gone = s.gone;
                          left = s.left;
                          split = s.split;
                          moved = take_last-Moved r (record {
                            held = s.moved.held;
                            sent = s.moved.sent;
                            pools = s.moved.pools;
                            band = s.moved.band;
                            win = s.moved.win;
                            count = s.moved.count;
                          });
                          closed = take_last-msdu f r ∙ s.same_msdu;
                          branch = inr (
                            ground arith,
                            (
                              s.follows,
                              (s.gap, scanned_last f e.ref r s.gone s.follows s.same_last s.value),
                            ),
                          );
                        },
                      ),
                    ),
                  ),
                ),
              ),
            )
      ]
    ]
