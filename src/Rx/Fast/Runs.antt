-- ===== src/Rx/Fast/Runs.antt =====
-- npu_wifi_rx.c: the held frames that go out with one that is in order, as a function of the list.
use clanker_npu.Prelude.{
  ℕ, ◌+◌, ◌≤◌, ◌≡◌, refl, sym, ap, ◌∙◌, subst, arith, true, false, List, [], ◌∷◌, ◌++◌, some,
  if◌then◌else◌, ◌==◌, Bool-cases, inl, inr,
}
use mathlib.Core.List.{append-nil}
use clanker_npu.Ba.{Node, Entry, World, u12, frame_of}
use clanker_npu.Ba.Chains.{Mpdu, Queue}
use clanker_npu.Ba.Moved.{rounds, all_frames}
use clanker_npu.Ba.Flush.{last_sn}
use clanker_npu.Ba.Scan.{Follows, Gap, ba_seq_scan-Scanned}
use clanker_npu.Ba.Session.{take_last}
use clanker_npu.Ba.Session.Restart.{scanned_last, take_last-Moved}
use clanker_npu.Rx.{Rx, mark}
use clanker_npu.Rx.InOrder.{Caught}
use clanker_npu.Rx.Fast.{catch_up}

-- The held MPDUs that go on from a number without a gap, and those behind them.
pub run_of : ℕ → List Mpdu → List Mpdu
run_of seq [] = []
run_of seq (m ∷ ms) =
    let more = run_of m.node.sn ms in if m.node.sn == u12 (seq + 1) then m ∷ more else []

pub rest_of : ℕ → List Mpdu → List Mpdu
rest_of seq [] = []
rest_of seq (m ∷ ms) =
    let more = rest_of m.node.sn ms in if m.node.sn == u12 (seq + 1) then more else m ∷ ms

run_of-Follows :
    (seq : ℕ) (gone left : List Mpdu)
    → Follows seq gone
    → Gap (last_sn seq gone) left
    → run_of seq (gone ++ left) ≡ gone
unfolding run_of
run_of-Follows seq [] [] f g = refl
run_of-Follows seq [] (m ∷ left) f g =
    let test : (m.node.sn == u12 (seq + 1)) ≡ false = ground (arith, g) in rw test refl
run_of-Follows seq (m ∷ gone) left (e, f) g =
    let test : (m.node.sn == u12 (seq + 1)) ≡ true = ground (arith, e) in
    rw test (ap (λ xs. m ∷ xs) (run_of-Follows m.node.sn gone left f g))

rest_of-Follows :
    (seq : ℕ) (gone left : List Mpdu)
    → Follows seq gone
    → Gap (last_sn seq gone) left
    → rest_of seq (gone ++ left) ≡ left
unfolding rest_of
rest_of-Follows seq [] [] f g = refl
rest_of-Follows seq [] (m ∷ left) f g =
    let test : (m.node.sn == u12 (seq + 1)) ≡ false = ground (arith, g) in rw test refl
rest_of-Follows seq (m ∷ gone) left (e, f) g =
    let test : (m.node.sn == u12 (seq + 1)) ≡ true = ground (arith, e) in
    rw test (rest_of-Follows m.node.sn gone left f g)

-- What both paths leave of the session.
pub record After (rx : Rx) (pn : Node) (ms : List Mpdu) (out : Rx) : Type 0 where
  pub held : Queue out.world.nodes out.entry.head (rest_of pn.sn ms)
  pub last : out.entry.last ≡ last_sn pn.sn (run_of pn.sn ms)
  pub closed : out.entry.msdu ≡ 0

pub Caught-After :
    (rx : Rx) (pn : Node) (ms : List Mpdu) (out : Rx)
    → Caught rx pn ms out
    → After rx pn ms out
      × (out.world.sent
          ≡ rx.world.sent
            ++ frame_of rx.entry.band pn.bss pn ∷ all_frames rx.entry.band (run_of pn.sn ms))
Caught-After rx pn ms out c =
    let run : run_of pn.sn ms ≡ c.gone =
      ap (run_of pn.sn) c.split ∙ run_of-Follows pn.sn c.gone c.left c.follows c.gap in
    let rest : rest_of pn.sn ms ≡ c.left =
      ap (rest_of pn.sn) c.split ∙ rest_of-Follows pn.sn c.gone c.left c.follows c.gap in
    (
      record {
        held = subst (Queue out.world.nodes out.entry.head) (sym rest) c.held;
        last = c.last ∙ ap (last_sn pn.sn) (sym run);
        closed = c.closed;
      },
      c.sent
          ∙ ap
              (λ xs.
                rx.world.sent ++ frame_of rx.entry.band pn.bss pn ∷ all_frames rx.entry.band xs)
              (sym run),
    )

none_held : (nodes : ℕ → Node) (p : ℕ) (ms : List Mpdu) → Queue nodes p ms → p ≡ 0 → ms ≡ []
none_held nodes p [] q h = refl
none_held nodes p (m ∷ ms) (_, (some_at, _)) h = absurd (some_at h)

-- The scan, or none of it for a session that holds nothing.
pub catch_up-After :
    (fuel : ℕ) (rx given : Rx) (e : Entry) (pn : Node) (ms : List Mpdu)
    → Queue rx.world.nodes e.head ms
    → rounds ms ≤ fuel
    → (u : World) × ((g : Entry) × ((catch_up fuel rx.world e pn ≡ some (u, g))
          × (After rx pn ms (record given { world = u; entry = mark g pn 0 })
              × (u.sent ≡ rx.world.sent ++ all_frames e.band (run_of pn.sn ms)))))
unfolding catch_up run_of rest_of
catch_up-After fuel rx given e pn ms q h =
    let at : Entry = record e { last = pn.sn } in
    elim (Bool-cases (e.head == 0)) [
      | inl empty ↦
          let none_at : e.head ≡ 0 = ground (arith, empty) in
          let nil : ms ≡ [] = none_held rx.world.nodes e.head ms q none_at in
          (
            rx.world,
            (
              record at { msdu = 0 },
              (
                rw empty refl,
                (
                  record { held = rw nil none_at; last = rw nil refl; closed = refl },
                  rw nil (sym (append-nil rx.world.sent)),
                ),
              ),
            ),
          )
      | inr some_held ↦
          let (r, (u, (g, (scan, s)))) = ba_seq_scan-Scanned fuel rx.world at pn.sn ms q h in
          let after = take_last-Moved r s.moved in
          let run : run_of pn.sn ms ≡ s.gone =
            ap (run_of pn.sn) s.split ∙ run_of-Follows pn.sn s.gone s.left s.follows s.gap in
          let rest : rest_of pn.sn ms ≡ s.left =
            ap (rest_of pn.sn) s.split ∙ rest_of-Follows pn.sn s.gone s.left s.follows s.gap in
          (
            u,
            (
              record (take_last g r) { msdu = 0 },
              (
                rw (some_held, scan) refl,
                (
                  record {
                    held = subst (Queue u.nodes (take_last g r).head) (sym rest) after.held;
                    last =
                        scanned_last g pn.sn r s.gone s.follows s.same_last s.value
                        ∙ ap (last_sn pn.sn) (sym run);
                    closed = refl;
                  },
                  after.sent ∙ ap (λ xs. rx.world.sent ++ all_frames e.band xs) (sym run),
                ),
              ),
            ),
          )
    ]
