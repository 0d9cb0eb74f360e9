-- ===== src/Ba/Session/Timeout.antt =====
-- npu_wifi_ba.c: ba_timeout_entry releases until the head of the queue is young enough.
use mathlib.Core.List.{append_assoc}
use clanker_npu.Prelude.{
  inl, inr, ℕ, zero, suc, ◌^◌, ◌≤◌, ◌<◌, ◌≡◌, refl, ap, sym, ◌∙◌, arith, true, false, List, [], ◌∷◌,
  ◌++◌, some, length, length-append, All, Bool-cases, subst, sub32,
}
use clanker_npu.Ba.{Node, Entry, World}
use clanker_npu.Ba.Chains.{Mpdu, Queue}
use clanker_npu.Ba.Moved.{Moved, rounds, none_gone}
use clanker_npu.Ba.Session.{overdue, timeout_round, ba_timeout_entry}
use clanker_npu.Ba.Append.{rounds-append, Moved-append}
use clanker_npu.Ba.Session.Round.{timeout_round-Timed}

-- The head of what is left has not waited longer than the timeout.
abbrev pub Young : ℕ → ℕ → List Mpdu → Type 0
Young now timeout [] = Unit
Young now timeout (m ∷ ms) = sub32 now m.node.tick ≤ timeout

All-drop :
    (xs ys : List Mpdu)
    → All (λ m. m.node.sn < 2 ^ 16) (xs ++ ys)
    → All (λ m. m.node.sn < 2 ^ 16) ys
All-drop [] ys a = a
All-drop (x ∷ xs) ys a = All-drop xs ys a.1

overdue-Young :
    (w : World) (e : Entry) (ms : List Mpdu) (now timeout : ℕ)
    → Queue w.nodes e.head ms
    → overdue w e now timeout ≡ false
    → Young now timeout ms
overdue-Young w e [] now timeout q h = tt
overdue-Young w e (m ∷ ms) now timeout q h =
    let tick : (w.nodes e.head).tick ≡ m.node.tick = ap (λ (n : Node). n.tick) q.1.1.0 in
    let young : sub32 now (w.nodes e.head).tick ≤ timeout = ground (arith, q.1.0) in
    subst (λ t. sub32 now t ≤ timeout) tick young

ba_timeout_entry-stops :
    (n fuel : ℕ) (w : World) (e : Entry) (now timeout : ℕ)
    → overdue w e now timeout ≡ false
    → ba_timeout_entry n fuel w e now timeout ≡ some (w, e)
unfolding ba_timeout_entry
ba_timeout_entry-stops zero fuel w e now timeout h = rw h refl
ba_timeout_entry-stops (suc n) fuel w e now timeout h = rw h refl

ba_timeout_entry-goes_on :
    (n fuel : ℕ) (w : World) (e : Entry) (now timeout : ℕ) (v : World) (f : Entry)
    → overdue w e now timeout ≡ true
    → timeout_round fuel w e ≡ some (v, f)
    → ba_timeout_entry (suc n) fuel w e now timeout ≡ ba_timeout_entry n fuel v f now timeout
unfolding ba_timeout_entry
ba_timeout_entry-goes_on n fuel w e now timeout v f h run = rw (h, run) refl

empty_young :
    (w : World) (e : Entry) (now timeout : ℕ) → e.head ≡ 0 → overdue w e now timeout ≡ false
empty_young w e now timeout h = ground arith

-- A session that holds the MPDUs ms, whose numbers fit a u16, with one round for each of them and
-- fuel for each node: ba_timeout_entry ends. It splits ms in two: it releases the first part in order,
-- frames and indices; the rest is still held, and its head, if there is one, has waited at most the
-- timeout.
pub ba_timeout_entry-Young :
    (n fuel : ℕ) (w : World) (e : Entry) (now timeout : ℕ) (ms : List Mpdu)
    → Queue w.nodes e.head ms
    → All (λ m. m.node.sn < 2 ^ 16) ms
    → length ms ≤ n
    → rounds ms ≤ fuel
    → (v : World) × ((f : Entry) × ((ba_timeout_entry n fuel w e now timeout ≡ some (v, f))
          × ((gone : List Mpdu) × ((left : List Mpdu) × ((ms ≡ gone ++ left)
                  × (Moved w e gone left v f × Young now timeout left))))))
ba_timeout_entry-Young zero fuel w e now timeout [] q small enough h = (
  w,
  (
    e,
    (
      ba_timeout_entry-stops zero fuel w e now timeout (empty_young w e now timeout q),
      ([], ([], (refl, (none_gone w e [] q, tt)))),
    ),
  ),
)
ba_timeout_entry-Young (suc n) fuel w e now timeout [] q small enough h = (
  w,
  (
    e,
    (
      ba_timeout_entry-stops (suc n) fuel w e now timeout (empty_young w e now timeout q),
      ([], ([], (refl, (none_gone w e [] q, tt)))),
    ),
  ),
)
ba_timeout_entry-Young zero fuel w e now timeout (m ∷ ms) q small enough h = absurd (omega arith)
ba_timeout_entry-Young (suc n) fuel w e now timeout (m ∷ ms) q small enough h =
    elim (Bool-cases (overdue w e now timeout)) [
      | inr done ↦ (
        w,
        (
          e,
          (
            ba_timeout_entry-stops (suc n) fuel w e now timeout done,
            (
              [],
              (
                m ∷ ms,
                (refl, (none_gone w e (m ∷ ms) q, overdue-Young w e (m ∷ ms) now timeout q done)),
              ),
            ),
          ),
        ),
      )
      | inl more ↦
          let (v, (f, (run, (t, some_gone)))) = timeout_round-Timed fuel w e m ms q small.0 h in
          let fewer : length t.left ≤ n =
            omega (arith, enough, some_gone, ap length t.split, length-append t.gone t.left) in
          let less : rounds t.left ≤ fuel =
            omega (arith, h, ap rounds t.split, rounds-append t.gone t.left) in
          let (u, (g, (rest, (gone, (left, (split, (moved, young))))))) =
            ba_timeout_entry-Young n fuel v f now timeout t.left t.moved.held
              (All-drop t.gone t.left (subst (All (λ k. k.node.sn < 2 ^ 16)) t.split small)) fewer
              less in
          (
            u,
            (
              g,
              (
                ba_timeout_entry-goes_on n fuel w e now timeout v f more run ∙ rest,
                (
                  t.gone ++ gone,
                  (
                    left,
                    (
                      t.split
                          ∙ (ap (λ (x : List Mpdu). t.gone ++ x) split
                              ∙ sym (append_assoc t.gone gone left)),
                      (Moved-append w e t.gone gone t.left left v u f g t.moved moved, young),
                    ),
                  ),
                ),
              ),
            ),
          )
    ]
