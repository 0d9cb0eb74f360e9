-- ===== src/Ba/Append.antt =====
-- npu_wifi_ba.c: two stretches of releases, one after the other.
use mathlib.Core.List.{append_assoc}
use clanker_npu.Prelude.{
  ℕ, ◌+◌, ◌≡◌, refl, ap, ap₂, sym, ◌∙◌, arith, List, [], ◌∷◌, ◌++◌, length-append,
}
use clanker_npu.Ba.{Entry, Pools, Frame, World}
use clanker_npu.Ba.Chains.{Mpdu, mpdu_frames, free_mpdu}
use clanker_npu.Ba.Moved.{Moved, rounds, all_frames, free_all}

all_frames-append :
    (band : ℕ) (xs ys : List Mpdu)
    → all_frames band (xs ++ ys) ≡ all_frames band xs ++ all_frames band ys
all_frames-append band [] ys = refl
all_frames-append band (x ∷ xs) ys =
    ap (λ (t : List Frame). mpdu_frames band x ++ t) (all_frames-append band xs ys)
    ∙ sym (append_assoc (mpdu_frames band x) (all_frames band xs) (all_frames band ys))

free_all-append :
    (p : Pools) (xs ys : List Mpdu) → free_all p (xs ++ ys) ≡ free_all (free_all p xs) ys
free_all-append p [] ys = refl
free_all-append p (x ∷ xs) ys = free_all-append (free_mpdu p x) xs ys

pub rounds-append : (xs ys : List Mpdu) → rounds (xs ++ ys) ≡ rounds xs + rounds ys
rounds-append [] ys = omega arith
rounds-append (x ∷ xs) ys = omega (arith, rounds-append xs ys)

-- Two stretches of releases, one after the other.
pub Moved-append :
    (w : World) (e : Entry) (xs ys mid left : List Mpdu) (v u : World) (f g : Entry)
    → Moved w e xs mid v f
    → Moved v f ys left u g
    → Moved w e (xs ++ ys) left u g
Moved-append w e xs ys mid left v u f g a b = record {
  held = b.held;
  sent =
      b.sent
      ∙ (ap₂ (λ (x : List Frame) (d : ℕ). x ++ all_frames d ys) a.sent a.band
          ∙ (append_assoc w.sent (all_frames e.band xs) (all_frames e.band ys)
              ∙ ap (λ (x : List Frame). w.sent ++ x) (sym (all_frames-append e.band xs ys))));
  pools =
      b.pools ∙ (ap (λ (x : Pools). free_all x ys) a.pools ∙ sym (free_all-append w.pools xs ys));
  band = b.band ∙ a.band;
  win = b.win ∙ a.win;
  count = omega (arith, a.count, b.count, length-append xs ys);
}
