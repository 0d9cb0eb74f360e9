-- ===== src/StaQ/Count.antt =====
-- How many tokens carry frames of a station, and how a write to the token table changes that.
use clanker_npu.Prelude.{
  ℕ, zero, suc, ◌+◌, ◌≤◌, ◌<◌, ◌≡◌, ◌≢◌, refl, arith, Bool, List, [], ◌∷◌, if◌then◌else◌, ◌==◌,
  length, get_or, set, replicate,
}

-- 1 for a true test.
abbrev pub one_if : Bool → ℕ
one_if b = if b then 1 else 0

unfoldable pub tokens_of : ℕ → List ℕ → ℕ
tokens_of sta [] = 0
tokens_of sta (t ∷ ts) = one_if (t == sta) + tokens_of sta ts

-- The entry that is replaced goes, the new one comes.
pub tokens_of-set :
    (sta v : ℕ) (ts : List ℕ) (i : ℕ)
    → i < length ts
    → tokens_of sta (set ts i v) + one_if (get_or ts i 0 == sta)
      ≡ tokens_of sta ts + one_if (v == sta)
unfolding tokens_of
tokens_of-set sta v [] i h = absurd (omega arith)
tokens_of-set sta v (t ∷ ts) zero h = omega arith
tokens_of-set sta v (t ∷ ts) (suc i) h = omega (arith, tokens_of-set sta v ts i (omega arith))

pub tokens_of-le-length : (sta : ℕ) (ts : List ℕ) → tokens_of sta ts ≤ length ts
unfolding tokens_of
tokens_of-le-length sta [] = omega arith
tokens_of-le-length sta (t ∷ ts) = ground (arith, tokens_of-le-length sta ts)

pub tokens_of-replicate : (sta n v : ℕ) → v ≢ sta → tokens_of sta (replicate n v) ≡ 0
unfolding tokens_of replicate
tokens_of-replicate sta zero v h = refl
tokens_of-replicate sta (suc n) v h = ground (arith, tokens_of-replicate sta n v h)
