-- ===== src/StaQ/Depth.antt =====
-- The frame counts of a station are the tokens that carry its frames.
use native.Mathlib.Decide.{ℕ_discrete}
use clanker_npu.Prelude.{
  ℕ, ◌+◌, ◌*◌, ◌%◌, ◌^◌, ◌<◌, ◌≡◌, ◌≢◌, ◌⊎◌, refl, arith, Bool, true, false, not, ◌&&◌, ◌||◌, List,
  if◌then◌else◌, Bool-cases, inl, inr, ap, ◌∙◌, sym, subst, ◌==◌, ltb, leb, length, get_or, set,
  length-set, get_or-set_self, get_or-set_ne, u16,
}
use clanker_npu.StaQ.{
  StaQ, Cfg, sta_q_tokens, sta_q_stas, sta_q_none, bump_table, bump_sent, sta_q_sent_tok,
  sta_q_unsent_tok, sta_q_done_tok,
}
use clanker_npu.StaQ.Count.{one_if, tokens_of, tokens_of-set}

-- What an entry of the token table may be: a station, or none.
abbrev pub IsStation : ℕ → Type 0
IsStation t = (t < sta_q_stas) ⊎ (t ≡ sta_q_none)

set-IsStation :
    (ts : List ℕ) (tok v : ℕ)
    → tok < length ts
    → ((i : ℕ) → i < sta_q_tokens → IsStation (get_or ts i 0))
    → IsStation v
    → (i : ℕ) → i < sta_q_tokens
    → IsStation (get_or (set ts tok v) i 0)
set-IsStation ts tok v h all new i lt = elim (ℕ_discrete tok i) [
  | yes e ↦ subst IsStation (sym (rw (← e) (get_or-set_self ts tok v 0 h))) new
  | no ne ↦ subst IsStation (sym (get_or-set_ne ts tok i v 0 ne)) (all i lt)
]

-- The counts that queue_depth adds up before it takes off `done`.
abbrev pub total_sent : StaQ → ℕ → ℕ
total_sent q sta = get_or q.sent sta 0 + (if q.driver then get_or q.sent_host sta 0 else 0)

-- The tables have their sizes, and for each station the frames sent and not done are the tokens
-- that carry its frames, modulo the width of the counts.
pub record Balanced (q : StaQ) : Type 0 where
  pub tokens_len : length q.tokens ≡ sta_q_tokens
  pub sent_len : length q.sent ≡ sta_q_stas
  pub host_len : length q.sent_host ≡ sta_q_stas
  pub done_len : length q.done ≡ sta_q_stas
  pub stations : (tok : ℕ) → tok < sta_q_tokens → IsStation (get_or q.tokens tok 0)
  pub balance :
      (sta : ℕ)
      → sta < sta_q_stas
      → total_sent q sta % 2 ^ 16 ≡ (get_or q.done sta 0 + tokens_of sta q.tokens) % 2 ^ 16

pub bump_table-get :
    (t : List ℕ) (sta by j : ℕ)
    → sta < length t
    → get_or (bump_table t sta by) j 0
      ≡ (if sta == j then u16 (get_or t sta 0 + by) else get_or t j 0)
bump_table-get t sta by j h = elim (ℕ_discrete sta j) [
  | yes e ↦ rw (← e) (ground (arith, get_or-set_self t sta (u16 (get_or t sta 0 + by)) 0 h))
  | no ne ↦ ground (arith, get_or-set_ne t sta j (u16 (get_or t sta 0 + by)) 0 ne)
]

-- A count goes up at the table the snapshot points at; host counts exist in the driver build.
total_sent-bump :
    (c : Cfg) (q : StaQ) (sta by j : ℕ)
    → Balanced q
    → sta < sta_q_stas
    → (c.host ≡ true → q.driver ≡ true)
    → total_sent (bump_sent c q sta by) j % 2 ^ 16
      ≡ (total_sent q j + (if sta == j then by else 0)) % 2 ^ 16
unfolding bump_sent
total_sent-bump c q sta by j b h d = elim (Bool-cases c.host) [
  | inl host ↦ rw host (rw (d host) (ground (arith, on_host)))
  | inr wire ↦ rw wire (ground (arith, on_wire))
]
  where
    on_host :
        get_or (bump_table q.sent_host sta by) j 0
        ≡ (if sta == j then u16 (get_or q.sent_host sta 0 + by) else get_or q.sent_host j 0)
    on_host = bump_table-get q.sent_host sta by j (omega (arith, b.host_len))

    on_wire :
        get_or (bump_table q.sent sta by) j 0
        ≡ (if sta == j then u16 (get_or q.sent sta 0 + by) else get_or q.sent j 0)
    on_wire = bump_table-get q.sent sta by j (omega (arith, b.sent_len))

-- What a count leaves alone.
record Kept (q r : StaQ) : Type 0 where
  tokens : r.tokens ≡ q.tokens
  done : r.done ≡ q.done
  driver : r.driver ≡ q.driver
  sent_len : length r.sent ≡ length q.sent
  host_len : length r.sent_host ≡ length q.sent_host

bump_sent-Kept : (c : Cfg) (q : StaQ) (sta by : ℕ) → Kept q (bump_sent c q sta by)
unfolding bump_sent
bump_sent-Kept c q sta by = ground (
  arith,
  length-set q.sent sta (u16 (get_or q.sent sta 0 + by)),
  length-set q.sent_host sta (u16 (get_or q.sent_host sta 0 + by)),
)

-- The guard of the inline hooks.
abbrev in_range : StaQ → ℕ → ℕ → Bool
in_range q tok sta = ltb sta sta_q_stas && ltb tok sta_q_tokens && q.mapped

in_range-bounds :
    (q : StaQ) (tok sta : ℕ) → in_range q tok sta ≡ true → (sta < sta_q_stas) × (tok < sta_q_tokens)
in_range-bounds q tok sta h = ground arith

gain :
    (a t b d u e : ℕ)
    → a % 2 ^ 16 ≡ (b + e) % 2 ^ 16
    → b % 2 ^ 16 ≡ (d + u) % 2 ^ 16
    → t ≡ u + e
    → a % 2 ^ 16 ≡ (d + t) % 2 ^ 16
gain a t b d u e p q r = omega arith

lose :
    (a t b d u e : ℕ)
    → a % 2 ^ 16 ≡ (b + 0xFFFF * e) % 2 ^ 16
    → b % 2 ^ 16 ≡ (d + u) % 2 ^ 16
    → t + e ≡ u
    → a % 2 ^ 16 ≡ (d + t) % 2 ^ 16
lose a t b d u e p q r = omega arith

moved :
    (d' t a d u e : ℕ)
    → a % 2 ^ 16 ≡ (d + u) % 2 ^ 16
    → d' % 2 ^ 16 ≡ (d + e) % 2 ^ 16
    → t + e ≡ u
    → a % 2 ^ 16 ≡ (d' + t) % 2 ^ 16
moved d' t a d u e p q r = omega arith

module _ (c : Cfg) (q : StaQ) (tok sta : ℕ) (b : Balanced q)
    (host : c.host ≡ true → q.driver ≡ true) where
  -- Sending a frame on a token that carries none keeps the counts balanced.
  pub sta_q_sent_tok-Balanced :
      (now : ℕ) → get_or q.tokens tok 0 ≡ sta_q_none → Balanced (sta_q_sent_tok c q tok sta now)
  unfolding sta_q_sent_tok
  sta_q_sent_tok-Balanced now free = elim (Bool-cases (in_range q tok sta)) [
    | inl ok ↦
        let (s, t) = in_range-bounds q tok sta ok in
        let k = bump_sent-Kept c q sta 1 in
        rw ok (record {
          tokens_len = length-set q.tokens tok (u16 sta) ∙ b.tokens_len;
          sent_len = k.sent_len ∙ b.sent_len;
          host_len = k.host_len ∙ b.host_len;
          done_len = ap length k.done ∙ b.done_len;
          stations =
              set-IsStation q.tokens tok (u16 sta) (omega (arith, b.tokens_len)) b.stations
                (inl (omega arith));
          balance = λ j lt. rw k.done (
              gain _ _ (total_sent q j) (get_or q.done j 0) (tokens_of j q.tokens)
                (if sta == j then 1 else 0) (total_sent-bump c q sta 1 j b s host) (b.balance j lt)
                (ground (
                  arith,
                  free,
                  tokens_of-set j (u16 sta) q.tokens tok (omega (arith, b.tokens_len)),
                )));
        })
    | inr out ↦ rw out b
  ]

  -- So does taking a frame back, on the token that was to carry it.
  pub sta_q_unsent_tok-Balanced :
      get_or q.tokens tok 0 ≡ sta → Balanced (sta_q_unsent_tok c q tok sta)
  unfolding sta_q_unsent_tok
  sta_q_unsent_tok-Balanced held = elim (Bool-cases (in_range q tok sta)) [
    | inl ok ↦
        let (s, t) = in_range-bounds q tok sta ok in
        let k = bump_sent-Kept c q sta 0xFFFF in
        rw ok (record {
          tokens_len = length-set q.tokens tok sta_q_none ∙ b.tokens_len;
          sent_len = k.sent_len ∙ b.sent_len;
          host_len = k.host_len ∙ b.host_len;
          done_len = ap length k.done ∙ b.done_len;
          stations =
              set-IsStation q.tokens tok sta_q_none (omega (arith, b.tokens_len)) b.stations
                (inr refl);
          balance = λ j lt. rw k.done (
              lose _ _ (total_sent q j) (get_or q.done j 0) (tokens_of j q.tokens)
                (one_if (sta == j)) (total_sent-bump c q sta 0xFFFF j b s host ∙ ground arith)
                (b.balance j lt)
                (ground (
                  arith,
                  held,
                  tokens_of-set j sta_q_none q.tokens tok (omega (arith, b.tokens_len)),
                )));
        })
    | inr out ↦ rw out b
  ]

abbrev is_ignored : StaQ → ℕ → Bool
is_ignored q tok = not q.mapped || leb sta_q_tokens tok || (get_or q.tokens tok 0 == sta_q_none)

counted-bounds :
    (q : StaQ) (tok : ℕ)
    → Balanced q
    → is_ignored q tok ≡ false
    → (tok < sta_q_tokens) × (get_or q.tokens tok 0 < sta_q_stas)
counted-bounds q tok b h =
    let small : tok < sta_q_tokens = ground arith in
    let ne : get_or q.tokens tok 0 ≢ sta_q_none = ground arith in
    (small, elim (b.stations tok small) [ inl lt ↦ lt | inr e ↦ absurd (ne e) ])

-- A done report moves one token of its station to the done count, and a report on a token that
-- carries nothing changes nothing.
pub sta_q_done_tok-Balanced :
    (q : StaQ) (tok tick : ℕ) → Balanced q → Balanced (sta_q_done_tok q tok tick)
unfolding sta_q_done_tok
sta_q_done_tok-Balanced q tok tick b = elim (Bool-cases (is_ignored q tok)) [
  | inl out ↦ rw out b
  | inr ok ↦
      let (small, station) = counted-bounds q tok b ok in
      let sta = get_or q.tokens tok 0 in
      rw ok (record {
        tokens_len = length-set q.tokens tok sta_q_none ∙ b.tokens_len;
        sent_len = b.sent_len;
        host_len = b.host_len;
        done_len = length-set q.done sta (u16 (get_or q.done sta 0 + 1)) ∙ b.done_len;
        stations =
            set-IsStation q.tokens tok sta_q_none (omega (arith, b.tokens_len)) b.stations
              (inr refl);
        balance = λ j lt.
            moved _ _ (total_sent q j) (get_or q.done j 0) (tokens_of j q.tokens)
              (one_if (sta == j)) (b.balance j lt)
              (ground (arith, bump_table-get q.done sta 1 j (omega (arith, b.done_len))))
              (ground
                (arith, tokens_of-set j sta_q_none q.tokens tok (omega (arith, b.tokens_len))));
      })
]
