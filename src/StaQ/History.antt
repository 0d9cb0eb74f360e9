-- ===== src/StaQ/History.antt =====
-- The frame counts over any history of the hooks and of drop decisions.
use clanker_npu.Prelude.{
  ℕ, zero, suc, ◌+◌, ◌%◌, ◌^◌, ◌≤◌, ◌<◌, ◌≡◌, ◌≢◌, ◌⊎◌, refl, arith, true, false, Bool-cases, inl,
  inr, ap, ◌∙◌, ◌==◌, length, get_or, set, replicate, length-replicate, sub16,
}
use clanker_npu.StaQ.{
  StaQ, Cfg, sta_q_tokens, sta_q_stas, sta_q_none, sta_q_sent_tok, sta_q_unsent_tok, sta_q_done_tok,
  sta_q_init, sta_q_drop, sta_q_decide, put_aqm, queue_depth, count_aqm, decide_standing, Verdict,
  pass, Aqm, standing, idle_probe, aqm_verdict, aqm_of,
}
use clanker_npu.StaQ.Count.{tokens_of, tokens_of-le-length, tokens_of-replicate}
use clanker_npu.StaQ.Depth.{
  Balanced, total_sent, sta_q_sent_tok-Balanced, sta_q_unsent_tok-Balanced, sta_q_done_tok-Balanced,
}

-- What the harts do: a frame goes out on a token that carries none, a frame is taken back, the chip
-- reports any token, a drop is decided. Host snapshots exist in the driver build.
pub data Step (q : StaQ) : StaQ → Type 0 where
  sends :
      (c : Cfg) (tok sta now : ℕ)
      → (c.host ≡ true → q.driver ≡ true)
      → get_or q.tokens tok 0 ≡ sta_q_none
      → Step q (sta_q_sent_tok c q tok sta now)
  unsends :
      (c : Cfg) (tok sta : ℕ)
      → (c.host ≡ true → q.driver ≡ true)
      → get_or q.tokens tok 0 ≡ sta
      → Step q (sta_q_unsent_tok c q tok sta)
  reports : (tok tick : ℕ) → Step q (sta_q_done_tok q tok tick)
  decides : (c : Cfg) (sta now len : ℕ) → Step q (sta_q_drop c q sta now len).1

pub data Reach (q : StaQ) : StaQ → Type 0 where
  here : Reach q q
  next : {r t : StaQ} → Reach q r → Step r t → Reach q t

-- A decision touches neither the tokens nor the counts of frames.
record SameFrames (q r : StaQ) : Type 0 where
  driver : r.driver ≡ q.driver
  tokens : r.tokens ≡ q.tokens
  sent : r.sent ≡ q.sent
  sent_host : r.sent_host ≡ q.sent_host
  done : r.done ≡ q.done

count_aqm-SameFrames : (v : Verdict) (q : StaQ) → SameFrames q (count_aqm v q)
unfolding count_aqm
count_aqm-SameFrames pass q = ground arith
count_aqm-SameFrames _ q = ground arith

put_aqm-SameFrames : (c : Cfg) (q : StaQ) (sta : ℕ) (a : Aqm) → SameFrames q (put_aqm c q sta a)
unfolding put_aqm
put_aqm-SameFrames c q sta a = ground arith

SameFrames-trans : (q r t : StaQ) → SameFrames q r → SameFrames r t → SameFrames q t
SameFrames-trans q r t a b = record {
  driver = b.driver ∙ a.driver;
  tokens = b.tokens ∙ a.tokens;
  sent = b.sent ∙ a.sent;
  sent_host = b.sent_host ∙ a.sent_host;
  done = b.done ∙ a.done;
}

decide_standing-SameFrames :
    (c : Cfg) (q : StaQ) (sta now len : ℕ) → SameFrames q (decide_standing c q sta now len).1
unfolding decide_standing
decide_standing-SameFrames c q sta now len =
    let s = standing c.settings (queue_depth q sta) (get_or q.probe sta idle_probe) now in
    let r = aqm_verdict c.settings s.0 (aqm_of c q sta) now len in
    let timed = record q { probe = set q.probe sta s.1 } in
    let put = put_aqm c timed sta r.1 in
    SameFrames-trans q put _
      (SameFrames-trans q timed put
        (record { driver = refl; tokens = refl; sent = refl; sent_host = refl; done = refl })
        (put_aqm-SameFrames c timed sta r.1))
      (count_aqm-SameFrames r.0 put)

sta_q_drop-SameFrames :
    (c : Cfg) (q : StaQ) (sta now len : ℕ) → SameFrames q (sta_q_drop c q sta now len).1
unfolding sta_q_drop sta_q_decide
sta_q_drop-SameFrames c q sta now len = ground (arith, decide_standing-SameFrames c q sta now len)

SameFrames-Balanced : (q r : StaQ) → SameFrames q r → Balanced q → Balanced r
SameFrames-Balanced q r s b = record {
  tokens_len = ap length s.tokens ∙ b.tokens_len;
  sent_len = ap length s.sent ∙ b.sent_len;
  host_len = ap length s.sent_host ∙ b.host_len;
  done_len = ap length s.done ∙ b.done_len;
  stations = λ i lt. rw s.tokens (b.stations i lt);
  balance = λ j lt. rw (s.sent, s.sent_host, s.driver, s.done, s.tokens) (b.balance j lt);
}

Step-Balanced : {q r : StaQ} → Step q r → Balanced q → Balanced r
Step-Balanced {q} (sends c tok sta now host free) b =
    sta_q_sent_tok-Balanced c q tok sta b host now free
Step-Balanced {q} (unsends c tok sta host held) b =
    sta_q_unsent_tok-Balanced c q tok sta b host held
Step-Balanced {q} (reports tok tick) b = sta_q_done_tok-Balanced q tok tick b
Step-Balanced {q} (decides c sta now len) b =
    SameFrames-Balanced q (sta_q_drop c q sta now len).1 (sta_q_drop-SameFrames c q sta now len) b

pub Reach-Balanced : {q r : StaQ} → Balanced q → Reach q r → Balanced r
Reach-Balanced b here = b
Reach-Balanced b (next r s) = Step-Balanced s (Reach-Balanced b r)

difference : (a d t : ℕ) → a % 2 ^ 16 ≡ (d + t) % 2 ^ 16 → t ≤ sta_q_tokens → sub16 a d ≡ t
difference a d t e h = omega arith

-- With balanced counts the difference that sta_q_decide takes never reads as negative: it is the
-- number of tokens that carry frames of the station.
pub queue_depth-eq-tokens :
    (q : StaQ) (sta : ℕ)
    → Balanced q
    → sta < sta_q_stas
    → queue_depth q sta ≡ tokens_of sta q.tokens
unfolding queue_depth
queue_depth-eq-tokens q sta b lt =
    let few : tokens_of sta q.tokens ≤ sta_q_tokens =
      omega (arith, tokens_of-le-length sta q.tokens, b.tokens_len) in
    let e =
      difference (total_sent q sta) (get_or q.done sta 0) (tokens_of sta q.tokens)
        (b.balance sta lt) few in
    rw e (ground arith)

get_or-replicate : (n v i : ℕ) → (get_or (replicate n v) i 0 ≡ v) ⊎ (n ≤ i)
unfolding replicate
get_or-replicate zero v i = inr (omega arith)
get_or-replicate (suc n) v zero = inl refl
get_or-replicate (suc n) v (suc i) = elim (get_or-replicate n v i) [
  | inl e ↦ inl e
  | inr h ↦ inr (omega arith)
]

pub get_or-replicate_in : (n v i : ℕ) → i < n → get_or (replicate n v) i 0 ≡ v
get_or-replicate_in n v i h = elim (get_or-replicate n v i) [
  | inl e ↦ e
  | inr le ↦ absurd (omega arith)
]

zeroes : (n i : ℕ) → get_or {A = ℕ} (replicate n 0) i 0 ≡ 0
unfolding replicate
zeroes zero i = refl
zeroes (suc n) zero = refl
zeroes (suc n) (suc i) = zeroes n i

fresh-Balanced :
    (n m : ℕ) (r : StaQ)
    → n ≡ sta_q_tokens
    → m ≡ sta_q_stas
    → r.tokens ≡ replicate n sta_q_none
    → r.sent ≡ replicate m 0
    → r.done ≡ replicate m 0
    → length r.sent_host ≡ m
    → (r.driver ≡ true → r.sent_host ≡ replicate m 0)
    → Balanced r
fresh-Balanced n m r en em t s d len host = record {
  tokens_len = ap length t ∙ (length-replicate n sta_q_none ∙ en);
  sent_len = ap length s ∙ (length-replicate m 0 ∙ em);
  host_len = len ∙ em;
  done_len = ap length d ∙ (length-replicate m 0 ∙ em);
  stations = λ i lt. elim (get_or-replicate n sta_q_none i) [
    | inl e ↦ inr (ap (λ l. get_or l i 0) t ∙ e)
    | inr h ↦ absurd (omega arith)
  ];
  balance = λ j lt.
      rw (s, d, t, zeroes m j, tokens_of-replicate j n sta_q_none (omega arith))
        (elim (Bool-cases r.driver) [
          | inl e ↦ rw e (rw (host e, zeroes m j) refl)
          | inr e ↦ rw e refl
        ]);
}

-- sta_q_init leaves balanced counts, where its block is there.
pub sta_q_init-Balanced :
    (base clock : ℕ) (q : StaQ)
    → base ≢ 0
    → length q.sent_host ≡ sta_q_stas
    → Balanced (sta_q_init base clock q)
unfolding sta_q_init
sta_q_init-Balanced base clock q ne len =
    let there : (base == 0) ≡ false = ground arith in
    fresh-Balanced sta_q_tokens sta_q_stas _ refl refl (rw there) (rw there) (rw there)
      (rw there (elim (Bool-cases q.driver) [
        | inl e ↦ rw e (length-replicate sta_q_stas 0)
        | inr e ↦ rw e len
      ]))
      (rw there (λ e. rw e))

-- After the tables are set up, and whatever the harts do since, the frame count that a drop decision
-- goes by is the number of tokens that carry the station's frames: reports that come twice, frames
-- taken back and the 16-bit wrap of the counts do not make it drift.
pub queue_depth-after :
    (base clock : ℕ) (q r : StaQ) (sta : ℕ)
    → base ≢ 0
    → length q.sent_host ≡ sta_q_stas
    → Reach (sta_q_init base clock q) r
    → sta < sta_q_stas
    → queue_depth r sta ≡ tokens_of sta r.tokens
queue_depth-after base clock q r sta ne len reach lt =
    queue_depth-eq-tokens r sta (Reach-Balanced (sta_q_init-Balanced base clock q ne len) reach) lt
