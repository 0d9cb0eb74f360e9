-- ===== src/Console/Fresh.antt =====
-- npu_printf.c: a command line is taken from its own bytes, not from those an earlier line left.
use clanker_npu.Prelude.{
  ℕ, zero, suc, ◌≤◌, ◌<◌, false, ◌&&◌, ◌||◌, not, none, some, if◌then◌else◌, ltb, ◌==◌, ◌≡◌, ◌≢◌,
  refl, arith, Bool-cases, Option-cases, inl, inr, sym, ◌∙◌, ap,
}
use clanker_npu.Console.{
  Cmd, store, Reply, wrong, wrong_at, read, written, hex_digit, column, columns, Parsed, good, bad,
  run_line, uart_debug_cmd,
}
use clanker_npu.Console.Feed.{step_full, step_wait, step_run}

column-eq :
    (buf other : ℕ → ℕ) (pos addr val : ℕ)
    → buf pos ≡ other pos
    → column buf pos addr val ≡ column other pos addr val
unfolding column
column-eq buf other pos addr val h = rw h refl

-- The end of the line is no digit, except where a blank is expected.
column-end :
    (buf : ℕ → ℕ) (pos addr val : ℕ) → buf pos ≡ b'\r' → pos ≢ 11 → column buf pos addr val ≡ none
unfolding column hex_digit
column-end buf pos addr val h k = rw h (ground (arith, k))

columns-end :
    (k : ℕ) (buf : ℕ → ℕ) (pos addr val : ℕ)
    → column buf pos addr val ≡ none
    → columns (suc k) buf pos addr val ≡ bad pos
unfolding columns
columns-end k buf pos addr val h = rw (columns, h) refl

columns-next :
    (k : ℕ) (buf : ℕ → ℕ) (pos addr val a v : ℕ)
    → column buf pos addr val ≡ some (a, v)
    → columns (suc k) buf pos addr val ≡ columns k buf (suc pos) a v
unfolding columns
columns-next k buf pos addr val a v h = rw (columns, h) refl

columns-eq :
    (k : ℕ) (buf other : ℕ → ℕ) (pos addr val i : ℕ)
    → ((j : ℕ) → j ≤ i → buf j ≡ other j)
    → buf i ≡ b'\r'
    → i ≢ 11
    → pos ≤ i
    → columns k buf pos addr val ≡ columns k other pos addr val
unfolding columns
columns-eq zero buf other pos addr val i same end gap h = refl
columns-eq (suc k) buf other pos addr val i same end gap h =
    let e = column-eq buf other pos addr val (same pos h) in
    elim (Option-cases (column buf pos addr val)) [
      | inl stop ↦
          columns-end k buf pos addr val stop
          ∙ sym (columns-end k other pos addr val (sym e ∙ stop))
      | inr ((a, v), go) ↦
          let before : pos ≢ i = λ p. absurd (
            let stop = column-end buf pos addr val (ap buf p ∙ end) (λ q. gap (sym p ∙ q)) in
            let clash : some (a, v) ≡ none = sym go ∙ stop in cc) in
          columns-next k buf pos addr val a v go
          ∙ (columns-eq k buf other (suc pos) a v i same end gap (omega (arith, before))
              ∙ sym (columns-next k other pos addr val a v (sym e ∙ go)))
    ]

-- run_line as a function of what it takes from the buffer.
pub command : ℕ → ℕ → Parsed → Parsed → Reply
command first second long short =
    let wr = first == b'w' in
    if not (second == (if wr then b't' else b'd')) || (not wr && not (first == b'r'))
    then wrong
    else elim (if wr then long else short) [
      | bad pos ↦ wrong_at pos
      | good addr val ↦ if wr then written addr val else read addr
    ]

pub run_line-command :
    (buf : ℕ → ℕ)
    → run_line buf ≡ command (buf 0) (buf 1) (columns 17 buf 3 0 0) (columns 8 buf 3 0 0)
unfolding run_line command
run_line-command buf = elim (Bool-cases (buf 0 == b'w')) [ inl w ↦ rw w refl | inr r ↦ rw r refl ]

pub command-read : (v : ℕ) (long : Parsed) → command b'r' b'd' long (good v 0) ≡ read v
unfolding command
command-read v long = refl

pub command-write :
    (addr val : ℕ) (short : Parsed) → command b'w' b't' (good addr val) short ≡ written addr val
unfolding command
command-write addr val short = refl

run_line-eq :
    (buf other : ℕ → ℕ)
    → buf 0 ≡ other 0
    → buf 1 ≡ other 1
    → columns 17 buf 3 0 0 ≡ columns 17 other 3 0 0
    → columns 8 buf 3 0 0 ≡ columns 8 other 3 0 0
    → run_line buf ≡ run_line other
run_line-eq buf other a b long short =
    rw (run_line-command buf, run_line-command other, a, b, long, short) refl

run_line-short0 : (buf : ℕ → ℕ) → buf 0 ≡ b'\r' → run_line buf ≡ wrong
unfolding run_line
run_line-short0 buf h = rw h (ground arith)

run_line-short1 : (buf : ℕ → ℕ) → buf 1 ≡ b'\r' → run_line buf ≡ wrong
unfolding run_line
run_line-short1 buf h = rw h (ground arith)

run_line-Same :
    (buf other : ℕ → ℕ) (i : ℕ)
    → ((j : ℕ) → j ≤ i → buf j ≡ other j)
    → buf i ≡ b'\r'
    → i ≢ 2
    → i ≢ 11
    → run_line buf ≡ run_line other
run_line-Same buf other zero same end h k =
    run_line-short0 buf end ∙ sym (run_line-short0 other (sym (same 0 (omega arith)) ∙ end))
run_line-Same buf other (suc zero) same end h k =
    run_line-short1 buf end ∙ sym (run_line-short1 other (sym (same 1 (omega arith)) ∙ end))
run_line-Same buf other (suc (suc zero)) same end h k = absurd (h refl)
run_line-Same buf other (suc (suc (suc n))) same end h k =
    let i = suc (suc (suc n)) in
    run_line-eq buf other (same 0 (omega arith)) (same 1 (omega arith))
      (columns-eq 17 buf other 3 0 0 i same end k (omega arith))
      (columns-eq 8 buf other 3 0 0 i same end k (omega arith))

store-same :
    (buf other : ℕ → ℕ) (i c j : ℕ)
    → (j < i → buf j ≡ other j)
    → j ≤ i
    → store buf i c j ≡ store other i c j
unfolding store
store-same buf other i c j same h = elim (Bool-cases (i == j)) [
  | inl e ↦ rw e refl
  | inr n ↦ rw n (same (ground (arith, n)))
]

store_self : (buf : ℕ → ℕ) (i c : ℕ) → store buf i c i ≡ c
unfolding store
store_self buf i c = ground arith

-- What a byte does depends on the bytes of its own line only: two parsers at the same index, with the
-- same bytes before it and any others after it, reply alike. The line is not one of 2 or 11 bytes, which
-- the parser takes with what an earlier line left.
pub uart_debug_cmd-Same :
    (s t : Cmd) (c : ℕ)
    → s.idx ≡ t.idx
    → s.idx ≢ 2
    → s.idx ≢ 11
    → ((j : ℕ) → j < s.idx → s.buf j ≡ t.buf j)
    → (uart_debug_cmd s c).0 ≡ (uart_debug_cmd t c).0
uart_debug_cmd-Same s t c e h k same = elim (Bool-cases (ltb 31 s.idx)) [
  | inl full ↦
      ap (λ (o : Reply × Cmd). o.0) (step_full s c full)
      ∙ sym (ap (λ (o : Reply × Cmd). o.0) (step_full t c (ap (ltb 31) (sym e) ∙ full)))
  | inr room ↦
      let room_t : ltb 31 t.idx ≡ false = ap (ltb 31) (sym e) ∙ room in
      elim (Bool-cases (c == b'\r')) [
        | inr more ↦
            ap (λ (o : Reply × Cmd). o.0) (step_wait s c room more)
            ∙ sym (ap (λ (o : Reply × Cmd). o.0) (step_wait t c room_t more))
        | inl end ↦
            let cr : c ≡ b'\r' = ground (arith, end) in
            ap (λ (o : Reply × Cmd). o.0) (step_run s c room end)
            ∙ (run_line-Same (store s.buf s.idx c) (store t.buf s.idx c) s.idx
                  (λ j le. store-same s.buf t.buf s.idx c j (same j) le)
                  (store_self s.buf s.idx c ∙ cr) h k
                ∙ (ap (λ i. run_line (store t.buf i c)) e
                    ∙ sym (ap (λ (o : Reply × Cmd). o.0) (step_run t c room_t end))))
      ]
]
