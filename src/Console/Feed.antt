-- ===== src/Console/Feed.antt =====
-- npu_printf.c: the steps of uart_debug_cmd, and the buffer that its writes stay inside.
use clanker_npu.Prelude.{
  ℕ, ◌+◌, ◌≤◌, true, false, List, [], ◌∷◌, ltb, ◌==◌, ◌≡◌, ◌≢◌, refl, arith, Bool-cases, inl, inr,
  ◌∙◌, ap, ltb→le,
}
use clanker_npu.Console.{
  Cmd, store, Reply, waiting, too_long, wrong, wrong_at, read, written, run_line, ended,
  uart_debug_cmd, feed,
}

pub step_full :
    (s : Cmd) (c : ℕ) → ltb 31 s.idx ≡ true → uart_debug_cmd s c ≡ (too_long, record s { idx = 0 })
unfolding uart_debug_cmd
step_full s c h = ground (arith, h)

pub step_wait :
    (s : Cmd) (c : ℕ)
    → ltb 31 s.idx ≡ false
    → (c == b'\r') ≡ false
    → uart_debug_cmd s c ≡ (waiting, record { buf = store s.buf s.idx c; idx = s.idx + 1 })
unfolding uart_debug_cmd
step_wait s c h k = ground (arith, h, k)

pub step_run :
    (s : Cmd) (c : ℕ)
    → ltb 31 s.idx ≡ false
    → (c == b'\r') ≡ true
    → uart_debug_cmd s c ≡ (
      run_line (store s.buf s.idx c),
      record { buf = ended (run_line (store s.buf s.idx c)) (store s.buf s.idx c) s.idx; idx = 0 },
    )
unfolding uart_debug_cmd
step_run s c h k = ground (arith, h, k)

store_other : (buf : ℕ → ℕ) (i c j : ℕ) → i ≢ j → store buf i c j ≡ buf j
unfolding store
store_other buf i c j h = ground (arith, h)

ended_other : (r : Reply) (buf : ℕ → ℕ) (i j : ℕ) → i ≢ j → ended r buf i j ≡ buf j
unfolding ended
ended_other waiting buf i j h = refl
ended_other too_long buf i j h = refl
ended_other wrong buf i j h = store_other buf i 0 j h
ended_other (wrong_at pos) buf i j h = store_other buf i 0 j h
ended_other (read addr) buf i j h = refl
ended_other (written addr val) buf i j h = refl

step_inside : (s : Cmd) (c j : ℕ) → 32 ≤ j → (uart_debug_cmd s c).1.buf j ≡ s.buf j
step_inside s c j h = elim (Bool-cases (ltb 31 s.idx)) [
  | inl full ↦ ap (λ (o : Reply × Cmd). o.1.buf j) (step_full s c full)
  | inr room ↦
      let inside : s.idx ≢ j = omega (arith, ltb→le 31 s.idx room) in
      elim (Bool-cases (c == b'\r')) [
        | inl end ↦
            let buf = store s.buf s.idx c in
            ap (λ (o : Reply × Cmd). o.1.buf j) (step_run s c room end)
            ∙ (ended_other (run_line buf) buf s.idx j inside ∙ store_other s.buf s.idx c j inside)
        | inr more ↦
            ap (λ (o : Reply × Cmd). o.1.buf j) (step_wait s c room more)
            ∙ store_other s.buf s.idx c j inside
      ]
]

-- No sequence of bytes, from any index, makes the parser write past the 32 bytes of uart_cmd_buf.
pub feed_inside : (cs : List ℕ) (s : Cmd) (j : ℕ) → 32 ≤ j → (feed s cs).1.buf j ≡ s.buf j
unfolding feed
feed_inside [] s j h = refl
feed_inside (c ∷ cs) s j h = feed_inside cs (uart_debug_cmd s c).1 j h ∙ step_inside s c j h
