-- ===== src/Console/Commands.antt =====
-- npu_printf.c: the commands of the boot console, typed with the digits that %p prints.
use clanker_npu.Prelude.{
  ℕ, zero, suc, ◌+◌, ◌*◌, ◌%◌, ◌^◌, ◌≤◌, ◌<◌, false, List, [], ◌∷◌, ◌++◌, none, some, ◌==◌, ◌≡◌,
  refl, arith, Bool-cases, inl, inr, sym, ◌∙◌, ap, length, All, replicate, shr, le→ltb,
}
use clanker_npu.Printf.{hex, nibbles}
use clanker_npu.Console.{
  Cmd, store, Reply, waiting, read, written, hex_digit, column, columns, run_line, feed,
}
use clanker_npu.Console.Feed.{step_wait, step_run}
use clanker_npu.Console.Fresh.{command-read, command-write, run_line-command}
use clanker_npu.Console.Columns.{hex_digit-hex, Typed, columns-addr, columns-val}

run_line-read :
    (buf : ℕ → ℕ) (v : ℕ)
    → v < 2 ^ 32
    → buf 0 ≡ b'r'
    → buf 1 ≡ b'd'
    → Typed buf 3 v
    → run_line buf ≡ read v
unfolding columns
run_line-read buf v h a b t =
    rw (run_line-command buf, a, b, columns-addr 0 buf v 0 h t)
      (command-read v (columns 17 buf 3 0 0))

columns-gap :
    (buf : ℕ → ℕ) (k addr val : ℕ) → columns (suc k) buf 11 addr val ≡ columns k buf 12 addr val
unfolding columns column
columns-gap buf k addr val = refl

run_line-write :
    (buf : ℕ → ℕ) (addr val : ℕ)
    → addr < 2 ^ 32
    → val < 2 ^ 32
    → buf 0 ≡ b'w'
    → buf 1 ≡ b't'
    → Typed buf 3 addr
    → Typed buf 12 val
    → run_line buf ≡ written addr val
unfolding columns
run_line-write buf addr val h k a b t u =
    let line =
      columns-addr 9 buf addr 0 h t ∙ (columns-gap buf 8 addr 0 ∙ columns-val 0 buf val addr k u) in
    rw (run_line-command buf, a, b, line) (command-write addr val (columns 8 buf 3 0 0))

-- The buffer after bytes that are no end of line.
stores : (ℕ → ℕ) → ℕ → List ℕ → ℕ → ℕ
stores buf i [] = buf
stores buf i (c ∷ cs) = stores (store buf i c) (i + 1) cs

feed-line :
    (cs : List ℕ) (s : Cmd)
    → All (λ c. (c == b'\r') ≡ false) cs
    → s.idx + length cs ≤ 31
    → (feed s (cs ++ b'\r' ∷ [])).0
      ≡ replicate (length cs) waiting
        ++ run_line (store (stores s.buf s.idx cs) (s.idx + length cs) b'\r') ∷ []
unfolding feed stores replicate
feed-line [] s all h =
    rw (step_run s b'\r' (le→ltb 31 s.idx (omega arith)) refl)
      (ap (λ i. run_line (store s.buf i b'\r') ∷ []) (omega arith))
feed-line (c ∷ cs) s (k, all) h =
    let next : Cmd = record { buf = store s.buf s.idx c; idx = s.idx + 1 } in
    rw (step_wait s c (le→ltb 31 s.idx (omega arith)) k) (
      ap (λ (rs : List Reply). waiting ∷ rs)
        (feed-line cs next all (omega arith)
          ∙ ap
              (λ i.
                replicate (length cs) waiting
                ++ run_line (store (stores next.buf next.idx cs) i b'\r') ∷ [])
              (omega arith)))

digit-NotEnd : (d : ℕ) → d < 16 → (hex false d == b'\r') ≡ false
unfolding hex_digit
digit-NotEnd d h = elim (Bool-cases (hex false d == b'\r')) [
  | inr n ↦ n
  | inl e ↦
      let cr : hex false d ≡ b'\r' = ground (arith, e) in
      let clash : some d ≡ none = sym (hex_digit-hex d h) ∙ ap hex_digit cr in absurd (cc)
]

nibbles-NotEnd : (k v : ℕ) → All (λ c. (c == b'\r') ≡ false) (nibbles k v)
unfolding nibbles
nibbles-NotEnd zero v = tt
nibbles-NotEnd (suc k) v = (digit-NotEnd (shr v (4 * k) % 16) (omega arith), nibbles-NotEnd k v)

NotEnd-append :
    (xs ys : List ℕ)
    → All (λ c. (c == b'\r') ≡ false) xs
    → All (λ c. (c == b'\r') ≡ false) ys
    → All (λ c. (c == b'\r') ≡ false) (xs ++ ys)
NotEnd-append [] ys a b = b
NotEnd-append (x ∷ xs) ys (a, more) b = (a, NotEnd-append xs ys more b)

abbrev make : (ℕ → ℕ) → ℕ → Cmd
make buf i = record { buf = buf; idx = i }

-- "rd " and an address, and "wt " with an address and a value, up to the end of the line.
pub read_text : ℕ → List ℕ
read_text addr = b'r' ∷ b'd' ∷ b' ' ∷ nibbles 8 addr

pub write_text : ℕ → ℕ → List ℕ
write_text addr val = b'w' ∷ b't' ∷ b' ' ∷ (nibbles 8 addr ++ b' ' ∷ nibbles 8 val)

read_text-Typed :
    (buf : ℕ → ℕ) (addr : ℕ) → Typed (store (stores buf 0 (read_text addr)) 11 b'\r') 3 addr
unfolding store stores read_text nibbles
read_text-Typed buf addr zero h = refl
read_text-Typed buf addr (suc zero) h = refl
read_text-Typed buf addr (suc (suc zero)) h = refl
read_text-Typed buf addr (suc (suc (suc zero))) h = refl
read_text-Typed buf addr (suc (suc (suc (suc zero)))) h = refl
read_text-Typed buf addr (suc (suc (suc (suc (suc zero))))) h = refl
read_text-Typed buf addr (suc (suc (suc (suc (suc (suc zero)))))) h = refl
read_text-Typed buf addr (suc (suc (suc (suc (suc (suc (suc zero))))))) h = refl
read_text-Typed buf addr (suc (suc (suc (suc (suc (suc (suc (suc k)))))))) h = absurd (omega arith)

write_text-addr :
    (buf : ℕ → ℕ) (addr val : ℕ)
    → Typed (store (stores buf 0 (write_text addr val)) 20 b'\r') 3 addr
unfolding store stores write_text nibbles
write_text-addr buf addr val zero h = refl
write_text-addr buf addr val (suc zero) h = refl
write_text-addr buf addr val (suc (suc zero)) h = refl
write_text-addr buf addr val (suc (suc (suc zero))) h = refl
write_text-addr buf addr val (suc (suc (suc (suc zero)))) h = refl
write_text-addr buf addr val (suc (suc (suc (suc (suc zero))))) h = refl
write_text-addr buf addr val (suc (suc (suc (suc (suc (suc zero)))))) h = refl
write_text-addr buf addr val (suc (suc (suc (suc (suc (suc (suc zero))))))) h = refl
write_text-addr buf addr val (suc (suc (suc (suc (suc (suc (suc (suc k)))))))) h =
    absurd (omega arith)

write_text-val :
    (buf : ℕ → ℕ) (addr val : ℕ)
    → Typed (store (stores buf 0 (write_text addr val)) 20 b'\r') 12 val
unfolding store stores write_text nibbles
write_text-val buf addr val zero h = refl
write_text-val buf addr val (suc zero) h = refl
write_text-val buf addr val (suc (suc zero)) h = refl
write_text-val buf addr val (suc (suc (suc zero))) h = refl
write_text-val buf addr val (suc (suc (suc (suc zero)))) h = refl
write_text-val buf addr val (suc (suc (suc (suc (suc zero))))) h = refl
write_text-val buf addr val (suc (suc (suc (suc (suc (suc zero)))))) h = refl
write_text-val buf addr val (suc (suc (suc (suc (suc (suc (suc zero))))))) h = refl
write_text-val buf addr val (suc (suc (suc (suc (suc (suc (suc (suc k)))))))) h =
    absurd (omega arith)

-- A read command, typed with the eight digits that %p prints for an address, reads that address, whatever
-- an earlier line left in the buffer.
pub feed-read :
    (s : Cmd) (addr : ℕ)
    → s.idx ≡ 0
    → addr < 2 ^ 32
    → (feed s (read_text addr ++ b'\r' ∷ [])).0 ≡ replicate 11 waiting ++ read addr ∷ []
unfolding read_text nibbles store stores
feed-read s addr e h =
    let start : Cmd = record { buf = s.buf; idx = 0 } in
    let same : s ≡ start = ap (λ (i : ℕ). make s.buf i) e in
    let buf = store (stores s.buf 0 (read_text addr)) 11 b'\r' in
    ap (λ (t : Cmd). (feed t (read_text addr ++ b'\r' ∷ [])).0) same
    ∙ (feed-line (read_text addr) start (refl, (refl, (refl, nibbles-NotEnd 8 addr))) (omega arith)
        ∙ ap (λ (r : Reply). replicate 11 waiting ++ r ∷ [])
            (run_line-read buf addr h refl refl (read_text-Typed s.buf addr)))

-- A write command writes the value to the address, both typed with eight digits.
pub feed-write :
    (s : Cmd) (addr val : ℕ)
    → s.idx ≡ 0
    → addr < 2 ^ 32
    → val < 2 ^ 32
    → (feed s (write_text addr val ++ b'\r' ∷ [])).0 ≡ replicate 20 waiting ++ written addr val ∷ []
unfolding write_text nibbles store stores
feed-write s addr val e h k =
    let start : Cmd = record { buf = s.buf; idx = 0 } in
    let same : s ≡ start = ap (λ (i : ℕ). make s.buf i) e in
    let buf = store (stores s.buf 0 (write_text addr val)) 20 b'\r' in
    let all =
      NotEnd-append (nibbles 8 addr) (b' ' ∷ nibbles 8 val) (nibbles-NotEnd 8 addr)
        (refl, nibbles-NotEnd 8 val) in
    ap (λ (t : Cmd). (feed t (write_text addr val ++ b'\r' ∷ [])).0) same
    ∙ (feed-line (write_text addr val) start (refl, (refl, (refl, all))) (omega arith)
        ∙ ap (λ (r : Reply). replicate 20 waiting ++ r ∷ [])
            (run_line-write buf addr val h k refl refl (write_text-addr s.buf addr val)
              (write_text-val s.buf addr val)))
