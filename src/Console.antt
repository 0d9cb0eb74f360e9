-- ===== src/Console.antt =====
-- npu_printf.c: the two consoles. npu_printf and boot_printf as the bytes they send, and the command
-- parser of the boot console. `ready` tells whether the n-th poll of the transmitter finds it ready.
pub mod Feed
pub mod Fresh
pub mod Columns
pub mod Commands
mod Tests
use clanker_npu.Prelude.{
  ℕ, zero, suc, ◌+◌, ◌-◌, ◌*◌, ◌^◌, Bool, true, false, ◌&&◌, ◌||◌, not, List, [], ◌∷◌, ◌++◌, Option,
  none, some, if◌then◌else◌, ltb, leb, ◌==◌, bit_or, u32, length,
}
use clanker_npu.Util.{get_core_char}
use clanker_npu.Printf.{Printed, done, overrun, unfinished}

-- The loop of uart_putc with `spin` polls left: the byte goes out, or it is given up.
pub putc_loop : ℕ → (ℕ → Bool) → ℕ → ℕ → List ℕ
putc_loop zero ready n c = []
putc_loop (suc spin) ready n c =
    let rest = putc_loop spin ready (suc n) c in if ready n then c ∷ [] else rest

-- Each byte of a text has polls of its own: `ready k` are those of the k-th byte sent.
pub uart_putc : (ℕ → Bool) → ℕ → List ℕ
uart_putc ready c = putc_loop 200000 ready 0 c

pub uart_puts_raw : (ℕ → ℕ → Bool) → ℕ → List ℕ → List ℕ
uart_puts_raw ready k [] = []
uart_puts_raw ready k (c ∷ s) =
    if c == b'\n'
    then uart_putc (ready k) c ++ (uart_putc (ready (k + 1)) b'\r' ++ uart_puts_raw ready (k + 2) s)
    else uart_putc (ready k) c ++ uart_puts_raw ready (k + 1) s

-- The parser of the boot console: uart_cmd_buf and uart_cmd_idx.
pub record Cmd : Type 0 where
  pub buf : ℕ → ℕ
  pub idx : ℕ

pub store : (ℕ → ℕ) → ℕ → ℕ → ℕ → ℕ
store buf i c j = if i == j then c else buf j

-- What one byte leads to: a message, or an access to a register.
pub data Reply : Type 0 where
  waiting : Reply
  too_long : Reply
  wrong : Reply
  wrong_at : ℕ → Reply
  read : ℕ → Reply
  written : ℕ → ℕ → Reply

-- hex_digit: none is -1.
pub hex_digit : ℕ → Option ℕ
hex_digit c =
    if leb b'0' c && leb c b'9'
    then some (c - b'0')
    else if leb b'A' c && leb c b'F'
    then some (c - b'A' + 10)
    else if leb b'a' c && leb c b'f'
    then some (c - b'a' + 10)
    else none

-- The address and the value after the column `pos`; none is a column that holds no digit.
pub column : (ℕ → ℕ) → ℕ → ℕ → ℕ → Option (ℕ × ℕ)
column buf pos addr val = if pos == 11 then some (addr, val) else elim (hex_digit (buf pos)) [
  | none ↦ none
  | some d ↦
      if leb pos 10
      then some (bit_or addr (u32 (d * 2 ^ (4 * (10 - pos)))), val)
      else some (addr, bit_or val (u32 (d * 2 ^ (4 * (19 - pos)))))
]

pub data Parsed : Type 0 where
  bad : ℕ → Parsed
  good : ℕ → ℕ → Parsed

-- The loop over the columns with `k` left.
pub columns : ℕ → (ℕ → ℕ) → ℕ → ℕ → ℕ → Parsed
columns zero buf pos addr val = good addr val
columns (suc k) buf pos addr val = elim (column buf pos addr val) [
  | none ↦ bad pos
  | some (a, v) ↦ columns k buf (suc pos) a v
]

-- The command of a complete line.
pub run_line : (ℕ → ℕ) → Reply
run_line buf =
    let wr = buf 0 == b'w' in
    let parsed : Parsed = columns (if wr then 17 else 8) buf 3 0 0 in
    if not (buf 1 == (if wr then b't' else b'd')) || (not wr && not (buf 0 == b'r'))
    then wrong
    else elim parsed [
      | bad pos ↦ wrong_at pos
      | good addr val ↦ if wr then written addr val else read addr
    ]

-- The line that a message shows is ended with a NUL.
pub ended : Reply → (ℕ → ℕ) → ℕ → ℕ → ℕ
ended waiting buf idx = buf
ended too_long buf idx = buf
ended wrong buf idx = store buf idx 0
ended (wrong_at pos) buf idx = store buf idx 0
ended (read addr) buf idx = buf
ended (written addr val) buf idx = buf

pub uart_debug_cmd : Cmd → ℕ → Reply × Cmd
uart_debug_cmd s c =
    let buf = store s.buf s.idx c in
    let reply = run_line buf in
    if ltb 31 s.idx
    then (too_long, record s { idx = 0 })
    else if not (c == b'\r')
    then (waiting, record { buf = buf; idx = s.idx + 1 })
    else (reply, record { buf = ended reply buf s.idx; idx = 0 })

-- Bytes as they come in, with the reply to each.
pub feed : Cmd → List ℕ → List Reply × Cmd
feed s [] = ([], s)
feed s (c ∷ cs) =
    let out = uart_debug_cmd s c in let rest = feed out.1 cs in (out.0 ∷ rest.0, rest.1)

-- The prefix of a line and the line: what npu_printf sends for the bytes that were formatted. `mib`
-- is the word with which the host suppresses output; the values are the length that is returned, the
-- bytes and npu_printf_prefix.
pub npu_printf : (ℕ → ℕ → Bool) → ℕ → ℕ → Bool → List ℕ → ℕ × (List ℕ × Bool)
npu_printf ready mib hart prefix s =
    let head =
      uart_putc (ready 0) b'['
      ++ (uart_putc (ready 1) b'C'
          ++ (uart_putc (ready 2) (get_core_char hart) ++ uart_putc (ready 3) b']')) in
    if not (mib == 0)
    then (0, ([], prefix))
    else if prefix
    then (length s, (head ++ uart_puts_raw ready 4 s, true))
    else (length s, (uart_puts_raw ready 0 s, true))

-- The bytes of boot_printf, which waits for each of them.
pub boot_line : List ℕ → List ℕ
boot_line [] = []
boot_line (c ∷ s) = if c == b'\n' then b'\r' ∷ c ∷ boot_line s else c ∷ boot_line s

pub boot_printf : ℕ → List ℕ → ℕ × List ℕ
boot_printf hart s = (length s, b'[' ∷ b'C' ∷ get_core_char hart ∷ b']' ∷ boot_line s)
