-- ===== src/Console/Tests.antt =====
-- Lines typed at the boot console, and the bytes of npu_printf.
use clanker_npu.Prelude.{
  ℕ, zero, suc, get_or, ◌<◌, ◌≡◌, refl, List, [], ◌∷◌, ◌++◌, arith, replicate,
}
use clanker_npu.Console.{
  Cmd, store, waiting, written, hex_digit, column, columns, run_line, uart_debug_cmd, feed,
  boot_line,
}
use clanker_npu.Console.Feed.{feed_inside}
use clanker_npu.Console.Fresh.{uart_debug_cmd-Same}
use clanker_npu.Console.Commands.{write_text, feed-write}

abbrev zeros : Cmd
zeros = record { buf = λ i. 0; idx = 0 }

-- The two buffers differ behind the third byte only.
abbrev typed : ℕ → Cmd
typed left = record { buf = store (store (λ i. left) 1 b'd') 0 b'r'; idx = 1 }

first_byte : (j : ℕ) → j < 1 → (typed 7).buf j ≡ (typed 9).buf j
unfolding store
first_byte zero h = refl
first_byte (suc j) h = absurd (omega arith)

feed_inside_example : (feed zeros (b'r' ∷ b'd' ∷ b'\r' ∷ [])).1.buf 40 ≡ 0
feed_inside_example = feed_inside (b'r' ∷ b'd' ∷ b'\r' ∷ []) zeros 40 (omega arith)

uart_debug_cmd-Same_example :
    (uart_debug_cmd (typed 7) b'\r').0 ≡ (uart_debug_cmd (typed 9) b'\r').0
uart_debug_cmd-Same_example =
    uart_debug_cmd-Same (typed 7) (typed 9) b'\r' refl (omega arith) (omega arith) first_byte

feed-write_example :
    (feed zeros (write_text 0x1EC10000 42 ++ b'\r' ∷ [])).0
    ≡ replicate 20 waiting ++ written 0x1EC10000 42 ∷ []
feed-write_example = feed-write zeros 0x1EC10000 42 refl (omega arith) (omega arith)

-- A write line that ends after its address takes the value that an earlier line left in the buffer.
abbrev left_over : List ℕ
left_over =
    b'w' ∷ b't' ∷ b' ' ∷ b'0' ∷ b'0' ∷ b'0' ∷ b'0' ∷ b'0' ∷ b'0' ∷ b'2' ∷ b'0' ∷ b' ' ∷ b'0' ∷ b'0'
    ∷ b'0' ∷ b'0' ∷ b'0' ∷ b'0' ∷ b'2' ∷ b'A' ∷ b'\r' ∷ []

stale_value :
    (uart_debug_cmd (record { buf = λ i. get_or left_over i 0; idx = 11 }) b'\r').0 ≡ written 32 42
unfolding uart_debug_cmd run_line columns column hex_digit store
stale_value = refl

newline : boot_line (b'a' ∷ b'\n' ∷ []) ≡ b'a' ∷ b'\r' ∷ b'\n' ∷ []
unfolding boot_line
newline = refl
