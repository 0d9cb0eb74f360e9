-- ===== src/Sram.antt =====
-- npu_sram.c: the allocator over the SRAM at 0x3E800000 and its size tables. A Build is the choice
-- of the preprocessor. The slots of sram_alloc_table are pairs of an address type and an address;
-- the mutex, the debug counters and the console lines are left out.
pub mod Sizes
pub mod Outcome
pub mod Layout
pub mod Grants
mod Tests
pub use Sizes.*
unfoldable pub use Sizes.{find_size, sram_type_size}
use clanker_npu.Prelude.{
  ℕ, zero, suc, ◌+◌, ◌*◌, ◌-◌, ◌^◌, Bool, true, false, ◌&&◌, ◌||◌, List, [], ◌∷◌, Option, none,
  some, if◌then◌else◌, ltb, leb, ◌==◌, not, get_or, set, replicate, add32, sub32, u16, bit_and,
}

abbrev pub sram_base : ℕ
sram_base = 0x3E800000

pub record Sram : Type 0 where
  pub offset : ℕ
  pub count : ℕ
  pub table : List (ℕ × ℕ)

abbrev pub sram_end : Build → ℕ
sram_end b = sram_base + sram_size b - 2

abbrev pub sram_error_addr : Build → ℕ
sram_error_addr b = sram_base + sram_size b

-- The search of sram_buf_alloc_impl among the n slots from i on.
pub find_slot : List (ℕ × ℕ) → ℕ → ℕ → ℕ → Option ℕ
find_slot table addr_type zero i = none
find_slot table addr_type (suc n) i =
    let rest = find_slot table addr_type n (i + 1) in
    if (get_or table i (0, 0)).0 == addr_type then some (get_or table i (0, 0)).1 else rest

-- `base = (base + 0x1F) & ~0x1F` where a low bit of it is set.
pub align_up : ℕ → ℕ
align_up base = if bit_and base 31 == 0 then base else bit_and (add32 base 31) (2 ^ 32 - 2 ^ 5)

-- Where the next block starts.
pub next_base : Sram → ℕ
next_base s = if s.offset == 0 then sram_base else align_up (add32 sram_base s.offset)

-- The new slot and the new offset.
pub record_entry : Sram → ℕ → ℕ → ℕ → Sram
record_entry s base addr_type size = record {
  table = set s.table s.count (addr_type, base);
  offset = add32 (sub32 base sram_base) size;
  count = add32 s.count 1;
}

-- sram_buf_alloc_impl.
pub sram_buf_alloc_impl : Build → Sram → ℕ → ℕ → ℕ × Sram
sram_buf_alloc_impl b s addr_type size =
    let base = next_base s in
    if leb (sram_size b) s.offset && leb (sram_max_entries b) s.count
    then (sram_error_addr b, s)
    else elim (find_slot s.table addr_type s.count 0) [
      | some existing ↦ (existing, s)
      | none ↦
          if not (s.offset == 0) && ltb (sram_end b) base
          then (sram_error_addr b, s)
          else (base, record_entry s base addr_type size)
    ]

-- sram_buf_alloc: 0 is the failure that the callers see.
pub sram_buf_alloc : Build → Sram → ℕ → ℕ × Sram
sram_buf_alloc b s addr_type =
    let out = sram_buf_alloc_impl b s (u16 addr_type) (sram_type_size b addr_type) in
    if addr_type == 0 || ltb 255 addr_type
    then (0, s)
    else if out.0 == sram_error_addr b
    then (0, out.1)
    else out

-- sram_buf_init.
pub sram_buf_init : Build → Sram
sram_buf_init b = record { offset = 0; count = 0; table = replicate (sram_max_entries b) (0, 0) }
