-- ===== src/Sram/Tests.antt =====
-- The allocator at concrete requests.
use clanker_npu.Prelude.{
  ◌+◌, ◌%◌, ◌≤◌, ◌≡◌, ◌≢◌, ◌⊎◌, refl, arith, true, false, [], ◌∷◌, replicate, get_or,
}
use clanker_npu.Sram.{
  Build, an7583, sram_base, sram_end, sram_buf_alloc, sram_buf_init, sram_type_size,
  sram_buf_alloc_impl, next_base, record_entry, find_slot, align_up, find_size,
}
use clanker_npu.Sram.Grants.{sram_run, sram_run-apart, sram_run-inside}

abbrev eagle : Build
eagle = record { soc = an7583; kite = false; sta_qlimit = true; clanker_driver = true }

-- The second request of type 1 gives its first address; type 0 is refused.
asked :
    (sram_run eagle (sram_buf_init eagle) (1 ∷ 10 ∷ 1 ∷ 0 ∷ [])).0
    ≡ (1, 0x3E800000) ∷ (10, 0x3E8220C0) ∷ (1, 0x3E800000) ∷ (0, 0) ∷ []
unfolding sram_run sram_buf_alloc sram_buf_init sram_buf_alloc_impl next_base record_entry find_slot
    align_up sram_type_size find_size replicate
asked = refl

sram_run-apart_example :
    let grants = (sram_run eagle (sram_buf_init eagle) (1 ∷ 10 ∷ 1 ∷ 0 ∷ [])).0 in
    let g = get_or grants 0 (0, 0) in
    let h = get_or grants 1 (0, 0) in
    (g ≡ h)
    ⊎ ((g.0 ≢ h.0)
        × ((g.1 + sram_type_size eagle g.0 ≤ h.1) ⊎ (h.1 + sram_type_size eagle h.0 ≤ g.1)))
sram_run-apart_example =
    sram_run-apart eagle (1 ∷ 10 ∷ 1 ∷ 0 ∷ []) 0 1 (omega arith) (rw asked (omega arith))
      (rw asked (omega arith)) (rw asked (omega arith)) (rw asked (omega arith))

sram_run-inside_example :
    let g = get_or (sram_run eagle (sram_buf_init eagle) (1 ∷ 10 ∷ 1 ∷ 0 ∷ [])).0 1 (0, 0) in
    (sram_base ≤ g.1) × (g.1 ≤ sram_end eagle) × (g.1 % 32 ≡ 0)
sram_run-inside_example =
    sram_run-inside eagle (1 ∷ 10 ∷ 1 ∷ 0 ∷ []) 1 (omega arith) (rw asked (omega arith))
      (rw asked (omega arith))
