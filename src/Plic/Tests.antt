-- ===== src/Plic/Tests.antt =====
-- A hart with all sources off.
use clanker_npu.Prelude.{◌≡◌, arith, List, [], ◌∷◌, true}
use clanker_npu.Plic.{default_isr, isr, Plic}
use clanker_npu.Plic.Runs.{Op, enable, disable, register, run, follow_all, source, run-follow_all}

abbrev reset : Plic
reset = record {
  enable = λ i. 0;
  mask = λ i. 0xFFFFFFFF;
  priority = λ i. 0;
  threshold = 0;
  table = λ i. default_isr;
  init_done = true;
  calls = [];
  claims = [];
  errors = [];
}

abbrev ops : List Op
ops =
    register 31 (isr 100)
    ∷ enable 32
    ∷ register 31 (isr 200)
    ∷ disable 31
    ∷ enable 500
    ∷ enable 33
    ∷ []

run-follow_all_example : source (run reset ops) 31 ≡ follow_all 31 (source reset 31) ops
run-follow_all_example = run-follow_all ops reset 31 (omega arith)
