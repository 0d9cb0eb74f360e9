-- ===== src/Plic/Runs.antt =====
-- npu_plic.c: every run of plic_enable, plic_disable and plic_register_isr on one hart.
use clanker_npu.Prelude.{
  ℕ, ◌+◌, ◌/◌, ◌%◌, ◌^◌, ◌<◌, ◌≡◌, refl, ap, ap₂, ◌∙◌, arith, Bool, true, false, ◌&&◌, List, [],
  ◌∷◌, if◌then◌else◌, ltb, ◌==◌, Bool-cases, inl, inr,
}
use clanker_npu.Fwd.{put_at}
use clanker_npu.Plic.{
  Handler, real, Plic, set_bit, clear_bit, failed_at, plic_enable, plic_disable, plic_register_isr,
}
use clanker_npu.Plic.Sources.{enabled, masked, digit-set_bit, digit-clear_bit, changed}

pub data Op : Type 0 where
  enable : ℕ → Op
  disable : ℕ → Op
  register : ℕ → Handler → Op

pub apply : Plic → Op → Plic
apply s (enable src) = plic_enable s src
apply s (disable src) = plic_disable s src
apply s (register src h) = plic_register_isr s src h

pub run : Plic → List Op → Plic
run s [] = s
run s (op ∷ ops) = run (apply s op) ops

-- What a set of sources and a map of handlers do: the state of one source.
pub record Source : Type 0 where
  pub on : ℕ
  pub off : ℕ
  pub handler : Handler

pub follow : ℕ → Source → Op → Source
follow src v (enable other) = if src == other then record v { on = 1; off = 0 } else v
follow src v (disable other) = if src == other then record v { on = 0; off = 1 } else v
follow src v (register other h) =
    if src == other
    then record { on = 1; off = 0; handler = if real h && real v.handler then v.handler else h }
    else v

pub follow_all : ℕ → Source → List Op → Source
follow_all src v [] = v
follow_all src v (op ∷ ops) = follow_all src (follow src v op) ops

abbrev pub source : Plic → ℕ → Source
source s src = record { on = enabled s src; off = masked s src; handler = s.table src }

if-source :
    (b : Bool) (on off x y : ℕ) (h : Handler)
    → ◌≡◌ {A = Source}
        (record { on = if b then on else x; off = if b then off else y; handler = h })
        (if b
          then record { on = on; off = off; handler = h }
          else record { on = x; off = y; handler = h })
if-source true on off x y h = refl
if-source false on off x y h = refl

enable-follow :
    (s : Plic) (src other : ℕ)
    → src < 192
    → source (plic_enable s other) src ≡ follow src (source s src) (enable other)
unfolding plic_enable follow
enable-follow s src other lt = elim (Bool-cases (ltb 191 other)) [
  | inl e ↦ let off : (src == other) ≡ false = ground (arith, e, lt) in rw (e, off) refl
  | inr e ↦
      let k : ℕ = (other + 1) % 2 ^ 5 in
      let i : ℕ = (other + 1) / 2 ^ 5 in
      let on =
        changed s.enable (set_bit (s.enable i) k) 1 other src
          (λ j h. digit-set_bit (s.enable i) k j) in
      let clear =
        changed s.mask (clear_bit (s.mask i) k) 0 other src
          (λ j h. digit-clear_bit (s.mask i) k j (omega arith) h) in
      rw e (
        ap₂ (λ x y. record { on = x; off = y; handler = s.table src }) on clear
        ∙ if-source (src == other) 1 0 (enabled s src) (masked s src) (s.table src))
]

disable-follow :
    (s : Plic) (src other : ℕ)
    → src < 192
    → source (plic_disable s other) src ≡ follow src (source s src) (disable other)
unfolding plic_disable follow
disable-follow s src other lt = elim (Bool-cases (ltb 191 other)) [
  | inl e ↦ let off : (src == other) ≡ false = ground (arith, e, lt) in rw (e, off) refl
  | inr e ↦
      let k : ℕ = (other + 1) % 2 ^ 5 in
      let i : ℕ = (other + 1) / 2 ^ 5 in
      let off =
        changed s.mask (set_bit (s.mask i) k) 1 other src (λ j h. digit-set_bit (s.mask i) k j) in
      let clear =
        changed s.enable (clear_bit (s.enable i) k) 0 other src
          (λ j h. digit-clear_bit (s.enable i) k j (omega arith) h) in
      rw e (
        ap₂ (λ x y. record { on = x; off = y; handler = s.table src }) clear off
        ∙ if-source (src == other) 0 1 (enabled s src) (masked s src) (s.table src))
]

register-follow :
    (s : Plic) (src other : ℕ) (h : Handler)
    → src < 192
    → source (plic_register_isr s other h) src ≡ follow src (source s src) (register other h)
unfolding plic_register_isr follow
register-follow s src other h lt = elim (Bool-cases (ltb 191 other)) [
  | inl e ↦
      let off : (src == other) ≡ false = ground (arith, e, lt) in
      rw e (enable-follow (failed_at s other) src other lt ∙ passed off)
  | inr e ↦ elim (Bool-cases (real h && real (s.table other))) [
    | inl f ↦
        rw (e, f)
          (enable-follow (failed_at s other) src other lt
            ∙ (elim (Bool-cases (src == other)) [ inl g ↦ kept g f | inr g ↦ passed g ]))
    | inr f ↦
        rw (e, f)
          (enable-follow (record s { table = put_at s.table other h }) src other lt
            ∙ (elim (Bool-cases (src == other)) [ inl g ↦ taken g f | inr g ↦ apart g ]))
  ]
]
  where
    passed :
        (src == other) ≡ false
        → follow src (source s src) (enable other) ≡ follow src (source s src) (register other h)
    passed g = rw g refl

    kept :
        (src == other) ≡ true
        → (real h && real (s.table other)) ≡ true
        → follow src (source s src) (enable other) ≡ follow src (source s src) (register other h)
    kept g f =
        let at : src ≡ other = ground (arith, g) in
        let held : (real h && real (s.table src)) ≡ true = rw at f in rw (g, held) refl

    taken :
        (src == other) ≡ true
        → (real h && real (s.table other)) ≡ false
        → follow src (source (record s { table = put_at s.table other h }) src) (enable other)
          ≡ follow src (source s src) (register other h)
    taken g f =
        let at : src ≡ other = ground (arith, g) in
        let free : (real h && real (s.table src)) ≡ false = rw at f in
        let here : put_at s.table other h src ≡ h = ground (arith, at) in rw (g, free, here) refl

    apart :
        (src == other) ≡ false
        → follow src (source (record s { table = put_at s.table other h }) src) (enable other)
          ≡ follow src (source s src) (register other h)
    apart g =
        let there : put_at s.table other h src ≡ s.table src = ground (arith, g) in
        rw (g, there) refl

-- For a source up to 191, after every run of enabling, disabling and registering on one hart: the source
-- is enabled, masked and handled as the calls about it alone left it. Each call sets both words, and a
-- handler is taken unless it and the one in place are both real. Calls about other sources, the others in
-- the same word included, and about numbers above 191 do not touch it.
pub run-follow_all :
    (ops : List Op) (s : Plic) (src : ℕ)
    → src < 192
    → source (run s ops) src ≡ follow_all src (source s src) ops
unfolding run follow_all apply
run-follow_all [] s src lt = refl
run-follow_all (enable other ∷ ops) s src lt =
    run-follow_all ops (plic_enable s other) src lt
    ∙ ap (λ v. follow_all src v ops) (enable-follow s src other lt)
run-follow_all (disable other ∷ ops) s src lt =
    run-follow_all ops (plic_disable s other) src lt
    ∙ ap (λ v. follow_all src v ops) (disable-follow s src other lt)
run-follow_all (register other h ∷ ops) s src lt =
    run-follow_all ops (plic_register_isr s other h) src lt
    ∙ ap (λ v. follow_all src v ops) (register-follow s src other h lt)
