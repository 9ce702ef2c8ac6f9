-- ===== src/Ebpf/Scan.antt =====
-- ebpf/src/lib.rs: what the first pass of `verify` finds out about a program.
use slopos.Base.{
  ℕ, zero, suc, ◌+◌, ◌≤◌, ◌<◌, ◌≡◌, ◌≢◌, ◌==◌, ◌⊎◌, inl, inr, refl, ◌∙◌, Bool, true, false, List,
  [], ◌∷◌, some, ok, length, length-set, get_elem?, set, Bool-cases, arith, ok_of_ensure,
  ok-injective, ok_of_check, ensure, subst, ◌>>◌,
}
use slopos.Ebpf.Verifier.{
  scan, wide_at, validate_register_numbers, invalid_wide_immediate, is_continuation, invalid_opcode,
}
use slopos.Ebpf.{Instruction, destination, source, register_count, is_supported_opcode}

wide_at-set_other :
    (w : List Bool) (i j : ℕ) (v : Bool) → i ≢ j → wide_at (set w i v) j ≡ wide_at w j
unfolding wide_at
wide_at-set_other [] i j v h = refl
wide_at-set_other (x ∷ w) zero zero v h = absurd (h refl)
wide_at-set_other (x ∷ w) zero (suc j) v h = refl
wide_at-set_other (x ∷ w) (suc i) zero v h = refl
wide_at-set_other (x ∷ w) (suc i) (suc j) v h = wide_at-set_other w i j v (λ e. h (omega arith))

wide_at-set_same : (w : List Bool) (i : ℕ) (v : Bool) → i < length w → wide_at (set w i v) i ≡ v
unfolding wide_at
wide_at-set_same [] i v h = elim h [ ]
wide_at-set_same (x ∷ w) zero v h = refl
wide_at-set_same (x ∷ w) (suc i) v h = wide_at-set_same w i v (omega arith)

abbrev pub ValidRegisters : Instruction → Type 0
ValidRegisters i = (destination i < register_count) × (source i < register_count)

validate_register_numbers_ok :
    (pc : ℕ) (i : Instruction) → validate_register_numbers pc i ≡ ok tt → ValidRegisters i
unfolding validate_register_numbers
validate_register_numbers_ok pc i h = ground arith

-- One turn of the pass at an instruction that others follow.
scan_turn :
    (i c : Instruction) (rest : List Instruction) (pc : ℕ) (wide w : List Bool)
    → scan (i ∷ c ∷ rest) pc wide ≡ ok w
    → ValidRegisters i
      × (((i.opcode ≡ 0x18) × (scan rest (pc + 2) (set wide (pc + 1) true) ≡ ok w))
          ⊎ ((i.opcode ≢ 0x18) × (scan (c ∷ rest) (pc + 1) wide ≡ ok w)))
unfolding scan
scan_turn i c rest pc wide w h =
    let v = ok_of_check (validate_register_numbers pc i) _ h in
    let valid = validate_register_numbers_ok pc i v.0 in
    elim (Bool-cases (i.opcode == 0x18)) [
      | inl f ↦
          let r : (ensure (is_continuation i c) (invalid_wide_immediate pc)
                >> scan rest (pc + 2) (set wide (pc + 1) true))
              ≡ ok w =
            ground (arith, v.1) in
          (valid, inl (ground arith, (ok_of_ensure _ _ _ r).1))
      | inr f ↦
          let r : (ensure (is_supported_opcode i.opcode) (invalid_opcode pc i.opcode)
                >> scan (c ∷ rest) (pc + 1) wide)
              ≡ ok w =
            ground (arith, v.1) in
          (valid, inr (ground arith, (ok_of_ensure _ _ _ r).1))
    ]

scan_turn_last :
    (i : Instruction) (pc : ℕ) (wide w : List Bool)
    → scan (i ∷ []) pc wide ≡ ok w
    → ValidRegisters i × (i.opcode ≢ 0x18) × (wide ≡ w)
unfolding scan
scan_turn_last i pc wide w h =
    let v = ok_of_check (validate_register_numbers pc i) _ h in
    let valid = validate_register_numbers_ok pc i v.0 in
    elim (Bool-cases (i.opcode == 0x18)) [
      | inl f ↦ absurd (ground (arith, v.1))
      | inr f ↦
          let r : (ensure (is_supported_opcode i.opcode) (invalid_opcode pc i.opcode) >> ok wide)
              ≡ ok w =
            ground (arith, v.1) in
          (valid, ground arith, ok-injective (ok_of_ensure _ _ _ r).1)
    ]

-- The marks up to the place where the pass stands do not change any more.
pub scan_before :
    (rest : List Instruction) (pc k : ℕ) (wide w : List Bool)
    → scan rest pc wide ≡ ok w
    → k ≤ pc
    → wide_at w k ≡ wide_at wide k
unfolding scan
scan_before [] pc k wide w h le = rw (ok-injective h)
scan_before (i ∷ []) pc k wide w h le = rw (scan_turn_last i pc wide w h).2
scan_before (i ∷ c ∷ rest) pc k wide w h le = elim (scan_turn i c rest pc wide w h).1 [
  | inl (f, g) ↦
      scan_before rest (pc + 2) k (set wide (pc + 1) true) w g (omega arith)
      ∙ wide_at-set_other wide (pc + 1) k true (λ e. omega arith)
  | inr (f, g) ↦ scan_before (c ∷ rest) (pc + 1) k wide w g (omega arith)
]

-- What the pass says of the instruction at place `q` of the program, place `j` of the rest: its
-- registers exist, the half that follows a wide immediate is there, and what is executed next is
-- not the second half of a wide immediate.
pub record Placed (rest : List Instruction) (w : List Bool) (j q : ℕ) (i : Instruction)
    : Type 0 where
  pub valid : ValidRegisters i
  pub half : i.opcode ≡ 0x18 → (c : Instruction) × (get_elem? rest (suc j) ≡ some c)
  pub behind : i.opcode ≡ 0x18 → wide_at w (q + 2) ≡ false
  pub next : i.opcode ≢ 0x18 → wide_at w (q + 1) ≡ false

Placed-suc :
    {rest : List Instruction} {w : List Bool} {j q : ℕ} {i : Instruction} (a : Instruction)
    → Placed rest w j q i
    → Placed (a ∷ rest) w (suc j) q i
Placed-suc a p = record { valid = p.valid; half = p.half; behind = p.behind; next = p.next }

pub scan-Placed :
    (rest : List Instruction) (pc j q : ℕ) (wide w : List Bool) (i : Instruction)
    → scan rest pc wide ≡ ok w
    → pc + length rest ≤ length wide
    → ((k : ℕ) → pc ≤ k → wide_at wide k ≡ false)
    → q ≡ pc + j
    → get_elem? rest j ≡ some i
    → wide_at w q ≡ false
    → Placed rest w j q i
scan-Placed [] pc j q wide w i h le none_yet at e single = absurd (cc)
scan-Placed (a ∷ []) pc (suc j) q wide w i h le none_yet at e single = absurd (cc)
scan-Placed (a ∷ []) pc zero q wide w i h le none_yet at e single =
    let t = scan_turn_last a pc wide w h in
    let same : a ≡ i = ground arith in
    subst (Placed (a ∷ []) w zero q) same (record {
      valid = t.0;
      half = λ f. absurd (t.1 f);
      behind = λ f. absurd (t.1 f);
      next = λ f. subst (λ v. wide_at v (q + 1) ≡ false) t.2 (none_yet (q + 1) (omega arith));
    })
scan-Placed (a ∷ c ∷ rest) pc zero q wide w i h le none_yet at e single =
    let t = scan_turn a c rest pc wide w h in
    let same : a ≡ i = ground arith in
    subst (Placed (a ∷ c ∷ rest) w zero q) same (elim t.1 [
      | inl (f, g) ↦ record {
        valid = t.0;
        half = λ z. (c, refl);
        behind = λ z.
            scan_before rest (pc + 2) (q + 2) (set wide (pc + 1) true) w g (omega arith)
            ∙ wide_at-set_other wide (pc + 1) (q + 2) true (λ x. omega arith)
            ∙ none_yet (q + 2) (omega arith);
        next = λ z. absurd (z f);
      }
      | inr (f, g) ↦ record {
        valid = t.0;
        half = λ z. absurd (f z);
        behind = λ z. absurd (f z);
        next = λ z.
            scan_before (c ∷ rest) (pc + 1) (q + 1) wide w g (omega arith)
            ∙ none_yet (q + 1) (omega arith);
      }
    ])
scan-Placed (a ∷ c ∷ rest) pc (suc zero) q wide w i h le none_yet at e single =
    elim (scan_turn a c rest pc wide w h).1 [
      | inr (f, g) ↦ Placed-suc a (
          scan-Placed (c ∷ rest) (pc + 1) zero q wide w i g (omega arith)
            (λ k l. none_yet k (omega arith)) (omega arith) e single)
      | inl (f, g) ↦
          let here : q ≡ pc + 1 = omega arith in
          let marked : wide_at w q ≡ true = rw here (
            scan_before rest (pc + 2) (pc + 1) (set wide (pc + 1) true) w g (omega arith)
            ∙ wide_at-set_same wide (pc + 1) true (omega arith)) in
          absurd (cc)
    ]
scan-Placed (a ∷ c ∷ rest) pc (suc (suc j)) q wide w i h le none_yet at e single =
    elim (scan_turn a c rest pc wide w h).1 [
      | inr (f, g) ↦ Placed-suc a (
          scan-Placed (c ∷ rest) (pc + 1) (suc j) q wide w i g (omega arith)
            (λ k l. none_yet k (omega arith)) (omega arith) e single)
      | inl (f, g) ↦ Placed-suc a (
          Placed-suc c (
            scan-Placed rest (pc + 2) j q (set wide (pc + 1) true) w i g
              (omega (arith, length-set wide (pc + 1) true))
              (λ k l.
                wide_at-set_other wide (pc + 1) k true (λ x. omega arith)
                ∙ none_yet k (omega arith))
              (omega arith) e single))
    ]
