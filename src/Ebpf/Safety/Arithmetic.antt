-- ===== src/Ebpf/Safety/Arithmetic.antt =====
-- ebpf/src/lib.rs: immediates, moves and the operations of the ALU, accepted and executed.
use slopos.Ebpf.Defensive.{reads, written_after, has_all}
use slopos.Ebpf.Turns.{
  read_register_total, alu_immediate-result, alu_register-result, classify_wide,
}
use slopos.Ebpf.{
  Instruction, destination, source, wide_immediate, move_immediate, move_register, alu_immediate,
  alu_register, negate,
}
use slopos.Ebpf.Verifier.{
  flow_instruction, incoming_at, RegisterSet, ensure_writable_destination, require_initialized,
}
use slopos.Ebpf.Machine.{HelperRegistry, failed, division_by_zero, step_instruction, sign_extend}
use slopos.Base.{
  ℕ, ◌+◌, ◌≡◌, inl, inr, refl, Bool, false, List, some, ok_of_check, get_elem?, arith, subst,
}
use slopos.Ebpf.Safety.{
  divides_by_zero, stops, Site, Sound, write-Turn, handed_on, hand, hand_next, with_destination,
}

module _ {S : Type 0} (registry : HelperRegistry S) (allowed : List ℕ) (size : ℕ) (wide : List Bool)
    (program : List Instruction) (incoming : List RegisterSet) (pc : ℕ) (i : Instruction)
    (site : Site size wide program incoming pc i) where
  pub flow_wide_immediate : Sound registry allowed size wide program incoming pc i wide_immediate
  unfolding Sound flow_instruction step_instruction require_initialized reads written_after has_all
  flow_wide_immediate next e k h =
      let a = ok_of_check (ensure_writable_destination pc (destination i)) _ h in
      let f = classify_wide i.opcode k in
      let (c, half) = site.placed.half f in
      hand site wide_immediate next (pc + 2) (handed_on _ next false e a.1) refl
        (with_destination site) (omega arith) (site.placed.behind f)
        (λ m at shaped lands.
          let there : get_elem? program (m.pc + 1) ≡ some c =
            subst (λ p. get_elem? program p ≡ some c) (omega (arith, at)) half in
          rw there (
            write-Turn _ next pc (pc + 2) (m.pc + 2) (destination i) _ m shaped site.placed.valid.0
              lands (omega (arith, at))))

  pub flow_move_immediate : Sound registry allowed size wide program incoming pc i move_immediate
  unfolding Sound flow_instruction step_instruction require_initialized reads written_after has_all
  flow_move_immediate next e k h =
      let a = ok_of_check (ensure_writable_destination pc (destination i)) _ h in
      hand_next site move_immediate next (handed_on _ next false e a.1) refl (with_destination site)
        k (λ d. cc)
        (λ m at shaped lands.
          write-Turn _ next pc (pc + 1) (m.pc + 1) (destination i) _ m shaped site.placed.valid.0
            lands (omega (arith, at)))

  pub flow_move_register : Sound registry allowed size wide program incoming pc i move_register
  unfolding Sound flow_instruction step_instruction require_initialized reads written_after has_all
  flow_move_register next e k h =
      let a = ok_of_check (ensure_writable_destination pc (destination i)) _ h in
      let b = ok_of_check (require_initialized (incoming_at incoming pc) pc (source i)) _ a.1 in
      hand_next site move_register next (handed_on _ next false e b.1) (ground (arith, b.0))
        (with_destination site) k (λ d. cc)
        (λ m at shaped lands.
          let (v, f) = read_register_total m (source i) shaped site.placed.valid.1 in
          rw f (
            write-Turn _ next pc (pc + 1) (m.pc + 1) (destination i) _ m shaped site.placed.valid.0
              lands (omega (arith, at))))

  pub flow_negate : Sound registry allowed size wide program incoming pc i negate
  unfolding Sound flow_instruction step_instruction require_initialized reads written_after has_all
  flow_negate next e k h =
      let a = ok_of_check (ensure_writable_destination pc (destination i)) _ h in
      let b =
        ok_of_check (require_initialized (incoming_at incoming pc) pc (destination i)) _ a.1 in
      hand_next site negate next (handed_on _ next false e b.1) (ground (arith, b.0)) site.reached k
        (λ d. cc)
        (λ m at shaped lands.
          let (v, f) = read_register_total m (destination i) shaped site.placed.valid.0 in
          rw f (
            write-Turn _ next pc (pc + 1) (m.pc + 1) (destination i) _ m shaped site.placed.valid.0
              lands (omega (arith, at))))

  pub flow_alu_immediate : Sound registry allowed size wide program incoming pc i alu_immediate
  unfolding Sound flow_instruction step_instruction require_initialized reads written_after has_all
  flow_alu_immediate next e k h =
      let a = ok_of_check (ensure_writable_destination pc (destination i)) _ h in
      let b =
        ok_of_check (require_initialized (incoming_at incoming pc) pc (destination i)) _ a.1 in
      hand_next site alu_immediate next (handed_on _ next false e b.1) (ground (arith, b.0))
        (with_destination site) k (λ d. cc)
        (λ m at shaped lands.
          let (v, f) = read_register_total m (destination i) shaped site.placed.valid.0 in
          rw f (elim (alu_immediate-result i.opcode v (sign_extend i.immediate) m.pc k) [
            | inl (x, r) ↦ rw r (
                write-Turn _ next pc (pc + 1) (m.pc + 1) (destination i) _ m shaped
                  site.placed.valid.0 lands (omega (arith, at)))
            | inr r ↦ rw r (stops (failed (division_by_zero m.pc)) (divides_by_zero m.pc))
          ]))

  pub flow_alu_register : Sound registry allowed size wide program incoming pc i alu_register
  unfolding Sound flow_instruction step_instruction require_initialized reads written_after has_all
  flow_alu_register next e k h =
      let a = ok_of_check (ensure_writable_destination pc (destination i)) _ h in
      let b =
        ok_of_check (require_initialized (incoming_at incoming pc) pc (destination i)) _ a.1 in
      let c = ok_of_check (require_initialized (incoming_at incoming pc) pc (source i)) _ b.1 in
      hand_next site alu_register next (handed_on _ next false e c.1) (ground (arith, b.0, c.0))
        (with_destination site) k (λ d. cc)
        (λ m at shaped lands.
          let (v, f) = read_register_total m (destination i) shaped site.placed.valid.0 in
          let (u, g) = read_register_total m (source i) shaped site.placed.valid.1 in
          rw (g, f)
            (elim (alu_register-result i.opcode v u m.pc k) [
              | inl (x, r) ↦ rw r (
                  write-Turn _ next pc (pc + 1) (m.pc + 1) (destination i) _ m shaped
                    site.placed.valid.0 lands (omega (arith, at)))
              | inr r ↦ rw r (stops (failed (division_by_zero m.pc)) (divides_by_zero m.pc))
            ]))
