-- ===== src/Ebpf/Safety/Memory.antt =====
-- ebpf/src/lib.rs: loads from the stack and stores to it, accepted and executed.
use slopos.Ebpf.Defensive.{reads, written_after, has_all}
use slopos.Ebpf.Turns.{
  read_register_total, require_stack_access_ok, store_stack_total, load_stack_total,
}
use slopos.Ebpf.{
  Instruction, destination, source, stack_load, stack_store_immediate, stack_store_register,
  access_size,
}
use slopos.Ebpf.Verifier.{
  flow_instruction, incoming_at, RegisterSet, ensure_writable_destination, require_stack_access,
  require_initialized,
}
use slopos.Ebpf.Machine.{HelperRegistry, step_instruction, sign_extend}
use slopos.Base.{ℕ, ◌+◌, refl, ◌∙◌, Bool, false, List, ok_of_check, arith}
use slopos.Ebpf.Safety.{
  Site, Sound, write-Turn, stored-Turn, handed_on, hand_next, with_destination,
}

module _ {S : Type 0} (registry : HelperRegistry S) (allowed : List ℕ) (size : ℕ) (wide : List Bool)
    (program : List Instruction) (incoming : List RegisterSet) (pc : ℕ) (i : Instruction)
    (site : Site size wide program incoming pc i) where
  pub flow_stack_load : Sound registry allowed size wide program incoming pc i stack_load
  unfolding Sound flow_instruction step_instruction require_initialized reads written_after has_all
  flow_stack_load next e k h =
      let a = ok_of_check (ensure_writable_destination pc (destination i)) _ h in
      let b =
        ok_of_check (require_stack_access pc (source i) i.offset (access_size i.opcode)) _ a.1 in
      hand_next site stack_load next (handed_on _ next false e b.1) refl (with_destination site) k
        (λ d. cc)
        (λ m at shaped lands.
          let (start, f, inside) =
            require_stack_access_ok pc (source i) i.offset (access_size i.opcode) m.pc b.0 in
          let (v, g) =
            load_stack_total m.stack start (access_size i.opcode)
              (omega (arith, inside, shaped.stack)) in
          rw (f, g)
            (write-Turn _ next pc (pc + 1) (m.pc + 1) (destination i) _ m shaped site.placed.valid.0
              lands (omega (arith, at))))

  pub flow_stack_store_immediate :
      Sound registry allowed size wide program incoming pc i stack_store_immediate
  unfolding Sound flow_instruction step_instruction require_initialized reads written_after has_all
  flow_stack_store_immediate next e k h =
      let a =
        ok_of_check (require_stack_access pc (destination i) i.offset (access_size i.opcode)) _ h in
      hand_next site stack_store_immediate next (handed_on _ next false e a.1) refl site.reached k
        (λ d. cc)
        (λ m at shaped lands.
          let (start, f, inside) =
            require_stack_access_ok pc (destination i) i.offset (access_size i.opcode) m.pc a.0 in
          let (st, g, l) =
            store_stack_total m.stack start (access_size i.opcode) (sign_extend i.immediate)
              (omega (arith, inside, shaped.stack)) in
          rw (f, g)
            (stored-Turn _ next pc (pc + 1) (m.pc + 1) m st (l ∙ shaped.stack) shaped lands
              (omega (arith, at))))

  pub flow_stack_store_register :
      Sound registry allowed size wide program incoming pc i stack_store_register
  unfolding Sound flow_instruction step_instruction require_initialized reads written_after has_all
  flow_stack_store_register next e k h =
      let a =
        ok_of_check (require_stack_access pc (destination i) i.offset (access_size i.opcode)) _ h in
      let b = ok_of_check (require_initialized (incoming_at incoming pc) pc (source i)) _ a.1 in
      hand_next site stack_store_register next (handed_on _ next false e b.1) (ground (arith, b.0))
        site.reached k (λ d. cc)
        (λ m at shaped lands.
          let (start, f, inside) =
            require_stack_access_ok pc (destination i) i.offset (access_size i.opcode) m.pc a.0 in
          let (u, g) = read_register_total m (source i) shaped site.placed.valid.1 in
          let (st, h, l) =
            store_stack_total m.stack start (access_size i.opcode) u
              (omega (arith, inside, shaped.stack)) in
          rw (f, g, h)
            (stored-Turn _ next pc (pc + 1) (m.pc + 1) m st (l ∙ shaped.stack) shaped lands
              (omega (arith, at))))
