-- ===== src/Ebpf/Safety/Jumps.antt =====
-- ebpf/src/lib.rs: jumps, calls of helpers and the exit, accepted and executed.
use slopos.Ebpf.Defensive.{reads, written_after, has_all}
use slopos.Ebpf.Written.{after_call-after_helper}
use slopos.Ebpf.Flow.{IsState, States, propagate-Handed, after_call-IsState, Kept}
use slopos.Ebpf.Turns.{Shaped, read_register_total, classify_not_wide, jump_target_ok}
use slopos.Ebpf.{
  Instruction, destination, source, Class, classify, wide_immediate, jump, jump_immediate,
  jump_register, call, exit,
}
use slopos.Ebpf.Verifier.{
  flow_instruction, wide_at, incoming_at, RegisterSet, jump_into_wide_immediate,
  require_initialized, propagate_branch, jump_target, VerifyError, propagate, propagate_next,
}
use slopos.Ebpf.Machine.{
  Machine, HelperRegistry, failed, returned, invalid_helper, step_instruction, sign_extend,
  branch_pc, compare, called,
}
use slopos.Base.{
  ℕ, ◌+◌, ◌≡◌, ◌≢◌, inl, inr, refl, sym, ◌∙◌, ap, Bool, true, false, not, List, ok, ok_of_bind,
  ok_of_check, ◌>>=◌, ok_of_ensure, Option-cases, arith, contains, subst, ok-injective,
}
use slopos.Ebpf.Safety.{
  returns, refuses, Lands, Turn, stops, Flowed, Site, Sound, write-Turn, go-Turn, branch-Turn,
  handed_on, hand, hand_next,
}

module _ {S : Type 0} (registry : HelperRegistry S) (allowed : List ℕ) (size : ℕ) (wide : List Bool)
    (program : List Instruction) (incoming : List RegisterSet) (pc : ℕ) (i : Instruction)
    (site : Site size wide program incoming pc i) where
  pub flow_call : Sound registry allowed size wide program incoming pc i call
  unfolding Sound flow_instruction step_instruction require_initialized reads written_after has_all
      called
  flow_call next e k h =
      let a =
        ok_of_ensure (contains allowed i.immediate) (VerifyError.invalid_helper pc i.immediate) _
          h in
      let cleared = after_call-after_helper (incoming_at incoming pc) in
      hand_next site call next
        (handed_on _ next false e (
          subst
            (λ out.
              ◌>>=◌ {B = List RegisterSet × Bool} (propagate_next incoming size pc out)
                (λ n. ok (n, false))
              ≡ ok (next, e))
            cleared a.1))
        refl (subst IsState cleared (after_call-IsState (incoming_at incoming pc) site.reached)) k
        (λ d. cc)
        (λ m at shaped lands.
          elim (Option-cases (registry.helper_call m.helpers i.immediate m.registers).0) [
            | inl f ↦ rw f (
                stops (failed (invalid_helper m.pc i.immediate))
                  (refuses m.pc i.immediate m.helpers m.registers a.0 f))
            | inr (v, f) ↦ rw f (
                write-Turn _ next pc (pc + 1) (m.pc + 1) 0 v (called registry m i)
                  (record { registers = shaped.registers; stack = shaped.stack }) (omega arith)
                  lands (omega (arith, at)))
          ])

  pub flow_exit : Sound registry allowed size wide program incoming pc i exit
  unfolding Sound flow_instruction step_instruction require_initialized reads written_after has_all
  flow_exit next e k h =
      let a = ok_of_check (require_initialized (incoming_at incoming pc) pc 0) _ h in
      let same : incoming ≡ next = ap (λ (p : List RegisterSet × Bool). p.0) (ok-injective a.1) in
      record {
        states = subst States same site.states;
        keeps = λ q was.
            subst (λ n. Kept (incoming_at incoming q) (incoming_at n q)) same
              (record { state = was; fewer = λ r z. z });
        knows = ground (arith, a.0);
        turn = λ m at shaped.
            let (v, f) = read_register_total m 0 shaped (omega arith) in
            rw f (stops (returned v) (returns v));
      }

  pub flow_jump : Sound registry allowed size wide program incoming pc i jump
  unfolding Sound flow_instruction step_instruction require_initialized reads written_after has_all
  flow_jump next e k h =
      let (target, t, a) = ok_of_bind (jump_target size pc i.offset) _ h in
      let b = ok_of_ensure (not (wide_at wide target)) (jump_into_wide_immediate pc) _ a in
      let (there, forward, within) = jump_target_ok size pc i.offset target t site.small in
      hand site jump next target (handed_on _ next false e b.1) refl site.reached forward
        (ground arith)
        (λ m at shaped lands.
          go-Turn _ next pc target (branch_pc m.pc i.offset) m shaped lands
            (ap (λ p. branch_pc p i.offset) at ∙ there))

  -- The two places behind a conditional jump
  branch :
      (c : Class) (next : List RegisterSet)
      → propagate_branch incoming wide size pc i.offset (incoming_at incoming pc) ≡ ok next
      → has_all (incoming_at incoming pc) (reads c i) ≡ true
      → written_after c i (incoming_at incoming pc) ≡ incoming_at incoming pc
      → classify i.opcode ≡ c
      → wide_immediate ≢ c
      → ((m : Machine S)
          → m.pc ≡ pc
          → Shaped m
          → Lands registry allowed size wide program
              (written_after c i (incoming_at incoming pc))
              next
              pc
              (pc + 1)
          → Lands registry allowed size wide program
              (written_after c i (incoming_at incoming pc))
              next
              pc
              (branch_pc pc i.offset)
          → Turn registry allowed size wide program
              (written_after c i (incoming_at incoming pc))
              next
              pc
              (step_instruction registry program m i c))
      → Flowed registry allowed size wide program incoming next pc c i
  unfolding propagate_branch
  branch c next h known same k distinct go =
      let state = incoming_at incoming pc in
      let (target, t, a) = ok_of_bind (jump_target size pc i.offset) _ h in
      let b = ok_of_ensure (not (wide_at wide target)) (jump_into_wide_immediate pc) _ a in
      let (between, u, v) = ok_of_bind (propagate incoming size (pc + 1) state pc) _ b.1 in
      let (there, forward, within) = jump_target_ok size pc i.offset target t site.small in
      let first =
        propagate-Handed incoming between size (pc + 1) pc state u site.small site.states
          site.reached in
      let second =
        propagate-Handed between next size target pc state v site.small first.states site.reached in
      record {
        states = second.states;
        keeps = λ q was.
            let one = first.keeps q was in
            let two = second.keeps q one.state in
            record { state = two.state; fewer = λ r z. one.fewer r (two.fewer r z) };
        knows = known;
        turn = λ m at shaped.
            go m at shaped
              (record {
                state = (second.keeps (pc + 1) first.reaches).state;
                fewer =
                    rw same
                      (λ r z. first.fewer r ((second.keeps (pc + 1) first.reaches).fewer r z));
                forward = omega arith;
                within = first.within;
                whole = site.placed.next (classify_not_wide i.opcode c k distinct);
              })
              (subst (Lands registry allowed size wide program _ next pc) (sym there) (record {
                state = second.reaches;
                fewer = rw same second.fewer;
                forward = forward;
                within = within;
                whole = ground arith;
              }));
      }

  pub flow_jump_immediate : Sound registry allowed size wide program incoming pc i jump_immediate
  unfolding Sound flow_instruction step_instruction require_initialized reads written_after has_all
  flow_jump_immediate next e k h =
      let a = ok_of_check (require_initialized (incoming_at incoming pc) pc (destination i)) _ h in
      branch jump_immediate next (handed_on _ next false e a.1) (ground (arith, a.0)) refl k
        (λ d. cc)
        (λ m at shaped straight away.
          let (v, f) = read_register_total m (destination i) shaped site.placed.valid.0 in
          rw f (
            branch-Turn _ next pc (compare i.opcode v (sign_extend i.immediate)) i.offset m at
              shaped straight away))

  pub flow_jump_register : Sound registry allowed size wide program incoming pc i jump_register
  unfolding Sound flow_instruction step_instruction require_initialized reads written_after has_all
  flow_jump_register next e k h =
      let a = ok_of_check (require_initialized (incoming_at incoming pc) pc (destination i)) _ h in
      let b = ok_of_check (require_initialized (incoming_at incoming pc) pc (source i)) _ a.1 in
      branch jump_register next (handed_on _ next false e b.1) (ground (arith, a.0, b.0)) refl k
        (λ d. cc)
        (λ m at shaped straight away.
          let (v, f) = read_register_total m (destination i) shaped site.placed.valid.0 in
          let (u, g) = read_register_total m (source i) shaped site.placed.valid.1 in
          rw (f, g)
            (branch-Turn _ next pc (compare i.opcode v u) i.offset m at shaped straight away))
