-- ===== src/Ebpf/Safety.antt =====
-- ebpf/src/lib.rs: one instruction that the second pass of `verify` accepts, and the turn of
-- `execute` at it. The child modules go through the classes of instructions.
pub mod Arithmetic
pub mod Memory
pub mod Jumps
pub mod Instructions
use slopos.Ebpf.Defensive.{reads, written_after, has_all}
use slopos.Ebpf.Flow.{
  IsState, States, propagate-Handed, with_register-IsState, after_call-IsState, Within, Kept,
}
use slopos.Ebpf.Turns.{
  Shaped, read_register_total, write_register_total, require_stack_access_ok, alu_immediate-result,
  alu_register-result, store_stack_total, classify_not_wide, load_stack_total, jump_target_ok,
  classify_wide,
}
use slopos.Ebpf.{
  Instruction, destination, source, register_count, max_instructions, Class, classify,
  wide_immediate, move_immediate, move_register, alu_immediate, alu_register, negate, stack_load,
  stack_store_immediate, stack_store_register, jump, jump_immediate, jump_register, call, exit,
  other, access_size, stack_size,
}
use slopos.Ebpf.Verifier.{
  flow_instruction, wide_at, incoming_at, RegisterSet, ensure_writable_destination,
  jump_into_wide_immediate, require_stack_access, require_initialized, propagate_branch,
  propagate_next, with_register, jump_target, VerifyError, propagate,
}
use slopos.Ebpf.Machine.{
  Machine, HelperRegistry, Stop, failed, returned, division_by_zero, invalid_helper,
  step_instruction, at_pc, write_register, sign_extend, with_stack, branch_pc, compare, called,
}
use slopos.Base.{
  ℕ, ◌+◌, ◌≤◌, ◌<◌, ◌≡◌, ◌≢◌, ◌⊎◌, inl, inr, refl, sym, ◌∙◌, ap, Bool, true, false, not, List, some,
  none, ok, err, Result, ◌>>=◌, ok_of_bind, ok_of_check, ok_of_ensure, length, get_elem?,
  Option-cases, arith, contains, subst, if◌then◌else◌, ok-injective,
}
use slopos.Ebpf.Scan.{Placed}

-- The ends of a run that are left to a verified program: a value, a division by zero, or a call of
-- a helper that was allowed and that the registry turns down.
pub data Permitted {S : Type 0} (registry : HelperRegistry S) (allowed : List ℕ)
    : Stop → Type 0 where
  returns : (value : ℕ) → Permitted registry allowed (returned value)
  divides_by_zero : (pc : ℕ) → Permitted registry allowed (failed (division_by_zero pc))
  refuses :
      (pc helper : ℕ) (s : S) (registers : List ℕ)
      → contains allowed helper ≡ true
      → (registry.helper_call s helper registers).0 ≡ none
      → Permitted registry allowed (failed (invalid_helper pc helper))

module _ {S : Type 0} (registry : HelperRegistry S) (allowed : List ℕ) (size : ℕ) (wide : List Bool)
    (program : List Instruction) where
  -- A place where the next turn of a run may be
  pub record Lands (out : RegisterSet) (next : List RegisterSet) (pc k : ℕ) : Type 0 where
    pub state : IsState (incoming_at next k)
    pub fewer : Within (incoming_at next k) out
    pub forward : pc < k
    pub within : k < size
    pub whole : wide_at wide k ≡ false

  pub data Turn (out : RegisterSet) (next : List RegisterSet) (pc : ℕ)
      : Result Stop (Machine S) → Type 0 where
    goes : (m : Machine S) → Shaped m → Lands out next pc m.pc → Turn out next pc (ok m)
    stops : (s : Stop) → Permitted registry allowed s → Turn out next pc (err s)

  -- What a turn of the second pass says: of the states, and of the turn of a run at that place.
  pub record Flowed (incoming next : List RegisterSet) (pc : ℕ) (c : Class) (i : Instruction)
      : Type 0 where
    pub states : States next
    pub keeps :
        (q : ℕ)
        → IsState (incoming_at incoming q)
        → Kept (incoming_at incoming q) (incoming_at next q)
    pub knows : has_all (incoming_at incoming pc) (reads c i) ≡ true
    pub turn :
        (m : Machine S)
        → m.pc ≡ pc
        → Shaped m
        → Turn
            (written_after c i (incoming_at incoming pc))
            next
            pc
            (step_instruction registry program m i c)

-- An instruction that the second pass looks at
pub record Site (size : ℕ) (wide : List Bool) (program : List Instruction)
    (incoming : List RegisterSet) (pc : ℕ) (i : Instruction) : Type 0 where
  pub small : size ≤ max_instructions
  pub states : States incoming
  pub reached : IsState (incoming_at incoming pc)
  pub placed : Placed program wide pc pc i

pub with_destination :
    {size : ℕ} {wide : List Bool} {program : List Instruction} {incoming : List RegisterSet}
    {pc : ℕ} {i : Instruction}
    → Site size wide program incoming pc i
    → IsState (with_register (incoming_at incoming pc) (destination i))
with_destination {incoming = incoming} {pc = pc} {i = i} site =
    with_register-IsState (incoming_at incoming pc) (destination i) site.reached site.placed.valid.0

module _ {S : Type 0} (registry : HelperRegistry S) (allowed : List ℕ) (size : ℕ) (wide : List Bool)
    (program : List Instruction) (incoming : List RegisterSet) (pc : ℕ) (i : Instruction) where
  -- What the second pass says of an instruction of a class
  unfoldable pub Sound : Class → Type 0
  Sound c =
      (next : List RegisterSet) (e : Bool)
      → classify i.opcode ≡ c
      → flow_instruction allowed size wide incoming pc i c ≡ ok (next, e)
      → Flowed registry allowed size wide program incoming next pc c i

module _ {S : Type 0} {registry : HelperRegistry S} {allowed : List ℕ} {size : ℕ} {wide : List Bool}
    {program : List Instruction} where
  pub write-Turn :
      (out : RegisterSet) (next : List RegisterSet) (pc k there r v : ℕ) (m : Machine S)
      → Shaped m
      → r < register_count
      → Lands registry allowed size wide program out next pc k
      → there ≡ k
      → Turn registry allowed size wide program out next pc
          (write_register m r v >>= λ n. ok (at_pc n there))
  unfolding at_pc
  write-Turn out next pc k there r v m h le lands e =
      let (n, f, shaped) = write_register_total m r v h le in
      rw f (
        goes (at_pc n there) (record { registers = shaped.registers; stack = shaped.stack })
          (subst (Lands registry allowed size wide program out next pc) (sym e) lands))

  pub go-Turn :
      (out : RegisterSet) (next : List RegisterSet) (pc k there : ℕ) (m : Machine S)
      → Shaped m
      → Lands registry allowed size wide program out next pc k
      → there ≡ k
      → Turn registry allowed size wide program out next pc (ok (at_pc m there))
  unfolding at_pc
  go-Turn out next pc k there m h lands e =
      goes (at_pc m there) (record { registers = h.registers; stack = h.stack })
        (subst (Lands registry allowed size wide program out next pc) (sym e) lands)

  pub Turn-cases :
      {out : RegisterSet} {next : List RegisterSet} {pc : ℕ} {r : Result Stop (Machine S)}
      → Turn registry allowed size wide program out next pc r
      → ((n : Machine S) × (r ≡ ok n)
          × Shaped n
          × Lands registry allowed size wide program out next pc n.pc)
        ⊎ ((s : Stop) × (r ≡ err s) × Permitted registry allowed s)
  Turn-cases (goes n shaped lands) = inl (n, refl, shaped, lands)
  Turn-cases (stops s p) = inr (s, refl, p)

  -- A move behind a store, and one behind a comparison
  pub stored-Turn :
      (out : RegisterSet) (next : List RegisterSet) (pc k there : ℕ) (m : Machine S)
      (stack : List ℕ)
      → length stack ≡ stack_size
      → Shaped m
      → Lands registry allowed size wide program out next pc k
      → there ≡ k
      → Turn registry allowed size wide program out next pc (ok (at_pc (with_stack m stack) there))
  unfolding with_stack
  stored-Turn out next pc k there m stack l h lands e =
      go-Turn out next pc k there (with_stack m stack)
        (record { registers = h.registers; stack = l }) lands e

  pub branch-Turn :
      (out : RegisterSet) (next : List RegisterSet) (pc : ℕ) (taken : Bool) (offset : ℕ)
      (m : Machine S)
      → m.pc ≡ pc
      → Shaped m
      → Lands registry allowed size wide program out next pc (pc + 1)
      → Lands registry allowed size wide program out next pc (branch_pc pc offset)
      → Turn registry allowed size wide program out next pc
          (ok (at_pc m (if taken then branch_pc m.pc offset else m.pc + 1)))
  branch-Turn out next pc true offset m at h straight away =
      go-Turn out next pc _ (branch_pc m.pc offset) m h away (ap (λ p. branch_pc p offset) at)
  branch-Turn out next pc false offset m at h straight away =
      go-Turn out next pc _ (m.pc + 1) m h straight (omega (arith, at))

pub handed_on :
    (r : Result VerifyError (List RegisterSet)) (next : List RegisterSet) (flag e : Bool)
    → ◌≡◌ {A = Result VerifyError (List RegisterSet × Bool)}
        (r >>= λ n. ok (n, flag))
        (ok (next, e))
    → r ≡ ok next
handed_on (err x) next flag e h = absurd (cc)
handed_on (ok n) next flag e h = ap ok (ap (λ (p : List RegisterSet × Bool). p.0) (ok-injective h))

module _ {S : Type 0} {registry : HelperRegistry S} {allowed : List ℕ} {size : ℕ} {wide : List Bool}
    {program : List Instruction} {incoming : List RegisterSet} {pc : ℕ} {i : Instruction}
    (site : Site size wide program incoming pc i) where
  -- An instruction with one place to go
  pub hand :
      (c : Class) (next : List RegisterSet) (k : ℕ)
      → propagate incoming size k (written_after c i (incoming_at incoming pc)) pc ≡ ok next
      → has_all (incoming_at incoming pc) (reads c i) ≡ true
      → IsState (written_after c i (incoming_at incoming pc))
      → pc < k
      → wide_at wide k ≡ false
      → ((m : Machine S)
          → m.pc ≡ pc
          → Shaped m
          → Lands registry allowed size wide program
              (written_after c i (incoming_at incoming pc))
              next
              pc
              k
          → Turn registry allowed size wide program
              (written_after c i (incoming_at incoming pc))
              next
              pc
              (step_instruction registry program m i c))
      → Flowed registry allowed size wide program incoming next pc c i
  hand c next k h known st forward whole go =
      let handed = propagate-Handed incoming next size k pc _ h site.small site.states st in
      record {
        states = handed.states;
        keeps = handed.keeps;
        knows = known;
        turn = λ m at shaped. go m at shaped (record {
          state = handed.reaches;
          fewer = handed.fewer;
          forward = forward;
          within = handed.within;
          whole = whole;
        });
      }

  pub hand_next :
      (c : Class) (next : List RegisterSet)
      → propagate_next incoming size pc (written_after c i (incoming_at incoming pc)) ≡ ok next
      → has_all (incoming_at incoming pc) (reads c i) ≡ true
      → IsState (written_after c i (incoming_at incoming pc))
      → classify i.opcode ≡ c
      → wide_immediate ≢ c
      → ((m : Machine S)
          → m.pc ≡ pc
          → Shaped m
          → Lands registry allowed size wide program
              (written_after c i (incoming_at incoming pc))
              next
              pc
              (pc + 1)
          → Turn registry allowed size wide program
              (written_after c i (incoming_at incoming pc))
              next
              pc
              (step_instruction registry program m i c))
      → Flowed registry allowed size wide program incoming next pc c i
  unfolding propagate_next
  hand_next c next h known st k distinct go =
      hand c next (pc + 1) h known st (omega arith)
        (site.placed.next (classify_not_wide i.opcode c k distinct)) go
