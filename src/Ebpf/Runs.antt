-- ===== src/Ebpf/Runs.antt =====
-- ebpf/src/lib.rs: the second pass of `verify` beside the runs of `execute` from each place.
use slopos.Ebpf.Safety.Instructions.{flow_Sound}
use slopos.Ebpf.Safety.{Permitted, Turn, Turn-cases, Lands, Sound}
use slopos.Ebpf.Verifier.{flow_instruction, wide_at, incoming_at, RegisterSet, is_unreached, flow}
use slopos.Base.{
  ℕ, zero, suc, ◌+◌, ◌≤◌, ◌<◌, ◌≡◌, ◌≢◌, ◌⊎◌, inl, inr, refl, sym, ◌∙◌, ap, Bool, true, false, List,
  [], ◌∷◌, some, ok, ◌>>=◌, ok_of_bind, length, get_elem?, Bool-cases, arith, subst, ◌||◌,
}
use slopos.Ebpf.Machine.{Machine, HelperRegistry, Stop, step_instruction, run}
use slopos.Ebpf.Scan.{Placed}
use slopos.Ebpf.Flow.{decide, IsState, States, is_unreached-false, Kept}
use slopos.Ebpf.{Instruction, max_instructions, classify}
use slopos.Ebpf.Turns.{Shaped}
use slopos.Ebpf.Written.{
  Below, Below-trans, written_after-Below, length-written_after, has_all-Within,
}
use slopos.Ebpf.Defensive.{run_defensive, reads, written_after, has_all}

-- The second pass from a place on, at every place that it still has in front of it
module _ {S : Type 0} (registry : HelperRegistry S) (allowed : List ℕ) (wide : List Bool)
    (program : List Instruction) (small : length program ≤ max_instructions)
    (placed : (q : ℕ) (i : Instruction)
      → get_elem? program q ≡ some i
      → wide_at wide q ≡ false
      → Placed program wide q q i) where
  -- A run comes to a permitted end, and the reference interpreter comes to the same.
  pub record Safe (steps : ℕ) (written : RegisterSet) (m : Machine S) : Type 0 where
    pub permitted : Permitted registry allowed (run registry program steps m).0
    pub defensive :
        run_defensive registry program steps written m ≡ some (run registry program steps m)

  -- A turn of a run, and the run behind it
  run-Turn :
      (m : Machine S) (steps : ℕ) (i : Instruction) (out written : RegisterSet)
      (next : List RegisterSet)
      → get_elem? program m.pc ≡ some i
      → has_all written (reads (classify i.opcode) i) ≡ true
      → Turn registry allowed
          (length program)
          wide
          program
          out
          next
          m.pc
          (step_instruction registry program m i (classify i.opcode))
      → ((n : Machine S)
          → Shaped n
          → Lands registry allowed (length program) wide program out next m.pc n.pc
          → Safe steps (written_after (classify i.opcode) i written) n)
      → Safe (suc steps) written m
  unfolding run run_defensive
  run-Turn m steps i out written next at known turn behind = elim (Turn-cases turn) [
    | inl (n, e, shaped, lands) ↦
        let same : run registry program (suc steps) m ≡ run registry program steps n =
          rw (run, at, e) refl in
        let rest = behind n shaped lands in
        record {
          permitted =
              subst (λ (r : Stop × S). Permitted registry allowed r.0) (sym same) rest.permitted;
          defensive = rw same (rw (run_defensive, at, known, e) rest.defensive);
        }
    | inr (s, e, p) ↦
        let same : (run registry program (suc steps) m).0 ≡ s = rw (run, at, e) refl in
        record {
          permitted = subst (Permitted registry allowed) (sym same) p;
          defensive = rw (run_defensive, run, at, known, e) refl;
        }
  ]

  -- A place that the second pass looks at
  record Visited (i : Instruction) (rest : List Instruction) (pc : ℕ) (incoming : List RegisterSet)
      (saw seen : Bool) : Type 0 where
    here : IsState (incoming_at incoming pc)
    single : wide_at wide pc ≡ false
    next : List RegisterSet
    exits : Bool
    flowed :
        flow_instruction allowed (length program) wide incoming pc i (classify i.opcode)
        ≡ ok (next, exits)
    behind : flow allowed (length program) wide rest (pc + 1) next (saw || exits) ≡ ok seen

  flow_cons :
      (i : Instruction) (rest : List Instruction) (pc : ℕ) (incoming : List RegisterSet)
      (saw seen : Bool)
      → flow allowed (length program) wide (i ∷ rest) pc incoming saw ≡ ok seen
      → States incoming
      → (((is_unreached (incoming_at incoming pc) || wide_at wide pc) ≡ true)
          × (flow allowed (length program) wide rest (pc + 1) incoming saw ≡ ok seen))
        ⊎ Visited i rest pc incoming saw seen
  unfolding flow
  flow_cons i rest pc incoming saw seen h ss =
      elim (Bool-cases (is_unreached (incoming_at incoming pc))) [
        | inl f ↦ inl (ground arith, ground arith)
        | inr f ↦ elim (Bool-cases (wide_at wide pc)) [
          | inl g ↦ inl (ground arith, ground arith)
          | inr g ↦
              let turn =
                flow_instruction allowed (length program) wide incoming pc i (classify i.opcode) in
              let go : (turn >>= λ n.
              flow allowed (length program) wide rest (pc + 1) n.0 (saw || n.1))
                  ≡ ok seen =
                ground arith in
              let (n, e, r) = ok_of_bind turn _ go in
              inr (record {
                here = record { width = ss.widths pc; plain = ss.plain pc f };
                single = g;
                next = n.0;
                exits = n.1;
                flowed = e;
                behind = r;
              })
        ]
      ]

  skip_not :
      (incoming : List RegisterSet) (pc : ℕ)
      → IsState (incoming_at incoming pc)
      → wide_at wide pc ≡ false
      → (is_unreached (incoming_at incoming pc) || wide_at wide pc) ≢ true
  skip_not incoming pc state whole h = ground (
    arith,
    is_unreached-false (incoming_at incoming pc) 15 (omega (arith, state.width)) state.plain,
  )

  Kept-Below :
      (incoming next : List RegisterSet) (q : ℕ) (written : RegisterSet)
      → IsState (incoming_at incoming q)
      → Kept (incoming_at incoming q) (incoming_at next q)
      → Below (incoming_at incoming q) written
      → Below (incoming_at next q) written
  Kept-Below incoming next q written state kept below =
      Below-trans (record { widths = kept.state.width ∙ sym state.width; within = kept.fewer })
        below

  rests_tail :
      (i : Instruction) (rest : List Instruction) (pc : ℕ)
      → ((j : ℕ) → get_elem? (i ∷ rest) j ≡ get_elem? program (pc + j))
      → (j : ℕ) → get_elem? rest j ≡ get_elem? program (pc + 1 + j)
  rests_tail i rest pc h j = h (suc j) ∙ ap (get_elem? program) (omega arith)

  pub flow-Safe :
      (rest : List Instruction) (pc : ℕ) (incoming : List RegisterSet) (saw seen : Bool)
      → flow allowed (length program) wide rest pc incoming saw ≡ ok seen
      → ((j : ℕ) → get_elem? rest j ≡ get_elem? program (pc + j))
      → pc + length rest ≡ length program
      → States incoming
      → (steps : ℕ) (written : RegisterSet) (m : Machine S) → Shaped m
      → pc ≤ m.pc
      → m.pc < length program
      → length program ≤ m.pc + steps
      → IsState (incoming_at incoming m.pc)
      → wide_at wide m.pc ≡ false
      → Below (incoming_at incoming m.pc) written
      → Safe steps written m
  unfolding flow Sound
  flow-Safe [] pc incoming saw seen h rests size ss steps written m shaped forward within enough
        state whole below =
      absurd (omega arith)
  flow-Safe (i ∷ rest) pc incoming saw seen h rests size ss zero written m shaped forward within
        enough state whole below =
      absurd (omega arith)
  flow-Safe (i ∷ rest) pc incoming saw seen h rests size ss (suc steps) written m shaped forward
        within enough state whole below =
      elim (flow_cons i rest pc incoming saw seen h ss) [
        | inl (skipped, f) ↦
            let later : pc < m.pc = elim (decide pc m.pc) [
              | inr o ↦ omega arith
              | inl e ↦ absurd (
                  skip_not incoming m.pc state whole (
                    subst (λ p. (is_unreached (incoming_at incoming p) || wide_at wide p) ≡ true) e
                      skipped))
            ] in
            flow-Safe rest (pc + 1) incoming saw seen f (rests_tail i rest pc rests) (omega arith)
              ss (suc steps) written m shaped (omega arith) within enough state whole below
        | inr v ↦
            let at_pc : get_elem? program pc ≡ some i = ground (arith, rests 0) in
            let sound =
              flow_Sound registry allowed (length program) wide program incoming pc i
                (record {
                  small = small;
                  states = ss;
                  reached = v.here;
                  placed = placed pc i at_pc v.single;
                })
                (classify i.opcode) v.next v.exits refl v.flowed in
            elim (decide pc m.pc) [
              | inr o ↦
                  flow-Safe rest (pc + 1) v.next _ seen v.behind (rests_tail i rest pc rests)
                    (omega arith) sound.states (suc steps) written m shaped (omega arith) within
                    enough (sound.keeps m.pc state).state whole
                    (Kept-Below incoming v.next m.pc written state (sound.keeps m.pc state) below)
              | inl e ↦
                  let here = subst (λ p. Below (incoming_at incoming p) written) (sym e) below in
                  let out = written_after (classify i.opcode) i (incoming_at incoming pc) in
                  run-Turn m steps i out written v.next
                    (subst (λ p. get_elem? program p ≡ some i) e at_pc)
                    (has_all-Within (incoming_at incoming pc) written _ here.within sound.knows)
                    (subst
                      (λ p.
                        Turn registry allowed (length program) wide program out v.next p
                          (step_instruction registry program m i (classify i.opcode)))
                      e (sound.turn m (sym e) shaped))
                    (λ n fine lands.
                      flow-Safe rest (pc + 1) v.next _ seen v.behind (rests_tail i rest pc rests)
                        (omega arith) sound.states steps
                        (written_after (classify i.opcode) i written) n fine
                        (omega (arith, lands.forward)) lands.within (omega (arith, lands.forward))
                        lands.state lands.whole
                        (Below-trans
                          (record {
                            widths =
                                lands.state.width
                                ∙ sym v.here.width
                                ∙ sym (
                                    length-written_after (classify i.opcode) i
                                      (incoming_at incoming pc));
                            within = lands.fewer;
                          })
                          (written_after-Below (classify i.opcode) i (incoming_at incoming pc)
                            written here)))
            ]
      ]
