-- ===== src/Ebpf/Written.antt =====
-- ebpf/src/lib.rs: the sets of written registers of the reference interpreter grow with each other.
use slopos.Base.{
  ℕ, zero, suc, ◌≡◌, ◌==◌, ◌∙◌, refl, sym, ap, Bool, true, false, ◌&&◌, List, [], ◌∷◌, length,
  length-set, take-length, set, arith, ltb, if◌then◌else◌,
}
use slopos.Ebpf.{
  Instruction, destination, Class, wide_immediate, move_immediate, move_register, alu_immediate,
  alu_register, negate, stack_load, stack_store_immediate, stack_store_register, jump,
  jump_immediate, jump_register, call, exit, other,
}
use slopos.Ebpf.Verifier.{RegisterSet, has_register, with_register, after_call}
use slopos.Ebpf.Defensive.{written_after, has_all, after_helper, is_written}
use slopos.Ebpf.Flow.{Within}

has_register-set :
    (s : RegisterSet) (i r : ℕ) (v : Bool)
    → has_register (set s i v) r ≡ (if i == r then (v && ltb r (length s)) else has_register s r)
unfolding has_register
has_register-set [] i r v = ground arith
has_register-set (x ∷ s) zero zero v = ground arith
has_register-set (x ∷ s) zero (suc r) v = ground arith
has_register-set (x ∷ s) (suc i) zero v = ground arith
has_register-set (x ∷ s) (suc i) (suc r) v = ground (arith, has_register-set s i r v)

-- The two descriptions of what a call leaves are the same.
pub after_call-after_helper : (s : RegisterSet) → after_call s ≡ after_helper s
unfolding after_call after_helper
after_call-after_helper [] = refl
after_call-after_helper (a ∷ []) = refl
after_call-after_helper (a ∷ b ∷ []) = refl
after_call-after_helper (a ∷ b ∷ c ∷ []) = refl
after_call-after_helper (a ∷ b ∷ c ∷ d ∷ []) = refl
after_call-after_helper (a ∷ b ∷ c ∷ d ∷ e ∷ []) = refl
after_call-after_helper (a ∷ b ∷ c ∷ d ∷ e ∷ f ∷ rest) =
    ap (λ r. true ∷ false ∷ false ∷ false ∷ false ∷ false ∷ r) (sym (take-length rest))

pub has_register-is_written : (s : RegisterSet) (r : ℕ) → has_register s r ≡ is_written s r
unfolding has_register is_written
has_register-is_written [] r = refl
has_register-is_written (x ∷ s) zero = refl
has_register-is_written (x ∷ s) (suc r) = has_register-is_written s r

-- Two sets of one width, the first within the second
pub record Below (s t : RegisterSet) : Type 0 where
  pub widths : length s ≡ length t
  pub within : Within s t

set-Below : (s t : RegisterSet) (i : ℕ) (v : Bool) → Below s t → Below (set s i v) (set t i v)
set-Below s t i v h = record {
  widths = omega (arith, length-set s i v, length-set t i v, h.widths);
  within = λ r e.
      ground (arith, e, has_register-set s i r v, has_register-set t i r v, h.within r, h.widths);
}

pub written_after-Below :
    (c : Class) (i : Instruction) (s t : RegisterSet)
    → Below s t
    → Below (written_after c i s) (written_after c i t)
unfolding written_after with_register after_call
written_after-Below wide_immediate i s t h = set-Below s t (destination i) true h
written_after-Below move_immediate i s t h = set-Below s t (destination i) true h
written_after-Below move_register i s t h = set-Below s t (destination i) true h
written_after-Below alu_immediate i s t h = set-Below s t (destination i) true h
written_after-Below alu_register i s t h = set-Below s t (destination i) true h
written_after-Below stack_load i s t h = set-Below s t (destination i) true h
written_after-Below call i s t h =
    rw (sym (after_call-after_helper s), sym (after_call-after_helper t))
      (set-Below _ _ 0 true (
        set-Below _ _ 5 false (
          set-Below _ _ 4 false
            (set-Below _ _ 3 false (set-Below _ _ 2 false (set-Below s t 1 false h))))))
written_after-Below negate i s t h = h
written_after-Below stack_store_immediate i s t h = h
written_after-Below stack_store_register i s t h = h
written_after-Below jump i s t h = h
written_after-Below jump_immediate i s t h = h
written_after-Below jump_register i s t h = h
written_after-Below exit i s t h = h
written_after-Below other i s t h = h

pub length-written_after :
    (c : Class) (i : Instruction) (s : RegisterSet) → length (written_after c i s) ≡ length s
unfolding written_after with_register after_call
length-written_after wide_immediate i s = length-set s (destination i) true
length-written_after move_immediate i s = length-set s (destination i) true
length-written_after move_register i s = length-set s (destination i) true
length-written_after alu_immediate i s = length-set s (destination i) true
length-written_after alu_register i s = length-set s (destination i) true
length-written_after stack_load i s = length-set s (destination i) true
length-written_after call i s =
    ap length (sym (after_call-after_helper s))
    ∙ length-set (set (set (set (set (set s 1 false) 2 false) 3 false) 4 false) 5 false) 0 true
    ∙ length-set (set (set (set (set s 1 false) 2 false) 3 false) 4 false) 5 false
    ∙ length-set (set (set (set s 1 false) 2 false) 3 false) 4 false
    ∙ length-set (set (set s 1 false) 2 false) 3 false
    ∙ length-set (set s 1 false) 2 false
    ∙ length-set s 1 false
length-written_after negate i s = refl
length-written_after stack_store_immediate i s = refl
length-written_after stack_store_register i s = refl
length-written_after jump i s = refl
length-written_after jump_immediate i s = refl
length-written_after jump_register i s = refl
length-written_after exit i s = refl
length-written_after other i s = refl

pub Below-trans : {s t u : RegisterSet} → Below s t → Below t u → Below s u
Below-trans a b = record { widths = a.widths ∙ b.widths; within = λ r h. b.within r (a.within r h) }

pub has_all-Within :
    (s t : RegisterSet) (rs : List ℕ) → Within s t → has_all s rs ≡ true → has_all t rs ≡ true
unfolding has_all
has_all-Within s t [] w h = refl
has_all-Within s t (r ∷ rs) w h =
    ground (
      arith,
      w r,
      has_register-is_written s r,
      has_register-is_written t r,
      has_all-Within s t rs w,
    )
