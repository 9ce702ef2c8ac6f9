-- ===== src/Tests/Stacks.antt =====
-- The initial stack of crates/process/src/lib.rs.
use slopos.Base.{ℕ, ◌≡◌, refl, List, [], ◌∷◌, ok, replicate, err}
use slopos.Process.InitialStack.{InitialStackLayout, build_linux_initial_stack}
use slopos.Process.InitialStack.Layout.{Placed, build_linux_initial_stack-Placed}

abbrev blank : List ℕ
blank = replicate 256 0

-- The name `a` and the environment `B=`.
abbrev built : List ℕ
built =
    elim (build_linux_initial_stack blank 4096 ((97 ∷ []) ∷ []) ((66 ∷ 61 ∷ []) ∷ []) 65536 4096) [
      | ok (l, bytes) ↦ bytes
      | err e ↦ []
    ]

abbrev built_layout : InitialStackLayout
built_layout = record {
  stack_pointer = 4160;
  argument_count = 1;
  environment_count = 1;
  auxiliary_pairs = 9;
  used_bytes = 192;
}

builds :
    build_linux_initial_stack blank 4096 ((97 ∷ []) ∷ []) ((66 ∷ 61 ∷ []) ∷ []) 65536 4096
    ≡ ok (built_layout, built)
unfolding build_linux_initial_stack
builds = refl

build_linux_initial_stack-Placed_example : Placed blank 4096 built_layout built
build_linux_initial_stack-Placed_example =
    build_linux_initial_stack-Placed blank 4096 ((97 ∷ []) ∷ []) ((66 ∷ 61 ∷ []) ∷ []) 65536 4096
      built_layout built builds
