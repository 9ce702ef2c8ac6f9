-- ===== src/Process/InitialStack/Layout.antt =====
-- The layout of an initial stack: where the stack pointer is, and how much is used.
use slopos.Base.{
  ℕ, ◌+◌, ◌-◌, ◌*◌, ◌∙◌, ◌%◌, ◌≤◌, ◌<◌, ◌≡◌, refl, List, [], ◌∷◌, ◌++◌, length, set, length-set, ok,
  arith, Result-cases, inl, inr, u64_mod, subst,
}
use slopos.Process.InitialStack.{
  InitialStackLayout, Cursor, copy_at, push_initial_string, push_strings, write_initial_word,
  write_words, auxiliary, first_of, table_words, place_table, check_stack, layout_at,
  build_linux_initial_stack, to_le_bytes,
}

-- The stack pointer is a multiple of 16 within the stack, and the part above it is what is used.
pub record Placed (stack : List ℕ) (stack_base : ℕ) (layout : InitialStackLayout) (after : List ℕ)
    : Type 0 where
  pub aligned : layout.stack_pointer % 16 ≡ 0
  pub above : stack_base ≤ layout.stack_pointer
  pub fits : stack_base + length stack < u64_mod
  pub used : layout.stack_pointer + layout.used_bytes ≡ stack_base + length stack
  pub some_used : 1 ≤ layout.used_bytes
  pub same_size : length after ≡ length stack

length-copy_at :
    (stack : List ℕ) (start : ℕ) (bs : List ℕ) → length (copy_at stack start bs) ≡ length stack
unfolding copy_at
length-copy_at stack start [] = refl
length-copy_at stack start (b ∷ bs) =
    length-copy_at (set stack start b) (start + 1) bs ∙ length-set stack start b

push_initial_string_size :
    (base : ℕ) (value : List ℕ) (c : Cursor) (r : ℕ × Cursor)
    → push_initial_string base value c ≡ ok r
    → length r.1.stack ≡ length c.stack
unfolding push_initial_string
push_initial_string_size base value c r e = ground (
  arith,
  length-copy_at c.stack (c.cursor - (length value + 1)) value,
  length-set (copy_at c.stack (c.cursor - (length value + 1)) value)
      (c.cursor - (length value + 1) + length value) 0,
)

push_strings_size :
    (base : ℕ) (values : List (List ℕ)) (c : Cursor) (r : List ℕ × Cursor)
    → push_strings base values c ≡ ok r
    → length r.1.stack ≡ length c.stack
unfolding push_strings
push_strings_size base [] c r e = ground arith
push_strings_size base (v ∷ vs) c r e = elim (Result-cases (push_strings base vs c)) [
  | inr (x, f) ↦ absurd (ground arith)
  | inl (later, f) ↦ elim (Result-cases (push_initial_string base v later.1)) [
    | inr (x, g) ↦ absurd (ground arith)
    | inl (pushed, g) ↦ ground (
      arith,
      push_strings_size base vs c later f,
      push_initial_string_size base v later.1 pushed g,
    )
  ]
]

write_initial_word_size :
    (start word value : ℕ) (stack after : List ℕ)
    → write_initial_word start word value stack ≡ ok after
    → length after ≡ length stack
unfolding write_initial_word
write_initial_word_size start word value stack after e =
    ground (arith, length-copy_at stack (start + word * 8) (to_le_bytes 8 value))

write_words_size :
    (start word : ℕ) (values stack : List ℕ) (r : ℕ × List ℕ)
    → write_words start word values stack ≡ ok r
    → length r.1 ≡ length stack
unfolding write_words
write_words_size start word [] stack r e = ground arith
write_words_size start word (v ∷ vs) stack r e =
    elim (Result-cases (write_initial_word start word v stack)) [
      | inr (x, f) ↦ absurd (ground arith)
      | inl (after, f) ↦
          write_words_size start (word + 1) vs after r (ground arith)
          ∙ write_initial_word_size start word v stack after f
    ]

place_table_ok :
    (base top cursor words : ℕ) (t : ℕ × ℕ)
    → place_table base top cursor words ≡ ok t
    → (t.1 ≡ base + t.0) × (t.1 % 16 ≡ 0) × (t.1 < top)
unfolding place_table
place_table_ok base top cursor words t e = (ground arith, ground arith, ground arith)

check_stack_ok :
    (stack : List ℕ) (base : ℕ) (arguments environment : List (List ℕ)) (top : ℕ)
    → check_stack stack base arguments environment ≡ ok top
    → (top ≡ base + length stack) × (base + length stack < u64_mod)
unfolding check_stack
check_stack_ok stack base arguments environment top e = (ground arith, ground arith)

layout_at-Placed :
    (stack after : List ℕ) (base arguments environment start pointer : ℕ)
    → length after ≡ length stack
    → pointer ≡ base + start
    → pointer % 16 ≡ 0
    → pointer < base + length stack
    → base + length stack < u64_mod
    → Placed stack base (layout_at (length stack) arguments environment start pointer) after
unfolding layout_at
layout_at-Placed stack after base arguments environment start pointer size at aligned below fits =
    record {
      aligned = aligned;
      above = omega (arith, at);
      fits = fits;
      used = omega (arith, at, below);
      some_used = omega (arith, at, below);
      same_size = size;
    }

-- A stack that `build_linux_initial_stack` has built keeps its size and ends below 2^64; the stack
-- pointer is a multiple of 16 within it, and `used_bytes`, which is not 0, counts the bytes from
-- there to the end.
pub build_linux_initial_stack-Placed :
    (stack : List ℕ) (base : ℕ) (arguments environment : List (List ℕ)) (entry page_size : ℕ)
    (layout : InitialStackLayout) (after : List ℕ)
    → build_linux_initial_stack stack base arguments environment entry page_size
      ≡ ok (layout, after)
    → Placed stack base layout after
unfolding build_linux_initial_stack
build_linux_initial_stack-Placed stack base arguments environment entry page_size layout after e =
    elim (Result-cases (check_stack stack base arguments environment)) [
      | inr (x, f) ↦ absurd (ground arith)
      | inl (top, f) ↦
          elim (Result-cases
            (push_strings base environment (record { stack = stack; cursor = length stack }))) [
              | inr (x, g) ↦ absurd (ground arith)
              | inl (envp, g) ↦ elim (Result-cases (push_strings base arguments envp.1)) [
                | inr (x, k) ↦ absurd (ground arith)
                | inl (argv, k) ↦
                    elim (Result-cases
                      (place_table base top argv.1.cursor (table_words arguments environment))) [
                        | inr (x, m) ↦ absurd (ground arith)
                        | inl (table, m) ↦
                            let words =
                              length arguments
                              ∷ (argv.0
                                  ++ (0
                                      ∷ (envp.0
                                          ++ (0 ∷ auxiliary page_size entry (first_of argv.0))))) in
                            elim (Result-cases (write_words table.0 0 words argv.1.stack)) [
                              | inr (x, w) ↦ absurd (ground arith)
                              | inl (written, w) ↦
                                  let (ends, fits) =
                                    check_stack_ok stack base arguments environment top f in
                                  let (at, aligned, below) =
                                    place_table_ok base top argv.1.cursor
                                      (table_words arguments environment) table m in
                                  let size =
                                    write_words_size table.0 0 words argv.1.stack written w
                                    ∙ push_strings_size base arguments envp.1 argv k
                                    ∙ push_strings_size base environment
                                        (record { stack = stack; cursor = length stack }) envp g in
                                  let made : layout_at (length stack) (length arguments)
                                        (length environment) table.0 table.1
                                      ≡ layout =
                                    ground arith in
                                  let left : written.1 ≡ after = ground arith in
                                  subst (λ l. Placed stack base l after) made
                                    (subst
                                      (λ bytes.
                                        Placed stack base
                                          (layout_at (length stack) (length arguments)
                                            (length environment) table.0 table.1)
                                          bytes)
                                      left
                                      (layout_at-Placed stack written.1 base (length arguments)
                                        (length environment) table.0 table.1 size at aligned
                                        (omega (arith, below, ends)) fits))
                            ]
                      ]
              ]
            ]
    ]
