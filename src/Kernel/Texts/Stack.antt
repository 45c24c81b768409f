-- ===== src/Kernel/Texts/Stack.antt =====
-- The saved registers, as the breakpoint and the panic print them.
use utero_archive.Base.{ℕ, ◌+◌, refl, arith, List, ◌∷◌, ◌++◌}
use utero_archive.Base.Memory.{Memory, load, load-lt}
use utero_archive.Base.Text.{codes}
use utero_archive.Core.Isr.Exceptions.{stack_words}
use utero_archive.Libk.Printfk.{Arg}
use utero_archive.Libk.Printfk.Render.{Directive, conversion}
use utero_archive.Kernel.Texts.{Shows, X-Shows, plains, Renders, then_plains, then_X}

word-Shows : (mem : Memory) (a : ℕ) → Shows b'X' 0 (load 8 mem a) 16
word-Shows mem a = X-Shows (load 8 mem a) (omega (arith, load-lt 8 mem a))

abbrev pub X_then : List Directive → List Directive
X_then ds = conversion b'X' 0 ∷ ds

-- From the first register's conversion to the last one's.
pub then_stack :
    (mem : Memory) (stack : ℕ) {m : ℕ} {ds : List Directive} {args : List Arg}
    → Renders m ds args
    → (n : ℕ) × Renders n
        (X_then (
          plains (codes "\n  code_segment        = 0x") (
            X_then (
              plains (codes "\n  cpu_flags           = 0x") (
                X_then (
                  plains
                    (codes "\n  stack_pointer       = 0x")
                    (X_then (plains (codes "\n  stack_segment       = 0x") (X_then ds)))))))))
        (stack_words mem stack ++ args)
unfolding stack_words
then_stack mem stack r = (
  _,
  then_X (word-Shows mem stack) (
      then_plains (codes "\n  code_segment        = 0x") refl (
        then_X (word-Shows mem (stack + 8)) (
          then_plains (codes "\n  cpu_flags           = 0x") refl (
            then_X (word-Shows mem (stack + 16)) (
              then_plains (codes "\n  stack_pointer       = 0x") refl (
                then_X (word-Shows mem (stack + 24)) (
                  then_plains (codes "\n  stack_segment       = 0x") refl
                    (then_X (word-Shows mem (stack + 32)) r)))))))),
)
