-- ===== src/Kernel/Panic/Exception.antt =====
-- An exception that no handler is registered for.
use utero_archive.Base.{
  ℕ, zero, suc, ◌<◌, ◌≡◌, refl, arith, Bool, ◌||◌, true, false, ltb, none, List, [], ◌∷◌, ◌++◌,
  length, get_or,
}
use utero_archive.Base.Memory.{Memory}
use utero_archive.Base.Text.{codes}
use utero_archive.Core.Isr.{get_stack, isr_handler}
use utero_archive.Core.Isr.Exceptions.{exception_messages, stack_words, panic_format, panic_args}
use utero_archive.Drivers.Screen.{screen_width}
use utero_archive.Libk.Printfk.{Arg, word, text, isdigitk}
use utero_archive.Libk.Printfk.Render.{render, parse_format}
use utero_archive.Kernel.State.{Build, Kernel, Location}
use utero_archive.Kernel.Dispatch.{exception, run_dispatch}
use utero_archive.Kernel.Panic.{panic_at}
use utero_archive.Kernel.Panic.Halting.{IsLocation, Halted, kernel_panic-Halted}
use utero_archive.Drivers.Screen.Within.{has_tab}
use utero_archive.Kernel.Texts.Stack.{then_stack}
use utero_archive.Kernel.Texts.{NoTab, d-Shows, Renders, nothing, then_plains, then_text, then_d}

abbrev any_tab : List (List ℕ) → Bool
any_tab [] = false
any_tab (x ∷ xs) = has_tab x || any_tab xs

get_or-NoTab : (texts : List (List ℕ)) (k : ℕ) → any_tab texts ≡ false → NoTab (get_or texts k [])
get_or-NoTab [] k h = refl
get_or-NoTab (x ∷ xs) zero h = ground arith
get_or-NoTab (x ∷ xs) (suc k) h = get_or-NoTab xs k (ground arith)

message-NoTab : (id : ℕ) → NoTab (get_or exception_messages id [])
unfolding exception_messages
message-NoTab id = get_or-NoTab exception_messages id refl

-- The format and the arguments of the panic.
abbrev full_format : List ℕ
full_format = codes "\nPANIC in %s:%d:%s(): " ++ (panic_format ++ codes "\n%s")

abbrev full_args : Location → Memory → ℕ → ℕ → List Arg
full_args at mem id stack =
    text at.file ∷ word at.line ∷ text at.function ∷ (panic_args mem id stack ++ text [] ∷ [])

module _ (at : Location) (loc : IsLocation at) (mem : Memory) (id stack : ℕ) (low : id < 32) where
  full_text :
      (n : ℕ) × Renders n
        (parse_format (length full_format) full_format)
        (full_args at mem id stack)
  unfolding parse_format isdigitk panic_format panic_args stack_words
  full_text =
      let (m, regs) =
        then_stack mem stack
          (then_plains (codes "\n") refl (then_text {t = []} refl (nothing []))) in
      (
        _,
        then_plains (codes "\nPANIC in ") refl (
            then_text loc.file (
              then_plains (codes ":") refl (
                then_d (d-Shows at.line 0 loc.line (omega arith)) (
                  then_plains (codes ":") refl (
                    then_text loc.function (
                      then_plains (codes "(): Received interrupt: ") refl (
                        then_d (d-Shows id 0 (omega arith) (omega arith)) (
                          then_plains (codes " - ") refl (
                            then_text (message-NoTab id) (
                              then_plains (codes "\n\n  instruction_pointer = 0x") refl
                                regs)))))))))),
      )

-- An exception that no handler is registered for stops the kernel. From a column of the screen, with
-- a place to name that has no tab and a line below 2^31, the call returns whatever memory and the
-- saved registers hold: the kernel is halted with its interrupts disabled, and of the rest of its
-- state only the screen and the hardware have changed.
pub exception-Halted :
    (b : Build) (id stack_addr : ℕ) (k : Kernel)
    → id < 32
    → k.interrupt_handlers id ≡ none
    → IsLocation b.isr_panic
    → k.screen.screen_col < screen_width
    → Halted k (exception b id stack_addr k)
unfolding exception isr_handler run_dispatch panic_at render
exception-Halted b id stack_addr k low unset loc col =
    let stack = get_stack id stack_addr in
    let mem = k.screen.hardware.memory in
    let (n, t) = full_text b.isr_panic loc mem id stack low in
    let in_range : ltb id 256 ≡ true = ground arith in
    let is_exception : ltb id 32 ≡ true = ground arith in
    let h =
      kernel_panic-Halted b.waits full_format (full_args b.isr_panic mem id stack) t.str k t.renders
        t.plain col in
    rw (in_range, unset, is_exception, exception, isr_handler) h
