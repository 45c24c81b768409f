-- ===== src/Asm/Interrupt/Stop.antt =====
-- What an exception's handler finds on the stack, and the exception that stops the kernel.
use utero_archive.Base.{
  ℕ, ◌+◌, ◌-◌, ◌*◌, ◌^◌, ◌≤◌, ◌<◌, ◌≡◌, ◌⊎◌, inl, inr, refl, ap, ap₂, ◌∙◌, subst, arith, Bool, ◌||◌,
  true, false, ◌==◌, if◌then◌else◌, some, none, List, [], ◌∷◌, ◌++◌, length,
}
use utero_archive.Base.Memory.{Memory}
use utero_archive.Core.Isr.{has_error_code, get_stack}
use utero_archive.Core.Isr.Exceptions.{stack_words}
use utero_archive.Drivers.Screen.{screen_width}
use utero_archive.Libk.Printfk.{Arg, word}
use utero_archive.Kernel.State.{Build, Kernel}
use utero_archive.Kernel.Dispatch.{exception}
use utero_archive.Kernel.Panic.Halting.{IsLocation}
use utero_archive.Kernel.Panic.Exception.{exception-Halted}
use utero_archive.Asm.Cpu.{
  Registers, Register, rax, rbx, rcx, rdx, rsi, rdi, rbp, r8, r9, r10, r11, r12, r13, r14, r15, pop,
  set, Cpu, memory_of, flags_word, call_isr_handler, sti, iretq, push_words, run,
}
use utero_archive.Asm.Cpu.Words.{Holds, AllWords, Holds-drop, onto, values, popping, run-halted}
use utero_archive.Asm.Interrupt.{
  pushes_error_code, pushes, pops, isr_common_stub, isr, frame, frame_base, on_exception,
}
use utero_archive.Asm.Interrupt.Entry.{
  saved, restored, IsCpu, handed, handed-Saved, stub-handed, tail, run-call,
}
use utero_archive.Asm.Interrupt.Line.{frame-AllWords, calls_isr}
use utero_archive.Asm.Interrupt.Fault.{AllWords-snoc, pushed, pushed-AllWords, entered-pushed}

abbrev pub five : ℕ → ℕ → ℕ → ℕ → ℕ → List Arg
five w0 w1 w2 w3 w4 = word w0 ∷ word w1 ∷ word w2 ∷ word w3 ∷ word w4 ∷ []

stack_words_lem :
    (mem : Memory) (a w0 w1 w2 w3 w4 : ℕ) (rest : List ℕ)
    → Holds mem a (w0 ∷ w1 ∷ w2 ∷ w3 ∷ w4 ∷ rest)
    → stack_words mem a ≡ five w0 w1 w2 w3 w4
unfolding stack_words
stack_words_lem mem a w0 w1 w2 w3 w4 rest (e0, (e1, (e2, (e3, (e4, h))))) =
    let a2 : a + 16 ≡ a + 8 + 8 = omega arith in
    let a3 : a + 24 ≡ a + 8 + 8 + 8 = omega arith in
    let a4 : a + 32 ≡ a + 8 + 8 + 8 + 8 = omega arith in rw (a2, a3, a4, e0, e1, e2, e3, e4) refl

handed-stack_words :
    (words pre rest : List ℕ) (w0 w1 w2 w3 w4 id a : ℕ) (c : Cpu)
    → length words ≤ 6
    → AllWords words
    → id < 2 ^ 64
    → IsCpu c
    → onto words [] ≡ pre ++ (w0 ∷ w1 ∷ w2 ∷ w3 ∷ w4 ∷ rest)
    → a ≡ (handed words id c).rsp + 120 + 8 * length pre
    → stack_words (memory_of (handed words id c).kernel) a ≡ five w0 w1 w2 w3 w4
handed-stack_words words pre rest w0 w1 w2 w3 w4 id a c few all low ok split at =
    let h = handed-Saved words id c few all low ok in
    let vals = onto (values saved (set rdi id c.registers)) [] in
    let sp = frame_base c - 8 * length words - 120 in
    let at_sp : (handed words id c).rsp ≡ sp = ap (λ s. s.rsp) h.shape in
    let mem_same : memory_of (handed words id c).kernel ≡ h.mem =
      ap (λ s. memory_of s.kernel) h.shape in
    let found =
      Holds-drop h.mem pre (w0 ∷ w1 ∷ w2 ∷ w3 ∷ w4 ∷ rest) (sp + 120)
        (subst (Holds h.mem (sp + 120)) split (Holds-drop h.mem vals (onto words []) sp h.holds)) in
    ap₂ stack_words mem_same (at ∙ ap (λ x. x + 120 + 8 * length pre) at_sp)
    ∙ stack_words_lem h.mem (sp + 120 + 8 * length pre) w0 w1 w2 w3 w4 rest found

-- The exceptions whose error code the program does not skip.
abbrev pub is_unskipped : ℕ → Bool
is_unskipped id = id == 21 || id == 29 || id == 30

pushes_error_code_cases :
    (id : ℕ)
    → ((has_error_code id ≡ true) × (pushes_error_code id ≡ true) × (is_unskipped id ≡ false))
      ⊎ (((has_error_code id ≡ false) × (pushes_error_code id ≡ true) × (is_unskipped id ≡ true))
          ⊎ ((has_error_code id ≡ false)
              × (pushes_error_code id ≡ false)
              × (is_unskipped id ≡ false)))
unfolding has_error_code pushes_error_code
pushes_error_code_cases id = ground arith

-- On a processor that pushes an error code for the exceptions 8, 10 to 14, 17, 21, 29 and 30, the
-- five words that the handler of an exception is handed are the address, code segment, flags, stack
-- and stack segment of the interrupted place, whether or not there is an error code, except at 21,
-- 29 and 30, where they are the error code and the first four of these.
pub stack_words-frame :
    (id code : ℕ) (c : Cpu)
    → id < 32
    → code < 2 ^ 64
    → IsCpu c
    → stack_words
        (memory_of (handed (pushed id code c) id c).kernel)
        (get_stack id (handed (pushed id code c) id c).rsp)
      ≡ (if is_unskipped id
          then five code c.rip c.cs (flags_word c) c.rsp
          else five c.rip c.cs (flags_word c) c.rsp c.ss)
unfolding get_stack
stack_words-frame id code c low small ok =
    let all = frame-AllWords c ok in
    let coded_words = frame c ++ (code ∷ []) in
    let coded_all = AllWords-snoc (frame c) code small all in
    let coded_at =
      ap (λ s. s.rsp)
        (handed-Saved coded_words id c (omega arith) coded_all (omega arith) ok).shape in
    let plain_at =
      ap (λ s. s.rsp) (handed-Saved (frame c) id c (omega arith) all (omega arith) ok).shape in
    elim (pushes_error_code_cases id) [
      | inl (skipped, coded, known) ↦
          rw (skipped, coded, known)
            (handed-stack_words coded_words (code ∷ []) [] c.rip c.cs (flags_word c) c.rsp c.ss id _
              c (omega arith) coded_all (omega arith) ok refl (omega (arith, coded_at, ok.rsp)))
      | inr (inl (kept, coded, unknown)) ↦
          rw (kept, coded, unknown)
            (handed-stack_words coded_words [] (c.ss ∷ []) code c.rip c.cs (flags_word c) c.rsp id _
              c (omega arith) coded_all (omega arith) ok refl (omega (arith, coded_at, ok.rsp)))
      | inr (inr (kept, plain, known)) ↦
          rw (kept, plain, known)
            (handed-stack_words (frame c) [] [] c.rip c.cs (flags_word c) c.rsp c.ss id _ c
              (omega arith) all (omega arith) ok refl (omega (arith, plain_at, ok.rsp)))
    ]

-- The registers that are restored behind the first.
abbrev others : List Register
others = r14 ∷ r13 ∷ r12 ∷ r11 ∷ r10 ∷ r9 ∷ r8 ∷ rbp ∷ rdi ∷ rsi ∷ rdx ∷ rcx ∷ rbx ∷ rax ∷ []

module _ (b : Build) (scratch : Registers → Registers) where
  -- The kernel behind an exception that stopped it, and the processor, which executes no more.
  pub record Stopped (id code : ℕ) (c : Cpu) : Type 0 where
    pub after : Kernel
    pub returns :
        exception b id (handed (pushed id code c) id c).rsp (handed (pushed id code c) id c).kernel
        ≡ some (tt, after)
    pub stops :
        on_exception b scratch id code c
        ≡ some (record (handed (pushed id code c) id c) {
          registers = scratch (
              set rsi
                (handed (pushed id code c) id c).rsp
                (handed (pushed id code c) id c).registers);
          kernel = after;
        })
    pub halted : after.halted ≡ true
    pub disabled : after.interrupts_enabled ≡ false

  run-stopped :
      (words : List ℕ) (id : ℕ) (c : Cpu) (k : Kernel)
      → length words ≤ 6
      → AllWords words
      → id < 2 ^ 64
      → IsCpu c
      → c.kernel.halted ≡ false
      → k.halted ≡ true
      → exception b id (handed words id c).rsp (handed words id c).kernel ≡ some (tt, k)
      → run b scratch (isr id) (push_words words (record c { rsp = frame_base c }))
        ≡ some (record (handed words id c) {
          registers = scratch (set rsi (handed words id c).rsp (handed words id c).registers);
          kernel = k;
        })
  unfolding isr isr_common_stub pushes pops run
  run-stopped words id c k few all low ok alive stopped e =
      let h = handed-Saved words id c few all low ok in
      let c1 = handed words id c in
      let code = popping restored (sti ∷ iretq ∷ []) in
      let same : c1.registers.rdi ≡ id = ap (λ s. s.registers.rdi) h.shape in
      stub-handed b scratch (tail b scratch call_isr_handler (exception b) (calls_isr b scratch))
        words id c alive
      ∙ run-call b scratch call_isr_handler (exception b) (calls_isr b scratch) code c1 k
          (ap (λ s. s.kernel.halted) h.shape ∙ alive)
          (ap (λ r. exception b r c1.rsp c1.kernel) same ∙ e)
      ∙ run-halted b scratch (pop r15) (popping others (sti ∷ iretq ∷ []))
          (record c1 { registers = scratch (set rsi c1.rsp c1.registers); kernel = k }) stopped

  -- An exception without a handler, with an error code or not, on an enabled or a disabled processor.
  pub on_exception-Stopped :
      (id code : ℕ) (c : Cpu)
      → id < 32
      → code < 2 ^ 64
      → IsCpu c
      → c.kernel.halted ≡ false
      → c.kernel.interrupt_handlers id ≡ none
      → c.kernel.screen.screen_col < screen_width
      → IsLocation b.isr_panic
      → Stopped id code c
  unfolding on_exception
  on_exception-Stopped id code c low small ok alive unset col loc =
      let (few, all) = pushed-AllWords id code c small ok in
      let words = pushed id code c in
      let shape = (handed-Saved words id c few all (omega arith) ok).shape in
      let c1 = handed words id c in
      let h =
        exception-Halted b id c1.rsp c1.kernel low
          (ap (λ s. s.kernel.interrupt_handlers id) shape ∙ unset) loc
          (rw (ap (λ s. s.kernel.screen.screen_col) shape) col) in
      let k = record (c1.kernel) { screen = h.screen; interrupts_enabled = false; halted = true } in
      record {
        after = k;
        returns = h.returns;
        stops =
            ap (run b scratch (isr id)) (entered-pushed id code c)
            ∙ run-stopped words id c k few all (omega arith) ok alive refl h.returns;
        halted = refl;
        disabled = refl;
      }
