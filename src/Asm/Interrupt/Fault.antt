-- ===== src/Asm/Interrupt/Fault.antt =====
-- The stub of an exception: with and without an error code, and when it stops the kernel.
use utero_archive.Base.{
  ℕ, ◌^◌, ◌≤◌, ◌<◌, ◌≡◌, inl, inr, refl, ap, ◌∙◌, arith, false, if◌then◌else◌, some, List, [], ◌∷◌,
  ◌++◌, length, Bool-cases,
}
use utero_archive.Kernel.State.{Build, Kernel}
use utero_archive.Kernel.Dispatch.{exception}
use utero_archive.Asm.Cpu.{
  Registers, rdi, set, Cpu, with_enabled, flags_word, call_isr_handler, push_words, run,
}
use utero_archive.Asm.Cpu.Words.{AllWords}
use utero_archive.Asm.Interrupt.{
  pushes_error_code, pushes, pops, isr_common_stub, isr, frame, frame_base, interrupted, faulted,
  on_exception,
}
use utero_archive.Asm.Interrupt.Entry.{IsCpu, handed}
use utero_archive.Asm.Interrupt.Return.{resumed, Kept, stub-returned}
use utero_archive.Asm.Interrupt.Line.{frame-AllWords, resumed-frame, calls_isr}

-- The words that the processor pushes for an exception.
abbrev pub pushed : ℕ → ℕ → Cpu → List ℕ
pushed id code c = if pushes_error_code id then frame c ++ (code ∷ []) else frame c

pub AllWords-snoc : (ws : List ℕ) (v : ℕ) → v < 2 ^ 64 → AllWords ws → AllWords (ws ++ (v ∷ []))
AllWords-snoc [] v small all = (small, tt)
AllWords-snoc (w ∷ ws) v small (first, words) = (first, AllWords-snoc ws v small words)

pub pushed-AllWords :
    (id code : ℕ) (c : Cpu)
    → code < 2 ^ 64
    → IsCpu c
    → (length (pushed id code c) ≤ 6) × AllWords (pushed id code c)
pushed-AllWords id code c small ok =
    let all = frame-AllWords c ok in
    elim (Bool-cases (pushes_error_code id)) [
      | inl coded ↦ rw coded (omega arith, AllWords-snoc (frame c) code small all)
      | inr plain ↦ rw plain (omega arith, all)
    ]

pub entered-pushed :
    (id code : ℕ) (c : Cpu)
    → (if pushes_error_code id then faulted code c else interrupted c)
      ≡ push_words (pushed id code c) (record c { rsp = frame_base c })
unfolding faulted interrupted
entered-pushed id code c = elim (Bool-cases (pushes_error_code id)) [
  | inl coded ↦ rw coded refl
  | inr plain ↦ rw plain refl
]

module _ (b : Build) (scratch : Registers → Registers) where
  -- Where the handler of an exception returns a kernel that is not halted and leaves the pushed
  -- words alone, an exception without an error code resumes the interrupted code with all but rdi,
  -- and one with an error code takes the error code for the address to go on at, that address for
  -- the code segment, the segment for the flags, the flags for the stack and the stack for its
  -- segment.
  pub on_exception-resumed :
      (id code : ℕ) (c : Cpu) (k : Kernel)
      → id < 32
      → code < 2 ^ 64
      → IsCpu c
      → c.kernel.halted ≡ false
      → k.halted ≡ false
      → exception b id (handed (pushed id code c) id c).rsp (handed (pushed id code c) id c).kernel
        ≡ some (tt, k)
      → Kept (pushed id code c) id c k
      → on_exception b scratch id code c
        ≡ some (
            if pushes_error_code id
            then resumed (set rdi id c.registers) code c.rip c.cs (flags_word c) c.rsp k
            else record c {
              registers = set rdi id c.registers;
              kernel = with_enabled c.kernel.interrupts_enabled k;
            })
  unfolding on_exception isr isr_common_stub pushes pops
  on_exception-resumed id code c k low small ok alive going e kept =
      let (few, all) = pushed-AllWords id code c small ok in
      let words = pushed id code c in
      let f = exception b in
      let calls = calls_isr b scratch in
      ap (run b scratch (isr id)) (entered-pushed id code c)
      ∙ elim (Bool-cases (pushes_error_code id)) [
        | inl coded ↦
            stub-returned b scratch call_isr_handler f calls words (c.ss ∷ []) code c.rip c.cs
              (flags_word c) c.rsp id c k few (rw coded refl) all (omega arith) ok alive going e
              kept
            ∙ rw coded refl
        | inr plain ↦
            stub-returned b scratch call_isr_handler f calls words [] c.rip c.cs (flags_word c)
              c.rsp c.ss id c k few (rw plain refl) all (omega arith) ok alive going e kept
            ∙ ap some (resumed-frame c ok (set rdi id c.registers) k)
            ∙ rw plain refl
      ]
