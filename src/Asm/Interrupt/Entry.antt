-- ===== src/Asm/Interrupt/Entry.antt =====
-- From the interrupted code to the C function and back.
use utero_archive.Base.{
  ℕ, ◌+◌, ◌-◌, ◌*◌, ◌/◌, ◌%◌, ◌^◌, ◌≤◌, ◌<◌, ◌≡◌, refl, ap, ◌∙◌, arith, true, false, ◌==◌,
  if◌then◌else◌, Option, some, none, List, [], ◌∷◌, length, u64,
}
use utero_archive.Base.Memory.{Memory}
use utero_archive.Kernel.State.{Build, Kernel, Step}
use utero_archive.Asm.Cpu.{
  Registers, Register, rax, rbx, rcx, rdx, rsi, rdi, rbp, r8, r9, r10, r11, r12, r13, r14, r15, set,
  Cpu, memory_of, with_memory, with_enabled, push_words, Instruction, cli, sti, iretq, mov, mov_rsp,
  interrupt_flag, called, return_from_interrupt, step, run,
}
use utero_archive.Asm.Cpu.Words.{
  Holds, AllWords, Holds-drop, onto, push_words-Pushed, push_words-halted, values, pushing, popping,
  run-alive, run-pushing, run-popping,
}
use utero_archive.Asm.Interrupt.{frame_base}

-- The registers in the order of the stub's pushes, and of its pops.
abbrev pub saved : List Register
saved = rax ∷ rbx ∷ rcx ∷ rdx ∷ rsi ∷ rdi ∷ rbp ∷ r8 ∷ r9 ∷ r10 ∷ r11 ∷ r12 ∷ r13 ∷ r14 ∷ r15 ∷ []

abbrev pub restored : List Register
restored =
    r15 ∷ r14 ∷ r13 ∷ r12 ∷ r11 ∷ r10 ∷ r9 ∷ r8 ∷ rbp ∷ rdi ∷ rsi ∷ rdx ∷ rcx ∷ rbx ∷ rax ∷ []

abbrev pub AllSmall : Registers → Type 0
AllSmall r = AllWords (values saved r)

-- A processor whose registers are 64 bits wide, with room on its stack.
pub record IsCpu (c : Cpu) : Type 0 where
  pub registers : AllSmall c.registers
  pub rip : c.rip < 2 ^ 64
  pub cs : c.cs < 2 ^ 64
  pub rflags : c.rflags < 2 ^ 63
  pub flag_apart : c.rflags / interrupt_flag % 2 ≡ 0
  pub rsp : c.rsp < 2 ^ 64
  pub ss : c.ss < 2 ^ 64
  pub room : 168 ≤ frame_base c

-- The state behind the processor's pushes and the stub's, in which the C function is called.
unfoldable pub handed : List ℕ → ℕ → Cpu → Cpu
handed words id c =
    let entered = push_words words (record c { rsp = frame_base c }) in
    push_words (values saved (set rdi id entered.registers)) (record entered {
      registers = set rdi id entered.registers;
      kernel = with_enabled false entered.kernel;
    })

return_from_interrupt_lem :
    (c : Cpu) (w0 w1 w2 w3 w4 : ℕ) (rest : List ℕ)
    → c.rsp + 40 ≤ 2 ^ 64
    → Holds (memory_of c.kernel) c.rsp (w0 ∷ w1 ∷ w2 ∷ w3 ∷ w4 ∷ rest)
    → return_from_interrupt c ≡ (
        let on = w2 / interrupt_flag % 2 == 1 in
        record c {
          rip = w0;
          cs = w1;
          rflags = w2 - (if on then interrupt_flag else 0);
          rsp = w3;
          ss = w4;
          kernel = with_enabled on c.kernel;
        })
unfolding return_from_interrupt
return_from_interrupt_lem c w0 w1 w2 w3 w4 rest room (e0, (e1, (e2, (e3, (e4, h))))) =
    let a0 : u64 (c.rsp + 8 * 0) ≡ c.rsp = omega arith in
    let a1 : u64 (c.rsp + 8 * 1) ≡ c.rsp + 8 = omega arith in
    let a2 : u64 (c.rsp + 8 * 2) ≡ c.rsp + 8 + 8 = omega arith in
    let a3 : u64 (c.rsp + 8 * 3) ≡ c.rsp + 8 + 8 + 8 = omega arith in
    let a4 : u64 (c.rsp + 8 * 4) ≡ c.rsp + 8 + 8 + 8 + 8 = omega arith in
    rw (a0, a1, a2, a3, a4, e0, e1, e2, e3, e4) refl

set-AllSmall : (id : ℕ) (r : Registers) → id < 2 ^ 64 → AllSmall r → AllSmall (set rdi id r)
set-AllSmall id r low (a, (b, (c, (d, (e, (f, more)))))) = (a, (b, (c, (d, (e, (low, more))))))

-- Where the C function finds the stack: the registers, and the words that the processor pushed.
pub record Saved (words : List ℕ) (id : ℕ) (c : Cpu) : Type 0 where
  pub mem : Memory
  pub shape : handed words id c ≡ record c {
    registers = set rdi id c.registers;
    rsp = frame_base c - 8 * length words - 120;
    kernel = with_memory mem (with_enabled false c.kernel);
  }
  pub holds :
      Holds mem
        (frame_base c - 8 * length words - 120)
        (onto (values saved (set rdi id c.registers)) (onto words []))
  pub above : (x : ℕ) → frame_base c ≤ x → mem x ≡ memory_of c.kernel x
  pub under : (x : ℕ) → x < frame_base c - 8 * length words - 120 → mem x ≡ memory_of c.kernel x

pub handed-Saved :
    (words : List ℕ) (id : ℕ) (c : Cpu)
    → length words ≤ 6
    → AllWords words
    → id < 2 ^ 64
    → IsCpu c
    → Saved words id c
unfolding handed
handed-Saved words id c few all low ok =
    let regs = set rdi id c.registers in
    let vals = values saved regs in
    let sp1 = frame_base c - 8 * length words in
    let p =
      push_words-Pushed words [] (record c { rsp = frame_base c }) (omega (arith, ok.room))
        (omega (arith, ok.rsp)) all tt in
    let c2 : Cpu = record c {
      registers = regs;
      rsp = sp1;
      kernel = with_memory p.mem (with_enabled false c.kernel);
    } in
    let q =
      push_words-Pushed vals (onto words []) c2 (omega (arith, ok.room)) (omega (arith, ok.rsp))
        (set-AllSmall id c.registers low ok.registers) p.holds in
    record {
      mem = q.mem;
      shape =
          ap
            (λ (s : Cpu). push_words (values saved (set rdi id s.registers)) (record s {
              registers = set rdi id s.registers;
              kernel = with_enabled false s.kernel;
            }))
            p.shape
          ∙ q.shape;
      holds = q.holds;
      above = λ x lo. q.above x (omega arith) ∙ p.above x lo;
      under = λ x hi. q.under x hi ∙ p.under x (omega arith);
    }

module _ (b : Build) (scratch : Registers → Registers) where
  run-cli-mov :
      (n : ℕ) (code : List Instruction) (c : Cpu)
      → c.kernel.halted ≡ false
      → run b scratch (cli ∷ mov rdi n ∷ code) c
        ≡ run b scratch code
            (record c { registers = set rdi n c.registers; kernel = with_enabled false c.kernel })
  unfolding step
  run-cli-mov n code c alive =
      run-alive b scratch cli (mov rdi n ∷ code) c alive
      ∙ run-alive b scratch (mov rdi n) code (record c { kernel = with_enabled false c.kernel })
          alive

  -- The stub up to the call.
  pub stub-handed :
      (code : List Instruction) (words : List ℕ) (id : ℕ) (c : Cpu)
      → c.kernel.halted ≡ false
      → run b scratch
          (cli ∷ mov rdi id ∷ pushing saved code)
          (push_words words (record c { rsp = frame_base c }))
        ≡ run b scratch code (handed words id c)
  unfolding handed
  stub-handed code words id c alive =
      let entered = push_words words (record c { rsp = frame_base c }) in
      let entered_alive = push_words-halted words (record c { rsp = frame_base c }) ∙ alive in
      run-cli-mov id (pushing saved code) entered entered_alive
      ∙ run-pushing b scratch saved code
          (record entered {
            registers = set rdi id entered.registers;
            kernel = with_enabled false entered.kernel;
          })
          entered_alive

  module _ (call : Instruction) (f : ℕ → ℕ → Step (Unit {0}))
      (calls : (c : Cpu)
        → step b scratch call c
          ≡ called scratch c (f c.registers.rdi c.registers.rsi c.kernel)) where
    abbrev pub tail : List Instruction
    tail = mov_rsp rsi ∷ call ∷ popping restored (sti ∷ iretq ∷ [])

    pub run-call :
        (code : List Instruction) (c : Cpu) (k : Kernel)
        → c.kernel.halted ≡ false
        → f c.registers.rdi c.rsp c.kernel ≡ some (tt, k)
        → run b scratch (mov_rsp rsi ∷ call ∷ code) c
          ≡ run b scratch code
              (record c { registers = scratch (set rsi c.rsp c.registers); kernel = k })
    unfolding step
    run-call code c k alive e =
        let c1 : Cpu = record c { registers = set rsi c.rsp c.registers } in
        run-alive b scratch (mov_rsp rsi) (call ∷ code) c alive
        ∙ run-alive b scratch call code c1 alive
        ∙ ap (λ (s : Option Cpu). elim s [ none ↦ none | some c' ↦ run b scratch code c' ])
            (calls c1 ∙ ap (called scratch c1) e)

    run-sti-iretq :
        (c : Cpu)
        → c.kernel.halted ≡ false
        → run b scratch (sti ∷ iretq ∷ []) c
          ≡ some (return_from_interrupt (record c { kernel = with_enabled true c.kernel }))
    unfolding step run
    run-sti-iretq c alive =
        run-alive b scratch sti (iretq ∷ []) c alive
        ∙ run-alive b scratch iretq [] (record c { kernel = with_enabled true c.kernel }) alive

    -- The stub from the call on.
    pub run-tail :
        (c : Cpu) (r : Registers) (w0 w1 w2 w3 w4 : ℕ) (rest : List ℕ) (k : Kernel)
        → c.kernel.halted ≡ false
        → k.halted ≡ false
        → f c.registers.rdi c.rsp c.kernel ≡ some (tt, k)
        → Holds (memory_of k) c.rsp (onto (values saved r) (w0 ∷ w1 ∷ w2 ∷ w3 ∷ w4 ∷ rest))
        → c.rsp + 160 ≤ 2 ^ 64
        → run b scratch tail c
          ≡ some (
              let on = w2 / interrupt_flag % 2 == 1 in
              record c {
                registers = r;
                rip = w0;
                cs = w1;
                rflags = w2 - (if on then interrupt_flag else 0);
                rsp = w3;
                ss = w4;
                kernel = with_enabled on k;
              })
    run-tail c r w0 w1 w2 w3 w4 rest k alive going e h room =
        let vals = onto (values saved r) [] in
        let words = w0 ∷ w1 ∷ w2 ∷ w3 ∷ w4 ∷ rest in
        let c1 : Cpu = record c { registers = scratch (set rsi c.rsp c.registers); kernel = k } in
        let c2 : Cpu = record c { registers = r; rsp = c.rsp + 120; kernel = k } in
        run-call (popping restored (sti ∷ iretq ∷ [])) c k alive e
        ∙ run-popping b scratch restored vals words (sti ∷ iretq ∷ []) c1 going refl (omega arith) h
        ∙ run-sti-iretq c2 going
        ∙ ap some (
            return_from_interrupt_lem (record c2 { kernel = with_enabled true k }) w0 w1 w2 w3 w4
              rest (omega arith) (Holds-drop (memory_of k) vals words c.rsp h))
