-- ===== src/Asm/Interrupt/Return.antt =====
-- Behind the C function: where the stubs go back to.
use utero_archive.Base.{
  ℕ, suc, ◌+◌, ◌-◌, ◌*◌, ◌/◌, ◌%◌, ◌^◌, ◌≤◌, ◌<◌, ◌≡◌, sym, ap, ◌∙◌, subst, arith, false, ◌==◌,
  if◌then◌else◌, some, List, [], ◌∷◌, length,
}
use utero_archive.Kernel.State.{Build, Kernel, Step}
use utero_archive.Asm.Cpu.{
  Registers, rdi, set, Cpu, memory_of, with_enabled, push_words, Instruction, cli, mov,
  interrupt_flag, called, step, run,
}
use utero_archive.Asm.Cpu.Words.{Holds, AllWords, SameIn, Holds-SameIn, onto, values, pushing}
use utero_archive.Asm.Interrupt.{frame_base}
use utero_archive.Asm.Interrupt.Entry.{
  saved, IsCpu, handed, handed-Saved, stub-handed, tail, run-tail,
}

-- What iretq makes of five words.
abbrev pub resumed : Registers → ℕ → ℕ → ℕ → ℕ → ℕ → Kernel → Cpu
resumed r w0 w1 w2 w3 w4 k =
    let on = w2 / interrupt_flag % 2 == 1 in
    record {
      registers = r;
      rip = w0;
      cs = w1;
      rflags = w2 - (if on then interrupt_flag else 0);
      rsp = w3;
      ss = w4;
      kernel = with_enabled on k;
    }

-- A memory in which the words that were pushed below the interrupted stack are unchanged.
abbrev pub Kept : List ℕ → ℕ → Cpu → Kernel → Type 0
Kept words id c k =
    SameIn (handed words id c).rsp (frame_base c) (memory_of (handed words id c).kernel)
      (memory_of k)

handed-rsp :
    (words : List ℕ) (id : ℕ) (c : Cpu)
    → length words ≤ 6
    → AllWords words
    → id < 2 ^ 64
    → IsCpu c
    → (handed words id c).rsp ≡ frame_base c - 8 * length words - 120
handed-rsp words id c few all low ok =
    ap (λ s. s.rsp) (handed-Saved words id c few all low ok).shape

length-onto : (vs below : List ℕ) → length (onto vs below) ≡ length vs + length below
length-onto [] below = omega arith
length-onto (v ∷ vs) below = omega (arith, length-onto vs (v ∷ below))

module _ (b : Build) (scratch : Registers → Registers) (call : Instruction)
    (f : ℕ → ℕ → Step (Unit {0}))
    (calls : (c : Cpu)
      → step b scratch call c ≡ called scratch c (f c.registers.rdi c.registers.rsi c.kernel)) where
  pub stub-returned :
      (words rest : List ℕ) (w0 w1 w2 w3 w4 id : ℕ) (c : Cpu) (k : Kernel)
      → length words ≤ 6
      → onto words [] ≡ w0 ∷ w1 ∷ w2 ∷ w3 ∷ w4 ∷ rest
      → AllWords words
      → id < 2 ^ 64
      → IsCpu c
      → c.kernel.halted ≡ false
      → k.halted ≡ false
      → f id (handed words id c).rsp (handed words id c).kernel ≡ some (tt, k)
      → Kept words id c k
      → run b scratch
          (cli ∷ mov rdi id ∷ pushing saved (tail b scratch call f calls))
          (push_words words (record c { rsp = frame_base c }))
        ≡ some (resumed (set rdi id c.registers) w0 w1 w2 w3 w4 k)
  stub-returned words rest w0 w1 w2 w3 w4 id c k few split all low ok alive going e kept =
      let h = handed-Saved words id c few all low ok in
      let regs = set rdi id c.registers in
      let sp = frame_base c - 8 * length words - 120 in
      let at_sp : (handed words id c).rsp ≡ sp = ap (λ s. s.rsp) h.shape in
      let rdi_id : (handed words id c).registers.rdi ≡ id = ap (λ s. s.registers.rdi) h.shape in
      let mem_same : memory_of (handed words id c).kernel ≡ h.mem =
        ap (λ s. memory_of s.kernel) h.shape in
      let halted_same : (handed words id c).kernel.halted ≡ c.kernel.halted =
        ap (λ s. s.kernel.halted) h.shape in
      let stack : Holds h.mem sp (onto (values saved regs) (w0 ∷ w1 ∷ w2 ∷ w3 ∷ w4 ∷ rest)) =
        subst (λ ws. Holds h.mem sp (onto (values saved regs) ws)) split h.holds in
      let all_words = onto (values saved regs) (w0 ∷ w1 ∷ w2 ∷ w3 ∷ w4 ∷ rest) in
      let count = length-onto words [] in
      let count' : length (onto words []) ≡ suc (suc (suc (suc (suc (length rest))))) =
        ap length split in
      let before : Holds (memory_of (handed words id c).kernel) (handed words id c).rsp all_words =
        subst (λ m. Holds m (handed words id c).rsp all_words) (sym mem_same)
          (subst (λ a. Holds h.mem a all_words) (sym at_sp) stack) in
      let deep : Holds (memory_of k) (handed words id c).rsp all_words =
        Holds-SameIn (handed words id c).rsp (frame_base c) (memory_of (handed words id c).kernel)
          (memory_of k) all_words kept (omega (arith, at_sp, ok.room, count, count')) before in
      stub-handed b scratch (tail b scratch call f calls) words id c alive
      ∙ run-tail b scratch call f calls (handed words id c) regs w0 w1 w2 w3 w4 rest k
          (halted_same ∙ alive) going
          (ap (λ r. f r (handed words id c).rsp (handed words id c).kernel) rdi_id ∙ e) deep
          (omega (arith, at_sp, ok.room, ok.rsp))
