-- ===== src/Asm/Cpu/Words.antt =====
-- What the words of a stack hold, and how pushing and popping moves them.
use utero_archive.Base.{
  ℕ, suc, ◌+◌, ◌-◌, ◌*◌, ◌%◌, ◌^◌, ◌≤◌, ◌<◌, ◌≡◌, inl, inr, refl, sym, ap, ◌∙◌, arith, Bool, true,
  false, some, none, List, [], ◌∷◌, ◌++◌, length, u64,
}
use utero_archive.Base.Memory.{Memory, load, store, load-store, store_outside, load_cong}
use native.Mathlib.Nat.{mod-eq_of_lt}
use utero_archive.Kernel.State.{Build}
use utero_archive.Asm.Cpu.{
  Registers, Register, get, set, Cpu, memory_of, stacked, push_word, push_words, Instruction, push,
  pop, step, run,
}

-- The words from an address on.
abbrev pub Holds : Memory → ℕ → List ℕ → Type 0
Holds mem a [] = Unit {0}
Holds mem a (v ∷ vs) = (load 8 mem a ≡ v) × Holds mem (a + 8) vs

abbrev pub AllWords : List ℕ → Type 0
AllWords [] = Unit {0}
AllWords (v ∷ vs) = (v < 2 ^ 64) × AllWords vs

-- Two memories that agree from `a` to below `z`.
abbrev pub SameIn : ℕ → ℕ → Memory → Memory → Type 0
SameIn a z mem mem' = (x : ℕ) → a ≤ x → x < z → mem' x ≡ mem x

pub Holds-SameIn :
    (a z : ℕ) (mem mem' : Memory) (vs : List ℕ)
    → SameIn a z mem mem'
    → a + 8 * length vs ≤ z
    → Holds mem a vs
    → Holds mem' a vs
Holds-SameIn a z mem mem' [] same fits h = tt
Holds-SameIn a z mem mem' (v ∷ vs) same fits (e, h) = (
  load_cong 8 mem' mem a (λ x lo hi. same x lo (omega arith)) ∙ e,
  Holds-SameIn (a + 8) z mem mem' vs (λ x lo hi. same x (omega arith) hi) (omega arith) h,
)

pub Holds-drop :
    (mem : Memory) (ws vs : List ℕ) (a : ℕ)
    → Holds mem a (ws ++ vs)
    → Holds mem (a + 8 * length ws) vs
Holds-drop mem [] vs a h = let same : a + 8 * 0 ≡ a = omega arith in rw same h
Holds-drop mem (w ∷ ws) vs a (e, h) =
    let same : a + 8 + 8 * length ws ≡ a + 8 * suc (length ws) = omega arith in
    rw (sym same) (Holds-drop mem ws vs (a + 8) h)

-- The stack behind pushes of `vs` onto `below`, the last word lowest.
abbrev pub onto : List ℕ → List ℕ → List ℕ
onto [] below = below
onto (v ∷ vs) below = onto vs (v ∷ below)

pub record Pushed (c : Cpu) (vs below : List ℕ) (result : Cpu) : Type 0 where
  pub mem : Memory
  pub shape : result ≡ stacked (c.rsp - 8 * length vs) mem c
  pub holds : Holds mem (c.rsp - 8 * length vs) (onto vs below)
  pub above : (x : ℕ) → c.rsp ≤ x → mem x ≡ memory_of c.kernel x
  pub under : (x : ℕ) → x < c.rsp - 8 * length vs → mem x ≡ memory_of c.kernel x

pub push_words-Pushed :
    (vs below : List ℕ) (c : Cpu)
    → 8 * length vs ≤ c.rsp
    → c.rsp < 2 ^ 64
    → AllWords vs
    → Holds (memory_of c.kernel) c.rsp below
    → Pushed c vs below (push_words vs c)
unfolding push_words push_word
push_words-Pushed [] below c room small words h =
    let mem = memory_of c.kernel in
    let same : c.rsp - 8 * 0 ≡ c.rsp = omega arith in
    record {
      mem = mem;
      shape = ap (λ sp. stacked sp mem c) (sym same);
      holds = rw same h;
      above = λ x lo. refl;
      under = λ x hi. refl;
    }
push_words-Pushed (v ∷ vs) below c room small (word, words) h =
    let mem = memory_of c.kernel in
    let sp = c.rsp - 8 in
    let down : u64 (c.rsp + 2 ^ 64 - 8) ≡ sp = omega arith in
    let up : sp + 8 ≡ c.rsp = omega arith in
    let mem' = store 8 mem sp v in
    let fits : v % 256 ^ 8 ≡ v = mod-eq_of_lt word in
    let kept : Holds mem' c.rsp below =
      Holds-SameIn c.rsp (c.rsp + 8 * length below) mem mem' below
        (λ x lo hi. store_outside 8 mem sp v x (inr (omega arith))) (omega arith) h in
    let p =
      push_words-Pushed vs (v ∷ below) (stacked sp mem' c) (omega arith) (omega arith) words
        (load-store 8 mem sp v ∙ fits, rw up kept) in
    let deep : c.rsp - 8 * suc (length vs) ≡ sp - 8 * length vs = omega arith in
    rw down (record {
      mem = p.mem;
      shape = p.shape ∙ ap (λ t. stacked t p.mem c) (sym deep);
      holds = rw deep p.holds;
      above = λ x lo. p.above x (omega arith) ∙ store_outside 8 mem sp v x (inr (omega arith));
      under = λ x hi. p.under x (omega arith) ∙ store_outside 8 mem sp v x (inl (omega arith));
    })

pub push_words-halted : (vs : List ℕ) (c : Cpu) → (push_words vs c).kernel.halted ≡ c.kernel.halted
unfolding push_words push_word
push_words-halted [] c = refl
push_words-halted (v ∷ vs) c = push_words-halted vs (push_word v c)

-- The instructions that push registers push their values.
abbrev pub values : List Register → Registers → List ℕ
values [] r = []
values (x ∷ xs) r = get x r ∷ values xs r

abbrev pub pushing : List Register → List Instruction → List Instruction
pushing [] code = code
pushing (x ∷ xs) code = push x ∷ pushing xs code

abbrev pub popping : List Register → List Instruction → List Instruction
popping [] code = code
popping (x ∷ xs) code = pop x ∷ popping xs code

-- The registers with the words of a stack put into some of them.
abbrev pub fill : List Register → List ℕ → Registers → Registers
fill [] vs r = r
fill (x ∷ xs) [] r = r
fill (x ∷ xs) (v ∷ vs) r = fill xs vs (set x v r)

module _ (b : Build) (scratch : Registers → Registers) where
  pub run-alive :
      (i : Instruction) (code : List Instruction) (c : Cpu)
      → c.kernel.halted ≡ false
      → run b scratch (i ∷ code) c
        ≡ elim (step b scratch i c) [ none ↦ none | some c' ↦ run b scratch code c' ]
  unfolding run
  run-alive i code c alive =
      ap
        (λ (h : Bool). elim h [
          | true ↦ some c
          | false ↦ elim (step b scratch i c) [ none ↦ none | some c' ↦ run b scratch code c' ]
        ])
        alive

  pub run-halted :
      (i : Instruction) (code : List Instruction) (c : Cpu)
      → c.kernel.halted ≡ true
      → run b scratch (i ∷ code) c ≡ some c
  unfolding run
  run-halted i code c halted =
      ap
        (λ (h : Bool). elim h [
          | true ↦ some c
          | false ↦ elim (step b scratch i c) [ none ↦ none | some c' ↦ run b scratch code c' ]
        ])
        halted

  pub run-pushing :
      (xs : List Register) (code : List Instruction) (c : Cpu)
      → c.kernel.halted ≡ false
      → run b scratch (pushing xs code) c
        ≡ run b scratch code (push_words (values xs c.registers) c)
  unfolding run step push_words push_word
  run-pushing [] code c alive = refl
  run-pushing (x ∷ xs) code c alive =
      run-alive (push x) (pushing xs code) c alive
      ∙ run-pushing xs code (push_word (get x c.registers) c) alive

  pub run-popping :
      (xs : List Register) (vs rest : List ℕ) (code : List Instruction) (c : Cpu)
      → c.kernel.halted ≡ false
      → length xs ≡ length vs
      → c.rsp + 8 * length vs < 2 ^ 64
      → Holds (memory_of c.kernel) c.rsp (vs ++ rest)
      → run b scratch (popping xs code) c
        ≡ run b scratch code
            (record c { registers = fill xs vs c.registers; rsp = c.rsp + 8 * length vs })
  unfolding run step
  run-popping [] [] rest code c alive same room h =
      ap (λ sp. run b scratch code (record c { rsp = sp })) (omega arith)
  run-popping [] (v ∷ vs) rest code c alive same room h = absurd (omega arith)
  run-popping (x ∷ xs) [] rest code c alive same room h = absurd (omega arith)
  run-popping (x ∷ xs) (v ∷ vs) rest code c alive same room (e, h) =
      let up : u64 (c.rsp + 8) ≡ c.rsp + 8 = omega arith in
      let c' = record c { registers = set x v c.registers; rsp = c.rsp + 8 } in
      let all : c.rsp + 8 + 8 * length vs ≡ c.rsp + 8 * suc (length vs) = omega arith in
      run-alive (pop x) (popping xs code) c alive
      ∙ rw (e, up)
          (run-popping xs vs rest code c' alive (omega arith) (omega arith) h
            ∙ ap
                (λ sp.
                  run b scratch code
                    (record c { registers = fill xs vs (set x v c.registers); rsp = sp }))
                all)
