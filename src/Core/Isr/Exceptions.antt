-- ===== src/Core/Isr/Exceptions.antt =====
-- What the exceptions print (src/core/isr.c): the breakpoint's handler, and the text of a panic.
-- The fields of a `stack_t` are words in memory.
use utero_archive.Base.{ℕ, ◌+◌, Option, List, [], ◌∷◌, get_or}
use utero_archive.Base.Memory.{Memory, load}
use utero_archive.Base.Text.{codes}
use utero_archive.Drivers.Screen.{Screen}
use utero_archive.Libk.Printfk.{Arg, word, text, printfk}

unfoldable pub exception_messages : List (List ℕ)
exception_messages =
    codes "Division By Zero"
    ∷ codes "Debug"
    ∷ codes "Non Maskable Interrupt"
    ∷ codes "Breakpoint"
    ∷ codes "Into Detected Overflow"
    ∷ codes "Out of Bounds"
    ∷ codes "Invalid Opcode"
    ∷ codes "No Coprocessor"
    ∷ codes "Double Fault"
    ∷ codes "Coprocessor Segment Overrun"
    ∷ codes "Bad TSS"
    ∷ codes "Segment Not Present"
    ∷ codes "Stack Fault"
    ∷ codes "General Protection Fault"
    ∷ codes "Page Fault"
    ∷ codes "Unknown Interrupt"
    ∷ codes "Coprocessor Fault"
    ∷ codes "Alignment Check"
    ∷ codes "Machine Check"
    ∷ codes "Reserved"
    ∷ codes "Reserved"
    ∷ codes "Reserved"
    ∷ codes "Reserved"
    ∷ codes "Reserved"
    ∷ codes "Reserved"
    ∷ codes "Reserved"
    ∷ codes "Reserved"
    ∷ codes "Reserved"
    ∷ codes "Reserved"
    ∷ codes "Reserved"
    ∷ codes "Reserved"
    ∷ codes "Reserved"
    ∷ []

-- The words of a `stack_t`, in order.
unfoldable pub stack_words : Memory → ℕ → List Arg
stack_words mem stack =
    word (load 8 mem stack)
    ∷ word (load 8 mem (stack + 8))
    ∷ word (load 8 mem (stack + 16))
    ∷ word (load 8 mem (stack + 24))
    ∷ word (load 8 mem (stack + 32))
    ∷ []

unfoldable pub breakpoint_format : List ℕ
breakpoint_format =
    codes
      "Exception: BREAKPOINT\n  instruction_pointer = 0x%X\n  code_segment        = 0x%X\n  cpu_flags           = 0x%X\n  stack_pointer       = 0x%X\n  stack_segment       = 0x%X\n"

unfoldable pub breakpoint_handler : ℕ → ℕ → Screen → Option Screen
breakpoint_handler waits stack s =
    printfk waits breakpoint_format (stack_words s.hardware.memory stack) s

unfoldable pub panic_format : List ℕ
panic_format =
    codes
      "Received interrupt: %d - %s\n\n  instruction_pointer = 0x%X\n  code_segment        = 0x%X\n  cpu_flags           = 0x%X\n  stack_pointer       = 0x%X\n  stack_segment       = 0x%X"

unfoldable pub panic_args : Memory → ℕ → ℕ → List Arg
panic_args mem id stack = word id ∷ text (get_or exception_messages id []) ∷ stack_words mem stack
