-- ===== src/Kernel/Debug/Tags.antt =====
-- The reading of the boot loader's information (src/core/boot.c) in the build with
-- ENABLE_KERNEL_DEBUG, which tells each tag, entry and section on the first serial port. The port
-- has no memory, so `mem` is that of the call throughout; `none` is also a text without an end
-- within the fuel.
use utero_archive.Base.{
  ℕ, zero, suc, ◌+◌, ◌-◌, ◌%◌, ◌^◌, ◌==◌, if◌then◌else◌, Option, some, none, List, [], ◌∷◌, ◌++◌,
  u64,
}
use utero_archive.Base.Memory.{Memory, load}
use utero_archive.Base.Text.{codes}
use utero_archive.Core.Boot.{tag_type, tag_size, section_type, section_addr, section_bytes}
use utero_archive.Libk.Printfk.{Arg, word, text}

abbrev pub tag_cmdline : ℕ
tag_cmdline = 1

abbrev pub tag_boot_loader_name : ℕ
tag_boot_loader_name = 2

abbrev pub tag_module : ℕ
tag_module = 3

abbrev pub tag_basic_meminfo : ℕ
tag_basic_meminfo = 4

abbrev pub tag_bootdev : ℕ
tag_bootdev = 5

abbrev pub tag_framebuffer : ℕ
tag_framebuffer = 8

abbrev pub tag_apm : ℕ
tag_apm = 10

abbrev pub tag_acpi_old : ℕ
tag_acpi_old = 14

abbrev pub tag_acpi_new : ℕ
tag_acpi_new = 15

abbrev pub tag_network : ℕ
tag_network = 16

abbrev pub tag_load_base_addr : ℕ
tag_load_base_addr = 21

abbrev pub tag_string : ℕ → ℕ
tag_string tag = tag + 8

abbrev pub module_start : Memory → ℕ → ℕ
module_start mem tag = load 4 mem (tag + 8)

abbrev pub module_end : Memory → ℕ → ℕ
module_end mem tag = load 4 mem (tag + 12)

abbrev pub module_cmdline : ℕ → ℕ
module_cmdline tag = tag + 16

abbrev pub mem_lower : Memory → ℕ → ℕ
mem_lower mem tag = load 4 mem (tag + 8)

abbrev pub mem_upper : Memory → ℕ → ℕ
mem_upper mem tag = load 4 mem (tag + 12)

abbrev pub bootdev_biosdev : Memory → ℕ → ℕ
bootdev_biosdev mem tag = load 4 mem (tag + 8)

abbrev pub bootdev_slice : Memory → ℕ → ℕ
bootdev_slice mem tag = load 4 mem (tag + 12)

abbrev pub bootdev_part : Memory → ℕ → ℕ
bootdev_part mem tag = load 4 mem (tag + 16)

-- The bytes of a string in memory, up to the terminator.
unfoldable pub string_at : ℕ → Memory → ℕ → Option (List ℕ)
string_at zero mem a = none
string_at (suc fuel) mem a =
    let rest = string_at fuel mem (a + 1) in
    if mem a % 256 == 0
    then some []
    else elim rest [ none ↦ none | some str ↦ some (mem a % 256 ∷ str) ]

-- A use of the macro: the line it starts at, its format and its arguments.
pub record Message : Type 0 where
  pub line : ℕ
  pub format : List ℕ
  pub args : List Arg

abbrev pub with_text : ℕ → List ℕ → List Arg → Option (List ℕ) → Option Message
with_text line format args none = none
with_text line format args (some str) =
    some (record { line = line; format = format; args = args ++ (text str ∷ []) })

abbrev pub told : ℕ → List ℕ → List Arg → Option Message
told line format args = some (record { line = line; format = format; args = args })

abbrev pub named : ℕ → List ℕ → Option Message
named line str = told line (codes "%s") (text str ∷ [])

-- The tags that are told in one message.
unfoldable pub tag_message : ℕ → Memory → ℕ → Option Message
tag_message fuel mem tag =
    let type = tag_type mem tag in
    if type == tag_cmdline
    then with_text 57 (codes "command line = %s") [] (string_at fuel mem (tag_string tag))
    else if type == tag_boot_loader_name
    then with_text 60 (codes "boot loader name = %s") [] (string_at fuel mem (tag_string tag))
    else if type == tag_module
    then with_text 63 (codes "module at 0x%x-0x%x. command line %s")
        (word (module_start mem tag) ∷ word (module_end mem tag) ∷ [])
        (string_at fuel mem (module_cmdline tag))
    else if type == tag_basic_meminfo
    then told 71 (codes "mem_lower = %dKB, mem_upper = %dKB")
        (word (mem_lower mem tag) ∷ word (mem_upper mem tag) ∷ [])
    else if type == tag_bootdev
    then told 78 (codes "boot device 0x%x,%u,%u") (
        word (bootdev_biosdev mem tag)
        ∷ word (bootdev_slice mem tag)
        ∷ word (bootdev_part mem tag)
        ∷ [])
    else if type == tag_framebuffer
    then named 103 (codes "framebuffer")
    else if type == tag_apm
    then named 106 (codes "apm")
    else if type == tag_acpi_old
    then named 109 (codes "acpi old")
    else if type == tag_acpi_new
    then named 112 (codes "acpi new")
    else if type == tag_network
    then named 151 (codes "network")
    else if type == tag_load_base_addr
    then named 154 (codes "load base addr")
    else told 158 (codes "tag 0x%x, size 0x%x") (word type ∷ word (tag_size mem tag) ∷ [])

unfoldable pub entry_message : Memory → ℕ → Message
entry_message mem mmap = record {
  line = 93;
  format = codes "mmap base_addr = 0x%X, length = 0x%X, type = 0x%x";
  args = word (load 8 mem mmap) ∷ word (load 8 mem (mmap + 8)) ∷ word (load 4 mem (mmap + 16)) ∷ [];
}

unfoldable pub section_message : Memory → ℕ → ℕ → Message
section_message mem i elf = record {
  line = 126;
  format = codes "elf section #%d addr = 0x%X, type = 0x%X, size = 0x%X, flags = 0x%X";
  args =
      word i
      ∷ word (section_addr mem elf)
      ∷ word (section_type mem elf)
      ∷ word (section_bytes mem elf)
      ∷ word (load 8 mem (elf + 8))
      ∷ [];
}

abbrev pub announced : Memory → ℕ → Message
announced mem mbi = record {
  line = 48;
  format = codes "announced MBI size 0x%x";
  args = word (load 4 mem mbi) ∷ [];
}

abbrev pub total : ℕ → ℕ → Message
total tag mbi = record {
  line = 165;
  format = codes "total MBI size 0x%X";
  args = word (u64 (tag + 2 ^ 64 - mbi)) ∷ [];
}
