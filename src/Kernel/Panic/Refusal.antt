-- ===== src/Kernel/Panic/Refusal.antt =====
-- A start by another boot loader, or with information at an address that is not aligned.
use utero_archive.Base.{
  ℕ, ◌^◌, ◌<◌, ◌≡◌, ◌≢◌, inl, inr, refl, ◌∙◌, arith, ◌==◌, List, [], ◌∷◌, ◌++◌, length, Bool-cases,
  u32, bit_and,
}
use utero_archive.Base.Text.{codes}
use utero_archive.Core.Boot.{
  Validity, valid, invalid_magic, unaligned, multiboot_is_valid, multiboot2_magic_value,
}
use utero_archive.Drivers.Screen.{Screen, screen_init, screen_width, set_memory}
use utero_archive.Drivers.Screen.Clear.{screen_clear-Blank}
use utero_archive.Libk.Printfk.{Arg, word, text, isdigitk, printfk}
use utero_archive.Libk.Printfk.Render.{render, parse_format}
use utero_archive.Kernel.State.{Build, Kernel, Location, ◌>>=◌, ◌>>◌, on_screen, put_screen}
use utero_archive.Kernel.Start.{Schedule, kmain, start_if_valid, refuse, print_validity}
use utero_archive.Kernel.Panic.{panic_at}
use utero_archive.Kernel.Panic.Halting.{
  IsLocation, Shown, printed-Shown, Halted, kernel_panic-Halted,
}
use utero_archive.Kernel.Texts.{
  d-Shows, x-Shows, Renders, nothing, then_plains, then_text, then_d, then_x,
}

abbrev refusal_format : List ℕ
refusal_format = codes "\nPANIC in %s:%d:%s(): " ++ (codes "invalid multiboot" ++ codes "\n%s")

abbrev refusal_args : Location → List Arg
refusal_args at = text at.file ∷ word at.line ∷ text at.function ∷ text [] ∷ []

refusal_text :
    (at : Location)
    → IsLocation at
    → (n : ℕ) × Renders n (parse_format (length refusal_format) refusal_format) (refusal_args at)
unfolding parse_format isdigitk
refusal_text at loc = (
  _,
  then_plains (codes "\nPANIC in ") refl (
      then_text loc.file (
        then_plains (codes ":") refl (
          then_d (d-Shows at.line 0 loc.line (omega arith)) (
            then_plains (codes ":") refl (
              then_text loc.function (
                then_plains (codes "(): invalid multiboot\n") refl
                  (then_text {t = []} refl (nothing [])))))))),
)

-- Printing a message that ends in a number in hexadecimal.
message-Shown :
    (waits n : ℕ) {m : ℕ} (format : List ℕ) (s : Screen)
    → Renders m (parse_format (length format) format) (word n ∷ [])
    → s.screen_col < screen_width
    → Shown (printfk waits format (word n ∷ []) s)
unfolding printfk render
message-Shown waits n format s r col =
    printed-Shown waits format (word n ∷ []) r.str s r.renders r.plain col

module _ (b : Build) (loc : IsLocation b.kmain_panic) where
  panic-Halted :
      (k : Kernel)
      → k.screen.screen_col < screen_width
      → Halted k (panic_at b b.kmain_panic (codes "invalid multiboot") [] k)
  unfolding panic_at render
  panic-Halted k col =
      let (n, t) = refusal_text b.kmain_panic loc in
      kernel_panic-Halted b.waits refusal_format (refusal_args b.kmain_panic) t.str k t.renders
        t.plain col

  -- What follows the message.
  told-Halted :
      (k : Kernel) (format : List ℕ) (n : ℕ) {m : ℕ}
      → Renders m (parse_format (length format) format) (word n ∷ [])
      → k.screen.screen_col < screen_width
      → Halted k (
          (on_screen (printfk b.waits format (word n ∷ []))
              >> panic_at b b.kmain_panic (codes "invalid multiboot") [])
            k)
  told-Halted k format n r col =
      let m = message-Shown b.waits n format k.screen r col in
      let p = panic-Halted (record k { screen = m.after }) m.on_screen in
      record {
        screen = p.screen;
        returns = rw (m.returns, ◌>>◌, ◌>>=◌, on_screen, put_screen) p.returns;
        column = p.column;
      }

  magic_text :
      (n : ℕ)
      → n < 2 ^ 32
      → let format = codes "Invalid magic value: 0x%x" in
        (m : ℕ) × Renders m (parse_format (length format) format) (word n ∷ [])
  unfolding parse_format isdigitk
  magic_text n h =
      (_, then_plains (codes "Invalid magic value: 0x") refl (then_x (x-Shows n h) (nothing [])))

  address_text :
      (n : ℕ)
      → n < 2 ^ 32
      → let format = codes "Unaligned MBI: 0x%x" in
        (m : ℕ) × Renders m (parse_format (length format) format) (word n ∷ [])
  unfolding parse_format isdigitk
  address_text n h =
      (_, then_plains (codes "Unaligned MBI: 0x") refl (then_x (x-Shows n h) (nothing [])))

  refuse-Halted :
      (magic addr : ℕ) (k : Kernel)
      → multiboot_is_valid magic addr ≢ valid
      → k.screen.screen_col < screen_width
      → Halted k (refuse b (multiboot_is_valid magic addr) k)
  unfolding multiboot_is_valid refuse print_validity
  refuse-Halted magic addr k refused col = elim (Bool-cases (magic == multiboot2_magic_value)) [
    | inr other ↦ rw other (
        told-Halted k (codes "Invalid magic value: 0x%x") (u32 magic)
          (magic_text (u32 magic) (omega arith)).1 col)
    | inl right ↦ elim (Bool-cases (bit_and addr 7 == 0)) [
      | inr odd ↦
          rw (right, odd)
            (told-Halted k (codes "Unaligned MBI: 0x%x") (u32 addr)
              (address_text (u32 addr) (omega arith)).1 col)
      | inl even ↦ absurd (refused (rw (right, even) refl))
    ]
  ]

start_if_valid-refuse :
    (b : Build) (arrivals : Schedule) (addr : ℕ) (v : Validity)
    → v ≢ valid
    → (k : Kernel) → start_if_valid b arrivals addr v k ≡ refuse b v k
unfolding start_if_valid
start_if_valid-refuse b arrivals addr valid ne k = absurd (ne refl)
start_if_valid-refuse b arrivals addr (invalid_magic n) ne k = refl
start_if_valid-refuse b arrivals addr (unaligned n) ne k = refl

-- Unless the boot loader's magic number and an aligned address are passed, and with a place to name
-- that has no tab and a line below 2^31, `kmain` returns with the kernel halted and its interrupts
-- disabled, from whatever state it is entered in: neither the gates nor the handlers nor the memory
-- map are set up, and only the screen and the hardware have changed.
pub kmain-Halted :
    (b : Build) (arrivals : Schedule) (magic addr : ℕ) (k : Kernel)
    → multiboot_is_valid magic addr ≢ valid
    → IsLocation b.kmain_panic
    → Halted k (kmain b arrivals magic addr k)
unfolding kmain screen_init
kmain-Halted b arrivals magic addr k refused loc =
    let c = screen_clear-Blank (screen_init k.screen) in
    let s = set_memory c.mem (screen_init k.screen) in
    let h = refuse-Halted b loc magic addr (record k { screen = s }) refused (omega arith) in
    record {
      screen = h.screen;
      returns =
          rw (c.returns, kmain, ◌>>◌, ◌>>=◌, on_screen, put_screen)
            (start_if_valid-refuse b arrivals addr (multiboot_is_valid magic addr) refused
                (record k { screen = s })
              ∙ h.returns);
      column = h.column;
    }
