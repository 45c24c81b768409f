-- ===== src/Kernel/Start/Printing.antt =====
-- What the start prints fits the display: each text with the cells that it takes at most.
use utero_archive.Base.{ℕ, ◌+◌, ◌^◌, ◌≤◌, ◌<◌, ◌≡◌, refl, arith, List, [], ◌∷◌, length}
use utero_archive.Base.Memory.{Memory}
use utero_archive.Base.Text.{codes}
use utero_archive.Core.Cmos.{Rtc}
use utero_archive.Mmu.Mmap.{ReservedAreas}
use utero_archive.Drivers.Screen.Within.{Within, cells}
use utero_archive.Libk.Printfk.{word, text, isdigitk}
use utero_archive.Libk.Printfk.Render.{parse_format}
use utero_archive.Kernel.State.{Build, Kernel}
use utero_archive.Kernel.Start.{
  print, print_welcome_message, print_reserved, print_date, kernel_ascii, kernel_name,
  kernel_version,
}
use utero_archive.Kernel.Texts.{
  NoTab, d-Shows, X-Shows, plains, Renders, Renders-most, nothing, then_plains, then_text, then_d,
  then_X,
}
use utero_archive.Kernel.Runs.{Runs, shows, and-Runs, print-Runs}

-- The texts of a build: the compiler's date and time have 11 and 8 characters.
pub record IsBuild (b : Build) : Type 0 where
  pub date : NoTab b.date
  pub date_length : cells b.date ≤ 11
  pub time : NoTab b.time
  pub time_length : cells b.time ≤ 8

pub record IsAreas (r : ReservedAreas) : Type 0 where
  pub kernel_start : r.kernel_start < 2 ^ 64
  pub kernel_end : r.kernel_end < 2 ^ 64
  pub multiboot_start : r.multiboot_start < 2 ^ 64
  pub multiboot_end : r.multiboot_end < 2 ^ 64

pub record IsTime (r : Rtc) : Type 0 where
  pub seconds : r.seconds < 2 ^ 31
  pub minutes : r.minutes < 2 ^ 31
  pub hours : r.hours < 2 ^ 31
  pub day : r.day < 2 ^ 31
  pub month : r.month < 2 ^ 31
  pub year : r.year < 2 ^ 31

-- A format without conversions.
pub literal-Renders : (lit : List ℕ) → NoTab lit → Renders (cells lit) (plains lit []) []
literal-Renders lit p = Renders-most (omega arith) (then_plains lit p (nothing []))

welcome_text :
    (b : Build)
    → IsBuild b
    → let format = codes "%s %s / Built on: %s at %s\n\n" in
      Renders 215
        (parse_format (length format) format)
        (text kernel_name ∷ text kernel_version ∷ text b.date ∷ text b.time ∷ [])
unfolding parse_format isdigitk
welcome_text b ok = Renders-most (omega (arith, ok.date_length, ok.time_length)) (
    then_text refl (
      then_plains (codes " ") refl (
        then_text refl (
          then_plains (codes " / Built on: ") refl (
            then_text ok.date (
              then_plains (codes " at ") refl
                (then_text ok.time (then_plains (codes "\n\n") refl (nothing [])))))))))

ascii_text :
    let format = codes "%s\n" in
    Renders 444 (parse_format (length format) format) (text kernel_ascii ∷ [])
unfolding parse_format isdigitk
ascii_text =
    Renders-most (omega arith) (then_text refl (then_plains (codes "\n") refl (nothing [])))

multiboot_text :
    (r : ReservedAreas)
    → IsAreas r
    → let format = codes "- multiboot_start = 0x%X, multiboot_end = 0x%X\n" in
      Renders 154
        (parse_format (length format) format)
        (word r.multiboot_start ∷ word r.multiboot_end ∷ [])
unfolding parse_format isdigitk
multiboot_text r ok = Renders-most (omega arith) (
    then_plains (codes "- multiboot_start = 0x") refl (
      then_X (X-Shows r.multiboot_start ok.multiboot_start) (
        then_plains (codes ", multiboot_end = 0x") refl (
          then_X (X-Shows r.multiboot_end ok.multiboot_end)
            (then_plains (codes "\n") refl (nothing []))))))

kernel_text :
    (r : ReservedAreas)
    → IsAreas r
    → let format = codes "- kernel_start    = 0x%X, kernel_end    = 0x%X\n" in
      Renders 154
        (parse_format (length format) format)
        (word r.kernel_start ∷ word r.kernel_end ∷ [])
unfolding parse_format isdigitk
kernel_text r ok = Renders-most (omega arith) (
    then_plains (codes "- kernel_start    = 0x") refl (
      then_X (X-Shows r.kernel_start ok.kernel_start) (
        then_plains (codes ", kernel_end    = 0x") refl (
          then_X (X-Shows r.kernel_end ok.kernel_end)
            (then_plains (codes "\n") refl (nothing []))))))

date_text :
    (r : Rtc)
    → IsTime r
    → let format = codes "\nHello Human, today's date and time is %2d/%2d/%2d %2d:%2d:%2d UTC\n" in
      Renders 270 (parse_format (length format) format) (
        word r.year
        ∷ word r.month
        ∷ word r.day
        ∷ word r.hours
        ∷ word r.minutes
        ∷ word r.seconds
        ∷ [])
unfolding parse_format isdigitk
date_text r ok = Renders-most (omega arith) (
    then_plains (codes "\nHello Human, today's date and time is ") refl (
      then_d (d-Shows r.year 2 ok.year (omega arith)) (
        then_plains (codes "/") refl (
          then_d (d-Shows r.month 2 ok.month (omega arith)) (
            then_plains (codes "/") refl (
              then_d (d-Shows r.day 2 ok.day (omega arith)) (
                then_plains (codes " ") refl (
                  then_d (d-Shows r.hours 2 ok.hours (omega arith)) (
                    then_plains (codes ":") refl (
                      then_d (d-Shows r.minutes 2 ok.minutes (omega arith)) (
                        then_plains (codes ":") refl (
                          then_d (d-Shows r.seconds 2 ok.seconds (omega arith))
                            (then_plains (codes " UTC\n") refl (nothing []))))))))))))))

module _ {mem : Memory} {input : List ℕ} (b : Build) (k : Kernel) (small : k.tick < 2 ^ 32) where
  -- A text without conversions.
  pub literal-Runs :
      (i : ℕ) (format : List ℕ)
      → parse_format (length format) format ≡ plains format []
      → NoTab format
      → Within i mem input k.screen
      → i + cells format ≤ 1920
      → Runs (i + cells format) mem input tt k (print b format []) k
  literal-Runs i format e p w low =
      print-Runs b format [] k (rw e (literal-Renders format p)) w small low

  pub welcome-Runs :
      IsBuild b → Within 0 mem input k.screen → Runs 659 mem input tt k (print_welcome_message b) k
  unfolding print_welcome_message
  welcome-Runs ok w =
      and-Runs (print b (codes "%s\n") (text kernel_ascii ∷ [])) _
        (print-Runs b (codes "%s\n") (text kernel_ascii ∷ []) k ascii_text w small (omega arith))
        (λ s t within small'.
          print-Runs b (codes "%s %s / Built on: %s at %s\n\n")
            (text kernel_name ∷ text kernel_version ∷ text b.date ∷ text b.time ∷ []) (shows s t k)
            (welcome_text b ok) within small' (omega arith))

  pub reserved-Runs :
      (r : ReservedAreas)
      → IsAreas r
      → Within 659 mem input k.screen
      → Runs 967 mem input tt k (print_reserved b r) k
  unfolding print_reserved
  reserved-Runs r ok w =
      and-Runs
        (print b (codes "- multiboot_start = 0x%X, multiboot_end = 0x%X\n")
          (word r.multiboot_start ∷ word r.multiboot_end ∷ []))
        _
        (print-Runs b (codes "- multiboot_start = 0x%X, multiboot_end = 0x%X\n")
          (word r.multiboot_start ∷ word r.multiboot_end ∷ []) k (multiboot_text r ok) w small
          (omega arith))
        (λ s t within small'.
          print-Runs b (codes "- kernel_start    = 0x%X, kernel_end    = 0x%X\n")
            (word r.kernel_start ∷ word r.kernel_end ∷ []) (shows s t k) (kernel_text r ok) within
            small' (omega arith))

  pub date-Runs :
      (r : Rtc) (i : ℕ)
      → IsTime r
      → i ≤ 1650
      → Within i mem input k.screen
      → Runs (i + 270) mem input tt k (print_date b r) k
  unfolding print_date
  date-Runs r i ok low w =
      print-Runs b (codes "\nHello Human, today's date and time is %2d/%2d/%2d %2d:%2d:%2d UTC\n")
        (word r.year
          ∷ word r.month
          ∷ word r.day
          ∷ word r.hours
          ∷ word r.minutes
          ∷ word r.seconds
          ∷ [])
        k (date_text r ok) w small (omega arith)
