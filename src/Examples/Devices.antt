-- ===== src/Examples/Devices.antt =====
-- The theorems on the clock, the timer, the serial ports, the keyboard and printing at concrete
-- inputs.
use utero_archive.Base.{
  ℕ, zero, suc, ◌+◌, ap, ◌^◌, ◌<◌, ◌≤◌, ◌≡◌, ◌≢◌, ◌↔◌, ◌⊎◌, none, List, [], ◌∷◌, arith, refl, true,
  false,
}
use utero_archive.Base.Text.{codes}
use utero_archive.Core.Cmos.{Rtc, convert, cmos_read_rtc}
use utero_archive.Core.Cmos.Clock.{
  shows_24, status_b, full_year, hour_of_day, convert-shows_24, convert-hours_12,
}
use utero_archive.Core.Cmos.Reading.{Round, script, Reads, cmos_read_rtc-Reads}
use utero_archive.Core.Timer.{timer_init}
use utero_archive.Core.Timer.Ticks.{Programmed, timer_init-Programmed}
use utero_archive.Drivers.Serial.Sent.{AllTurns, Turn, answers, device}
use utero_archive.Drivers.Screen.{Screen, video_address}
use utero_archive.Libk.Itoa.Numbers.{Denotes}
use utero_archive.Libk.Printfk.{word, text, device_screen, put_word, putsk, vprintfk}
use utero_archive.Libk.Printfk.Render.{render, render_word}
use utero_archive.Libk.Printfk.Equivalence.{emit}
use utero_archive.Libk.Printfk.Printing.{vprintfk-render}
use utero_archive.Libk.Printfk.Conversions.{put_word_L}
use utero_archive.Libk.Itoa.{itoa, itoa_loop, digit}
use utero_archive.Libk.Strrev.{strrev, strrev_loop}
use utero_archive.Libk.Printfk.Render.{parse_format, render_all, render_directive, render_take_text}
use utero_archive.Libk.Printfk.{isdigitk}
use utero_archive.Kernel.State.{Location}
use utero_archive.Kernel.Debug.{debug, Sent, debug-Sent}
use utero_archive.Examples.Core.{reset}

-- Half past eight in the evening of the 24th of December 2018.
abbrev pub evening : Rtc
evening = record {
  seconds = 9;
  minutes = 30;
  hours = 20;
  weekdays = 2;
  day = 24;
  month = 12;
  year = 18;
  century = 20;
}

convert-shows_24_example : convert (status_b true false) (shows_24 true evening) ≡ full_year evening
convert-shows_24_example = convert-shows_24 true evening (omega arith)

convert-hours_12_example :
    ((convert (status_b true true) (record (shows_24 true evening) { hours = 0x92 })).hours ≡ 0)
    × (((convert (status_b true true) (record (shows_24 true evening) { hours = 0x92 })).hours
          ≡ hour_of_day 12 true)
        ↔ (◌≢◌ {A = ℕ} 12 12))
convert-hours_12_example =
    convert-hours_12 true 12 true (record (shows_24 true evening) { hours = 0x92 }) (omega arith)
      (omega arith) refl

abbrev pub earlier : Round
earlier = record {
  busy = 0xA6 ∷ [];
  idle = 0x26;
  rtc = record (shows_24 true evening) { seconds = 8 };
}

abbrev pub settled : Round
settled = record { busy = []; idle = 0x26; rtc = shows_24 true evening }

-- The second is over between the first two readings.
cmos_read_rtc-Reads_example :
    Reads
      (cmos_read_rtc 2 2)
      (script (earlier ∷ settled ∷ settled ∷ []) (2 ∷ []))
      (convert 2 (shows_24 true evening))
      []
cmos_read_rtc-Reads_example =
    cmos_read_rtc-Reads 2 2 earlier (settled ∷ settled ∷ []) (shows_24 true evening) 2 []
      (record { busy = omega arith; short = omega arith; idle = omega arith; bytes = omega arith })
      (
        record { busy = tt; short = omega arith; idle = omega arith; bytes = omega arith },
        (record { busy = tt; short = omega arith; idle = omega arith; bytes = omega arith }, tt),
      )
      (λ e. ground (arith, ap (λ r. r.seconds) e), (refl, refl)) (omega arith) (omega arith)

timer_init-Programmed_example : Programmed 7 50 reset (timer_init 7 50 reset)
timer_init-Programmed_example = timer_init-Programmed 7 50 reset (omega arith)

abbrev ready : Turn
ready = record { busy = 0x00 ∷ []; ready = 0x60 }

abbrev blank : ℕ → ℕ
blank x = 0

abbrev pressed : Screen
pressed = record {
  screen_scheme = 7;
  framebuffer = video_address;
  screen_col = 0;
  screen_row = 3;
  hardware = record { memory = blank; input = 0x1E ∷ []; log = [] };
}

vprintfk-render_example :
    vprintfk 9 0 (codes "%s: 0x%X") (text (codes "end") ∷ word 0xFFFF ∷ []) pressed
    ≡ emit 9 0 (render (codes "%s: 0x%X") (text (codes "end") ∷ word 0xFFFF ∷ [])) pressed
vprintfk-render_example =
    vprintfk-render 9 0 (codes "%s: 0x%X") (text (codes "end") ∷ word 0xFFFF ∷ []) pressed

put_word_L_example :
    ((10 ^ 19 + 2000000000 < 10 ^ 19)
      × (str : List ℕ) × Denotes 10 (10 ^ 19 + 2000000000) str
      × (put_word 9 device_screen b'L' 0 (10 ^ 19 + 2000000000) pressed
          ≡ putsk 9 device_screen str pressed))
    ⊎ ((10 ^ 19 ≤ 10 ^ 19 + 2000000000)
        × (put_word 9 device_screen b'L' 0 (10 ^ 19 + 2000000000) pressed ≡ none))
put_word_L_example =
    put_word_L 9 device_screen 0 (10 ^ 19 + 2000000000) pressed (omega arith) (omega arith)

abbrev turns : ℕ → List Turn
turns zero = []
turns (suc n) = ready ∷ turns n

turns-AllTurns : (n : ℕ) → AllTurns 2 (turns n)
turns-AllTurns zero = tt
turns-AllTurns (suc n) = (
  record { busy = (omega arith, refl, tt); short = omega arith; ready = refl; byte = omega arith },
  turns-AllTurns n,
)

abbrev place : Location
place = record { file = codes "a.c"; line = 7; function = codes "f" }

abbrev waiting : Screen
waiting = record pressed { hardware = device blank [] (answers (turns 24) (0x1E ∷ [])) }

debug-Sent_example :
    Sent place
      (codes "7")
      (codes "ERROR\n")
      blank
      []
      (0x1E ∷ [])
      waiting
      (debug 2 place (codes "%s") (text (codes "ERROR") ∷ []) waiting)
unfolding render_word itoa itoa_loop digit strrev strrev_loop render parse_format render_all
    render_take_text render_directive isdigitk
debug-Sent_example =
    debug-Sent 2 place (codes "7") (codes "%s") (codes "ERROR\n") (text (codes "ERROR") ∷ [])
      (turns 24) blank [] (0x1E ∷ []) waiting (omega arith) refl refl refl (omega arith)
      (turns-AllTurns 24) refl
