-- ===== src/Kernel/Start/Devices.antt =====
-- The interrupts and the devices are set up, with interrupts of the timer in between.
use utero_archive.Base.{ℕ, ◌+◌, ◌^◌, ◌<◌, ◌≡◌, refl, ap, ◌∙◌, arith, true, some, none, List, []}
use utero_archive.Base.Memory.{Memory}
use utero_archive.Base.Text.{codes}
use utero_archive.Core.Idt.{IdtGate, gate_offset}
use utero_archive.Core.Isr.{isr_init}
use utero_archive.Core.Isr.Setup.{isr_init-IsInitialised, register_interrupt_handler-registered}
use utero_archive.Core.Timer.{timer_init, timer_tick}
use utero_archive.Core.Timer.Ticks.{timer_init-Programmed}
use utero_archive.Drivers.Serial.{serial_init, serial_com1, serial_speed_115200}
use utero_archive.Drivers.Keyboard.{keyboard_init, irq1}
use utero_archive.Drivers.Screen.{Screen}
use utero_archive.Drivers.Screen.Within.{Within}
use utero_archive.Libk.Printfk.{isdigitk}
use utero_archive.Libk.Printfk.Render.{parse_format}
use utero_archive.Kernel.State.{
  breakpoint, timer, keyboard, Build, Kernel, ◌>>◌, interrupts, on_interrupts, on_hardware,
  irq_init,
}
use utero_archive.Kernel.Dispatch.{pause}
use utero_archive.Kernel.Start.{Schedule, print, check_interrupts, check_wait, start_interrupts}
use utero_archive.Kernel.Start.Printing.{literal-Runs}
use utero_archive.Kernel.Start.Arrivals.{
  IsSchedule, AllLines-AllCalm, with_breakpoint, with_timer, with_keyboard, with_breakpoint-IsCalm,
  with_timer-IsCalm, with_keyboard-IsCalm, check_wait-Runs,
}
use utero_archive.Kernel.Runs.{Runs, shows, shown, and-Runs, here-Runs}
use utero_archive.Kernel.Runs.Served.{pause-Runs, interrupts-Runs, hardware-Runs}

-- The state behind the set-up of interrupts and devices.
abbrev pub ready : Kernel → (ℕ → IdtGate) → Kernel
ready k gates = record k {
  idt = gates;
  interrupt_handlers = with_keyboard (with_timer (with_breakpoint k.interrupt_handlers));
  interrupts_enabled = true;
}

-- The same before the keyboard's handler, and before the timer's.
abbrev timed : Kernel → (ℕ → IdtGate) → Kernel
timed k gates = record k {
  idt = gates;
  interrupt_handlers = with_timer (with_breakpoint k.interrupt_handlers);
  interrupts_enabled = true;
}

abbrev enabled : Kernel → (ℕ → IdtGate) → Kernel
enabled k gates = record k {
  idt = gates;
  interrupt_handlers = with_breakpoint k.interrupt_handlers;
  interrupts_enabled = true;
}

module _ {mem : Memory} {input : List ℕ} (b : Build) (arrivals : Schedule)
    (quiet : IsSchedule arrivals) where
  module _ (k : Kernel) (unset : (n : ℕ) → k.interrupt_handlers n ≡ none) where
    check_interrupts-Runs :
        (k2 : Kernel)
        → k2.interrupt_handlers ≡ with_timer (with_breakpoint k.interrupt_handlers)
        → k2.interrupts_enabled ≡ true
        → Within 1173 mem input k2.screen
        → k2.tick < 2 ^ 32
        → Runs 1280 mem input tt k2 (check_interrupts b arrivals.checks) k2
    unfolding check_interrupts timer_tick parse_format isdigitk
    check_interrupts-Runs k2 e on w small =
        and-Runs (print b (codes "- checking interrupts... ") []) _
          (literal-Runs b k2 small 1173 (codes "- checking interrupts... ") refl refl w
            (omega arith))
          (λ s1 t1 w1 small1.
            and-Runs {k1 = shows s1 t1 k2} (λ k'. check_wait b arrivals.checks k'.tick k') _
              (here-Runs (λ k'. check_wait b arrivals.checks k'.tick)
                (rw quiet.checks (
                  check_wait-Runs k.interrupt_handlers unset b quiet.quiet quiet.first quiet.later
                    (shows s1 t1 k2) e on quiet.waits quiet.lines quiet.arrives quiet.few w1
                    small1)))
              (λ s2 t2 w2 small2.
                literal-Runs b (shows s2 t2 k2) small2 1198 (codes "OK\n") refl refl w2
                  (omega arith)))

    keyboard_part :
        (gates : ℕ → IdtGate) (s : Screen) (tick : ℕ)
        → Within 1280 mem input s
        → tick < 2 ^ 32
        → Runs 1386 mem input tt
            (ready k gates)
            (do
              on_hardware (serial_init serial_com1 serial_speed_115200)
              pause b (arrivals.after 4)
              on_interrupts (keyboard_init keyboard)
              pause b (arrivals.after 5)
              print b (codes "- keyboard routine enabled\n") []
              pause b (arrivals.after 6))
            (shows s tick (timed k gates))
    unfolding serial_init keyboard_init parse_format isdigitk
    keyboard_part gates s tick w small =
        let k2 = timed k gates in
        let calm2 = with_timer-IsCalm k.interrupt_handlers unset in
        let calm3 = with_keyboard-IsCalm k.interrupt_handlers unset in
        let rest = ready k gates in
        and-Runs (on_hardware (serial_init serial_com1 serial_speed_115200)) _
          (hardware-Runs (serial_init serial_com1 serial_speed_115200) (shows s tick k2) tt _ refl w
            small)
          (λ s4 t4 w4 m4.
            and-Runs (pause b (arrivals.after 4)) _
              (pause-Runs b (arrivals.after 4) (shows s4 t4 k2) w4 m4
                (AllLines-AllCalm _ _ calm2 (quiet.after 4)) refl)
              (λ s5 t5 w5 m5.
                and-Runs (on_interrupts (keyboard_init keyboard)) _
                  (interrupts-Runs (keyboard_init keyboard) (shows s5 t5 k2) gates
                    rest.interrupt_handlers s5.hardware.log
                    (register_interrupt_handler-registered irq1 keyboard
                      (interrupts (shows s5 t5 k2)) (omega arith))
                    w5 m5)
                  (λ s6 t6 w6 m6.
                    and-Runs (pause b (arrivals.after 5)) _
                      (pause-Runs b (arrivals.after 5) (shows s6 t6 rest) w6 m6
                        (AllLines-AllCalm _ _ calm3 (quiet.after 5)) refl)
                      (λ s7 t7 w7 m7.
                        and-Runs (print b (codes "- keyboard routine enabled\n") []) _
                          (literal-Runs b (shows s7 t7 rest) m7 1280
                            (codes "- keyboard routine enabled\n") refl refl w7 (omega arith))
                          (λ s8 t8 w8 m8.
                            pause-Runs b (arrivals.after 6) (shows s8 t8 rest) w8 m8
                              (AllLines-AllCalm _ _ calm3 (quiet.after 6)) refl)))))

    timer_part :
        (gates : ℕ → IdtGate) (s : Screen) (tick : ℕ)
        → Within 1070 mem input s
        → tick < 2 ^ 32
        → Runs 1386 mem input tt
            (ready k gates)
            (do
              on_interrupts (timer_init timer 50)
              pause b (arrivals.after 2)
              print b (codes "- clock (timer) enabled\n") []
              pause b (arrivals.after 3)
              check_interrupts b arrivals.checks
              on_hardware (serial_init serial_com1 serial_speed_115200)
              pause b (arrivals.after 4)
              on_interrupts (keyboard_init keyboard)
              pause b (arrivals.after 5)
              print b (codes "- keyboard routine enabled\n") []
              pause b (arrivals.after 6))
            (shows s tick (enabled k gates))
    unfolding parse_format isdigitk
    timer_part gates s tick w small =
        let k1 = enabled k gates in
        let k2 = timed k gates in
        let calm2 = with_timer-IsCalm k.interrupt_handlers unset in
        let set = timer_init-Programmed timer 50 (interrupts (shows s tick k1)) (omega arith) in
        and-Runs (on_interrupts (timer_init timer 50)) _
          (interrupts-Runs (timer_init timer 50) (shows s tick k1) gates k2.interrupt_handlers
            set.after.hardware.log (set.returns ∙ ap some set.shape) w small)
          (λ s1 t1 w1 m1.
            and-Runs (pause b (arrivals.after 2)) _
              (pause-Runs b (arrivals.after 2) (shows s1 t1 k2) w1 m1
                (AllLines-AllCalm _ _ calm2 (quiet.after 2)) refl)
              (λ s2 t2 w2 m2.
                and-Runs (print b (codes "- clock (timer) enabled\n") []) _
                  (literal-Runs b (shows s2 t2 k2) m2 1070 (codes "- clock (timer) enabled\n") refl
                    refl w2 (omega arith))
                  (λ s3 t3 w3 m3.
                    and-Runs (pause b (arrivals.after 3)) _
                      (pause-Runs b (arrivals.after 3) (shows s3 t3 k2) w3 m3
                        (AllLines-AllCalm _ _ calm2 (quiet.after 3)) refl)
                      (λ s4 t4 w4 m4.
                        and-Runs (check_interrupts b arrivals.checks) _
                          (check_interrupts-Runs (shows s4 t4 k2) refl refl w4 m4)
                          (λ s5 t5 w5 m5. shown (keyboard_part gates s5 t5 w5 m5))))))

    -- The interrupts are enabled, then the timer is set and checked, then the serial port and the
    -- keyboard are set: all of it returns, and the handlers are the three that the start registers.
    pub start_interrupts-Runs :
        ((n : ℕ) → b.isr n < 2 ^ 64)
        → ((n : ℕ) → b.irq n < 2 ^ 64)
        → Within 967 mem input k.screen
        → k.tick < 2 ^ 32
        → (gates : ℕ → IdtGate) × ((n : ℕ) → n < 32 → gate_offset (gates n) ≡ b.isr n)
          × ((n : ℕ) → n < 5 → gate_offset (gates (32 + n)) ≡ b.irq n)
          × Runs 1386 mem input tt (ready k gates) (start_interrupts b arrivals) k
    unfolding start_interrupts parse_format isdigitk
    start_interrupts-Runs isr64 irq64 w small =
        let set = isr_init-IsInitialised b.isr b.irq breakpoint (interrupts k) isr64 irq64 in
        let gates = set.after.idt in
        let calm1 = with_breakpoint-IsCalm k.interrupt_handlers unset in
        let calm2 = with_timer-IsCalm k.interrupt_handlers unset in
        let k1 = enabled k gates in
        let k2 = timed k gates in
        (
          gates,
          set.exceptions,
          set.lines,
          and-Runs (on_interrupts (isr_init b.isr b.irq breakpoint)) _
              (interrupts-Runs (isr_init b.isr b.irq breakpoint) k gates
                (with_breakpoint k.interrupt_handlers) set.log (set.returns ∙ ap some set.shape) w
                small)
              (λ s1 t1 w1 m1.
                and-Runs {k1 = k1} irq_init _
                  (record { screen = s1; tick = t1; returns = refl; within = w1; small = m1 })
                  (λ s2 t2 w2 m2.
                    and-Runs (pause b (arrivals.after 0)) _
                      (pause-Runs b (arrivals.after 0) (shows s2 t2 k1) w2 m2
                        (AllLines-AllCalm _ _ calm1 (quiet.after 0)) refl)
                      (λ s3 t3 w3 m3.
                        and-Runs (print b (codes "- interruptions enabled\n") []) _
                          (literal-Runs b (shows s3 t3 k1) m3 967
                            (codes "- interruptions enabled\n") refl refl w3 (omega arith))
                          (λ s4 t4 w4 m4.
                            and-Runs (pause b (arrivals.after 1)) _
                              (pause-Runs b (arrivals.after 1) (shows s4 t4 k1) w4 m4
                                (AllLines-AllCalm _ _ calm1 (quiet.after 1)) refl)
                              (λ s5 t5 w5 m5. shown (timer_part gates s5 t5 w5 m5)))))),
        )
