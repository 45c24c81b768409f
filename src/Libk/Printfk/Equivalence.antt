-- ===== src/Libk/Printfk/Equivalence.antt =====
-- Printing with a format is printing the format's text.
use utero_archive.Base.{
  ℕ, zero, suc, ◌-◌, ◌≡◌, refl, ◌∙◌, ap, sym, true, false, Option, none, some, List, [], ◌∷◌, ◌++◌,
  ltb, ◌==◌, u8, u16, u32, length, replicate, arith, Bool-cases, inl, inr,
}
use mathlib.Core.Path.{fun_ext}
use utero_archive.Libk.Itoa.{itoa, ulltoa}
use utero_archive.Core.Ports.{Io, Hardware, ◌>>◌}
use utero_archive.Drivers.Screen.{Screen, screen_write, screen_print}
use utero_archive.Drivers.Serial.{serial_write, serial_print}
use utero_archive.Libk.Printfk.{
  Arg, word, text, signed, in_buffer, takes_word, putchark, putsk, pad_loop, put_number, put_word,
  with_args, take_word, take_text, put_conversion, on_ports, kept, device_screen,
}
use utero_archive.Libk.Printfk.Render.{
  Directive, plain, conversion, pad, render_word, and_args, render_take_word, render_take_text,
  render_directive, before, render_all,
}

abbrev pub and_then : Option Screen → (Screen → Option Screen) → Option Screen
and_then none f = none
and_then (some s) f = f s

kept-then :
    (s : Screen) (r : Option (Unit {0} × Hardware)) (k : Io (Unit {0}))
    → kept s (elim r [ none ↦ none | some (u, hw) ↦ k hw ]) ≡ and_then (kept s r) (on_ports k)
kept-then s none k = refl
kept-then s (some (u, hw)) k = refl

on_ports-then :
    (m k : Io (Unit {0})) (s : Screen) → on_ports (m >> k) s ≡ and_then (on_ports m s) (on_ports k)
on_ports-then m k s = kept-then s (m s.hardware) k

abbrev print_rest : Option Screen → List ℕ → Option Screen
print_rest r str = elim r [ none ↦ none | some s' ↦ screen_print str s' ]

print-then : (r : Option Screen) (str : List ℕ) → print_rest r str ≡ and_then r (screen_print str)
print-then none str = refl
print-then (some s') str = refl

module _ (waits device : ℕ) where
  -- Printing a text is printing its characters.
  pub putsk-nil : (s : Screen) → putsk waits device [] s ≡ some s
  unfolding putsk screen_print serial_print
  putsk-nil s = elim (Bool-cases (ltb device_screen device)) [
    | inl serial ↦ rw serial refl
    | inr screen ↦ rw screen refl
  ]

  putsk-serial :
      (str : List ℕ)
      → ltb device_screen device ≡ true
      → putsk waits device str ≡ on_ports (serial_print waits (u16 device) str)
  unfolding putsk
  putsk-serial str serial = fun_ext λ s. rw serial refl

  putsk-screen :
      (str : List ℕ) → ltb device_screen device ≡ false → putsk waits device str ≡ screen_print str
  unfolding putsk
  putsk-screen str screen = fun_ext λ s. rw screen refl

  putsk-cons :
      (c : ℕ) (str : List ℕ) (s : Screen)
      → putsk waits device (c ∷ str) s
        ≡ and_then (putchark waits device c s) (putsk waits device str)
  unfolding putchark screen_print serial_print
  putsk-cons c str s = elim (Bool-cases (ltb device_screen device)) [
    | inl serial ↦
        ap (λ (f : Screen → Option Screen). f s) (putsk-serial (c ∷ str) serial)
        ∙ on_ports-then (serial_write waits (u16 device) c) (serial_print waits (u16 device) str) s
        ∙ rw serial (
            ap (and_then (on_ports (serial_write waits (u16 device) c) s))
              (sym (putsk-serial str serial)))
    | inr screen ↦
        ap (λ (f : Screen → Option Screen). f s) (putsk-screen (c ∷ str) screen)
        ∙ print-then (screen_write c s) str
        ∙ rw screen (ap (and_then (screen_write c s)) (sym (putsk-screen str screen)))
  ]

  and_then-some : (r : Option Screen) → and_then r (putsk waits device []) ≡ r
  and_then-some none = refl
  and_then-some (some s) = putsk-nil s

  putchark-putsk : (c : ℕ) (s : Screen) → putchark waits device c s ≡ putsk waits device (c ∷ []) s
  putchark-putsk c s = sym (putsk-cons c [] s ∙ and_then-some (putchark waits device c s))

  putsk-append :
      (xs ys : List ℕ) (s : Screen)
      → putsk waits device (xs ++ ys) s ≡ and_then (putsk waits device xs s) (putsk waits device ys)
  putsk-append [] ys s = rw (putsk-nil s, and_then) refl
  putsk-append (x ∷ xs) ys s =
      putsk-cons x (xs ++ ys) s
      ∙ go (putchark waits device x s) (putsk-append xs ys)
      ∙ ap (λ r. and_then r (putsk waits device ys)) (sym (putsk-cons x xs s))
    where
      go :
          (r : Option Screen)
          → ((s' : Screen)
              → putsk waits device (xs ++ ys) s'
                ≡ and_then (putsk waits device xs s') (putsk waits device ys))
          → and_then r (putsk waits device (xs ++ ys))
            ≡ and_then (and_then r (putsk waits device xs)) (putsk waits device ys)
      go none ih = refl
      go (some s') ih = ih s'

  -- A text that may be undefined.
  abbrev pub emit : Option (List ℕ) → Screen → Option Screen
  emit none s = none
  emit (some str) s = putsk waits device str s

  pad_loop-putsk :
      (leftpad len : ℕ) (s : Screen)
      → pad_loop waits device leftpad len s ≡ putsk waits device (replicate (leftpad - len) b'0') s
  unfolding pad_loop
  pad_loop-putsk zero len s =
      let none' : zero - len ≡ 0 = omega arith in rw none' (sym (putsk-nil s))
  pad_loop-putsk (suc leftpad) len s = elim (Bool-cases (ltb len (suc leftpad))) [
    | inl more ↦
        let one : suc leftpad - len ≡ suc (leftpad - len) = ground arith in
        rw (more, one)
          (go (putchark waits device b'0' s) (λ s'. pad_loop-putsk leftpad len s')
            ∙ sym (putsk-cons b'0' (replicate (leftpad - len) b'0') s))
    | inr enough ↦
        let none' : suc leftpad - len ≡ 0 = ground arith in rw (enough, none') (sym (putsk-nil s))
  ]
    where
      go :
          (r : Option Screen)
          → ((s' : Screen)
              → pad_loop waits device leftpad len s'
                ≡ putsk waits device (replicate (leftpad - len) b'0') s')
          → elim r [ none ↦ none | some s' ↦ pad_loop waits device leftpad len s' ]
            ≡ and_then r (putsk waits device (replicate (leftpad - len) b'0'))
      go none ih = refl
      go (some s') ih = ih s'

  abbrev and_put : Option Screen → List ℕ → Option Screen
  and_put r str = elim r [ none ↦ none | some s' ↦ putsk waits device str s' ]

  and_put-and_then :
      (r : Option Screen) (str : List ℕ) → and_put r str ≡ and_then r (putsk waits device str)
  and_put-and_then none str = refl
  and_put-and_then (some s') str = refl

  put_number-emit :
      (leftpad : ℕ) (o : Option (List ℕ)) (s : Screen)
      → put_number waits device leftpad (in_buffer o) s ≡ emit (pad leftpad (in_buffer o)) s
  unfolding put_number
  put_number-emit leftpad none s = refl
  put_number-emit leftpad (some str) s = elim (Bool-cases (ltb (length str) 20)) [
    | inr long ↦ rw long refl
    | inl short ↦
        let small : u8 (length str) ≡ length str = ground arith in
        let zeros = replicate (leftpad - length str) b'0' in
        rw short (
          rw (put_number, small, pad_loop-putsk leftpad (length str) s)
            (and_put-and_then (putsk waits device zeros s) str ∙ sym (putsk-append zeros str s)))
  ]

  unpadded : (o : Option (List ℕ)) (s : Screen) → emit (pad 0 o) s ≡ emit o s
  unpadded none s = refl
  unpadded (some str) s = let none' : 0 - length str ≡ 0 = omega arith in rw none' refl

  pub put_word-emit :
      (spec leftpad n : ℕ) (s : Screen)
      → put_word waits device spec leftpad n s ≡ emit (render_word spec leftpad n) s
  unfolding put_word render_word
  put_word-emit spec leftpad n s = elim (Bool-cases (spec == b'c')) [
    | inl t ↦ rw t (putchark-putsk (u8 n) s)
    | inr c ↦ elim (Bool-cases (spec == b'd')) [
      | inl t ↦ rw (c, t) (put_number-emit leftpad (itoa (signed (u32 n)) 10) s)
      | inr d ↦ elim (Bool-cases (spec == b'u')) [
        | inl t ↦ rw (c, d, t) (number (itoa (signed (u32 n)) 10))
        | inr u ↦ elim (Bool-cases (spec == b'x')) [
          | inl t ↦ rw (c, d, u, t) (number (itoa (signed (u32 n)) 16))
          | inr x ↦ elim (Bool-cases (spec == b'L')) [
            | inl t ↦ rw (c, d, u, x, t) (number (ulltoa n 10))
            | inr l ↦ rw (c, d, u, x, l) (number (ulltoa n 16))
          ]
        ]
      ]
    ]
  ]
    where
      number :
          (o : Option (List ℕ)) → put_number waits device 0 (in_buffer o) s ≡ emit (in_buffer o) s
      number o = put_number-emit 0 o s ∙ unpadded (in_buffer o) s

  -- What a conversion prints, with the arguments that it leaves.
  abbrev pub emit_rest : Option (List ℕ × List Arg) → Screen → Option (List Arg × Screen)
  emit_rest none s = none
  emit_rest (some (str, args)) s = with_args args (putsk waits device str s)

  with-emit :
      (o : Option (List ℕ)) (args : List Arg) (s : Screen)
      → with_args args (emit o s) ≡ emit_rest (and_args args o) s
  with-emit none args s = refl
  with-emit (some str) args s = refl

  take_word-emit :
      (spec leftpad : ℕ) (args : List Arg) (s : Screen)
      → take_word waits device spec leftpad args s
        ≡ emit_rest (render_take_word spec leftpad args) s
  unfolding take_word render_take_word
  take_word-emit spec leftpad [] s = refl
  take_word-emit spec leftpad (text str ∷ args) s = refl
  take_word-emit spec leftpad (word n ∷ args) s =
      rw (put_word-emit spec leftpad n s) (with-emit (render_word spec leftpad n) args s)

  take_text-emit :
      (args : List Arg) (s : Screen)
      → take_text waits device args s ≡ emit_rest (render_take_text args) s
  unfolding take_text render_take_text
  take_text-emit [] s = refl
  take_text-emit (word n ∷ args) s = refl
  take_text-emit (text str ∷ args) s = refl

  pub put_conversion-emit :
      (spec leftpad : ℕ) (args : List Arg) (s : Screen)
      → put_conversion waits device spec leftpad args s
        ≡ emit_rest (render_directive (conversion spec leftpad) args) s
  unfolding put_conversion render_directive
  put_conversion-emit spec leftpad args s = elim (Bool-cases (spec == b'%')) [
    | inl t ↦ rw t (ap (with_args args) (putchark-putsk b'%' s))
    | inr p ↦ elim (Bool-cases (takes_word spec)) [
      | inl t ↦ rw (p, t) (take_word-emit spec leftpad args s)
      | inr w ↦ elim (Bool-cases (spec == b's')) [
        | inl t ↦ rw (p, w, t) (take_text-emit args s)
        | inr n ↦ rw (p, w, n, putsk-nil s) refl
      ]
    ]
  ]

  pub plain-emit :
      (c : ℕ) (args : List Arg) (s : Screen)
      → with_args args (putchark waits device c s) ≡ emit_rest (render_directive (plain c) args) s
  unfolding render_directive
  plain-emit c args s = ap (with_args args) (putchark-putsk c s)

  before-emit :
      (str : List ℕ) (o : Option (List ℕ)) (s : Screen)
      → emit (before str o) s ≡ and_then (putsk waits device str s) (emit o)
  before-emit str none s = go (putsk waits device str s)
    where
      go : (r : Option Screen) → none ≡ and_then r (λ s'. none)
      go none = refl
      go (some s') = refl
  before-emit str (some rest) s = putsk-append str rest s

  -- The rest of the format behind one step.
  pub rest-emit :
      (ds : List Directive) (o : Option (List ℕ × List Arg)) (s : Screen)
      (next : List Arg → Screen → Option Screen)
      → ((args : List Arg) (s' : Screen) → next args s' ≡ emit (render_all ds args) s')
      → elim (emit_rest o s) [ none ↦ none | some (args', s') ↦ next args' s' ]
        ≡ emit (elim o [ none ↦ none | some (str, args') ↦ before str (render_all ds args') ]) s
  rest-emit ds none s next ih = refl
  rest-emit ds (some (str, args)) s next ih =
      go (putsk waits device str s) ∙ sym (before-emit str (render_all ds args) s)
    where
      go :
          (r : Option Screen)
          → elim (with_args args r) [ none ↦ none | some (args', s') ↦ next args' s' ]
            ≡ and_then r (emit (render_all ds args))
      go none = refl
      go (some s') = ih args s'
