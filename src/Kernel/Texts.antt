-- ===== src/Kernel/Texts.antt =====
-- The texts that the kernel prints: that they have no tabs, and how many cells of the screen they
-- take at most. They are put together from the parts of a format and the texts of its conversions.
pub mod Stack
use utero_archive.Base.{
  ℕ, suc, ◌+◌, ◌-◌, ◌%◌, ◌^◌, ◌≤◌, ◌<◌, ◌≡◌, ◌≢◌, inl, inr, refl, ap, ◌∙◌, arith, false, ◌==◌, ltb,
  some, List, [], ◌∷◌, ◌++◌, length, Bool-cases, u32,
}
use utero_archive.Drivers.Screen.Within.{has_tab, cells, cells_of}
use utero_archive.Libk.Itoa.Digits.{AllDigits}
use utero_archive.Libk.Itoa.{itoa}
use utero_archive.Libk.Itoa.Lengths.{itoa-Writes}
use utero_archive.Libk.Itoa.Numbers.{itoa_negative}
use utero_archive.Base.Int.{pos, negsuc}
use utero_archive.Libk.Printfk.{Arg, word, text, signed}
use utero_archive.Libk.Printfk.Render.{
  Directive, plain, conversion, before, render_all, render_directive, render_take_word,
  render_take_text, render_word,
}
use utero_archive.Libk.Printfk.Conversions.{render_d-Denotes, render_X-Denotes, fits}

-- A text without tabs.
abbrev pub NoTab : List ℕ → Type 0
NoTab str = has_tab str ≡ false

pub NoTab-head : (c : ℕ) (str : List ℕ) → NoTab (c ∷ str) → (c ≢ b'\t') × NoTab str
NoTab-head c str p = ground arith

pub NoTab-append : (xs ys : List ℕ) → NoTab xs → NoTab ys → NoTab (xs ++ ys)
NoTab-append [] ys p q = q
NoTab-append (x ∷ xs) ys p q =
    let (no_tab, others) = NoTab-head x xs p in
    let not_x : (x == b'\t') ≡ false = ground arith in rw not_x (NoTab-append xs ys others q)

cells-append : (xs ys : List ℕ) → cells (xs ++ ys) ≡ cells xs + cells ys
cells-append [] ys = omega arith
cells-append (x ∷ xs) ys = ap (λ n. cells_of x + n) (cells-append xs ys) ∙ omega arith

pub AllDigits-cells : (base : ℕ) (str : List ℕ) → AllDigits base str → cells str ≡ length str
AllDigits-cells base [] d = refl
AllDigits-cells base (c ∷ str) (digit, rest) =
    let not_c : (c == b'\n') ≡ false = ground (arith, digit.0) in
    rw not_c (omega (arith, AllDigits-cells base str rest))

pub AllDigits-NoTab : (base : ℕ) (str : List ℕ) → AllDigits base str → NoTab str
AllDigits-NoTab base [] d = refl
AllDigits-NoTab base (c ∷ str) (digit, rest) =
    let not_c : (c == b'\t') ≡ false = ground (arith, digit.0) in
    rw not_c (AllDigits-NoTab base str rest)

-- A word and the text that a conversion prints for it, of `most` cells at most.
pub record Shows (spec leftpad n most : ℕ) : Type 0 where
  pub str : List ℕ
  pub prints : render_word spec leftpad n ≡ some str
  pub plain : NoTab str
  pub short : cells str ≤ most

pub d-Shows : (n leftpad : ℕ) → n < 2 ^ 31 → leftpad ≤ 10 → Shows b'd' leftpad n 10
d-Shows n leftpad h p =
    let (str, e, d, long, short) = render_d-Denotes n leftpad h in
    record {
      str = str;
      prints = e;
      plain = AllDigits-NoTab 10 str d.digits;
      short = ground (arith, AllDigits-cells 10 str d.digits, short);
    }

pub X-Shows : (n : ℕ) → n < 2 ^ 64 → Shows b'X' 0 n 16
X-Shows n h =
    let (str, e, d, short) = render_X-Denotes n 0 h in
    record {
      str = str;
      prints = e;
      plain = AllDigits-NoTab 16 str d.digits;
      short = omega (arith, AllDigits-cells 16 str d.digits, short);
    }

abbrev pub plains : List ℕ → List Directive → List Directive
plains [] ds = ds
plains (c ∷ str) ds = plain c ∷ plains str ds

-- A list of directives stands for a text without tabs, of `most` cells at most.
pub record Renders (most : ℕ) (ds : List Directive) (args : List Arg) : Type 0 where
  pub str : List ℕ
  pub renders : render_all ds args ≡ some str
  pub plain : NoTab str
  pub short : cells str ≤ most

pub Renders-most :
    {n m : ℕ} {ds : List Directive} {args : List Arg}
    → n ≤ m
    → Renders n ds args
    → Renders m ds args
Renders-most le r = record {
  str = r.str;
  renders = r.renders;
  plain = r.plain;
  short = omega (arith, r.short);
}

pub nothing : (args : List Arg) → Renders 0 [] args
unfolding render_all
nothing args = record { str = []; renders = refl; plain = refl; short = omega arith }

plains-before :
    (lit : List ℕ) (ds : List Directive) (args : List Arg) (str : List ℕ)
    → render_all ds args ≡ some str
    → render_all (plains lit ds) args ≡ some (lit ++ str)
unfolding render_all render_directive
plains-before [] ds args str e = e
plains-before (c ∷ lit) ds args str e = ap (before (c ∷ [])) (plains-before lit ds args str e)

pub then_plains :
    (lit : List ℕ) {n : ℕ} {ds : List Directive} {args : List Arg}
    → NoTab lit
    → Renders n ds args
    → Renders (cells lit + n) (plains lit ds) args
then_plains lit {ds = ds} {args = args} p r = record {
  str = lit ++ r.str;
  renders = plains-before lit ds args r.str r.renders;
  plain = NoTab-append lit r.str p r.plain;
  short = omega (arith, cells-append lit r.str, r.short);
}

pub then_text :
    {t : List ℕ} {m : ℕ} {ds : List Directive} {args : List Arg}
    → NoTab t
    → Renders m ds args
    → Renders (cells t + m) (conversion b's' 0 ∷ ds) (text t ∷ args)
unfolding render_all render_directive render_take_text
then_text {t} p r = record {
  str = t ++ r.str;
  renders = ap (before t) r.renders;
  plain = NoTab-append t r.str p r.plain;
  short = omega (arith, cells-append t r.str, r.short);
}

pub then_d :
    {leftpad n w m : ℕ} {ds : List Directive} {args : List Arg}
    → Shows b'd' leftpad n w
    → Renders m ds args
    → Renders (w + m) (conversion b'd' leftpad ∷ ds) (word n ∷ args)
unfolding render_all render_directive render_take_word
then_d p r = record {
  str = p.str ++ r.str;
  renders = rw (p.prints, render_all) (ap (before p.str) r.renders);
  plain = NoTab-append p.str r.str p.plain r.plain;
  short = omega (arith, cells-append p.str r.str, p.short, r.short);
}

pub then_X :
    {n w m : ℕ} {ds : List Directive} {args : List Arg}
    → Shows b'X' 0 n w
    → Renders m ds args
    → Renders (w + m) (conversion b'X' 0 ∷ ds) (word n ∷ args)
unfolding render_all render_directive render_take_word
then_X p r = record {
  str = p.str ++ r.str;
  renders = rw (p.prints, render_all) (ap (before p.str) r.renders);
  plain = NoTab-append p.str r.str p.plain r.plain;
  short = omega (arith, cells-append p.str r.str, p.short, r.short);
}

-- `%x` prints a number from 2^31 on as one wrong character, which is no tab either.
pub x-Shows : (n : ℕ) → n < 2 ^ 32 → Shows b'x' 0 n 8
unfolding render_word
x-Shows n h = elim (Bool-cases (ltb n (2 ^ 31))) [
  | inl low ↦
      let small : n < 2 ^ 31 = ground arith in
      let w = itoa-Writes 16 (omega arith) (omega arith) n 7 small (omega arith) in
      let same : signed (u32 n) ≡ pos n = ground arith in
      record {
        str = w.str;
        prints = rw same (fits 16 n 8 (itoa (pos n) 16) w (omega arith));
        plain = AllDigits-NoTab 16 w.str w.denotes.digits;
        short = omega (arith, AllDigits-cells 16 w.str w.denotes.digits, w.short);
      }
  | inr high ↦
      let m = 2 ^ 32 - 1 - n in
      let same : signed (u32 n) ≡ negsuc m = ground arith in
      let c = b'0' - suc m % 16 in
      let no_tab : (c == b'\t') ≡ false = ground arith in
      record {
        str = c ∷ [];
        prints =
            rw (same, itoa_negative m 16 (omega arith) (omega arith) (λ e. absurd (omega arith)))
              refl;
        plain = rw no_tab refl;
        short = ground arith;
      }
]

pub then_x :
    {n w m : ℕ} {ds : List Directive} {args : List Arg}
    → Shows b'x' 0 n w
    → Renders m ds args
    → Renders (w + m) (conversion b'x' 0 ∷ ds) (word n ∷ args)
unfolding render_all render_directive render_take_word
then_x p r = record {
  str = p.str ++ r.str;
  renders = rw (p.prints, render_all) (ap (before p.str) r.renders);
  plain = NoTab-append p.str r.str p.plain r.plain;
  short = omega (arith, cells-append p.str r.str, p.short, r.short);
}
