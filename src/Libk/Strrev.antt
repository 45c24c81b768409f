-- ===== src/Libk/Strrev.antt =====
-- `strrev` (src/libk/strrev.c): a string reversed in place. A string is the list of its bytes up
-- to the terminator; `none` is an access outside of it.
use utero_archive.Base.{
  ℕ, zero, suc, ◌+◌, ◌-◌, ◌^◌, ◌≤◌, ◌<◌, ◌≡◌, refl, ◌∙◌, ap, sym, true, false, ◌⊎◌, inl, inr,
  Option, none, some, List, [], ◌∷◌, reverse, arith, ltb, if◌then◌else◌, length, get_elem?, set,
  length-set, length-reverse, get_elem?-set, get_elem?-some, get_elem?-reverse, get_elem?_ext, u64,
  ◌==◌, Bool-cases,
}

-- The loop at `i` and `j`. The fuel bounds the rounds.
unfoldable pub strrev_loop : ℕ → ℕ → ℕ → List ℕ → Option (List ℕ)
strrev_loop zero i j s = none
strrev_loop (suc fuel) i j s =
    if ltb i j
    then elim (get_elem? s i) [
      | none ↦ none
      | some c ↦ elim (get_elem? s j) [
        | none ↦ none
        | some d ↦ strrev_loop fuel (i + 1) (j - 1) (set (set s i d) j c)
      ]
    ]
    else some s

-- `strlen(s) - 1` is of type `size_t`, and wraps on the empty string.
unfoldable pub strrev : List ℕ → Option (List ℕ)
strrev s = strrev_loop (length s + 1) 0 (u64 (length s + 2 ^ 64 - 1)) s

-- The loop exchanges the items from `i` to `j`, and leaves the others.
record IsReversed (i j : ℕ) (s : List ℕ) (result : Option (List ℕ)) : Type 0 where
  out : List ℕ
  returns : result ≡ some out
  same_length : length out ≡ length s
  inside : (k : ℕ) → i ≤ k → k ≤ j → get_elem? out k ≡ get_elem? s (i + j - k)
  outside : (k : ℕ) → (k < i) ⊎ (j < k) → get_elem? out k ≡ get_elem? s k

abbrev swapped : List ℕ → ℕ → ℕ → ℕ → ℕ → List ℕ
swapped s i j c d = set (set s i d) j c

get_elem?-swapped :
    (s : List ℕ) (i j c d k : ℕ)
    → i < j
    → j < length s
    → get_elem? (swapped s i j c d) k
      ≡ (if k == j then some c else if k == i then some d else get_elem? s k)
get_elem?-swapped s i j c d k h b =
    get_elem?-set (set s i d) j k c (omega (arith, length-set {0} s i d))
    ∙ rw (get_elem?-set s i k d (omega arith)) refl

IsReversed-swapped :
    {s : List ℕ} {i j c d : ℕ} {result : Option (List ℕ)}
    → i < j
    → j < length s
    → get_elem? s i ≡ some c
    → get_elem? s j ≡ some d
    → IsReversed (i + 1) (j - 1) (swapped s i j c d) result
    → IsReversed i j s result
IsReversed-swapped {s} {i} {j} {c} {d} h b ci dj rest = record {
  out = rest.out;
  returns = rest.returns;
  same_length = rest.same_length ∙ length-set (set s i d) j c ∙ length-set s i d;
  inside = λ k p q. ground (
    arith,
    rest.inside k,
    rest.outside k,
    get_elem?-swapped s i j c d k h b,
    get_elem?-swapped s i j c d (i + 1 + (j - 1) - k) h b,
  );
  outside = λ k p. ground (arith, rest.outside k, get_elem?-swapped s i j c d k h b);
}

IsReversed-here : {s : List ℕ} {i j : ℕ} → j ≤ i → IsReversed i j s (some s)
IsReversed-here {s} {i} {j} h = record {
  out = s;
  returns = refl;
  same_length = refl;
  inside = λ k p q. ap (get_elem? s) (omega arith);
  outside = λ k p. refl;
}

strrev_loop-IsReversed :
    (fuel i j : ℕ) (s : List ℕ)
    → j < length s
    → j < i + fuel
    → 0 < fuel
    → IsReversed i j s (strrev_loop fuel i j s)
strrev_loop-IsReversed zero i j s b f p = absurd (omega arith)
strrev_loop-IsReversed (suc fuel) i j s b f p = elim (Bool-cases (ltb i j)) [
  | inl lt ↦
      let h : i < j = ground arith in
      let (c, ci) = get_elem?-some s i (omega arith) in
      let (d, dj) = get_elem?-some s j b in
      let rest =
        strrev_loop-IsReversed fuel (i + 1) (j - 1) (swapped s i j c d)
          (omega (arith, length-set {0} (set s i d) j c, length-set {0} s i d)) (omega arith)
          (omega arith) in
      IsReversed-swapped h b ci dj (rw (enters lt ci dj) rest)
  | inr ge ↦ rw (leaves ge) (IsReversed-here (ground arith))
]
  where
    enters :
        {c d : ℕ}
        → ltb i j ≡ true
        → get_elem? s i ≡ some c
        → get_elem? s j ≡ some d
        → strrev_loop (suc fuel) i j s ≡ strrev_loop fuel (i + 1) (j - 1) (swapped s i j c d)
    enters lt ci dj = unfold strrev_loop in rw (lt, ci, dj) refl

    leaves : ltb i j ≡ false → strrev_loop (suc fuel) i j s ≡ some s
    leaves ge = unfold strrev_loop in rw ge refl

-- A string that is not empty is reversed, with no access outside of it. On the empty string the
-- loop's upper index wraps, and it runs out of the string.
pub strrev-reverse :
    (s : List ℕ) → length s < 2 ^ 64 → strrev s ≡ (if length s == 0 then none else some (reverse s))
unfolding strrev
strrev-reverse [] h = unfold strrev_loop in refl
strrev-reverse (x ∷ xs) h = rw (last, nonempty) (r.returns ∙ ap some same)
  where
    nonempty : (suc (length xs) == 0) ≡ false
    nonempty = ground arith

    last : u64 (suc (length xs) + 2 ^ 64 - 1) ≡ length xs
    last = omega arith

    r : IsReversed 0 (length xs) (x ∷ xs) (strrev_loop (suc (length xs) + 1) 0 (length xs) (x ∷ xs))
    r =
        strrev_loop-IsReversed (suc (length xs) + 1) 0 (length xs) (x ∷ xs) (omega arith)
          (omega arith) (omega arith)

    at_index : (k : ℕ) → k < length r.out → get_elem? r.out k ≡ get_elem? (reverse (x ∷ xs)) k
    at_index k b =
        r.inside k (omega arith) (omega (arith, r.same_length))
        ∙ ap (get_elem? (x ∷ xs)) (omega arith)
        ∙ sym (get_elem?-reverse (x ∷ xs) k (omega (arith, r.same_length)))

    same : r.out ≡ reverse (x ∷ xs)
    same =
        get_elem?_ext r.out (reverse (x ∷ xs)) (r.same_length ∙ sym (length-reverse (x ∷ xs)))
          at_index
