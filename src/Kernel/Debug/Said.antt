-- ===== src/Kernel/Debug/Said.antt =====
-- Reading the boot loader's information sends these messages in order, and the areas are those of
-- the build without ENABLE_KERNEL_DEBUG.
use utero_archive.Base.{
  ℕ, zero, suc, ◌+◌, ◌<◌, ◌≡◌, inl, inr, refl, sym, ap, ◌∙◌, arith, false, ◌==◌, ltb, Option, some,
  none, List, [], ◌∷◌, ◌++◌, length, Bool-cases, u64,
}
use mathlib.Core.Option.{none-ne-some, some-injective}
use utero_archive.Base.Memory.{Memory}
use utero_archive.Core.Boot.{
  tag_type, tag_size, tag_end, tag_mmap, tag_elf_sections, next_tag, first_tag, sections_num,
  section_size, first_section, add_section, elf_loop, read_tag, tags_loop, read_multiboot_info,
}
use utero_archive.Core.Boot.Tags.{TagsFrom}
use utero_archive.Core.Boot.Sections.{
  no_areas, areas_of, tags_loop-add_all, read_multiboot_info-areas_of,
}
use utero_archive.Mmu.Mmap.{ReservedAreas}
use utero_archive.Mmu.Area.{area_entry_size, first_entry}
use utero_archive.Drivers.Screen.{Screen}
use utero_archive.Kernel.State.{Location}
use utero_archive.Kernel.Debug.Tags.{
  Message, tag_message, entry_message, section_message, announced, total,
}
use utero_archive.Kernel.Debug.Reading.{
  and_next, say, say_given, entries_told, sections_told, with_areas, read_tag_told, tags_told,
  read_multiboot_info_told,
}
use utero_archive.Kernel.Debug.Messages.{
  entry_messages, section_messages, single, tag_messages, all_messages, next_cong, next_assoc,
  next_id, next_swap, next_some,
}

module _ (waits : ℕ) (at : ℕ → Location) where
  unfoldable pub say_all : List Message → Screen → Option Screen
  say_all [] s = some s
  say_all (m ∷ ms) s = and_next (say waits at m s) (say_all ms)

  say_all-append :
      (xs ys : List Message) (s : Screen)
      → say_all (xs ++ ys) s ≡ and_next (say_all xs s) (say_all ys)
  unfolding say_all
  say_all-append [] ys s = refl
  say_all-append (x ∷ xs) ys s =
      next_cong (say waits at x s) (say_all (xs ++ ys))
        (λ s'. and_next (say_all xs s') (say_all ys)) (say_all-append xs ys)
      ∙ sym (next_assoc (say waits at x s) (say_all xs) (say_all ys))

  entries_told-say_all :
      (fuel : ℕ) (mem : Memory) (tag mmap : ℕ) (ms : List Message) (s : Screen)
      → entry_messages fuel mem tag mmap ≡ some ms
      → entries_told waits at fuel mem tag mmap s ≡ say_all ms s
  unfolding entries_told entry_messages say_all
  entries_told-say_all zero mem tag mmap ms s e = absurd (none-ne-some _ e)
  entries_told-say_all (suc fuel) mem tag mmap ms s e =
      elim (Bool-cases (ltb mmap (tag + tag_size mem tag))) [
        | inl more ↦
            let following = u64 (mmap + area_entry_size mem tag) in
            let first = entry_message mem mmap in
            let (ms', found, whole) =
              next_some (entry_messages fuel mem tag following) (λ ms. some (first ∷ ms)) ms
                (rw (more, entry_messages) at e) in
            let same : first ∷ ms' ≡ ms = some-injective _ _ whole in
            rw (sym same, more)
              (next_cong (say waits at first s)
                (λ s'. entries_told waits at fuel mem tag following s') (say_all ms')
                (λ s'. entries_told-say_all fuel mem tag following ms' s' found))
        | inr over ↦
            let same : [] ≡ ms = some-injective _ _ (rw (over, entry_messages) at e) in
            rw (sym same, over) refl
      ]

  sections_told-say_all :
      (left i : ℕ) (mem : Memory) (tag elf : ℕ) (r : ReservedAreas) (s : Screen)
      → sections_told waits at left i mem tag elf r s
        ≡ with_areas (elf_loop left mem tag elf r) (say_all (section_messages left i mem tag elf) s)
  unfolding sections_told elf_loop section_messages say_all
  sections_told-say_all zero i mem tag elf r s = refl
  sections_told-say_all (suc left) i mem tag elf r s =
      let following = u64 (elf + section_size mem tag) in
      let r' = add_section mem elf r in
      let ms = section_messages left (i + 1) mem tag following in
      let first = say waits at (section_message mem i elf) s in
      next_cong first (λ s'. sections_told waits at left (i + 1) mem tag following r' s')
        (λ s'. with_areas (elf_loop left mem tag following r') (say_all ms s'))
        (sections_told-say_all left (i + 1) mem tag following r')
      ∙ sym (next_assoc first (say_all ms) (λ s'. some (elf_loop left mem tag following r', s')))

  say_given-say_all :
      (o : Option Message) (ms : List Message) (s : Screen)
      → single o ≡ some ms
      → say_given waits at o s ≡ say_all ms s
  unfolding say_given say_all
  say_given-say_all none ms s e = absurd (none-ne-some _ e)
  say_given-say_all (some m) ms s e =
      let same : m ∷ [] ≡ ms = some-injective _ _ e in
      next_id (say waits at m s) ∙ ap (λ ms. say_all ms s) same

  read_tag_told-say_all :
      (room : ℕ) (mem : Memory) (tag : ℕ) (ms : List Message) (r : ReservedAreas) (s : Screen)
      → tag_messages room mem tag ≡ some ms
      → read_tag_told waits at room mem tag r s ≡ with_areas (read_tag mem tag r) (say_all ms s)
  unfolding read_tag_told read_tag tag_messages
  read_tag_told-say_all room mem tag ms r s e = elim (Bool-cases (tag_type mem tag == tag_mmap)) [
    | inl map ↦
        let plain : (tag_type mem tag == tag_elf_sections) ≡ false = ground arith in
        rw (map, plain)
          (ap (with_areas r) (
            entries_told-say_all room mem tag (first_entry tag) ms s (rw (map, tag_messages) at e)))
    | inr other ↦ elim (Bool-cases (tag_type mem tag == tag_elf_sections)) [
      | inl elf ↦
          let same = some-injective _ _ (rw (other, elf, tag_messages) at e) in
          rw (other, elf, sym same)
            (sections_told-say_all (sections_num mem tag) 0 mem tag (first_section tag) r s)
      | inr plain ↦
          rw (other, plain)
            (ap (with_areas r) (
              say_given-say_all (tag_message room mem tag) ms s
                (rw (other, plain, tag_messages) at e)))
    ]
  ]

  tags_told-say_all :
      (ts : List ℕ) (room fuel : ℕ) (mem : Memory) (tag stop : ℕ) (ms : List Message)
      (r : ReservedAreas) (s : Screen)
      → TagsFrom mem tag ts stop
      → length ts < fuel
      → all_messages room mem ts ≡ some ms
      → tags_told waits at fuel room mem tag r s
        ≡ and_next (tags_loop fuel mem tag r) (λ r'. with_areas r' (say_all ms s))
  unfolding tags_told tags_loop all_messages say_all
  tags_told-say_all ts room zero mem tag stop ms r s h f e = absurd (omega arith)
  tags_told-say_all [] room (suc fuel) mem tag stop ms r s (same, last) f e =
      let none_left : [] ≡ ms = some-injective _ _ e in rw (sym none_left, last) refl
  tags_told-say_all (t ∷ ts) room (suc fuel) mem tag stop ms r s (same, more, rest) f e =
      let go_on : (tag_type mem tag == tag_end) ≡ false = ground arith in
      let (m1, one, others) =
        next_some (tag_messages room mem t)
          (λ ms. and_next (all_messages room mem ts) (λ rest. some (ms ++ rest))) ms e in
      let (m2, two, whole) =
        next_some (all_messages room mem ts) (λ rest. some (m1 ++ rest)) ms others in
      let parts : m1 ++ m2 ≡ ms = some-injective _ _ whole in
      let r1 = read_tag mem tag r in
      let following = next_tag mem tag in
      let loop = tags_loop fuel mem following r1 in
      let go = λ (p : ReservedAreas × Screen). tags_told waits at fuel room mem following p.0 p.1 in
      rw (go_on, sym parts)
        (ap (λ o. and_next o go)
            (read_tag_told-say_all room mem tag m1 r s (ap (tag_messages room mem) same ∙ one))
          ∙ next_assoc (say_all m1 s) (λ s'. some (r1, s')) go
          ∙ next_cong (say_all m1 s) (λ s'. go (r1, s'))
              (λ s'. and_next loop (λ r'. with_areas r' (say_all m2 s')))
              (λ s'.
                tags_told-say_all ts room fuel mem following stop m2 r1 s' rest (omega arith) two)
          ∙ next_swap (say_all m1 s) loop (λ s' r'. with_areas r' (say_all m2 s'))
          ∙ next_cong loop (λ r'. and_next (say_all m1 s) (λ s'. with_areas r' (say_all m2 s')))
              (λ r'. with_areas r' (say_all (m1 ++ m2) s))
              (λ r'.
                sym (next_assoc (say_all m1 s) (say_all m2) (λ s'. some (r', s')))
                ∙ ap (with_areas r') (sym (say_all-append m1 m2 s))))

  -- On tags that end, with one unit of fuel more than there are tags and where the loops over
  -- memory maps and the texts of tags end, reading the information in the build with
  -- ENABLE_KERNEL_DEBUG is sending a list of messages in order, the announced size, then those of
  -- each tag, entry and section, and the total size at the end, and answering what the build
  -- without it answers; where a message is not sent, there is no answer.
  pub read_multiboot_info_told-say_all :
      (ts : List ℕ) (room fuel : ℕ) (mem : Memory) (mbi stop : ℕ) (ms : List Message) (s : Screen)
      → TagsFrom mem (first_tag mbi) ts stop
      → length ts < fuel
      → all_messages room mem ts ≡ some ms
      → read_multiboot_info_told waits at fuel room mem mbi s
        ≡ and_next (read_multiboot_info fuel mem mbi) (λ r.
          with_areas r
            (say_all (announced mem mbi ∷ (ms ++ (total (next_tag mem stop) mbi ∷ []))) s))
  unfolding read_multiboot_info_told say_all areas_of
  read_multiboot_info_told-say_all ts room fuel mem mbi stop ms s h f e =
      let r = areas_of mem mbi ts stop in
      let final = total (next_tag mem stop) mbi in
      let read = read_multiboot_info-areas_of mem mbi ts stop fuel h f in
      let loop : tags_loop fuel mem (first_tag mbi) (no_areas mbi) ≡ some r =
        tags_loop-add_all mem ts (first_tag mbi) stop fuel (no_areas mbi) h f in
      let first = say waits at (announced mem mbi) s in
      let answer = λ (p : ReservedAreas × Screen).
        with_areas p.0 (say waits at (total p.0.multiboot_end mbi) p.1) in
      let behind : (s1 : Screen)
          → and_next (tags_told waits at fuel room mem (first_tag mbi) (no_areas mbi) s1) answer
            ≡ with_areas r (say_all (ms ++ (final ∷ [])) s1) =
        λ s1.
          ap (λ o. and_next o answer)
            (tags_told-say_all ts room fuel mem (first_tag mbi) stop ms (no_areas mbi) s1 h f e
              ∙ ap (λ o. and_next o (λ r'. with_areas r' (say_all ms s1))) loop)
          ∙ next_assoc (say_all ms s1) (λ s2. some (r, s2)) answer
          ∙ next_cong (say_all ms s1) (λ s2. answer (r, s2))
              (λ s2. with_areas r (say_all (final ∷ []) s2))
              (λ s2. ap (with_areas r) (next_id (say waits at final s2)))
          ∙ sym (next_assoc (say_all ms s1) (say_all (final ∷ [])) (λ s2. some (r, s2)))
          ∙ ap (with_areas r) (sym (say_all-append ms (final ∷ []) s1)) in
      rw read (
        next_cong first
          (λ s1.
            and_next (tags_told waits at fuel room mem (first_tag mbi) (no_areas mbi) s1) answer)
          (λ s1. with_areas r (say_all (ms ++ (final ∷ [])) s1)) behind
        ∙ sym (next_assoc first (say_all (ms ++ (final ∷ []))) (λ s1. some (r, s1))))
