-- ===== src/Core/Boot/Away.antt =====
-- The information reads the same whatever the display shows, if it does not lie there.
use utero_archive.Base.{
  ℕ, zero, suc, ◌+◌, ◌≤◌, ◌<◌, ◌≡◌, ◌⊎◌, inl, inr, refl, sym, ap, ◌∙◌, arith, some, List, [], ◌∷◌,
  length, u64,
}
use utero_archive.Base.Memory.{Memory, load, load_cong}
use utero_archive.Drivers.Screen.{video_address}
use utero_archive.Drivers.Screen.Within.{SameOff}
use utero_archive.Mmu.Mmap.{ReservedAreas}
use utero_archive.Core.Boot.{
  next_tag, first_tag, sections_num, section_size, first_section, add_section, find_multiboot_tag,
  read_multiboot_info,
}
use utero_archive.Core.Boot.Tags.{TagsFrom, first_of_type, find_multiboot_tag-first}
use utero_archive.Core.Boot.Sections.{
  section_list, tag_sections, all_sections, add_all, no_areas, areas_of,
  read_multiboot_info-areas_of,
}

-- `n` bytes off the display.
abbrev pub Away : ℕ → ℕ → Type 0
Away n a = (a + n ≤ video_address) ⊎ (video_address + 3842 ≤ a)

abbrev pub AllAway : ℕ → List ℕ → Type 0
AllAway n [] = Unit {0}
AllAway n (a ∷ rest) = Away n a × AllAway n rest

-- Information with the tags `ts` before its end tag, off the display with all of its sections.
pub record IsInformation (mem : Memory) (mbi : ℕ) (ts : List ℕ) (stop : ℕ) : Type 0 where
  pub tags : TagsFrom mem (first_tag mbi) ts stop
  pub tags_away : AllAway 20 ts
  pub stop_away : Away 8 stop
  pub sections_away : AllAway 40 (all_sections mem ts)

module _ {mem mem' : Memory} (same : SameOff mem mem') where
  pub load-Away :
      (n a off k : ℕ) → Away k a → off + n ≤ k → load n mem' (a + off) ≡ load n mem (a + off)
  load-Away n a off k away fits = load_cong n mem' mem (a + off) (λ x lo hi.
      same x (elim away [ inl below ↦ inl (omega arith) | inr above ↦ inr (omega arith) ]))

  pub first-Away : (n a k : ℕ) → Away k a → n ≤ k → load n mem' a ≡ load n mem a
  first-Away n a k away fits = load_cong n mem' mem a (λ x lo hi.
      same x (elim away [ inl below ↦ inl (omega arith) | inr above ↦ inr (omega arith) ]))

  next_tag-Away : (a k : ℕ) → Away k a → 8 ≤ k → next_tag mem' a ≡ next_tag mem a
  unfolding next_tag
  next_tag-Away a k away fits = rw (load-Away 4 a 4 k away (omega arith)) refl

  TagsFrom-Away :
      (ts : List ℕ) (a stop : ℕ)
      → AllAway 20 ts
      → Away 8 stop
      → TagsFrom mem a ts stop
      → TagsFrom mem' a ts stop
  TagsFrom-Away [] a stop all last (e, type) =
      (e, rw e (first-Away 4 stop 8 last (omega arith)) ∙ ap (load 4 mem) (sym e) ∙ type)
  TagsFrom-Away (t ∷ ts) a stop (away, all) last (e, type, rest) =
      let away' : Away 20 a = rw e away in
      let kind = first-Away 4 a 20 away' (omega arith) in
      (
        e,
        λ same_end. type (sym kind ∙ same_end),
        rw (next_tag-Away a 20 away' (omega arith))
            (TagsFrom-Away ts (next_tag mem a) stop all last rest),
      )

  first_of_type-Away :
      (type : ℕ) (ts : List ℕ)
      → AllAway 20 ts
      → first_of_type mem' type ts ≡ first_of_type mem type ts
  unfolding first_of_type
  first_of_type-Away type [] all = refl
  first_of_type-Away type (t ∷ ts) (away, all) =
      rw (first-Away 4 t 20 away (omega arith), first_of_type-Away type ts all) refl

  section_list-Away :
      (n tag elf : ℕ) → Away 20 tag → section_list n mem' tag elf ≡ section_list n mem tag elf
  unfolding section_list
  section_list-Away zero tag elf away = refl
  section_list-Away (suc n) tag elf away =
      rw (load-Away 4 tag 12 20 away (omega arith))
        (ap (λ es. elf ∷ es) (section_list-Away n tag (u64 (elf + section_size mem tag)) away))

  tag_sections-Away : (t : ℕ) → Away 20 t → tag_sections mem' t ≡ tag_sections mem t
  unfolding tag_sections
  tag_sections-Away t away =
      rw
        (
          first-Away 4 t 20 away (omega arith),
          load-Away 4 t 8 20 away (omega arith),
          section_list-Away (sections_num mem t) t (first_section t) away,
        )
        refl

  all_sections-Away : (ts : List ℕ) → AllAway 20 ts → all_sections mem' ts ≡ all_sections mem ts
  unfolding all_sections
  all_sections-Away [] all = refl
  all_sections-Away (t ∷ ts) (away, all) =
      rw (tag_sections-Away t away, all_sections-Away ts all) refl

  add_section-Away :
      (e : ℕ) (r : ReservedAreas) → Away 40 e → add_section mem' e r ≡ add_section mem e r
  unfolding add_section
  add_section-Away e r away =
      rw
        (
          load-Away 4 e 4 40 away (omega arith),
          load-Away 8 e 16 40 away (omega arith),
          load-Away 8 e 32 40 away (omega arith),
        )
        refl

  add_all-Away :
      (es : List ℕ) (r : ReservedAreas) → AllAway 40 es → add_all mem' es r ≡ add_all mem es r
  unfolding add_all
  add_all-Away [] r all = refl
  add_all-Away (e ∷ es) r (away, all) =
      rw (add_section-Away e r away) (add_all-Away es (add_section mem e r) all)

  areas_of-Away :
      {mbi stop : ℕ} {ts : List ℕ}
      → IsInformation mem mbi ts stop
      → areas_of mem' mbi ts stop ≡ areas_of mem mbi ts stop
  unfolding areas_of
  areas_of-Away {mbi} {stop} {ts} i =
      rw
        (
          all_sections-Away ts i.tags_away,
          add_all-Away (all_sections mem ts) (no_areas mbi) i.sections_away,
          next_tag-Away stop 8 i.stop_away (omega arith),
        )
        refl

  pub read-Away :
      {mbi stop fuel : ℕ} {ts : List ℕ}
      → IsInformation mem mbi ts stop
      → length ts < fuel
      → read_multiboot_info fuel mem' mbi ≡ some (areas_of mem mbi ts stop)
  read-Away {mbi} {stop} {fuel} {ts} i f =
      read_multiboot_info-areas_of mem' mbi ts stop fuel
        (TagsFrom-Away ts (first_tag mbi) stop i.tags_away i.stop_away i.tags) f
      ∙ ap some (areas_of-Away i)

  pub find-Away :
      {mbi stop fuel : ℕ} {ts : List ℕ} (type : ℕ)
      → IsInformation mem mbi ts stop
      → length ts < fuel
      → find_multiboot_tag fuel mem' (first_tag mbi) type ≡ some (first_of_type mem type ts)
  find-Away {mbi} {stop} {fuel} {ts} type i f =
      find_multiboot_tag-first mem' ts (first_tag mbi) stop type fuel
        (TagsFrom-Away ts (first_tag mbi) stop i.tags_away i.stop_away i.tags) f
      ∙ ap some (first_of_type-Away type ts i.tags_away)
