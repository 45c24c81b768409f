-- ===== src/Kernel/Debug/Messages.antt =====
-- The messages of the build with ENABLE_KERNEL_DEBUG as lists, and steps that may have no result.
use utero_archive.Base.{
  ℕ, zero, suc, ◌+◌, ◌≡◌, refl, ◌==◌, ltb, if◌then◌else◌, Option, some, none, List, [], ◌∷◌, ◌++◌,
  u64,
}
use mathlib.Core.Option.{none-ne-some}
use utero_archive.Base.Memory.{Memory}
use utero_archive.Core.Boot.{
  tag_type, tag_size, tag_mmap, tag_elf_sections, sections_num, section_size, first_section,
}
use utero_archive.Mmu.Area.{area_entry_size, first_entry}
use utero_archive.Kernel.Debug.Tags.{Message, tag_message, entry_message, section_message}
use utero_archive.Kernel.Debug.Reading.{and_next}

-- The messages of a memory map, of a tag's sections, and of a tag.
unfoldable pub entry_messages : ℕ → Memory → ℕ → ℕ → Option (List Message)
entry_messages zero mem tag mmap = none
entry_messages (suc fuel) mem tag mmap =
    let rest = entry_messages fuel mem tag (u64 (mmap + area_entry_size mem tag)) in
    if ltb mmap (tag + tag_size mem tag)
    then and_next rest (λ ms. some (entry_message mem mmap ∷ ms))
    else some []

unfoldable pub section_messages : ℕ → ℕ → Memory → ℕ → ℕ → List Message
section_messages zero i mem tag elf = []
section_messages (suc left) i mem tag elf =
    section_message mem i elf
    ∷ section_messages left (i + 1) mem tag (u64 (elf + section_size mem tag))

abbrev pub single : Option Message → Option (List Message)
single none = none
single (some m) = some (m ∷ [])

unfoldable pub tag_messages : ℕ → Memory → ℕ → Option (List Message)
tag_messages room mem tag =
    if tag_type mem tag == tag_mmap
    then entry_messages room mem tag (first_entry tag)
    else if tag_type mem tag == tag_elf_sections
    then some (section_messages (sections_num mem tag) 0 mem tag (first_section tag))
    else single (tag_message room mem tag)

unfoldable pub all_messages : ℕ → Memory → List ℕ → Option (List Message)
all_messages room mem [] = some []
all_messages room mem (t ∷ ts) =
    and_next (tag_messages room mem t)
      (λ ms. and_next (all_messages room mem ts) (λ rest. some (ms ++ rest)))

pub next_cong :
    {A B : Type 0} (o : Option A) (f g : A → Option B)
    → ((a : A) → f a ≡ g a)
    → and_next o f ≡ and_next o g
next_cong none f g h = refl
next_cong (some a) f g h = h a

pub next_assoc :
    {A B C : Type 0} (o : Option A) (f : A → Option B) (g : B → Option C)
    → and_next (and_next o f) g ≡ and_next o (λ a. and_next (f a) g)
next_assoc none f g = refl
next_assoc (some a) f g = refl

pub next_id : {A : Type 0} (o : Option A) → o ≡ and_next o some
next_id none = refl
next_id (some a) = refl

pub next_swap :
    {A B C : Type 0} (o : Option A) (p : Option B) (f : A → B → Option C)
    → and_next o (λ a. and_next p (f a)) ≡ and_next p (λ b. and_next o (λ a. f a b))
next_swap none none f = refl
next_swap none (some b) f = refl
next_swap (some a) p f = refl

pub next_some :
    {A B : Type 0} (o : Option A) (f : A → Option B) (b : B)
    → and_next o f ≡ some b
    → (a : A) × (o ≡ some a) × (f a ≡ some b)
next_some none f b e = absurd (none-ne-some _ e)
next_some (some a) f b e = (a, refl, e)
