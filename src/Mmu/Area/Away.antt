-- ===== src/Mmu/Area/Away.antt =====
-- The memory map reads the same whatever the display shows, if it does not lie there.
use utero_archive.Base.{
  ℕ, zero, suc, ◌+◌, ◌*◌, ◌^◌, ◌≤◌, ◌<◌, ◌≡◌, ◌⊎◌, inl, inr, refl, ap, ◌∙◌, arith, some,
}
use utero_archive.Base.Memory.{Memory}
use utero_archive.Drivers.Screen.{video_address}
use utero_archive.Drivers.Screen.Within.{SameOff}
use utero_archive.Core.Boot.Away.{Away, load-Away, first-Away}
use utero_archive.Mmu.Area.{area_size, area_entry_size, first_entry, entry_at, memory_area}
use utero_archive.Mmu.Area.Entries.{entry_list, entries_from-entry_list}

-- A tag with `n` entries, off the display.
pub record IsArea (mem : Memory) (tag n : ℕ) : Type 0 where
  pub entry : 20 ≤ area_entry_size mem tag
  pub size : area_size mem tag ≡ 16 + n * area_entry_size mem tag
  pub room : tag + area_size mem tag < 2 ^ 64
  pub away : Away (area_size mem tag) tag

module _ {mem mem' : Memory} (same : SameOff mem mem') where
  entry_at-Away : (e : ℕ) → Away 20 e → entry_at mem' e ≡ entry_at mem e
  entry_at-Away e away =
      rw
        (
          first-Away same 8 e 20 away (omega arith),
          load-Away same 8 e 8 20 away (omega arith),
          load-Away same 4 e 16 20 away (omega arith),
        )
        refl

  entry_list-Away :
      (n size e stop : ℕ)
      → 20 ≤ size
      → e + n * size ≡ stop
      → (stop ≤ video_address) ⊎ (video_address + 3842 ≤ e)
      → entry_list n mem' size e ≡ entry_list n mem size e
  unfolding entry_list
  entry_list-Away zero size e stop fits at away = refl
  entry_list-Away (suc n) size e stop fits at away =
      let here : Away 20 e = elim away [
        | inl below ↦ inl (omega arith)
        | inr above ↦ inr (omega arith)
      ] in
      let later : (stop ≤ video_address) ⊎ (video_address + 3842 ≤ e + size) = elim away [
        | inl below ↦ inl below
        | inr above ↦ inr (omega arith)
      ] in
      rw (entry_at-Away e here, entry_list-Away n size (e + size) stop fits (omega arith) later)
        refl

  pub area-Away :
      (n fuel tag : ℕ)
      → IsArea mem tag n
      → n < fuel
      → memory_area fuel mem' tag
        ≡ some (entry_list n mem (area_entry_size mem tag) (first_entry tag))
  unfolding memory_area
  area-Away n fuel tag a f =
      let big : 16 ≤ area_size mem tag = omega (arith, a.size) in
      let entry_size = load-Away same 4 tag 8 (area_size mem tag) a.away (omega (arith, big)) in
      let size = load-Away same 4 tag 4 (area_size mem tag) a.away (omega (arith, big)) in
      let step = area_entry_size mem tag in
      let stop : first_entry tag + n * step ≡ tag + area_size mem tag = omega (arith, a.size) in
      let list =
        entries_from-entry_list n fuel mem' tag (first_entry tag)
          (rw entry_size (omega (arith, a.entry))) (rw (entry_size, size) stop) (rw size a.room)
          f in
      let off : (tag + area_size mem tag ≤ video_address)
          ⊎ (video_address + 3842 ≤ first_entry tag) =
        elim a.away [ inl below ↦ inl below | inr above ↦ inr (omega arith) ] in
      list
      ∙ rw entry_size (
          ap some
            (entry_list-Away n step (first_entry tag) (tag + area_size mem tag) a.entry stop off))
