-- ===== src/Examples/Debug.antt =====
-- The build with ENABLE_KERNEL_DEBUG at a concrete input.
use utero_archive.Base.{ℕ, ◌≡◌, refl, arith, some, List, [], ◌∷◌, ◌++◌}
use utero_archive.Base.Memory.{load}
use utero_archive.Base.Text.{codes}
use utero_archive.Core.Boot.{next_tag, read_multiboot_info}
use utero_archive.Kernel.State.{Location}
use utero_archive.Kernel.Debug.Tags.{Message, entry_message, section_message, announced, total}
use utero_archive.Kernel.Debug.Reading.{and_next, with_areas, read_multiboot_info_told}
use utero_archive.Kernel.Debug.Messages.{
  entry_messages, section_messages, tag_messages, all_messages,
}
use utero_archive.Kernel.Debug.Said.{say_all, read_multiboot_info_told-say_all}
use utero_archive.Examples.Boot.{image, tags, image-TagsFrom}
use utero_archive.Examples.Kernel.{running}

abbrev boot_line : ℕ → Location
boot_line n = record { file = codes "boot.c"; line = n; function = codes "read_multiboot_info" }

abbrev image_messages : List Message
image_messages = section_message image 0 0x901C ∷ entry_message image 0x9070 ∷ []

image_messages_lem : all_messages 2 image tags ≡ some image_messages
unfolding all_messages tag_messages entry_messages section_messages load
image_messages_lem = refl

read_multiboot_info_told-say_all_example :
    read_multiboot_info_told 9 boot_line 3 2 image 0x9000 running.screen
    ≡ and_next (read_multiboot_info 3 image 0x9000) (λ r. with_areas r (
        say_all 9 boot_line
          (announced image 0x9000 ∷ (image_messages ++ (total (next_tag image 0x9088) 0x9000 ∷ [])))
          running.screen))
read_multiboot_info_told-say_all_example =
    read_multiboot_info_told-say_all 9 boot_line tags 2 3 image 0x9000 0x9088 image_messages
      running.screen image-TagsFrom (omega arith) image_messages_lem
