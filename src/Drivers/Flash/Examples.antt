-- ===== src/Drivers/Flash/Examples.antt =====
-- Runs of the flash.
use rm32_private.Base.{◌≡◌, inl, refl, arith, true, false, [], ◌∷◌}
use rm32_private.Drivers.Flash.{
  f051, g431, half_of, write, flash_read, word_of, store_word, set_cr, clear_cr, wait_bsy,
  program_double_words, program_halves,
}
use rm32_private.Drivers.Flash.Device.{Device, access_all}
use rm32_private.Drivers.Flash.Stored.{double_words, write-reads}

-- A locked flash with other bytes in the page.
abbrev full : Device
full = record {
  locked = true;
  half_open = false;
  programming = false;
  erasing = false;
  address = 0;
  page = 0;
  first_at = 0;
  first = 0;
  byte = λ a. 17;
}

write-reads_example :
    let d' = access_all (write g431 true false 0x0800F800 (1 ∷ 3 ∷ 200 ∷ [])) full in
    (flash_read d'.byte 3 0x0800F800 ≡ 1 ∷ 3 ∷ 200 ∷ [])
    × (d'.byte 0x0800F7FF ≡ 17)
    × (d'.locked ≡ true)
write-reads_example =
    write-reads double_words false 0x0800F800 0x0800F7FF (1 ∷ 3 ∷ 200 ∷ []) full
      (refl, omega arith, omega arith) (omega arith, (omega arith, (omega arith, omega arith)))
      (omega arith) (inl (omega arith))

-- The same by half-words, and past the bytes: the first is padded with 255, the other with 0.
padding :
    ((access_all (write f051 true true 0x08007C00 (1 ∷ [])) full).byte 0x08007C01 ≡ 255)
    × ((access_all (write g431 true true 0x0800F800 (1 ∷ [])) full).byte 0x0800F801 ≡ 0)
unfolding write access_all program_halves program_double_words half_of word_of
padding = (refl, refl)

-- Programming again what is not erased does nothing.
kept : (access_all (write f051 true false 0x7C02 (1 ∷ 3 ∷ [])) full).byte 0x7C02 ≡ 17
unfolding write access_all program_halves
kept = refl

-- Nine bytes are two double words.
two_double_words :
    program_double_words 0 (1 ∷ 2 ∷ 3 ∷ 4 ∷ 5 ∷ 6 ∷ 7 ∷ 8 ∷ 9 ∷ [])
    ≡ set_cr 1
      ∷ store_word 0 0x04030201
      ∷ store_word 4 0x08070605
      ∷ wait_bsy
      ∷ clear_cr 1
      ∷ set_cr 1
      ∷ store_word 8 9
      ∷ store_word 12 0
      ∷ wait_bsy
      ∷ clear_cr 1
      ∷ []
unfolding program_double_words word_of
two_double_words = refl
