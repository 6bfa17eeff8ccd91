-- ===== src/Drivers/Flash/Stored.antt =====
-- Writing and then reading the flash of every chip (rm32_stm32/src/flash.rs over the strategies of
-- rm32_stm32/src/mcu_f051/flash.rs and rm32_stm32/src/mcu_g431/flash.rs).
use rm32_private.Base.{
  ℕ, suc, ◌+◌, ◌*◌, ◌/◌, ◌%◌, ◌^◌, ◌≤◌, ◌<◌, ◌≡◌, ◌⊎◌, inl, inr, refl, sym, ap, ◌∙◌, arith, Bool,
  true, false, ◌==◌, List, [], ◌∷◌, ◌++◌, length, get_or,
}
use mathlib.Core.Path.{ap₂}
use mathlib.Core.List.{append_assoc}
use rm32_private.Drivers.Flash.{
  FlashPeripheral, f051, g431, unlock, erase_page, program_words, program_double_words, set_cr,
  write, flash_read,
}
use rm32_private.Drivers.Flash.Device.{Device, access, access_all}
use rm32_private.Drivers.Flash.Programming.{IsErased, IsBytes, access_all-append}
use rm32_private.Drivers.Flash.Writing.{ready, erases, ready-outside, write-halves}
use rm32_private.Drivers.Flash.DoubleWriting.{programmed, programmed-outside, programmed-at}

-- The chips by their strategy: the F051 programs half-words, the G071, the G431 and the L431 double words.
pub data Family : Type 0 where
  half_words double_words : Family

abbrev pub peripheral : Family → FlashPeripheral
peripheral half_words = f051
peripheral double_words = g431

-- The driver clears six bits for the page's number, which reach 128 kilobytes from the start of the flash.
abbrev pub IsPageStart : Family → ℕ → Type 0
IsPageStart half_words a = a % 1024 ≡ 0
IsPageStart double_words a = (a % 2048 ≡ 0) × (0x08000000 ≤ a) × (a < 0x08020000)

prepared :
    (locked eop half_open programming erasing : Bool) (a address page first_at first : ℕ)
    (byte : ℕ → ℕ)
    → let d : Device = record {
      locked = locked;
      half_open = half_open;
      programming = programming;
      erasing = erasing;
      address = address;
      page = page;
      first_at = first_at;
      first = first;
      byte = byte;
    } in
      access_all (unlock locked ++ erase_page g431 eop a) d
      ≡ record (ready 2048 (0x08000000 + 2048 * (a / 2048 % 64)) d) { page = a / 2048 % 64 }
unfolding access_all
prepared true true half_open programming erasing a address page first_at first byte = refl
prepared true false half_open programming erasing a address page first_at first byte = refl
prepared false true half_open programming erasing a address page first_at first byte = refl
prepared false false half_open programming erasing a address page first_at first byte = refl

page_address : (a : ℕ) → IsPageStart double_words a → 0x08000000 + 2048 * (a / 2048 % 64) ≡ a
page_address a h = omega (arith, h.0, h.1, h.2)

abbrev unlocked : ℕ → Device → Device
unlocked a d = record (ready 2048 a d) { page = a / 2048 % 64 }

page_start : (a : ℕ) → a % 2048 ≡ 0 → (a % 2048 == 0) ≡ true
page_start a h = ground arith

abbrev rounds : List ℕ → ℕ
rounds bytes = (length bytes + 7) / 8

write-programmed :
    (eop : Bool) (a : ℕ) (bytes : List ℕ) (d : Device)
    → IsPageStart double_words a
    → access_all (write g431 d.locked eop a bytes) d
      ≡ access (set_cr (2 ^ 31)) (programmed (rounds bytes) a bytes (unlocked a d))
unfolding write access_all program_double_words
write-programmed eop a bytes d h =
    let erase = erase_page g431 eop a in
    let program = program_words (rounds bytes) a bytes in
    let rest = program ++ (set_cr (2 ^ 31) ∷ []) in
    ap (λ t. access_all (unlock d.locked ++ (t ++ rest)) d)
      (erases (a % 2048 == 0) erase [] (page_start a h.0))
    ∙ ap (λ t. access_all t d) (sym (append_assoc (unlock d.locked) erase rest))
    ∙ access_all-append (unlock d.locked ++ erase) rest d
    ∙ ap (access_all rest) (
        prepared d.locked eop d.half_open d.programming d.erasing a d.address d.page d.first_at
          d.first d.byte
        ∙ ap (λ x. record (ready 2048 x d) { page = a / 2048 % 64 }) (page_address a h))
    ∙ access_all-append program (set_cr (2 ^ 31) ∷ []) (unlocked a d)

unlocked-IsErased :
    (a : ℕ) (d : Device) (bytes : List ℕ)
    → length bytes ≤ 2048
    → IsErased a (8 * rounds bytes) (unlocked a d)
unlocked-IsErased a d bytes small k i j = ground arith

-- Reading where every byte is known.
reads :
    (byte : ℕ → ℕ) (xs : List ℕ) (a : ℕ)
    → ((i : ℕ) → i < length xs → byte (a + i) ≡ get_or xs i 0)
    → flash_read byte (length xs) a ≡ xs
unfolding flash_read
reads byte [] a h = refl
reads byte (x ∷ xs) a h =
    ap₂ (λ (y : ℕ) (ys : List ℕ). y ∷ ys) (ap byte (omega arith) ∙ h 0 (omega arith))
      (reads byte xs (a + 1) (λ i lt. ap byte (omega arith) ∙ h (suc i) (omega arith)))

wider :
    (a k : ℕ) (bytes : List ℕ)
    → length bytes ≤ 2048
    → (k < a) ⊎ (a + 2048 ≤ k)
    → (k < a) ⊎ (a + 8 * rounds bytes ≤ k)
wider a k bytes small (inl h) = inl h
wider a k bytes small (inr h) = inr (omega arith)

write-doubles :
    (eop : Bool) (a k : ℕ) (bytes : List ℕ) (d : Device)
    → IsPageStart double_words a
    → IsBytes bytes
    → length bytes ≤ 2048
    → (k < a) ⊎ (a + 2048 ≤ k)
    → let d' = access_all (write g431 d.locked eop a bytes) d in
      (flash_read d'.byte (length bytes) a ≡ bytes) × (d'.byte k ≡ d.byte k) × (d'.locked ≡ true)
unfolding access
write-doubles eop a k bytes d h b small o =
    let done = write-programmed eop a bytes d h in
    let erased = unlocked-IsErased a d bytes small in
    let aligned : a % 8 ≡ 0 = omega (arith, h.0) in
    (
      ap (λ (t : Device). flash_read t.byte (length bytes) a) done
          ∙ reads (programmed (rounds bytes) a bytes (unlocked a d)).byte bytes a (λ i lt.
            programmed-at (rounds bytes) a i bytes (unlocked a d) aligned refl erased b
              (omega arith)),
      ap (λ (t : Device). t.byte k) done
          ∙ programmed-outside (rounds bytes) a bytes (unlocked a d) k aligned refl erased
              (wider a k bytes small o)
          ∙ ready-outside 2048 a k d.byte o,
      ap (λ (t : Device). t.locked) done,
    )

-- On every chip, by half-words on the F051 and by double words on the G071, the G431 and the L431: bytes
-- that are written at the start of a page, at most a page of them, are what is then read there, whatever
-- the flash held and whether it was locked. Outside the page nothing changes, and the flash is locked
-- afterwards. A page has 1024 bytes on the F051 and 2048 on the others, where it is one of the 64 that
-- a page number of six bits reaches.
pub write-reads :
    (chip : Family) (eop : Bool) (a k : ℕ) (bytes : List ℕ) (d : Device)
    → IsPageStart chip a
    → IsBytes bytes
    → length bytes ≤ (peripheral chip).page_size
    → (k < a) ⊎ (a + (peripheral chip).page_size ≤ k)
    → let d' = access_all (write (peripheral chip) d.locked eop a bytes) d in
      (flash_read d'.byte (length bytes) a ≡ bytes) × (d'.byte k ≡ d.byte k) × (d'.locked ≡ true)
write-reads half_words eop a k bytes d h b small o = write-halves eop a k bytes d h b small o
write-reads double_words eop a k bytes d h b small o = write-doubles eop a k bytes d h b small o
