-- ===== src/Drivers/Flash/Writing.antt =====
-- A whole write to a flash of half-words (rm32_stm32/src/flash.rs, rm32_stm32/src/mcu_f051/flash.rs), from
-- the keys to the lock.
use rm32_private.Base.{
  ℕ, ◌+◌, ◌%◌, ◌≤◌, ◌<◌, ◌≡◌, ◌⊎◌, inl, inr, refl, sym, ap, ◌∙◌, arith, Bool, true, false, ◌||◌,
  ◌==◌, List, [], ◌∷◌, ◌++◌, length, if◌then◌else◌,
}
use mathlib.Core.List.{append_assoc}
use rm32_private.Drivers.Flash.{
  FlashCall, unlock, erase_page, program_halves, f051, write, flash_read, set_cr,
}
use rm32_private.Drivers.Flash.Device.{Device, erased_page, access, access_all}
use rm32_private.Drivers.Flash.Programming.{
  IsErased, programmed, programmed-outside, programmed-reads, access_all-append, IsBytes, padded,
}

-- The unlocked flash with an erased page.
abbrev pub ready : ℕ → ℕ → Device → Device
ready size a d = record d {
  locked = false;
  half_open = d.locked || d.half_open;
  erasing = false;
  byte = erased_page size a d.byte;
}

prepared :
    (locked eop half_open programming erasing : Bool) (a address page first_at first : ℕ)
    (byte : ℕ → ℕ)
    → let d : Device = record {
      locked = locked;
      half_open = half_open;
      programming = programming;
      erasing = erasing;
      address = address;
      page = page;
      first_at = first_at;
      first = first;
      byte = byte;
    } in
      access_all (unlock locked ++ erase_page f051 eop a) d
      ≡ record (ready 1024 a d) { address = a }
unfolding access_all
prepared true true half_open programming erasing a address page first_at first byte = refl
prepared true false half_open programming erasing a address page first_at first byte = refl
prepared false true half_open programming erasing a address page first_at first byte = refl
prepared false false half_open programming erasing a address page first_at first byte = refl

pub erases : (b : Bool) (m n : List FlashCall) → b ≡ true → (if b then m else n) ≡ m
erases b m n h = rw h refl

page_start : (a : ℕ) → a % 1024 ≡ 0 → (a % 1024 == 0) ≡ true
page_start a h = ground arith

-- A write at the start of a page: what has been done when the lock is set.
write-programmed :
    (eop : Bool) (a : ℕ) (bytes : List ℕ) (d : Device)
    → a % 1024 ≡ 0
    → access_all (write f051 d.locked eop a bytes) d
      ≡ access (set_cr 128) (programmed a bytes (record (ready 1024 a d) { address = a }))
unfolding write access_all
write-programmed eop a bytes d h =
    let erase = erase_page f051 eop a in
    let rest = program_halves a bytes ++ (set_cr 128 ∷ []) in
    let start : Device = record (ready 1024 a d) { address = a } in
    ap (λ t. access_all (unlock d.locked ++ (t ++ rest)) d)
      (erases (a % 1024 == 0) erase [] (page_start a h))
    ∙ ap (λ t. access_all t d) (sym (append_assoc (unlock d.locked) erase rest))
    ∙ access_all-append (unlock d.locked ++ erase) rest d
    ∙ ap (access_all rest) (
        prepared d.locked eop d.half_open d.programming d.erasing a d.address d.page d.first_at
          d.first d.byte)
    ∙ access_all-append (program_halves a bytes) (set_cr 128 ∷ []) start

ready-IsErased :
    (a : ℕ) (d : Device) (bytes : List ℕ)
    → length bytes ≤ 1024
    → IsErased a (padded bytes) (record (ready 1024 a d) { address = a })
ready-IsErased a d bytes small k i j = ground arith

pub ready-outside :
    (size a k : ℕ) (byte : ℕ → ℕ) → (k < a) ⊎ (a + size ≤ k) → erased_page size a byte k ≡ byte k
ready-outside size a k byte o = ground arith

wider :
    (a k : ℕ) (bytes : List ℕ)
    → length bytes ≤ 1024
    → (k < a) ⊎ (a + 1024 ≤ k)
    → (k < a) ⊎ (a + padded bytes ≤ k)
wider a k bytes small (inl h) = inl h
wider a k bytes small (inr h) = inr (omega arith)

-- Bytes that are written by half-words at the start of a page of 1024.
pub write-halves :
    (eop : Bool) (a k : ℕ) (bytes : List ℕ) (d : Device)
    → a % 1024 ≡ 0
    → IsBytes bytes
    → length bytes ≤ 1024
    → (k < a) ⊎ (a + 1024 ≤ k)
    → let d' = access_all (write f051 d.locked eop a bytes) d in
      (flash_read d'.byte (length bytes) a ≡ bytes) × (d'.byte k ≡ d.byte k) × (d'.locked ≡ true)
unfolding access
write-halves eop a k bytes d h b small o =
    let start : Device = record (ready 1024 a d) { address = a } in
    let done = write-programmed eop a bytes d h in
    let erased = ready-IsErased a d bytes small in
    (
      ap (λ (t : Device). flash_read t.byte (length bytes) a) done
          ∙ programmed-reads bytes a start b refl erased,
      ap (λ (t : Device). t.byte k) done
          ∙ programmed-outside bytes a start k refl erased (wider a k bytes small o)
          ∙ ready-outside 1024 a k d.byte o,
      ap (λ (t : Device). t.locked) done,
    )
