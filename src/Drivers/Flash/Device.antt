-- ===== src/Drivers/Flash/Device.antt =====
-- A flash that follows the accesses of the drivers (rm32_stm32/src/mcu_f051/flash.rs,
-- rm32_stm32/src/mcu_g431/flash.rs): locked until both keys came, erased by pages to 255, and programmed
-- only where it is erased, by half-words (F051) or by double words (the other three).
use rm32_private.Base.{
  ℕ, zero, suc, ◌+◌, ◌*◌, ◌^◌, ◌/◌, ◌%◌, Bool, true, false, not, ◌&&◌, ◌==◌, leb, ltb, List, [],
  ◌∷◌, if◌then◌else◌,
}
use rm32_private.Drivers.Flash.{
  FlashCall, wait_bsy, write_keyr, write_sr, write_ar, set_cr, clear_cr, select_page, store_half,
  store_word,
}

pub record Device : Type 0 where
  pub locked : Bool
  pub half_open : Bool
  pub programming : Bool
  pub erasing : Bool
  pub address : ℕ
  pub page : ℕ
  pub first_at : ℕ
  pub first : ℕ
  pub byte : ℕ → ℕ

abbrev pub stored : ℕ → ℕ → (ℕ → ℕ) → ℕ → ℕ
stored a v byte k = if k == a then v % 256 else if k == a + 1 then v / 256 else byte k

-- The four bytes of a word, the lowest first.
abbrev pub stored_word : ℕ → ℕ → (ℕ → ℕ) → ℕ → ℕ
stored_word a v byte k =
    if k == a
    then v % 256
    else if k == a + 1
    then v / 256 % 256
    else if k == a + 2
    then v / 65536 % 256
    else if k == a + 3
    then v / 16777216 % 256
    else byte k

abbrev pub erased_page : ℕ → ℕ → (ℕ → ℕ) → ℕ → ℕ
erased_page size a byte k = if leb a k && ltb k (a + size) then 255 else byte k

abbrev pub erase : ℕ → ℕ → Device → Device
erase size a d = record d {
  byte = if d.erasing && not d.locked then erased_page size a d.byte else d.byte;
}

abbrev pub lock_again : Device → Device
lock_again d = record d { locked = true; half_open = false }

-- A key out of order leaves it locked.
abbrev key : ℕ → Device → Device
key k d =
    if k == 0x45670123
    then record d { half_open = true }
    else record d { locked = d.locked && not (d.half_open && (k == 0xCDEF89AB)) }

-- The start bits are bit 6 (F051, by the address) and bit 16 (by the page's number), the lock bits 7 and
-- 31. The flash is mapped from 0x08000000.
abbrev pub set_bit : ℕ → Device → Device
set_bit mask d =
    if mask == 1
    then record d { programming = true }
    else if mask == 2
    then record d { erasing = true }
    else if mask == 64
    then erase 1024 d.address d
    else if mask == 128
    then lock_again d
    else if mask == 2 ^ 16
    then erase 2048 (0x08000000 + 2048 * d.page) d
    else if mask == 2 ^ 31
    then lock_again d
    else d

abbrev pub clear_bit : ℕ → Device → Device
clear_bit mask d =
    if mask == 1
    then record d { programming = false }
    else if mask == 2
    then record d { erasing = false }
    else d

-- A half-word can be programmed where both bytes are erased.
abbrev pub free : ℕ → Device → Bool
free a d = not d.locked && d.programming && (d.byte a == 255) && (d.byte (a + 1) == 255)

abbrev pub all_erased : ℕ → ℕ → (ℕ → ℕ) → Bool
all_erased zero a byte = true
all_erased (suc n) a byte = (byte a == 255) && all_erased n (a + 1) byte

-- The first word of a double word is held, the second programs both.
abbrev pub store_second : ℕ → ℕ → Device → Device
store_second a v d =
    if not d.locked && d.programming && (d.first_at + 4 == a) && all_erased 8 d.first_at d.byte
    then record d { byte = stored_word a v (stored_word d.first_at d.first d.byte) }
    else d

-- The field of the page's number has six bits.
unfoldable pub access : FlashCall → Device → Device
access wait_bsy d = d
access (write_keyr k) d = key k d
access (write_sr v) d = d
access (write_ar a) d = record d { address = a }
access (set_cr mask) d = set_bit mask d
access (clear_cr mask) d = clear_bit mask d
access (select_page bits page) d = record (set_bit bits d) { page = page % 64 }
access (store_half a v) d = record d { byte = if free a d then stored a v d.byte else d.byte }
access (store_word a v) d =
    if a % 8 == 0 then record d { first_at = a; first = v } else store_second a v d

unfoldable pub access_all : List FlashCall → Device → Device
unfolding access
access_all [] d = d
access_all (c ∷ cs) d = access_all cs (access c d)
