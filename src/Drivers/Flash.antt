-- ===== src/Drivers/Flash.antt =====
-- Reading and writing the flash (rm32_stm32/src/flash.rs), with the programming strategies of
-- rm32_stm32/src/mcu_f051/flash.rs and of the other three (mcu_g431, mcu_g071 and mcu_l431 have the same).
-- A write is the list of its register accesses. The reads of the two registers are its arguments.
pub mod Device
pub mod Programming
pub mod Writing
pub mod DoubleWords
pub mod DoubleWriting
pub mod Stored
mod Examples
use rm32_private.Base.{
  ℕ, zero, suc, ◌+◌, ◌*◌, ◌/◌, ◌%◌, ◌^◌, bit_or, Bool, ◌==◌, List, [], ◌∷◌, ◌++◌, length, get_or,
  take, drop, if◌then◌else◌,
}

-- `set_cr` and `clear_cr` are `modify_cr` with `v | mask` and `v & !mask`; `select_page` is the access
-- that also replaces the page number.
pub data FlashCall : Type 0 where
  wait_bsy : FlashCall
  write_keyr write_sr write_ar set_cr clear_cr : ℕ → FlashCall
  select_page : ℕ → ℕ → FlashCall
  store_half store_word : ℕ → ℕ → FlashCall

pub record FlashPeripheral : Type 0 where
  pub lock_bit : ℕ
  pub per_bit : ℕ
  pub page_size : ℕ
  pub erase_page_impl : ℕ → ℕ → List FlashCall
  pub program_impl : ℕ → List ℕ → List FlashCall

-- Two bytes, the lower first.
unfoldable pub half_of : ℕ → ℕ → ℕ
half_of low high = bit_or low (high * 2 ^ 8)

unfoldable pub program_halves : ℕ → List ℕ → List FlashCall
unfolding half_of
program_halves address [] = []
program_halves address (x ∷ []) =
    set_cr 1 ∷ store_half address (half_of x 255) ∷ wait_bsy ∷ clear_cr 1 ∷ []
program_halves address (x ∷ y ∷ rest) =
    set_cr 1
    ∷ store_half address (half_of x y)
    ∷ wait_bsy
    ∷ clear_cr 1
    ∷ program_halves (address + 2) rest

abbrev pub erase_by_address : ℕ → ℕ → List FlashCall
erase_by_address address page_size = set_cr 2 ∷ write_ar address ∷ set_cr 64 ∷ []

abbrev pub f051 : FlashPeripheral
f051 = record {
  lock_bit = 2 ^ 7;
  per_bit = 2;
  page_size = 0x400;
  erase_page_impl = erase_by_address;
  program_impl = program_halves;
}

-- Up to four bytes as a word, the lowest first; what is past the end is zero.
unfoldable pub word_of : List ℕ → ℕ
word_of bytes =
    bit_or
      (bit_or (bit_or (get_or bytes 0 0) (get_or bytes 1 0 * 2 ^ 8)) (get_or bytes 2 0 * 2 ^ 16))
      (get_or bytes 3 0 * 2 ^ 24)

abbrev pub program_words : ℕ → ℕ → List ℕ → List FlashCall
program_words zero address bytes = []
program_words (suc rounds) address bytes =
    set_cr 1
    ∷ store_word address (word_of (take 4 bytes))
    ∷ store_word (address + 4) (word_of (take 4 (drop 4 bytes)))
    ∷ wait_bsy
    ∷ clear_cr 1
    ∷ program_words rounds (address + 8) (drop 8 bytes)

unfoldable pub program_double_words : ℕ → List ℕ → List FlashCall
program_double_words address bytes = program_words ((length bytes + 7) / 8) address bytes

abbrev pub erase_by_number : ℕ → ℕ → List FlashCall
erase_by_number address page_size = select_page 2 (address / page_size) ∷ set_cr (2 ^ 16) ∷ []

abbrev pub g431 : FlashPeripheral
g431 = record {
  lock_bit = 2 ^ 31;
  per_bit = 2;
  page_size = 0x800;
  erase_page_impl = erase_by_number;
  program_impl = program_double_words;
}

abbrev pub unlock : Bool → List FlashCall
unlock locked =
    wait_bsy ∷ (if locked then write_keyr 0x45670123 ∷ write_keyr 0xCDEF89AB ∷ [] else [])

abbrev pub erase_page : FlashPeripheral → Bool → ℕ → List FlashCall
erase_page f eop address =
    (f.erase_page_impl) address f.page_size
    ++ (wait_bsy ∷ ((if eop then write_sr 32 ∷ [] else []) ++ (clear_cr f.per_bit ∷ [])))

-- `locked` and `eop` are what the control and the status register show.
unfoldable pub write : FlashPeripheral → Bool → Bool → ℕ → List ℕ → List FlashCall
write f locked eop address bytes =
    unlock locked
    ++ ((if address % f.page_size == 0 then erase_page f eop address else [])
        ++ ((f.program_impl) address bytes ++ (set_cr f.lock_bit ∷ [])))

-- The flash is mapped into the memory.
unfoldable pub flash_read : (ℕ → ℕ) → ℕ → ℕ → List ℕ
flash_read byte zero address = []
flash_read byte (suc n) address = byte address ∷ flash_read byte n (address + 1)
