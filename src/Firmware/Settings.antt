-- ===== src/Firmware/Settings.antt =====
-- The settings across a restart: what `main` of rm32_stm32/src/bin/main.rs saves is what it loads.
use rm32_private.Base.{
  ℕ, zero, suc, ◌≤◌, ◌<◌, ◌≡◌, refl, sym, ap, ◌∙◌, arith, Bool, true, false, not, ltb, leb, inl,
  List, [], ◌∷◌, ◌++◌, length, set, get_or, if◌then◌else◌,
}
use rm32_private.Config.{
  EepromConfig, is_valid, eeprom_version, copy_bytes, migrated_offsets, version_defaults,
  apply_version_defaults, write_byte, zeroed,
}
use rm32_private.Sensors.{FixedPoint}
use rm32_private.MainLoop.{apply_motor_config}
use rm32_private.Drivers.Flash.{write, flash_read}
use rm32_private.Drivers.Flash.Device.{Device, access_all}
use rm32_private.Drivers.Flash.Programming.{IsBytes}
use rm32_private.Drivers.Flash.Stored.{
  Family, half_words, double_words, peripheral, IsPageStart, write-reads,
}
use rm32_private.Firmware.Boot.{
  Machine, Board, Chip, MainCall, flash_write, load_config, eeprom_address_of, boot,
}
use rm32_private.Firmware.Body.{save, config_from}
use rm32_private.Firmware.Lost.{save-writes}

-- The flash of a chip after a call of the main loop, and after its calls.
abbrev pub flash_effect : Family → Bool → MainCall → Device → Device
flash_effect family eop (flash_write a bytes) d =
    access_all (write (peripheral family) d.locked eop a bytes) d
flash_effect family eop _ d = d

unfoldable pub flashed : Family → Bool → List MainCall → Device → Device
flashed family eop [] d = d
flashed family eop (c ∷ cs) d = flashed family eop cs (flash_effect family eop c d)

flashed-append :
    (family : Family) (eop : Bool) (cs : List MainCall) (c : MainCall) (d : Device)
    → flashed family eop (cs ++ (c ∷ [])) d ≡ flash_effect family eop c (flashed family eop cs d)
unfolding flashed
flashed-append family eop [] c d = refl
flashed-append family eop (b ∷ cs) c d =
    flashed-append family eop cs c (flash_effect family eop b d)

set_same : (xs : List ℕ) (i v : ℕ) → i < length xs → get_or xs i 0 ≡ v → set xs i v ≡ xs
set_same [] i v h e = absurd (omega arith)
set_same (x ∷ xs) zero v h e = ap (λ y. y ∷ xs) (sym e)
set_same (x ∷ xs) (suc i) v h e = ap (λ ys. x ∷ ys) (set_same xs i v (omega arith) e)

not_migrated :
    (old : Bool) (x c : EepromConfig)
    → old ≡ false
    → write_byte 1 3 (if old then x else c) ≡ write_byte 1 3 c
not_migrated old x c h = rw h refl

not_replaced :
    (valid : Bool) (x c : EepromConfig)
    → valid ≡ true
    → apply_version_defaults (if not valid then x else c) ≡ apply_version_defaults c
not_replaced valid x c h = rw h refl

apply_version_defaults-current :
    (c : EepromConfig) → length c.bytes ≡ 192 → eeprom_version c ≡ 3 → apply_version_defaults c ≡ c
unfolding apply_version_defaults
apply_version_defaults-current c h e =
    not_migrated (ltb (eeprom_version c) 3) (copy_bytes migrated_offsets version_defaults c) c
      (ap (λ v. ltb v 3) e)
    ∙ ap (λ bytes. record { bytes = bytes }) (set_same c.bytes 1 3 (omega arith) e)

load_config-current :
    (c : EepromConfig) → length c.bytes ≡ 192 → eeprom_version c ≡ 3 → load_config c.bytes ≡ c
unfolding load_config is_valid
load_config-current c h e =
    not_replaced (leb (eeprom_version c) 3) zeroed c (ap (λ v. leb v 3) e)
    ∙ apply_version_defaults-current c h e

-- Every page holds the settings.
fits :
    (family : Family) (bytes : List ℕ)
    → length bytes ≡ 192
    → length bytes ≤ (peripheral family).page_size
fits half_words bytes h = omega arith
fits double_words bytes h = omega arith

-- The bootloader's byte, which a page above it does not hold.
same_address :
    (word b c : ℕ → ℕ) (start : ℕ)
    → c 0xFEC ≡ b 0xFEC
    → eeprom_address_of word c start ≡ eeprom_address_of word b start
unfolding eeprom_address_of
same_address word b c start h = rw h refl

module _ {U : Type 0} where
  boot-loads :
      (fixed : FixedPoint U) (board : Board) (chip : Chip) (word byte : ℕ → ℕ)
      → let address = eeprom_address_of word byte chip.eeprom_start in
        let m = boot fixed board chip word byte in
        ((m.main).config ≡ load_config (flash_read byte 192 address)) × (m.eeprom_address ≡ address)
  unfolding boot apply_version_defaults apply_motor_config
  boot-loads fixed board chip word byte = (refl, refl)

  abbrev pub to_save : Machine U → EepromConfig
  to_save m = config_from (m.globals).isr_state (m.main).config

  -- On every chip, those with half-words and those with double words: settings that the main loop is
  -- asked to save are those that the next start loads, from the same place, where they are 192 bytes of
  -- the current version, and the place is the one that a start finds and starts a page of the flash above
  -- the bootloader's information.
  pub boot-save :
      (fixed : FixedPoint U) (board : Board) (chip : Chip) (word : ℕ → ℕ) (family : Family)
      (eop : Bool) (d0 : Device) (m : Machine U)
      → (m.shared).save_settings_flag ≡ true
      → m.eeprom_address
        ≡ eeprom_address_of word (flashed family eop m.sent d0).byte chip.eeprom_start
      → IsPageStart family m.eeprom_address
      → 0x1000 ≤ m.eeprom_address
      → IsBytes (to_save m).bytes
      → length (to_save m).bytes ≡ 192
      → eeprom_version (to_save m) ≡ 3
      → let m' = boot fixed board chip word (flashed family eop (save m).sent d0).byte in
        ((m'.main).config ≡ to_save m)
        × (((save m).main).config ≡ to_save m)
        × (m'.eeprom_address ≡ m.eeprom_address)
  boot-save fixed board chip word family eop d0 m flag at page above b size current =
      let config = to_save m in
      let address = m.eeprom_address in
      let d = flashed family eop m.sent d0 in
      let d' = flashed family eop (save m).sent d0 in
      let saved = save-writes m (m.globals).isr_state flag refl in
      let same : d' ≡ access_all (write (peripheral family) d.locked eop address config.bytes) d =
        ap (λ cs. flashed family eop cs d0) saved.0
        ∙ flashed-append family eop m.sent (flash_write address config.bytes) d0 in
      let written =
        write-reads family eop address 0xFEC config.bytes d page b (fits family config.bytes size)
          (inl (omega arith)) in
      let there : eeprom_address_of word d'.byte chip.eeprom_start ≡ address =
        same_address word d.byte d'.byte chip.eeprom_start
          (ap (λ (t : Device). t.byte 0xFEC) same ∙ written.1)
        ∙ sym at in
      let read : flash_read d'.byte 192 address ≡ config.bytes =
        ap (λ n. flash_read d'.byte n address) (sym size)
        ∙ ap (λ (t : Device). flash_read t.byte (length config.bytes) address) same
        ∙ written.0 in
      let loads = boot-loads fixed board chip word d'.byte in
      (
        loads.0
            ∙ ap (λ a. load_config (flash_read d'.byte 192 a)) there
            ∙ ap load_config read
            ∙ load_config-current config size current,
        saved.1,
        loads.1 ∙ there,
      )
