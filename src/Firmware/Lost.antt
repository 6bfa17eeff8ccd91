-- ===== src/Firmware/Lost.antt =====
-- The settings that the main loop of the firmware saves: the interrupts take their state out of the cell
-- that `with_isr_state` (rm32_stm32/src/isr.rs) looks into.
use rm32_private.Base.{
  ◌≡◌, refl, ap, ◌∙◌, Bool, true, false, Option, none, some, [], ◌∷◌, ◌++◌, if◌then◌else◌,
}
use rm32_private.Firmware.{IsrState}
use rm32_private.Firmware.Globals.{Globals, interrupted, interrupted-takes, interrupted-first}
use rm32_private.Firmware.Boot.{Machine, flash_write}
use rm32_private.Firmware.Body.{save, config_from}

write_with : {U : Type 0} (b : Bool) (m n : Machine U) → b ≡ true → (if b then n else m) ≡ n
write_with b m n h = rw h refl

pub save-writes :
    {U : Type 0} (m : Machine U) (o : Option IsrState)
    → (m.shared).save_settings_flag ≡ true
    → (m.globals).isr_state ≡ o
    → ((save m).sent
        ≡ m.sent ++ (flash_write m.eeprom_address ((config_from o (m.main).config).bytes) ∷ []))
      × (((save m).main).config ≡ config_from o (m.main).config)
      × (((save m).shared).save_settings_flag ≡ false)
unfolding save
save-writes {U} m o h e =
    let config = config_from (m.globals).isr_state (m.main).config in
    let n : Machine U = record m {
      sent = m.sent ++ (flash_write m.eeprom_address (config.bytes) ∷ []);
      shared = record (m.shared) { save_settings_flag = false };
      main = record (m.main) { config = config };
    } in
    let same : save m ≡ n = write_with (m.shared).save_settings_flag m n h in
    let taken = λ (t : Option IsrState). config_from t (m.main).config in
    (
      ap (λ (t : Machine U). t.sent) same
          ∙ ap
              (λ (t : Option IsrState).
                m.sent ++ (flash_write m.eeprom_address ((taken t).bytes) ∷ []))
              e,
      ap (λ (t : Machine U). (t.main).config) same ∙ ap taken e,
      ap (λ (t : Machine U). (t.shared).save_settings_flag) same,
    )

kept_globals :
    {U : Type 0} (b : Bool) (m n : Machine U)
    → n.globals ≡ m.globals
    → (if b then n else m).globals ≡ m.globals
kept_globals true m n h = h
kept_globals false m n h = refl

save-globals : {U : Type 0} (m : Machine U) → (save m).globals ≡ m.globals
unfolding save
save-globals {U} m = kept_globals (m.shared).save_settings_flag m _ refl

-- A request to save is answered by writing all the settings, and withdrawn. Before any interrupt they
-- are those of the interrupts' state, which the main loop takes over. After the first interrupt they are
-- the main loop's own; what that interrupt has made of the others is left in the interrupts' cell, and
-- not saved.
pub save-stale :
    {U : Type 0} (m : Machine U) (st : IsrState) (f : IsrState → IsrState) (g' : Globals)
    → (m.shared).save_settings_flag ≡ true
    → (m.globals).isr_state ≡ some st
    → (m.globals).isr_local ≡ none
    → interrupted f m.globals ≡ some g'
    → let later = save (record m { globals = g' }) in
      ((save m).sent ≡ m.sent ++ (flash_write m.eeprom_address ((st.config).bytes) ∷ []))
      × (((save m).main).config ≡ st.config)
      × (((save m).shared).save_settings_flag ≡ false)
      × (later.sent ≡ m.sent ++ (flash_write m.eeprom_address (((m.main).config).bytes) ∷ []))
      × ((later.main).config ≡ (m.main).config)
      × ((later.shared).save_settings_flag ≡ false)
      × (later.globals ≡ record { isr_state = none; isr_local = some (f st) })
save-stale m st f g' h e l i =
    let before = save-writes m (some st) h e in
    let after =
      save-writes (record m { globals = g' }) none h (interrupted-takes f m.globals g' l i) in
    (
      before.0,
      before.1,
      before.2,
      after.0,
      after.1,
      after.2,
      save-globals (record m { globals = g' }) ∙ interrupted-first f m.globals g' st e l i,
    )
