-- ===== src/Config/Examples.antt =====
-- Runs of the settings.
use rm32_private.Base.{◌≡◌, refl, true, arith, ◌&&◌, ltb, leb, if◌then◌else◌}
use rm32_private.Config.{
  zeroed, field_at, version_defaults, apply_version_defaults, is_valid, eeprom_version,
}
use rm32_private.Config.Migrate.{apply_version_defaults_lem}

apply_version_defaults_lem_example :
    let c' = apply_version_defaults zeroed in
    (is_valid c' ≡ true)
    × (eeprom_version c' ≡ 3)
    × (field_at 5 c' ≡ (
        if ltb (eeprom_version zeroed) 3 && (leb 5 5 && leb 5 16)
        then field_at 5 version_defaults
        else field_at 5 zeroed))
apply_version_defaults_lem_example =
    apply_version_defaults_lem zeroed 5 refl (omega arith) (λ e. omega arith)

full_ramp : field_at 5 (apply_version_defaults zeroed) ≡ 160
unfolding apply_version_defaults version_defaults
full_ramp = refl
