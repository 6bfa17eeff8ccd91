-- ===== src/Config/Migrate.antt =====
-- The migration of old settings (`apply_version_defaults`, rm32/src/config.rs).
use rm32_private.Base.{
  ℕ, ◌<◌, ◌≡◌, ◌≢◌, refl, sym, ap, ◌∙◌, Bool, Bool-cases, true, false, ◌&&◌, ◌||◌, ◌==◌, ==_iff,
  ltb, leb, arith, if◌then◌else◌, inl, inr, List, [], ◌∷◌, length, length-set, get_or-set_self,
  get_or-set_ne,
}
use rm32_private.Config.{
  EepromConfig, write_byte, field_at, copy_bytes, migrated_offsets, version_defaults,
  apply_version_defaults, is_valid, eeprom_version,
}

abbrev member : ℕ → List ℕ → Bool
member k [] = false
member k (o ∷ os) = (k == o) || member k os

read_write :
    (c : EepromConfig) (o v k : ℕ)
    → k < length c.bytes
    → field_at k (write_byte o v c) ≡ (if k == o then v else field_at k c)
read_write c o v k h = elim (Bool-cases (k == o)) [
  | inl same ↦
      rw (same, (==_iff k o).0 same)
        (get_or-set_self c.bytes o v 0 (omega (arith, h, (==_iff k o).0 same)))
  | inr other ↦ rw other (get_or-set_ne c.bytes o k v 0 (λ e. ground (arith, other, e)))
]

same_value :
    (d : EepromConfig) (o k y : ℕ)
    → (if k == o then field_at o d else y) ≡ (if k == o then field_at k d else y)
same_value d o k y = elim (Bool-cases (k == o)) [
  | inl same ↦ rw (same, (==_iff k o).0 same) refl
  | inr other ↦ rw other refl
]

choice : (a b : Bool) (x y : ℕ) → (if b then x else if a then x else y) ≡ (if a || b then x else y)
choice a b x y = ground arith

copied :
    (os : List ℕ) (d c : EepromConfig) (k : ℕ)
    → k < length c.bytes
    → field_at k (copy_bytes os d c) ≡ (if member k os then field_at k d else field_at k c)
copied [] d c k h = refl
copied (o ∷ os) d c k h =
    let c1 = write_byte o (field_at o d) c in
    copied os d c1 k (omega (arith, h, length-set c.bytes o (field_at o d)))
    ∙ ap (λ (t : ℕ). if member k os then field_at k d else t)
        (read_write c o (field_at o d) k h ∙ same_value d o k (field_at k c))
    ∙ choice (k == o) (member k os) (field_at k d) (field_at k c)

length-copy_bytes :
    (os : List ℕ) (d c : EepromConfig) → length (copy_bytes os d c).bytes ≡ length c.bytes
length-copy_bytes [] d c = refl
length-copy_bytes (o ∷ os) d c =
    length-copy_bytes os d (write_byte o (field_at o d) c) ∙ length-set c.bytes o (field_at o d)

migrated : (k : ℕ) → member k migrated_offsets ≡ (leb 5 k && leb k 16)
migrated k = ground arith

length-filled :
    (b : Bool) (c : EepromConfig)
    → length (if b then copy_bytes migrated_offsets version_defaults c else c).bytes
      ≡ length c.bytes
length-filled true c = length-copy_bytes migrated_offsets version_defaults c
length-filled false c = refl

filled :
    (b : Bool) (c : EepromConfig) (k : ℕ)
    → k < length c.bytes
    → field_at k (if b then copy_bytes migrated_offsets version_defaults c else c)
      ≡ (if b && (leb 5 k && leb k 16) then field_at k version_defaults else field_at k c)
filled true c k h =
    copied migrated_offsets version_defaults c k h
    ∙ ap (λ (t : Bool). if t then field_at k version_defaults else field_at k c) (migrated k)
filled false c k h = refl

-- Migrated settings are valid and of the current version; a field that newer versions added has its
-- default if the settings were older, and every other byte but the version is kept.
pub apply_version_defaults_lem :
    (c : EepromConfig) (k : ℕ)
    → length c.bytes ≡ 192
    → k < 192
    → k ≢ 1
    → let c' = apply_version_defaults c in
      (is_valid c' ≡ true)
      × (eeprom_version c' ≡ 3)
      × (field_at k c' ≡ (
          if ltb (eeprom_version c) 3 && (leb 5 k && leb k 16)
          then field_at k version_defaults
          else field_at k c))
unfolding apply_version_defaults is_valid
apply_version_defaults_lem c k size h ne =
    let old = ltb (eeprom_version c) 3 in
    let c1 = if old then copy_bytes migrated_offsets version_defaults c else c in
    let version : field_at 1 (write_byte 1 3 c1) ≡ 3 =
      get_or-set_self c1.bytes 1 3 0 (omega (arith, size, length-filled old c)) in
    (
      ap (λ (v : ℕ). leb v 3) version,
      version,
      get_or-set_ne c1.bytes 1 k 3 0 (λ e. ne (sym e)) ∙ filled old c k (omega (arith, size)),
    )
