-- ===== src/DshotCommands/Programming.antt =====
-- Writing a setting over DShot (`process_programming`, rm32/src/dshot_commands.rs).
use rm32_private.Base.{
  ℕ, ◌<◌, ◌≡◌, ◌≢◌, refl, ap, ◌∙◌, Bool, false, ◌==◌, lt→ltb, arith, if◌then◌else◌, List, [], ◌∷◌,
  Option, some, length, get_or-set_self, get_or-set_ne,
}
use rm32_private.Base.Word.{u8}
use rm32_private.Config.{EepromConfig, write_byte, field_at}
use rm32_private.DshotCommands.{
  CommandProcessor, CommandResult, programming_commit, process_programming,
}

-- A sequence of frames in programming mode.
unfoldable pub frames : List ℕ → CommandProcessor → EepromConfig → CommandProcessor × EepromConfig
frames [] p config = (p, config)
frames (v ∷ vs) p config = let r = process_programming v p config in frames vs r.0 r.1

-- None of the values is the one that commits.
abbrev pub Waits : List ℕ → Type 0
Waits [] = Unit
Waits (v ∷ vs) = (v ≢ 37) × Waits vs

-- The processor that waits for the commit.
abbrev ready : CommandProcessor → ℕ → ℕ → CommandProcessor
ready p position byte = record p { position = position; programming_mode = 3; new_byte = byte }

waits :
    (vs : List ℕ) (p : CommandProcessor) (position byte : ℕ) (config : EepromConfig)
    → Waits vs
    → frames vs (ready p position byte) config ≡ (ready p position byte, config)
unfolding frames process_programming
waits [] p position byte config h = refl
waits (v ∷ vs) p position byte config h =
    let no : (v == 37) ≡ false = ground (arith, h.0) in rw no (waits vs p position byte config h.1)

-- Programming a byte: in programming mode a position, a byte, any frames but 37, and then 37 write the
-- byte at that position, where it is read back, and leave programming mode; nothing is written before,
-- and no other byte is changed.
pub process_programming-frames :
    (p : CommandProcessor) (config : EepromConfig) (position byte : ℕ) (vs : List ℕ) (other : ℕ)
    → position < 192
    → byte < 256
    → Waits vs
    → length config.bytes ≡ 192
    → position ≢ other
    → let s = frames (position ∷ byte ∷ vs) (record p { programming_mode = 1 }) config in
      let r = process_programming 37 s.0 s.1 in
      (s.1 ≡ config)
      × ((r.0).programming_mode ≡ 0)
      × (r.2 ≡ some (programming_commit position byte))
      × (field_at position r.1 ≡ byte)
      × (field_at other r.1 ≡ field_at other config)
unfolding frames process_programming
process_programming-frames p config position byte vs other in_range is_byte w size ne =
    let word : u8 byte ≡ byte = omega arith in
    let e =
      waits vs p position (u8 byte) config w ∙ ap (λ (b : ℕ). (ready p position b, config)) word in
    let f =
      ap (λ (s : CommandProcessor × EepromConfig). process_programming 37 s.0 s.1) e
      ∙ ap
          (λ (b : Bool). (
            record (ready p position byte) { programming_mode = 0 },
            if b then write_byte position byte config else config,
            some (programming_commit position byte),
          ))
          (lt→ltb position 192 in_range) in
    (
      ap (λ (s : CommandProcessor × EepromConfig). s.1) e,
      ap (λ (r : CommandProcessor × EepromConfig × Option CommandResult). (r.0).programming_mode) f,
      ap (λ (r : CommandProcessor × EepromConfig × Option CommandResult). r.2) f,
      ap (λ (r : CommandProcessor × EepromConfig × Option CommandResult). field_at position r.1) f
          ∙ get_or-set_self config.bytes position byte 0 (omega (arith, size, in_range)),
      ap (λ (r : CommandProcessor × EepromConfig × Option CommandResult). field_at other r.1) f
          ∙ get_or-set_ne config.bytes position other byte 0 ne,
    )
