-- ===== src/DshotCommands/Repeat.antt =====
-- Commands are repeated before they take effect (`process`, rm32/src/dshot_commands.rs).
use rm32_private.Base.{
  ℕ, zero, suc, ◌+◌, ◌<◌, ◌≤◌, ◌≡◌, ◌≢◌, refl, ap, ◌∙◌, Bool, true, false, ◌!=◌, not, ◌||◌, ltb,
  leb, lt→ltb, replicate, arith, if◌then◌else◌, ◌⊎◌, inl, inr, List, [], ◌∷◌,
}
use rm32_private.Base.Word.{u8}
use rm32_private.DshotCommands.{
  CommandProcessor, CommandResult, Env, no_result, put, counted, fire, after_count, execute,
  process,
}

-- The processor once it has counted the call.
counted_lem :
    (cmd : ℕ) (p : CommandProcessor)
    → p.command_count < 255
    → (ltb (counted cmd p).command_count 6 ≡ true)
      ⊎ (cmd ≤ 5)
      ⊎ ((cmd ≡ p.last_command) × (5 ≤ p.command_count))
unfolding counted
counted_lem cmd p h = ground arith

-- Nothing but the processor's counters changes, and nothing is returned, unless the motor is armed
-- and stands still, and the command is a beacon or has been received five times in a row before.
pub process-repeats :
    (cmd : ℕ) (armed running edt_arm_enable : Bool) (e : Env)
    → (e.processor).command_count < 255
    → let r = process cmd armed running edt_arm_enable e in
      ((r.1 ≡ no_result)
        × ((r.0).config ≡ e.config)
        × ((r.0).forward ≡ e.forward)
        × ((r.0).edt_armed ≡ e.edt_armed))
      ⊎ ((armed ≡ true)
          × (running ≡ false)
          × ((cmd ≤ 5) ⊎ ((cmd ≡ (e.processor).last_command) × (5 ≤ (e.processor).command_count))))
unfolding process after_count
process-repeats cmd false running en e h = inl (refl, refl, refl, refl)
process-repeats cmd true true en e h = inl (refl, refl, refl, refl)
process-repeats cmd true false en e h = elim (counted_lem cmd e.processor h) [
  | inl few ↦ inl (rw few (refl, refl, refl, refl))
  | inr due ↦ inr (refl, refl, due)
]

-- A motor that is disarmed or runs takes no command.
skips :
    (cmd : ℕ) (armed running edt_arm_enable : Bool) (e : Env)
    → ((not armed || running) ≡ false)
      ⊎ (process cmd armed running edt_arm_enable e ≡ (e, no_result))
unfolding process
skips cmd false running en e = inr refl
skips cmd true true en e = inr refl
skips cmd true false en e = inl refl

-- Calls with one command while the motor is armed and stands still, and what they return, the last
-- first.
unfoldable pub repeated : ℕ → ℕ → Bool → Env → Env × List CommandResult
repeated zero cmd edt_arm_enable e = (e, [])
repeated (suc n) cmd edt_arm_enable e =
    let before = repeated n cmd edt_arm_enable e in
    let r = process cmd true false edt_arm_enable before.0 in (r.0, r.1 ∷ before.1)

-- The processor after some calls with a new command.
abbrev pub at_count : ℕ → ℕ → Env → Env
at_count cmd n e = put (record (e.processor) { last_command = cmd; command_count = n }) e

module _ (cmd : ℕ) (5<cmd : 5 < cmd) (cmd<256 : cmd < 256) (edt_arm_enable : Bool) (e : Env) where
  counted_new :
      (e.processor).last_command ≢ cmd
      → counted cmd e.processor ≡ record (e.processor) { last_command = cmd; command_count = 1 }
  unfolding counted
  counted_new h =
      let fresh : (cmd != (e.processor).last_command) ≡ true = ground (arith, h) in
      let slow : leb cmd 5 ≡ false = ground arith in
      let byte : u8 cmd ≡ cmd = omega arith in rw (fresh, slow, byte) refl

  counted_next :
      (n : ℕ)
      → n < 255
      → counted cmd (at_count cmd n e).processor ≡ (at_count cmd (suc n) e).processor
  unfolding counted
  counted_next n h =
      let same : (cmd != cmd) ≡ false = ground arith in
      let slow : leb cmd 5 ≡ false = ground arith in
      let up : u8 (n + 1) ≡ suc n = omega arith in rw (same, slow, up) refl

  call_early :
      (d : Env) (n : ℕ)
      → n < 6
      → counted cmd d.processor ≡ (at_count cmd n e).processor
      → put (at_count cmd n e).processor d ≡ at_count cmd n e
      → process cmd true false edt_arm_enable d ≡ (at_count cmd n e, no_result)
  unfolding process after_count
  call_early d n h c p =
      ap (after_count cmd edt_arm_enable d) c
      ∙ ap
          (λ (b : Bool).
            if b
            then (put (at_count cmd n e).processor d, no_result)
            else fire cmd edt_arm_enable d (at_count cmd n e).processor)
          (lt→ltb n 6 h)
      ∙ ap (λ (x : Env). (x, no_result)) p

  call_first :
      (e.processor).last_command ≢ cmd
      → process cmd true false edt_arm_enable e ≡ (at_count cmd 1 e, no_result)
  call_first h = call_early e 1 (omega arith) (counted_new h) refl

  call_next :
      (n : ℕ)
      → n < 5
      → process cmd true false edt_arm_enable (at_count cmd n e)
        ≡ (at_count cmd (suc n) e, no_result)
  call_next n h =
      call_early (at_count cmd n e) (suc n) (omega arith) (counted_next n (omega arith)) refl

  call_last :
      process cmd true false edt_arm_enable (at_count cmd 5 e)
      ≡ fire cmd edt_arm_enable (at_count cmd 5 e) (at_count cmd 6 e).processor
  unfolding process after_count
  call_last = ap (after_count cmd edt_arm_enable (at_count cmd 5 e)) (counted_next 5 (omega arith))

  abbrev then_again : Env × List CommandResult → Env × List CommandResult
  then_again b = let r = process cmd true false edt_arm_enable b.0 in (r.0, r.1 ∷ b.1)

  repeated_early :
      (n : ℕ)
      → n < 5
      → (e.processor).last_command ≢ cmd
      → repeated (suc n) cmd edt_arm_enable e
        ≡ (at_count cmd (suc n) e, replicate (suc n) no_result)
  unfolding repeated
  repeated_early zero lt h = ap (λ (r : Env × CommandResult). (r.0, r.1 ∷ [])) (call_first h)
  repeated_early (suc n) lt h =
      ap then_again (repeated_early n (omega arith) h)
      ∙ ap (λ (r : Env × CommandResult). (r.0, r.1 ∷ replicate (suc n) no_result))
          (call_next (suc n) lt)

-- While the motor is armed and stands still, a command that is no beacon, and new to the processor,
-- returns nothing and leaves the settings and the directions alone five times; with the sixth call it
-- takes effect once, and the counter starts again. In a call with a motor that is disarmed or runs the
-- command returns nothing and changes nothing, not even the counter.
pub process-repeated :
    (cmd : ℕ)
    → 5 < cmd
    → cmd < 256
    → (edt_arm_enable armed running : Bool) (e : Env) → (e.processor).last_command ≢ cmd
    → let r = execute cmd edt_arm_enable (at_count cmd 0 e) in
      (repeated 5 cmd edt_arm_enable e ≡ (at_count cmd 5 e, replicate 5 no_result))
      × (repeated 6 cmd edt_arm_enable e
          ≡ (put (record (r.0.processor) { last_command = cmd }) r.0, r.1 ∷ replicate 5 no_result))
      × (((not armed || running) ≡ false)
          ⊎ (process cmd armed running edt_arm_enable e ≡ (e, no_result)))
unfolding repeated fire
process-repeated cmd low high en armed running e h =
    let byte : u8 cmd ≡ cmd = omega arith in
    let five = repeated_early cmd low high en e 4 (omega arith) h in
    let r = execute cmd en (at_count cmd 0 e) in
    (
      five,
      ap (then_again cmd low high en e) five
          ∙ ap (λ (x : Env × CommandResult). (x.0, x.1 ∷ replicate 5 no_result))
              (call_last cmd low high en e)
          ∙ ap
              (λ (k : ℕ). (
                put (record (r.0.processor) { last_command = k }) r.0,
                r.1 ∷ replicate 5 no_result,
              ))
              byte,
      skips cmd armed running en e,
    )
