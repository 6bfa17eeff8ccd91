-- ===== src/Isr/Arming.antt =====
-- How long arming takes (`ten_khz_tick`, rm32/src/control/isr_logic.rs).
use rm32_private.Base.{
  ℕ, ◌+◌, ◌<◌, ◌≤◌, ◌≡◌, ◌∙◌, Bool, true, not, ◌&&◌, ◌==◌, ltb, arith, if◌then◌else◌, List, [], ◌∷◌,
  length, suc,
}
use rm32_private.Base.Word.{u32}
use rm32_private.MotorMode.{disarmed, armed}
use rm32_private.Shared.{mode}
use rm32_private.Config.{EepromConfig}
use rm32_private.Isr.{Context, Reads, ten_khz_tick}
use rm32_private.Isr.Disarmed.{ten_khz_tick-disarmed}

-- What the main loop has published before a tick, and what the hardware answers in it.
pub record Round : Type 0 where
  pub throttle : ℕ
  pub set : Bool
  pub reads : Reads

abbrev publish : Round → Context → Context
publish r c = record c {
  shared = record (c.shared) { adjusted_input = r.throttle; input_set = r.set };
}

unfoldable pub ticks : EepromConfig → Bool → List Round → Context → Context
ticks config voltage_based [] c = c
ticks config voltage_based (r ∷ rs) c =
    ticks config voltage_based rs (ten_khz_tick config voltage_based r.reads (publish r c))

-- Rounds in which the throttle is set and zero.
unfoldable pub at_rest : List Reads → List Round
at_rest [] = []
at_rest (r ∷ rs) = record { throttle = 0; set = true; reads = r } ∷ at_rest rs

module _ (idle : Bool) (k : ℕ) (k≤20000 : k < 20001) where
  stays : suc k ≤ 20000 → (if idle && ltb 20000 (u32 (k + 1)) then armed else disarmed) ≡ disarmed
  stays h = ground arith

  count_up :
      suc k ≤ 20000 → (if idle && not (ltb 20000 (u32 (k + 1))) then u32 (k + 1) else 0) ≤ suc k
  count_up h = ground arith

-- The motor is not armed before 20001 ticks: from a disarmed motor, as long as the count and the
-- number of ticks together do not pass 20000, it stays disarmed, whatever throttle the main loop
-- publishes.
pub ticks-disarmed :
    (config : EepromConfig) (voltage_based : Bool) (rs : List Round) (c : Context)
    → mode c.shared ≡ disarmed
    → length rs + c.armed_timeout_count ≤ 20000
    → mode (ticks config voltage_based rs c).shared ≡ disarmed
unfolding ticks mode
ticks-disarmed config vb [] c h bound = h
ticks-disarmed config vb (r ∷ rs) c h bound =
    let idle = r.set && (r.throttle == 0) in
    let t = ten_khz_tick-disarmed config vb r.reads (publish r c) h in
    ticks-disarmed config vb rs (ten_khz_tick config vb r.reads (publish r c))
      (t.1 ∙ stays idle c.armed_timeout_count (omega arith) (omega arith))
      (omega (arith, t.2, count_up idle c.armed_timeout_count (omega arith) (omega arith)))

goes_on :
    (k : ℕ) → k < 20000 → (if true && ltb 20000 (u32 (k + 1)) then armed else disarmed) ≡ disarmed
goes_on k h = ground arith

count_on :
    (k : ℕ) → k < 20000 → (if true && not (ltb 20000 (u32 (k + 1))) then u32 (k + 1) else 0) ≡ suc k
count_on k h = ground arith

arms_now :
    (k : ℕ) → k ≡ 20000 → (if true && ltb 20000 (u32 (k + 1)) then armed else disarmed) ≡ armed
arms_now k h = ground arith

-- Arming does happen: at the tick that takes the count of a disarmed motor to 20001, with the
-- throttle set and zero in every tick until then, the motor is armed.
pub ticks-armed :
    (config : EepromConfig) (voltage_based : Bool) (r : Reads) (rs : List Reads) (c : Context)
    → mode c.shared ≡ disarmed
    → length rs + c.armed_timeout_count ≡ 20000
    → mode (ticks config voltage_based (at_rest (r ∷ rs)) c).shared ≡ armed
unfolding ticks at_rest mode
ticks-armed config vb r [] c h bound =
    let now = publish (record { throttle = 0; set = true; reads = r }) c in
    (ten_khz_tick-disarmed config vb r now h).1 ∙ arms_now c.armed_timeout_count (omega arith)
ticks-armed config vb r (q ∷ rs) c h bound =
    let now = publish (record { throttle = 0; set = true; reads = r }) c in
    let t = ten_khz_tick-disarmed config vb r now h in
    ticks-armed config vb q rs (ten_khz_tick config vb r now)
      (t.1 ∙ goes_on c.armed_timeout_count (omega arith))
      (omega (arith, t.2, count_on c.armed_timeout_count (omega arith)))
