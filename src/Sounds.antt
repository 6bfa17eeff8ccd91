-- ===== src/Sounds.antt =====
-- Tones played on the motor (rm32/src/sounds.rs). A tune is the list of the calls it makes of the PWM
-- timer, the phases and the system, in their order; `none` is a panic.
pub mod Tunes
pub mod Quiet
mod Examples
use rm32_private.Base.{
  ℕ, zero, suc, ◌+◌, ◌-◌, ◌*◌, ◌/◌, Bool, ◌&&◌, ◌==◌, ◌!=◌, ltb, Option, none, some, List, [], ◌∷◌,
  ◌++◌, get_or, ◌>>=◌, if◌then◌else◌,
}
use rm32_private.Base.Word.{u16, u32}

pub record Sounds : Type 0 where
  pub volume : ℕ
  pub tim1_autoreload : ℕ

pub data Call : Type 0 where
  auto_reload prescaler duty_all com_step delay_millis : ℕ → Call
  all_off reload_watchdog disable_irq enable_irq : Call

abbrev pub new : ℕ → Sounds
new tim1_autoreload = record { volume = 15; tim1_autoreload = tim1_autoreload }

unfoldable pub set_volume : ℕ → Sounds → Sounds
set_volume volume s = record s { volume = (if ltb 11 volume then 11 else volume) * 3 }

unfoldable pub play_note : Sounds → ℕ → ℕ → ℕ → List Call
play_note s psc step duration_ms =
    auto_reload s.tim1_autoreload
    ∷ prescaler psc
    ∷ duty_all s.volume
    ∷ com_step step
    ∷ delay_millis duration_ms
    ∷ reload_watchdog
    ∷ []

unfoldable pub silence : Sounds → List Call
silence s = all_off ∷ prescaler 0 ∷ auto_reload s.tim1_autoreload ∷ []

-- `self.volume as u32 * reload / self.tim1_autoreload as u32`, which divides by zero at 0.
unfoldable pub scaled_volume : Sounds → ℕ → Option ℕ
scaled_volume s reload =
    if s.tim1_autoreload == 0 then none else some (u32 (s.volume * reload) / s.tim1_autoreload)

-- A note of a BlueJay tune. The period is at least 4247, so that the frequency is between 149 and
-- 2354 and neither division is by zero.
unfoldable pub tune_note : Sounds → ℕ → ℕ → ℕ → ℕ → Option (List Call)
unfolding scaled_volume
tune_note s cpu_mhz count t4 t3 =
    let total_pulses = u32 (count * 255 + t4) in
    let t3_period = t3 * 247 + 4000 in
    let duration = u32 (total_pulses * t3_period) / 11000 in
    let freq = 10000000 / t3_period in
    let timer_reload = u32 (cpu_mhz * 100000) / freq in
    do
      duty ← scaled_volume s timer_reload
      some (
          prescaler 9
          ∷ auto_reload (u16 timer_reload)
          ∷ duty_all (u16 duty)
          ∷ delay_millis duration
          ∷ [])

-- One pair of bytes: the calls for it, and the count for the next pair.
unfoldable pub tune_pair : Sounds → ℕ → ℕ → ℕ → ℕ → Option (List Call × ℕ)
unfolding tune_note
tune_pair s cpu_mhz count t4 t3 =
    if (t4 == 255) && (t3 != 0)
    then some ([], u32 (count + 1))
    else if t3 == 0
    then some (duty_all 0 ∷ delay_millis (u32 (count * 255 + t4)) ∷ [], 0)
    else do calls ← tune_note s cpu_mhz count t4 t3; some (calls, 0)

-- The gap after a pair, if the tune has one.
unfoldable pub tune_gap : List ℕ → List Call
tune_gap tune =
    let t = get_or tune 3 0 in
    if ltb 239 t then duty_all 0 ∷ delay_millis (10 * (255 - t)) ∷ [] else []

-- The loop `while i < 126`, which starts at 4 and makes steps of 2: 61 rounds are left at 4.
unfoldable pub tune_pairs : ℕ → Sounds → ℕ → List ℕ → ℕ → ℕ → Option (List Call)
unfolding tune_pair tune_gap
tune_pairs zero s cpu_mhz tune i count = some []
tune_pairs (suc n) s cpu_mhz tune i count =
    let t4 = get_or tune i 0 in
    let t3 = get_or tune (i + 1) 0 in
    if (t4 == 0) && (t3 == 0) then some (reload_watchdog ∷ []) else do
      (calls, count') ← tune_pair s cpu_mhz count t4 t3
      rest ← tune_pairs n s cpu_mhz tune (i + 2) count'
      some (reload_watchdog ∷ calls ++ (tune_gap tune ++ rest))

unfoldable pub play_bluejay_tune : Sounds → ℕ → List ℕ → Option (List Call)
unfolding tune_pairs
play_bluejay_tune s cpu_mhz tune = do
  calls ← tune_pairs 61 s cpu_mhz tune 4 0
  some (com_step 3 ∷ calls)

unfoldable pub play_note_freq : Sounds → ℕ → ℕ → ℕ → Option (List Call)
unfolding scaled_volume
play_note_freq s freq_hz duration_ms cpu_mhz = if freq_hz == 0 then none else do
  let reload = u16 (u32 (cpu_mhz * 100000) / freq_hz)
  scaled_vol ← scaled_volume s reload
  some (
      prescaler 9
      ∷ auto_reload reload
      ∷ duty_all (u16 scaled_vol)
      ∷ com_step 3
      ∷ delay_millis duration_ms
      ∷ [])
