-- ===== src/Transfer/Calibration.antt =====
-- When the calibration of the stick begins, and what an armed motor's transfer leaves alone
-- (`TransferState::process`, rm32/src/transfer.rs).
use rm32_private.Base.{
  ℕ, ◌+◌, ◌≤◌, ◌<◌, ◌≡◌, refl, sym, ap, ◌∙◌, arith, inl, inr, Bool, Bool-cases, true, false, not,
  ◌&&◌, ◌||◌, ltb, leb, if◌then◌else◌, List, length, get_or, Option, none,
}
use rm32_private.Base.Int.{pos}
use rm32_private.Base.Word.{u8, u16, sub_u32}
use rm32_private.Functions.{get_abs_dif}
use rm32_private.Servo.{ServoState, compute}
use rm32_private.Transfer.{
  TransferState, Transfer, no_action, Inputs, dispatch, average_frames, enter_calibration,
  watch_stick, process, detected, detect_input,
}

-- The fields that the calibration's entry reads and writes.
abbrev entry : TransferState → Bool × ℕ × ℕ
entry s = ((s.servo).calibration_required, s.enter_calibration_count, s.last_input)

compute-calm :
    (pulse current : ℕ) (bidirectional : Bool) (s : ServoState)
    → s.calibration_required ≡ false
    → ((compute pulse current bidirectional s).0).calibration_required ≡ false
unfolding compute
compute-calm pulse current bidirectional s h = elim (Bool-cases (leb pulse 800 || leb 2200 pulse)) [
  | inl far ↦ rw far h
  | inr near ↦ rw (near, h) refl
]

abbrev kept_with : TransferState → Bool → Bool × ℕ × ℕ
kept_with s b = (b, s.enter_calibration_count, s.last_input)

dispatch-entry :
    (i : Inputs) (dma : List ℕ) (t : Transfer)
    → ((t.state).servo).calibration_required ≡ false
    → entry (dispatch i dma t).state
      ≡ (false, (t.state).enter_calibration_count, (t.state).last_input)
unfolding dispatch
dispatch-entry i dma t h =
    let rest = kept_with t.state in
    elim (Bool-cases (i.dshot_mode && leb 32 (length dma))) [
      | inl frame ↦ rw frame (ap rest h)
      | inr other ↦ elim (Bool-cases (i.servo_mode && not i.input_pin_high && leb 2 (length dma))) [
        | inl pulse ↦
            rw (other, pulse)
              (ap rest (
                compute-calm (u16 (sub_u32 (get_or dma 1 0) (get_or dma 0 0))) i.current_newinput
                  i.bidirectional (t.state).servo h))
        | inr still ↦ rw (other, still) (ap rest h)
      ]
    ]

dispatch-only :
    (i : Inputs) (dma : List ℕ) (t : Transfer)
    → (dispatch i dma t).state ≡ record (t.state) { servo = ((dispatch i dma t).state).servo }
unfolding dispatch
dispatch-only i dma t = elim (Bool-cases (i.dshot_mode && leb 32 (length dma))) [
  | inl frame ↦ rw frame refl
  | inr other ↦ elim (Bool-cases (i.servo_mode && not i.input_pin_high && leb 2 (length dma))) [
    | inl pulse ↦ rw (other, pulse) refl
    | inr still ↦ rw (other, still) refl
  ]
]

average-entry :
    (i : Inputs) (dma : List ℕ) (t : Transfer)
    → entry ((average_frames i dma t).0).state ≡ entry t.state
unfolding average_frames
average-entry i dma t =
    elim (Bool-cases (i.dshot_mode && ltb (t.state).average_count 8 && ltb 5 t.zero_input_count)) [
      | inl h ↦ rw h refl
      | inr h ↦ rw h refl
    ]

-- What the entry asks for.
abbrev pub IsSteady : Inputs → TransferState → Type 0
IsSteady i s =
    (i.disable_stick_cal ≡ false)
    × (1500 < i.adjusted_input)
    × (50 ≤ s.enter_calibration_count)
    × (get_abs_dif (pos i.adjusted_input) (pos s.last_input) ≤ 50)

contrary : {b : Bool} → b ≡ false → b ≡ true → ⊥
contrary h k = cc

chosen :
    (b : Bool) (v : ServoState)
    → v.calibration_required ≡ false
    → (if b then record v { calibration_required = true } else v).calibration_required ≡ true
    → b ≡ true
chosen true v h k = refl
chosen false v h k = sym h ∙ k

steady_count :
    (jitter count : ℕ) (high : Bool)
    → ltb 50 (if ltb 50 jitter then 0 else u8 (count + 1)) && not high ≡ true
    → (50 ≤ count) × (jitter ≤ 50)
steady_count jitter count high h = ground arith

enter-lem :
    (a : ℕ) (s : TransferState)
    → (s.servo).calibration_required ≡ false
    → ((enter_calibration a s).servo).calibration_required ≡ true
    → (50 ≤ s.enter_calibration_count) × (get_abs_dif (pos a) (pos s.last_input) ≤ 50)
unfolding enter_calibration
enter-lem a s h k =
    let jitter = get_abs_dif (pos a) (pos s.last_input) in
    steady_count jitter s.enter_calibration_count (s.servo).high_calibration_set (
      chosen
        (ltb 50 (if ltb 50 jitter then 0 else u8 (s.enter_calibration_count + 1))
          && not (s.servo).high_calibration_set)
        s.servo h k)

watch-lem :
    (i : Inputs) (t : Transfer)
    → ((t.state).servo).calibration_required ≡ false
    → (((watch_stick i t).state).servo).calibration_required ≡ true
    → IsSteady i t.state
unfolding watch_stick
watch-lem i t h k = ground (arith, enter-lem i.adjusted_input t.state)

-- The three ways of a transfer.
module _ (i : Inputs) (dma : List ℕ) (count : ℕ) (s : TransferState) where
  abbrev begun : Transfer
  begun = record { state = s; zero_input_count = count; action = no_action }

  undetected :
      i.input_set ≡ false
      → process i dma count s ≡ (record begun { action = detected (detect_input dma) }, none)
  unfolding process
  undetected h = rw h refl

  flying :
      i.input_set ≡ true → i.armed ≡ true → process i dma count s ≡ (dispatch i dma begun, none)
  unfolding process
  flying h k = rw (h, k) refl

  resting :
      i.input_set ≡ true
      → i.armed ≡ false
      → (process i dma count s).0 ≡ watch_stick i (average_frames i dma (dispatch i dma begun)).0
  unfolding process
  resting h k = rw (h, k) refl

  averaged :
      (s.servo).calibration_required ≡ false
      → entry ((average_frames i dma (dispatch i dma begun)).0).state ≡ kept_with s false
  averaged h = average-entry i dma (dispatch i dma begun) ∙ dispatch-entry i dma begun h

same_entry :
    (i : Inputs) (r s : TransferState) → entry r ≡ kept_with s false → IsSteady i r → IsSteady i s
same_entry i r s e (a, b, c, d) =
    let last = ap (λ p. get_abs_dif (pos i.adjusted_input) (pos p.2)) e in
    let count = ap (λ p. p.1) e in (a, b, omega arith, omega arith)

-- The calibration of the stick begins in a transfer only where the protocol is known and the motor is
-- not armed, the settings allow it, and the throttle is above 1500, within 50 of the last one, after
-- fifty such transfers.
pub process-enters :
    (i : Inputs) (dma : List ℕ) (count : ℕ) (s : TransferState)
    → (s.servo).calibration_required ≡ false
    → ((((process i dma count s).0).state).servo).calibration_required ≡ true
    → (i.input_set ≡ true) × (i.armed ≡ false) × IsSteady i s
process-enters i dma count s h k = elim (Bool-cases i.input_set) [
  | inr unset ↦ absurd (
      contrary
        (ap (λ (r : Transfer × Option (ℕ × ℕ)). (((r.0).state).servo).calibration_required)
            (undetected i dma count s unset)
          ∙ h)
        k)
  | inl set ↦ elim (Bool-cases i.armed) [
    | inl armed ↦ absurd (
        contrary
          (ap (λ (r : Transfer × Option (ℕ × ℕ)). (((r.0).state).servo).calibration_required)
              (flying i dma count s set armed)
            ∙ ap (λ p. p.0) (dispatch-entry i dma (begun i dma count s) h))
          k)
    | inr idle ↦
        let rested = resting i dma count s set idle in
        let before = averaged i dma count s h in
        let a = (average_frames i dma (dispatch i dma (begun i dma count s))).0 in
        let steady =
          watch-lem i a (ap (λ p. p.0) before)
            (sym (ap (λ (r : Transfer). ((r.state).servo).calibration_required) rested) ∙ k) in
        (set, idle, same_entry i a.state s before steady)
  ]
]

-- A transfer of an armed motor leaves the averages and the counts of the calibration's entry alone and
-- gives no bounds of the frame time.
pub process-armed :
    (i : Inputs) (dma : List ℕ) (count : ℕ) (s : TransferState)
    → i.armed ≡ true
    → (((process i dma count s).0).state
        ≡ record s { servo = (((process i dma count s).0).state).servo })
      × ((process i dma count s).1 ≡ none)
process-armed i dma count s h = elim (Bool-cases i.input_set) [
  | inl set ↦
      let e = flying i dma count s set h in rw e (dispatch-only i dma (begun i dma count s), refl)
  | inr unset ↦ rw (undetected i dma count s unset) (refl, refl)
]
