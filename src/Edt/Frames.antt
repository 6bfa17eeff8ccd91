-- ===== src/Edt/Frames.antt =====
-- The frames that the scheduler gives (rm32/src/edt.rs).
use rm32_private.Base.{
  ◌*◌, ◌/◌, ◌%◌, ◌<◌, ◌==◌, bit_or, or_shifted, min, ℕ, ◌+◌, ◌≡◌, refl, Bool, Bool-cases, true,
  false, arith, ◌⊎◌, inl, inr, ap,
}
use rm32_private.Base.Int.{ℤ, pos, negsuc, max_ℤ, ◌/ℤ◌}
use rm32_private.Base.Word.{u16, u8_of}
use rm32_private.Edt.{
  EdtScheduler, EdtFrame, erpm, extended, due, is_extended, next_frame, current_frame,
  voltage_frame, temperature_frame,
}

erpm_if : (f : EdtFrame) → is_extended f ≡ false → f ≡ erpm
unfolding is_extended
erpm_if erpm h = refl
erpm_if (extended v) h = ground arith

-- A scheduler that has no start or stop frame to send.
abbrev pub idle : ℕ → Bool → Bool → EdtScheduler
idle counter last active = record {
  counter = counter;
  last_sent_extended = last;
  active = active;
  send_init = false;
  send_deinit = false;
}

-- With no start or stop frame pending, of two frames in a row at least one is the motor's speed, so
-- that data frames take at most every second place.
pub next_frame-alternates :
    (i i' : ℤ) (v v' : ℕ) (t t' : ℤ) (counter : ℕ) (last active : Bool)
    → let r = next_frame i v t (idle counter last active) in
      (r.1 ≡ erpm) ⊎ ((next_frame i' v' t' r.0).1 ≡ erpm)
unfolding next_frame
next_frame-alternates i i' v v' t t' counter last false = inl refl
next_frame-alternates i i' v v' t t' counter true true = inl refl
next_frame-alternates i i' v v' t t' counter false true =
    let n = u16 (counter + 1) in
    let f = due i v t n in
    elim (Bool-cases (is_extended f)) [
      | inl data_sent ↦ inr (ap (λ (b : Bool). (next_frame i' v' t' (idle n b true)).1) data_sent)
      | inr none_sent ↦ inl (erpm_if f none_sent)
    ]

-- A frame of twelve bits.
abbrev pub IsSmall : EdtFrame → Type 0
IsSmall erpm = Unit {0}
IsSmall (extended v) = v < 4096

with_type : (k payload : ℕ) → k < 16 → payload < 256 → bit_or (k * 256) payload < 4096
with_type k payload hk hp =
    let e : bit_or (k * 256) payload ≡ k * 256 + payload = or_shifted 8 k payload hp in omega arith

u8_of-lt : (z : ℤ) → u8_of z < 256
unfolding u8_of
u8_of-lt (pos n) = omega arith
u8_of-lt (negsuc n) = omega arith

due-IsSmall : (i : ℤ) (v : ℕ) (t : ℤ) (counter : ℕ) → IsSmall (due i v t counter)
unfolding due current_frame voltage_frame temperature_frame
due-IsSmall i v t counter = elim (Bool-cases (counter % 40 == 0)) [
  | inl a ↦ rw a (with_type 6 (u8_of (max_ℤ i (pos 0) /ℤ pos 50)) (omega arith) (u8_of-lt _))
  | inr a ↦ elim (Bool-cases (counter % 200 == 100)) [
    | inl b ↦ rw (a, b) (with_type 4 (min (v / 25) 255) (omega arith) (omega arith))
    | inr b ↦ elim (Bool-cases (counter % 200 == 150)) [
      | inl d ↦ rw (a, b, d) (with_type 2 (u8_of t) (omega arith) (u8_of-lt t))
      | inr d ↦ rw (a, b, d) tt
    ]
  ]
]

-- Every frame fits the twelve bits of an answer.
pub next_frame-IsSmall : (i : ℤ) (v : ℕ) (t : ℤ) (s : EdtScheduler) → IsSmall (next_frame i v t s).1
unfolding next_frame
next_frame-IsSmall i v t s = elim (Bool-cases s.send_init) [
  | inl a ↦ rw a (omega arith)
  | inr a ↦ elim (Bool-cases s.send_deinit) [
    | inl b ↦ rw (a, b) (omega arith)
    | inr b ↦ elim (Bool-cases s.active) [
      | inr d ↦ rw (a, b, d) tt
      | inl d ↦ elim (Bool-cases s.last_sent_extended) [
        | inl e ↦ rw (a, b, d, e) tt
        | inr e ↦ rw (a, b, d, e) (due-IsSmall i v t (u16 (s.counter + 1)))
      ]
    ]
  ]
]
