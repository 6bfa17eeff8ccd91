-- ===== src/Drivers/Phase/Crossing.antt =====
-- What the pins of the bridge are after each write, and when both switches of a leg conduct.
use rm32_private.Base.{
  ℕ, zero, suc, ◌+◌, ◌<◌, ◌≤◌, ◌≡◌, refl, Bool, true, false, ◌&&◌, ◌||◌, ◌==◌, ◌<=>◌, List, [], ◌∷◌,
  all_below, all_below_sound, arith, if◌then◌else◌,
}
use rm32_private.Commutation.{Commutation, advance}
use rm32_private.Commutation.Cycle.{IsStep, next_step, advance_lem}
use rm32_private.Drivers.Phase.{
  Leg, phase_a, phase_b, phase_c, Side, high_side, low_side, Write, set_mode, set_high, set_low,
  set_pulse_mode, set_pulse_low, toggle, new, com_step, mode_output, mode_alternate,
}

pub record Pin : Type 0 where
  pub mode : ℕ
  pub level : Bool

pub record Switches : Type 0 where
  pub high : Pin
  pub low : Pin

pub record Bridge : Type 0 where
  pub leg_a : Switches
  pub leg_b : Switches
  pub leg_c : Switches

abbrev pub leg_of : Leg → Bridge → Switches
leg_of phase_a b = b.leg_a
leg_of phase_b b = b.leg_b
leg_of phase_c b = b.leg_c

abbrev pub on_side : Side → (Pin → Pin) → Switches → Switches
on_side high_side f s = record s { high = f s.high }
on_side low_side f s = record s { low = f s.low }

abbrev pub on_leg : Leg → (Switches → Switches) → Bridge → Bridge
on_leg phase_a f b = record b { leg_a = f b.leg_a }
on_leg phase_b f b = record b { leg_b = f b.leg_b }
on_leg phase_c f b = record b { leg_c = f b.leg_c }

unfoldable pub write : Write → Bridge → Bridge
write (set_mode l s m) b = on_leg l (on_side s (λ p. record p { mode = m })) b
write (set_high l s) b = on_leg l (on_side s (λ p. record p { level = true })) b
write (set_low l s) b = on_leg l (on_side s (λ p. record p { level = false })) b
write (set_pulse_mode m) b = b
write set_pulse_low b = b
write toggle b = b

unfoldable pub write_all : List Write → Bridge → Bridge
unfolding write
write_all [] b = b
write_all (w ∷ ws) b = write_all ws (write w b)

-- A pin as an output at its high level, and one that conducts now or whenever the timer says.
abbrev pub held_on : Pin → Bool
held_on p = (p.mode == mode_output) && p.level

abbrev pub may_conduct : Pin → Bool
may_conduct p = held_on p || (p.mode == mode_alternate)

-- One switch of the leg is held on while the other may conduct. (With both on the timer, its dead time
-- keeps them apart.)
abbrev pub crosses : Switches → Bool
crosses s = (held_on s.low && may_conduct s.high) || (held_on s.high && may_conduct s.low)

abbrev pub crossed : Bridge → Bool
crossed b = crosses b.leg_a || crosses b.leg_b || crosses b.leg_c

-- Whether some state that the writes pass through is crossed.
unfoldable pub ever_crossed : List Write → Bridge → Bool
unfolding write
ever_crossed [] b = crossed b
ever_crossed (w ∷ ws) b = crossed b || ever_crossed ws (write w b)

abbrev pub released : Bridge
released =
    let off : Pin = record { mode = mode_output; level = false } in
    let leg : Switches = record { high = off; low = off } in
    record { leg_a = leg; leg_b = leg; leg_c = leg }

-- The bridge at a step, entered from the released bridge.
unfoldable pub at_step : Bool → ℕ → Bridge
unfolding com_step write_all
at_step comp step = write_all (com_step (new comp) step) released

-- The leg that a step drives and the one that it pulls low, numbered.
abbrev pub driven : ℕ → ℕ
driven step = if (step == 1) || (step == 6) then 1 else if (step == 4) || (step == 5) then 2 else 3

abbrev pub pulled_low : ℕ → ℕ
pulled_low step =
    if (step == 3) || (step == 4) then 1 else if (step == 1) || (step == 2) then 2 else 3

abbrev checks : Bool → ℕ → ℕ → Bool
checks comp s t =
    let ws = com_step (new comp) (t + 1) in
    (ever_crossed ws (at_step comp (s + 1)) <=> (driven (s + 1) == pulled_low (t + 1)))

table : (comp : Bool) → all_below 6 (λ s. all_below 6 (λ t. checks comp s t)) ≡ true
unfolding all_below ever_crossed at_step com_step
table true = refl
table false = refl

same_Bool : (a b : Bool) → (a <=> b) ≡ true → a ≡ b
same_Bool true true h = refl
same_Bool true false h = cc
same_Bool false true h = cc
same_Bool false false h = refl

-- From the bridge at a step, the writes of any step pass through a state in which one switch of a leg
-- is held on while the other may conduct exactly when the leg that was driven is the one that is
-- pulled low, with complementary PWM and without it.
pub com_step-crosses :
    (comp : Bool) (s t : ℕ)
    → s < 6
    → t < 6
    → ever_crossed (com_step (new comp) (t + 1)) (at_step comp (s + 1))
      ≡ (driven (s + 1) == pulled_low (t + 1))
com_step-crosses comp s t hs ht = same_Bool _ _ (
    all_below_sound 6 (λ j. checks comp s j) t
      (all_below_sound 6 (λ i. all_below 6 (λ j. checks comp i j)) s (table comp) hs) ht)

-- The six steps, for a proof that takes each in turn.
pub six_cases {ℓ} :
    (P : ℕ → Type ℓ) → P 1 → P 2 → P 3 → P 4 → P 5 → P 6 → (s : ℕ) → 1 ≤ s → s ≤ 6 → P s
six_cases P p1 p2 p3 p4 p5 p6 zero h k = absurd (omega arith)
six_cases P p1 p2 p3 p4 p5 p6 (suc zero) h k = p1
six_cases P p1 p2 p3 p4 p5 p6 (suc (suc zero)) h k = p2
six_cases P p1 p2 p3 p4 p5 p6 (suc (suc (suc zero))) h k = p3
six_cases P p1 p2 p3 p4 p5 p6 (suc (suc (suc (suc zero)))) h k = p4
six_cases P p1 p2 p3 p4 p5 p6 (suc (suc (suc (suc (suc zero))))) h k = p5
six_cases P p1 p2 p3 p4 p5 p6 (suc (suc (suc (suc (suc (suc zero)))))) h k = p6
six_cases P p1 p2 p3 p4 p5 p6 (suc (suc (suc (suc (suc (suc (suc n))))))) h k = absurd (omega arith)

-- One commutation in a given direction.
abbrev towards : Bool → Commutation → Commutation
towards forward c = advance (record c { forward = forward })

-- The bridge follows a list of commutations, each with its direction; whether it was ever crossed.
unfoldable pub follow : Bool → List Bool → Commutation → Bridge → Bool × ℕ × Bridge
unfolding ever_crossed write_all com_step
follow comp [] c b = (crossed b, c.step, b)
follow comp (forward ∷ rest) c b =
    let c' = towards forward c in
    let ws = com_step (new comp) c'.step in
    let (later, step, b') = follow comp rest c' (write_all ws b) in
    (ever_crossed ws b || later, step, b')

-- One commutation: not crossed, and it ends at the next step.
abbrev Clean : Bool → Bool → ℕ → Type 0
Clean comp forward s =
    let ws = com_step (new comp) (next_step forward s) in
    (ever_crossed ws (at_step comp s) ≡ false)
    × (write_all ws (at_step comp s) ≡ at_step comp (next_step forward s))

clean_six : (P : ℕ → Type 0) → P 1 × P 2 × P 3 × P 4 × P 5 × P 6 → (s : ℕ) → IsStep s → P s
clean_six P p s h = six_cases P p.0 p.1 p.2 p.3 p.4 p.5 s h.0 h.1

clean : (comp forward : Bool) (s : ℕ) → IsStep s → Clean comp forward s
unfolding ever_crossed write_all at_step com_step
clean true true =
    clean_six (Clean true true)
      ((refl, refl), (refl, refl), (refl, refl), (refl, refl), (refl, refl), (refl, refl))
clean true false =
    clean_six (Clean true false)
      ((refl, refl), (refl, refl), (refl, refl), (refl, refl), (refl, refl), (refl, refl))
clean false true =
    clean_six (Clean false true)
      ((refl, refl), (refl, refl), (refl, refl), (refl, refl), (refl, refl), (refl, refl))
clean false false =
    clean_six (Clean false false)
      ((refl, refl), (refl, refl), (refl, refl), (refl, refl), (refl, refl), (refl, refl))

-- A step does not cross the bridge it starts from, as it stands.
uncrossed : (comp : Bool) (s : ℕ) → IsStep s → crossed (at_step comp s) ≡ false
unfolding at_step write_all com_step
uncrossed true s h =
    clean_six (λ n. crossed (at_step true n) ≡ false) (refl, refl, refl, refl, refl, refl) s h
uncrossed false s h =
    clean_six (λ n. crossed (at_step false n) ≡ false) (refl, refl, refl, refl, refl, refl) s h

-- A motor that turns, in whatever direction from one commutation to the next, never has one switch of
-- a leg held on while the other may conduct, in any state between two writes; and the bridge always
-- stands as its step has it.
pub follow-clean :
    (comp : Bool) (turns : List Bool) (c : Commutation)
    → IsStep c.step
    → let r = follow comp turns c (at_step comp c.step) in (r.0 ≡ false) × (r.2 ≡ at_step comp r.1)
unfolding follow
follow-clean comp [] c h = (uncrossed comp c.step h, refl)
follow-clean comp (forward ∷ rest) c h =
    let c' : Commutation = towards forward c in
    let went = advance_lem (record c { forward = forward }) h in
    let now : ever_crossed (com_step (new comp) c'.step) (at_step comp c.step) ≡ false =
      rw (went.0) ((clean comp forward c.step h).0) in
    let stands : write_all (com_step (new comp) c'.step) (at_step comp c.step)
        ≡ at_step comp c'.step =
      rw (went.0) ((clean comp forward c.step h).1) in
    rw (now, stands) (follow-clean comp rest c' went.1)
