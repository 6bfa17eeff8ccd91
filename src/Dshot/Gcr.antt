-- ===== src/Dshot/Gcr.antt =====
-- The GCR answer can be read back (`encode_gcr_frame`, rm32/src/dshot.rs).
use rm32_private.Base.{
  ℕ, zero, suc, ◌+◌, ◌-◌, ◌*◌, ◌/◌, ◌%◌, ◌^◌, ◌≤◌, ◌<◌, ◌≡◌, refl, ap, ◌∙◌, arith, bit_xor, bit_and,
  and_mask, xor_cancel, xor-lt, List, get_or, set, length, length-set, get_or-set_self,
  get_or-set_ne, ◌⊎◌, inl, inr,
}
use native.Mathlib.Nat.{mul-div_cancel, pow-le-pow_right, one-le-pow}
use rm32_private.Base.Word.{u32}
use rm32_private.Dshot.{gcr_levels}

-- The level of an entry of the output.
abbrev level : ℕ → List ℕ → ℕ → ℕ
level shift out j = get_or out j 0 / 2 ^ shift

-- The bit `m` of the answer: whether the level changes between its two entries.
abbrev pub change : ℕ → ℕ → List ℕ → ℕ → ℕ
change padding shift out m =
    bit_xor (level shift out (padding + 21 - m)) (level shift out (padding + 20 - m))

untouched :
    (n number padding shift : ℕ) (out : List ℕ) (j : ℕ)
    → n ≤ 20
    → j + n ≤ padding + 21
    → get_or (gcr_levels n number padding shift out) j 0 ≡ get_or out j 0
unfolding gcr_levels
untouched zero number padding shift out j h k = refl
untouched (suc i) number padding shift out j h k =
    let bit = bit_xor (bit_and (number / 2 ^ i) 1) (get_or out (padding + 20 - i) 0 / 2 ^ shift) in
    untouched i number padding shift (set out (padding + 20 - i + 1) (u32 (bit * 2 ^ shift))) j
      (omega arith) (omega arith)
    ∙ get_or-set_ne out (padding + 20 - i + 1) j _ _ (λ e. omega arith)

power : (s : ℕ) → 0 < 2 ^ s
power s = omega (arith, one-le-pow s 2)

cancel : (a s : ℕ) → a * 2 ^ s / 2 ^ s ≡ a
cancel a s = mul-div_cancel a (power s)

small : (s : ℕ) → s < 31 → 2 ^ s ≤ 1073741824
small s h = pow-le-pow_right {n = 2} (omega arith) {i = s} {j = 30} (omega arith)

pub stored : (b s : ℕ) → b < 2 → s < 31 → u32 (b * 2 ^ s) ≡ b * 2 ^ s
stored zero s h k = omega arith
stored (suc zero) s h k = omega (arith, small s k)
stored (suc (suc b)) s h k = absurd (omega arith)

low_bit : (q : ℕ) → bit_and q 1 ≡ q % 2
low_bit q = and_mask 1 q

toggled : (q l : ℕ) → l < 2 → bit_xor (bit_and q 1) l < 2
toggled q l h = xor-lt 1 (bit_and q 1) l (omega (arith, low_bit q)) h

lt-or-eq : (m i : ℕ) → m < suc i → (m < i) ⊎ (m ≡ i)
lt-or-eq m i h = omega arith

module _ (number padding shift : ℕ) (shift<31 : shift < 31) where
  abbrev next_level : ℕ → List ℕ → ℕ
  next_level i out =
      bit_xor (bit_and (number / 2 ^ i) 1) (get_or out (padding + 20 - i) 0 / 2 ^ shift)

  abbrev written : ℕ → List ℕ → List ℕ
  written i out = set out (padding + 20 - i + 1) (u32 (next_level i out * 2 ^ shift))

  next_level_eq :
      (i l : ℕ) (out : List ℕ)
      → get_or out (padding + 20 - i) 0 ≡ l * 2 ^ shift
      → next_level i out ≡ bit_xor (bit_and (number / 2 ^ i) 1) l
  next_level_eq i l out e = rw (e, cancel l shift) refl

  written_eq :
      (i l : ℕ) (out : List ℕ)
      → i < 20
      → padding + 22 ≤ length out
      → l < 2
      → get_or out (padding + 20 - i) 0 ≡ l * 2 ^ shift
      → get_or (written i out) (padding + 20 - i + 1) 0
        ≡ bit_xor (bit_and (number / 2 ^ i) 1) l * 2 ^ shift
  written_eq i l out h long lt e =
      get_or-set_self out (padding + 20 - i + 1) _ 0 (omega arith)
      ∙ rw (next_level_eq i l out e) (
          stored (bit_xor (bit_and (number / 2 ^ i) 1) l) shift (toggled (number / 2 ^ i) l lt)
            shift<31)

  -- One round of the loop: what its two entries hold at the end.
  last_change :
      (i l : ℕ) (out : List ℕ)
      → i < 20
      → padding + 22 ≤ length out
      → l < 2
      → get_or out (padding + 20 - i) 0 ≡ l * 2 ^ shift
      → change padding shift (gcr_levels i number padding shift (written i out)) i
        ≡ (number / 2 ^ i) % 2
  last_change i l out h long lt e =
      let q = number / 2 ^ i in
      let place : padding + 21 - i ≡ padding + 20 - i + 1 = omega arith in
      let upper =
        untouched i number padding shift (written i out) (padding + 20 - i + 1) (omega arith)
          (omega arith)
        ∙ written_eq i l out h long lt e in
      let lower =
        untouched i number padding shift (written i out) (padding + 20 - i) (omega arith)
          (omega arith)
        ∙ get_or-set_ne out (padding + 20 - i + 1) (padding + 20 - i) _ 0 (λ e. omega arith)
        ∙ e in
      rw (place, upper, lower, cancel (bit_xor (bit_and q 1) l) shift, cancel l shift)
        (xor_cancel (bit_and q 1) l ∙ low_bit q)

  pub changes :
      (n l : ℕ) (out : List ℕ)
      → n ≤ 20
      → padding + 22 ≤ length out
      → l < 2
      → get_or out (padding + 21 - n) 0 ≡ l * 2 ^ shift
      → (m : ℕ) → m < n
      → change padding shift (gcr_levels n number padding shift out) m ≡ (number / 2 ^ m) % 2
  unfolding gcr_levels
  changes zero l out h long lt e m k = absurd (omega arith)
  changes (suc i) l out h long lt e m k =
      let at_i : get_or out (padding + 20 - i) 0 ≡ l * 2 ^ shift =
        ap (λ (j : ℕ). get_or out j 0) (omega arith) ∙ e in
      elim (lt-or-eq m i k) [
        | inl below ↦
            changes i (bit_xor (bit_and (number / 2 ^ i) 1) l) (written i out) (omega arith)
              (omega (
                arith,
                length-set out (padding + 20 - i + 1) (u32 (next_level i out * 2 ^ shift)),
                long,
              ))
              (toggled (number / 2 ^ i) l lt)
              (ap (λ (j : ℕ). get_or (written i out) j 0) (omega arith)
                ∙ written_eq i l out (omega arith) long lt at_i)
              m below
        | inr same ↦ rw same (last_change i l out (omega arith) long lt at_i)
      ]
