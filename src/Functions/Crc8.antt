-- ===== src/Functions/Crc8.antt =====
-- What the CRC-8 of the telemetry packets detects (rm32/src/functions.rs).
use rm32_private.Base.{
  ℕ, zero, suc, ◌+◌, ◌/◌, ◌%◌, ◌<◌, ◌≡◌, ◌≢◌, ◌∙◌, sym, ap, refl, Bool, true, List, [], ◌∷◌, ◌++◌,
  ◌&&◌, bit_xor, ◌==◌, ltb, ltb→lt, ==_iff, if◌then◌else◌, all_below, all_below_sound, xor_self,
  xor_cancel, xor_comm, xor-lt, arith,
}
use rm32_private.Functions.{crc8_bit, crc8_bits, update_crc8, crc8_from, get_crc8}

abbrev pub AllBytes : List ℕ → Type 0
AllBytes [] = Unit
AllBytes (b ∷ bs) = (b < 256) × AllBytes bs

-- The inverse of one division step: its lowest bit tells which branch was taken.
abbrev undo_bit : ℕ → ℕ
undo_bit c = if c % 2 == 1 then bit_xor c 0x07 / 2 + 128 else c / 2

step_table : all_below 256 (λ c. (undo_bit (crc8_bit c) == c) && ltb (crc8_bit c) 256) ≡ true
unfolding all_below
step_table = refl

both : (p q : Bool) → (p && q) ≡ true → (p ≡ true) × (q ≡ true)
both p q h = ground arith

crc8_bit_lem : (c : ℕ) → c < 256 → (undo_bit (crc8_bit c) ≡ c) × (crc8_bit c < 256)
crc8_bit_lem c h =
    let (p, q) = both _ _ (all_below_sound 256 _ c step_table h) in ((==_iff _ _).0 p, ltb→lt _ _ q)

crc8_bits_lt : (n c : ℕ) → c < 256 → crc8_bits n c < 256
unfolding crc8_bits
crc8_bits_lt zero c h = h
crc8_bits_lt (suc n) c h = crc8_bits_lt n (crc8_bit c) (crc8_bit_lem c h).1

crc8_bits_injective : (n c d : ℕ) → c < 256 → d < 256 → crc8_bits n c ≡ crc8_bits n d → c ≡ d
unfolding crc8_bits
crc8_bits_injective zero c d h k e = e
crc8_bits_injective (suc n) c d h k e =
    let (back_c, lt_c) = crc8_bit_lem c h in
    let (back_d, lt_d) = crc8_bit_lem d k in
    sym back_c ∙ ap undo_bit (crc8_bits_injective n _ _ lt_c lt_d e) ∙ back_d

pub update_crc8_lt : (c s : ℕ) → c < 256 → s < 256 → update_crc8 c s < 256
unfolding update_crc8
update_crc8_lt c s h k = crc8_bits_lt 8 (bit_xor c s) (xor-lt 8 c s h k)

xor_injective : (a b s : ℕ) → bit_xor a s ≡ bit_xor b s → a ≡ b
xor_injective a b s e = sym (xor_cancel a s) ∙ ap (λ t. bit_xor t s) e ∙ xor_cancel b s

update_injective :
    (a b s : ℕ) → a < 256 → b < 256 → s < 256 → update_crc8 a s ≡ update_crc8 b s → a ≡ b
unfolding update_crc8
update_injective a b s h k l e =
    xor_injective a b s (crc8_bits_injective 8 _ _ (xor-lt 8 a s h l) (xor-lt 8 b s k l) e)

update_injective_crc :
    (a s t : ℕ) → a < 256 → s < 256 → t < 256 → update_crc8 a s ≡ update_crc8 a t → s ≡ t
unfolding update_crc8
update_injective_crc a s t h k l e =
    let same = crc8_bits_injective 8 _ _ (xor-lt 8 a s h k) (xor-lt 8 a t h l) e in
    xor_injective s t a (xor_comm s a ∙ same ∙ xor_comm a t)

crc8_from_injective :
    (bs : List ℕ) (s t : ℕ)
    → AllBytes bs
    → s < 256
    → t < 256
    → crc8_from s bs ≡ crc8_from t bs
    → s ≡ t
unfolding crc8_from
crc8_from_injective [] s t h k l e = e
crc8_from_injective (b ∷ bs) s t h k l e =
    let lt_s = update_crc8_lt b s h.0 k in
    let lt_t = update_crc8_lt b t h.0 l in
    update_injective_crc b s t h.0 k l (crc8_from_injective bs _ _ h.1 lt_s lt_t e)

one_byte :
    (before after : List ℕ) (a b s : ℕ)
    → AllBytes before
    → AllBytes after
    → a < 256
    → b < 256
    → s < 256
    → crc8_from s (before ++ (a ∷ after)) ≡ crc8_from s (before ++ (b ∷ after))
    → a ≡ b
unfolding crc8_from
one_byte [] after a b s h k la lb ls e =
    update_injective a b s la lb ls
      (crc8_from_injective after _ _ k (update_crc8_lt a s la ls) (update_crc8_lt b s lb ls) e)
one_byte (x ∷ before) after a b s h k la lb ls e =
    one_byte before after a b (update_crc8 x s) h.1 k la lb (update_crc8_lt x s h.0 ls) e

-- A packet of bytes in which one byte is changed has another CRC: every error in a single byte is
-- detected.
pub get_crc8_one_byte :
    (before after : List ℕ) (a b : ℕ)
    → AllBytes before
    → AllBytes after
    → a < 256
    → b < 256
    → a ≢ b
    → get_crc8 (before ++ (a ∷ after)) ≢ get_crc8 (before ++ (b ∷ after))
unfolding get_crc8
get_crc8_one_byte before after a b h k la lb ne e =
    ne (one_byte before after a b 0 h k la lb (omega arith) e)

crc8_bits_zero : (n : ℕ) → crc8_bits n 0 ≡ 0
unfolding crc8_bits
crc8_bits_zero zero = refl
crc8_bits_zero (suc n) = crc8_bits_zero n

residue_from : (bs : List ℕ) (s : ℕ) → crc8_from s (bs ++ (crc8_from s bs ∷ [])) ≡ 0
unfolding crc8_from update_crc8
residue_from [] s = ap (crc8_bits 8) (xor_self s) ∙ crc8_bits_zero 8
residue_from (b ∷ bs) s = residue_from bs (update_crc8 b s)

-- A packet followed by its CRC has the CRC 0, so that a receiver may check the whole.
pub get_crc8_residue : (bs : List ℕ) → get_crc8 (bs ++ (get_crc8 bs ∷ [])) ≡ 0
unfolding get_crc8
get_crc8_residue bs = residue_from bs 0
