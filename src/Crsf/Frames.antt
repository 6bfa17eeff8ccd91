-- ===== src/Crsf/Frames.antt =====
-- Whole frames through the parser, byte by byte (`CrsfParser::feed`, rm32/src/crsf.rs).
use rm32_private.Base.{
  ℕ, zero, suc, ◌+◌, ◌≤◌, ◌<◌, ◌≡◌, refl, sym, ap, ◌∙◌, arith, List, [], ◌∷◌, ◌++◌, length,
  length-append, replicate, take, drop, get_or, Option, some, if◌then◌else◌, ◌==◌, ◌!=◌, leb, ◌-◌,
}
use rm32_private.Crsf.{
  channels, other_frame, bad_crc, Outcome, waiting, finished, panics, crc8_dvb_s2, unpack_channels,
  complete, after_push, received, feed,
}
use mathlib.Core.List.{append_assoc, append-nil}

-- `push` appends while the vector has room.
abbrev pub Appends : (List ℕ → ℕ → Option (List ℕ)) → Type 0
Appends push = (v : List ℕ) (b : ℕ) → length v < 64 → push v b ≡ some (v ++ (b ∷ []))

module _ (push : List ℕ → ℕ → Option (List ℕ)) where
  -- The bytes fed one after the other, with what each call returns.
  unfoldable pub feed_all : List ℕ → List ℕ → List ℕ × List Outcome
  feed_all buf [] = (buf, [])
  feed_all buf (b ∷ bs) =
      let (next, outcome) = feed push buf b in
      let (final, outcomes) = feed_all next bs in (final, outcome ∷ outcomes)

  followed :
      (buf xs ys : List ℕ) {r s : List ℕ × List Outcome}
      → feed_all buf xs ≡ r
      → feed_all r.0 ys ≡ s
      → feed_all buf (xs ++ ys) ≡ (s.0, r.1 ++ s.1)
  unfolding feed_all
  followed buf [] ys p q = cc
  followed buf (x ∷ xs) ys {r = r} {s = s} p q =
      let ih =
        followed (feed push buf x).0 xs ys refl
          (ap (λ (t : List ℕ × List Outcome). feed_all t.0 ys) p ∙ q) in
      ap (λ (t : List ℕ × List Outcome). (t.0, (feed push buf x).1 ∷ t.1)) ih
      ∙ ap (λ (t : List ℕ × List Outcome). (s.0, t.1 ++ s.1)) p

  started :
      Appends push
      → (len : ℕ) → feed_all [] (200 ∷ (len ∷ [])) ≡ (200 ∷ (len ∷ []), waiting ∷ (waiting ∷ []))
  unfolding feed_all feed received after_push
  started law len = rw (law [] 200 (omega arith)) (rw (law (200 ∷ []) len (omega arith)))

  module _ (law : Appends push) (len : ℕ) (h2 : 2 ≤ len) (h62 : len ≤ 62) where
    pushed :
        (rest : List ℕ) (b : ℕ)
        → length rest < len
        → feed push (200 ∷ (len ∷ rest)) b ≡ after_push (200 ∷ (len ∷ (rest ++ (b ∷ []))))
    unfolding feed received
    pushed rest b h = ap received (law (200 ∷ (len ∷ rest)) b (omega arith))

    waits :
        (rest : List ℕ)
        → 1 ≤ length rest
        → length rest < len
        → after_push (200 ∷ (len ∷ rest)) ≡ (200 ∷ (len ∷ rest), waiting)
    unfolding after_push
    waits rest i h = ground arith

    ends :
        (rest : List ℕ)
        → length rest ≡ len
        → after_push (200 ∷ (len ∷ rest)) ≡ complete (200 ∷ (len ∷ rest)) (2 + len)
    unfolding after_push
    ends rest h = ground arith

    pending :
        (rest bytes : List ℕ)
        → length rest + length bytes < len
        → feed_all (200 ∷ (len ∷ rest)) bytes
          ≡ (200 ∷ (len ∷ (rest ++ bytes)), replicate (length bytes) waiting)
    unfolding feed_all
    pending rest [] h = ap (λ (xs : List ℕ). (200 ∷ (len ∷ xs), [])) (sym (append-nil rest))
    pending rest (b ∷ bytes) h =
        let grown = length-append rest (b ∷ []) in
        let step =
          pushed rest b (omega arith) ∙ waits (rest ++ (b ∷ [])) (omega arith) (omega arith) in
        let run = pending (rest ++ (b ∷ [])) bytes (omega arith) in
        ap (λ (r : List ℕ × Outcome). ((feed_all r.0 bytes).0, r.1 ∷ (feed_all r.0 bytes).1)) step
        ∙ ap (λ (r : List ℕ × List Outcome). (r.0, waiting ∷ r.1)) run
        ∙ ap (λ (xs : List ℕ). (200 ∷ (len ∷ xs), replicate (suc (length bytes)) waiting))
            (append_assoc rest (b ∷ []) bytes)

-- What a complete frame of a type, a payload and a last byte comes to. Where a frame of channels is
-- one byte short, its last byte is read as the payload's.
unfoldable pub verdict : ℕ → List ℕ → ℕ → List ℕ × Outcome
verdict kind payload crc =
    if crc8_dvb_s2 (kind ∷ payload) != crc
    then ([], finished bad_crc)
    else if kind == 22
    then (if leb 22 (length payload)
        then ([], finished (channels (unpack_channels (take 22 payload))))
        else if length payload == 21
        then ([], finished (channels (unpack_channels (payload ++ (crc ∷ [])))))
        else (200 ∷ ((length payload + 2) ∷ (kind ∷ (payload ++ (crc ∷ [])))), panics))
    else ([], finished (other_frame kind))

take-length : (xs ys : List ℕ) (n : ℕ) → n ≤ length xs → take n (xs ++ ys) ≡ take n xs
take-length xs ys zero h = refl
take-length [] ys (suc n) h = absurd (omega arith)
take-length (x ∷ xs) ys (suc n) h = ap (λ (zs : List ℕ). x ∷ zs) (take-length xs ys n (omega arith))

take-whole : (xs : List ℕ) → take (length xs) xs ≡ xs
take-whole [] = refl
take-whole (x ∷ xs) = ap (λ (zs : List ℕ). x ∷ zs) (take-whole xs)

last_byte : (xs : List ℕ) (b : ℕ) → get_or (xs ++ (b ∷ [])) (length xs) 0 ≡ b
last_byte [] b = refl
last_byte (x ∷ xs) b = last_byte xs b

-- The bytes of a frame: the sync byte, the length, the type, the payload and the last byte.
abbrev pub frame : ℕ → List ℕ → ℕ → List ℕ
frame kind payload crc = 200 ∷ ((length payload + 2) ∷ (kind ∷ (payload ++ (crc ∷ []))))

module _ (kind : ℕ) (payload : List ℕ) (crc : ℕ) where
  checked :
      take (2 + (length payload + 2) - 1 - 2) (drop 2 (frame kind payload crc)) ≡ kind ∷ payload
  checked =
      ap (λ n. take n (kind ∷ (payload ++ (crc ∷ [])))) {x = 2 + (length payload + 2) - 1 - 2}
        {y = suc (length payload)} (omega arith)
      ∙ ap (λ (xs : List ℕ). kind ∷ xs)
          (take-length payload (crc ∷ []) (length payload) (omega arith) ∙ take-whole payload)

  checksum : get_or (frame kind payload crc) (2 + (length payload + 2) - 1) 0 ≡ crc
  checksum =
      ap (λ n. get_or (frame kind payload crc) n 0) {x = 2 + (length payload + 2) - 1}
        {y = suc (suc (suc (length payload)))} (omega arith)
      ∙ last_byte payload crc

  kept : 22 ≤ length payload → take 22 (drop 3 (frame kind payload crc)) ≡ take 22 payload
  kept h = take-length payload (crc ∷ []) 22 h

  borrowed : length payload ≡ 21 → take 22 (drop 3 (frame kind payload crc)) ≡ payload ++ (crc ∷ [])
  borrowed h =
      ap (λ n. take n (payload ++ (crc ∷ []))) {x = 22} {y = length (payload ++ (crc ∷ []))}
        (omega (arith, length-append payload (crc ∷ []), h))
      ∙ take-whole (payload ++ (crc ∷ []))

  completed :
      complete (frame kind payload crc) (2 + (length payload + 2)) ≡ verdict kind payload crc
  unfolding complete verdict
  completed =
      rw (checked, checksum) (ground (arith, kept, borrowed, length-append payload (crc ∷ [])))

  last_call :
      (push : List ℕ → ℕ → Option (List ℕ))
      → Appends push
      → length payload ≤ 60
      → feed_all push (200 ∷ ((length payload + 2) ∷ (kind ∷ payload))) (crc ∷ [])
        ≡ ((verdict kind payload crc).0, (verdict kind payload crc).1 ∷ [])
  unfolding feed_all
  last_call push law h =
      ap (λ (r : List ℕ × Outcome). (r.0, r.1 ∷ []))
        (pushed push law (length payload + 2) (omega arith) (omega arith) (kind ∷ payload) crc
            (omega arith)
          ∙ ends push law (length payload + 2) (omega arith) (omega arith)
              (kind ∷ (payload ++ (crc ∷ []))) (omega (arith, length-append payload (crc ∷ [])))
          ∙ completed)

  -- Fed from an empty buffer, every byte of the frame but the last makes the parser wait, and the
  -- last one gives the verdict.
  pub feed_all-verdict :
      (push : List ℕ → ℕ → Option (List ℕ))
      → Appends push
      → length payload ≤ 60
      → feed_all push [] (frame kind payload crc) ≡ (
        (verdict kind payload crc).0,
        replicate (suc (suc (suc (length payload)))) waiting ++ ((verdict kind payload crc).1 ∷ []),
      )
  feed_all-verdict push law h =
      followed push [] (200 ∷ ((length payload + 2) ∷ [])) (kind ∷ (payload ++ (crc ∷ [])))
        (started push law (length payload + 2))
        (followed push (200 ∷ ((length payload + 2) ∷ [])) (kind ∷ payload) (crc ∷ [])
          (pending push law (length payload + 2) (omega arith) (omega arith) [] (kind ∷ payload)
            (omega arith))
          (last_call push law h))

short :
    (payload : List ℕ)
    → length payload < 21
    → verdict 22 payload (crc8_dvb_s2 (22 ∷ payload))
      ≡ (frame 22 payload (crc8_dvb_s2 (22 ∷ payload)), panics)
unfolding verdict
short payload h = ground arith

-- A frame of type 22 (RC channels) whose checksum is right and whose payload has fewer than 21 bytes
-- makes the parser panic at its last byte, and the bytes stay in the buffer.
pub feed_all-panics :
    (payload : List ℕ) (push : List ℕ → ℕ → Option (List ℕ))
    → Appends push
    → length payload < 21
    → feed_all push [] (frame 22 payload (crc8_dvb_s2 (22 ∷ payload))) ≡ (
      frame 22 payload (crc8_dvb_s2 (22 ∷ payload)),
      replicate (suc (suc (suc (length payload)))) waiting ++ (panics ∷ []),
    )
feed_all-panics payload push law h =
    feed_all-verdict 22 payload (crc8_dvb_s2 (22 ∷ payload)) push law (omega arith)
    ∙ ap
        (λ (v : List ℕ × Outcome).
          (v.0, replicate (suc (suc (suc (length payload)))) waiting ++ (v.1 ∷ [])))
        (short payload h)
