-- ===== src/DshotCommands/Examples.antt =====
-- Runs of the command processor.
use rm32_private.Base.{◌≡◌, ◌⊎◌, ◌||◌, not, refl, true, false, arith, [], ◌∷◌, replicate, some}
use rm32_private.Config.{zeroed, field_at}
use rm32_private.DshotCommands.{
  Env, default, put, execute, process, process_programming, programming_commit, no_result,
}
use rm32_private.DshotCommands.Repeat.{repeated, at_count, process-repeated}
use rm32_private.DshotCommands.Programming.{frames, process_programming-frames}

abbrev idle_env : Env
idle_env = record { processor = default; config = zeroed; forward = true; edt_armed = false }

process-repeated_example :
    let r = execute 8 false (at_count 8 0 idle_env) in
    (repeated 5 8 false idle_env ≡ (at_count 8 5 idle_env, replicate 5 no_result))
    × (repeated 6 8 false idle_env
        ≡ (put (record (r.0.processor) { last_command = 8 }) r.0, r.1 ∷ replicate 5 no_result))
    × (((not true || true) ≡ false) ⊎ (process 8 true true false idle_env ≡ (idle_env, no_result)))
process-repeated_example =
    process-repeated 8 (omega arith) (omega arith) false true true idle_env (λ h. omega arith)

reverses : (repeated 6 8 false idle_env).0.forward ≡ false
unfolding repeated process execute
reverses = refl

process_programming-frames_example :
    let s = frames (21 ∷ 99 ∷ 5 ∷ []) (record default { programming_mode = 1 }) zeroed in
    let r = process_programming 37 s.0 s.1 in
    (s.1 ≡ zeroed)
    × ((r.0).programming_mode ≡ 0)
    × (r.2 ≡ some (programming_commit 21 99))
    × (field_at 21 r.1 ≡ 99)
    × (field_at 22 r.1 ≡ field_at 22 zeroed)
process_programming-frames_example =
    process_programming-frames default zeroed 21 99 (5 ∷ []) 22 (omega arith) (omega arith)
      ((λ h. omega arith), tt) refl (λ h. omega arith)
