-- ===== src/Edt/Examples.antt =====
-- Runs of the telemetry scheduler.
use rm32_private.Base.{◌≡◌, refl, true, false}
use rm32_private.Base.Int.{pos, ◌/ℤ◌}
use rm32_private.Base.Word.{u8_of}
use rm32_private.Edt.{extended, next_frame, request_init, new}
use rm32_private.Edt.Frames.{idle}

-- A current of 12.8 A has the payload of no current.
current_wraps : (next_frame (pos 12800) 12000 (pos 40) (idle 39 false true)).1 ≡ extended 1536
unfolding next_frame u8_of ◌/ℤ◌
current_wraps = refl

starts : (next_frame (pos 0) 12000 (pos 40) (request_init new)).1 ≡ extended 3584
unfolding next_frame request_init
starts = refl
