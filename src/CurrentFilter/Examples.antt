-- ===== src/CurrentFilter/Examples.antt =====
-- Runs of the moving average.
use rm32_private.Base.{ℕ, zero, suc, replicate, IsU16s, refl, arith, sum}
use rm32_private.CurrentFilter.{new}
use rm32_private.CurrentFilter.Mean.{IsValid}

zeros-IsU16s : (n : ℕ) → IsU16s (replicate n 0)
zeros-IsU16s zero = tt
zeros-IsU16s (suc n) = (omega arith, zeros-IsU16s n)

new-IsValid : IsValid new
unfolding sum
new-IsValid = record { fifty = refl; words = zeros-IsU16s 50; place = omega arith; summed = refl }
