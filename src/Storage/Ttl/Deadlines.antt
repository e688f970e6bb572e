-- ===== src/Storage/Ttl/Deadlines.antt =====
-- Deadlines lie ahead, and their remaining time is the timeout that they were set to.
use krafton_week.Prelude.{
  ℕ, ◌+◌, ◌*◌, ◌/◌, ◌≡◌, ap, arith, ℤ, pos, negsuc, ◌-ℤ◌, ◌<ℤ◌, +ℤ_parts, +ℤ_cancel_left,
}
use krafton_week.Storage.Ttl.{second, compute_deadline, remaining_seconds}

pub lt-compute_deadline : (now seconds : ℤ) → pos 0 <ℤ seconds → now <ℤ compute_deadline now seconds
unfolding compute_deadline second
lt-compute_deadline now (pos n) h = omega (arith, +ℤ_parts now (pos (n * 1000000)))
lt-compute_deadline now (negsuc n) h = absurd (omega arith)

ceil_whole : (n : ℕ) → (n * 1000000 + 999999) / 1000000 ≡ n
ceil_whole n = omega arith

-- At the moment of `EXPIRE` or `RESERVE_SEAT` the remaining time is the timeout.
pub remaining_seconds-compute_deadline :
    (now : ℤ) (n : ℕ) → remaining_seconds (compute_deadline now (pos n) -ℤ now) ≡ pos n
unfolding compute_deadline remaining_seconds second
remaining_seconds-compute_deadline now n =
    rw (+ℤ_cancel_left now (pos (n * 1000000))) (ap pos (ceil_whole n))
