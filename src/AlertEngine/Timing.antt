-- ===== src/AlertEngine/Timing.antt =====
-- How long a breach has to last.
use pulse_frix.Prelude.{ℕ, ◌+◌, ◌*◌, ◌-◌, ◌≤◌, ◌<◌, ◌^◌, ◌%◌, ◌≡◌, ◌↔◌, true, arith}
use pulse_frix.Duration.{since, second, clamp64}
use pulse_frix.AlertEngine.{is_due, seconds}

-- For a rule whose time is below 2 ^ 63 nanoseconds, and a breach that has lasted less than that, the
-- rule is due exactly when the breach has lasted that time.
pub is_due_lem :
    (now start for_seconds : ℕ)
    → start ≤ now
    → now - start < 2 ^ 63
    → for_seconds * second < 2 ^ 63
    → (is_due now start for_seconds ≡ true) ↔ (start + for_seconds * second ≤ now)
unfolding is_due seconds since clamp64
is_due_lem now start for_seconds le short fits =
    (λ h. ground (arith, h, le, short, fits), λ h. ground (arith, h, le, short, fits))

-- A rule whose time in nanoseconds wraps around to a negative duration is due at once, for a breach
-- that began now or earlier.
pub is_due_wrapped :
    (now start for_seconds : ℕ)
    → start ≤ now
    → 2 ^ 63 ≤ for_seconds * second % 2 ^ 64
    → is_due now start for_seconds ≡ true
unfolding is_due seconds since clamp64
is_due_wrapped now start for_seconds le wraps = ground (arith, le, wraps)
