-- ===== src/Operations/Window.antt =====
-- The rate limit in numbers.
use soa_hw.Prelude.{ℕ, ◌+◌, ◌*◌, ◌≤◌, ◌<◌, ◌^◌, ◌≡◌, true, false, arith, inl, inr, ◌-◌, ltb, ◌⊎◌}
use soa_hw.Prelude.Int.{pos, ◌-ℤ◌, ◌*ℤ◌, wrap_int64, clamp_int64, ltb_ℤ}
use soa_hw.Operations.Repository.{limit_at, since, window, minute}

-- The end of the window that began with the last operation.
abbrev pub ready_at : ℕ → ℕ → ℕ
ready_at minutes created_at = created_at + minutes * minute

window_eq : (minutes : ℕ) → minutes ≤ 1_440_000 → window (pos minutes) ≡ pos (minutes * minute)
unfolding window wrap_int64 ◌*ℤ◌
window_eq minutes h = ground arith

since_eq : (t now : ℕ) → now < t + 2 ^ 63 → t < now + 2 ^ 62 → since t now ≡ pos now -ℤ pos t
unfolding since clamp_int64 ◌-ℤ◌
since_eq t now h k = ground arith

left_eq :
    (t now length : ℕ)
    → length < 2 ^ 62
    → t < now + 2 ^ 62
    → now < t + length
    → wrap_int64 (pos length -ℤ (pos now -ℤ pos t)) ≡ pos (t + length - now)
unfolding wrap_int64 ◌-ℤ◌
left_eq t now length h k l = ground arith

late : (t now length : ℕ) → ltb_ℤ (pos now -ℤ pos t) (pos length) ≡ ltb now (t + length)
unfolding ◌-ℤ◌
late t now length = ground arith

ltb-cases : (a b : ℕ) → ((b ≤ a) × (ltb a b ≡ false)) ⊎ ((a < b) × (ltb a b ≡ true))
ltb-cases a b = ground arith

still_early :
    (t now length : ℕ)
    → length < 2 ^ 62
    → now < t + length
    → ltb_ℤ (since t now) (pos length) ≡ true
unfolding since clamp_int64 ◌-ℤ◌
still_early t now length h k = ground arith

-- An operation within the window of one that was recorded at `start` or later is not allowed.
pub early-limit_at :
    (minutes created_at start now : ℕ)
    → minutes ≤ 1_440_000
    → start ≤ created_at
    → now < ready_at minutes start
    → (limit_at (pos minutes) created_at now).0 ≡ false
unfolding limit_at
early-limit_at minutes created_at start now h k l = rw (
  window_eq minutes h,
  still_early created_at now (minutes * minute) (omega (arith, h)) (omega arith),
)

-- For a window of at most 1000 days and a last operation at most 2^63 nanoseconds ago (or 2^62 in
-- the future, as the clock reads), the next
-- operation is allowed exactly when the window has passed since the last one; otherwise the answer
-- has the time that is left.
pub limit_at_iff :
    (minutes created_at now : ℕ)
    → minutes ≤ 1_440_000
    → now < created_at + 2 ^ 63
    → created_at < now + 2 ^ 62
    → ((ready_at minutes created_at ≤ now)
        × (limit_at (pos minutes) created_at now ≡ (true, pos 0)))
      ⊎ ((now < ready_at minutes created_at)
          × (left : ℕ) × (limit_at (pos minutes) created_at now ≡ (false, pos left))
          × (now + left ≡ ready_at minutes created_at))
unfolding limit_at
limit_at_iff minutes created_at now h k l =
    rw (window_eq minutes h, since_eq created_at now k l, late created_at now (minutes * minute))
      elim (ltb-cases now (ready_at minutes created_at)) [
        | inl (ready, e) ↦ inl (ready, rw e)
        | inr (early, e) ↦ inr (
          early,
          ready_at minutes created_at - now,
          rw (e, left_eq created_at now (minutes * minute) (omega (arith, h)) l early),
          omega (arith, early),
        )
      ]
