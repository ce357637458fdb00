-- ===== src/Operations/Tests.antt =====
-- The rate limit at concrete times.
use soa_hw.Prelude.{ℕ, ◌+◌, ◌≤◌, ◌<◌, ◌≡◌, ◌⊎◌, true, false, arith}
use soa_hw.Prelude.Int.{pos}
use soa_hw.Operations.Repository.{limit_at}
use soa_hw.Operations.Window.{ready_at, limit_at_iff}

-- One minute after an operation, with a window of five minutes.
limit_at_iff_example :
    ((ready_at 5 7 ≤ 60_000_000_007) × (limit_at (pos 5) 7 60_000_000_007 ≡ (true, pos 0)))
    ⊎ ((60_000_000_007 < ready_at 5 7)
        × (left : ℕ) × (limit_at (pos 5) 7 60_000_000_007 ≡ (false, pos left))
        × (60_000_000_007 + left ≡ ready_at 5 7))
limit_at_iff_example = limit_at_iff 5 7 60_000_000_007 (omega arith) (omega arith) (omega arith)
