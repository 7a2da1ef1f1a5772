-- ===== src/Pipelines/Risk.antt =====
-- The risk level that the approval prompt shows.
use merlya.Common.{ℕ, ◌≤◌, arith}
use merlya.Pipelines.{DiffResult, RiskLevel, low, medium, high, critical, assess_risk_level}

abbrev pub rank : RiskLevel → ℕ
rank low = 0
rank medium = 1
rank high = 2
rank critical = 3

-- A diff with at least as many deletions and modifications never has a lower risk level.
pub assess_risk_level_mono :
    (d e : DiffResult)
    → d.deletions ≤ e.deletions
    → d.modifications ≤ e.modifications
    → rank (assess_risk_level d) ≤ rank (assess_risk_level e)
unfolding assess_risk_level
assess_risk_level_mono d e h k = ground arith
