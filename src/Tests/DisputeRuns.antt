-- ===== src/Tests/DisputeRuns.antt =====
-- A dispute eleven minutes after the incident, where ten are recommended.
use stockastic.Prelude.Int.{pos}
use stockastic.Disputes.{Config}

abbrev ten_minutes : Config
ten_minutes = record { raise_within = pos 600_000_000_000; decision_target = pos 900_000_000_000 }
