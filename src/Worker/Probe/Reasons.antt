-- ===== src/Worker/Probe/Reasons.antt =====
-- What an ejection by the poller says of itself.
use challenge_orchestrator.Common.{◌≡◌, Bool, true, false, some}
use challenge_orchestrator.Errors.{Err}
use challenge_orchestrator.Worker.Timing.{Timing}
use challenge_orchestrator.Worker.Conn.{Conn}
use challenge_orchestrator.Worker.Probe.{Answers}

-- The probe that failed in this round: the deep one or the ping.
abbrev pub FailedBy : Answers → Bool → Err → Type 0
FailedBy a true e = a.deep ≡ some e
FailedBy a false e = a.ping ≡ some e
