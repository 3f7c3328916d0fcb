-- ===== src/Ports/Top.antt =====
-- The upper end of the range that getPortRange accepts is one above the last port of the table.
use challenge_orchestrator.Common.{ℕ, ◌≤◌, some, ◌≡◌, arith}
use challenge_orchestrator.Ports.{PortRange, get_port_range}

-- What the parsing of the range accepts and what it makes of it.
pub get_port_range_lem :
    (low high : ℕ) (r : PortRange)
    → get_port_range (some (some (low, high))) ≡ some r
    → (r.low ≡ low) × (r.high ≡ high) × (1024 ≤ low) × (low ≤ high) × (high ≤ 65536)
unfolding get_port_range
get_port_range_lem low high r e = ground arith
