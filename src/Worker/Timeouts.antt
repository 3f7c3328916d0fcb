-- ===== src/Worker/Timeouts.antt =====
-- Control calls that time out against a daemon that still answers pings (noteTimeout of
-- cork/workers.go). The conn's lock is held throughout, so a call is one step.
pub mod Stalls
use challenge_orchestrator.Common.{
  ℕ, ◌+◌, Bool, true, false, List, [], ◌∷◌, ◌++◌, ltb, if◌then◌else◌, length, keep,
}
use challenge_orchestrator.Worker.Conn.{Conn}

-- now.Sub(at) < window
abbrev pub within : ℕ → ℕ → ℕ → Bool
within now window at = ltb now (at + window)

-- k > 0 && now.Sub(timeouts[k-1]) < callTimeout
unfoldable pub in_last_stall : ℕ → ℕ → List ℕ → Bool
in_last_stall now call_timeout [] = false
in_last_stall now call_timeout (at ∷ []) = within now call_timeout at
in_last_stall now call_timeout (at ∷ next ∷ rest) = in_last_stall now call_timeout (next ∷ rest)

-- The timeouts kept, how many stalls they are, and whether that reaches the limit.
unfoldable pub note_stall : List ℕ → ℕ → ℕ → ℕ → ℕ → List ℕ × ℕ × Bool
note_stall timeouts now call_timeout window limit =
    let recent = keep (within now window) timeouts in
    if in_last_stall now call_timeout recent
    then (recent, length recent, false)
    else let counted = recent ++ now ∷ [] in
      if ltb (length counted) limit
      then (counted, length counted, false)
      else ([], length counted, true)

unfoldable pub note_timeout : Conn → ℕ → ℕ → ℕ → ℕ → Conn × ℕ × Bool
unfolding note_stall
note_timeout w now call_timeout window limit =
    let (kept, n, reached) = note_stall w.timeouts now call_timeout window limit in
    (record w { timeouts = kept }, n, reached)
