-- ===== src/Worker/Timeouts/Stalls.antt =====
-- Only separate stalls count, and a worker is ejected for them exactly when enough of them fall
-- into the window.
use challenge_orchestrator.Common.{
  ℕ, suc, ◌+◌, ◌-◌, ◌*◌, ◌≤◌, ◌<◌, ◌≡◌, ◌≢◌, inl, inr, refl, ap, arith, Bool, true, false, List, [],
  ◌∷◌, ◌++◌, length, length-append, length-keep-le, keep, All, Bool-cases,
}
use challenge_orchestrator.Worker.Conn.{Conn}
use challenge_orchestrator.Worker.Timing.{Timing, window_too_short}
use challenge_orchestrator.Worker.Timeouts.{within, in_last_stall, note_stall, note_timeout}

-- Any two times are at least `d` apart, the earlier first.
unfoldable pub IsSpaced : ℕ → List ℕ → Type 0
IsSpaced d [] = Unit
IsSpaced d (t ∷ ts) = All (λ u. t + d ≤ u) ts × IsSpaced d ts

All-keep : (t : ℕ) (p : ℕ → Bool) (ts : List ℕ) → All (λ u. t ≤ u) ts → All (λ u. t ≤ u) (keep p ts)
All-keep t p [] a = tt
All-keep t p (u ∷ us) a = ground (arith, All-keep t p us)

keep-IsSpaced : (d : ℕ) (p : ℕ → Bool) (ts : List ℕ) → IsSpaced d ts → IsSpaced d (keep p ts)
unfolding IsSpaced
keep-IsSpaced d p [] s = tt
keep-IsSpaced d p (t ∷ ts) s = ground (arith, All-keep (t + d) p ts s.0, keep-IsSpaced d p ts s.1)

keep-within :
    (now window : ℕ) (ts : List ℕ) → All (λ u. now < u + window) (keep (within now window) ts)
keep-within now window [] = tt
keep-within now window (t ∷ ts) = ground (arith, keep-within now window ts)

-- A call outside the last stall is that far from all of them.
beyond-All :
    (now d : ℕ) (ts : List ℕ)
    → IsSpaced d ts
    → in_last_stall now d ts ≡ false
    → All (λ u. u + d ≤ now) ts
unfolding IsSpaced in_last_stall
beyond-All now d [] s h = tt
beyond-All now d (t ∷ []) s h = (ground arith, tt)
beyond-All now d (t ∷ u ∷ us) s h =
    let rest = beyond-All now d (u ∷ us) s.1 h in (omega arith, rest)

All-end :
    (t d now : ℕ) (ts : List ℕ) → All (λ u. t ≤ u) ts → t ≤ now → All (λ u. t ≤ u) (ts ++ now ∷ [])
All-end t d now [] a h = (h, tt)
All-end t d now (u ∷ us) a h = (a.0, All-end t d now us a.1 h)

end-IsSpaced :
    (d now : ℕ) (ts : List ℕ)
    → IsSpaced d ts
    → All (λ u. u + d ≤ now) ts
    → IsSpaced d (ts ++ now ∷ [])
unfolding IsSpaced
end-IsSpaced d now [] s a = (tt, tt)
end-IsSpaced d now (t ∷ ts) s a = (All-end (t + d) d now ts s.0 a.0, end-IsSpaced d now ts s.1 a.1)

-- What has been counted so far: separate stalls, fewer than the limit.
pub record IsCounted (call_timeout limit : ℕ) (ts : List ℕ) : Type 0 where
  pub spaced : IsSpaced call_timeout ts
  pub below : length ts < limit

counted_stalls :
    (ts : List ℕ) (now d window : ℕ)
    → IsSpaced d ts
    → in_last_stall now d (keep (within now window) ts) ≡ false
    → IsSpaced d (keep (within now window) ts ++ now ∷ [])
counted_stalls ts now d window s h =
    let recent = keep-IsSpaced d (within now window) ts s in
    end-IsSpaced d now (keep (within now window) ts) recent (beyond-All now d _ recent h)

no_stalls : (d : ℕ) → IsSpaced d []
unfolding IsSpaced
no_stalls d = tt

-- The stalls on record stay separate and fewer than the limit, whatever call times out next.
pub note_timeout-IsCounted :
    (w : Conn) (now d window limit : ℕ)
    → IsCounted d limit w.timeouts
    → IsCounted d limit (note_timeout w now d window limit).0.timeouts
unfolding note_timeout note_stall
note_timeout-IsCounted w now d window limit c = ground (
  arith,
  no_stalls d,
  keep-IsSpaced d (within now window) w.timeouts,
  counted_stalls w.timeouts now d window,
  length-keep-le (within now window) w.timeouts,
)

stalls_counted :
    (ts : List ℕ) (now window : ℕ)
    → (length (keep (within now window) ts ++ now ∷ [])
        ≡ suc (length (keep (within now window) ts)))
      × (length (keep (within now window) ts) ≤ length ts)
stalls_counted ts now window = (
  omega (arith, length-append (keep (within now window) ts) (now ∷ [])),
  length-keep-le (within now window) ts,
)

-- With fewer separate stalls on record than the limit, a timed out call ejects the worker only if
-- it is the limit's stall: then there are that many times, the call's own the last, each at least a
-- call timeout after the one before and all within the window; and the record is cleared.
pub note_timeout_ejects :
    (w : Conn) (now d window limit n : ℕ) (w' : Conn)
    → IsCounted d limit w.timeouts
    → note_timeout w now d window limit ≡ (w', n, true)
    → (ts : List ℕ) × IsSpaced d (ts ++ now ∷ [])
      × All (λ u. now < u + window) ts
      × (suc (length ts) ≡ limit)
      × (n ≡ limit)
      × (w'.timeouts ≡ [])
unfolding note_timeout note_stall
note_timeout_ejects w now d window limit n w' c e = (
  keep (within now window) w.timeouts,
  ground (arith, counted_stalls w.timeouts now d window),
  keep-within now window w.timeouts,
  ground (arith, stalls_counted w.timeouts now window),
  ground (arith, stalls_counted w.timeouts now window),
  ground arith,
)

-- The first of some spaced times is as many gaps before the last as there are times between.
first_before :
    (d now t : ℕ) (ts : List ℕ) → IsSpaced d (t ∷ (ts ++ now ∷ [])) → t + suc (length ts) * d ≤ now
unfolding IsSpaced
first_before d now t [] s = omega arith
first_before d now t (u ∷ us) s = omega (arith, first_before d now u us s.1)

window_spans :
    (d now window : ℕ) (ts : List ℕ)
    → IsSpaced d (ts ++ now ∷ [])
    → All (λ u. now < u + window) ts
    → ts ≢ []
    → length ts * d < window
window_spans d now window [] s a h = absurd (h refl)
window_spans d now window (t ∷ ts) s a h = omega (arith, first_before d now t ts s)

gaps_fill_window :
    (t : Timing) (now : ℕ) (ts : List ℕ)
    → window_too_short t ≡ true
    → IsSpaced t.control_timeout (ts ++ now ∷ [])
    → All (λ u. now < u + t.timeout_window) ts
    → suc (length ts) ≢ t.timeouts_to_eject
unfolding window_too_short
gaps_fill_window t now [] short s a e = ground arith
gaps_fill_window t now (u ∷ us) short s a e = ground (
  arith,
  window_spans t.control_timeout now t.timeout_window (u ∷ us) s a (λ q. cc),
  ap (λ k. (k - 1) * t.control_timeout) e,
)

-- Under tunables for which the code warns that the window cannot hold that many stalls, a daemon
-- that answers pings is indeed never ejected for timing out: no call reaches the limit.
pub note_timeout_never :
    (w : Conn) (t : Timing) (now : ℕ)
    → window_too_short t ≡ true
    → IsCounted t.control_timeout t.timeouts_to_eject w.timeouts
    → (note_timeout w now t.control_timeout t.timeout_window t.timeouts_to_eject).2 ≡ false
note_timeout_never w t now short c =
    let r = note_timeout w now t.control_timeout t.timeout_window t.timeouts_to_eject in
    elim (Bool-cases r.2) [
      | inl h ↦
          let (ts, s, a, e, count, cleared) =
            note_timeout_ejects w now t.control_timeout t.timeout_window t.timeouts_to_eject r.1 r.0
              c (λ i. (r.0, r.1, h i)) in
          absurd (gaps_fill_window t now ts short s a e)
      | inr h ↦ h
    ]
