-- ===== src/Ceremony/Timeout.antt =====
-- The time limits that `timeoutState` of ceremony.go hands out.
use webauthn.Prelude.{ℕ, ◌^◌, ◌≤◌, ◌<◌, ◌*◌, ◌≡◌, ◌⊎◌, arith}
use webauthn.Prelude.Int.{pos, ◌≤ℤ◌, ◌+ℤ◌}
use webauthn.Errors.{ok}
use webauthn.Ceremony.{
  Duration, Time, default_browser_timeout, default_challenge_ttl, or_default, milliseconds_of,
  timeout_state,
}

-- An accepted pair of limits gives a browser hint of 1 to 2^32 - 1 milliseconds, which is the timeout
-- (or its default) rounded down to milliseconds, at least 1, and an expiry that is now plus the
-- server-side lifetime (or its default), which is not shorter than the timeout. So the lifetime is
-- not shorter than the hint either, unless the hint is the least one, of 1 millisecond.
pub timeout_state_sound :
    (timeout ttl : Duration) (now : Time) {ms : ℕ} {expires : Time}
    → timeout_state timeout ttl now ≡ ok (ms, expires)
    → (1 ≤ ms)
      × (ms < 2 ^ 32)
      × (ms ≡ milliseconds_of (or_default timeout default_browser_timeout))
      × (expires ≡ now +ℤ or_default ttl default_challenge_ttl)
      × (or_default timeout default_browser_timeout ≤ℤ or_default ttl default_challenge_ttl)
      × (pos 0 ≤ℤ timeout)
      × (pos 0 ≤ℤ ttl)
      × ((ms ≡ 1) ⊎ (pos (ms * 1000000) ≤ℤ or_default ttl default_challenge_ttl))
unfolding timeout_state
timeout_state_sound timeout ttl now h = ground arith
