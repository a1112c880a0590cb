-- ===== src/Authentication/Counter.antt =====
-- authentication.go: signature counters.
use webauthn.Prelude.{
  ℕ, ◌≤◌, ◌≡◌, ◌↔◌, ◌⊎◌, arith, Bool, true, false, ◌&&◌, ◌||◌, List, [], ◌∷◌, ltb, ◌==◌,
  if◌then◌else◌,
}
use webauthn.Errors.{Error, sentinel, clone_risk}
use webauthn.Authentication.{
  CounterPolicy, CounterResult, CounterStatus, unsupported, incremented, clone_risk_status,
}

unfoldable pub compare_counters : ℕ → ℕ → CounterResult
compare_counters stored new =
    if stored == 0 && new == 0
    then record { stored = stored; new = new; status = unsupported; clone_risk = false }
    else if ltb stored new
    then record { stored = stored; new = new; status = incremented; clone_risk = false }
    else record { stored = stored; new = new; status = clone_risk_status; clone_risk = true }

unfoldable pub authentication_warnings : CounterResult → List Error
authentication_warnings c = if c.clone_risk then sentinel clone_risk ∷ [] else []

abbrev is_incremented : CounterStatus → Bool
is_incremented incremented = true
is_incremented _ = false

-- The counter that is stored next: the new one after an increment, or after a clone risk if the
-- policy says so.
unfoldable pub next_sign_count : CounterPolicy → ℕ → ℕ → ℕ
unfolding compare_counters
next_sign_count p stored new =
    let c = compare_counters stored new in
    if is_incremented c.status || (c.clone_risk && p.update_on_clone_risk) then new else stored

-- A clone risk is reported exactly if a counter is in use and did not grow.
pub compare_counters_clone_risk :
    (stored new : ℕ)
    → ((compare_counters stored new).clone_risk ≡ true) ↔ ((new ≤ stored) × (1 ≤ stored))
unfolding compare_counters
compare_counters_clone_risk stored new = (λ h. ground arith, λ h. ground arith)

-- Unless the policy updates on a clone risk, the next counter is the greater of the two: it is one of
-- them, and neither is above it. So the stored counter never falls.
pub next_sign_count_grows :
    (p : CounterPolicy) (stored new : ℕ)
    → p.update_on_clone_risk ≡ false
    → (stored ≤ next_sign_count p stored new)
      × (new ≤ next_sign_count p stored new)
      × ((next_sign_count p stored new ≡ stored) ⊎ (next_sign_count p stored new ≡ new))
unfolding next_sign_count
next_sign_count_grows p stored new h = ground arith
