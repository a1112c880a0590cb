-- ===== src/Attestation/Tpm/Algorithms/Exponent.antt =====
-- The trial division of `validTPMRSAExponent`: it ends, and it accepts exactly the odd primes.
use webauthn.Prelude.{
  ℕ, zero, suc, ◌+◌, ◌*◌, ◌/◌, ◌%◌, ◌^◌, ◌≤◌, ◌<◌, ◌≡◌, ◌≢◌, ◌↔◌, ◌⊎◌, inl, inr, refl, sym, ap, ◌∙◌,
  arith, true, false, none, some, leb, ◌==◌, Bool-cases,
}
use native.Mathlib.Nat.{
  le-div_iff_mul-le, mul-le-mul, zero-mul, mul_assoc, mul-mod_right, mul-one, mul_comm, div-add-mod,
}
use webauthn.Attestation.Tpm.Algorithms.{
  has_no_divisor, divisor_fuel, divisor_loop, valid_tpm_rsa_exponent,
}

-- Where the loop stands: an odd divisor that has not passed 2 ^ 16 + 1, with fuel for the others.
record IsRound (fuel exponent divisor : ℕ) : Type 0 where
  small : exponent < 2 ^ 32
  odd : divisor % 2 ≡ 1
  least : 3 ≤ divisor
  last : divisor ≤ 65537
  enough : 65539 ≤ divisor + 2 * fuel

-- The loop goes on only where the square of the divisor is at most the exponent.
continues : (e d : ℕ) → 3 ≤ d → leb d (e / d) ≡ true → d * d ≤ e
continues e d pos h = (le-div_iff_mul-le {k = d} {x = d} {y = e} (omega arith)).0 (ground arith)

stops : (e d : ℕ) → 3 ≤ d → leb d (e / d) ≡ false → e < d * d
stops e d pos h = ground (arith, le-div_iff_mul-le {k = d} {x = d} {y = e})

-- No odd number from `d` on whose square is at most `e` divides `e`.
abbrev NoDivisorFrom : ℕ → ℕ → Type 0
NoDivisorFrom e d = (k : ℕ) → d ≤ k → k % 2 ≡ 1 → k * k ≤ e → e % k ≢ 0

-- A divisor that is neither 1 nor `e`.
abbrev Divides : ℕ → ℕ → Type 0
Divides e k = (3 ≤ k) × (k * k ≤ e) × (e % k ≡ 0)

below_2_16 : (e d : ℕ) → e < 2 ^ 32 → d * d ≤ e → d ≤ 65535
below_2_16 e d small square = elim (Bool-cases (leb d 65535)) [
  | inl h ↦ ground arith
  | inr h ↦
      let big : 65536 ≤ d = ground arith in
      absurd (omega (arith, square, small, mul-le-mul big big))
]

next-IsRound : (fuel e d : ℕ) → IsRound (suc fuel) e d → d * d ≤ e → IsRound fuel e (d + 2)
next-IsRound fuel e d w square =
    let below : d ≤ 65535 = below_2_16 e d w.small square in
    record {
      small = w.small;
      odd = omega (arith, w.odd);
      least = omega (arith, w.least);
      last = omega arith;
      enough = omega (arith, w.enough);
    }

extend : (e d : ℕ) → d % 2 ≡ 1 → e % d ≢ 0 → NoDivisorFrom e (d + 2) → NoDivisorFrom e d
extend e d odd here later k from k_odd square = elim (Bool-cases (k == d)) [
  | inl h ↦ ground (arith, here)
  | inr h ↦ later k (ground arith) k_odd square
]

step_next :
    (fuel e d : ℕ)
    → leb d (e / d) ≡ true
    → (e % d == 0) ≡ false
    → d ≤ 65535
    → has_no_divisor (suc fuel) e d ≡ has_no_divisor fuel e (d + 2)
unfolding has_no_divisor
step_next fuel e d go some_rest below =
    let wrap : (d + 2) % 2 ^ 32 ≡ d + 2 = omega arith in
    ground (arith, ap (λ (n : ℕ). has_no_divisor fuel e n) wrap)

step_found :
    (fuel e d : ℕ)
    → leb d (e / d) ≡ true
    → (e % d == 0) ≡ true
    → has_no_divisor (suc fuel) e d ≡ some false
unfolding has_no_divisor
step_found fuel e d go no_rest = ground arith

step_stop : (fuel e d : ℕ) → leb d (e / d) ≡ false → has_no_divisor (suc fuel) e d ≡ some true
unfolding has_no_divisor
step_stop fuel e d stop = ground arith

-- With the fuel of its round the loop ends, and its answer is right.
loop_lem :
    (fuel e d : ℕ)
    → IsRound fuel e d
    → ((has_no_divisor fuel e d ≡ some true) × NoDivisorFrom e d)
      ⊎ ((has_no_divisor fuel e d ≡ some false) × (k : ℕ) × Divides e k)
loop_lem zero e d w = absurd (omega (arith, w.last, w.enough))
loop_lem (suc fuel) e d w = elim (Bool-cases (leb d (e / d))) [
  | inl go ↦
      let square : d * d ≤ e = continues e d w.least go in
      elim (Bool-cases (e % d == 0)) [
        | inl no_rest ↦ inr (step_found fuel e d go no_rest, d, (w.least, square, ground arith))
        | inr some_rest ↦
            let step = step_next fuel e d go some_rest (below_2_16 e d w.small square) in
            elim (loop_lem fuel e (d + 2) (next-IsRound fuel e d w square)) [
              | inl (r, none_later) ↦ inl (step ∙ r, extend e d w.odd (ground arith) none_later)
              | inr (r, k, divides) ↦ inr (step ∙ r, k, divides)
            ]
      ]
  | inr stop ↦ inl (
    step_stop fuel e d stop,
    λ k from k_odd square.
        absurd (omega (arith, square, stops e d w.least stop, mul-le-mul from from)),
  )
]

first-IsRound : (e : ℕ) → e < 2 ^ 32 → IsRound divisor_fuel e 3
first-IsRound e small = record {
  small = small;
  odd = refl;
  least = omega arith;
  last = omega arith;
  enough = omega arith;
}

-- The trial division of every 32-bit exponent ends before its fuel does.
pub divisor_loop_ends : (exponent : ℕ) → exponent < 2 ^ 32 → divisor_loop exponent ≢ none
unfolding divisor_loop
divisor_loop_ends e small out = elim (loop_lem divisor_fuel e 3 (first-IsRound e small)) [
  | inl (r, _) ↦ cc (r, out)
  | inr (r, _, _) ↦ cc (r, out)
]

-- A prime number other than 2.
pub record IsOddPrime (e : ℕ) : Type 0 where
  pub at_least : 3 ≤ e
  pub factors : (a b : ℕ) → a * b ≡ e → (a ≡ 1) ⊎ (b ≡ 1)

even-mul : (a b : ℕ) → a % 2 ≡ 0 → a * b % 2 ≡ 0
even-mul a b h =
    let half : a ≡ 2 * (a / 2) = omega arith in
    omega (arith, ap (λ (n : ℕ). n * b) half, mul_assoc 2 (a / 2) b)

no_factor : (e : ℕ) → 3 ≤ e → e % 2 ≡ 1 → NoDivisorFrom e 3 → (a b : ℕ) → a ≤ b → a * b ≡ e → a ≡ 1
no_factor e pos odd prime zero b le e_eq = absurd (omega (arith, zero-mul b, e_eq))
no_factor e pos odd prime (suc zero) b le e_eq = refl
no_factor e pos odd prime (suc (suc c)) b le e_eq =
    let a : ℕ = suc (suc c) in
    let a_odd : a % 2 ≡ 1 = elim (Bool-cases (a % 2 == 0)) [
      | inl h ↦ absurd (omega (arith, odd, e_eq, even-mul a b (ground arith)))
      | inr h ↦ ground arith
    ] in
    let square : a * a ≤ e =
      omega (arith, e_eq, mul-le-mul {n₁ = a} {m₁ = a} {n₂ = a} {m₂ = b} (omega arith) le) in
    absurd (
      prime a (omega (arith, a_odd)) a_odd square
        (ap (λ (n : ℕ). n % a) (sym e_eq) ∙ mul-mod_right a b))

not_divided : (e : ℕ) → IsOddPrime e → (k : ℕ) → Divides e k → ⊥
not_divided e p k (from, square, divides) =
    let whole : k * (e / k) ≡ e = omega (arith, div-add-mod e k, divides) in
    elim (p.factors k (e / k) whole) [
      | inl one ↦ omega arith
      | inr one ↦ omega (
        arith,
        ap (λ (n : ℕ). k * n) one,
        mul-one k,
        square,
        whole,
        p.at_least,
        mul-le-mul {n₁ = 3} {m₁ = k} {n₂ = k} {m₂ = k} from (omega arith),
      )
    ]

prime-odd : (e : ℕ) → IsOddPrime e → e % 2 ≡ 1
prime-odd e p = elim (Bool-cases (e % 2 == 0)) [
  | inl h ↦
      let whole : 2 * (e / 2) ≡ e = ground arith in
      elim (p.factors 2 (e / 2) whole) [
        | inl two ↦ absurd (omega arith)
        | inr one ↦ absurd (omega (arith, p.at_least))
      ]
  | inr h ↦ ground arith
]

factor_one :
    (e : ℕ) → 3 ≤ e → e % 2 ≡ 1 → NoDivisorFrom e 3 → (a b : ℕ) → a * b ≡ e → (a ≡ 1) ⊎ (b ≡ 1)
factor_one e pos odd prime a b e_eq = elim (Bool-cases (leb a b)) [
  | inl h ↦ inl (no_factor e pos odd prime a b (ground arith) e_eq)
  | inr h ↦ inr (no_factor e pos odd prime b a (ground arith) (mul_comm b a ∙ e_eq))
]

valid→IsOddPrime : (e : ℕ) → e < 2 ^ 32 → valid_tpm_rsa_exponent e ≡ true → IsOddPrime e
unfolding valid_tpm_rsa_exponent divisor_loop
valid→IsOddPrime e small h = elim (loop_lem divisor_fuel e 3 (first-IsRound e small)) [
  | inl (r, none_from) ↦
      let pos : 3 ≤ e = ground arith in
      let odd : e % 2 ≡ 1 = ground arith in
      record { at_least = pos; factors = factor_one e pos odd none_from }
  | inr (r, k, d) ↦ absurd (ground (arith, r))
]

IsOddPrime→valid : (e : ℕ) → e < 2 ^ 32 → IsOddPrime e → valid_tpm_rsa_exponent e ≡ true
unfolding valid_tpm_rsa_exponent divisor_loop
IsOddPrime→valid e small p = elim (loop_lem divisor_fuel e 3 (first-IsRound e small)) [
  | inl (r, none_from) ↦ ground (arith, r, p.at_least, prime-odd e p)
  | inr (r, k, d) ↦ absurd (not_divided e p k d)
]

-- A 32-bit exponent is valid exactly if it is an odd prime.
pub valid_tpm_rsa_exponent_iff :
    (exponent : ℕ)
    → exponent < 2 ^ 32
    → (valid_tpm_rsa_exponent exponent ≡ true) ↔ IsOddPrime exponent
valid_tpm_rsa_exponent_iff e small = (valid→IsOddPrime e small, IsOddPrime→valid e small)
