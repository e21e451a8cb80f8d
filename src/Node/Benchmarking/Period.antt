-- ===== src/Node/Benchmarking/Period.antt =====
-- The period of the eras of node/src/benchmarking.rs.
use event_listener.Prelude.{
  ℕ, zero, suc, ◌+◌, ◌*◌, ◌^◌, ◌≤◌, ◌<◌, ◌≡◌, refl, ap, sym, ◌∙◌, none, some, leb, leb→le,
  Bool-cases, inl, inr, false, arith,
}
use native.Mathlib.Nat.{pow-suc, pow-le-pow_right}
use event_listener.Node.Benchmarking.{
  find_power, checked_next_power_of_two, half_or_two, era_period,
}

-- From a power below twice the number on, the next power is found if it is one of those left.
find_power-some :
    (k a t n : ℕ)
    → a + k ≡ t
    → 2 ^ a < 2 * n
    → 2 * n ≤ 2 ^ t
    → (b : ℕ) × (find_power k (2 ^ a) n ≡ some (2 ^ b)) × (n ≤ 2 ^ b) × (2 ^ b < 2 * n)
unfolding find_power
find_power-some zero a t n e low high =
    let same : 2 ^ a ≡ 2 ^ t = ap (λ i. 2 ^ i) (omega (arith, e)) in
    let no : ⊥ = omega (arith, same, low, high) in absurd no
find_power-some (suc k) a t n e low high = elim (Bool-cases (leb n (2 ^ a))) [
  | inl found ↦ (a, rw found refl, leb→le n (2 ^ a) found, low)
  | inr more ↦
      let (b, run, here, next) =
        find_power-some k (suc a) t n (omega (arith, e)) (ground (arith, pow-suc 2 a)) high in
      (b, rw (more, sym (pow-suc 2 a)) run, here, next)
]

find_power-none : (k a t n : ℕ) → a + k ≡ t → 2 ^ t < 2 * n → find_power k (2 ^ a) n ≡ none
unfolding find_power
find_power-none zero a t n e high = refl
find_power-none (suc k) a t n e high =
    let below : 2 ^ suc a ≤ 2 ^ t = pow-le-pow_right (omega arith) (omega (arith, e)) in
    let more : leb n (2 ^ a) ≡ false = ground (arith, below, pow-suc 2 a) in
    rw (more, sym (pow-suc 2 a)) (find_power-none k (suc a) t n (omega (arith, e)) high)

half_or_two-power :
    (n b : ℕ)
    → 2 ≤ n
    → n ≤ 2 ^ b
    → 2 ^ b < 2 * n
    → (e : ℕ) × (half_or_two (some (2 ^ b)) ≡ 2 ^ e) × (2 ^ e < n) × (n ≤ 2 * 2 ^ e)
half_or_two-power n zero two here next = let no : ⊥ = omega (arith, two, here) in absurd no
half_or_two-power n (suc e) two here next =
    let double : 2 ^ suc e ≡ 2 ^ e * 2 = pow-suc 2 e in
    (e, omega (arith, double), omega (arith, double), omega (arith, double))

-- Of a number of block hashes that is at least 2 and a `u32`: up to 2 ^ 31 the period is the power of
-- two that is below the number, and half of it at least; above, where the next power of two is not
-- a `u32`, the period is 2. In both cases it is below the number of block hashes that are kept.
pub era_period-power :
    (n : ℕ)
    → 2 ≤ n
    → (n ≤ 2 ^ 31 → (e : ℕ) × (era_period n ≡ 2 ^ e) × (era_period n < n) × (n ≤ 2 * era_period n))
      × (2 ^ 31 < n → era_period n ≡ 2)
unfolding era_period checked_next_power_of_two
era_period-power n two = (
  λ small.
      let (b, run, here, next) = find_power-some 32 0 32 n refl (omega arith) (omega arith) in
      let (e, half, below, above) = half_or_two-power n b two here next in
      let same : half_or_two (find_power 32 1 n) ≡ 2 ^ e = ap half_or_two run ∙ half in
      (e, same, rw same below, rw same above),
  λ large. rw (find_power-none 32 0 32 n refl (omega arith)) refl,
)
