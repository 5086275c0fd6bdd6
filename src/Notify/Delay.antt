-- ===== src/Notify/Delay.antt =====
-- internal/notify/notify.go: how long a delivery that failed waits.
use thornhill.Base.{
  ap, sym, ◌∙◌, ◌-◌, ◌^◌, ltb, if◌then◌else◌, ℕ, zero, suc, ◌+◌, ◌*◌, ◌≤◌, ◌<◌, ◌≡◌, refl, ◌⊎◌, inl,
  inr, arith,
}
use thornhill.Notify.{retry_delay}

clamped_late :
    (a : ℕ) → 6 ≤ a → (let low = if ltb a 1 then 1 else a in if ltb 6 low then 6 else low) ≡ 6
clamped_late a h = ground arith

retry_delay_late : (a : ℕ) → 6 ≤ a → retry_delay a ≡ 960
unfolding retry_delay
retry_delay_late a h = ap (λ (n : ℕ). 2 ^ (n - 1) * 30) (clamped_late a h)

-- The delay lies between half a minute and sixteen minutes for every number of attempts; it doubles with
-- each of the attempts from the first to the sixth, and stays the same outside.
pub retry_delay_ladder :
    (a : ℕ)
    → (30 ≤ retry_delay a)
      × (retry_delay a ≤ 960)
      × (((1 ≤ a) × (a < 6) × (retry_delay (a + 1) ≡ 2 * retry_delay a))
          ⊎ ((retry_delay (a + 1) ≡ retry_delay a) × ((a < 1) ⊎ (6 ≤ a))))
unfolding retry_delay
retry_delay_ladder zero = (omega arith, omega arith, inr (refl, inl (omega arith)))
retry_delay_ladder (suc zero) = (omega arith, omega arith, inl (omega arith, omega arith, refl))
retry_delay_ladder (suc (suc zero)) =
    (omega arith, omega arith, inl (omega arith, omega arith, refl))
retry_delay_ladder (suc (suc (suc zero))) =
    (omega arith, omega arith, inl (omega arith, omega arith, refl))
retry_delay_ladder (suc (suc (suc (suc zero)))) =
    (omega arith, omega arith, inl (omega arith, omega arith, refl))
retry_delay_ladder (suc (suc (suc (suc (suc zero))))) =
    (omega arith, omega arith, inl (omega arith, omega arith, refl))
retry_delay_ladder (suc (suc (suc (suc (suc (suc n)))))) =
    let a = suc (suc (suc (suc (suc (suc n))))) in
    let e = retry_delay_late a (omega arith) in
    let e' = retry_delay_late (a + 1) (omega arith) in
    (rw e (omega arith), rw e (omega arith), inr (e' ∙ sym e, inr (omega arith)))
