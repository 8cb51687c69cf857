-- ===== src/Migrate/Plan/Decimal.antt =====
-- The precision and scale in a type modifier (crates/quackgis-migrate/src/plan.rs).
use quackgis.Base.{ℕ, ◌+◌, ◌-◌, ◌*◌, ◌/◌, ◌%◌, ◌^◌, ◌<◌, ◌≤◌, ◌≡◌, some, arith, pos}
use quackgis.Migrate.Plan.{decimal_text, decimal_target_type}

high :
    (p s : ℕ)
    → p * 2 ^ 16 + s < 2 ^ 26
    → s < 2 ^ 11
    → ((p * 2 ^ 16 + s + 4) - 4) / 2 ^ 16 % 2 ^ 16 ≡ p
high p s h k = omega (arith, h, k)

low : (p s : ℕ) → s < 2 ^ 11 → ((p * 2 ^ 16 + s + 4) - 4) % 2 ^ 11 ≡ s
low p s k = omega (arith, k)

-- The type modifier that PostgreSQL stores for `numeric(precision, scale)`, with a precision from 1
-- to 38 and a scale up to it, gives the decimal type of that precision and scale.
pub decimal_target_type_lem :
    (precision scale : ℕ)
    → 0 < precision
    → precision ≤ 38
    → scale ≤ precision
    → decimal_target_type (pos (precision * 2 ^ 16 + scale + 4))
      ≡ some (decimal_text precision scale)
unfolding decimal_target_type
decimal_target_type_lem precision scale p q s = ground (
  arith,
  high precision scale (omega (arith, q, s)) (omega (arith, q, s)),
  low precision scale (omega (arith, q, s)),
  p,
  q,
  s,
)
