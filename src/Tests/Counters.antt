-- ===== src/Tests/Counters.antt =====
-- A Redis that is a function from keys to counters and forgets nothing in time, and a clock.
use price_checker.Base.{
  ℕ, ◌+◌, ◌*◌, ◌≡◌, ◌≢◌, refl, arith, Option, none, some, Text, codes, text_eq, text_eq_iff,
  text_eq_refl, if◌then◌else◌,
}
use price_checker.Quota.{Redis, Clock, or_zero}

abbrev pub Counters : Type 0
Counters = Text → Option ℕ

abbrev bump : Text → ℕ → Counters → ℕ × Counters
bump k n st = (or_zero (st k) + n, λ k'. if text_eq k' k then some (or_zero (st k) + n) else st k')

bumped : (k : Text) (n : ℕ) (st : Counters) → (bump k n st).1 k ≡ some (or_zero (st k) + n)
bumped k n st = ground (arith, text_eq_refl k)

kept : (k k' : Text) (n : ℕ) (st : Counters) → k' ≢ k → (bump k n st).1 k' ≡ st k'
kept k k' n st h = ground (arith, text_eq_iff k' k)

unfoldable pub counters : Redis Counters
unfolding bumped kept
counters = record {
  get = λ k st. st k;
  incrby = bump;
  expireat = λ k at st. st;
  incrby-answer = λ k n st. refl;
  get-incrby = bumped;
  get-incrby-other = kept;
  get-expireat = λ k k' at st. refl;
}

abbrev pub clock : Clock
clock = record {
  now = record { year = 2026; month = 12 };
  year_month = codes "202612";
  first_midnight = λ m. m.year * 12 + m.month;
}

abbrev pub unused : Counters
unused = λ k. none
