-- ===== src/Auth/States.antt =====
-- The states of a login in backend/app/auth/service.py, which Redis keeps: a parameter.
use price_checker.Base.{ℕ, zero, suc, Text, codes, ◌++◌, ◌∷◌}
use price_checker.Errors.{Result, ok, err, state_mismatch}

-- SET with an end, and DEL, which answers with the number of keys that it has deleted.
pub record Keys (Store : Type 0) : Type 0 where
  pub set : Text → Text → ℕ → Store → Store
  pub delete : Text → Store → ℕ × Store

abbrev pub state_ttl_seconds : ℕ
state_ttl_seconds = 600

pub state_key : Text → Text → Text
state_key provider state = codes "oauth:state" ++ b':' ∷ (provider ++ b':' ∷ state)

module _ {Store : Type 0} (redis : Keys Store) where
  -- `state` is the random text that is drawn.
  pub create_state : Text → Text → Store → Text × Store
  create_state provider state st =
      (state, redis.set (state_key provider state) (codes "1") state_ttl_seconds st)

  abbrev if_deleted : ℕ → Result (Unit {0})
  if_deleted zero = err state_mismatch
  if_deleted (suc _) = ok tt

  pub consume_state : Text → Text → Store → Result (Unit {0}) × Store
  consume_state provider state st =
      let (deleted, after) = redis.delete (state_key provider state) st in
      (if_deleted deleted, after)
