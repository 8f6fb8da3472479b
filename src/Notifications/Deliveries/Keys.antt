-- ===== src/Notifications/Deliveries/Keys.antt =====
-- The idempotency keys of backend/app/notifications/service.py tell apart what they should.
use price_checker.Base.{
  ℕ, ◌≡◌, arith, ◌∷◌, ◌++◌, [], Text, str_int, str_int_injective, str_int-All, digits_before,
}
use price_checker.Notifications.Deliveries.{outbox_key, procurement_result, colon}

append_cancel : (p s t : Text) → p ++ s ≡ p ++ t → s ≡ t
append_cancel [] s t e = e
append_cancel (c ∷ p) s t e = append_cancel p s t (cc e)

-- Two results with the same outbox key are one result of one tenant.
pub outbox_key_injective : (t r t' r' : ℕ) → outbox_key t r ≡ outbox_key t' r' → (t ≡ t') × (r ≡ r')
unfolding outbox_key
outbox_key_injective t r t' r' e =
    let rest : b':' ∷ colon (str_int t) (str_int r) ≡ b':' ∷ colon (str_int t') (str_int r') =
      append_cancel procurement_result _ _ e in
    let (same_tenant, same_result) =
      digits_before b':' (str_int t) (str_int t') (str_int r) (str_int r') (omega arith)
        (str_int-All t) (str_int-All t') (cc rest) in
    (str_int_injective t t' same_tenant, str_int_injective r r' same_result)
