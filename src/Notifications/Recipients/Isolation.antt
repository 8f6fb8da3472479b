-- ===== src/Notifications/Recipients/Isolation.antt =====
-- What the operations of `NotificationRecipientService` in
-- backend/app/notifications/service.py leave of the other tenants' rows.
use price_checker.Base.{
  Text, append-nil, ℕ, true, false, List, [], ◌∷◌, ◌≡◌, refl, subst, arith, filter, All, All-map,
  found_by_id, filter-update_where, filter-append, filter-All, ◌==◌, not, inl, ◌⊎◌, Unicode,
}
use price_checker.Errors.{Result, ok, err}
use price_checker.Models.Notification.{NotificationRecipient}
use price_checker.Database.{Db, Session, Orm, read_to, query, query_ok, lift, ◌>>=◌}
use price_checker.Notifications.Policy.{normalize_phone_e164}
use price_checker.Notifications.Recipients.{
  NotificationRecipientCreate, NotificationRecipientUpdate, has_id, add_recipient, set_recipient,
  get_recipient_or_404, ensure_optional_refs_belong_to_tenant, flush_recipient, new_recipient,
  create_recipient, update_recipient, deactivate_recipient, normalize_optional, asked,
}
use price_checker.Notifications.Recipients.Unique.{
  IsValid, ensure-IsReadOnly, get_recipient_or_404-IsReadOnly, get_recipient_or_404_sound,
}

-- The rows of the other tenants.
abbrev pub foreign : ℕ → Db → List NotificationRecipient
foreign t d = filter (λ (r : NotificationRecipient). not (r.tenant_id == t)) d.recipients

-- A call for tenant `t` in session `s` returned a row of this tenant and left the rows of the
-- others, or it raised and left the session or the tables as the transaction found them.
abbrev pub Isolates : ℕ → Session → Result NotificationRecipient → Session → Type 0
Isolates t s (ok r) s' = (r.tenant_id ≡ t) × (foreign t s'.db ≡ foreign t s.db)
Isolates t s (err e) s' = (s' ≡ s) ⊎ (s'.db ≡ s.saved)

module _ (orm : Orm) (t : ℕ) where
  flush-Isolates :
      (q : NotificationRecipient) (change : Db → Db) (s : Session)
      → q.tenant_id ≡ t
      → foreign t (change s.db) ≡ foreign t s.db
      → Isolates t s (flush_recipient orm q change s).0 (flush_recipient orm q change s).1
  unfolding flush_recipient ◌>>=◌
  flush-Isolates q change s own same =
      ground (arith, orm.rollback-db (orm.failed_flush s), orm.failed_flush-saved s)

  foreign-set_recipient :
      (i : ℕ) (r q : NotificationRecipient) (d : Db)
      → IsValid d
      → filter (has_id t i) d.recipients ≡ r ∷ []
      → q.id ≡ r.id
      → q.tenant_id ≡ r.tenant_id
      → (r.tenant_id ≡ t) × (foreign t (set_recipient q d) ≡ foreign t d)
  foreign-set_recipient i r q d v e id tenant =
      let hit : has_id t i r ≡ true =
        (subst (All (λ x. has_id t i x ≡ true)) e (filter-All (has_id t i) d.recipients)).0 in
      let own : r.tenant_id ≡ t = ground arith in
      (
        own,
        filter-update_where (λ (x : NotificationRecipient). not (x.tenant_id == t))
            (λ x. x.id == q.id) (λ _. q) d.recipients
            (All-map _ _ d.recipients (λ x h g. ground (arith, h))
              (found_by_id _ (has_id t i) d.recipients [] r v.ids e)),
      )

  -- Where ids are distinct and no tenant has a phone number twice, an update that returns
  -- gives a row of the tenant that asks and leaves the recipients of the other tenants
  -- unchanged; one that raises leaves the session as it was, or the tables as the transaction
  -- found them.
  pub update_recipient-Isolates :
      (u : Unicode) (i : ℕ) (p : NotificationRecipientUpdate) (s : Session)
      → IsValid s.db
      → let (result, s') = update_recipient orm u t i p s in Isolates t s result s'
  unfolding update_recipient
  update_recipient-Isolates u i p s v =
      read_to (Isolates t s) (get_recipient_or_404 t i) _ s (get_recipient_or_404-IsReadOnly t i)
        (λ _. inl refl)
        λ r found.
          read_to (Isolates t s)
            (ensure_optional_refs_belong_to_tenant t (asked p.shop_id) (asked p.user_id)) _ s
            (ensure-IsReadOnly t _ _) (λ _. inl refl)
            λ _ _.
              read_to (Isolates t s) (lift (normalize_optional u p.phone r.phone_e164)) _ s
                (λ _. refl) (λ _. inl refl)
                λ phone _.
                  let (own, same) =
                    foreign-set_recipient i r _ s.db v (get_recipient_or_404_sound t i s r found)
                      refl refl in
                  flush-Isolates _ (set_recipient _) s own same

  -- Where ids are distinct and no tenant has a phone number twice, a deactivation that
  -- returns gives a row of the tenant that asks and leaves the recipients of the other
  -- tenants unchanged; one that raises leaves the session as it was, or the tables as the
  -- transaction found them.
  pub deactivate_recipient-Isolates :
      (i : ℕ) (s : Session)
      → IsValid s.db
      → let (result, s') = deactivate_recipient t i s in Isolates t s result s'
  unfolding deactivate_recipient
  deactivate_recipient-Isolates i s v =
      read_to (Isolates t s) (get_recipient_or_404 t i) _ s (get_recipient_or_404-IsReadOnly t i)
        (λ _. inl refl)
        λ r found.
          unfold ◌>>=◌ in
          ground (
            arith,
            foreign-set_recipient i r (record r { is_active = false }) s.db v
                (get_recipient_or_404_sound t i s r found) refl refl,
          )

  foreign-add_recipient :
      (p : NotificationRecipientCreate) (now : ℕ) (phone : Text) (d : Db)
      → foreign t (add_recipient (new_recipient orm t p now phone d) d) ≡ foreign t d
  unfolding new_recipient
  foreign-add_recipient p now phone d = ground (
    arith,
    filter-append (λ (x : NotificationRecipient). not (x.tenant_id == t)) d.recipients
        (new_recipient orm t p now phone d ∷ []),
    append-nil (foreign t d),
  )

  new_recipient-tenant :
      (p : NotificationRecipientCreate) (now : ℕ) (phone : Text) (d : Db)
      → (new_recipient orm t p now phone d).tenant_id ≡ t
  unfolding new_recipient
  new_recipient-tenant p now phone d = refl

  -- A creation that returns gives a row of the tenant that asks and leaves the recipients of
  -- the other tenants unchanged; one that raises leaves the session as it was, or the tables
  -- as the transaction found them.
  pub create_recipient-Isolates :
      (u : Unicode) (p : NotificationRecipientCreate) (now : ℕ) (s : Session)
      → let (result, s') = create_recipient orm u t p now s in Isolates t s result s'
  unfolding create_recipient
  create_recipient-Isolates u p now s =
      read_to (Isolates t s) (ensure_optional_refs_belong_to_tenant t p.shop_id p.user_id) _ s
        (ensure-IsReadOnly t _ _) (λ _. inl refl)
        λ _ _.
          read_to (Isolates t s) (lift (normalize_phone_e164 u p.phone)) _ s (λ _. refl)
            (λ _. inl refl)
            λ phone _.
              read_to (Isolates t s) (query (new_recipient orm t p now phone)) _ s (λ _. refl)
                (λ _. inl refl)
                λ r e.
                  let same = query_ok (new_recipient orm t p now phone) s r e in
                  flush-Isolates r (add_recipient r) s
                    (rw same (new_recipient-tenant p now phone s.db))
                    (rw same (foreign-add_recipient p now phone s.db))
