-- ===== src/Notifications/Deliveries/Outbox.antt =====
-- What becomes of an event of backend/app/notifications/service.py.
use price_checker.Base.{
  ◌==◌, ◌&&◌, ℕ, true, false, ◌≡◌, refl, sym, subst, arith, List, [], ◌∷◌, ◌++◌, map, Text, any,
  filter, Option, none, codes, update_where-map, if◌then◌else◌, some, All, Unicode, inl, inr, ◌⊎◌,
  Bool-cases,
}
use price_checker.Errors.{Result, ok, err, pending_rollback}
use price_checker.Models.Notification.{
  NotificationOutboxEvent, NotificationDelivery, NotificationRecipient, NotificationTemplateVersion,
  OutboxStatus, NotificationDeadLetter,
}
use price_checker.Database.{
  Db, Session, Orm, ◌>>=◌, IsReadOnly, pure, query, lift, read_to, flush_to,
}
use price_checker.Notifications.Deliveries.{
  procurement_result, outbox_key, undeliverable, published, set_event, add_dead_letter, dead_letter,
  new_dead_letter, deliver, expand_to, active_recipients, approved_template_version,
  expand_procurement_result_event, build_deliveries,
}
use price_checker.Notifications.Deliveries.Events.{
  has_key, get_shop_name, new_event, store_event, create_procurement_result_event,
  get_outbox_by_idempotency,
}
use price_checker.Notifications.Deliveries.Built.{Serves, recipient_of, id_of, build_deliveries_lem}
use price_checker.Notifications.Deliveries.Sendable.{IsSendable, approved-IsSendable}

module _ (orm : Orm) (u : Unicode) where
  -- A flush that violates the constraint on the key ends in the session's own exception.
  store_event_again :
      (event : NotificationOutboxEvent) (s : Session)
      → s.active ≡ true
      → any (has_key orm u event.idempotency_key) s.db.outbox_events ≡ true
      → (store_event orm u event s).0 ≡ err pending_rollback
  unfolding store_event get_outbox_by_idempotency ◌>>=◌
  store_event_again event s a e = ground (arith, orm.failed_flush-active s)

  new_event-key :
      (t o r h : ℕ) (product price : Text) (failure : Option Text) (shop : Text) (d : Db)
      → (new_event orm u t o r h product price failure shop d).idempotency_key ≡ outbox_key t r
  unfolding new_event
  new_event-key t o r h product price failure shop d = refl

  -- In a session that takes statements, where the name of the shop can be read and an event
  -- with the key of this tenant and result is stored, the call raises the session's own
  -- exception instead of returning the stored event: the lookup behind the failed flush runs
  -- without a rollback.
  pub create_event_again :
      (t o r h : ℕ) (product price : Text) (failure : Option Text) (s : Session) {shop : Text}
      → s.active ≡ true
      → get_shop_name t h s ≡ (ok shop, s)
      → any (has_key orm u (outbox_key t r)) s.db.outbox_events ≡ true
      → (create_procurement_result_event orm u t o r h product price failure s).0
        ≡ err pending_rollback
  unfolding create_procurement_result_event ◌>>=◌
  create_event_again t o r h product price failure s {shop} active named stored =
      let event = new_event orm u t o r h product price failure shop s.db in
      ground (
        arith,
        named,
        store_event_again event s active (
            subst (λ k. any (has_key orm u k) s.db.outbox_events ≡ true)
              (sym (new_event-key t o r h product price failure shop s.db)) stored),
      )

  abbrev pub active_of : NotificationOutboxEvent → Db → List NotificationRecipient
  active_of event d =
      filter (λ (r : NotificationRecipient). r.tenant_id == event.tenant_id && r.is_active)
        d.recipients

  -- Why an event is not delivered, and the reason that is written down.
  abbrev pub IsUndeliverable : NotificationOutboxEvent → Session → Text → Type 0
  IsUndeliverable event s reason =
      ((active_of event s.db ≡ []) × (reason ≡ codes "no_active_recipients"))
      ⊎ (((approved_template_version event.tenant_id procurement_result s).0 ≡ ok none)
          × (reason ≡ codes "missing_procurement_result_template"))

  -- A dead letter of an event, which can be sent again.
  abbrev pub IsLetter : NotificationOutboxEvent → NotificationDeadLetter → Type 0
  IsLetter event letter =
      (letter.tenant_id ≡ event.tenant_id)
      × (letter.outbox_event_id ≡ some event.id)
      × (letter.envelope ≡ event.payload)
      × (letter.recoverable ≡ true)

  -- The row of this event has it with the status `published`, and the other rows are as before.
  abbrev pub Published : NotificationOutboxEvent → Session → Session → Type 0
  Published event s s' =
      s'.db.outbox_events
      ≡ map
          (λ (e : NotificationOutboxEvent).
            if e.id == event.id then record event { status = OutboxStatus.published } else e)
          s.db.outbox_events

  -- How the expansion of an event ends: one more dead letter and no delivery; or a delivery for
  -- each active recipient of the tenant; or an exception, and the session as it was or as the
  -- failed flush left it.
  abbrev pub Expands :
      NotificationOutboxEvent → Session → Result (List NotificationDelivery) → Session → Type 0
  Expands event s (ok ds) s' =
      Published event s s'
      × (((ds ≡ [])
            × (s'.db.deliveries ≡ s.db.deliveries)
            × ((letter : NotificationDeadLetter) × (s'.db.dead_letters
                  ≡ s.db.dead_letters ++ letter ∷ [])
                × IsLetter event letter
                × IsUndeliverable event s letter.reason))
          ⊎ ((map recipient_of ds ≡ map id_of (active_of event s.db))
              × ((version : NotificationTemplateVersion) × ((approved_template_version
                      event.tenant_id procurement_result s).0
                    ≡ ok (some version))
                  × IsSendable event s.db.templates version
                  × All (Serves orm u event version) ds)
              × (s'.db.deliveries ≡ s.db.deliveries ++ ds)
              × (s'.db.dead_letters ≡ s.db.dead_letters)))
  Expands event s (err e) s' = (s' ≡ s) ⊎ (s' ≡ orm.failed_flush s)

  approved-IsReadOnly : (t : ℕ) → IsReadOnly (approved_template_version t procurement_result)
  unfolding approved_template_version
  approved-IsReadOnly t s = refl

  active_recipients-IsReadOnly : (t : ℕ) → IsReadOnly (active_recipients t)
  unfolding active_recipients
  active_recipients-IsReadOnly t s = refl

  active_recipients_ok :
      (event : NotificationOutboxEvent) (s : Session) (rs : List NotificationRecipient)
      → (active_recipients event.tenant_id s).0 ≡ ok rs
      → rs ≡ active_of event s.db
  unfolding active_recipients
  active_recipients_ok event s rs e = ground arith

  -- The two flushes of an event that cannot be delivered, in a session that takes statements and
  -- in one that takes none.
  undeliverable_active :
      (event : NotificationOutboxEvent) (reason : Text) (s : Session)
      → s.active ≡ true
      → let letter = new_dead_letter orm event.tenant_id event.id reason event.payload true s.db in
        undeliverable orm u event reason s
        ≡ (ok [], record s { db = set_event (published orm u event) (add_dead_letter letter s.db) })
  unfolding undeliverable dead_letter ◌>>=◌
  undeliverable_active event reason s a = ground arith

  undeliverable_inactive :
      (event : NotificationOutboxEvent) (reason : Text) (s : Session)
      → s.active ≡ false
      → undeliverable orm u event reason s ≡ (err pending_rollback, s)
  unfolding undeliverable dead_letter ◌>>=◌
  undeliverable_inactive event reason s a = ground arith

  -- The expansion publishes the event.
  publishes :
      (event : NotificationOutboxEvent) (s : Session)
      → Published event s (record s { db = set_event (published orm u event) s.db })
  publishes event s =
      update_where-map (λ (e : NotificationOutboxEvent). e.id == event.id)
        (λ _. published orm u event) s.db.outbox_events

  undeliverable-Expands :
      (event : NotificationOutboxEvent) (reason : Text) (s : Session)
      → IsUndeliverable event s reason
      → Expands event s
          (undeliverable orm u event reason s).0
          (undeliverable orm u event reason s).1
  unfolding new_dead_letter
  undeliverable-Expands event reason s why = elim (Bool-cases s.active) [
    | inl a ↦
        subst (λ (r : Result (List NotificationDelivery) × Session). Expands event s r.0 r.1)
          (sym (undeliverable_active event reason s a))
          (
            publishes event s,
            inl (
              refl,
              refl,
              (
                new_dead_letter orm event.tenant_id event.id reason event.payload true s.db,
                refl,
                (refl, refl, refl, refl),
                why,
              ),
            ),
          )
    | inr f ↦
        subst (λ (r : Result (List NotificationDelivery) × Session). Expands event s r.0 r.1)
          (sym (undeliverable_inactive event reason s f)) (inl refl)
  ]

  deliver-Expands :
      (event : NotificationOutboxEvent) (o : Option NotificationTemplateVersion) (s : Session)
      → (approved_template_version event.tenant_id procurement_result s).0 ≡ ok o
      → Expands event s
          (deliver orm u event (active_of event s.db) o s).0
          (deliver orm u event (active_of event s.db) o s).1
  unfolding deliver
  deliver-Expands event none s h = undeliverable-Expands event _ s (inr (h, refl))
  deliver-Expands event (some version) s h =
      read_to (Expands event s) (query (λ d. map (λ (x : NotificationDelivery). x.id) d.deliveries))
        _ s (λ _. refl) (λ _. inl refl)
        λ ids _.
          read_to (Expands event s)
            (lift (build_deliveries orm u event version (active_of event s.db) ids)) _ s (λ _. refl)
            (λ _. inl refl)
            λ ds built.
              let (covered, serve) =
                build_deliveries_lem orm u event version (active_of event s.db) ids ds built in
              flush_to orm (Expands event s) _ _ (pure ds) s (λ _. inl refl) (λ _ _. inr refl)
                (λ _ _. (
                  publishes event s,
                  inr (
                    covered,
                    (version, h, approved-IsSendable event s version h, serve),
                    refl,
                    refl,
                  ),
                ))

  expand_to-Expands :
      (event : NotificationOutboxEvent) (rs : List NotificationRecipient) (s : Session)
      → rs ≡ active_of event s.db
      → Expands event s (expand_to orm u event rs s).0 (expand_to orm u event rs s).1
  unfolding expand_to
  expand_to-Expands event [] s e = undeliverable-Expands event _ s (inl (sym e, refl))
  expand_to-Expands event (r ∷ rs) s e =
      read_to (Expands event s) (approved_template_version event.tenant_id procurement_result) _ s
        (approved-IsReadOnly event.tenant_id) (λ _. inl refl)
        λ version h.
          subst
            (λ rs.
              Expands event s (deliver orm u event rs version s).0
                (deliver orm u event rs version s).1)
            (sym e) (deliver-Expands event version s h)

  -- An expansion that returns gives the event's row in the outbox the status published and
  -- leaves the other rows, and either gives a delivery for each active recipient of its
  -- tenant, in their order, with the texts that an approved transactional Alimtalk version of
  -- an active template of the tenant renders to, and stores these behind the others; or,
  -- where there is no active recipient or no approved version, it stores one more dead
  -- letter, which names the reason and keeps the payload, and no delivery. One that raises
  -- leaves the session as it was or as a failed flush leaves it.
  pub expand-Expands :
      (event : NotificationOutboxEvent) (s : Session)
      → let (result, s') = expand_procurement_result_event orm u event s in
        Expands event s result s'
  unfolding expand_procurement_result_event
  expand-Expands event s =
      read_to (Expands event s) (active_recipients event.tenant_id) _ s
        (active_recipients-IsReadOnly event.tenant_id) (λ _. inl refl)
        λ rs e. expand_to-Expands event rs s (active_recipients_ok event s rs e)
