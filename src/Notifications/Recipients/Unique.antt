-- ===== src/Notifications/Recipients/Unique.antt =====
-- The unique keys of the table of recipients under the operations of
-- `NotificationRecipientService` in backend/app/notifications/service.py.
use price_checker.Base.{
  replace-Distinct, ℕ, false, Option, none, some, List, [], ◌∷◌, map, ◌≡◌, ◌≢◌, refl, sym, subst,
  arith, Text, text_eq_iff, any, filter, All, Distinct, Distinct-append, any-All, same_id, ◌==◌,
  not, ◌&&◌, Unicode,
}
use price_checker.Errors.{ok}
use price_checker.Models.Notification.{NotificationRecipient}
use price_checker.Database.{
  Db, Session, Orm, Keeps, IsReadOnly, read_then, query_ok, bind-IsReadOnly, ◌>>=◌, lift, query,
}
use price_checker.Notifications.Policy.{normalize_phone_e164}
use price_checker.Notifications.Recipients.{
  NotificationRecipientCreate, NotificationRecipientUpdate, same_phone, has_id, clashes,
  add_recipient, set_recipient, get_recipient_or_404, ensure_shop, ensure_user,
  ensure_optional_refs_belong_to_tenant, flush_recipient, new_recipient, create_recipient,
  update_recipient, normalize_optional, asked,
}

-- The primary key and the unique constraint on (tenant_id, phone_e164).
pub record IsValid (d : Db) : Type 0 where
  pub ids : Distinct (same_id (λ (r : NotificationRecipient). r.id)) d.recipients
  pub phones : Distinct same_phone d.recipients

-- Both what the session sees and what a rollback would restore satisfy them.
pub record IsConsistent (s : Session) : Type 0 where
  pub now : IsValid s.db
  pub saved : IsValid s.saved

same_phone_sym : (r q : NotificationRecipient) → same_phone r q ≡ false → same_phone q r ≡ false
same_phone_sym r q h =
    ground (arith, text_eq_iff r.phone_e164 q.phone_e164, text_eq_iff q.phone_e164 r.phone_e164)

ensure_shop-IsReadOnly : (t : ℕ) (o : Option ℕ) → IsReadOnly (ensure_shop t o)
unfolding ◌>>=◌
ensure_shop-IsReadOnly t none s = refl
ensure_shop-IsReadOnly t (some i) s = ground arith

ensure_user-IsReadOnly : (t : ℕ) (o : Option ℕ) → IsReadOnly (ensure_user t o)
unfolding ◌>>=◌
ensure_user-IsReadOnly t none s = refl
ensure_user-IsReadOnly t (some i) s = ground arith

pub ensure-IsReadOnly :
    (t : ℕ) (i j : Option ℕ) → IsReadOnly (ensure_optional_refs_belong_to_tenant t i j)
unfolding ensure_optional_refs_belong_to_tenant
ensure-IsReadOnly t i j =
    bind-IsReadOnly (ensure_shop t i) (λ _. ensure_user t j) (ensure_shop-IsReadOnly t i)
      (λ _. ensure_user-IsReadOnly t j)

pub get_recipient_or_404-IsReadOnly : (t i : ℕ) → IsReadOnly (get_recipient_or_404 t i)
unfolding get_recipient_or_404 ◌>>=◌
get_recipient_or_404-IsReadOnly t i s = ground arith

-- The row that is returned has the id and the tenant that were asked for.
pub get_recipient_or_404_sound :
    (t i : ℕ) (s : Session) (r : NotificationRecipient)
    → (get_recipient_or_404 t i s).0 ≡ ok r
    → filter (has_id t i) s.db.recipients ≡ r ∷ []
unfolding get_recipient_or_404 ◌>>=◌
get_recipient_or_404_sound t i s r h = ground arith

set_recipient-IsValid :
    (q : NotificationRecipient) (d : Db)
    → IsValid d
    → clashes q d ≡ false
    → IsValid (set_recipient q d)
set_recipient-IsValid q d v c =
    let (ids, phones) =
      replace-Distinct (λ (r : NotificationRecipient). r.id) same_phone same_phone_sym q
        d.recipients v.ids v.phones (any-All _ d.recipients c) in
    record { ids = ids; phones = phones }

module _ (orm : Orm) where
  -- The flush of one row: the table as it was at the start, or the change.
  flush-IsConsistent :
      (q : NotificationRecipient) (change : Db → Db) (s : Session)
      → (clashes q s.db ≡ false → IsValid (change s.db))
      → IsConsistent s
      → IsConsistent (flush_recipient orm q change s).1
  unfolding flush_recipient ◌>>=◌
  flush-IsConsistent q change s keep v = ground (
    arith,
    keep,
    orm.rollback-db (orm.failed_flush s),
    orm.rollback-saved (orm.failed_flush s),
    orm.failed_flush-saved s,
  )

  fresh_id :
      (x : NotificationRecipient) (xs : List NotificationRecipient)
      → All (λ i. i ≢ x.id) (map (λ (r : NotificationRecipient). r.id) xs)
      → any (λ (r : NotificationRecipient). not (r.id == x.id) && same_phone r x) xs ≡ false
      → (any (λ (r : NotificationRecipient). r.id == x.id) xs ≡ false)
        × (any (λ (r : NotificationRecipient). same_phone r x) xs ≡ false)
  fresh_id x [] f n = (refl, refl)
  fresh_id x (y ∷ xs) f n = ground (arith, fresh_id x xs f.1)

  add_recipient-IsValid :
      (t : ℕ) (p : NotificationRecipientCreate) (now : ℕ) (phone : Text) (d : Db)
      → IsValid d
      → clashes (new_recipient orm t p now phone d) d ≡ false
      → IsValid (add_recipient (new_recipient orm t p now phone d) d)
  unfolding new_recipient
  add_recipient-IsValid t p now phone d v c =
      let r = new_recipient orm t p now phone d in
      let (ids, phones) =
        fresh_id r d.recipients
          (orm.next_id_fresh (map (λ (r : NotificationRecipient). r.id) d.recipients)) c in
      record {
        ids = Distinct-append _ r d.recipients ids v.ids;
        phones = Distinct-append same_phone r d.recipients phones v.phones;
      }

  -- Where ids are distinct and no tenant has a phone number twice, in the tables of the
  -- session and in those that a rollback restores, the same holds after a call to create a
  -- recipient, whether it returns or raises.
  pub create_recipient-IsConsistent :
      (u : Unicode) (t : ℕ) (p : NotificationRecipientCreate) (now : ℕ)
      → Keeps IsConsistent (create_recipient orm u t p now)
  unfolding create_recipient
  create_recipient-IsConsistent u t p now s v =
      read_then IsConsistent (ensure_optional_refs_belong_to_tenant t p.shop_id p.user_id) _ s
        (ensure-IsReadOnly t p.shop_id p.user_id) v
        λ _ _.
          read_then IsConsistent (lift (normalize_phone_e164 u p.phone)) _ s (λ _. refl) v
            λ phone _.
              read_then IsConsistent (query (new_recipient orm t p now phone)) _ s (λ _. refl) v
                λ r e.
                  flush-IsConsistent r (add_recipient r) s
                    (λ c.
                      subst (λ x. IsValid (add_recipient x s.db))
                        (sym (query_ok (new_recipient orm t p now phone) s r e))
                        (add_recipient-IsValid t p now phone s.db v.now (
                          subst (λ x. clashes x s.db ≡ false)
                            (query_ok (new_recipient orm t p now phone) s r e) c)))
                    v

  -- Where ids are distinct and no tenant has a phone number twice, in the tables of the
  -- session and in those that a rollback restores, the same holds after a call to update a
  -- recipient, whether it returns or raises.
  pub update_recipient-IsConsistent :
      (u : Unicode) (t i : ℕ) (p : NotificationRecipientUpdate)
      → Keeps IsConsistent (update_recipient orm u t i p)
  unfolding update_recipient
  update_recipient-IsConsistent u t i p s v =
      read_then IsConsistent (get_recipient_or_404 t i) _ s (get_recipient_or_404-IsReadOnly t i) v
        λ r _.
          read_then IsConsistent
            (ensure_optional_refs_belong_to_tenant t (asked p.shop_id) (asked p.user_id)) _ s
            (ensure-IsReadOnly t _ _) v
            λ _ _.
              read_then IsConsistent (lift (normalize_optional u p.phone r.phone_e164)) _ s
                (λ _. refl) v
                λ phone _.
                  flush-IsConsistent _ (set_recipient _) s (set_recipient-IsValid _ s.db v.now) v
