-- ===== src/Notifications/Consents/InForce.antt =====
-- When a consent of backend/app/notifications/service.py is in force.
use price_checker.Base.{
  filter-All, subst, replaced_none, replaced_one, filter-append, filter_of_none, filter_none,
  All-map, ℕ, Bool, true, false, Option, none, some, List, [], ◌∷◌, ◌++◌, ◌≡◌, refl, arith,
  Distinct, same_id, filter, All, ◌&&◌, is_none,
}
use price_checker.Errors.{Result, ok, err}
use price_checker.Models.Notification.{NotificationConsent, ConsentType}
use price_checker.Database.{
  Db, Session, Orm, ◌>>=◌, IsReadOnly, read_to, write_to, flush_to, query_ok, query_one-IsReadOnly,
  pure, query,
}
use price_checker.Notifications.Recipients.Unique.{get_recipient_or_404-IsReadOnly}
use price_checker.Notifications.Consents.{
  NotificationConsentGrant, is_consent, grant_consent, revoke_consent, has_active_consent,
  get_consent, revoke_found, grant_branch, new_consent, or_now, set_consent, add_consent,
}
use price_checker.Notifications.Recipients.{get_recipient_or_404}

-- A consent that is asked for, and in force.
abbrev active : ℕ → ℕ → ConsentType → NotificationConsent → Bool
active t i c x = is_consent t i c x && is_none x.revoked_at

narrow :
    (t i : ℕ) (c : ConsentType) (x : NotificationConsent)
    → is_consent t i c x ≡ false
    → active t i c x ≡ false
narrow t i c x h = ground arith

-- The row that `get_consent` finds.
get_consent_sound :
    (t i : ℕ) (c : ConsentType) (s : Session) (r : NotificationConsent)
    → (get_consent t i c s).0 ≡ ok (some r)
    → filter (is_consent t i c) s.db.consents ≡ r ∷ []
unfolding get_consent ◌>>=◌
get_consent_sound t i c s r h = ground arith

get_consent-none :
    (t i : ℕ) (c : ConsentType) (s : Session)
    → (get_consent t i c s).0 ≡ ok none
    → filter (is_consent t i c) s.db.consents ≡ []
unfolding get_consent ◌>>=◌
get_consent-none t i c s h = ground arith

get_consent-IsReadOnly : (t i : ℕ) (c : ConsentType) → IsReadOnly (get_consent t i c)
unfolding get_consent
get_consent-IsReadOnly t i c = query_one-IsReadOnly (λ d. d.consents) (is_consent t i c)

pub has_active_consent-IsReadOnly :
    (t i : ℕ) (c : ConsentType) → IsReadOnly (has_active_consent t i c)
unfolding has_active_consent ◌>>=◌
has_active_consent-IsReadOnly t i c s = ground arith

-- What `has_active_consent` answers, by the rows that its query returns.
has_active-none :
    (t i : ℕ) (c : ConsentType) (s : Session)
    → s.active ≡ true
    → filter (active t i c) s.db.consents ≡ []
    → has_active_consent t i c s ≡ (ok false, s)
unfolding has_active_consent ◌>>=◌
has_active-none t i c s a e = ground arith

has_active-one :
    (t i : ℕ) (c : ConsentType) (s : Session) (r : NotificationConsent)
    → s.active ≡ true
    → filter (active t i c) s.db.consents ≡ r ∷ []
    → has_active_consent t i c s ≡ (ok true, s)
unfolding has_active_consent ◌>>=◌
has_active-one t i c s r a e = ground arith

-- After a call that succeeded the consent is, or is not, in force.
abbrev pub Settles : ℕ → ℕ → ConsentType → Bool → Result NotificationConsent → Session → Type 0
Settles t i c answer (ok r) s' = has_active_consent t i c s' ≡ (ok answer, s')
Settles t i c answer (err e) s' = Unit

refused :
    (t i : ℕ) (c : ConsentType) (r : NotificationConsent) (now : ℕ)
    → active t i c (record r { revoked_at = some now }) ≡ false
refused t i c r now = ground arith

found-Settles :
    (t i now : ℕ) (c : ConsentType) (s : Session) (o : Option NotificationConsent)
    → (get_consent t i c s).0 ≡ ok o
    → Settles t i c false (revoke_found now o s).0 (revoke_found now o s).1
unfolding revoke_found ◌>>=◌
found-Settles t i now c s none h = tt
found-Settles t i now c s (some r) h =
    let q : NotificationConsent = record r { revoked_at = some now } in
    write_to (Settles t i c false) (set_consent q) (pure q) s (λ _. tt)
      λ a. has_active-none t i c _ a (
        replaced_none (λ (x : NotificationConsent). x.id) (is_consent t i c) (active t i c) q r refl
          s.db.consents (narrow t i c) (refused t i c r now) (get_consent_sound t i c s r h))

-- A revocation that returns leaves a session in which the recipient's consent of this type is
-- not in force.
pub revoke_consent-Settles :
    (t i now : ℕ) (c : ConsentType) (s : Session)
    → let (result, s') = revoke_consent t i c now s in Settles t i c false result s'
unfolding revoke_consent
revoke_consent-Settles t i now c s =
    read_to (Settles t i c false) (get_recipient_or_404 t i) _ s
      (get_recipient_or_404-IsReadOnly t i) (λ _. tt)
      λ _ _.
        read_to (Settles t i c false) (get_consent t i c) (revoke_found now) s
          (get_consent-IsReadOnly t i c) (λ _. tt) (found-Settles t i now c s)

-- What a test finds in a table with a new last row.
appended :
    {A : Type 0} (p g : A → Bool) (q : A) (xs : List A)
    → ((x : A) → p x ≡ false → g x ≡ false)
    → g q ≡ true
    → filter p xs ≡ []
    → filter g (xs ++ q ∷ []) ≡ q ∷ []
appended p g q xs n h e = rw (
  filter-append g xs (q ∷ []),
  filter_of_none g xs (All-map _ _ xs (λ x f. n x f) (filter_none p xs e)),
  h,
)

module _ (orm : Orm) (t i : ℕ) (p : NotificationConsentGrant) where
  new_consent-active :
      (at : ℕ) (d : Db) → active t i p.consent_type (new_consent orm t i p at d) ≡ true
  unfolding new_consent
  new_consent-active at d = ground arith

  still_asked :
      (r : NotificationConsent) (xs : List NotificationConsent)
      → filter (is_consent t i p.consent_type) xs ≡ r ∷ []
      → is_consent t i p.consent_type r ≡ true
  still_asked r xs e =
      (subst (All (λ x. is_consent t i p.consent_type x ≡ true)) e
        (filter-All (is_consent t i p.consent_type) xs)).0

  branch-Settles :
      (at : ℕ) (s : Session) (o : Option NotificationConsent)
      → Distinct (same_id (λ (x : NotificationConsent). x.id)) s.db.consents
      → (get_consent t i p.consent_type s).0 ≡ ok o
      → Settles t i p.consent_type true
          (grant_branch orm t i p at o s).0
          (grant_branch orm t i p at o s).1
  unfolding grant_branch
  branch-Settles at s none d h =
      read_to (Settles t i p.consent_type true) (query (new_consent orm t i p at)) _ s (λ _. refl)
        (λ _. tt)
        λ q e.
          flush_to orm (Settles t i p.consent_type true) _ (add_consent q) (pure q) s (λ _. tt)
            (λ _ _. tt)
            λ a _. has_active-one t i p.consent_type _ q a (
              appended (is_consent t i p.consent_type) (active t i p.consent_type) q s.db.consents
                (narrow t i p.consent_type)
                (rw (query_ok (new_consent orm t i p at) s q e) (new_consent-active at s.db))
                (get_consent-none t i p.consent_type s h))
  branch-Settles at s (some r) d h =
      let q : NotificationConsent = record r {
        consent_source = p.consent_source;
        evidence = p.evidence;
        granted_at = at;
        revoked_at = none;
      } in
      write_to (Settles t i p.consent_type true) (set_consent q) (pure q) s (λ _. tt)
        λ a. has_active-one t i p.consent_type _ q a (
          replaced_one (λ (x : NotificationConsent). x.id) (is_consent t i p.consent_type)
            (active t i p.consent_type) q r refl s.db.consents d (narrow t i p.consent_type)
            (ground
              (arith, still_asked r s.db.consents (get_consent_sound t i p.consent_type s r h)))
            (get_consent_sound t i p.consent_type s r h))

  -- Where the ids of the consents are distinct, a grant that returns leaves a session in
  -- which the recipient's consent of this type is in force, also where it was revoked before.
  pub grant_consent-Settles :
      (now : ℕ) (s : Session)
      → Distinct (same_id (λ (x : NotificationConsent). x.id)) s.db.consents
      → let (result, s') = grant_consent orm t i p now s in
        Settles t i p.consent_type true result s'
  unfolding grant_consent
  grant_consent-Settles now s d =
      read_to (Settles t i p.consent_type true) (get_recipient_or_404 t i) _ s
        (get_recipient_or_404-IsReadOnly t i) (λ _. tt)
        λ _ _.
          read_to (Settles t i p.consent_type true) (get_consent t i p.consent_type)
            (grant_branch orm t i p (or_now p.granted_at now)) s
            (get_consent-IsReadOnly t i p.consent_type) (λ _. tt)
            (λ o. branch-Settles (or_now p.granted_at now) s o d)
