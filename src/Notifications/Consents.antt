-- ===== src/Notifications/Consents.antt =====
-- `NotificationConsentService` of backend/app/notifications/service.py, and the test of
-- `NotificationDeliveryService` for a consent in force. JSON evidence is stored as it comes.
pub mod InForce
use price_checker.Base.{
  ℕ, Bool, true, false, not, ◌&&◌, Option, none, some, ◌∷◌, [], ◌++◌, List, map, Text, update_where,
  ◌==◌, is_none, is_some, if◌then◌else◌, any, filter,
}
use price_checker.Errors.{Error, Result, ok, err, consent_not_found}
use price_checker.Models.Notification.{
  NotificationRecipient, NotificationConsent, ConsentType, consent_type_code, Payload,
}
use price_checker.Database.{
  Db, Session, Orm, Action, pure, raise, or_raise, query, query_one, one_or_none, lift, ◌>>=◌, ◌>>◌,
  flush, write,
}
use price_checker.Notifications.Recipients.{get_recipient_or_404}

pub record NotificationConsentGrant : Type 0 where
  pub consent_type : ConsentType
  pub consent_source : Text
  pub evidence : Payload
  pub granted_at : Option ℕ

abbrev pub is_consent : ℕ → ℕ → ConsentType → NotificationConsent → Bool
is_consent tenant_id recipient_id consent_type c =
    c.tenant_id == tenant_id
    && c.recipient_id == recipient_id
    && consent_type_code c.consent_type == consent_type_code consent_type

-- The unique constraint on (recipient_id, consent_type).
abbrev pub same_consent : NotificationConsent → NotificationConsent → Bool
same_consent c e =
    c.recipient_id == e.recipient_id
    && consent_type_code c.consent_type == consent_type_code e.consent_type

abbrev pub set_consent : NotificationConsent → Db → Db
set_consent c d = record d {
  consents = update_where (λ (e : NotificationConsent). e.id == c.id) (λ e. c) d.consents;
}

abbrev pub add_consent : NotificationConsent → Db → Db
add_consent c d = record d { consents = d.consents ++ c ∷ [] }

pub get_consent : ℕ → ℕ → ConsentType → Action (Option NotificationConsent)
get_consent tenant_id recipient_id consent_type =
    query_one (λ d. d.consents) (is_consent tenant_id recipient_id consent_type)

abbrev or_now : Option ℕ → ℕ → ℕ
or_now none now = now
or_now (some given) now = given

module _ (orm : Orm) where
  new_consent : ℕ → ℕ → NotificationConsentGrant → ℕ → Db → NotificationConsent
  new_consent tenant_id recipient_id payload granted_at d = record {
    id = orm.next_id (map (λ (c : NotificationConsent). c.id) d.consents);
    tenant_id = tenant_id;
    recipient_id = recipient_id;
    consent_type = payload.consent_type;
    consent_source = payload.consent_source;
    evidence = payload.evidence;
    granted_at = granted_at;
    revoked_at = none;
  }

  -- The two branches of `grant_consent`: no consent yet, or one that is given again.
  grant_branch :
      ℕ → ℕ → NotificationConsentGrant → ℕ → Option NotificationConsent → Action NotificationConsent
  grant_branch tenant_id recipient_id payload granted_at none = do
    consent ← query (new_consent tenant_id recipient_id payload granted_at)
    flush orm (λ d. any (λ c. same_consent c consent) d.consents) (add_consent consent)
    pure consent
  grant_branch tenant_id recipient_id payload granted_at (some old) = do
    let consent = record old {
      consent_source = payload.consent_source;
      evidence = payload.evidence;
      granted_at = granted_at;
      revoked_at = none;
    }
    write (set_consent consent)
    pure consent

  pub grant_consent : ℕ → ℕ → NotificationConsentGrant → ℕ → Action NotificationConsent
  grant_consent tenant_id recipient_id payload now = do
    get_recipient_or_404 tenant_id recipient_id
    consent ← get_consent tenant_id recipient_id payload.consent_type
    grant_branch tenant_id recipient_id payload (or_now payload.granted_at now) consent

-- What `revoke_consent` does with the consent that it finds.
revoke_found : ℕ → Option NotificationConsent → Action NotificationConsent
revoke_found now consent = do
  found ← or_raise consent consent_not_found
  let revoked = record found { revoked_at = some now }
  write (set_consent revoked)
  pure revoked

pub revoke_consent : ℕ → ℕ → ConsentType → ℕ → Action NotificationConsent
revoke_consent tenant_id recipient_id consent_type now = do
  get_recipient_or_404 tenant_id recipient_id
  consent ← get_consent tenant_id recipient_id consent_type
  revoke_found now consent

-- `NotificationDeliveryService._has_active_consent`
pub has_active_consent : ℕ → ℕ → ConsentType → Action Bool
has_active_consent tenant_id recipient_id consent_type = do
  consent ←
      query_one (λ d. d.consents)
        (λ c. is_consent tenant_id recipient_id consent_type c && is_none c.revoked_at)
  pure (is_some consent)
