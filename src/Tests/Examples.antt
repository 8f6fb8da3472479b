-- ===== src/Tests/Examples.antt =====
-- Each theorem on the notifications at the tables of the fixtures.
use price_checker.Base.{
  ℕ, true, false, ◌≡◌, ◌≢◌, refl, arith, List, [], ◌∷◌, ◌++◌, none, some, codes, text_eq_refl,
  ascii, strip, Text, str_int,
}
use price_checker.Errors.{ok, err, pending_rollback, and_then}
use price_checker.Models.Notification.{Channel, Purpose, ReviewStatus, ConsentType, Json, int}
use price_checker.Database.{◌>>=◌}
use price_checker.Notifications.Policy.{normalize_phone_e164, IsKoreanNumber}
use price_checker.Notifications.Policy.E164.{
  normalize_phone_e164-IsKoreanNumber, normalize_phone_e164_idem, domestic_eq_international,
  trunk_zero_kept,
}
use price_checker.Notifications.Recipients.{
  NotificationRecipientCreate, NotificationRecipientUpdate, create_recipient, update_recipient,
  deactivate_recipient,
}
use price_checker.Notifications.Recipients.Unique
use price_checker.Notifications.Recipients.Isolation.{
  Isolates, create_recipient-Isolates, update_recipient-Isolates, deactivate_recipient-Isolates,
}
use price_checker.Notifications.Consents.{NotificationConsentGrant, grant_consent, revoke_consent}
use price_checker.Notifications.Consents.InForce.{
  Settles, grant_consent-Settles, revoke_consent-Settles,
}
use price_checker.Notifications.Templates.{NotificationTemplateVersionCreate, create_version}
use price_checker.Notifications.Templates.Versions
use price_checker.Notifications.Render.{lookup, render_text}
use price_checker.Notifications.Render.Placeholders.{render_text-append}
use price_checker.Notifications.Deliveries.{outbox_key, expand_procurement_result_event}
use price_checker.Notifications.Deliveries.Events.{create_procurement_result_event, get_shop_name}
use price_checker.Notifications.Deliveries.Keys.{outbox_key_injective}
use price_checker.Notifications.Deliveries.Outbox.{create_event_again, Expands, expand-Expands}
use price_checker.Notifications.Fallback.{create_sms_fallback_for_delivery}
use price_checker.Notifications.Fallback.Consented.{Falls, create_sms_fallback-Falls}
use price_checker.Tests.Fixtures.{orm, session, tables, event}

recipients_ok : Unique.IsValid tables
recipients_ok = record { ids = ground arith; phones = ground arith }

session_ok : Unique.IsConsistent session
session_ok = record { now = recipients_ok; saved = recipients_ok }

abbrev newcomer : NotificationRecipientCreate
newcomer = record {
  phone = codes "010-9999-8888";
  display_name = codes "new";
  shop_id = some 1;
  user_id = none;
}

abbrev change : NotificationRecipientUpdate
change = record {
  phone = some (codes "01077776666");
  display_name = none;
  shop_id = some none;
  user_id = none;
  is_active = none;
}

create_recipient-IsConsistent_example :
    Unique.IsConsistent (create_recipient orm ascii 1 newcomer 20 session).1
create_recipient-IsConsistent_example =
    Unique.create_recipient-IsConsistent orm ascii 1 newcomer 20 session session_ok

update_recipient-IsConsistent_example :
    Unique.IsConsistent (update_recipient orm ascii 1 1 change session).1
update_recipient-IsConsistent_example =
    Unique.update_recipient-IsConsistent orm ascii 1 1 change session session_ok

create_recipient-Isolates_example :
    let (r, s) = create_recipient orm ascii 1 newcomer 20 session in Isolates 1 session r s
create_recipient-Isolates_example = create_recipient-Isolates orm 1 ascii newcomer 20 session

update_recipient-Isolates_example :
    let (r, s) = update_recipient orm ascii 1 1 change session in Isolates 1 session r s
update_recipient-Isolates_example =
    update_recipient-Isolates orm 1 ascii 1 change session recipients_ok

deactivate_recipient-Isolates_example :
    let (r, s) = deactivate_recipient 1 1 session in Isolates 1 session r s
deactivate_recipient-Isolates_example = deactivate_recipient-Isolates orm 1 1 session recipients_ok

abbrev grant : NotificationConsentGrant
grant = record {
  consent_type = ConsentType.sms_marketing;
  consent_source = codes "app";
  evidence = [];
  granted_at = none;
}

grant_consent-Settles_example :
    let (r, s) = grant_consent orm 1 1 grant 30 session in
    Settles 1 1 ConsentType.sms_marketing true r s
grant_consent-Settles_example = grant_consent-Settles orm 1 1 grant 30 session (ground arith)

revoke_consent-Settles_example :
    let (r, s) = revoke_consent 1 1 ConsentType.sms_marketing 30 session in
    Settles 1 1 ConsentType.sms_marketing false r s
revoke_consent-Settles_example = revoke_consent-Settles 1 1 30 ConsentType.sms_marketing session

abbrev next : NotificationTemplateVersionCreate
next = record {
  channel = Channel.kakao_alimtalk;
  purpose = Purpose.transactional;
  provider_template_key = none;
  review_status = ReviewStatus.draft;
  locale = codes "ko";
  title = none;
  body = codes "b";
  fallback_body = none;
  variables = [];
}

create_version-Ends_example :
    let (r, s) = create_version orm 1 1 next session in Versions.Ends session r s
create_version-Ends_example =
    Versions.create_version-Ends orm 1 next 1 session
      (record { numbers = ground arith; allowed = ground arith })

abbrev price : List (Text × Json)
price = (codes "price", int 5) ∷ []

render_text-append_example :
    render_text ascii (codes "only {{ price  }} won") price
    ≡ and_then
        (render_text ascii (codes " won") price)
        (λ t. ok (codes "only " ++ (str_int 5 ++ t)))
unfolding lookup ascii
render_text-append_example =
    render_text-append ascii price (codes "only ") (codes " ") b'p' (codes "rice") (codes "  ")
      (codes " won") (int 5) (ground arith) (ground arith) refl (ground arith) (ground arith)
      (ground (arith, text_eq_refl (codes "price")))

normalize_phone_e164-IsKoreanNumber_example : IsKoreanNumber ascii (codes "+821012345678")
unfolding normalize_phone_e164 strip ascii
normalize_phone_e164-IsKoreanNumber_example =
    normalize_phone_e164-IsKoreanNumber ascii (codes "010-1234-5678") (codes "+821012345678") refl

normalize_phone_e164_idem_example :
    normalize_phone_e164 ascii (codes "+821012345678") ≡ ok (codes "+821012345678")
unfolding normalize_phone_e164 strip ascii
normalize_phone_e164_idem_example =
    normalize_phone_e164_idem ascii (codes "010-1234-5678") (codes "+821012345678") refl

domestic_eq_international_example :
    (normalize_phone_e164 ascii (codes "01012345678") ≡ ok (codes "+821012345678"))
    × (normalize_phone_e164 ascii (codes "821012345678") ≡ ok (codes "+821012345678"))
    × (normalize_phone_e164 ascii (codes "+821012345678") ≡ ok (codes "+821012345678"))
unfolding ascii
domestic_eq_international_example =
    domestic_eq_international ascii (codes "1012345678") (ground arith) (omega arith)

trunk_zero_kept_example :
    (normalize_phone_e164 ascii (codes "+8201012345678") ≡ ok (codes "+8201012345678"))
    × (normalize_phone_e164 ascii (codes "01012345678") ≡ ok (codes "+821012345678"))
    × (codes "+8201012345678" ≢ codes "+821012345678")
unfolding ascii
trunk_zero_kept_example = trunk_zero_kept ascii (codes "1012345678") (ground arith) (omega arith)

outbox_key_injective_example : let t : ℕ = 1 in let r : ℕ = 7 in (t ≡ t) × (r ≡ r)
outbox_key_injective_example = outbox_key_injective 1 7 1 7 refl

create_event_again_example :
    (create_procurement_result_event orm ascii 1 3 7 1 (codes "rice") (codes "10") none session).0
    ≡ err pending_rollback
unfolding get_shop_name ◌>>=◌
create_event_again_example =
    create_event_again orm ascii 1 3 7 1 (codes "rice") (codes "10") none session refl refl
      (ground (arith, text_eq_refl (outbox_key 1 7)))

expand-Expands_example :
    let (r, s) = expand_procurement_result_event orm ascii event session in
    Expands orm ascii event session r s
expand-Expands_example = expand-Expands orm ascii event session

create_sms_fallback-Falls_example :
    let (r, s) = create_sms_fallback_for_delivery orm ascii 1 1 (codes "failed") session in
    Falls orm ascii 1 1 session r s
create_sms_fallback-Falls_example = create_sms_fallback-Falls orm ascii 1 1 (codes "failed") session
