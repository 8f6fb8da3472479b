-- ===== src/Notifications/Recipients.antt =====
-- `NotificationRecipientService` of backend/app/notifications/service.py.
pub mod Unique
pub mod Isolation
use price_checker.Base.{
  ℕ, Bool, true, false, not, ◌&&◌, Option, none, some, ◌∷◌, [], ◌++◌, List, map, Text, text_eq, any,
  filter, update_where, take, drop, ◌==◌, ltb, is_some, if◌then◌else◌, Unicode, sort_by, leb, ◌||◌,
}
use price_checker.Errors.{Error, Result, ok, err, recipient_not_found, recipient_already_exists}
use price_checker.Models.Tenancy.{Shop, User}
use price_checker.Models.Notification.{NotificationRecipient}
use price_checker.Database.{
  Db, Session, Orm, Action, pure, raise, or_raise, query, query_one, one_or_none, lift, ◌>>=◌, ◌>>◌,
  flush, write, roll_back, except_integrity,
}
use price_checker.Notifications.Policy.{normalize_phone_e164}

pub record NotificationRecipientCreate : Type 0 where
  pub phone : Text
  pub display_name : Text
  pub shop_id : Option ℕ
  pub user_id : Option ℕ

-- A field that the request leaves out is `none`; `shop_id` and `user_id` can also be given as
-- null, which `model_fields_set` tells apart: `some none`.
pub record NotificationRecipientUpdate : Type 0 where
  pub phone : Option Text
  pub display_name : Option Text
  pub shop_id : Option (Option ℕ)
  pub user_id : Option (Option ℕ)
  pub is_active : Option Bool

-- The unique constraint on (tenant_id, phone_e164).
abbrev pub same_phone : NotificationRecipient → NotificationRecipient → Bool
same_phone r q = r.tenant_id == q.tenant_id && text_eq r.phone_e164 q.phone_e164

abbrev pub has_id : ℕ → ℕ → NotificationRecipient → Bool
has_id tenant_id recipient_id r = r.id == recipient_id && r.tenant_id == tenant_id

-- Another row than `q` with its phone.
abbrev pub clashes : NotificationRecipient → Db → Bool
clashes q d = any (λ r. not (r.id == q.id) && same_phone r q) d.recipients

abbrev pub add_recipient : NotificationRecipient → Db → Db
add_recipient r d = record d { recipients = d.recipients ++ r ∷ [] }

abbrev pub set_recipient : NotificationRecipient → Db → Db
set_recipient q d = record d {
  recipients = update_where (λ (r : NotificationRecipient). r.id == q.id) (λ r. q) d.recipients;
}

pub get_recipient : ℕ → ℕ → Action (Option NotificationRecipient)
get_recipient tenant_id recipient_id = query_one (λ d. d.recipients) (has_id tenant_id recipient_id)

pub get_recipient_or_404 : ℕ → ℕ → Action NotificationRecipient
unfolding get_recipient
get_recipient_or_404 tenant_id recipient_id = do
  recipient ← get_recipient tenant_id recipient_id
  or_raise recipient recipient_not_found

-- `_ensure_optional_refs_belong_to_tenant`, its half on the shop and its half on the user.
abbrev ensure_shop : ℕ → Option ℕ → Action (Unit {0})
ensure_shop tenant_id none = pure tt
ensure_shop tenant_id (some shop_id) = do
  shop ← query_one (λ d. d.shops) (λ (s : Shop). s.id == shop_id && s.tenant_id == tenant_id)
  if is_some shop then pure tt else raise recipient_not_found

abbrev ensure_user : ℕ → Option ℕ → Action (Unit {0})
ensure_user tenant_id none = pure tt
ensure_user tenant_id (some user_id) = do
  user ← query_one (λ d. d.users) (λ (u : User). u.id == user_id && u.tenant_id == tenant_id)
  if is_some user then pure tt else raise recipient_not_found

pub ensure_optional_refs_belong_to_tenant : ℕ → Option ℕ → Option ℕ → Action (Unit {0})
ensure_optional_refs_belong_to_tenant tenant_id shop_id user_id =
    ensure_shop tenant_id shop_id >> ensure_user tenant_id user_id

-- The entry of the request where it has one, else the column as it is.
abbrev or_keep : {A : Type 0} → Option A → A → A
or_keep none old = old
or_keep (some new) old = new

-- What the request asks the checks to look up: nothing where it leaves the field out.
abbrev asked : Option (Option ℕ) → Option ℕ
asked none = none
asked (some id) = id

abbrev normalize_optional : Unicode → Option Text → Text → Result Text
normalize_optional u none old = ok old
normalize_optional u (some phone) old = normalize_phone_e164 u phone

module _ (orm : Orm) where
  -- The flush of `recipient`, and what is raised when it violates the unique constraint.
  flush_recipient : NotificationRecipient → (Db → Db) → Action NotificationRecipient
  flush_recipient recipient change =
      except_integrity (flush orm (clashes recipient) change >> pure recipient)
        (roll_back orm >> raise recipient_already_exists)

  new_recipient : ℕ → NotificationRecipientCreate → ℕ → Text → Db → NotificationRecipient
  new_recipient tenant_id payload now phone d = record {
    id = orm.next_id (map (λ (r : NotificationRecipient). r.id) d.recipients);
    tenant_id = tenant_id;
    shop_id = payload.shop_id;
    user_id = payload.user_id;
    phone_e164 = phone;
    display_name = payload.display_name;
    is_active = true;
    created_at = now;
  }

module _ (orm : Orm) (u : Unicode) where
  pub create_recipient : ℕ → NotificationRecipientCreate → ℕ → Action NotificationRecipient
  unfolding new_recipient
  create_recipient tenant_id payload now = do
    ensure_optional_refs_belong_to_tenant tenant_id payload.shop_id payload.user_id
    phone ← lift (normalize_phone_e164 u payload.phone)
    recipient ← query (new_recipient orm tenant_id payload now phone)
    flush_recipient orm recipient (add_recipient recipient)

  pub update_recipient : ℕ → ℕ → NotificationRecipientUpdate → Action NotificationRecipient
  unfolding get_recipient_or_404
  update_recipient tenant_id recipient_id payload = do
    recipient ← get_recipient_or_404 tenant_id recipient_id
    ensure_optional_refs_belong_to_tenant tenant_id (asked payload.shop_id) (asked payload.user_id)
    phone ← lift (normalize_optional u payload.phone recipient.phone_e164)
    let updated = record recipient {
      phone_e164 = phone;
      display_name = or_keep payload.display_name recipient.display_name;
      shop_id = or_keep payload.shop_id recipient.shop_id;
      user_id = or_keep payload.user_id recipient.user_id;
      is_active = or_keep payload.is_active recipient.is_active;
    }
    flush_recipient orm updated (set_recipient updated)

pub deactivate_recipient : ℕ → ℕ → Action NotificationRecipient
unfolding get_recipient_or_404
deactivate_recipient tenant_id recipient_id = do
  recipient ← get_recipient_or_404 tenant_id recipient_id
  let updated = record recipient { is_active = false }
  write (set_recipient updated)
  pure updated

-- `ORDER BY created_at DESC, id DESC`
abbrev newest_first : NotificationRecipient → NotificationRecipient → Bool
newest_first r q = ltb q.created_at r.created_at || (r.created_at == q.created_at && leb q.id r.id)

pub list_recipients : ℕ → Bool → ℕ → ℕ → Action (List NotificationRecipient)
list_recipients tenant_id active_only limit offset = query λ d. take limit (
    drop offset (
      sort_by newest_first (
        filter
          (λ (r : NotificationRecipient).
            r.tenant_id == tenant_id && (not active_only || r.is_active))
          d.recipients)))
