-- ===== src/Notifications/Templates.antt =====
-- `NotificationTemplateService` of backend/app/notifications/service.py: the catalogue of templates
-- and their numbered versions.
pub mod Versions
use price_checker.Base.{
  ℕ, Bool, true, false, ◌+◌, ◌&&◌, not, Option, none, some, ◌∷◌, [], ◌++◌, List, map, max, Text,
  text_eq, filter, any, ◌==◌, if◌then◌else◌,
}
use price_checker.Errors.{
  Error, Result, ok, err, template_not_found, template_already_exists,
  marketing_alimtalk_not_allowed,
}
use price_checker.Models.Notification.{
  NotificationTemplate, NotificationTemplateVersion, Channel, Purpose, ReviewStatus, RequiredEntry,
  names, is_alimtalk, is_marketing,
}
use price_checker.Database.{
  Db, Session, Orm, Action, pure, raise, or_raise, query, query_one, lift, ◌>>=◌, ◌>>◌, flush,
  write, roll_back, except_integrity,
}

pub record NotificationTemplateCreate : Type 0 where
  pub template_code : Text
  pub name : Text

pub record NotificationTemplateVersionCreate : Type 0 where
  pub channel : Channel
  pub purpose : Purpose
  pub provider_template_key : Option Text
  pub review_status : ReviewStatus
  pub locale : Text
  pub title : Option Text
  pub body : Text
  pub fallback_body : Option Text
  pub variables : List Text

-- `tuple(dict.fromkeys(variables))`: each name once, where it stands first.
pub distinct_names : List Text → List Text
distinct_names [] = []
distinct_names (x ∷ xs) = x ∷ filter (λ y. not (text_eq x y)) (distinct_names xs)

-- The unique constraint on (tenant_id, template_code).
abbrev pub same_code : NotificationTemplate → NotificationTemplate → Bool
same_code t q = t.tenant_id == q.tenant_id && text_eq t.template_code q.template_code

-- The unique constraint on (template_id, version).
abbrev pub same_version : NotificationTemplateVersion → NotificationTemplateVersion → Bool
same_version v w = v.template_id == w.template_id && v.version == w.version

abbrev pub add_template : NotificationTemplate → Db → Db
add_template t d = record d { templates = d.templates ++ t ∷ [] }

abbrev pub add_version : NotificationTemplateVersion → Db → Db
add_version v d = record d { template_versions = d.template_versions ++ v ∷ [] }

pub get_template_or_404 : ℕ → ℕ → Action NotificationTemplate
get_template_or_404 tenant_id template_id = do
  template ←
      query_one (λ d. d.templates)
        (λ (t : NotificationTemplate). t.id == template_id && t.tenant_id == tenant_id)
  or_raise template template_not_found

-- `SELECT max(version)` of a template's versions, where no row counts as 0.
pub max_version : ℕ → List NotificationTemplateVersion → ℕ
max_version template_id [] = 0
max_version template_id (v ∷ vs) =
    let rest = max_version template_id vs in
    if v.template_id == template_id then max v.version rest else rest

pub next_version : ℕ → Action ℕ
unfolding max_version
next_version template_id = query (λ d. max_version template_id d.template_versions + 1)

pub validate_channel_purpose : Channel → Purpose → Result (Unit {0})
validate_channel_purpose channel purpose =
    if is_alimtalk channel && is_marketing purpose
    then err marketing_alimtalk_not_allowed
    else ok tt

module _ (orm : Orm) where
  new_template : ℕ → NotificationTemplateCreate → Db → NotificationTemplate
  new_template tenant_id payload d = record {
    id = orm.next_id (map (λ (t : NotificationTemplate). t.id) d.templates);
    tenant_id = tenant_id;
    template_code = payload.template_code;
    name = payload.name;
    is_active = true;
  }

  pub create_template : ℕ → NotificationTemplateCreate → Action NotificationTemplate
  create_template tenant_id payload = do
    template ← query (new_template tenant_id payload)
    except_integrity
        (flush orm (λ d. any (λ t. same_code t template) d.templates) (add_template template)
          >> pure template)
        (roll_back orm >> raise template_already_exists)

  new_version : ℕ → ℕ → ℕ → NotificationTemplateVersionCreate → Db → NotificationTemplateVersion
  new_version tenant_id template_id number payload d = record {
    id = orm.next_id (map (λ (v : NotificationTemplateVersion). v.id) d.template_versions);
    template_id = template_id;
    tenant_id = tenant_id;
    version = number;
    channel = payload.channel;
    purpose = payload.purpose;
    provider_template_key = payload.provider_template_key;
    review_status = payload.review_status;
    locale = payload.locale;
    title = payload.title;
    body = payload.body;
    fallback_body = payload.fallback_body;
    variables = names (distinct_names payload.variables);
  }

  pub create_version :
      ℕ → ℕ → NotificationTemplateVersionCreate → Action NotificationTemplateVersion
  create_version tenant_id template_id payload = do
    template ← get_template_or_404 tenant_id template_id
    lift (validate_channel_purpose payload.channel payload.purpose)
    number ← next_version template.id
    version ← query (new_version tenant_id template.id number payload)
    flush orm (λ d. any (λ v. same_version v version) d.template_versions) (add_version version)
    pure version
