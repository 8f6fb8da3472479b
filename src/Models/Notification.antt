-- ===== src/Models/Notification.antt =====
-- backend/app/notifications/models.py. A JSON dictionary is an association list; its values are
-- the ones that the services store: null, booleans, numbers and texts.
use price_checker.Base.{ℕ, Bool, true, false, Option, List, Text}

pub data Channel : Type 0 where
  kakao_alimtalk kakao_brand_message sms lms : Channel

pub data Purpose : Type 0 where
  transactional marketing fallback : Purpose

pub data ConsentType : Type 0 where
  kakao_transactional kakao_marketing sms_marketing nighttime_ads : ConsentType

pub data ReviewStatus : Type 0 where
  draft pending approved rejected archived : ReviewStatus

pub data OutboxStatus : Type 0 where
  pending processing published retry_scheduled dead_lettered : OutboxStatus

pub data DeliveryStatus : Type 0 where
  queued rendering ready sending sent delivered failed blocked retry_scheduled dead_lettered :
      DeliveryStatus

abbrev pub consent_type_code : ConsentType → ℕ
consent_type_code ConsentType.kakao_transactional = 0
consent_type_code ConsentType.kakao_marketing = 1
consent_type_code ConsentType.sms_marketing = 2
consent_type_code ConsentType.nighttime_ads = 3

abbrev pub is_alimtalk : Channel → Bool
is_alimtalk Channel.kakao_alimtalk = true
is_alimtalk _ = false

abbrev pub is_marketing : Purpose → Bool
is_marketing Purpose.marketing = true
is_marketing _ = false

abbrev pub is_transactional : Purpose → Bool
is_transactional Purpose.transactional = true
is_transactional _ = false

abbrev pub is_approved : ReviewStatus → Bool
is_approved ReviewStatus.approved = true
is_approved _ = false

pub data Json : Type 0 where
  null : Json
  boolean : Bool → Json
  int : ℕ → Json
  str : Text → Json

abbrev pub Payload : Type 0
Payload = List (Text × Json)

-- The column `variables` of a template version: its entry `required`, which is absent, a list of
-- names, or something else.
pub data RequiredEntry : Type 0 where
  absent : RequiredEntry
  names : List Text → RequiredEntry
  not_a_list : RequiredEntry

pub record NotificationRecipient : Type 0 where
  pub id : ℕ
  pub tenant_id : ℕ
  pub shop_id : Option ℕ
  pub user_id : Option ℕ
  pub phone_e164 : Text
  pub display_name : Text
  pub is_active : Bool
  pub created_at : ℕ

pub record NotificationConsent : Type 0 where
  pub id : ℕ
  pub tenant_id : ℕ
  pub recipient_id : ℕ
  pub consent_type : ConsentType
  pub consent_source : Text
  pub evidence : Payload
  pub granted_at : ℕ
  pub revoked_at : Option ℕ

pub record NotificationTemplate : Type 0 where
  pub id : ℕ
  pub tenant_id : ℕ
  pub template_code : Text
  pub name : Text
  pub is_active : Bool

-- `rejection_reason`, `effective_from` and `effective_to`, which no code reads or writes, are
-- left out.
pub record NotificationTemplateVersion : Type 0 where
  pub id : ℕ
  pub template_id : ℕ
  pub tenant_id : ℕ
  pub version : ℕ
  pub channel : Channel
  pub purpose : Purpose
  pub provider_template_key : Option Text
  pub review_status : ReviewStatus
  pub locale : Text
  pub title : Option Text
  pub body : Text
  pub fallback_body : Option Text
  pub variables : RequiredEntry

-- `attempts`, `next_retry_at` and `last_error` keep their defaults everywhere and are left out.
pub record NotificationOutboxEvent : Type 0 where
  pub id : ℕ
  pub tenant_id : ℕ
  pub event_type : Text
  pub aggregate_type : Text
  pub aggregate_id : ℕ
  pub payload : Payload
  pub idempotency_key : Text
  pub status : OutboxStatus

-- The columns that a provider's answer would fill are written by no code and left out.
pub record NotificationDelivery : Type 0 where
  pub id : ℕ
  pub tenant_id : ℕ
  pub outbox_event_id : Option ℕ
  pub procurement_order_id : Option ℕ
  pub recipient_id : ℕ
  pub template_version_id : ℕ
  pub channel : Channel
  pub purpose : Purpose
  pub status : DeliveryStatus
  pub idempotency_key : Text
  pub rendered_title : Option Text
  pub rendered_body : Text
  pub rendered_fallback_body : Option Text
  pub variable_payload : Payload

-- `delivery_id` and `last_error`, which no code writes, are left out.
pub record NotificationDeadLetter : Type 0 where
  pub id : ℕ
  pub tenant_id : ℕ
  pub outbox_event_id : Option ℕ
  pub reason : Text
  pub envelope : Payload
  pub recoverable : Bool
