-- ===== src/Notifications/Deliveries/Sendable.antt =====
-- Which template version an event of backend/app/notifications/service.py is sent by.
use price_checker.Base.{
  ◌==◌, ◌&&◌, true, ◌≡◌, subst, arith, List, [], ◌∷◌, any, filter, filter-All, sort_by, sort_by-All,
  leb, text_eq, codes, some, All,
}
use price_checker.Errors.{ok}
use price_checker.Models.Notification.{
  NotificationOutboxEvent, NotificationTemplateVersion, NotificationTemplate, Channel, Purpose,
  ReviewStatus,
}
use price_checker.Database.{Db, Session}
use price_checker.Notifications.Deliveries.{
  procurement_result, is_candidate, head?, approved_template_version,
}

-- A version that may be sent: the tenant's own, approved, for transactional messages by
-- Alimtalk, of an active template of the tenant for results.
abbrev pub IsSendable :
    NotificationOutboxEvent → List NotificationTemplate → NotificationTemplateVersion → Type 0
IsSendable event templates v =
    (v.tenant_id ≡ event.tenant_id)
    × (v.channel ≡ Channel.kakao_alimtalk)
    × (v.purpose ≡ Purpose.transactional)
    × (v.review_status ≡ ReviewStatus.approved)
    × (any
          (λ (t : NotificationTemplate).
            t.id == v.template_id
            && t.tenant_id == event.tenant_id
            && text_eq t.template_code (codes "procurement_result")
            && t.is_active)
          templates
        ≡ true)

candidate-IsSendable :
    (event : NotificationOutboxEvent) (d : Db) (v : NotificationTemplateVersion)
    → is_candidate event.tenant_id procurement_result d v ≡ true
    → IsSendable event d.templates v
candidate-IsSendable event d v h = ground arith

head-All : {A : Type 0} (P : A → Type 0) (xs : List A) (x : A) → All P xs → head? xs ≡ some x → P x
head-All P [] x h e = absurd (cc e)
head-All P (y ∷ xs) x h e = subst P (cc e) h.0

pub approved-IsSendable :
    (event : NotificationOutboxEvent) (s : Session) (v : NotificationTemplateVersion)
    → (approved_template_version event.tenant_id procurement_result s).0 ≡ ok (some v)
    → IsSendable event s.db.templates v
unfolding approved_template_version
approved-IsSendable event s v e =
    let candidate = is_candidate event.tenant_id procurement_result s.db in
    let mine = filter candidate s.db.template_versions in
    let latest = λ (v w : NotificationTemplateVersion). leb w.version v.version in
    candidate-IsSendable event s.db v (
      head-All (λ w. candidate w ≡ true) (sort_by latest mine) v
        (sort_by-All latest _ mine (filter-All candidate s.db.template_versions)) (ground arith))
