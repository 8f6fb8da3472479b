-- ===== src/Database/State.antt =====
-- The tables, and what the code relies on of the session (SQLAlchemy, not in the repository).
use price_checker.Base.{ℕ, List, Bool, true, false, ◌≡◌, ◌≢◌, All}
use price_checker.Models.Tenancy.{Tenant, Shop, User, RefreshToken}
use price_checker.Models.Procurement.{ProcurementOrder, ProcurementResult}
use price_checker.Models.Collection.{PriceCollectionJob, PriceCollectionAttempt}
use price_checker.Models.Notification.{
  NotificationRecipient, NotificationConsent, NotificationTemplate, NotificationTemplateVersion,
  NotificationOutboxEvent, NotificationDelivery, NotificationDeadLetter,
}

-- A table is the list of its rows, in the order in which the server hands them out to a query
-- that asks for no order.
pub record Db : Type 0 where
  pub tenants : List Tenant
  pub shops : List Shop
  pub users : List User
  pub refresh_tokens : List RefreshToken
  pub orders : List ProcurementOrder
  pub results : List ProcurementResult
  pub jobs : List PriceCollectionJob
  pub attempts : List PriceCollectionAttempt
  pub recipients : List NotificationRecipient
  pub consents : List NotificationConsent
  pub templates : List NotificationTemplate
  pub template_versions : List NotificationTemplateVersion
  pub outbox_events : List NotificationOutboxEvent
  pub deliveries : List NotificationDelivery
  pub dead_letters : List NotificationDeadLetter

-- `db` is what a statement of the session sees; `saved` is what it saw when the transaction
-- began; `active` is false from a failed flush to the next rollback.
pub record Session : Type 0 where
  pub saved : Db
  pub db : Db
  pub active : Bool

-- The documented behaviour that the services rely on. A flush that violates a constraint rolls
-- the transaction back, and the session takes no statement until `rollback` is called. The id of
-- a new row is none of the ids in its table.
pub record Orm : Type 0 where
  pub next_id : List ℕ → ℕ
  pub next_id_fresh : (ids : List ℕ) → All (λ i. i ≢ next_id ids) ids
  pub failed_flush : Session → Session
  pub failed_flush-db : (s : Session) → (failed_flush s).db ≡ s.saved
  pub failed_flush-saved : (s : Session) → (failed_flush s).saved ≡ s.saved
  pub failed_flush-active : (s : Session) → (failed_flush s).active ≡ false
  pub rollback : Session → Session
  pub rollback-db : (s : Session) → (rollback s).db ≡ s.saved
  pub rollback-saved : (s : Session) → (rollback s).saved ≡ s.saved
  pub rollback-active : (s : Session) → (rollback s).active ≡ true
