-- ===== src/Notifications/State.antt =====
-- The outbox of messages and the log of the attempts to deliver them (prisma/schema.prisma).
use technova_pos_api.Prelude.Text.{Text}
use technova_pos_api.Prelude.{List, Option, Bool, ℕ}

-- `enum NotificationChannel`
pub data Channel : Type 0 where
  email whatsapp in_app webhook : Channel

-- `enum OutboxStatus`
pub data OutboxStatus : Type 0 where
  pending processing sent failed dead_letter : OutboxStatus

-- A message; `domain_event` is the id of the event it tells of, if there is one.
-- Its template and its idempotency key are left out.
pub record Message : Type 0 where
  pub id : ℕ
  pub domain_event : Option ℕ
  pub channel : Channel
  pub recipient : Text
  pub subject : Option Text
  pub body : Text
  pub status : OutboxStatus
  pub attempt_count : ℕ
  pub next_attempt_at : ℕ
  pub sent_at : Option ℕ
  pub last_error : Option Text

pub record Attempt : Type 0 where
  pub message : ℕ
  pub successful : Bool
  pub provider_message : Option Text
  pub error_message : Option Text

-- The messages stand in the order of their creation.
pub record State : Type 0 where
  pub outbox : List Message
  pub attempts : List Attempt
