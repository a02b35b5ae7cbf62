-- ===== src/Notifications/Outbox.antt =====
-- `NotificationsService.processPending`, the worker's pass over the outbox
-- (src/modules/notifications/notifications.service.ts).
use technova_pos_api.Prelude.Text.{Text}
use technova_pos_api.Notifications.State.{State, OutboxStatus, Message, Channel}
use technova_pos_api.Prelude.{
  if◌then◌else◌, [], ◌++◌, ◌∷◌, List, some, none, Option, ◌&&◌, false, true, Bool, min, ◌^◌, ◌*◌,
  ◌+◌, ℕ, take, update_many, filter, any, length, ◌==◌, leb, ltb,
}

-- What `deliver` comes to: the id that the provider gives the message, or the message of the error
-- that it throws.
pub data Delivery : Type 0 where
  delivered : Option Text → Delivery
  refused : Text → Delivery

abbrev pub is_delivered_by_worker : Channel → Bool
is_delivered_by_worker Channel.email = true
is_delivered_by_worker Channel.whatsapp = true
is_delivered_by_worker Channel.in_app = false
is_delivered_by_worker Channel.webhook = false

-- `status: { in: [PENDING, FAILED] }`
abbrev pub is_open : OutboxStatus → Bool
is_open OutboxStatus.pending = true
is_open OutboxStatus.processing = false
is_open OutboxStatus.sent = false
is_open OutboxStatus.failed = true
is_open OutboxStatus.dead_letter = false

abbrev pub is_due : ℕ → Message → Bool
is_due now m =
    is_delivered_by_worker m.channel
    && is_open m.status
    && leb m.next_attempt_at now
    && ltb m.attempt_count 5

-- The rows that `updateMany` claims.
abbrev pub is_claimable : ℕ → Message → Bool
is_claimable id m = m.id == id && is_open m.status

abbrev pub claim : ℕ → List Message → List Message
claim id =
    update_many (is_claimable id) (λ (m : Message). record m { status = OutboxStatus.processing })

abbrev pub has_id : ℕ → Message → Bool
has_id id m = m.id == id

abbrev pub mark_sent : ℕ → Message → Message
mark_sent now m = record m {
  status = OutboxStatus.sent;
  sent_at = some now;
  attempt_count = m.attempt_count + 1;
  last_error = none;
}

-- `attempts` is one more than the count of the row as it was read.
abbrev pub status_after : ℕ → OutboxStatus
status_after attempts = if leb 5 attempts then OutboxStatus.dead_letter else OutboxStatus.failed

abbrev pub retry_at : ℕ → ℕ → ℕ
retry_at now attempts = now + min 60 (2 ^ attempts) * 60000

abbrev pub mark_failed : ℕ → ℕ → Text → Message → Message
mark_failed now attempts error m = record m {
  status = status_after attempts;
  attempt_count = m.attempt_count + 1;
  last_error = some error;
  next_attempt_at = retry_at now attempts;
}

-- The transaction after a delivery, or in the handler of an exception.
unfoldable pub settle : ℕ → Message → Delivery → State → State
settle now row (delivered provider) st = record {
  outbox = update_many (has_id row.id) (mark_sent now) st.outbox;
  attempts =
      record {
        message = row.id;
        successful = true;
        provider_message = provider;
        error_message = none;
      }
      ∷ st.attempts;
}
settle now row (refused error) st = record {
  outbox = update_many (has_id row.id) (mark_failed now (row.attempt_count + 1) error) st.outbox;
  attempts =
      record {
        message = row.id;
        successful = false;
        provider_message = none;
        error_message = some error;
      }
      ∷ st.attempts;
}

-- One turn of the loop: the row is claimed and delivered, or another worker was faster.
unfoldable pub process_row : (Message → Delivery) → ℕ → Message → State → State
process_row deliver now row st =
    if any (is_claimable row.id) st.outbox
    then settle now row (deliver row) (record st { outbox = claim row.id st.outbox })
    else st

unfoldable pub process_rows : (Message → Delivery) → ℕ → List Message → State → State
process_rows deliver now [] st = st
process_rows deliver now (row ∷ rows) st =
    process_rows deliver now rows (process_row deliver now row st)

-- The rows that the query finds.
abbrev pub due_rows : ℕ → ℕ → State → List Message
due_rows now limit st = take limit (filter (is_due now) st.outbox)

-- With the number of rows that were `processed`.
unfoldable pub process_pending : (Message → Delivery) → ℕ → ℕ → State → ℕ × State
process_pending deliver now limit st =
    let rows = due_rows now limit st in (length rows, process_rows deliver now rows st)

-- A message is put into the outbox, with the defaults of the table.
unfoldable pub enqueue : ℕ → ℕ → Option ℕ → Channel → Text → Option Text → Text → State → State
enqueue now id event channel recipient subject body st = record st {
  outbox =
      st.outbox
      ++ record {
        id = id;
        domain_event = event;
        channel = channel;
        recipient = recipient;
        subject = subject;
        body = body;
        status = OutboxStatus.pending;
        attempt_count = 0;
        next_attempt_at = now;
        sent_at = none;
        last_error = none;
      }
        ∷ [];
}
