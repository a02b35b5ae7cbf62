-- ===== src/Notifications/Tests.antt =====
-- The outbox on concrete messages.
use technova_pos_api.Notifications.Workers.{
  process_pending-Reach, Step, Reach-IsGuarded, World, Reach, IsGuarded,
}
use technova_pos_api.Prelude.Text.{Text}
use technova_pos_api.Notifications.State.{OutboxStatus, Channel, State, Message}
use technova_pos_api.Notifications.Outbox.{
  due_rows, delivered, settle, refused, process_row, process_rows, Delivery, process_pending,
  enqueue,
}
use technova_pos_api.Notifications.Once.{attempts_of}
use technova_pos_api.Prelude.{
  arith, some, ℕ, if◌then◌else◌, [], map, ◌∷◌, none, refl, ◌≡◌, ◌+◌, ◌==◌,
}

abbrev letter : Text
letter = b'H' ∷ b'i' ∷ []

-- The provider refuses the message with the id 2, and takes every other one.
abbrev provider : Message → Delivery
provider m = if m.id == 2 then refused letter else delivered none

abbrev empty : State
empty = record { outbox = []; attempts = [] }

abbrev two_messages : State
two_messages =
    enqueue 10 2 none Channel.whatsapp letter none letter
      (enqueue 10 1 none Channel.email letter none letter empty)

abbrev first_pass : State
first_pass = (process_pending provider 10 20 two_messages).1

abbrev second_pass : State
second_pass = (process_pending provider (10 + 120000) 20 first_pass).1

-- Both messages are tried at first, and the one that was refused once more when it is due.
processed_counts :
    ((process_pending provider 10 20 two_messages).0 ≡ 2)
    × ((process_pending provider 20 20 first_pass).0 ≡ 0)
    × ((process_pending provider (10 + 120000) 20 first_pass).0 ≡ 1)
unfolding process_pending process_rows process_row settle enqueue
processed_counts = (refl, refl, refl)

abbrev status_of_message : Message → OutboxStatus × ℕ
status_of_message m = (m.status, m.attempt_count)

statuses :
    map status_of_message second_pass.outbox
    ≡ (OutboxStatus.sent, 1) ∷ (OutboxStatus.failed, 2) ∷ []
unfolding process_pending process_rows process_row settle enqueue
statuses = refl

second_fresh : attempts_of 2 (enqueue 10 1 none Channel.email letter none letter empty).attempts ≡ 0
unfolding enqueue
second_fresh = refl

abbrev idle : State → World
idle st = record { db = st; flights = [] }

two_messages-Reach : Reach (idle empty) (idle two_messages)
two_messages-Reach =
    Reach.next
      (Reach.next Reach.here (Step.enqueued 10 1 none Channel.email letter none letter refl refl))
      (Step.enqueued 10 2 none Channel.whatsapp letter none letter second_fresh refl)

empty-IsGuarded : IsGuarded (idle empty)
empty-IsGuarded = record { logged = tt; single = λ k. omega arith; free = tt }

Reach-IsGuarded_example : IsGuarded (idle second_pass)
Reach-IsGuarded_example =
    Reach-IsGuarded (idle empty) (idle second_pass)
      (process_pending-Reach provider (10 + 120000) 20 (idle empty) (idle first_pass)
        (process_pending-Reach provider 10 20 (idle empty) (idle two_messages)
          two_messages-Reach).0).0
      empty-IsGuarded

-- A message after three attempts that failed.
abbrev tried : Message
tried = record {
  id = 7;
  domain_event = none;
  channel = Channel.email;
  recipient = letter;
  subject = none;
  body = letter;
  status = OutboxStatus.failed;
  attempt_count = 3;
  next_attempt_at = 0;
  sent_at = none;
  last_error = some letter;
}

abbrev one_tried : State
one_tried = record { outbox = tried ∷ []; attempts = [] }

abbrev provider_down : Message → Delivery
provider_down m = refused letter

-- Two workers read the row together, and one claims it after the other has failed.
abbrev tried_twice : State
tried_twice = process_row provider_down 10 tried (process_row provider_down 10 tried one_tried)

-- Both count the fourth attempt, so that the row has five and is not a dead letter.
tried_twice-status : map status_of_message tried_twice.outbox ≡ (OutboxStatus.failed, 5) ∷ []
unfolding process_row settle
tried_twice-status = refl

-- No pass takes it again.
never_due : (now : ℕ) → due_rows now 20 tried_twice ≡ []
unfolding process_row settle
never_due now = ground arith
