-- ===== src/Notifications/Once.antt =====
-- What the log of attempts says of the messages in the outbox.
use mathlib.Core.Path.{subst}
use technova_pos_api.Notifications.State.{State, OutboxStatus, Message, Attempt}
use technova_pos_api.Notifications.Outbox.{
  mark_failed, refused, mark_sent, delivered, is_open, is_claimable, has_id, claim, Delivery,
  status_after, settle,
}
use technova_pos_api.Prelude.{
  if◌then◌else◌, ◌∙◌, sym, ◌+◌, update_many, [], arith, ◌∷◌, List, ◌&&◌, false, true, Bool, inr,
  inl, ap, refl, ◌≡◌, ℕ, All, filter, any, length, Bool-cases, ==_iff, ◌==◌,
}

abbrev pub is_of : ℕ → Attempt → Bool
is_of id a = a.message == id

abbrev pub is_success_of : ℕ → Attempt → Bool
is_success_of id a = a.message == id && a.successful

abbrev pub attempts_of : ℕ → List Attempt → ℕ
attempts_of id log = length (filter (is_of id) log)

abbrev pub successes_of : ℕ → List Attempt → ℕ
successes_of id log = length (filter (is_success_of id) log)

abbrev pub is_sent : OutboxStatus → Bool
is_sent OutboxStatus.pending = false
is_sent OutboxStatus.processing = false
is_sent OutboxStatus.sent = true
is_sent OutboxStatus.failed = false
is_sent OutboxStatus.dead_letter = false

-- The message was delivered once if it is sent, and never if it is not; every attempt is counted.
pub record IsLogged (log : List Attempt) (m : Message) : Type 0 where
  pub counted : m.attempt_count ≡ attempts_of m.id log
  pub once : successes_of m.id log ≡ (if is_sent m.status then 1 else 0)

abbrev pub AllLogged : State → Type 0
AllLogged st = All (IsLogged st.attempts) st.outbox

pub open_unsent : (o : OutboxStatus) → is_open o ≡ true → is_sent o ≡ false
open_unsent OutboxStatus.pending h = refl
open_unsent OutboxStatus.processing h = refl
open_unsent OutboxStatus.sent h = cc
open_unsent OutboxStatus.failed h = refl
open_unsent OutboxStatus.dead_letter h = refl

pub status_after_unsent : (n : ℕ) → is_sent (status_after n) ≡ false
status_after_unsent n = ground arith

pub successes_of-none :
    (id : ℕ) (log : List Attempt) → attempts_of id log ≡ 0 → successes_of id log ≡ 0
successes_of-none id [] h = refl
successes_of-none id (a ∷ log) h = ground (arith, successes_of-none id log)

-- A message that can be claimed was never delivered.
pub claimable-undelivered :
    (id : ℕ) (log : List Attempt) (ms : List Message)
    → All (IsLogged log) ms
    → any (is_claimable id) ms ≡ true
    → successes_of id log ≡ 0
claimable-undelivered id log [] logged h = cc
claimable-undelivered id log (m ∷ ms) logged h = elim (Bool-cases (is_claimable id m)) [
  | inl claimable ↦
      (let same : m.id ≡ id = (==_iff m.id id).0 (ground (arith, claimable)) in
        let unsent : is_sent m.status ≡ false = open_unsent m.status (ground (arith, claimable)) in
        let once : successes_of m.id log ≡ 0 =
          logged.0.once ∙ ap {B = ℕ} (λ b. if b then 1 else 0) unsent in
        subst (λ k. successes_of k log ≡ 0) same once)
  | inr other ↦ claimable-undelivered id log ms logged.1 (ground (arith, h, other))
]

-- A change of the rows that meet a test, and a change of what is said of all rows.
pub All-changed {ℓ κ μ} :
    {A : Type ℓ} (P : A → Type κ) (Q : A → Type μ) (test : A → Bool) (f : A → A)
    → ((x : A) → test x ≡ true → P x → Q (f x))
    → ((x : A) → test x ≡ false → P x → Q x)
    → (xs : List A) → All P xs
    → All Q (update_many test f xs)
All-changed P Q test f there elsewhere [] h = tt
All-changed P Q test f there elsewhere (x ∷ xs) h =
    let rest = All-changed P Q test f there elsewhere xs h.1 in
    elim (Bool-cases (test x)) [
      | inl met ↦ rw met (there x met h.0, rest)
      | inr unmet ↦ rw unmet (elsewhere x unmet h.0, rest)
    ]

pub claim-AllLogged :
    (id : ℕ) (log : List Attempt) (ms : List Message)
    → All (IsLogged log) ms
    → All (IsLogged log) (claim id ms)
claim-AllLogged id log =
    All-changed (IsLogged log) (IsLogged log) (is_claimable id) _
      (λ m met logged. record {
        counted = logged.counted;
        once =
            (let unsent : is_sent m.status ≡ false = open_unsent m.status (ground (arith, met)) in
              logged.once ∙ ap (λ b. if b then 1 else 0) unsent);
      })
      (λ m unmet logged. logged)

-- A change of the message `id` together with one more attempt of it.
update_many-AllLogged :
    (id : ℕ) (f : Message → Message) (a : Attempt) (log : List Attempt) (ms : List Message)
    → a.message ≡ id
    → ((m : Message) → (f m).id ≡ m.id)
    → ((m : Message) → (f m).attempt_count ≡ m.attempt_count + 1)
    → ((m : Message) → is_sent (f m).status ≡ a.successful)
    → successes_of id log ≡ 0
    → All (IsLogged log) ms
    → All (IsLogged (a ∷ log)) (update_many (has_id id) f ms)
update_many-AllLogged id f a log ms about keeps_id counts marks undelivered =
    All-changed (IsLogged log) (IsLogged (a ∷ log)) (has_id id) f
      (λ m met logged.
        let same : m.id ≡ id = (==_iff m.id id).0 met in
        let none_yet : successes_of m.id log ≡ 0 =
          subst (λ k. successes_of k log ≡ 0) (sym same) undelivered in
        record {
          counted = ground (arith, keeps_id m, logged.counted, counts m, about, same);
          once = ground (arith, keeps_id m, none_yet, marks m, about, same);
        })
      (λ m unmet logged. record {
        counted = ground (arith, logged.counted, about, unmet);
        once = ground (arith, logged.once, about, unmet);
      })
      ms

pub settle-AllLogged :
    (now : ℕ) (row : Message) (d : Delivery) (st : State)
    → successes_of row.id st.attempts ≡ 0
    → AllLogged st
    → AllLogged (settle now row d st)
unfolding settle
settle-AllLogged now row (delivered provider) st undelivered logged =
    update_many-AllLogged row.id (mark_sent now) _ st.attempts st.outbox refl (λ m. refl)
      (λ m. refl) (λ m. refl) undelivered logged
settle-AllLogged now row (refused error) st undelivered logged =
    update_many-AllLogged row.id (mark_failed now (row.attempt_count + 1) error) _ st.attempts
      st.outbox refl (λ m. refl) (λ m. refl) (λ m. status_after_unsent (row.attempt_count + 1))
      undelivered logged
