-- ===== src/Notifications/Workers.antt =====
-- Several workers over one outbox, whose statements interleave in any order (`processPending` runs
-- on a timer, and by a request).
use mathlib.Core.Path.{subst}
use technova_pos_api.Prelude.Text.{Text}
use technova_pos_api.Notifications.State.{State, Message, Channel}
use technova_pos_api.Notifications.Outbox.{
  is_due, mark_failed, refused, mark_sent, due_rows, process_rows, process_row, process_pending,
  delivered, enqueue, claim, is_open, is_claimable, has_id, Delivery, settle,
}
use technova_pos_api.Notifications.Once.{
  successes_of-none, settle-AllLogged, IsLogged, All-changed, claim-AllLogged,
  claimable-undelivered, attempts_of, successes_of, AllLogged,
}
use technova_pos_api.Prelude.{
  suc, zero, take, ◌∙◌, ap, sym, refl, All-append, if◌then◌else◌, [], arith, ◌++◌, ◌∷◌, List,
  Option, true, inr, inl, ◌≡◌, ◌≤◌, ◌+◌, ℕ, All, filter, any, length, Bool-cases, ==_iff, ◌==◌,
}

-- The tables, and the rows that workers have claimed and not yet settled, as they were read.
pub record World : Type 0 where
  pub db : State
  pub flights : List Message

abbrev pub flights_of : ℕ → List Message → ℕ
flights_of id ms = length (filter (has_id id) ms)

abbrev pub IsFree : List Message → Message → Type 0
IsFree flights m = is_open m.status ≡ true → flights_of m.id flights ≡ 0

-- What happens next: a message is put into the outbox, under an id that is neither in the log nor
-- with a worker; a worker claims a row that it has read at any time before; or a delivery comes to
-- an end.
pub data Step (w : World) : World → Type 0 where
  enqueued :
      (now id : ℕ) (event : Option ℕ) (channel : Channel) (recipient : Text) (subject : Option Text)
      (body : Text)
      → attempts_of id w.db.attempts ≡ 0
      → flights_of id w.flights ≡ 0
      → Step w (record w { db = enqueue now id event channel recipient subject body w.db })
  claimed :
      (row : Message)
      → any (is_claimable row.id) w.db.outbox ≡ true
      → Step w (record {
        db = record w.db { outbox = claim row.id w.db.outbox };
        flights = row ∷ w.flights;
      })
  settled :
      (now : ℕ) (d : Delivery) (earlier later : List Message) (row : Message)
      → w.flights ≡ earlier ++ row ∷ later
      → Step w (record { db = settle now row d w.db; flights = earlier ++ later })

pub data Reach (v : World) : World → Type 0 where
  here : Reach v v
  next : {w u : World} → Reach v w → Step w u → Reach v u

-- No message is with two workers, or with one after it was delivered; none that can be claimed is
-- with a worker.
pub record IsGuarded (w : World) : Type 0 where
  pub logged : AllLogged w.db
  pub single : (k : ℕ) → flights_of k w.flights + successes_of k w.db.attempts ≤ 1
  pub free : All (IsFree w.flights) w.db.outbox

flights_of-◌++◌ :
    (k : ℕ) (earlier later : List Message) (row : Message)
    → flights_of k (earlier ++ row ∷ later)
      ≡ flights_of k (earlier ++ later) + (if row.id == k then 1 else 0)
flights_of-◌++◌ k [] later row = ground arith
flights_of-◌++◌ k (m ∷ ms) later row = ground (arith, flights_of-◌++◌ k ms later row)

-- A row that can be claimed is with no worker.
claimable-unclaimed :
    (id : ℕ) (flights : List Message) (ms : List Message)
    → All (IsFree flights) ms
    → any (is_claimable id) ms ≡ true
    → flights_of id flights ≡ 0
claimable-unclaimed id flights [] free h = cc
claimable-unclaimed id flights (m ∷ ms) free h = elim (Bool-cases (is_claimable id m)) [
  | inl claimable ↦
      (let same : m.id ≡ id = (==_iff m.id id).0 (ground (arith, claimable)) in
        subst (λ k. flights_of k flights ≡ 0) same (free.0 (ground (arith, claimable))))
  | inr other ↦ claimable-unclaimed id flights ms free.1 (ground (arith, h, other))
]

claimed-IsGuarded :
    (w : World) (row : Message)
    → any (is_claimable row.id) w.db.outbox ≡ true
    → IsGuarded w
    → IsGuarded (record {
      db = record w.db { outbox = claim row.id w.db.outbox };
      flights = row ∷ w.flights;
    })
claimed-IsGuarded w row h guarded =
    let undelivered = claimable-undelivered row.id w.db.attempts w.db.outbox guarded.logged h in
    let unclaimed = claimable-unclaimed row.id w.flights w.db.outbox guarded.free h in
    record {
      logged = claim-AllLogged row.id w.db.attempts w.db.outbox guarded.logged;
      single = λ k. elim (Bool-cases (row.id == k)) [
        | inl same ↦
            subst (λ j. flights_of j (row ∷ w.flights) + successes_of j w.db.attempts ≤ 1)
              ((==_iff row.id k).0 same) (ground (arith, undelivered, unclaimed))
        | inr other ↦ ground (arith, other, guarded.single k)
      ];
      free =
          All-changed (IsFree w.flights) (IsFree (row ∷ w.flights)) (is_claimable row.id) _
            (λ m met free open_row. cc)
            (λ m unmet free open_row. ground (arith, unmet, open_row, free open_row)) w.db.outbox
            guarded.free;
    }

successes_of-settle :
    (now : ℕ) (row : Message) (d : Delivery) (st : State) (k : ℕ)
    → successes_of k (settle now row d st).attempts
      ≤ successes_of k st.attempts + (if row.id == k then 1 else 0)
unfolding settle
successes_of-settle now row (delivered provider) st k = ground arith
successes_of-settle now row (refused error) st k = ground arith

-- The other workers' rows are not those of the message that is settled.
settle-IsFree :
    (now : ℕ) (row : Message) (d : Delivery) (st : State) (before after : List Message)
    → flights_of row.id after ≡ 0
    → ((k : ℕ) → flights_of k after ≤ flights_of k before)
    → All (IsFree before) st.outbox
    → All (IsFree after) (settle now row d st).outbox
unfolding settle
settle-IsFree now row (delivered provider) st before after gone fewer =
    All-changed (IsFree before) (IsFree after) (has_id row.id) (mark_sent now) (λ m met free h. cc)
      (λ m unmet free h. ground (arith, free h, fewer m.id)) st.outbox
settle-IsFree now row (refused error) st before after gone fewer =
    All-changed (IsFree before) (IsFree after) (has_id row.id)
      (mark_failed now (row.attempt_count + 1) error)
      (λ m met free h. subst (λ k. flights_of k after ≡ 0) (sym ((==_iff m.id row.id).0 met)) gone)
      (λ m unmet free h. ground (arith, free h, fewer m.id)) st.outbox

settled-IsGuarded :
    (w : World) (now : ℕ) (d : Delivery) (earlier later : List Message) (row : Message)
    → w.flights ≡ earlier ++ row ∷ later
    → IsGuarded w
    → IsGuarded (record { db = settle now row d w.db; flights = earlier ++ later })
settled-IsGuarded w now d earlier later row split guarded =
    let taken : (k : ℕ)
        → flights_of k w.flights
          ≡ flights_of k (earlier ++ later) + (if row.id == k then 1 else 0) =
      λ k. ap (flights_of k) split ∙ flights_of-◌++◌ k earlier later row in
    let is_row : (row.id == row.id) ≡ true = (==_iff row.id row.id).1 refl in
    let one : flights_of row.id w.flights ≡ flights_of row.id (earlier ++ later) + 1 =
      ground (arith, taken row.id, is_row) in
    let single = guarded.single row.id in
    record {
      logged = settle-AllLogged now row d w.db (omega (arith, one, single)) guarded.logged;
      single = λ k. omega (arith, taken k, guarded.single k, successes_of-settle now row d w.db k);
      free =
          settle-IsFree now row d w.db w.flights (earlier ++ later) (omega (arith, one, single))
            (λ k. omega (arith, taken k)) guarded.free;
    }

enqueued-IsGuarded :
    (w : World) (now id : ℕ) (event : Option ℕ) (channel : Channel) (recipient : Text)
    (subject : Option Text) (body : Text)
    → attempts_of id w.db.attempts ≡ 0
    → flights_of id w.flights ≡ 0
    → IsGuarded w
    → IsGuarded (record w { db = enqueue now id event channel recipient subject body w.db })
unfolding enqueue
enqueued-IsGuarded w now id event channel recipient subject body fresh unclaimed guarded = record {
  logged =
      All-append (IsLogged w.db.attempts) w.db.outbox _ guarded.logged
        (record { counted = sym fresh; once = successes_of-none id w.db.attempts fresh }, tt);
  single = guarded.single;
  free = All-append (IsFree w.flights) w.db.outbox _ guarded.free (λ h. unclaimed, tt);
}

Step-IsGuarded : (w u : World) → Step w u → IsGuarded w → IsGuarded u
Step-IsGuarded w u (enqueued now id event channel recipient subject body fresh unclaimed) guarded =
    enqueued-IsGuarded w now id event channel recipient subject body fresh unclaimed guarded
Step-IsGuarded w u (claimed row h) guarded = claimed-IsGuarded w row h guarded
Step-IsGuarded w u (settled now d earlier later row split) guarded =
    settled-IsGuarded w now d earlier later row split guarded

-- However many workers pass over the outbox at once, in whatever order their statements come, from
-- whatever old reading of the rows and with whatever outcome of the deliveries: no message is
-- logged as delivered twice, none is with two workers, or with a worker after it was delivered; the
-- attempts of a message are all counted; and a message is marked as sent exactly when the log has
-- its delivery. The transactions do not fail, and a new message has an id that is neither in the
-- log nor with a worker.
pub Reach-IsGuarded : (v w : World) → Reach v w → IsGuarded v → IsGuarded w
Reach-IsGuarded v w here guarded = guarded
Reach-IsGuarded v w (next {w = u} run step) guarded =
    Step-IsGuarded u w step (Reach-IsGuarded v u run guarded)

-- A turn of the loop is a run of such steps, and so is a pass.
process_row-Reach :
    (deliver : Message → Delivery) (now : ℕ) (row : Message) (v w : World)
    → Reach v w
    → Reach v (record w { db = process_row deliver now row w.db })
unfolding process_row
process_row-Reach deliver now row v w run =
    elim (Bool-cases (any (is_claimable row.id) w.db.outbox)) [
      | inl yes_row ↦
          rw yes_row (
            next (next run (claimed row yes_row)) (settled now (deliver row) [] w.flights row refl))
      | inr no_row ↦ rw no_row run
    ]

process_rows-Reach :
    (deliver : Message → Delivery) (now : ℕ) (rows : List Message) (v w : World)
    → Reach v w
    → Reach v (record w { db = process_rows deliver now rows w.db })
unfolding process_rows
process_rows-Reach deliver now [] v w run = run
process_rows-Reach deliver now (row ∷ rows) v w run =
    process_rows-Reach deliver now rows v (record w { db = process_row deliver now row w.db })
      (process_row-Reach deliver now row v w run)

length-take : (n : ℕ) (ms : List Message) → length (take n ms) ≤ n
length-take zero ms = omega arith
length-take (suc n) [] = omega arith
length-take (suc n) (m ∷ ms) = omega (arith, length-take n ms)

pub process_pending-Reach :
    (deliver : Message → Delivery) (now limit : ℕ) (v w : World)
    → Reach v w
    → Reach v (record w { db = (process_pending deliver now limit w.db).1 })
      × ((process_pending deliver now limit w.db).0 ≤ limit)
unfolding process_pending
process_pending-Reach deliver now limit v w run = (
  process_rows-Reach deliver now (due_rows now limit w.db) v w run,
  length-take limit (filter (is_due now) w.db.outbox),
)
