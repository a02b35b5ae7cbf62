-- ===== src/Inventory/Order.antt =====
-- The order in which a transfer is dispatched and received.
use technova_pos_api.Prelude.{false, ℕ, ◌≡◌, refl, ap, ◌∙◌, List, true}
use technova_pos_api.Prelude.Result.{ok, err, conflict, lit}
use technova_pos_api.Directory.{Directory, User}
use technova_pos_api.Inventory.State.{
  State, StockTransfer, find_transfer, is_submitted, is_in_transit,
}
use technova_pos_api.Inventory.Dispatch.{DispatchSerials, dispatch}
use technova_pos_api.Inventory.Receive.{receive}
use technova_pos_api.Inventory.Shipping.{dispatched, completed, dispatch-changes, receive-changes}
use technova_pos_api.Inventory.Effects.{find_transfer-update}

module _ (dir : Directory) (now : ℕ) (actor : User) (id : ℕ) (st : State) where
  dispatch-refused :
      (ds : List DispatchSerials) (t : StockTransfer)
      → find_transfer dir actor.id id st.transfers ≡ ok t
      → is_submitted t.status ≡ false
      → dispatch dir now actor id ds st
        ≡ err (conflict (lit "Only submitted transfers can be dispatched."))
  unfolding dispatch
  dispatch-refused ds t found closed = rw (found, closed) refl

  receive-refused :
      (t : StockTransfer)
      → find_transfer dir actor.id id st.transfers ≡ ok t
      → is_in_transit t.status ≡ false
      → receive dir now actor id st
        ≡ err (conflict (lit "Only in-transit transfers can be received."))
  unfolding receive
  receive-refused t found away = rw (found, away) refl

  receive-accepted :
      (t : StockTransfer)
      → find_transfer dir actor.id id st.transfers ≡ ok t
      → is_in_transit t.status ≡ true
      → (st' : State) × (receive dir now actor id st ≡ ok st')
  unfolding receive
  receive-accepted t found on_way = rw (found, on_way) (_, refl)

-- In the state that a dispatch leaves, the same user can receive the transfer at any time, and
-- cannot dispatch it again, with whatever serial numbers.
pub dispatch-then :
    (dir : Directory) (now now' : ℕ) (actor : User) (id : ℕ) (ds ds' : List DispatchSerials)
    (st : State) {st' : State}
    → dispatch dir now actor id ds st ≡ ok st'
    → (dispatch dir now' actor id ds' st'
        ≡ err (conflict (lit "Only submitted transfers can be dispatched.")))
      × (end : State) × (receive dir now' actor id st' ≡ ok end)
dispatch-then dir now now' actor id ds ds' st {st'} e =
    let (t, found, _, _, transfers) = dispatch-changes dir now actor id ds st e in
    let again =
      ap (find_transfer dir actor.id id) transfers
      ∙ find_transfer-update dir actor.id id (dispatched now) st.transfers (λ x. (refl, refl))
          found in
    let (end, received) = receive-accepted dir now' actor id st' (dispatched now t) again refl in
    (dispatch-refused dir now' actor id st' ds' (dispatched now t) again refl, end, received)

-- In the state that a receipt leaves, the same user can neither dispatch nor receive the transfer
-- again.
pub receive-then :
    (dir : Directory) (now now' : ℕ) (actor : User) (id : ℕ) (ds : List DispatchSerials)
    (st : State) {st' : State}
    → receive dir now actor id st ≡ ok st'
    → (dispatch dir now' actor id ds st'
        ≡ err (conflict (lit "Only submitted transfers can be dispatched.")))
      × (receive dir now' actor id st'
          ≡ err (conflict (lit "Only in-transit transfers can be received.")))
receive-then dir now now' actor id ds st {st'} e =
    let (t, found, _, _, transfers) = receive-changes dir now actor id st e in
    let again =
      ap (find_transfer dir actor.id id) transfers
      ∙ find_transfer-update dir actor.id id (completed now) st.transfers (λ x. (refl, refl))
          found in
    (
      dispatch-refused dir now' actor id st' ds (completed now t) again refl,
      receive-refused dir now' actor id st' (completed now t) again refl,
    )
