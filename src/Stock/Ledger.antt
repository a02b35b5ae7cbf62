-- ===== src/Stock/Ledger.antt =====
-- The balance of a product at a branch, by the stock levels and by the movement log, and the
-- statements on both.
use technova_pos_api.Prelude.{
  ℕ, ◌+◌, ◌≤◌, ◌<◌, ◌≡◌, inl, inr, Bool, true, false, ◌&&◌, none, some, List, [], ◌∷◌, ◌==◌,
  if◌then◌else◌, Option-cases, arith,
}
use technova_pos_api.Stock.{
  take_stock, StockLevel, StockMovement, MovementType, Stock, level_at, put_level, take_level,
}

-- `quantityOnHand` of a product at a branch; no row is 0.
abbrev pub on_hand : ℕ → ℕ → List StockLevel → ℕ
on_hand b p [] = 0
on_hand b p (l ∷ ls) = if level_at b p l then l.on_hand else on_hand b p ls

abbrev pub is_incoming : MovementType → Bool
is_incoming MovementType.purchase_receipt = true
is_incoming MovementType.return_in = true
is_incoming MovementType.adjustment_in = true
is_incoming MovementType.transfer_in = true
is_incoming _ = false

abbrev pub moved_at : ℕ → ℕ → StockMovement → Bool
moved_at b p m = m.branch == b && m.product == p

-- What came in, and what went out, by the log.
abbrev pub incoming : ℕ → ℕ → List StockMovement → ℕ
incoming b p [] = 0
incoming b p (m ∷ ms) =
    (if moved_at b p m && is_incoming m.kind then m.quantity else 0) + incoming b p ms

abbrev pub outgoing : ℕ → ℕ → List StockMovement → ℕ
outgoing b p [] = 0
outgoing b p (m ∷ ms) =
    (if moved_at b p m then (if is_incoming m.kind then 0 else m.quantity) else 0) + outgoing b p ms

-- The log and the quantities agree, from the quantities that were there before the log began.
abbrev pub Reconciles : (ℕ → ℕ → ℕ) → Stock → Type 0
Reconciles opening st =
    (b p : ℕ)
    → on_hand b p st.levels + outgoing b p st.movements ≡ opening b p + incoming b p st.movements

abbrev pub same : ℕ → ℕ → ℕ → ℕ → Bool
same b p b' p' = b == b' && p == p'

pub on_hand-put_level :
    (b p q b' p' : ℕ) (ls : List StockLevel)
    → on_hand b' p' (put_level b p q ls)
      ≡ (if same b p b' p' then on_hand b' p' ls + q else on_hand b' p' ls)
unfolding put_level
on_hand-put_level b p q b' p' [] = ground arith
on_hand-put_level b p q b' p' (l ∷ ls) = ground (arith, on_hand-put_level b p q b' p' ls)

-- A guarded decrement that changed a row: the quantity was there, and it alone is gone.
pub on_hand-take_level :
    (b p q b' p' : ℕ) (ls : List StockLevel) {ls' : List StockLevel}
    → take_level b p q ls ≡ some ls'
    → (q ≤ on_hand b p ls)
      × (on_hand b' p' ls' + (if same b p b' p' then q else 0) ≡ on_hand b' p' ls)
unfolding take_level
on_hand-take_level b p q b' p' [] e = cc
on_hand-take_level b p q b' p' (l ∷ ls) e = elim (Option-cases (take_level b p q ls)) [
  | inl refused ↦ ground arith
  | inr (rest, taken) ↦ ground (arith, on_hand-take_level b p q b' p' ls taken)
]

-- A refused decrement: the quantity was not there, and a positive one cannot be taken.
pub take_level-refused :
    (b p q : ℕ) (ls : List StockLevel) → take_level b p q ls ≡ none → 0 < q → on_hand b p ls < q
unfolding take_level
take_level-refused b p q [] e h = h
take_level-refused b p q (l ∷ ls) e h = elim (Option-cases (take_level b p q ls)) [
  | inl refused ↦ ground (arith, take_level-refused b p q ls refused h)
  | inr (rest, taken) ↦ ground arith
]

-- The quantities changed by just what the new movements say.
abbrev pub Keeps : Stock → Stock → Type 0
Keeps st st' =
    (b p : ℕ)
    → on_hand b p st'.levels + outgoing b p st'.movements + incoming b p st.movements
      ≡ on_hand b p st.levels + outgoing b p st.movements + incoming b p st'.movements

pub Keeps-trans : (s t u : Stock) → Keeps s t → Keeps t u → Keeps s u
Keeps-trans s t u h k b p = omega (arith, h b p, k b p)

pub Reconciles-Keeps :
    (opening : ℕ → ℕ → ℕ) (s t : Stock) → Keeps s t → Reconciles opening s → Reconciles opening t
Reconciles-Keeps opening s t k h b p = omega (arith, k b p, h b p)

-- A guarded decrement of the tables changes the quantities alone.
pub take_stock-some :
    (b p q : ℕ) (st : Stock) {st' : Stock}
    → take_stock b p q st ≡ some st'
    → (levels : List StockLevel) × (take_level b p q st.levels ≡ some levels)
      × (st' ≡ record st { levels = levels })
take_stock-some b p q st {st'} e = elim (Option-cases (take_level b p q st.levels)) [
  | inl refused ↦ ground arith
  | inr (levels, taken) ↦ (levels, taken, ground arith)
]
