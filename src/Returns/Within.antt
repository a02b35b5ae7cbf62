-- ===== src/Returns/Within.antt =====
-- What is returned of each sale line, under `ReturnsService.create`.
use technova_pos_api.Prelude.{ltb_false→le}
use technova_pos_api.Prelude.{ltb_false→le, sym, ap, ◌∙◌, ==_iff}
use technova_pos_api.Stock.{piece}
use mathlib.Core.Path.{sym, ap, subst}
use technova_pos_api.Prelude.{
  ==_iff, not, ltb, false, ℕ, ◌+◌, ◌≤◌, ◌≡◌, refl, sym, ap, ◌∙◌, ==_iff, true, false, ◌&&◌, some,
  List, [], ◌∷◌, ◌==◌, arith, sum_of, if◌then◌else◌, find, filter, contains, inl, inr, Bool-cases,
}
use technova_pos_api.Prelude.Result.{ok, >>=-eq-ok, raise_if-then, or_raise-then, ok-injective}
use technova_pos_api.Returns.State.{State, Sale, SaleItem, ReturnLine}
use technova_pos_api.Returns.Prepare.{
  is_serialized, PreparedReturn, returned_of, prepare_line, prepare_lines, items_of,
}

-- The quantity of a sale line that was sold, and that the prepared rows return.
abbrev pub sold_of : ℕ → List SaleItem → ℕ
sold_of j = sum_of (λ (i : SaleItem). if i.id == j then i.quantity else 0)

abbrev pub row_quantity : ℕ → PreparedReturn → ℕ
row_quantity j r = if r.item.id == j then r.input.quantity else 0

-- No line has more returned than was sold.
abbrev pub IsWithinSold : State → Type 0
IsWithinSold st = (j : ℕ) → returned_of j st.returns st.return_items ≤ sold_of j st.items

sold_of-find :
    (j sale : ℕ) (is : List SaleItem) {i : SaleItem}
    → find (λ (x : SaleItem). x.id == j) (filter (λ (x : SaleItem). x.sale == sale) is) ≡ some i
    → (i.id ≡ j) × (i.quantity ≤ sold_of j is)
sold_of-find j sale [] e = cc
sold_of-find j sale (x ∷ xs) {i} e = elim (Bool-cases (x.sale == sale)) [
  | inl own ↦ elim (Bool-cases (x.id == j)) [
    | inl met ↦ ground arith
    | inr unmet ↦ ground (arith, sold_of-find j sale xs {i = i})
  ]
  | inr other ↦ ground (arith, sold_of-find j sale xs {i = i})
]

-- A prepared row is within what remains of its line, and its line is not one of those before it.
prepare_line-within :
    (st : State) (sale : Sale) (seen : List ℕ) (input : ReturnLine) {row : PreparedReturn}
    → prepare_line st sale seen input ≡ ok row
    → (row.item.id ≡ input.sale_item)
      × (contains input.sale_item seen ≡ false)
      × (row.input ≡ input)
      × (returned_of input.sale_item st.returns st.return_items + input.quantity
          ≤ sold_of input.sale_item st.items)
unfolding prepare_line
prepare_line-within st sale seen input {row} e =
    let (unseen, e1) = raise_if-then (contains input.sale_item seen) _ _ e in
    let (item, found, e2) =
      or_raise-then (find (λ (i : SaleItem). i.id == input.sale_item) (items_of sale.id st)) _ _
        e1 in
    let (enough, e3) =
      raise_if-then
        (ltb item.quantity (returned_of item.id st.returns st.return_items + input.quantity)) _ _
        e2 in
    let (whole, e4) = raise_if-then (is_serialized item && not (input.quantity == piece)) _ _ e3 in
    let (named, sold) = sold_of-find input.sale_item sale.id st.items found in
    let is_row = ok-injective e4 in
    let here : item ≡ row.item = ap (λ (r : PreparedReturn). r.item) is_row in
    (
      sym (ap (λ (i : SaleItem). i.id) here) ∙ named,
      unseen,
      sym (ap (λ (r : PreparedReturn). r.input) is_row),
      subst
          (λ j.
            returned_of j st.returns st.return_items + input.quantity
            ≤ sold_of input.sale_item st.items)
          named (omega (arith, ltb_false→le _ _ enough, sold)),
    )

-- The rows that are prepared after those of the lines `seen`: none of them is of a line seen, and
-- together they are within what remains of each line.
record IsPrepared (st : State) (seen : List ℕ) (rows : List PreparedReturn) : Type 0 where
  unseen : (j : ℕ) → contains j seen ≡ true → sum_of (row_quantity j) rows ≡ 0
  within :
      (j : ℕ)
      → returned_of j st.returns st.return_items ≤ sold_of j st.items
      → returned_of j st.returns st.return_items + sum_of (row_quantity j) rows ≤ sold_of j st.items

IsPrepared-cons :
    (st : State) (seen : List ℕ) (row : PreparedReturn) (rows : List PreparedReturn)
    → contains row.item.id seen ≡ false
    → returned_of row.item.id st.returns st.return_items + row.input.quantity
      ≤ sold_of row.item.id st.items
    → IsPrepared st (row.item.id ∷ seen) rows
    → IsPrepared st seen (row ∷ rows)
IsPrepared-cons st seen row rows fresh enough rest =
    let no_other : sum_of (row_quantity row.item.id) rows ≡ 0 =
      rest.unseen row.item.id (ground arith) in
    let own : returned_of row.item.id st.returns st.return_items
          + sum_of (row_quantity row.item.id) (row ∷ rows)
        ≤ sold_of row.item.id st.items =
      ground (arith, no_other, enough) in
    record {
      unseen = λ j h. elim (Bool-cases (row.item.id == j)) [
        | inl met ↦
            (let is_j : row.item.id ≡ j = (==_iff row.item.id j).0 met in
              let seen_before : contains row.item.id seen ≡ true =
                subst (λ k. contains k seen ≡ true) (sym is_j) h in
              cc)
        | inr unmet ↦ ground (arith, rest.unseen j)
      ];
      within = λ j h. elim (Bool-cases (row.item.id == j)) [
        | inl met ↦
            subst
              (λ k.
                returned_of k st.returns st.return_items + sum_of (row_quantity k) (row ∷ rows)
                ≤ sold_of k st.items)
              ((==_iff row.item.id j).0 met) own
        | inr unmet ↦ ground (arith, rest.within j h)
      ];
    }

prepare_lines-IsPrepared :
    (st : State) (sale : Sale) (seen : List ℕ) (inputs : List ReturnLine)
    {rows : List PreparedReturn}
    → prepare_lines st sale seen inputs ≡ ok rows
    → IsPrepared st seen rows
unfolding prepare_lines
prepare_lines-IsPrepared st sale seen [] e =
    subst (IsPrepared st seen) (ok-injective e)
      (record { unseen = λ j h. refl; within = λ j h. omega (arith, h) })
prepare_lines-IsPrepared st sale seen (input ∷ inputs) e =
    let (row, first, e1) = >>=-eq-ok (prepare_line st sale seen input) _ e in
    let (rows, others, e2) =
      >>=-eq-ok (prepare_lines st sale (input.sale_item ∷ seen) inputs) _ e1 in
    let (named, fresh, given, enough) = prepare_line-within st sale seen input first in
    let rest = prepare_lines-IsPrepared st sale (input.sale_item ∷ seen) inputs others in
    subst (IsPrepared st seen) (ok-injective e2) (
      IsPrepared-cons st seen row rows (subst (λ k. contains k seen ≡ false) (sym named) fresh)
        (subst
          (λ k. returned_of k st.returns st.return_items + row.input.quantity ≤ sold_of k st.items)
          (sym named)
          (subst
            (λ (i : ReturnLine).
              returned_of input.sale_item st.returns st.return_items + i.quantity
              ≤ sold_of input.sale_item st.items)
            (sym given) enough))
        (subst (λ k. IsPrepared st (k ∷ seen) rows) (sym named) rest))

pub prepare_lines-within :
    (st : State) (sale : Sale) (inputs : List ReturnLine) {rows : List PreparedReturn}
    → prepare_lines st sale [] inputs ≡ ok rows
    → (j : ℕ) → returned_of j st.returns st.return_items ≤ sold_of j st.items
    → returned_of j st.returns st.return_items + sum_of (row_quantity j) rows ≤ sold_of j st.items
prepare_lines-within st sale inputs e = (prepare_lines-IsPrepared st sale [] inputs e).within
