-- ===== src/Common/Pages.antt =====
-- Pages of a list query: src/common/dto/pagination.dto.ts, with the `skip` and `take` of `findMany`.
use technova_pos_api.Prelude.{
  ◌∙◌, sym, refl, [], arith, ◌++◌, ◌∷◌, List, ap, ◌≡◌, ◌≤◌, ◌/◌, ◌*◌, ◌-◌, ◌+◌, suc, zero, ℕ, take,
  length,
}
use native.Mathlib.Nat.{div-add-mod', mod-lt}

-- `PaginationDto`; pages are counted from 1.
pub record Pagination : Type 0 where
  pub page : ℕ
  pub page_size : ℕ

unfoldable pub skip : Pagination → ℕ
skip q = (q.page - 1) * q.page_size

-- `meta`
pub record PageMeta : Type 0 where
  pub page : ℕ
  pub page_size : ℕ
  pub total : ℕ
  pub page_count : ℕ

-- `Math.ceil(total / pageSize)`
unfoldable pub page_count : ℕ → ℕ → ℕ
page_count total size = (total + size - 1) / size

unfoldable pub paginate {ℓ} : {A : Type ℓ} → List A → ℕ → Pagination → List A × PageMeta
paginate rows total q = (
  rows,
  record {
    page = q.page;
    page_size = q.page_size;
    total = total;
    page_count = page_count total q.page_size;
  },
)

module _ {ℓ} {A : Type ℓ} where
  abbrev pub drop : ℕ → List A → List A
  drop zero xs = xs
  drop (suc n) [] = []
  drop (suc n) (x ∷ xs) = drop n xs

  -- A list query on the rows that meet its condition, in their order.
  unfoldable pub list_query : List A → Pagination → List A × PageMeta
  list_query rows q = paginate (take q.page_size (drop (skip q) rows)) (length rows) q

  -- The pages up to the n-th, one after the other.
  abbrev pub pages : List A → ℕ → ℕ → List A
  pages rows size zero = []
  pages rows size (suc n) =
      pages rows size n ++ (list_query rows (record { page = suc n; page_size = size })).0

  take_nil : (n : ℕ) → take {A = A} n [] ≡ []
  take_nil zero = refl
  take_nil (suc n) = refl

  take-drop : (a b : ℕ) (xs : List A) → take a xs ++ take b (drop a xs) ≡ take (a + b) xs
  take-drop zero b xs = ap (λ n. take n xs) (omega arith)
  take-drop (suc a) b [] = take_nil b ∙ sym (take_nil (suc a + b))
  take-drop (suc a) b (x ∷ xs) =
      let one_more : suc (a + b) ≡ suc a + b = omega arith in
      ap (λ ys. x ∷ ys) (take-drop a b xs) ∙ ap (λ n. take n (x ∷ xs)) one_more

  take-all : (n : ℕ) (xs : List A) → length xs ≤ n → take n xs ≡ xs
  take-all n [] h = take_nil n
  take-all zero (x ∷ xs) h = ground (arith, h)
  take-all (suc n) (x ∷ xs) h = ap (λ ys. x ∷ ys) (take-all n xs (omega (arith, h)))

  pages-take : (rows : List A) (size n : ℕ) → pages rows size n ≡ take (n * size) rows
  unfolding list_query paginate skip
  pages-take rows size zero =
      let nothing : 0 ≡ 0 * size = omega arith in ap (λ n. take n rows) nothing
  pages-take rows size (suc n) =
      let more : n * size + size ≡ suc n * size = omega arith in
      let start : (suc n - 1) * size ≡ n * size = ap (λ k. k * size) (omega arith) in
      ap (λ ys. ys ++ take size (drop ((suc n - 1) * size) rows)) (pages-take rows size n)
      ∙ ap (λ k. take (n * size) rows ++ take size (drop k rows)) start
      ∙ take-drop (n * size) size rows
      ∙ ap (λ k. take k rows) more

-- There is room for all rows on the pages that are announced.
page_count-room : (total size : ℕ) → 1 ≤ size → total ≤ page_count total size * size
unfolding page_count
page_count-room total size h =
    omega (arith, h, div-add-mod' (total + size - 1) size, mod-lt (total + size - 1) {m = size} h)

-- The pages that a list announces hold all of its rows: put one after the other, from the first to
-- the last, they are the list, with nothing left out, doubled or out of order. A page has at least
-- one row's room.
pub pages-all :
    {A : Type 0} (rows : List A) (size : ℕ)
    → 1 ≤ size
    → pages rows size (page_count (length rows) size) ≡ rows
pages-all rows size h =
    pages-take rows size (page_count (length rows) size)
    ∙ take-all (page_count (length rows) size * size) rows (page_count-room (length rows) size h)
