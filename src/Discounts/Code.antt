-- ===== src/Discounts/Code.antt =====
-- `DiscountsService.promotionCode`: the code of a promotion, from the requested one or the name.
use mathlib.Core.List.{reverse}
use technova_pos_api.Discounts.State.{Rule}
use technova_pos_api.Prelude.Text.{trim, to_upper, text_eq, is_digit, is_upper, Text}
use technova_pos_api.Prelude.{
  if◌then◌else◌, [], ◌++◌, ◌∷◌, List, some, none, Option, ◌||◌, ◌&&◌, not, false, true, Bool, ℕ,
  take, any, ◌==◌,
}

-- `/[A-Z0-9]/`
unfoldable pub is_code_char : ℕ → Bool
is_code_char c = is_upper c || is_digit c

abbrev pub dash : ℕ
dash = b'-'

-- `.replace(/[^A-Z0-9]+/g, '-')`; `in_gap` says that the run of other characters has begun.
unfoldable pub squash : Bool → Text → Text
squash in_gap [] = []
squash in_gap (c ∷ s) =
    let kept = squash false s in
    let skipped = squash true s in
    if is_code_char c then c ∷ kept else if in_gap then skipped else dash ∷ skipped

unfoldable pub drop_dash : Text → Text
drop_dash [] = []
drop_dash (c ∷ s) = if c == dash then s else c ∷ s

-- `.replace(/^-|-$/g, '')`
unfoldable pub strip_dashes : Text → Text
strip_dashes s = reverse (drop_dash (reverse (drop_dash s)))

abbrev pub or_promo : Text → Text
or_promo [] = b'P' ∷ b'R' ∷ b'O' ∷ b'M' ∷ b'O' ∷ []
or_promo (c ∷ s) = c ∷ s

-- `requested || name`
abbrev pub requested_or : Text → Option Text → Text
requested_or name none = name
requested_or name (some []) = name
requested_or name (some (c ∷ s)) = c ∷ s

unfoldable pub base_code : Text → Option Text → Text
base_code name requested =
    or_promo (take 32 (strip_dashes (squash false (to_upper (trim (requested_or name requested))))))

abbrev pub has_code : Text → Option Text → Bool
has_code code none = false
has_code code (some c) = text_eq c code

abbrev pub is_excluded : Option ℕ → ℕ → Bool
is_excluded none id = false
is_excluded (some x) id = x == id

-- `discountRule.findFirst`, and the unique index on the organization and the code.
abbrev pub is_taken : ℕ → Option ℕ → Text → List Rule → Bool
is_taken org exclude code =
    any (λ (r : Rule).
      r.organization == org && has_code code r.code && not (is_excluded exclude r.id))

-- `random` stands for `randomUUID().slice(0, 6)`, six hexadecimal digits.
unfoldable pub promotion_code : Text → ℕ → Option ℕ → List Rule → Text → Option Text → Text
promotion_code random org exclude rules name requested =
    let base = base_code name requested in
    if is_taken org exclude base rules then take 25 base ++ dash ∷ to_upper random else base
