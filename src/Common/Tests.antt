-- ===== src/Common/Tests.antt =====
-- Five rows on pages of two, and a telephone number.
use technova_pos_api.Prelude.Text.{is_space, drop_spaces, trim, Text}
use technova_pos_api.Common.Phone.{
  international, is_separator, normalize_phone-normalize_phone, normalize_phone, IsCompact,
}
use technova_pos_api.Common.Pages.{pages-all, pages, page_count}
use technova_pos_api.Prelude.{[], arith, ◌∷◌, List, refl, ◌≡◌, ℕ}

abbrev five : List ℕ
five = 1 ∷ 2 ∷ 3 ∷ 4 ∷ 5 ∷ []

pages-all_example : pages five 2 (page_count 5 2) ≡ five
pages-all_example = pages-all five 2 (omega arith)

three_pages : page_count 5 2 ≡ 3
unfolding page_count
three_pages = refl

abbrev number : Text
number = b' ' ∷ b'0' ∷ b'0' ∷ b'9' ∷ b'4' ∷ b' ' ∷ b'(' ∷ b'7' ∷ b')' ∷ []

plus_94 : normalize_phone number ≡ b'+' ∷ b'9' ∷ b'4' ∷ b'7' ∷ []
unfolding normalize_phone trim drop_spaces is_space is_separator international
plus_94 = refl

normalize_phone-normalize_phone_example :
    IsCompact (normalize_phone number)
    × (normalize_phone (normalize_phone number) ≡ normalize_phone number)
normalize_phone-normalize_phone_example = normalize_phone-normalize_phone number
