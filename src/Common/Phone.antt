-- ===== src/Common/Phone.antt =====
-- Phone numbers: src/common/security/phone.ts.
use mathlib.Core.List.{reverse, reverse-reverse}
use technova_pos_api.Prelude.Text.{trim, is_space, drop_spaces, Text}
use technova_pos_api.Prelude.{
  ◌∙◌, All-reverse, if◌then◌else◌, [], arith, ◌∷◌, ◌||◌, ◌&&◌, not, false, Bool, inr, inl, ap, refl,
  ◌≡◌, ℕ, All, filter, Bool-cases, ◌==◌,
}

-- `/[\s()-]/`
unfoldable pub is_separator : ℕ → Bool
is_separator c = is_space c || c == b'(' || c == b')' || c == b'-'

-- `compact.startsWith('00') ? '+' + compact.slice(2) : compact`
unfoldable pub international : Text → Text
international [] = []
international (a ∷ []) = a ∷ []
international (a ∷ b ∷ s) = if a == b'0' && b == b'0' then b'+' ∷ s else a ∷ b ∷ s

unfoldable pub normalize_phone : Text → Text
normalize_phone value = international (filter (λ c. not (is_separator c)) (trim value))

-- Without separators.
abbrev pub IsCompact : Text → Type 0
IsCompact = All (λ c. is_separator c ≡ false)

filter-IsCompact : (s : Text) → IsCompact (filter (λ c. not (is_separator c)) s)
filter-IsCompact [] = tt
filter-IsCompact (c ∷ s) = elim (Bool-cases (is_separator c)) [
  | inl out ↦ rw out (filter-IsCompact s)
  | inr kept ↦ rw kept (kept, filter-IsCompact s)
]

filter-compact : (s : Text) → IsCompact s → filter (λ c. not (is_separator c)) s ≡ s
filter-compact [] h = refl
filter-compact (c ∷ s) h = rw h.0 (ap (λ t. c ∷ t) (filter-compact s h.1))

drop_spaces-compact : (s : Text) → IsCompact s → drop_spaces s ≡ s
unfolding drop_spaces is_separator
drop_spaces-compact [] h = refl
drop_spaces-compact (c ∷ s) h = ground (arith, h.0)

trim-compact : (s : Text) → IsCompact s → trim s ≡ s
unfolding trim
trim-compact s h =
    ap (λ t. reverse (drop_spaces (reverse t))) (drop_spaces-compact s h)
    ∙ ap reverse (drop_spaces-compact (reverse s) (All-reverse (λ c. is_separator c ≡ false) s h))
    ∙ reverse-reverse s

plus_compact : is_separator b'+' ≡ false
unfolding is_separator is_space
plus_compact = refl

plus_first : (s : Text) → international (b'+' ∷ s) ≡ b'+' ∷ s
unfolding international
plus_first [] = refl
plus_first (c ∷ s) = refl

-- A number in the international form stays as it is, and so does one without leading zeros.
international-international :
    (s : Text)
    → IsCompact s
    → IsCompact (international s) × (international (international s) ≡ international s)
unfolding international
international-international [] h = (tt, refl)
international-international (a ∷ []) h = (h, refl)
international-international (a ∷ b ∷ s) h = elim (Bool-cases (a == b'0' && b == b'0')) [
  | inl zeros ↦ rw zeros ((plus_compact, h.1.1), plus_first s)
  | inr plain ↦ rw plain (h, rw plain refl)
]

-- Normalizing a telephone number twice gives what normalizing it once gives: a number that the
-- request's transformation has normalized is found under the same text by the services, which
-- normalize it again. What comes out has no white space, parentheses or hyphens.
pub normalize_phone-normalize_phone :
    (value : Text)
    → IsCompact (normalize_phone value)
      × (normalize_phone (normalize_phone value) ≡ normalize_phone value)
unfolding normalize_phone
normalize_phone-normalize_phone value =
    let compact = filter (λ c. not (is_separator c)) (trim value) in
    let (clean, again) = international-international compact (filter-IsCompact (trim value)) in
    (
      clean,
      ap (λ t. international (filter (λ c. not (is_separator c)) t))
            (trim-compact (international compact) clean)
          ∙ ap international (filter-compact (international compact) clean)
          ∙ again,
    )
