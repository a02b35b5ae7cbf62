-- ===== src/Discounts/Codes.antt =====
-- The form of a promotion code.
use mathlib.Core.List.{reverse}
use technova_pos_api.Discounts.State.{Rule}
use technova_pos_api.Prelude.Text.{trim, is_digit, to_upper, is_upper, Text}
use technova_pos_api.Discounts.Code.{
  requested_or, or_promo, is_taken, strip_dashes, promotion_code, drop_dash, base_code, dash,
  squash, is_code_char,
}
use technova_pos_api.Prelude.{
  All-reverse, All-take, All-append, if◌then◌else◌, Option, false, inr, inl, refl, length-append,
  Bool-cases, [], arith, ◌++◌, ◌∷◌, List, ◌||◌, true, Bool, ◌≡◌, ◌≤◌, suc, zero, ℕ, All, take,
  length, ◌==◌,
}

-- A character that a code may have.
abbrev pub in_code : ℕ → Bool
in_code c = is_code_char c || c == dash

abbrev pub IsCode : Text → Type 0
IsCode = All (λ c. in_code c ≡ true)

length-take : {A : Type 0} (n : ℕ) (xs : List A) → length (take n xs) ≤ n
length-take zero xs = omega arith
length-take (suc n) [] = omega arith
length-take (suc n) (x ∷ xs) = omega (arith, length-take n xs)

dash-in_code : in_code dash ≡ true
unfolding is_code_char is_upper is_digit
dash-in_code = refl

length-to_upper : (s : Text) → length (to_upper s) ≡ length s
unfolding to_upper
length-to_upper [] = refl
length-to_upper (c ∷ s) = omega (arith, length-to_upper s)

gap-IsCode : (in_gap : Bool) (s : Text) → IsCode s → IsCode (if in_gap then s else dash ∷ s)
gap-IsCode true s h = h
gap-IsCode false s h = (dash-in_code, h)

squash-IsCode : (in_gap : Bool) (s : Text) → IsCode (squash in_gap s)
unfolding squash
squash-IsCode in_gap [] = tt
squash-IsCode in_gap (c ∷ s) = elim (Bool-cases (is_code_char c)) [
  | inl kept ↦ rw kept (rw kept refl, squash-IsCode false s)
  | inr other ↦ rw other (gap-IsCode in_gap (squash true s) (squash-IsCode true s))
]

drop_dash-IsCode : (s : Text) → IsCode s → IsCode (drop_dash s)
unfolding drop_dash
drop_dash-IsCode [] h = tt
drop_dash-IsCode (c ∷ s) h = elim (Bool-cases (c == dash)) [
  | inl dashed ↦ rw dashed h.1
  | inr other ↦ rw other h
]

strip_dashes-IsCode : (s : Text) → IsCode s → IsCode (strip_dashes s)
unfolding strip_dashes
strip_dashes-IsCode s h =
    let P = λ (c : ℕ). in_code c ≡ true in
    All-reverse P (drop_dash (reverse (drop_dash s))) (
      drop_dash-IsCode (reverse (drop_dash s)) (All-reverse P (drop_dash s) (drop_dash-IsCode s h)))

-- At least one character, at most 32, and each one of A to Z, of 0 to 9, or a dash.
pub record IsGoodCode (s : Text) : Type 0 where
  pub characters : IsCode s
  pub some_text : 1 ≤ length s
  pub short : length s ≤ 32

or_promo-IsGoodCode : (s : Text) → IsCode s → length s ≤ 32 → IsGoodCode (or_promo s)
unfolding is_code_char is_upper is_digit
or_promo-IsGoodCode [] h k = record {
  characters = (refl, (refl, (refl, (refl, (refl, tt)))));
  some_text = omega arith;
  short = omega arith;
}
or_promo-IsGoodCode (c ∷ s) h k = record { characters = h; some_text = omega arith; short = k }

base_code-IsGoodCode :
    (name : Text) (requested : Option Text) → IsGoodCode (base_code name requested)
unfolding base_code
base_code-IsGoodCode name requested =
    let raw = strip_dashes (squash false (to_upper (trim (requested_or name requested)))) in
    let whole =
      strip_dashes-IsCode (squash false (to_upper (trim (requested_or name requested))))
        (squash-IsCode false (to_upper (trim (requested_or name requested)))) in
    or_promo-IsGoodCode (take 32 raw) (All-take (λ c. in_code c ≡ true) 32 raw whole)
      (length-take 32 raw)

-- Every code that the service gives a promotion, from a requested code or from the name, whatever
-- text that is, has between 1 and 32 characters, all of them capital letters, digits or dashes. The
-- random part is six characters that are letters or digits once they are capitals.
pub promotion_code-IsGoodCode :
    (random : Text) (org : ℕ) (exclude : Option ℕ) (rules : List Rule) (name : Text)
    (requested : Option Text)
    → length random ≡ 6
    → IsCode (to_upper random)
    → IsGoodCode (promotion_code random org exclude rules name requested)
unfolding promotion_code
promotion_code-IsGoodCode random org exclude rules name requested six hex =
    let base = base_code name requested in
    let good = base_code-IsGoodCode name requested in
    let cut = length-take 25 base in
    let long : length (take 25 base ++ dash ∷ to_upper random) ≤ 32 = omega (
      arith,
      length-append (take 25 base) (dash ∷ to_upper random),
      length-to_upper random,
      cut,
      six,
    ) in
    let filled : 1 ≤ length (take 25 base ++ dash ∷ to_upper random) =
      omega (arith, length-append (take 25 base) (dash ∷ to_upper random)) in
    elim (Bool-cases (is_taken org exclude base rules)) [
      | inl taken ↦ rw taken (record {
        characters =
            All-append (λ c. in_code c ≡ true) (take 25 base) (dash ∷ to_upper random)
              (All-take (λ c. in_code c ≡ true) 25 base good.characters) (dash-in_code, hex);
        some_text = filled;
        short = long;
      })
      | inr free ↦ rw free good
    ]
