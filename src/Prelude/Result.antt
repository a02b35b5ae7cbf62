-- ===== src/Prelude/Result.antt =====
-- The HTTP exceptions that the services throw, as values, and the chain of fallible steps.
use Prim.Native.Nat.{ℕ}
use Prim.Native.String.{String}
use mathlib.Core.Path.{◌≡◌, refl, ap}
use mathlib.Core.Logic.{◌⊎◌, inl, inr}
use mathlib.Core.Bool.{Bool, true, false}
use mathlib.Core.Option.{Option, none, some}

-- A fixed message, or a template with the name of a row (as its id) put in for `%`.
pub data Message : Type 0 where
  lit : String → Message
  about : String → ℕ → Message

-- `BadRequestException`, `UnauthorizedException`, `ForbiddenException`, `NotFoundException` and
-- `ConflictException`.
pub data Error : Type 0 where
  bad_request unauthorized forbidden not_found conflict : Message → Error

pub data Result {ℓ} (A : Type ℓ) : Type ℓ where
  ok : A → Result A
  err : Error → Result A

-- `if (test) throw new ...`
abbrev pub raise_if : Bool → Error → Result (Unit {0})
raise_if true failure = err failure
raise_if false failure = ok tt

-- What follows a step, with its value or without.
infixl 5 ◌>>=◌
abbrev pub ◌>>=◌ {κ μ} :
    {From : Type κ} {To : Type μ} → Result From → (From → Result To) → Result To
err failure >>= next = err failure
ok value >>= next = next value

infixl 5 ◌>>◌
abbrev pub ◌>>◌ {μ} : {To : Type μ} → Result (Unit {0}) → Result To → Result To
first >> second = first >>= λ _. second

-- `if (!value) throw new ...`
abbrev pub or_raise {ℓ} : {A : Type ℓ} → Option A → Error → Result A
or_raise none e = err e
or_raise (some a) e = ok a

-- Inversion of a successful step.
pub >>=-eq-ok {κ μ} :
    {From : Type κ} {To : Type μ} (step : Result From) (next : From → Result To) {end : To}
    → (step >>= next) ≡ ok end
    → (value : From) × (step ≡ ok value) × (next value ≡ ok end)
>>=-eq-ok (err failure) next h = cc
>>=-eq-ok (ok value) next h = (value, refl, h)

pub or_raise-ok {ℓ} :
    {A : Type ℓ} (o : Option A) (e : Error) {a : A} → or_raise o e ≡ ok a → o ≡ some a
or_raise-ok none e h = cc
or_raise-ok (some a) e h = cc

pub Result-cases {ℓ} :
    {A : Type ℓ} (r : Result A) → ((e : Error) × (r ≡ err e)) ⊎ ((a : A) × (r ≡ ok a))
Result-cases (err e) = inl (e, refl)
Result-cases (ok a) = inr (a, refl)

pub raise_if-ok : (b : Bool) (e : Error) {u : Unit {0}} → raise_if b e ≡ ok u → b ≡ false
raise_if-ok true e h = cc
raise_if-ok false e h = refl

pub ok-injective {ℓ} : {A : Type ℓ} {a b : A} → ok a ≡ ok b → a ≡ b
ok-injective h = cc

pub ok_pair-injective {ℓ κ} :
    {A : Type ℓ} {B : Type κ} {p q : A × B} → ok p ≡ ok q → (p.0 ≡ q.0) × (p.1 ≡ q.1)
ok_pair-injective h = (ap (λ p. p.0) (ok-injective h), ap (λ p. p.1) (ok-injective h))

-- A guard that let the code go on, and a value that was there.
pub raise_if-then {ℓ} :
    {A : Type ℓ} (b : Bool) (e : Error) (next : Result A) {end : A}
    → (raise_if b e >> next) ≡ ok end
    → (b ≡ false) × (next ≡ ok end)
raise_if-then true e next h = cc
raise_if-then false e next h = (refl, h)

pub or_raise-then {ℓ κ} :
    {A : Type ℓ} {B : Type κ} (o : Option A) (e : Error) (next : A → Result B) {end : B}
    → (or_raise o e >>= next) ≡ ok end
    → (a : A) × (o ≡ some a) × (next a ≡ ok end)
or_raise-then none e next h = cc
or_raise-then (some a) e next h = (a, refl, h)
