-- ===== src/Outcome.antt =====
-- How code ends: Rust's `Result`, and panics (an index out of range, `unwrap`, `expect`) as values.
use event_listener.Prelude.{◌≡◌, refl, Option, none, some, ◌⊎◌, inl, inr}

-- Rust's `Result<A, E>`.
pub data Result {ℓ} (A E : Type ℓ) : Type ℓ where
  ok : A → Result A E
  err : E → Result A E

-- Code that may panic.
pub data Run {ℓ} (A : Type ℓ) : Type ℓ where
  done : A → Run A
  panic : Run A

-- The `?` operator.
infixl 5 ◌>>=◌
abbrev pub ◌>>=◌ {ℓ} : {A B E : Type ℓ} → Result A E → (A → Result B E) → Result B E
ok a >>= f = f a
err e >>= f = err e

-- `map_err`, also the `From` conversion that `?` makes.
abbrev pub map_err {ℓ} : {A E F : Type ℓ} → (E → F) → Result A E → Result A F
map_err f (ok a) = ok a
map_err f (err e) = err (f e)

abbrev pub map_ok {ℓ} : {A B E : Type ℓ} → (A → B) → Result A E → Result B E
map_ok f (ok a) = ok (f a)
map_ok f (err e) = err e

-- `Option::ok_or`.
abbrev pub ok_or {ℓ} : {A E : Type ℓ} → Option A → E → Result A E
ok_or none e = err e
ok_or (some a) e = ok a

-- `Option::expect` and `Option::unwrap`.
abbrev pub expect {ℓ} : {A : Type ℓ} → Option A → Run A
expect none = panic
expect (some a) = done a

-- Sequencing of code that may panic.
abbrev pub and_run {ℓ κ} : {A : Type ℓ} {B : Type κ} → Run A → (A → Run B) → Run B
and_run (done a) f = f a
and_run panic f = panic

abbrev pub map_run {ℓ κ} : {A : Type ℓ} {B : Type κ} → (A → B) → Run A → Run B
map_run f (done a) = done (f a)
map_run f panic = panic

pub Result-cases {ℓ} :
    {A E : Type ℓ} (r : Result A E) → ((a : A) × (r ≡ ok a)) ⊎ ((e : E) × (r ≡ err e))
Result-cases (ok a) = inl (a, refl)
Result-cases (err e) = inr (e, refl)

-- The run ends, and its value satisfies `P`.
abbrev pub Returns {ℓ} : {A : Type ℓ} → (A → Type 0) → Run A → Type 0
Returns P (done a) = P a
Returns P panic = ⊥

module _ {A B : Type 0} (P : A → Type 0) (Q : B → Type 0) where
  pub Returns-and_run :
      (m : Run A) (f : A → Run B)
      → Returns P m
      → ((a : A) → P a → Returns Q (f a))
      → Returns Q (and_run m f)
  Returns-and_run (done a) f h k = k a h
  Returns-and_run panic f h k = h

  pub Returns-map_run :
      (f : A → B) (m : Run A) → Returns P m → ((a : A) → P a → Q (f a)) → Returns Q (map_run f m)
  Returns-map_run f (done a) h k = k a h
  Returns-map_run f panic h k = absurd h

module _ {A : Type 0} (P : A → Type 0) where
  pub Returns-done : (m : Run A) → Returns P m → (a : A) × (m ≡ done a) × P a
  Returns-done (done a) h = (a, refl, h)
  Returns-done panic h = absurd h

pub Returns-mono :
    {A : Type 0} (P Q : A → Type 0) (m : Run A) → ((a : A) → P a → Q a) → Returns P m → Returns Q m
Returns-mono P Q (done a) k h = k a h
Returns-mono P Q panic k h = h

-- Inversion of a successful `?`.
pub >>=-eq-ok {ℓ} :
    {B A E : Type ℓ} (r : Result A E) (next : A → Result B E) {out : B} (h : (r >>= next) ≡ ok out)
    → (x : A) × (r ≡ ok x) × (next x ≡ ok out)
>>=-eq-ok (err e) next h = cc
>>=-eq-ok (ok x) next h = (x, refl, h)

pub map_run-map_run :
    {A B C : Type 0} (g : B → C) (f : A → B) (m : Run A)
    → map_run g (map_run f m) ≡ map_run (λ a. g (f a)) m
map_run-map_run g f (done a) = refl
map_run-map_run g f panic = refl

-- Inversion of a run that ends.
pub map_run-eq-done :
    {A B : Type 0} (f : A → B) (m : Run A) {b : B}
    → map_run f m ≡ done b
    → (a : A) × (m ≡ done a) × (f a ≡ b)
map_run-eq-done f (done a) h = (a, refl, cc)
map_run-eq-done f panic h = cc

pub and_run-eq-done :
    {A B : Type 0} (m : Run A) (f : A → Run B) {b : B}
    → and_run m f ≡ done b
    → (a : A) × (m ≡ done a) × (f a ≡ done b)
and_run-eq-done (done a) f h = (a, refl, h)
and_run-eq-done panic f h = cc

-- The value satisfies `P`, if the run ends.
abbrev pub Leaves {ℓ} : {A : Type ℓ} → (A → Type 0) → Run A → Type 0
Leaves P (done a) = P a
Leaves P panic = Unit

pub Leaves-intro {ℓ} :
    {A : Type ℓ} (P : A → Type 0) (m : Run A) → ((a : A) → m ≡ done a → P a) → Leaves P m
Leaves-intro P (done a) h = h a refl
Leaves-intro P panic h = tt
