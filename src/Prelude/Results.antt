-- ===== src/Prelude/Results.antt =====
-- Functions that return or raise, and the transactions of the SQLite stores. Each component has
-- an error type of its own, with one constructor for each `raise` statement.
use mathlib.Core.Path.{◌≡◌, refl, ap, subst}
use mathlib.Core.Logic.{◌⊎◌, inl, inr}
use mathlib.Core.Bool.{Bool, true, false}

pub data Result {ℓ κ} (E : Type ℓ) (A : Type κ) : Type (ℓ ⊔ κ) where
  ok : A → Result E A
  err : E → Result E A

module _ {ℓ κ μ} {E : Type ℓ} {A : Type κ} {B : Type μ} where
  infixl 5 ◌>>=◌
  abbrev pub ◌>>=◌ : Result E A → (A → Result E B) → Result E B
  err failure >>= then_do = err failure
  ok found >>= then_do = then_do found

module _ {ℓ κ} {E : Type ℓ} {B : Type κ} where
  infixl 5 ◌>>◌
  abbrev pub ◌>>◌ : Result E (Unit {0}) → Result E B → Result E B
  first >> second = first >>= λ _. second

-- `if not test: raise e`
abbrev pub guard {ℓ} : {E : Type ℓ} → Bool → E → Result E (Unit {0})
guard false failure = err failure
guard true failure = ok tt

-- `if test: raise e`
abbrev pub refuse {ℓ} : {E : Type ℓ} → Bool → E → Result E (Unit {0})
refuse true e = err e
refuse false e = ok tt

module _ {ℓ κ μ} {S : Type ℓ} {E : Type κ} {A : Type μ} where
  -- BEGIN IMMEDIATE, the body, COMMIT; on any exception ROLLBACK and raise again.
  abbrev pub close_transaction : S → Result E (A × S) → Result E A × S
  close_transaction s (ok (a, s')) = (ok a, s')
  close_transaction s (err e) = (err e, s)

  abbrev pub transaction : (S → Result E (A × S)) → S → Result E A × S
  transaction body s = close_transaction s (body s)

-- what a function with no value returns
abbrev pub Done : Type 0
Done = Unit {0}

-- inversion of a successful step
pub >>=-eq-ok {ℓ κ μ} :
    {E : Type ℓ} {A : Type κ} {B : Type μ} (first : Result E A) (then_do : A → Result E B) {out : B}
    → (first >>= then_do) ≡ ok out
    → (found : A) × (first ≡ ok found) × (then_do found ≡ ok out)
>>=-eq-ok (err failure) then_do returned = cc
>>=-eq-ok (ok found) then_do returned = (found, refl, returned)

pub guard-eq-ok {ℓ} : {E : Type ℓ} (b : Bool) (e : E) → guard b e ≡ ok tt → b ≡ true
guard-eq-ok true e h = refl
guard-eq-ok false e h = cc

pub refuse-eq-ok {ℓ} : {E : Type ℓ} (b : Bool) (e : E) → refuse b e ≡ ok tt → b ≡ false
refuse-eq-ok false e h = refl
refuse-eq-ok true e h = cc

pub ok-injective {ℓ κ} :
    {E : Type ℓ} {A : Type κ} {a b : A} → ◌≡◌ {A = Result E A} (ok a) (ok b) → a ≡ b
ok-injective h = cc

pub err-injective {ℓ κ} :
    {E : Type ℓ} {A : Type κ} {a b : E} → ◌≡◌ {A = Result E A} (err a) (err b) → a ≡ b
err-injective h = cc

pub Result-cases {ℓ κ} :
    {E : Type ℓ} {A : Type κ} (m : Result E A) → ((a : A) × (m ≡ ok a)) ⊎ ((e : E) × (m ≡ err e))
Result-cases (ok a) = inl (a, refl)
Result-cases (err e) = inr (e, refl)

-- a property of every value that a step can give, from that of what follows it
pub returns-bind {ℓ κ μ ν} :
    {E : Type ℓ} {A : Type κ} {B : Type μ} {P : B → Type ν} (first : Result E A)
    {then_do : A → Result E B}
    → ((found : A) → first ≡ ok found → (out : B) → then_do found ≡ ok out → P out)
    → (out : B) → (first >>= then_do) ≡ ok out
    → P out
returns-bind first {then_do} rest out h =
    let (found, gave, later) = >>=-eq-ok first then_do h in rest found gave out later

-- the same of every error: it is the step's own or one of what follows it
pub raises-bind {ℓ κ μ ν} :
    {E : Type ℓ} {A : Type κ} {B : Type μ} {P : E → Type ν} (first : Result E A)
    {then_do : A → Result E B}
    → ((e : E) → first ≡ err e → P e)
    → ((found : A) → first ≡ ok found → (e : E) → then_do found ≡ err e → P e)
    → (e : E) → (first >>= then_do) ≡ err e
    → P e
raises-bind (err failure) own rest e h = own e (ap err (err-injective h))
raises-bind (ok found) own rest e h = rest found refl e h

-- the errors of a guard
pub raises-guard {ℓ ν} :
    {E : Type ℓ} (P : E → Type ν) (b : Bool) (e : E)
    → P e
    → (raised : E) → guard b e ≡ err raised
    → P raised
raises-guard P true e p raised h = cc
raises-guard P false e p raised h = subst P (err-injective h) p

pub raises-refuse {ℓ ν} :
    {E : Type ℓ} (P : E → Type ν) (b : Bool) (e : E)
    → P e
    → (raised : E) → refuse b e ≡ err raised
    → P raised
raises-refuse P false e p raised h = cc
raises-refuse P true e p raised h = subst P (err-injective h) p
