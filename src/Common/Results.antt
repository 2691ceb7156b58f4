-- ===== src/Common/Results.antt =====
-- Results that may be errors, with `do`, and chains of optional values.
use mathlib.Core.Path.{◌≡◌, refl}
use mathlib.Core.Logic.{◌≢◌, ◌⊎◌, inl, inr}
use mathlib.Core.Bool.{Bool, true, false}
use mathlib.Core.Option.{Option, none, some}

pub data Result {ℓ κ} (E : Type ℓ) (A : Type κ) : Type (ℓ ⊔ κ) where
  ok : A → Result E A
  err : E → Result E A

infixl 5 ◌>>=◌ ◌>>◌
abbrev pub ◌>>=◌ {ℓ κ μ} :
    {E : Type ℓ} {A : Type κ} {B : Type μ} → Result E A → (A → Result E B) → Result E B
err fault >>= next = err fault
ok value >>= next = next value

abbrev pub ◌>>◌ {ℓ μ} : {E : Type ℓ} {B : Type μ} → Result E (Unit {0}) → Result E B → Result E B
err fault >> next = err fault
ok done >> next = next

-- `if bad { return e }`.
abbrev pub fail_if {ℓ} : {E : Type ℓ} → Bool → E → Result E (Unit {0})
fail_if true e = err e
fail_if false e = ok tt

-- `if x == nil { return e }`.
abbrev pub or_fail {ℓ κ} : {E : Type ℓ} {A : Type κ} → Option A → E → Result E A
or_fail none e = err e
or_fail (some a) e = ok a

pub Result-cases {ℓ κ} :
    {E : Type ℓ} {A : Type κ} (r : Result E A) → ((x : E) × (r ≡ err x)) ⊎ ((a : A) × (r ≡ ok a))
Result-cases (err x) = inl (x, refl)
Result-cases (ok a) = inr (a, refl)

pub >>=-eq-ok {ℓ κ μ} :
    {E : Type ℓ} {A : Type κ} {B : Type μ} (m : Result E A) (next : A → Result E B) {b : B}
    → (m >>= next) ≡ ok b
    → (value : A) × (m ≡ ok value) × (next value ≡ ok b)
>>=-eq-ok (err fault) next h = cc
>>=-eq-ok (ok value) next h = (value, refl, h)

pub fail_if->>-eq-ok {ℓ κ} :
    {E : Type ℓ} {A : Type κ} (bad : Bool) (e : E) (m : Result E A) {a : A}
    → (fail_if bad e >> m) ≡ ok a
    → (bad ≡ false) × (m ≡ ok a)
fail_if->>-eq-ok true e m h = cc
fail_if->>-eq-ok false e m h = (refl, h)

pub >>-eq-ok {ℓ κ} :
    {E : Type ℓ} {A : Type κ} (m : Result E (Unit {0})) (n : Result E A) {a : A}
    → (m >> n) ≡ ok a
    → (m ≡ ok tt) × (n ≡ ok a)
>>-eq-ok (err e) n h = cc
>>-eq-ok (ok done) n h = (refl, h)

-- A chain does not succeed where no value that it goes through leads on.
pub >>=-ne-ok {ℓ κ μ} :
    {E : Type ℓ} {A : Type κ} {B : Type μ} (m : Result E A) (next : A → Result E B) {b : B}
    → ((value : A) → m ≡ ok value → next value ≢ ok b)
    → (m >>= next) ≢ ok b
>>=-ne-ok (err fault) next k h = cc
>>=-ne-ok (ok value) next k h = k value refl h

-- What holds of each value that a chain may lead to holds of the one it leads to.
pub >>=-leads {ℓ κ μ ν} :
    {E : Type ℓ} {A : Type κ} {B : Type μ} {P : Type ν} (m : Result E A) (next : A → Result E B)
    {b : B}
    → (m >>= next) ≡ ok b
    → ((value : A) → m ≡ ok value → next value ≡ ok b → P)
    → P
>>=-leads (err fault) next h k = absurd (cc)
>>=-leads (ok value) next h k = k value refl h
