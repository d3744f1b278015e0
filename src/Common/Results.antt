-- ===== src/Common/Results.antt =====
-- Code that may throw: a value, or what was thrown.
use mathlib.Core.Path.{◌≡◌, refl}
use mathlib.Core.Logic.{◌⊎◌, inl, inr}
use mathlib.Core.Bool.{Bool, true, false}

pub data Result {ℓ} (E : Type 0) (A : Type ℓ) : Type ℓ where
  ok : A → Result E A
  fail : E → Result E A

infixl 5 ◌>>=◌ ◌>>◌
abbrev pub ◌>>=◌ {ℓ κ} :
    {E : Type 0} {A : Type ℓ} {B : Type κ} → Result E A → (A → Result E B) → Result E B
ok value >>= next = next value
fail e >>= next = fail e

abbrev pub ◌>>◌ {ℓ} : {E : Type 0} {B : Type ℓ} → Result E (Unit {0}) → Result E B → Result E B
step >> k = step >>= λ _. k

-- `if (!b) throw e;`
abbrev pub guard : {E : Type 0} → Bool → E → Result E (Unit {0})
guard true e = ok tt
guard false e = fail e

pub guard-inv {ℓ} :
    {E : Type 0} {A : Type ℓ} (b : Bool) (e : E) (k : Result E A) {value : A}
    → (guard b e >> k) ≡ ok value
    → (b ≡ true) × (k ≡ ok value)
guard-inv true e k same = (refl, same)
guard-inv false e k same = cc

pub >>=-eq-ok {ℓ κ} :
    {E : Type 0} {A : Type ℓ} {B : Type κ} (step : Result E A) (next : A → Result E B) {b : B}
    → (step >>= next) ≡ ok b
    → (value : A) × (step ≡ ok value) × (next value ≡ ok b)
>>=-eq-ok (ok value) next same = (value, refl, same)
>>=-eq-ok (fail e) next same = cc

pub >>=-eq-fail {ℓ κ} :
    {E : Type 0} {A : Type ℓ} {B : Type κ} (step : Result E A) (next : A → Result E B) {e : E}
    → (step >>= next) ≡ fail e
    → (step ≡ fail e) ⊎ ((value : A) × (step ≡ ok value) × (next value ≡ fail e))
>>=-eq-fail (ok value) next same = inr (value, refl, same)
>>=-eq-fail (fail e) next same = inl cc

pub bind-ok-eq-ok {ℓ κ} :
    {E : Type 0} {A : Type ℓ} {B : Type κ} (step : Result E A) (next : A → B) {b : B}
    → (step >>= λ value. ok (next value)) ≡ ok b
    → (value : A) × (step ≡ ok value) × (next value ≡ b)
bind-ok-eq-ok (ok value) next same = (value, refl, cc)
bind-ok-eq-ok (fail e) next same = cc

pub bind-bind-ok-eq-ok {ℓ} :
    {E : Type 0} {A B C : Type ℓ} (step : Result E A) (k : A → Result E B) (next : A → B → C)
    {c : C}
    → (step >>= λ value. k value >>= λ b. ok (next value b)) ≡ ok c
    → (value : A) × (b : B) × (step ≡ ok value) × (k value ≡ ok b) × (next value b ≡ c)
bind-bind-ok-eq-ok (ok value) k next same =
    let (b, kb, e) = bind-ok-eq-ok (k value) (next value) same in (value, b, refl, kb, e)
bind-bind-ok-eq-ok (fail e) k next same = cc

pub ok-injective {ℓ} :
    {E : Type 0} {A : Type ℓ} {value b : A} → ◌≡◌ {A = Result E A} (ok value) (ok b) → value ≡ b
ok-injective same = cc

pub Result-cases {ℓ} :
    {E : Type 0} {A : Type ℓ} (step : Result E A)
    → ((value : A) × (step ≡ ok value)) ⊎ ((e : E) × (step ≡ fail e))
Result-cases (ok value) = inl (value, refl)
Result-cases (fail e) = inr (e, refl)
