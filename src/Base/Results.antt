-- ===== src/Base/Results.antt =====
-- Go's pair of a value and an error as one of the two, for do blocks.
use mathlib.Core.Path.{◌≡◌, refl}
use mathlib.Core.Bool.{Bool, true, false, not}
use mathlib.Core.Logic.{◌⊎◌, inl, inr}

pub data Result {ℓ} (E : Type 0) (A : Type ℓ) : Type ℓ where
  ok : A → Result E A
  err : E → Result E A

-- `if !b { return d }`.
abbrev pub guard : {D : Type 0} → Bool → D → Result D (Unit {0})
guard false d = err d
guard true d = ok tt

-- An error that is passed on under another sentinel, `fmt.Errorf("%w: … %v", e, cause)`.
abbrev pub wrap {ℓ} : {E D : Type 0} {A : Type ℓ} → D → Result E A → Result D A
wrap e (ok a) = ok a
wrap e (err d) = err e

abbrev pub is_ok {ℓ} : {E : Type 0} {A : Type ℓ} → Result E A → Bool
is_ok (ok a) = true
is_ok (err e) = false

pub Result-cases {ℓ} :
    {E : Type 0} {A : Type ℓ} (r : Result E A) → ((a : A) × (r ≡ ok a)) ⊎ ((e : E) × (r ≡ err e))
Result-cases (ok a) = inl (a, refl)
Result-cases (err e) = inr (e, refl)

-- The rest of a function after a call whose error it returns.
infixl 5 ◌>>=◌ ◌>>◌
abbrev pub ◌>>=◌ {ℓ κ} :
    {D : Type 0} {X : Type ℓ} {Y : Type κ} → Result D X → (X → Result D Y) → Result D Y
err d >>= rest = err d
ok x >>= rest = rest x

-- The same after a call that returns an error only.
abbrev pub ◌>>◌ {ℓ} : {D : Type 0} {Y : Type ℓ} → Result D (Unit {0}) → Result D Y → Result D Y
check >> rest = check >>= λ u. rest

-- Whatever is returned without an error has both parts without one.
pub >>=-eq-ok {ℓ κ} :
    {D : Type 0} {X : Type ℓ} {Y : Type κ} (call : Result D X) (rest : X → Result D Y) {y : Y}
    → (call >>= rest) ≡ ok y
    → (x : X) × (call ≡ ok x) × (rest x ≡ ok y)
>>=-eq-ok (err d) rest same = cc
>>=-eq-ok (ok x) rest same = (x, refl, same)

pub ok-injective {ℓ} :
    {E : Type 0} {A : Type ℓ} {a b : A} → ◌≡◌ {A = Result E A} (ok a) (ok b) → a ≡ b
ok-injective h = cc

pub >>-eq-ok {ℓ} :
    {E : Type 0} {B : Type ℓ} (m : Result E (Unit {0})) (k : Result E B) {b : B}
    → (m >> k) ≡ ok b
    → m ≡ ok tt
>>-eq-ok (ok u) k h = refl
>>-eq-ok (err e) k h = cc

-- What a guard that lets through has tested.
pub guard-not : {E : Type 0} (b : Bool) (e : E) → guard (not b) e ≡ ok tt → b ≡ false
guard-not true e h = cc
guard-not false e h = refl

pub guard_test : {E : Type 0} (b : Bool) (e : E) → guard b e ≡ ok tt → b ≡ true
guard_test true e h = refl
guard_test false e h = cc

-- A check and the rest after it, both passed.
pub >>-both :
    {E : Type 0} (m n : Result E (Unit {0})) → (m >> n) ≡ ok tt → (m ≡ ok tt) × (n ≡ ok tt)
>>-both (ok u) n h = (refl, h)
>>-both (err e) n h = cc
