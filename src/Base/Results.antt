-- ===== src/Base/Results.antt =====
-- Results of functions that may fail. An error is named by the format string of its `fmt.Errorf`.
use Prim.Native.String.{String}
use mathlib.Core.Path.{◌≡◌, refl}
use mathlib.Core.Bool.{Bool, true, false}

-- The pair of results `(value, err)`, of which Go code uses the value only where `err` is nil.
pub data Result {ℓ} (Value : Type ℓ) : Type ℓ where
  err : String → Result Value
  ok : Value → Result Value

-- `if test { return error }`
abbrev pub refuse : Bool → String → Result (Unit {0})
refuse true message = err message
refuse false message = ok tt

-- `if err != nil { return err }`
infixl 5 ◌>>=◌
abbrev pub ◌>>=◌ {κ μ} : {V : Type κ} {W : Type μ} → Result V → (V → Result W) → Result W
err message >>= next = err message
ok value >>= next = next value

infixl 5 ◌>>◌
abbrev pub ◌>>◌ {μ} : {W : Type μ} → Result (Unit {0}) → Result W → Result W
check >> next = check >>= λ passed. next

-- `fmt.Errorf("…: %w", err)`
abbrev pub wrap {ℓ} : {V : Type ℓ} → String → Result V → Result V
wrap message (err inner) = err message
wrap message (ok value) = ok value

pub wrap-eq-ok {ℓ} :
    {V : Type ℓ} (message : String) (r : Result V) {v : V} → wrap message r ≡ ok v → r ≡ ok v
wrap-eq-ok message (err inner) h = cc
wrap-eq-ok message (ok value) h = h

-- A chain that succeeds has run its first step, whose value the rest has used.
pub >>=-eq-ok {κ μ} :
    {V : Type κ} {W : Type μ} (step : Result V) (next : V → Result W) {result : W}
    → (step >>= next) ≡ ok result
    → (value : V) × (step ≡ ok value) × (next value ≡ ok result)
>>=-eq-ok (err message) next reached = cc
>>=-eq-ok (ok value) next reached = (value, refl, reached)

pub refuse-eq-ok : (b : Bool) (e : String) → refuse b e ≡ ok tt → b ≡ false
refuse-eq-ok true e h = cc
refuse-eq-ok false e h = refl

-- What follows a refused test runs only where the test fails.
pub refuse->>-eq-ok {ℓ} :
    {A : Type ℓ} (b : Bool) (e : String) (k : Result A) {a : A}
    → (refuse b e >> k) ≡ ok a
    → (b ≡ false) × (k ≡ ok a)
refuse->>-eq-ok true e k h = cc
refuse->>-eq-ok false e k h = (refl, h)
