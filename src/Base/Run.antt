-- ===== src/Base/Run.antt =====
-- The ways for a kernel call to end: it returns, it reads through NULL, or its loop has not ended
-- within the fuel.
use mathlib.Core.Path.{◌≡◌, refl}
use mathlib.Core.Bool.{Bool, true, false}
use boke_os.Base.Tests.{if◌then◌else◌}

pub data Run (Result : Type 0) : Type 0 where
  out_of_fuel : Run Result
  fault : Run Result
  ok : Result → Run Result

-- The call goes on with what the first part returned.
infixl 5 ◌>>=◌
abbrev pub ◌>>=◌ : {First Last : Type 0} → Run First → (First → Run Last) → Run Last
first >>= next = elim first [ ok result ↦ next result | fault ↦ fault | out_of_fuel ↦ out_of_fuel ]

-- The call returns, and what it returns has the property.
pub data Returns {Result : Type 0} (P : Result → Type 0) : Run Result → Type 0 where
  returns : {r : Result} → P r → Returns P (ok r)

module _ {Result : Type 0} {P : Result → Type 0} where
  pub Returns-if :
      {b : Bool} {x y : Run Result}
      → (b ≡ true → Returns P x)
      → (b ≡ false → Returns P y)
      → Returns P (if b then x else y)
  Returns-if {b = true} p q = p refl
  Returns-if {b = false} p q = q refl

  pub Returns-bind :
      {First : Type 0} {Q : First → Type 0} {first : Run First} {next : First → Run Result}
      → Returns Q first
      → ((r : First) → Q r → Returns P (next r))
      → Returns P (first >>= next)
  Returns-bind (returns q) h = h _ q

  pub Returns-result : {run : Run Result} → Returns P run → (r : Result) × (run ≡ ok r) × P r
  Returns-result (returns p) = (_, refl, p)

  pub Returns-weaken :
      {Q : Result → Type 0} {run : Run Result}
      → ((r : Result) → Q r → P r)
      → Returns Q run
      → Returns P run
  Returns-weaken h (returns q) = returns (h _ q)
