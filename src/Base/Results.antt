-- ===== src/Base/Results.antt =====
-- A call that returns or raises, over the errors `E` of its component.
use mathlib.Core.Path.{◌≡◌, refl}
use mathlib.Core.Logic.{◌⊎◌, inl, inr}
use mathlib.Core.Bool.{Bool, true, false}
use mathlib.Core.Option.{Option, none, some}
use mathlib.Core.List.{List, [], ◌∷◌}

pub data Result (E : Type 0) (A : Type 0) : Type 0 where
  err : E → Result E A
  ok : A → Result E A

-- `if o is None: raise e`
abbrev pub require : {E A : Type 0} → Option A → E → Result E A
require none e = err e
require (some a) e = ok a

-- `if test: raise e`
abbrev pub raise_if : {E : Type 0} → Bool → E → Result E (Unit {0})
raise_if false e = ok tt
raise_if true e = err e

-- What follows a call runs on the value that it returns.
infixl 5 ◌>>=◌
abbrev pub ◌>>=◌ : {E A B : Type 0} → Result E A → (A → Result E B) → Result E B
call >>= next = elim call [ err e ↦ err e | ok a ↦ next a ]

infixl 5 ◌>>◌
abbrev pub ◌>>◌ : {E B : Type 0} → Result E (Unit {0}) → Result E B → Result E B
check >> next = elim check [ err e ↦ err e | ok _ ↦ next ]

-- A list comprehension whose element expression may raise.
unfoldable pub traverse : {E A B : Type 0} → (A → Result E B) → List A → Result E (List B)
traverse f [] = ok []
traverse f (x ∷ xs) = do y ← f x; ys ← traverse f xs; ok (y ∷ ys)

-- A chain returns where its first call and its rest do.
pub >>=-eq-ok :
    {E A B : Type 0} (call : Result E A) (next : A → Result E B) {out : B}
    → (call >>= next) ≡ ok out
    → (a : A) × (call ≡ ok a) × (next a ≡ ok out)
>>=-eq-ok (err e) next h = cc
>>=-eq-ok (ok a) next h = (a, refl, h)

pub >>-eq-ok :
    {E B : Type 0} (check : Result E (Unit {0})) (next : Result E B) {out : B}
    → (check >> next) ≡ ok out
    → (check ≡ ok tt) × (next ≡ ok out)
>>-eq-ok (err e) next h = cc
>>-eq-ok (ok a) next h = (refl, h)

pub raise_if-eq-ok : {E : Type 0} (test : Bool) (e : E) → raise_if test e ≡ ok tt → test ≡ false
raise_if-eq-ok true e h = cc
raise_if-eq-ok false e h = refl

pub Result-cases :
    {E A : Type 0} (r : Result E A) → ((a : A) × (r ≡ ok a)) ⊎ ((e : E) × (r ≡ err e))
Result-cases (ok a) = inl (a, refl)
Result-cases (err e) = inr (e, refl)

pub ok_inj : {E A : Type 0} {a b : A} → ◌≡◌ {A = Result E A} (ok a) (ok b) → a ≡ b
ok_inj e = cc
