-- ===== src/Base/Members.antt =====
-- Membership in a list of numbers: that many different numbers make it that long.
use Prim.Native.Nat.{ℕ, zero, suc, ◌+◌, ◌≤◌, ◌<◌}
use mathlib.Core.Path.{◌≡◌}
use mathlib.Core.Logic.{◌≢◌}
use mathlib.Core.Bool.{Bool, true, false, ◌||◌}
use mathlib.Core.List.{List, [], ◌∷◌}
use native.Mathlib.Omega.{arith}
use p4net.Base.Tests.{◌==◌, if◌then◌else◌}
use p4net.Base.Lists.{length}

-- `n in ns`
unfoldable pub member : ℕ → List ℕ → Bool
member n [] = false
member n (m ∷ ms) = m == n || member n ms

-- The list without its first `n`.
remove : ℕ → List ℕ → List ℕ
remove n [] = []
remove n (m ∷ ms) = let rest = remove n ms in if m == n then ms else m ∷ rest

length-remove : (n : ℕ) (ms : List ℕ) → member n ms ≡ true → suc (length (remove n ms)) ≡ length ms
unfolding member remove
length-remove n [] h = cc
length-remove n (m ∷ ms) h = ground (arith, length-remove n ms)

member-remove : (n k : ℕ) (ms : List ℕ) → n ≢ k → member k ms ≡ true → member k (remove n ms) ≡ true
unfolding member remove
member-remove n k [] differ h = h
member-remove n k (m ∷ ms) differ h = ground (arith, member-remove n k ms)

-- A list that holds `n` numbers in a row has at least `n` elements.
pub run≤length :
    (n c : ℕ) (ms : List ℕ) → ((k : ℕ) → c ≤ k → k < c + n → member k ms ≡ true) → n ≤ length ms
run≤length zero c ms h = omega arith
run≤length (suc n) c ms h =
    let rest =
      run≤length n (suc c) (remove c ms)
        (λ k lo hi. member-remove c k ms (omega (arith, lo)) (h k (omega arith) (omega arith))) in
    omega (arith, rest, length-remove c ms (h c (omega arith) (omega arith)))
