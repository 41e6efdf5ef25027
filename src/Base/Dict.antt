-- ===== src/Base/Dict.antt =====
-- Python's `dict` as an association list in insertion order, over keys with a Boolean equality.
use mathlib.Core.Path.{◌≡◌, refl, sym}
use mathlib.Core.Logic.{◌↔◌, inl, inr}
use mathlib.Core.Bool.{Bool, true, false, ◌||◌, ◌&&◌}
use mathlib.Core.Option.{Option, none, some}
use mathlib.Core.List.{List, [], ◌∷◌, ◌++◌}
use native.Mathlib.Omega.{arith}
use p4net.Base.Tests.{◌==◌, ==_iff, if◌then◌else◌, Bool-cases, ℤ, pos, negsuc}
use p4net.Base.Text.{Text, text_eq, text_eq_iff}
use Prim.Native.Nat.{ℕ}
use p4net.Base.Lists.{All, All-append}
use mathlib.Core.Path.{subst}
use mathlib.Core.Option.{some-injective}

pub record Eq (K : Type 0) : Type 0 where
  pub beq : K → K → Bool
  pub beq_iff : (a b : K) → (beq a b ≡ true) ↔ (a ≡ b)

instance abbrev pub nat_eq : Eq ℕ
nat_eq = record { beq = ◌==◌; beq_iff = ==_iff }

instance abbrev pub text_eq_instance : Eq Text
text_eq_instance = record { beq = text_eq; beq_iff = text_eq_iff }

abbrev pub pair_beq : {A B : Type 0} → Eq A → Eq B → A × B → A × B → Bool
pair_beq ea eb (a, b) (c, d) = Eq.beq ea a c && Eq.beq eb b d

pub pair_beq_iff :
    {A B : Type 0} (ea : Eq A) (eb : Eq B) (p q : A × B) → (pair_beq ea eb p q ≡ true) ↔ (p ≡ q)
pair_beq_iff ea eb (a, b) (c, d) = ground (arith, Eq.beq_iff ea a c, Eq.beq_iff eb b d)

instance abbrev pub pair_eq : {A B : Type 0} ⦃ea : Eq A⦄ ⦃eb : Eq B⦄ → Eq (A × B)
pair_eq ⦃ea⦄ ⦃eb⦄ = record { beq = pair_beq ea eb; beq_iff = pair_beq_iff ea eb }

abbrev pub option_beq : {A : Type 0} → Eq A → Option A → Option A → Bool
option_beq e none none = true
option_beq e none (some b) = false
option_beq e (some a) none = false
option_beq e (some a) (some b) = Eq.beq e a b

pub option_beq_iff : {A : Type 0} (e : Eq A) (o p : Option A) → (option_beq e o p ≡ true) ↔ (o ≡ p)
option_beq_iff e none none = ground arith
option_beq_iff e none (some b) = ground arith
option_beq_iff e (some a) none = ground arith
option_beq_iff e (some a) (some b) = ground (arith, Eq.beq_iff e a b)

instance abbrev pub option_eq : {A : Type 0} ⦃e : Eq A⦄ → Eq (Option A)
option_eq ⦃e⦄ = record { beq = option_beq e; beq_iff = option_beq_iff e }

abbrev pub int_beq : ℤ → ℤ → Bool
int_beq (pos a) (pos b) = a == b
int_beq (pos a) (negsuc b) = false
int_beq (negsuc a) (pos b) = false
int_beq (negsuc a) (negsuc b) = a == b

pub int_beq_iff : (a b : ℤ) → (int_beq a b ≡ true) ↔ (a ≡ b)
int_beq_iff (pos a) (pos b) = ground arith
int_beq_iff (pos a) (negsuc b) = ground arith
int_beq_iff (negsuc a) (pos b) = ground arith
int_beq_iff (negsuc a) (negsuc b) = ground arith

instance abbrev pub int_eq : Eq ℤ
int_eq = record { beq = int_beq; beq_iff = int_beq_iff }

abbrev pub Dict : Type 0 → Type 0 → Type 0
Dict K V = List (K × V)

abbrev pub keys : {K V : Type 0} → Dict K V → List K
keys [] = []
keys ((k, v) ∷ d) = k ∷ keys d

abbrev pub values : {K V : Type 0} → Dict K V → List V
values [] = []
values ((k, v) ∷ d) = v ∷ values d

module _ {K V : Type 0} ⦃e : Eq K⦄ where
  -- `d.get(k)`
  unfoldable pub lookup : K → Dict K V → Option V
  lookup k [] = none
  lookup k ((j, v) ∷ d) = if e.beq j k then some v else lookup k d

  -- `k in d`
  unfoldable pub contains : K → Dict K V → Bool
  contains k [] = false
  contains k ((j, v) ∷ d) = if e.beq j k then true else contains k d

  -- `d[k] = v`: an old key keeps its place.
  unfoldable pub insert : K → V → Dict K V → Dict K V
  insert k v [] = (k, v) ∷ []
  insert k v ((j, w) ∷ d) = if e.beq j k then (j, v) ∷ d else (j, w) ∷ insert k v d

  pub lookup-insert :
      (k j : K) (v : V) (d : Dict K V)
      → lookup j (insert k v d) ≡ (if e.beq k j then some v else lookup j d)
  unfolding lookup insert
  lookup-insert k j v [] = refl
  lookup-insert k j v ((i, w) ∷ d) =
      ground (arith, e.beq_iff k j, e.beq_iff i k, e.beq_iff i j, lookup-insert k j v d)

  pub contains-lookup :
      (k : K) (d : Dict K V) → contains k d ≡ true → (v : V) × (lookup k d ≡ some v)
  unfolding lookup contains
  contains-lookup k [] h = cc
  contains-lookup k ((j, v) ∷ d) h = elim (Bool-cases (e.beq j k)) [
    | inl same ↦ (v, rw same)
    | inr differ ↦ rw differ (contains-lookup k d (rw differ at h))
  ]

  pub lookup_absent : (k : K) (d : Dict K V) → contains k d ≡ false → lookup k d ≡ none
  unfolding lookup contains
  lookup_absent k [] h = refl
  lookup_absent k ((j, v) ∷ d) h = ground (arith, lookup_absent k d)

  pub lookup-contains : (k : K) (d : Dict K V) (v : V) → lookup k d ≡ some v → contains k d ≡ true
  lookup-contains k d v h = ground (arith, h, lookup_absent k d)

  -- A new key goes to the end.
  pub insert_fresh :
      (k : K) (v : V) (d : Dict K V) → contains k d ≡ false → insert k v d ≡ d ++ ((k, v) ∷ [])
  unfolding contains insert
  insert_fresh k v [] h = refl
  insert_fresh k v ((j, w) ∷ d) h = ground (arith, insert_fresh k v d)

  pub contains-insert :
      (k j : K) (v : V) (d : Dict K V) → contains j (insert k v d) ≡ (e.beq k j || contains j d)
  unfolding contains insert
  contains-insert k j v [] = ground arith
  contains-insert k j v ((i, w) ∷ d) =
      ground (arith, e.beq_iff k j, e.beq_iff i k, e.beq_iff i j, contains-insert k j v d)

  -- A new entry at the end, with what every entry has.
  pub insert-fresh_All :
      (P : K × V → Type 0) (k : K) (v : V) (d : Dict K V)
      → contains k d ≡ false
      → P (k, v)
      → All P d
      → All P (insert k v d)
  insert-fresh_All P k v d free p h =
      subst (All P) (sym (insert_fresh k v d free)) (All-append P d ((k, v) ∷ []) h (p, tt))

  -- What every value of the dict has, an entry that is looked up has.
  pub lookup-All :
      (P : V → Type 0) (k : K) (d : Dict K V) (v : V)
      → All (λ entry. P entry.1) d
      → lookup k d ≡ some v
      → P v
  unfolding lookup
  lookup-All P k [] v h q = cc
  lookup-All P k ((j, w) ∷ d) v h q = elim (Bool-cases (e.beq j k)) [
    | inl same ↦ subst P (some-injective w v (rw same at q)) h.0
    | inr differ ↦ lookup-All P k d v h.1 (rw differ at q)
  ]

  -- The same for an entry with its key.
  pub lookup-entry_All :
      (P : K × V → Type 0) (k : K) (d : Dict K V) (v : V) → All P d → lookup k d ≡ some v → P (k, v)
  unfolding lookup
  lookup-entry_All P k [] v h q = cc
  lookup-entry_All P k ((j, w) ∷ d) v h q = elim (Bool-cases (e.beq j k)) [
    | inl same ↦
        subst (λ x. P (x, v)) ((e.beq_iff j k).0 same)
          (subst (λ x. P (j, x)) (some-injective w v (rw same at q)) h.0)
    | inr differ ↦ lookup-entry_All P k d v h.1 (rw differ at q)
  ]

  pub insert-entry_All :
      (P : K × V → Type 0) (k : K) (v : V) (d : Dict K V)
      → P (k, v)
      → All P d
      → All P (insert k v d)
  unfolding insert
  insert-entry_All P k v [] p h = (p, tt)
  insert-entry_All P k v ((j, w) ∷ d) p h = elim (Bool-cases (e.beq j k)) [
    | inl same ↦ rw same (subst (λ i. P (i, v)) (sym ((e.beq_iff j k).0 same)) p, h.1)
    | inr differ ↦ rw differ (h.0, insert-entry_All P k v d p h.1)
  ]

  pub insert-All :
      (P : V → Type 0) (k : K) (v : V) (d : Dict K V)
      → P v
      → All (λ entry. P entry.1) d
      → All (λ entry. P entry.1) (insert k v d)
  unfolding insert
  insert-All P k v [] p h = (p, tt)
  insert-All P k v ((j, w) ∷ d) p h = elim (Bool-cases (e.beq j k)) [
    | inl same ↦ rw same (p, h.1)
    | inr differ ↦ rw differ (h.0, insert-All P k v d p h.1)
  ]
