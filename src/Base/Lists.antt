-- ===== src/Base/Lists.antt =====
-- Lists measured by native numbers, and a predicate on all members.
use Prim.Native.Nat.{ℕ, zero, suc, ◌+◌, ◌≤◌, min}
use mathlib.Core.Logic.{◌≢◌, ◌⊎◌, inl, inr}
use mathlib.Core.List.{List, [], ◌∷◌, ◌++◌}
use mathlib.Core.Option.{Option, none, some}
use mathlib.Core.Path.{◌≡◌, refl, ap}
use native.Mathlib.Omega.{arith}

module _ {ℓ} {A : Type ℓ} where
  abbrev pub length : List A → ℕ
  length [] = 0
  length (x ∷ xs) = suc (length xs)

  abbrev pub take : ℕ → List A → List A
  take zero xs = []
  take (suc n) [] = []
  take (suc n) (x ∷ xs) = x ∷ take n xs

  pub length-append : (xs ys : List A) → length (xs ++ ys) ≡ length xs + length ys
  length-append [] ys = omega arith
  length-append (x ∷ xs) ys = omega (arith, length-append xs ys)

  pub length-take : (n : ℕ) (xs : List A) → length (take n xs) ≡ min n (length xs)
  length-take zero xs = omega arith
  length-take (suc n) [] = omega arith
  length-take (suc n) (x ∷ xs) = omega (arith, length-take n xs)

  abbrev pub All {κ} : (A → Type κ) → List A → Type κ
  All P [] = Unit
  All P (x ∷ xs) = P x × All P xs

  pub All-append {κ} : (P : A → Type κ) (xs ys : List A) → All P xs → All P ys → All P (xs ++ ys)
  All-append P [] ys hx hy = hy
  All-append P (x ∷ xs) ys hx hy = (hx.0, All-append P xs ys hx.1 hy)

  pub All-mono {κ μ} :
      (P : A → Type κ) (Q : A → Type μ)
      → ((x : A) → P x → Q x)
      → (xs : List A) → All P xs
      → All Q xs
  All-mono P Q f [] h = tt
  All-mono P Q f (x ∷ xs) h = (f x h.0, All-mono P Q f xs h.1)

module _ {ℓ} {A : Type ℓ} where
  abbrev pub get_elem? : List A → ℕ → Option A
  get_elem? [] i = none
  get_elem? (x ∷ xs) zero = some x
  get_elem? (x ∷ xs) (suc i) = get_elem? xs i

  -- A write out of bounds changes nothing.
  abbrev pub set : List A → ℕ → A → List A
  set [] i v = []
  set (x ∷ xs) zero v = v ∷ xs
  set (x ∷ xs) (suc i) v = x ∷ set xs i v

  -- the sum of a weight over a list
  abbrev pub total : (A → ℕ) → List A → ℕ
  total w [] = 0
  total w (x ∷ xs) = w x + total w xs

  pub total-set :
      (w : A → ℕ) (xs : List A) (i : ℕ) (v : A) {x : A}
      → get_elem? xs i ≡ some x
      → total w (set xs i v) + w x ≡ total w xs + w v
  total-set w [] i v h = absurd (cc)
  total-set w (x ∷ xs) zero v h = ground arith
  total-set w (x ∷ xs) (suc i) v {x = y} h = omega (arith, total-set w xs i v {x = y} h)

  pub total-ge :
      (w : A → ℕ) (xs : List A) (i : ℕ) {x : A} → get_elem? xs i ≡ some x → w x ≤ total w xs
  total-ge w [] i h = absurd (cc)
  total-ge w (x ∷ xs) zero h = ground arith
  total-ge w (x ∷ xs) (suc i) {x = y} h = omega (arith, total-ge w xs i {x = y} h)

  -- Two positions of weight 1 make a total of 2.
  pub total-two :
      (w : A → ℕ) (xs : List A) (i j : ℕ) {x y : A}
      → get_elem? xs i ≡ some x
      → get_elem? xs j ≡ some y
      → w x ≡ 1
      → w y ≡ 1
      → total w xs ≤ 1
      → i ≡ j
  total-two w [] i j h k p q b = absurd (cc)
  total-two w (x ∷ xs) zero zero h k p q b = refl
  total-two w (x ∷ xs) zero (suc j) {y = y} h k p q b =
      absurd (ground (arith, total-ge w xs j {x = y} k))
  total-two w (x ∷ xs) (suc i) zero {x = z} h k p q b =
      absurd (ground (arith, total-ge w xs i {x = z} h))
  total-two w (x ∷ xs) (suc i) (suc j) h k p q b = ap suc (total-two w xs i j h k p q (omega arith))

  -- What stands in a list behind a write.
  pub get_elem?-set :
      (xs : List A) (i j : ℕ) (v : A) {x : A}
      → get_elem? (set xs i v) j ≡ some x
      → ((i ≡ j) × (v ≡ x)) ⊎ ((i ≢ j) × (get_elem? xs j ≡ some x))
  get_elem?-set [] i j v h = absurd (cc)
  get_elem?-set (y ∷ xs) zero zero v h = inl (refl, cc)
  get_elem?-set (y ∷ xs) zero (suc j) v h = inr (λ e. omega (arith, e), h)
  get_elem?-set (y ∷ xs) (suc i) zero v h = inr (λ e. omega (arith, e), h)
  get_elem?-set (y ∷ xs) (suc i) (suc j) v {x = x} h = elim (get_elem?-set xs i j v {x = x} h) [
    | inl (e, f) ↦ inl (ap suc e, f)
    | inr (n, f) ↦ inr (λ e. n (omega (arith, e)), f)
  ]

  pub get_elem?-set_same :
      (xs : List A) (i : ℕ) (v : A) {x : A}
      → get_elem? xs i ≡ some x
      → get_elem? (set xs i v) i ≡ some v
  get_elem?-set_same [] i v h = absurd (cc)
  get_elem?-set_same (y ∷ xs) zero v h = refl
  get_elem?-set_same (y ∷ xs) (suc i) v {x = x} h = get_elem?-set_same xs i v {x = x} h

  pub get_elem?-set_other :
      (xs : List A) (i j : ℕ) (v : A) → i ≢ j → get_elem? (set xs i v) j ≡ get_elem? xs j
  get_elem?-set_other [] i j v n = refl
  get_elem?-set_other (y ∷ xs) zero zero v n = absurd (n refl)
  get_elem?-set_other (y ∷ xs) zero (suc j) v n = refl
  get_elem?-set_other (y ∷ xs) (suc i) zero v n = refl
  get_elem?-set_other (y ∷ xs) (suc i) (suc j) v n =
      get_elem?-set_other xs i j v (λ e. n (ap suc e))
