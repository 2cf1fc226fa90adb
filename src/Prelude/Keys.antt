-- ===== src/Prelude/Keys.antt =====
-- Lists of rows with a numeric key: distinct keys, fresh keys, and which keys are there.
use Prim.Native.Nat.{ℕ, ◌+◌, ◌≤◌, ◌<◌}
use mathlib.Core.Path.{◌≡◌, refl}
use mathlib.Core.Logic.{inl, inr}
use mathlib.Core.List.{List, [], ◌∷◌, map}
use mathlib.Core.Bool.{Bool, true, false, not, ◌&&◌}
use native.Mathlib.Omega.{arith}
use snowgo.Prelude.Tests.{if◌then◌else◌, ◌==◌, Bool-cases}
use snowgo.Prelude.Lists.{length, any, filter, count_if, contains, All, Distinct}

count_if-single-missing :
    (i : ℕ) (xs : List ℕ) → contains xs i ≡ false → count_if (λ x. i == x) xs ≡ 0
count_if-single-missing i [] h = refl
count_if-single-missing i (x ∷ xs) h = ground (arith, count_if-single-missing i xs)

count_if-single : (i : ℕ) (xs : List ℕ) → Distinct xs → count_if (λ x. i == x) xs ≤ 1
count_if-single i [] h = omega arith
count_if-single i (x ∷ xs) h = ground (
  arith,
  count_if-single i xs h.1,
  count_if-single-missing x xs h.0,
  count_if-single-missing i xs,
)

count_if-contains :
    (i : ℕ) (is xs : List ℕ)
    → count_if (contains (i ∷ is)) xs ≤ count_if (λ x. i == x) xs + count_if (contains is) xs
count_if-contains i is [] = omega arith
count_if-contains i is (x ∷ xs) = ground (arith, count_if-contains i is xs)

count_if-contains-nil : (xs : List ℕ) → count_if (contains []) xs ≡ 0
count_if-contains-nil [] = refl
count_if-contains-nil (x ∷ xs) = count_if-contains-nil xs

count_if-contains-le : (is xs : List ℕ) → Distinct xs → count_if (contains is) xs ≤ length is
count_if-contains-le [] xs h = omega (arith, count_if-contains-nil xs)
count_if-contains-le (i ∷ is) xs h =
    omega (arith, count_if-contains i is xs, count_if-single i xs h, count_if-contains-le is xs h)

-- As many distinct numbers are listed as the list is long: every one listed is there.
pub count_if-contains-All :
    (is xs : List ℕ)
    → Distinct xs
    → count_if (contains is) xs ≡ length is
    → All (λ i. contains xs i ≡ true) is
count_if-contains-All [] xs h e = tt
count_if-contains-All (i ∷ is) xs h e = elim (Bool-cases (contains xs i)) [
  | inl y ↦ (
    y,
    count_if-contains-All is xs h (
        omega (
          arith,
          e,
          count_if-contains i is xs,
          count_if-single i xs h,
          count_if-contains-le is xs h,
        )),
  )
  | inr n ↦ absurd (
      omega (
        arith,
        e,
        count_if-contains i is xs,
        count_if-single-missing i xs n,
        count_if-contains-le is xs h,
      ))
]

pub fresh : (n : ℕ) (xs : List ℕ) → All (λ i. i < n) xs → contains xs n ≡ false
fresh n [] h = refl
fresh n (x ∷ xs) h = ground (arith, fresh n xs h.1)

-- What holds of all still does when it follows.
pub All-weaken {ℓ κ μ} :
    {A : Type ℓ} (P : A → Type κ) (Q : A → Type μ) (xs : List A)
    → ((x : A) → P x → Q x)
    → All P xs
    → All Q xs
All-weaken P Q [] f h = tt
All-weaken P Q (x ∷ xs) f h = (f x h.0, All-weaken P Q xs f h.1)

pub All-filter {ℓ κ} :
    {A : Type ℓ} (P : A → Type κ) (q : A → Bool) (xs : List A) → All P xs → All P (filter q xs)
All-filter P q [] h = tt
All-filter P q (x ∷ xs) h =
    elim (q x) as (λ b. All P (if b then x ∷ filter q xs else filter q xs)) [
      | true ↦ (h.0, All-filter P q xs h.1)
      | false ↦ All-filter P q xs h.1
    ]

module _ {A : Type 0} (key : A → ℕ) where
  pub count_if-map :
      (p : ℕ → Bool) (xs : List A) → count_if (λ x. p (key x)) xs ≡ count_if p (map key xs)
  count_if-map p [] = refl
  count_if-map p (x ∷ xs) = grind (arith, count_if-map p xs)

  -- The keys after a delete by key.
  pub contains-filter :
      (k i : ℕ) (xs : List A)
      → contains (map key (filter (λ x. not (key x == k)) xs)) i
        ≡ (contains (map key xs) i && not (i == k))
  contains-filter k i [] = refl
  contains-filter k i (x ∷ xs) = ground (arith, contains-filter k i xs)

  pub Distinct-filter :
      (k : ℕ) (xs : List A)
      → Distinct (map key xs)
      → Distinct (map key (filter (λ x. not (key x == k)) xs))
  Distinct-filter k [] h = tt
  Distinct-filter k (x ∷ xs) h =
      ground (arith, Distinct-filter k xs h.1, contains-filter k (key x) xs)

  pub All-keys-filter {κ} :
      (P : ℕ → Type κ) (q : A → Bool) (xs : List A)
      → All P (map key xs)
      → All P (map key (filter q xs))
  All-keys-filter P q [] h = tt
  All-keys-filter P q (x ∷ xs) h =
      elim (q x) as (λ b. All P (map key (if b then x ∷ filter q xs else filter q xs))) [
        | true ↦ (h.0, All-keys-filter P q xs h.1)
        | false ↦ All-keys-filter P q xs h.1
      ]

  -- A change of rows that keeps their keys.
  pub keys_kept :
      (f : A → A) → ((x : A) → key (f x) ≡ key x) → (xs : List A) → map key (map f xs) ≡ map key xs
  keys_kept f e [] = refl
  keys_kept f e (x ∷ xs) = ground (arith, e x, keys_kept f e xs)

  -- The keys of a table in which k has been deleted, seen from rows that do not use it.
  pub All-known-filter :
      {B : Type 0} (ref : B → ℕ) (k : ℕ) (xs : List A) (rs : List B)
      → any (λ r. ref r == k) rs ≡ false
      → All (λ r. contains (map key xs) (ref r) ≡ true) rs
      → All (λ r. contains (map key (filter (λ x. not (key x == k)) xs)) (ref r) ≡ true) rs
  All-known-filter ref k xs [] n h = tt
  All-known-filter ref k xs (r ∷ rs) n h = (
    ground (arith, contains-filter k (ref r) xs),
    All-known-filter ref k xs rs (ground arith) h.1,
  )

pub All-map {ℓ κ μ} :
    {A : Type ℓ} {B : Type κ} (P : B → Type μ) (f : A → B) (xs : List A)
    → All (λ x. P (f x)) xs
    → All P (map f xs)
All-map P f [] h = tt
All-map P f (x ∷ xs) h = (h.0, All-map P f xs h.1)
