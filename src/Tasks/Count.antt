-- ===== src/Tasks/Count.antt =====
-- How many workers stand somewhere, after one of them moves (src/Nuke/thread_pool.h).
use ctx_db.Prelude.{
  ℕ, zero, suc, ◌+◌, ◌≤◌, ◌<◌, ◌≡◌, refl, ap, inl, inr, Bool, true, false, List, [], ◌∷◌, map, some,
  arith, get_elem?, set, count, length, replicate, Bool-cases,
}

abbrev pub one_if : Bool → ℕ
one_if true = 1
one_if false = 0

module _ {A : Type 0} (p : A → Bool) where
  count-cons : (x : A) (xs : List A) → count p (x ∷ xs) ≡ one_if (p x) + count p xs
  count-cons x xs = ground arith

  pub count-set :
      (xs : List A) (i : ℕ) (a b : A)
      → get_elem? xs i ≡ some a
      → count p (set xs i b) + one_if (p a) ≡ count p xs + one_if (p b)
  count-set [] i a b h = cc
  count-set (x ∷ xs) zero a b h =
      let same_x : x ≡ a = ground arith in
      omega (arith, count-cons x xs, count-cons b xs, ap (λ (y : A). one_if (p y)) same_x)
  count-set (x ∷ xs) (suc i) a b h =
      omega (arith, count-cons x xs, count-cons x (set xs i b), count-set xs i a b h)

  pub count-le-length : (xs : List A) → count p xs ≤ length xs
  count-le-length [] = omega arith
  count-le-length (x ∷ xs) = ground (arith, count-le-length xs)

  -- A list with fewer elements that pass than elements has one that does not.
  pub find_failing :
      (xs : List A)
      → count p xs < length xs
      → (i : ℕ) × (a : A) × (get_elem? xs i ≡ some a) × (p a ≡ false)
  find_failing [] h = absurd (omega arith)
  find_failing (x ∷ xs) h = elim (Bool-cases (p x)) [
    | inr e ↦ (0, x, refl, e)
    | inl e ↦
        let (i, a, at, fails) = find_failing xs (omega (arith, count-cons x xs, ap one_if e)) in
        (suc i, a, at, fails)
  ]

  pub find_passing :
      (xs : List A) → 0 < count p xs → (i : ℕ) × (a : A) × (get_elem? xs i ≡ some a) × (p a ≡ true)
  find_passing [] h = absurd (omega arith)
  find_passing (x ∷ xs) h = elim (Bool-cases (p x)) [
    | inl e ↦ (0, x, refl, e)
    | inr e ↦
        let (i, a, at, holds) = find_passing xs (omega (arith, count-cons x xs, ap one_if e)) in
        (suc i, a, at, holds)
  ]

  -- Where none passes, the one at an index does not.
  pub count-member :
      (xs : List A) (i : ℕ) (a : A) → get_elem? xs i ≡ some a → count p xs ≡ 0 → p a ≡ false
  count-member [] i a h none_passes = cc
  count-member (x ∷ xs) zero a h none_passes = ground arith
  count-member (x ∷ xs) (suc i) a h none_passes =
      count-member xs i a h (omega (arith, count-cons x xs))

  pub count-replicate : (n : ℕ) (a : A) → p a ≡ false → count p (replicate n a) ≡ 0
  count-replicate zero a h = refl
  count-replicate (suc n) a h = rw h (count-replicate n a h)

  -- A map that does not change the test.
  pub count-map :
      (f : A → A) (xs : List A) → ((a : A) → p (f a) ≡ p a) → count p (map f xs) ≡ count p xs
  count-map f [] h = refl
  count-map f (x ∷ xs) h =
      omega (arith, count-cons x xs, count-cons (f x) (map f xs), ap one_if (h x), count-map f xs h)

pub length-map {ℓ} : {A : Type ℓ} (f : A → A) (xs : List A) → length (map f xs) ≡ length xs
length-map f [] = refl
length-map f (x ∷ xs) = ap suc (length-map f xs)
