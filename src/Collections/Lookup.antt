-- ===== src/Collections/Lookup.antt =====
-- What a lookup finds after the other operations on the maps and sets of the servers.
use ctx_db.Prelude.{
  ℕ, ◌≡◌, ◌≢◌, refl, inl, inr, true, List, [], ◌∷◌, some, Text, same, same_iff, same_refl, arith,
  ◌==◌, Bool-cases,
}
use ctx_db.Collections.{lookup, get_or, put, erase, keys, lookup_text, put_text, member, insert}

module _ {ℓ} {V : Type ℓ} where
  pub get_or-put_self : (d v : V) (k : ℕ) (m : List (ℕ × V)) → get_or d k (put k v m) ≡ v
  unfolding get_or put
  get_or-put_self d v k [] = ground arith
  get_or-put_self d v k ((j, w) ∷ m) = ground (arith, get_or-put_self d v k m)

  pub get_or-put_other :
      (d v : V) (k i : ℕ) (m : List (ℕ × V)) → i ≢ k → get_or d i (put k v m) ≡ get_or d i m
  unfolding get_or put
  get_or-put_other d v k i [] h = ground arith
  get_or-put_other d v k i ((j, w) ∷ m) h = ground (arith, get_or-put_other d v k i m h)

  pub lookup-put_self : (v : V) (k : ℕ) (m : List (ℕ × V)) → lookup k (put k v m) ≡ some v
  unfolding lookup put
  lookup-put_self v k [] = ground arith
  lookup-put_self v k ((j, w) ∷ m) = ground (arith, lookup-put_self v k m)

  pub lookup-put_other :
      (v : V) (k i : ℕ) (m : List (ℕ × V)) → i ≢ k → lookup i (put k v m) ≡ lookup i m
  unfolding lookup put
  lookup-put_other v k i [] h = ground arith
  lookup-put_other v k i ((j, w) ∷ m) h = ground (arith, lookup-put_other v k i m h)

  pub lookup-erase_other : (k i : ℕ) (m : List (ℕ × V)) → i ≢ k → lookup i (erase k m) ≡ lookup i m
  unfolding lookup erase
  lookup-erase_other k i [] h = refl
  lookup-erase_other k i ((j, w) ∷ m) h = ground (arith, lookup-erase_other k i m h)

  pub member-keys-erase :
      (g k : ℕ) (m : List (ℕ × V))
      → member g (keys (erase k m)) ≡ true
      → (member g (keys m) ≡ true) × (g ≢ k)
  unfolding member erase
  member-keys-erase g k [] h = cc
  member-keys-erase g k ((j, w) ∷ m) h = elim (Bool-cases (j == k)) [
    | inl same_key ↦
        let rest = member-keys-erase g k m (ground (arith, same_key)) in
        (ground (arith, rest.0), rest.1)
    | inr other ↦ elim (Bool-cases (j == g)) [
      | inl here ↦ (ground arith, λ e. ground (arith, e))
      | inr later ↦
          let rest = member-keys-erase g k m (ground (arith, other, later)) in
          (ground (arith, rest.0), rest.1)
    ]
  ]

  pub lookup_text-put_text_self :
      (v : V) (k : Text) (m : List (Text × V)) → lookup_text k (put_text k v m) ≡ some v
  unfolding lookup_text put_text
  lookup_text-put_text_self v k [] = rw (same_refl k) refl
  lookup_text-put_text_self v k ((j, w) ∷ m) = elim (Bool-cases (same j k)) [
    | inl here ↦ rw (here, same_refl k) refl
    | inr later ↦ rw (later, later) (lookup_text-put_text_self v k m)
  ]

  pub lookup_text-put_text_other :
      (v : V) (k i : Text) (m : List (Text × V))
      → i ≢ k
      → lookup_text i (put_text k v m) ≡ lookup_text i m
  unfolding lookup_text put_text
  lookup_text-put_text_other v k i [] h = ground (arith, same_iff k i)
  lookup_text-put_text_other v k i ((j, w) ∷ m) h =
      ground (arith, same_iff j k, same_iff k i, lookup_text-put_text_other v k i m h)

pub member-insert_self : (k : ℕ) (l : List ℕ) → member k (insert k l) ≡ true
unfolding member insert
member-insert_self k [] = ground arith
member-insert_self k (j ∷ js) = ground (arith, member-insert_self k js)
