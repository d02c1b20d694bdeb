-- ===== src/Shardkv/Pairs.antt =====
-- The pairs of a store on their way between two groups (src/shardkv_server.cpp).
use ctx_db.Prelude.{
  ◌≡◌, ◌≢◌, refl, sym, ap, ◌∙◌, inl, inr, false, List, [], ◌∷◌, none, some, Text, same, same→eq,
  same_refl, same_iff, arith, Bool-cases, if_true, if_false, if◌then◌else◌,
}
use ctx_db.Collections.{lookup_text, put_text}
use ctx_db.Collections.Lookup.{lookup_text-put_text_self, lookup_text-put_text_other}
use ctx_db.Shardkv.{store_pairs}

-- No key stands twice.
abbrev pub DistinctKeys : List (Text × Text) → Type 0
DistinctKeys [] = Unit {0}
DistinctKeys ((k, v) ∷ m) = (lookup_text k m ≡ none) × DistinctKeys m

pub lookup_text-put_text :
    (j k v : Text) (m : List (Text × Text))
    → lookup_text k (put_text j v m) ≡ (if same j k then some v else lookup_text k m)
lookup_text-put_text j k v m = elim (Bool-cases (same j k)) [
  | inl here ↦
      let at = same→eq j k here in
      ap (λ i. lookup_text i (put_text j v m)) (sym at)
      ∙ lookup_text-put_text_self v j m
      ∙ sym (if_true (lookup_text k m) here)
  | inr later ↦
      let other : k ≢ j = λ e. ground (arith, later, e, same_refl j) in
      lookup_text-put_text_other v j k m other ∙ sym (if_false (some v) later)
]

pub put_text-DistinctKeys :
    (j v : Text) (m : List (Text × Text)) → DistinctKeys m → DistinctKeys (put_text j v m)
unfolding put_text lookup_text
put_text-DistinctKeys j v [] d = (refl, tt)
put_text-DistinctKeys j v ((i, w) ∷ m) d = elim (Bool-cases (same i j)) [
  | inl here ↦ rw here (ap (λ k. lookup_text k m) (sym (same→eq i j here)) ∙ d.0, d.1)
  | inr later ↦
      let turned : same j i ≡ false = ground (arith, later, same_iff i j, same_iff j i) in
      rw later (
        lookup_text-put_text j i v m ∙ if_false (some v) turned ∙ d.0,
        put_text-DistinctKeys j v m d.1,
      )
]

pub store_pairs-DistinctKeys :
    (ps m : List (Text × Text)) → DistinctKeys m → DistinctKeys (store_pairs ps m)
unfolding store_pairs
store_pairs-DistinctKeys [] m d = d
store_pairs-DistinctKeys ((j, v) ∷ ps) m d =
    store_pairs-DistinctKeys ps (put_text j v m) (put_text-DistinctKeys j v m d)
