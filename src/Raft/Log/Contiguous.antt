-- ===== src/Raft/Log/Contiguous.antt =====
-- Logs whose entries are numbered one after the other, and what the positions of src/node.h mean in
-- them.
use ctx_db.Prelude.{
  true, ℕ, zero, suc, ◌+◌, ◌-◌, ◌≤◌, ◌<◌, ◌≡◌, refl, ap, sym, subst, length-take, List, [], ◌∷◌,
  ◌++◌, some, length, get_elem?, get_elem?-some, take, drop, arith, ◌⊎◌, inl, inr,
}
use ctx_db.Raft.Types.{RaftNode, LogEntry}
use ctx_db.Raft.Log.{
  base_of, last_index_of, entry_at, get_base_index, last_log_index, gl, sizes_agree,
}

-- The entries are numbered from i on.
abbrev pub NumberedFrom : ℕ → List LogEntry → Type 0
NumberedFrom i [] = Unit {0}
NumberedFrom i (e ∷ es) = (e.index ≡ i) × NumberedFrom (suc i) es

-- The entries are numbered from the first one on, and no index is the cursor -1.
abbrev pub IsContiguous : List LogEntry → Type 0
IsContiguous [] = Unit {0}
IsContiguous (e ∷ es) = (1 ≤ e.index) × NumberedFrom (suc e.index) es

pub NumberedFrom-append :
    (i : ℕ) (l k : List LogEntry)
    → NumberedFrom i l
    → NumberedFrom (i + length l) k
    → NumberedFrom i (l ++ k)
NumberedFrom-append i [] k h g = subst (λ j. NumberedFrom j k) (omega arith) g
NumberedFrom-append i (e ∷ es) k h g =
    (h.0, NumberedFrom-append (suc i) es k h.1 (subst (λ j. NumberedFrom j k) (omega arith) g))

pub NumberedFrom-take : (k i : ℕ) (l : List LogEntry) → NumberedFrom i l → NumberedFrom i (take k l)
NumberedFrom-take zero i l h = tt
NumberedFrom-take (suc k) i [] h = tt
NumberedFrom-take (suc k) i (e ∷ es) h = (h.0, NumberedFrom-take k (suc i) es h.1)

pub NumberedFrom-drop :
    (k i : ℕ) (l : List LogEntry) → NumberedFrom i l → NumberedFrom (i + k) (drop k l)
NumberedFrom-drop zero i l h = subst (λ j. NumberedFrom j l) (omega arith) h
NumberedFrom-drop (suc k) i [] h = tt
NumberedFrom-drop (suc k) i (e ∷ es) h =
    subst (λ j. NumberedFrom j (drop k es)) (omega arith) (NumberedFrom-drop k (suc i) es h.1)

last_index-NumberedFrom :
    (i : ℕ) (e : LogEntry) (es : List LogEntry)
    → NumberedFrom i (e ∷ es)
    → last_index_of (e ∷ es) ≡ i + length es
unfolding last_index_of
last_index-NumberedFrom i e [] h = omega arith
last_index-NumberedFrom i e (f ∷ fs) h = omega (arith, last_index-NumberedFrom (suc i) f fs h.1)

-- The last index is the base plus the length, less one: the assertion of `last_log_index`.
pub last_index-length :
    (l : List LogEntry) → IsContiguous l → last_index_of l + 1 ≡ base_of l + length l ⊎ (l ≡ [])
unfolding base_of
last_index-length [] h = inr refl
last_index-length (e ∷ es) h = inl (omega (arith, last_index-NumberedFrom e.index e es (refl, h.1)))

pub get_elem?-NumberedFrom :
    (i k : ℕ) (l : List LogEntry) (e : LogEntry)
    → NumberedFrom i l
    → get_elem? l k ≡ some e
    → e.index ≡ i + k
get_elem?-NumberedFrom i k [] e h g = ground arith
get_elem?-NumberedFrom i zero (f ∷ fs) e h g = ground arith
get_elem?-NumberedFrom i (suc k) (f ∷ fs) e h g =
    omega (arith, get_elem?-NumberedFrom (suc i) k fs e h.1 g)

pub entry_at-some :
    (l : List LogEntry) (i : ℕ)
    → IsContiguous l
    → 1 ≤ i
    → base_of l ≤ i
    → i ≤ last_index_of l
    → (e : LogEntry) × (entry_at l i ≡ some e) × (e.index ≡ i)
unfolding entry_at base_of last_index_of
entry_at-some [] i h p b u = absurd (omega arith)
entry_at-some (f ∷ fs) i h p b u =
    let last = last_index-NumberedFrom f.index f fs (refl, h.1) in
    let (e, found) = get_elem?-some (f ∷ fs) (i - f.index) (omega (arith, last)) in
    (
      e,
      ground (arith, found),
      omega (arith, get_elem?-NumberedFrom f.index (i - f.index) (f ∷ fs) e (refl, h.1) found),
    )

module _ {S : Type 0} where
  -- In a log numbered one by one, `gl` finds an entry at every index from the base to the last one,
  -- and it is the entry with that index: neither the assertion fails nor the vector is overrun.
  pub gl_found :
      (n : RaftNode S) (i : ℕ)
      → IsContiguous n.logs
      → 1 ≤ i
      → get_base_index n ≤ i
      → i ≤ last_log_index n
      → (e : LogEntry) × (gl n i ≡ some e) × (e.index ≡ i)
  unfolding gl get_base_index last_log_index
  gl_found n i h p b u = entry_at-some n.logs i h p b u

pub IsContiguous-NumberedFrom :
    (i : ℕ) (l : List LogEntry) → 1 ≤ i → NumberedFrom i l → IsContiguous l
IsContiguous-NumberedFrom i [] p h = tt
IsContiguous-NumberedFrom i (e ∷ es) p h =
    (omega arith, subst (λ j. NumberedFrom (suc j) es) (sym h.0) h.1)

pub take-nil : (k : ℕ) → take {A = LogEntry} k [] ≡ []
take-nil zero = refl
take-nil (suc k) = refl

-- The log kept up to index p and followed by entries numbered from p + 1.
pub IsContiguous-take :
    (l es : List LogEntry) (p : ℕ)
    → IsContiguous l
    → base_of l ≤ p
    → p ≤ last_index_of l
    → NumberedFrom (p + 1) es
    → IsContiguous (take (p + 1 - base_of l) l ++ es)
unfolding base_of last_index_of
IsContiguous-take [] es p c lo hi h =
    rw (take-nil (p + 1 - 0)) (IsContiguous-NumberedFrom (p + 1) es (omega arith) h)
IsContiguous-take (f ∷ fs) es p c lo hi h =
    let k = p + 1 - f.index in
    let last = last_index-NumberedFrom f.index f fs (refl, c.1) in
    let full : length (take k (f ∷ fs)) ≡ k = omega (arith, length-take k (f ∷ fs), last) in
    IsContiguous-NumberedFrom f.index (take k (f ∷ fs) ++ es) c.0 (
      NumberedFrom-append f.index (take k (f ∷ fs)) es
        (NumberedFrom-take k f.index (f ∷ fs) (refl, c.1))
        (subst (λ j. NumberedFrom j es) (omega (arith, full)) h))

pub take_all : (k : ℕ) (l : List LogEntry) → length l ≤ k → take k l ≡ l
take_all zero [] h = refl
take_all zero (e ∷ es) h = absurd (omega arith)
take_all (suc k) [] h = refl
take_all (suc k) (e ∷ es) h = ap (◌∷◌ e) (take_all k es (omega arith))

-- Up to the last index the whole log is kept.
pub take-last :
    (l : List LogEntry) (p : ℕ)
    → IsContiguous l
    → last_index_of l ≤ p
    → take (p + 1 - base_of l) l ≡ l
unfolding base_of last_index_of
take-last [] p c h = take_all (p + 1 - 0) [] (omega arith)
take-last (f ∷ fs) p c h =
    take_all (p + 1 - f.index) (f ∷ fs)
      (omega (arith, last_index-NumberedFrom f.index f fs (refl, c.1)))

-- A step along the list.
pub take-drop_step :
    (l : List LogEntry) (k i : ℕ)
    → i < length l
    → (e : LogEntry) × (get_elem? l i ≡ some e)
      × (take (suc k) (drop i l) ≡ e ∷ take k (drop (suc i) l))
take-drop_step [] k i h = elim h [ ]
take-drop_step (e ∷ es) k zero h = (e, refl, refl)
take-drop_step (e ∷ es) k (suc i) h = take-drop_step es k i (omega arith)

module _ {S : Type 0} where
  -- The assertion of `last_log_index` holds in a log numbered one by one.
  pub IsContiguous-sizes_agree : (n : RaftNode S) → IsContiguous n.logs → sizes_agree n ≡ true
  unfolding sizes_agree get_base_index last_log_index
  IsContiguous-sizes_agree n c = elim (last_index-length n.logs c) [
    | inl size ↦ ground (arith, size)
    | inr empty ↦ unfold base_of in ground (arith, ap base_of empty)
  ]

  pub gl-get_elem? :
      (l : List LogEntry) (n : RaftNode S) (i : ℕ)
      → n.logs ≡ l
      → base_of l ≤ i
      → gl n i ≡ get_elem? l (i - base_of l)
  unfolding gl entry_at
  gl-get_elem? l n i same lo = rw same (ground arith)

pub last_index-append : (l : List LogEntry) (e : LogEntry) → last_index_of (l ++ e ∷ []) ≡ e.index
unfolding last_index_of
last_index-append [] e = refl
last_index-append (f ∷ []) e = refl
last_index-append (f ∷ g ∷ fs) e = last_index-append (g ∷ fs) e

-- One more entry behind the last one.
pub IsContiguous-append_last :
    (l : List LogEntry) (e : LogEntry)
    → IsContiguous l
    → e.index ≡ last_index_of l + 1
    → IsContiguous (l ++ e ∷ [])
unfolding last_index_of
IsContiguous-append_last [] e c h = (omega arith, tt)
IsContiguous-append_last (f ∷ fs) e c h = (
  c.0,
  NumberedFrom-append (suc f.index) fs (e ∷ []) c.1
      (omega (arith, h, last_index-NumberedFrom f.index f fs (refl, c.1)), tt),
)
