-- ===== src/Raft/Append/Revoke.antt =====
-- How far the revocation of a term goes (`on_append_entries_request`, src/node_rpc_a.cpp).
use ctx_db.Prelude.{
  ◌+◌, none, ◌<◌, true, ℕ, zero, suc, ◌≤◌, ◌<◌, ◌≡◌, refl, ap, inl, inr, ◌⊎◌, true, false, List,
  Option, some, arith, max, ◌==◌, Bool-cases,
}
use native.Mathlib.Decide.{dec_lt}
use ctx_db.Raft.Types.{RaftNode, LogEntry, AppendEntriesRequest}
use ctx_db.Raft.Log.{base_of, get_base_index, last_log_index, entry_at, gl}
use ctx_db.Raft.Log.Contiguous.{IsContiguous, gl_found}
use ctx_db.Raft.Append.{revoke}

abbrev pub Succeeds : {A : Type 0} → Option A → Type 0
Succeeds {A} o = (a : A) × (o ≡ some a)

-- Where the revocation of a term stops, at the latest: at the start of all logs, or at the first
-- entry, of another term.
abbrev pub Stops : List LogEntry → ℕ → Type 0
Stops l wrong =
    (base_of l ≤ 1)
    ⊎ ((e : LogEntry) × (entry_at l (base_of l) ≡ some e) × ((e.term == wrong) ≡ false))

-- Where the entry at `prev_log_index` conflicts with the leader's, its term can be revoked.
abbrev pub CanRevoke : AppendEntriesRequest → List LogEntry → Type 0
CanRevoke r l =
    (e : LogEntry)
    → base_of l < r.prev_log_index
    → entry_at l r.prev_log_index ≡ some e
    → (r.prev_log_term == e.term) ≡ false
    → Stops l e.term

module _ {S : Type 0} where
  base-Stops :
      (n : RaftNode S) (wrong i : ℕ) (e : LogEntry)
      → get_base_index n ≤ suc i
      → gl n (suc i) ≡ some e
      → (e.term == wrong) ≡ true
      → Stops n.logs wrong
      → get_base_index n ≤ max 1 i
  unfolding gl get_base_index
  base-Stops n wrong i e lo found again (inl whole) = omega arith
  base-Stops n wrong i e lo found again (inr (f, first, other)) =
      elim (dec_lt i (get_base_index n)) [
        | no below ↦ omega arith
        | yes at ↦
            let position : get_base_index n ≡ suc i = omega arith in
            let same : f ≡ e = ground (arith, first, found, ap (gl n) position) in
            absurd (ground (arith, again, other, same))
      ]

  pub revoke-some :
      (n : RaftNode S) (wrong i : ℕ)
      → IsContiguous n.logs
      → get_base_index n ≤ max 1 i
      → i ≤ last_log_index n
      → Stops n.logs wrong
      → Succeeds (revoke n wrong i)
  unfolding revoke
  revoke-some n wrong zero c lo hi stops = (_, refl)
  revoke-some n wrong (suc i) c lo hi stops =
      let (e, found, index) = gl_found n (suc i) c (omega arith) (omega arith) hi in
      elim (Bool-cases (e.term == wrong)) [
        | inl again ↦
            rw (found, again)
              (revoke-some n wrong i c (base-Stops n wrong i e (omega arith) found again stops)
                (omega arith) stops)
        | inr other ↦ rw (found, other) (_, refl)
      ]

-- Up to index i, all entries are of one term.
abbrev pub AllOfTerm : ℕ → ℕ → List LogEntry → Type 0
AllOfTerm i wrong l =
    (j : ℕ) (e : LogEntry)
    → base_of l ≤ j
    → j ≤ i
    → entry_at l j ≡ some e
    → (e.term == wrong) ≡ true

module _ {S : Type 0} where
  gl_behind : (n : RaftNode S) (i : ℕ) → i < get_base_index n → gl n i ≡ none
  unfolding gl entry_at get_base_index
  gl_behind n i lt = ground arith

  pub revoke-none :
      (n : RaftNode S) (wrong i : ℕ)
      → IsContiguous n.logs
      → 2 ≤ get_base_index n
      → get_base_index n ≤ i + 1
      → i ≤ last_log_index n
      → AllOfTerm i wrong n.logs
      → revoke n wrong i ≡ none
  unfolding revoke gl get_base_index
  revoke-none n wrong zero c two lo hi all = absurd (omega arith)
  revoke-none n wrong (suc i) c two lo hi all = elim (dec_lt (suc i) (get_base_index n)) [
    | yes behind ↦ rw (gl_behind n (suc i) behind) refl
    | no inside ↦
        let (e, found, index) = gl_found n (suc i) c (omega arith) (omega arith) hi in
        rw (found, all (suc i) e (omega arith) (omega arith) found)
          (revoke-none n wrong i c two (omega arith) (omega arith)
            (λ j f l u. all j f l (omega arith)))
  ]
