-- ===== src/Raft/Append/Steps.antt =====
-- When the steps of an accepted request meet no assertion that fails (src/node_rpc_a.cpp).
use ctx_db.Prelude.{
  ℕ, zero, suc, ◌+◌, ◌-◌, ◌≤◌, ◌≡◌, refl, sym, ap, inl, inr, false, ◌&&◌, List, [], ◌∷◌, ◌++◌, some,
  take, arith, max, min, leb, ltb, ◌==◌, Bool-cases, leb→le, subst, All, get_elem?, if◌then◌else◌,
}
use ctx_db.Raft.Types.{
  RaftNode, LogEntry, Env, AppendEntriesRequest, nuft_cmd_trans, nuft_cmd_trans_new,
}
use ctx_db.Raft.Log.{base_of, last_index_of, get_base_index, last_log_index, entry_at, gl}
use ctx_db.Raft.Log.Contiguous.{
  IsContiguous, IsContiguous-sizes_agree, NumberedFrom, gl_found, take-nil,
}
use ctx_db.Raft.Frame.{on_new-SameCore}
use ctx_db.Raft.Change.{on_update_configuration_new}
use ctx_db.Raft.Apply.{Callbacks}
use ctx_db.Raft.Apply.Exact.{do_apply_exact}
use ctx_db.Raft.Append.{scan_configurations, replace_after, follow_commit, accept_entries}
use ctx_db.Raft.Append.Replace.{logs-replace_after, replace_after-IsContiguous, follow_commit-lem}
use ctx_db.Raft.Append.Revoke.{Succeeds}

-- The entry does not begin a change of the configuration.
abbrev pub IsPlain : LogEntry → Type 0
IsPlain e = (e.command == nuft_cmd_trans) ≡ false

get_elem?-All :
    (P : LogEntry → Type 0) (l : List LogEntry) (k : ℕ) (e : LogEntry)
    → All P l
    → get_elem? l k ≡ some e
    → P e
get_elem?-All P [] k e h found = absurd (ground (arith, found))
get_elem?-All P (f ∷ fs) zero e h found = subst P (ground (arith, found)) h.0
get_elem?-All P (f ∷ fs) (suc k) e h found = get_elem?-All P fs k e h.1 found

module _ {S : Type 0} where
  pub gl-All :
      (P : LogEntry → Type 0) (n : RaftNode S) (i : ℕ) (e : LogEntry)
      → All P n.logs
      → gl n i ≡ some e
      → P e
  unfolding gl entry_at
  gl-All P n i e h found = elim (Bool-cases (leb (base_of n.logs) i)) [
    | inl at ↦ get_elem?-All P n.logs (i - base_of n.logs) e h (rw at at found)
    | inr out ↦ absurd (ground (arith, out, found))
  ]

  scan-some :
      (prev i : ℕ) (n : RaftNode S)
      → IsContiguous n.logs
      → i ≤ last_log_index n
      → All IsPlain n.logs
      → Succeeds (scan_configurations prev i n)
  unfolding scan_configurations last_log_index
  scan-some prev zero n c hi plain = (n, refl)
  scan-some prev (suc i) n c hi plain =
      elim (Bool-cases (leb (max 1 prev) (suc i) && leb (get_base_index n) (suc i))) [
        | inr stop ↦ rw stop (n, refl)
        | inl more ↦
            let (e, found, index) = gl_found n (suc i) c (omega arith) (ground (arith, more)) hi in
            let other = gl-All IsPlain n (suc i) e plain found in
            let next =
              if e.command == nuft_cmd_trans_new then on_update_configuration_new e n else n in
            let same : next.logs ≡ n.logs = ground (arith, on_new-SameCore e n) in
            rw (more, found, other)
              (scan-some prev i next (subst IsContiguous (sym same) c)
                (ground (arith, hi, ap last_index_of same)) (subst (All IsPlain) (sym same) plain))
      ]

take-All :
    (P : LogEntry → Type 0) (k : ℕ) (l es : List LogEntry)
    → All P l
    → All P es
    → All P (take k l ++ es)
take-All P zero l es h g = g
take-All P (suc k) [] es h g = g
take-All P (suc k) (e ∷ l) es h g = (h.0, take-All P k l es h.1 g)

-- The first index stays, where there was one.
take-base :
    (l es : List LogEntry) (p : ℕ)
    → base_of l ≤ p
    → p ≤ last_index_of l
    → NumberedFrom (p + 1) es
    → base_of (take (p + 1 - base_of l) l ++ es) ≤ max 1 (base_of l)
unfolding base_of last_index_of
take-base [] [] p lo hi h = rw (take-nil (p + 1 - 0)) (omega arith)
take-base [] (e ∷ es) p lo hi h = rw (take-nil (p + 1 - 0)) (omega (arith, h.0))
take-base (f ∷ fs) es p lo hi h =
    let one_more : p + 1 - f.index ≡ suc (p - f.index) = omega arith in rw one_more (omega arith)

module _ {S : Type 0} where
  -- What the replacement of the tail keeps of what the following steps need.
  replace_after-kept :
      (r : AppendEntriesRequest) (n : RaftNode S)
      → IsContiguous n.logs
      → r.prev_log_index ≤ last_log_index n
      → NumberedFrom (r.prev_log_index + 1) r.entries
      → All IsPlain n.logs
      → All IsPlain r.entries
      → (get_base_index (replace_after r n) ≤ max 1 (get_base_index n))
        × All IsPlain (replace_after r n).logs
        × ((replace_after r n).last_applied ≡ n.last_applied)
  unfolding get_base_index last_log_index
  replace_after-kept r n c le h plain sent =
      elim (Bool-cases (leb (get_base_index n) r.prev_log_index)) [
        | inl reach ↦
            let cut = logs-replace_after r n c reach in
            (
              rw cut (take-base n.logs r.entries r.prev_log_index (leb→le _ _ reach) le h),
              rw cut (
                  take-All IsPlain (r.prev_log_index + 1 - base_of n.logs) n.logs r.entries plain
                    sent),
              unfold replace_after in ground arith,
            )
        | inr short ↦ unfold replace_after in rw short (omega arith, plain, refl)
      ]

module _ {S : Type 0} (cb : Callbacks S) where
  follow_commit-some :
      (r : AppendEntriesRequest) (n : RaftNode S)
      → IsContiguous n.logs
      → get_base_index n ≤ n.last_applied + 1
      → Succeeds (follow_commit cb r n)
  unfolding follow_commit get_base_index last_log_index
  follow_commit-some r n c lo = elim (Bool-cases (ltb n.commit_index r.leader_commit)) [
    | inl more ↦
        let at = record n { commit_index = min r.leader_commit (last_log_index n) } in
        rw more (_, do_apply_exact cb at c lo (omega arith))
    | inr less ↦ rw less (n, refl)
  ]

  pub accept_entries-some :
      (env : Env) (r : AppendEntriesRequest) (n : RaftNode S)
      → IsContiguous n.logs
      → r.prev_log_index ≤ last_log_index n
      → NumberedFrom (r.prev_log_index + 1) r.entries
      → All IsPlain n.logs
      → All IsPlain r.entries
      → get_base_index n ≤ n.last_applied + 1
      → Succeeds (accept_entries cb env r n)
  unfolding accept_entries last_log_index
  accept_entries-some env r n c le h plain sent lo =
      let x = replace_after r n in
      let (base, plain', applied) = replace_after-kept r n c le h plain sent in
      let numbered = replace_after-IsContiguous r n c le h in
      let (n1, followed) = follow_commit-some r x numbered (omega (arith, base, applied, lo)) in
      let same = (follow_commit-lem cb r x n1 followed).0 in
      let (n2, scanned) =
        scan-some r.prev_log_index (last_log_index n1) n1 (subst IsContiguous (sym same) numbered)
          (omega arith) (subst (All IsPlain) (sym same) plain') in
      let agree = IsContiguous-sizes_agree x numbered in rw (agree, followed, scanned) (_, refl)
