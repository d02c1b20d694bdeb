-- ===== src/Raft/Append/Copied.antt =====
-- A follower that accepts what the leader sends has the leader's log (src/node_rpc_a.cpp).
use ctx_db.Prelude.{
  ℕ, zero, suc, ◌+◌, ◌-◌, ◌<◌, ◌≡◌, refl, ap, ◌∙◌, true, List, [], ◌∷◌, ◌++◌, Option, some, take,
  drop, leb, arith,
}
use ctx_db.Raft.Types.{
  RaftNode, NodePeer, LogEntry, Env, append_entries, AppendEntriesRequest, AppendEntriesResponse,
}
use ctx_db.Raft.Log.{base_of, get_base_index}
use ctx_db.Raft.Log.Contiguous.{IsContiguous}
use ctx_db.Raft.Apply.{Callbacks}
use ctx_db.Raft.Replicate.{message_to}
use ctx_db.Raft.Replicate.Sent.{CanSend, sends_rest_of_log}
use ctx_db.Raft.Append.{accept_entries}
use ctx_db.Raft.Append.Replace.{accept_entries-lem, logs-replace_after}

take-drop : (k : ℕ) (l : List LogEntry) → take k l ++ drop k l ≡ l
take-drop zero l = refl
take-drop (suc k) [] = refl
take-drop (suc k) (e ∷ es) = ap (◌∷◌ e) (take-drop k es)

module _ {S : Type 0} (cb : Callbacks S) where
  -- The leader, whose log is numbered one by one, sends a peer what follows `next_index`, an index
  -- in the log, or just behind it, and behind the log's first. If that peer accepts it, its log is
  -- numbered one by one and starts at the same index as the leader's, and up to `next_index` the
  -- two logs agree, then afterwards the peer's log is the leader's.
  pub accepted_copies_leader :
      (env env' : Env) (leader follower m : RaftNode S) (p : NodePeer) (r : AppendEntriesRequest)
      (o : Option AppendEntriesResponse)
      → CanSend leader p
      → message_to env leader p ≡ some (append_entries r)
      → IsContiguous follower.logs
      → get_base_index follower ≡ get_base_index leader
      → get_base_index leader < p.next_index
      → take (p.next_index - get_base_index leader) follower.logs
        ≡ take (p.next_index - get_base_index leader) leader.logs
      → accept_entries cb env' r follower ≡ some (o, m)
      → m.logs ≡ leader.logs
  unfolding get_base_index
  accepted_copies_leader env env' leader follower m p r o can sent c base behind agree done =
      let (q, sent', entries, prev, _, _, _) = sends_rest_of_log env leader p can in
      let same : r ≡ q = ground (arith, sent, sent') in
      let reached : leb (get_base_index follower) r.prev_log_index ≡ true = ground (arith, same) in
      let start : r.prev_log_index + 1 - base_of follower.logs
          ≡ p.next_index - base_of leader.logs =
        ground (arith, same, prev, base) in
      let parts : take (p.next_index - base_of leader.logs) leader.logs ++ r.entries ≡ leader.logs =
        ap (λ l. take (p.next_index - base_of leader.logs) leader.logs ++ l)
          (ap (λ (x : AppendEntriesRequest). x.entries) same ∙ entries)
        ∙ take-drop (p.next_index - base_of leader.logs) leader.logs in
      (accept_entries-lem cb env' r follower m o done).0
      ∙ logs-replace_after r follower c reached
      ∙ ap (λ k. take k follower.logs ++ r.entries) start
      ∙ ap (λ l. l ++ r.entries) agree
      ∙ parts
