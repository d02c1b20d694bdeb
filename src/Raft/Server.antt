-- ===== src/Raft/Server.antt =====
-- The services in front of a node (src/server.cpp): one call at a time, `RaftMessagesServiceImpl`, and
-- over streams, `RaftMessagesStreamServiceImpl`, with the reading threads of the client at the other
-- end, `RaftMessagesStreamClientSync` (src/client_stream_sync.cpp).
-- The node behind a service is there while it serves.
pub mod Served
use ctx_db.Prelude.{
  Bool, true, false, not, List, [], ◌∷◌, ◌++◌, Option, none, some, Text, if◌then◌else◌, ◌>>=◌,
}
use ctx_db.Nuke.{is_empty}
use ctx_db.Raft.Types.{
  RaftNode, Env, Message, RequestVoteRequest, RequestVoteResponse, AppendEntriesRequest,
  AppendEntriesResponse, InstallSnapshotRequest, InstallSnapshotResponse,
}
use ctx_db.Raft.Vote.{on_vote_request}
use ctx_db.Raft.Append.{on_append_entries_request}
use ctx_db.Raft.Snapshot.{on_install_snapshot_request}
use ctx_db.Raft.Apply.{Callbacks}
use ctx_db.Raft.Transport.{complete_vote, complete_append, complete_snapshot}

-- The status of a call, with the response where it is OK: a handler that returns -1 makes the call
-- unavailable.
pub data Status (R : Type 0) : Type 0 where
  ok : R → Status R
  unavailable : Status R

abbrev pub status_of : {R : Type 0} → Option R → Status R
status_of none = unavailable
status_of (some r) = ok r

-- What a thread that reads a stream meets: a message, the end of what there is at present, or that
-- another thread has stored the flag `stop`.
pub data Event (A : Type 0) : Type 0 where
  received : A → Event A
  drained stop_stored : Event A

-- The two nested loops: a message that is read when the flag is stored is dropped, and the thread ends
-- there, or where the inner loop ends.
unfoldable pub read_loop : {A X : Type 0} → (A → X → X) → Bool → List (Event A) → X → X
read_loop handle stopped [] x = x
read_loop handle stopped (stop_stored ∷ es) x = read_loop handle true es x
read_loop handle stopped (drained ∷ es) x =
    let rest = read_loop handle stopped es x in if stopped then x else rest
read_loop handle stopped (received a ∷ es) x =
    let rest = read_loop handle stopped es (handle a x) in if stopped then x else rest

-- A handler of the node, with what it reads from outside; the outer `none` is a failed assertion.
abbrev pub Handler : Type 0 → Type 0 → Type 0 → Type 0
Handler S Q A = Env → Q → RaftNode S → Option (Option A × RaftNode S)

module _ {S : Type 0} {Q A : Type 0} where
  -- One call of a service.
  unfoldable pub call : Handler S Q A → Env → Q → RaftNode S → Option (Status A × RaftNode S)
  call h env q n = do (o, n') ← h env q n; some (status_of o, n')

  -- One round of a stream: `assert(response.has_name())` where the handler returned 0, and the response
  -- is written. The first argument is `has_name`.
  unfoldable pub serve :
      (A → Bool)
      → Handler S Q A
      → Env × Q
      → Option (RaftNode S × List A)
      → Option (RaftNode S × List A)
  serve has_name h (env, q) x = do
    (n, out) ← x
    (o, n') ← h env q n
    elim o [
      | none ↦ some (n', out)
      | some a ↦ if has_name a then some (n', out ++ a ∷ []) else none
    ]

  -- The thread that serves one stream. The requests have names, as the code asserts.
  unfoldable pub serve_stream :
      (A → Bool)
      → Handler S Q A
      → List (Event (Env × Q))
      → RaftNode S
      → Option (RaftNode S × List A)
  unfolding read_loop serve
  serve_stream has_name h es n = read_loop (serve has_name h) false es (some (n, []))

-- A response that a handler sets has a name, which is that of the node and is not empty.
abbrev pub vote_named : RequestVoteResponse → Bool
vote_named a = not (is_empty a.name)

abbrev pub append_named : AppendEntriesResponse → Bool
append_named a = not (is_empty a.name)

abbrev pub snapshot_named : InstallSnapshotResponse → Bool
snapshot_named a = not (is_empty a.name)

module _ {S : Type 0} where
  abbrev pub vote_handler :
      Env → RequestVoteRequest → RaftNode S → Option (Option RequestVoteResponse × RaftNode S)
  vote_handler env r n = some (on_vote_request env r n)

  abbrev pub request_vote :
      Env → RequestVoteRequest → RaftNode S → Option (Status RequestVoteResponse × RaftNode S)
  request_vote = call vote_handler

  abbrev pub stream_request_vote :
      List (Event (Env × RequestVoteRequest))
      → RaftNode S
      → Option (RaftNode S × List RequestVoteResponse)
  stream_request_vote = serve_stream vote_named vote_handler

  -- The client's threads; a failed assertion ends the process.
  unfoldable pub handle_vote_responses :
      Text → List (Event RequestVoteResponse) → RaftNode S → Option (RaftNode S)
  unfolding read_loop complete_vote
  handle_vote_responses peer es n =
      read_loop (λ r o. o >>= complete_vote peer (some r)) false es (some n)

  unfoldable pub handle_snapshot_responses :
      Text → List (Event InstallSnapshotResponse) → RaftNode S → RaftNode S
  unfolding read_loop complete_snapshot
  handle_snapshot_responses peer es n =
      read_loop (λ r m. complete_snapshot peer (some r) m) false es n

  -- `AsyncRequestVote` and the two others of the client: what is written after `shutdown` is not sent.
  unfoldable pub write_unless_stopped : Bool → Text × Message → RaftNode S → RaftNode S
  write_unless_stopped stopped m n = if stopped then n else record n { outbox = n.outbox ++ m ∷ [] }

module _ {S : Type 0} (cb : Callbacks S) where
  unfoldable pub handle_append_responses :
      Text → List (Event (Env × AppendEntriesResponse)) → RaftNode S → Option (RaftNode S)
  unfolding read_loop complete_append
  handle_append_responses peer es n =
      read_loop (λ r o. o >>= complete_append cb r.0 peer (some r.1)) false es (some n)

  abbrev pub append_entries :
      Env → AppendEntriesRequest → RaftNode S → Option (Status AppendEntriesResponse × RaftNode S)
  append_entries = call (on_append_entries_request cb)

  abbrev pub stream_append_entries :
      List (Event (Env × AppendEntriesRequest))
      → RaftNode S
      → Option (RaftNode S × List AppendEntriesResponse)
  stream_append_entries = serve_stream append_named (on_append_entries_request cb)

  abbrev pub install_snapshot :
      Env
      → InstallSnapshotRequest
      → RaftNode S
      → Option (Status InstallSnapshotResponse × RaftNode S)
  install_snapshot = call (on_install_snapshot_request cb)

  abbrev pub stream_install_snapshot :
      List (Event (Env × InstallSnapshotRequest))
      → RaftNode S
      → Option (RaftNode S × List InstallSnapshotResponse)
  stream_install_snapshot = serve_stream snapshot_named (on_install_snapshot_request cb)
