-- ===== src/Raft/Peers.antt =====
-- The peers of a node: the map `peers` (src/node.h, src/node_conf.cpp), who is counted in a vote,
-- and when votes suffice.
use ctx_db.Prelude.{
  is_some, ℕ, ◌+◌, ◌/◌, Bool, true, false, not, ◌&&◌, ◌||◌, List, [], ◌∷◌, ◌++◌, map, Option, none,
  some, Text, same, ltb, ◌==◌, if◌then◌else◌, ◌>>=◌,
}
use ctx_db.Raft.Types.{
  RaftNode, NodePeer, Configuration, ConfState, old_joint, joint, joint_new, new,
  default_index_cursor, seq_start, is_not_running,
}
use ctx_db.Raft.Conf.{is_in_old, is_in_new}

-- `peers.find(name)`.
unfoldable pub find_peer : Text → List (Text × NodePeer) → Option NodePeer
find_peer k [] = none
find_peer k ((j, p) ∷ ps) = if same j k then some p else find_peer k ps

-- `peers[name]` as the target of an assignment, where the name is present.
unfoldable pub set_peer : Text → NodePeer → List (Text × NodePeer) → List (Text × NodePeer)
set_peer k q [] = []
set_peer k q ((j, p) ∷ ps) = if same j k then (j, q) ∷ ps else (j, p) ∷ set_peer k q ps

-- `peers.erase(name)`.
unfoldable pub erase_peer : Text → List (Text × NodePeer) → List (Text × NodePeer)
erase_peer k [] = []
erase_peer k ((j, p) ∷ ps) = if same j k then ps else (j, p) ∷ erase_peer k ps

-- `<` of `std::string`.
unfoldable pub before : Text → Text → Bool
before s [] = false
before [] (d ∷ t) = true
before (c ∷ s) (d ∷ t) = ltb c d || (c == d && before s t)

-- `peers[name] = peer` for a name that is not there: the map is in the order of its keys.
unfoldable pub insert_peer : Text → NodePeer → List (Text × NodePeer) → List (Text × NodePeer)
unfolding before
insert_peer k p [] = (k, p) ∷ []
insert_peer k p ((j, q) ∷ ps) =
    let rest = insert_peer k p ps in if before k j then (k, p) ∷ (j, q) ∷ ps else (j, q) ∷ rest

-- `new NodePeer{peer_name}`, and the fields that `add_peer` sets.
abbrev pub new_peer : Text → NodePeer
new_peer k = record {
  name = k;
  voted_for_me = false;
  next_index = default_index_cursor + 1;
  match_index = default_index_cursor;
  receive_enabled = true;
  send_enabled = true;
  voting_rights = true;
  seq = seq_start;
}

-- The votes that count: the node's own, and those of the peers with voting rights.
unfoldable pub voters_of : List (Text × NodePeer) → ℕ
voters_of [] = 1
voters_of ((k, p) ∷ ps) = if p.voting_rights then voters_of ps + 1 else voters_of ps

-- One vote for the node itself, and one for each peer that passes the test.
unfoldable pub votes_of : (NodePeer → Bool) → List (Text × NodePeer) → ℕ
votes_of f [] = 1
votes_of f ((k, p) ∷ ps) = if f p then votes_of f ps + 1 else votes_of f ps

-- The loop of `enough_votes_trans_conf` for joint consensus, over the counters `old_vote` and
-- `new_vote`. It asserts that every peer has voting rights.
unfoldable pub joint_votes :
    (NodePeer → Bool) → Configuration → List (Text × NodePeer) → ℕ → ℕ → Option (ℕ × ℕ)
unfolding is_in_old is_in_new
joint_votes f c [] o n = some (o, n)
joint_votes f c ((k, p) ∷ ps) o n =
    let rest =
      joint_votes f c ps (if f p && is_in_old c p.name then o + 1 else o)
        (if f p && is_in_new c p.name then n + 1 else n) in
    if p.voting_rights then rest else none

-- The loop for C_new alone.
unfoldable pub new_votes : (NodePeer → Bool) → Configuration → List (Text × NodePeer) → ℕ → Option ℕ
unfolding is_in_new
new_votes f c [] n = some n
new_votes f c ((k, p) ∷ ps) n =
    let rest = new_votes f c ps (if f p && is_in_new c p.name then n + 1 else n) in
    if p.voting_rights then rest else none

-- The answers 1, -1 and 0 of `enough_votes_trans_conf`.
pub data Answer : Type 0 where
  enough not_enough no_transition : Answer

abbrev pub answer : Bool → Answer
answer true = enough
answer false = not_enough

-- The number of votes is more than half of the voters.
abbrev pub is_majority : ℕ → ℕ → Bool
is_majority vote voters = ltb (voters / 2) vote

module _ {S : Type 0} where
  unfoldable pub has_peer : RaftNode S → Text → Bool
  unfolding find_peer
  has_peer n k = is_some (find_peer k n.peers)

  unfoldable pub is_running : RaftNode S → Bool
  is_running n = not (is_not_running n.state) && not n.paused && not n.tobe_destructed

  unfoldable pub is_peer_receive_enabled : RaftNode S → Text → Bool
  unfolding find_peer
  is_peer_receive_enabled n k = elim (find_peer k n.peers) [
    | none ↦ false
    | some p ↦ p.receive_enabled
  ]

  -- `add_peer`, with its two assertions. A present peer is left as it is.
  unfoldable pub add_peer : Text → RaftNode S → Option (RaftNode S)
  unfolding has_peer same insert_peer
  add_peer k n =
      if same k [] || same k n.name
      then none
      else if has_peer n k
      then some n
      else some (record n { peers = insert_peer k (new_peer k) n.peers })

  -- `remove_peer`: the peer is disabled and kept for deletion.
  unfoldable pub remove_peer : Text → RaftNode S → RaftNode S
  unfolding find_peer erase_peer
  remove_peer k n = elim (find_peer k n.peers) [
    | none ↦ n
    | some p ↦ record n {
      peers = erase_peer k n.peers;
      tobe_removed_peers =
          n.tobe_removed_peers ++ record p { send_enabled = false; receive_enabled = false } ∷ [];
    }
  ]

  -- `remove_peer` of each name in turn.
  unfoldable pub remove_peers : List Text → RaftNode S → RaftNode S
  unfolding remove_peer
  remove_peers [] n = n
  remove_peers (k ∷ ks) n = remove_peers ks (remove_peer k n)

  -- `reset_peers`: the first peer is removed until none is left.
  unfoldable pub reset_peers : RaftNode S → RaftNode S
  unfolding remove_peers
  reset_peers n = remove_peers (map (λ (e : Text × NodePeer). e.0) n.peers) n

  unfoldable pub clear_removed_peers : RaftNode S → RaftNode S
  clear_removed_peers n = record n { tobe_removed_peers = [] }

  unfoldable pub compute_votes_thres : RaftNode S → ℕ
  unfolding voters_of
  compute_votes_thres n = voters_of n.peers

  unfoldable pub enough_votes : RaftNode S → ℕ → Bool
  unfolding compute_votes_thres
  enough_votes n vote = is_majority vote (compute_votes_thres n)

  -- Both majorities, while C_{old,new} is in force; the thresholds are asserted to be positive.
  abbrev pub enough_joint :
      (NodePeer → Bool) → Configuration → RaftNode S → Option (Answer × RaftNode S)
  enough_joint f c n = do
    (old_vote, new_vote) ← joint_votes f c n.peers 1 (if is_in_new c n.name then 1 else 0)
    let n' = record n { old_vote = old_vote; new_vote = new_vote }
    if ltb 0 c.oldvote_thres && ltb 0 c.newvote_thres
        then some (
          answer (is_majority old_vote c.oldvote_thres && is_majority new_vote c.newvote_thres),
          n',
        )
        else none

  -- The majority of C_new alone; `old_vote` was set to 0.
  abbrev enough_new : (NodePeer → Bool) → Configuration → RaftNode S → Option (Answer × RaftNode S)
  enough_new f c n = do
    new_vote ← new_votes f c n.peers (if is_in_new c n.name then 1 else 0)
    some (
      answer (is_majority new_vote c.newvote_thres),
      record n { old_vote = 0; new_vote = new_vote },
    )

  abbrev pub enough_in :
      (NodePeer → Bool) → Configuration → ConfState → RaftNode S → Option (Answer × RaftNode S)
  enough_in f c old_joint n = enough_joint f c n
  enough_in f c joint n = enough_joint f c n
  enough_in f c joint_new n = enough_new f c n
  enough_in f c new n = enough_new f c n
  enough_in f c _ n = some (no_transition, record n { old_vote = 0; new_vote = 0 })

  unfoldable pub enough_votes_trans_conf :
      (NodePeer → Bool) → RaftNode S → Option (Answer × RaftNode S)
  unfolding joint_votes new_votes
  enough_votes_trans_conf f n = elim n.trans_conf [
    | none ↦ some (no_transition, record n { old_vote = 0; new_vote = 0 })
    | some c ↦ enough_in f c c.state n
  ]

  -- The label NORMAL_TEST_VOTE.
  unfoldable pub normal_test_vote : RaftNode S → Bool × RaftNode S
  unfolding enough_votes votes_of
  normal_test_vote n =
      let got = votes_of (λ p. p.voted_for_me) n.peers in
      (enough_votes n got, record n { vote_got = got })

  abbrev by_answer : Answer → RaftNode S → Bool × RaftNode S
  by_answer enough n = (true, n)
  by_answer not_enough n = (false, n)
  by_answer no_transition n = normal_test_vote n

  unfoldable pub test_election : RaftNode S → Option (Bool × RaftNode S)
  unfolding enough_votes_trans_conf normal_test_vote
  test_election n = elim n.trans_conf [
    | none ↦ some (normal_test_vote n)
    | some c ↦ (do (a, n') ← enough_votes_trans_conf (λ p. p.voted_for_me) n; some (by_answer a n'))
  ]
