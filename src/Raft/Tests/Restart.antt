-- ===== src/Raft/Tests/Restart.antt =====
-- A node that votes, ends and runs again, and what it finds in its file.
use ctx_db.Prelude.{ℕ, ◌≡◌, ◌≢◌, refl, true, List, [], ◌∷◌, map, some, All, arith, same}
use ctx_db.Raft.Types.{RaftNode, Configuration, RequestVoteResponse, not_running, joint}
use ctx_db.Raft.Conf.{newline, semicolon, make_configuration}
use ctx_db.Raft.Conf.RoundTrip.{IsPeerName}
use ctx_db.Raft.Peers.{is_running, before}
use ctx_db.Raft.Persist.{dump, load}
use ctx_db.Raft.Persist.Ordered.{peer_names, fresh_entry, Distinct, IsOrdered}
use ctx_db.Raft.Persist.RoundTrip.{IsPeerOf, load_after_dump}
use ctx_db.Raft.Persist.Change.{reread, change_after_dump}
use ctx_db.Raft.Vote.{on_vote_request}
use ctx_db.Raft.Vote.Once.{AllGrantedTo}
use ctx_db.Raft.Vote.Restarts.{Event, asked, restarted, votes_through, one_vote_through_restarts}
use ctx_db.Raft.Tests.{Recorder, env, name_a, name_b, name_c, node_a, leader_of, vote_request}

abbrev voted_for_b : RaftNode Recorder
voted_for_b = (on_vote_request env (vote_request name_b) node_a).1

abbrev answered : RequestVoteResponse
answered = record { name = name_a; term = 3; vote_granted = true; time = 1000; seq = 1 }

votes_for_b : on_vote_request env (vote_request name_b) node_a ≡ (some answered, voted_for_b)
unfolding on_vote_request
votes_for_b = refl

-- An object that does not run yet.
abbrev new_object : RaftNode Recorder
new_object = record (leader_of []) { state = not_running; current_term = 0; vote_for = [] }

abbrev history : List (Event Recorder)
history =
    restarted env new_object
    ∷ asked env (vote_request name_c)
    ∷ asked env (vote_request name_b)
    ∷ []

b_is_a_name : name_b ≢ []
b_is_a_name = λ e. cc

one_vote_through_restarts_example : AllGrantedTo 3 name_b (votes_through history voted_for_b)
one_vote_through_restarts_example =
    one_vote_through_restarts env (vote_request name_b) node_a voted_for_b answered history
      b_is_a_name votes_for_b refl

name_is_good : (c : ℕ) → c ≢ semicolon → c ≢ newline → IsPeerName (c ∷ [])
name_is_good c h k = (((λ e. cc), (h, tt)), (k, tt))

a_is_good : IsPeerName name_a
a_is_good = name_is_good 97 (omega arith) (omega arith)

b_is_good : IsPeerName name_b
b_is_good = name_is_good 98 (omega arith) (omega arith)

c_is_good : IsPeerName name_c
c_is_good = name_is_good 99 (omega arith) (omega arith)

runs_a : is_running node_a ≡ true
unfolding is_running
runs_a = refl

peers_of_a : All (IsPeerOf name_a) (peer_names node_a.peers)
unfolding same
peers_of_a = ((b_is_good, refl), ((c_is_good, refl), tt))

Distinct-peers : Distinct (peer_names node_a.peers)
unfolding same
Distinct-peers = ((refl, tt), (tt, tt))

peers_of_a-IsOrdered : IsOrdered (peer_names node_a.peers)
unfolding before
peers_of_a-IsOrdered = ((refl, tt), (tt, tt))

load_after_dump_example :
    (m : RaftNode Recorder) × (load (record new_object { disk = (dump node_a).disk }) ≡ some m)
    × (m.current_term ≡ node_a.current_term)
    × (m.vote_for ≡ node_a.vote_for)
    × (m.logs ≡ node_a.logs)
    × (m.name ≡ node_a.name)
    × (m.peers ≡ map fresh_entry (peer_names node_a.peers))
load_after_dump_example =
    load_after_dump node_a new_object runs_a refl peers_of_a Distinct-peers peers_of_a-IsOrdered
      a_is_good

-- The addition of c to a and b, in joint consensus.
abbrev adding_c : Configuration
adding_c = record (make_configuration (name_c ∷ []) [] (name_a ∷ name_b ∷ [])) {
  state = joint;
  index = 2;
}

abbrev changing_a : RaftNode Recorder
changing_a = record node_a { trans_conf = some adding_c }

runs_changing : is_running changing_a ≡ true
unfolding is_running
runs_changing = refl

change_after_dump_example :
    (m : RaftNode Recorder) × (load (record new_object { disk = (dump changing_a).disk }) ≡ some m)
    × (m.current_term ≡ changing_a.current_term)
    × (m.vote_for ≡ changing_a.vote_for)
    × (m.logs ≡ changing_a.logs)
    × (m.name ≡ changing_a.name)
    × (m.trans_conf ≡ some (reread adding_c))
unfolding make_configuration
change_after_dump_example =
    change_after_dump changing_a new_object adding_c runs_changing refl refl (c_is_good, tt) tt
      (a_is_good, (b_is_good, tt))
