-- ===== src/Shardmaster/Client/Join.antt =====
-- A request of `ShardmasterClient` (src/shardmaster_client.cpp) on its way through the leader's
-- handler (src/shardmaster_server.cpp) and log to the callback.
use ctx_db.Prelude.{
  append_assoc, append-nil, sym, ℕ, ◌^◌, ◌<◌, ◌≡◌, refl, sym, ap, ◌∙◌, List, [], ◌∷◌, ◌++◌, map,
  some, Text, codes, All, arith, subst,
}
use ctx_db.Collections.{put, keys}
use ctx_db.Nuke.{split, join}
use ctx_db.Nuke.RoundTrip.{IsName, split-join}
use ctx_db.Wire.{join_payload, leave_payload}
use ctx_db.Message.{dash, to_int, servers_of, command_of, join_apply, leave_apply}
use ctx_db.Message.RoundTrip.{AreDistinct, AreServers, put-append}
use ctx_db.Raft.Types.{RaftNode, Env}
use ctx_db.Raft.Log.Contiguous.{IsContiguous}
use ctx_db.Raft.Replicate.{logged}
use ctx_db.Raft.Apply.{Callbacks}
use ctx_db.Service.{wait}
use ctx_db.Service.Logged.{EndsWith, waiting_logged}
use ctx_db.Shardmaster.{ShardmasterServer}
use ctx_db.Shardmaster.Handlers.{on_join, on_leave}
use ctx_db.Shardmaster.Client.{ShardmasterClient, map_entries, join_request, leave_request}

-- Group ids that an `int` holds.
abbrev pub AreIds : List ℕ → Type 0
AreIds = All (λ g. g < 2 ^ 32)

servers_of-map_entries :
    (m a : List (ℕ × List Text))
    → AreServers m
    → AreIds (keys m)
    → AreDistinct (keys (a ++ m))
    → servers_of (map_entries m) a ≡ a ++ m
unfolding servers_of map_entries
servers_of-map_entries [] a names ids distinct = sym (append-nil a)
servers_of-map_entries ((k, v) ∷ m) a names ids distinct =
    let text = split-join dash v names.0 in
    let is_key : to_int k ≡ k = omega (arith, ids.0) in
    let added = put-append k v a m distinct in
    let moved = sym (append_assoc a ((k, v) ∷ []) m) in
    let rest =
      servers_of-map_entries m (a ++ (k, v) ∷ []) names.1 ids.1
        (subst (λ l. AreDistinct (keys l)) moved distinct) in
    ap (λ j. servers_of (map_entries m) (put j (split dash (join dash v)) a)) is_key
    ∙ ap (λ w. servers_of (map_entries m) (put k w a)) text
    ∙ ap (servers_of (map_entries m)) added
    ∙ rest
    ∙ sym moved

-- A join that a client asks for with groups of different ids below 2 ^ 32, and servers whose names
-- are not empty and hold no "-": where the node logs it, on a log numbered one by one, the new
-- last entry has the index that, as an `int`, the handler waits for, and becomes, when it is applied, the join
-- of exactly these groups, for this client and request.
pub join_reaches_callback :
    (cb : Callbacks ShardmasterServer) (servers : List (ℕ × List Text)) (c : ShardmasterClient)
    (env : Env) (n m : RaftNode ShardmasterServer) (i : ℕ)
    → AreServers servers
    → AreIds (keys servers)
    → AreDistinct (keys servers)
    → IsContiguous n.logs
    → on_join env (join_request servers c) n ≡ some (wait (logged i), m)
    → EndsWith cb i (join_apply c.client_id (to_int c.request_seq) servers) n m
unfolding on_join command_of join_request
join_reaches_callback cb servers c env n m i names ids distinct numbered run =
    let (e, grown, index, is_command) =
      waiting_logged cb (λ a. a) env (codes "join") (join_payload (join_request servers c)) n m i
        numbered run in
    let carried = servers_of-map_entries servers [] names ids distinct in
    (e, grown, index, is_command ∙ ap (join_apply c.client_id (to_int c.request_seq)) carried)

-- `std::to_string` and `atoi` are parameters: reading a number back gives the number, and its text
-- is not empty and has no "-".
module _ (to_text : ℕ → Text) (text-IsName : (g : ℕ) → IsName dash (to_text g)) where
  names-IsName : (gids : List ℕ) → All (IsName dash) (map to_text gids)
  names-IsName [] = tt
  names-IsName (g ∷ gs) = (text-IsName g, names-IsName gs)

  map-atoi :
      (atoi : Text → ℕ)
      → ((g : ℕ) → atoi (to_text g) ≡ g)
      → (gids : List ℕ) → map atoi (map to_text gids) ≡ gids
  map-atoi atoi inverse [] = refl
  map-atoi atoi inverse (g ∷ gs) = rw (inverse g, map-atoi atoi inverse gs) refl

  -- A leave that a client asks for: where the node logs it, on a log numbered one by one, the new
  -- last entry has the index that, as an `int`, the handler waits for, and becomes, when it is applied, the leave
  -- of exactly these groups, for this client and request. The texts of the group ids are not empty,
  -- have no "-", and are read back as the ids.
  leave_reaches_callback :
      (cb : Callbacks ShardmasterServer) (gids : List ℕ) (c : ShardmasterClient) (env : Env)
      (n m : RaftNode ShardmasterServer) (i : ℕ)
      → ((g : ℕ) → cb.atoi (to_text g) ≡ g)
      → IsContiguous n.logs
      → on_leave env (leave_request to_text gids c) n ≡ some (wait (logged i), m)
      → EndsWith cb i (leave_apply c.client_id (to_int c.request_seq) gids) n m
  unfolding on_leave command_of leave_request
  leave_reaches_callback cb gids c env n m i inverse numbered run =
      let (e, grown, index, is_command) =
        waiting_logged cb (λ a. a) env (codes "leave")
          (leave_payload (leave_request to_text gids c)) n m i numbered run in
      let carried =
        ap (map cb.atoi) (split-join dash (map to_text gids) (names-IsName gids))
        ∙ map-atoi cb.atoi inverse gids in
      (e, grown, index, is_command ∙ ap (leave_apply c.client_id (to_int c.request_seq)) carried)
