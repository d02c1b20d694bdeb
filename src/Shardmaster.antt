-- ===== src/Shardmaster.antt =====
-- `ShardmasterServer` (src/shardmaster_server.h, src/shardmaster_server.cpp): the history of
-- configurations, and the commands that add one. A `Config` always has `n_shards` shards. An
-- access out of bounds fails.
pub mod Client
pub mod Handlers
pub mod Query
pub mod History
pub mod Leave
pub mod Remaining
pub mod Tests
use ctx_db.Prelude.{
  ℕ, zero, suc, ◌+◌, ◌-◌, ◌*◌, ◌/◌, ◌%◌, max, ℤ, Bool, true, false, ◌&&◌, ◌||◌, List, [], ◌∷◌, ◌++◌,
  Option, none, some, Text, length, get_elem?, set, replicate, ltb, leb, ◌==◌, if◌then◌else◌, ◌>>=◌,
}
use ctx_db.Collections.{lookup, get_or, put, erase, keys, member}
use ctx_db.Message.{Config, Command, join_apply, leave_apply, move_apply, query_apply}

abbrev pub n_shards : ℕ
n_shards = 10

pub record ShardmasterServer : Type 0 where
  pub configs : List Config
  pub cache : List (ℕ × ℕ)
  pub query_config : Config
  pub flag : Bool

-- The first configuration, of the constructor.
abbrev pub init_config : Config
init_config = record { num = 0; shards = replicate n_shards 0; groups = [] }

abbrev pub init_server : ShardmasterServer
init_server = record {
  configs = init_config ∷ [];
  cache = [];
  query_config = record { num = 0; shards = []; groups = [] };
  flag = true;
}

-- `get_config`: a number out of range, negative ones included, means the newest.
unfoldable pub get_config : ℤ → ShardmasterServer → Option Config
get_config (ℤ.negsuc k) s = get_elem? s.configs (length s.configs - 1)
get_config (ℤ.pos k) s =
    if leb (length s.configs) k
    then get_elem? s.configs (length s.configs - 1)
    else get_elem? s.configs k

unfoldable pub append_new_config : Config → ShardmasterServer → ShardmasterServer
append_new_config c s = record s { configs = s.configs ++ record c { num = length s.configs } ∷ [] }

-- One more shard counted for a group, `shardsByGID[gid]++`.
abbrev pub count_shard : ℕ → List (ℕ × ℕ) → List (ℕ × ℕ)
count_shard gid m = put gid (get_or 0 gid m + 1) m

-- A known group gets more servers, a new one is entered and noted. Gives the groups and the new ids.
unfoldable pub add_groups :
    List (ℕ × List Text) → List (ℕ × List Text) → List ℕ → List (ℕ × List Text) × List ℕ
unfolding lookup put
add_groups [] groups new_gids = (groups, new_gids)
add_groups ((gid, servers) ∷ rest) groups new_gids =
    let known = lookup gid groups in
    add_groups rest
      (elim known [ some old ↦ put gid (old ++ servers) groups | none ↦ put gid servers groups ])
      (elim known [ some old ↦ new_gids | none ↦ new_gids ++ gid ∷ [] ])

-- A group that has no room for one more shard. `left` is `maxShardsPerGIDCount`, which is only
-- tested to be at most 0, so that it may stop there.
abbrev pub is_full : ℕ → ℕ → ℕ → ℕ → Bool
is_full least most left held =
    (least == most && held == least) || (ltb least most && held == least && left == 0)

-- The loop of `onJoinApply` over the shards: a shard without a group, or of a full one, goes to the
-- next of the new groups. With no new group to take it, the access fails.
unfoldable pub rebalance : List ℕ → ℕ → ℕ → List ℕ → List (ℕ × ℕ) → ℕ → ℕ → Option (List ℕ)
unfolding put get_or
rebalance new_gids least most [] held j left = some []
rebalance new_gids least most (gid ∷ rest) held j left =
    let moved = (do
      new_gid ← get_elem? new_gids j
      rest' ←
          rebalance new_gids least most rest (count_shard new_gid held) ((j + 1) % length new_gids)
            left
      some (new_gid ∷ rest')) in
    let kept = (do
      rest' ←
          rebalance new_gids least most rest (count_shard gid held) j
            (if get_or 0 gid held + 1 == least then left - 1 else left)
      some (gid ∷ rest')) in
    if gid == 0 || is_full least most left (get_or 0 gid held) then moved else kept

-- The assignment after a join: none if there is no group, the old one if there are too many.
unfoldable pub join_shards : List ℕ → List (ℕ × List Text) → List ℕ → Option (List ℕ)
unfolding rebalance
join_shards new_gids groups shards =
    let size = length groups in
    let rebalanced =
      rebalance new_gids (n_shards / size)
        (if n_shards % size == 0 then n_shards / size else n_shards / size + 1) shards [] 0
        (n_shards % size) in
    if size == 0
    then some (replicate n_shards 0)
    else if leb size n_shards
    then rebalanced
    else some shards

-- A request that is not newer than the client's last one sets the flag only.
abbrev pub if_newer :
    ℕ → ℕ → (ShardmasterServer → Option Config) → ShardmasterServer → Option ShardmasterServer
if_newer client seq make s =
    if ltb (get_or 0 client s.cache) seq
    then (do
      c ← make s
      some (append_new_config c (record s { flag = true; cache = put client seq s.cache })))
    else some (record s { flag = false })

abbrev pub join_config : List (ℕ × List Text) → ShardmasterServer → Option Config
join_config servers s = do
  c ← get_config (ℤ.negsuc 0) s
  let (groups, new_gids) = add_groups servers c.groups []
  shards ← join_shards new_gids groups c.shards
  some (record c { groups = groups; shards = shards })

unfoldable pub on_join_apply :
    ℕ → ℕ → List (ℕ × List Text) → ShardmasterServer → Option ShardmasterServer
unfolding get_config add_groups join_shards append_new_config
on_join_apply client seq servers s = if_newer client seq (join_config servers) s

-- The inner loop over `remainingGIDs`: the first group below its share.
unfoldable pub first_short : ℕ → List (ℕ × ℕ) → List ℕ → Option ℕ
unfolding get_or
first_short share held [] = none
first_short share held (g ∷ gs) =
    if ltb (get_or 0 g held) share then some g else first_short share held gs

-- What one pass of the loop in `onLeaveApply` comes to: the end of the loop with the shards, or the
-- `goto loop` with the shards and the counts at that moment.
pub data Pass : Type 0 where
  finished : List ℕ → Pass
  again : List ℕ → List (ℕ × ℕ) → Pass
  fault : Pass

abbrev pub behind : ℕ → Pass → Pass
behind g (finished s) = finished (g ∷ s)
behind g (again s held) = again (g ∷ s) held
behind g fault = fault

-- One pass. A shard of a leaving or full group goes to the first group below its share, and the
-- pass starts again with the counts kept; if there is none, it goes to the next group in turn.
unfoldable pub leave_pass : List ℕ → List ℕ → ℕ → List ℕ → List (ℕ × ℕ) → ℕ → Pass
unfolding member first_short put get_or
leave_pass leaving remaining share [] held j = finished []
leave_pass leaving remaining share (gid ∷ rest) held j =
    let in_turn : Pass = elim (get_elem? remaining j) [
      | none ↦ fault
      | some id ↦ behind id (
          leave_pass leaving remaining share rest (count_shard id held)
            ((j + 1) % length remaining))
    ] in
    let moved : Pass = elim (first_short share held remaining) [
      | some g ↦ again (g ∷ rest) (count_shard g held)
      | none ↦ in_turn
    ] in
    let kept = behind gid (leave_pass leaving remaining share rest (count_shard gid held) j) in
    if member gid leaving || get_or 0 gid held == share then moved else kept

-- The `goto`: at most as many passes as the fuel says.
unfoldable pub leave_loop : ℕ → List ℕ → List ℕ → ℕ → List ℕ → List (ℕ × ℕ) → Option (List ℕ)
unfolding leave_pass
leave_loop zero leaving remaining share shards held = none
leave_loop (suc f) leaving remaining share shards held =
    elim (leave_pass leaving remaining share shards held 0) [
      | finished s ↦ some s
      | again s held' ↦ leave_loop f leaving remaining share s held'
      | fault ↦ none
    ]

-- Every `goto` gives one more shard to a group below its share, so that this fuel is enough.
abbrev pub leave_fuel : List ℕ → ℕ → ℕ
leave_fuel remaining share = suc (length remaining * share)

unfoldable pub erase_groups : List ℕ → List (ℕ × List Text) → List (ℕ × List Text)
unfolding erase
erase_groups [] groups = groups
erase_groups (g ∷ gs) groups = erase_groups gs (erase g groups)

unfoldable pub leave_shards : List ℕ → List (ℕ × List Text) → List ℕ → Option (List ℕ)
unfolding leave_loop
leave_shards leaving groups shards =
    let share = max 1 (n_shards / length groups) in
    let loop = leave_loop (leave_fuel (keys groups) share) leaving (keys groups) share shards [] in
    if length groups == 0 then some (replicate n_shards 0) else loop

abbrev pub leave_config : List ℕ → ShardmasterServer → Option Config
leave_config gids s = do
  c ← get_config (ℤ.negsuc 0) s
  let groups = erase_groups gids c.groups
  shards ← leave_shards gids groups c.shards
  some (record c { groups = groups; shards = shards })

unfoldable pub on_leave_apply : ℕ → ℕ → List ℕ → ShardmasterServer → Option ShardmasterServer
unfolding get_config erase_groups leave_shards append_new_config
on_leave_apply client seq gids s = if_newer client seq (leave_config gids) s

abbrev pub move_config : ℕ → ℕ → ShardmasterServer → Option Config
move_config shard gid s = do
  c ← get_config (ℤ.negsuc 0) s
  if ltb shard (length c.shards) then some (record c { shards = set c.shards shard gid }) else none

unfoldable pub on_move_apply : ℕ → ℕ → ℕ → ℕ → ShardmasterServer → Option ShardmasterServer
unfolding get_config append_new_config
on_move_apply client seq shard gid s = if_newer client seq (move_config shard gid) s

unfoldable pub on_query_apply : ℤ → ShardmasterServer → Option ShardmasterServer
unfolding get_config
on_query_apply num s = do c ← get_config num s; some (record s { query_config = c; flag = true })

-- The four callbacks that the constructor sets; no other command reaches this server.
unfoldable pub apply : Command → ShardmasterServer → Option ShardmasterServer
unfolding on_join_apply on_leave_apply on_move_apply on_query_apply
apply (join_apply client seq servers) s = on_join_apply client seq servers s
apply (leave_apply client seq gids) s = on_leave_apply client seq gids s
apply (move_apply client seq shard gid) s = on_move_apply client seq shard gid s
apply (query_apply num) s = on_query_apply num s
apply _ s = some s

unfoldable pub run : List Command → ShardmasterServer → Option ShardmasterServer
unfolding apply
run [] s = some s
run (c ∷ cs) s = apply c s >>= run cs
