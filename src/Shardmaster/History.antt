-- ===== src/Shardmaster/History.antt =====
-- The history of configurations (src/shardmaster_server.cpp).
use ctx_db.Prelude.{
  append_assoc, append-nil, ℕ, ◌≤◌, ◌<◌, ◌≡◌, ◌≢◌, refl, sym, ap, ◌∙◌, ◌⊎◌, inl, inr, ℤ, true,
  false, List, [], ◌∷◌, ◌++◌, Option, none, some, arith, ltb, Bool-cases, bind_some, subst, ltb→lt,
  length, get_elem?, set, length-append, get_elem?-append_left, get_elem?-append_last,
  get_elem?-set_self, get_elem?-set_ne, get_elem?-bound,
}
use native.Mathlib.Decide.{dec_lt}
use ctx_db.Collections.{get_or}
use ctx_db.Collections.Lookup.{get_or-put_self}
use ctx_db.Message.{Config, Command, join_apply, leave_apply, move_apply, query_apply}
use ctx_db.Shardmaster.{
  ShardmasterServer, get_config, append_new_config, if_newer, join_config, leave_config,
  move_config, on_join_apply, on_leave_apply, on_move_apply, on_query_apply, apply, run,
}

-- The configuration at every position has that position as its number.
abbrev pub IsNumbered : List Config → Type 0
IsNumbered cs = (i : ℕ) (c : Config) → get_elem? cs i ≡ some c → c.num ≡ i

append-IsNumbered :
    (cs : List Config) (c : Config) → IsNumbered cs → c.num ≡ length cs → IsNumbered (cs ++ c ∷ [])
append-IsNumbered cs c h e i d found =
    let bound = get_elem?-bound (cs ++ c ∷ []) i d found in
    elim (dec_lt i (length cs)) [
      | yes before ↦ h i d (sym (get_elem?-append_left cs (c ∷ []) i before) ∙ found)
      | no after ↦
          let at : i ≡ length cs = omega (arith, bound, after, length-append cs (c ∷ [])) in
          let last = get_elem?-append_last cs c in ground (arith, at, last, found, e)
    ]

-- What one step adds to the history: nothing, or one configuration, numbered by its place.
abbrev Grown : ShardmasterServer → ShardmasterServer → Type 0
Grown s m =
    (m.configs ≡ s.configs)
    ⊎ ((c : Config) × (m.configs ≡ s.configs ++ c ∷ []) × (c.num ≡ length s.configs))

if_newer-Grown :
    (client seq : ℕ) (make : ShardmasterServer → Option Config) (s m : ShardmasterServer)
    → if_newer client seq make s ≡ some m
    → Grown s m
unfolding append_new_config
if_newer-Grown client seq make s m h = elim (Bool-cases (ltb (get_or 0 client s.cache) seq)) [
  | inr old ↦ inl (ground arith)
  | inl newer ↦
      let (c, made, e) = bind_some (make s) _ (rw newer at h) in
      inr (record c { num = length s.configs }, ground (arith, e), refl)
]

query-Grown : (num : ℤ) (s m : ShardmasterServer) → on_query_apply num s ≡ some m → Grown s m
unfolding on_query_apply
query-Grown num s m h =
    let (c, got, e) = bind_some (get_config num s) _ h in inl (ground (arith, e))

apply-Grown : (c : Command) (s m : ShardmasterServer) → apply c s ≡ some m → Grown s m
unfolding apply on_join_apply on_leave_apply on_move_apply
apply-Grown (join_apply client seq servers) s m h =
    if_newer-Grown client seq (join_config servers) s m h
apply-Grown (leave_apply client seq gids) s m h =
    if_newer-Grown client seq (leave_config gids) s m h
apply-Grown (move_apply client seq shard gid) s m h =
    if_newer-Grown client seq (move_config shard gid) s m h
apply-Grown (query_apply num) s m h = query-Grown num s m h
apply-Grown _ s m h = inl (ground arith)

-- Whatever commands are applied, the history only grows at its end: every configuration that was
-- there stays at its place, and if the configurations were numbered by their places, they still are.
pub history_append_only :
    (cs : List Command) (s m : ShardmasterServer)
    → IsNumbered s.configs
    → run cs s ≡ some m
    → IsNumbered m.configs × ((added : List Config) × (m.configs ≡ s.configs ++ added))
unfolding run
history_append_only [] s m numbered h =
    let same : m.configs ≡ s.configs = ground arith in
    (subst IsNumbered (sym same) numbered, ([], same ∙ sym (append-nil s.configs)))
history_append_only (c ∷ cs) s m numbered h =
    let (x, first, e) = bind_some (apply c s) _ h in
    elim (apply-Grown c s x first) [
      | inl same ↦
          let (still, (added, grown)) =
            history_append_only cs x m (subst IsNumbered (sym same) numbered) e in
          (still, (added, grown ∙ ap (λ l. l ++ added) same))
      | inr (d, grown, num) ↦
          let (still, (added, grown')) =
            history_append_only cs x m
              (subst IsNumbered (sym grown) (append-IsNumbered s.configs d numbered num)) e in
          (
            still,
            (
              d ∷ added,
              grown' ∙ ap (λ l. l ++ added) grown ∙ append_assoc s.configs (d ∷ []) added,
            ),
          )
    ]

-- The client and the sequence number of a command that has them.
abbrev pub requester : Command → Option (ℕ × ℕ)
requester (join_apply client seq servers) = some (client, seq)
requester (leave_apply client seq gids) = some (client, seq)
requester (move_apply client seq shard gid) = some (client, seq)
requester _ = none

if_newer-cached :
    (client seq : ℕ) (make : ShardmasterServer → Option Config) (s m : ShardmasterServer)
    → if_newer client seq make s ≡ some m
    → seq ≤ get_or 0 client m.cache
unfolding append_new_config
if_newer-cached client seq make s m h = elim (Bool-cases (ltb (get_or 0 client s.cache) seq)) [
  | inr old ↦ ground arith
  | inl newer ↦
      let (c, made, e) = bind_some (make s) _ (rw newer at h) in
      ground (arith, e, get_or-put_self 0 seq client s.cache)
]

apply-cached :
    (c : Command) (client seq : ℕ) (s m : ShardmasterServer)
    → requester c ≡ some (client, seq)
    → apply c s ≡ some m
    → seq ≤ get_or 0 client m.cache
unfolding apply on_join_apply on_leave_apply on_move_apply
apply-cached (join_apply k i servers) client seq s m who h =
    ground (arith, if_newer-cached k i (join_config servers) s m h)
apply-cached (leave_apply k i gids) client seq s m who h =
    ground (arith, if_newer-cached k i (leave_config gids) s m h)
apply-cached (move_apply k i shard gid) client seq s m who h =
    ground (arith, if_newer-cached k i (move_config shard gid) s m h)
apply-cached _ client seq s m who h = cc

apply-old :
    (c : Command) (client seq : ℕ) (s : ShardmasterServer)
    → requester c ≡ some (client, seq)
    → seq ≤ get_or 0 client s.cache
    → apply c s ≡ some (record s { flag = false })
unfolding apply on_join_apply on_leave_apply on_move_apply
apply-old (join_apply k i servers) client seq s who h = ground arith
apply-old (leave_apply k i gids) client seq s who h = ground arith
apply-old (move_apply k i shard gid) client seq s who h = ground arith
apply-old _ client seq s who h = cc

-- Once a join, a leave or a move of a client was applied, each further one of the same client with no
-- larger sequence number, the same command again included, changes nothing but the flag, which
-- becomes false.
pub retry_ignored :
    (c c' : Command) (client seq seq' : ℕ) (s m : ShardmasterServer)
    → requester c ≡ some (client, seq)
    → requester c' ≡ some (client, seq')
    → seq' ≤ seq
    → apply c s ≡ some m
    → apply c' m ≡ some (record m { flag = false })
retry_ignored c c' client seq seq' s m who who' older h =
    apply-old c' client seq' m who' (omega (arith, older, apply-cached c client seq s m who h))

-- A move that is applied and newer than the client's last command adds a configuration that gives
-- the shard to the group and every other shard to the group that the newest one gave it to, with the
-- same groups.
move_changes_one_shard :
    (client seq shard gid : ℕ) (s m : ShardmasterServer)
    → get_or 0 client s.cache < seq
    → on_move_apply client seq shard gid s ≡ some m
    → (old : Config) × (c : Config) × (get_config (ℤ.negsuc 0) s ≡ some old)
      × (m.configs ≡ s.configs ++ c ∷ [])
      × (c.groups ≡ old.groups)
      × (get_elem? c.shards shard ≡ some gid)
      × ((i : ℕ) → i ≢ shard → get_elem? c.shards i ≡ get_elem? old.shards i)
unfolding on_move_apply append_new_config
move_changes_one_shard client seq shard gid s m newer h =
    let test : ltb (get_or 0 client s.cache) seq ≡ true = ground arith in
    let (c, made, e) = bind_some (move_config shard gid s) _ (rw test at h) in
    let (old, latest, e') = bind_some (get_config (ℤ.negsuc 0) s) _ made in
    elim (Bool-cases (ltb shard (length old.shards))) [
      | inr outside ↦ ground (arith, e', outside)
      | inl inside ↦
          let is_c : record old { shards = set old.shards shard gid } ≡ c =
            ground (arith, e', inside) in
          let moved = record old { shards = set old.shards shard gid; num = length s.configs } in
          (
            old,
            moved,
            latest,
            ground (arith, e, is_c),
            refl,
            get_elem?-set_self old.shards shard gid (ltb→lt _ _ inside),
            λ i other. get_elem?-set_ne old.shards shard i gid (λ k. other (sym k)),
          )
    ]
