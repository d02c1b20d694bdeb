-- ===== src/Shardmaster/Query.antt =====
-- What a query finds (`onQuery`, `onQueryApply`, src/shardmaster_server.cpp), and what a group makes
-- of the answer (`poll`, src/shardkv_server.cpp).
use ctx_db.Prelude.{
  ℕ, ◌+◌, ◌-◌, ◌^◌, ◌≤◌, ◌<◌, ◌≡◌, refl, ap, ◌∙◌, ℤ, true, false, some, codes, length, get_elem?,
  arith, ltb, leb, ◌==◌, get_elem?-bound, if_true, ◌>>=◌,
}
use ctx_db.Collections.{keys}
use ctx_db.Wire.{QueryRequest}
use ctx_db.Message.{Config, config_of}
use ctx_db.Message.RoundTrip.{AreServers, AreDistinct, config_of-wire_config}
use ctx_db.Raft.Types.{RaftNode, Env, is_leader}
use ctx_db.Service.{answer, notified, do_log_config}
use ctx_db.Shardmaster.{ShardmasterServer, get_config, on_query_apply}
use ctx_db.Shardmaster.History.{IsNumbered}
use ctx_db.Shardmaster.Handlers.{on_query, is_known, config_reply, num_of, end_query}
use ctx_db.Shardmaster.Client.{query_result}
use ctx_db.Shardkv.{ShardkvServer}
use ctx_db.Shardkv.Background.{poll}

-- A configuration that the text form can carry.
abbrev pub IsSendable : Config → Type 0
IsSendable c = AreServers c.groups × AreDistinct (keys c.groups)

-- The configuration in an answer, as the client reads it: with the number of the request.
reply_read :
    (r : QueryRequest) (c : Config)
    → IsSendable c
    → query_result (config_reply r c) ≡ record c { num = num_of r.num }
unfolding query_result config_reply config_of
reply_read r c (names, distinct) =
    ap (λ (x : Config). record x { num = num_of r.num }) (config_of-wire_config c names distinct)

-- A leader that is asked for a number in the history, above 0 and below 2 ^ 32, answers at once
-- and stays as it was; the client reads the configuration of that number as the history has it.
-- The history is numbered by place, and the groups of the configuration have different ids, and
-- servers whose names are not empty and hold no "-".
known_number_answered :
    (env : Env) (k : ℕ) (c : Config) (n : RaftNode ShardmasterServer)
    → is_leader n.state ≡ true
    → 0 < k
    → k < 2 ^ 32
    → IsNumbered n.server.configs
    → get_elem? n.server.configs k ≡ some c
    → IsSendable c
    → let r : QueryRequest = record { num = ℤ.pos k } in
      (on_query env r n ≡ some (answer (config_reply r c), n))
      × (query_result (config_reply r c) ≡ c)
unfolding on_query is_known get_config
known_number_answered env k c n leads above small numbered found sendable =
    let bound = get_elem?-bound n.server.configs k c found in
    let test : ltb k (length n.server.configs) ≡ true = ground (arith, bound) in
    let first : ltb 0 k ≡ true = ground arith in
    let inside : leb (length n.server.configs) k ≡ false = ground (arith, bound) in
    let r : QueryRequest = record { num = ℤ.pos k } in
    let num : num_of (ℤ.pos k) ≡ c.num = omega (arith, numbered k c found) in
    (
      rw (leads, first, test, inside, found) refl,
      reply_read r c sendable ∙ ap (λ (i : ℕ). record c { num = i }) num,
    )

-- A number that the history does not have, as `get_config` sees it.
abbrev pub IsUnknown : ℤ → ShardmasterServer → Type 0
IsUnknown (ℤ.pos k) s = length s.configs ≤ k
IsUnknown (ℤ.negsuc k) s = Unit {0}

unknown-newest :
    (num : ℤ) (s : ShardmasterServer)
    → IsUnknown num s
    → get_config num s ≡ get_elem? s.configs (length s.configs - 1)
unfolding get_config
unknown-newest (ℤ.pos k) s h =
    let test : leb (length s.configs) k ≡ true = ground arith in if_true _ test
unknown-newest (ℤ.negsuc k) s h = refl

-- A query for a number below 2 ^ 32 that is past the end of the history is answered, once it is
-- applied, with the newest configuration under the number that was asked for, where the groups of
-- that configuration have different ids, and servers whose names are not empty and hold no "-". So
-- a leading group that polls for the number after its own, and gets this answer, logs the newest
-- configuration under that next number.
pub unknown_number_renumbers :
    (env : Env) (k : ℕ) (newest : Config) (s m : ShardmasterServer) (n : RaftNode ShardkvServer)
    → n.server.config.num + 1 ≡ k
    → k < 2 ^ 32
    → length s.configs ≤ k
    → get_elem? s.configs (length s.configs - 1) ≡ some newest
    → IsSendable newest
    → on_query_apply (ℤ.pos k) s ≡ some m
    → is_leader n.state ≡ true
    → let r : QueryRequest = record { num = ℤ.pos k } in
      let renumbered = record newest { num = k } in
      (query_result (end_query notified r m) ≡ renumbered)
      × (poll env (λ _. query_result (end_query notified r m)) n
          ≡ (do (res, n') ← do_log_config env (codes "newconfig") renumbered n; some n'))
unfolding on_query_apply end_query poll
unknown_number_renumbers env k newest s m n next small beyond found sendable run leads =
    let got = unknown-newest (ℤ.pos k) s beyond ∙ found in
    let is_m : m ≡ record s { query_config = newest; flag = true } = ground (arith, got, run) in
    let r : QueryRequest = record { num = ℤ.pos k } in
    let small' : num_of (ℤ.pos k) ≡ k = omega arith in
    let answered : query_result (end_query notified r m) ≡ record newest { num = k } =
      ap (λ x. query_result (end_query notified r x)) is_m
      ∙ reply_read r newest sendable
      ∙ ap (λ (i : ℕ). record newest { num = i }) small' in
    let asked : k == n.server.config.num + 1 ≡ true = ground arith in
    (answered, rw (answered, leads, asked) refl)
