-- ===== src/Shardmaster/Tests.antt =====
-- The theorems on the shard master at a short history.
pub mod Requests
use ctx_db.Prelude.{
  ℕ, zero, suc, ◌≡◌, ◌≢◌, refl, inr, ℤ, false, List, [], ◌∷◌, ◌++◌, Option, none, some, Text, arith,
  get_elem?,
}
use ctx_db.Collections.{member}
use ctx_db.Nuke.RoundTrip.{IsName}
use ctx_db.Message.RoundTrip.{config_of-wire_config}
use ctx_db.Message.{
  dash, config_of, wire_config, Config, Command, join_apply, leave_apply, move_apply,
}
use ctx_db.Shardmaster.{
  ShardmasterServer, init_server, init_config, get_config, apply, run, on_move_apply, erase_groups,
  leave_shards,
}
use ctx_db.Shardmaster.History.{IsNumbered, history_append_only, retry_ignored}
use ctx_db.Shardmaster.Remaining.{IsAssigned, leave_assigns_to_remaining}

abbrev or_init : Option ShardmasterServer → ShardmasterServer
or_init none = init_server
or_init (some s) = s

abbrev server_1 : Text
server_1 = 49 ∷ []

abbrev two_groups : List (ℕ × List Text)
two_groups = (1, server_1 ∷ []) ∷ (2, server_1 ∷ []) ∷ []

abbrev commands : List Command
commands = join_apply 7 1 two_groups ∷ leave_apply 7 2 (1 ∷ []) ∷ move_apply 8 1 0 1 ∷ []

abbrev after_all : ShardmasterServer
after_all = or_init (run commands init_server)

init-IsNumbered : IsNumbered (init_config ∷ [])
init-IsNumbered zero c h = ground arith
init-IsNumbered (suc i) c h = cc

history_append_only_example :
    IsNumbered after_all.configs
    × ((added : List Config) × (after_all.configs ≡ init_server.configs ++ added))
unfolding run
history_append_only_example =
    history_append_only commands init_server after_all init-IsNumbered refl

abbrev joined : ShardmasterServer
joined = or_init (apply (join_apply 7 2 two_groups) init_server)

retry_ignored_example :
    apply (leave_apply 7 1 (1 ∷ [])) joined ≡ some (record joined { flag = false })
unfolding apply
retry_ignored_example =
    retry_ignored (join_apply 7 2 two_groups) (leave_apply 7 1 (1 ∷ [])) 7 2 1 init_server joined
      refl refl (omega arith) refl

abbrev shards : List ℕ
shards = 1 ∷ 1 ∷ 1 ∷ 1 ∷ 1 ∷ 2 ∷ 2 ∷ 2 ∷ 2 ∷ 2 ∷ []

shards-IsAssigned : IsAssigned two_groups shards
unfolding member
shards-IsAssigned = (
  refl,
  (
    inr refl,
    (
      inr refl,
      (
        inr refl,
        (inr refl, (inr refl, (inr refl, (inr refl, (inr refl, (inr refl, (inr refl, tt))))))),
      ),
    ),
  ),
)

leave_assigns_to_remaining_example :
    (s : List ℕ) × (leave_shards (1 ∷ []) (erase_groups (1 ∷ []) two_groups) shards ≡ some s)
    × IsAssigned (erase_groups (1 ∷ []) two_groups) s
leave_assigns_to_remaining_example =
    leave_assigns_to_remaining (1 ∷ []) two_groups shards shards-IsAssigned

abbrev logged_config : Config
logged_config = record { num = 2; shards = shards; groups = two_groups }

server_1-IsName : IsName dash server_1
server_1-IsName = (λ e. cc, (λ e. ground (arith, e), tt))

config_of-wire_config_example : config_of (wire_config logged_config) ≡ logged_config
unfolding member
config_of-wire_config_example =
    config_of-wire_config logged_config ((server_1-IsName, tt), ((server_1-IsName, tt), tt))
      (refl, (refl, tt))
