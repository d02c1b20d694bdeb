-- ===== src/Kv/Client.antt =====
-- `KvClient` (src/kv_client.h): a request is sent at most ten times. The replies are given as a list; a
-- call that fails is `none` and leaves the new response as it was made.
use ctx_db.Prelude.{
  ℕ, zero, suc, Bool, true, false, List, [], ◌∷◌, ◌++◌, Option, none, some, Text, codes, ◌==◌,
  if◌then◌else◌,
}
use ctx_db.Nuke.{contains, is_empty}
use ctx_db.Service.{success, fail, again}
use ctx_db.Kv.{HandleClientRequest, HandleClientResponse}

-- `kv_clients` has the keys of `kvClients`.
pub record KvClient : Type 0 where
  pub addrs : List Text
  pub kv_clients : List Text
  pub current_addr : Text

unfoldable pub add_kv_node : Text → KvClient → KvClient
add_kv_node addr c = record {
  addrs = c.addrs ++ addr ∷ [];
  kv_clients = addr ∷ c.kv_clients;
  current_addr = if is_empty c.current_addr then addr else c.current_addr;
}

unfoldable pub set_current_addr : Text → KvClient → KvClient
set_current_addr addr c = record c { current_addr = addr }

-- The requests of `Get`, with whatever the caller's `value` is, and of `Set`.
abbrev pub get_request : Text → Text → HandleClientRequest
get_request key value = record { request_type = codes "GET"; key = key; value = value }

abbrev pub set_request : Text → Text → HandleClientRequest
set_request key value = record { request_type = codes "SET"; key = key; value = value }

-- How a call ends: with a result, at the end of the function, which returns nothing, at a null
-- pointer, or it waits for a reply.
pub data Outcome : Type 0 where
  returned : Bool → KvClient → Outcome
  ran_out calling : KvClient → Outcome
  fault : Outcome

abbrev received : Option HandleClientResponse → HandleClientResponse
received none = record { flag = 0; leader_name = []; value = [] }
received (some r) = r

-- The loop of `Get` and `Set`, with the tries left. `Get` leaves the caller's `value` as it is.
unfoldable pub try_loop : ℕ → List (Option HandleClientResponse) → KvClient → Outcome
unfolding contains
try_loop zero replies c = ran_out c
try_loop (suc x) [] c = calling c
try_loop (suc x) (reply ∷ replies) c =
    let r = received reply in
    let redirected = try_loop x replies (record c { current_addr = r.leader_name }) in
    let repeated = try_loop x replies c in
    if contains c.kv_clients c.current_addr
    then (if r.flag == again
        then redirected
        else if r.flag == fail
        then returned false c
        else if r.flag == success
        then returned true c
        else repeated)
    else fault

unfoldable pub set : List (Option HandleClientResponse) → KvClient → Outcome
unfolding try_loop
set replies c = try_loop 10 replies c

-- `Get` from its `value` to the result and the `value` after it.
unfoldable pub get : Text → List (Option HandleClientResponse) → KvClient → Outcome × Text
unfolding try_loop
get value replies c = (try_loop 10 replies c, value)
