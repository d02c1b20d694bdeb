-- ===== src/Shardmaster/Client/Calls.antt =====
-- How the calls of a client end (src/shardmaster_client.cpp).
use ctx_db.Prelude.{
  ℕ, ◌≡◌, refl, true, false, List, [], ◌∷◌, ◌++◌, map, Option, none, some, Text, All,
}
use ctx_db.Nuke.{contains}
use ctx_db.Wire.{FlagResponse}
use ctx_db.Service.{success, fail, again}
use ctx_db.Shardmaster.Client.{
  ShardmasterClient, new_client, add_shardmaster_node, returned, fault, call_loop, next_addr,
  send_change,
}

module _ {R : Type 0} (flag_of : R → ℕ) (leader_of : R → Text) where
  -- The address after a chain of redirections.
  abbrev pub last_leader : Text → List R → Text
  last_leader addr [] = addr
  last_leader addr (r ∷ rs) = last_leader (leader_of r) rs

  -- A response that sends the client to a node that it knows.
  abbrev pub Redirects : List Text → R → Type 0
  Redirects known r = (flag_of r ≡ again) × (contains known (leader_of r) ≡ true)

  -- A client that calls a node it knows, and is sent from one known node to the next until one
  -- answers SUCCESS, returns with this answer after exactly these calls, and calls the node that
  -- gave it from then on.
  pub redirected_until_success :
      (rs : List R) (r old : R) (rest : List (Option R)) (c : ShardmasterClient)
      → contains c.rpc_clients c.current_addr ≡ true
      → All (Redirects c.rpc_clients) rs
      → flag_of r ≡ success
      → call_loop flag_of leader_of (map some rs ++ some r ∷ rest) old c
        ≡ returned r (record c { current_addr = last_leader c.current_addr rs })
  unfolding call_loop
  redirected_until_success [] r old rest c known h ok = rw (known, ok) refl
  redirected_until_success (x ∷ rs) r old rest c known h ok =
      rw (known, h.0.0)
        (redirected_until_success rs r x rest (record c { current_addr = leader_of x }) h.0.1 h.1
          ok)

-- The clients that `AddShardmasterNode` makes of a new one.
abbrev pub connect : List Text → ShardmasterClient → ShardmasterClient
connect [] c = c
connect (a ∷ as') c = connect as' (add_shardmaster_node a c)

connect-addrs : (as' : List Text) (c : ShardmasterClient) → (connect as' c).addrs ≡ c.addrs
unfolding add_shardmaster_node
connect-addrs [] c = refl
connect-addrs (a ∷ as') c = connect-addrs as' (add_shardmaster_node a c)

-- A client that was set up with `AddShardmasterNode`, in whatever order, and calls a node that it
-- knows: where the first call fails, the request is taken to have succeeded; where the first answer
-- is FAIL, the client divides by zero, since no address was put into `addrs`; and where it is sent
-- to a node that it does not know, its next call dereferences a null pointer.
pub first_call_errors :
    (id : ℕ) (names : List Text) (rest : List (Option FlagResponse)) (name : Text)
    (next : Option FlagResponse)
    → let c = connect names (new_client id) in
      contains c.rpc_clients c.current_addr ≡ true
      → (send_change (none ∷ rest) c ≡ returned (record { flag = 0; leader_name = [] }) c)
        × (send_change (some (record { flag = fail; leader_name = [] }) ∷ rest) c ≡ fault)
        × (contains c.rpc_clients name ≡ false
            → send_change (some (record { flag = again; leader_name = name }) ∷ next ∷ rest) c
              ≡ fault)
unfolding send_change call_loop next_addr
first_call_errors id names rest name next known =
    let empty = connect-addrs names (new_client id) in
    (rw known refl, rw (known, empty) refl, λ unknown. rw (known, unknown) refl)
