-- ===== src/Kv/Calls.antt =====
-- How many calls a `KvClient` makes (src/kv_client.h).
use ctx_db.Prelude.{
  ℕ, zero, suc, ◌≡◌, ◌⊎◌, refl, ltb, take, if◌then◌else◌, true, false, List, [], ◌∷◌, ◌++◌, map,
  Option, some, Text, All, length, arith, Bool,
}
use ctx_db.Nuke.{contains}
use ctx_db.Service.{success, fail, again}
use ctx_db.Kv.{HandleClientResponse}
use ctx_db.Kv.Client.{KvClient, Outcome, returned, ran_out, try_loop, set}

-- A response that sends the client to a node that it knows.
abbrev pub Redirects : List Text → HandleClientResponse → Type 0
Redirects known r = (r.flag ≡ again) × (contains known r.leader_name ≡ true)

abbrev pub last_leader : Text → List HandleClientResponse → Text
last_leader addr [] = addr
last_leader addr (r ∷ rs) = last_leader r.leader_name rs

-- The result that a flag stands for.
abbrev pub Decides : HandleClientResponse → Bool → Type 0
Decides r ok = (r.flag ≡ success) × (ok ≡ true) ⊎ (r.flag ≡ fail) × (ok ≡ false)

ltb-suc : (a b : ℕ) → ltb (suc a) (suc b) ≡ ltb a b
ltb-suc a b = ground arith

-- The loop with x tries left.
abbrev After : ℕ → List HandleClientResponse → Bool → KvClient → Outcome
After x rs ok c =
    if ltb (length rs) x
    then returned ok (record c { current_addr = last_leader c.current_addr rs })
    else ran_out (record c { current_addr = last_leader c.current_addr (take x rs) })

redirected_then_decided :
    (x : ℕ) (rs : List HandleClientResponse) (r : HandleClientResponse) (ok : Bool)
    (rest : List (Option HandleClientResponse)) (c : KvClient)
    → contains c.kv_clients c.current_addr ≡ true
    → All (Redirects c.kv_clients) rs
    → Decides r ok
    → try_loop x (map some rs ++ some r ∷ rest) c ≡ After x rs ok c
unfolding try_loop
redirected_then_decided zero [] r ok rest c known h d = refl
redirected_then_decided zero (s ∷ rs) r ok rest c known h d = ground arith
redirected_then_decided (suc x) [] r ok rest c known h d = ground (arith, known, d)
redirected_then_decided (suc x) (s ∷ rs) r ok rest c known h d =
    rw (known, h.0.0, ltb-suc (length rs) x)
      (redirected_then_decided x rs r ok rest (record c { current_addr = s.leader_name }) h.0.1 h.1
        d)

-- A `Set` of a client that calls a node it knows, and is sent from one known node to the next. Where
-- the answer after fewer than ten redirections is SUCCESS or FAIL, it returns true or false after
-- exactly these calls, and calls the node that gave the answer from then on. Otherwise it reaches,
-- after the first ten, the end of the function, which returns nothing.
pub set_within_ten :
    (rs : List HandleClientResponse) (r : HandleClientResponse) (ok : Bool)
    (rest : List (Option HandleClientResponse)) (c : KvClient)
    → contains c.kv_clients c.current_addr ≡ true
    → All (Redirects c.kv_clients) rs
    → Decides r ok
    → set (map some rs ++ some r ∷ rest) c ≡ (
        if ltb (length rs) 10
        then returned ok (record c { current_addr = last_leader c.current_addr rs })
        else ran_out (record c { current_addr = last_leader c.current_addr (take 10 rs) }))
unfolding set
set_within_ten rs r ok rest c known h d = redirected_then_decided 10 rs r ok rest c known h d
