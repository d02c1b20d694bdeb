-- ===== src/Message/RoundTrip.antt =====
-- A configuration through the log: `do_log` of src/node_rpc_a.cpp writes it into an entry, and
-- `do_apply` of src/node.cpp reads it back.
use ctx_db.Prelude.{
  append_assoc, append-nil, sym, ℕ, ◌≡◌, refl, sym, ap, ◌∙◌, false, List, [], ◌∷◌, ◌++◌, Text, All,
  arith, ◌==◌, subst,
}
use ctx_db.Collections.{put, keys, member}
use ctx_db.Nuke.RoundTrip.{IsName, split-join}
use ctx_db.Message.{Config, dash, groups_of, wire_groups, config_of, wire_config}

-- No key stands twice.
abbrev pub AreDistinct : List ℕ → Type 0
AreDistinct [] = Unit {0}
AreDistinct (k ∷ ks) = (member k ks ≡ false) × AreDistinct ks

-- Servers that the text form can hold.
abbrev pub AreServers : List (ℕ × List Text) → Type 0
AreServers m = All (λ (e : ℕ × List Text). All (IsName dash) e.1) m

member-middle :
    (j k : ℕ) (v : List Text) (a m : List (ℕ × List Text))
    → member j (keys (a ++ (k, v) ∷ m)) ≡ false
    → (k == j) ≡ false
unfolding member
member-middle j k v [] m h = ground arith
member-middle j k v ((i, w) ∷ a) m h = member-middle j k v a m (ground arith)

pub put-append :
    (k : ℕ) (v : List Text) (a m : List (ℕ × List Text))
    → AreDistinct (keys (a ++ (k, v) ∷ m))
    → put k v a ≡ a ++ (k, v) ∷ []
unfolding put
put-append k v [] m h = refl
put-append k v ((j, w) ∷ a) m h =
    let other : (j == k) ≡ false = ground (arith, member-middle j k v a m h.0) in
    rw other (ap (◌∷◌ (j, w)) (put-append k v a m h.1))

groups_of-wire_groups :
    (m a : List (ℕ × List Text))
    → AreServers m
    → AreDistinct (keys (a ++ m))
    → groups_of (wire_groups m) a ≡ a ++ m
unfolding groups_of wire_groups
groups_of-wire_groups [] a names distinct = sym (append-nil a)
groups_of-wire_groups ((k, v) ∷ m) a names distinct =
    let text = split-join dash v names.0 in
    let added = put-append k v a m distinct in
    let moved = sym (append_assoc a ((k, v) ∷ []) m) in
    let rest =
      groups_of-wire_groups m (a ++ (k, v) ∷ []) names.1
        (subst (λ l. AreDistinct (keys l)) moved distinct) in
    ap (λ w. groups_of (wire_groups m) (put k w a)) text
    ∙ ap (groups_of (wire_groups m)) added
    ∙ rest
    ∙ sym moved

-- A configuration whose groups have different ids, and servers whose names are not empty and hold no
-- "-", is read back from a log entry as it was written.
pub config_of-wire_config :
    (c : Config) → AreServers c.groups → AreDistinct (keys c.groups) → config_of (wire_config c) ≡ c
unfolding config_of wire_config
config_of-wire_config c names distinct =
    ap (λ g. record c { groups = g }) (groups_of-wire_groups c.groups [] names distinct)
