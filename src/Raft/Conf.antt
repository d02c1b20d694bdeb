-- ===== src/Raft/Conf.antt =====
-- `RaftNode::Configuration` (src/node.h): its text form, its thresholds, its membership tests.
pub mod RoundTrip
use ctx_db.Prelude.{
  ℕ, ◌+◌, ◌-◌, ◌%◌, Bool, not, ◌&&◌, ◌||◌, List, [], ◌∷◌, ◌++◌, Option, Text, length, ◌>>=◌,
  get_elem?, some, if◌then◌else◌,
}
use ctx_db.Nuke.{split, join, contains}
use ctx_db.Raft.Types.{Configuration, staging, default_index_cursor, u64_mod}

-- The two loops of `init`, over the names to add and over those to remove; the counter is a
-- `size_t`.
abbrev pub count_added : List Text → List Text → ℕ → ℕ
count_added old [] n = n
count_added old (s ∷ ss) n = count_added old ss (if contains old s then n else (n + 1) % u64_mod)

abbrev pub count_removed : List Text → List Text → ℕ → ℕ
count_removed old [] n = n
count_removed old (s ∷ ss) n =
    count_removed old ss (if contains old s then (n + u64_mod - 1) % u64_mod else n)

-- The three vectors with the thresholds of `init`, and the other fields as they are declared.
unfoldable pub make_configuration : List Text → List Text → List Text → Configuration
unfolding contains
make_configuration a r o = record {
  app = a;
  rem = r;
  old = o;
  index = default_index_cursor;
  index2 = default_index_cursor;
  oldvote_thres = length o;
  newvote_thres = count_removed o r (count_added o a (length o));
  state = staging;
}

abbrev pub newline : ℕ
newline = 10

abbrev pub semicolon : ℕ
semicolon = b';'

unfoldable pub to_string : Configuration → Text
unfolding join
to_string c =
    (join semicolon c.app ++ newline ∷ [])
    ++ (join semicolon c.rem ++ newline ∷ [])
    ++ (join semicolon c.old ++ newline ∷ [])

-- `v1[k]` past the end fails.
unfoldable pub from_string : Text → Option Configuration
unfolding split make_configuration
from_string s = do
  let v1 = split newline s
  app ← get_elem? v1 0
  rem ← get_elem? v1 1
  old ← get_elem? v1 2
  some (make_configuration (split semicolon app) (split semicolon rem) (split semicolon old))

unfoldable pub is_in_old : Configuration → Text → Bool
unfolding contains
is_in_old c peer = contains c.old peer

unfoldable pub is_in_new : Configuration → Text → Bool
unfolding contains is_in_old
is_in_new c peer = (is_in_old c peer && not (contains c.rem peer)) || contains c.app peer

unfoldable pub is_in_joint : Configuration → Text → Bool
unfolding is_in_old is_in_new
is_in_joint c peer = is_in_old c peer || is_in_new c peer
