-- ===== src/Raft/Log.antt =====
-- The log of a node (src/node.h): positions, lookup, appending. `gl` fails where the source asserts,
-- and where it would read past the end of the vector.
pub mod Contiguous
use ctx_db.Prelude.{
  ℕ, ◌+◌, ◌-◌, Bool, not, ◌&&◌, ◌||◌, List, [], ◌∷◌, ◌++◌, Option, none, some, Text, length,
  get_elem?, get_last?, take, leb, ◌==◌, if◌then◌else◌,
}
use ctx_db.Raft.Types.{RaftNode, LogEntry, default_index_cursor, default_term_cursor}

-- `logs[0].index()`, or -1.
unfoldable pub base_of : List LogEntry → ℕ
base_of [] = default_index_cursor
base_of (e ∷ es) = e.index

-- `logs.back().index()` and `logs.back().term()`, or the default cursors.
unfoldable pub last_index_of : List LogEntry → ℕ
last_index_of [] = default_index_cursor
last_index_of (e ∷ []) = e.index
last_index_of (e ∷ f ∷ es) = last_index_of (f ∷ es)

unfoldable pub last_term_of : List LogEntry → ℕ
last_term_of [] = default_term_cursor
last_term_of (e ∷ []) = e.term
last_term_of (e ∷ f ∷ es) = last_term_of (f ∷ es)

-- `logs[index - base]`, with the assertion `index - base >= 0`.
unfoldable pub entry_at : List LogEntry → ℕ → Option LogEntry
unfolding base_of
entry_at l i = if leb (base_of l) i then get_elem? l (i - base_of l) else none

-- The search of `find_entry` from the back: the position of the last entry with this index and
-- term. The loop meets the highest position first.
unfoldable pub find_position : List LogEntry → ℕ → ℕ → Option ℕ
find_position [] index term = none
find_position (e ∷ es) index term = elim (find_position es index term) [
  | some i ↦ some (i + 1)
  | none ↦ if e.term == term && e.index == index then some 0 else none
]

module _ {S : Type 0} where
  unfoldable pub get_base_index : RaftNode S → ℕ
  unfolding base_of
  get_base_index n = base_of n.logs

  -- The value of `last_log_index`; elections, votes and what sends entries take it without its
  -- assertion.
  unfoldable pub last_log_index : RaftNode S → ℕ
  unfolding last_index_of
  last_log_index n = last_index_of n.logs

  -- What `last_log_index` asserts: where the first index is 0, which is kept as 1, the size of the log
  -- is the last index and one.
  unfoldable pub sizes_agree : RaftNode S → Bool
  unfolding get_base_index last_log_index
  sizes_agree n = not (get_base_index n == 1) || length n.logs == last_log_index n

  unfoldable pub last_log_term : RaftNode S → ℕ
  unfolding last_term_of
  last_log_term n = last_term_of n.logs

  unfoldable pub gl : RaftNode S → ℕ → Option LogEntry
  unfolding entry_at
  gl n i = entry_at n.logs i

  -- `get_log`: the entry, or a failure past the last one.
  unfoldable pub get_log : RaftNode S → ℕ → Option LogEntry
  unfolding last_log_index gl
  get_log n i = if leb i (last_log_index n) then gl n i else none
