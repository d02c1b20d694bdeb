-- ===== src/Raft/Commit/Joint.antt =====
-- Commits under joint consensus (`on_append_entries_response`, src/node_rpc_a.cpp): what the votes of
-- both configurations are.
use ctx_db.Prelude.{
  ap, if◌then◌else◌, ℕ, ◌+◌, ◌-◌, ◌%◌, ◌≤◌, [], ◌∷◌, not, ◌||◌, length, ◌/◌, ◌<◌, ◌≡◌, refl, sym,
  ◌∙◌, ◌⊎◌, inl, inr, Bool, ◌&&◌, List, Option, none, some, Text, arith, leb, ◌==◌, Bool-cases,
  bind_some, if_false, if_true,
}
use ctx_db.Raft.Types.{u64_mod, ConfState, old_joint, joint, Configuration, RaftNode, NodePeer}
use ctx_db.Raft.Log.{gl}
use ctx_db.Nuke.{contains}
use ctx_db.Raft.Conf.{is_in_old, is_in_new, make_configuration, count_added, count_removed}
use ctx_db.Raft.Commit.Majority.{OfTerm}
use ctx_db.Raft.Peers.{
  enough_in, enough_votes_trans_conf, enough_joint, joint_votes, Answer, enough, not_enough,
  is_majority,
}
use ctx_db.Raft.Apply.{Callbacks}
use ctx_db.Raft.Commit.{commit_by, Flags, try_commit}

-- The peers that pass a test.
unfoldable pub count_if : (NodePeer → Bool) → List (Text × NodePeer) → ℕ
count_if f [] = 0
count_if f ((k, p) ∷ ps) = if f p then count_if f ps + 1 else count_if f ps

-- Of the names to add those that are new, and of the names to remove those that are there.
unfoldable pub count_absent : List Text → List Text → ℕ
unfolding contains
count_absent old [] = 0
count_absent old (s ∷ ss) = if contains old s then count_absent old ss else count_absent old ss + 1

unfoldable pub count_present : List Text → List Text → ℕ
unfolding contains
count_present old [] = 0
count_present old (s ∷ ss) =
    if contains old s then count_present old ss + 1 else count_present old ss

-- The number of members of C_old, and that of C_new.
abbrev pub old_size : Configuration → ℕ
old_size c = length c.old

abbrev pub new_size : Configuration → ℕ
new_size c = length c.old + count_absent c.old c.app - count_present c.old c.rem

-- A name is in C_new: in C_old and not removed, or added.
abbrev pub stays_or_joins : Configuration → Text → Bool
stays_or_joins c k = (contains c.old k && not (contains c.rem k)) || contains c.app k

added-lem :
    (old ss : List Text) (n : ℕ)
    → n + length ss < u64_mod
    → count_added old ss n ≡ n + count_absent old ss
unfolding count_absent
added-lem old [] n h = omega arith
added-lem old (s ∷ ss) n h = elim (Bool-cases (contains old s)) [
  | inl there ↦ rw there (added-lem old ss n (omega arith))
  | inr new ↦
      let fits : (n + 1) % u64_mod ≡ n + 1 = omega arith in
      rw (new, fits) (added-lem old ss (n + 1) (omega arith) ∙ omega arith)
]

removed-lem :
    (old ss : List Text) (n : ℕ)
    → n < u64_mod
    → count_present old ss ≤ n
    → count_removed old ss n ≡ n - count_present old ss
unfolding count_present
removed-lem old [] n h le = omega arith
removed-lem old (s ∷ ss) n h le = elim (Bool-cases (contains old s)) [
  | inr other ↦ rw other (removed-lem old ss n h (rw other at le))
  | inl there ↦
      let le' : count_present old ss + 1 ≤ n = rw there at le in
      let fits : (n + u64_mod - 1) % u64_mod ≡ n - 1 = omega arith in
      rw (there, fits) (removed-lem old ss (n - 1) (omega arith) (omega arith) ∙ omega arith)
]

-- The thresholds of a configuration are the sizes of C_old and C_new.
abbrev pub HasSizes : Configuration → Type 0
HasSizes c = (c.oldvote_thres ≡ old_size c) × (c.newvote_thres ≡ new_size c)

-- So they are where `init` sets them, as long as the sizes do not wrap.
pub make_configuration-HasSizes :
    (a r o : List Text)
    → length o + length a < u64_mod
    → count_present o r ≤ length o + count_absent o a
    → length o + count_absent o a < u64_mod
    → HasSizes (make_configuration a r o)
unfolding make_configuration
make_configuration-HasSizes a r o fits covered small = (
  refl,
  ap (count_removed o r) (added-lem o a (length o) fits)
      ∙ removed-lem o r (length o + count_absent o a) small covered,
)

joint_votes-lem :
    (f : NodePeer → Bool) (c : Configuration) (ps : List (Text × NodePeer)) (o n : ℕ) (v : ℕ × ℕ)
    → joint_votes f c ps o n ≡ some v
    → (v.0 ≡ o + count_if (λ p. f p && contains c.old p.name) ps)
      × (v.1 ≡ n + count_if (λ p. f p && stays_or_joins c p.name) ps)
unfolding joint_votes count_if is_in_old is_in_new
joint_votes-lem f c [] o n v h = (ground (arith, h), ground (arith, h))
joint_votes-lem f c ((k, p) ∷ ps) o n v h = elim (Bool-cases p.voting_rights) [
  | inr without ↦ absurd (ground (arith, without, h))
  | inl with_rights ↦
      let (older, newer) =
        joint_votes-lem f c ps (if f p && is_in_old c p.name then o + 1 else o)
          (if f p && is_in_new c p.name then n + 1 else n) v (sym (if_true _ with_rights) ∙ h) in
      (ground (arith, older), ground (arith, newer))
]

elim_some {ℓ κ} :
    {A : Type ℓ} {B : Type κ} (o : Option A) (x : B) (f : A → B) (b : A)
    → o ≡ some b
    → elim o [ none ↦ x | some a ↦ f a ] ≡ f b
elim_some none x f b h = cc
elim_some (some a) x f b h = ground (arith, h)

module _ {S : Type 0} where
  -- The members of C_old that have the entry at index i are more than half of it, and so are those of
  -- C_new. The leader counts as a member of C_old.
  abbrev pub JointReplicated : ℕ → Configuration → RaftNode S → Type 0
  JointReplicated i c n =
      (old_size c / 2 < 1 + count_if (λ p. leb i p.match_index && contains c.old p.name) n.peers)
      × (new_size c / 2
          < (if stays_or_joins c n.name then 1 else 0)
            + count_if (λ p. leb i p.match_index && stays_or_joins c p.name) n.peers)

  enough_joint-lem :
      (i : ℕ) (c : Configuration) (n x : RaftNode S) (a : Answer)
      → HasSizes c
      → enough_joint (λ p. leb i p.match_index) c n ≡ some (a, x)
      → (x.commit_index ≡ n.commit_index)
        × ((a ≡ not_enough) ⊎ (a ≡ enough) × JointReplicated i c n)
  unfolding is_in_new is_in_old
  enough_joint-lem i c n x a (is_old, is_new) h =
      let ((o, w), counted, h1) =
        bind_some
          (joint_votes (λ p. leb i p.match_index) c n.peers 1 (if is_in_new c n.name then 1 else 0))
          _ h in
      let (older, newer) =
        joint_votes-lem (λ p. leb i p.match_index) c n.peers 1 (if is_in_new c n.name then 1 else 0)
          (o, w) counted in
      elim (Bool-cases (is_majority o c.oldvote_thres && is_majority w c.newvote_thres)) [
        | inl both ↦ (
          ground arith,
          inr (
            ground (arith, both),
            (ground (arith, both, older, is_old), ground (arith, both, newer, is_new)),
          ),
        )
        | inr short ↦ (ground arith, inl (ground (arith, short)))
      ]

module _ {S : Type 0} (cb : Callbacks S) where
  joint_voted-lem :
      (i : ℕ) (finish : Bool) (c : Configuration) (s : ConfState) (n x m : RaftNode S) (a : Answer)
      (f : Flags)
      → c.state ≡ s
      → (s ≡ old_joint) ⊎ (s ≡ joint)
      → (x.commit_index ≡ n.commit_index)
        × ((a ≡ not_enough) ⊎ (a ≡ enough) × JointReplicated i c n)
      → commit_by cb a c i finish x ≡ some (f, m)
      → (m.commit_index ≡ n.commit_index) ⊎ (m.commit_index ≡ i) × JointReplicated i c n
  joint_voted-lem i finish c s n x m a f is_s which (same, inl short) h = ground (arith, short)
  joint_voted-lem i finish c s n x m a f is_s (inl old) (same, inr (many, votes)) h =
      inr (ground (arith, many, is_s ∙ old), votes)
  joint_voted-lem i finish c s n x m a f is_s (inr late) (same, inr (many, votes)) h =
      inr (ground (arith, many, is_s ∙ late), votes)

  enough_votes_trans_conf-joint :
      (i : ℕ) (c : Configuration) (n : RaftNode S)
      → n.trans_conf ≡ some c
      → (c.state ≡ old_joint) ⊎ (c.state ≡ joint)
      → enough_votes_trans_conf (λ p. leb i p.match_index) n
        ≡ enough_joint (λ p. leb i p.match_index) c n
  unfolding enough_votes_trans_conf
  enough_votes_trans_conf-joint i c n there (inl old) =
      elim_some n.trans_conf _ _ c there ∙ ap (λ s. enough_in (λ p. leb i p.match_index) c s n) old
  enough_votes_trans_conf-joint i c n there (inr late) =
      elim_some n.trans_conf _ _ c there ∙ ap (λ s. enough_in (λ p. leb i p.match_index) c s n) late

  -- While the joint configuration C_{old,new} is in force, whose thresholds are the sizes of C_old and
  -- C_new, the vote on index i leaves the commit index, or moves it forward to i; then the entry at i
  -- is of the present term, and the leader with those peers in C_old whose `match_index` has reached i
  -- are more than half of C_old, and the members of C_new that have it, the leader only where it is one
  -- of them, are more than half of C_new.
  pub joint_commit_needs_both :
      (i : ℕ) (finish : Bool) (c : Configuration) (n m : RaftNode S) (f : Flags)
      → n.trans_conf ≡ some c
      → HasSizes c
      → (c.state ≡ old_joint) ⊎ (c.state ≡ joint)
      → try_commit cb i finish n ≡ some (f, m)
      → (m.commit_index ≡ n.commit_index)
        ⊎ ((n.commit_index < i) × (m.commit_index ≡ i) × OfTerm i n × JointReplicated i c n)
  unfolding try_commit
  joint_commit_needs_both i finish c n m f there sizes which h =
      elim (Bool-cases (leb i n.commit_index)) [
        | inl old ↦ ground arith
        | inr ahead ↦
            let (e, found, h1) = bind_some (gl n i) _ (sym (if_false _ ahead) ∙ h) in
            elim (Bool-cases (n.current_term == e.term)) [
              | inr other ↦ ground arith
              | inl own ↦
                  let own' = own in
                  let h2 = sym (elim_some n.trans_conf _ _ c there) ∙ rw own at h1 in
                  let (v, voted, h3) =
                    bind_some (enough_votes_trans_conf (λ p. leb i p.match_index) n) _ h2 in
                  let counted =
                    enough_joint-lem i c n v.1 v.0 sizes
                      (sym (enough_votes_trans_conf-joint i c n there which) ∙ voted) in
                  let out =
                    joint_voted-lem i finish c c.state n v.1 m v.0 f refl which counted h3 in
                  let at : OfTerm i n = (e, found, ground (arith, own')) in
                  elim out [
                    | inl same ↦ inl same
                    | inr (moved, votes) ↦ inr (ground (arith, ahead), moved, at, votes)
                  ]
            ]
      ]
