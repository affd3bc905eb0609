-- ===== src/Engine/Run/Invariant.antt =====
-- What holds of a run between two operations, whatever the schedule.
use cpp20_workflow_engine.Shared.{
  ℕ, ◌+◌, ◌≤◌, ◌<◌, ◌≡◌, refl, ◌∙◌, some, List, [], ◌∷◌, arith, length, if◌then◌else◌, Bytes,
  str_eq, str_eq_iff, count,
}
use cpp20_workflow_engine.Shared.Int.{pos}
use cpp20_workflow_engine.Dag.{Edge, targets}
use cpp20_workflow_engine.Node.{NodeState, pending, running, success, failed, cancelled}
use cpp20_workflow_engine.Engine.{Engine}
use cpp20_workflow_engine.Engine.Run.{Thread}
use cpp20_workflow_engine.Engine.Run.Count.{
  total, one, owns, schedules, notifies, cancels, names, count_downs,
}

abbrev pub is_running : NodeState → ℕ
is_running pending = 0
is_running running = 1
is_running success = 0
is_running failed = 0
is_running cancelled = 0

abbrev pub not_success : NodeState → ℕ
not_success pending = 1
not_success running = 1
not_success success = 0
not_success failed = 1
not_success cancelled = 1

-- Failed or cancelled.
abbrev pub is_bad : NodeState → ℕ
is_bad pending = 0
is_bad running = 0
is_bad success = 0
is_bad failed = 1
is_bad cancelled = 1

-- Running, or ended by running.
abbrev pub has_run : NodeState → ℕ
has_run pending = 0
has_run running = 1
has_run success = 1
has_run failed = 1
has_run cancelled = 0

abbrev pub is_final : NodeState → ℕ
is_final pending = 0
is_final running = 0
is_final success = 1
is_final failed = 1
is_final cancelled = 1

-- The weights of the dependencies of `v`, added up.
abbrev pub into : List Edge → (Bytes → ℕ) → Bytes → ℕ
into [] w v = 0
into ((d, x) ∷ es) w v = (if str_eq v x then w d else 0) + into es w v

abbrev pub weigh : (Bytes → ℕ) → List Bytes → ℕ
weigh w [] = 0
weigh w (k ∷ ks) = w k + weigh w ks

pub into-eq :
    (es : List Edge) {w w' : Bytes → ℕ} (v : Bytes)
    → ((u : Bytes) → w' u ≡ w u)
    → into es w' v ≡ into es w v
into-eq [] v h = refl
into-eq ((d, x) ∷ es) v h = ground (arith, into-eq es v h, h d)

pub into-less :
    (es : List Edge) (w w' : Bytes → ℕ) (k v : Bytes)
    → ((u : Bytes) → w u ≡ one u k + w' u)
    → into es w v ≡ count v (targets es k) + into es w' v
into-less [] w w' k v h = omega arith
into-less ((d, x) ∷ es) w w' k v h = ground (arith, into-less es w w' k v h, h d, str_eq_iff v x)

pub weigh-eq :
    (ks : List Bytes) {w w' : Bytes → ℕ} → ((u : Bytes) → w' u ≡ w u) → weigh w' ks ≡ weigh w ks
weigh-eq [] h = refl
weigh-eq (k ∷ ks) h = omega (arith, weigh-eq ks h, h k)

pub weigh-less :
    (ks : List Bytes) (w w' : Bytes → ℕ) (k : Bytes)
    → ((u : Bytes) → w u ≡ one u k + w' u)
    → weigh w ks ≡ count k ks + weigh w' ks
weigh-less [] w w' k h = omega arith
weigh-less (j ∷ ks) w w' k h =
    ground (arith, weigh-less ks w w' k h, h j, str_eq_iff k j, str_eq_iff j k)

module _ {Ctx : Type 0} where
  abbrev pub state_of : Engine Ctx → Bytes → NodeState
  state_of e v = (e.node_states v).node_state

  -- The dependencies of `v` that have not succeeded, and those that failed or were cancelled.
  abbrev pub waiting : List Edge → Engine Ctx → Bytes → ℕ
  waiting es e = into es (λ u. not_success (state_of e u))

  abbrev pub spoilt : List Edge → Engine Ctx → Bytes → ℕ
  spoilt es e = into es (λ u. is_bad (state_of e u))

  abbrev pub finals : Engine Ctx → List Bytes → ℕ
  finals e = weigh (λ u. is_final (state_of e u))

  pub record Inv (es : List Edge) (ids : List Bytes) (e : Engine Ctx) (ts : List Thread)
      : Type 0 where
    -- the latch counts the nodes that are not final, and the final ones not yet counted down
    pub left : ℕ
    pub latch : e.completion_latch ≡ some left
    pub balance : left + finals e ids ≡ length ids + total count_downs ts
    pub lists : (u : Bytes) → (e.node_states u).downstream ≡ targets es u
    pub inside : (v : Bytes) → count v ids ≡ 0 → total (names v) ts ≡ 0
    pub outside : (v : Bytes) → count v ids ≡ 0 → state_of e v ≡ pending
    -- exactly one thread runs a running node, and none another
    pub owner : (v : Bytes) → total (owns v) ts ≡ is_running (state_of e v)
    pub counter :
        (v : Bytes)
        → (e.node_states v).uncompleted_deps ≡ pos (waiting es e v + total (notifies v) ts)
    pub ready :
        (v : Bytes)
        → 0 < count v ids
        → state_of e v ≡ pending
        → waiting es e v + total (notifies v) ts ≡ 0
        → 0 < total (schedules v) ts
    -- a node is scheduled, and has run, only if all its dependencies succeeded
    pub granted : (v : Bytes) → 0 < total (schedules v) ts → waiting es e v ≡ 0
    pub ran : (v : Bytes) → 0 < has_run (state_of e v) → waiting es e v ≡ 0
    -- a node behind a failed one is being cancelled or is no longer pending
    pub doomed : (v : Bytes) → state_of e v ≡ pending → 0 < spoilt es e v → 0 < total (cancels v) ts
    pub blamed : (v : Bytes) → 0 < total (cancels v) ts → 0 < spoilt es e v
    pub fell : (v : Bytes) → state_of e v ≡ cancelled → 0 < spoilt es e v

  -- The threads gave up work that no pending node needs, and the states did not change.
  pub record Lighter (e e' : Engine Ctx) (ts ts' : List Thread) : Type 0 where
    pub same : e'.node_states ≡ e.node_states
    pub latches : e'.completion_latch ≡ e.completion_latch
    pub downs : total count_downs ts' ≡ total count_downs ts
    pub named : (v : Bytes) → total (names v) ts' ≤ total (names v) ts
    pub owned : (v : Bytes) → total (owns v) ts' ≡ total (owns v) ts
    pub notified : (v : Bytes) → total (notifies v) ts' ≡ total (notifies v) ts
    pub scheduled : (v : Bytes) → total (schedules v) ts' ≤ total (schedules v) ts
    pub kept :
        (v : Bytes) → state_of e v ≡ pending → total (schedules v) ts ≤ total (schedules v) ts'
    pub cancelling : (v : Bytes) → total (cancels v) ts' ≤ total (cancels v) ts
    pub doomed : (v : Bytes) → state_of e v ≡ pending → total (cancels v) ts ≤ total (cancels v) ts'

  pub Lighter-Inv :
      {es : List Edge} {ids : List Bytes} {e e' : Engine Ctx} {ts ts' : List Thread}
      → Lighter e e' ts ts'
      → Inv es ids e ts
      → Inv es ids e' ts'
  Lighter-Inv {es} {ids} {e} {e'} {ts} {ts'} l h = record {
    left = h.left;
    latch = l.latches ∙ h.latch;
    balance = rw (l.same, l.downs) h.balance;
    lists = λ u. rw l.same (h.lists u);
    inside = λ v p. omega (arith, h.inside v p, l.named v);
    outside = rw l.same h.outside;
    owner = λ v. rw (l.same, l.owned v) (h.owner v);
    counter = λ v. rw (l.same, l.notified v) (h.counter v);
    ready =
        rw l.same
          (λ v p q r. omega (arith, h.ready v p q (omega (arith, l.notified v)), l.kept v q));
    granted = rw l.same (λ v p. h.granted v (omega (arith, l.scheduled v)));
    ran = rw l.same h.ran;
    doomed = rw l.same (λ v p q. omega (arith, h.doomed v p q, l.doomed v p));
    blamed = rw l.same (λ v p. h.blamed v (omega (arith, l.cancelling v)));
    fell = rw l.same h.fell;
  }
