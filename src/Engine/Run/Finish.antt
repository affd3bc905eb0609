-- ===== src/Engine/Run/Finish.antt =====
-- Runs as a whole: the invariant at every moment, and what holds once no thread has work left.
use cpp20_workflow_engine.Shared.{
  ℕ, ◌≤◌, ◌<◌, ◌≡◌, ◌⊎◌, refl, ap, inl, inr, true, List, [], ◌∷◌, arith, length, Bool-cases, ◌==◌,
  Bytes, str_eq, str_eq_iff, str_eq_refl, count, IsDistinct,
}
use cpp20_workflow_engine.Dag.{Edge, targets, has_edge}
use cpp20_workflow_engine.Dag.Relax.{count-targets-le}
use cpp20_workflow_engine.Node.{NodeState, success, failed, cancelled}
use cpp20_workflow_engine.Engine.{Engine, edges, config_ids}
use cpp20_workflow_engine.Engine.Load.Validate.{IsLoaded, open_in-known}
use cpp20_workflow_engine.Engine.Run.{Thread, Action, Machine, Choice, advance, step, play, begin}
use cpp20_workflow_engine.Engine.Run.Count.{total, advance_cases}
use cpp20_workflow_engine.Engine.Run.Invariant.{
  Inv, state_of, waiting, spoilt, into, weigh, not_success, is_bad,
}
use cpp20_workflow_engine.Engine.Run.Steps.{act-Inv}
use cpp20_workflow_engine.Engine.Run.Begin.{begin-Inv}

-- A dependency of positive weight.
pub into-source :
    (es : List Edge) (w : Bytes → ℕ) (v : Bytes)
    → 0 < into es w v
    → (u : Bytes) × (has_edge es u v ≡ true) × (0 < w u)
into-source [] w v h = absurd (omega arith)
into-source ((d, x) ∷ es) w v h = elim (Bool-cases (str_eq v x)) [
  | inl here ↦ elim (Bool-cases (w d == 0)) [
    | inl none_of ↦ let (u, e, p) = into-source es w v (ground arith) in (u, ground arith, p)
    | inr some_of ↦ (d, ground (arith, str_eq_refl d), ground arith)
  ]
  | inr there ↦ let (u, e, p) = into-source es w v (ground arith) in (u, ground arith, p)
]

pub into-pos :
    (es : List Edge) (w : Bytes → ℕ) (u v : Bytes)
    → has_edge es u v ≡ true
    → 0 < w u
    → 0 < into es w v
into-pos [] w u v h p = cc
into-pos ((d, x) ∷ es) w u v h p = ground (arith, into-pos es w u v, str_eq_iff u d, ap w)

pub into_mono :
    (es : List Edge) (w w' : Bytes → ℕ) (v : Bytes)
    → ((u : Bytes) → w u ≤ w' u)
    → into es w v ≤ into es w' v
into_mono [] w w' v h = omega arith
into_mono ((d, x) ∷ es) w w' v h = ground (arith, into_mono es w w' v h, h d)

pub bad-le : (s : NodeState) → is_bad s ≤ not_success s
bad-le s = ground arith

pub weigh-full :
    (ks : List Bytes) (w : Bytes → ℕ)
    → ((k : Bytes) → 0 < count k ks → w k ≡ 1)
    → weigh w ks ≡ length ks
weigh-full [] w h = refl
weigh-full (k ∷ ks) w h =
    omega (arith, weigh-full ks w (λ j p. h j (omega arith)), h k (ground (arith, str_eq_refl k)))

pub not_success-zero : (s : NodeState) → not_success s ≡ 0 → s ≡ success
not_success-zero s h = ground arith

pub bad_cases : (s : NodeState) → 0 < is_bad s → (s ≡ failed) ⊎ (s ≡ cancelled)
bad_cases s h = ground arith

-- No thread has work left.
abbrev pub IsIdle : List Thread → Type 0
IsIdle [] = Unit {0}
IsIdle ([] ∷ ts) = IsIdle ts
IsIdle ((a ∷ t) ∷ ts) = ⊥

pub total-idle : (f : Action → ℕ) (ts : List Thread) → IsIdle ts → total f ts ≡ 0
total-idle f [] h = refl
total-idle f ([] ∷ ts) h = omega (arith, total-idle f ts h)
total-idle f ((a ∷ t) ∷ ts) h = absurd h

module _ {Ctx : Type 0} where
  pub all_succeeded :
      (es : List Edge) (e : Engine Ctx) (u v : Bytes)
      → waiting es e v ≡ 0
      → has_edge es u v ≡ true
      → state_of e u ≡ success
  all_succeeded es e u v none_waits edge =
      not_success-zero (state_of e u)
        (ground (arith, into-pos es (λ x. not_success (state_of e x)) u v edge))

  pub one_spoilt :
      (es : List Edge) (e : Engine Ctx) (v : Bytes)
      → 0 < spoilt es e v
      → (u : Bytes) × (has_edge es u v ≡ true)
        × ((state_of e u ≡ failed) ⊎ (state_of e u ≡ cancelled))
  one_spoilt es e v p =
      let (u, edge, bad) = into-source es (λ x. is_bad (state_of e x)) v p in
      (u, edge, bad_cases (state_of e u) bad)

  module _ (es : List Edge) (ids : List Bytes) (distinct : IsDistinct ids)
      (known : (u v : Bytes) → 0 < count v (targets es u) → 0 < count v ids) where
    abbrev Holds : Machine Ctx → Type 0
    Holds m = Inv es ids m.engine m.threads

    pub step-Inv : (c : Choice Ctx) (m : Machine Ctx) → Holds m → Holds (step c m)
    unfolding step
    step-Inv c m h = elim (advance_cases c.thread c.attempt c.ctx m.engine m.threads) [
      | inl same ↦ rw same h
      | inr took ↦ rw took.engine (
          act-Inv es ids distinct known c.attempt c.ctx m.engine m.threads
            (advance c.thread c.attempt c.ctx m.engine m.threads).threads h took.action
            (λ f. omega (arith, took.totals f)) took.present)
    ]

    play-Inv : (cs : List (Choice Ctx)) (m : Machine Ctx) → Holds m → Holds (play cs m)
    unfolding play
    play-Inv [] m h = h
    play-Inv (c ∷ cs) m h = play-Inv cs (step c m) (step-Inv c m h)

  pub known_of :
      (e : Engine Ctx) (u v : Bytes)
      → 0 < count v (targets (edges e.node_configs) u)
      → 0 < count v (config_ids e.node_configs)
  known_of e u v p =
      open_in-known e.node_configs v (omega (arith, count-targets-le u (edges e.node_configs) v))

  -- The state of a run that began in `e`, after any choices.
  abbrev pub reached : Ctx → Engine Ctx → List (Choice Ctx) → Machine Ctx
  reached cleared e cs = play cs (begin cleared e)

  pub reached-Inv :
      (cleared : Ctx) (e : Engine Ctx) (cs : List (Choice Ctx))
      → IsLoaded e
      → Inv
          (edges e.node_configs)
          (config_ids e.node_configs)
          (reached cleared e cs).engine
          (reached cleared e cs).threads
  reached-Inv cleared e cs l =
      play-Inv (edges e.node_configs) (config_ids e.node_configs) l.distinct (known_of e) cs
        (begin cleared e) (begin-Inv cleared e l)
