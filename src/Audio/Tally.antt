-- ===== src/Audio/Tally.antt =====
-- Counting the worker threads of LlmAudioEditorNode by what they do
-- (plugins/llm_audio_editor_plugin.cpp).
use cpp20_workflow_engine.Shared.{
  ℕ, zero, suc, ◌≤◌, ◌<◌, ◌≡◌, ◌≢◌, ◌⊎◌, inl, inr, refl, ap, true, some, List, [], ◌∷◌, ◌++◌,
  length, arith, ◌==◌, if◌then◌else◌,
}
use cpp20_workflow_engine.Analyzer.Workers.{get_elem?, set_elem}
use cpp20_workflow_engine.Analyzer.Tally.{tally}
use cpp20_workflow_engine.Audio.Commands.{EditCommand}
use cpp20_workflow_engine.Audio.Pool.{Worker, ready, busy, gone, all_gone, all_ready}

module _ {D : Type 0} where
  -- The commands of one file among those that were executed, in order.
  abbrev pub of_file : ℕ → List (ℕ × EditCommand D) → List (EditCommand D)
  of_file i [] = []
  of_file i ((j, cmd) ∷ processed) =
      let rest = of_file i processed in if j == i then cmd ∷ rest else rest

  pub of_file-snoc :
      (i j : ℕ) (cmd : EditCommand D) (processed : List (ℕ × EditCommand D))
      → of_file i (processed ++ (j, cmd) ∷ [])
        ≡ (if j == i then of_file i processed ++ cmd ∷ [] else of_file i processed)
  of_file-snoc i j cmd [] = ground arith
  of_file-snoc i j cmd ((h, c) ∷ processed) = ground (arith, of_file-snoc i j cmd processed)

  abbrev pub is_at : ℕ → Worker D → ℕ
  is_at i (busy j cmds) = if j == i then 1 else 0
  is_at i ready = 0
  is_at i gone = 0

  abbrev pub is_gone : Worker D → ℕ
  is_gone gone = 1
  is_gone ready = 0
  is_gone (busy j cmds) = 0

  -- The commands that a thread has still to execute.
  abbrev pub pending : Worker D → ℕ
  pending (busy j cmds) = length cmds
  pending ready = 0
  pending gone = 0

  pub tally_at :
      (k i : ℕ) (cmds : List (EditCommand D)) (ws : List (Worker D))
      → get_elem? k ws ≡ some (busy i cmds)
      → 0 < tally (is_at i) ws
  tally_at k i cmds [] h = cc
  tally_at zero i cmds (w ∷ ws) h =
      let same : w ≡ busy i cmds = cc in
      let e : is_at i w ≡ is_at i (busy i cmds) = ap (is_at i) same in ground (arith, e)
  tally_at (suc k) i cmds (w ∷ ws) h = omega (arith, tally_at k i cmds ws h)

  -- Two threads at one file are counted twice.
  pub tally_at_both :
      (k l i : ℕ) (cs ds : List (EditCommand D)) (ws : List (Worker D))
      → k ≢ l
      → get_elem? k ws ≡ some (busy i cs)
      → get_elem? l ws ≡ some (busy i ds)
      → 1 < tally (is_at i) ws
  tally_at_both k l i cs ds [] ne h g = cc
  tally_at_both zero zero i cs ds (w ∷ ws) ne h g = absurd (ne refl)
  tally_at_both zero (suc l) i cs ds (w ∷ ws) ne h g =
      let same : w ≡ busy i cs = cc in
      let e : is_at i w ≡ is_at i (busy i cs) = ap (is_at i) same in
      ground (arith, e, tally_at l i ds ws g)
  tally_at_both (suc k) zero i cs ds (w ∷ ws) ne h g =
      let same : w ≡ busy i ds = cc in
      let e : is_at i w ≡ is_at i (busy i ds) = ap (is_at i) same in
      ground (arith, e, tally_at k i cs ws h)
  tally_at_both (suc k) (suc l) i cs ds (w ∷ ws) ne h g =
      omega (arith, tally_at_both k l i cs ds ws (λ e. ne (ap suc e)) h g)

  pub get_elem?-set_elem :
      (k l : ℕ) (w : Worker D) (ws : List (Worker D)) {x : Worker D}
      → get_elem? l (set_elem k w ws) ≡ some x
      → ((k ≡ l) × (x ≡ w)) ⊎ ((k ≢ l) × (get_elem? l ws ≡ some x))
  get_elem?-set_elem k l w [] h = cc
  get_elem?-set_elem zero zero w (v ∷ ws) h = inl (refl, cc)
  get_elem?-set_elem zero (suc l) w (v ∷ ws) h = inr (λ e. omega arith, h)
  get_elem?-set_elem (suc k) zero w (v ∷ ws) h = inr (λ e. omega arith, h)
  get_elem?-set_elem (suc k) (suc l) w (v ∷ ws) h = elim (get_elem?-set_elem k l w ws h) [
    | inl (e, s) ↦ inl (ap suc e, s)
    | inr (ne, s) ↦ inr (λ e. ne (omega arith), s)
  ]

  pub all_gone-tally :
      (ws : List (Worker D))
      → all_gone ws ≡ true
      → (tally is_gone ws ≡ length ws) × (tally pending ws ≡ 0) × ((i : ℕ) → tally (is_at i) ws ≡ 0)
  all_gone-tally [] h = (refl, refl, λ i. refl)
  all_gone-tally (ready ∷ ws) h = cc
  all_gone-tally (busy j cmds ∷ ws) h = cc
  all_gone-tally (gone ∷ ws) h =
      let (a, b, c) = all_gone-tally ws h in
      (omega (arith, a), omega (arith, b), λ i. omega (arith, c i))

  pub tally_gone-le : (ws : List (Worker D)) → tally is_gone ws ≤ length ws
  tally_gone-le [] = omega arith
  tally_gone-le (ready ∷ ws) = omega (arith, tally_gone-le ws)
  tally_gone-le (busy i cmds ∷ ws) = omega (arith, tally_gone-le ws)
  tally_gone-le (gone ∷ ws) = omega (arith, tally_gone-le ws)

pub all_ready-tally :
    (D : Type 0) (m : ℕ)
    → (length (all_ready {D = D} m) ≡ m)
      × (tally (is_gone {D = D}) (all_ready m) ≡ 0)
      × (tally (pending {D = D}) (all_ready m) ≡ 0)
      × ((i : ℕ) → tally (is_at {D = D} i) (all_ready m) ≡ 0)
all_ready-tally D zero = (refl, refl, refl, λ i. refl)
all_ready-tally D (suc m) =
    let (a, b, c, d) = all_ready-tally D m in
    (ap suc a, omega (arith, b), omega (arith, c), λ i. omega (arith, d i))
