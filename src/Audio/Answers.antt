-- ===== src/Audio/Answers.antt =====
-- What the counters of LlmAudioEditorNode count (plugins/llm_audio_editor_plugin.cpp).
use cpp20_workflow_engine.Shared.{
  ℕ, ◌+◌, ◌≡◌, refl, inl, inr, Bool-cases, true, some, Option-cases, List, [], ◌∷◌, ◌++◌, length,
  arith, ◌==◌, not, ◌||◌, Bytes, str_eq, str_eq_iff, str_eq_refl, count, count-append,
  length-append, ltb, false, ◌∙◌,
}
use cpp20_workflow_engine.Shared.Int.{ℤ}
use cpp20_workflow_engine.Analyzer.Totals.{
  Gives, Gives-any, Gives-bind, Gives-some, Gives-weaken, choose,
}
use cpp20_workflow_engine.Analyzer.Workers.{get_elem?}
use cpp20_workflow_engine.Audio.Commands.{EditCommand}
use cpp20_workflow_engine.Audio.Process.{Doubles, Machine, get_audio_duration}
use cpp20_workflow_engine.Audio.Edit.{Options, skip, execute_edit_command}
use cpp20_workflow_engine.Audio.Pool.{
  Pool, Totals, has_slash, track, perform, start, take_file, advance, work,
}
use cpp20_workflow_engine.Audio.Work.{Worker-cases}

module _ {W D : Type 0} (m : Machine W) (d : Doubles D) (o : Options) (parallel : ℤ) (fuel : ℕ)
    (files : List (List (EditCommand D))) where
  -- Each command was executed in some world, and gave its answer there.
  pub data Answered : List (ℕ × EditCommand D) → List Bytes → Type 0 where
    nothing : Answered [] []
    one_more :
        {cmds : List (ℕ × EditCommand D)} {answers : List Bytes} (i : ℕ) (cmd : EditCommand D)
        (w w' : W) (answer : Bytes)
        → Answered cmds answers
        → execute_edit_command m d o fuel cmd w ≡ some (answer, w')
        → Answered (cmds ++ (i, cmd) ∷ []) (answers ++ answer ∷ [])

  -- The empty answer is counted as executed, the answer `skip` as skipped, and every other as failed.
  abbrev pub Tallied : Totals D → List Bytes → Type 0
  Tallied t answers =
      (t.executed ≡ count [] answers)
      × (t.skipped ≡ count skip answers)
      × (t.executed + t.failed + t.skipped ≡ length answers)

  -- Two totals with the same counters.
  abbrev SameCounts : Totals D → Totals D × W → Type 0
  SameCounts t (t', w') =
      (t'.executed ≡ t.executed) × (t'.failed ≡ t.failed) × (t'.skipped ≡ t.skipped)

  track-SameCounts :
      (cmd : EditCommand D) (t : Totals D) (w : W)
      → Gives (SameCounts t) (track m d o parallel fuel files cmd t w)
  unfolding track
  track-SameCounts cmd t w =
      choose (Gives (SameCounts t))
        (has_slash cmd.output || not (m.exists w (m.within o.output_dir cmd.output))) _ _
        (refl, refl, refl)
        (Gives-bind (λ a. Unit {0}) (SameCounts t) _ _
          (Gives-any (get_audio_duration m d fuel o.ffprobe (m.within o.output_dir cmd.output) w))
          (λ (dur, w') u. (refl, refl, refl)))

  Tallied-skip :
      (t : Totals D) (answers : List Bytes) (answer : Bytes)
      → Tallied t answers
      → answer ≡ skip
      → Tallied (record t { skipped = t.skipped + 1 }) (answers ++ answer ∷ [])
  unfolding str_eq
  Tallied-skip t answers answer (e, s, all) p = rw p (
    omega (arith, e, count-append [] answers (skip ∷ [])),
    omega (arith, s, count-append skip answers (skip ∷ [])),
    omega (arith, all, length-append answers (skip ∷ [])),
  )

  Tallied-empty :
      (t : Totals D) (answers : List Bytes) (answer : Bytes)
      → Tallied t answers
      → answer ≡ []
      → Tallied (record t { executed = t.executed + 1 }) (answers ++ answer ∷ [])
  unfolding str_eq
  Tallied-empty t answers answer (e, s, all) p = rw p (
    omega (arith, e, count-append [] answers ([] ∷ [])),
    omega (arith, s, count-append skip answers ([] ∷ [])),
    omega (arith, all, length-append answers ([] ∷ [])),
  )

  Tallied-other :
      (t : Totals D) (answers : List Bytes) (answer : Bytes)
      → Tallied t answers
      → str_eq [] answer ≡ false
      → str_eq skip answer ≡ false
      → Tallied (record t { failed = t.failed + 1 }) (answers ++ answer ∷ [])
  Tallied-other t answers answer (e, s, all) no_text no_skip = (
    ground (arith, e, count-append [] answers (answer ∷ []), no_text),
    ground (arith, s, count-append skip answers (answer ∷ []), no_skip),
    omega (arith, all, length-append answers (answer ∷ [])),
  )

  not_skip : (answer : Bytes) → str_eq answer skip ≡ false → str_eq skip answer ≡ false
  not_skip answer h = elim (Bool-cases (str_eq skip answer)) [
    | inr f ↦ f
    | inl same ↦ absurd (
        let e : skip ≡ answer = (str_eq_iff skip answer).0 same in
        let again : str_eq answer skip ≡ true = rw (← e) (str_eq_refl skip) in
        ground (arith, again, h))
  ]

  not_empty : (answer : Bytes) → (length answer == 0) ≡ false → str_eq [] answer ≡ false
  unfolding str_eq
  not_empty [] h = cc
  not_empty (c ∷ s) h = refl

  is_empty_text : (answer : Bytes) → (length answer == 0) ≡ true → answer ≡ []
  is_empty_text [] h = refl
  is_empty_text (c ∷ s) h = absurd (ground arith)

  -- One answer more has been counted.
  abbrev Counted : EditCommand D → W → List Bytes → Totals D × W → Type 0
  Counted cmd w answers (t', w') =
      (answer : Bytes) × (w1 : W) × (execute_edit_command m d o fuel cmd w ≡ some (answer, w1))
      × Tallied t' (answers ++ answer ∷ [])

  Tallied-same :
      (t t' : Totals D) (answers : List Bytes) (w : W)
      → Tallied t answers
      → SameCounts t (t', w)
      → Tallied t' answers
  Tallied-same t t' answers w (e, s, all) (p, q, r) = (p ∙ e, r ∙ s, omega (arith, p, q, r, all))

  perform-Counted :
      (cmd : EditCommand D) (t : Totals D) (w : W) (answers : List Bytes)
      → Tallied t answers
      → Gives (Counted cmd w answers) (perform m d o parallel fuel files cmd t w)
  unfolding perform
  perform-Counted cmd t w answers h = elim (Option-cases (execute_edit_command m d o fuel cmd w)) [
    | inl f ↦ rw (perform, f) tt
    | inr ((answer, w1), f) ↦ elim (Bool-cases (str_eq answer skip)) [
      | inl skips ↦
          rw (perform, f, skips)
            (answer, w1, f, Tallied-skip t answers answer h ((str_eq_iff answer skip).0 skips))
      | inr goes ↦ elim (Bool-cases (length answer == 0)) [
        | inr failed ↦
            rw (perform, f, goes, failed)
              (
                answer,
                w1,
                f,
                Tallied-other t answers answer h (not_empty answer failed) (not_skip answer goes),
              )
        | inl empty ↦
            let t1 = record t { executed = t.executed + 1 } in
            rw (perform, f, goes, empty)
              (Gives-weaken (SameCounts t1) (Counted cmd w answers)
                (track m d o parallel fuel files cmd t1 w1) (track-SameCounts cmd t1 w1)
                (λ (t2, w2) same. (
                  answer,
                  w1,
                  f,
                  Tallied-same t1 t2 (answers ++ answer ∷ []) w2
                      (Tallied-empty t answers answer h (is_empty_text answer empty)) same,
                )))
      ]
    ]
  ]

  -- The counters of a pool are those of the answers to the commands that were executed.
  abbrev pub Counts : Pool W D → Type 0
  Counts p = (answers : List Bytes) × Answered p.processed answers × Tallied p.totals answers

  take_file-Counts :
      (k : ℕ) (p : Pool W D) → Counts p → Gives Counts (take_file m d o parallel fuel files k p)
  unfolding take_file
  take_file-Counts k p h = elim (Option-cases (get_elem? p.file_idx files)) [
    | inl e ↦ rw e (choose (Gives Counts) (ltb p.file_idx (length files)) _ _ tt h)
    | inr (cmds, e) ↦ rw e (choose (Gives Counts) (ltb p.file_idx (length files)) _ _ h h)
  ]

  advance-Counts :
      (k : ℕ) (p : Pool W D) → Counts p → Gives Counts (advance m d o parallel fuel files k p)
  unfolding advance
  advance-Counts k p (answers, done, tally) = elim (Worker-cases (get_elem? k p.workers)) [
    | inl e ↦ rw (advance, e) (answers, done, tally)
    | inr (inr (inl e)) ↦ rw (advance, e) (answers, done, tally)
    | inr (inl e) ↦ rw (advance, e) (take_file-Counts k p (answers, done, tally))
    | inr (inr (inr (inl (i, e)))) ↦ rw (advance, e) (answers, done, tally)
    | inr (inr (inr (inr (i, cmd, cmds, e)))) ↦
        rw (advance, e)
          (Gives-bind (Counted cmd p.world answers) Counts _ _
            (perform-Counted cmd p.totals p.world answers tally)
            (λ (t, w) (answer, w1, f, tally').
              (answers ++ answer ∷ [], one_more i cmd p.world w1 answer done f, tally')))
  ]

  work-Counts :
      (moves : List ℕ) (p : Pool W D)
      → Counts p
      → Gives Counts (work m d o parallel fuel files moves p)
  unfolding work
  work-Counts [] p h = h
  work-Counts (k ∷ moves) p h =
      Gives-bind Counts Counts _ _ (advance-Counts k p h) (λ q after. work-Counts moves q after)

  -- Wherever the threads have got to: the commands that have been executed have each been given an
  -- answer, and the counters are the numbers of the empty answers, of those that skip, and of the rest.
  pub work-answers :
      (moves : List ℕ) (w : W) (p : Pool W D)
      → work m d o parallel fuel files moves (start m d o parallel fuel files w) ≡ some p
      → Counts p
  unfolding start
  work-answers moves w p e =
      Gives-some Counts _ (work-Counts moves _ ([], nothing, (refl, refl, refl))) e
