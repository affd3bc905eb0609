-- ===== src/Audio/Work.antt =====
-- The worker threads of LlmAudioEditorNode execute each command once, and those of a file in order
-- (plugins/llm_audio_editor_plugin.cpp).
use cpp20_workflow_engine.Shared.{
  ℕ, zero, suc, ◌+◌, ◌^◌, ◌≤◌, ◌<◌, ◌≡◌, ◌⊎◌, inl, inr, refl, ap, Bool-cases, true, not, ◌||◌,
  Option, none, some, Option-cases, List, [], ◌∷◌, length, List-cases, arith, ltb, ◌==◌, str_eq,
}
use cpp20_workflow_engine.Shared.Int.{ℤ}
use cpp20_workflow_engine.Analyzer.Workers.{get_elem?}
use cpp20_workflow_engine.Analyzer.Totals.{
  Gives, Gives-any, Gives-bind, Gives-some, Gives-weaken, choose,
}
use cpp20_workflow_engine.Analyzer.Tally.{n_par-lt}
use cpp20_workflow_engine.Audio.Commands.{EditCommand}
use cpp20_workflow_engine.Audio.Process.{Doubles, Machine, get_audio_duration}
use cpp20_workflow_engine.Audio.Edit.{Options, skip, execute_edit_command}
use cpp20_workflow_engine.Audio.Pool.{
  Worker, ready, busy, gone, Pool, Totals, total_of, has_slash, all_gone, track, perform, threads,
  start, take_file, advance, work,
}
use cpp20_workflow_engine.Audio.Tally.{of_file, tally_at, all_gone-tally, all_ready-tally}
use cpp20_workflow_engine.Audio.Shares.{
  IsShared, index_fits, take-IsShared, end-IsShared, leave-IsShared, perform-IsShared,
  total_of-drop_out,
}

-- The commands that were counted.
abbrev pub count_of : {D : Type 0} → Totals D → ℕ
count_of t = t.executed + t.failed + t.skipped

pub Worker-cases :
    {D : Type 0} (o : Option (Worker D))
    → (o ≡ none)
      ⊎ (o ≡ some ready)
      ⊎ (o ≡ some gone)
      ⊎ ((i : ℕ) × (o ≡ some (busy i [])))
      ⊎ ((i : ℕ) × (cmd : EditCommand D) × (cmds : List (EditCommand D)) × (o
            ≡ some (busy i (cmd ∷ cmds))))
Worker-cases none = inl refl
Worker-cases (some ready) = inr (inl refl)
Worker-cases (some gone) = inr (inr (inl refl))
Worker-cases (some (busy i [])) = inr (inr (inr (inl (i, refl))))
Worker-cases (some (busy i (cmd ∷ cmds))) = inr (inr (inr (inr (i, cmd, cmds, refl))))

get_elem?-none : {A : Type 0} (i : ℕ) (xs : List A) → get_elem? i xs ≡ none → length xs ≤ i
get_elem?-none i [] h = omega arith
get_elem?-none zero (x ∷ xs) h = cc
get_elem?-none (suc i) (x ∷ xs) h = omega (arith, get_elem?-none i xs h)

module _ {W D : Type 0} (m : Machine W) (d : Doubles D) (o : Options) (parallel : ℤ) (fuel : ℕ)
    (files : List (List (EditCommand D))) where
  abbrev Counts : ℕ → Totals D × W → Type 0
  Counts n (t, w) = count_of t ≡ n

  track-Counts :
      (cmd : EditCommand D) (t : Totals D) (w : W)
      → Gives (Counts (count_of t)) (track m d o parallel fuel files cmd t w)
  unfolding track
  track-Counts cmd t w =
      choose (Gives (Counts (count_of t)))
        (has_slash cmd.output || not (m.exists w (m.within o.output_dir cmd.output))) _ _ refl
        (Gives-bind (λ a. Unit {0}) (Counts (count_of t)) _ _
          (Gives-any (get_audio_duration m d fuel o.ffprobe (m.within o.output_dir cmd.output) w))
          (λ (dur, w') u. refl))

  perform-Counts :
      (cmd : EditCommand D) (t : Totals D) (w : W)
      → Gives (Counts (suc (count_of t))) (perform m d o parallel fuel files cmd t w)
  unfolding perform
  perform-Counts cmd t w =
      Gives-bind (λ a. Unit {0}) (Counts (suc (count_of t))) _ _
        (Gives-any (execute_edit_command m d o fuel cmd w))
        (λ (answer, w') u.
          choose (Gives (Counts (suc (count_of t)))) (str_eq answer skip) _ _ (omega arith) (
            choose (Gives (Counts (suc (count_of t)))) (length answer == 0) _ _
              (let t' = record t { executed = t.executed + 1 } in
                Gives-weaken (Counts (count_of t')) (Counts (suc (count_of t)))
                  (track m d o parallel fuel files cmd t' w') (track-Counts cmd t' w')
                  (λ (t2, w2) e. omega (arith, e)))
              (omega arith)))

  take_file-IsShared :
      (n k : ℕ) (p : Pool W D)
      → n ≤ length files
      → length files < 2 ^ 63
      → get_elem? k p.workers ≡ some ready
      → IsShared files n p
      → Gives (IsShared files n) (take_file m d o parallel fuel files k p)
  unfolding take_file
  take_file-IsShared n k p few small e s =
      let next = index_fits files n few small p s in
      elim (Bool-cases (ltb p.file_idx (length files))) [
        | inr l ↦ rw (l, next) (end-IsShared files n few small k p e (ground arith) s)
        | inl l ↦ elim (Option-cases (get_elem? p.file_idx files)) [
          | inl f ↦ rw (l, f) tt
          | inr (cmds, f) ↦
              rw (l, f, next) (take-IsShared files n few small k p cmds e (ground arith) f s)
        ]
      ]

  pub advance-IsShared :
      (n k : ℕ) (p : Pool W D)
      → n ≤ length files
      → length files < 2 ^ 63
      → IsShared files n p
      → Gives (IsShared files n) (advance m d o parallel fuel files k p)
  unfolding advance take_file
  advance-IsShared n k p few small s = elim (Worker-cases (get_elem? k p.workers)) [
    | inl e ↦ rw (advance, e) s
    | inr (inr (inl e)) ↦ rw (advance, e) s
    | inr (inl e) ↦ rw (advance, e) (take_file-IsShared n k p few small e s)
    | inr (inr (inr (inl (i, e)))) ↦ rw (advance, e) (leave-IsShared files n few small k i p e s)
    | inr (inr (inr (inr (i, cmd, cmds, e)))) ↦
        rw (advance, e)
          (Gives-bind (Counts (suc (count_of p.totals))) (IsShared files n) _ _
            (perform-Counts cmd p.totals p.world)
            (λ (t, w) one. perform-IsShared files n few small k i cmd cmds p t w e one s))
  ]

  pub work-IsShared :
      (n : ℕ) (moves : List ℕ) (p : Pool W D)
      → n ≤ length files
      → length files < 2 ^ 63
      → IsShared files n p
      → Gives (IsShared files n) (work m d o parallel fuel files moves p)
  unfolding work
  work-IsShared n [] p few small s = s
  work-IsShared n (k ∷ moves) p few small s =
      Gives-bind (IsShared files n) (IsShared files n) _ _ (advance-IsShared n k p few small s)
        (λ q after. work-IsShared n moves q few small after)

  pub threads-le : threads m d o parallel fuel files ≤ length files
  threads-le = ground arith

  pub start-IsShared :
      (w : W)
      → IsShared files (threads m d o parallel fuel files) (start m d o parallel fuel files w)
  unfolding start
  start-IsShared w =
      let (size, none_gone, none_left, none_at) =
        all_ready-tally D (threads m d o parallel fuel files) in
      record {
        bound = omega arith;
        ended = λ h. absurd (omega (arith, none_gone));
        size = size;
        alone = λ i. ground (arith, none_at i);
        held = λ k i cmds h. absurd (omega (arith, tally_at k i cmds _ h, none_at i));
        left = λ i a b z. absurd (omega arith);
        fresh = λ i h. refl;
        counted = refl;
        total = omega (arith, none_left);
      }

  some_thread : (0 < threads m d o parallel fuel files) ⊎ (length files ≡ 0)
  some_thread = elim (List-cases files) [
    | inl e ↦ inr (ap length e)
    | inr (x, rest, e) ↦
        let positive : 0 < length files = omega (arith, ap length e) in
        inl (ground (arith, n_par-lt parallel))
  ]

  -- However the threads interleave, when all have ended the commands of each file have been executed
  -- once each and in the order of the file, and each command was counted as executed, failed or
  -- skipped, if there are fewer than 2^63 files.
  pub work-all_executed :
      (moves : List ℕ) (w : W) (p : Pool W D)
      → length files < 2 ^ 63
      → work m d o parallel fuel files moves (start m d o parallel fuel files w) ≡ some p
      → all_gone p.workers ≡ true
      → ((i : ℕ) → i < length files → get_elem? i files ≡ some (of_file i p.processed))
        × (length p.processed ≡ total_of files)
        × (p.totals.executed + p.totals.failed + p.totals.skipped ≡ total_of files)
  work-all_executed moves w p small e h =
      let n = threads m d o parallel fuel files in
      let s : IsShared files n p =
        Gives-some (IsShared files n) _
          (work-IsShared n moves _ threads-le small (start-IsShared w)) e in
      let (g, b, a) = all_gone-tally p.workers h in
      let through : length files ≤ p.file_idx = elim some_thread [
        | inl t ↦ s.ended (omega (arith, t, g, s.size))
        | inr z ↦ omega (arith, z)
      ] in
      let none_left = total_of-drop_out p.file_idx files through in
      (
        λ i l. s.left i (omega (arith, through)) l (a i),
        omega (arith, b, none_left, s.total),
        omega (arith, b, none_left, s.total, s.counted),
      )
