-- ===== src/Audio/Shares.antt =====
-- How the worker threads of LlmAudioEditorNode share the commands
-- (plugins/llm_audio_editor_plugin.cpp).
use cpp20_workflow_engine.Shared.{
  ℕ, zero, suc, ◌+◌, ◌%◌, ◌^◌, ◌≤◌, ◌<◌, ◌≡◌, ◌≢◌, inl, inr, refl, ap, sym, ◌∙◌, Bool-cases, some,
  List, [], ◌∷◌, ◌++◌, length, drop, length-append, append-nil, append_assoc, arith, ltb, ◌==◌,
  ==_iff, if◌then◌else◌,
}
use cpp20_workflow_engine.Analyzer.Workers.{get_elem?, set_elem}
use cpp20_workflow_engine.Analyzer.Tally.{tally, tally-set_elem, length-set_elem}
use cpp20_workflow_engine.Audio.Commands.{EditCommand}
use cpp20_workflow_engine.Audio.Pool.{Worker, ready, busy, gone, Pool, Totals, total_of}
use cpp20_workflow_engine.Audio.Tally.{
  of_file, of_file-snoc, is_at, is_gone, pending, tally_at, tally_at_both, get_elem?-set_elem,
  tally_gone-le,
}

-- `m` threads share the files with their commands: a thread at a file has those of its commands to
-- execute that are not executed, and those of a file that was left are all executed, in order.
pub record IsShared {W D : Type 0} (files : List (List (EditCommand D))) (m : ℕ) (p : Pool W D)
    : Type 0 where
  pub bound : p.file_idx ≤ length files + tally is_gone p.workers
  pub ended : 0 < tally is_gone p.workers → length files ≤ p.file_idx
  pub size : length p.workers ≡ m
  pub alone : (i : ℕ) → tally (is_at i) p.workers ≤ (if ltb i p.file_idx then 1 else 0)
  pub held :
      (k i : ℕ) (cmds : List (EditCommand D))
      → get_elem? k p.workers ≡ some (busy i cmds)
      → get_elem? i files ≡ some (of_file i p.processed ++ cmds)
  pub left :
      (i : ℕ)
      → i < p.file_idx
      → i < length files
      → tally (is_at i) p.workers ≡ 0
      → get_elem? i files ≡ some (of_file i p.processed)
  pub fresh : (i : ℕ) → p.file_idx ≤ i → of_file i p.processed ≡ []
  pub counted : p.totals.executed + p.totals.failed + p.totals.skipped ≡ length p.processed
  pub total :
      length p.processed + tally pending p.workers + total_of (drop p.file_idx files)
      ≡ total_of files

busy-injective :
    {D : Type 0} {i j : ℕ} {cs ds : List (EditCommand D)}
    → ◌≡◌ {A = Worker D} (busy i cs) (busy j ds)
    → (i ≡ j) × (cs ≡ ds)
busy-injective e = (cc, cc)

pub total_of-drop :
    {A : Type 0} (i : ℕ) (files : List (List A)) {cmds : List A}
    → get_elem? i files ≡ some cmds
    → total_of (drop i files) ≡ length cmds + total_of (drop (suc i) files)
total_of-drop i [] e = cc
total_of-drop zero (c ∷ files) {cmds} e = let s : c ≡ cmds = cc in omega (arith, ap length s)
total_of-drop (suc i) (c ∷ files) e = total_of-drop i files e

pub total_of-drop_out :
    {A : Type 0} (i : ℕ) (files : List (List A)) → length files ≤ i → total_of (drop i files) ≡ 0
total_of-drop_out zero [] h = refl
total_of-drop_out zero (c ∷ files) h = absurd (omega arith)
total_of-drop_out (suc i) [] h = refl
total_of-drop_out (suc i) (c ∷ files) h = total_of-drop_out i files (omega arith)

of_file-snoc_self :
    {D : Type 0} (i : ℕ) (cmd : EditCommand D) (processed : List (ℕ × EditCommand D))
    → of_file i (processed ++ (i, cmd) ∷ []) ≡ of_file i processed ++ cmd ∷ []
of_file-snoc_self i cmd processed = ground (arith, of_file-snoc i i cmd processed)

of_file-snoc_other :
    {D : Type 0} (i j : ℕ) (cmd : EditCommand D) (processed : List (ℕ × EditCommand D))
    → j ≢ i
    → of_file i (processed ++ (j, cmd) ∷ []) ≡ of_file i processed
of_file-snoc_other i j cmd processed ne = elim (Bool-cases (j == i)) [
  | inl h ↦ absurd (ne ((==_iff j i).0 h))
  | inr h ↦ rw (of_file-snoc i j cmd processed, h) refl
]

module _ {W D : Type 0} (files : List (List (EditCommand D))) (m : ℕ) (few : m ≤ length files)
    (small : length files < 2 ^ 63) where
  pub index_fits : (p : Pool W D) → IsShared files m p → (p.file_idx + 1) % 2 ^ 64 ≡ suc p.file_idx
  index_fits p s = omega (arith, s.bound, s.size, tally_gone-le p.workers)

  -- A thread takes a file.
  pub take-IsShared :
      (k : ℕ) (p : Pool W D) (cmds : List (EditCommand D))
      → get_elem? k p.workers ≡ some ready
      → p.file_idx < length files
      → get_elem? p.file_idx files ≡ some cmds
      → IsShared files m p
      → IsShared files m (record p {
        file_idx = suc p.file_idx;
        workers = set_elem k (busy p.file_idx cmds) p.workers;
      })
  take-IsShared k p cmds e l f s =
      let same : tally is_gone (set_elem k (busy p.file_idx cmds) p.workers)
          ≡ tally is_gone p.workers =
        omega (arith, tally-set_elem is_gone k ready (busy p.file_idx cmds) p.workers e) in
      record {
        bound = omega (arith, same, s.bound);
        ended = λ h. omega (arith, same, s.ended);
        size = length-set_elem k (busy p.file_idx cmds) p.workers ∙ s.size;
        alone = λ i.
            ground (
              arith,
              tally-set_elem (is_at i) k ready (busy p.file_idx cmds) p.workers e,
              s.alone i,
            );
        held = λ j i cs h. elim (get_elem?-set_elem k j _ p.workers h) [
          | inl (q, r) ↦
              let (x, y) = busy-injective r in rw (x, y, s.fresh p.file_idx (omega arith)) f
          | inr (q, r) ↦ s.held j i cs r
        ];
        left = λ i a b z.
            let moved = tally-set_elem (is_at i) k ready (busy p.file_idx cmds) p.workers e in
            s.left i (ground (arith, moved)) b (ground (arith, moved));
        fresh = λ i h. s.fresh i (omega arith);
        counted = s.counted;
        total = omega (
          arith,
          s.total,
          total_of-drop p.file_idx files f,
          tally-set_elem pending k ready (busy p.file_idx cmds) p.workers e,
        );
      }

  -- A thread finds no file left.
  pub end-IsShared :
      (k : ℕ) (p : Pool W D)
      → get_elem? k p.workers ≡ some ready
      → length files ≤ p.file_idx
      → IsShared files m p
      → IsShared files m
          (record p { file_idx = suc p.file_idx; workers = set_elem k gone p.workers })
  end-IsShared k p e l s =
      let gone_more = tally-set_elem is_gone k ready gone p.workers e in
      record {
        bound = omega (arith, gone_more, s.bound);
        ended = λ h. omega arith;
        size = length-set_elem k gone p.workers ∙ s.size;
        alone = λ i. ground (arith, tally-set_elem (is_at i) k ready gone p.workers e, s.alone i);
        held = λ j i cs h. elim (get_elem?-set_elem k j gone p.workers h) [
          | inl (q, r) ↦ cc
          | inr (q, r) ↦ s.held j i cs r
        ];
        left = λ i a b z.
            s.left i (omega arith) b
              (omega (arith, tally-set_elem (is_at i) k ready gone p.workers e));
        fresh = λ i h. s.fresh i (omega arith);
        counted = s.counted;
        total = omega (
          arith,
          s.total,
          tally-set_elem pending k ready gone p.workers e,
          total_of-drop_out p.file_idx files l,
          total_of-drop_out (suc p.file_idx) files (omega arith),
        );
      }

  -- A thread has executed the commands of its file.
  pub leave-IsShared :
      (k i : ℕ) (p : Pool W D)
      → get_elem? k p.workers ≡ some (busy i [])
      → IsShared files m p
      → IsShared files m (record p { workers = set_elem k ready p.workers })
  leave-IsShared k i p e s =
      let same = tally-set_elem is_gone k (busy i []) ready p.workers e in
      record {
        bound = omega (arith, same, s.bound);
        ended = λ h. s.ended (omega (arith, same));
        size = length-set_elem k ready p.workers ∙ s.size;
        alone = λ j.
            ground (arith, tally-set_elem (is_at j) k (busy i []) ready p.workers e, s.alone j);
        held = λ j h cs f. elim (get_elem?-set_elem k j ready p.workers f) [
          | inl (q, r) ↦ cc
          | inr (q, r) ↦ s.held j h cs r
        ];
        left = λ j a b z.
            let moved = tally-set_elem (is_at j) k (busy i []) ready p.workers e in
            elim (Bool-cases (i == j)) [
              | inl h ↦
                  let at : i ≡ j = (==_iff i j).0 h in
                  rw (sym at) (s.held k i [] e ∙ ap some (append-nil (of_file i p.processed)))
              | inr h ↦ s.left j a b (ground (arith, moved))
            ];
        fresh = s.fresh;
        counted = s.counted;
        total = omega (arith, s.total, tally-set_elem pending k (busy i []) ready p.workers e);
      }

  -- A thread executes a command, which is counted once.
  pub perform-IsShared :
      (k i : ℕ) (cmd : EditCommand D) (cmds : List (EditCommand D)) (p : Pool W D)
      (totals' : Totals D) (world' : W)
      → get_elem? k p.workers ≡ some (busy i (cmd ∷ cmds))
      → totals'.executed + totals'.failed + totals'.skipped
        ≡ suc (p.totals.executed + p.totals.failed + p.totals.skipped)
      → IsShared files m p
      → IsShared files m (record p {
        workers = set_elem k (busy i cmds) p.workers;
        totals = totals';
        world = world';
        processed = p.processed ++ (i, cmd) ∷ [];
      })
  perform-IsShared k i cmd cmds p totals' world' e one s =
      let same = tally-set_elem is_gone k (busy i (cmd ∷ cmds)) (busy i cmds) p.workers e in
      let at =
        λ (j : ℕ). tally-set_elem (is_at j) k (busy i (cmd ∷ cmds)) (busy i cmds) p.workers e in
      let here = tally_at k i (cmd ∷ cmds) p.workers e in
      let longer = length-append p.processed ((i, cmd) ∷ []) in
      record {
        bound = omega (arith, same, s.bound);
        ended = λ h. s.ended (omega (arith, same));
        size = length-set_elem k (busy i cmds) p.workers ∙ s.size;
        alone = λ j. ground (arith, at j, s.alone j);
        held = λ j h cs f. elim (get_elem?-set_elem k j (busy i cmds) p.workers f) [
          | inl (q, r) ↦
              let (x, y) = busy-injective r in
              rw (x, y, of_file-snoc_self i cmd p.processed)
                (s.held k i (cmd ∷ cmds) e
                  ∙ ap some (sym (append_assoc (of_file i p.processed) (cmd ∷ []) cmds)))
          | inr (q, r) ↦
              rw
                (of_file-snoc_other h i cmd p.processed (λ (x : i ≡ h).
                  let both = tally_at_both k j h (cmd ∷ cmds) cs p.workers q (rw (sym x) e) r in
                  ground (arith, both, s.alone h)))
                (s.held j h cs r)
        ];
        left = λ j a b z.
            rw
              (of_file-snoc_other j i cmd p.processed (λ (x : i ≡ j).
                let new = at i in
                omega (
                  arith,
                  new,
                  here,
                  ap (λ t. tally (is_at t) (set_elem k (busy i cmds) p.workers)) x,
                )))
              (s.left j a b (omega (arith, at j)));
        fresh = λ j h.
            of_file-snoc_other j i cmd p.processed (λ (x : i ≡ j). ground (arith, here, s.alone i))
            ∙ s.fresh j h;
        counted = omega (arith, one, s.counted, longer);
        total = omega (
          arith,
          s.total,
          longer,
          tally-set_elem pending k (busy i (cmd ∷ cmds)) (busy i cmds) p.workers e,
        );
      }
