-- ===== src/Analyzer/Workers.antt =====
-- The worker threads of LlmTextAnalyzerNode (plugins/llm_text_analyzer_plugin.cpp). A file is processed
-- in one step: what it leaves in the counters is atomic, and the list of outputs is locked.
use cpp20_workflow_engine.Shared.{
  ℕ, zero, suc, ◌+◌, ◌%◌, ◌^◌, Bool, true, false, Option, none, some, List, [], ◌∷◌, ◌++◌, length,
  ltb, if◌then◌else◌, Bytes,
}
use cpp20_workflow_engine.Shared.Int.{ℤ, pos}
use cpp20_workflow_engine.Analyzer.Settings.{Settings, ◌>>=◌}
use cpp20_workflow_engine.Analyzer.Session.{System, Totals}
use cpp20_workflow_engine.Analyzer.Files.{process_file}

abbrev pub get_elem? : {A : Type 0} → ℕ → List A → Option A
get_elem? i [] = none
get_elem? zero (x ∷ xs) = some x
get_elem? (suc i) (x ∷ xs) = get_elem? i xs

abbrev pub set_elem : {A : Type 0} → ℕ → A → List A → List A
set_elem i y [] = []
set_elem zero y (x ∷ xs) = y ∷ xs
set_elem (suc i) y (x ∷ xs) = x ∷ set_elem i y xs

-- A thread is to take an index, or processes the file of one, or has ended.
pub data Worker : Type 0 where
  ready : Worker
  busy : ℕ → Worker
  gone : Worker

-- `processed` are the indices of the files in the order in which they were done.
pub record Pool (W : Type 0) : Type 0 where
  pub idx : ℕ
  pub workers : List Worker
  pub totals : Totals
  pub world : W
  pub processed : List ℕ

abbrev pub no_totals : Totals
no_totals = record {
  analyzed = 0;
  failed = 0;
  skipped = 0;
  input_chars = 0;
  output_chars = 0;
  tokens = pos 0;
  output_files = [];
}

-- `std::max(int64_t(1), parallel)`
abbrev pub n_par : ℤ → ℕ
n_par (pos (suc n)) = suc n
n_par parallel = 1

abbrev pub all_ready : ℕ → List Worker
all_ready zero = []
all_ready (suc n) = ready ∷ all_ready n

-- The threads have ended, and can be joined.
abbrev pub all_gone : List Worker → Bool
all_gone [] = true
all_gone (gone ∷ workers) = all_gone workers
all_gone (ready ∷ workers) = false
all_gone (busy i ∷ workers) = false

module _ {W : Type 0} (sys : System W) (st : Settings) (fuel : ℕ) (input_files : List Bytes) where
  -- `std::min(n_par, n_files)` threads are started.
  unfoldable pub start : W → Pool W
  start w = record {
    idx = 0;
    workers = all_ready (
        if ltb (length input_files) (n_par st.parallel)
        then length input_files
        else n_par st.parallel);
    totals = no_totals;
    world = w;
    processed = [];
  }

  -- Thread `k` goes on; an index out of range is undefined, `none`.
  unfoldable pub advance : ℕ → Pool W → Option (Pool W)
  unfolding process_file
  advance k p = elim (get_elem? k p.workers) [
    | none ↦ some p
    | some gone ↦ some p
    | some ready ↦
        let next = if ltb p.idx (length input_files) then busy p.idx else gone in
        some (record p { idx = (p.idx + 1) % 2 ^ 64; workers = set_elem k next p.workers })
    | some (busy i) ↦ do
      file_path ← get_elem? i input_files
      (totals', world') ← process_file sys st fuel file_path p.totals p.world
      some (record p {
        workers = set_elem k ready p.workers;
        totals = totals';
        world = world';
        processed = p.processed ++ i ∷ [];
      })
  ]

  -- The threads go on in the order of `moves`.
  unfoldable pub work : List ℕ → Pool W → Option (Pool W)
  unfolding advance
  work [] p = some p
  work (k ∷ moves) p = advance k p >>= work moves
