-- ===== src/Examples/Analyzing.antt =====
-- A run of the text analyzer over a file that is analyzed and one that cannot be opened.
use cpp20_workflow_engine.Shared.{
  ℕ, ◌<◌, ◌+◌, ◌≡◌, refl, arith, inr, if◌then◌else◌, false, true, none, some, Option, List, [], ◌∷◌,
  ◌++◌, length, Bytes, bytes, ◌==◌,
}
use cpp20_workflow_engine.Shared.Int.{pos}
use cpp20_workflow_engine.Context.{Context, get_text}
use cpp20_workflow_engine.Analyzer.Settings.{Settings}
use cpp20_workflow_engine.Analyzer.Session.{System}
use cpp20_workflow_engine.Analyzer.Node.{analyse_all, text_at, int_at}
use cpp20_workflow_engine.Analyzer.Results.{ShowsRun, analyse_all-ShowsRun}
use cpp20_workflow_engine.Analyzer.Workers.{Pool, start, work}
use cpp20_workflow_engine.Analyzer.Traced.{Trace, traced}
use cpp20_workflow_engine.Analyzer.Placed.{work-places}
use cpp20_workflow_engine.Analyzer.Tally.{times}

abbrev answered : Bytes
answered = bytes "HTTP/1.1 200 OK\r\n\r\n{\"choices\":[{\"message\":{\"content\":\"fine\"}}]}"

-- The file "a" can be read, and what is written and renamed; the world counts the requests.
abbrev system : System ℕ
system = record {
  exchange = λ w target timeout request. some (inr (answered ∷ []), w + 1);
  exists = λ w file. false;
  is_file = λ w file. false;
  is_directory = λ w file. true;
  entries = λ w recursive file. [];
  create_directories = λ w file. (none, w);
  read = λ w file. if length file == 4 then none else some (bytes "x");
  write = λ w file content. (true, w);
  rename = λ w from to. (true, w);
  remove = λ w file. w;
  time = λ w. bytes "now";
  filename = λ file. file;
  stem = λ file. file;
  extension = λ file. [];
  within = λ dir file. dir ++ (bytes "/" ++ file);
  sort = λ files. files;
  stoi = λ s. some (pos 200);
  stoll = λ s. none;
  stoul = λ s. none;
}

abbrev settings : Settings
settings = record {
  api_key = bytes "key";
  output_dir = bytes "out";
  endpoint = bytes "http://host/chat";
  model = bytes "m";
  provider = bytes "openai";
  sys_prompt = [];
  out_format = bytes "md";
  recursive = true;
  overwrite = true;
  merge = true;
  merge_prompt = bytes "{all_results}";
  file_exts = [];
  max_tokens = pos 1;
  max_input_chars = pos 10;
  parallel = pos 2;
  timeout_s = pos 1;
  temperature = [];
  user_tmpl = bytes "{content}";
}

abbrev files : List Bytes
files = bytes "a" ∷ bytes "gone" ∷ []

abbrev moves : List ℕ
moves = 1 ∷ 0 ∷ 0 ∷ 1 ∷ 0 ∷ 1 ∷ 0 ∷ 1 ∷ []

abbrev empty : Context ℕ
empty key = none

abbrev left : Option (Context ℕ)
unfolding analyse_all
left = elim (analyse_all system 200 moves settings files empty 0) [ none ↦ none | some (c, w) ↦ c ]

-- The second request is for the report.
analyse_all-left : analyse_all system 200 moves settings files empty 0 ≡ some (left, 2)
unfolding analyse_all left
analyse_all-left = refl

-- The status and the outputs.
abbrev outputs_of : Option (Context ℕ) → List (Option Bytes)
unfolding get_text
outputs_of none = []
outputs_of (some c) =
    get_text (bytes "llm_status") c
    ∷ get_text (bytes "llm_output_files") c
    ∷ get_text (bytes "llm_merged_output_file") c
    ∷ []

outputs_of-left :
    outputs_of left
    ≡ some (bytes "partial")
      ∷ some (bytes "out/a_analysis.md")
      ∷ some (bytes "out/_merged_report.md")
      ∷ []
unfolding outputs_of left text_at int_at
outputs_of-left = refl

analyse_all-ShowsRun_example : ShowsRun system 200 settings files moves 0 left
analyse_all-ShowsRun_example =
    analyse_all-ShowsRun system 200 settings files moves empty 0 2 left (omega arith) refl
      analyse_all-left

abbrev begun : Pool (ℕ × Trace)
unfolding start
begun = start (traced system) settings 200 files (0, record { written = none; placed = [] })

abbrev ended : Pool (ℕ × Trace)
unfolding work start
ended = elim (work (traced system) settings 200 files moves begun) [ none ↦ begun | some p ↦ p ]

work-ended : work (traced system) settings 200 files moves begun ≡ some ended
unfolding work ended begun start
work-ended = refl

placed-ended : ended.world.1.placed ≡ bytes "out/a_analysis.md" ∷ []
unfolding work ended begun start
placed-ended = refl

work-places_example :
    ((i : ℕ) → i < length files → times i ended.processed ≡ 1)
    × (ended.totals.analyzed + ended.totals.failed + ended.totals.skipped ≡ length files)
    × (length ended.totals.output_files ≡ ended.totals.analyzed)
    × (ended.totals.output_files ≡ ended.world.1.placed)
unfolding ended begun start work
work-places_example =
    work-places system settings 200 files moves 0 ended (omega arith) work-ended refl
