-- ===== src/Examples/Editing.antt =====
-- Runs of the audio editor: a cut and a merge on a machine that starts every program with success.
use cpp20_workflow_engine.Shared.{
  ℕ, ◌+◌, ◌*◌, ◌/◌, ◌-◌, ◌<◌, ◌≡◌, refl, arith, inr, Bool, true, false, none, some, List, [], ◌∷◌,
  ◌++◌, leb, ltb, Bytes, bytes,
}
use cpp20_workflow_engine.Shared.Int.{pos, to_string}
use cpp20_workflow_engine.Analyzer.Workers.{get_elem?}
use cpp20_workflow_engine.Audio.Commands.{EditCommand}
use cpp20_workflow_engine.Audio.Process.{Doubles, Machine, exited}
use cpp20_workflow_engine.Audio.Edit.{Options, execute_edit_command}
use cpp20_workflow_engine.Audio.Pool.{Pool, Totals, gone, total_of, start, work}
use cpp20_workflow_engine.Audio.Tally.{of_file}
use cpp20_workflow_engine.Audio.Work.{work-all_executed}
use cpp20_workflow_engine.Audio.Trace.{
  Call, started, written, removed, traced, left_behind, execute_edit_command-cleans,
}

-- A number is counted in hundredths.
unfoldable pub doubles : Doubles ℕ
unfolding to_string
doubles = record {
  null = 0;
  one = 100;
  half = 50;
  two = 200;
  lt = ltb;
  le = leb;
  add = λ x y. x + y;
  sub = λ x y. x - y;
  mul = λ x y. x * y / 100;
  div = λ x y. x * 100 / y;
  stod = λ s. none;
  to_text = λ x. to_string (pos x);
}

-- The world is the time in nanoseconds.
abbrev pub machine : Machine ℕ
machine = record {
  spawn = λ w args. (inr 1, w);
  read = λ w child fd. ([], w);
  waitpid = λ w child. (exited (pos 0), w);
  now = λ w. w;
  sleep = λ w. w + 100000000;
  kill = λ w child. w;
  exists = λ w path. false;
  size = λ w path. none;
  write = λ w path text. (true, w);
  unlink = λ w path. w;
  temp_file = λ name. bytes "/tmp/" ++ name;
  pid = 7;
  is_absolute = λ path. false;
  within = λ dir path. dir ++ b'/' ∷ path;
}

abbrev pub options : Bool → Options
options dry = record {
  audio_dir = bytes "in";
  output_dir = bytes "out";
  ffmpeg = bytes "ffmpeg";
  ffprobe = bytes "ffprobe";
  overwrite = true;
  dry_run = dry;
  sample_rate = pos 0;
  channels = pos 0;
  bit_depth = pos 16;
}

abbrev pub command : {D : Type 0} → D → Bytes → List Bytes → EditCommand D
command x kind files = record {
  type = kind;
  source = bytes "a";
  sources = files;
  output = bytes "b";
  start = x;
  end = x;
  position = x;
  duration = x;
  factor = x;
  fade_in = x;
  fade_out = x;
  level = x;
  transition = [];
  crossfade_duration = x;
  segments = [];
  description = [];
}

abbrev merging : EditCommand ℕ
merging = command 0 (bytes "merge") (bytes "x" ∷ [])

abbrev pub list_path : Bytes
list_path = bytes "/tmp/llm_aed_merge_7.txt"

abbrev merge_log : List Call
merge_log =
    written list_path
    ∷ started (
        bytes "ffmpeg"
        ∷ bytes "-y"
        ∷ bytes "-f"
        ∷ bytes "concat"
        ∷ bytes "-safe"
        ∷ bytes "0"
        ∷ bytes "-i"
        ∷ list_path
        ∷ bytes "-acodec"
        ∷ bytes "pcm_s16le"
        ∷ bytes "out/b"
        ∷ [])
    ∷ removed list_path
    ∷ []

execute_edit_command-merging :
    execute_edit_command (traced machine) doubles (options false) 10 merging (0, [])
    ≡ some ([], (0, merge_log))
unfolding execute_edit_command
execute_edit_command-merging = refl

execute_edit_command-cleans_example : left_behind list_path false merge_log ≡ false
execute_edit_command-cleans_example =
    execute_edit_command-cleans machine (options false) doubles 10 merging 0 [] 0 merge_log
      list_path execute_edit_command-merging

-- Two files, with two commands and one, in a dry run of one thread.
abbrev cutting : EditCommand ℕ
cutting = command 0 (bytes "cut") []

abbrev unknown : EditCommand ℕ
unknown = command 0 (bytes "echo") []

abbrev pub files : List (List (EditCommand ℕ))
files = (cutting ∷ merging ∷ []) ∷ (unknown ∷ []) ∷ []

abbrev pub moves : List ℕ
moves = 0 ∷ 0 ∷ 0 ∷ 0 ∷ 0 ∷ 0 ∷ 0 ∷ 0 ∷ []

abbrev pub counters : Totals ℕ
counters = record {
  executed = 2;
  failed = 1;
  skipped = 0;
  output_duration = 0;
  output_bytes = 0;
  output_files = [];
}

abbrev ended : {W : Type 0} → W → Pool W ℕ
ended w = record {
  file_idx = 3;
  workers = gone ∷ [];
  totals = counters;
  world = w;
  processed = (0, cutting) ∷ (0, merging) ∷ (1, unknown) ∷ [];
}

abbrev at_end : Pool ℕ ℕ
at_end = ended 0

work-moves :
    work machine doubles
      (options true)
      (pos 1)
      10
      files
      moves
      (start machine doubles (options true) (pos 1) 10 files 0)
    ≡ some at_end
unfolding work start doubles
work-moves = refl

work-all_executed_example :
    ((i : ℕ) → i < 2 → get_elem? i files ≡ some (of_file i at_end.processed))
    × (3 ≡ total_of files)
    × (2 + 1 + 0 ≡ total_of files)
work-all_executed_example =
    work-all_executed machine doubles (options true) (pos 1) 10 files moves 0 at_end (omega arith)
      work-moves refl
