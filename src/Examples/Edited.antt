-- ===== src/Examples/Edited.antt =====
-- The audio editor over whole files: the results of a run, a dry run, and a command that returns.
use cpp20_workflow_engine.Shared.{
  ℕ, ◌≡◌, refl, arith, true, false, none, some, Option, List, [], ◌∷◌, bytes,
}
use cpp20_workflow_engine.Shared.Int.{pos}
use cpp20_workflow_engine.Context.{Context}
use cpp20_workflow_engine.Audio.Commands.{
  read_commands, read_command, array_at, read_sources, command_of,
}
use cpp20_workflow_engine.Audio.Json.{parse_json_string}
use cpp20_workflow_engine.Audio.Waits.{Returns}
use cpp20_workflow_engine.Audio.Returns.{execute_edit_command-Returns}
use cpp20_workflow_engine.Audio.Filters.{speed_filter}
use cpp20_workflow_engine.Audio.Process.{read_all}
use cpp20_workflow_engine.Audio.Edit.{execute_edit_command}
use cpp20_workflow_engine.Audio.Trace.{
  created, Call, started, written, removed, traced, All, IsHarmless,
}
use cpp20_workflow_engine.Audio.Node.{
  Folders, Settings, write_results, execute_all, edit_all, matching,
}
use cpp20_workflow_engine.Audio.DryNode.{traced_folders, edit_all-dry_run}
use cpp20_workflow_engine.Audio.Results.{ShowsRun, execute_all-ShowsRun}
use cpp20_workflow_engine.Examples.Editing.{
  doubles, machine, options, command, files, moves, counters, list_path,
}

abbrev folders : Folders ℕ
folders = record {
  create_directories = λ w dir. (false, w);
  is_file = λ w path. true;
  is_directory = λ w path. false;
  entries = λ w recursive path. [];
  contents = λ w path. none;
  extension = λ path. [];
  sort = λ paths. paths;
}

abbrev settings : Settings
settings = record {
  input_path = bytes "i";
  options = options true;
  recursive = true;
  cmd_marker = [];
  file_exts = [];
  parallel = pos 1;
}

abbrev results : Option (Context ℕ)
results = write_results machine doubles folders (bytes "out") 3 counters (some (λ key. none))

execute_all-files :
    execute_all machine doubles folders 10 moves settings files (λ key. none) 0 ≡ some (results, 0)
unfolding execute_all doubles
execute_all-files = refl

execute_all-ShowsRun_example : ShowsRun machine doubles folders 10 moves settings files 0 results
execute_all-ShowsRun_example =
    execute_all-ShowsRun machine doubles folders 10 moves settings files (λ key. none) 0 0 results
      (omega arith) execute_all-files

-- A dry run over a file with one command.
abbrev one_file : Folders ℕ
one_file = record {
  create_directories = λ w dir. (false, w);
  is_file = λ w path. true;
  is_directory = λ w path. false;
  entries = λ w recursive path. [];
  contents =
      λ w path. some (bytes "{\"edit_commands\":[{\"type\":\"merge\",\"sources\":[\"x\"]}]}");
  extension = λ path. [];
  sort = λ paths. paths;
}

abbrev edit_log : List Call
edit_log =
    started (bytes "ffmpeg" ∷ bytes "-version" ∷ [])
    ∷ created (bytes "out")
    ∷ written list_path
    ∷ removed list_path
    ∷ []

abbrev edited : Option (Context ℕ)
unfolding edit_all
edited =
    elim (edit_all (traced machine) doubles (traced_folders one_file) 100 moves settings
      (λ key. none) (0, [])) [ none ↦ none | some (out, w) ↦ out ]

edit_all-edited :
    edit_all
      (traced machine)
      doubles
      (traced_folders one_file)
      100
      moves
      settings
      (λ key. none)
      (0, [])
    ≡ some (edited, (0, edit_log))
unfolding edit_all edited matching read_commands read_command array_at read_sources
    parse_json_string command_of
edit_all-edited = refl

edit_all-dry_run_example : All (IsHarmless machine (options true)) edit_log
edit_all-dry_run_example =
    edit_all-dry_run machine doubles one_file 100 moves settings refl (λ key. none) 0 0 edit_log
      edited edit_all-edited

execute_edit_command-Returns_example :
    Returns
      (execute_edit_command machine doubles (options false) 3001 (command 300 (bytes "speed") []) 0)
unfolding speed_filter read_all doubles
execute_edit_command-Returns_example =
    execute_edit_command-Returns machine doubles (options false) 3001
      (record { on_sleep = λ w. omega arith; on_waitpid = λ w child. omega arith })
      (λ child fd w. tt) (omega arith) (command 300 (bytes "speed") []) 0 tt
