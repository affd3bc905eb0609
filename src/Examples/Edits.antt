-- ===== src/Examples/Edits.antt =====
-- The edit commands of the audio editor.
use cpp20_workflow_engine.Shared.{
  ℕ, ◌-◌, ◌≡◌, refl, Option, none, some, List, [], ◌∷◌, Bytes, bytes,
}
use cpp20_workflow_engine.Shared.Int.{pos, negsuc}
use cpp20_workflow_engine.Analyzer.Text.{find, starts_with}
use cpp20_workflow_engine.Audio.Json.{
  find_from, skip_ws_at, string_body, parse_json_string, parse_json_number, find_key, get_str_field,
  get_dbl_field, closing,
}
use cpp20_workflow_engine.Audio.Commands.{
  array_at, command_of, EditCommand, read_sources, read_segments, read_command, read_commands,
  parse_edit_commands, codec_args,
}

-- Numbers of one digit.
abbrev stod : Bytes → Option ℕ
stod [] = none
stod (c ∷ s) = some (c - 48)

abbrev two_commands : Bytes
two_commands =
    bytes
      "{\"edit_commands\":[{\"type\":\"cut\"},{\"type\":\"volume\",\"level\":5,\"sources\":[\"a\",\"b\"]}]}"

-- What a test looks at.
abbrev summary : List (EditCommand ℕ) → List (Bytes × ℕ × List Bytes)
summary [] = []
summary (c ∷ cs) = (c.type, c.level, c.sources) ∷ summary cs

abbrev summaries : Option (List (EditCommand ℕ)) → List (Bytes × ℕ × List Bytes)
summaries none = []
summaries (some cs) = summary cs

-- The first command has no level, and takes that of the second.
level_of_next :
    summaries (parse_edit_commands stod 0 1 100 two_commands)
    ≡ (bytes "cut", 5, []) ∷ (bytes "volume", 5, bytes "a" ∷ bytes "b" ∷ []) ∷ []
unfolding parse_edit_commands read_commands read_command command_of array_at read_sources
    read_segments find_from skip_ws_at string_body parse_json_string parse_json_number find_key
    get_str_field get_dbl_field closing find starts_with
level_of_next = refl

eight_bits : codec_args (pos 8) (pos 0) (negsuc 0) ≡ bytes "-acodec" ∷ bytes "pcm_u8" ∷ []
unfolding codec_args
eight_bits = refl
