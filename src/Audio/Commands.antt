-- ===== src/Audio/Commands.antt =====
-- The edit commands of the audio editor (plugins/llm_audio_editor_plugin.cpp). `D` is `double`; `none`
-- for an outcome means that the fuel ran out.
use cpp20_workflow_engine.Shared.{
  ℕ, zero, suc, ◌+◌, ◌&&◌, ◌||◌, Option, none, some, List, [], ◌∷◌, ◌++◌, length, drop, ◌==◌, ltb,
  leb, if◌then◌else◌, Bytes, bytes,
}
use cpp20_workflow_engine.Shared.Int.{ℤ, pos, negsuc, is_pos, to_string}
use cpp20_workflow_engine.Segments.{rfind, is_byte}
use cpp20_workflow_engine.Audio.Json.{
  is_at, find_from, between, skip_ws_at, parse_json_string, find_key, get_str_field, get_dbl_field,
  closing,
}

pub record TimeSegment (D : Type 0) : Type 0 where
  pub start : D
  pub end : D

pub record EditCommand (D : Type 0) : Type 0 where
  pub type : Bytes
  pub source : Bytes
  pub sources : List Bytes
  pub output : Bytes
  pub start : D
  pub end : D
  pub position : D
  pub duration : D
  pub factor : D
  pub fade_in : D
  pub fade_out : D
  pub level : D
  pub transition : Bytes
  pub crossfade_duration : D
  pub segments : List (TimeSegment D)
  pub description : Bytes

abbrev first_of : Option Bytes → Option Bytes → Option Bytes
first_of (some s) later = some s
first_of none later = later

abbrev pub edit_commands : Bytes
edit_commands = bytes "\"edit_commands\""

-- The four strategies of `extractJsonCommands`.
unfoldable in_braces : Bytes → Option Bytes
unfolding find_from rfind
in_braces content = elim (find_from content 0 edit_commands) [
  | none ↦ none
  | some key ↦ elim (find_from content 0 (b'{' ∷ [])) [
    | none ↦ none
    | some lb ↦ elim (rfind (is_byte b'}') (length content) content) [
      | none ↦ none
      | some rb ↦ if ltb lb rb then some (between content lb (rb + 1)) else none
    ]
  ]
]

unfoldable in_code_block : Bytes → Option Bytes
unfolding find_from
in_code_block content = elim (find_from content 0 (bytes "```json")) [
  | none ↦ none
  | some at ↦ elim (find_from content (at + 7) (bytes "```")) [
    | none ↦ none
    | some end ↦ some (between content (at + 7) end)
  ]
]

unfoldable in_comment : Bytes → Bytes → Option Bytes
unfolding find_from rfind
in_comment content marker =
    let tag_open : Bytes = bytes "<!-- " ++ (marker ++ bytes ":") in
    let tag : Option ℕ = elim (find_from content 0 tag_open) [
      | some at ↦ some at
      | none ↦ find_from content 0 (bytes "<!-- EDIT_COMMANDS:")
    ] in
    elim tag [
      | none ↦ none
      | some at ↦ elim (find_from content at (b'{' ∷ [])) [
        | none ↦ none
        | some lb ↦ elim (find_from content lb (bytes "-->")) [
          | none ↦ none
          | some end ↦ elim (rfind (is_byte b'}') end content) [
            | none ↦ none
            | some rb ↦ if leb lb rb then some (between content lb (rb + 1)) else none
          ]
        ]
      ]
    ]

unfoldable in_fragment : Bytes → Option Bytes
unfolding find_from rfind closing
in_fragment content = elim (find_from content 0 edit_commands) [
  | none ↦ none
  | some key ↦ elim (rfind (is_byte b'{') key content) [
    | none ↦ none
    | some lb ↦ elim (closing lb 0 (drop lb content)) [
      | none ↦ none
      | some rb ↦ some (between content lb (rb + 1))
    ]
  ]
]

unfoldable pub extract_json_commands : Bytes → Bytes → Bytes
unfolding in_braces in_code_block in_comment in_fragment
extract_json_commands content marker =
    elim (first_of (in_braces content) (
      first_of (in_code_block content)
        (first_of (in_comment content marker) (in_fragment content)))) [ none ↦ [] | some s ↦ s ]

-- The texts of an array, from a position behind its bracket up to `obj_end`.
unfoldable pub read_sources : ℕ → Bytes → ℕ → ℕ → Option (List Bytes)
read_sources zero json obj_end src_pos = none
read_sources (suc fuel) json obj_end src_pos =
    let at = skip_ws_at json src_pos in
    let (source, behind) = parse_json_string json at in
    let quoted = is_at json at 34 in
    let rest = read_sources fuel json obj_end (if quoted then behind else at + 1) in
    if leb obj_end src_pos || leb obj_end at || is_at json at b']'
    then some []
    else if quoted
    then (elim rest [ none ↦ none | some sources ↦ some (source ∷ sources) ])
    else rest

module _ {D : Type 0} (stod : Bytes → Option D) (null one : D) where
  -- The segments of an array, in the same way. A brace that is not closed before `obj_end` leaves the
  -- position as it is.
  unfoldable pub read_segments : ℕ → Bytes → ℕ → ℕ → Option (List (TimeSegment D))
  read_segments zero json obj_end seg_pos = none
  read_segments (suc fuel) json obj_end seg_pos =
      let at = skip_ws_at json seg_pos in
      let opens = is_at json at b'{' in
      let behind : ℕ = elim (closing at 0 (drop at (between json 0 obj_end))) [
        | none ↦ at
        | some i ↦ i + 1
      ] in
      let ts : TimeSegment D = record {
        start = get_dbl_field stod null json at (bytes "start") null;
        end = get_dbl_field stod null json at (bytes "end") null;
      } in
      let rest = read_segments fuel json obj_end (if opens then behind else at + 1) in
      if leb obj_end seg_pos || leb obj_end at || is_at json at b']'
      then some []
      else if opens
      then (elim rest [ none ↦ none | some segments ↦ some (ts ∷ segments) ])
      else rest

  -- An array field of the command from `obj_start` to `obj_end`: the position behind its bracket.
  unfoldable pub array_at : Bytes → ℕ → ℕ → Bytes → Option ℕ
  unfolding find_key
  array_at json obj_start obj_end key = elim (find_key json obj_start key) [
    | none ↦ none
    | some at ↦ if ltb at obj_end && is_at json at b'[' then some (at + 1) else none
  ]

  -- The fields of the command at `obj_start`, with its arrays.
  unfoldable pub command_of : Bytes → ℕ → List Bytes → List (TimeSegment D) → EditCommand D
  unfolding get_str_field get_dbl_field
  command_of json obj_start srcs segs =
      let str : Bytes → Bytes = λ key. get_str_field json obj_start key [] in
      let dbl : Bytes → D → D = λ key def. get_dbl_field stod null json obj_start key def in
      record {
        type = str (bytes "type");
        source = str (bytes "source");
        sources = srcs;
        output = str (bytes "output");
        start = dbl (bytes "start") null;
        end = dbl (bytes "end") null;
        position = dbl (bytes "position") null;
        duration = dbl (bytes "duration") null;
        factor = dbl (bytes "factor") one;
        fade_in = dbl (bytes "fade_in") null;
        fade_out = dbl (bytes "fade_out") null;
        level = dbl (bytes "level") one;
        transition = str (bytes "transition");
        crossfade_duration = dbl (bytes "crossfade_duration") null;
        segments = segs;
        description = str (bytes "description");
      }

  unfoldable pub read_command : ℕ → Bytes → ℕ → ℕ → Option (EditCommand D)
  read_command fuel json obj_start obj_end =
      let sources : Option (List Bytes) = elim (array_at json obj_start obj_end (bytes "sources")) [
        | none ↦ some []
        | some at ↦ read_sources fuel json obj_end at
      ] in
      let segments : Option (List (TimeSegment D)) =
        elim (array_at json obj_start obj_end (bytes "segments")) [
          | none ↦ some []
          | some at ↦ read_segments fuel json obj_end at
        ] in
      elim sources [
        | none ↦ none
        | some srcs ↦ elim segments [
          | none ↦ none
          | some segs ↦ some (command_of json obj_start srcs segs)
        ]
      ]

  -- The loop of `parseEditCommands`.
  unfoldable pub read_commands : ℕ → Bytes → ℕ → Option (List (EditCommand D))
  read_commands zero json arr_pos = none
  read_commands (suc fuel) json arr_pos =
      let at = skip_ws_at json arr_pos in
      let opens = is_at json at b'{' in
      let obj_end : Option ℕ = closing at 0 (drop at json) in
      let next : ℕ = if opens then (elim obj_end [ none ↦ at | some i ↦ i + 1 ]) else at + 1 in
      let rest = read_commands fuel json next in
      if leb (length json) arr_pos || leb (length json) at || is_at json at b']'
      then some []
      else if opens
      then elim obj_end [
        | none ↦ some []
        | some i ↦ elim (read_command fuel json at i) [
          | none ↦ none
          | some cmd ↦ elim rest [
            | none ↦ none
            | some cmds ↦ some (if length cmd.type == 0 then cmds else cmd ∷ cmds)
          ]
        ]
      ]
      else rest

  unfoldable pub parse_edit_commands : ℕ → Bytes → Option (List (EditCommand D))
  unfolding find_from
  parse_edit_commands fuel json = elim (find_from json 0 edit_commands) [
    | none ↦ some []
    | some key ↦ elim (find_from json key (b'[' ∷ [])) [
      | none ↦ some []
      | some at ↦ read_commands fuel json (at + 1)
    ]
  ]

-- `codecArgs`
unfoldable pub codec_args : ℤ → ℤ → ℤ → List Bytes
unfolding to_string
codec_args bit_depth sample_rate channels =
    let codec : Bytes =
      if is_pos 8 bit_depth
      then bytes "pcm_u8"
      else if is_pos 24 bit_depth
      then bytes "pcm_s24le"
      else if is_pos 32 bit_depth
      then bytes "pcm_s32le"
      else bytes "pcm_s16le" in
    let given : Bytes → ℤ → List Bytes = λ flag n. elim n [
      | negsuc m ↦ []
      | pos m ↦ if m == 0 then [] else flag ∷ to_string (pos m) ∷ []
    ] in
    (bytes "-acodec" ∷ codec ∷ [])
    ++ (given (bytes "-ar") sample_rate ++ given (bytes "-ac") channels)
