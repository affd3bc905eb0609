-- ===== src/Audio/Ends.antt =====
-- The reading of edit commands ends (plugins/llm_audio_editor_plugin.cpp).
use cpp20_workflow_engine.Shared.{
  ℕ, zero, suc, ◌+◌, ◌-◌, ◌<◌, ◌≡◌, refl, inl, inr, true, false, ◌&&◌, Bool-cases, Option, none,
  some, Option-cases, List, [], ◌∷◌, length, length-drop, drop, arith, ◌==◌, ltb, if◌then◌else◌,
  Bytes, bytes,
}
use cpp20_workflow_engine.Audio.Json.{
  is_at, find_from, skip_ws_at, find_key, closing, get_dbl_field,
}
use cpp20_workflow_engine.Audio.Commands.{
  edit_commands, TimeSegment, EditCommand, array_at, read_sources, read_segments, command_of,
  read_command, read_commands, parse_edit_commands,
}
use cpp20_workflow_engine.Audio.Braces.{closing-bounds}
use cpp20_workflow_engine.Audio.Positions.{
  stops, skip_ws_at-le, read_sources-ends, inside, find_key-le,
}

module _ {D : Type 0} (stod : Bytes → Option D) (null one : D) where
  read_segments-ends :
      (fuel : ℕ) (json : Bytes) (obj_start obj_end seg_pos : ℕ)
      → is_at json obj_start b'{' ≡ true
      → closing obj_start 0 (drop obj_start json) ≡ some obj_end
      → obj_start < seg_pos
      → obj_end - seg_pos < fuel
      → (l : List (TimeSegment D)) × (read_segments stod null one fuel json obj_end seg_pos
          ≡ some l)
  unfolding read_segments
  read_segments-ends zero json obj_start obj_end seg_pos o c lo h = absurd (omega arith)
  read_segments-ends (suc fuel) json obj_start obj_end seg_pos o c lo h =
      let at = skip_ws_at json seg_pos in
      let on = skip_ws_at-le json seg_pos in
      elim (Bool-cases (stops json obj_end seg_pos at)) [
        | inl e ↦ ([], rw (read_segments, e) refl)
        | inr e ↦ elim (Bool-cases (is_at json at b'{')) [
          | inl q ↦
              let (i, closed) =
                inside json obj_start obj_end at o c (omega (arith, on)) (ground (arith, e)) q in
              let (low, high) = closing-bounds at 0 _ i closed in
              let (l, r) =
                read_segments-ends fuel json obj_start obj_end (i + 1) o c (omega (arith, on, low))
                  (ground (arith, e, on, low)) in
              (
                record {
                  start = get_dbl_field stod null json at (bytes "start") null;
                  end = get_dbl_field stod null json at (bytes "end") null;
                }
                    ∷ l,
                rw (read_segments, e, q, closed, r) refl,
              )
          | inr q ↦
              let (l, r) =
                read_segments-ends fuel json obj_start obj_end (at + 1) o c (omega (arith, on))
                  (ground (arith, e, on)) in
              (l, rw (read_segments, e, q, r) refl)
        ]
      ]

  array_at-lt :
      (json : Bytes) (obj_start obj_end p : ℕ) (key : Bytes)
      → array_at stod null one json obj_start obj_end key ≡ some p
      → obj_start < p
  unfolding array_at
  array_at-lt json obj_start obj_end p key h = elim (Option-cases (find_key json obj_start key)) [
    | inl e ↦
        let nothing : array_at stod null one json obj_start obj_end key ≡ none =
          rw (array_at, e) refl in
        absurd (cc)
    | inr (at, e) ↦ elim (Bool-cases (ltb at obj_end && is_at json at b'[')) [
      | inl f ↦
          let there : array_at stod null one json obj_start obj_end key ≡ some (at + 1) =
            rw (array_at, e, f) refl in
          let same : at + 1 ≡ p = cc in omega (arith, same, find_key-le json obj_start at key e)
      | inr f ↦
          let nothing : array_at stod null one json obj_start obj_end key ≡ none =
            rw (array_at, e, f) refl in
          absurd (cc)
    ]
  ]

  -- An array that is not there is empty, and one that is there ends.
  array-ends :
      {A : Type 0} (o : Option ℕ) (read : ℕ → Option (List A))
      → ((p : ℕ) → o ≡ some p → (l : List A) × (read p ≡ some l))
      → (l : List A) × ((elim o [ none ↦ some [] | some p ↦ read p ]) ≡ some l)
  array-ends none read h = ([], refl)
  array-ends (some p) read h = h p refl

  read_command-ends :
      (fuel : ℕ) (json : Bytes) (obj_start obj_end : ℕ)
      → is_at json obj_start b'{' ≡ true
      → closing obj_start 0 (drop obj_start json) ≡ some obj_end
      → obj_end - obj_start < fuel
      → (cmd : EditCommand D) × (read_command stod null one fuel json obj_start obj_end ≡ some cmd)
  unfolding read_command
  read_command-ends fuel json obj_start obj_end o c h =
      let (srcs, s) =
        array-ends (array_at stod null one json obj_start obj_end (bytes "sources"))
          (λ at. read_sources fuel json obj_end at)
          (λ p e.
            read_sources-ends fuel json obj_end p
              (omega (arith, array_at-lt json obj_start obj_end p (bytes "sources") e))) in
      let (segs, g) =
        array-ends (array_at stod null one json obj_start obj_end (bytes "segments"))
          (λ at. read_segments stod null one fuel json obj_end at)
          (λ p e.
            let after = array_at-lt json obj_start obj_end p (bytes "segments") e in
            read_segments-ends fuel json obj_start obj_end p o c after (omega (arith, after))) in
      (command_of stod null one json obj_start srcs segs, rw (read_command, s, g) refl)

  -- A round that reads a command.
  object-read :
      (fuel : ℕ) (json : Bytes) (arr_pos i : ℕ) (cmd : EditCommand D) (l : List (EditCommand D))
      → stops json (length json) arr_pos (skip_ws_at json arr_pos) ≡ false
      → is_at json (skip_ws_at json arr_pos) b'{' ≡ true
      → closing (skip_ws_at json arr_pos) 0 (drop (skip_ws_at json arr_pos) json) ≡ some i
      → read_command stod null one fuel json (skip_ws_at json arr_pos) i ≡ some cmd
      → read_commands stod null one fuel json (i + 1) ≡ some l
      → read_commands stod null one (suc fuel) json arr_pos
        ≡ some (if length cmd.type == 0 then l else cmd ∷ l)
  unfolding read_commands
  object-read fuel json arr_pos i cmd l e q closed c r =
      rw (read_commands, e, closed, c, q, closed, r) refl

  read_commands-ends :
      (fuel : ℕ) (json : Bytes) (arr_pos : ℕ)
      → length json - arr_pos < fuel
      → (cmds : List (EditCommand D)) × (read_commands stod null one fuel json arr_pos ≡ some cmds)
  unfolding read_commands
  read_commands-ends zero json arr_pos h = absurd (omega arith)
  read_commands-ends (suc fuel) json arr_pos h =
      let at = skip_ws_at json arr_pos in
      let on = skip_ws_at-le json arr_pos in
      elim (Bool-cases (stops json (length json) arr_pos at)) [
        | inl e ↦ ([], rw (read_commands, e) refl)
        | inr e ↦ elim (Bool-cases (is_at json at b'{')) [
          | inr q ↦
              let (l, r) = read_commands-ends fuel json (at + 1) (ground (arith, e, on)) in
              (l, rw (read_commands, e, q, r) refl)
          | inl q ↦ elim (Option-cases (closing at 0 (drop at json))) [
            | inl open' ↦ ([], rw (read_commands, e, q, open') refl)
            | inr (i, closed) ↦
                let (low, high) = closing-bounds at 0 (drop at json) i closed in
                let within = length-drop at json in
                let (cmd, c) =
                  read_command-ends fuel json at i q closed
                    (ground (arith, e, on, low, high, within)) in
                let (l, r) = read_commands-ends fuel json (i + 1) (ground (arith, e, on, low)) in
                (
                  (if length cmd.type == 0 then l else cmd ∷ l),
                  object-read fuel json arr_pos i cmd l e q closed c r,
                )
          ]
        ]
      ]

  -- On every text the reading of edit commands ends: with one round more than the text has bytes, for
  -- each of its loops, it gives a list of commands.
  pub parse_edit_commands-ends :
      (fuel : ℕ) (json : Bytes)
      → length json < fuel
      → (cmds : List (EditCommand D)) × (parse_edit_commands stod null one fuel json ≡ some cmds)
  unfolding parse_edit_commands
  parse_edit_commands-ends fuel json h = elim (Option-cases (find_from json 0 edit_commands)) [
    | inl e ↦ ([], rw (parse_edit_commands, e) refl)
    | inr (key, e) ↦ elim (Option-cases (find_from json key (b'[' ∷ []))) [
      | inl f ↦ ([], rw (parse_edit_commands, e, f) refl)
      | inr (at, f) ↦
          let (l, r) = read_commands-ends fuel json (at + 1) (omega arith) in
          (l, rw (parse_edit_commands, e, f, r) refl)
    ]
  ]
