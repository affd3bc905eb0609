-- ===== src/Audio/Filters.antt =====
-- The filters that executeEditCommand gives to ffmpeg (plugins/llm_audio_editor_plugin.cpp).
use cpp20_workflow_engine.Shared.{
  ℕ, zero, suc, Bool, true, false, ◌&&◌, Option, none, some, List, [], ◌∷◌, ◌++◌, if◌then◌else◌,
  Bytes, bytes,
}
use cpp20_workflow_engine.Segments.{join}
use cpp20_workflow_engine.Audio.Commands.{TimeSegment, EditCommand}
use cpp20_workflow_engine.Audio.Process.{Doubles}

module _ {D : Type 0} (d : Doubles D) where
  -- The segments of a deletion, with a plus sign before each but the first.
  abbrev pub between_all : Bool → List (TimeSegment D) → Bytes
  between_all first [] = []
  between_all first (s ∷ segments) =
      let rest = between_all false segments in
      join (
        (if first then [] else bytes "+")
        ∷ bytes "between(t,"
        ∷ d.to_text s.start
        ∷ bytes ","
        ∷ d.to_text s.end
        ∷ bytes ")"
        ∷ rest
        ∷ [])

  unfoldable pub delete_filter : List (TimeSegment D) → Bytes
  delete_filter segments =
      join (bytes "aselect='not(" ∷ between_all true segments ∷ bytes ")',asetpts=N/SR/TB" ∷ [])

  -- The loops that chain filters: each round writes `step` and changes the remainder.
  unfoldable pub chain : ℕ → (D → Bool) → (D → D) → Bytes → D → Option Bytes
  chain zero outside next step rem = none
  chain (suc fuel) outside next step rem =
      let rest = chain fuel outside next step (next rem) in
      if outside rem
      then (elim rest [ none ↦ none | some filter ↦ some (step ++ b',' ∷ filter) ])
      else some (bytes "atempo=" ++ d.to_text rem)

  unfoldable pub speed_filter : ℕ → D → Option Bytes
  unfolding chain
  speed_filter fuel wanted =
      let factor = if d.le wanted d.null then d.one else wanted in
      if d.le d.half factor && d.le factor d.two
      then some (bytes "atempo=" ++ d.to_text factor)
      else if d.lt d.two factor
      then chain fuel (λ rem. d.lt d.two rem) (λ rem. d.div rem d.two) (bytes "atempo=2.0") factor
      else chain fuel (λ rem. d.lt rem d.half) (λ rem. d.mul rem d.two) (bytes "atempo=0.5") factor

  -- The filter of a fade of a file that lasts `dur`; `none` when neither end is to fade.
  unfoldable pub fade_filter : EditCommand D → D → Option Bytes
  fade_filter cmd dur =
      let fade_out_start = if d.lt cmd.fade_out dur then d.sub dur cmd.fade_out else d.null in
      let fade_in : Bytes = bytes "afade=t=in:ss=0:d=" ++ d.to_text cmd.fade_in in
      let fade_out : Bytes = join (
        bytes "afade=t=out:st="
        ∷ d.to_text fade_out_start
        ∷ bytes ":d="
        ∷ d.to_text cmd.fade_out
        ∷ []) in
      if d.lt d.null cmd.fade_in && d.lt d.null cmd.fade_out
      then some (fade_in ++ b',' ∷ fade_out)
      else if d.lt d.null cmd.fade_in
      then some fade_in
      else if d.lt d.null cmd.fade_out
      then some fade_out
      else none
