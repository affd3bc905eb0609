-- ===== src/Analyzer/Totals.antt =====
-- The counters of LlmTextAnalyzerNode (plugins/llm_text_analyzer_plugin.cpp).
use cpp20_workflow_engine.Shared.{
  ℕ, suc, ◌+◌, ◌≡◌, refl, ap, subst, ◌∙◌, Bool, true, false, not, ◌&&◌, Option, none, some, List,
  [], ◌∷◌, length, length-append, arith, ◌==◌, if◌then◌else◌, Bytes, bytes,
}
use cpp20_workflow_engine.Shared.Int.{is_pos}
use cpp20_workflow_engine.Segments.{split_text}
use cpp20_workflow_engine.Analyzer.Text.{replace_all}
use cpp20_workflow_engine.Analyzer.Http.{post}
use cpp20_workflow_engine.Analyzer.Settings.{Settings, ◌>>=◌}
use cpp20_workflow_engine.Analyzer.Session.{
  System, Totals, actual_endpoint, extra_headers, request_body, size_of_limit, ask, call_llm,
  call_segments, analyse,
}
use cpp20_workflow_engine.Analyzer.Files.{count_failed, out_file, save, process_file}

-- The counters of files and the outputs are the same.
abbrev pub IsSame : Totals → Totals → Type 0
IsSame t t' =
    (t'.analyzed ≡ t.analyzed)
    × (t'.failed ≡ t.failed)
    × (t'.skipped ≡ t.skipped)
    × (t'.output_files ≡ t.output_files)

IsSame-trans : (a b c : Totals) → IsSame a b → IsSame b c → IsSame a c
IsSame-trans a b c (p, q, r, s) (p', q', r', s') = (p' ∙ p, q' ∙ q, r' ∙ r, s' ∙ s)

-- One file more has been counted, and an output for each file that was analyzed.
abbrev pub IsOneMore : Totals → Totals → Type 0
IsOneMore t t' =
    (t'.analyzed + t'.failed + t'.skipped ≡ suc (t.analyzed + t.failed + t.skipped))
    × (t'.analyzed + length t.output_files ≡ t.analyzed + length t'.output_files)

IsOneMore-same : (a b c : Totals) → IsSame a b → IsOneMore b c → IsOneMore a c
IsOneMore-same a b c (p, q, r, s) (m, k) = (omega arith, omega (arith, ap length s))

pub IsSame-refl : (t : Totals) → IsSame t t
IsSame-refl t = (refl, refl, refl, refl)

pub choose : {A : Type 0} (P : A → Type 0) (b : Bool) (x y : A) → P x → P y → P (if b then x else y)
choose P true x y p q = p
choose P false x y p q = q

-- What a call returns, if it does, satisfies `P`.
abbrev pub Gives : {A : Type 0} → (A → Type 0) → Option A → Type 0
Gives P none = Unit {0}
Gives P (some a) = P a

pub Gives-bind :
    {A B : Type 0} (P : A → Type 0) (Q : B → Type 0) (m : Option A) (f : A → Option B)
    → Gives P m
    → ((a : A) → P a → Gives Q (f a))
    → Gives Q (m >>= f)
Gives-bind P Q none f h k = tt
Gives-bind P Q (some a) f h k = k a h

pub Gives-weaken :
    {A : Type 0} (P Q : A → Type 0) (m : Option A) → Gives P m → ((a : A) → P a → Q a) → Gives Q m
Gives-weaken P Q none h k = tt
Gives-weaken P Q (some a) h k = k a h

pub Gives-any : {A : Type 0} (m : Option A) → Gives (λ a. Unit {0}) m
Gives-any none = tt
Gives-any (some a) = tt

pub Gives-some : {A : Type 0} (P : A → Type 0) (m : Option A) {a : A} → Gives P m → m ≡ some a → P a
Gives-some P m h e = subst (Gives P) e h

module _ {W : Type 0} (sys : System W) (st : Settings) (fuel : ℕ) where
  abbrev Keeps : {A : Type 0} → Totals → A × Totals × W → Type 0
  Keeps t (r, t', w') = IsSame t t'

  pub ask-Keeps :
      (user_prompt : Bytes) (t : Totals) (w : W) → Gives (Keeps t) (ask sys st fuel user_prompt t w)
  unfolding ask
  ask-Keeps user_prompt t w =
      Gives-bind (λ a. Unit {0}) (Keeps t) _ _
        (Gives-any (
          post sys.stoi sys.stoul sys.exchange fuel w (actual_endpoint st) (extra_headers st)
            (request_body st user_prompt) st.timeout_s))
        (λ (resp, after) u.
          choose (Keeps t) (is_pos 200 resp.status_code) _ _ (IsSame-refl t) (IsSame-refl t))

  call_llm-Keeps :
      (content filename : Bytes) (t : Totals) (w : W)
      → Gives (Keeps t) (call_llm sys st fuel content filename t w)
  unfolding call_llm
  call_llm-Keeps content filename t w =
      Gives-bind (λ a. Unit {0}) (Keeps t) _ _
        (Gives-any (replace_all fuel st.user_tmpl (bytes "{content}") content))
        (λ with_content u.
          Gives-bind (λ a. Unit {0}) (Keeps t) _ _
            (Gives-any (replace_all fuel with_content (bytes "{filename}") filename))
            (λ user_prompt v. ask-Keeps user_prompt t w))

  call_segments-Keeps :
      (segments : List Bytes) (filename : Bytes) (i : ℕ) (t : Totals) (w : W)
      → Gives (Keeps t) (call_segments sys st fuel segments filename i t w)
  unfolding call_segments
  call_segments-Keeps [] filename i t w = IsSame-refl t
  call_segments-Keeps (segment ∷ segments) filename i t w =
      Gives-bind (Keeps t) (Keeps t) _ _ (call_llm-Keeps segment filename t w) (λ (r, t', w') h.
        Gives-bind (Keeps t) (Keeps t) _ _
          (choose (Gives (Keeps t)) (length r == 0) (some (none, t', w'))
            (call_segments sys st fuel segments filename (suc i) t' w') h
            (Gives-weaken (Keeps t') (Keeps t)
              (call_segments sys st fuel segments filename (suc i) t' w')
              (call_segments-Keeps segments filename (suc i) t' w')
              (λ (q, t'', w'') k. IsSame-trans t t' t'' h k)))
          (λ (rest, t'', w'') k. k))

  merging-Keeps :
      (filename : Bytes) (t : Totals) (all : Option Bytes) (t' : Totals) (w' : W)
      → IsSame t t'
      → Gives (Keeps t) (elim all [
        | none ↦ some ([], t', w')
        | some all_segs ↦ do
          (merged, t'', w'') ← call_llm sys st fuel all_segs filename t' w'
          some (if length merged == 0 then all_segs else merged, t'', w'')
      ])
  unfolding analyse
  merging-Keeps filename t none t' w' h = h
  merging-Keeps filename t (some all_segs) t' w' h =
      Gives-bind (Keeps t') (Keeps t) _ _ (call_llm-Keeps all_segs filename t' w')
        (λ (merged, t'', w'') k. IsSame-trans t t' t'' h k)

  analyse-Keeps :
      (content filename : Bytes) (t : Totals) (w : W)
      → Gives (Keeps t) (analyse sys st fuel content filename t w)
  unfolding analyse
  analyse-Keeps content filename t w =
      Gives-bind (λ a. Unit {0}) (Keeps t) _ _
        (Gives-any (split_text (size_of_limit st.max_input_chars) content))
        (λ segments u.
          choose (Gives (Keeps t)) (length segments == 1)
            (call_llm sys st fuel content filename t w) _ (call_llm-Keeps content filename t w)
            (Gives-bind (Keeps t) (Keeps t) _ _ (call_segments-Keeps segments filename 0 t w)
              (λ (all, t', w') h. merging-Keeps filename t all t' w' h)))

  abbrev Counts : Totals → Totals × W → Type 0
  Counts t (t', w') = IsOneMore t t'

  save-Counts :
      (target filename analysis_result : Bytes) (t : Totals) (w : W)
      → Counts t (save sys st target filename analysis_result t w)
  unfolding save
  save-Counts target filename analysis_result t w =
      ground (arith, length-append t.output_files (target ∷ []))

  reading-Counts :
      (file_path : Bytes) (t : Totals) (w : W) (o : Option Bytes)
      → Gives (Counts t) (elim o [
        | none ↦ some (count_failed t, w)
        | some content ↦ do
          let read = record t { input_chars = t.input_chars + length content }
          (result, t', w') ← analyse sys st fuel content (sys.filename file_path) read w
          some (
              if length result == 0
              then (count_failed t', w')
              else save sys st (out_file sys st file_path) (sys.filename file_path) result t' w')
      ])
  reading-Counts file_path t w none = (omega arith, refl)
  reading-Counts file_path t w (some content) =
      let read = record t { input_chars = t.input_chars + length content } in
      Gives-bind (Keeps read) (Counts t) _ _ (analyse-Keeps content (sys.filename file_path) read w)
        (λ (result, t', w') h.
          let saved =
            save sys st (out_file sys st file_path) (sys.filename file_path) result t' w' in
          let out = if length result == 0 then (count_failed t', w') else saved in
          IsOneMore-same t t' out.0 h (
            choose (Counts t') (length result == 0) (count_failed t', w') saved (omega arith, refl)
              (save-Counts (out_file sys st file_path) (sys.filename file_path) result t' w')))

  -- A file that is processed is counted once, as analyzed, failed or skipped, and exactly an analyzed
  -- file adds an output to the list.
  pub process_file-Counts :
      (file_path : Bytes) (t : Totals) (w : W)
      → Gives (Counts t) (process_file sys st fuel file_path t w)
  unfolding process_file
  process_file-Counts file_path t w =
      choose (Gives (Counts t)) (not st.overwrite && sys.exists w (out_file sys st file_path)) _ _
        (omega arith, refl) (reading-Counts file_path t w (sys.read w file_path))
