-- ===== src/Analyzer/Traced.antt =====
-- The calls by which LlmTextAnalyzerNode writes and renames files (plugins/llm_text_analyzer_plugin.cpp).
use cpp20_workflow_engine.Shared.{
  ℕ, ◌≡◌, ◌⊎◌, inl, inr, refl, Bool, false, ◌&&◌, Option, none, some, Option-cases, List, [], ◌∷◌,
  ◌++◌, if◌then◌else◌, Bytes, str_eq,
}
use cpp20_workflow_engine.Shared.Int.{ℤ}
use cpp20_workflow_engine.Analyzer.Http.{
  Target, HttpResponse, parse_url, read_response, failure, post,
}
use cpp20_workflow_engine.Analyzer.Session.{System}
use cpp20_workflow_engine.Analyzer.Totals.{Gives}

-- The file that was written last, if it is not renamed, and the names that written files were given.
pub record Trace : Type 0 where
  pub written : Option Bytes
  pub placed : List Bytes

abbrev pub is_file : Bytes → Option Bytes → Bool
is_file name none = false
is_file name (some file) = str_eq name file

-- The system with its trace: a file is placed when it has been opened and written and then, before any
-- other is written, been renamed.
abbrev pub traced : {W : Type 0} → System W → System (W × Trace)
traced sys = record {
  exchange = λ (w, tr) target timeout_s request. elim (sys.exchange w target timeout_s request) [
    | none ↦ none
    | some (outcome, w') ↦ some (outcome, (w', tr))
  ];
  exists = λ (w, tr) file. sys.exists w file;
  is_file = λ (w, tr) file. sys.is_file w file;
  is_directory = λ (w, tr) file. sys.is_directory w file;
  entries = λ (w, tr) recursive dir. sys.entries w recursive dir;
  create_directories =
      λ (w, tr) dir. let (error, w') = sys.create_directories w dir in (error, (w', tr));
  read = λ (w, tr) file. sys.read w file;
  write = λ (w, tr) file content.
      let (opened, w') = sys.write w file content in
      (opened, (w', record tr { written = if opened then some file else none }));
  rename = λ (w, tr) from to.
      let (renamed, w') = sys.rename w from to in
      (
        renamed,
        (
          w',
          record {
            written = none;
            placed = if renamed && is_file from tr.written then tr.placed ++ to ∷ [] else tr.placed;
          },
        ),
      );
  remove = λ (w, tr) file. (sys.remove w file, tr);
  time = λ (w, tr). sys.time w;
  filename = sys.filename;
  stem = sys.stem;
  extension = sys.extension;
  within = sys.within;
  sort = sys.sort;
  stoi = sys.stoi;
  stoll = sys.stoll;
  stoul = sys.stoul;
}

Sum-cases : {A B : Type 0} (s : A ⊎ B) → ((a : A) × (s ≡ inl a)) ⊎ ((b : B) × (s ≡ inr b))
Sum-cases (inl a) = inl (a, refl)
Sum-cases (inr b) = inr (b, refl)

-- What the exchange keeps of the world, `post` keeps.
module _ {W : Type 0} (P : W → Type 0) (stoi : Bytes → Option ℤ) (stoul : Bytes → Option ℕ)
    (fuel : ℕ) where
  abbrev Kept : {A : Type 0} → A × W → Type 0
  Kept (a, w) = P w

  answered-Kept :
      (r : Option ((Bytes ⊎ List Bytes) × W))
      → Gives Kept r
      → Gives {A = HttpResponse × W} Kept (elim r [
        | none ↦ none
        | some (outcome, after) ↦ elim outcome [
          | inl message ↦ some (failure message, after)
          | inr reads ↦ elim (read_response stoi stoul fuel reads) [
            | none ↦ none
            | some response ↦ some (response, after)
          ]
        ]
      ])
  answered-Kept none h = tt
  answered-Kept (some (inl message, after)) h = h
  answered-Kept (some (inr reads, after)) h =
      elim (Option-cases (read_response stoi stoul fuel reads)) [
        | inl e ↦ rw e tt
        | inr (response, e) ↦ rw e h
      ]

  pub post-Kept :
      (exchange : W → Target → ℤ → Bytes → Option ((Bytes ⊎ List Bytes) × W)) (w : W)
      (url headers body : Bytes) (timeout_s : ℤ)
      → ((target : Target) (request : Bytes) → Gives Kept (exchange w target timeout_s request))
      → P w
      → Gives Kept (post stoi stoul exchange fuel w url headers body timeout_s)
  unfolding post
  post-Kept exchange w url headers body timeout_s keeps h = elim (Sum-cases (parse_url stoi url)) [
    | inl (message, e) ↦ rw (post, e) h
    | inr (target, e) ↦ rw (post, e) (answered-Kept _ (keeps target _))
  ]
