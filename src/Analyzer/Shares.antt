-- ===== src/Analyzer/Shares.antt =====
-- How the worker threads of LlmTextAnalyzerNode share the files
-- (plugins/llm_text_analyzer_plugin.cpp).
use cpp20_workflow_engine.Shared.{
  ℕ, ◌+◌, ◌%◌, ◌^◌, ◌≤◌, ◌<◌, ◌≡◌, ◌⊎◌, inl, inr, refl, ap, sym, ◌∙◌, Bool-cases, true, ◌&&◌,
  Option, none, some, List, [], ◌∷◌, ◌++◌, length, length-append, List-cases, arith, ltb,
  if◌then◌else◌, Bytes,
}
use cpp20_workflow_engine.Analyzer.Settings.{Settings}
use cpp20_workflow_engine.Analyzer.Session.{System, Totals}
use cpp20_workflow_engine.Analyzer.Workers.{
  get_elem?, set_elem, Worker, ready, busy, gone, Pool, n_par, all_gone, start, advance, work,
}
use cpp20_workflow_engine.Analyzer.Totals.{
  Gives, Gives-any, Gives-bind, Gives-some, IsOneMore, process_file-Counts,
}
use cpp20_workflow_engine.Analyzer.Tally.{
  times, tally, is_gone, is_busy, is_at, tally-set_elem, length-set_elem, times-snoc, tally_gone-le,
  all_gone-tally, all_ready-tally, n_par-lt,
}

-- `m` threads share `n` files: an index that has been handed out is processed or held, once.
abbrev pub IsShared : {W : Type 0} → ℕ → ℕ → Pool W → Type 0
IsShared n m p =
    (p.idx ≤ n + tally is_gone p.workers)
    × (0 < tally is_gone p.workers → n ≤ p.idx)
    × (length p.workers ≡ m)
    × ((i : ℕ)
        → times i p.processed + tally (is_at i) p.workers
          ≡ (if ltb i p.idx && ltb i n then 1 else 0))
    × (length p.processed + tally is_busy p.workers ≡ (if ltb p.idx n then p.idx else n))
    × (p.totals.analyzed + p.totals.failed + p.totals.skipped ≡ length p.processed)
    × (p.totals.analyzed ≡ length p.totals.output_files)

pub Worker-cases :
    (o : Option Worker)
    → (o ≡ none) ⊎ (o ≡ some ready) ⊎ (o ≡ some gone) ⊎ ((i : ℕ) × (o ≡ some (busy i)))
Worker-cases none = inl refl
Worker-cases (some ready) = inr (inl refl)
Worker-cases (some gone) = inr (inr (inl refl))
Worker-cases (some (busy i)) = inr (inr (inr (i, refl)))

module _ {W : Type 0} (n m : ℕ) (few : m ≤ n) (small : n < 2 ^ 63) where
  pub index_fits : (p : Pool W) → IsShared n m p → (p.idx + 1) % 2 ^ 64 ≡ p.idx + 1
  index_fits p (bound, ended, size, shares, done, counted, written) =
      omega (arith, tally_gone-le p.workers)

  -- A thread takes an index.
  take-IsShared :
      (k : ℕ) (p : Pool W)
      → get_elem? k p.workers ≡ some ready
      → p.idx < n
      → IsShared n m p
      → IsShared n m
          (record p { idx = (p.idx + 1) % 2 ^ 64; workers = set_elem k (busy p.idx) p.workers })
  take-IsShared k p e l (bound, ended, size, shares, done, counted, written) =
      let next = index_fits p (bound, ended, size, shares, done, counted, written) in
      let same : tally is_gone (set_elem k (busy p.idx) p.workers) ≡ tally is_gone p.workers =
        omega (arith, tally-set_elem is_gone k ready (busy p.idx) p.workers e) in
      (
        omega (arith, same, next),
        λ h. omega (arith, same, ended),
        length-set_elem k (busy p.idx) p.workers ∙ size,
        λ j.
            ground
              (arith, next, tally-set_elem (is_at j) k ready (busy p.idx) p.workers e, shares j),
        ground (arith, next, tally-set_elem is_busy k ready (busy p.idx) p.workers e),
        counted,
        written,
      )

  -- A thread finds no index left.
  end-IsShared :
      (k : ℕ) (p : Pool W)
      → get_elem? k p.workers ≡ some ready
      → n ≤ p.idx
      → IsShared n m p
      → IsShared n m (record p { idx = (p.idx + 1) % 2 ^ 64; workers = set_elem k gone p.workers })
  end-IsShared k p e l (bound, ended, size, shares, done, counted, written) =
      let next = index_fits p (bound, ended, size, shares, done, counted, written) in
      (
        omega (arith, next, tally-set_elem is_gone k ready gone p.workers e),
        λ h. omega (arith, next),
        length-set_elem k gone p.workers ∙ size,
        λ j. ground (arith, next, tally-set_elem (is_at j) k ready gone p.workers e, shares j),
        ground (arith, next, tally-set_elem is_busy k ready gone p.workers e),
        counted,
        written,
      )

  -- A thread has processed the file that it held.
  finish-IsShared :
      (k i : ℕ) (p : Pool W) (totals' : Totals) (world' : W)
      → get_elem? k p.workers ≡ some (busy i)
      → IsOneMore p.totals totals'
      → IsShared n m p
      → IsShared n m (record p {
        workers = set_elem k ready p.workers;
        totals = totals';
        world = world';
        processed = p.processed ++ i ∷ [];
      })
  finish-IsShared k i p totals' world' e (one, output)
        (bound, ended, size, shares, done, counted, written) =
      let same : tally is_gone (set_elem k ready p.workers) ≡ tally is_gone p.workers =
        omega (arith, tally-set_elem is_gone k (busy i) ready p.workers e) in
      let longer = length-append p.processed (i ∷ []) in
      (
        omega (arith, same),
        λ h. ended (omega (arith, same)),
        length-set_elem k ready p.workers ∙ size,
        λ j. omega (
          arith,
          tally-set_elem (is_at j) k (busy i) ready p.workers e,
          times-snoc j i p.processed,
          shares j,
        ),
        omega (arith, tally-set_elem is_busy k (busy i) ready p.workers e, longer),
        omega (arith, longer),
        omega arith,
      )

module _ {W : Type 0} (sys : System W) (st : Settings) (fuel : ℕ) (input_files : List Bytes) where
  pub advance-IsShared :
      (m k : ℕ) (p : Pool W)
      → m ≤ length input_files
      → length input_files < 2 ^ 63
      → IsShared (length input_files) m p
      → Gives (IsShared (length input_files) m) (advance sys st fuel input_files k p)
  unfolding advance
  advance-IsShared m k p few small inv = elim (Worker-cases (get_elem? k p.workers)) [
    | inl e ↦ rw (advance, e) inv
    | inr (inr (inl e)) ↦ rw (advance, e) inv
    | inr (inl e) ↦ elim (Bool-cases (ltb p.idx (length input_files))) [
      | inl l ↦
          rw (advance, e, l)
            (take-IsShared (length input_files) m few small k p e (ground arith) inv)
      | inr l ↦
          rw (advance, e, l)
            (end-IsShared (length input_files) m few small k p e (ground arith) inv)
    ]
    | inr (inr (inr (i, e))) ↦
        rw (advance, e)
          (Gives-bind (λ a. Unit {0}) (IsShared (length input_files) m) _ _
            (Gives-any (get_elem? i input_files))
            (λ file_path u.
              Gives-bind (λ (t, w). IsOneMore p.totals t) (IsShared (length input_files) m) _ _
                (process_file-Counts sys st fuel file_path p.totals p.world)
                (λ (t, w) one.
                  finish-IsShared (length input_files) m few small k i p t w e one inv)))
  ]

  pub work-IsShared :
      (m : ℕ) (moves : List ℕ) (p : Pool W)
      → m ≤ length input_files
      → length input_files < 2 ^ 63
      → IsShared (length input_files) m p
      → Gives (IsShared (length input_files) m) (work sys st fuel input_files moves p)
  unfolding work
  work-IsShared m [] p few small inv = inv
  work-IsShared m (k ∷ moves) p few small inv =
      Gives-bind (IsShared (length input_files) m) (IsShared (length input_files) m) _ _
        (advance-IsShared m k p few small inv) (λ q after. work-IsShared m moves q few small after)

  abbrev pub threads : ℕ
  threads =
      if ltb (length input_files) (n_par st.parallel) then length input_files else n_par st.parallel

  pub start-IsShared :
      (w : W) → IsShared (length input_files) threads (start sys st fuel input_files w)
  unfolding start
  start-IsShared w =
      let (size, none_gone, none_busy, none_at) = all_ready-tally threads in
      (
        omega arith,
        λ h. omega (arith, none_gone),
        size,
        λ i. ground (arith, none_at i),
        ground (arith, none_busy),
        refl,
        refl,
      )

  some_thread : (0 < threads) ⊎ (length input_files ≡ 0)
  some_thread = elim (List-cases input_files) [
    | inl e ↦ inr (ap length e)
    | inr (x, rest, e) ↦
        let positive : 0 < length input_files = omega (arith, ap length e) in
        inl (ground (arith, n_par-lt st.parallel))
  ]

  -- However the threads interleave, when all have ended each file has been processed exactly once, has
  -- been counted as analyzed, failed or skipped, and the list of outputs has as many entries as files
  -- were analyzed, if there are fewer than 2^63 files.
  pub work-all_gone :
      (moves : List ℕ) (w : W) (p : Pool W)
      → length input_files < 2 ^ 63
      → work sys st fuel input_files moves (start sys st fuel input_files w) ≡ some p
      → all_gone p.workers ≡ true
      → ((i : ℕ) → i < length input_files → times i p.processed ≡ 1)
        × (length p.processed ≡ length input_files)
        × (p.totals.analyzed + p.totals.failed + p.totals.skipped ≡ length input_files)
        × (length p.totals.output_files ≡ p.totals.analyzed)
  work-all_gone moves w p small e h =
      let few : threads ≤ length input_files = ground arith in
      let (bound, ended, size, shares, done, counted, written) =
        Gives-some (IsShared (length input_files) threads) _
          (work-IsShared threads moves _ few small (start-IsShared w)) e in
      let (g, b, a) = all_gone-tally p.workers h in
      let through : length input_files ≤ p.idx = elim some_thread [
        | inl t ↦ ended (omega (arith, t, g, size))
        | inr z ↦ omega (arith, z)
      ] in
      (
        λ i l. ground (arith, shares i, a i, through),
        ground (arith, b, through),
        ground (arith, b, through),
        sym written,
      )
