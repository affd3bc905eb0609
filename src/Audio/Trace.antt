-- ===== src/Audio/Trace.antt =====
-- The calls of a machine, kept beside its world, and what executeEditCommand calls
-- (plugins/llm_audio_editor_plugin.cpp).
use cpp20_workflow_engine.Shared.{
  ℕ, ◌≡◌, ◌⊎◌, inl, inr, refl, ◌∙◌, Bool, Bool-cases, true, false, not, ◌&&◌, ◌||◌, some, List, [],
  ◌∷◌, ◌++◌, arith, if◌then◌else◌, Bytes, bytes, str_eq,
}
use cpp20_workflow_engine.Analyzer.Totals.{Gives, Gives-bind, Gives-some, choose}
use cpp20_workflow_engine.Audio.Commands.{EditCommand}
use cpp20_workflow_engine.Audio.Process.{Doubles, Machine}
use cpp20_workflow_engine.Audio.Edit.{Options, concat_of, concat, execute_edit_command}
use cpp20_workflow_engine.Audio.Process.Keeps.{Holds, choose_on}
use cpp20_workflow_engine.Audio.Keeps.{Calls, Concats, convert-Keeps, execute_edit_command-Keeps}

pub data Call : Type 0 where
  started : List Bytes → Call
  written : Bytes → Call
  removed : Bytes → Call
  created : Bytes → Call

-- The machine with the list of its calls; a file that cannot be opened is not written.
abbrev pub traced : {W : Type 0} → Machine W → Machine (W × List Call)
traced m = record {
  spawn = λ (w, log) args. let (a, w') = m.spawn w args in (a, (w', log ++ started args ∷ []));
  read = λ (w, log) child fd. let (a, w') = m.read w child fd in (a, (w', log));
  waitpid = λ (w, log) child. let (a, w') = m.waitpid w child in (a, (w', log));
  now = λ (w, log). m.now w;
  sleep = λ (w, log). (m.sleep w, log);
  kill = λ (w, log) child. (m.kill w child, log);
  exists = λ (w, log) path. m.exists w path;
  size = λ (w, log) path. m.size w path;
  write = λ (w, log) path text.
      let (opened, w') = m.write w path text in
      (opened, (w', if opened then log ++ written path ∷ [] else log));
  unlink = λ (w, log) path. (m.unlink w path, log ++ removed path ∷ []);
  temp_file = m.temp_file;
  pid = m.pid;
  is_absolute = m.is_absolute;
  within = m.within;
}

abbrev pub All : {A : Type 0} → (A → Type 0) → List A → Type 0
All P [] = Unit {0}
All P (x ∷ xs) = P x × All P xs

pub All-snoc :
    {A : Type 0} (P : A → Type 0) (xs : List A) (x : A) → All P xs → P x → All P (xs ++ x ∷ [])
All-snoc P [] x h p = (p, tt)
All-snoc P (y ∷ xs) x (q, h) p = (q, All-snoc P xs x h p)

abbrev pub HeadIs : Bytes → List Bytes → Type 0
HeadIs program [] = ⊥
HeadIs program (a ∷ args) = a ≡ program

-- A call that leaves all files but the temporary ones alone: a start of ffprobe, or of ffmpeg for its
-- version alone, a temporary file, or the creation of the output directory.
abbrev pub IsHarmless : {W : Type 0} → Machine W → Options → Call → Type 0
IsHarmless m o (started args) = HeadIs o.ffprobe args ⊎ (args ≡ o.ffmpeg ∷ bytes "-version" ∷ [])
IsHarmless m o (written path) = (name : Bytes) × (path ≡ m.temp_file name)
IsHarmless m o (removed path) = (name : Bytes) × (path ≡ m.temp_file name)
IsHarmless m o (created path) = path ≡ o.output_dir

-- Whether a file is left behind: it was written and not removed since.
abbrev after : Bytes → Bool → Call → Bool
after path left (started args) = left
after path left (written q) = str_eq q path || left
after path left (removed q) = not (str_eq q path) && left
after path left (created q) = left

abbrev pub left_behind : Bytes → Bool → List Call → Bool
left_behind path left [] = left
left_behind path left (c ∷ log) = left_behind path (after path left c) log

left_behind-snoc :
    (path : Bytes) (left : Bool) (log : List Call) (c : Call)
    → left_behind path left (log ++ c ∷ []) ≡ after path (left_behind path left log) c
left_behind-snoc path left [] c = refl
left_behind-snoc path left (x ∷ log) c = left_behind-snoc path (after path left x) log c

not_opened :
    (path : Bytes) (log : List Call) (opened : Bool) (q : Bytes)
    → not opened ≡ true
    → left_behind q false log ≡ false
    → left_behind q false (if opened then log ++ written path ∷ [] else log) ≡ false
not_opened path log true q e h = cc
not_opened path log false q e h = h

excepted_written :
    (path : Bytes) (log : List Call) (opened : Bool) (q : Bytes)
    → str_eq path q ≡ false
    → left_behind q false log ≡ false
    → left_behind q false (if opened then log ++ written path ∷ [] else log) ≡ false
excepted_written path log true q e h = ground (arith, left_behind-snoc q false log (written path))
excepted_written path log false q e h = h

removed_again :
    (path : Bytes) (log : List Call) (q : Bytes)
    → (str_eq path q ≡ false → left_behind q false log ≡ false)
    → left_behind q false (log ++ removed path ∷ []) ≡ false
removed_again path log q h = elim (Bool-cases (str_eq path q)) [
  | inl e ↦ ground (arith, left_behind-snoc q false log (removed path))
  | inr e ↦ ground (arith, left_behind-snoc q false log (removed path), h e)
]

module _ {W : Type 0} (m : Machine W) (o : Options) where
  abbrev pub Harmless : W × List Call → Type 0
  Harmless (w, log) = All (IsHarmless m o) log

  pub dry-Calls : o.dry_run ≡ true → Calls (traced m) o Harmless
  dry-Calls dry = record {
    watches = record {
      on_read = λ w child fd h. h;
      on_waitpid = λ w child h. h;
      on_sleep = λ w h. h;
      on_kill = λ w child h. h;
    };
    on_probe = λ args w h. All-snoc (IsHarmless m o) w.1 (started (o.ffprobe ∷ args)) h (inl refl);
    on_start = λ e args w h. cc;
    on_unlink =
        λ w name h. All-snoc (IsHarmless m o) w.1 (removed (m.temp_file name)) h (name, refl);
  }

  -- No file is left behind but those that are excepted.
  abbrev Only : (Bytes → Bool) → W × List Call → Type 0
  Only excepted (w, log) =
      (path : Bytes) → excepted path ≡ false → left_behind path false log ≡ false

  Only-Calls : (excepted : Bytes → Bool) → Calls (traced m) o (Only excepted)
  Only-Calls excepted = record {
    watches = record {
      on_read = λ w child fd h. h;
      on_waitpid = λ w child h. h;
      on_sleep = λ w h. h;
      on_kill = λ w child h. h;
    };
    on_probe =
        λ args w h path e. left_behind-snoc path false w.1 (started (o.ffprobe ∷ args)) ∙ h path e;
    on_start = λ dry args w h path e. left_behind-snoc path false w.1 (started args) ∙ h path e;
    on_unlink = λ w name h path e.
        ground (arith, left_behind-snoc path false w.1 (removed (m.temp_file name)), h path e);
  }

  module _ {D : Type 0} (d : Doubles D) (fuel : ℕ) where
    pub dry-Concats :
        (dry : o.dry_run ≡ true) → Concats (traced m) d o fuel Harmless (dry-Calls dry)
    unfolding concat
    dry-Concats dry refused what name list target w h =
        let opened = (m.write w.0 (m.temp_file name) list).0 in
        let w1 = ((traced m).write w (m.temp_file name) list).1 in
        let h1 : Harmless w1 =
          choose (All (IsHarmless m o)) opened _ _
            (All-snoc (IsHarmless m o) w.1 (written (m.temp_file name)) h (name, refl)) h in
        choose (Gives (Holds (traced m) Harmless)) (not opened) _ _ h1 (
          Gives-bind (Holds (traced m) Harmless) (Holds (traced m) Harmless {A = Bytes}) _
            (λ (answer, w2). some (answer, (traced m).unlink w2 (m.temp_file name)))
            (convert-Keeps (traced m) d o fuel Harmless (dry-Calls dry) what
              (concat_of (traced m) d o fuel (m.temp_file name)) target w1 h1)
            (λ (answer, w2) h2.
              All-snoc (IsHarmless m o) w2.1 (removed (m.temp_file name)) h2 (name, refl)))

    Only-Concats : Concats (traced m) d o fuel (Only (λ path. false)) (Only-Calls (λ path. false))
    unfolding concat
    Only-Concats refused what name list target w h =
        let path = m.temp_file name in
        let opened = (m.write w.0 path list).0 in
        let w1 = ((traced m).write w path list).1 in
        choose_on (Gives (Holds (traced m) (Only (λ q. false)))) (not opened)
          (λ e q f. not_opened path w.1 opened q e (h q f))
          (λ e.
            Gives-bind (Holds (traced m) (Only (str_eq path)))
              (Holds (traced m) (Only (λ q. false)) {A = Bytes}) _
              (λ (answer, w2). some (answer, (traced m).unlink w2 path))
              (convert-Keeps (traced m) d o fuel (Only (str_eq path)) (Only-Calls (str_eq path))
                what (concat_of (traced m) d o fuel path) target w1
                (λ q f. excepted_written path w.1 opened q f (h q refl)))
              (λ (answer, w2) h2 q f. removed_again path w2.1 q (h2 q)))

    execute_edit_command-Only :
        (cmd : EditCommand D) (w : W)
        → Gives
            (Holds (traced m) (Only (λ path. false)))
            (execute_edit_command (traced m) d o fuel cmd (w, []))
    execute_edit_command-Only cmd w =
        execute_edit_command-Keeps (traced m) d o fuel (Only (λ path. false))
          (Only-Calls (λ path. false)) Only-Concats cmd (w, []) (λ path e. refl)

    -- Whatever a command answers, each list file that it wrote has been removed again.
    pub execute_edit_command-cleans :
        (cmd : EditCommand D) (w : W) (answer : Bytes) (w' : W) (log : List Call) (path : Bytes)
        → execute_edit_command (traced m) d o fuel cmd (w, []) ≡ some (answer, (w', log))
        → left_behind path false log ≡ false
    execute_edit_command-cleans cmd w answer w' log path e =
        Gives-some (Holds (traced m) (Only (λ q. false)) {A = Bytes}) _
          (execute_edit_command-Only cmd w) e path refl
