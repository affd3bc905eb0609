-- ===== src/Control/Laws.antt =====
-- The registration of commands and the sessions of ControlPlane (core/ControlPlane.cpp).
use cpp20_workflow_engine.Shared.{
  ℕ, ◌≤◌, ◌<◌, ◌≡◌, refl, ap, ◌∙◌, inl, inr, true, false, Bool-cases, some, [], ◌∷◌, ◌++◌, length,
  arith, if◌then◌else◌, Bytes, bytes, str_eq,
}
use cpp20_workflow_engine.Control.{
  to_upper, upper, is_space, Handled, answer, Handlers, register_command, dispatch, trim_front,
  trim_back, got, reply, handle_session,
}

to_upper_idem : (c : ℕ) → to_upper (to_upper c) ≡ to_upper c
unfolding to_upper
to_upper_idem c = ground arith

pub upper_idem : (s : Bytes) → upper (upper s) ≡ upper s
unfolding upper
upper_idem [] = refl
upper_idem (c ∷ s) = cc (to_upper_idem c, upper_idem s)

module _ {S : Type 0} where
  -- After a registration every spelling of the command reaches the new handler, and the answer is its
  -- reply, or an error line for what it throws; all other commands are answered as before.
  pub dispatch-register_command :
      (cmd other : Bytes) (h : S → Handled × S) (hs : Handlers S) (w : S)
      → dispatch other (register_command cmd h hs) w ≡ (
          if str_eq (upper other) (upper cmd)
          then (answer (h w).0, (h w).1)
          else dispatch other hs w)
  unfolding dispatch register_command
  dispatch-register_command cmd other h hs w =
      elim (Bool-cases (str_eq (upper other) (upper cmd))) [
        | inl same ↦ rw (same, dispatch) refl
        | inr different ↦ rw (different, dispatch) refl
      ]

abbrev pub AllSpace : Bytes → Type 0
AllSpace [] = Unit {0}
AllSpace (c ∷ s) = (is_space c ≡ true) × AllSpace s

-- A text that is not empty, and neither begins nor ends with white space.
abbrev pub IsTrimmed : Bytes → Type 0
IsTrimmed [] = ⊥
IsTrimmed (c ∷ s) = (is_space c ≡ false) × (trim_back (c ∷ s) ≡ c ∷ s)

trim_front-append : (p s : Bytes) → AllSpace p → trim_front (p ++ s) ≡ trim_front s
unfolding trim_front
trim_front-append [] s h = refl
trim_front-append (c ∷ p) s h = rw h.0 (trim_front-append p s h.1)

trim_back-space : (q : Bytes) → AllSpace q → trim_back q ≡ []
unfolding trim_back
trim_back-space [] h = refl
trim_back-space (c ∷ q) h = rw (trim_back-space q h.1, h.0) refl

trim_back-append : (s q : Bytes) → AllSpace q → trim_back (s ++ q) ≡ trim_back s
unfolding trim_back
trim_back-append [] q h = trim_back-space q h
trim_back-append (c ∷ s) q h = rw (trim_back-append s q h) refl

trims_to :
    (p cmd q : Bytes)
    → AllSpace p
    → IsTrimmed cmd
    → AllSpace q
    → trim_back (trim_front (p ++ (cmd ++ q))) ≡ cmd
trims_to p [] q hp h hq = absurd h
trims_to p (c ∷ s) q hp h hq =
    ap trim_back (trim_front-append p ((c ∷ s) ++ q) hp ∙ visible)
    ∙ trim_back-append (c ∷ s) q hq
    ∙ h.1
  where
    visible : trim_front ((c ∷ s) ++ q) ≡ (c ∷ s) ++ q
    visible = unfold trim_front in rw h.0 refl

-- A text around a trimmed command is not empty.
got_some :
    {S : Type 0} (p cmd q : Bytes) (hs : Handlers S) (w : S)
    → IsTrimmed cmd
    → handle_session (got (p ++ (cmd ++ q))) hs w
      ≡ reply (trim_back (trim_front (p ++ (cmd ++ q)))) hs w
unfolding handle_session
got_some [] [] q hs w h = absurd h
got_some [] (c ∷ s) q hs w h = refl
got_some (b ∷ p) cmd q hs w h = refl

trimmed_positive : (cmd : Bytes) → IsTrimmed cmd → 0 < length cmd
trimmed_positive [] h = absurd h
trimmed_positive (c ∷ s) h = omega arith

module _ {S : Type 0} where
  reply-dispatch :
      (cmd : Bytes) (hs : Handlers S) (w : S)
      → 0 < length cmd
      → length cmd ≤ 256
      → reply cmd hs w ≡ (some ((dispatch cmd hs w).0 ++ 10 ∷ []), (dispatch cmd hs w).1)
  unfolding reply
  reply-dispatch cmd hs w h k = ground arith

  reply-long :
      (cmd : Bytes) (hs : Handlers S) (w : S)
      → 256 < length cmd
      → reply cmd hs w ≡ (some (bytes "ERROR: command too long" ++ 10 ∷ []), w)
  unfolding reply
  reply-long cmd hs w h = ground arith

  -- A session that receives a command of at most 256 bytes, with any white space around it, answers
  -- with what `dispatch` says of the bare command, and a line end.
  pub handle_session-dispatch :
      (p cmd q : Bytes) (hs : Handlers S) (w : S)
      → AllSpace p
      → IsTrimmed cmd
      → AllSpace q
      → length cmd ≤ 256
      → handle_session (got (p ++ (cmd ++ q))) hs w
        ≡ (some ((dispatch cmd hs w).0 ++ 10 ∷ []), (dispatch cmd hs w).1)
  handle_session-dispatch p cmd q hs w hp h hq k =
      got_some p cmd q hs w h
      ∙ ap (λ t. reply t hs w) (trims_to p cmd q hp h hq)
      ∙ reply-dispatch cmd hs w (trimmed_positive cmd h) k

  -- A command of more than 256 bytes is refused, and no handler runs.
  pub handle_session-long :
      (p cmd q : Bytes) (hs : Handlers S) (w : S)
      → AllSpace p
      → IsTrimmed cmd
      → AllSpace q
      → 256 < length cmd
      → handle_session (got (p ++ (cmd ++ q))) hs w
        ≡ (some (bytes "ERROR: command too long" ++ 10 ∷ []), w)
  handle_session-long p cmd q hs w hp h hq k =
      got_some p cmd q hs w h
      ∙ ap (λ t. reply t hs w) (trims_to p cmd q hp h hq)
      ∙ reply-long cmd hs w k
