-- ===== src/Control/Life.antt =====
-- The life of a ControlPlane: its socket file, its acceptor and the pointer for the exit of the program
-- (core/ControlPlane.h, core/ControlPlane.cpp). Handlers that are registered at the exit run once.
use cpp20_workflow_engine.Shared.{
  ℕ, ◌≡◌, refl, subst, Option-cases, Bool, true, false, ◌||◌, Bool-cases, Option, none, some, List,
  [], ◌∷◌, ◌==◌, inl, inr, arith, if◌then◌else◌, Bytes, str_eq, str_eq_refl, update,
}
use cpp20_workflow_engine.Control.{Handlers, Read, handle_session}

-- `instance_`, with the number of the object that it points to.
pub record Instance : Type 0 where
  pub object : ℕ
  pub path : Bytes

-- The files that exist, and `instance_`.
pub record Host : Type 0 where
  pub files : Bytes → Bool
  pub instance_ : Option Instance

pub record Plane : Type 0 where
  pub object : ℕ
  pub socket_path : Bytes
  pub is_open : Bool

-- Which calls on the acceptor fail.
pub record Fails : Type 0 where
  pub open_fails : Bool
  pub bind_fails : Bool
  pub listen_fails : Bool

-- What the event loop delivers: a connection with what its read delivers, a failed accept, or the stop.
pub data Accept : Type 0 where
  session : Read → Accept
  accept_failed : Accept
  stopped : Accept

unfoldable pub unlink : Bytes → Host → Host
unlink path h = record h { files = update h.files path false }

-- `if (instance_ == this) instance_ = nullptr;`
unfoldable pub forget : Plane → Host → Host
forget p h = record h {
  instance_ = elim h.instance_ [
    | none ↦ none
    | some i ↦ if i.object == p.object then none else some i
  ];
}

-- The constructor; `none` when it throws. A bound socket has a file.
unfoldable pub construct : ℕ → Bytes → Fails → Host → Option Plane × Host
unfolding unlink
construct object path fails h =
    let h1 = unlink path h in
    let bound = record h1 { files = update h1.files path true } in
    if fails.open_fails || fails.bind_fails
    then (none, h1)
    else if fails.listen_fails
    then (none, bound)
    else (
      some (record { object = object; socket_path = path; is_open = true }),
      record bound { instance_ = some (record { object = object; path = path }) },
    )

unfoldable pub destroy : Plane → Host → Host
unfolding unlink forget
destroy p h = forget p (unlink p.socket_path h)

unfoldable pub atexit_handler : Host → Host
unfolding unlink
atexit_handler h = elim h.instance_ [ none ↦ h | some i ↦ unlink i.path h ]

module _ {S : Type 0} where
  -- `do_accept` and `ioc_.run()`: the answers to the sessions, until an accept fails or the stop;
  -- `none` when the events are used up before.
  unfoldable pub serve : List Accept → Handlers S → S → Option (List (Option Bytes) × S)
  unfolding handle_session
  serve [] hs w = none
  serve (stopped ∷ events) hs w = some ([], w)
  serve (accept_failed ∷ events) hs w = some ([], w)
  serve (session r ∷ events) hs w =
      let (answer, w') = handle_session r hs w in
      elim (serve events hs w') [ none ↦ none | some (answers, w'') ↦ some (answer ∷ answers, w'') ]

  unfoldable pub start_control_plane :
      Plane → List Accept → Handlers S → S → Host → Option (List (Option Bytes) × S × Plane × Host)
  unfolding serve unlink forget
  start_control_plane p events hs w h = elim (serve events hs w) [
    | none ↦ none
    | some (answers, w') ↦
        some (answers, w', record p { is_open = false }, forget p (unlink p.socket_path h))
  ]

-- The files but the socket file of a path are as they were, and that one does not exist.
abbrev pub IsClean : Bytes → Host → Host → Type 0
IsClean path before after =
    (after.files path ≡ false)
    × ((other : Bytes) → str_eq other path ≡ false → after.files other ≡ before.files other)

-- What a constructor that does not throw leaves.
abbrev Built : ℕ → Bytes → Host → Option Plane × Host → Type 0
Built object path h (none, h1) = Unit {0}
Built object path h (some p, h1) =
    (p.object ≡ object)
    × (p.socket_path ≡ path)
    × (h1.instance_ ≡ some (record { object = object; path = path }))
    × ((other : Bytes) → str_eq other path ≡ false → h1.files other ≡ h.files other)

construct-Built :
    (object : ℕ) (path : Bytes) (fails : Fails) (h : Host)
    → Built object path h (construct object path fails h)
unfolding construct unlink
construct-Built object path fails h = elim (Bool-cases (fails.open_fails || fails.bind_fails)) [
  | inl e ↦ rw (construct, e) tt
  | inr e ↦ elim (Bool-cases fails.listen_fails) [
    | inl l ↦ rw (construct, e, l) tt
    | inr l ↦ rw (construct, e, l) (refl, refl, refl, λ other o. rw (o) refl)
  ]
]

module _ (object : ℕ) (path : Bytes) (h : Host) (p : Plane) (h1 : Host)
    (built : Built object path h (some p, h1)) where
  stopped-IsClean :
      IsClean path h (destroy (record p { is_open = false }) (forget p (unlink p.socket_path h1)))
  unfolding destroy unlink forget
  stopped-IsClean =
      let (same, at, pointer, kept) = built in
      (ground (arith, at, str_eq_refl path), λ other o. ground (arith, at, o, kept other o))

  stopped_pointer :
      (destroy (record p { is_open = false }) (forget p (unlink p.socket_path h1))).instance_ ≡ none
  unfolding destroy unlink forget
  stopped_pointer = let (same, at, pointer, kept) = built in ground (arith, same, pointer)

  exit-IsClean : IsClean path h (atexit_handler h1)
  unfolding atexit_handler unlink
  exit-IsClean =
      let (same, at, pointer, kept) = built in
      rw pointer (ground (arith, str_eq_refl path), λ other o. ground (arith, o, kept other o))

module _ {S : Type 0} where
  -- A control plane that was constructed, has run and is destroyed leaves no socket file and no pointer
  -- to itself, whatever it was sent and whether an accept failed or it was stopped, and it leaves all
  -- other files as they were before; so does the handler of an exit before it is destroyed.
  pub start_control_plane-cleans :
      (object : ℕ) (path : Bytes) (fails : Fails) (h h1 h2 : Host) (p p' : Plane)
      (events : List Accept) (hs : Handlers S) (w w' : S) (answers : List (Option Bytes))
      → construct object path fails h ≡ (some p, h1)
      → start_control_plane p events hs w h1 ≡ some (answers, w', p', h2)
      → IsClean path h (destroy p' h2)
        × ((destroy p' h2).instance_ ≡ none)
        × (p'.is_open ≡ false)
        × IsClean path h (atexit_handler h1)
  unfolding start_control_plane destroy atexit_handler unlink forget
  start_control_plane-cleans object path fails h h1 h2 p p' events hs w w' answers e s =
      let (same, at, pointer, kept) =
        subst (Built object path h) e (construct-Built object path fails h) in
      elim (Option-cases (serve events hs w)) [
        | inl f ↦ absurd (ground (arith, f))
        | inr ((given, w''), f) ↦
            let closed : record p { is_open = false } ≡ p' = ground (arith, f) in
            let left : forget p (unlink p.socket_path h1) ≡ h2 = ground (arith, f) in
            rw (← closed, ← left)
              (
                stopped-IsClean object path h p h1 (same, at, pointer, kept),
                stopped_pointer object path h p h1 (same, at, pointer, kept),
                refl,
                exit-IsClean object path h p h1 (same, at, pointer, kept),
              )
      ]
