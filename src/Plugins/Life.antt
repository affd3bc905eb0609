-- ===== src/Plugins/Life.antt =====
-- The life of a PluginManager, with the threads that hold its nodes (include/PluginManager.h,
-- src/PluginManager.cpp). A shared pointer that ends is a release.
use cpp20_workflow_engine.Shared.{
  ℕ, zero, suc, ◌+◌, ◌-◌, ◌≤◌, ◌<◌, ◌≡◌, refl, inl, inr, Option, none, some, Option-cases, List, [],
  ◌∷◌, ◌==◌, leb, if◌then◌else◌, arith, Bool-cases, not, ◌||◌,
}
use cpp20_workflow_engine.Plugins.{
  Opened, Owned, Manager, delete_node, store_node, install_node, reload, get_node, uses, in_use,
  closings, opened_now, closings-snoc, reload_balanced,
}

abbrev pub no_plugin : Manager
no_plugin = record { current = none; retired = []; destroyed = []; closed = [] }

-- A thread gives up its pointer to a replaced node; the node that dies by it, if it was the last one.
unfoldable pub drop_at : ℕ → List Owned → List Owned × Option Owned
drop_at k [] = ([], none)
drop_at zero (o ∷ os) =
    if leb o.holders 1 then (os, some o) else (record o { holders = o.holders - 1 } ∷ os, none)
drop_at (suc k) (o ∷ os) = let (rest, dead) = drop_at k os in (o ∷ rest, dead)

-- A thread gives up its pointer to the current node, which `current_node_` keeps, or to a replaced one.
unfoldable pub release : Option ℕ → Manager → Manager
unfolding drop_at delete_node
release none m = elim m.current [
  | none ↦ m
  | some o ↦ record m { current = some (record o { holders = o.holders - 1 }) }
]
release (some k) m =
    let (rest, dead) = drop_at k m.retired in
    elim dead [
      | none ↦ record m { retired = rest }
      | some o ↦ delete_node o (record m { retired = rest })
    ]

-- `~PluginManager`: the pointer `current_node_` ends.
unfoldable pub destroy : Manager → Manager
unfolding delete_node
destroy m = elim m.current [
  | none ↦ m
  | some o ↦
      if o.holders == 0
      then record (delete_node o m) { current = none }
      else record m { current = none; retired = o ∷ m.retired }
]

pub data Event : Type 0 where
  reloaded : Option Opened → Event
  taken : Event
  given_up : Option ℕ → Event

unfoldable pub step : Event → Manager → Manager
unfolding reload get_node release
step (reloaded answer) m = (reload answer m).1
step taken m = (get_node m).1
step (given_up which) m = release which m

unfoldable pub play : List Event → Manager → Manager
unfolding step
play [] m = m
play (e ∷ es) m = play es (step e m)

-- How often the linker gave a handle out.
abbrev pub openings : ℕ → List Event → ℕ
openings h [] = 0
openings h (reloaded answer ∷ es) = opened_now h answer + openings h es
openings h (taken ∷ es) = openings h es
openings h (given_up which ∷ es) = openings h es

-- The pointers that threads hold.
abbrev pub holders_of : List Owned → ℕ
holders_of [] = 0
holders_of (o ∷ os) = o.holders + holders_of os

abbrev pub held : Manager → ℕ
held m = elim m.current [ none ↦ holders_of m.retired | some o ↦ o.holders + holders_of m.retired ]

-- Every replaced node that has not died has a holder.
abbrev AllHeld : List Owned → Type 0
AllHeld [] = Unit {0}
AllHeld (o ∷ os) = (0 < o.holders) × AllHeld os

uses_le_holders : (h : ℕ) (os : List Owned) → AllHeld os → uses h os ≤ holders_of os
uses_le_holders h [] p = omega arith
uses_le_holders h (o ∷ os) (p, ps) = ground (arith, uses_le_holders h os ps)

abbrev dying : ℕ → Option Owned → ℕ
dying h none = 0
dying h (some o) = if o.handle == h then 1 else 0

uses-drop_at :
    (h k : ℕ) (os : List Owned) → uses h (drop_at k os).0 + dying h (drop_at k os).1 ≡ uses h os
unfolding drop_at
uses-drop_at h k [] = refl
uses-drop_at h zero (o ∷ os) = ground arith
uses-drop_at h (suc k) (o ∷ os) = omega (arith, uses-drop_at h k os)

drop_at-AllHeld : (k : ℕ) (os : List Owned) → AllHeld os → AllHeld (drop_at k os).0
unfolding drop_at
drop_at-AllHeld k [] p = p
drop_at-AllHeld zero (o ∷ os) (p, ps) = elim (Bool-cases (leb o.holders 1)) [
  | inl e ↦ rw e ps
  | inr e ↦ rw e (ground (arith, e), ps)
]
drop_at-AllHeld (suc k) (o ∷ os) (p, ps) = (p, drop_at-AllHeld k os ps)

-- The uses of a handle and its closings together.
abbrev accounted : ℕ → Manager → ℕ
accounted h m = in_use h m + closings h m.closed

release_balanced :
    (which : Option ℕ) (m : Manager) (h : ℕ) → accounted h (release which m) ≡ accounted h m
unfolding release delete_node
release_balanced none m h = elim (Option-cases m.current) [
  | inl e ↦ ground (arith, e)
  | inr (o, e) ↦ ground (arith, e)
]
release_balanced (some k) m h = elim (Option-cases (drop_at k m.retired).1) [
  | inl e ↦ ground (arith, e, uses-drop_at h k m.retired)
  | inr (o, e) ↦ ground (arith, e, uses-drop_at h k m.retired, closings-snoc h o.handle m.closed)
]

destroy_balanced : (m : Manager) (h : ℕ) → accounted h (destroy m) ≡ accounted h m
unfolding destroy delete_node
destroy_balanced m h = elim (Option-cases m.current) [
  | inl e ↦ ground (arith, e)
  | inr (o, e) ↦ ground (arith, e, closings-snoc h o.handle m.closed)
]

get_node_balanced : (m : Manager) (h : ℕ) → accounted h (get_node m).1 ≡ accounted h m
unfolding get_node
get_node_balanced m h = elim (Option-cases m.current) [
  | inl e ↦ ground (arith, e)
  | inr (o, e) ↦ ground (arith, e)
]

play_balanced :
    (es : List Event) (m : Manager) (h : ℕ)
    → accounted h (play es m) ≡ accounted h m + openings h es
unfolding play step
play_balanced [] m h = omega arith
play_balanced (reloaded answer ∷ es) m h =
    omega (arith, play_balanced es (reload answer m).1 h, reload_balanced answer m h)
play_balanced (taken ∷ es) m h =
    omega (arith, play_balanced es (get_node m).1 h, get_node_balanced m h)
play_balanced (given_up which ∷ es) m h =
    omega (arith, play_balanced es (release which m) h, release_balanced which m h)

store_node-AllHeld :
    (new : Owned) (m : Manager) → AllHeld m.retired → AllHeld (store_node new m).retired
unfolding store_node delete_node
store_node-AllHeld new m p = elim (Option-cases m.current) [
  | inl e ↦ rw (store_node, e) p
  | inr (old, e) ↦ elim (Bool-cases (old.holders == 0)) [
    | inl z ↦ rw (store_node, e, z) p
    | inr z ↦ rw (store_node, e, z) (ground (arith, z), p)
  ]
]

reload-AllHeld :
    (answer : Option Opened) (m : Manager) → AllHeld m.retired → AllHeld (reload answer m).1.retired
unfolding reload install_node
reload-AllHeld none m p = p
reload-AllHeld (some lib) m p = elim (Bool-cases (not lib.has_create || not lib.has_destroy)) [
  | inl missing ↦ rw (install_node, missing) p
  | inr complete ↦ elim (Option-cases lib.node) [
    | inl null ↦ rw (install_node, complete, null) p
    | inr (raw, e) ↦ rw (install_node, complete, e) (store_node-AllHeld _ m p)
  ]
]

step-AllHeld : (e : Event) (m : Manager) → AllHeld m.retired → AllHeld (step e m).retired
unfolding step get_node release delete_node
step-AllHeld (reloaded answer) m p = reload-AllHeld answer m p
step-AllHeld taken m p = elim (Option-cases m.current) [
  | inl e ↦ rw (get_node, e) p
  | inr (o, e) ↦ rw (get_node, e) p
]
step-AllHeld (given_up none) m p = elim (Option-cases m.current) [
  | inl e ↦ rw (release, e) p
  | inr (o, e) ↦ rw (release, e) p
]
step-AllHeld (given_up (some k)) m p = elim (Option-cases (drop_at k m.retired).1) [
  | inl e ↦ rw (release, e) (drop_at-AllHeld k m.retired p)
  | inr (o, e) ↦ rw (release, e) (drop_at-AllHeld k m.retired p)
]

play-AllHeld : (es : List Event) (m : Manager) → AllHeld m.retired → AllHeld (play es m).retired
unfolding play
play-AllHeld [] m p = p
play-AllHeld (e ∷ es) m p = play-AllHeld es (step e m) (step-AllHeld e m p)

-- What the destructor leaves is held.
destroy_le_held : (m : Manager) (h : ℕ) → AllHeld m.retired → in_use h (destroy m) ≤ held m
unfolding destroy delete_node
destroy_le_held m h p = elim (Option-cases m.current) [
  | inl absent ↦ ground (arith, absent, uses_le_holders h m.retired p)
  | inr (o, present) ↦ ground (arith, present, uses_le_holders h m.retired p)
]

-- For every handle, after any sequence of reloads, calls of getNode and releases, whatever the linker
-- and the libraries answer: the nodes that use it and the closings of it add up to the times that the
-- linker gave it out, so that a handle given out once is not closed while its node is current or held.
-- After the destructor it has not been closed more often than it was given out, and less often at most
-- by the pointers that threads still held.
pub play-closes :
    (es : List Event) (h : ℕ)
    → (in_use h (play es no_plugin) + closings h (play es no_plugin).closed ≡ openings h es)
      × (closings h (destroy (play es no_plugin)).closed ≤ openings h es)
      × (openings h es ≤ closings h (destroy (play es no_plugin)).closed + held (play es no_plugin))
play-closes es h =
    let balance = play_balanced es no_plugin h in
    let after = destroy_balanced (play es no_plugin) h in
    let left = destroy_le_held (play es no_plugin) h (play-AllHeld es no_plugin tt) in
    (omega arith, omega arith, omega arith)
