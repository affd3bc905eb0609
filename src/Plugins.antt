-- ===== src/Plugins.antt =====
-- PluginManager (src/PluginManager.cpp). What the dynamic linker and the library answer is an
-- argument; the shared pointers that keep a node alive are counted.
pub mod Life
use cpp20_workflow_engine.Shared.{
  ℕ, suc, ◌+◌, ◌≡◌, refl, inl, inr, Bool, not, ◌||◌, Option, none, some, List, [], ◌∷◌, ◌++◌, ◌==◌,
  if◌then◌else◌, arith, Bool-cases, Option-cases,
}

-- A library that `dlopen` opened.
pub record Opened : Type 0 where
  pub handle : ℕ
  pub has_create : Bool
  pub has_destroy : Bool
  -- What `create_node` returns; `none` is the null pointer.
  pub node : Option ℕ

-- A node behind its shared pointer: the library that it came from, and how many threads hold it.
pub record Owned : Type 0 where
  pub node : ℕ
  pub handle : ℕ
  pub holders : ℕ

-- `current` is `current_node_`. `retired` are the nodes that were replaced while threads held them;
-- `destroyed` and `closed` are the calls of `destroy_node` and of `dlclose`, in order.
pub record Manager : Type 0 where
  pub current : Option Owned
  pub retired : List Owned
  pub destroyed : List ℕ
  pub closed : List ℕ

pub data Reloaded : Type 0 where
  installed dlopen_failed symbols_missing null_node : Reloaded

-- The custom deleter: `destroy_fn(p); dlclose(handle);`
unfoldable pub delete_node : Owned → Manager → Manager
delete_node o m = record m {
  destroyed = m.destroyed ++ o.node ∷ [];
  closed = m.closed ++ o.handle ∷ [];
}

-- `current_node_.store(new_node)`: the old node dies with the store, unless a thread holds it.
unfoldable pub store_node : Owned → Manager → Manager
unfolding delete_node
store_node new m = elim m.current [
  | none ↦ record m { current = some new }
  | some old ↦
      if old.holders == 0
      then record (delete_node old m) { current = some new }
      else record m { current = some new; retired = old ∷ m.retired }
]

unfoldable pub install_node : Opened → Manager → Reloaded × Manager
unfolding store_node
install_node lib m =
    if not lib.has_create || not lib.has_destroy
    then (symbols_missing, record m { closed = m.closed ++ lib.handle ∷ [] })
    else elim lib.node [
      | none ↦ (null_node, record m { closed = m.closed ++ lib.handle ∷ [] })
      | some raw ↦
          (installed, store_node (record { node = raw; handle = lib.handle; holders = 0 }) m)
    ]

unfoldable pub reload : Option Opened → Manager → Reloaded × Manager
unfolding install_node
reload none m = (dlopen_failed, m)
reload (some lib) m = install_node lib m

-- `getNode`: the caller is one more holder.
unfoldable pub get_node : Manager → Option ℕ × Manager
get_node m = elim m.current [
  | none ↦ (none, m)
  | some o ↦ (some o.node, record m { current = some (record o { holders = suc o.holders }) })
]

-- How often the handle `h` is in use, and how often it was closed.
abbrev pub uses : ℕ → List Owned → ℕ
uses h [] = 0
uses h (o ∷ os) = (if o.handle == h then 1 else 0) + uses h os

abbrev pub in_use : ℕ → Manager → ℕ
in_use h m = elim m.current [
  | none ↦ uses h m.retired
  | some o ↦ (if o.handle == h then 1 else 0) + uses h m.retired
]

abbrev pub closings : ℕ → List ℕ → ℕ
closings h [] = 0
closings h (x ∷ xs) = (if x == h then 1 else 0) + closings h xs

abbrev pub opened_now : ℕ → Option Opened → ℕ
opened_now h none = 0
opened_now h (some lib) = if lib.handle == h then 1 else 0

pub closings-snoc :
    (h x : ℕ) (xs : List ℕ) → closings h (xs ++ x ∷ []) ≡ closings h xs + (if x == h then 1 else 0)
closings-snoc h x [] = omega arith
closings-snoc h x (y ∷ xs) = omega (arith, closings-snoc h x xs)

store_balanced :
    (new : Owned) (m : Manager) (h : ℕ)
    → in_use h (store_node new m) + closings h (store_node new m).closed
      ≡ in_use h m + closings h m.closed + (if new.handle == h then 1 else 0)
unfolding store_node delete_node
store_balanced new m h = elim (Option-cases m.current) [
  | inl e ↦ ground (arith, e)
  | inr (old, e) ↦ ground (arith, e, closings-snoc h old.handle m.closed)
]

-- Whatever the linker and the library answer: a reload adds, for each handle, as many nodes that use it
-- and closings of it together as the linker gave it out, so that none is leaked or closed twice.
pub reload_balanced :
    (answer : Option Opened) (m : Manager) (h : ℕ)
    → in_use h (reload answer m).1 + closings h (reload answer m).1.closed
      ≡ in_use h m + closings h m.closed + opened_now h answer
unfolding reload install_node
reload_balanced none m h = omega arith
reload_balanced (some lib) m h = elim (Bool-cases (not lib.has_create || not lib.has_destroy)) [
  | inl missing ↦ rw (missing, install_node) (omega (arith, closings-snoc h lib.handle m.closed))
  | inr complete ↦ elim (Option-cases lib.node) [
    | inl null ↦
        rw (complete, null, install_node) (omega (arith, closings-snoc h lib.handle m.closed))
    | inr (raw, e) ↦
        rw (complete, e, install_node)
          (store_balanced (record { node = raw; handle = lib.handle; holders = 0 }) m h)
  ]
]

-- A reload that installs nothing leaves the current node, the replaced ones and what was destroyed
-- as they were.
pub reload_failed :
    (answer : Option Opened) (m : Manager)
    → ((reload answer m).0 ≡ installed → ⊥)
    → ((reload answer m).1.current ≡ m.current)
      × ((reload answer m).1.retired ≡ m.retired)
      × ((reload answer m).1.destroyed ≡ m.destroyed)
unfolding reload install_node
reload_failed none m f = (refl, refl, refl)
reload_failed (some lib) m f = ground arith
