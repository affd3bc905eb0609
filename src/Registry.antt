-- ===== src/Registry.antt =====
-- PluginRegistry (core/PluginRegistry.h, core/PluginRegistry.cpp) and PluginNodeAdapter
-- (include/PluginNodeAdapter.h). The locks make each operation one step.
use cpp20_workflow_engine.Shared.{
  ◌≡◌, ◌↔◌, refl, Bool, true, false, Option, none, some, Option-cases, Bool-cases, inl, inr,
  if◌then◌else◌, Bytes, str_eq, update,
}
use cpp20_workflow_engine.Node.Wrapper.{returned, Execute}

-- What a factory yields: a node, or the text of the exception that it throws.
pub data Made (Node : Type 0) : Type 0 where
  made : Node → Made Node
  threw : Bytes → Made Node

-- The result of `create`; an unknown type is the registry's own exception.
pub data Created (Node : Type 0) : Type 0 where
  created : Made Node → Created Node
  unknown_type : Bytes → Created Node

-- `factories_`: the factories by type name, each a function of the world that it is called in.
abbrev pub Registry : Type 0 → Type 0 → Type 0
Registry World Node = Bytes → Option (World → Made Node)

module _ {World Node : Type 0} where
  unfoldable pub register_node :
      Bytes → (World → Made Node) → Registry World Node → Registry World Node
  register_node type factory r = update r type (some factory)

  -- The factory is invoked after the lookup, outside the lock.
  unfoldable pub create : Bytes → World → Registry World Node → Created Node
  create type w r = elim (r type) [ none ↦ unknown_type type | some fn ↦ created (fn w) ]

  unfoldable pub has : Bytes → Registry World Node → Bool
  has type r = elim (r type) [ none ↦ false | some fn ↦ true ]

  -- After a registration `create` invokes the new factory for that type, and what it did before for
  -- every other; and `has` knows the new type.
  pub create-register_node :
      (type j : Bytes) (f : World → Made Node) (w : World) (r : Registry World Node)
      → (create j w (register_node type f r)
          ≡ (if str_eq j type then created (f w) else create j w r))
        × (has j (register_node type f r) ≡ (if str_eq j type then true else has j r))
  unfolding create register_node has
  create-register_node type j f w r = elim (Bool-cases (str_eq j type)) [
    | inl same ↦ rw (same, create, has) (refl, refl)
    | inr other ↦ rw (other, create, has) (refl, refl)
  ]

  -- `create` reports an unknown type exactly where `has` denies it.
  create-has :
      (type : Bytes) (w : World) (r : Registry World Node)
      → (create type w r ≡ unknown_type type) ↔ (has type r ≡ false)
  unfolding create has
  create-has type w r = elim (Option-cases (r type)) [
    | inl e ↦ rw (e, create, has) (λ _. refl, λ _. refl)
    | inr (f, e) ↦ rw (e, create, has) (λ h. cc, λ h. cc)
  ]

-- PluginNodeAdapter::execute: an adapter of no node does nothing.
unfoldable pub adapter_execute : {S : Type 0} → Option (Execute S) → Execute S
adapter_execute none w = record { outcome = returned; world = w }
adapter_execute (some impl) w = impl w
