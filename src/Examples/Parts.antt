-- ===== src/Examples/Parts.antt =====
-- A node that fails once, a context, a plugin, a session and a registry.
use cpp20_workflow_engine.Shared.{
  ℕ, Option, ◌⊎◌, ◌↔◌, zero, suc, ◌+◌, ◌≡◌, true, none, some, [], ◌∷◌, arith, length, take, Bytes,
  bytes, Bool, false, ◌≤◌, List,
}
use cpp20_workflow_engine.Shared.Int.{pos}
use cpp20_workflow_engine.Node.Wrapper.{returned, unknown_exception, Execute}
use cpp20_workflow_engine.Context.{Context, ctx_set_string, ctx_get_string}
use cpp20_workflow_engine.Context.Laws.{c_str, copied, ctx_get_string-ctx_set_string}
use cpp20_workflow_engine.Plugins.{Opened, in_use, closings}
use cpp20_workflow_engine.Plugins.Life.{
  Event, reloaded, taken, given_up, no_plugin, play, openings, held, destroy, play-closes,
}
use cpp20_workflow_engine.Registry.{made, Registry}
use cpp20_workflow_engine.Engine.Run.{
  execute as execute_node, store_success, store_failed, Attempt, act,
}
use cpp20_workflow_engine.Engine.Run.Attempts.{attempt_node, Succeeds, attempt_node-store}
use cpp20_workflow_engine.Examples.{two_loaded}

-- The world counts the calls; the first call throws.
abbrev flaky : Execute ℕ
flaky zero = record { outcome = unknown_exception; world = 1 }
flaky (suc n) = record { outcome = returned; world = suc (suc n) }

-- A registry that makes nodes which fail once.
abbrev makes_flaky : Registry ℕ (Option (Execute ℕ))
makes_flaky type = some (λ w. made (some flaky))

abbrev node_a_attempt : Attempt
node_a_attempt = (attempt_node makes_flaky (two_loaded.node_states (bytes "A")) 0).0

attempt_node-store_example :
    (((act node_a_attempt 7 (execute_node (bytes "A")) two_loaded).front
        ≡ store_success (bytes "A") ∷ [])
      ↔ Succeeds makes_flaky (two_loaded.node_states (bytes "A")) 0)
    × (((act node_a_attempt 7 (execute_node (bytes "A")) two_loaded).front
          ≡ store_success (bytes "A") ∷ [])
        ⊎ ((act node_a_attempt 7 (execute_node (bytes "A")) two_loaded).front
            ≡ store_failed (bytes "A") ∷ []))
attempt_node-store_example = attempt_node-store makes_flaky two_loaded 7 (bytes "A") 0

abbrev empty : Context ℕ
empty k = none

abbrev zeros : Bytes
zeros = 0 ∷ 0 ∷ 0 ∷ []

ctx_get_string-ctx_set_string_example :
    (out : Bytes) × (ctx_get_string
        (ctx_set_string (some (bytes "k")) (some (bytes "abc")) (some empty))
        (some (bytes "k"))
        (some zeros)
        (pos 3)
      ≡ some (record { code = pos (copied (bytes "abc") 2); out = some out }))
    × (length out ≡ length zeros)
    × (c_str out ≡ take 2 (bytes "abc"))
ctx_get_string-ctx_set_string_example =
    ctx_get_string-ctx_set_string empty (bytes "k") (bytes "abc") zeros 2
      (omega arith, (omega arith, (omega arith, tt))) (omega arith) (omega arith)

-- A node of library 1 is taken, replaced by one of library 2, and given up; library 3 has no
-- `destroy_node`.
abbrev library : ℕ → Bool → Opened
library h complete = record { handle = h; has_create = true; has_destroy = complete; node = some h }

abbrev happened : List Event
happened =
    reloaded (some (library 1 true))
    ∷ taken
    ∷ reloaded (some (library 2 true))
    ∷ reloaded (some (library 3 false))
    ∷ given_up (some 0)
    ∷ []

play-closes_example :
    (in_use 1 (play happened no_plugin) + closings 1 (play happened no_plugin).closed
      ≡ openings 1 happened)
    × (closings 1 (destroy (play happened no_plugin)).closed ≤ openings 1 happened)
    × (openings 1 happened
        ≤ closings 1 (destroy (play happened no_plugin)).closed + held (play happened no_plugin))
play-closes_example = play-closes happened 1
