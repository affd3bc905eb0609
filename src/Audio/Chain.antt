-- ===== src/Audio/Chain.antt =====
-- The chains of filters for a factor that one filter cannot reach
-- (plugins/llm_audio_editor_plugin.cpp).
use cpp20_workflow_engine.Shared.{
  ℕ, zero, suc, ◌<◌, ◌≡◌, refl, Bool, true, false, ◌&&◌, some, ◌∷◌, ◌++◌, arith, Bytes, bytes,
}
use cpp20_workflow_engine.Audio.Process.{Doubles}
use cpp20_workflow_engine.Audio.Filters.{chain, speed_filter}

abbrev pub iterate : {A : Type 0} → ℕ → (A → A) → A → A
iterate zero f x = x
iterate (suc n) f x = iterate n f (f x)

-- A text and a comma, `n` times before the last.
abbrev pub repeated : ℕ → Bytes → Bytes → Bytes
repeated zero step last = last
repeated (suc n) step last = step ++ b',' ∷ repeated n step last

and_false : (b : Bool) → (b && false) ≡ false
and_false true = refl
and_false false = refl

module _ {D : Type 0} (d : Doubles D) where
  -- `n` is the first number of rounds after which the remainder is inside.
  abbrev pub IsFirst : ℕ → (D → Bool) → (D → D) → D → Type 0
  IsFirst zero outside next rem = outside rem ≡ false
  IsFirst (suc n) outside next rem = (outside rem ≡ true) × IsFirst n outside next (next rem)

  pub chain_lem :
      (n fuel : ℕ) (outside : D → Bool) (next : D → D) (step : Bytes) (rem : D)
      → IsFirst n outside next rem
      → n < fuel
      → chain d fuel outside next step rem
        ≡ some (repeated n step (bytes "atempo=" ++ d.to_text (iterate n next rem)))
  unfolding chain
  chain_lem n zero outside next step rem first h = absurd (omega arith)
  chain_lem zero (suc fuel) outside next step rem first h = rw first refl
  chain_lem (suc n) (suc fuel) outside next step rem (here, first) h =
      rw (here, chain_lem n fuel outside next step (next rem) first (omega arith)) refl

  -- A factor beyond 2 that is within 2 after n halvings, and not before, becomes n filters of 2.0 and one
  -- of what is left, if the fuel is more than n.
  pub speed_filter-above :
      (n fuel : ℕ) (factor : D)
      → n < fuel
      → d.le factor d.null ≡ false
      → d.le factor d.two ≡ false
      → d.lt d.two factor ≡ true
      → IsFirst n (λ rem. d.lt d.two rem) (λ rem. d.div rem d.two) factor
      → speed_filter d fuel factor
        ≡ some (
            repeated n
              (bytes "atempo=2.0")
              (bytes "atempo=" ++ d.to_text (iterate n (λ rem. d.div rem d.two) factor)))
  unfolding speed_filter
  speed_filter-above n fuel factor enough positive beyond above first =
      rw (positive, beyond, and_false (d.le d.half factor), above)
        (chain_lem n fuel (λ rem. d.lt d.two rem) (λ rem. d.div rem d.two) (bytes "atempo=2.0")
          factor first enough)

  -- The same below 1/2, with doublings and filters of 0.5.
  pub speed_filter-below :
      (n fuel : ℕ) (factor : D)
      → n < fuel
      → d.le factor d.null ≡ false
      → d.le d.half factor ≡ false
      → d.lt d.two factor ≡ false
      → IsFirst n (λ rem. d.lt rem d.half) (λ rem. d.mul rem d.two) factor
      → speed_filter d fuel factor
        ≡ some (
            repeated n
              (bytes "atempo=0.5")
              (bytes "atempo=" ++ d.to_text (iterate n (λ rem. d.mul rem d.two) factor)))
  unfolding speed_filter
  speed_filter-below n fuel factor enough positive short below first =
      rw (positive, short, below)
        (chain_lem n fuel (λ rem. d.lt rem d.half) (λ rem. d.mul rem d.two) (bytes "atempo=0.5")
          factor first enough)
