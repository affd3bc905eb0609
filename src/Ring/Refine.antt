-- ===== src/Ring/Refine.antt =====
-- LockFreeRingBuffer against the bounded queue (include/LockFreeRingBuffer.h).
use cpp20_workflow_engine.Shared.{
  ℕ, suc, ◌+◌, ◌^◌, ◌≤◌, ◌<◌, ◌≡◌, ◌⊎◌, refl, ap, sym, subst, ◌∙◌, inl, inr, Bool, some, List, [],
  ◌∷◌, length, arith,
}
use cpp20_workflow_engine.Ring.Queue.{Allowed, begin}
use cpp20_workflow_engine.Ring.{
  full, look, away, Machine, Move, produce, consume, construct, push_step, pop_step, step, play,
}
use cpp20_workflow_engine.Ring.Slots.{slot_below, slot-lt}
use cpp20_workflow_engine.Ring.Invariant.{span, place, Inv}
use cpp20_workflow_engine.Ring.Claim.{length-span}
use cpp20_workflow_engine.Ring.Steps.{after_keeps, next_keeps, seen_full, seen_away}

module _ {T : Type 0} (capacity : ℕ) (two : 2 ≤ capacity) (small : capacity ≤ 2 ^ 61) where
  step_keeps :
      (item : ℕ → T) (r n : ℕ) (m : Machine T) (mv : Move T)
      → Inv capacity item r n m
      → r + n < 2 ^ 61
      → (item' : ℕ → T) × (r' : ℕ) × (n' : ℕ) × (r' + n' ≤ suc (r + n))
        × Inv capacity item' r' n' (step capacity mv m)
  unfolding step
  step_keeps item r n m (produce i new fails) inv bound =
      after_keeps capacity two small item r n m inv bound i new fails (m.producers i) refl
  step_keeps item r n m (consume left) inv bound =
      next_keeps capacity two small item r n m inv bound left m.consumer refl

  play_keeps :
      (mvs : List (Move T)) (item : ℕ → T) (r n : ℕ) (m : Machine T)
      → Inv capacity item r n m
      → r + n + length mvs < 2 ^ 61
      → (item' : ℕ → T) × (r' : ℕ) × (n' : ℕ) × (r' + n' ≤ r + n + length mvs)
        × Inv capacity item' r' n' (play capacity mvs m)
  unfolding play
  play_keeps [] item r n m inv bound = (item, r, n, omega arith, inv)
  play_keeps (mv ∷ mvs) item r n m inv bound =
      let (item1, r1, n1, le1, inv1) = step_keeps item r n m mv inv (omega arith) in
      let (item2, r2, n2, le2, inv2) =
        play_keeps mvs item1 r1 n1 (step capacity mv m) inv1 (omega arith) in
      (item2, r2, n2, omega arith, inv2)

  construct-Inv : (blank : T) → Inv capacity (λ p. blank) 0 0 (construct capacity blank)
  unfolding construct
  construct-Inv blank = record {
    writes = refl;
    room = omega arith;
    allowed = begin;
    slotted = record {
      low = λ p h. omega (arith, slot_below capacity p (omega arith));
      high = λ p. omega (arith, slot-lt capacity p (omega arith));
      unclaimed = λ p lo hi. slot_below capacity p (omega arith);
      claimed = λ p lo hi. absurd (omega arith);
      kept = λ p lo hi seq t. refl;
    };
    fine = λ i. tt;
    apart = λ i j p h k. absurd (ground arith);
    held = λ p lo hi seq. absurd (omega arith);
    going = refl;
  }

  module _ (blank : T) (mvs : List (Move T)) (short : length mvs < 2 ^ 61) where
    abbrev now : Machine T
    now = play capacity mvs (construct capacity blank)

    reached : (item : ℕ → T) × (r : ℕ) × (n : ℕ) × (r + n ≤ length mvs) × Inv capacity item r n now
    reached = let (item, r, n, few, inv) = from_start in (item, r, n, omega arith, inv)
      where
        from_start :
            (item : ℕ → T) × (r : ℕ) × (n : ℕ) × (r + n ≤ 0 + 0 + length mvs)
            × Inv capacity item r n now
        from_start =
            play_keeps mvs (λ p. blank) 0 0 (construct capacity blank) (construct-Inv blank)
              (omega arith)

    -- With a capacity of at least 2, after any interleaving of less than 2^61 atomic operations: the
    -- claims and releases so far are allowed for a first-in first-out queue of at most `capacity` items.
    pub play_refines_queue : (q : List T) × Allowed capacity now.events q × (length q ≤ capacity)
    play_refines_queue =
        let (item, r, n, few, inv) = reached in
        (span item r n, inv.allowed, omega (arith, inv.room, length-span item r n))

    -- With a capacity of at least 2, after any interleaving of less than 2^61 atomic operations: a
    -- producer whose look at a slot makes `push` return false sees a queue that holds `capacity` items.
    pub push_step-full :
        (i pos : ℕ) (x new : T) (fails : Bool)
        → now.producers i ≡ look x pos
        → (push_step capacity (look x pos) new fails now.buffer).1 ≡ full
        → (q : List T) × Allowed capacity now.events q × (length q ≡ capacity)
    push_step-full i pos x new fails e h =
        let (item, r, n, few, inv) = reached in
        (
          span item r n,
          inv.allowed,
          length-span item r n
              ∙ seen_full capacity two small item r n now inv (omega arith) i new fails x pos e h,
        )

    -- With a capacity of at least 2, after any interleaving of less than 2^61 atomic operations: where the
    -- consumer, out of `pop`, calls it and finds nothing, the queue is empty, or a producer has claimed the
    -- slot of the oldest item and has not handed it over.
    pub pop_step-away :
        (left : T)
        → now.consumer ≡ away
        → (pop_step capacity away left now.buffer).1 ≡ away
        → Allowed capacity now.events []
          ⊎ ((i : ℕ) × (place (now.producers i) ≡ some now.buffer.read_pos))
    pop_step-away left e h =
        let (item, r, n, few, inv) = reached in
        let (reads, found) = seen_away capacity two small item r n now inv (omega arith) left e h in
        elim found [
          | inl none' ↦
              inl (subst (λ k. Allowed capacity now.events (span item r k)) none' inv.allowed)
          | inr (i, own) ↦ inr (i, own ∙ ap some (sym reads))
        ]
