-- ===== src/Ring/Steps.antt =====
-- Every atomic operation keeps the invariant of LockFreeRingBuffer (include/LockFreeRingBuffer.h).
use cpp20_workflow_engine.Shared.{
  ℕ, suc, ◌+◌, ◌-◌, ◌^◌, ◌≤◌, ◌<◌, ◌≡◌, ◌⊎◌, refl, ap, sym, subst, ◌∙◌, inl, inr, Bool, Bool-cases,
  some, List, [], ◌∷◌, ◌++◌, arith, ◌==◌, ltb,
}
use cpp20_workflow_engine.Ring.Queue.{Event, pushed, popped}
use cpp20_workflow_engine.Ring.{
  slot_of, add_size, put_at, diff_is_zero, diff_is_negative, Buffer, Producer, ready, full, look,
  reload, claim, store, publish, Consumer, away, move_out, free, leave, Machine, push_step,
  pop_step,
}
use cpp20_workflow_engine.Ring.Slots.{slot-period}
use cpp20_workflow_engine.Ring.Invariant.{place, IsFine, IsGoing, Inv}
use cpp20_workflow_engine.Ring.Consume.{wait, do_look, do_move, do_free, do_leave}
use cpp20_workflow_engine.Ring.Produce.{move_on, do_store, do_publish}
use cpp20_workflow_engine.Ring.Claim.{do_claim}

add_size-one : (a : ℕ) → a < 2 ^ 62 → add_size a 1 ≡ suc a
add_size-one a h = omega arith

zero_diff : (a b : ℕ) → a < 2 ^ 63 → b < 2 ^ 63 → diff_is_zero a b ≡ (a == b)
zero_diff a b h k = ground arith

negative_diff : (a b : ℕ) → a < 2 ^ 63 → b < 2 ^ 63 → diff_is_negative a b ≡ ltb a b
negative_diff a b h k = ground arith

module _ {T : Type 0} (capacity : ℕ) (two : 2 ≤ capacity) (small : capacity ≤ 2 ^ 61) (item : ℕ → T)
    (r n : ℕ) (m : Machine T) (inv : Inv capacity item r n m) (bound : r + n < 2 ^ 61) where
  open inv use {slotted, fine, going, writes, room}
  open slotted use {low, high, unclaimed, claimed}

  -- The invariant after a step, with at most one position more.
  abbrev pub Kept : Machine T → Type 0
  Kept m' =
      (item' : ℕ → T) × (r' : ℕ) × (n' : ℕ) × (r' + n' ≤ suc (r + n)) × Inv capacity item' r' n' m'

  module _ (i : ℕ) (new : T) (fails : Bool) where
    abbrev after_of : Buffer T × Producer T × List (Event T) → Machine T
    after_of (b, p, es) = record m {
      buffer = b;
      producers = put_at m.producers i p;
      events = m.events ++ es;
    }

    abbrev pub after : Producer T → Machine T
    after p = after_of (push_step capacity p new fails m.buffer)

    stay :
        (p : Producer T)
        → IsFine capacity item r n m.buffer p
        → place p ≡ place (m.producers i)
        → Kept (record m {
          buffer = m.buffer;
          producers = put_at m.producers i p;
          events = m.events ++ [];
        })
    stay p f h = (item, r, n, omega arith, move_on capacity two item r n m inv i p f h)

    -- A slot that shows the own number of a position is free for it.
    seen_free :
        (pos : ℕ) → pos ≤ r + n → m.buffer.seq (slot_of capacity pos) ≡ pos → pos < r + capacity
    seen_free pos h e = elim (Bool-cases (ltb pos (r + capacity))) [
      | inl below ↦ ground arith
      | inr above ↦
          let wrapped : pos ≡ r + capacity = ground arith in
          let shared = ap m.buffer.seq (ap (slot_of capacity) wrapped ∙ slot-period capacity r) in
          absurd (ground (arith, claimed r (omega arith) (omega arith), shared))
    ]

    look_keeps :
        (x : T) (pos : ℕ) → m.producers i ≡ look x pos → pos ≤ r + n → Kept (after (look x pos))
    unfolding push_step
    look_keeps x pos own h = elim (Bool-cases (seq == pos)) [
      | inl same ↦
          let e : push_step capacity (look x pos) new fails m.buffer ≡ (m.buffer, claim x pos, []) =
            ground (arith, is_zero) in
          subst (λ t. Kept (after_of t)) (sym e)
            (stay (claim x pos) (h, seen_free pos h (ground arith)) (sym (ap place own)))
      | inr different ↦ elim (Bool-cases (ltb seq pos)) [
        | inl behind ↦
            let e : push_step capacity (look x pos) new fails m.buffer ≡ (m.buffer, full, []) =
              ground (arith, is_zero, is_negative) in
            subst (λ t. Kept (after_of t)) (sym e) (stay full tt (sym (ap place own)))
        | inr ahead ↦
            let e : push_step capacity (look x pos) new fails m.buffer ≡ (m.buffer, reload x, []) =
              ground (arith, is_zero, is_negative) in
            subst (λ t. Kept (after_of t)) (sym e) (stay (reload x) tt (sym (ap place own)))
      ]
    ]
      where
        seq : ℕ
        seq = m.buffer.seq (slot_of capacity pos)

        is_zero : diff_is_zero seq pos ≡ (seq == pos)
        is_zero = zero_diff seq pos (omega (arith, high pos)) (omega arith)

        is_negative : diff_is_negative seq pos ≡ ltb seq pos
        is_negative = negative_diff seq pos (omega (arith, high pos)) (omega arith)

    claim_keeps : (x : T) (pos : ℕ) → m.producers i ≡ claim x pos → Kept (after (claim x pos))
    unfolding push_step
    claim_keeps x pos e = elim (Bool-cases fails) [
      | inl spurious ↦
          let step : push_step capacity (claim x pos) new fails m.buffer
              ≡ (m.buffer, look x m.buffer.write_pos, []) =
            ground (arith, spurious) in
          subst (λ t. Kept (after_of t)) (sym step)
            (stay (look x m.buffer.write_pos) (omega arith) (sym (ap place e)))
      | inr tried ↦ elim (Bool-cases (m.buffer.write_pos == pos)) [
        | inr lost ↦
            let step : push_step capacity (claim x pos) new fails m.buffer
                ≡ (m.buffer, look x m.buffer.write_pos, []) =
              ground (arith, tried, lost) in
            subst (λ t. Kept (after_of t)) (sym step)
              (stay (look x m.buffer.write_pos) (omega arith) (sym (ap place e)))
        | inl won ↦
            let at : pos ≡ r + n = ground arith in
            let step : push_step capacity (claim x pos) new fails m.buffer
                ≡ (record m.buffer { write_pos = suc (r + n) }, store x (r + n), pushed x ∷ []) =
              ground (arith, tried, won, add_size-one pos (omega arith)) in
            subst (λ t. Kept (after_of t)) (sym step)
              (
                put_at item (r + n) x,
                r,
                suc n,
                omega arith,
                do_claim capacity two item r n m inv i x (e ∙ ap (claim x) at),
              )
      ]
    ]

    publish_keeps : (x : T) (pos : ℕ) → m.producers i ≡ publish x pos → Kept (after (publish x pos))
    unfolding push_step
    publish_keeps x pos e =
        let (_, hi, _, _, _) = subst (IsFine capacity item r n m.buffer) e (fine i) in
        let step : push_step capacity (publish x pos) new fails m.buffer ≡ (
          record m.buffer { seq = put_at m.buffer.seq (slot_of capacity pos) (suc pos) },
          ready,
          [],
        ) =
          rw (add_size-one pos (omega arith)) refl in
        subst (λ t. Kept (after_of t)) (sym step)
          (item, r, n, omega arith, do_publish capacity two item r n m inv i x pos e)

    pub after_keeps : (p : Producer T) → m.producers i ≡ p → Kept (after p)
    unfolding push_step
    after_keeps ready e = stay (look new m.buffer.write_pos) (omega arith) (sym (ap place e))
    after_keeps full e = stay (look new m.buffer.write_pos) (omega arith) (sym (ap place e))
    after_keeps (reload x) e = stay (look x m.buffer.write_pos) (omega arith) (sym (ap place e))
    after_keeps (look x pos) e =
        look_keeps x pos e (subst (IsFine capacity item r n m.buffer) e (fine i))
    after_keeps (claim x pos) e = claim_keeps x pos e
    after_keeps (store x pos) e =
        (item, r, n, omega arith, do_store capacity two item r n m inv i x pos e)
    after_keeps (publish x pos) e = publish_keeps x pos e

  module _ (left : T) where
    abbrev then_of : Buffer T × Consumer T × List (Event T) → Machine T
    then_of (b, c, es) = record m { buffer = b; consumer = c; events = m.events ++ es }

    abbrev pub next : Consumer T → Machine T
    next c = then_of (pop_step capacity c left m.buffer)

    away_keeps : m.consumer ≡ away → Kept (next away)
    unfolding pop_step
    away_keeps e =
        let reads = subst (IsGoing capacity item r n m.buffer) e going in
        elim (Bool-cases (m.buffer.seq (slot_of capacity r) == suc r)) [
          | inl there ↦
              let step : pop_step capacity away left m.buffer ≡ (m.buffer, move_out r, []) =
                rw (reads, is_zero, there) refl in
              subst (λ t. Kept (then_of t)) (sym step)
                (item, r, n, omega arith, do_look capacity two item r n m inv e (ground arith))
          | inr not_there ↦
              let step : pop_step capacity away left m.buffer ≡ (m.buffer, away, []) =
                rw (reads, is_zero, not_there) refl in
              subst (λ t. Kept (then_of t)) (sym step)
                (item, r, n, omega arith, wait capacity two item r n m inv e)
        ]
      where
        is_zero :
            diff_is_zero (m.buffer.seq (slot_of capacity r)) (add_size r 1)
            ≡ (m.buffer.seq (slot_of capacity r) == suc r)
        is_zero =
            ap (diff_is_zero (m.buffer.seq (slot_of capacity r))) (add_size-one r (omega arith))
            ∙ zero_diff (m.buffer.seq (slot_of capacity r)) (suc r) (omega (arith, high r))
                (omega arith)

    pub next_keeps : (c : Consumer T) → m.consumer ≡ c → Kept (next c)
    unfolding pop_step
    next_keeps away e = away_keeps e
    next_keeps (move_out pos) e =
        let (reads, at, rest, here) = subst (IsGoing capacity item r n m.buffer) e going in
        subst (λ p. Kept (next (move_out p))) (sym at)
          (item, r, n, omega arith, do_move capacity two item r n m inv left pos e)
    next_keeps (free x pos) e =
        let (reads, at, rest, here, is) = subst (IsGoing capacity item r n m.buffer) e going in
        let step : pop_step capacity (free x pos) left m.buffer ≡ (
          record m.buffer { seq = put_at m.buffer.seq (slot_of capacity r) (r + capacity) },
          leave r,
          popped x ∷ [],
        ) =
          rw (at, add_size-within) refl in
        subst (λ t. Kept (then_of t)) (sym step)
          (item, suc r, n - 1, omega arith, do_free capacity two item r n m inv x pos e)
      where
        add_size-within : add_size r capacity ≡ r + capacity
        add_size-within = omega arith
    next_keeps (leave pos) e =
        let (reads, after_pos) = subst (IsGoing capacity item r n m.buffer) e going in
        let step : pop_step capacity (leave pos) left m.buffer
            ≡ (record m.buffer { read_pos = r }, away, []) =
          rw (add_size-one pos (omega arith), after_pos) refl in
        subst (λ t. Kept (then_of t)) (sym step)
          (item, r, n, omega arith, do_leave capacity two item r n m inv pos e)

  -- A look that ends in `full` saw the number of a position that is `capacity` behind.
  pub seen_full :
      (i : ℕ) (new : T) (fails : Bool) (x : T) (pos : ℕ)
      → m.producers i ≡ look x pos
      → (push_step capacity (look x pos) new fails m.buffer).1 ≡ full
      → n ≡ capacity
  unfolding push_step
  seen_full i new fails x pos e h =
      let known = subst (IsFine capacity item r n m.buffer) e (fine i) in
      let seq = m.buffer.seq (slot_of capacity pos) in
      let is_zero = zero_diff seq pos (omega (arith, high pos)) (omega arith) in
      let is_negative = negative_diff seq pos (omega (arith, high pos)) (omega arith) in
      elim (Bool-cases (ltb pos (r + capacity))) [
        | inl below ↦ absurd (ground (arith, is_zero, is_negative, low pos (ground arith)))
        | inr above ↦ ground arith
      ]

  pub seen_away :
      (left : T)
      → m.consumer ≡ away
      → (pop_step capacity away left m.buffer).1 ≡ away
      → (m.buffer.read_pos ≡ r) × ((n ≡ 0) ⊎ ((i : ℕ) × (place (m.producers i) ≡ some r)))
  unfolding pop_step
  seen_away left e h =
      let reads : m.buffer.read_pos ≡ r = subst (IsGoing capacity item r n m.buffer) e going in
      (
        reads,
        elim (Bool-cases (n == 0)) [
          | inl none' ↦ inl (ground arith)
          | inr some' ↦ elim (claimed r (omega arith) (ground arith)) [
            | inl own ↦ inr (inv.held r (omega arith) (ground arith) own)
            | inr written ↦
                let is_zero =
                  zero_diff (m.buffer.seq (slot_of capacity r)) (suc r) (omega (arith, high r))
                    (omega arith) in
                let one = add_size-one r (omega arith) in
                absurd (ground (arith, reads, is_zero, one, written))
          ]
        ],
      )
