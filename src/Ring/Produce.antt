-- ===== src/Ring/Produce.antt =====
-- The store of an item and of its sequence number in `push` keep the invariant
-- (include/LockFreeRingBuffer.h).
use cpp20_workflow_engine.Shared.{
  ℕ, suc, ◌+◌, ◌≤◌, ◌<◌, ◌≡◌, ◌≢◌, refl, ap, sym, subst, ◌∙◌, inl, inr, false, Bool-cases, some, [],
  ◌++◌, append-nil, arith, ◌==◌,
}
use cpp20_workflow_engine.Ring.{
  slot_of, put_at, Buffer, Producer, ready, full, look, reload, claim, store, publish, Consumer,
  away, move_out, free, leave, Machine,
}
use cpp20_workflow_engine.Ring.Invariant.{
  place, IsFine, IsGoing, Inv, put_slot, replaced, replaced_apart, replaced_held,
}

module _ {T : Type 0} (capacity : ℕ) (two : 2 ≤ capacity) (item : ℕ → T) (r n : ℕ) (m : Machine T)
    (inv : Inv capacity item r n m) (i : ℕ) where
  abbrev b : Buffer T
  b = m.buffer

  open inv use {slotted, fine, apart, held, going, writes, room}
  open slotted use {low, high, unclaimed, claimed, kept}

  -- A step that changes only where the producer is.
  pub move_on :
      (p : Producer T)
      → IsFine capacity item r n b p
      → place p ≡ place (m.producers i)
      → Inv capacity item r n
          (record m { buffer = b; producers = put_at m.producers i p; events = m.events ++ [] })
  move_on p f h = record {
    writes = writes;
    room = room;
    allowed = rw (append-nil m.events) inv.allowed;
    slotted = slotted;
    fine = replaced (IsFine capacity item r n b) m.producers i p f fine;
    apart = replaced_apart m.producers i p (λ q k. sym h ∙ k) apart;
    held = λ q lo hi seq. replaced_held m.producers i p q (λ k. h ∙ k) (held q lo hi seq);
    going = going;
  }

  abbrev b_stored : T → ℕ → Buffer T
  b_stored x pos = record b { items = put_at b.items (slot_of capacity pos) x }

  abbrev b_published : ℕ → Buffer T
  b_published pos = record b { seq = put_at b.seq (slot_of capacity pos) (suc pos) }

  -- The position of another producer.
  other :
      (p : ℕ)
      → place (m.producers i) ≡ some p
      → (j q : ℕ) → (j == i) ≡ false
      → place (m.producers j) ≡ some q
      → q ≢ p
  other p hi j q ne hj same =
      let e : j ≡ i = apart j i p (hj ∙ ap some same) hi in ground (arith, e)

  stored-IsFine :
      (x : T) (pos : ℕ)
      → r ≤ pos
      → pos < r + n
      → (p : Producer T) → ((q : ℕ) → place p ≡ some q → q ≢ pos)
      → IsFine capacity item r n b p
      → IsFine capacity item r n (b_stored x pos) p
  stored-IsFine x pos lo hi ready ne f = tt
  stored-IsFine x pos lo hi full ne f = tt
  stored-IsFine x pos lo hi (look y q) ne f = f
  stored-IsFine x pos lo hi (reload y) ne f = tt
  stored-IsFine x pos lo hi (claim y q) ne f = f
  stored-IsFine x pos lo hi (store y q) ne f = f
  stored-IsFine x pos lo hi (publish y q) ne (a, c, d, e, g) = (
    a,
    c,
    d,
    e,
    ground
        (arith, ne q refl, g, put_slot capacity b.items x r q pos a (omega arith) lo (omega arith)),
  )

  stored-IsGoing :
      (x : T) (pos : ℕ) (c : Consumer T)
      → IsGoing capacity item r n b c
      → IsGoing capacity item r n (b_stored x pos) c
  stored-IsGoing x pos away g = g
  stored-IsGoing x pos (move_out q) g = g
  stored-IsGoing x pos (free y q) g = g
  stored-IsGoing x pos (leave q) g = g

  pub do_store :
      (x : T) (pos : ℕ)
      → m.producers i ≡ store x pos
      → Inv capacity item r n (record m {
        buffer = b_stored x pos;
        producers = put_at m.producers i (publish x pos);
        events = m.events ++ [];
      })
  do_store x pos e =
      let (lo, hi, at, is) = subst (IsFine capacity item r n b) e (fine i) in
      record {
        writes = writes;
        room = room;
        allowed = rw (append-nil m.events) inv.allowed;
        slotted = record {
          low = low;
          high = high;
          unclaimed = unclaimed;
          claimed = claimed;
          kept = λ p lo' hi' seq t. ground (
            arith,
            kept p lo' hi' seq t,
            at,
            put_slot capacity b.items x r p pos lo' (omega arith) lo (omega arith),
          );
        };
        fine = λ j. elim (Bool-cases (j == i)) [
          | inl same ↦
              let there = put_slot capacity b.items x r pos pos lo (omega arith) lo (omega arith) in
              rw same (lo, hi, at, is, ground (arith, there))
          | inr ne ↦ rw ne (
              stored-IsFine x pos lo hi (m.producers j) (λ q h. other pos (ap place e) j q ne h)
                (fine j))
        ];
        apart = replaced_apart m.producers i (publish x pos) (λ p h. ap place e ∙ h) apart;
        held = λ q lo' hi' seq.
            replaced_held m.producers i (publish x pos) q (λ k. sym (ap place e) ∙ k)
              (held q lo' hi' seq);
        going = stored-IsGoing x pos m.consumer going;
      }

  -- The slots of the other positions stay as they are.
  published_seq :
      (pos q : ℕ)
      → r ≤ pos
      → pos < r + n
      → r ≤ q
      → q < r + n
      → q ≢ pos
      → (b_published pos).seq (slot_of capacity q) ≡ b.seq (slot_of capacity q)
  published_seq pos q a c d e ne =
      ground (arith, put_slot capacity b.seq (suc pos) r q pos d (omega arith) a (omega arith))

  published-IsFine :
      (pos : ℕ)
      → r ≤ pos
      → pos < r + n
      → (p : Producer T) → ((q : ℕ) → place p ≡ some q → q ≢ pos)
      → IsFine capacity item r n b p
      → IsFine capacity item r n (b_published pos) p
  published-IsFine pos lo hi ready ne f = tt
  published-IsFine pos lo hi full ne f = tt
  published-IsFine pos lo hi (look y q) ne f = f
  published-IsFine pos lo hi (reload y) ne f = tt
  published-IsFine pos lo hi (claim y q) ne f = f
  published-IsFine pos lo hi (store y q) ne (a, c, d, e) =
      (a, c, published_seq pos q lo hi a c (ne q refl) ∙ d, e)
  published-IsFine pos lo hi (publish y q) ne (a, c, d, e, g) =
      (a, c, published_seq pos q lo hi a c (ne q refl) ∙ d, e, g)

  published-IsGoing :
      (pos : ℕ)
      → r ≤ pos
      → pos < r + n
      → b.seq (slot_of capacity pos) ≡ pos
      → (c : Consumer T) → IsGoing capacity item r n b c
      → IsGoing capacity item r n (b_published pos) c
  published-IsGoing pos lo hi at away g = g
  published-IsGoing pos lo hi at (move_out q) (a, c, d, e) = (
    a,
    c,
    d,
    published_seq pos r lo hi (omega arith) (omega arith) (λ x. ground (arith, x, e, at)) ∙ e,
  )
  published-IsGoing pos lo hi at (free y q) (a, c, d, e, f) = (
    a,
    c,
    d,
    published_seq pos r lo hi (omega arith) (omega arith) (λ x. ground (arith, x, e, at)) ∙ e,
    f,
  )
  published-IsGoing pos lo hi at (leave q) g = g

  pub do_publish :
      (x : T) (pos : ℕ)
      → m.producers i ≡ publish x pos
      → Inv capacity item r n (record m {
        buffer = b_published pos;
        producers = put_at m.producers i ready;
        events = m.events ++ [];
      })
  do_publish x pos e =
      let (lo, hi, at, is, has_item) = subst (IsFine capacity item r n b) e (fine i) in
      let seen = λ (p : ℕ) (lo' : r ≤ p) (hi' : p < r + capacity).
        put_slot capacity b.seq (suc pos) r p pos lo' hi' lo (omega arith) in
      record {
        writes = writes;
        room = room;
        allowed = rw (append-nil m.events) inv.allowed;
        slotted = record {
          low = λ p h. ground (arith, low p h, at);
          high = λ p. ground (arith, high p);
          unclaimed = λ p lo' hi'. ground (arith, unclaimed p lo' hi', seen p (omega arith) hi');
          claimed = λ p lo' hi'. elim (Bool-cases (p == pos)) [
            | inl same ↦ inr (ground (arith, seen p lo' (omega arith)))
            | inr ne ↦ ground (arith, claimed p lo' hi', seen p lo' (omega arith))
          ];
          kept = λ p lo' hi' seq t. elim (Bool-cases (p == pos)) [
            | inl same ↦ ground (arith, has_item, is)
            | inr ne ↦ kept p lo' hi' (ground (arith, seq, seen p lo' (omega arith))) t
          ];
        };
        fine = λ j. elim (Bool-cases (j == i)) [
          | inl same ↦ rw same tt
          | inr ne ↦ rw ne (
              published-IsFine pos lo hi (m.producers j) (λ q h. other pos (ap place e) j q ne h)
                (fine j))
        ];
        apart = replaced_apart m.producers i ready (λ p h. absurd (ground arith)) apart;
        held = λ q lo' hi' seq. elim (Bool-cases (q == pos)) [
          | inl same ↦ absurd (ground (arith, seen q lo' (omega arith)))
          | inr ne ↦
              replaced_held m.producers i ready q
                (λ k. let twice : some pos ≡ some q = sym (ap place e) ∙ k in absurd (ground arith))
                (held q lo' hi' (ground (arith, seq, seen q lo' (omega arith))))
        ];
        going = published-IsGoing pos lo hi at m.consumer going;
      }
