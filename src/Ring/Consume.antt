-- ===== src/Ring/Consume.antt =====
-- Each atomic operation of `pop` keeps the invariant (include/LockFreeRingBuffer.h).
use cpp20_workflow_engine.Shared.{
  ℕ, zero, suc, ◌+◌, ◌-◌, ◌≤◌, ◌<◌, ◌≡◌, refl, ap, sym, subst, ◌∙◌, inl, inr, Bool-cases, some, [],
  ◌∷◌, ◌++◌, append-nil, arith, ◌==◌,
}
use cpp20_workflow_engine.Ring.Queue.{popped, Allowed, pop}
use cpp20_workflow_engine.Ring.Slots.{slot-period}
use cpp20_workflow_engine.Ring.{
  slot_of, put_at, Buffer, Producer, ready, full, look, reload, claim, store, publish, away,
  move_out, free, leave, Machine,
}
use cpp20_workflow_engine.Ring.Invariant.{span, place, IsFine, IsGoing, Inv, put_slot}

-- A producer does not mind changes outside the slot of its position.
IsFine-frame :
    {T : Type 0} (capacity : ℕ) (item : ℕ → T) (r n r' n' : ℕ) (b b' : Buffer T) (p : Producer T)
    → r ≤ r'
    → r' + n' ≡ r + n
    → ((q : ℕ)
        → place p ≡ some q
        → (r' ≤ q)
          × (b'.seq (slot_of capacity q) ≡ b.seq (slot_of capacity q))
          × (b'.items (slot_of capacity q) ≡ b.items (slot_of capacity q)))
    → IsFine capacity item r n b p
    → IsFine capacity item r' n' b' p
IsFine-frame capacity item r n r' n' b b' ready a e h f = tt
IsFine-frame capacity item r n r' n' b b' full a e h f = tt
IsFine-frame capacity item r n r' n' b b' (look x q) a e h f = omega arith
IsFine-frame capacity item r n r' n' b b' (reload x) a e h f = tt
IsFine-frame capacity item r n r' n' b b' (claim x q) a e h (f, g) = (omega arith, omega arith)
IsFine-frame capacity item r n r' n' b b' (store x q) a e h (f, g, s, t) =
    let (lo, seq, items) = h q refl in (lo, omega arith, seq ∙ s, t)
IsFine-frame capacity item r n r' n' b b' (publish x q) a e h (f, g, s, t, u) =
    let (lo, seq, items) = h q refl in (lo, omega arith, seq ∙ s, t, items ∙ u)

-- A claimed position is in the window, and its slot shows its own number.
place_fine :
    {T : Type 0} (capacity : ℕ) (item : ℕ → T) (r n : ℕ) (b : Buffer T) (p : Producer T) (q : ℕ)
    → IsFine capacity item r n b p
    → place p ≡ some q
    → (r ≤ q) × (q < r + n) × (b.seq (slot_of capacity q) ≡ q)
place_fine capacity item r n b ready q f h = absurd (ground arith)
place_fine capacity item r n b full q f h = absurd (ground arith)
place_fine capacity item r n b (look x p) q f h = absurd (ground arith)
place_fine capacity item r n b (reload x) q f h = absurd (ground arith)
place_fine capacity item r n b (claim x p) q f h = absurd (ground arith)
place_fine capacity item r n b (store x p) q (lo, hi, seq, t) h =
    let e : p ≡ q = ground arith in rw (← e) (lo, hi, seq)
place_fine capacity item r n b (publish x p) q (lo, hi, seq, t, u) h =
    let e : p ≡ q = ground arith in rw (← e) (lo, hi, seq)

module _ {T : Type 0} (capacity : ℕ) (two : 2 ≤ capacity) (item : ℕ → T) (r n : ℕ) (m : Machine T)
    (inv : Inv capacity item r n m) where
  abbrev b : Buffer T
  b = m.buffer

  open inv use {slotted, fine, apart, held, going, writes, room}
  open slotted use {low, high, unclaimed, claimed, kept}

  -- No producer works on the slot that the consumer reads.
  elsewhere :
      b.seq (slot_of capacity r) ≡ suc r
      → (i q : ℕ) → place (m.producers i) ≡ some q
      → (r < q) × (q < r + n)
  elsewhere here i q h =
      let (lo, hi, seq) = place_fine capacity item r n b (m.producers i) q (fine i) h in
      elim (Bool-cases (q == r)) [
        | inl same ↦
            let e : q ≡ r = ground arith in
            let twice = sym seq ∙ ap (λ p. b.seq (slot_of capacity p)) e ∙ here in
            absurd (omega arith)
        | inr other ↦ (ground arith, hi)
      ]

  pub wait :
      m.consumer ≡ away
      → Inv capacity item r n (record m { consumer = away; events = m.events ++ [] })
  wait e = record {
    writes = writes;
    room = room;
    allowed = rw (append-nil m.events) inv.allowed;
    slotted = record {
      low = low;
      high = high;
      unclaimed = unclaimed;
      claimed = claimed;
      kept = λ p lo hi seq t. kept p lo hi seq (rw e refl);
    };
    fine = fine;
    apart = apart;
    held = held;
    going = subst (IsGoing capacity item r n b) e going;
  }

  pub do_look :
      m.consumer ≡ away
      → b.seq (slot_of capacity r) ≡ suc r
      → Inv capacity item r n (record m { consumer = move_out r; events = m.events ++ [] })
  do_look e here = record {
    writes = writes;
    room = room;
    allowed = rw (append-nil m.events) inv.allowed;
    slotted = record {
      low = low;
      high = high;
      unclaimed = unclaimed;
      claimed = claimed;
      kept = λ p lo hi seq t. kept p lo hi seq (rw e refl);
    };
    fine = fine;
    apart = apart;
    held = held;
    going = (subst (IsGoing capacity item r n b) e going, refl, not_empty, here);
  }
    where
      not_empty : 0 < n
      not_empty = elim (Bool-cases (n == 0)) [
        | inl none' ↦ let own = unclaimed r (ground arith) (omega arith) in absurd (omega arith)
        | inr some' ↦ ground arith
      ]

  pub do_move :
      (left : T) (pos : ℕ)
      → m.consumer ≡ move_out pos
      → Inv capacity item r n (record m {
        buffer = record b { items = put_at b.items (slot_of capacity r) left };
        consumer = free (b.items (slot_of capacity r)) r;
        events = m.events ++ [];
      })
  do_move left pos e =
      let (reads, at, positive, here) = subst (IsGoing capacity item r n b) e going in
      record {
        writes = writes;
        room = room;
        allowed = rw (append-nil m.events) inv.allowed;
        slotted = record {
          low = low;
          high = high;
          unclaimed = unclaimed;
          claimed = claimed;
          kept = λ p lo hi seq t.
              put_slot capacity b.items left r p r lo (omega arith) (omega arith) (omega arith)
              ∙ rw t (kept p lo hi seq (rw e refl));
        };
        fine = λ i.
            IsFine-frame capacity item r n r n b
              (record b { items = put_at b.items (slot_of capacity r) left }) (m.producers i)
              (omega arith) refl
              (λ q h.
                let (lo, hi) = elsewhere here i q h in
                (
                  omega arith,
                  refl,
                  put_slot capacity b.items left r q r (omega arith) (omega arith) (omega arith)
                        (omega arith)
                      ∙ ground arith,
                ))
              (fine i);
        apart = apart;
        held = held;
        going = (
          reads,
          refl,
          positive,
          here,
          sym (kept r (omega arith) (omega arith) here (rw e refl)),
        );
      }

  span-first : 0 < n → span item r n ≡ item r ∷ span item (suc r) (n - 1)
  span-first h = go n h
    where
      go : (k : ℕ) → 0 < k → span item r k ≡ item r ∷ span item (suc r) (k - 1)
      go zero h = absurd (omega arith)
      go (suc k) h = ap (λ j. item r ∷ span item (suc r) j) (back k)
        where
          back : (k : ℕ) → k ≡ suc k - 1
          back k = omega arith

  pub do_free :
      (x : T) (pos : ℕ)
      → m.consumer ≡ free x pos
      → Inv capacity item (suc r) (n - 1) (record m {
        buffer = record b { seq = put_at b.seq (slot_of capacity r) (r + capacity) };
        consumer = leave r;
        events = m.events ++ popped x ∷ [];
      })
  do_free x pos e =
      let (reads, at, positive, here, has_item) = subst (IsGoing capacity item r n b) e going in
      let seen = λ (p : ℕ) (lo : r ≤ p) (hi : p < r + capacity).
        put_slot capacity b.seq (r + capacity) r p r lo hi (omega arith) (omega arith) in
      record {
        writes = omega arith;
        room = omega arith;
        allowed = pop x (
            subst (Allowed capacity m.events)
              (span-first positive ∙ ap (λ y. y ∷ span item (suc r) (n - 1)) has_item) inv.allowed);
        slotted = record {
          low = λ p h. elim (Bool-cases (p == r + capacity)) [
            | inl last ↦ ground (arith, freed p)
            | inr inner ↦ ground (arith, low p (ground arith))
          ];
          high = λ p. ground (arith, high p);
          unclaimed = λ p lo hi. elim (Bool-cases (p == r + capacity)) [
            | inl last ↦ ground (arith, freed p)
            | inr inner ↦ ground (
              arith,
              unclaimed p (omega arith) (ground arith),
              seen p (omega arith) (ground arith),
            )
          ];
          claimed = λ p lo hi.
              ground
                (arith, claimed p (omega arith) (omega arith), seen p (omega arith) (omega arith));
          kept = λ p lo hi seq t.
              kept p (omega arith) (omega arith)
                (ground (arith, seq, seen p (omega arith) (omega arith))) (rw e (ground arith));
        };
        fine = λ i.
            IsFine-frame capacity item r n (suc r) (n - 1) b
              (record b { seq = put_at b.seq (slot_of capacity r) (r + capacity) }) (m.producers i)
              (omega arith) (omega arith)
              (λ q h.
                let (lo, hi) = elsewhere here i q h in
                (omega arith, ground (arith, seen q (omega arith) (omega arith)), refl))
              (fine i);
        apart = apart;
        held = λ q lo hi seq.
            held q (omega arith) (omega arith)
              (sym (ground (arith, seen q (omega arith) (omega arith))) ∙ seq);
        going = (reads, refl);
      }
    where
      freed :
          (p : ℕ)
          → p ≡ r + capacity
          → put_at b.seq (slot_of capacity r) (r + capacity) (slot_of capacity p) ≡ r + capacity
      freed p h =
          let there : slot_of capacity p ≡ slot_of capacity r =
            ap (slot_of capacity) h ∙ slot-period capacity r in
          ground (arith, there)

  pub do_leave :
      (pos : ℕ)
      → m.consumer ≡ leave pos
      → Inv capacity item r n (record m {
        buffer = record b { read_pos = r };
        consumer = away;
        events = m.events ++ [];
      })
  do_leave pos e = record {
    writes = writes;
    room = room;
    allowed = rw (append-nil m.events) inv.allowed;
    slotted = record {
      low = low;
      high = high;
      unclaimed = unclaimed;
      claimed = claimed;
      kept = λ p lo hi seq t. kept p lo hi seq (rw e refl);
    };
    fine = λ i.
        IsFine-frame capacity item r n r n b (record b { read_pos = r }) (m.producers i)
          (omega arith) refl
          (λ q h.
            let (lo, hi, seq) = place_fine capacity item r n b (m.producers i) q (fine i) h in
            (lo, refl, refl))
          (fine i);
    apart = apart;
    held = held;
    going = refl;
  }
