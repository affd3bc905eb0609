-- ===== src/Ring/Claim.antt =====
-- The claim of a slot in `push` keeps the invariant (include/LockFreeRingBuffer.h).
use cpp20_workflow_engine.Shared.{
  ℕ, zero, suc, ◌+◌, ◌≤◌, ◌<◌, ◌≡◌, refl, ap, sym, subst, ◌∙◌, inl, inr, Bool-cases, none, some, [],
  ◌∷◌, ◌++◌, length, arith, ◌==◌,
}
use cpp20_workflow_engine.Ring.Queue.{pushed, Allowed, push}
use cpp20_workflow_engine.Ring.{
  put_at, Buffer, Producer, ready, full, look, reload, claim, store, publish, Consumer, away,
  move_out, free, leave, Machine,
}
use cpp20_workflow_engine.Ring.Invariant.{span, place, IsFine, IsGoing, Inv, replaced_held}

pub length-span : {T : Type 0} (item : ℕ → T) (r n : ℕ) → length (span item r n) ≡ n
length-span item r zero = refl
length-span item r (suc n) = ap suc (length-span item (suc r) n)

-- A new item behind the last position.
span-put_at :
    {T : Type 0} (item : ℕ → T) (x : T) (r n p : ℕ)
    → r + n ≤ p
    → span (put_at item p x) r n ≡ span item r n
span-put_at item x r zero p h = refl
span-put_at item x r (suc n) p h = ground (arith, span-put_at item x (suc r) n p (omega arith))

span-snoc :
    {T : Type 0} (item : ℕ → T) (r n : ℕ) → span item r (suc n) ≡ span item r n ++ item (r + n) ∷ []
span-snoc item r zero = ap (λ p. item p ∷ []) (plus_zero r)
  where
    plus_zero : (r : ℕ) → r ≡ r + 0
    plus_zero r = omega arith
span-snoc item r (suc n) =
    ap (λ xs. item r ∷ xs)
      (span-snoc item (suc r) n ∙ ap (λ p. span item (suc r) n ++ item p ∷ []) (shift r n))
  where
    shift : (r n : ℕ) → suc r + n ≡ r + suc n
    shift r n = omega arith

module _ {T : Type 0} (capacity : ℕ) (two : 2 ≤ capacity) (item : ℕ → T) (r n : ℕ) (m : Machine T)
    (inv : Inv capacity item r n m) (i : ℕ) where
  abbrev b : Buffer T
  b = m.buffer

  open inv use {slotted, fine, apart, held, going, writes, room}
  open slotted use {low, high, unclaimed, claimed, kept}

  -- A step that changes only where the producer is.

  abbrev b_claimed : ℕ → Buffer T
  b_claimed pos = record b { write_pos = suc pos }

  claimed-IsFine :
      (x : T) (p : Producer T)
      → IsFine capacity item r n b p
      → IsFine capacity (put_at item (r + n) x) r (suc n) (b_claimed (r + n)) p
  claimed-IsFine x ready f = tt
  claimed-IsFine x full f = tt
  claimed-IsFine x (look y q) f = omega arith
  claimed-IsFine x (reload y) f = tt
  claimed-IsFine x (claim y q) (a, c) = (omega arith, c)
  claimed-IsFine x (store y q) (a, c, d, e) = (a, omega arith, d, ground arith)
  claimed-IsFine x (publish y q) (a, c, d, e, g) = (a, omega arith, d, ground arith, g)

  claimed-IsGoing :
      (x : T) (c : Consumer T)
      → IsGoing capacity item r n b c
      → IsGoing capacity (put_at item (r + n) x) r (suc n) (b_claimed (r + n)) c
  claimed-IsGoing x away g = g
  claimed-IsGoing x (move_out q) (a, c, d, e) = (a, c, omega arith, e)
  claimed-IsGoing x (free y q) (a, c, d, e, f) = (a, c, omega arith, e, ground arith)
  claimed-IsGoing x (leave q) g = g

  -- The claimed position lies above all others.
  fresh : (p : Producer T) (q : ℕ) → IsFine capacity item r n b p → place p ≡ some q → q < r + n
  fresh ready q f h = absurd (ground arith)
  fresh full q f h = absurd (ground arith)
  fresh (look y p) q f h = absurd (ground arith)
  fresh (reload y) q f h = absurd (ground arith)
  fresh (claim y p) q f h = absurd (ground arith)
  fresh (store y p) q f h = ground arith
  fresh (publish y p) q f h = ground arith

  claimed_apart :
      (x : T) (j k p : ℕ)
      → place (put_at m.producers i (store x (r + n)) j) ≡ some p
      → place (put_at m.producers i (store x (r + n)) k) ≡ some p
      → j ≡ k
  claimed_apart x j k p hj hk =
      ground
        (arith, apart j k p, fresh (m.producers j) p (fine j), fresh (m.producers k) p (fine k))

  pub do_claim :
      (x : T)
      → m.producers i ≡ claim x (r + n)
      → Inv capacity (put_at item (r + n) x) r (suc n) (record m {
        buffer = b_claimed (r + n);
        producers = put_at m.producers i (store x (r + n));
        events = m.events ++ pushed x ∷ [];
      })
  do_claim x e =
      let (_, space) = subst (IsFine capacity item r n b) e (fine i) in
      let here = unclaimed (r + n) (omega arith) space in
      let item' = put_at item (r + n) x in
      record {
        writes = omega arith;
        room = omega arith;
        allowed =
            subst (Allowed capacity (m.events ++ pushed x ∷ []))
              (ap (λ xs. xs ++ x ∷ []) (sym (span-put_at item x r n (r + n) (omega arith)))
                ∙ ap (λ y. span item' r n ++ y ∷ []) (newest x)
                ∙ sym (span-snoc item' r n))
              (push x inv.allowed (omega (arith, length-span item r n)));
        slotted = record {
          low = low;
          high = λ p. omega (arith, high p);
          unclaimed = λ p lo hi. unclaimed p (omega arith) hi;
          claimed = λ p lo hi. elim (Bool-cases (p == r + n)) [
            | inl same ↦ inl (ground (arith, here))
            | inr ne ↦ claimed p lo (ground arith)
          ];
          kept = λ p lo hi seq t. elim (Bool-cases (p == r + n)) [
            | inl same ↦ absurd (ground (arith, here))
            | inr ne ↦ rw ne (kept p lo (ground arith) seq t)
          ];
        };
        fine = λ j. elim (Bool-cases (j == i)) [
          | inl same ↦ rw same (omega arith, omega arith, here, sym (newest x))
          | inr ne ↦ rw ne (claimed-IsFine x (m.producers j) (fine j))
        ];
        apart = claimed_apart x;
        held = λ q lo hi seq. elim (Bool-cases (q == r + n)) [
          | inl same ↦ (i, ground arith)
          | inr ne ↦
              replaced_held m.producers i (store x (r + n)) q
                (λ k. let none_yet : none ≡ some q = sym (ap place e) ∙ k in absurd (ground arith))
                (held q lo (ground arith) seq)
        ];
        going = claimed-IsGoing x m.consumer going;
      }
    where
      newest : (x : T) → x ≡ put_at item (r + n) x (r + n)
      newest x = ground arith
