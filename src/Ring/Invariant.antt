-- ===== src/Ring/Invariant.antt =====
-- What holds of LockFreeRingBuffer between two atomic operations (include/LockFreeRingBuffer.h).
use cpp20_workflow_engine.Shared.{
  ℕ, zero, suc, ◌+◌, ◌≤◌, ◌<◌, ◌≡◌, ◌≢◌, ◌⊎◌, ap, sym, ◌∙◌, inl, inr, Bool, false, Bool-cases,
  Option, none, some, List, [], ◌∷◌, arith, ◌==◌, ltb, if◌then◌else◌,
}
use cpp20_workflow_engine.Ring.Queue.{Allowed}
use cpp20_workflow_engine.Ring.Slots.{slot-ne}
use cpp20_workflow_engine.Ring.{
  slot_of, put_at, Buffer, Producer, ready, full, look, reload, claim, store, publish, Consumer,
  away, move_out, free, leave, Machine,
}

-- The items at the `n` positions from `r` on.
abbrev pub span : {T : Type 0} → (ℕ → T) → ℕ → ℕ → List T
span item r zero = []
span item r (suc n) = item r ∷ span item (suc r) n

-- The position that a producer has claimed and not yet handed over.
abbrev pub place : {T : Type 0} → Producer T → Option ℕ
place ready = none
place full = none
place (look x pos) = none
place (reload x) = none
place (claim x pos) = none
place (store x pos) = some pos
place (publish x pos) = some pos

-- The consumer has moved the item at a position out of its slot.
abbrev pub taken : {T : Type 0} → Consumer T → ℕ → Bool
taken away p = false
taken (move_out pos) p = false
taken (free x pos) p = p == pos
taken (leave pos) p = false

module _ (capacity : ℕ) where
  -- Two positions of the window share no slot.
  pub slots_apart :
      (r p q : ℕ)
      → r ≤ p
      → p < r + capacity
      → r ≤ q
      → q < r + capacity
      → p ≢ q
      → slot_of capacity p ≢ slot_of capacity q
  slots_apart r p q a b c d ne e = elim (Bool-cases (p == q)) [
    | inl same ↦ ne (ground arith)
    | inr other ↦ elim (Bool-cases (ltb p q)) [
      | inl less ↦ slot-ne capacity p q (ground arith) (omega arith) e
      | inr more ↦ slot-ne capacity q p (ground arith) (omega arith) (sym e)
    ]
  ]

  -- A write to the slot of a position of the window, seen at the positions of the window.
  pub put_slot :
      {A : Type 0} (f : ℕ → A) (v : A) (r p q : ℕ)
      → r ≤ p
      → p < r + capacity
      → r ≤ q
      → q < r + capacity
      → put_at f (slot_of capacity q) v (slot_of capacity p)
        ≡ (if p == q then v else f (slot_of capacity p))
  put_slot f v r p q a b c d = elim (Bool-cases (p == q)) [
    | inl same ↦ ground arith
    | inr other ↦ ground (arith, slots_apart r p q a b c d)
  ]

module _ {T : Type 0} (capacity : ℕ) where
  -- `item` are the items claimed so far by position, `r` is the oldest position in the buffer, and `n`
  -- the number of positions that are claimed and not released.
  abbrev pub IsFine : (ℕ → T) → ℕ → ℕ → Buffer T → Producer T → Type 0
  IsFine item r n b ready = Unit {0}
  IsFine item r n b full = Unit {0}
  IsFine item r n b (reload x) = Unit {0}
  IsFine item r n b (look x pos) = pos ≤ r + n
  IsFine item r n b (claim x pos) = (pos ≤ r + n) × (pos < r + capacity)
  IsFine item r n b (store x pos) =
      (r ≤ pos) × (pos < r + n) × (b.seq (slot_of capacity pos) ≡ pos) × (item pos ≡ x)
  IsFine item r n b (publish x pos) =
      (r ≤ pos)
      × (pos < r + n)
      × (b.seq (slot_of capacity pos) ≡ pos)
      × (item pos ≡ x)
      × (b.items (slot_of capacity pos) ≡ x)

  abbrev pub IsGoing : (ℕ → T) → ℕ → ℕ → Buffer T → Consumer T → Type 0
  IsGoing item r n b away = b.read_pos ≡ r
  IsGoing item r n b (move_out pos) =
      (b.read_pos ≡ r) × (pos ≡ r) × (0 < n) × (b.seq (slot_of capacity r) ≡ suc r)
  IsGoing item r n b (free x pos) =
      (b.read_pos ≡ r) × (pos ≡ r) × (0 < n) × (b.seq (slot_of capacity r) ≡ suc r) × (item r ≡ x)
  IsGoing item r n b (leave pos) = (b.read_pos ≡ pos) × (suc pos ≡ r)

  -- The slots of the positions: one that is free has its own number, one that is claimed its own or the
  -- next, and with the next one it holds the item, unless the consumer has it.
  pub record IsSlotted (item : ℕ → T) (r n : ℕ) (b : Buffer T) (c : Consumer T) : Type 0 where
    pub low : (p : ℕ) → p < r + capacity → p ≤ b.seq (slot_of capacity p)
    pub high : (p : ℕ) → b.seq (slot_of capacity p) ≤ r + n + capacity
    pub unclaimed : (p : ℕ) → r + n ≤ p → p < r + capacity → b.seq (slot_of capacity p) ≡ p
    pub claimed :
        (p : ℕ)
        → r ≤ p
        → p < r + n
        → (b.seq (slot_of capacity p) ≡ p) ⊎ (b.seq (slot_of capacity p) ≡ suc p)
    pub kept :
        (p : ℕ)
        → r ≤ p
        → p < r + n
        → b.seq (slot_of capacity p) ≡ suc p
        → taken c p ≡ false
        → b.items (slot_of capacity p) ≡ item p

  pub record Inv (item : ℕ → T) (r n : ℕ) (m : Machine T) : Type 0 where
    pub writes : m.buffer.write_pos ≡ r + n
    pub room : n ≤ capacity
    pub allowed : Allowed capacity m.events (span item r n)
    pub slotted : IsSlotted item r n m.buffer m.consumer
    pub fine : (i : ℕ) → IsFine item r n m.buffer (m.producers i)
    pub apart :
        (i j p : ℕ) → place (m.producers i) ≡ some p → place (m.producers j) ≡ some p → i ≡ j
    pub held :
        (p : ℕ)
        → r ≤ p
        → p < r + n
        → m.buffer.seq (slot_of capacity p) ≡ p
        → (i : ℕ) × (place (m.producers i) ≡ some p)
    pub going : IsGoing item r n m.buffer m.consumer

pub replaced :
    {A : Type 0} (P : A → Type 0) (f : ℕ → A) (i : ℕ) (v : A)
    → P v
    → ((j : ℕ) → P (f j))
    → (j : ℕ) → P (put_at f i v j)
replaced P f i v h k j = elim (Bool-cases (j == i)) [
  | inl same ↦ rw same h
  | inr other ↦ rw other (k j)
]

-- A producer that gives up its position or keeps it.
pub replaced_apart :
    {T : Type 0} (f : ℕ → Producer T) (i : ℕ) (v : Producer T)
    → ((p : ℕ) → place v ≡ some p → place (f i) ≡ some p)
    → ((a b p : ℕ) → place (f a) ≡ some p → place (f b) ≡ some p → a ≡ b)
    → (a b p : ℕ) → place (put_at f i v a) ≡ some p
    → place (put_at f i v b) ≡ some p
    → a ≡ b
replaced_apart f i v h k a b p x y = k a b p (before a x) (before b y)
  where
    before : (c : ℕ) → place (put_at f i v c) ≡ some p → place (f c) ≡ some p
    before c z = elim (Bool-cases (c == i)) [
      | inl same ↦ ground (arith, h p)
      | inr other ↦ ground arith
    ]

pub replaced_held :
    {T : Type 0} (f : ℕ → Producer T) (i : ℕ) (v : Producer T) (p : ℕ)
    → (place (f i) ≡ some p → place v ≡ some p)
    → (j : ℕ) × (place (f j) ≡ some p)
    → (j : ℕ) × (place (put_at f i v j) ≡ some p)
replaced_held f i v p h (j, e) = elim (Bool-cases (j == i)) [
  | inl same ↦
      let own : j ≡ i = ground arith in (i, ground (arith, h (ap (λ k. place (f k)) (sym own) ∙ e)))
  | inr other ↦ (j, ground arith)
]
