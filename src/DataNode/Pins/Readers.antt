-- ===== src/DataNode/Pins/Readers.antt =====
-- Readers and writers of src/dfsha/datanode/blocks.py: any schedule of pins, and collection under it.
use dfsha.Prelude.{
  ℕ, ◌+◌, ◌-◌, ◌≤◌, ◌≡◌, ◌≢◌, ◌⊎◌, inl, inr, refl, Bool, true, false, ◌&&◌, none, some, List, [],
  ◌∷◌, ◌++◌, arith, ◌==◌, if◌then◌else◌, is_some, mem_of, keep_if, Bool-cases,
}
use dfsha.Common.Domain.{ok, fault, lock_busy}
use dfsha.Control.Table.{Table, get, get-put, get-delete}
use dfsha.DataNode.Pins.{Pins, count_of, pin, unpin, StoredFile, blk, staging, stays, collect}

-- The pins that are out: block and mode.
abbrev pub Held : Type 0
Held = List (ℕ × Bool)

abbrev pub pins_on : ℕ → Held → ℕ
pins_on b [] = 0
pins_on b ((c, e) ∷ h) = (if b == c then 1 else 0) + pins_on b h

abbrev pub writers_on : ℕ → Held → ℕ
writers_on b [] = 0
writers_on b ((c, e) ∷ h) = (if b == c && e then 1 else 0) + writers_on b h

-- Threads take and give back pins in any order.
pub data Schedule : Pins → Held → Type 0 where
  start : Schedule (record { active = []; writers = [] }) []
  enter :
      {s s' : Pins} {h : Held} (b : ℕ) (exclusive : Bool)
      → Schedule s h
      → pin b exclusive s ≡ ok s'
      → Schedule s' ((b, exclusive) ∷ h)
  leave :
      {s : Pins} (before after : Held) (b : ℕ) (exclusive : Bool)
      → Schedule s (before ++ ((b, exclusive) ∷ after))
      → Schedule (unpin b s) (before ++ after)

-- What the store knows of a block, against the pins that are out.
pub record Agrees (s : Pins) (h : Held) (b : ℕ) : Type 0 where
  pub counted : count_of s b ≡ pins_on b h
  pub positive : get s.active b ≢ some 0
  pub flagged :
      ((get s.writers b ≡ none) × (writers_on b h ≡ 0))
      ⊎ ((get s.writers b ≡ some tt) × (writers_on b h ≡ 1) × (pins_on b h ≡ 1))

pins_on-middle :
    (b c : ℕ) (e : Bool) (x y : Held)
    → pins_on b (x ++ ((c, e) ∷ y)) ≡ (if b == c then 1 else 0) + pins_on b (x ++ y)
pins_on-middle b c e [] y = refl
pins_on-middle b c e ((d, f) ∷ x) y = omega (arith, pins_on-middle b c e x y)

writers_on-middle :
    (b c : ℕ) (e : Bool) (x y : Held)
    → writers_on b (x ++ ((c, e) ∷ y)) ≡ (if b == c && e then 1 else 0) + writers_on b (x ++ y)
writers_on-middle b c e [] y = refl
writers_on-middle b c e ((d, f) ∷ x) y = omega (arith, writers_on-middle b c e x y)

writers-le-pins : (b : ℕ) (h : Held) → writers_on b h ≤ pins_on b h
writers-le-pins b [] = omega arith
writers-le-pins b ((c, e) ∷ h) = ground (arith, writers-le-pins b h)

pin-Agrees :
    (c : ℕ) (e : Bool) (s s' : Pins) (h : Held) (b : ℕ)
    → pin c e s ≡ ok s'
    → Agrees s h c
    → Agrees s h b
    → Agrees s' ((c, e) ∷ h) b
unfolding pin
pin-Agrees c e s s' h b p at_c at_b =
    ground (arith, get-put s.active c b (count_of s c + 1), get-put s.writers c b tt)

unpin-Agrees :
    (c : ℕ) (e : Bool) (s : Pins) (x y : Held) (b : ℕ)
    → Agrees s (x ++ ((c, e) ∷ y)) b
    → Agrees (unpin c s) (x ++ y) b
unfolding unpin
unpin-Agrees c e s x y b a = ground (
  arith,
  pins_on-middle b c e x y,
  writers_on-middle b c e x y,
  get-put s.active c b (count_of s c - 1),
  get-delete s.active c b,
  get-delete s.writers c b,
  writers-le-pins b (x ++ y),
)

-- In every state that a schedule reaches the store counts each block's pins exactly, flags exactly
-- the blocks with an exclusive pin, and such a pin is the only one on its block.
pub Schedule-Agrees : (s : Pins) (h : Held) (b : ℕ) → Schedule s h → Agrees s h b
unfolding count_of get
Schedule-Agrees _ _ b start = ground arith
Schedule-Agrees s _ b (enter {s = s'} {h = h} c e r p) =
    pin-Agrees c e s' s h b p (Schedule-Agrees s' h c r) (Schedule-Agrees s' h b r)
Schedule-Agrees _ _ b (leave {s} x y c e r) = unpin-Agrees c e s x y b (Schedule-Agrees s _ b r)

writers_on-member : (b : ℕ) (x y : Held) → 1 ≤ writers_on b (x ++ ((b, true) ∷ y))
writers_on-member b x y = ground (arith, writers_on-middle b b true x y)

-- Readers and writers exclude one another: while a pin that writes is out, every other attempt to
-- pin its block is refused.
pub writer_excludes :
    (s : Pins) (before after : Held) (b : ℕ) (exclusive : Bool)
    → Schedule s (before ++ ((b, true) ∷ after))
    → pin b exclusive s ≡ fault lock_busy
unfolding pin
writer_excludes s x y b e r =
    ground
      (arith, Schedule-Agrees s _ b r, (Schedule-Agrees s _ b r).flagged, writers_on-member b x y)

keep_if-mem :
    (p : StoredFile → Bool) (f : StoredFile) (x y : List StoredFile)
    → p f ≡ true
    → (x' y' : List StoredFile) × (keep_if p (x ++ (f ∷ y)) ≡ x' ++ (f ∷ y'))
keep_if-mem p f [] y h = ([], keep_if p y, rw h)
keep_if-mem p f (g ∷ x) y h =
    let (x', y', e) = keep_if-mem p f x y h in
    elim (Bool-cases (p g)) [
      | inl kept ↦ (g ∷ x', y', rw (kept, e))
      | inr dropped ↦ (x', y', rw (dropped, e))
    ]

pinned-is_some :
    (s : Pins) (h : Held) (b : ℕ) → Schedule s h → 1 ≤ pins_on b h → is_some (get s.active b) ≡ true
unfolding count_of
pinned-is_some s h b r some_pin = ground (arith, (Schedule-Agrees s h b r).counted)

busy :
    (t : Table ℕ) (b : ℕ)
    → is_some (get t b) ≡ true
    → elim t as (λ _. Bool) [ [] ↦ false | _ ∷ _ ↦ true ] ≡ true
unfolding get
busy [] b h = cc
busy (_ ∷ _) b h = refl

held-busy :
    (s : Pins) (h : Held)
    → Schedule s h
    → h ≢ []
    → elim s.active as (λ _. Bool) [ [] ↦ false | _ ∷ _ ↦ true ] ≡ true
held-busy s [] r ne = absurd (ne refl)
held-busy s ((c, e) ∷ h) r ne = busy s.active c (pinned-is_some s _ c r (ground arith))

stays_lem :
    (s : Pins) (h : Held) (retained : List ℕ) (f : StoredFile)
    → Schedule s h
    → ((f.suffix ≡ blk) × (1 ≤ pins_on f.stem h))
      ⊎ (((f.suffix ≡ blk) × (mem_of f.stem retained ≡ true)) ⊎ ((f.suffix ≡ staging) × (h ≢ [])))
    → stays s retained f ≡ true
unfolding stays
stays_lem s h retained f r (inl (e, out)) = ground (arith, pinned-is_some s h f.stem r out)
stays_lem s h retained f r (inr (inl (e, keep))) = ground arith
stays_lem s h retained f r (inr (inr (e, ne))) = rw e (rw (held-busy s h r ne))

-- Collection never deletes the object of a block that is pinned, in whatever state a schedule of
-- pins has reached, nor one that is retained, nor any staging file while some pin is out.
collect_keeps :
    (s : Pins) (h : Held) (retained : List ℕ) (f : StoredFile) (before after : List StoredFile)
    → Schedule s h
    → ((f.suffix ≡ blk) × (1 ≤ pins_on f.stem h))
      ⊎ (((f.suffix ≡ blk) × (mem_of f.stem retained ≡ true)) ⊎ ((f.suffix ≡ staging) × (h ≢ [])))
    → (x y : List StoredFile) × (collect s retained (before ++ (f ∷ after)) ≡ x ++ (f ∷ y))
unfolding collect
collect_keeps s h retained f before after r why =
    keep_if-mem (stays s retained) f before after (stays_lem s h retained f r why)
