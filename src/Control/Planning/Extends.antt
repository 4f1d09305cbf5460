-- ===== src/Control/Planning/Extends.antt =====
-- What the loop over the parts, in src/dfsha/control/access.py, makes of the operation.
use mathlib.Core.List.{append-nil}
use dfsha.Prelude.{
  ℕ, ◌≡◌, refl, sym, ap, ◌∙◌, subst, Option, some, List, [], ◌∷◌, ◌++◌, map, get_elem?,
}
use dfsha.Common.Domain.{Result, ok, ◌>>=◌, >>=-eq-ok, ok-injective}
use dfsha.Control.Table.{put}
use dfsha.Control.State.{
  WritePart, Meta, BlockRef, Upload, Write, WrittenPart, DataNode, Assignment,
}
use dfsha.Control.Leases.{Authority, Clock}
use dfsha.Control.Placement.{Liveness, plan_write}
use dfsha.Control.Sources.{
  PlannedPart, WriteIds, replacement_of, with_part, place_part, plan_part, plan_parts,
}
use dfsha.Control.Planning.{indices_of}

abbrev pub written_indices : List WrittenPart → List ℕ
written_indices parts = map (λ (p : WrittenPart). p.index) parts

-- what each part writes: its block, its place in it, its length and its digest
abbrev pub written_deltas : List WrittenPart → List WritePart
written_deltas parts = map (λ (p : WrittenPart). p.delta) parts

map-last {ℓ κ} :
    {A : Type ℓ} {B : Type κ} (f : A → B) (xs : List A) (x : A)
    → map f (xs ++ (x ∷ [])) ≡ map f xs ++ (f x ∷ [])
map-last f [] x = refl
map-last f (y ∷ ys) x = ap (◌∷◌ (f y)) (map-last f ys x)

append-step {ℓ} :
    {A : Type ℓ} (xs : List A) (x : A) (ys : List A) → (xs ++ (x ∷ [])) ++ ys ≡ xs ++ (x ∷ ys)
append-step [] x ys = refl
append-step (z ∷ zs) x ys = ap (◌∷◌ z) (append-step zs x ys)

-- What the loop over the parts keeps of the operation, and what it adds.
pub record Extends (op : Upload) (w : Write) (is : List ℕ) (ds : List WritePart) (op' : Upload)
    : Type 0 where
  pub same_id : op'.id ≡ op.id
  pub same_state : op'.state ≡ op.state
  pub write : Write
  pub written : op'.write ≡ some write
  pub fences : write.fences ≡ w.fences
  pub indices : written_indices write.parts ≡ written_indices w.parts ++ is
  pub deltas : written_deltas write.parts ≡ written_deltas w.parts ++ ds

with_part-Extends :
    (version file : ℕ) (base : Option BlockRef) (part : WritePart) (op : Upload) (w : Write)
    → op.write ≡ some w
    → Extends op w
        (part.block_index ∷ [])
        (part ∷ [])
        (with_part op base (replacement_of version file base part) part)
unfolding with_part replacement_of
with_part-Extends version file base part op w e =
    let p : WrittenPart = record {
      index = part.block_index;
      base = base;
      replacement = replacement_of version file base part;
      delta = part;
    } in
    record {
      same_id = refl;
      same_state = refl;
      write = record w { parts = w.parts ++ (p ∷ []) };
      written = rw e refl;
      fences = refl;
      indices = map-last (λ (q : WrittenPart). q.index) w.parts p;
      deltas = map-last (λ (q : WrittenPart). q.delta) w.parts p;
    }

module _ (a : Authority) (c : Clock) (limits : Liveness) (ids : WriteIds) (file : ℕ)
    (blocks : List BlockRef) where
  plan_part-op :
      (tx : Meta) (op : Upload) (part : WritePart) (plan : PlannedPart) (op' : Upload) (tx' : Meta)
      → plan_part a c limits tx ids file blocks op part ≡ ok (plan, op', tx')
      → (base : Option BlockRef) × (op'
          ≡ with_part op base (replacement_of (ids.version part.block_index) file base part) part)
  unfolding plan_part
  plan_part-op tx op part plan op' tx' e =
      let base = get_elem? blocks part.block_index in
      let replacement = replacement_of (ids.version part.block_index) file base part in
      let grown = with_part op base replacement part in
      let final : DataNode × Assignment × Meta → Result (PlannedPart × Upload × Meta) = λ r. ok (
        record { block = base; replacement = replacement; part = part; node = r.0.id },
        grown,
        record (r.2) { uploads = put (r.2).uploads op.id grown },
      ) in
      let planned = λ (placed : Meta). plan_write a c limits placed replacement op.id in
      let (placed, _, e1) =
        >>=-eq-ok (place_part a c limits tx (ids.task part.block_index) op.id base replacement)
          (λ placed. planned placed >>= final) e in
      let (r, _, e2) = >>=-eq-ok (planned placed) final e1 in
      (base, ap (λ (x : PlannedPart × Upload × Meta). x.1) (sym (ok-injective e2)))

  pub plan_parts-Extends :
      (tx : Meta) (op : Upload) (w : Write) (parts : List WritePart) (plans : List PlannedPart)
      (op' : Upload) (tx' : Meta)
      → op.write ≡ some w
      → plan_parts a c limits tx ids file blocks op parts ≡ ok (plans, op', tx')
      → Extends op w (indices_of parts) parts op'
  unfolding plan_parts
  plan_parts-Extends tx op w [] plans op' tx' has e =
      let same = ap (λ (x : List PlannedPart × Upload × Meta). x.1) (ok-injective e) in
      subst (Extends op w [] []) same (record {
        same_id = refl;
        same_state = refl;
        write = w;
        written = has;
        fences = refl;
        indices = sym (append-nil (written_indices w.parts));
        deltas = sym (append-nil (written_deltas w.parts));
      })
  plan_parts-Extends tx op w (part ∷ parts) plans op' tx' has e =
      let final : PlannedPart
          → List PlannedPart × Upload × Meta
          → Result (List PlannedPart × Upload × Meta) =
        λ plan r. ok (plan ∷ r.0, r.1, r.2) in
      let later =
        λ (op1 : Upload) (tx1 : Meta). plan_parts a c limits tx1 ids file blocks op1 parts in
      let ((plan, op1, tx1), first, e1) =
        >>=-eq-ok (plan_part a c limits tx ids file blocks op part)
          (λ r. later r.1 r.2 >>= final r.0) e in
      let (rest, e2, e3) = >>=-eq-ok (later op1 tx1) (final plan) e1 in
      let (base, is) = plan_part-op tx op part plan op1 tx1 first in
      let step : Extends op w (part.block_index ∷ []) (part ∷ []) op1 =
        subst (Extends op w (part.block_index ∷ []) (part ∷ [])) (sym is)
          (with_part-Extends (ids.version part.block_index) file base part op w has) in
      let same : rest.1 ≡ op' =
        ap (λ (x : List PlannedPart × Upload × Meta). x.1) (ok-injective e3) in
      let more = plan_parts-Extends tx1 op1 step.write parts rest.0 rest.1 rest.2 step.written e2 in
      subst (Extends op w (indices_of (part ∷ parts)) (part ∷ parts)) same (record {
        same_id = more.same_id ∙ step.same_id;
        same_state = more.same_state ∙ step.same_state;
        write = more.write;
        written = more.written;
        fences = more.fences ∙ step.fences;
        indices =
            more.indices
            ∙ (ap (λ is. is ++ indices_of parts) step.indices
                ∙ append-step (written_indices w.parts) part.block_index (indices_of parts));
        deltas =
            more.deltas
            ∙ (ap (λ ds. ds ++ parts) step.deltas
                ∙ append-step (written_deltas w.parts) part parts);
      })
