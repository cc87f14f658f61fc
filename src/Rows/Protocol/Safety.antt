-- ===== src/Rows/Protocol/Safety.antt =====
-- What the threads that share the row index can rely on, in every state that is reached.
use lumodb.Base.{ℕ, ◌<◌, ◌≡◌, ◌≢◌, ◌↔◌, inl, refl, sym, ap, ap₂, subst, ◌∙◌, some}
use lumodb.Probe.Scan.{IsSize}
use lumodb.Probe.Table.{Landed-absent}
use lumodb.Rows.Protocol.{
  row_bucket_empty, row_bucket_filled, row_bucket_writing, SharedBucket, Blocks, Row, slot, find,
  probing, System, Reach,
}
use lumodb.Rows.Protocol.Owners.{rows, Knows, written_by, Inv, slot-home}
use lumodb.Rows.Protocol.Later.{written-writing}
use lumodb.Rows.Protocol.Keeps.{Reach-Inv}

-- A published bucket leads to a block of the row.
abbrev pub HoldsRow : Blocks → SharedBucket → Row → Type 0
HoldsRow files b r =
    (b.state ≡ row_bucket_filled)
    × (b.fields 2 ≡ r.1)
    × (files.column_at (b.fields 0) (b.fields 3) ≡ r.0)

module _ {files : Blocks} {n : ℕ} {s : System} (inv : Inv files n s.memory s.pc) where
  -- The row that a published bucket leads to is the one that it was claimed for.
  pub HoldsRow-owner : (i : ℕ) (r : Row) → HoldsRow files (s.memory i) r → inv.owner i ≡ some r
  HoldsRow-owner i r (is_filled, number, column) =
      let (x, own, fields) = inv.filled i is_filled in
      let at : files.column_at ((s.memory i).fields 0) ((s.memory i).fields 3) ≡ x.0 =
        ap (λ y. files.column_at y ((s.memory i).fields 3)) (fields.0 0) ∙ fields.0 3 in
      own ∙ ap some (ap₂ (λ y z. (y, z)) (sym at ∙ column) (sym (fields.0 2) ∙ number))

-- In every reachable state at most one bucket is published for a row.
pub Reach-one_bucket :
    {files : Blocks} {n : ℕ} {s : System}
    → IsSize n
    → Reach files n s
    → (r : Row) (i j : ℕ) → i < n
    → j < n
    → HoldsRow files (s.memory i) r
    → HoldsRow files (s.memory j) r
    → i ≡ j
Reach-one_bucket v reached r i j hi hj at_i at_j =
    let inv = Reach-Inv v reached in
    inv.table.unique i j r r hi hj (HoldsRow-owner inv i r at_i) (HoldsRow-owner inv j r at_j) refl

-- In every reachable state a bucket is Writing exactly if some thread writes it, and two threads
-- never write the same bucket.
pub Reach-one_writer :
    {files : Blocks} {n : ℕ} {s : System}
    → IsSize n
    → Reach files n s
    → (i : ℕ)
    → (((s.memory i).state ≡ row_bucket_writing) ↔ ((t : ℕ) × (written_by (s.pc t) ≡ some i)))
      × ((t t' : ℕ) → written_by (s.pc t) ≡ some i → written_by (s.pc t') ≡ some i → t ≡ t')
Reach-one_writer {files} {n} {s} v reached i =
    let inv = Reach-Inv v reached in
    (
      (
        inv.writer i,
        λ (t, w). written-writing files n inv.owner s.memory (s.pc t) i (inv.knows t) w,
      ),
      λ t t' w w'. inv.alone t t' i w w',
    )

-- In a reachable state in which a bucket is published for a row, no thread that looks for the row
-- can report that it is absent.
pub Reach-no_lost_row :
    {files : Blocks} {n : ℕ} {s : System}
    → IsSize n
    → Reach files n s
    → (r : Row) (i : ℕ) → i < n
    → HoldsRow files (s.memory i) r
    → (t p : ℕ) → s.pc t ≡ probing (find r) p
    → p < n
    → (s.memory (slot n r p)).state ≢ row_bucket_empty
Reach-no_lost_row {files} {n} {s} v reached r i hi at_i t p at lt is_empty =
    let inv = Reach-Inv v reached in
    let (ok, passed) = subst (Knows files n inv.owner s.memory) at (inv.knows t) in
    let nothing = ap inv.owner (sym (slot-home v r p lt)) ∙ inv.empty (slot n r p) is_empty in
    Landed-absent rows n inv.table {k = r} {d = p}
      record { inside = lt; passed = passed; landing = inl nothing } nothing i r hi
      (HoldsRow-owner inv i r at_i) refl
