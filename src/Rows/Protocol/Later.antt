-- ===== src/Rows/Protocol/Later.antt =====
-- What one thread does to a bucket, and what the other threads still know after it.
use lumodb.Base.{ℕ, ◌≡◌, ◌≢◌, sym, ap, subst, ◌∙◌, some, ==-refl, ==-ne, ℕ_discrete}
use lumodb.Probe.Table.{home}
use lumodb.Probe.Writes.{some_inj, none-ne-some}
use lumodb.Rows.Protocol.{
  Fields, Memory, Blocks, Row, slot, FieldsOf, row_of, Pc, idle, probing, reading, claiming,
  replacing, storing, stored, found, absent, failed, row_bucket_writing, change,
}
use lumodb.Rows.Protocol.Owners.{rows, Owners, SameFields, Seen, Passed, Knows, written_by}

pub change_self {ℓ} : {A : Type ℓ} (f : ℕ → A) (i : ℕ) (a : A) → change f i a i ≡ a
change_self f i a = rw (==-refl i)

pub change_ne {ℓ} : {A : Type ℓ} (f : ℕ → A) (i j : ℕ) (a : A) → j ≢ i → change f i a j ≡ f j
change_ne f i j a h = rw (==-ne j i h)

-- A property of a changed family, at the changed member and at the others.
pub change_ind {ℓ κ} :
    {A : Type ℓ} (P : ℕ → A → Type κ) (f : ℕ → A) (i : ℕ) (a : A)
    → P i a
    → ((j : ℕ) → j ≢ i → P j (f j))
    → (j : ℕ) → P j (change f i a j)
change_ind P f i a here others j = elim (ℕ_discrete j i) [
  | yes e ↦ subst (λ x. P x (change f i a x)) (sym e) (subst (P i) (sym (change_self f i a)) here)
  | no ne ↦ subst (P j) (sym (change_ne f i j a ne)) (others j ne)
]

-- An owner, once there, stays; and so do the fields of its blocks.
pub record Later (files : Blocks) (i : ℕ) (owner : Owners) (m : Memory) (owner' : Owners)
    (m' : Memory) : Type 0 where
  pub other_owner : (j : ℕ) → j ≢ i → owner' j ≡ owner j
  pub other_bucket : (j : ℕ) → j ≢ i → m' j ≡ m j
  pub grows : (r : Row) → owner i ≡ some r → owner' i ≡ some r
  pub holds :
      (r : Row) → owner i ≡ some r → FieldsOf files r (m i).fields → FieldsOf files r (m' i).fields

module _ (files : Blocks) (i : ℕ) {owner : Owners} {m : Memory} {owner' : Owners} {m' : Memory}
    (l : Later files i owner m owner' m') where
  grows_at : (j : ℕ) (r : Row) → owner j ≡ some r → owner' j ≡ some r
  grows_at j r o = elim (ℕ_discrete j i) [
    | yes e ↦ ap owner' e ∙ l.grows r (ap owner (sym e) ∙ o)
    | no ne ↦ l.other_owner j ne ∙ o
  ]

  holds_at :
      (j : ℕ) (r : Row)
      → owner j ≡ some r
      → FieldsOf files r (m j).fields
      → FieldsOf files r (m' j).fields
  holds_at j r o h = elim (ℕ_discrete j i) [
    | yes e ↦
        subst (λ x. FieldsOf files r (m' x).fields) (sym e)
          (l.holds r (ap owner (sym e) ∙ o) (subst (λ x. FieldsOf files r (m x).fields) e h))
    | no ne ↦ subst (λ b. FieldsOf files r b.fields) (sym (l.other_bucket j ne)) h
  ]

  Passed-later : (n : ℕ) (r : Row) (p : ℕ) → Passed n owner r p → Passed n owner' r p
  Passed-later n r p h q lt =
      let (x, full, other) = h q lt in (x, grows_at (home rows n r q) x full, other)

  Seen-later :
      (j k : ℕ) (snapshot : Fields)
      → Seen files owner m j k snapshot
      → Seen files owner' m' j k snapshot
  Seen-later j k snapshot h = record {
    row = h.row;
    owned = grows_at j h.row h.owned;
    holds = holds_at j h.row h.owned h.holds;
    read = h.read;
  }

  -- What a thread knows stays true when another thread acts on a bucket that this one does not write.
  pub Knows-later :
      (n : ℕ) (p : Pc) → written_by p ≢ some i → Knows files n owner m p → Knows files n owner' m' p
  Knows-later n idle w h = h
  Knows-later n (probing j p) w (job, passed) = (job, Passed-later n (row_of j) p passed)
  Knows-later n (reading j p k snapshot) w (job, passed, lt, seen) = (
    job,
    Passed-later n (row_of j) p passed,
    lt,
    Seen-later (slot n (row_of j) p) k snapshot seen,
  )
  Knows-later n (claiming r fields p) w (job, passed, lt) = (job, Passed-later n r p passed, lt)
  Knows-later n (replacing r fields p) w (job, own) = (job, grows_at (slot n r p) r own)
  Knows-later n (storing r fields j k inserted) w (job, own, writes, first, le) =
      let same = l.other_bucket j (λ e. w (ap some e)) in
      (
        job,
        grows_at j r own,
        ap (λ b. b.state) same ∙ writes,
        subst (λ b. SameFields k b.fields fields) (sym same) first,
        le,
      )
  Knows-later n (stored inserted) w h = h
  Knows-later n (found r snapshot) w h = h
  Knows-later n (absent r) w h = h
  Knows-later n failed w h = h

-- A thread writes a bucket only while it is Writing.
pub written-writing :
    (files : Blocks) (n : ℕ) (owner : Owners) (m : Memory) (p : Pc) (i : ℕ)
    → Knows files n owner m p
    → written_by p ≡ some i
    → (m i).state ≡ row_bucket_writing
written-writing files n owner m (storing r fields j k inserted) i (job, own, writes, first, le) w =
    subst (λ x. (m x).state ≡ row_bucket_writing) (some_inj w) writes
written-writing files n owner m idle i h w = absurd (none-ne-some w)
written-writing files n owner m (probing j p) i h w = absurd (none-ne-some w)
written-writing files n owner m (reading j p k snapshot) i h w = absurd (none-ne-some w)
written-writing files n owner m (claiming r fields p) i h w = absurd (none-ne-some w)
written-writing files n owner m (replacing r fields p) i h w = absurd (none-ne-some w)
written-writing files n owner m (stored inserted) i h w = absurd (none-ne-some w)
written-writing files n owner m (found r snapshot) i h w = absurd (none-ne-some w)
written-writing files n owner m (absent r) i h w = absurd (none-ne-some w)
written-writing files n owner m failed i h w = absurd (none-ne-some w)
