-- ===== src/Rows/Protocol/Acts.antt =====
-- One thread's move, seen by all: a move that writes nothing, and one that acts on a bucket.
use lumodb.Base.{ℕ, ◌≤◌, ◌≡◌, ◌≢◌, ◌⊎◌, inl, inr, refl, sym, ap, subst, ◌∙◌, none, some, ℕ_discrete}
use lumodb.Probe.Table.{IsTable}
use lumodb.Rows.Protocol.{
  Memory, Blocks, Row, IsJob, put, Pc, row_bucket_empty, row_bucket_filled, row_bucket_writing,
  change,
}
use lumodb.Rows.Protocol.Owners.{rows, Owners, Knows, written_by, Inv}
use lumodb.Rows.Protocol.Later.{
  change_self, change_ne, change_ind, Later, Knows-later, written-writing,
}

module _ {files : Blocks} {n : ℕ} {m : Memory} {pc : ℕ → Pc} (inv : Inv files n m pc) where
  -- A bucket that is not Writing is written by nobody.
  pub unwritten : (i u : ℕ) → (m i).state ≢ row_bucket_writing → written_by (pc u) ≢ some i
  unwritten i u h w = h (written-writing files n inv.owner m (pc u) i (inv.knows u) w)

  module _ (t : ℕ) (p' : Pc) where
    -- A thread that writes a bucket before the move, if the moved one writes the same as before.
    same_written :
        written_by p' ≡ written_by (pc t)
        → (u : ℕ) → written_by (change pc t p' u) ≡ written_by (pc u)
    same_written e = change_ind (λ u p. written_by p ≡ written_by (pc u)) pc t p' e (λ u ne. refl)

    pub quiet :
        written_by p' ≡ written_by (pc t)
        → Knows files n inv.owner m p'
        → Inv files n m (change pc t p')
    quiet e k = record {
      owner = inv.owner;
      table = inv.table;
      empty = inv.empty;
      filled = inv.filled;
      states = inv.states;
      writer = λ i h. let (u, w) = inv.writer i h in (u, same_written e u ∙ w);
      alone = λ u u' i w w'.
          inv.alone u u' i (sym (same_written e u) ∙ w) (sym (same_written e u') ∙ w');
      knows = change_ind (λ u p. Knows files n inv.owner m p) pc t p' k (λ u ne. inv.knows u);
    }

  -- What a move has to show when it acts on the bucket `i`.
  pub record Act (t : ℕ) (p' : Pc) (i : ℕ) (owner' : Owners) (m' : Memory) : Type 0 where
    pub later : Later files i inv.owner m owner' m'
    pub table' : IsTable rows n owner'
    pub valid : (m' i).state ≤ row_bucket_writing
    pub taken : (m' i).state ≢ row_bucket_empty
    pub filled' :
        (m' i).state ≡ row_bucket_filled
        → (r : Row) × (owner' i ≡ some r) × IsJob files (put r (m' i).fields)
    pub mine : (u : ℕ) → u ≢ t → written_by (pc u) ≢ some i
    pub before : (j : ℕ) → written_by (pc t) ≡ some j → j ≡ i
    pub after : (j : ℕ) → written_by p' ≡ some j → j ≡ i
    pub writes : (m' i).state ≡ row_bucket_writing → written_by p' ≡ some i
    pub known : Knows files n owner' m' p'

  module _ {t : ℕ} {p' : Pc} {i : ℕ} {owner' : Owners} {m' : Memory}
      (act : Act t p' i owner' m') where
    abbrev l : Later files i inv.owner m owner' m'
    l = act.later

    state_at : (j : ℕ) → j ≢ i → (m' j).state ≡ (m j).state
    state_at j ne = ap (λ b. b.state) (l.other_bucket j ne)

    written_now :
        (u j : ℕ) → u ≢ t → written_by (pc u) ≡ some j → written_by (change pc t p' u) ≡ some j
    written_now u j ne w = ap written_by (change_ne pc t u p' ne) ∙ w

    empty' : (j : ℕ) → (m' j).state ≡ row_bucket_empty → owner' j ≡ none
    empty' j h = elim (ℕ_discrete j i) [
      | yes e ↦ absurd (act.taken (ap (λ x. (m' x).state) (sym e) ∙ h))
      | no ne ↦ l.other_owner j ne ∙ inv.empty j (sym (state_at j ne) ∙ h)
    ]

    states' : (j : ℕ) → (m' j).state ≤ row_bucket_writing
    states' j = elim (ℕ_discrete j i) [
      | yes e ↦ subst (λ x. (m' x).state ≤ row_bucket_writing) (sym e) act.valid
      | no ne ↦ subst (λ x. x ≤ row_bucket_writing) (sym (state_at j ne)) (inv.states j)
    ]

    filled_all :
        (j : ℕ)
        → (m' j).state ≡ row_bucket_filled
        → (r : Row) × (owner' j ≡ some r) × IsJob files (put r (m' j).fields)
    filled_all j h = elim (ℕ_discrete j i) [
      | yes e ↦
          subst (λ x. (r : Row) × (owner' x ≡ some r) × IsJob files (put r (m' x).fields)) (sym e)
            (act.filled' (ap (λ x. (m' x).state) (sym e) ∙ h))
      | no ne ↦
          let (r, own, fields) = inv.filled j (sym (state_at j ne) ∙ h) in
          (
            r,
            l.other_owner j ne ∙ own,
            subst (λ b. IsJob files (put r b.fields)) (sym (l.other_bucket j ne)) fields,
          )
    ]

    writer' :
        (j : ℕ)
        → (m' j).state ≡ row_bucket_writing
        → (u : ℕ) × (written_by (change pc t p' u) ≡ some j)
    writer' j h = elim (ℕ_discrete j i) [
      | yes e ↦ (
        t,
        ap written_by (change_self pc t p')
            ∙ act.writes (ap (λ x. (m' x).state) (sym e) ∙ h)
            ∙ ap some (sym e),
      )
      | no ne ↦
          let (u, w) = inv.writer j (sym (state_at j ne) ∙ h) in
          (u, written_now u j (λ e. ne (act.before j (ap (λ x. written_by (pc x)) (sym e) ∙ w))) w)
    ]

    -- After the move a thread writes what it wrote before, or it is the mover, at its bucket.
    split :
        (u j : ℕ)
        → written_by (change pc t p' u) ≡ some j
        → ((u ≡ t) × (j ≡ i)) ⊎ ((u ≢ t) × (j ≢ i) × (written_by (pc u) ≡ some j))
    split u j w = elim (ℕ_discrete u t) [
      | yes e ↦
          let now = sym (ap written_by (ap (change pc t p') e ∙ change_self pc t p')) ∙ w in
          inl (e, act.after j now)
      | no ne ↦
          let old = sym (ap written_by (change_ne pc t u p' ne)) ∙ w in
          inr (ne, (λ e. act.mine u ne (old ∙ ap some e)), old)
    ]

    alone' :
        (u u' j : ℕ)
        → written_by (change pc t p' u) ≡ some j
        → written_by (change pc t p' u') ≡ some j
        → u ≡ u'
    alone' u u' j w w' = meet (split u j w) (split u' j w')
      where
        Split : ℕ → Type 0
        Split x = ((x ≡ t) × (j ≡ i)) ⊎ ((x ≢ t) × (j ≢ i) × (written_by (pc x) ≡ some j))

        meet : Split u → Split u' → u ≡ u'
        meet (inl (e, at_i)) (inl (e', at_i')) = e ∙ sym e'
        meet (inl (e, at_i)) (inr (ne, off, old)) = absurd (off at_i)
        meet (inr (ne, off, old)) (inl (e, at_i)) = absurd (off at_i)
        meet (inr (ne, off, old)) (inr (ne', off', old')) = inv.alone u u' j old old'

    pub acts : Inv files n m' (change pc t p')
    acts = record {
      owner = owner';
      table = act.table';
      empty = empty';
      filled = filled_all;
      states = states';
      writer = writer';
      alone = alone';
      knows =
          change_ind (λ u p. Knows files n owner' m' p) pc t p' act.known
            (λ u ne. Knows-later files i l n (pc u) (act.mine u ne) (inv.knows u));
    }
