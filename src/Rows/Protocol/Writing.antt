-- ===== src/Rows/Protocol/Writing.antt =====
-- The moves that write a bucket keep the invariant: the compare-exchanges, the stores of the fields
-- and the last store of the state.
use lumodb.Base.{
  ℕ, zero, suc, ◌<◌, ◌≡◌, ◌≢◌, inl, refl, sym, ap, ap₂, subst, ◌∙◌, Bool, true, false, none, some,
  arith, dec_lt, ℕ_discrete,
}
use lumodb.Format.Rows.{shard_for_row}
use lumodb.Hash.{hash_string}
use lumodb.Probe.Scan.{IsSize}
use lumodb.Probe.Table.{home, Other, IsTable, write}
use lumodb.Probe.Writes.{some_inj, none-ne-some, write-IsTable}
use lumodb.Rows.Protocol.{
  Fields, field_count, row_bucket_empty, row_bucket_filled, row_bucket_writing, SharedBucket,
  Memory, change, set_state, set_field, Blocks, Row, Whole, IsJob, put, FieldOf, FieldsOf, Pc,
  claiming, storing, stored,
}
use lumodb.Rows.Protocol.Owners.{
  rows, Owners, FirstFieldsOf, SameFields, Passed, Knows, written_by, Inv,
}
use lumodb.Rows.Protocol.Later.{change_self, change_ne, change_ind}
use lumodb.Rows.Protocol.Acts.{unwritten, acts}

-- One more probe that met another row.
pub Passed-suc :
    (n : ℕ) (owner : Owners) (r : Row) (p : ℕ)
    → Passed n owner r p
    → Other rows n owner r (home rows n r p)
    → Passed n owner r (suc p)
Passed-suc n owner r p h here q lt = elim (dec_lt q p) [
  | yes less ↦ h q less
  | no ge ↦ subst (λ x. Other rows n owner r (home rows n r x)) (omega arith) here
]

-- One more field that is the row's.
pub First-suc :
    (files : Blocks) (r : Row) (k : ℕ) (fields : Fields) (v : ℕ)
    → FirstFieldsOf files r k fields
    → FieldOf files r k v
    → FirstFieldsOf files r (suc k) (change fields k v)
First-suc files r k fields v h here q lt = elim (ℕ_discrete q k) [
  | yes e ↦
      change_ind (λ x y. x < suc k → FieldOf files r x y) fields k v (λ _. here)
        (λ j ne less. h j (omega arith)) q lt
  | no ne ↦ subst (FieldOf files r q) (sym (change_ne fields k q v ne)) (h q (omega arith))
]

pub no_probe : (n : ℕ) (owner : Owners) (r : Row) → Passed n owner r 0
no_probe n owner r q lt = absurd (omega arith)

-- One more field that is stored.
pub Same-suc :
    (k : ℕ) (now wanted : Fields)
    → SameFields k now wanted
    → SameFields (suc k) (change now k (wanted k)) wanted
Same-suc k now wanted h q lt = elim (ℕ_discrete q k) [
  | yes e ↦ ap (change now k (wanted k)) e ∙ change_self now k (wanted k) ∙ ap wanted (sym e)
  | no ne ↦ change_ne now k q (wanted k) ne ∙ h q (omega arith)
]

-- A bucket with the fields of a block of the row has all that is asked of one; the fields after
-- the sixth mean nothing.
pub Same-FieldsOf :
    (files : Blocks) (r : Row) (now wanted : Fields)
    → SameFields field_count now wanted
    → FieldsOf files r wanted
    → FieldsOf files r now
Same-FieldsOf files r now wanted h ok zero = h 0 (omega arith) ∙ ok 0
Same-FieldsOf files r now wanted h ok (suc zero) = h 1 (omega arith) ∙ ok 1
Same-FieldsOf files r now wanted h ok (suc (suc zero)) = h 2 (omega arith) ∙ ok 2
Same-FieldsOf files r now wanted h ok (suc (suc (suc zero))) =
    ap (files.column_at (shard_for_row files.shards (hash_string r.0) r.1)) (h 3 (omega arith))
    ∙ ok 3
Same-FieldsOf files r now wanted h ok (suc (suc (suc (suc k)))) = tt

pub Same-Whole :
    (files : Blocks) (r : Row) (now wanted : Fields)
    → SameFields field_count now wanted
    → Whole files r wanted
    → Whole files r now
Same-Whole files r now wanted h (shard, valid, hash, row, size) =
    let h0 = h 0 (omega arith) in
    let h3 = h 3 (omega arith) in
    (
      subst (λ x. x < files.shards) (sym h0) shard,
      ap₂ files.valid_at h0 h3 ∙ valid,
      ap₂ files.hash_at h0 h3 ∙ hash,
      ap₂ files.row_at h0 h3 ∙ row,
      ap₂ files.size_at h0 h3 ∙ size ∙ sym (h 4 (omega arith)),
    )

module _ {files : Blocks} {n : ℕ} (v : IsSize n) {m : Memory} {pc : ℕ → Pc} (inv : Inv files n m pc)
    (t : ℕ) where
  abbrev pub o : Owners
  o = inv.owner

  -- What the moved thread knows, when it stands at `q`.
  pub known_at : (q : Pc) → pc t ≡ q → Knows files n o m q
  known_at q e = subst (Knows files n o m) e (inv.knows t)

  -- A claimed bucket becomes the row's.
  pub claim-Inv :
      (r : Row) (fields : Fields) (p i : ℕ)
      → i ≡ home rows n r p
      → pc t ≡ claiming r fields p
      → (m i).state ≡ row_bucket_empty
      → Inv files n (set_state m i row_bucket_writing) (change pc t (storing r fields i 0 true))
  claim-Inv r fields p i at e is_empty =
      let (ok, passed, lt) = known_at (claiming r fields p) e in
      acts inv {t = t} {p' = storing r fields i 0 true} {i = i} {owner' = change o i (some r)}
        record {
          later = record {
            other_owner = λ j ne. change_ne o i j (some r) ne;
            other_bucket = λ j ne. change_ne m i j bucket ne;
            grows = λ x own. absurd (none-ne-some (sym unowned ∙ own));
            holds = λ x own. absurd (none-ne-some (sym unowned ∙ own));
          };
          table' =
              subst (λ x. IsTable rows n (write rows n o x r)) (sym at)
                (write-IsTable rows n inv.table {e = r} {d = p}
                  record { inside = lt; passed = passed; landing = inl (ap o (sym at) ∙ unowned) });
          valid = omega (arith, now);
          taken = λ h. absurd (omega (arith, now, h));
          filled' = λ h. absurd (omega (arith, now, h));
          mine = λ u ne. unwritten inv i u (λ h. absurd (omega (arith, is_empty, h)));
          before = λ j h. absurd (none-ne-some (sym (ap written_by e) ∙ h));
          after = λ j h. sym (some_inj h);
          writes = λ h. refl;
          known =
              (ok, change_self o i (some r), now, (λ q less. absurd (omega arith)), omega arith);
        }
    where
      unowned : o i ≡ none
      unowned = inv.empty i is_empty

      bucket : SharedBucket
      bucket = record (m i) { state = row_bucket_writing }

      now : (set_state m i row_bucket_writing i).state ≡ row_bucket_writing
      now = ap (λ b. b.state) (change_self m i bucket)

  -- A replaced bucket stays the row's.
  pub replace-Inv :
      (r : Row) (fields : Fields) (i : ℕ)
      → IsJob files (put r fields)
      → o i ≡ some r
      → written_by (pc t) ≡ none
      → (m i).state ≡ row_bucket_filled
      → Inv files n (set_state m i row_bucket_writing) (change pc t (storing r fields i 0 false))
  replace-Inv r fields i ok own w is_filled =
      acts inv {t = t} {p' = storing r fields i 0 false} {i = i} {owner' = o} record {
        later = record {
          other_owner = λ j ne. refl;
          other_bucket = λ j ne. change_ne m i j bucket ne;
          grows = λ x h. h;
          holds = λ x h holds.
              subst (λ b. FieldsOf files x b.fields) (sym (change_self m i bucket)) holds;
        };
        table' = inv.table;
        valid = omega (arith, now);
        taken = λ h. absurd (omega (arith, now, h));
        filled' = λ h. absurd (omega (arith, now, h));
        mine = λ u ne. unwritten inv i u (λ h. absurd (omega (arith, is_filled, h)));
        before = λ j h. absurd (none-ne-some (sym w ∙ h));
        after = λ j h. sym (some_inj h);
        writes = λ h. refl;
        known = (ok, own, now, (λ q less. absurd (omega arith)), omega arith);
      }
    where
      bucket : SharedBucket
      bucket = record (m i) { state = row_bucket_writing }

      now : (set_state m i row_bucket_writing i).state ≡ row_bucket_writing
      now = ap (λ b. b.state) (change_self m i bucket)

  -- Only the thread that writes a bucket writes it.
  only_mine : (i : ℕ) → written_by (pc t) ≡ some i → (u : ℕ) → u ≢ t → written_by (pc u) ≢ some i
  only_mine i w u ne h = ne (inv.alone u t i h w)

  -- A stored field is one of the row's.
  pub store-Inv :
      (r : Row) (fields : Fields) (i k : ℕ) (inserted : Bool)
      → k < field_count
      → pc t ≡ storing r fields i k inserted
      → Inv files n (set_field m i k (fields k)) (change pc t (storing r fields i (suc k) inserted))
  store-Inv r fields i k inserted lt e =
      let (ok, own, writing, first, le) = known_at (storing r fields i k inserted) e in
      let now = ap (λ b. b.state) here ∙ writing in
      acts inv {t = t} {p' = storing r fields i (suc k) inserted} {i = i} {owner' = o} record {
        later = record {
          other_owner = λ j ne. refl;
          other_bucket = λ j ne. change_ne m i j bucket ne;
          grows = λ x h. h;
          holds = λ x h holds.
              subst (λ b. FieldsOf files x b.fields) (sym here)
                (change_ind (FieldOf files x) (m i).fields k (fields k)
                  (subst (λ y. FieldOf files y k (fields k)) (some_inj (sym own ∙ h)) (ok.0 k))
                  (λ j ne. holds j));
        };
        table' = inv.table;
        valid = omega (arith, now);
        taken = λ h. absurd (omega (arith, now, h));
        filled' = λ h. absurd (omega (arith, now, h));
        mine = only_mine i (ap written_by e);
        before = λ j h. sym (some_inj (sym (ap written_by e) ∙ h));
        after = λ j h. sym (some_inj h);
        writes = λ h. refl;
        known = (
          ok,
          own,
          now,
          subst (λ b. SameFields (suc k) b.fields fields) (sym here)
              (Same-suc k (m i).fields fields first),
          omega arith,
        );
      }
    where
      bucket : SharedBucket
      bucket = record (m i) { fields = change (m i).fields k (fields k) }

      here : set_field m i k (fields k) i ≡ bucket
      here = change_self m i bucket

  -- A published bucket holds the fields of a block of its row.
  pub publish-Inv :
      (r : Row) (fields : Fields) (i : ℕ) (inserted : Bool)
      → pc t ≡ storing r fields i field_count inserted
      → Inv files n (set_state m i row_bucket_filled) (change pc t (stored inserted))
  publish-Inv r fields i inserted e =
      let (ok, own, writing, first, le) = known_at (storing r fields i field_count inserted) e in
      let all =
        subst (λ b. IsJob files (put r b.fields)) (sym here)
          (
            Same-FieldsOf files r (m i).fields fields first ok.0,
            Same-Whole files r (m i).fields fields first ok.1,
          ) in
      acts inv {t = t} {p' = stored inserted} {i = i} {owner' = o} record {
        later = record {
          other_owner = λ j ne. refl;
          other_bucket = λ j ne. change_ne m i j bucket ne;
          grows = λ x h. h;
          holds = λ x h holds. subst (λ b. FieldsOf files x b.fields) (sym here) holds;
        };
        table' = inv.table;
        valid = omega (arith, now);
        taken = λ h. absurd (omega (arith, now, h));
        filled' = λ h. (r, own, all);
        mine = only_mine i (ap written_by e);
        before = λ j h. sym (some_inj (sym (ap written_by e) ∙ h));
        after = λ j h. absurd (none-ne-some h);
        writes = λ h. absurd (omega (arith, now, h));
        known = tt;
      }
    where
      bucket : SharedBucket
      bucket = record (m i) { state = row_bucket_filled }

      here : set_state m i row_bucket_filled i ≡ bucket
      here = change_self m i bucket

      now : (set_state m i row_bucket_filled i).state ≡ row_bucket_filled
      now = ap (λ b. b.state) here
