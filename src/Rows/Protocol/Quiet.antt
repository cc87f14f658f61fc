-- ===== src/Rows/Protocol/Quiet.antt =====
-- A thread that runs while no bucket is being written: `InsertOrUpdateRowBucket` ends and publishes
-- what it was given, and `FindRowBucket` finds it.
use lumodb.Base.{
  ℕ, zero, suc, ◌≤◌, ◌<◌, ◌≡◌, ◌≢◌, ◌⊎◌, inl, inr, refl, sym, ap, subst, ◌∙◌, Bool, true, false,
  none, some, arith,
}
use lumodb.Probe.Scan.{IsSize, IsSize-pos, at-lt}
use lumodb.Probe.Table.{start, home, Landed, land}
use lumodb.Probe.Writes.{none-ne-some, some_inj, Landed-stored}
use lumodb.Rows.Protocol.{
  Fields, field_count, row_bucket_empty, row_bucket_filled, row_bucket_writing, Memory, change,
  set_state, Blocks, Row, slot, Job, put, find, row_of, IsJob, judge, matches, Pc, idle, probing,
  reading, storing, stored, found, Move, begin, see_empty_put, pass, match_put, match_find, claim,
  replace, System, Reach,
}
use lumodb.Rows.Protocol.Owners.{rows, Owners, SameFields, Inv, slot-home}
use lumodb.Rows.Protocol.Later.{change_self}
use lumodb.Rows.Protocol.Writing.{Same-FieldsOf, Same-Whole}
use lumodb.Rows.Protocol.Keeps.{Reach-Inv}
use lumodb.Rows.Protocol.Safety.{HoldsRow, HoldsRow-owner}
use lumodb.Rows.Protocol.Progress.{Solo, stay, go_at, finish}
use lumodb.Rows.Protocol.Alone.{Solo-trans, judge-same, judge-other, Gets, then-Move, read_filled}

-- No bucket is being written, and one is empty.
pub record IsQuiet (n : ℕ) (m : Memory) : Type 0 where
  pub nobody : (i : ℕ) → (m i).state ≢ row_bucket_writing
  pub spare : ℕ
  pub inside : spare < n
  pub is_empty : (m spare).state ≡ row_bucket_empty

module _ {files : Blocks} {n : ℕ} (v : IsSize n) {s : System} (inv : Inv files n s.memory s.pc)
    (quiet : IsQuiet n s.memory) (t : ℕ) (at : s.pc t ≡ idle) where
  abbrev o : Owners
  o = inv.owner

  -- A bucket that is a row's is Filled, and one that is nobody's is Empty.
  owned_filled : (i : ℕ) (r : Row) → o i ≡ some r → (s.memory i).state ≡ row_bucket_filled
  owned_filled i r own =
      let taken : (s.memory i).state ≢ row_bucket_empty =
        λ h. none-ne-some (sym (inv.empty i h) ∙ own) in
      omega (arith, taken, quiet.nobody i, inv.states i)

  free_empty : (i : ℕ) → o i ≡ none → (s.memory i).state ≡ row_bucket_empty
  free_empty i free =
      let open_bucket : (s.memory i).state ≢ row_bucket_filled =
        λ h. none-ne-some (sym free ∙ (inv.filled i h).1) in
      omega (arith, open_bucket, quiet.nobody i, inv.states i)

  -- A whole snapshot of a row's bucket is judged as the row's block.
  snapshot_job :
      (i : ℕ) (r : Row) (full : Fields)
      → o i ≡ some r
      → SameFields field_count full (s.memory i).fields
      → IsJob files (put r full)
  snapshot_job i r full own same =
      let (x, own', ok) = inv.filled i (owned_filled i r own) in
      let eq : x ≡ r = some_inj (sym own' ∙ own) in
      let (fields, whole) = subst (λ y. IsJob files (put y (s.memory i).fields)) eq ok in
      (
        Same-FieldsOf files r full (s.memory i).fields same fields,
        Same-Whole files r full (s.memory i).fields same whole,
      )

  slot_is : (r : Row) (p : ℕ) → p < n → slot n r p ≡ home rows n r p
  slot_is r p lt = slot-home v r p lt

  -- The probe comes to the bucket where it lands.
  walk :
      (j : Job) {d : ℕ}
      → IsJob files j
      → Landed rows n o (row_of j) d
      → (q : ℕ) → q ≤ d
      → Gets files n t s (probing j q)
  walk j ok l zero le = then-Move (s.pc, stay, at) (begin ok)
  walk j {d} ok l (suc q) le =
      let lt : q < n = omega (arith, l.inside) in
      let (x, own, other) = l.passed q (omega arith) in
      let own' : o (slot n (row_of j) q) ≡ some x = ap o (slot_is (row_of j) q lt) ∙ own in
      let is_filled = owned_filled (slot n (row_of j) q) x own' in
      let (full, same, gets) = read_filled j q lt is_filled (walk j ok l q (omega arith)) in
      let (fields, whole) = snapshot_job (slot n (row_of j) q) x full own' same in
      then-Move gets (pass is_filled (judge-other files x full fields whole (row_of j) other))

  lands : (r : Row) → (d : ℕ) × Landed rows n o r d
  lands r =
      land rows n o r (IsSize-pos v)
        (quiet.spare, quiet.inside, inv.empty quiet.spare quiet.is_empty)

  -- The row's bucket at the landing spot is read and accepted.
  accepts :
      (j : Job) {d : ℕ}
      → IsJob files j
      → Landed rows n o (row_of j) d
      → o (slot n (row_of j) d) ≡ some (row_of j)
      → (full : Fields) × SameFields field_count full (s.memory (slot n (row_of j) d)).fields
        × Gets files n t s (reading j d field_count full)
        × (judge files (row_of j) full ≡ matches)
  accepts j {d} ok l own =
      let (full, same, gets) =
        read_filled j d l.inside (owned_filled (slot n (row_of j) d) (row_of j) own)
          (walk j ok l d (omega arith)) in
      let (fields, whole) = snapshot_job (slot n (row_of j) d) (row_of j) full own same in
      (full, same, gets, judge-same files (row_of j) full fields whole)

  abbrev Puts : Row → Fields → Type 0
  Puts r fields =
      (s' : System) × (i : ℕ) × (inserted : Bool) × Solo files n t s s'
      × (s'.pc t ≡ stored inserted)
      × (i < n)
      × ((s'.memory i).state ≡ row_bucket_filled)
      × SameFields field_count (s'.memory i).fields fields

  -- From the compare-exchange on.
  publishes :
      (r : Row) (fields : Fields) (i : ℕ) (inserted : Bool) {q : Pc}
      → i < n
      → Gets files n t s q
      → Move files n s.memory q
          (set_state s.memory i row_bucket_writing)
          (storing r fields i 0 inserted)
      → Puts r fields
  publishes r fields i inserted {q} lt (pc, run, stands) mv =
      let s1 : System = record {
        memory = set_state s.memory i row_bucket_writing;
        pc = change pc t (storing r fields i 0 inserted);
      } in
      let (s2, rest, done, f) =
        finish t i r fields inserted 6 0 s1 refl
          (change_self pc t (storing r fields i 0 inserted)) in
      (
        s2,
        i,
        inserted,
        Solo-trans run (go_at q stands mv rest),
        done,
        lt,
        f.is_filled,
        λ k less. f.new k (omega arith) less,
      )

  puts : (r : Row) (fields : Fields) → IsJob files (put r fields) → Puts r fields
  puts r fields ok =
      let (d, l) = lands r in
      let here = slot_is r d l.inside in
      let lt : slot n r d < n =
        subst (λ x. x < n) (sym here) (at-lt (start rows n r) d (IsSize-pos v)) in
      go d l here lt l.landing
    where
      go :
          (d : ℕ)
          → Landed rows n o r d
          → slot n r d ≡ home rows n r d
          → slot n r d < n
          → (o (home rows n r d) ≡ none) ⊎ ((x : Row) × (o (home rows n r d) ≡ some x) × (x ≡ r))
          → Puts r fields
      go d l here lt (inl free) =
          let empty = free_empty (slot n r d) (ap o here ∙ free) in
          publishes r fields (slot n r d) true lt
            (then-Move (walk (put r fields) ok l d (omega arith)) (see_empty_put l.inside empty))
            (claim empty)
      go d l here lt (inr (x, own, is_r)) =
          let own' : o (slot n r d) ≡ some r = ap o here ∙ own ∙ ap some is_r in
          let is_filled = owned_filled (slot n r d) r own' in
          let (full, same, gets, verdict) = accepts (put r fields) ok l own' in
          publishes r fields (slot n r d) false lt (then-Move gets (match_put is_filled verdict))
            (replace is_filled)

  finds :
      (r : Row) (i : ℕ)
      → i < n
      → HoldsRow files (s.memory i) r
      → (snapshot : Fields) × SameFields field_count snapshot (s.memory i).fields
        × Gets files n t s (found r snapshot)
  finds r i lt holds =
      let (d, l) = lands r in
      let own = HoldsRow-owner inv i r holds in
      let there : home rows n r d ≡ i = Landed-stored rows n inv.table l i r lt own refl in
      let here : slot n r d ≡ i = slot_is r d l.inside ∙ there in
      let own' : o (slot n r d) ≡ some r = ap o here ∙ own in
      let (full, same, gets, verdict) = accepts (find r) tt l own' in
      (
        full,
        subst (λ x. SameFields field_count full (s.memory x).fields) here same,
        then-Move gets (match_find (owned_filled (slot n r d) r own') verdict),
      )

-- From a reachable state in which no bucket is being written and one is empty, a thread that is
-- called to put a whole block of a row comes to its end by its own steps, and a bucket is then
-- published with exactly the fields that it was given.
pub Reach-put :
    {files : Blocks} {n : ℕ} {s : System}
    → IsSize n
    → Reach files n s
    → IsQuiet n s.memory
    → (t : ℕ) → s.pc t ≡ idle
    → (r : Row) (fields : Fields) → IsJob files (put r fields)
    → (s' : System) × (i : ℕ) × (inserted : Bool) × Solo files n t s s'
      × (s'.pc t ≡ stored inserted)
      × (i < n)
      × ((s'.memory i).state ≡ row_bucket_filled)
      × SameFields field_count (s'.memory i).fields fields
Reach-put v reached quiet t at r fields ok = puts v (Reach-Inv v reached) quiet t at r fields ok

-- From a reachable state in which no bucket is being written and one is empty, a thread that is
-- called to find a row for which a bucket is published comes to find exactly the bucket's fields by
-- its own steps.
pub Reach-find :
    {files : Blocks} {n : ℕ} {s : System}
    → IsSize n
    → Reach files n s
    → IsQuiet n s.memory
    → (t : ℕ) → s.pc t ≡ idle
    → (r : Row) (i : ℕ) → i < n
    → HoldsRow files (s.memory i) r
    → (s' : System) × (snapshot : Fields) × Solo files n t s s'
      × (s'.pc t ≡ found r snapshot)
      × SameFields field_count snapshot (s.memory i).fields
Reach-find {s = s} v reached quiet t at r i lt holds =
    let (snapshot, same, (pc, run, ends)) = finds v (Reach-Inv v reached) quiet t at r i lt holds in
    (record { memory = s.memory; pc = pc }, snapshot, run, ends, same)
