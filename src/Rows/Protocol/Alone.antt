-- ===== src/Rows/Protocol/Alone.antt =====
-- The steps of one thread that write nothing, while no bucket is being written: the probe for a row
-- walks over the buckets of other rows.
use lumodb.Base.{
  ℕ, zero, suc, ◌+◌, ◌<◌, ◌≡◌, inl, inr, refl, sym, ap, ap₂, subst, ◌∙◌, true, false, ◌&&◌, arith,
  ◌==◌, ==-refl, ==-eq, ltb-true, bytes_eq, bytes_eq_refl, bytes_eq-eq, Bool-cases,
}
use lumodb.Hash.{hash_string}
use lumodb.Rows.Protocol.{
  Fields, field_count, row_bucket_filled, change, Blocks, Row, Whole, slot, FieldsOf, Job, row_of,
  matches, differs, judge, Pc, probing, reading, Move, see_filled, load, System,
}
use lumodb.Rows.Protocol.Owners.{same_row, same_row_refl, SameFields}
use lumodb.Rows.Protocol.Later.{change_self}
use lumodb.Rows.Protocol.Judging.{
  verdict, ours, shard, block, column, judge-verdict, and_true, true-ne-false,
}
use lumodb.Rows.Protocol.Writing.{Same-suc}
use lumodb.Rows.Protocol.Progress.{Solo, stay, go, go_at}

pub Solo-trans :
    {files : Blocks} {n t : ℕ} {a b c : System}
    → Solo files n t a b
    → Solo files n t b c
    → Solo files n t a c
Solo-trans stay k = k
Solo-trans (go mv h) k = go mv (Solo-trans h k)

module _ (files : Blocks) (x : Row) (f : Fields) (ok : FieldsOf files x f)
    (whole : Whole files x f) where
  -- Whole fields of a row lead to a block that passes the checks for a row with its number.
  block-true : (r : Row) → x.1 ≡ r.1 → block files r f ≡ true
  block-true r same =
      let (inside, valid, hash, number, size) = whole in
      let h : (files.hash_at (f 0) (f 3) == f 1) ≡ true =
        ap₂ (λ a b. a == b) hash (ok 1) ∙ ==-refl (hash_string x.0) in
      let w : (files.row_at (f 0) (f 3) == r.1) ≡ true =
        ap (λ a. a == r.1) (number ∙ same) ∙ ==-refl r.1 in
      let z : (files.size_at (f 0) (f 3) == f 4) ≡ true = ap (λ a. a == f 4) size ∙ ==-refl (f 4) in
      rw (valid, h, w, z) refl

  stored_column : files.column_at (f 0) (f 3) ≡ x.0
  stored_column = ap (λ s. files.column_at s (f 3)) (ok 0) ∙ ok 3

  shard-true : (r : Row) → shard files r f ≡ true
  shard-true r = ltb-true (f 0) files.shards whole.0

  -- They are accepted for the row, and passed over for another one.
  pub judge-same : judge files x f ≡ matches
  judge-same =
      let a : ours files x f ≡ true =
        ap₂ (λ y z. (y == hash_string x.0) && (z == x.1)) (ok 1) (ok 2)
        ∙ ap₂ (λ y z. y && z) (==-refl (hash_string x.0)) (==-refl x.1) in
      let d : column files x f ≡ true =
        ap (λ c. bytes_eq c x.0) stored_column ∙ bytes_eq_refl x.0 in
      judge-verdict files x f
      ∙ ap (λ y. verdict y (shard files x f) (block files x f) (column files x f)) a
      ∙ ap (λ y. verdict true y (block files x f) (column files x f)) (shard-true x)
      ∙ ap (λ y. verdict true true y (column files x f)) (block-true x refl)
      ∙ ap (λ y. verdict true true true y) d

  pub judge-other : (r : Row) → same_row x r ≡ false → judge files r f ≡ differs
  judge-other r other = elim (Bool-cases (ours files r f)) [
    | inr a ↦
        judge-verdict files r f
        ∙ ap (λ y. verdict y (shard files r f) (block files r f) (column files r f)) a
    | inl a ↦
        let (hash, number) = and_true (f 1 == hash_string r.0) (f 2 == r.1) a in
        let same : x.1 ≡ r.1 = sym (ok 2) ∙ ==-eq (f 2) r.1 number in
        let d : column files r f ≡ false = elim (Bool-cases (column files r f)) [
          | inr d ↦ d
          | inl d ↦
              let name : x.0 ≡ r.0 =
                sym stored_column ∙ bytes_eq-eq (files.column_at (f 0) (f 3)) r.0 d in
              let eq : x ≡ r = ap₂ (λ y z. (y, z)) name same in
              absurd
                (true-ne-false (same_row x r) (ap (λ y. same_row y r) eq ∙ same_row_refl r) other)
        ] in
        judge-verdict files r f
        ∙ ap (λ y. verdict y (shard files r f) (block files r f) (column files r f)) a
        ∙ ap (λ y. verdict true y (block files r f) (column files r f)) (shard-true r)
        ∙ ap (λ y. verdict true true y (column files r f)) (block-true r same)
        ∙ ap (λ y. verdict true true true y) d
  ]

-- The thread can get to `p` by its own steps without writing.
abbrev pub Gets : Blocks → ℕ → ℕ → System → Pc → Type 0
Gets files n t s p =
    (pc : ℕ → Pc) × Solo files n t s (record { memory = s.memory; pc = pc }) × (pc t ≡ p)

module _ {files : Blocks} {n : ℕ} {s : System} {t : ℕ} where
  pub then-Move :
      {q p : Pc} → Gets files n t s q → Move files n s.memory q s.memory p → Gets files n t s p
  then-Move {q} {p} (pc, run, at) mv =
      (change pc t p, Solo-trans run (go_at q at mv stay), change_self pc t p)

  -- The loads of the snapshot from the `k`-th on.
  load_all :
      (j : Job) (p d k : ℕ) (snapshot : Fields)
      → k + d ≡ field_count
      → SameFields k snapshot (s.memory (slot n (row_of j) p)).fields
      → Gets files n t s (reading j p k snapshot)
      → (full : Fields) × SameFields field_count full (s.memory (slot n (row_of j) p)).fields
        × Gets files n t s (reading j p field_count full)
  load_all j p zero k snapshot h same gets =
      let all : k ≡ field_count = omega arith in
      (
        snapshot,
        subst (λ x. SameFields x snapshot (s.memory (slot n (row_of j) p)).fields) all same,
        subst (λ x. Gets files n t s (reading j p x snapshot)) all gets,
      )
  load_all j p (suc d) k snapshot h same gets =
      let now = (s.memory (slot n (row_of j) p)).fields in
      let next : suc k + d ≡ field_count = omega arith in
      load_all j p d (suc k) (change snapshot k (now k)) next (Same-suc k snapshot now same)
        (then-Move gets (load (omega arith)))

  -- A Filled bucket is read.
  pub read_filled :
      (j : Job) (p : ℕ)
      → p < n
      → (s.memory (slot n (row_of j) p)).state ≡ row_bucket_filled
      → Gets files n t s (probing j p)
      → (full : Fields) × SameFields field_count full (s.memory (slot n (row_of j) p)).fields
        × Gets files n t s (reading j p field_count full)
  read_filled j p lt is_filled gets =
      load_all j p 6 0 (λ _. 0) refl (λ q less. absurd (omega arith))
        (then-Move gets (see_filled lt is_filled))
