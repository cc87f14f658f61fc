-- ===== src/Rows/Protocol/Keeps.antt =====
-- Every move of every thread keeps the invariant, so it holds in every state that is reached.
use lumodb.Base.{ℕ, suc, ◌<◌, ◌≡◌, refl, sym, ap, subst, ◌∙◌, none, some, arith}
use lumodb.Probe.Scan.{IsSize}
use lumodb.Probe.Writes.{none-ne-some}
use lumodb.Rows.Protocol.{
  Fields, field_count, row_bucket_filled, Memory, change, Blocks, Row, slot, put, find, row_of, Pc,
  idle, probing, reading, claiming, replacing, found, absent, failed, Move, begin, full,
  see_empty_put, see_empty_find, see_writing, see_invalid, see_filled, load, see_change,
  see_corrupt, pass, match_put, match_find, claim, lose_claim, replace, lose_replace, store,
  publish, System, step, fresh, Reach, start, later, judge, differs,
}
use lumodb.Rows.Protocol.Owners.{Owners, Seen, Passed, Knows, written_by, Inv, slot-home}
use lumodb.Rows.Protocol.Acts.{quiet}
use lumodb.Rows.Protocol.Judging.{judge-matches, judge-differs}
use lumodb.Rows.Protocol.Writing.{
  Passed-suc, First-suc, no_probe, claim-Inv, replace-Inv, store-Inv, publish-Inv,
}

module _ {files : Blocks} {n : ℕ} (v : IsSize n) {m : Memory} {pc : ℕ → Pc} (inv : Inv files n m pc)
    (t : ℕ) where
  abbrev o : Owners
  o = inv.owner

  known_at : (q : Pc) → pc t ≡ q → Knows files n o m q
  known_at q e = subst (Knows files n o m) e (inv.knows t)

  -- A move that writes nothing.
  moved :
      (q p' : Pc)
      → pc t ≡ q
      → written_by q ≡ none
      → written_by p' ≡ none
      → Knows files n o m p'
      → Inv files n m (change pc t p')
  moved q p' e h h' k = quiet inv t p' (h' ∙ sym h ∙ ap written_by (sym e)) k

  -- What the bucket that a probe found Filled is.
  look : (i : ℕ) (blank : Fields) → (m i).state ≡ row_bucket_filled → Seen files o m i 0 blank
  look i blank h =
      let (r, own, fields) = inv.filled i h in
      record { row = r; owned = own; holds = fields.0; read = λ q lt. absurd (omega arith) }

  Seen-load :
      (i k : ℕ) (snapshot : Fields)
      → Seen files o m i k snapshot
      → Seen files o m i (suc k) (change snapshot k ((m i).fields k))
  Seen-load i k snapshot s = record {
    row = s.row;
    owned = s.owned;
    holds = s.holds;
    read = First-suc files s.row k snapshot ((m i).fields k) s.read (s.holds k);
  }

  Passed-one :
      (r : Row) (p : ℕ) (snapshot : Fields)
      → Passed n o r p
      → p < n
      → Seen files o m (slot n r p) field_count snapshot
      → judge files r snapshot ≡ differs
      → Passed n o r (suc p)
  Passed-one r p snapshot passed lt s h =
      Passed-suc n o r p passed
        (s.row, ap o (sym (slot-home v r p lt)) ∙ s.owned, judge-differs files r snapshot s h)

  Move-Inv_at :
      {q p' : Pc} {m' : Memory}
      → Move files n m q m' p'
      → pc t ≡ q
      → Inv files n m' (change pc t p')
  Move-Inv_at (begin {j} ok) e = moved idle (probing j 0) e refl refl (ok, no_probe n o (row_of j))
  Move-Inv_at (full {j} {p} ge) e = moved (probing j p) failed e refl refl tt
  Move-Inv_at (see_empty_put {r} {fields} {p} lt h) e =
      let (ok, passed) = known_at (probing (put r fields) p) e in
      moved (probing (put r fields) p) (claiming r fields p) e refl refl (ok, passed, lt)
  Move-Inv_at (see_empty_find {r} {p} lt h) e = moved (probing (find r) p) (absent r) e refl refl tt
  Move-Inv_at (see_writing {j} {p} lt h) e =
      moved (probing j p) (probing j 0) e refl refl
        ((known_at (probing j p) e).0, no_probe n o (row_of j))
  Move-Inv_at (see_invalid {j} {p} lt h) e = moved (probing j p) failed e refl refl tt
  Move-Inv_at (see_filled {j} {p} {blank} lt h) e =
      let (ok, passed) = known_at (probing j p) e in
      moved (probing j p) (reading j p 0 blank) e refl refl
        (ok, passed, lt, look (slot n (row_of j) p) blank h)
  Move-Inv_at (load {j} {p} {k} {snapshot} lt) e =
      let (ok, passed, inside, s) = known_at (reading j p k snapshot) e in
      moved (reading j p k snapshot)
        (reading j p (suc k) (change snapshot k ((m (slot n (row_of j) p)).fields k))) e refl refl
        (ok, passed, inside, Seen-load (slot n (row_of j) p) k snapshot s)
  Move-Inv_at (see_change {j} {p} {snapshot} h) e =
      moved (reading j p field_count snapshot) (probing j 0) e refl refl
        ((known_at (reading j p field_count snapshot) e).0, no_probe n o (row_of j))
  Move-Inv_at (see_corrupt {j} {p} {snapshot} h w) e =
      moved (reading j p field_count snapshot) failed e refl refl tt
  Move-Inv_at (pass {j} {p} {snapshot} h w) e =
      let (ok, passed, inside, s) = known_at (reading j p field_count snapshot) e in
      moved (reading j p field_count snapshot) (probing j (suc p)) e refl refl
        (ok, Passed-one (row_of j) p snapshot passed inside s w)
  Move-Inv_at (match_put {r} {fields} {p} {snapshot} h w) e =
      let (ok, passed, inside, s) = known_at (reading (put r fields) p field_count snapshot) e in
      moved (reading (put r fields) p field_count snapshot) (replacing r fields p) e refl refl
        (ok, s.owned ∙ ap some (judge-matches files r snapshot s w))
  Move-Inv_at (match_find {r} {p} {snapshot} h w) e =
      moved (reading (find r) p field_count snapshot) (found r snapshot) e refl refl tt
  Move-Inv_at (claim {r} {fields} {p} h) e =
      claim-Inv v inv t r fields p (slot n r p)
        (slot-home v r p (known_at (claiming r fields p) e).2) e h
  Move-Inv_at (lose_claim {r} {fields} {p} h) e =
      moved (claiming r fields p) (probing (put r fields) 0) e refl refl
        ((known_at (claiming r fields p) e).0, no_probe n o r)
  Move-Inv_at (replace {r} {fields} {p} h) e =
      let (ok, own) = known_at (replacing r fields p) e in
      replace-Inv v inv t r fields (slot n r p) ok own (ap written_by e) h
  Move-Inv_at (lose_replace {r} {fields} {p} h) e =
      moved (replacing r fields p) (probing (put r fields) 0) e refl refl
        ((known_at (replacing r fields p) e).0, no_probe n o r)
  Move-Inv_at (store {r} {fields} {i} {k} {inserted} lt) e =
      store-Inv v inv t r fields i k inserted lt e
  Move-Inv_at (publish {r} {fields} {i} {inserted}) e = publish-Inv v inv t r fields i inserted e

fresh-Inv : (files : Blocks) (n : ℕ) → Inv files n fresh.memory fresh.pc
fresh-Inv files n = record {
  owner = λ i. none;
  table = record {
    reach = λ j r lt h. absurd (none-ne-some h);
    unique = λ i j r r' hi hj h h' e. absurd (none-ne-some h);
  };
  empty = λ i h. refl;
  filled = λ i h. absurd (omega (arith, h));
  states = λ i. omega arith;
  writer = λ i h. absurd (omega (arith, h));
  alone = λ t t' i h h'. absurd (none-ne-some h);
  knows = λ t. tt;
}

pub Reach-Inv :
    {files : Blocks} {n : ℕ} {s : System} → IsSize n → Reach files n s → Inv files n s.memory s.pc
Reach-Inv {files} {n} v start = fresh-Inv files n
Reach-Inv v (later r (step t mv)) = Move-Inv_at v (Reach-Inv v r) t mv refl
