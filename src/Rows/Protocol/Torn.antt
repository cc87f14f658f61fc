-- ===== src/Rows/Protocol/Torn.antt =====
-- A snapshot can mix two blocks of one row: the state is Filled at both of its loads, but the bucket
-- was replaced between them.
use lumodb.Base.{
  ℕ, ◌<◌, ◌≡◌, ◌≢◌, refl, sym, ap, ap₂, subst, ◌∙◌, true, false, ◌&&◌, arith, ◌==◌, ==-refl, ==-ne,
  ltb-true, and_false,
}
use native.Mathlib.Nat.{mod-lt}
use lumodb.Format.Rows.{shard_for_row}
use lumodb.Hash.{hash_string, mix_hashes}
use lumodb.Probe.Scan.{IsSize}
use lumodb.Probe.Writes.{some_inj}
use lumodb.Rows.Protocol.{
  Fields, row_bucket_filled, row_bucket_writing, change, set_state, Blocks, Row, slot, find, Pc,
  reading, replacing, storing, stored, failed, load, replace, see_corrupt, System, Reach, judge,
  field_count, IsJob, put, SharedBucket, corrupt,
}
use lumodb.Rows.Protocol.Owners.{Knows, SameFields}
use lumodb.Rows.Protocol.Later.{change_self, change_ne}
use lumodb.Rows.Protocol.Judging.{verdict, ours, shard, block, column, judge-verdict}
use lumodb.Rows.Protocol.Keeps.{Reach-Inv}
use lumodb.Rows.Protocol.Progress.{Solo, stay, go_at, finish}
use lumodb.Rows.Protocol.Safety.{HoldsRow}

-- The block that the fields lead to has another size than they say.
judge-corrupt :
    (files : Blocks) (r : Row) (f : Fields)
    → f 0 < files.shards
    → f 1 ≡ hash_string r.0
    → f 2 ≡ r.1
    → files.size_at (f 0) (f 3) ≢ f 4
    → judge files r f ≡ corrupt
judge-corrupt files r f inside hash number size =
    judge-verdict files r f
    ∙ ap (λ x. verdict x (shard files r f) (block files r f) (column files r f)) is_ours
    ∙ ap (λ x. verdict true x (block files r f) (column files r f))
        (ltb-true (f 0) files.shards inside)
    ∙ ap (λ x. verdict true true x (column files r f)) no_block
  where
    is_ours : ours files r f ≡ true
    is_ours =
        ap₂ (λ x y. (x == hash_string r.0) && (y == r.1)) hash number
        ∙ ap₂ (λ x y. x && y) (==-refl (hash_string r.0)) (==-refl r.1)

    no_block : block files r f ≡ false
    no_block =
        and_false
          (files.valid_at (f 0) (f 3)
            && (files.hash_at (f 0) (f 3) == f 1)
            && (files.row_at (f 0) (f 3) == r.1))
          _ (==-ne (files.size_at (f 0) (f 3)) (f 4) size)

module _ {files : Blocks} {n : ℕ} (r : Row) (p : ℕ) (t : ℕ) (snapshot : Fields) (b : Fields) where
  -- The finder's last two loads, and its check, after the bucket was replaced by `b`.
  end_find :
      (s : System)
      → s.pc t ≡ reading (find r) p 4 snapshot
      → (s.memory (slot n r p)).state ≡ row_bucket_filled
      → (s.memory (slot n r p)).fields 4 ≡ b 4
      → snapshot 0 < files.shards
      → snapshot 1 ≡ hash_string r.0
      → snapshot 2 ≡ r.1
      → files.size_at (snapshot 0) (snapshot 3) ≢ b 4
      → (pc : ℕ → Pc) × Solo files n t s (record { memory = s.memory; pc = pc })
        × (pc t ≡ failed)
        × ((u : ℕ) → u ≢ t → pc u ≡ s.pc u)
  end_find s at is_filled new inside hash number size = (
    pc2,
    go_at (reading (find r) p 4 snapshot) at (load (omega arith)) (
        go_at (reading (find r) p 5 snapshot1) (change_self s.pc t _) (load (omega arith)) (
          go_at (reading (find r) p 6 snapshot2) (change_self pc1 t _) (see_corrupt is_filled wrong)
            stay)),
    change_self pc1' t failed,
    λ u ne. change_ne pc1' t u failed ne ∙ change_ne pc1 t u _ ne ∙ change_ne s.pc t u _ ne,
  )
    where
      now : Fields
      now = (s.memory (slot n r p)).fields

      snapshot1 : Fields
      snapshot1 = change snapshot 4 (now 4)

      snapshot2 : Fields
      snapshot2 = change snapshot1 5 (now 5)

      pc1 : ℕ → Pc
      pc1 = change s.pc t (reading (find r) p 5 snapshot1)

      pc1' : ℕ → Pc
      pc1' = change pc1 t (reading (find r) p 6 snapshot2)

      pc2 : ℕ → Pc
      pc2 = change pc1' t failed

      wrong : judge files r snapshot2 ≡ corrupt
      wrong = judge-corrupt files r snapshot2 inside hash number (λ e. size (e ∙ new))

shard_lt :
    (shards column_hash row_id : ℕ) → 0 < shards → shard_for_row shards column_hash row_id < shards
unfolding shard_for_row
shard_lt shards column_hash row_id pos =
    let below = mod-lt (mix_hashes column_hash row_id) pos in omega (arith, below)

-- A published bucket with the fields of a whole block of a row leads to that block.
whole-HoldsRow :
    (files : Blocks) (r : Row) (b : Fields) (bucket : SharedBucket)
    → IsJob files (put r b)
    → bucket.state ≡ row_bucket_filled
    → SameFields field_count bucket.fields b
    → HoldsRow files bucket r
whole-HoldsRow files r b bucket job is_filled same = (
  is_filled,
  same 2 (omega arith) ∙ job.0 2,
  ap₂ (λ x y. files.column_at x y) (same 0 (omega arith) ∙ job.0 0) (same 3 (omega arith))
      ∙ job.0 3,
)

-- A thread that looks for a row has loaded the offset of a block of the row, and not yet its size;
-- another thread is about to replace the row's bucket by a block whose size differs from that of the
-- first block. From every such reachable state the second thread can go on by its own steps until
-- its replacement is stored, with the bucket Filled with the fields of its block, and then the first
-- one by its own steps, which leave the buckets as they are, until its search ends in an error. The
-- row is in that bucket before the replacement, after it, and when the search ends.
pub Reach-torn :
    {files : Blocks} {n : ℕ} {s : System}
    → IsSize n
    → 0 < files.shards
    → Reach files n s
    → (r : Row) (p t u : ℕ) (snapshot b : Fields) → t ≢ u
    → s.pc t ≡ reading (find r) p 4 snapshot
    → s.pc u ≡ replacing r b p
    → (s.memory (slot n r p)).state ≡ row_bucket_filled
    → files.size_at (snapshot 0) (snapshot 3) ≢ b 4
    → HoldsRow files (s.memory (slot n r p)) r
      × (s1 : System) × (s2 : System) × Solo files n u s s1
      × (s1.pc u ≡ stored false)
      × ((s1.memory (slot n r p)).state ≡ row_bucket_filled)
      × SameFields field_count (s1.memory (slot n r p)).fields b
      × HoldsRow files (s1.memory (slot n r p)) r
      × Solo files n t s1 s2
      × (s2.memory ≡ s1.memory)
      × (s2.pc t ≡ failed)
Reach-torn {files} {n} {s} v pos reached r p t u snapshot b ne at_t at_u is_filled size =
    let inv = Reach-Inv v reached in
    let (ok, passed, lt, seen) = subst (Knows files n inv.owner s.memory) at_t (inv.knows t) in
    let (job, own) = subst (Knows files n inv.owner s.memory) at_u (inv.knows u) in
    let is_r : seen.row ≡ r = some_inj (sym seen.owned ∙ own) in
    let s0 : System = record {
      memory = set_state s.memory (slot n r p) row_bucket_writing;
      pc = change s.pc u (storing r b (slot n r p) 0 false);
    } in
    let (s1, run, done, f) = finish u (slot n r p) r b false 6 0 s0 refl (change_self s.pc u _) in
    let (pc, run', fails, others) =
      end_find r p t snapshot b s1 (f.others t ne ∙ change_ne s.pc u t _ ne ∙ at_t) f.is_filled
        (f.new 4 (omega arith) (omega arith))
        (subst (λ x. x < files.shards) (sym (seen.read 0 (omega arith)))
          (shard_lt files.shards (hash_string seen.row.0) seen.row.1 pos))
        (seen.read 1 (omega arith) ∙ ap (λ x. hash_string x.0) is_r)
        (seen.read 2 (omega arith) ∙ ap (λ x. x.1) is_r) size in
    (
      whole-HoldsRow files r (s.memory (slot n r p)).fields (s.memory (slot n r p))
          (subst (λ x. IsJob files (put x (s.memory (slot n r p)).fields))
            (some_inj (sym (inv.filled (slot n r p) is_filled).1 ∙ own))
            (inv.filled (slot n r p) is_filled).2)
          is_filled (λ q lt. refl),
      s1,
      record { memory = s1.memory; pc = pc },
      go_at (replacing r b p) at_u (replace is_filled) run,
      done,
      f.is_filled,
      λ q lt. f.new q (omega arith) lt,
      whole-HoldsRow files r b (s1.memory (slot n r p)) job f.is_filled
          (λ q lt. f.new q (omega arith) lt),
      run',
      refl,
      fails,
    )
