-- ===== src/Rows/Protocol/Progress.antt =====
-- A bucket does not stay Writing unless the thread that writes it stops.
use lumodb.Base.{
  ℕ, zero, suc, ◌+◌, ◌-◌, ◌≤◌, ◌<◌, ◌≡◌, ◌≢◌, ℕ_discrete, sym, ap, subst, ◌∙◌, Bool, some, arith,
}
use lumodb.Probe.Scan.{IsSize}
use lumodb.Probe.Writes.{some_inj, none-ne-some}
use lumodb.Rows.Protocol.{
  Fields, field_count, row_bucket_filled, row_bucket_writing, Memory, change, set_state, set_field,
  Blocks, Row, Pc, idle, probing, reading, claiming, replacing, storing, stored, found, absent,
  failed, Move, store, publish, System, Reach, SharedBucket, step, later,
}
use lumodb.Rows.Protocol.Owners.{Owners, Knows, written_by}
use lumodb.Rows.Protocol.Later.{change_self, change_ne}
use lumodb.Rows.Protocol.Keeps.{Reach-Inv}

-- The states after some steps of the thread `t`, while the others stand still.
pub data Solo (files : Blocks) (n : ℕ) (t : ℕ) : System → System → Type 0 where
  stay : {s : System} → Solo files n t s s
  go :
      {s s' : System} {m : Memory} {p : Pc}
      → Move files n s.memory (s.pc t) m p
      → Solo files n t (record { memory = m; pc = change s.pc t p }) s'
      → Solo files n t s s'

-- After the stores of the fields from `k` on, and the publication, by the thread `t`.
pub record Finished (t i : ℕ) (fields : Fields) (k : ℕ) (s s' : System) : Type 0 where
  pub is_filled : (s'.memory i).state ≡ row_bucket_filled
  pub new : (q : ℕ) → k ≤ q → q < field_count → (s'.memory i).fields q ≡ fields q
  pub old : (q : ℕ) → q < k → (s'.memory i).fields q ≡ (s.memory i).fields q
  pub others : (u : ℕ) → u ≢ t → s'.pc u ≡ s.pc u

-- A step from where the thread is known to stand.
pub go_at :
    {files : Blocks} {n : ℕ} {s s' : System} {t : ℕ} (q : Pc) {m : Memory} {p : Pc}
    → s.pc t ≡ q
    → Move files n s.memory q m p
    → Solo files n t (record { memory = m; pc = change s.pc t p }) s'
    → Solo files n t s s'
go_at {files} {n} {s} q {m} {p} e mv = go (subst (λ x. Move files n s.memory x m p) (sym e) mv)

module _ (t i : ℕ) (r : Row) (fields : Fields) (inserted : Bool) where
  published : System → System
  published s = record {
    memory = set_state s.memory i row_bucket_filled;
    pc = change s.pc t (stored inserted);
  }

  wrote : System → ℕ → System
  wrote s k = record {
    memory = set_field s.memory i k (fields k);
    pc = change s.pc t (storing r fields i (suc k) inserted);
  }

  published-Finished : (s : System) → Finished t i fields field_count s (published s)
  unfolding published
  published-Finished s = record {
    is_filled = ap (λ b. b.state) here;
    new = λ q ge lt. absurd (omega arith);
    old = λ q lt. ap (λ b. b.fields q) here;
    others = λ u ne. change_ne s.pc t u (stored inserted) ne;
  }
    where
      here :
          set_state s.memory i row_bucket_filled i
          ≡ record (s.memory i) { state = row_bucket_filled }
      here = change_self s.memory i (record (s.memory i) { state = row_bucket_filled })

  wrote-Finished :
      (s : System) (k : ℕ) (s' : System)
      → Finished t i fields (suc k) (wrote s k) s'
      → Finished t i fields k s s'
  unfolding wrote
  wrote-Finished s k s' f = record {
    is_filled = f.is_filled;
    new = λ q ge lt. elim (ℕ_discrete q k) [
      | yes e ↦
          f.old q (omega arith)
          ∙ ap (λ b. b.fields q) here
          ∙ ap (change (s.memory i).fields k (fields k)) e
          ∙ change_self (s.memory i).fields k (fields k)
          ∙ ap fields (sym e)
      | no ne ↦ f.new q (omega arith) lt
    ];
    old = λ q lt.
        f.old q (omega arith)
        ∙ ap (λ b. b.fields q) here
        ∙ change_ne (s.memory i).fields k q (fields k) (λ e. absurd (omega arith));
    others = λ u ne. f.others u ne ∙ change_ne s.pc t u (storing r fields i (suc k) inserted) ne;
  }
    where
      bucket : SharedBucket
      bucket = record (s.memory i) { fields = change (s.memory i).fields k (fields k) }

      here : set_field s.memory i k (fields k) i ≡ bucket
      here = change_self s.memory i bucket

  -- A thread with `d` more fields to store publishes its bucket.
  pub finish :
      {files : Blocks} {n : ℕ} (d k : ℕ) (s : System)
      → k + d ≡ field_count
      → s.pc t ≡ storing r fields i k inserted
      → (s' : System) × Solo files n t s s'
        × (s'.pc t ≡ stored inserted)
        × Finished t i fields k s s'
  unfolding published wrote
  finish zero k s h e =
      let all : k ≡ field_count = omega arith in
      (
        published s,
        go_at (storing r fields i field_count inserted)
            (e ∙ ap (λ x. storing r fields i x inserted) all) publish stay,
        change_self s.pc t (stored inserted),
        subst (λ x. Finished t i fields x s (published s)) (sym all) (published-Finished s),
      )
  finish (suc d) k s h e =
      let next : suc k + d ≡ field_count = omega arith in
      let (s', run, done, f) =
        finish d (suc k) (wrote s k) next
          (change_self s.pc t (storing r fields i (suc k) inserted)) in
      (
        s',
        go_at (storing r fields i k inserted) e (store (omega arith)) run,
        done,
        wrote-Finished s k s' f,
      )

-- A thread that writes a bucket stands in the stores.
abbrev InStores : Pc → ℕ → Type 0
InStores p i =
    (r : Row) × (fields : Fields) × (k : ℕ) × (inserted : Bool) × (p
      ≡ storing r fields i k inserted)
    × (k ≤ field_count)

written-InStores :
    (files : Blocks) (n : ℕ) (owner : Owners) (m : Memory) (p : Pc) (i : ℕ)
    → Knows files n owner m p
    → written_by p ≡ some i
    → InStores p i
written-InStores files n owner m (storing r fields j k inserted) i (ok, own, writing, first, le) w =
    (r, fields, k, inserted, ap (λ x. storing r fields x k inserted) (some_inj w), le)
written-InStores files n owner m idle i h w = absurd (none-ne-some w)
written-InStores files n owner m (probing j p) i h w = absurd (none-ne-some w)
written-InStores files n owner m (reading j p k snapshot) i h w = absurd (none-ne-some w)
written-InStores files n owner m (claiming r fields p) i h w = absurd (none-ne-some w)
written-InStores files n owner m (replacing r fields p) i h w = absurd (none-ne-some w)
written-InStores files n owner m (stored inserted) i h w = absurd (none-ne-some w)
written-InStores files n owner m (found r snapshot) i h w = absurd (none-ne-some w)
written-InStores files n owner m (absent r) i h w = absurd (none-ne-some w)
written-InStores files n owner m failed i h w = absurd (none-ne-some w)

-- From every reachable state in which a bucket is Writing, some thread can publish it by its own
-- steps, while the others stand still wherever they are, and ends with the result of its insertion.
pub Reach-publishable :
    {files : Blocks} {n : ℕ} {s : System}
    → IsSize n
    → Reach files n s
    → (i : ℕ) → (s.memory i).state ≡ row_bucket_writing
    → (t : ℕ) × (s' : System) × (inserted : Bool) × Solo files n t s s'
      × ((s'.memory i).state ≡ row_bucket_filled)
      × (s'.pc t ≡ stored inserted)
Reach-publishable {files} {n} {s} v reached i h =
    let inv = Reach-Inv v reached in
    let (t, w) = inv.writer i h in
    let (r, fields, k, inserted, at, le) =
      written-InStores files n inv.owner s.memory (s.pc t) i (inv.knows t) w in
    let (s', run, done, f) = finish t i r fields inserted (field_count - k) k s (omega arith) at in
    (t, s', inserted, run, f.is_filled, done)

pub Solo-Reach :
    {files : Blocks} {n t : ℕ} {s s' : System}
    → Reach files n s
    → Solo files n t s s'
    → Reach files n s'
Solo-Reach r stay = r
Solo-Reach {t = t} r (go mv rest) = Solo-Reach (later r (step t mv)) rest
