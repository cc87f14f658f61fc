-- ===== src/Rows/Blocks/Choosing.antt =====
-- The first loop of `BuildRowBlockLayout` puts the last entry of each key into the key table.
use lumodb.Base.{
  ℕ, suc, ◌+◌, ◌%◌, ◌≤◌, ◌<◌, ◌≡◌, ◌≢◌, ◌⊎◌, inl, inr, refl, sym, ap, subst, ◌∙◌, Option, none,
  some, List, [], ◌∷◌, ◌++◌, append-nil, arith, ◌==◌, ==-refl, ==-eq, length, length-set, get_or,
  set, get_or-set_self, get_or-set_ne, bytes_eq, if◌then◌else◌, Bool-cases,
}
use native.Mathlib.Nat.{mod-lt}
use lumodb.Base.Words.{u32}
use lumodb.Hash.{hash_string, mix_hashes}
use lumodb.Format.Rows.{RowKeyBucket}
use lumodb.Status.{Result, ok, err, corruption}
use lumodb.Probe.{done, scan}
use lumodb.Probe.Scan.{IsSize-pos, at-lt, and_mask-mod, scan_done}
use lumodb.Probe.Table.{start, home, Landed, Contents, write, update, land}
use lumodb.Probe.Writes.{write-IsTable, write-Contents}
use lumodb.Probe.Count.{filled, filled-le, filled-write, one_if, has_empty}
use lumodb.Rows.Blocks.{
  RowStructEntry, no_entry, bucket_filled, empty_key_bucket, Chosen, choose_body, choose,
  choose_all,
}
use lumodb.Rows.Blocks.Keys.{
  by_key, PieceAt, KeySlot, Slot, Slot-append, key_bucket_at, IsChosen, body-empty, body-other,
  body-same,
}

-- The last entry under a key, or what stood there before.
abbrev pub last_of : List ℕ → List RowStructEntry → Option RowStructEntry → Option RowStructEntry
last_of k [] o = o
last_of k (e ∷ es) o = last_of k es (if bytes_eq e.key k then some e else o)

module _ {row_id : ℕ} {entries : List RowStructEntry} {n : ℕ} {c : Chosen}
    {T : ℕ → Option RowStructEntry} (is : IsChosen row_id entries n c T) (small : n < u32) (idx : ℕ)
    (e : RowStructEntry) (here : get_or entries idx no_entry ≡ e) {d : ℕ}
    (l : Landed (by_key row_id) n T e.key d) where
  abbrev spot : ℕ
  spot = home (by_key row_id) n e.key d

  spot-lt : spot < n
  spot-lt = at-lt (start (by_key row_id) n e.key) d (IsSize-pos is.size)

  Slot-at :
      (i : ℕ)
      → i < n
      → (o : Option RowStructEntry) → T i ≡ o
      → Slot entries c.key_bytes (key_bucket_at c i) (get_or c.selected i (length entries)) o
  Slot-at i lt o h =
      subst (Slot entries c.key_bytes (key_bucket_at c i) (get_or c.selected i (length entries))) h
        (is.slots i lt)

  -- The loop over the probes leaves where the probe for the key lands.
  leaves :
      (r : Result Chosen)
      → choose_body c idx e.key (hash_string e.key) spot ≡ done r
      → choose row_id n c idx e.key ≡ r
  unfolding choose
  leaves r stop =
      ap
        (λ s.
          scan (choose_body c idx e.key (hash_string e.key))
            (err corruption "row key table is full") n s)
        (and_mask-mod is.size (mix_hashes (hash_string e.key) row_id))
      ∙ scan_done (choose_body c idx e.key (hash_string e.key))
          (err corruption "row key table is full") (start (by_key row_id) n e.key) d r is.size
          (mod-lt (mix_hashes (hash_string e.key) row_id) (IsSize-pos is.size)) l.inside stop
          (λ q lt.
            let (x, full, other) = l.passed q lt in
            let i = home (by_key row_id) n e.key q in
            body-other entries c idx e.key i (get_or c.selected i (length entries)) x
              (Slot-at i (at-lt (start (by_key row_id) n e.key) q (IsSize-pos is.size)) (some x)
                full)
              other)

  -- The slots after a change at the landing spot, if they are right there and as before elsewhere.
  slots_after :
      (c' : Chosen)
      → KeySlot entries c'.key_bytes
          (key_bucket_at c' spot)
          (get_or c'.selected spot (length entries))
          e
      → ((i : ℕ)
          → i < n
          → i ≢ spot
          → Slot entries c'.key_bytes
              (key_bucket_at c' i)
              (get_or c'.selected i (length entries))
              (T i))
      → (i : ℕ) → i < n
      → Slot entries c'.key_bytes
          (key_bucket_at c' i)
          (get_or c'.selected i (length entries))
          (write (by_key row_id) n T spot e i)
  slots_after c' new old i lt = elim (Bool-cases (i == spot)) [
    | inl p ↦ rw p (
        subst
          (λ j.
            KeySlot entries c'.key_bytes (key_bucket_at c' j)
              (get_or c'.selected j (length entries)) e)
          (sym (==-eq i spot p)) new)
    | inr p ↦ rw p (old i lt (λ q. cc (p, ==-refl spot, ap (λ x. x == spot) q)))
  ]

  abbrev Chooses : Type 0
  Chooses =
      (c' : Chosen) × (choose row_id n c idx e.key ≡ ok c')
      × IsChosen row_id entries n c' (write (by_key row_id) n T spot e)

  count_after :
      (o : Option RowStructEntry)
      → T spot ≡ o
      → filled (write (by_key row_id) n T spot e) n + one_if o ≡ c.item_count + 1
  count_after o h = omega (arith, filled-write T spot n e spot-lt, ap one_if h, is.count)

  few_after : filled (write (by_key row_id) n T spot e) n ≤ filled T n + 1
  few_after = omega (arith, filled-write T spot n e spot-lt)

  choose-empty : T spot ≡ none → Chooses
  choose-empty empty = (
    c',
    leaves (ok c') (body-empty entries c idx e.key spot old_bucket),
    record {
      size = is.size;
      width = length-set c.key_buckets spot bucket ∙ is.width;
      selected_width = length-set c.selected spot idx ∙ is.selected_width;
      slots = slots_after c' new old;
      table = write-IsTable (by_key row_id) n is.table {e = e} l;
      count =
          let some_more = count_after none empty in
          let most = filled-le (write (by_key row_id) n T spot e) n in
          omega (arith, some_more, most, small);
    },
  )
    where
      old_bucket : key_bucket_at c spot ≡ empty_key_bucket
      old_bucket = Slot-at spot spot-lt none empty

      bucket : RowKeyBucket
      bucket = record empty_key_bucket {
        state = bucket_filled;
        key_hash = hash_string e.key;
        key_offset = length c.key_bytes;
        key_size = length e.key;
      }

      c' : Chosen
      c' = record {
        key_buckets = set c.key_buckets spot bucket;
        key_bytes = c.key_bytes ++ e.key;
        selected = set c.selected spot idx;
        item_count = (c.item_count + 1) % u32;
      }

      at_spot : key_bucket_at c' spot ≡ bucket
      at_spot =
          get_or-set_self c.key_buckets spot bucket empty_key_bucket
            (subst (λ x. spot < x) (sym is.width) spot-lt)

      new :
          KeySlot entries c'.key_bytes
            (key_bucket_at c' spot)
            (get_or c'.selected spot (length entries))
            e
      new = record {
        full = ap (λ b. b.state) at_spot;
        plain = ap (λ b. b.reserved) at_spot;
        hash = ap (λ b. b.key_hash) at_spot;
        size = ap (λ b. b.key_size) at_spot;
        at = record {
          before = c.key_bytes;
          after = [];
          split = ap (λ x. c.key_bytes ++ x) (sym (append-nil e.key));
          place = sym (ap (λ b. b.key_offset) at_spot);
        };
        selected =
            ap (λ x. get_or entries x no_entry)
              (get_or-set_self c.selected spot idx (length entries)
                (subst (λ x. spot < x) (sym is.selected_width) spot-lt))
            ∙ here;
      }

      old :
          (i : ℕ)
          → i < n
          → i ≢ spot
          → Slot entries c'.key_bytes
              (key_bucket_at c' i)
              (get_or c'.selected i (length entries))
              (T i)
      old i lt ne =
          subst (λ b. Slot entries c'.key_bytes b (get_or c'.selected i (length entries)) (T i))
            (sym (get_or-set_ne c.key_buckets spot i bucket empty_key_bucket (λ p. ne (sym p))))
            (subst (λ x. Slot entries c'.key_bytes (key_bucket_at c i) x (T i))
              (sym (get_or-set_ne c.selected spot i idx (length entries) (λ p. ne (sym p))))
              (Slot-append entries c.key_bytes (key_bucket_at c i)
                (get_or c.selected i (length entries)) (T i) e.key (is.slots i lt)))

  choose-again : (x : RowStructEntry) → T spot ≡ some x → x.key ≡ e.key → Chooses
  choose-again x full is_key = (
    c',
    leaves (ok c') (
        body-same entries c idx e.key spot (get_or c.selected spot (length entries)) x slot is_key),
    record {
      size = is.size;
      width = is.width;
      selected_width = length-set c.selected spot idx ∙ is.selected_width;
      slots = slots_after c' new old;
      table = write-IsTable (by_key row_id) n is.table {e = e} l;
      count = omega (arith, count_after (some x) full);
    },
  )
    where
      slot :
          KeySlot entries c.key_bytes
            (key_bucket_at c spot)
            (get_or c.selected spot (length entries))
            x
      slot = Slot-at spot spot-lt (some x) full

      c' : Chosen
      c' = record c { selected = set c.selected spot idx }

      new :
          KeySlot entries c'.key_bytes
            (key_bucket_at c' spot)
            (get_or c'.selected spot (length entries))
            e
      new = record {
        full = slot.full;
        plain = slot.plain;
        hash = slot.hash ∙ ap hash_string is_key;
        size = slot.size ∙ ap (length {0}) is_key;
        at = subst (PieceAt c.key_bytes (key_bucket_at c spot).key_offset) is_key slot.at;
        selected =
            ap (λ y. get_or entries y no_entry)
              (get_or-set_self c.selected spot idx (length entries)
                (subst (λ y. spot < y) (sym is.selected_width) spot-lt))
            ∙ here;
      }

      old :
          (i : ℕ)
          → i < n
          → i ≢ spot
          → Slot entries c'.key_bytes
              (key_bucket_at c' i)
              (get_or c'.selected i (length entries))
              (T i)
      old i lt ne =
          subst (λ y. Slot entries c'.key_bytes (key_bucket_at c i) y (T i))
            (sym (get_or-set_ne c.selected spot i idx (length entries) (λ p. ne (sym p))))
            (is.slots i lt)

  choose-IsChosen : Chooses
  choose-IsChosen = go l.landing
    where
      go : (T spot ≡ none) ⊎ ((x : RowStructEntry) × (T spot ≡ some x) × (x.key ≡ e.key)) → Chooses
      go (inl empty) = choose-empty empty
      go (inr (x, full, is_key)) = choose-again x full is_key

-- The whole loop: with more buckets than entries every entry finds a place, and in the end each key
-- has its last entry.
pub choose_all-IsChosen :
    {row_id : ℕ} {entries : List RowStructEntry} {n : ℕ} (es : List RowStructEntry) (idx : ℕ)
    {c : Chosen} {T : ℕ → Option RowStructEntry} {f : List ℕ → Option RowStructEntry}
    → n < u32
    → ((j : ℕ) → j < length es → get_or entries (idx + j) no_entry ≡ get_or es j no_entry)
    → idx + length es < n
    → IsChosen row_id entries n c T
    → filled T n ≤ idx
    → Contents (by_key row_id) n T f
    → (c' : Chosen) × (T' : ℕ → Option RowStructEntry) × (choose_all row_id n idx es c ≡ ok c')
      × IsChosen row_id entries n c' T'
      × Contents (by_key row_id) n T' (λ k. last_of k es (f k))
      × (filled T' n ≤ idx + length es)
unfolding choose_all
choose_all-IsChosen [] idx {c} {T} small same room is few has =
    (c, T, refl, is, has, omega (arith, few))
choose_all-IsChosen {row_id} {entries} {n} (e ∷ es) idx {c} {T} {f} small same room is few has =
    let (d, l) =
      land (by_key row_id) n T e.key (IsSize-pos is.size) (has_empty T n (omega arith)) in
    let here : get_or entries idx no_entry ≡ e =
      ap (λ x. get_or entries x no_entry) (let z : idx ≡ idx + 0 = omega arith in z)
      ∙ same 0 (omega arith) in
    let (c1, run, is1) = choose-IsChosen is small idx e here l in
    let few' : filled (write (by_key row_id) n T (home (by_key row_id) n e.key d) e) n ≤ suc idx =
      omega (arith, few_after is small idx e here l, few) in
    let (c2, T2, run2, is2, has2, few2) =
      choose_all-IsChosen es (suc idx) {f = update (by_key row_id) n f e} small
        (λ j lt.
          ap (λ x. get_or entries x no_entry) (let z : suc idx + j ≡ idx + suc j = omega arith in z)
          ∙ same (suc j) (omega arith))
        (omega arith) is1 few' (write-Contents (by_key row_id) n is.table {e = e} l has) in
    (c2, T2, rw run run2, is2, has2, omega (arith, few2))
