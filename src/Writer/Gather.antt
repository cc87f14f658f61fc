-- ===== src/Writer/Gather.antt =====
-- The full buckets of an index in order: the entries that they lead to, each key once, which
-- stored one after the other give the index's map again.
use mathlib.Core.Path.{fun_ext}
use lumodb.Base.{
  ℕ, zero, suc, ◌+◌, ◌<◌, ◌≡◌, inl, inr, sym, ap, subst, ◌∙◌, false, Option, none, some, List, [],
  ◌∷◌, arith, dec_lt, ◌==◌, length, get_or, Bool-cases, Option-cases,
}
use lumodb.Probe.Table.{IsTable, Contents, update}
use lumodb.Probe.Writes.{some_inj, none-ne-some}
use lumodb.Probe.Count.{filled, one_if, filled-suc}
use lumodb.Objects.{IndexBucket, empty_bucket}
use lumodb.Objects.Records.{Entry, objects, same_key}
use lumodb.Objects.Lookup.{Slot, Map, hash_ne_zero}
use lumodb.Writer.{full_buckets}
use lumodb.Writer.Publish.{update_all, AllNew}

abbrev push : Option Entry → List Entry → List Entry
push none es = es
push (some e) es = e ∷ es

-- The entries of the buckets from `i` on, `n` of them.
pub gather : (ℕ → Option Entry) → ℕ → ℕ → List Entry
gather T i zero = []
gather T i (suc n) = push (T i) (gather T (suc i) n)

abbrev pub AllSlots : List ℕ → List IndexBucket → List Entry → Type 0
AllSlots file [] [] = Unit {0}
AllSlots file [] (e ∷ es) = ⊥
AllSlots file (b ∷ bs) [] = ⊥
AllSlots file (b ∷ bs) (e ∷ es) = Slot file b (some e) × AllSlots file bs es

full_bucket :
    (file : List ℕ) (b : IndexBucket) (bs : List IndexBucket) (es : List Entry) (o : Option Entry)
    → Slot file b o
    → AllSlots file (full_buckets bs) es
    → AllSlots file (full_buckets (b ∷ bs)) (push o es)
unfolding full_buckets
full_bucket file b bs es none slot rest = rw slot rest
full_bucket file b bs es (some e) (hash, rec) rest =
    let full : (b.hash == 0) ≡ false = ap (λ h. h == 0) hash ∙ hash_ne_zero e.column e.key in
    rw full ((hash, rec), rest)

-- The buckets that `ResizeIndex` collects lead to the gathered entries.
pub full_buckets-AllSlots :
    (file : List ℕ) (T : ℕ → Option Entry) (bs : List IndexBucket) (i : ℕ)
    → ((j : ℕ) → j < length bs → Slot file (get_or bs j empty_bucket) (T (i + j)))
    → AllSlots file (full_buckets bs) (gather T i (length bs))
unfolding gather
full_buckets-AllSlots file T [] i slots = unfold full_buckets in tt
full_buckets-AllSlots file T (b ∷ bs) i slots =
    let here : i + 0 ≡ i = omega arith in
    full_bucket file b bs (gather T (suc i) (length bs)) (T i)
      (subst (λ x. Slot file b (T x)) here (slots 0 (omega arith)))
      (full_buckets-AllSlots file T bs (suc i) (λ j lt.
        let next : i + suc j ≡ suc i + j = omega arith in
        subst (λ x. Slot file (get_or bs j empty_bucket) (T x)) next (slots (suc j) (omega arith))))

length-push : (o : Option Entry) (es : List Entry) → length (push o es) ≡ one_if o + length es
length-push none es = omega arith
length-push (some e) es = omega arith

pub length-gather :
    (T : ℕ → Option Entry) (n i : ℕ) → filled T i + length (gather T i n) ≡ filled T (i + n)
unfolding gather
length-gather T zero i = let e : i ≡ i + 0 = omega arith in omega (arith, ap (filled T) e)
length-gather T (suc n) i =
    let e : suc i + n ≡ i + suc n = omega arith in
    omega (
      arith,
      ap (filled T) e,
      length-gather T n (suc i),
      filled-suc T i,
      length-push (T i) (gather T (suc i) n),
    )

-- `g` holds exactly the entries of the buckets below `i`.
record Below (T : ℕ → Option Entry) (i : ℕ) (g : Map) : Type 0 where
  pub comes :
      (k : List ℕ × List ℕ) (e : Entry)
      → g k ≡ some e
      → (j : ℕ) × (j < i) × (T j ≡ some e) × (objects.key e ≡ k)
  pub holds : (j : ℕ) (e : Entry) → j < i → T j ≡ some e → g (objects.key e) ≡ some e

module _ {n : ℕ} {T : ℕ → Option Entry} (table : IsTable objects n T) where
  Below-new :
      {i : ℕ} {g : Map} (e : Entry) → Below T i g → i < n → T i ≡ some e → g (objects.key e) ≡ none
  Below-new {i} {g} e b lt full = elim (Option-cases (g (objects.key e))) [
    | inl new ↦ new
    | inr (x, old) ↦
        let (j, lt_j, full_j, is_k) = b.comes (objects.key e) x old in
        absurd (omega (arith, table.unique j i x e (omega arith) lt full_j full is_k))
  ]

  Below-some :
      {i : ℕ} {g : Map} (e : Entry)
      → Below T i g
      → i < n
      → T i ≡ some e
      → Below T (suc i) (update objects 0 g e)
  Below-some {i} {g} e b lt full = record { comes = comes; holds = holds }
    where
      comes :
          (k : List ℕ × List ℕ) (x : Entry)
          → update objects 0 g e k ≡ some x
          → (j : ℕ) × (j < suc i) × (T j ≡ some x) × (objects.key x ≡ k)
      comes k x h = elim (Bool-cases (same_key (e.column, e.key) k)) [
        | inl same ↦
            let is_e : e ≡ x = some_inj (sym (rw same) ∙ h) in
            (
              i,
              omega arith,
              full ∙ ap some is_e,
              ap (λ y. objects.key y) (sym is_e) ∙ objects.same_eq (e.column, e.key) k same,
            )
        | inr other ↦
            let (j, lt_j, full_j, is_k) = b.comes k x (sym (rw other) ∙ h) in
            (j, omega arith, full_j, is_k)
      ]

      holds :
          (j : ℕ) (x : Entry)
          → j < suc i
          → T j ≡ some x
          → update objects 0 g e (objects.key x) ≡ some x
      holds j x lt_j full_j = elim (Bool-cases (same_key (e.column, e.key) (x.column, x.key))) [
        | inl same ↦
            let at_i =
              table.unique i j e x lt (omega arith) full full_j
                (objects.same_eq (e.column, e.key) (x.column, x.key) same) in
            rw same (sym full ∙ ap T at_i ∙ full_j)
        | inr other ↦ elim (dec_lt j i) [
          | yes p ↦ rw other (b.holds j x p full_j)
          | no p ↦
              let at_i : j ≡ i = omega arith in
              let is_e : e ≡ x = some_inj (sym full ∙ ap T (sym at_i) ∙ full_j) in
              absurd (
                cc (
                  other,
                  objects.same_refl (e.column, e.key),
                  ap (λ y. same_key (e.column, e.key) (y.column, y.key)) is_e,
                ))
        ]
      ]

  Below-none : {i : ℕ} {g : Map} → Below T i g → T i ≡ none → Below T (suc i) g
  Below-none {i} {g} b empty = record {
    comes = λ k e h. let (j, lt, full, is_k) = b.comes k e h in (j, omega arith, full, is_k);
    holds = λ j e lt full. elim (dec_lt j i) [
      | yes p ↦ b.holds j e p full
      | no p ↦
          let at_i : j ≡ i = omega arith in
          absurd (none-ne-some (sym empty ∙ ap T (sym at_i) ∙ full))
    ];
  }

  abbrev After : ℕ → Map → List Entry → Type 0
  After i g es = AllNew g es × Below T n (update_all g es)

  gather_step :
      (i : ℕ) (g : Map) (es : List Entry)
      → Below T i g
      → i < n
      → ((g' : Map) → Below T (suc i) g' → After i g' es)
      → After i g (push (T i) es)
  gather_step i g es b lt rest = elim (Option-cases (T i)) [
    | inl empty ↦ rw empty (rest g (Below-none b empty))
    | inr (e, full) ↦
        let (new, last) = rest (update objects 0 g e) (Below-some e b lt full) in
        rw full ((Below-new e b lt full, new), last)
  ]

  gather-After : (m i : ℕ) (g : Map) → Below T i g → i + m ≡ n → After i g (gather T i m)
  unfolding gather
  gather-After zero i g b e =
      let at_end : i ≡ n = omega arith in (tt, subst (λ x. Below T x g) at_end b)
  gather-After (suc m) i g b e =
      gather_step i g (gather T (suc i) m) b (omega arith)
        (λ g' b'. gather-After m (suc i) g' b' (omega arith))

  abbrev no_map : Map
  no_map = λ k. none

  nothing : Below T 0 no_map
  nothing = record {
    comes = λ k e h. absurd (none-ne-some h);
    holds = λ j e lt full. absurd (omega arith);
  }

  -- Each key comes once.
  pub gather-AllNew : AllNew (λ k. none) (gather T 0 n)
  gather-AllNew = (gather-After n 0 no_map nothing (omega arith)).0

  -- The entries, stored one after the other, give the map of the table.
  pub gather-map : {f : Map} → Contents objects n T f → update_all (λ k. none) (gather T 0 n) ≡ f
  gather-map {f} c = fun_ext point
    where
      all : Map
      all = update_all no_map (gather T 0 n)

      b : Below T n all
      b = (gather-After n 0 no_map nothing (omega arith)).1

      point : (k : List ℕ × List ℕ) → all k ≡ f k
      point k = elim (Option-cases (f k)) [
        | inr (e, fk) ↦
            let (j, lt, full, is_k) = c.has k e fk in
            ap all (sym is_k) ∙ b.holds j e lt full ∙ sym fk
        | inl fk ↦ elim (Option-cases (all k)) [
          | inl none_all ↦ none_all ∙ sym fk
          | inr (e, some_all) ↦
              let (j, lt, full, is_k) = b.comes k e some_all in
              absurd (c.only k fk j e lt full is_k)
        ]
      ]
