-- ===== src/Text/Injective.antt =====
-- Printed texts and bytes are told apart: a reader gets back what was printed.
use lumodb.Base.{
  ℕ, zero, suc, ◌+◌, ◌-◌, ◌*◌, ◌/◌, ◌%◌, ◌<◌, ◌≡◌, inl, inr, refl, sym, ap, ap₂, ◌∙◌, Bool, true,
  ◌&&◌, Option, none, some, List, [], ◌∷◌, ◌++◌, append_assoc, arith, leb, ltb, ◌==◌, ==-eq, get_or,
  length, length-append, drop, if◌then◌else◌, Bool-cases,
}
use lumodb.Text.{
  hex_digits, hex_pair, escape_character, escape_all, escape_text, hex_all, hex_bytes,
}

-- The number of a hexadecimal digit.
nibble : ℕ → ℕ
nibble digit = if ltb digit b'a' then digit - b'0' else digit - b'a' + 10

holds_below : ℕ → (ℕ → Bool) → Bool
holds_below zero test = true
holds_below (suc n) test = test n && holds_below n test

holds_below-at :
    (n : ℕ) (test : ℕ → Bool) (i : ℕ) → i < n → holds_below n test ≡ true → test i ≡ true
unfolding holds_below
holds_below-at zero test i lt h = absurd (omega arith)
holds_below-at (suc n) test i lt h = ground (arith, holds_below-at n test i)

digits_table : holds_below 16 (λ n. nibble (get_or hex_digits n 0) == n) ≡ true
unfolding holds_below nibble
digits_table = refl

nibble-digit : (n : ℕ) → n < 16 → nibble (get_or hex_digits n 0) ≡ n
nibble-digit n lt =
    ==-eq (nibble (get_or hex_digits n 0)) n
      (holds_below-at 16 (λ n. nibble (get_or hex_digits n 0) == n) n lt digits_table)

read_pair : List ℕ → Option (ℕ × List ℕ)
unfolding nibble
read_pair [] = none
read_pair (h ∷ []) = none
read_pair (h ∷ l ∷ rest) = some (nibble h * 16 + nibble l, rest)

read_pair-hex_pair :
    (c : ℕ) (rest : List ℕ) → c < 256 → read_pair (hex_pair c ++ rest) ≡ some (c, rest)
unfolding read_pair hex_pair
read_pair-hex_pair c rest lt =
    let high = nibble-digit (c / 16) (omega arith) in
    let low = nibble-digit (c % 16) (omega arith) in
    let whole : nibble (get_or hex_digits (c / 16) 0) * 16 + nibble (get_or hex_digits (c % 16) 0)
        ≡ c =
      omega (arith, high, low) in
    ap (λ n. some (n, rest)) whole

-- The byte that a letter behind a backslash stands for.
named : ℕ → ℕ
named letter =
    if letter == b'n'
    then 10
    else if letter == b'r'
    then 13
    else if letter == b't'
    then 9
    else letter

read_escaped : List ℕ → Option (ℕ × List ℕ)
unfolding named read_pair
read_escaped [] = none
read_escaped (letter ∷ rest) = if letter == b'x' then read_pair rest else some (named letter, rest)

read_one : List ℕ → Option (ℕ × List ℕ)
unfolding read_escaped
read_one [] = none
read_one (c ∷ rest) = if c == 92 then read_escaped rest else some (c, rest)

read_one-escape_character :
    (c : ℕ) (rest : List ℕ) → c < 256 → read_one (escape_character c ++ rest) ≡ some (c, rest)
unfolding read_one read_escaped named escape_character
read_one-escape_character c rest lt = elim (Bool-cases (c == 92)) [
  | inl e ↦ rw e (ap (λ n. some (n, rest)) (sym (==-eq c 92 e)))
  | inr n₁ ↦ rw n₁ (elim (Bool-cases (c == 34)) [
    | inl e ↦ rw e (ap (λ n. some (n, rest)) (sym (==-eq c 34 e)))
    | inr n₂ ↦ rw n₂ (elim (Bool-cases (c == 10)) [
      | inl e ↦ rw e (ap (λ n. some (n, rest)) (sym (==-eq c 10 e)))
      | inr n₃ ↦ rw n₃ (elim (Bool-cases (c == 13)) [
        | inl e ↦ rw e (ap (λ n. some (n, rest)) (sym (==-eq c 13 e)))
        | inr n₄ ↦ rw n₄ (elim (Bool-cases (c == 9)) [
          | inl e ↦ rw e (ap (λ n. some (n, rest)) (sym (==-eq c 9 e)))
          | inr n₅ ↦ rw n₅ (elim (Bool-cases (leb 0x20 c && leb c 0x7e)) [
            | inl plain ↦ rw (plain, n₁)
            | inr other ↦ rw other (read_pair-hex_pair c rest lt)
          ])
        ])
      ])
    ])
  ])
]

-- Bytes.
abbrev pub AllBytes : List ℕ → Type 0
AllBytes [] = Unit {0}
AllBytes (c ∷ rest) = (c < 256) × AllBytes rest

taken : Option (ℕ × List ℕ) → ℕ × List ℕ
taken none = (0, [])
taken (some p) = p

abbrev quote : List ℕ
quote = 34 ∷ []

read_first :
    (x : ℕ) (xs : List ℕ)
    → x < 256
    → read_one (escape_all (x ∷ xs) ++ quote) ≡ some (x, escape_all xs ++ quote)
unfolding escape_all
read_first x xs lt =
    ap read_one (append_assoc (escape_character x) (escape_all xs) quote)
    ∙ read_one-escape_character x (escape_all xs ++ quote) lt

escape_all-same :
    (xs ys : List ℕ)
    → AllBytes xs
    → AllBytes ys
    → escape_all xs ++ quote ≡ escape_all ys ++ quote
    → xs ≡ ys
unfolding escape_all read_one taken
escape_all-same [] [] bx by h = refl
escape_all-same [] (y ∷ ys) bx (lt, by) h =
    let e = ap (λ l. taken (read_one l)) h ∙ ap taken (read_first y ys lt) in
    absurd (omega (arith, ap (λ p. length p.1) e, length-append (escape_all ys) quote))
escape_all-same (x ∷ xs) [] (lt, bx) by h =
    let e = ap (λ l. taken (read_one l)) (sym h) ∙ ap taken (read_first x xs lt) in
    absurd (omega (arith, ap (λ p. length p.1) e, length-append (escape_all xs) quote))
escape_all-same (x ∷ xs) (y ∷ ys) (ltx, bx) (lty, by) h =
    let e =
      ap taken (sym (read_first x xs ltx))
      ∙ ap (λ l. taken (read_one l)) h
      ∙ ap taken (read_first y ys lty) in
    ap₂ (λ c l. c ∷ l) (ap (λ p. p.0) e) (escape_all-same xs ys bx by (ap (λ p. p.1) e))

-- `EscapeText` prints two different byte strings differently.
pub escape_text-injective :
    (xs ys : List ℕ) → AllBytes xs → AllBytes ys → escape_text xs ≡ escape_text ys → xs ≡ ys
unfolding escape_text
escape_text-injective xs ys bx by h = escape_all-same xs ys bx by (ap (λ l. drop 1 l) h)

hex_all-same : (xs ys : List ℕ) → AllBytes xs → AllBytes ys → hex_all xs ≡ hex_all ys → xs ≡ ys
unfolding hex_all hex_pair taken
hex_all-same [] [] bx by h = refl
hex_all-same [] (y ∷ ys) bx by h = absurd (omega (arith, ap (length {0}) h))
hex_all-same (x ∷ xs) [] bx by h = absurd (omega (arith, ap (length {0}) h))
hex_all-same (x ∷ xs) (y ∷ ys) (ltx, bx) (lty, by) h =
    let e =
      ap taken (sym (read_pair-hex_pair x (hex_all xs) ltx))
      ∙ ap (λ l. taken (read_pair l)) h
      ∙ ap taken (read_pair-hex_pair y (hex_all ys) lty) in
    ap₂ (λ c l. c ∷ l) (ap (λ p. p.0) e) (hex_all-same xs ys bx by (ap (λ p. p.1) e))

-- `HexBytes` prints two different byte strings differently.
pub hex_bytes-injective :
    (xs ys : List ℕ) → AllBytes xs → AllBytes ys → hex_bytes xs ≡ hex_bytes ys → xs ≡ ys
unfolding hex_bytes
hex_bytes-injective xs ys bx by h = hex_all-same xs ys bx by (ap (λ l. drop 2 l) h)
