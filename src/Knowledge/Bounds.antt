-- ===== src/Knowledge/Bounds.antt =====
-- The lengths of chunks, of src/flowsec/rag/ingestion.py.
use flow_security_agent.Knowledge.{
  add_tail, blank_line, chunk_texts, join, joined, parts_from, pieces, split_all, split_long_unit,
  split_units, texts_from,
}
use flow_security_agent.Prelude.Chars.{Chars, lstrip, rstrip, strip}
use flow_security_agent.Prelude.Text.{is_space}
use flow_security_agent.Prelude.{
  ℕ, ◌+◌, ◌≤◌, Bool, true, false, not, ◌&&◌, List, [], ◌∷◌, ◌++◌, inl, inr, arith, leb, ltb, length,
  length-append, is_empty, All, All-append, Bool-cases, if◌then◌else◌,
}

rstrip-length : (s : Chars) → length (rstrip s) ≤ length s
unfolding rstrip
rstrip-length [] = omega arith
rstrip-length (c ∷ cs) = elim (Bool-cases (is_space c && is_empty (rstrip cs))) [
  | inl gone ↦ rw (gone, rstrip) (omega arith)
  | inr kept ↦ rw (kept, rstrip) (omega (arith, rstrip-length cs))
]

lstrip-length : (s : Chars) → length (lstrip s) ≤ length s
unfolding lstrip
lstrip-length [] = omega arith
lstrip-length (c ∷ cs) = elim (Bool-cases (is_space c)) [
  | inl space ↦ rw (space, lstrip) (omega (arith, lstrip-length cs))
  | inr seen ↦ rw (seen, lstrip) (omega arith)
]

strip-length : (s : Chars) → length (strip s) ≤ length s
unfolding strip
strip-length s = omega (arith, lstrip-length (rstrip s), rstrip-length s)

-- Texts of a length.
abbrev pub AreWithin : ℕ → List Chars → Type 0
AreWithin max_chars = All (λ s. length s ≤ max_chars)

parts_from-AreWithin :
    (max_chars : ℕ) (current : Chars) (words : List Chars)
    → length current ≤ max_chars
    → AreWithin max_chars words
    → AreWithin max_chars (parts_from max_chars current words)
unfolding parts_from
parts_from-AreWithin max_chars current [] h hs = elim (Bool-cases (is_empty (strip current))) [
  | inl blank ↦ rw (blank, parts_from) tt
  | inr filled ↦ rw (filled, parts_from) (omega (arith, strip-length current), tt)
]
parts_from-AreWithin max_chars [] (word ∷ words) h hs =
    parts_from-AreWithin max_chars word words hs.0 hs.1
parts_from-AreWithin max_chars (c ∷ cs) (word ∷ words) h hs =
    elim (Bool-cases (ltb max_chars (length (c ∷ cs) + length word))) [
      | inl over ↦
          rw (over, parts_from)
            (
              omega (arith, strip-length (c ∷ cs)),
              parts_from-AreWithin max_chars word words hs.0 hs.1,
            )
      | inr fits ↦
          rw (fits, parts_from)
            (parts_from-AreWithin max_chars ((c ∷ cs) ++ word) words
              (let sum = length-append (c ∷ cs) word in ground arith) hs.1)
    ]

-- No word of the units, and no white space between words, is longer.
abbrev pub HasShortPieces : ℕ → List Chars → Type 0
HasShortPieces max_chars = All (λ unit. AreWithin max_chars (pieces unit))

split_all-AreWithin :
    (max_chars : ℕ) (units : List Chars)
    → HasShortPieces max_chars units
    → AreWithin max_chars (split_all max_chars units)
unfolding split_all split_long_unit
split_all-AreWithin max_chars [] h = tt
split_all-AreWithin max_chars (unit ∷ units) h =
    All-append (λ s. length s ≤ max_chars) (split_long_unit max_chars unit)
      (split_all max_chars units)
      (elim (Bool-cases (leb (length unit) max_chars)) [
        | inl fits ↦ rw (fits, split_long_unit) (ground arith, tt)
        | inr long ↦
            rw (long, split_long_unit)
              (parts_from-AreWithin max_chars [] (pieces unit) (omega arith) h.0)
      ])
      (split_all-AreWithin max_chars units h.1)

add_tail-AreWithin :
    (max_chars : ℕ) (tail : Chars) (texts : List Chars)
    → length tail ≤ max_chars
    → AreWithin max_chars texts
    → AreWithin max_chars (add_tail max_chars tail texts)
unfolding add_tail
add_tail-AreWithin max_chars tail [] h hs = (h, tt)
add_tail-AreWithin max_chars tail (t ∷ []) h hs =
    elim (Bool-cases (leb (length t + length tail + 2) max_chars)) [
      | inl fits ↦
          rw (fits, add_tail) ((let sum = length-append t (blank_line ++ tail) in ground arith), tt)
      | inr over ↦ rw (over, add_tail) (hs.0, (h, tt))
    ]
add_tail-AreWithin max_chars tail (t ∷ u ∷ ts) h hs =
    (hs.0, add_tail-AreWithin max_chars tail (u ∷ ts) h hs.1)

-- The gathered units fit into one text.
abbrev Fits : ℕ → List Chars → Type 0
Fits max_chars current = length (join blank_line current) ≤ max_chars

joined-length :
    (max_chars : ℕ) (current : List Chars)
    → Fits max_chars current
    → length (joined current) ≤ max_chars
unfolding joined
joined-length max_chars current h = omega (arith, strip-length (join blank_line current))

AreWithin-close :
    (b : Bool) (max_chars : ℕ) (texts current : List Chars)
    → AreWithin max_chars texts
    → Fits max_chars current
    → AreWithin max_chars (if b then texts ++ joined current ∷ [] else texts)
AreWithin-close true max_chars texts current hs h =
    All-append (λ s. length s ≤ max_chars) texts (joined current ∷ []) hs
      (joined-length max_chars current h, tt)
AreWithin-close false max_chars texts current hs h = hs

Fits-next :
    (max_chars : ℕ) (current : List Chars) (unit : Chars)
    → length unit ≤ max_chars
    → Fits max_chars (
        if not (is_empty current) && ltb max_chars (length (join blank_line (current ++ unit ∷ [])))
        then unit ∷ []
        else current ++ unit ∷ [])
unfolding join
Fits-next max_chars [] unit h = h
Fits-next max_chars (x ∷ xs) unit h =
    elim (Bool-cases (ltb max_chars (length (join blank_line ((x ∷ xs) ++ unit ∷ []))))) [
      | inl over ↦ rw over h
      | inr fits ↦ rw fits (ground arith)
    ]

Fits-full :
    (b : Bool) (max_chars : ℕ) (current : List Chars)
    → Fits max_chars current
    → Fits max_chars (if b then [] else current)
unfolding join
Fits-full true max_chars current h = omega arith
Fits-full false max_chars current h = h

texts_end :
    (max_chars : ℕ) (texts current : List Chars)
    → AreWithin max_chars texts
    → Fits max_chars current
    → AreWithin max_chars
        (if is_empty current then texts else add_tail max_chars (joined current) texts)
texts_end max_chars texts [] hs h = hs
texts_end max_chars texts (x ∷ xs) hs h =
    add_tail-AreWithin max_chars (joined (x ∷ xs)) texts (joined-length max_chars (x ∷ xs) h) hs

texts_from-AreWithin :
    (max_chars target_chars : ℕ) (texts current units : List Chars)
    → AreWithin max_chars texts
    → Fits max_chars current
    → AreWithin max_chars units
    → AreWithin max_chars (texts_from max_chars target_chars texts current units)
unfolding texts_from
texts_from-AreWithin max_chars target_chars texts current [] hs h us =
    texts_end max_chars texts current hs h
texts_from-AreWithin max_chars target_chars texts current (unit ∷ units) hs h us =
    let fits = Fits-next max_chars current unit us.0 in
    texts_from-AreWithin max_chars target_chars
      (if full then texts' ++ joined current' ∷ [] else texts') (if full then [] else current')
      units
      (AreWithin-close full max_chars texts' current'
        (AreWithin-close over max_chars texts current hs h) fits)
      (Fits-full full max_chars current' fits) us.1
  where
    over : Bool
    over = not (is_empty current) && ltb max_chars (length (join blank_line (current ++ unit ∷ [])))

    texts' : List Chars
    texts' = if over then texts ++ joined current ∷ [] else texts

    current' : List Chars
    current' = if over then unit ∷ [] else current ++ unit ∷ []

    full : Bool
    full = leb target_chars (length (join blank_line current'))

-- The texts of chunks are within the maximal length, if no word of a unit, and no white space between
-- its words, is longer.
pub chunk_texts-AreWithin :
    (max_chars target_chars : ℕ) (body : Chars)
    → HasShortPieces max_chars (split_units body)
    → AreWithin max_chars (chunk_texts max_chars target_chars body)
unfolding chunk_texts join
chunk_texts-AreWithin max_chars target_chars body h =
    texts_from-AreWithin max_chars target_chars [] [] (split_all max_chars (split_units body)) tt
      (omega arith) (split_all-AreWithin max_chars (split_units body) h)
