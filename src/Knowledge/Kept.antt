-- ===== src/Knowledge/Kept.antt =====
-- What a body's chunks show, against what the body shows.
use mathlib.Core.List.{append-nil, append_assoc}
use flow_security_agent.Knowledge.Visible.{
  all_visible, all_visible-append, keep_if-visible, pieces-visible, split_lines-visible, visible,
  visible-append, visible-blank, visible-join, visible-rstrip, visible-strip,
}
use flow_security_agent.Knowledge.{
  add_tail, blank_line, chunk_texts, flush, is_heading, join, joined, parts_from, pieces, split_all,
  split_lines, split_long_unit, split_units, texts_from, units_from,
}
use flow_security_agent.Prelude.Chars.{Chars, rstrip, strip}
use flow_security_agent.Prelude.{
  ℕ, ◌+◌, ◌≡◌, refl, sym, ap, ◌∙◌, Bool, true, false, not, ◌&&◌, List, [], ◌∷◌, ◌++◌, inl, inr, leb,
  ltb, length, is_empty, Bool-cases, if◌then◌else◌,
}

flush-visible : (current : List Chars) → all_visible (flush current) ≡ all_visible current
unfolding flush
flush-visible [] = refl
flush-visible (line ∷ lines) =
    append-nil (visible (strip (join (10 ∷ []) (line ∷ lines))))
    ∙ visible-strip (join (10 ∷ []) (line ∷ lines))
    ∙ visible-join (10 ∷ []) (line ∷ lines) refl

-- A text at the end of texts.
all_visible-snoc :
    (xs : List Chars) (x : Chars) → all_visible (xs ++ x ∷ []) ≡ all_visible xs ++ visible x
all_visible-snoc xs x =
    all_visible-append xs (x ∷ []) ∙ ap (λ r. all_visible xs ++ r) (append-nil (visible x))

units_from-visible :
    (current lines : List Chars)
    → all_visible (units_from current lines) ≡ all_visible current ++ all_visible lines
unfolding units_from
units_from-visible current [] = flush-visible current ∙ sym (append-nil (all_visible current))
units_from-visible current (line ∷ lines) = elim (Bool-cases (is_heading line)) [
  | inl heading ↦
      rw (heading, units_from)
        (all_visible-append (flush current) (strip line ∷ units_from [] lines)
          ∙ ap (λ r. r ++ all_visible (strip line ∷ units_from [] lines)) (flush-visible current)
          ∙ ap (λ r. all_visible current ++ (r ++ all_visible (units_from [] lines)))
              (visible-strip line)
          ∙ ap (λ r. all_visible current ++ (visible line ++ r)) (units_from-visible [] lines))
  | inr plain ↦ elim (Bool-cases (is_empty (strip line))) [
    | inl blank ↦
        rw (plain, blank, units_from)
          (all_visible-append (flush current) (units_from [] lines)
            ∙ ap (λ r. r ++ all_visible (units_from [] lines)) (flush-visible current)
            ∙ ap (λ r. all_visible current ++ r) (units_from-visible [] lines)
            ∙ ap (λ r. all_visible current ++ (r ++ all_visible lines))
                (sym (visible-blank line blank)))
    | inr filled ↦
        rw (plain, filled, units_from)
          (units_from-visible (current ++ rstrip line ∷ []) lines
            ∙ ap (λ r. r ++ all_visible lines)
                (all_visible-snoc current (rstrip line)
                  ∙ ap (λ r. all_visible current ++ r) (visible-rstrip line))
            ∙ append_assoc (all_visible current) (visible line) (all_visible lines))
  ]
]

split_units-visible : (body : Chars) → all_visible (split_units body) ≡ visible body
unfolding split_units
split_units-visible body =
    keep_if-visible (units_from [] (split_lines body))
    ∙ units_from-visible [] (split_lines body)
    ∙ split_lines-visible body

parts_from-visible :
    (max_chars : ℕ) (current : Chars) (words : List Chars)
    → all_visible (parts_from max_chars current words) ≡ visible current ++ all_visible words
unfolding parts_from
parts_from-visible max_chars current [] = elim (Bool-cases (is_empty (strip current))) [
  | inl blank ↦
      rw (blank, parts_from)
        (sym (visible-blank current blank) ∙ sym (append-nil (visible current)))
  | inr filled ↦ rw (filled, parts_from) (ap (λ r. r ++ []) (visible-strip current))
]
parts_from-visible max_chars current (word ∷ words) =
    elim (Bool-cases (not (is_empty current) && ltb max_chars (length current + length word))) [
      | inl over ↦
          rw (over, parts_from)
            (ap (λ r. r ++ all_visible (parts_from max_chars word words)) (visible-strip current)
              ∙ ap (λ r. visible current ++ r) (parts_from-visible max_chars word words))
      | inr fits ↦
          rw (fits, parts_from)
            (parts_from-visible max_chars (current ++ word) words
              ∙ ap (λ r. r ++ all_visible words) (visible-append current word)
              ∙ append_assoc (visible current) (visible word) (all_visible words))
    ]

split_long_unit-visible :
    (max_chars : ℕ) (unit : Chars) → all_visible (split_long_unit max_chars unit) ≡ visible unit
unfolding split_long_unit
split_long_unit-visible max_chars unit = elim (Bool-cases (leb (length unit) max_chars)) [
  | inl fits ↦ rw (fits, split_long_unit) (append-nil (visible unit))
  | inr long ↦
      rw (long, split_long_unit)
        (parts_from-visible max_chars [] (pieces unit) ∙ pieces-visible unit)
]

split_all-visible :
    (max_chars : ℕ) (units : List Chars)
    → all_visible (split_all max_chars units) ≡ all_visible units
unfolding split_all
split_all-visible max_chars [] = refl
split_all-visible max_chars (unit ∷ units) =
    all_visible-append (split_long_unit max_chars unit) (split_all max_chars units)
    ∙ ap (λ r. r ++ all_visible (split_all max_chars units))
        (split_long_unit-visible max_chars unit)
    ∙ ap (λ r. visible unit ++ r) (split_all-visible max_chars units)

add_tail-visible :
    (max_chars : ℕ) (tail : Chars) (texts : List Chars)
    → all_visible (add_tail max_chars tail texts) ≡ all_visible texts ++ visible tail
unfolding add_tail
add_tail-visible max_chars tail [] = append-nil (visible tail)
add_tail-visible max_chars tail (t ∷ []) =
    elim (Bool-cases (leb (length t + length tail + 2) max_chars)) [
      | inl fits ↦
          rw (fits, add_tail)
            (append-nil (visible (t ++ (blank_line ++ tail)))
              ∙ visible-append t (blank_line ++ tail)
              ∙ ap (λ r. r ++ visible tail) (sym (append-nil (visible t))))
      | inr over ↦ rw (over, add_tail) (all_visible-snoc (t ∷ []) tail)
    ]
add_tail-visible max_chars tail (t ∷ u ∷ ts) =
    ap (λ r. visible t ++ r) (add_tail-visible max_chars tail (u ∷ ts))
    ∙ sym (append_assoc (visible t) (all_visible (u ∷ ts)) (visible tail))

joined-visible : (current : List Chars) → visible (joined current) ≡ all_visible current
unfolding joined
joined-visible current =
    visible-strip (join blank_line current) ∙ visible-join blank_line current refl

texts_end :
    (max_chars : ℕ) (texts current : List Chars)
    → all_visible (if is_empty current then texts else add_tail max_chars (joined current) texts)
      ≡ all_visible texts ++ all_visible current
texts_end max_chars texts [] = sym (append-nil (all_visible texts))
texts_end max_chars texts (x ∷ xs) =
    add_tail-visible max_chars (joined (x ∷ xs)) texts
    ∙ ap (λ r. all_visible texts ++ r) (joined-visible (x ∷ xs))

-- Texts that are done, and gathered units behind them, may become one more text.
close_visible :
    (b : Bool) (texts current : List Chars)
    → all_visible (if b then texts ++ joined current ∷ [] else texts)
        ++ all_visible (if b then [] else current)
      ≡ all_visible texts ++ all_visible current
close_visible true texts current =
    append-nil (all_visible (texts ++ joined current ∷ []))
    ∙ all_visible-snoc texts (joined current)
    ∙ ap (λ r. all_visible texts ++ r) (joined-visible current)
close_visible false texts current = refl

-- The same where a unit is gathered next.
next_visible :
    (b : Bool) (texts current : List Chars) (unit : Chars)
    → all_visible (if b then texts ++ joined current ∷ [] else texts)
        ++ all_visible (if b then unit ∷ [] else current ++ unit ∷ [])
      ≡ (all_visible texts ++ all_visible current) ++ visible unit
next_visible true texts current unit =
    ap (λ r. r ++ (visible unit ++ []))
      (all_visible-snoc texts (joined current)
        ∙ ap (λ r. all_visible texts ++ r) (joined-visible current))
    ∙ ap (λ r. (all_visible texts ++ all_visible current) ++ r) (append-nil (visible unit))
next_visible false texts current unit =
    ap (λ r. all_visible texts ++ r) (all_visible-snoc current unit)
    ∙ sym (append_assoc (all_visible texts) (all_visible current) (visible unit))

texts_from-visible :
    (max_chars target_chars : ℕ) (texts current units : List Chars)
    → all_visible (texts_from max_chars target_chars texts current units)
      ≡ (all_visible texts ++ all_visible current) ++ all_visible units
unfolding texts_from
texts_from-visible max_chars target_chars texts current [] =
    texts_end max_chars texts current ∙ sym (append-nil (all_visible texts ++ all_visible current))
texts_from-visible max_chars target_chars texts current (unit ∷ units) =
    texts_from-visible max_chars target_chars
      (if full then texts' ++ joined current' ∷ [] else texts') (if full then [] else current')
      units
    ∙ ap (λ r. r ++ all_visible units)
        (close_visible full texts' current' ∙ next_visible over texts current unit)
    ∙ append_assoc (all_visible texts ++ all_visible current) (visible unit) (all_visible units)
  where
    over : Bool
    over = not (is_empty current) && ltb max_chars (length (join blank_line (current ++ unit ∷ [])))

    texts' : List Chars
    texts' = if over then texts ++ joined current ∷ [] else texts

    current' : List Chars
    current' = if over then unit ∷ [] else current ++ unit ∷ []

    full : Bool
    full = leb target_chars (length (join blank_line current'))

-- The texts of the chunks of a body show, in order, the characters that the body shows: all but white
-- space is kept, and nothing is repeated.
pub chunk_texts-visible :
    (max_chars target_chars : ℕ) (body : Chars)
    → all_visible (chunk_texts max_chars target_chars body) ≡ visible body
unfolding chunk_texts
chunk_texts-visible max_chars target_chars body =
    texts_from-visible max_chars target_chars [] [] (split_all max_chars (split_units body))
    ∙ split_all-visible max_chars (split_units body)
    ∙ split_units-visible body
