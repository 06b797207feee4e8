-- ===== src/Knowledge/Visible.antt =====
-- The visible characters of texts, and what stripping, splitting and joining leave of them.
use mathlib.Core.List.{append-nil, append_assoc}
use flow_security_agent.Knowledge.{
  is_break, has_text, join, pieces, push_char, split_first, split_lines,
}
use flow_security_agent.Prelude.Chars.{Chars, lstrip, rstrip, strip}
use flow_security_agent.Prelude.Text.{is_space}
use flow_security_agent.Prelude.{
  ℕ, ◌≡◌, refl, sym, ap, ◌∙◌, Bool, true, not, ◌&&◌, ◌||◌, List, [], ◌∷◌, ◌++◌, inl, inr, arith,
  keep_if, is_empty, Bool-cases, if◌then◌else◌,
}

abbrev pub visible : Chars → Chars
visible = keep_if (λ c. not (is_space c))

-- The visible characters of texts, one text after the other.
abbrev pub all_visible : List Chars → Chars
all_visible [] = []
all_visible (x ∷ xs) = visible x ++ all_visible xs

pub visible-append : (s t : Chars) → visible (s ++ t) ≡ visible s ++ visible t
visible-append [] t = refl
visible-append (c ∷ s) t = elim (Bool-cases (is_space c)) [
  | inl space ↦ rw space (visible-append s t)
  | inr seen ↦ rw seen (ap (λ r. c ∷ r) (visible-append s t))
]

pub all_visible-append :
    (xs ys : List Chars) → all_visible (xs ++ ys) ≡ all_visible xs ++ all_visible ys
all_visible-append [] ys = refl
all_visible-append (x ∷ xs) ys =
    ap (λ r. visible x ++ r) (all_visible-append xs ys)
    ∙ sym (append_assoc (visible x) (all_visible xs) (all_visible ys))

pub is_empty→nil : {A : Type 0} (xs : List A) → is_empty xs ≡ true → xs ≡ []
is_empty→nil [] h = refl
is_empty→nil (x ∷ xs) h = cc

pub visible-rstrip : (s : Chars) → visible (rstrip s) ≡ visible s
unfolding rstrip
visible-rstrip [] = refl
visible-rstrip (c ∷ cs) = elim (Bool-cases (is_space c && is_empty (rstrip cs))) [
  | inl gone ↦
      let (space, empty) = both (is_space c) (is_empty (rstrip cs)) gone in
      rw (gone, rstrip)
        (rw space (ap visible (sym (is_empty→nil (rstrip cs) empty)) ∙ visible-rstrip cs))
  | inr kept ↦
      rw (kept, rstrip) (ap (λ r. if not (is_space c) then c ∷ r else r) (visible-rstrip cs))
]
  where
    both : (a b : Bool) → (a && b) ≡ true → (a ≡ true) × (b ≡ true)
    both a b h = ground arith

visible-lstrip : (s : Chars) → visible (lstrip s) ≡ visible s
unfolding lstrip
visible-lstrip [] = refl
visible-lstrip (c ∷ cs) = elim (Bool-cases (is_space c)) [
  | inl space ↦ rw (space, lstrip) (visible-lstrip cs)
  | inr seen ↦ ap (λ b. visible (if b then lstrip cs else c ∷ cs)) seen
]

pub visible-strip : (s : Chars) → visible (strip s) ≡ visible s
unfolding strip
visible-strip s = visible-lstrip (rstrip s) ∙ visible-rstrip s

-- A text of which stripping leaves nothing shows nothing.
pub visible-blank : (s : Chars) → is_empty (strip s) ≡ true → visible s ≡ []
visible-blank s h = sym (visible-strip s) ∙ ap visible (is_empty→nil (strip s) h)

pub visible-join :
    (sep : Chars) (xs : List Chars) → visible sep ≡ [] → visible (join sep xs) ≡ all_visible xs
unfolding join
visible-join sep [] h = refl
visible-join sep (x ∷ []) h = sym (append-nil (visible x))
visible-join sep (x ∷ y ∷ ys) h =
    visible-append x (sep ++ join sep (y ∷ ys))
    ∙ ap (λ r. visible x ++ r)
        (visible-append sep (join sep (y ∷ ys))
          ∙ ap (λ r. r ++ visible (join sep (y ∷ ys))) h
          ∙ visible-join sep (y ∷ ys) h)

is_break-space : (c : ℕ) → is_break c ≡ true → is_space c ≡ true
unfolding is_break
is_break-space c h = ground arith

split_first-visible :
    (s : Chars) → visible (split_first s).0 ++ all_visible (split_first s).1 ≡ visible s
unfolding split_first
split_first-visible [] = refl
split_first-visible (c ∷ cs) = elim (Bool-cases (is_break c)) [
  | inl end ↦ rw (end, split_first) (rw (is_break-space c end) (lines cs (split_first-visible cs)))
  | inr inside ↦
      rw (inside, split_first)
        (elim (Bool-cases (is_space c)) [
          | inl space ↦ rw space (split_first-visible cs)
          | inr seen ↦ rw seen (ap (λ r. c ∷ r) (split_first-visible cs))
        ])
]
  where
    lines :
        (cs : Chars)
        → visible (split_first cs).0 ++ all_visible (split_first cs).1 ≡ visible cs
        → all_visible (if is_empty cs then [] else (split_first cs).0 ∷ (split_first cs).1)
          ≡ visible cs
    lines [] h = refl
    lines (d ∷ ds) h = h

pub split_lines-visible : (s : Chars) → all_visible (split_lines s) ≡ visible s
unfolding split_lines split_first
split_lines-visible [] = refl
split_lines-visible (c ∷ cs) = split_first-visible (c ∷ cs)

pub keep_if-visible : (xs : List Chars) → all_visible (keep_if has_text xs) ≡ all_visible xs
unfolding has_text
keep_if-visible [] = refl
keep_if-visible ([] ∷ xs) = keep_if-visible xs
keep_if-visible ((c ∷ cs) ∷ xs) = ap (λ r. visible (c ∷ cs) ++ r) (keep_if-visible xs)

push_char-visible :
    (c : ℕ) (ps : List Chars) → all_visible (push_char c ps) ≡ visible (c ∷ []) ++ all_visible ps
unfolding push_char
push_char-visible c [] = refl
push_char-visible c ([] ∷ ps) = refl
push_char-visible c ((d ∷ ds) ∷ ps) =
    elim (Bool-cases (is_space c && is_space d || not (is_space c) && not (is_space d))) [
      | inl same ↦
          rw (same, push_char)
            (ap (λ r. r ++ all_visible ps) (visible-append (c ∷ []) (d ∷ ds))
              ∙ append_assoc (visible (c ∷ [])) (visible (d ∷ ds)) (all_visible ps))
      | inr other ↦ rw (other, push_char) refl
    ]

pub pieces-visible : (s : Chars) → all_visible (pieces s) ≡ visible s
unfolding pieces
pieces-visible [] = refl
pieces-visible (c ∷ cs) =
    push_char-visible c (pieces cs)
    ∙ ap (λ r. visible (c ∷ []) ++ r) (pieces-visible cs)
    ∙ sym (visible-append (c ∷ []) cs)
