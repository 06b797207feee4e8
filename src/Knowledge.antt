-- ===== src/Knowledge.antt =====
-- The chunks of knowledge documents, src/flowsec/rag/ingestion.py. A text is the list of its
-- characters; white space and line breaks are ASCII. How a file is read and its front matter parsed is
-- left out: a document comes with its id and its body, in which every line ends in a line feed.
pub mod Visible
pub mod Kept
pub mod Bounds
use flow_security_agent.Prelude.Chars.{Chars, rstrip, strip}
use flow_security_agent.Prelude.Text.{is_space, show_nat, ◌<>◌}
use flow_security_agent.Prelude.{
  ℕ, zero, suc, ◌+◌, String, Bool, true, false, not, ◌&&◌, ◌||◌, List, [], ◌∷◌, ◌++◌, Option, none,
  some, map, any, ltb, leb, ◌==◌, keep_if, length, is_empty, str_eq, if◌then◌else◌,
}

-- Where `str.splitlines` breaks.
unfoldable pub is_break : ℕ → Bool
is_break c = leb 10 c && leb c 13 || leb 28 c && leb c 30

-- The first line of a text, and the lines behind its end.
unfoldable pub split_first : Chars → Chars × List Chars
unfolding is_break
split_first [] = ([], [])
split_first (c ∷ cs) =
    let (line, lines) = split_first cs in
    if is_break c then ([], if is_empty cs then [] else line ∷ lines) else (c ∷ line, lines)

unfoldable pub split_lines : Chars → List Chars
unfolding split_first
split_lines s = let (line, lines) = split_first s in if is_empty s then [] else line ∷ lines

unfoldable pub join : Chars → List Chars → Chars
join sep [] = []
join sep (x ∷ []) = x
join sep (x ∷ y ∷ ys) = x ++ (sep ++ join sep (y ∷ ys))

unfoldable pub is_heading : Chars → Bool
is_heading [] = false
is_heading (c ∷ cs) = c == b'#'

unfoldable pub flush : List Chars → List Chars
unfolding strip join
flush [] = []
flush (line ∷ lines) = strip (join (10 ∷ []) (line ∷ lines)) ∷ []

-- The loop of `_split_units`, from the lines that are gathered.
unfoldable pub units_from : List Chars → List Chars → List Chars
unfolding flush is_heading rstrip strip
units_from current [] = flush current
units_from current (line ∷ lines) =
    let boundary = is_heading line || is_empty (strip line) in
    let rest = units_from (if boundary then [] else current ++ rstrip line ∷ []) lines in
    if boundary
    then flush current ++ (if is_heading line then strip line ∷ rest else rest)
    else rest

unfoldable pub has_text : Chars → Bool
has_text s = not (is_empty s)

unfoldable pub split_units : Chars → List Chars
unfolding units_from split_lines has_text
split_units body = keep_if has_text (units_from [] (split_lines body))

unfoldable pub push_char : ℕ → List Chars → List Chars
push_char c [] = (c ∷ []) ∷ []
push_char c ([] ∷ ps) = (c ∷ []) ∷ ps
push_char c ((d ∷ ds) ∷ ps) =
    if is_space c && is_space d || not (is_space c) && not (is_space d)
    then (c ∷ d ∷ ds) ∷ ps
    else (c ∷ []) ∷ (d ∷ ds) ∷ ps

-- `re.split(r"(\s+)", unit)` of a text that neither begins nor ends in white space.
unfoldable pub pieces : Chars → List Chars
unfolding push_char
pieces [] = []
pieces (c ∷ cs) = push_char c (pieces cs)

-- The loop of `_split_long_unit`, from the text that is gathered.
unfoldable pub parts_from : ℕ → Chars → List Chars → List Chars
unfolding strip
parts_from max_chars current [] = if is_empty (strip current) then [] else strip current ∷ []
parts_from max_chars current (word ∷ words) =
    let over = not (is_empty current) && ltb max_chars (length current + length word) in
    let rest = parts_from max_chars (if over then word else current ++ word) words in
    if over then strip current ∷ rest else rest

unfoldable pub split_long_unit : ℕ → Chars → List Chars
unfolding parts_from pieces
split_long_unit max_chars unit =
    if leb (length unit) max_chars then unit ∷ [] else parts_from max_chars [] (pieces unit)

unfoldable pub split_all : ℕ → List Chars → List Chars
unfolding split_long_unit
split_all max_chars [] = []
split_all max_chars (unit ∷ units) = split_long_unit max_chars unit ++ split_all max_chars units

abbrev pub blank_line : Chars
blank_line = 10 ∷ 10 ∷ []

-- `texts[-1] = ...`, or the tail as a text of its own.
unfoldable pub add_tail : ℕ → Chars → List Chars → List Chars
add_tail max_chars tail [] = tail ∷ []
add_tail max_chars tail (t ∷ []) =
    if leb (length t + length tail + 2) max_chars
    then (t ++ (blank_line ++ tail)) ∷ []
    else t ∷ tail ∷ []
add_tail max_chars tail (t ∷ u ∷ ts) = t ∷ add_tail max_chars tail (u ∷ ts)

unfoldable pub joined : List Chars → Chars
unfolding strip join
joined current = strip (join blank_line current)

-- The loop over the units, from the texts that are done and the units that are gathered.
unfoldable pub texts_from : ℕ → ℕ → List Chars → List Chars → List Chars → List Chars
unfolding joined add_tail
texts_from max_chars target_chars texts current [] =
    if is_empty current then texts else add_tail max_chars (joined current) texts
texts_from max_chars target_chars texts current (unit ∷ units) =
    let over =
      not (is_empty current) && ltb max_chars (length (join blank_line (current ++ unit ∷ []))) in
    let texts' = if over then texts ++ joined current ∷ [] else texts in
    let current' = if over then unit ∷ [] else current ++ unit ∷ [] in
    let full = leb target_chars (length (join blank_line current')) in
    texts_from max_chars target_chars (if full then texts' ++ joined current' ∷ [] else texts')
      (if full then [] else current') units

-- The texts of the chunks of a body.
unfoldable pub chunk_texts : ℕ → ℕ → Chars → List Chars
unfolding split_units split_all texts_from
chunk_texts max_chars target_chars body =
    texts_from max_chars target_chars [] [] (split_all max_chars (split_units body))
