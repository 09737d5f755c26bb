-- ===== src/Config.antt =====
-- The rendering of a flat file of keys and values (applyLineKV, lineKeys, oneLine, splitLines and
-- joinLines of internal/configfile/configfile.go). A text is the list of its code points.

pub mod Trim
pub mod Lines
pub mod Keys
pub mod Render
pub mod Twice
pub mod Origin
mod Tests
use quetzal.Prelude.{
  ℕ, Bool, true, false, not, ◌&&◌, ◌||◌, Option, none, some, List, [], ◌∷◌, ◌++◌, map, ◌==◌,
  if◌then◌else◌, ltb, select, any, is_space, is_some,
}

abbrev pub Text : Type 0
Text = List ℕ

unfoldable pub text_eq : Text → Text → Bool
text_eq [] [] = true
text_eq [] (d ∷ ds) = false
text_eq (c ∷ cs) [] = false
text_eq (c ∷ cs) (d ∷ ds) = (c == d) && text_eq cs ds

-- `a <= b` on strings.
unfoldable pub text_le : Text → Text → Bool
text_le [] t = true
text_le (c ∷ cs) [] = false
text_le (c ∷ cs) (d ∷ ds) = ltb c d || ((c == d) && text_le cs ds)

-- `strings.TrimSpace`.

unfoldable pub all_space : Text → Bool
all_space [] = true
all_space (c ∷ cs) = is_space c && all_space cs

unfoldable pub trim_left : Text → Text
trim_left [] = []
trim_left (c ∷ cs) = if is_space c then trim_left cs else c ∷ cs

unfoldable pub trim_right : Text → Text
unfolding all_space
trim_right [] = []
trim_right (c ∷ cs) = if is_space c && all_space cs then [] else c ∷ trim_right cs

unfoldable pub trim : Text → Text
unfolding trim_left trim_right
trim t = trim_left (trim_right t)

-- Lines.

abbrev pub newline : ℕ
newline = 10

abbrev pub carriage : ℕ
carriage = 13

-- `strings.TrimRight(l, "\r")`.
unfoldable pub all_carriage : Text → Bool
all_carriage [] = true
all_carriage (c ∷ cs) = (c == carriage) && all_carriage cs

unfoldable pub trim_carriage : Text → Text
unfolding all_carriage
trim_carriage [] = []
trim_carriage (c ∷ cs) = if (c == carriage) && all_carriage cs then [] else c ∷ trim_carriage cs

-- Puts a character before the first line.
abbrev pub push : ℕ → List Text → List Text
push c [] = (c ∷ []) ∷ []
push c (l ∷ ls) = (c ∷ l) ∷ ls

-- `strings.Split(s, "\n")`.
unfoldable pub split : Text → List Text
split [] = [] ∷ []
split (c ∷ cs) = let rest = split cs in if c == newline then [] ∷ rest else push c rest

-- `strings.TrimSuffix(s, "\n")`.
unfoldable pub trim_suffix : Text → Text
trim_suffix [] = []
trim_suffix (c ∷ []) = if c == newline then [] else c ∷ []
trim_suffix (c ∷ d ∷ cs) = c ∷ trim_suffix (d ∷ cs)

unfoldable pub split_lines : Text → List Text
unfolding split trim_suffix trim_carriage
split_lines [] = []
split_lines (c ∷ cs) = map trim_carriage (split (trim_suffix (c ∷ cs)))

-- `strings.Join(lines, "\n") + "\n"`.
unfoldable pub join_lines : List Text → Text
join_lines [] = []
join_lines (l ∷ ls) = l ++ (newline ∷ join_lines ls)

abbrev pub one_char : ℕ → ℕ
one_char c = if (c == newline) || (c == carriage) then 32 else c

unfoldable pub one_line : Text → Text
one_line t = map one_char t

-- Keys and values.

abbrev pub Values : Type 0
Values = List (Text × Text)

unfoldable pub lookup : Text → Values → Option Text
unfolding text_eq
lookup k [] = none
lookup k ((j, v) ∷ m) = if text_eq j k then some v else lookup k m

-- `out[k] = v`.
unfoldable pub put : Text → Text → Values → Values
unfolding text_eq
put k v [] = (k, v) ∷ []
put k v ((j, w) ∷ m) = if text_eq j k then (j, v) ∷ m else (j, w) ∷ put k v m

unfoldable pub insert_key : Text → List Text → List Text
unfolding text_le
insert_key k [] = k ∷ []
insert_key k (j ∷ js) = if text_le k j then k ∷ j ∷ js else j ∷ insert_key k js

unfoldable pub sort_keys : List Text → List Text
unfolding insert_key
sort_keys [] = []
sort_keys (k ∷ ks) = insert_key k (sort_keys ks)

abbrev pub keys : Values → List Text
keys m = map (λ e. e.0) m

abbrev pub or_empty : Option Text → Text
or_empty none = []
or_empty (some t) = t

abbrev pub value_of : Text → Values → Text
value_of k m = or_empty (lookup k m)

-- `strings.ContainsAny(key, "\r\n")`.
abbrev pub breaks : ℕ → Bool
breaks c = (c == carriage) || (c == newline)

-- One of "#", "!" and ";".
abbrev pub marks_comment : ℕ → Bool
marks_comment c = (c == 35) || ((c == 33) || (c == 59))

abbrev pub starts_comment : Text → Bool
starts_comment [] = true
starts_comment (c ∷ cs) = marks_comment c

module _ (sep : ℕ) where
  -- Whether a line can hold the key, which is trimmed.
  unfoldable pub fits_line : Text → Bool
  fits_line key =
      not (starts_comment key) && (not (any breaks key) && not (any (λ c. c == sep) key))

  -- The loop of `lineKeys` over the sorted keys.
  unfoldable pub collect : Values → List Text → Values → Values
  unfolding lookup put trim fits_line one_line
  collect vals [] out = out
  collect vals (k ∷ ks) out =
      collect vals ks
        (if fits_line (trim k) then put (trim k) (one_line (value_of k vals)) out else out)

  unfoldable pub line_keys : Values → Values
  unfolding collect sort_keys
  line_keys vals = collect vals (sort_keys (keys vals)) []

  -- What stands before the first separator.
  unfoldable pub before : Text → Option Text
  before [] = none
  before (c ∷ cs) =
      if c == sep then some [] else elim (before cs) [ none ↦ none | some t ↦ some (c ∷ t) ]

  abbrev pub trimmed : Option Text → Option Text
  trimmed none = none
  trimmed (some t) = some (trim t)

  -- The key of a line, unless it is blank, a comment or has no separator.
  unfoldable pub key_of : Text → Option Text
  unfolding trim before
  key_of line = if starts_comment (trim line) then none else trimmed (before line)

  unfoldable pub format_kv : Text → Text → Text
  format_kv k v = k ++ (sep ∷ v)

  abbrev pub with_value : Text → Text → Option Text → Text
  with_value line k none = line
  with_value line k (some v) = format_kv k v

  abbrev pub with_key : Values → Text → Option Text → Text
  with_key vals line none = line
  with_key vals line (some k) = with_value line k (lookup k vals)

  unfoldable pub patch : Values → Text → Text
  unfolding key_of lookup format_kv
  patch vals line = with_key vals line (key_of line)

  abbrev pub is_key : Text → Option Text → Bool
  is_key k none = false
  is_key k (some j) = text_eq j k

  -- `applied[k]`.
  unfoldable pub applied : Text → List Text → Bool
  unfolding key_of text_eq
  applied k lines = any (λ l. is_key k (key_of l)) lines

  unfoldable pub apply_lines : Values → List Text → List Text
  unfolding patch applied sort_keys format_kv lookup
  apply_lines vals lines =
      map (patch vals) lines
      ++ map (λ k. format_kv k (value_of k vals))
          (sort_keys (select (λ k. not (applied k lines)) (keys vals)))

  -- `applyLineKV` on the file's contents, with no blanks around the separator.
  unfoldable pub apply_line_kv : Values → Text → Text
  unfolding line_keys split_lines apply_lines join_lines
  apply_line_kv vals text = join_lines (apply_lines (line_keys vals) (split_lines text))
