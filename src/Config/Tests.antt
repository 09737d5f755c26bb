-- ===== src/Config/Tests.antt =====
-- A flat file of two lines, and the results of Config on it.
use quetzal.Prelude.{ℕ, true, [], ◌∷◌, ◌≡◌, refl, All, Memᴰ, is_space}
use quetzal.Config.{
  Text, Values, lookup, keys, line_keys, applied, apply_lines, apply_line_kv, split_lines,
  join_lines, split, trim_suffix, trim_carriage, all_carriage, text_eq, text_le, put, insert_key,
  sort_keys, trim_left, trim_right, trim, all_space, one_line, fits_line, collect, before, key_of,
  format_kv, patch,
}
use quetzal.Config.Twice.{apply_line_kv_twice}
use quetzal.Config.Origin.{Origin, apply_line_kv-Origin}

-- "=".
abbrev equals : ℕ
equals = 61

-- "#x", "a=b" and "z".
abbrev old_file : Text
old_file = 35 ∷ 120 ∷ 10 ∷ 97 ∷ 61 ∷ 98 ∷ 10 ∷ 122 ∷ []

-- "a" is to be "c" and a second line "p=q", "k" is to be empty, and "k" with a "#" before it "y".
abbrev wanted : Values
wanted = (97 ∷ [], 99 ∷ 10 ∷ 112 ∷ 61 ∷ 113 ∷ []) ∷ (107 ∷ [], []) ∷ (35 ∷ 107 ∷ [], 121 ∷ []) ∷ []

-- The old line of "a" holds the value on one line, and the line of "k" is added.
rendered :
    apply_line_kv equals wanted old_file
    ≡ 35 ∷ 120 ∷ 10 ∷ 97 ∷ 61 ∷ 99 ∷ 32 ∷ 112 ∷ 61 ∷ 113 ∷ 10 ∷ 122 ∷ 10 ∷ 107 ∷ 61 ∷ 10 ∷ []
unfolding lookup line_keys applied apply_lines apply_line_kv split_lines join_lines split
    trim_suffix trim_carriage all_carriage text_eq text_le put insert_key sort_keys trim_left
    trim_right trim all_space one_line fits_line collect before key_of format_kv patch is_space
rendered = refl

apply_line_kv_twice_example :
    apply_line_kv equals wanted (apply_line_kv equals wanted old_file)
    ≡ apply_line_kv equals wanted old_file
apply_line_kv_twice_example = apply_line_kv_twice equals wanted old_file refl

apply_line_kv-Origin_example :
    All
      (Origin equals (line_keys equals wanted) (split_lines old_file))
      (split_lines (apply_line_kv equals wanted old_file))
    × ((k : Text)
        → Memᴰ k (keys (line_keys equals wanted))
        → applied equals k (split_lines (apply_line_kv equals wanted old_file)) ≡ true)
apply_line_kv-Origin_example = apply_line_kv-Origin equals wanted old_file refl
