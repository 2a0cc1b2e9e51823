-- ===== src/Tests/Data.antt =====
-- Texts, numbers and rows on concrete inputs.
use mathlib.Core.List.{flat_map, flatten, reverse}
use sqlgen.Sqlite.Value.{clock_to_sql}
use sqlgen.Sqlite.Duration.{Spells, clock_to_sql-Spells}
use sqlgen.Prelude.{
  ◌+◌, ◌*◌, ◌≤◌, length, ◌<◌, ◌<<◌, ℕ, some, List, [], ◌∷◌, ◌++◌, ◌≡◌, ◌≢◌, Text, lit, arith, All,
}
use sqlgen.Strings.{replace_all, replace_loop, split, join, trim}
use sqlgen.Strings.Replace.{replace_loop_total, replace_all_byte, swap_byte}
use sqlgen.Strings.Split.{Lacks, join-split}
use sqlgen.Strings.Trim.{In, Starts, trim_lem}
use sqlgen.Batches.{batches, Fits, batches_lem}

comma_given : lit "," ≢ []
unfolding lit
comma_given e = cc

replace_loop_total_example :
    (r : Text) × (replace_loop 6 (lit "a,,,b") (lit ",") (lit ", ") 0 ≡ some r)
    × (replace_all (lit "a,,,b") (lit ",") (lit ", ") ≡ r)
unfolding lit
replace_loop_total_example = replace_loop_total (lit "a,,,b") (lit ",") (lit ", ") comma_given

replace_all_byte_example :
    replace_all (lit "'it''s'") (b'\'' ∷ []) (lit "''")
    ≡ flat_map (swap_byte b'\'' (lit "''")) (lit "'it''s'")
replace_all_byte_example = replace_all_byte (lit "'it''s'") (lit "''") b'\''

join-split_example :
    (pieces : List Text) × (split (lit ",a,,b") (lit ",") ≡ some pieces)
    × All (Lacks (lit ",")) pieces
    × (join (lit ",") pieces ≡ lit ",a,,b")
join-split_example = join-split (lit ",a,,b") (lit ",") comma_given

trim_lem_example :
    ((pre post : Text) × (lit "  a b " ≡ pre ++ (trim (lit "  a b ") (lit " ") ++ post))
      × All (In (lit " ")) pre
      × All (In (lit " ")) post)
    × Starts (lit " ") (trim (lit "  a b ") (lit " "))
    × Starts (lit " ") (reverse (trim (lit "  a b ") (lit " ")))
trim_lem_example = trim_lem (lit "  a b ") (lit " ")

-- 1 hour, 2 minutes, 3 seconds and 4 milliseconds.
clock_to_sql-Spells_example :
    (h m s ms : ℕ) × (hours minutes seconds millis : Text) × (clock_to_sql 3723004
      ≡ hours << lit ":" << minutes << lit ":" << seconds << lit "." << millis << lit "'")
    × (Spells h hours × Spells m minutes × Spells s seconds × Spells ms millis)
    × ((2 ≤ length hours) × (length minutes ≡ 2) × (length seconds ≡ 2) × (length millis ≡ 3))
    × ((m < 60) × (s < 60) × (ms < 1000))
    × (h * 3600000 + m * 60000 + s * 1000 + ms ≡ 3723004)
clock_to_sql-Spells_example = clock_to_sql-Spells 3723004

abbrev five_rows : List ℕ
five_rows = 10 ∷ 11 ∷ 12 ∷ 13 ∷ 14 ∷ []

-- Five rows in batches of two.
batches_lem_example :
    (flatten (batches 2 five_rows []) ≡ five_rows) × All (Fits 2) (batches 2 five_rows [])
batches_lem_example = batches_lem 2 five_rows (omega arith)
