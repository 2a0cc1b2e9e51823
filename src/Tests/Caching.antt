-- ===== src/Tests/Caching.antt =====
-- A cache for one result.
use sqlgen.Strings.{same}
use sqlgen.Prelude.{ℕ, some, [], ◌∷◌, ◌≡◌, refl, lit}
use sqlgen.Result.{Result, ok, error}
use sqlgen.Cache.{Cache, find, put, write_to_cache, run, fetch, erase, erase_oldest, min_element}
use sqlgen.Cache.Fetch.{
  IsValid, Written, empty, writes, Written-IsValid, find-write_to_cache, fetch_again,
}

abbrev no_results : Cache ℕ
no_results = record { entries = []; counter = 0 }

-- The second result takes the place of the first.
abbrev two_queries : Cache ℕ
two_queries =
    write_to_cache 1 (lit "B") (ok 5) (write_to_cache 1 (lit "A") (error (lit "busy")) no_results)

two_queries-Written : Written 1 two_queries
two_queries-Written = writes (lit "B") (ok 5) (writes (lit "A") (error (lit "busy")) empty)

only_the_last :
    two_queries
    ≡ record { entries = record { sql = lit "B"; future = ok 5; count = 1 } ∷ []; counter = 2 }
unfolding write_to_cache put same erase erase_oldest min_element lit
only_the_last = refl

Written-IsValid_example : IsValid 1 two_queries
Written-IsValid_example = Written-IsValid 1 two_queries-Written

find-write_to_cache_example :
    find (lit "A") (write_to_cache 1 (lit "A") (ok 7) two_queries).entries ≡ some (ok 7)
find-write_to_cache_example = find-write_to_cache 1 (lit "A") (ok 7) two_queries-Written

-- The query counts the rows of its database, a number here.
abbrev count_rows : ℕ → Result ℕ × ℕ
count_rows rows = (ok rows, rows)

-- Two databases, of 3 rows and of 8.
fetch_again_example :
    let c = (fetch 1 (lit "A") count_rows two_queries 3).1 in
    fetch 1 (lit "A") count_rows c 8 ≡ (ok 3, c, 8)
unfolding fetch run write_to_cache find put same erase erase_oldest min_element lit
fetch_again_example = fetch_again 1 (lit "A") two_queries-Written count_rows 3 3 refl count_rows 8
