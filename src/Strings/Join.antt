-- ===== src/Strings/Join.antt =====
-- `join` as an equation with no accumulator.
use sqlgen.Prelude.{List, [], ◌∷◌, ◌++◌, ◌≡◌, sym, Text, append_assoc, append-nil}
use sqlgen.Strings.{join, join_loop}

-- Each text behind the delimiter.
abbrev pub separated : Text → List Text → Text
separated delimiter [] = []
separated delimiter (s ∷ strings) = delimiter ++ (s ++ separated delimiter strings)

join_loop-separated :
    (delimiter res : Text) (strings : List Text)
    → join_loop delimiter strings res ≡ res ++ separated delimiter strings
unfolding join_loop
join_loop-separated delimiter res [] = sym (append-nil res)
join_loop-separated delimiter res (s ∷ strings) =
    simp (join_loop-separated delimiter (res ++ (delimiter ++ s)) strings, append_assoc)

pub join-cons :
    (delimiter s : Text) (strings : List Text)
    → join delimiter (s ∷ strings) ≡ s ++ separated delimiter strings
unfolding join
join-cons delimiter s strings = join_loop-separated delimiter s strings
