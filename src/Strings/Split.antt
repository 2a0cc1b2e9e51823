-- ===== src/Strings/Split.antt =====
-- `split` ends for a non-empty delimiter; its pieces hold no delimiter and join to the text.
use sqlgen.Prelude.{
  ℕ, zero, suc, ◌+◌, ◌<◌, none, some, List, [], ◌∷◌, ◌++◌, ◌≡◌, ◌≢◌, sym, ◌∙◌, ap, inl, inr, arith,
  Text, length, take, drop, All, append_assoc, append-nil, Option-cases, length-drop,
}
use sqlgen.Strings.{find_first, find, split, split_loop, join}
use sqlgen.Strings.Find.{find_first-le, find_first-eq, find_first-take, find_zero, length-pos}
use sqlgen.Strings.Join.{separated, join-cons}

-- What the loop leaves for `str`: the first piece and the others.
abbrev pub Lacks : Text → Text → Type 0
Lacks delimiter piece = find_first delimiter piece ≡ none

record Pieces (delimiter str : Text) (piece : Text) (others : List Text) : Type 0 where
  glued : piece ++ separated delimiter others ≡ str
  first_lacks : Lacks delimiter piece
  others_lack : All (Lacks delimiter) others

split_loop_done :
    (fuel : ℕ) (str delimiter : Text) (result : List Text)
    → find_first delimiter str ≡ none
    → split_loop (suc fuel) str delimiter result ≡ some (result ++ str ∷ [])
unfolding split_loop
split_loop_done fuel str delimiter result e =
    let q : find str delimiter 0 ≡ none = rw find_zero e in rw (q, split_loop)

split_loop_hit :
    (fuel : ℕ) (str delimiter : Text) (result : List Text) (pos : ℕ)
    → find_first delimiter str ≡ some pos
    → split_loop (suc fuel) str delimiter result
      ≡ split_loop fuel (drop (pos + length delimiter) str) delimiter (result ++ take pos str ∷ [])
unfolding split_loop
split_loop_hit fuel str delimiter result pos e =
    let q : find str delimiter 0 ≡ some pos = rw find_zero e in rw (q, split_loop)

split_loop-Pieces :
    (delimiter : Text) (fuel : ℕ) (str : Text) (result : List Text)
    → delimiter ≢ []
    → length str < fuel
    → (piece : Text) × (others : List Text) × (split_loop fuel str delimiter result
        ≡ some (result ++ piece ∷ others))
      × Pieces delimiter str piece others
split_loop-Pieces delimiter zero str result ne h = absurd (omega arith)
split_loop-Pieces delimiter (suc fuel) str result ne h =
    elim (Option-cases (find_first delimiter str)) [
      | inl e ↦ (
        str,
        [],
        split_loop_done fuel str delimiter result e,
        record { glued = append-nil str; first_lacks = e; others_lack = tt },
      )
      | inr (pos, e) ↦
          let rest = drop (pos + length delimiter) str in
          let (piece, others, q, p) =
            split_loop-Pieces delimiter fuel rest (result ++ take pos str ∷ []) ne (
              omega (
                arith,
                length-drop (pos + length delimiter) str,
                find_first-le delimiter str pos e,
                length-pos delimiter ne,
              )) in
          (
            take pos str,
            piece ∷ others,
            split_loop_hit fuel str delimiter result pos e
                ∙ q
                ∙ ap some (append_assoc result (take pos str ∷ []) (piece ∷ others)),
            record {
              glued =
                  ap (λ t. take pos str ++ (delimiter ++ t)) p.glued
                  ∙ sym (find_first-eq delimiter str pos e);
              first_lacks = find_first-take delimiter str pos ne e;
              others_lack = (p.first_lacks, p.others_lack);
            },
          )
    ]

-- For a non-empty delimiter `split` ends, none of its pieces holds the delimiter, and joining the
-- pieces by the delimiter gives the text back.
pub join-split :
    (str delimiter : Text)
    → delimiter ≢ []
    → (pieces : List Text) × (split str delimiter ≡ some pieces)
      × All (Lacks delimiter) pieces
      × (join delimiter pieces ≡ str)
unfolding split
join-split str delimiter ne =
    let (piece, others, e, p) =
      split_loop-Pieces delimiter (suc (length str)) str [] ne (omega arith) in
    (piece ∷ others, e, (p.first_lacks, p.others_lack), join-cons delimiter piece others ∙ p.glued)
