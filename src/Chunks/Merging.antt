-- ===== src/Chunks/Merging.antt =====
-- Merging a chunk with the one before, and with the one after.
use bachelor_thesis.Prelude.{
  suc, ◌≡◌, refl, Bool, true, false, some, List, [], ◌∷◌, ◌++◌, arith, eq_refl, leb, length,
  get_elem?, length-append, All,
}
use bachelor_thesis.Chunks.{
  TranscriptChunk, find_index, has_chunk_id, merge_of, handle_merge_with_prev,
  handle_merge_with_next,
}

find_index-append :
    {A : Type 0} (p : A → Bool) (xs : List A) (y : A) (ys : List A)
    → All (λ x. p x ≡ false) xs
    → p y ≡ true
    → find_index p (xs ++ y ∷ ys) ≡ some (length xs)
unfolding find_index
find_index-append p [] y ys h k = rw k refl
find_index-append p (x ∷ xs) y ys (h, hs) k = rw (h, find_index-append p xs y ys hs k) refl

get_elem?-append :
    {A : Type 0} (xs : List A) (y : A) (ys : List A) → get_elem? (xs ++ y ∷ ys) (length xs) ≡ some y
get_elem?-append [] y ys = refl
get_elem?-append (x ∷ xs) y ys = get_elem?-append xs y ys

get_elem?-next :
    {A : Type 0} (xs : List A) (y z : A) (ys : List A)
    → get_elem? (xs ++ y ∷ z ∷ ys) (suc (length xs)) ≡ some z
get_elem?-next [] y z ys = refl
get_elem?-next (x ∷ xs) y z ys = get_elem?-next xs y z ys

find_index-next :
    {A : Type 0} (p : A → Bool) (xs : List A) (y z : A) (ys : List A)
    → All (λ x. p x ≡ false) xs
    → p y ≡ false
    → p z ≡ true
    → find_index p (xs ++ y ∷ z ∷ ys) ≡ some (suc (length xs))
unfolding find_index
find_index-next p [] y z ys h k l = rw (k, l) refl
find_index-next p (x ∷ xs) y z ys (h, hs) k l = rw (h, find_index-next p xs y z ys hs k l) refl

not_last :
    (xs : List TranscriptChunk) (a b : TranscriptChunk) (ys : List TranscriptChunk)
    → leb (length (xs ++ a ∷ b ∷ ys)) (suc (length xs)) ≡ false
not_last xs a b ys = rw (length-append xs (a ∷ b ∷ ys)) (ground arith)

-- Where no other chunk before them has their ids, merging a chunk with the one before it and merging
-- that one with the one after it ask the service for the same: the second is merged into the first.
pub handle_merge_with_prev-merge_of :
    (xs : List TranscriptChunk) (a b : TranscriptChunk) (ys : List TranscriptChunk)
    → All (λ c. has_chunk_id a.id c ≡ false) xs
    → All (λ c. has_chunk_id b.id c ≡ false) xs
    → has_chunk_id b.id a ≡ false
    → (handle_merge_with_prev (xs ++ a ∷ b ∷ ys) b.id ≡ some (merge_of b.id a.id b.id))
      × (handle_merge_with_next (xs ++ a ∷ b ∷ ys) a.id ≡ some (merge_of a.id a.id b.id))
unfolding handle_merge_with_prev handle_merge_with_next
handle_merge_with_prev-merge_of xs a b ys h k l = (
  rw
      (
        find_index-next (has_chunk_id b.id) xs a b ys k l (eq_refl b.id),
        get_elem?-append xs a (b ∷ ys),
      )
      refl,
  rw
      (
        find_index-append (has_chunk_id a.id) xs a (b ∷ ys) h (eq_refl a.id),
        not_last xs a b ys,
        get_elem?-next xs a b ys,
      )
      refl,
)
