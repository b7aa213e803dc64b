-- ===== src/Query/Canonical.antt =====
-- Lists of texts that are trimmed, distinct and sorted, as the normal form of a request has them
-- (internal/query/contract.go): they are a fixed point of the normalization.
use stacks.Base.{
  suc, ◌≡◌, refl, sym, ap, ◌∙◌, true, false, not, List, [], ◌∷◌, map, Text, text_order, all, All,
  is_empty, trim_space, trim_space-trim_space, arith, length, sort_on, place, sort_on-Permᴰ,
  all-member, Bool-cases, inl, inr, cmp, is_lt,
}
use mathlib.Core.List.{Permᴰ, Nodup}
use mathlib.Core.List.Permᴰ
use mathlib.Core.List.Perm
use mathlib.Core.Path.{subst}
use stacks.Base.Distinct.{all_new, all_new-Nodup, Nodup-all_new}
use stacks.Base.Entries.{All-sort_on, All-map, All-map_to}
use stacks.Temporal.Plans.Accepted.{are_distinct}

place-Permᴰ : (x : Text) (xs : List Text) → Permᴰ (x ∷ xs) (place (λ t. t) x xs)
unfolding place
place-Permᴰ x [] = Permᴰ.refl (x ∷ [])
place-Permᴰ x (y ∷ ys) = elim (Bool-cases (is_lt (cmp y x))) [
  | inl e ↦ rw e (Permᴰ.trans (Permᴰ.swap refl refl) (Permᴰ.cons refl (place-Permᴰ x ys)))
  | inr e ↦ rw e (Permᴰ.refl (x ∷ y ∷ ys))
]

-- Sorting permutes.
sort_on-permutes : (xs : List Text) → Permᴰ xs (sort_on (λ t. t) xs)
unfolding sort_on
sort_on-permutes [] = Permᴰ.nil
sort_on-permutes (x ∷ xs) =
    Permᴰ.trans (Permᴰ.cons refl (sort_on-permutes xs)) (place-Permᴰ x (sort_on (λ t. t) xs))

length-Permᴰ : {xs ys : List Text} → Permᴰ xs ys → length xs ≡ length ys
length-Permᴰ Permᴰ.nil = refl
length-Permᴰ (Permᴰ.cons e p) = ap suc (length-Permᴰ p)
length-Permᴰ (Permᴰ.swap e f) = refl
length-Permᴰ (Permᴰ.trans p q) = length-Permᴰ p ∙ length-Permᴰ q

length-map : (f : Text → Text) (xs : List Text) → length (map f xs) ≡ length xs
length-map f [] = refl
length-map f (x ∷ xs) = ap suc (length-map f xs)

-- The normal form of a list of texts.
abbrev pub canonical : List Text → List Text
canonical inputs = sort_on (λ t. t) (map trim_space inputs)

abbrev IsTrimmed : Text → Type 0
IsTrimmed t = (trim_space t ≡ t) × (is_empty t ≡ false)

map-trimmed : (xs : List Text) → All IsTrimmed xs → map trim_space xs ≡ xs
map-trimmed [] h = refl
map-trimmed (x ∷ xs) h = rw (h.0.0, map-trimmed xs h.1) refl

all-trimmed :
    (xs : List Text) → All IsTrimmed xs → all (λ t. not (is_empty (trim_space t))) xs ≡ true
unfolding all
all-trimmed [] h = refl
all-trimmed (x ∷ xs) h = rw (h.0.0, h.0.1) (all-trimmed xs h.1)

canonical-IsTrimmed :
    (inputs : List Text)
    → all (λ t. not (is_empty (trim_space t))) inputs ≡ true
    → All IsTrimmed (canonical inputs)
canonical-IsTrimmed inputs h =
    All-sort_on IsTrimmed (λ t. t) (map trim_space inputs)
      (All-map IsTrimmed trim_space inputs (
        All-map_to _ (λ t. IsTrimmed (trim_space t)) inputs
          (λ t e. (trim_space-trim_space t, ground (arith, e)))
          (all-member (λ t. not (is_empty (trim_space t))) inputs h)))

map_same : (xs : List Text) → map (λ t. t) xs ≡ xs
map_same [] = refl
map_same (x ∷ xs) = ap (◌∷◌ x) (map_same xs)

named :
    (inputs : List Text)
    → are_distinct inputs [] ≡ true
    → all (λ t. not (is_empty (trim_space t))) inputs ≡ true
named inputs h = ground arith

trimmed_Nodup : (inputs : List Text) → are_distinct inputs [] ≡ true → Nodup (map trim_space inputs)
trimmed_Nodup inputs h = all_new-Nodup (map trim_space inputs) (ground arith)

pub length-canonical : (inputs : List Text) → length (canonical inputs) ≡ length inputs
length-canonical inputs =
    sym (length-Permᴰ (sort_on-permutes (map trim_space inputs))) ∙ length-map trim_space inputs

-- Texts that differ after trimming stay so.
pub canonical_distinct :
    (inputs : List Text) → are_distinct inputs [] ≡ true → are_distinct (canonical inputs) [] ≡ true
canonical_distinct inputs h =
    let trimmed = canonical-IsTrimmed inputs (named inputs h) in
    let apart : Nodup (canonical inputs) =
      Perm.nodup ∣ sort_on-permutes (map trim_space inputs) ∣₁ (trimmed_Nodup inputs h) in
    let full = all-trimmed (canonical inputs) trimmed in
    let new : all_new (map trim_space (canonical inputs)) [] ≡ true =
      rw (map-trimmed (canonical inputs) trimmed) (Nodup-all_new (canonical inputs) apart) in
    rw (full, new) refl

-- The normal form of the normal form is the same.
pub canonical-canonical :
    (inputs : List Text)
    → are_distinct inputs [] ≡ true
    → canonical (canonical inputs) ≡ canonical inputs
canonical-canonical inputs h =
    let again = map-trimmed (canonical inputs) (canonical-IsTrimmed inputs (named inputs h)) in
    ap (sort_on (λ t. t)) again
    ∙ sym (
        sort_on-Permᴰ (λ t. t) (sort_on-permutes (map trim_space inputs))
          (subst Nodup (sym (map_same (map trim_space inputs))) (trimmed_Nodup inputs h)))
