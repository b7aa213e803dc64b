-- ===== src/Query/Trimming.antt =====
-- Loops over texts that are trimmed, as those of internal/query/contract.go and of
-- core/identity/authority.go are.
use stacks.Base.{
  ◌≡◌, refl, sym, ap, ◌∙◌, Bool, true, false, not, ◌&&◌, List, [], ◌∷◌, map, Text, text_order,
  member, add, all, is_empty, trim_space, Result, ok, >>=-eq-ok, ◌>>=◌, arith,
}
use stacks.Base.Distinct.{all_new_agree, add_agrees}
use stacks.Temporal.Plans.Accepted.{are_distinct}

-- A loop that trims texts and refuses those that are blank or that it has seen.
module _ (loop : List Text → List Text → Result (List Text))
    (stop : (seen : List Text) → loop [] seen ≡ ok [])
    (go : (x : Text) (rest seen : List Text)
      → is_empty (trim_space x) ≡ false
      → member (trim_space x) seen ≡ false
      → loop (x ∷ rest) seen
        ≡ (loop rest (add (trim_space x) seen) >>= λ values. ok (trim_space x ∷ values)))
    (went : (x : Text) (rest seen values : List Text)
      → loop (x ∷ rest) seen ≡ ok values
      → (is_empty (trim_space x) ≡ false) × (member (trim_space x) seen ≡ false)) where
  pub loop_accepts :
      (inputs seen : List Text)
      → are_distinct inputs seen ≡ true
      → loop inputs seen ≡ ok (map trim_space inputs)
  unfolding all
  loop_accepts [] seen h = stop seen
  loop_accepts (x ∷ rest) seen h =
      let agree =
        all_new_agree (map trim_space rest) (add (trim_space x) seen) (trim_space x ∷ seen)
          (add_agrees (trim_space x) seen) in
      let (full, new, fits) = parts (is_empty (trim_space x)) _ (member (trim_space x) seen) _ h in
      go x rest seen full new
      ∙ ap (λ step. step >>= λ values. ok (trim_space x ∷ values))
          (loop_accepts rest (add (trim_space x) seen) (rw agree fits))
    where
      parts :
          (a b c d : Bool)
          → ((not a && b) && (not c && d)) ≡ true
          → (a ≡ false) × (c ≡ false) × ((b && d) ≡ true)
      parts a b c d h = (ground arith, ground arith, ground arith)

  pub loop-eq-ok :
      (inputs seen values : List Text)
      → loop inputs seen ≡ ok values
      → (values ≡ map trim_space inputs) × (are_distinct inputs seen ≡ true)
  unfolding all
  loop-eq-ok [] seen values h = let done : ok [] ≡ ok values = sym (stop seen) ∙ h in (cc, refl)
  loop-eq-ok (x ∷ rest) seen values h =
      let (full, new) = went x rest seen values h in
      let (vs, run, done) =
        >>=-eq-ok (loop rest (add (trim_space x) seen)) _ (sym (go x rest seen full new) ∙ h) in
      let (trimmed, fits) = loop-eq-ok rest (add (trim_space x) seen) vs run in
      let agree =
        all_new_agree (map trim_space rest) (add (trim_space x) seen) (trim_space x ∷ seen)
          (add_agrees (trim_space x) seen) in
      let here : (trim_space x ∷ vs) ≡ values = cc in
      (
        sym here ∙ ap (λ l. trim_space x ∷ l) trimmed,
        joined (is_empty (trim_space x)) _ (member (trim_space x) seen) _ full new
            (rw agree at fits),
      )
    where
      joined :
          (a b c d : Bool)
          → a ≡ false
          → c ≡ false
          → (b && d) ≡ true
          → ((not a && b) && (not c && d)) ≡ true
      joined a b c d p q r = ground arith
