-- ===== src/Temporal/Terms/Order.antt =====
-- The comparisons and the identities of core/temporal/state.go.
use stacks.Base.{
  [], ◌∷◌, >>=-eq-ok, Order, Ordering, flip, sym, ◌∙◌, ◌↔◌, refl, ok, cmp, ◌≡◌, ap, nat_order,
  text_order, pair_order, pair_cmp, then_compare, arith,
}
use stacks.Temporal.Terms.{
  validate_state_key, StateKeyIdentity, validate_canonical_term, StateKey, identity_for_term,
  identity_for_state_key, compare_terms, compare_state_keys,
}
use stacks.Observation.Terms.{absent, text_term, mention_term, entity_term, Term}

abbrev state_key_order : Order StateKeyIdentity
state_key_order = pair_order

pub compare_terms-eq-cmp :
    (l r : Term) → compare_terms l r ≡ cmp (identity_for_term l) (identity_for_term r)
unfolding compare_terms identity_for_term pair_cmp
compare_terms-eq-cmp l r = ground arith

pub compare_state_keys-eq-cmp :
    (l r : StateKey)
    → compare_state_keys l r ≡ cmp (identity_for_state_key l) (identity_for_state_key r)
unfolding compare_state_keys identity_for_state_key pair_cmp
compare_state_keys-eq-cmp l r =
    ap (λ o. then_compare o (cmp l.predicate r.predicate))
      (compare_terms-eq-cmp l.subject r.subject)

-- `CompareStateKeys` finds no difference exactly between keys of one identity, and it is
-- antisymmetric.
pub compare_state_keys_lem :
    (a b : StateKey)
    → ((compare_state_keys a b ≡ Ordering.eq)
        ↔ (identity_for_state_key a ≡ identity_for_state_key b))
      × (compare_state_keys b a ≡ flip (compare_state_keys a b))
compare_state_keys_lem a b =
    let i = identity_for_state_key a in
    let j = identity_for_state_key b in
    let ab = compare_state_keys-eq-cmp a b in
    (
      (
        λ h. state_key_order.cmp_eq i j (sym ab ∙ h),
        λ e. ab ∙ ap (λ x. cmp x j) e ∙ state_key_order.cmp_refl j,
      ),
      compare_state_keys-eq-cmp b a ∙ state_key_order.cmp_flip i j ∙ ap flip (sym ab),
    )

-- `CompareStateKeys` is transitive.
pub compare_state_keys_trans :
    (a b c : StateKey)
    → compare_state_keys a b ≡ Ordering.lt
    → compare_state_keys b c ≡ Ordering.lt
    → compare_state_keys a c ≡ Ordering.lt
compare_state_keys_trans a b c h k =
    compare_state_keys-eq-cmp a c
    ∙ state_key_order.cmp_trans (identity_for_state_key a) (identity_for_state_key b)
        (identity_for_state_key c) (sym (compare_state_keys-eq-cmp a b) ∙ h)
        (sym (compare_state_keys-eq-cmp b c) ∙ k)

-- Two canonical terms with one identity are equal.
pub canonical_term-injective :
    (a b : Term)
    → validate_canonical_term a ≡ ok tt
    → validate_canonical_term b ≡ ok tt
    → identity_for_term a ≡ identity_for_term b
    → a ≡ b
unfolding validate_canonical_term identity_for_term
canonical_term-injective absent absent h k e = refl
canonical_term-injective (text_term s) (text_term t) h k e = cc
canonical_term-injective (entity_term s []) (entity_term t []) h k e = cc
canonical_term-injective (entity_term s (x ∷ g)) b h k e = ground arith
canonical_term-injective a (entity_term s (x ∷ g)) h k e = ground arith
canonical_term-injective (mention_term s) b h k e = ground arith
canonical_term-injective a b h k e = ground arith

-- Two valid state keys with one identity are equal: an identity leaves nothing of a valid key out.
pub state_key-injective :
    (a b : StateKey)
    → validate_state_key a ≡ ok tt
    → validate_state_key b ≡ ok tt
    → identity_for_state_key a ≡ identity_for_state_key b
    → a ≡ b
unfolding validate_state_key identity_for_state_key
state_key-injective a b h k e =
    let (_, p, _) = >>=-eq-ok (validate_canonical_term a.subject) _ h in
    let (_, q, _) = >>=-eq-ok (validate_canonical_term b.subject) _ k in
    let subjects : a.subject ≡ b.subject = canonical_term-injective a.subject b.subject p q (cc) in
    cc
