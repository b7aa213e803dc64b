-- ===== src/Base/Appends.antt =====
-- Maps that grow by new keys only: storing appends.
use stacks.Base.Orders.{Order}
use stacks.Base.Maps.{store, member, keys, member-append}
use mathlib.Core.Path.{◌≡◌, refl, ap, ◌∙◌}
use mathlib.Core.Bool.{false}
use mathlib.Core.List.{List, [], ◌∷◌, ◌++◌}
use native.Mathlib.Omega.{arith}

module _ {ℓ κ} {K : Type ℓ} {V : Type κ} ⦃o : Order K⦄ where
  pub store_new :
      (k : K) (v : V) (m : List (K × V))
      → member k (keys m) ≡ false
      → store k v m ≡ m ++ (k, v) ∷ []
  unfolding store member
  store_new k v [] h = refl
  store_new k v ((j, w) ∷ m) h = ground (arith, store_new k v m)

  keys-append : (m n : List (K × V)) → keys (m ++ n) ≡ keys m ++ keys n
  keys-append [] n = refl
  keys-append (e ∷ m) n = ap (◌∷◌ e.0) (keys-append m n)

  pub member-keys :
      (k y : K) (v : V) (m : List (K × V))
      → member y (keys (m ++ (k, v) ∷ [])) ≡ member y (k ∷ keys m)
  unfolding member
  member-keys k y v m =
      ap (member y) (keys-append m ((k, v) ∷ []))
      ∙ ground (arith, member-append y (keys m) (k ∷ []))
