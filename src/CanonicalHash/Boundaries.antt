-- ===== src/CanonicalHash/Boundaries.antt =====
-- The boundaries between the fields in a preimage of core/internal/canonicalhash.
use mathlib.Core.List.{append_assoc}
use stacks.Base.{
  ℕ, ◌^◌, ◌<◌, ◌≡◌, refl, sym, ◌∙◌, List, [], ◌∷◌, ◌++◌, map, Text, length, All, append_inj, arith,
}
use stacks.CanonicalHash.{Field, put_uint64, kind_of, payload, write_field, preimage}

-- A length that fits in 64 bits, as every length of Go does.
abbrev pub FitsWord : Field → Type 0
FitsWord f = length (payload f) < 2 ^ 64

put_uint64-injective : (a b : ℕ) → a < 2 ^ 64 → b < 2 ^ 64 → put_uint64 a ≡ put_uint64 b → a ≡ b
unfolding put_uint64
put_uint64-injective a b h k e = ground arith

length-put_uint64 : (a : ℕ) → length (put_uint64 a) ≡ 8
unfolding put_uint64
length-put_uint64 a = refl

tail_eq : {x y : ℕ} {xs ys : Text} → x ∷ xs ≡ y ∷ ys → (x ≡ y) × (xs ≡ ys)
tail_eq e = (cc, cc)

write_field-cancel :
    (f g : Field) (r s : Text)
    → FitsWord f
    → FitsWord g
    → write_field f ++ r ≡ write_field g ++ s
    → (kind_of f ≡ kind_of g) × (payload f ≡ payload g) × (r ≡ s)
unfolding write_field
write_field-cancel f g r s h k e =
    let (kinds, rest) = tail_eq e in
    let regrouped : put_uint64 (length (payload f)) ++ (payload f ++ r)
        ≡ put_uint64 (length (payload g)) ++ (payload g ++ s) =
      sym (append_assoc (put_uint64 (length (payload f))) (payload f) r)
      ∙ rest
      ∙ append_assoc (put_uint64 (length (payload g))) (payload g) s in
    let (lengths, values) =
      append_inj (put_uint64 (length (payload f))) (put_uint64 (length (payload g))) _ _
        (length-put_uint64 (length (payload f)) ∙ sym (length-put_uint64 (length (payload g))))
        regrouped in
    let (same, rests) =
      append_inj (payload f) (payload g) r s (put_uint64-injective _ _ h k lengths) values in
    (kinds, same, rests)

write_field-ne-nil : (f : Field) (r : Text) → write_field f ++ r ≡ [] → ⊥
unfolding write_field
write_field-ne-nil f r e = cc

-- What a reader of the preimage can tell of a field: its kind and its bytes.
abbrev pub view : Field → ℕ × Text
view f = (kind_of f, payload f)

-- Two lists of fields whose lengths fit in 64 bits and that have one preimage have the same fields,
-- in kind and in bytes: no sequence of calls writes the bytes of another one by moving a boundary
-- between fields.
pub preimage-injective :
    (fs gs : List Field)
    → All FitsWord fs
    → All FitsWord gs
    → preimage fs ≡ preimage gs
    → map view fs ≡ map view gs
unfolding preimage
preimage-injective [] [] h k e = refl
preimage-injective [] (g ∷ gs) h k e = absurd (write_field-ne-nil g (preimage gs) (sym e))
preimage-injective (f ∷ fs) [] h k e = absurd (write_field-ne-nil f (preimage fs) e)
preimage-injective (f ∷ fs) (g ∷ gs) h k e =
    let (kinds, same, rest) = write_field-cancel f g (preimage fs) (preimage gs) h.0 k.0 e in
    cc (kinds, same, preimage-injective fs gs h.1 k.1 rest)
