-- ===== src/Domain/History/Changes.antt =====
-- history.go: what the comparison of two orders' items sees.
use oficina_tech_ms_order_se.Shared.{
  All, Any, List, [], arith, false, length, refl, true, ℕ, ◌<◌, ◌↔◌, ◌∷◌, ◌≡◌, ◌≤◌, ap, inl, inr,
  sym, ◌++◌, ◌∙◌,
}
use oficina_tech_ms_order_se.Domain.History.{
  build_item_signature, filter_active_items, has_items_changed, same_signature, signed_in,
  some_unsigned, code_points, rune_text, type_name,
}
use oficina_tech_ms_order_se.Domain.Item.{ServiceOrderItem, is_deleted}

same_signature-eq : (a b : List ℕ) → (same_signature a b ≡ true) ↔ (a ≡ b)
unfolding same_signature
same_signature-eq [] [] = (λ _. refl, λ _. refl)
same_signature-eq [] (_ ∷ _) = (λ h. cc, λ e. cc)
same_signature-eq (_ ∷ _) [] = (λ h. cc, λ e. cc)
same_signature-eq (x ∷ a) (y ∷ b) = ground (arith, same_signature-eq a b)

-- Two items with the same signature.
abbrev pub IsAlike : ServiceOrderItem → ServiceOrderItem → Type 0
IsAlike i j = build_item_signature j ≡ build_item_signature i

signed_in_iff :
    (olds : List ServiceOrderItem) (i : ServiceOrderItem)
    → (signed_in olds (build_item_signature i) ≡ true) ↔ Any (IsAlike i) olds
unfolding signed_in
signed_in_iff [] i = (λ h. cc, λ e. absurd e)
signed_in_iff (j ∷ rest) i = ground (
  arith,
  signed_in_iff rest i,
  same_signature-eq (build_item_signature j) (build_item_signature i),
)

some_unsigned_iff :
    (olds news : List ServiceOrderItem)
    → (some_unsigned olds news ≡ false) ↔ All (λ i. Any (IsAlike i) olds) news
unfolding some_unsigned
some_unsigned_iff olds [] = (λ h. tt, λ a. refl)
some_unsigned_iff olds (i ∷ rest) =
    ground (arith, signed_in_iff olds i, some_unsigned_iff olds rest)

-- The items of two orders count as unchanged exactly when as many are not deleted in both, and each
-- of the new ones that is not has the signature of an old one that is not.
pub has_items_changed_iff :
    (olds news : List ServiceOrderItem)
    → (has_items_changed olds news ≡ false) ↔ (
        (length (filter_active_items olds) ≡ length (filter_active_items news))
        × All (λ i. Any (IsAlike i) (filter_active_items olds)) (filter_active_items news))
unfolding has_items_changed
has_items_changed_iff olds news =
    ground (arith, some_unsigned_iff (filter_active_items olds) (filter_active_items news))

rune_text_blind : (p : ℕ) → 55296 ≤ p → p < 57344 → rune_text p ≡ 65533
unfolding rune_text
rune_text_blind p a b = ground arith

build_item_signature_blind :
    (i : ServiceOrderItem) (p q : ℕ)
    → rune_text p ≡ rune_text q
    → build_item_signature (record i { unit_price = p })
      ≡ build_item_signature (record i { unit_price = q })
unfolding build_item_signature rune_text
build_item_signature_blind i p q e =
    ap
      (λ r.
        code_points (type_name i.item_type)
        ++ (b'|'
            ∷ (code_points i.reference_id
                ++ (b'|' ∷ (code_points i.name ++ (b'|' ∷ rune_text i.quantity ∷ b'|' ∷ r ∷ []))))))
      e

weaker :
    (j : ServiceOrderItem) (olds news : List ServiceOrderItem)
    → All (λ i. Any (IsAlike i) olds) news
    → All (λ i. Any (IsAlike i) (j ∷ olds)) news
weaker j olds [] a = tt
weaker j olds (i ∷ rest) a = (inr a.0, weaker j olds rest a.1)

unchanged_items : (items : List ServiceOrderItem) → All (λ i. Any (IsAlike i) items) items
unchanged_items [] = tt
unchanged_items (i ∷ rest) = (inl refl, weaker i rest rest (unchanged_items rest))

one_alike :
    (i j : ServiceOrderItem) (rest : List ServiceOrderItem)
    → is_deleted i ≡ false
    → is_deleted j ≡ false
    → IsAlike j i
    → has_items_changed (i ∷ rest) (j ∷ rest) ≡ false
one_alike i j rest here_i here_j same = (has_items_changed_iff (i ∷ rest) (j ∷ rest)).1 (
    rw (here_i, here_j)
      (
        refl,
        (
          inl same,
          weaker i (filter_active_items rest) _ (unchanged_items (filter_active_items rest)),
        ),
      ))

-- A change of the price of an item that is not deleted from one price of 552.96 to 573.43 to another
-- is not seen: as code points these prices are surrogates, and all have the same text.
pub has_items_changed_blind :
    (i : ServiceOrderItem) (rest : List ServiceOrderItem) (p q : ℕ)
    → is_deleted i ≡ false
    → 55296 ≤ p
    → p < 57344
    → 55296 ≤ q
    → q < 57344
    → has_items_changed (record i { unit_price = p } ∷ rest) (record i { unit_price = q } ∷ rest)
      ≡ false
has_items_changed_blind i rest p q active a b c d =
    one_alike (record i { unit_price = p }) (record i { unit_price = q }) rest active active
      (build_item_signature_blind i p q (rune_text_blind p a b ∙ sym (rune_text_blind q c d)))
