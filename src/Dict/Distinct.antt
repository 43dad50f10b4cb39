-- ===== src/Dict/Distinct.antt =====
-- Dictionaries with distinct keys, and what `update` leaves.
use wbauth.Prelude.{
  false, none, [], ◌∷◌, ◌≡◌, refl, sym, ap, ◌∙◌, arith, or_else, Bool-cases, inl, inr,
}
use wbauth.Dict.{Eq, Dict, ◌=?◌, get, put, update}
use wbauth.Dict.Laws.{get-put}

module _ {K V : Type 0} ⦃e : Eq K⦄ where
  unfoldable pub IsDistinct : Dict K V → Type 0
  IsDistinct [] = Unit
  IsDistinct ((k, v) ∷ d) = (get k d ≡ none) × IsDistinct d

  get-put_missing :
      (k j : K) (v : V) (d : Dict K V)
      → get j d ≡ none
      → (k =? j) ≡ false
      → get j (put k v d) ≡ none
  get-put_missing k j v d h i = get-put k j v d ∙ rw (i, h) refl

  pub IsDistinct-put : (k : K) (v : V) (d : Dict K V) → IsDistinct d → IsDistinct (put k v d)
  unfolding put IsDistinct get
  IsDistinct-put k v [] h = (refl, tt)
  IsDistinct-put k v ((j, u) ∷ d) (h, i) = elim (Bool-cases (j =? k)) [
    | inl same ↦ rw same (h, i)
    | inr other ↦ rw other (
      get-put_missing k j v d h (ground (arith, e.beq_iff j k, e.beq_iff k j)),
      IsDistinct-put k v d i,
    )
  ]

  pub IsDistinct-update : (d m : Dict K V) → IsDistinct d → IsDistinct (update d m)
  unfolding update
  IsDistinct-update d [] h = h
  IsDistinct-update d ((k, v) ∷ m) h = IsDistinct-update (put k v d) m (IsDistinct-put k v d h)

  -- What `update` leaves under a key: the new value, if there is one.
  pub get-update :
      (k : K) (d m : Dict K V) → IsDistinct m → get k (update d m) ≡ or_else (get k m) (get k d)
  unfolding update get IsDistinct
  get-update k d [] h = refl
  get-update k d ((j, v) ∷ m) (h, i) =
      get-update k (put j v d) m i
      ∙ ap (or_else (get k m)) (get-put j k v d)
      ∙ elim (Bool-cases (j =? k)) [
        | inl same ↦
            let gone : get k m ≡ none = ap (λ l. get l m) (sym ((e.beq_iff j k).0 same)) ∙ h in
            rw (same, gone) refl
        | inr other ↦ rw other refl
      ]
