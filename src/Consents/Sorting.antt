-- ===== src/Consents/Sorting.antt =====
-- What the database documents of `ORDER BY created_at DESC`, as far as the rows differ in that column,
-- and one sorting that does it.
use consentchain.Prelude.{
  ℕ, suc, ◌≡◌, ◌≢◌, ◌<◌, ◌↔◌, ◌⊎◌, inl, inr, refl, sym, ap, ◌∙◌, Bool, true, List, [], ◌∷◌, arith,
  leb, if◌then◌else◌, length, keep, Bool-cases,
}

module _ {A : Type 0} where
  abbrev pub Occurs : A → List A → Type 0
  Occurs x [] = ⊥
  Occurs x (y ∷ ys) = (x ≡ y) ⊎ Occurs x ys

  pub Occurs-keep :
      (p : A → Bool) (x : A) (ys : List A) → Occurs x (keep p ys) ↔ (Occurs x ys × (p x ≡ true))
  Occurs-keep p x [] = (λ h. absurd h, λ h. absurd h.0)
  Occurs-keep p x (y ∷ ys) = elim (Bool-cases (p y)) [
    | inl e ↦ rw e (
      λ h. elim h [
        | inl same ↦ (inl same, ap p same ∙ e)
        | inr more ↦ let (there, chosen) = (Occurs-keep p x ys).0 more in (inr there, chosen)
      ],
      λ h. elim h.0 [ inl same ↦ inl same | inr more ↦ inr ((Occurs-keep p x ys).1 (more, h.1)) ],
    )
    | inr e ↦ rw e (
      λ h. let (there, chosen) = (Occurs-keep p x ys).0 h in (inr there, chosen),
      λ h. elim h.0 [
        | inl same ↦ absurd (ground (arith, ap p same, e, h.1))
        | inr more ↦ (Occurs-keep p x ys).1 (more, h.1)
      ],
    )
  ]

  module _ (key : A → ℕ) where
    -- No two of the rows have the same key.
    abbrev pub IsDistinct : List A → Type 0
    IsDistinct [] = Unit {0}
    IsDistinct (x ∷ xs) = ((y : A) → Occurs y xs → key y ≢ key x) × IsDistinct xs

    -- Each row has a larger key than all behind it.
    abbrev pub IsDescending : List A → Type 0
    IsDescending [] = Unit {0}
    IsDescending (x ∷ xs) = ((y : A) → Occurs y xs → key y < key x) × IsDescending xs

    -- Rows that differ in the key come in its order, and they are the rows that were there.
    abbrev pub IsSorting : (List A → List A) → Type 0
    IsSorting sort =
        (xs : List A)
        → IsDistinct xs
        → IsDescending (sort xs)
          × ((x : A) → Occurs x (sort xs) ↔ Occurs x xs)
          × (length (sort xs) ≡ length xs)

    -- Rows in the order of a key are in one order only.
    pub IsDescending-unique :
        (xs ys : List A)
        → IsDescending xs
        → IsDescending ys
        → ((z : A) → Occurs z xs ↔ Occurs z ys)
        → xs ≡ ys
    IsDescending-unique [] [] d d' h = refl
    IsDescending-unique [] (y ∷ ys) d d' h = absurd ((h y).1 (inl refl))
    IsDescending-unique (x ∷ xs) [] d d' h = absurd ((h x).0 (inl refl))
    IsDescending-unique (x ∷ xs) (y ∷ ys) d d' h =
        ap (λ z. z ∷ xs) first
        ∙ ap (λ zs. y ∷ zs) (IsDescending-unique xs ys d.1 d'.1 (λ z. (onward z, back z)))
      where
        first : x ≡ y
        first = elim ((h x).0 (inl refl)) [
          | inl same ↦ same
          | inr o ↦ elim ((h y).1 (inl refl)) [
            | inl same ↦ sym same
            | inr o' ↦ let lower = d'.0 x o in let higher = d.0 y o' in absurd (omega arith)
          ]
        ]

        onward : (z : A) → Occurs z xs → Occurs z ys
        onward z o = elim ((h z).0 (inr o)) [
          | inr o' ↦ o'
          | inl same ↦
              let lower = d.0 z o in let equal = ap key (same ∙ sym first) in absurd (omega arith)
        ]

        back : (z : A) → Occurs z ys → Occurs z xs
        back z o = elim ((h z).1 (inr o)) [
          | inr o' ↦ o'
          | inl same ↦
              let lower = d'.0 z o in let equal = ap key (same ∙ first) in absurd (omega arith)
        ]

    -- Sorting by insertion.
    unfoldable pub place : A → List A → List A
    place x [] = x ∷ []
    place x (y ∷ ys) = let rest = place x ys in if leb (key y) (key x) then x ∷ y ∷ ys else y ∷ rest

    unfoldable pub order_desc : List A → List A
    order_desc [] = []
    order_desc (x ∷ xs) = place x (order_desc xs)

    Occurs-place : (z x : A) (ys : List A) → Occurs z (place x ys) ↔ Occurs z (x ∷ ys)
    unfolding place
    Occurs-place z x [] = (λ h. h, λ h. h)
    Occurs-place z x (y ∷ ys) = elim (Bool-cases (leb (key y) (key x))) [
      | inl e ↦ rw e (λ h. h, λ h. h)
      | inr e ↦ rw e (
        λ h. elim h [
          | inl same ↦ inr (inl same)
          | inr o ↦ elim ((Occurs-place z x ys).0 o) [ inl new ↦ inl new | inr o' ↦ inr (inr o') ]
        ],
        λ h. elim h [
          | inl new ↦ inr ((Occurs-place z x ys).1 (inl new))
          | inr (inl same) ↦ inl same
          | inr (inr o) ↦ inr ((Occurs-place z x ys).1 (inr o))
        ],
      )
    ]

    place-IsDescending :
        (x : A) (ys : List A)
        → ((y : A) → Occurs y ys → key y ≢ key x)
        → IsDescending ys
        → IsDescending (place x ys)
    unfolding place
    place-IsDescending x [] apart d = ((λ y o. absurd o), tt)
    place-IsDescending x (y ∷ ys) apart d = elim (Bool-cases (leb (key y) (key x))) [
      | inl e ↦ rw e ((λ z o. below z o e), d)
      | inr e ↦ rw e (
        (λ z o. elim ((Occurs-place z x ys).0 o) [
          | inl new ↦ let equal = ap key new in ground arith
          | inr o' ↦ d.0 z o'
        ]),
        place-IsDescending x ys (λ z o. apart z (inr o)) d.1,
      )
    ]
      where
        below : (z : A) → Occurs z (y ∷ ys) → leb (key y) (key x) ≡ true → key z < key x
        below z (inl same) e =
            let equal = ap key same in let other = apart y (inl refl) in ground arith
        below z (inr o) e = let lower = d.0 z o in ground arith

    order_desc-Occurs : (z : A) (xs : List A) → Occurs z (order_desc xs) ↔ Occurs z xs
    unfolding order_desc
    order_desc-Occurs z [] = (λ h. h, λ h. h)
    order_desc-Occurs z (x ∷ xs) =
        let placed = Occurs-place z x (order_desc xs) in
        let rest = order_desc-Occurs z xs in
        (
          λ h. elim (placed.0 h) [ inl new ↦ inl new | inr o ↦ inr (rest.0 o) ],
          λ h. placed.1 (elim h [ inl new ↦ inl new | inr o ↦ inr (rest.1 o) ]),
        )

    length-place : (x : A) (ys : List A) → length (place x ys) ≡ suc (length ys)
    unfolding place
    length-place x [] = refl
    length-place x (y ∷ ys) = let ih = length-place x ys in ground arith

    pub order_desc-IsSorting : IsSorting order_desc
    unfolding order_desc
    order_desc-IsSorting [] apart = (tt, (λ z. (λ h. h, λ h. h)), refl)
    order_desc-IsSorting (x ∷ xs) apart =
        let (down, same, long) = order_desc-IsSorting xs apart.1 in
        (
          place-IsDescending x (order_desc xs) (λ y o. apart.0 y ((same y).0 o)) down,
          (λ z. order_desc-Occurs z (x ∷ xs)),
          length-place x (order_desc xs) ∙ ap suc long,
        )
