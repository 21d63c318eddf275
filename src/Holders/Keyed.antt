-- ===== src/Holders/Keyed.antt =====
-- The lists of controller/ws/ws/query_result.go as maps from numbers.
use taosadapter.Common.{
  ℕ, zero, suc, ◌+◌, ◌≤◌, ◌<◌, ◌≡◌, refl, sym, ap, ◌∙◌, ◌++◌, List, [], ◌∷◌, Option, none, some,
  arith, ◌==◌, if◌then◌else◌, Bool-cases, inl, inr,
}
use taosadapter.Holders.{find, remove}

-- `f` at the numbers from `lo + 1` on, `n` of them.
abbrev pub collect {ℓ κ} :
    {A : Type ℓ} {B : Type κ} → (A → List B) → (ℕ → Option A) → ℕ → ℕ → List B
collect f at lo zero = []
collect f at lo (suc n) = elim (at (suc lo)) [
  | none ↦ collect f at (suc lo) n
  | some a ↦ f a ++ collect f at (suc lo) n
]

abbrev pub concat_map {ℓ κ} : {A : Type ℓ} {B : Type κ} → (A → List B) → List A → List B
concat_map f [] = []
concat_map f (a ∷ items) = f a ++ concat_map f items

module _ {A : Type 0} (number : A → ℕ) where
  -- The numbers grow, above `lo` and up to `hi`.
  abbrev pub Rising : ℕ → ℕ → List A → Type 0
  Rising lo hi [] = lo ≤ hi
  Rising lo hi (a ∷ items) = (lo < number a) × Rising (number a) hi items

  -- The list stands for the map.
  abbrev pub StandsFor : ℕ → List A → (ℕ → Option A) → Type 0
  StandsFor n items at = Rising 0 n items × ((i : ℕ) → find number i items ≡ at i)

  Rising-mono :
      (lo lo' hi : ℕ) (items : List A) → lo' ≤ lo → Rising lo hi items → Rising lo' hi items
  Rising-mono lo lo' hi [] h r = omega arith
  Rising-mono lo lo' hi (a ∷ items) h r = (omega arith, r.1)

  Rising-le : (lo hi : ℕ) (items : List A) → Rising lo hi items → lo ≤ hi
  Rising-le lo hi [] r = r
  Rising-le lo hi (a ∷ items) r = omega (arith, r.0, Rising-le (number a) hi items r.1)

  Rising-append :
      (lo hi : ℕ) (items : List A) (a : A)
      → number a ≡ suc hi
      → Rising lo hi items
      → Rising lo (suc hi) (items ++ (a ∷ []))
  Rising-append lo hi [] a e r = (omega arith, omega arith)
  Rising-append lo hi (x ∷ items) a e r = (r.0, Rising-append (number x) hi items a e r.1)

  Rising-remove :
      (lo hi i : ℕ) (items : List A) → Rising lo hi items → Rising lo hi (remove number i items)
  Rising-remove lo hi i [] r = r
  Rising-remove lo hi i (a ∷ items) r = elim (Bool-cases (number a == i)) [
    | inl e ↦ rw e (Rising-mono (number a) lo hi items (omega arith) r.1)
    | inr e ↦ rw e (r.0, Rising-remove (number a) hi i items r.1)
  ]

  -- No number at or below `lo`, none above `hi`.
  find_below :
      (lo hi i : ℕ) (items : List A) → i ≤ lo → Rising lo hi items → find number i items ≡ none
  find_below lo hi i [] h r = refl
  find_below lo hi i (a ∷ items) h r = ground (arith, find_below (number a) hi i items)

  find-append :
      (lo hi i : ℕ) (items : List A) (a : A)
      → number a ≡ suc hi
      → Rising lo hi items
      → find number i (items ++ (a ∷ [])) ≡ (if i == suc hi then some a else find number i items)
  find-append lo hi i [] a e r = ground arith
  find-append lo hi i (x ∷ items) a e r =
      let le : number x ≤ hi = Rising-le (number x) hi items r.1 in
      ground (arith, find-append (number x) hi i items a e r.1)

  find-remove :
      (lo hi i j : ℕ) (items : List A)
      → Rising lo hi items
      → find number j (remove number i items) ≡ (if j == i then none else find number j items)
  find-remove lo hi i j [] r = ground arith
  find-remove lo hi i j (a ∷ items) r =
      ground (arith, find-remove (number a) hi i j items r.1, find_below (number a) hi j items)

  -- How the changes of the list change the map.
  pub append-StandsFor :
      (n : ℕ) (items : List A) (at : ℕ → Option A) (a : A)
      → number a ≡ suc n
      → StandsFor n items at
      → StandsFor (suc n) (items ++ (a ∷ [])) (λ i. if i == suc n then some a else at i)
  append-StandsFor n items at a e r = (
    Rising-append 0 n items a e r.0,
    λ i.
        find-append 0 n i items a e r.0
        ∙ ap (λ (o : Option A). if i == suc n then some a else o) (r.1 i),
  )

  pub remove-StandsFor :
      (n i : ℕ) (items : List A) (at : ℕ → Option A)
      → StandsFor n items at
      → StandsFor n (remove number i items) (λ j. if j == i then none else at j)
  remove-StandsFor n i items at r = (
    Rising-remove 0 n i items r.0,
    λ j. find-remove 0 n i j items r.0 ∙ ap (λ (o : Option A). if j == i then none else o) (r.1 j),
  )

  -- What the list holds in its order is what the map holds in the order of the numbers.
  collect_lem {κ} :
      {B : Type κ} (f : A → List B) (at : ℕ → Option A) (lo n hi : ℕ) (items : List A)
      → lo + n ≡ hi
      → Rising lo hi items
      → ((i : ℕ) → lo < i → find number i items ≡ at i)
      → collect f at lo n ≡ concat_map f items
  collect_lem f at lo zero hi [] s r h = refl
  collect_lem f at lo zero hi (a ∷ items) s r h =
      absurd (omega (arith, r.0, Rising-le (number a) hi items r.1))
  collect_lem f at lo (suc n) hi [] s r h =
      rw (sym (h (suc lo) (omega arith)), collect)
        (collect_lem f at (suc lo) n hi [] (omega arith) (omega arith) λ i k. h i (omega arith))
  collect_lem f at lo (suc n) hi (a ∷ items) s r h = elim (Bool-cases (number a == suc lo)) [
    | inl e ↦
        let first : at (suc lo) ≡ some a = ground (arith, h (suc lo)) in
        rw (first, collect)
          (ap (λ xs. f a ++ xs)
            (collect_lem f at (suc lo) n hi items (omega arith)
              (Rising-mono (number a) (suc lo) hi items (ground arith) r.1)
              λ i k. ground (arith, h i)))
    | inr e ↦
        let above : suc lo < number a = ground arith in
        let nothing : at (suc lo) ≡ none = cc (
          h (suc lo) (omega arith),
          find_below (suc lo) hi (suc lo) (a ∷ items) (omega arith) (above, r.1),
        ) in
        rw (nothing, collect)
          (collect_lem f at (suc lo) n hi (a ∷ items) (omega arith) (above, r.1)
            λ i k. h i (omega arith))
  ]

  pub collect-StandsFor {κ} :
      {B : Type κ} (f : A → List B) (n : ℕ) (items : List A) (at : ℕ → Option A)
      → StandsFor n items at
      → collect f at 0 n ≡ concat_map f items
  collect-StandsFor f n items at r = collect_lem f at 0 n n items (omega arith) r.0 λ i k. r.1 i
