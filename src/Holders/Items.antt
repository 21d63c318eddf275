-- ===== src/Holders/Items.antt =====
-- What the holders of controller/ws/ws/query_result.go promise: maps from the numbers given out.
use taosadapter.Common.{
  ℕ, suc, ◌≡◌, refl, ap, ◌∙◌, List, [], ◌∷◌, Option, none, some, arith, ◌==◌, if◌then◌else◌,
  Bool-cases, inl, inr,
}

-- What a holder promises: a map from numbers to items, and how many numbers were given out.
pub record Items (A : Type 0) : Type 0 where
  pub given : ℕ
  pub at : ℕ → Option A

abbrev pub no_items : {A : Type 0} → Items A
no_items = record { given = 0; at = λ i. none }

module _ {A : Type 0} where
  -- The next number is given to an item.
  abbrev pub put_item : (ℕ → A) → Items A → Items A
  put_item item m = record {
    given = suc m.given;
    at = λ i. if i == suc m.given then some (item (suc m.given)) else m.at i;
  }

  abbrev pub drop_item : ℕ → Items A → Items A
  drop_item i m = record m { at = λ j. if j == i then none else m.at j }

  abbrev pub drop_items : Items A → Items A
  drop_items m = record m { at = λ i. none }

  abbrev pub released {ℓ} : {B : Type ℓ} → (A → List B) → Option A → List B
  released f none = []
  released f (some a) = f a

  -- Dropping what is not there.
  pub still_absent :
      (m : Items A) (i j : ℕ) → m.at i ≡ none → m.at j ≡ (if j == i then none else m.at j)
  still_absent m i j e = elim (Bool-cases (j == i)) [
    | inl f ↦ let same : j ≡ i = ground arith in rw f (ap m.at same ∙ e)
    | inr f ↦ rw f refl
  ]

-- What a call answers.
pub data Answer (A B : Type 0) : Type 0 where
  number : ℕ → Answer A B
  item : Option A → Answer A B
  freed : List B → Answer A B
  mismatch : Answer A B

-- The answers to a sequence of calls.
abbrev pub answers : {S C A : Type 0} → (C → S → S × A) → List C → S → List A
answers step [] s = []
answers step (c ∷ cs) s = (step c s).1 ∷ answers step cs (step c s).0
