-- ===== src/Prelude/Lists.antt =====
-- The array methods that the program uses, over native numbers and Boolean tests.
use Prim.Native.Nat.{◌≤◌, ℕ, zero, suc, ◌+◌, ◌<◌}
use mathlib.Core.Option.{Option, none, some}
use mathlib.Core.Path.{◌≡◌, refl, sym, ap, subst}
use mathlib.Core.Logic.{◌⊎◌, inl, inr, ◌↔◌}
use mathlib.Core.Bool.{Bool, true, false, ◌||◌, ◌&&◌}
use mathlib.Core.List.{List, [], ◌∷◌, ◌++◌, map}
use native.Mathlib.Omega.{arith}
use urateam.Prelude.Tests.{if◌then◌else◌}

module _ {ℓ} {A : Type ℓ} where
  abbrev pub length : List A → ℕ
  length [] = 0
  length (_ ∷ xs) = suc (length xs)

  -- `xs.slice(0, n)`
  abbrev pub take : ℕ → List A → List A
  take zero xs = []
  take (suc n) [] = []
  take (suc n) (x ∷ xs) = x ∷ take n xs

  -- `xs.some(p)`
  abbrev pub any : (A → Bool) → List A → Bool
  any p [] = false
  any p (x ∷ xs) = p x || any p xs

  -- `xs.every(p)`
  abbrev pub all : (A → Bool) → List A → Bool
  all p [] = true
  all p (x ∷ xs) = p x && all p xs

  -- `xs.filter(p)`
  abbrev pub filter : (A → Bool) → List A → List A
  filter p [] = []
  filter p (x ∷ xs) = let rest = filter p xs in if p x then x ∷ rest else rest

  abbrev pub is_empty : List A → Bool
  is_empty [] = true
  is_empty (_ ∷ _) = false

pub List-cases {ℓ} :
    {A : Type ℓ} (xs : List A) → (xs ≡ []) ⊎ ((x : A) × (rest : List A) × (xs ≡ x ∷ rest))
List-cases [] = inl refl
List-cases (x ∷ rest) = inr (x, rest, refl)

-- Every element satisfies the predicate.
abbrev pub All {ℓ κ} : {A : Type ℓ} (P : A → Type κ) → List A → Type κ
All P [] = Unit
All P (head ∷ tail) = P head × All P tail

-- Some element satisfies the predicate.
abbrev pub Any {ℓ} : {A : Type ℓ} → (A → Type 0) → List A → Type 0
Any P [] = ⊥
Any P (x ∷ xs) = P x ⊎ Any P xs

-- The element stands in the list.
abbrev pub In : {A : Type 0} → A → List A → Type 0
In x xs = Any (λ y. y ≡ x) xs

module _ {ℓ} {A : Type ℓ} where
  pub length-append : (xs ys : List A) → length (xs ++ ys) ≡ length xs + length ys
  length-append [] ys = omega arith
  length-append (x ∷ xs) ys = omega (arith, length-append xs ys)

module _ {A : Type 0} where
  pub In-append_left : (x : A) (xs ys : List A) → In x xs → In x (xs ++ ys)
  In-append_left x [] ys h = elim h [ ]
  In-append_left x (z ∷ xs) ys (inl e) = inl e
  In-append_left x (z ∷ xs) ys (inr h) = inr (In-append_left x xs ys h)

  pub In-append_right : (x : A) (xs ys : List A) → In x ys → In x (xs ++ ys)
  In-append_right x [] ys h = h
  In-append_right x (z ∷ xs) ys h = inr (In-append_right x xs ys h)

  pub In-append : (x : A) (xs ys : List A) → In x (xs ++ ys) → In x xs ⊎ In x ys
  In-append x [] ys h = inr h
  In-append x (z ∷ xs) ys (inl e) = inl (inl e)
  In-append x (z ∷ xs) ys (inr h) = elim (In-append x xs ys h) [
    | inl a ↦ inl (inr a)
    | inr b ↦ inr b
  ]

  pub In-filter : (p : A → Bool) (x : A) (xs : List A) → In x (filter p xs) → In x xs × (p x ≡ true)
  In-filter p x [] h = elim h [ ]
  In-filter p x (z ∷ xs) h = ground (arith, In-filter p x xs)

  pub In-filter_of :
      (p : A → Bool) (x : A) (xs : List A) → In x xs → p x ≡ true → In x (filter p xs)
  In-filter_of p x [] h e = h
  In-filter_of p x (z ∷ xs) h e = ground (arith, In-filter_of p x xs)

  pub all_iff : (p : A → Bool) (xs : List A) → (all p xs ≡ true) ↔ All (λ x. p x ≡ true) xs
  all_iff p [] = (λ _. tt, λ _. refl)
  all_iff p (x ∷ xs) = ground (arith, all_iff p xs)

  pub any_iff : (p : A → Bool) (xs : List A) → (any p xs ≡ true) ↔ Any (λ x. p x ≡ true) xs
  any_iff p [] = (λ h. cc, λ h. elim h [ ])
  any_iff p (x ∷ xs) = ground (arith, any_iff p xs)

  pub All-In : (P : A → Type 0) (x : A) (xs : List A) → All P xs → In x xs → P x
  All-In P x (z ∷ xs) h (inl e) = subst P e h.0
  All-In P x (z ∷ xs) h (inr r) = All-In P x xs h.1 r
  All-In P x [] h r = elim r [ ]

  pub All-of_In : (P : A → Type 0) (xs : List A) → ((x : A) → In x xs → P x) → All P xs
  All-of_In P [] h = tt
  All-of_In P (x ∷ xs) h = (h x (inl refl), All-of_In P xs (λ y r. h y (inr r)))

  -- A head that is there under a condition.
  pub In-if_cons :
      (b : Bool) (v x : A) (xs : List A)
      → In v (if b then x ∷ xs else xs)
      → ((b ≡ true) × (x ≡ v)) ⊎ In v xs
  In-if_cons true v x xs (inl e) = inl (refl, e)
  In-if_cons true v x xs (inr r) = inr r
  In-if_cons false v x xs r = inr r

  pub is_empty-append : (xs ys : List A) → is_empty (xs ++ ys) ≡ (is_empty xs && is_empty ys)
  is_empty-append [] ys = refl
  is_empty-append (x ∷ xs) ys = refl

  -- A list with an element is not empty, and the other way round.
  pub is_empty-In : (x : A) (xs : List A) → In x xs → is_empty xs ≡ false
  is_empty-In x [] h = elim h [ ]
  is_empty-In x (z ∷ xs) h = refl

  pub head_of_nonempty : (xs : List A) → is_empty xs ≡ false → (x : A) × In x xs
  head_of_nonempty [] h = cc
  head_of_nonempty (x ∷ xs) h = (x, inl refl)

  pub filter-empty_iff :
      (p : A → Bool) (xs : List A) → (is_empty (filter p xs) ≡ true) ↔ All (λ x. p x ≡ false) xs
  filter-empty_iff p [] = (λ _. tt, λ _. refl)
  filter-empty_iff p (x ∷ xs) = ground (arith, filter-empty_iff p xs)

  pub Any-witness : (P : A → Type 0) (xs : List A) → Any P xs → (x : A) × In x xs × P x
  Any-witness P [] h = elim h [ ]
  Any-witness P (x ∷ xs) (inl p) = (x, inl refl, p)
  Any-witness P (x ∷ xs) (inr r) = let (y, i, p) = Any-witness P xs r in (y, inr i, p)

  pub Any-of_In : (P : A → Type 0) (x : A) (xs : List A) → In x xs → P x → Any P xs
  Any-of_In P x [] i p = elim i [ ]
  Any-of_In P x (z ∷ xs) (inl e) p = inl (subst P (sym e) p)
  Any-of_In P x (z ∷ xs) (inr i) p = inr (Any-of_In P x xs i p)

module _ {A B : Type 0} (f : A → B) where
  pub In-map : (y : B) (xs : List A) → In y (map f xs) → (x : A) × In x xs × (f x ≡ y)
  In-map y [] h = elim h [ ]
  In-map y (x ∷ xs) (inl e) = (x, inl refl, e)
  In-map y (x ∷ xs) (inr r) = let (z, i, e) = In-map y xs r in (z, inr i, e)

  pub In-map_of : (x : A) (xs : List A) → In x xs → In (f x) (map f xs)
  In-map_of x [] i = elim i [ ]
  In-map_of x (z ∷ xs) (inl e) = inl (ap f e)
  In-map_of x (z ∷ xs) (inr i) = inr (In-map_of x xs i)

-- A pointwise equivalence of predicates is one of lists.
pub All-iff :
    {A : Type 0} (P Q : A → Type 0) (xs : List A) → ((x : A) → P x ↔ Q x) → All P xs ↔ All Q xs
All-iff P Q [] e = (λ _. tt, λ _. tt)
All-iff P Q (x ∷ xs) e =
    let (to, from) = All-iff P Q xs e in (λ h. ((e x).0 h.0, to h.1), λ h. ((e x).1 h.0, from h.1))

module _ {ℓ} {A : Type ℓ} where
  abbrev pub get_elem? : List A → ℕ → Option A
  get_elem? [] i = none
  get_elem? (x ∷ xs) zero = some x
  get_elem? (x ∷ xs) (suc i) = get_elem? xs i

  -- A write out of bounds changes nothing.
  abbrev pub set : List A → ℕ → A → List A
  set [] i v = []
  set (x ∷ xs) zero v = v ∷ xs
  set (x ∷ xs) (suc i) v = x ∷ set xs i v

  pub get_elem?-append : (xs : List A) (y : A) → get_elem? (xs ++ y ∷ []) (length xs) ≡ some y
  get_elem?-append [] y = refl
  get_elem?-append (x ∷ xs) y = get_elem?-append xs y

  pub get_elem?-append_lt :
      (xs ys : List A) (i : ℕ) → i < length xs → get_elem? (xs ++ ys) i ≡ get_elem? xs i
  get_elem?-append_lt [] ys i h = absurd (omega arith)
  get_elem?-append_lt (x ∷ xs) ys zero h = refl
  get_elem?-append_lt (x ∷ xs) ys (suc i) h = get_elem?-append_lt xs ys i (omega arith)

  pub get_elem?-set_self :
      (xs : List A) (i : ℕ) (v : A) → i < length xs → get_elem? (set xs i v) i ≡ some v
  get_elem?-set_self [] i v h = absurd (omega arith)
  get_elem?-set_self (x ∷ xs) zero v h = refl
  get_elem?-set_self (x ∷ xs) (suc i) v h = get_elem?-set_self xs i v (omega arith)

  pub length-set : (xs : List A) (i : ℕ) (v : A) → length (set xs i v) ≡ length xs
  length-set [] i v = refl
  length-set (x ∷ xs) zero v = refl
  length-set (x ∷ xs) (suc i) v = ap suc (length-set xs i v)

pub In-take : {A : Type 0} (x : A) (n : ℕ) (xs : List A) → In x (take n xs) → In x xs
In-take x zero xs h = elim h [ ]
In-take x (suc n) [] h = h
In-take x (suc n) (y ∷ xs) (inl e) = inl e
In-take x (suc n) (y ∷ xs) (inr r) = inr (In-take x n xs r)

pub length-take {ℓ} : {A : Type ℓ} (n : ℕ) (xs : List A) → length (take n xs) ≤ n
length-take zero xs = omega arith
length-take (suc n) [] = omega arith
length-take (suc n) (x ∷ xs) = omega (arith, length-take n xs)
