-- ===== src/Mux/Routes.antt =====
-- python/src/brain_db_sdk/mux.py: the table of routes and the queues that it leads to.
use brain_sdk.Prelude.{
  ℕ, zero, suc, ◌<◌, ◌≡◌, ◌≢◌, refl, sym, ap, ◌∙◌, none, some, List, [], ◌∷◌, ◌++◌, Bool-cases, inl,
  inr, false, ◌==◌, ==_iff, if◌then◌else◌, length, length-set, get_or, set, arith,
}
use brain_sdk.Mux.{Item, get_route, pop_route, set_route, put_item, put_all}

pub some-inj {ℓ} : {A : Type ℓ} (a b : A) → some a ≡ some b → a ≡ b
some-inj a b h = cc

pub none-some {ℓ} : {A : Type ℓ} (a : A) → none ≡ some a → ⊥
none-some a h = cc

pub ==_false : (a b : ℕ) → a ≢ b → (a == b) ≡ false
==_false a b h = ground arith

pub false_== : (a b : ℕ) → (a == b) ≡ false → a ≢ b
false_== a b h = ground arith

pub get_route-pop_route : (s : ℕ) (routes : List (ℕ × ℕ)) → get_route s (pop_route s routes) ≡ none
get_route-pop_route s [] = refl
get_route-pop_route s ((t, q) ∷ routes) = elim (Bool-cases (t == s)) [
  | inl same ↦ rw same (get_route-pop_route s routes)
  | inr other ↦ rw (other, other) (get_route-pop_route s routes)
]

pub get_route-pop_other :
    (s t : ℕ) (routes : List (ℕ × ℕ))
    → t ≢ s
    → get_route s (pop_route t routes) ≡ get_route s routes
get_route-pop_other s t [] h = refl
get_route-pop_other s t ((u, q) ∷ routes) h = elim (Bool-cases (u == t)) [
  | inl same ↦
      rw (same, ==_false u s (λ e. h (sym ((==_iff u t).0 same) ∙ e)))
        (get_route-pop_other s t routes h)
  | inr other ↦ rw other (ap (λ r. if u == s then some q else r) (get_route-pop_other s t routes h))
]

pub get_route-set_other :
    (s t q : ℕ) (routes : List (ℕ × ℕ))
    → t ≢ s
    → get_route s (set_route t q routes) ≡ get_route s routes
get_route-set_other s t q routes h = rw (==_false t s h) (get_route-pop_other s t routes h)

pub get_route-set_route :
    (s q : ℕ) (routes : List (ℕ × ℕ)) → get_route s (set_route s q routes) ≡ some q
get_route-set_route s q routes = rw ((==_iff s s).1 refl) refl

-- A route that is left after one was dropped was there before, and is another one's.
pub get_route-popped :
    (s t q : ℕ) (routes : List (ℕ × ℕ))
    → get_route s (pop_route t routes) ≡ some q
    → (t ≢ s) × (get_route s routes ≡ some q)
get_route-popped s t q routes h = elim (Bool-cases (t == s)) [
  | inl same ↦ absurd (
      none-some q (
        sym (get_route-pop_route s routes)
        ∙ ap (λ u. get_route s (pop_route u routes)) (sym ((==_iff t s).0 same))
        ∙ h))
  | inr other ↦ (false_== t s other, sym (get_route-pop_other s t routes (false_== t s other)) ∙ h)
]

pub get_or-set {ℓ} :
    {A : Type ℓ} (i : ℕ) (v d : A) (xs : List A) → i < length xs → get_or (set xs i v) i d ≡ v
get_or-set i v d [] h = absurd (omega arith)
get_or-set zero v d (x ∷ xs) h = refl
get_or-set (suc i) v d (x ∷ xs) h = get_or-set i v d xs (omega arith)

pub get_or-set_other {ℓ} :
    {A : Type ℓ} (i j : ℕ) (v d : A) (xs : List A) → i ≢ j → get_or (set xs i v) j d ≡ get_or xs j d
get_or-set_other i j v d [] h = refl
get_or-set_other zero zero v d (x ∷ xs) h = absurd (h refl)
get_or-set_other zero (suc j) v d (x ∷ xs) h = refl
get_or-set_other (suc i) zero v d (x ∷ xs) h = refl
get_or-set_other (suc i) (suc j) v d (x ∷ xs) h = get_or-set_other i j v d xs (λ e. h (ap suc e))

pub get_or-append {ℓ} :
    {A : Type ℓ} (i : ℕ) (d : A) (xs ys : List A)
    → i < length xs
    → get_or (xs ++ ys) i d ≡ get_or xs i d
get_or-append i d [] ys h = absurd (omega arith)
get_or-append zero d (x ∷ xs) ys h = refl
get_or-append (suc i) d (x ∷ xs) ys h = get_or-append i d xs ys (omega arith)

pub get_or-last {ℓ} :
    {A : Type ℓ} (d v : A) (xs : List A) → get_or (xs ++ (v ∷ [])) (length xs) d ≡ v
get_or-last d v [] = refl
get_or-last d v (x ∷ xs) = get_or-last d v xs

pub length-put_all :
    (routes : List (ℕ × ℕ)) (item : Item) (queues : List (List Item))
    → length (put_all routes item queues) ≡ length queues
length-put_all [] item queues = refl
length-put_all ((s, q) ∷ routes) item queues =
    length-put_all routes item (put_item q item queues)
    ∙ length-set queues q (get_or queues q [] ++ (item ∷ []))

-- A queue from which the next item taken is the given one.
abbrev pub Starts : Item → List Item → Type 0
Starts item items = (rest : List Item) × (items ≡ item ∷ rest)

put_item-Starts :
    (p q : ℕ) (item first : Item) (queues : List (List Item))
    → q < length queues
    → Starts first (get_or queues q [])
    → Starts first (get_or (put_item p item queues) q [])
put_item-Starts p q item first queues h (rest, e) = elim (Bool-cases (p == q)) [
  | inl same ↦ rw ((==_iff p q).0 same) (
    rest ++ (item ∷ []),
    get_or-set q (get_or queues q [] ++ (item ∷ [])) [] queues h ∙ ap (λ t. t ++ (item ∷ [])) e,
  )
  | inr other ↦ (
    rest,
    get_or-set_other p q (get_or queues p [] ++ (item ∷ [])) [] queues (false_== p q other) ∙ e,
  )
]

put_all-Starts :
    (routes : List (ℕ × ℕ)) (q : ℕ) (item first : Item) (queues : List (List Item))
    → q < length queues
    → Starts first (get_or queues q [])
    → Starts first (get_or (put_all routes item queues) q [])
put_all-Starts [] q item first queues h e = e
put_all-Starts ((s, p) ∷ routes) q item first queues h e =
    put_all-Starts routes q item first (put_item p item queues)
      (omega (arith, length-set queues p (get_or queues p [] ++ (item ∷ []))))
      (put_item-Starts p q item first queues h e)

-- Every queue that a route leads to gets the item.
pub put_all-reaches :
    (routes : List (ℕ × ℕ)) (s q : ℕ) (item : Item) (queues : List (List Item))
    → q < length queues
    → get_or queues q [] ≡ []
    → get_route s routes ≡ some q
    → Starts item (get_or (put_all routes item queues) q [])
put_all-reaches [] s q item queues h empty r = absurd (none-some q r)
put_all-reaches ((t, p) ∷ routes) s q item queues h empty r = elim (Bool-cases (p == q)) [
  | inl same ↦ put_all-Starts routes q item item (put_item p item queues) fits (
      rw ((==_iff p q).0 same) (
        [],
        get_or-set q (get_or queues q [] ++ (item ∷ [])) [] queues h
            ∙ ap (λ l. l ++ (item ∷ [])) empty,
      ))
  | inr other ↦
      put_all-reaches routes s q item (put_item p item queues) fits
        (get_or-set_other p q (get_or queues p [] ++ (item ∷ [])) [] queues (false_== p q other)
          ∙ empty)
        (further (false_== p q other))
]
  where
    fits : q < length (put_item p item queues)
    fits = omega (arith, length-set queues p (get_or queues p [] ++ (item ∷ [])))

    further : p ≢ q → get_route s routes ≡ some q
    further ne = elim (Bool-cases (t == s)) [
      | inl here ↦ absurd (ne (some-inj p q (sym (rw here refl) ∙ r)))
      | inr there ↦ sym (rw there refl) ∙ r
    ]
