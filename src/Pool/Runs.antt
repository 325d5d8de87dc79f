-- ===== src/Pool/Runs.antt =====
-- Pools of three clients, which are numbers; the odd ones are closed.
use brain_sdk.Prelude.{
  ℕ, ◌≡◌, ◌%◌, refl, some, Bool, true, false, subst, List, [], ◌∷◌, arith, get_elem?, ◌==◌,
}
use brain_sdk.Errors.{os_error}
use brain_sdk.Mux.{Answer, ok, raises}
use brain_sdk.Pool.{new_pool, get, get_healthy, connect_with}
use brain_sdk.Pool.Turns.{after_gets, get-nth}
use brain_sdk.Pool.Healthy.{Served, get_healthy-Served}
use brain_sdk.Pool.Members.{AllOrNone, connect_with-AllOrNone}

abbrev three : List ℕ
three = 1 ∷ 2 ∷ 4 ∷ []

abbrev is_odd : ℕ → Bool
is_odd n = n % 2 == 1

get-nth_example :
    (client : ℕ) × (get_elem? three 1 ≡ some client)
    × ((get (after_gets 7 (new_pool three true))).0 ≡ ok client)
get-nth_example = get-nth 7 three true (omega arith)

dialled_live : (fresh : ℕ) → ok 6 ≡ ok fresh → is_odd fresh ≡ false
dialled_live fresh h = subst (λ n. is_odd n ≡ false) (six h) refl
  where
    six : ok 6 ≡ ok fresh → 6 ≡ fresh
    six e = cc

-- The member whose turn it is is closed, and 6 is dialled.
get_healthy-Served_example :
    Served is_odd (new_pool three true) (ok 6) (get_healthy is_odd (ok 6) (new_pool three true))
get_healthy-Served_example =
    get_healthy-Served is_odd (new_pool three true) (ok 6) (omega arith) refl dialled_live

-- The third dialling fails.
abbrev two_of_three : ℕ → Answer ℕ
two_of_three n = elim (n == 2) [ true ↦ raises os_error | _ ↦ ok n ]

connect_with-AllOrNone_example :
    AllOrNone two_of_three 3 (connect_with two_of_three 3) (connect_with two_of_three 3).answer
connect_with-AllOrNone_example = connect_with-AllOrNone two_of_three 3
