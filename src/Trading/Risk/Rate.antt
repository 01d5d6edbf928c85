-- ===== src/Trading/Risk/Rate.antt =====
-- The limit of `MaxOrdersPerMinuteRule` (openpine/risk/manager.py).
use openpine.Base.Lists.{length-append, keep, length, All}
use openpine.Base.Dict.{get-put, put, get, Dict}
use openpine.Trading.Risk.{is_recent, listed, length, Dict, admit_account, admit}
use openpine.Base.{
  ltb, ◌⊎◌, suc, ap, ◌∙◌, eq_iff, inl, inr, sym, Bool-cases, subst, false, refl, true, ◌++◌, ◌==◌,
  ◌&&◌, if◌then◌else◌, arith, ◌≡◌, leb, [], ◌∷◌, ◌<◌, ◌≤◌, ◌∷◌, Bool, List, ℕ, String,
}

-- the number of times in the 60 seconds that end with `t`
abbrev pub in_window : ℕ → ℕ → Bool
in_window t ts = leb ts t && is_recent t ts

-- the times never go back, and start no earlier than `from`
abbrev pub IsSteady : ℕ → List ℕ → Type 0
IsSteady from [] = Unit
IsSteady from (t ∷ times) = (from ≤ t) × IsSteady t times

-- the times, of the checks of one account, at which `admit` lets an order pass
unfoldable pub admitted : ℕ → List ℕ → List ℕ → List ℕ
unfolding admit
admitted limit [] stored = []
admitted limit (now ∷ times) stored =
    let (allowed, stored') = admit limit now stored in
    let rest = admitted limit times stored' in if allowed then now ∷ rest else rest

-- the times at which an account's orders pass the rule, in a sequence of checks of any accounts
unfoldable pub accepted : ℕ → String → List (String × ℕ) → Dict (List ℕ) → List ℕ
unfolding admit_account
accepted limit account [] counts = []
accepted limit account ((other, now) ∷ checks) counts =
    let (allowed, counts') = admit_account limit other now counts in
    let rest = accepted limit account checks counts' in
    if other == account && allowed then now ∷ rest else rest

-- the times of an account's checks
abbrev pub times_of : String → List (String × ℕ) → List ℕ
times_of account [] = []
times_of account ((other, now) ∷ checks) =
    let rest = times_of account checks in if other == account then now ∷ rest else rest

accepted-admitted :
    (limit : ℕ) (account : String) (checks : List (String × ℕ)) (counts : Dict (List ℕ))
    → accepted limit account checks counts
      ≡ admitted limit (times_of account checks) (listed (get counts account))
unfolding accepted admitted admit_account
accepted-admitted limit account [] counts = refl
accepted-admitted limit account ((other, now) ∷ checks) counts =
    let (allowed, stored) = admit limit now (listed (get counts other)) in
    let rest = accepted-admitted limit account checks (put counts other stored) in
    elim (Bool-cases (other == account)) [
      | inr differs ↦ ground (arith, rest, get-put counts other account stored, differs)
      | inl same ↦
          ground (arith, rest, get-put counts other account stored, eq_iff other account, same)
    ]

IsSteady-weaken : (a b : ℕ) (times : List ℕ) → a ≤ b → IsSteady b times → IsSteady a times
IsSteady-weaken a b [] le h = tt
IsSteady-weaken a b (t ∷ times) le h = (omega (arith, le, h.0), h.1)

admitted_from :
    (limit from : ℕ) (times stored : List ℕ)
    → IsSteady from times
    → All (λ t. from ≤ t) (admitted limit times stored)
unfolding admitted
admitted_from limit from [] stored h = tt
admitted_from limit from (now ∷ times) stored h =
    let kept = admit limit now stored in
    let rest = admitted_from limit from times kept.1 (IsSteady-weaken from now times h.0 h.1) in
    cases kept.0 rest
  where
    cases :
        (b : Bool)
        → All (λ t. from ≤ t) (admitted limit times (admit limit now stored).1)
        → All
            (λ t. from ≤ t)
            (if b
              then now ∷ admitted limit times (admit limit now stored).1
              else admitted limit times (admit limit now stored).1)
    cases true rest = (h.0, rest)
    cases false rest = rest

later_outside :
    (t from : ℕ) (xs : List ℕ) → t < from → All (λ x. from ≤ x) xs → keep (in_window t) xs ≡ []
later_outside t from [] lt h = refl
later_outside t from (x ∷ xs) lt h = ground (arith, lt, h.0, later_outside t from xs lt h.1)

keep-append : (p : ℕ → Bool) (xs ys : List ℕ) → keep p (xs ++ ys) ≡ keep p xs ++ keep p ys
keep-append p [] ys = refl
keep-append p (x ∷ xs) ys = ground (arith, keep-append p xs ys)

length-keep : (p : ℕ → Bool) (xs : List ℕ) → length (keep p xs) ≤ length xs
length-keep p [] = omega arith
length-keep p (x ∷ xs) = ground (arith, length-keep p xs)

-- the times that the rule forgets are outside every later window
keep-recent :
    (t now : ℕ) (xs : List ℕ)
    → now ≤ t
    → keep (in_window t) (keep (is_recent now) xs) ≡ keep (in_window t) xs
keep-recent t now [] le = refl
keep-recent t now (x ∷ xs) le = ground (arith, le, keep-recent t now xs le)

keep-shrinks :
    (t now : ℕ) (xs : List ℕ)
    → length (keep (in_window t) (keep (is_recent now) xs)) ≤ length (keep (in_window t) xs)
keep-shrinks t now [] = omega arith
keep-shrinks t now (x ∷ xs) = ground (arith, keep-shrinks t now xs)

-- and so the stored times serve as well as all the times before them
later_window :
    (t now : ℕ) (xs ys : List ℕ)
    → now ≤ t
    → keep (in_window t) (xs ++ ys) ≡ keep (in_window t) (keep (is_recent now) xs ++ ys)
later_window t now xs ys le =
    keep-append (in_window t) xs ys
    ∙ ap (λ zs. zs ++ keep (in_window t) ys) (sym (keep-recent t now xs le))
    ∙ sym (keep-append (in_window t) (keep (is_recent now) xs) ys)

-- A window that ends before the next check has no more than it had.
earlier_window :
    (t now : ℕ) (xs ys : List ℕ)
    → t < now
    → All (λ y. now ≤ y) ys
    → length (keep (in_window t) (xs ++ ys)) ≡ length (keep (in_window t) xs)
earlier_window t now xs ys lt later = ground (
  arith,
  keep-append (in_window t) xs ys,
  later_outside t now ys lt later,
  length-append (keep (in_window t) xs) (keep (in_window t) ys),
)

one_more :
    (limit now u : ℕ) (xs : List ℕ)
    → length xs < limit
    → length (keep (in_window u) (xs ++ now ∷ [])) ≤ limit
one_more limit now u xs few =
    omega (arith, length-keep (in_window u) (xs ++ now ∷ []), length-append xs (now ∷ []))

append_assoc : (xs : List ℕ) (x : ℕ) (ys : List ℕ) → (xs ++ x ∷ []) ++ ys ≡ xs ++ x ∷ ys
append_assoc [] x ys = refl
append_assoc (y ∷ xs) x ys = ap (λ zs. y ∷ zs) (append_assoc xs x ys)

-- the number of orders in a window, when the rule starts from stored times that are within its limit
admitted_limit :
    (limit from t : ℕ) (times stored : List ℕ)
    → IsSteady from times
    → ((u : ℕ) → length (keep (in_window u) stored) ≤ limit)
    → length (keep (in_window t) (stored ++ admitted limit times stored)) ≤ limit
unfolding admitted admit
admitted_limit limit from t [] stored h within =
    subst (λ n. n ≤ limit) (sym (earlier_window t (suc t) stored [] (omega arith) tt)) (within t)
admitted_limit limit from t (now ∷ times) stored h within = elim (Bool-cases (ltb t now)) [
  | inl before ↦
      subst (λ n. n ≤ limit)
        (sym (
          earlier_window t now stored (admitted limit (now ∷ times) stored) (ground (arith, before))
            (admitted_from limit now (now ∷ times) stored (omega arith, h.1))))
        (within t)
  | inr after ↦
      checked (ground (arith, after)) (λ xs w. admitted_limit limit now t times xs h.1 w)
        (Bool-cases (leb limit (length kept)))
]
  where
    kept : List ℕ
    kept = keep (is_recent now) stored

    checked :
        now ≤ t
        → ((xs : List ℕ)
            → ((u : ℕ) → length (keep (in_window u) xs) ≤ limit)
            → length (keep (in_window t) (xs ++ admitted limit times xs)) ≤ limit)
        → (leb limit (length kept) ≡ true) ⊎ (leb limit (length kept) ≡ false)
        → length (keep (in_window t) (stored ++ admitted limit (now ∷ times) stored)) ≤ limit
    checked le go (inl full) = rw full (
        subst (λ xs. length xs ≤ limit)
          (sym (later_window t now stored (admitted limit times kept) le))
          (go kept (λ u. omega (arith, within u, keep-shrinks u now stored))))
    checked le go (inr free) = rw free (
        subst (λ xs. length xs ≤ limit)
          (ap (keep (in_window t)) (append_assoc kept now (admitted limit times (kept ++ now ∷ [])))
            ∙ sym (later_window t now stored (now ∷ admitted limit times (kept ++ now ∷ [])) le))
          (go (kept ++ now ∷ []) (λ u. one_more limit now u kept (ground (arith, free)))))

-- With checks at times that never go back, the rule lets at most `limit` orders of an account pass in
-- any 60 seconds, whatever checks of other accounts come in between.
pub accepted_limit :
    (limit t : ℕ) (account : String) (checks : List (String × ℕ))
    → IsSteady 0 (times_of account checks)
    → length (keep (in_window t) (accepted limit account checks [])) ≤ limit
unfolding get
accepted_limit limit t account checks steady =
    subst (λ xs. length (keep (in_window t) xs) ≤ limit)
      (sym (accepted-admitted limit account checks []))
      (admitted_limit limit 0 t (times_of account checks) [] steady (λ u. omega arith))
