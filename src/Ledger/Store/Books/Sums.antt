-- ===== src/Ledger/Store/Books/Sums.antt =====
-- Sums over the accounts (store.rs), each with the side of the ledger equation that its type has.
use vector_ledger.Common.{
  arith, ◌≡◌, refl, ap, ◌∙◌, [], ◌∷◌, none, some, ◌==◌, if◌then◌else◌, Bool-cases, inl, inr,
}
use vector_ledger.Common.Dict.{Dict, lookup, value_at}
use vector_ledger.Common.Int.{ℤ, pos, neg, ◌+ℤ◌, int_laws, eq→parts}
use vector_ledger.Ledger.Account.{Uuid, Account, AccountType}
use vector_ledger.Ledger.Store.Books.{AreIndexed}
use vector_ledger.Ledger.Store.Reconcile.{add_to_sums, normal_sums}

-- Debit-normal accounts count, credit-normal ones count against them, the rest does not count.
abbrev pub side : AccountType → ℤ → ℤ
side AccountType.asset v = v
side AccountType.expense v = v
side AccountType.liability v = neg v
side AccountType.equity v = neg v
side AccountType.income v = neg v
side AccountType.contra v = pos 0
side AccountType.suspense v = pos 0

unfoldable pub sum : (Uuid → ℤ) → Dict Account → ℤ
sum f [] = pos 0
sum f ((k, x) ∷ d) = side x.account_type (f x.id) +ℤ sum f d

side-zero : (t : AccountType) → side t (pos 0) ≡ pos 0
side-zero AccountType.asset = refl
side-zero AccountType.expense = refl
side-zero AccountType.liability = omega int_laws
side-zero AccountType.equity = omega int_laws
side-zero AccountType.income = omega int_laws
side-zero AccountType.contra = refl
side-zero AccountType.suspense = refl

side-add : (t : AccountType) (v w : ℤ) → side t (v +ℤ w) ≡ side t v +ℤ side t w
side-add AccountType.asset v w = refl
side-add AccountType.expense v w = refl
side-add AccountType.liability v w = omega int_laws
side-add AccountType.equity v w = omega int_laws
side-add AccountType.income v w = omega int_laws
side-add AccountType.contra v w = omega int_laws
side-add AccountType.suspense v w = omega int_laws

add_to_sums-side :
    (t : AccountType) (v d c : ℤ)
    → (add_to_sums t v (d, c)).0 +ℤ neg (add_to_sums t v (d, c)).1 ≡ d +ℤ neg c +ℤ side t v
add_to_sums-side AccountType.asset v d c = omega int_laws
add_to_sums-side AccountType.expense v d c = omega int_laws
add_to_sums-side AccountType.liability v d c = omega int_laws
add_to_sums-side AccountType.equity v d c = omega int_laws
add_to_sums-side AccountType.income v d c = omega int_laws
add_to_sums-side AccountType.contra v d c = omega int_laws
add_to_sums-side AccountType.suspense v d c = omega int_laws

-- The two sums of the check differ by the sum over the accounts.
pub normal_sums-sum :
    (accounts : Dict Account) (cache : Dict ℤ) (d c : ℤ)
    → (normal_sums accounts cache (d, c)).0 +ℤ neg (normal_sums accounts cache (d, c)).1
      ≡ d +ℤ neg c +ℤ sum (λ a. value_at a cache) accounts
unfolding normal_sums sum
normal_sums-sum [] cache d c = omega int_laws
normal_sums-sum ((k, x) ∷ accounts) cache d c =
    let v = value_at x.id cache in
    let (d', c') = add_to_sums x.account_type v (d, c) in
    let later = normal_sums-sum accounts cache d' c' in
    let now = add_to_sums-side x.account_type v d c in
    omega (int_laws, eq→parts later, eq→parts now)

pub sum-same :
    (f g : Uuid → ℤ) (accounts : Dict Account)
    → ((a : Uuid) → f a ≡ g a)
    → sum f accounts ≡ sum g accounts
unfolding sum
sum-same f g [] h = refl
sum-same f g ((k, x) ∷ d) h =
    rw (h x.id) (ap (λ s. side x.account_type (g x.id) +ℤ s) (sum-same f g d h))

pub sum-add :
    (f g : Uuid → ℤ) (accounts : Dict Account)
    → sum (λ a. f a +ℤ g a) accounts ≡ sum f accounts +ℤ sum g accounts
unfolding sum
sum-add f g [] = omega int_laws
sum-add f g ((k, x) ∷ d) =
    let later = sum-add f g d in
    let now = side-add x.account_type (f x.id) (g x.id) in
    omega (int_laws, eq→parts later, eq→parts now)

pub sum-zero : (accounts : Dict Account) → sum (λ a. pos 0) accounts ≡ pos 0
unfolding sum
sum-zero [] = refl
sum-zero ((k, x) ∷ d) =
    let later = sum-zero d in
    let now = side-zero x.account_type in omega (int_laws, eq→parts later, eq→parts now)

-- A value on one account alone.
abbrev pub only : Uuid → ℤ → Uuid → ℤ
only k v a = if a == k then v else pos 0

sum-absent :
    (accounts : Dict Account) (k : Uuid) (v : ℤ)
    → lookup k accounts ≡ none
    → AreIndexed accounts
    → sum (only k v) accounts ≡ pos 0
unfolding sum lookup AreIndexed
sum-absent [] k v n i = refl
sum-absent ((j, x) ∷ d) k v n (same, unique, i) =
    let zero : only k v x.id ≡ pos 0 = ground arith in
    let now = ap (side x.account_type) zero ∙ side-zero x.account_type in
    let later = sum-absent d k v (ground arith) i in omega (int_laws, eq→parts now, eq→parts later)

pub sum-only :
    (accounts : Dict Account) (k : Uuid) (v : ℤ) (x : Account)
    → lookup k accounts ≡ some x
    → AreIndexed accounts
    → sum (only k v) accounts ≡ side x.account_type v
unfolding sum lookup AreIndexed
sum-only [] k v x l i = absurd (ground arith)
sum-only ((j, y) ∷ d) k v x l (same, unique, i) = elim (Bool-cases (k == j)) [
  | inl here ↦
      let this : y ≡ x = ground arith in
      let value : only k v y.id ≡ v = ground arith in
      let key : j ≡ k = ground arith in
      let now = ap (side y.account_type) value ∙ ap (λ z. side z.account_type v) this in
      let later = sum-absent d k v (rw key at unique) i in
      omega (int_laws, eq→parts now, eq→parts later)
  | inr there ↦
      let zero : only k v y.id ≡ pos 0 = ground arith in
      let now = ap (side y.account_type) zero ∙ side-zero y.account_type in
      let later = sum-only d k v x (ground arith) i in
      omega (int_laws, eq→parts now, eq→parts later)
]
