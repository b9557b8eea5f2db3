-- ===== src/Ledger/Entry/Validate.antt =====
-- `JournalEntry::validate` (entry.rs): at least two lines, and debits equal to credits.
use vector_ledger.Common.{
  ℕ, ◌+◌, ◌*◌, ◌^◌, ◌≤◌, ◌<◌, ◌≡◌, ◌↔◌, true, List, [], ◌∷◌, arith, length, ltb, not, if◌then◌else◌,
  Result, ok, err, All, All-prefix, length-append, ◌++◌, suc,
}
use vector_ledger.Common.Int.{
  ℤ, pos, pos_part, neg_part, ◌+ℤ◌, ◌==ℤ◌, ==ℤ_iff, IsI64, int_laws, eq→parts,
}
use vector_ledger.Ledger.Amount.{as_i128}
use vector_ledger.Ledger.Entry.{JournalLine, JournalEntry, DrCr, signed, signed_amount}
use vector_ledger.Ledger.Error.{LedgerError}

-- The two running totals of the loop.
abbrev pub tally : DrCr → ℤ → ℤ × ℤ → ℤ × ℤ
tally DrCr.debit amt (debits, credits) = (debits +ℤ amt, credits)
tally DrCr.credit amt (debits, credits) = (debits, credits +ℤ amt)

unfoldable pub totals : ℤ × ℤ → List JournalLine → ℤ × ℤ
totals acc [] = acc
totals acc (l ∷ ls) = totals (tally l.dr_cr (as_i128 l.amount) acc) ls

unfoldable pub validate : JournalEntry → Result LedgerError (Unit {0})
validate e =
    if ltb (length e.lines) 2
    then err (LedgerError.too_few_lines (length e.lines))
    else (let (debits, credits) = totals (pos 0, pos 0) e.lines in
        if not (debits ==ℤ credits)
        then err (LedgerError.unbalanced_entry debits credits)
        else ok tt)

-- The specification: the sum of the signed amounts.
abbrev pub net : List JournalLine → ℤ
net [] = pos 0
net (l ∷ ls) = signed_amount l +ℤ net ls

abbrev TotalsNet : List JournalLine → ℤ × ℤ → Type 0
TotalsNet ls (d, c) = (totals (d, c) ls).0 +ℤ net ls +ℤ c ≡ (totals (d, c) ls).1 +ℤ d

tally-net :
    (s : DrCr) (x : ℤ) (ls : List JournalLine)
    → ((acc : ℤ × ℤ) → TotalsNet ls acc)
    → (d c : ℤ)
    → (totals (tally s x (d, c)) ls).0 +ℤ (signed s x +ℤ net ls) +ℤ c
      ≡ (totals (tally s x (d, c)) ls).1 +ℤ d
tally-net DrCr.debit x ls ih d c = omega (int_laws, eq→parts (ih (d +ℤ x, c)))
tally-net DrCr.credit x ls ih d c = omega (int_laws, eq→parts (ih (d, c +ℤ x)))

totals-net : (ls : List JournalLine) (acc : ℤ × ℤ) → TotalsNet ls acc
unfolding totals signed_amount
totals-net [] acc = omega int_laws
totals-net (l ∷ ls) (d, c) = tally-net l.dr_cr l.amount.minor_units ls (totals-net ls) d c

net_zero_iff : (d c n : ℤ) → d +ℤ n +ℤ pos 0 ≡ c +ℤ pos 0 → ((d ==ℤ c) ≡ true) ↔ (n ≡ pos 0)
net_zero_iff d c n h = (
  λ t. omega (int_laws, eq→parts h, eq→parts ((==ℤ_iff d c).0 t)),
  λ z. (==ℤ_iff d c).1 (omega (int_laws, eq→parts h, eq→parts z)),
)

-- Validation accepts an entry exactly when it has two lines or more and its signed amounts, with
-- credits positive and debits negative, sum to zero. Nothing else counts: an amount of zero or below
-- passes.
pub validate_iff :
    (e : JournalEntry) → (validate e ≡ ok tt) ↔ ((2 ≤ length e.lines) × (net e.lines ≡ pos 0))
unfolding validate
validate_iff e =
    let z = net_zero_iff _ _ (net e.lines) (totals-net e.lines (pos 0, pos 0)) in
    (λ h. ground (arith, z), λ h. ground (arith, z.1 h.1))

-- Each total stays within the number of lines times the largest magnitude of an `i64`.
abbrev Bounded : ℕ → ℤ → Type 0
Bounded n z = (pos_part z ≤ n * 2 ^ 63) × (neg_part z ≤ n * 2 ^ 63)

Bounded-add : (n : ℕ) (x y : ℤ) → Bounded n x → IsI64 y → Bounded (suc n) (x +ℤ y)
unfolding ◌+ℤ◌
Bounded-add n x y h b = ground arith

tally-Bounded :
    (n : ℕ) (s : DrCr) (x d c : ℤ)
    → Bounded n d
    → Bounded n c
    → IsI64 x
    → Bounded (suc n) (tally s x (d, c)).0 × Bounded (suc n) (tally s x (d, c)).1
tally-Bounded n DrCr.debit x d c hd hc b = (Bounded-add n d x hd b, omega arith)
tally-Bounded n DrCr.credit x d c hd hc b = (omega arith, Bounded-add n c x hc b)

totals-Bounded :
    (n : ℕ) (ls : List JournalLine) (d c : ℤ)
    → Bounded n d
    → Bounded n c
    → All (λ (l : JournalLine). IsI64 l.amount.minor_units) ls
    → Bounded (n + length ls) (totals (d, c) ls).0 × Bounded (n + length ls) (totals (d, c) ls).1
unfolding totals
totals-Bounded n [] d c hd hc b = (omega arith, omega arith)
totals-Bounded n (l ∷ ls) d c hd hc b =
    let (td, tc) = tally-Bounded n l.dr_cr l.amount.minor_units d c hd hc b.0 in
    let (rd, rc) = totals-Bounded (suc n) ls _ _ td tc b.1 in (omega arith, omega arith)

abbrev pub IsI128 : ℤ → Type 0
IsI128 z = (pos_part z < 2 ^ 127) × (neg_part z ≤ 2 ^ 127)

-- The `i128` totals of validation do not overflow: for lines whose amounts are `i64` values, fewer
-- than 2 ^ 63 in number, both running totals are `i128` values after any number of the lines.
pub totals-IsI128 :
    (e : JournalEntry) (xs ys : List JournalLine)
    → e.lines ≡ xs ++ ys
    → length e.lines < 2 ^ 63
    → All (λ (l : JournalLine). IsI64 l.amount.minor_units) e.lines
    → IsI128 (totals (pos 0, pos 0) xs).0 × IsI128 (totals (pos 0, pos 0) xs).1
totals-IsI128 e xs ys split short b =
    let sizes = length-append xs ys in
    let lens : length e.lines ≡ length xs + length ys = rw split sizes in
    let (hd, hc) =
      totals-Bounded 0 xs (pos 0) (pos 0) (omega arith) (omega arith)
        (All-prefix _ xs ys (rw split at b)) in
    (omega arith, omega arith)
