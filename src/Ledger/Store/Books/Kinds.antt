-- ===== src/Ledger/Store/Books/Kinds.antt =====
-- The books do not depend on what an account says of itself but its type (store.rs).
use vector_ledger.Common.{
  arith, ℕ, ◌≡◌, refl, sym, ap, ◌∙◌, List, [], ◌∷◌, none, some, Bool-cases, inl, inr, All, ◌==◌,
}
use vector_ledger.Common.Dict.{Dict, lookup, insert, lookup-insert}
use vector_ledger.Common.Int.{ℤ}
use vector_ledger.Crypto.Hash.{Platform, Hash}
use vector_ledger.Ledger.Account.{Uuid, Account}
use vector_ledger.Ledger.Entry.{JournalEntry, JournalLine}
use vector_ledger.Ledger.Store.Balance.{line_effect, lines_effect, entry_effect, journal_balance}
use vector_ledger.Ledger.Store.Books.{Known, AllKnown, AreIndexed, AreBooks}

-- The accounts stay, each with its type.
abbrev pub KeepTypes : Dict Account → Dict Account → Type 0
KeepTypes old new =
    (k : Uuid) (x : Account)
    → lookup k old ≡ some x
    → (y : Account) × (lookup k new ≡ some y) × (y.account_type ≡ x.account_type)

pub KeepTypes-new :
    (k : Uuid) (y : Account) (d : Dict Account) → lookup k d ≡ none → KeepTypes d (insert k y d)
KeepTypes-new k y d free j x h = elim (Bool-cases (j == k)) [
  | inl same ↦ let key : j ≡ k = ground arith in absurd (ground (arith, rw key at h))
  | inr other ↦ (x, ground (arith, lookup-insert k j y d), refl)
]

pub KeepTypes-update :
    (k : Uuid) (old y : Account) (d : Dict Account)
    → lookup k d ≡ some old
    → y.account_type ≡ old.account_type
    → KeepTypes d (insert k y d)
KeepTypes-update k old y d there t j x h = elim (Bool-cases (j == k)) [
  | inl same ↦
      let key : j ≡ k = ground arith in
      let this : old ≡ x = ground (arith, rw key at h) in
      (y, ground (arith, lookup-insert k j y d), t ∙ ap (λ z. z.account_type) this)
  | inr other ↦ (x, ground (arith, lookup-insert k j y d), refl)
]

pub AreIndexed-lookup :
    (k : Uuid) (x : Account) (d : Dict Account) → lookup k d ≡ some x → AreIndexed d → x.id ≡ k
unfolding AreIndexed lookup
AreIndexed-lookup k x [] h i = absurd (ground arith)
AreIndexed-lookup k x ((j, y) ∷ d) h (same, unique, i) = elim (Bool-cases (k == j)) [
  | inl here ↦
      let this : y ≡ x = ground arith in
      let key : j ≡ k = ground arith in sym (ap (λ z. z.id) this) ∙ same ∙ key
  | inr there ↦ AreIndexed-lookup k x d (ground arith) i
]

pub AreIndexed-insert :
    (k : Uuid) (y : Account) (d : Dict Account)
    → y.id ≡ k
    → AreIndexed d
    → AreIndexed (insert k y d)
unfolding AreIndexed insert lookup
AreIndexed-insert k y [] h i = (h, refl, tt)
AreIndexed-insert k y ((j, x) ∷ d) h (same, unique, i) = elim (Bool-cases (k == j)) [
  | inl here ↦ let key : j ≡ k = ground arith in rw here (h, rw key at unique, i)
  | inr there ↦
      let rest : lookup j (insert k y d) ≡ none = ground (arith, lookup-insert k j y d) in
      rw there (same, rest, AreIndexed-insert k y d h i)
]

line_effect-type :
    (x y : Account) (l : JournalLine)
    → y.account_type ≡ x.account_type
    → line_effect (some y) l ≡ line_effect (some x) l
unfolding line_effect
line_effect-type x y l t = rw t refl

line_effect-keep :
    (old new : Dict Account) (l : JournalLine)
    → KeepTypes old new
    → Known old l
    → line_effect (lookup l.account_id new) l ≡ line_effect (lookup l.account_id old) l
line_effect-keep old new l keep (x, h) =
    let (y, h', t) = keep l.account_id x h in rw h (rw h' (line_effect-type x y l t))

lines_effect-keep :
    (old new : Dict Account) (a : Uuid) (ls : List JournalLine)
    → KeepTypes old new
    → All (Known old) ls
    → lines_effect new a ls ≡ lines_effect old a ls
unfolding lines_effect
lines_effect-keep old new a [] keep h = refl
lines_effect-keep old new a (l ∷ ls) keep h = elim (Bool-cases (a == l.account_id)) [
  | inl same ↦
      let key : a ≡ l.account_id = ground arith in
      let this =
        ap (λ i. line_effect (lookup i new) l) key
        ∙ line_effect-keep old new l keep h.0
        ∙ sym (ap (λ i. line_effect (lookup i old) l) key) in
      ground (arith, this, lines_effect-keep old new a ls keep h.1)
  | inr other ↦ ground (arith, lines_effect-keep old new a ls keep h.1)
]

entry_effect-keep :
    (old new : Dict Account) (a : Uuid) (e : JournalEntry)
    → KeepTypes old new
    → All (Known old) e.lines
    → entry_effect new a e ≡ entry_effect old a e
unfolding entry_effect
entry_effect-keep old new a e keep h = ground (arith, lines_effect-keep old new a e.lines keep h)

journal_balance-keep :
    (old new : Dict Account) (a : Uuid) (es : List JournalEntry)
    → KeepTypes old new
    → AllKnown old es
    → journal_balance new a es ≡ journal_balance old a es
unfolding journal_balance
journal_balance-keep old new a [] keep h = refl
journal_balance-keep old new a (e ∷ es) keep h =
    ground
      (arith, entry_effect-keep old new a e keep h.0, journal_balance-keep old new a es keep h.1)

pub Known-keep :
    (old new : Dict Account) (ls : List JournalLine)
    → KeepTypes old new
    → All (Known old) ls
    → All (Known new) ls
Known-keep old new [] keep h = tt
Known-keep old new (l ∷ ls) keep h =
    let (y, h', t) = keep l.account_id h.0.0 h.0.1 in ((y, h'), Known-keep old new ls keep h.1)

AllKnown-keep :
    (old new : Dict Account) (es : List JournalEntry)
    → KeepTypes old new
    → AllKnown old es
    → AllKnown new es
AllKnown-keep old new [] keep h = tt
AllKnown-keep old new (e ∷ es) keep h =
    (Known-keep old new e.lines keep h.0, AllKnown-keep old new es keep h.1)

pub AreBooks-keep :
    (P : Platform) (old new : Dict Account) (cache : Dict ℤ) (es : List JournalEntry) (next : ℕ)
    (tip : Hash)
    → KeepTypes old new
    → AreIndexed new
    → AreBooks P old cache es next tip
    → AreBooks P new cache es next tip
AreBooks-keep P old new cache es next tip keep i b = record {
  positive = b.positive;
  below = b.below;
  known = AllKnown-keep old new es keep b.known;
  balances = λ a. b.balances a ∙ sym (journal_balance-keep old new a es keep b.known);
  indexed = i;
  even = b.even;
  chain = b.chain;
}
