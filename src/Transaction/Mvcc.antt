-- ===== src/Transaction/Mvcc.antt =====
-- crates/vledger-transaction/src/mvcc.rs: which version of a row a snapshot sees.
use vector_ledger.Common.{
  ℕ, ◌<◌, ◌≤◌, ◌≡◌, ◌⊎◌, inl, inr, refl, List, [], ◌∷◌, ◌++◌, Option, none, some, Bool, true, false,
  not, ◌&&◌, leb, ltb, ◌==◌, if◌then◌else◌, All, arith, ap, Bool-cases,
}
use vector_ledger.Common.Bytes.{Bytes}
use vector_ledger.Crypto.Hash.{Hash}

pub record RowVersion : Type 0 where
  pub tx_id_created : ℕ
  pub tx_id_deleted : ℕ
  pub row_sequence : ℕ
  pub row_data : Bytes
  pub data_hash : Hash
  pub prev_hash : Hash

pub data Visibility : Type 0 where
  visible too_new deleted : Visibility

unfoldable pub is_visible : RowVersion → ℕ → Visibility
is_visible v snapshot =
    if leb snapshot v.tx_id_created
    then Visibility.too_new
    else if not (v.tx_id_deleted == 0) && ltb v.tx_id_deleted snapshot
    then Visibility.deleted
    else Visibility.visible

unfoldable pub sees : RowVersion → ℕ → Bool
unfolding is_visible
sees v snapshot = elim (is_visible v snapshot) [
  | Visibility.visible ↦ true
  | Visibility.too_new ↦ false
  | Visibility.deleted ↦ false
]

-- `iter().rev().find(..)`: the last version that the snapshot sees.
unfoldable pub or_earlier : RowVersion → ℕ → Option RowVersion → Option RowVersion
unfolding sees
or_earlier v snapshot (some w) = some w
or_earlier v snapshot none = if sees v snapshot then some v else none

-- `iter().rev().find(..)`: the last version that the snapshot sees.
unfoldable pub latest_visible : List RowVersion → ℕ → Option RowVersion
unfolding or_earlier
latest_visible [] snapshot = none
latest_visible (v ∷ vs) snapshot = or_earlier v snapshot (latest_visible vs snapshot)

-- A version is in the view of a snapshot: created before it and not deleted before it.
abbrev pub InView : ℕ → RowVersion → Type 0
InView snapshot v =
    (v.tx_id_created < snapshot) × ((v.tx_id_deleted ≡ 0) ⊎ (snapshot ≤ v.tx_id_deleted))

abbrev pub Outside : ℕ → RowVersion → Type 0
Outside snapshot v = InView snapshot v → ⊥

-- The answer for a row is a version in the view with every later version outside it; or there is no
-- version in the view.
abbrev pub IsLatest : ℕ → List RowVersion → Option RowVersion → Type 0
IsLatest snapshot vs (some v) =
    (before : List RowVersion) × (after : List RowVersion) × (vs ≡ before ++ v ∷ after)
    × InView snapshot v
    × All (Outside snapshot) after
IsLatest snapshot vs none = All (Outside snapshot) vs

sees-InView : (v : RowVersion) (snapshot : ℕ) → sees v snapshot ≡ true → InView snapshot v
unfolding is_visible sees
sees-InView v snapshot h = ground arith

sees-Outside : (v : RowVersion) (snapshot : ℕ) → sees v snapshot ≡ false → Outside snapshot v
unfolding is_visible sees
sees-Outside v snapshot h i = ground arith

or_earlier-IsLatest :
    (v : RowVersion) (vs : List RowVersion) (snapshot : ℕ) (o : Option RowVersion)
    → IsLatest snapshot vs o
    → IsLatest snapshot (v ∷ vs) (or_earlier v snapshot o)
unfolding or_earlier
or_earlier-IsLatest v vs snapshot (some w) (before, after, e, seen, later) =
    (v ∷ before, after, ap (λ l. v ∷ l) e, seen, later)
or_earlier-IsLatest v vs snapshot none none_later = elim (Bool-cases (sees v snapshot)) [
  | inl shown ↦ rw shown ([], vs, refl, sees-InView v snapshot shown, none_later)
  | inr hidden ↦ rw hidden (sees-Outside v snapshot hidden, none_later)
]

-- For every list of versions, in any order, `latest_visible` finds the last version that was created
-- before the snapshot and not deleted before it, and nothing exactly when there is no such version.
pub latest_visible-IsLatest :
    (vs : List RowVersion) (snapshot : ℕ) → IsLatest snapshot vs (latest_visible vs snapshot)
unfolding latest_visible
latest_visible-IsLatest [] snapshot = tt
latest_visible-IsLatest (v ∷ vs) snapshot =
    or_earlier-IsLatest v vs snapshot _ (latest_visible-IsLatest vs snapshot)
