-- ===== src/Common/Encoding.antt =====
-- Encodings that can be read back: little-endian and big-endian integers are self-delimiting.
use mathlib.Core.List.{reverse, reverse_aux, reverse-reverse}
use native.Mathlib.Nat.{pow-suc}
use Prim.Native.Nat.{ℕ, zero, suc, ◌+◌, ◌*◌, ◌/◌, ◌%◌, ◌^◌, ◌<◌}
use mathlib.Core.Path.{◌≡◌, refl, sym, ap, ◌∙◌}
use mathlib.Core.List.{[], ◌∷◌, ◌++◌}
use native.Mathlib.Omega.{arith}
use vector_ledger.Common.Lists.{length}
use vector_ledger.Common.Bytes.{Bytes, to_le_bytes, to_be_bytes, bytes_eq, bytes_eq_iff}
use mathlib.Core.Bool.{true}

-- Two texts that begin with parts of one length agree in those parts and in what follows.
pub split_equal :
    (xs ys r s : Bytes) → length xs ≡ length ys → xs ++ r ≡ ys ++ s → (xs ≡ ys) × (r ≡ s)
split_equal [] [] r s n h = (refl, h)
split_equal [] (y ∷ ys) r s n h = absurd (omega arith)
split_equal (x ∷ xs) [] r s n h = absurd (omega arith)
split_equal (x ∷ xs) (y ∷ ys) r s n h =
    let (heads, tails) = split_equal xs ys r s (omega arith) (cc) in (cc, tails)

pub length-to_le_bytes : (k n : ℕ) → length (to_le_bytes k n) ≡ k
unfolding to_le_bytes
length-to_le_bytes zero n = refl
length-to_le_bytes (suc k) n = ap suc (length-to_le_bytes k (n / 256))

to_le_bytes-injective :
    (k m n : ℕ) → m < 256 ^ k → n < 256 ^ k → to_le_bytes k m ≡ to_le_bytes k n → m ≡ n
unfolding to_le_bytes
to_le_bytes-injective zero m n hm hn h = omega arith
to_le_bytes-injective (suc k) m n hm hn h =
    let bm : m < 256 ^ k * 256 = rw pow-suc at hm in
    let bn : n < 256 ^ k * 256 = rw pow-suc at hn in
    let low : m % 256 ≡ n % 256 = cc in
    let high = to_le_bytes-injective k (m / 256) (n / 256) (omega arith) (omega arith) (cc) in
    omega arith

length-reverse_aux : (xs ys : Bytes) → length (reverse_aux xs ys) ≡ length xs + length ys
length-reverse_aux [] ys = omega arith
length-reverse_aux (x ∷ xs) ys = omega (arith, length-reverse_aux xs (x ∷ ys))

pub length-reverse : (xs : Bytes) → length (reverse xs) ≡ length xs
length-reverse xs = omega (arith, length-reverse_aux xs [])

pub length-to_be_bytes : (k n : ℕ) → length (to_be_bytes k n) ≡ k
unfolding to_be_bytes
length-to_be_bytes k n = length-reverse (to_le_bytes k n) ∙ length-to_le_bytes k n

to_be_bytes-injective :
    (k m n : ℕ) → m < 256 ^ k → n < 256 ^ k → to_be_bytes k m ≡ to_be_bytes k n → m ≡ n
unfolding to_be_bytes
to_be_bytes-injective k m n hm hn h =
    to_le_bytes-injective k m n hm hn
      (sym (reverse-reverse (to_le_bytes k m)) ∙ ap reverse h ∙ reverse-reverse (to_le_bytes k n))

-- An encoder is self-delimiting at two values if equal texts that begin with their encodings have
-- equal values and equal rests.
abbrev pub Splits {ℓ} : {A : Type ℓ} → (A → Bytes) → A → A → Type ℓ
Splits enc a b = (r s : Bytes) → enc a ++ r ≡ enc b ++ s → (a ≡ b) × (r ≡ s)

pub u64-Splits : (k m n : ℕ) → m < 256 ^ k → n < 256 ^ k → Splits (to_le_bytes k) m n
u64-Splits k m n hm hn r s h =
    let lens = length-to_le_bytes k m ∙ sym (length-to_le_bytes k n) in
    let (e, rest) = split_equal (to_le_bytes k m) (to_le_bytes k n) r s lens h in
    (to_le_bytes-injective k m n hm hn e, rest)

pub uuid-Splits : (m n : ℕ) → m < 256 ^ 16 → n < 256 ^ 16 → Splits (to_be_bytes 16) m n
uuid-Splits m n hm hn r s h =
    let lens = length-to_be_bytes 16 m ∙ sym (length-to_be_bytes 16 n) in
    let (e, rest) = split_equal (to_be_bytes 16 m) (to_be_bytes 16 n) r s lens h in
    (to_be_bytes-injective 16 m n hm hn e, rest)

pub bytes_eq_refl : (x : Bytes) → bytes_eq x x ≡ true
bytes_eq_refl x = (bytes_eq_iff x x).1 refl
