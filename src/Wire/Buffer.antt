-- ===== src/Wire/Buffer.antt =====
-- Message buffers: `memcpy` into a byte array, and what a sequence of writes leaves at an offset.
use cks_loadtest.Base.{
  ℕ, zero, suc, ◌+◌, ◌≤◌, ◌≡◌, refl, ap, ◌∙◌, get_or, Bool, true, ◌&&◌, ◌||◌, Option, none, some,
  List, [], ◌∷◌, arith, length, take, drop, All, ◌==◌, leb, if◌then◌else◌,
}
use cks_loadtest.Base.Words.{Bytes}

-- `memcpy(buf + i, xs, length xs)`. The callers stay inside the buffer; the model drops what does
-- not fit.
unfoldable pub put : Bytes → ℕ → Bytes → Bytes
put [] i xs = []
put (b ∷ bs) zero [] = b ∷ bs
put (b ∷ bs) zero (x ∷ xs) = x ∷ put bs zero xs
put (b ∷ bs) (suc i) xs = b ∷ put bs i xs

abbrev pub slice : Bytes → ℕ → ℕ → Bytes
slice bs i n = take n (drop i bs)

pub length-put : (bs : Bytes) (i : ℕ) (xs : Bytes) → length (put bs i xs) ≡ length bs
unfolding put
length-put [] i xs = refl
length-put (b ∷ bs) zero [] = refl
length-put (b ∷ bs) zero (x ∷ xs) = ap suc (length-put bs zero xs)
length-put (b ∷ bs) (suc i) xs = ap suc (length-put bs i xs)

pub slice-put_same :
    (bs : Bytes) (i : ℕ) (xs : Bytes)
    → i + length xs ≤ length bs
    → slice (put bs i xs) i (length xs) ≡ xs
unfolding put
slice-put_same [] zero [] h = refl
slice-put_same [] zero (x ∷ xs) h = absurd (omega arith)
slice-put_same [] (suc i) [] h = absurd (omega arith)
slice-put_same [] (suc i) (x ∷ xs) h = absurd (omega arith)
slice-put_same (b ∷ bs) zero [] h = refl
slice-put_same (b ∷ bs) zero (x ∷ xs) h = ap (◌∷◌ x) (slice-put_same bs zero xs (omega arith))
slice-put_same (b ∷ bs) (suc i) xs h = slice-put_same bs i xs (omega arith)

put-nil : (bs : Bytes) → put bs zero [] ≡ bs
unfolding put
put-nil [] = refl
put-nil (b ∷ bs) = refl

-- A write at or behind the end of a prefix leaves the prefix.
pub take-put_below : (bs : Bytes) (n i : ℕ) (xs : Bytes) → n ≤ i → take n (put bs i xs) ≡ take n bs
unfolding put
take-put_below [] zero i xs h = refl
take-put_below [] (suc n) i xs h = refl
take-put_below (b ∷ bs) zero i xs h = refl
take-put_below (b ∷ bs) (suc n) zero xs h = absurd (omega arith)
take-put_below (b ∷ bs) (suc n) (suc i) xs h = ap (◌∷◌ b) (take-put_below bs n i xs (omega arith))

pub slice-put_before :
    (bs : Bytes) (j n i : ℕ) (xs : Bytes) → j + n ≤ i → slice (put bs i xs) j n ≡ slice bs j n
unfolding put
slice-put_before bs zero n i xs h = take-put_below bs n i xs (omega arith)
slice-put_before [] (suc j) n i xs h = refl
slice-put_before (b ∷ bs) (suc j) n zero xs h = absurd (omega arith)
slice-put_before (b ∷ bs) (suc j) n (suc i) xs h = slice-put_before bs j n i xs (omega arith)

drop-put_after :
    (bs : Bytes) (j i : ℕ) (xs : Bytes) → i + length xs ≤ j → drop j (put bs i xs) ≡ drop j bs
unfolding put
drop-put_after [] j i xs h = refl
drop-put_after (b ∷ bs) j zero [] h = refl
drop-put_after (b ∷ bs) zero zero (x ∷ xs) h = absurd (omega arith)
drop-put_after (b ∷ bs) (suc j) zero (x ∷ xs) h = drop-put_after bs j zero xs (omega arith)
drop-put_after (b ∷ bs) zero (suc i) xs h = absurd (omega arith)
drop-put_after (b ∷ bs) (suc j) (suc i) xs h = drop-put_after bs j i xs (omega arith)

pub slice-put_after :
    (bs : Bytes) (j n i : ℕ) (xs : Bytes)
    → i + length xs ≤ j
    → slice (put bs i xs) j n ≡ slice bs j n
slice-put_after bs j n i xs h = ap (take n) (drop-put_after bs j i xs h)

-- A write of `width` bytes at `at`.
pub record Write : Type 0 where
  pub at : ℕ
  pub width : ℕ
  pub bytes : Bytes

-- Several writes, the latest first.
abbrev pub put_all : Bytes → List Write → Bytes
put_all bs [] = bs
put_all bs (w ∷ ws) = put (put_all bs ws) w.at w.bytes

abbrev pub HasWidth : Write → Type 0
HasWidth w = length w.bytes ≡ w.width

-- The bytes that the writes leave in `n` places from `i`, if one write fills exactly these and no
-- later one touches them.
abbrev pub written : ℕ → ℕ → ℕ → List Write → Option Bytes
written size i n [] = none
written size i n (w ∷ ws) =
    let earlier = written size i n ws in
    if w.at == i && w.width == n && leb (i + n) size
    then some w.bytes
    else if leb (w.at + w.width) i || leb (i + n) w.at
    then earlier
    else none

pub length-put_all : (bs : Bytes) (ws : List Write) → length (put_all bs ws) ≡ length bs
length-put_all bs [] = refl
length-put_all bs (w ∷ ws) =
    omega (arith, length-put (put_all bs ws) w.at w.bytes, length-put_all bs ws)

written_step :
    (bs : Bytes) (size i n : ℕ) (w : Write) {xs : Bytes} (earlier : Option Bytes)
    → length bs ≡ size
    → HasWidth w
    → (earlier ≡ some xs → slice bs i n ≡ xs)
    → (if w.at == i && w.width == n && leb (i + n) size
        then some w.bytes
        else if leb (w.at + w.width) i || leb (i + n) w.at
        then earlier
        else none)
      ≡ some xs
    → slice (put bs w.at w.bytes) i n ≡ xs
written_step bs size i n w earlier e h ih eq = ground (
  arith,
  slice-put_same bs w.at w.bytes,
  slice-put_after bs i n w.at w.bytes,
  slice-put_before bs i n w.at w.bytes,
  ih,
)

pub slice-put_all :
    (bs : Bytes) (size i n : ℕ) (ws : List Write) {xs : Bytes}
    → length bs ≡ size
    → All HasWidth ws
    → written size i n ws ≡ some xs
    → slice (put_all bs ws) i n ≡ xs
slice-put_all bs size i n [] e h eq = cc
slice-put_all bs size i n (w ∷ ws) e h eq =
    written_step (put_all bs ws) size i n w (written size i n ws)
      (omega (arith, length-put_all bs ws)) h.0 (slice-put_all bs size i n ws e h.1) eq

-- No write touches the `n` places from `i`.
abbrev pub untouched : ℕ → ℕ → List Write → Bool
untouched i n [] = true
untouched i n (w ∷ ws) = (leb (w.at + w.width) i || leb (i + n) w.at) && untouched i n ws

untouched_step :
    (bs : Bytes) (i n : ℕ) (w : Write) (rest : Bool)
    → HasWidth w
    → ((leb (w.at + w.width) i || leb (i + n) w.at) && rest) ≡ true
    → (rest ≡ true) × (slice (put bs w.at w.bytes) i n ≡ slice bs i n)
untouched_step bs i n w rest h eq =
    ground (arith, slice-put_after bs i n w.at w.bytes, slice-put_before bs i n w.at w.bytes)

pub slice-put_all-untouched :
    (bs : Bytes) (i n : ℕ) (ws : List Write)
    → All HasWidth ws
    → untouched i n ws ≡ true
    → slice (put_all bs ws) i n ≡ slice bs i n
slice-put_all-untouched bs i n [] h eq = refl
slice-put_all-untouched bs i n (w ∷ ws) h eq =
    let (later, same) = untouched_step (put_all bs ws) i n w (untouched i n ws) h.0 eq in
    same ∙ slice-put_all-untouched bs i n ws h.1 later

pub take-take : (m n : ℕ) (xs : Bytes) → m ≤ n → take m (take n xs) ≡ take m xs
take-take zero n xs h = refl
take-take (suc m) zero xs h = absurd (omega arith)
take-take (suc m) (suc n) [] h = refl
take-take (suc m) (suc n) (x ∷ xs) h = ap (◌∷◌ x) (take-take m n xs (omega arith))

-- A field inside a prefix is read from the prefix.
pub slice-take : (i k n : ℕ) (xs : Bytes) → i + k ≤ n → slice (take n xs) i k ≡ slice xs i k
slice-take zero k n xs h = take-take k n xs (omega arith)
slice-take (suc i) k zero xs h = absurd (omega arith)
slice-take (suc i) k (suc n) [] h = refl
slice-take (suc i) k (suc n) (x ∷ xs) h = slice-take i k n xs (omega arith)

-- Behind the end of a buffer's slice of one byte stands that byte.
pub get_or-slice : (xs : Bytes) (i : ℕ) {b : ℕ} → slice xs i 1 ≡ b ∷ [] → get_or xs i 0 ≡ b
get_or-slice [] zero e = cc
get_or-slice [] (suc i) e = cc
get_or-slice (x ∷ xs) zero e = cc
get_or-slice (x ∷ xs) (suc i) e = get_or-slice xs i e

take-put_within :
    (bs : Bytes) (n : ℕ) (xs : Bytes)
    → n ≤ length xs
    → length xs ≤ length bs
    → take n (put bs zero xs) ≡ take n xs
unfolding put
take-put_within bs zero xs h k = refl
take-put_within [] (suc n) [] h k = absurd (omega arith)
take-put_within [] (suc n) (x ∷ xs) h k = absurd (omega arith)
take-put_within (b ∷ bs) (suc n) [] h k = absurd (omega arith)
take-put_within (b ∷ bs) (suc n) (x ∷ xs) h k =
    ap (◌∷◌ x) (take-put_within bs n xs (omega arith) (omega arith))

-- Inside a write at the start of the buffer stands what was written.
pub slice-put_within :
    (bs : Bytes) (j n : ℕ) (xs : Bytes)
    → j + n ≤ length xs
    → length xs ≤ length bs
    → slice (put bs zero xs) j n ≡ slice xs j n
unfolding put
slice-put_within bs zero n xs h k = take-put_within bs n xs (omega arith) k
slice-put_within [] (suc j) n [] h k = absurd (omega arith)
slice-put_within [] (suc j) n (x ∷ xs) h k = absurd (omega arith)
slice-put_within (b ∷ bs) (suc j) n [] h k = absurd (omega arith)
slice-put_within (b ∷ bs) (suc j) n (x ∷ xs) h k =
    slice-put_within bs j n xs (omega arith) (omega arith)
