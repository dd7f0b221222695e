-- ===== src/Config/File/Layered.antt =====
-- What the layers find of a file's entries.
use cks_loadtest.Base.{
  ℕ, suc, ◌-◌, ◌≡◌, refl, ap, ◌∙◌, arith, Bool, true, false, ◌&&◌, Bool-cases, inl, inr, Option,
  none, some, List, [], ◌∷◌, ◌++◌, map, All, if◌then◌else◌, ◌==◌, take, drop, leb, length, get_or,
  take-append, length-append, append_assoc, sym,
}
use mathlib.Core.Option
use cks_loadtest.Base.Text.{Text, text_eq, is_empty, find_char}
use cks_loadtest.Config.Bind.{trim, drop_blanks, drop_trailing, is_blank}
use cks_loadtest.Config.File.{
  Kv, empty_kv, assign, unquote, parse_line, store_line, parse_lines, get, get_file, or_else,
}

-- A key that can stand in a file: no blanks at its ends, no `=`, and no `#` in front.
abbrev pub IsKey : Text → Type 0
IsKey key =
    (is_blank (get_or key 0 32) ≡ false)
    × ((get_or key 0 0 == 35) ≡ false)
    × (drop_trailing key ≡ key)
    × (find_char 61 key ≡ none)

-- KEY="VALUE"
abbrev pub render : Text × Text → Text
render (key, val) = key ++ (61 ∷ 34 ∷ (val ++ (34 ∷ [])))

-- The last entry of a key.
abbrev pub last_entry : Text → List (Text × Text) → Text → Text
last_entry name [] r = r
last_entry name ((key, val) ∷ kvs) r = last_entry name kvs (if text_eq name key then val else r)

drop_blanks-append :
    (key ys : Text) → is_blank (get_or key 0 32) ≡ false → drop_blanks (key ++ ys) ≡ key ++ ys
unfolding drop_blanks
drop_blanks-append [] ys h = ground arith
drop_blanks-append (c ∷ cs) ys h = rw h refl

is_empty-end : (xs : Text) (c : ℕ) → is_empty (xs ++ (c ∷ [])) ≡ false
unfolding is_empty
is_empty-end [] c = refl
is_empty-end (x ∷ xs) c = refl

and_false : (b : Bool) → (b && false) ≡ false
and_false true = refl
and_false false = refl

drop_blanks-key : (key : Text) → is_blank (get_or key 0 32) ≡ false → drop_blanks key ≡ key
unfolding drop_blanks
drop_blanks-key [] h = ground arith
drop_blanks-key (c ∷ cs) h = rw h refl

-- What follows the last character that is not blank is dropped, and no more.
drop_trailing-end :
    (xs : Text) (c : ℕ) → is_blank c ≡ false → drop_trailing (xs ++ (c ∷ [])) ≡ xs ++ (c ∷ [])
unfolding drop_trailing is_empty
drop_trailing-end [] c h = rw h refl
drop_trailing-end (x ∷ xs) c h =
    rw (drop_trailing-end xs c h, is_empty-end xs c, and_false (is_blank x)) refl

else_of : (b : Bool) (o : Option ℕ) → b ≡ false → (if b then some 0 else o) ≡ none → o ≡ none
else_of b o h e = ground arith

map-none : (o : Option ℕ) → Option.map suc o ≡ none → o ≡ none
map-none none h = refl
map-none (some n) h = ground arith

find_char-append :
    (c : ℕ) (key ys : Text)
    → find_char c key ≡ none
    → find_char c (key ++ (c ∷ ys)) ≡ some (length key)
unfolding find_char
find_char-append c [] ys h = ground arith
find_char-append c (k ∷ ks) ys h = elim (Bool-cases (k == c)) [
  | inl same ↦ ground arith
  | inr other ↦
      rw (other, find_char-append c ks ys (map-none (find_char c ks) (else_of (k == c) _ other h)))
        refl
]

drop-past : (key ys : Text) (c : ℕ) → drop (suc (length key)) (key ++ (c ∷ ys)) ≡ ys
drop-past [] ys c = refl
drop-past (k ∷ ks) ys c = drop-past ks ys c

trim-render : (key val : Text) → IsKey key → trim (render (key, val)) ≡ render (key, val)
unfolding trim
trim-render key val (front, mark, back, plain) =
    let whole = append_assoc key (61 ∷ 34 ∷ val) (34 ∷ []) in
    rw (drop_blanks-append key (61 ∷ 34 ∷ (val ++ (34 ∷ []))) front)
      (ap drop_trailing (sym whole) ∙ drop_trailing-end (key ++ (61 ∷ 34 ∷ val)) 34 refl ∙ whole)

get_or-end : (xs : Text) (c d : ℕ) → get_or (xs ++ (c ∷ [])) (length xs) d ≡ c
get_or-end [] c d = refl
get_or-end (x ∷ xs) c d = get_or-end xs c d

unquote-between :
    (v : Text)
    → leb 2 (length v) ≡ true
    → get_or v 0 0 ≡ 34
    → get_or v (length v - 1) 0 ≡ 34
    → unquote v ≡ take (length v - 2) (drop 1 v)
unfolding unquote
unquote-between v long first last = rw (long, first, last) refl

unquote-quoted : (val : Text) → unquote (34 ∷ (val ++ (34 ∷ []))) ≡ val
unquote-quoted val =
    let v = 34 ∷ (val ++ (34 ∷ [])) in
    let n = length-append val (34 ∷ []) in
    let at_end : length v - 1 ≡ suc (length val) = omega (arith, n) in
    let inside : length v - 2 ≡ length val = omega (arith, n) in
    unquote-between v (ground (arith, n)) refl (ap (λ i. get_or v i 0) at_end ∙ get_or-end val 34 0)
    ∙ ap (λ i. take i (val ++ (34 ∷ []))) inside
    ∙ take-append val (34 ∷ [])

trim-key : (key : Text) → IsKey key → trim key ≡ key
unfolding trim
trim-key key (front, mark, back, plain) = rw (drop_blanks-key key front) back

trim-quoted : (val : Text) → trim (34 ∷ (val ++ (34 ∷ []))) ≡ 34 ∷ (val ++ (34 ∷ []))
unfolding trim drop_blanks
trim-quoted val = drop_trailing-end (34 ∷ val) 34 refl

is_empty-mid : (key ys : Text) (c : ℕ) → is_empty (key ++ (c ∷ ys)) ≡ false
unfolding is_empty
is_empty-mid [] ys c = refl
is_empty-mid (k ∷ ks) ys c = refl

front-append :
    (key ys : Text) → (get_or key 0 0 == 35) ≡ false → (get_or (key ++ (61 ∷ ys)) 0 0 == 35) ≡ false
front-append [] ys h = refl
front-append (k ∷ ks) ys h = h

parse_line-render : (key val : Text) → IsKey key → parse_line (render (key, val)) ≡ some (key, val)
unfolding parse_line
parse_line-render key val is_key =
    let (front, mark, back, plain) = is_key in
    let quoted = 34 ∷ (val ++ (34 ∷ [])) in
    rw
      (
        trim-render key val is_key,
        is_empty-mid key quoted 61,
        front-append key quoted mark,
        find_char-append 61 key quoted plain,
        take-append key (61 ∷ quoted),
        drop-past key quoted 61,
        trim-key key is_key,
        trim-quoted val,
        unquote-quoted val,
      )
      refl

assign-or_else :
    (name key val : Text) (kv : Kv) (r : Text)
    → or_else (assign key val kv name) r ≡ (if text_eq name key then val else or_else (kv name) r)
assign-or_else name key val kv r = elim (Bool-cases (text_eq name key)) [
  | inl e ↦ rw e refl
  | inr e ↦ rw e refl
]

parse_lines-get :
    (name : Text) (kvs : List (Text × Text)) (kv : Kv) (r : Text)
    → All (λ p. IsKey p.0) kvs
    → or_else (parse_lines (map render kvs) kv name) r ≡ last_entry name kvs (or_else (kv name) r)
unfolding parse_lines
parse_lines-get name [] kv r keys = refl
parse_lines-get name ((key, val) ∷ kvs) kv r (is_key, keys) =
    ap (λ p. or_else (parse_lines (map render kvs) (store_line p kv) name) r)
      (parse_line-render key val is_key)
    ∙ parse_lines-get name kvs (assign key val kv) r keys
    ∙ ap (last_entry name kvs) (assign-or_else name key val kv r)

get_file-or_else :
    (set found : Option Text) (fallback : Text)
    → get_file set found fallback ≡ or_else set (or_else found fallback)
get_file-or_else none found fallback = refl
get_file-or_else (some v) found fallback = refl

-- A setting that is read from a file of lines KEY="VALUE", whatever characters the values have, is the
-- value of the environment, if it is set there, else that of the last line with its key, else the
-- fallback. A key has no blanks at its ends, no equals sign, and no # in front.
pub get-Layered :
    (env : Text → Option Text) (kvs : List (Text × Text)) (name fallback : Text)
    → All (λ p. IsKey p.0) kvs
    → get (record { env = env; file = parse_lines (map render kvs) empty_kv }) name fallback
      ≡ or_else (env name) (last_entry name kvs fallback)
unfolding get
get-Layered env kvs name fallback keys =
    get_file-or_else (env name) (parse_lines (map render kvs) empty_kv name) fallback
    ∙ ap (or_else (env name)) (parse_lines-get name kvs empty_kv fallback keys)
