-- ===== src/Placement.antt =====
-- The placement of clients in the world, of src/SimClient.hpp: the cube, and the projection to chunks.
use native.Mathlib.Nat.{
  div-div-eq-div-mul, mod-lt, mul-pos, add-mod_right, div-lt_iff_lt-mul, mod-eq_of_lt, mod-add-div,
  mod-mod, add-mul-mod_self_left,
}
use cks_loadtest.Base.{
  ℕ, suc, ◌+◌, ◌-◌, ◌*◌, ◌/◌, ◌%◌, ◌<◌, ◌≡◌, sym, ap, ◌∙◌, arith, if◌then◌else◌,
}
use cks_loadtest.Base.Int.{ℤ, pos, negsuc, pos_part, ◌+ℤ◌, ◌-ℤ◌, ltb_ℤ}
use cks_loadtest.Platform.{Floats}
use cks_loadtest.Config.{Config, is_bwf, effective_chunk_size}
use cks_loadtest.Control.{ClientCredentials}
use cks_loadtest.Worker.Client.{Sim}
use cks_loadtest.Harness.Spread.{rem}

-- The slot of a client with global index `index` in a cube of edge `n`, `n` from 1 to 64.
unfoldable pub cube_slot : ℕ → ℤ → ℕ
cube_slot n index =
    let slots = n * n * n in
    let raw = pos_part (rem index slots +ℤ pos slots) % slots in raw * (1 + n + n * n) % slots

-- The chunk of a slot on the first horizontal axis, the vertical and the second horizontal one,
-- counted from the cube's lowest chunk.
unfoldable pub cube_chunk : ℕ → ℕ → ℕ × ℕ × ℕ
cube_chunk n idx = (idx % n, idx / n % n, idx / (n * n) % n)

-- `cubeMinHorizontal`
unfoldable pub cube_min_horizontal : ℕ → ℤ
cube_min_horizontal volume_chunks = pos 0 -ℤ pos (volume_chunks / 2)

-- The horizontal axes and the vertical one: X, Y and Z up, or X, Z and Y up for the BWF profile.
abbrev pub set_axes :
    {fl : Floats} → Config fl → fl.Double → fl.Double → fl.Double → Sim fl → Sim fl
set_axes cfg h1 h2 up s =
    if is_bwf cfg
    then record s { world_x = h1; world_z = h2; world_y = up }
    else record s { world_x = h1; world_y = h2; world_z = up }

-- `placeInCube`, with the three jitters in the order in which they are drawn, for a cube that has an
-- edge of at least 1.
unfoldable pub place_in_cube :
    {fl : Floats}
    → Config fl
    → ClientCredentials
    → fl.Double
    → fl.Double
    → fl.Double
    → Sim fl
    → Sim fl
place_in_cube {fl = fl} cfg creds jitter1 jitter2 jitter_up s =
    let n = pos_part cfg.volume_chunks in
    let (i1, iup, i2) = cube_chunk n (cube_slot n creds.index) in
    let size = effective_chunk_size cfg in
    set_axes cfg (fl.mul (fl.add (fl.of_i64 (cube_min_horizontal n +ℤ pos i1)) jitter1) size)
      (fl.mul (fl.add (fl.of_i64 (cube_min_horizontal n +ℤ pos i2)) jitter2) size)
      (fl.mul (fl.add (fl.of_i64 (cfg.volume_base_up +ℤ pos iup)) jitter_up) size) s

-- `floor(world / size)` as a chunk coordinate.
abbrev pub chunk_of : (fl : Floats) → fl.Double → fl.Double → ℤ
chunk_of fl size w = fl.to_i64 (fl.floor (fl.div w size))

unfoldable pub project_pose : {fl : Floats} → Config fl → Sim fl → Sim fl
project_pose {fl = fl} cfg s =
    let size = effective_chunk_size cfg in
    let t = record s {
      chunk_x = chunk_of fl size s.world_x;
      chunk_y = chunk_of fl size s.world_y;
      chunk_z = chunk_of fl size s.world_z;
    } in
    if is_bwf cfg
    then record t { pos_x = s.world_x; pos_y = s.world_y; pos_z = s.world_z }
    else record t {
      pos_x = fl.sub s.world_x (fl.mul (fl.of_i64 t.chunk_x) size);
      pos_y = fl.sub s.world_y (fl.mul (fl.of_i64 t.chunk_y) size);
      pos_z =
          if ltb_ℤ (pos 0) cfg.volume_chunks
          then fl.sub s.world_z (fl.mul (fl.of_i64 t.chunk_z) size)
          else fl.of_i64 (negsuc 59);
    }

parts_lem : (n a b : ℕ) → a % n ≡ b % n → a / n ≡ b / n → a ≡ b
parts_lem n a b low high =
    sym (mod-add-div a n)
    ∙ ap (λ (t : ℕ). t + n * (a / n)) low
    ∙ ap (λ (t : ℕ). b % n + n * t) high
    ∙ mod-add-div b n

cube-pos : (n : ℕ) → 0 < n → (0 < n * n) × (0 < n * n * n)
cube-pos n h = (mul-pos h h, mul-pos (mul-pos h h) h)

top-lt : (n idx : ℕ) → 0 < n → idx < n * n * n → idx / (n * n) < n
top-lt n idx h l = (div-lt_iff_lt-mul (cube-pos n h).0).1 (grind (arith, l))

chunk_slot :
    (n idx jdx : ℕ)
    → 0 < n
    → idx < n * n * n
    → jdx < n * n * n
    → cube_chunk n idx ≡ cube_chunk n jdx
    → idx ≡ jdx
unfolding cube_chunk
chunk_slot n idx jdx h l k e =
    let low : idx % n ≡ jdx % n = ap (λ (a, b, c). a) e in
    let mid : idx / n % n ≡ jdx / n % n = ap (λ (a, b, c). b) e in
    let top : idx / (n * n) % n ≡ jdx / (n * n) % n = ap (λ (a, b, c). c) e in
    let whole : idx / (n * n) ≡ jdx / (n * n) =
      sym (mod-eq_of_lt (top-lt n idx h l)) ∙ top ∙ mod-eq_of_lt (top-lt n jdx h k) in
    let deep : idx / n / n ≡ jdx / n / n =
      div-div-eq-div-mul idx n n ∙ whole ∙ sym (div-div-eq-div-mul jdx n n) in
    parts_lem n idx jdx low (parts_lem n (idx / n) (jdx / n) mid deep)

inverse :
    (n M : ℕ) → suc M ≡ n * n * n → (1 + n + n * n) * (1 + n * M) ≡ 1 + suc M * (n + n * n + M)
inverse n M e = let top : suc M * M ≡ n * n * n * M = ap (λ (t : ℕ). t * M) e in grind (arith, top)

combine :
    (N q r raw k c w : ℕ)
    → r + N * q ≡ raw * k
    → k * c ≡ 1 + N * w
    → r * c + N * (q * c) ≡ raw + N * (raw * w)
combine N q r raw k c w s i =
    let scaled : (r + N * q) * c ≡ raw * k * c = ap (λ (t : ℕ). t * c) s in
    let lifted : raw * (k * c) ≡ raw * (1 + N * w) = ap (λ (t : ℕ). raw * t) i in
    grind (arith, scaled, lifted)

unmix :
    (n M raw : ℕ)
    → suc M ≡ n * n * n
    → (raw * (1 + n + n * n) % suc M) * (1 + n * M) % suc M ≡ raw % suc M
unmix n M raw e =
    let q : ℕ = raw * (1 + n + n * n) / suc M in
    let split : raw * (1 + n + n * n) % suc M + suc M * q ≡ raw * (1 + n + n * n) =
      mod-add-div (raw * (1 + n + n * n)) (suc M) in
    let r : ℕ = raw * (1 + n + n * n) % suc M in
    let back : r * (1 + n * M) + suc M * (q * (1 + n * M)) ≡ raw + suc M * (raw * (n + n * n + M)) =
      combine (suc M) q r raw (1 + n + n * n) (1 + n * M) (n + n * n + M) split (inverse n M e) in
    sym (add-mul-mod_self_left (r * (1 + n * M)) (suc M) (q * (1 + n * M)))
    ∙ ap (λ (t : ℕ). t % suc M) back
    ∙ add-mul-mod_self_left raw (suc M) (raw * (n + n * n + M))

cube_slot-lt : (n : ℕ) (index : ℤ) → 0 < n → cube_slot n index < n * n * n
unfolding cube_slot
cube_slot-lt n index h = mod-lt _ (cube-pos n h).1

sum_parts : (a b : ℕ) → pos_part (pos a +ℤ pos b) ≡ a + b
unfolding ◌+ℤ◌
sum_parts a b = ground arith

slot_lem :
    (n i : ℕ)
    → cube_slot n (pos i)
      ≡ (i % (n * n * n) + n * n * n) % (n * n * n) * (1 + n + n * n) % (n * n * n)
unfolding cube_slot rem
slot_lem n i =
    ap (λ (t : ℕ). t % (n * n * n) * (1 + n + n * n) % (n * n * n))
      (sum_parts (i % (n * n * n)) (n * n * n))

unmix_slot :
    (n : ℕ)
    → 0 < n
    → (i : ℕ) → cube_slot n (pos i) * (1 + n * (n * n * n - 1)) % (n * n * n) ≡ i % (n * n * n)
unmix_slot n h i =
    let N : ℕ = n * n * n in
    let some_slots : 0 < N = (cube-pos n h).1 in
    let e : suc (N - 1) ≡ N = omega arith in
    let raw : ℕ = (i % N + N) % N in
    let same : raw % N ≡ i % N = mod-mod (i % N + N) N ∙ add-mod_right (i % N) N ∙ mod-mod i N in
    let mixed : raw * (1 + n + n * n) % N * (1 + n * (N - 1)) % N ≡ raw % N =
      rw e at (unmix n (N - 1) raw e) in
    ap (λ (t : ℕ). t * (1 + n * (N - 1)) % N) (slot_lem n i) ∙ mixed ∙ same

-- Two clients of the cube whose global indices differ modulo its number of slots stand in different
-- chunks: the chunks of a cube of edge `n` (at least 1) determine the index modulo `n * n * n`.
pub cube_chunk-distinct :
    (n : ℕ)
    → 0 < n
    → (i j : ℕ) → cube_chunk n (cube_slot n (pos i)) ≡ cube_chunk n (cube_slot n (pos j))
    → i % (n * n * n) ≡ j % (n * n * n)
cube_chunk-distinct n h i j e =
    let same : cube_slot n (pos i) ≡ cube_slot n (pos j) =
      chunk_slot n (cube_slot n (pos i)) (cube_slot n (pos j)) h (cube_slot-lt n (pos i) h)
        (cube_slot-lt n (pos j) h) e in
    sym (unmix_slot n h i)
    ∙ ap (λ (t : ℕ). t * (1 + n * (n * n * n - 1)) % (n * n * n)) same
    ∙ unmix_slot n h j
