-- ===== src/Movement/Sparse.antt =====
-- The sparse placement: `mix64`, `sparseChunkFor` and `placeSparse`.
pub mod Placed
use Prim.Native.Nat.{bit_xor}
use native.Mathlib.Nat.{mod-lt}
use cks_loadtest.Base.{
  ℕ, suc, ◌+◌, ◌*◌, ◌/◌, ◌%◌, ◌^◌, ◌<◌, ◌≤◌, ◌≡◌, arith, refl, Bool, if◌then◌else◌, max,
}
use cks_loadtest.Base.Int.{
  ℤ, pos, negsuc, pos_part, neg_part, sub_ℕ, ◌-ℤ◌, ◌*ℤ◌, ◌+ℤ◌, ◌≤ℤ◌, -ℤ_parts,
}
use cks_loadtest.Base.Words.{u64, u64_of_i64}
use cks_loadtest.Platform.{Floats}
use cks_loadtest.Config.{Config, is_bwf, effective_chunk_size}
use cks_loadtest.Control.{ClientCredentials}
use cks_loadtest.Worker.Client.{Sim}
use cks_loadtest.Movement.{Random, Axes, axes, put_axes}

-- splitmix64
unfoldable pub mix64 : ℕ → ℕ
mix64 x =
    let a = u64 (x + 11_400_714_819_323_198_485) in
    let b = u64 (bit_xor a (a / 2 ^ 30) * 13_787_848_793_156_543_929) in
    let c = u64 (bit_xor b (b / 2 ^ 27) * 10_723_151_780_598_845_931) in bit_xor c (c / 2 ^ 31)

-- `index / d` on `int`, which rounds towards 0.
abbrev pub quot : ℤ → ℕ → ℤ
quot (pos n) d = pos (n / d)
quot (negsuc n) d = sub_ℕ 0 (suc n / d)

module _ {fl : Floats} (cfg : Config fl) where
  -- `std::max(1, cfg.sparseGroup)`
  abbrev pub group_size : ℕ
  group_size = max 1 (pos_part cfg.sparse_group)

  abbrev pub sparse_slot : ℤ → ℕ
  sparse_slot index = u64_of_i64 (quot index group_size)

  -- The number of chunks on an axis; the range is positive.
  abbrev pub sparse_span : ℕ
  sparse_span = 2 * pos_part cfg.sparse_range_chunks + 1

  unfoldable pub sparse_chunk_for : ℤ → ℤ × ℤ
  sparse_chunk_for index =
      let slot = sparse_slot index in
      let h1 = mix64 (u64 (slot * 2 + 1)) in
      let h2 = mix64 (u64 (slot * 2 + 2)) in
      (
        pos (h1 % sparse_span) -ℤ cfg.sparse_range_chunks,
        pos (h2 % sparse_span) -ℤ cfg.sparse_range_chunks,
      )

  -- In the range, both ways.
  abbrev pub IsInRange : ℤ → Type 0
  IsInRange c = (pos 0 ≤ℤ cfg.sparse_range_chunks +ℤ c) × (c ≤ℤ cfg.sparse_range_chunks)

  abbrev pub walk_height : fl.Double
  walk_height = if is_bwf cfg then fl.of_i64 (pos 20) else fl.of_i64 (pos 0)

  unfoldable pub place_sparse :
      (rnd : Random fl) → ClientCredentials → rnd.Gen → Sim fl → rnd.Gen × Sim fl
  place_sparse rnd creds g s =
      let (c1, c2) = sparse_chunk_for creds.index in
      let (jitter1, g1) = rnd.uniform_real (fl.literal (pos 1) 1) (fl.literal (pos 9) 1) g in
      let (jitter2, g2) = rnd.uniform_real (fl.literal (pos 1) 1) (fl.literal (pos 9) 1) g1 in
      let size = effective_chunk_size cfg in
      let t = record s { sparse_c1 = c1; sparse_c2 = c2 } in
      (
        g2,
        put_axes cfg
            (record (axes cfg t) {
              h1 = fl.mul (fl.add (fl.of_i64 c1) jitter1) size;
              h2 = fl.mul (fl.add (fl.of_i64 c2) jitter2) size;
              up = walk_height;
            })
            t,
      )
